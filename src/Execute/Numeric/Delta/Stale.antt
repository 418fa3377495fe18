-- ===== src/Execute/Numeric/Delta/Stale.antt =====
-- The decoded elements do not depend on what the reused buffer held.
use ozlrip.Prelude.{
  leb, ◌==◌, le→leb, Bool-cases, length, take, drop, replicate, length-append, length-take,
  length-drop, length-replicate, ℕ, zero, suc, ◌+◌, ◌-◌, ◌*◌, ◌/◌, ◌%◌, ◌^◌, ◌≡◌, refl, ap, inl,
  inr, true, List, [], ◌∷◌, ◌++◌, map, arith,
}
use ozlrip.Core.{Bytes, ok, ◌>>=◌, index}
use ozlrip.Execute.Elements.{from_le_bytes, chunks, chunks_exact, is_numeric_width}
use ozlrip.Execute.Elements.Values.{elements, bytes_of}
use ozlrip.Execute.Numeric.Delta.{
  resize, running_bytes, zip_deltas, write_deltas, decode_delta_elements,
}
use native.Mathlib.Nat.{mod-add-div'}

-- The running sums of words.
unfoldable pub sums : ℕ → ℕ → List ℕ → List ℕ
sums w previous [] = []
sums w previous (delta ∷ deltas) =
    let next = (previous + delta) % 2 ^ (8 * w) in next ∷ sums w next deltas

-- Where the output has room for as many elements as there are deltas, all of it is overwritten.
zip_deltas-sums :
    (w previous : ℕ) (out : Bytes) (deltas : List Bytes)
    → length out ≡ length deltas * w
    → zip_deltas w previous out deltas ≡ bytes_of w (sums w previous (map from_le_bytes deltas))
unfolding zip_deltas sums bytes_of
zip_deltas-sums w previous [] [] h = refl
zip_deltas-sums w previous (b ∷ out) [] h = absurd (omega arith)
zip_deltas-sums w previous out (delta ∷ deltas) h =
    let next = (previous + from_le_bytes delta) % 2 ^ (8 * w) in
    let fits : leb w (length out) ≡ true = le→leb w (length out) (grind arith) in
    let rest = zip_deltas-sums w next (drop w out) deltas (omega (arith, length-drop w out)) in
    rw (fits, rest) refl

running_bytes-sums :
    (previous : ℕ) (deltas : Bytes)
    → running_bytes previous deltas
      ≡ bytes_of 1 (sums 1 previous (map from_le_bytes (chunks (length deltas) 1 deltas)))
unfolding running_bytes sums bytes_of
running_bytes-sums previous [] = refl
running_bytes-sums previous (delta ∷ deltas) =
    let next = (previous + delta) % 256 in
    let same : (previous + (delta + 0)) % 256 ≡ next = omega arith in
    let byte : next % 256 ≡ next = omega arith in
    rw (same, byte) (ap (◌∷◌ next) (running_bytes-sums next deltas))

pub length-resize : (n : ℕ) (bytes : Bytes) → length (resize n bytes) ≡ n
unfolding resize
length-resize n bytes = omega (
  arith,
  length-append (take n bytes) (replicate (n - length bytes) 0),
  length-take n bytes,
  length-replicate {A = ℕ} (n - length bytes) 0,
)

length-chunks : (count w : ℕ) (bytes : Bytes) → length (chunks count w bytes) ≡ count
length-chunks zero w bytes = refl
length-chunks (suc count) w bytes = ap suc (length-chunks count w (drop w bytes))

one_byte :
    (header stored : Bytes)
    → length header ≡ 1
    → (index header 0 >>= λ previous. ok (previous ∷ running_bytes previous stored))
      ≡ ok (header ++ bytes_of 1 (sums 1 (from_le_bytes header) (elements 1 stored)))
unfolding elements chunks_exact
one_byte [] stored h = absurd (omega arith)
one_byte (b ∷ c ∷ rest) stored h = absurd (omega arith)
one_byte (b ∷ []) stored h =
    let count : length stored / 1 ≡ length stored = omega arith in
    let first : b + 0 ≡ b = omega arith in
    rw (count, first) (ap (λ t. ok (b ∷ t)) (running_bytes-sums b stored))

-- With a header of one element of a numeric width and whole deltas, the kernel of delta writes the header
-- and the running sums after it, whatever the buffer held before, and does not panic.
pub decode_delta_elements-sums :
    (stored header : Bytes) (w : ℕ) (stale : Bytes)
    → is_numeric_width w ≡ true
    → length header ≡ w
    → length stored % w ≡ 0
    → decode_delta_elements stored header w (length header + length stored) stale
      ≡ ok (header ++ bytes_of w (sums w (from_le_bytes header) (elements w stored)))
unfolding decode_delta_elements write_deltas elements chunks_exact
decode_delta_elements-sums stored header w stale e h whole = elim (Bool-cases (w == 1)) [
  | inl p ↦
      rw (p) (let only : w ≡ 1 = ground arith in rw only (one_byte header stored (omega arith)))
  | inr p ↦
      let out = resize (length header + length stored) stale in
      let size = length-resize (length header + length stored) stale in
      let room : leb w (length out) ≡ true = le→leb w (length out) (omega (arith, size)) in
      let same : (length header == w) ≡ true = ground arith in
      let tail : length (drop w out) ≡ length (chunks (length stored / w) w stored) * w = omega (
        arith,
        size,
        length-drop w out,
        mod-add-div' (length stored) w,
        ap (λ n. n * w) (length-chunks (length stored / w) w stored),
      ) in
      rw (p, e, room, same, zip_deltas-sums w (from_le_bytes header) (drop w out) _ tail) refl
]
