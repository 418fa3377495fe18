-- ===== src/Execute/Numeric/Delta/RoundTrip.antt =====
-- Decoding undoes the differences, in the layout of every format version.
use ozlrip.Prelude.{
  ltb, leb, ◌==◌, if◌then◌else◌, lt→ltb, le→leb, Bool-cases, length, take, drop, All, length-append,
  length-take, length-drop, take-drop, All-take, All-drop, ℕ, suc, ◌+◌, ◌-◌, ◌*◌, ◌%◌, ◌^◌, ◌≤◌,
  ◌<◌, ◌≡◌, refl, sym, ap, ◌∙◌, inl, inr, true, false, Option, List, [], ◌∷◌, ◌++◌, arith,
}
use ozlrip.Core.{Bytes, IsByte, ok, usize_mod, checked_add, Limits}
use ozlrip.Execute.Streams.{StreamInput, Buffer, pooled_stream, require_empty_header}
use ozlrip.Execute.Output.{check_output_len}
use ozlrip.Execute.Runtime.{DecodeScratch, take_stale_byte_buffer}
use ozlrip.Execute.Elements.{from_le_bytes, is_numeric_width, validate_numeric_stream_width}
use ozlrip.Execute.Elements.Words.{word_mod-pos, from_le_bytes-bound}
use ozlrip.Execute.Elements.Values.{
  elements, bytes_of, length-bytes_of, take-length-append, drop-length-append, wrapped,
  elements-bytes_of, bytes_of-elements, length-elements, elements-AllWords, is_numeric_width-pos,
  numeric_element_count-whole,
}
use ozlrip.Execute.Numeric.Delta.{
  decode_delta_elements, delta_header_version_min, split_at_checked, first_and_deltas, fill_deltas,
  decode_delta_node,
}
use ozlrip.Execute.Numeric.Delta.Stale.{sums, decode_delta_elements-sums}
use native.Mathlib.Nat.{mod-eq_of_lt, mod-lt, add-mod_right, mod-add-div'}

unfoldable pub differences : ℕ → ℕ → List ℕ → List ℕ
differences w previous [] = []
differences w previous (value ∷ values) =
    (value + 2 ^ (8 * w) - previous) % 2 ^ (8 * w) ∷ differences w value values

undo : (p v m : ℕ) → p < m → v < m → (p + (v + m - p) % m) % m ≡ v
undo p v m hp hv = elim (Bool-cases (leb p v)) [
  | inl q ↦
      let up : v + m - p ≡ v - p + m = ground arith in
      let wrap : (v - p + m) % m ≡ v - p = grind arith in
      let back : p + (v - p) ≡ v = ground arith in rw (up, wrap, back) (mod-eq_of_lt hv)
  | inr q ↦
      let low : (v + m - p) % m ≡ v + m - p = mod-eq_of_lt (ground arith) in
      let back : p + (v + m - p) ≡ v + m = ground arith in rw (low, back) (grind arith)
]

sums-differences :
    (w previous : ℕ) (values : List ℕ)
    → previous < 2 ^ (8 * w)
    → All (λ value. value < 2 ^ (8 * w)) values
    → sums w previous (wrapped w (differences w previous values)) ≡ values
unfolding sums differences wrapped
sums-differences w previous [] h all = refl
sums-differences w previous (value ∷ values) h (l, ls) =
    let step = undo previous value (2 ^ (8 * w)) h l in
    let small : (value + 2 ^ (8 * w) - previous) % 2 ^ (8 * w) < 2 ^ (8 * w) =
      mod-lt _ (word_mod-pos w) in
    let kept = mod-eq_of_lt small in
    rw (kept, step) (ap (◌∷◌ value) (sums-differences w value values l ls))

-- The deltas of a stream that is not empty.
unfoldable pub deltas_of : ℕ → Bytes → Bytes
deltas_of w bytes =
    bytes_of w (differences w (from_le_bytes (take w bytes)) (elements w (drop w bytes)))

-- The header and the stream that an encoder of a format version writes.
unfoldable pub encode_delta : ℕ → ℕ → Bytes → Bytes × Bytes
encode_delta format_version w bytes =
    if ltb format_version delta_header_version_min
    then ([], take w bytes ++ deltas_of w bytes)
    else (take w bytes, deltas_of w bytes)

length-differences :
    (w previous : ℕ) (values : List ℕ) → length (differences w previous values) ≡ length values
unfolding differences
length-differences w previous [] = refl
length-differences w previous (value ∷ values) = ap suc (length-differences w value values)

module _ (w : ℕ) (bytes : Bytes) (long : w ≤ length bytes) (whole : length bytes % w ≡ 0) where
  length-rest : length (drop w bytes) ≡ length bytes - w
  length-rest = length-drop w bytes

  whole-rest : length (drop w bytes) % w ≡ 0
  whole-rest =
      let sum : length bytes ≡ length bytes - w + w = omega arith in
      let same = add-mod_right (length bytes - w) w in
      rw length-rest (sym same ∙ ap (λ n. n % w) (sym sum) ∙ whole)

  length-deltas_of : length (deltas_of w bytes) ≡ length bytes - w
  unfolding deltas_of
  length-deltas_of =
      let first = from_le_bytes (take w bytes) in
      length-bytes_of w (differences w first (elements w (drop w bytes)))
      ∙ ap (λ n. n * w)
          (length-differences w first (elements w (drop w bytes))
            ∙ length-elements w (drop w bytes))
      ∙ omega (arith, mod-add-div' (length (drop w bytes)) w, whole-rest, length-rest)

  length-first : length (take w bytes) ≡ w
  length-first = omega (arith, length-take w bytes)

  -- The kernel undoes the differences.
  decode-deltas_of :
      (stale : Bytes)
      → is_numeric_width w ≡ true
      → All IsByte bytes
      → decode_delta_elements (deltas_of w bytes) (take w bytes) w (length bytes) stale ≡ ok bytes
  unfolding deltas_of
  decode-deltas_of stale e all =
      let first = take w bytes in
      let values = elements w (drop w bytes) in
      let deltas = differences w (from_le_bytes first) values in
      let small : from_le_bytes first < 2 ^ (8 * w) =
        rw length-first at (from_le_bytes-bound first (All-take IsByte w bytes all)) in
      let words = elements-AllWords w (drop w bytes) whole-rest (All-drop IsByte w bytes all) in
      let whole-deltas : length (deltas_of w bytes) % w ≡ 0 =
        rw (length-deltas_of, sym length-rest) whole-rest in
      let size : length first + length (deltas_of w bytes) ≡ length bytes =
        omega (arith, length-first, length-deltas_of) in
      let decoded =
        decode_delta_elements-sums (deltas_of w bytes) first w stale e length-first whole-deltas in
      let given : sums w (from_le_bytes first) (elements w (deltas_of w bytes)) ≡ values =
        ap (sums w (from_le_bytes first)) (elements-bytes_of w deltas (is_numeric_width-pos w e))
        ∙ sums-differences w (from_le_bytes first) values small words in
      let back : bytes_of w values ≡ drop w bytes =
        bytes_of-elements w (drop w bytes) whole-rest (All-drop IsByte w bytes all) in
      ap (λ n. decode_delta_elements (deltas_of w bytes) first w n stale) (sym size)
      ∙ decoded
      ∙ ap (λ t. ok (first ++ bytes_of w t)) given
      ∙ ap (λ t. ok (first ++ t)) back
      ∙ ap ok (take-drop w bytes)

  -- What the node reads from the layout of its version.
  first_and_deltas-encode_delta :
      (format_version : ℕ) (lengths : Option (List ℕ))
      → 0 < w
      → let stored : StreamInput = record {
        bytes = (encode_delta format_version w bytes).1;
        element_width = w;
        string_lengths = lengths;
      } in
        first_and_deltas stored ((encode_delta format_version w bytes).0) format_version
        ≡ ok (take w bytes, deltas_of w bytes)
  unfolding first_and_deltas encode_delta require_empty_header split_at_checked
  first_and_deltas-encode_delta format_version lengths h =
      elim (Bool-cases (ltb format_version delta_header_version_min)) [
        | inl p ↦
            let front : take w (take w bytes ++ deltas_of w bytes) ≡ take w bytes =
              rw length-first at (take-length-append (take w bytes) (deltas_of w bytes)) in
            let back : drop w (take w bytes ++ deltas_of w bytes) ≡ deltas_of w bytes =
              rw length-first at (drop-length-append (take w bytes) (deltas_of w bytes)) in
            let fits : leb w (length (take w bytes ++ deltas_of w bytes)) ≡ true =
              le→leb w _
                (omega (arith, length-first, length-append (take w bytes) (deltas_of w bytes))) in
            rw (p, fits, front, back) refl
        | inr p ↦
            let full : (length (take w bytes) == 0) ≡ false = ground (arith, length-first) in
            let same : (length (take w bytes) == w) ≡ true = ground (arith, length-first) in
            rw (p, full, same) refl
      ]

  stored-whole : (format_version : ℕ) → length ((encode_delta format_version w bytes).1) % w ≡ 0
  unfolding encode_delta
  stored-whole format_version = elim (Bool-cases (ltb format_version delta_header_version_min)) [
    | inl p ↦
        let all_of_it : length (take w bytes ++ deltas_of w bytes) ≡ length bytes = omega (
          arith,
          length-append (take w bytes) (deltas_of w bytes),
          length-first,
          length-deltas_of,
        ) in
        rw (p, all_of_it) whole
    | inr p ↦ rw (p, length-deltas_of, sym length-rest) whole-rest
  ]

-- In every format version, for a stream of whole elements of a numeric width that is not empty, shorter
-- than 2 ^ 64 bytes and within the limits, and on every pool that hands out a buffer: the delta node
-- decodes the header and the differences that an encoder of the version writes to the stream, in the
-- buffer handed out, whatever it held.
pub decode_delta-encode_delta :
    (allocate : ℕ → Option ℕ) (format_version w : ℕ) (bytes : Bytes) (lengths : Option (List ℕ))
    → (limits : Limits) (scratch rest : DecodeScratch) (buffer : Buffer) → is_numeric_width w ≡ true
    → w ≤ length bytes
    → length bytes % w ≡ 0
    → All IsByte bytes
    → length bytes < usize_mod
    → check_output_len (length bytes) limits ≡ ok tt
    → take_stale_byte_buffer allocate scratch (length bytes) ≡ ok (buffer, rest)
    → decode_delta_node allocate
        (record {
          bytes = (encode_delta format_version w bytes).1;
          element_width = w;
          string_lengths = lengths;
        })
        ((encode_delta format_version w bytes).0)
        format_version
        limits
        scratch
      ≡ ok (pooled_stream (record { bytes = bytes; capacity = buffer.capacity }) w, rest)
unfolding decode_delta_node fill_deltas validate_numeric_stream_width checked_add
decode_delta-encode_delta allocate format_version w bytes lengths limits scratch rest buffer e long
      whole all small room taken =
    let positive = is_numeric_width-pos w e in
    let counted =
      numeric_element_count-whole w ((encode_delta format_version w bytes).1) positive
        (stored-whole w bytes long whole format_version) in
    let read = first_and_deltas-encode_delta w bytes long whole format_version lengths positive in
    let size : length (take w bytes) + length (deltas_of w bytes) ≡ length bytes =
      omega (arith, length-first w bytes long whole, length-deltas_of w bytes long whole) in
    let fits : ltb (length bytes) usize_mod ≡ true = lt→ltb (length bytes) usize_mod small in
    let full : (length (take w bytes) == 0) ≡ false =
      ground (arith, length-first w bytes long whole) in
    let decoded = decode-deltas_of w bytes long whole buffer.bytes e all in
    rw (e, counted, read, size, fits, room, full, taken, decoded) refl
