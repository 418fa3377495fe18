-- ===== src/Execute/Layout/Transpose/Lanes.antt =====
-- Rows of lanes, and loops over the chunks of an output:
-- crates/decode/src/execute/layout/fast_transpose.rs.
use ozlrip.Prelude.{
  ◌==◌, length, take, drop, get_elem?, All, length-append, length-take, length-drop,
  lt-get_elem?-some, ℕ, zero, suc, ◌+◌, ◌*◌, ◌/◌, ◌≤◌, ◌<◌, ◌≡◌, refl, sym, ap, ◌∙◌, false, Option,
  none, some, List, [], ◌∷◌, ◌++◌, arith,
}
use ozlrip.Core.{Bytes, ok, index}
use ozlrip.Execute.Streams.{StreamInput}
use ozlrip.Execute.Numeric.Delta.{resize}
use ozlrip.Execute.Numeric.Delta.Stale.{length-resize}
use ozlrip.Execute.Layout.FastTranspose.{ChunkBody, write_chunks, for_each_chunk, zip_lanes}
use ozlrip.Execute.Layout.Transpose.Rows.{byte_at}
use native.Mathlib.Nat.{mul-div_cancel}

-- Every lane has `n` bytes.
abbrev pub AreLong : ℕ → List StreamInput → Type 0
AreLong n lanes = All (λ (lane : StreamInput). length lane.bytes ≡ n) lanes

-- Byte `element` of each lane.
abbrev pub row : List StreamInput → ℕ → Bytes
row [] element = []
row (lane ∷ lanes) element = byte_at lane.bytes element ∷ row lanes element

-- The rows of `left` elements.
unfoldable pub rows : ℕ → ℕ → List StreamInput → Bytes
rows zero element lanes = []
rows (suc left) element lanes = row lanes element ++ rows left (element + 1) lanes

pub length-row :
    (lanes : List StreamInput) (element : ℕ) → length (row lanes element) ≡ length lanes
length-row [] element = refl
length-row (lane ∷ lanes) element = ap suc (length-row lanes element)

pub length-rows :
    (left element : ℕ) (lanes : List StreamInput)
    → length (rows left element lanes) ≡ left * length lanes
unfolding rows
length-rows zero element lanes = omega arith
length-rows (suc left) element lanes =
    let first = length-row lanes element in
    let others = length-rows left (element + 1) lanes in
    let both = length-append (row lanes element) (rows left (element + 1) lanes) in grind arith

pub get-row :
    (lanes : List StreamInput) (element k : ℕ) (lane : StreamInput)
    → get_elem? lanes k ≡ some lane
    → get_elem? (row lanes element) k ≡ some (byte_at lane.bytes element)
get-row [] element k lane e = absurd (cc e)
get-row (first ∷ lanes) element zero lane e =
    ap
      (λ (l : Option StreamInput). elim l [ none ↦ none | some s ↦ some (byte_at s.bytes element) ])
      e
get-row (first ∷ lanes) element (suc k) lane e = get-row lanes element k lane e

pub byte_at-get :
    (bytes : Bytes) (i : ℕ) → i < length bytes → get_elem? bytes i ≡ some (byte_at bytes i)
byte_at-get bytes i h =
    let (b, e) = lt-get_elem?-some bytes i h in
    let shown : byte_at bytes i ≡ b = rw (e, byte_at) refl in e ∙ ap some (sym shown)

pub index-byte_at :
    (bytes : Bytes) (i : ℕ) → i < length bytes → index bytes i ≡ ok (byte_at bytes i)
index-byte_at bytes i h =
    let (b, e) = lt-get_elem?-some bytes i h in
    let shown : byte_at bytes i ≡ b = rw (e, byte_at) refl in rw (shown, e, index) refl

-- A loop over chunks whose body writes a row each writes the rows.
write_chunks-rows :
    (n left w i : ℕ) (body : ChunkBody) (lanes : List StreamInput) (output : Bytes)
    → ((k : ℕ) (out : Bytes) → k < n → length out ≡ w → body k out ≡ ok (row lanes k))
    → i + left ≤ n
    → length output ≡ left * w
    → write_chunks left w i body output ≡ ok (rows left i lanes)
unfolding write_chunks rows
write_chunks-rows n zero w i body lanes [] writes end h = refl
write_chunks-rows n zero w i body lanes (b ∷ output) writes end h = absurd (omega arith)
write_chunks-rows n (suc left) w i body lanes output writes end h =
    let long : w ≤ length output = grind arith in
    let first = writes i (take w output) (omega arith) (omega (arith, length-take w output)) in
    let others =
      write_chunks-rows n left w (i + 1) body lanes (drop w output) writes (omega arith)
        (omega (arith, length-drop w output)) in
    rw (first, others) refl

pub for_each_chunk-rows :
    (n w : ℕ) (body : ChunkBody) (lanes : List StreamInput) (output : Bytes)
    → 0 < w
    → ((k : ℕ) (out : Bytes) → k < n → length out ≡ w → body k out ≡ ok (row lanes k))
    → for_each_chunk w body (resize (n * w) output) ≡ ok (rows n 0 lanes)
unfolding for_each_chunk
for_each_chunk-rows n w body lanes output wide writes =
    let divides : (w == 0) ≡ false = ground arith in
    let size = length-resize (n * w) output in
    let count : length (resize (n * w) output) / w ≡ n = rw size (mul-div_cancel n wide) in
    let written =
      write_chunks-rows n n w 0 body lanes (resize (n * w) output) writes (omega arith) size in
    rw (divides, count) written

pub zip_lanes-row :
    (n : ℕ) (lanes : List StreamInput) (element : ℕ) (out : Bytes)
    → AreLong n lanes
    → element < n
    → length out ≡ length lanes
    → zip_lanes lanes element out ≡ ok (row lanes element)
unfolding zip_lanes
zip_lanes-row n [] element [] long inside h = refl
zip_lanes-row n [] element (b ∷ out) long inside h = absurd (omega arith)
zip_lanes-row n (lane ∷ lanes) element [] long inside h = absurd (omega arith)
zip_lanes-row n (lane ∷ lanes) element (b ∷ out) (size, long) inside h =
    rw
      (
        index-byte_at lane.bytes element (omega arith),
        zip_lanes-row n lanes element out long inside (omega arith),
      )
      refl
