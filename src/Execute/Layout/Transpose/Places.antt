-- ===== src/Execute/Layout/Transpose/Places.antt =====
-- Where the transpose node puts every byte.
use ozlrip.Prelude.{
  ◌==◌, length, get_elem?, lt-get_elem?-some, get_elem?-append, get_elem?-behind, ℕ, zero, suc, ◌+◌,
  ◌*◌, ◌/◌, ◌%◌, ◌<◌, ◌≡◌, refl, sym, ap, ◌∙◌, true, false, Option, some, List, [], ◌++◌, arith,
}
use ozlrip.Core.{Bytes, ok, Limits}
use ozlrip.Execute.Streams.{Buffer, pooled_stream, require_empty_header}
use ozlrip.Execute.Output.{check_output_len}
use ozlrip.Execute.Runtime.{DecodeScratch, take_stale_byte_buffer}
use ozlrip.Execute.Layout.Transpose.{transposed_width, decode_transpose_node}
use ozlrip.Execute.Layout.Transpose.Rows.{
  byte_at, column, columns, length-column, length-columns, transposed,
}
use native.Mathlib.Nat.{mul-mod_left, mul-div_cancel}

get-column :
    (n w i k : ℕ) (source : Bytes)
    → k < n
    → get_elem? (column n w i source) k ≡ some (byte_at source (k * w + i))
unfolding column
get-column zero w i k source h = absurd (omega arith)
get-column (suc n) w i zero source h = let same : 0 * w + i ≡ i = omega arith in rw same refl
get-column (suc n) w i (suc k) source h =
    let same : k * w + (i + w) ≡ suc k * w + i = grind arith in
    get-column n w (i + w) k source (omega arith) ∙ ap (λ p. some (byte_at source p)) same

get-columns :
    (left n w i j k : ℕ) (source : Bytes)
    → j < left
    → k < n
    → get_elem? (columns left n w i source) (j * n + k) ≡ some (byte_at source (k * w + (i + j)))
unfolding columns
get-columns zero n w i j k source h l = absurd (omega arith)
get-columns (suc left) n w i zero k source h l =
    let here : 0 * n + k ≡ k = omega arith in
    let same : i + 0 ≡ i = omega arith in
    rw (here, same)
      (get_elem?-append (column n w i source) (columns left n w (i + 1) source) k
        (get-column n w i k source l))
get-columns (suc left) n w i (suc j) k source h l =
    let col = column n w i source in
    let size : length col ≡ n = length-column n w i source in
    let behind : suc j * n + k ≡ length col + (j * n + k) = rw size (grind arith) in
    let same : i + 1 + j ≡ i + suc j = omega arith in
    ap (get_elem? (col ++ columns left n w (i + 1) source)) behind
    ∙ get_elem?-behind col (columns left n w (i + 1) source) (j * n + k)
    ∙ get-columns left n w (i + 1) j k source (omega arith) l
    ∙ ap (λ p. some (byte_at source (k * w + p))) same

-- On one whole element or more of a width that is not 0, within the limits, and on every pool that hands out
-- a buffer, whatever that holds: the transpose node returns, in the buffer handed out, a stream as long as
-- the source, with byte `j` of element `k` at place `k` of element `j`, of as many bytes an element as the source has
-- elements.
pub decode_transpose_node-places :
    (allocate : ℕ → Option ℕ) (w n : ℕ) (bytes : Bytes) (lengths : Option (List ℕ))
    (limits : Limits)
    → (scratch rest : DecodeScratch) (buffer : Buffer) → 0 < w
    → 0 < n
    → length bytes ≡ n * w
    → check_output_len (length bytes) limits ≡ ok tt
    → take_stale_byte_buffer allocate scratch (length bytes) ≡ ok (buffer, rest)
    → (output : Bytes) × (decode_transpose_node allocate
          (record { bytes = bytes; element_width = w; string_lengths = lengths })
          []
          limits
          scratch
        ≡ ok (pooled_stream (record { bytes = output; capacity = buffer.capacity }) n, rest))
      × (length output ≡ length bytes)
      × ((j k : ℕ) → j < w → k < n → get_elem? output (j * n + k) ≡ get_elem? bytes (k * w + j))
unfolding decode_transpose_node transposed_width require_empty_header
decode_transpose_node-places allocate w n bytes lengths limits scratch rest buffer positive
      some_elements size room taken =
    let elements : length bytes / w ≡ n = rw size (mul-div_cancel n positive) in
    let whole : length bytes % w ≡ 0 = rw size (mul-mod_left n w) in
    let multiple : (length bytes % w == 0) ≡ true = ground arith in
    let wide : (w == 0) ≡ false = ground arith in
    let filled : (n == 0) ≡ false = ground arith in
    let moved = transposed w n bytes buffer.bytes size in
    (
      columns w n w 0 bytes,
      rw (wide, multiple, room, elements, filled, taken, moved) refl,
      long,
      place,
    )
  where
    long : length (columns w n w 0 bytes) ≡ length bytes
    long = let all = length-columns w n w 0 bytes in grind arith

    place :
        (j k : ℕ)
        → j < w
        → k < n
        → get_elem? (columns w n w 0 bytes) (j * n + k) ≡ get_elem? bytes (k * w + j)
    place j k h l =
        let inside : k * w + j < length bytes = grind (arith, size) in
        let (b, e) = lt-get_elem?-some bytes (k * w + j) inside in
        let shown : byte_at bytes (k * w + j) ≡ b = rw (e, byte_at) refl in
        let from : 0 + j ≡ j = omega arith in
        get-columns w n w 0 j k bytes h l
        ∙ ap (λ p. some (byte_at bytes (k * w + p))) from
        ∙ ap some shown
        ∙ sym e
