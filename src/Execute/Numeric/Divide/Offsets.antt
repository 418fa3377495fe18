-- ===== src/Execute/Numeric/Divide/Offsets.antt =====
-- `range_pack` adds the minimum to every element, and refuses a sum that does not fit.
use ozlrip.Prelude.{
  ltb, ◌==◌, if◌then◌else◌, lt→ltb, le→ltb, Bool-cases, length, All, ℕ, ◌+◌, ◌-◌, ◌*◌, ◌/◌, ◌%◌,
  ◌^◌, ◌≤◌, ◌<◌, ◌≡◌, refl, sym, ap, ◌∙◌, ◌⊎◌, inl, inr, true, false, Option, List, [], ◌∷◌, ◌++◌,
  map, append-nil, append_assoc, arith,
}
use ozlrip.Core.{Bytes, malformed, error, ok, err, usize_mod, u64_mod, checked_mul, Limits}
use ozlrip.Execute.Streams.{typed_stream}
use ozlrip.Execute.Output.{check_output_len, alloc_output}
use ozlrip.Execute.Elements.{
  from_le_bytes, to_le_bytes, chunks, chunks_exact, is_numeric_width, max_numeric_value,
  read_element, push_numeric_element, validate_numeric_stream_width,
}
use ozlrip.Execute.Elements.Words.{word_mod-pos}
use ozlrip.Execute.Elements.Values.{
  elements, bytes_of, is_numeric_width-pos, numeric_element_count-whole, chunks_exact-width,
  word_mod-u64, all_fit,
}
use ozlrip.Execute.Numeric.Divide.{
  range_minimum, first_or_zero, push_offset_bytes, push_offsets, add_minimum, range_pack_output,
  decode_range_pack_node,
}
use ozlrip.Execute.Numeric.Divide.Products.{checked, checked-cons, checked-over, checked-typed}

push_offsets-checked :
    (w minimum : ℕ) (output : Bytes) (width : ℕ) (rest : List Bytes)
    → is_numeric_width w ≡ true
    → is_numeric_width width ≡ true
    → All (λ (chunk : Bytes). length chunk ≡ width) rest
    → push_offsets w minimum (2 ^ (8 * w) - 1) output rest
      ≡ checked w output (map (λ value. value + minimum) (map from_le_bytes rest))
unfolding push_offsets bytes_of read_element push_numeric_element
push_offsets-checked w minimum output width [] e f widths = ap ok (sym (append-nil output))
push_offsets-checked w minimum output width (element ∷ rest) e f (h, hs) =
    let value = from_le_bytes element + minimum in
    let others = map (λ value. value + minimum) (map from_le_bytes rest) in
    let bound = word_mod-u64 w e in
    elim (Bool-cases (ltb value (2 ^ (8 * w)))) [
      | inl p ↦
          let fits : ltb value u64_mod ≡ true = ground arith in
          let under : ltb (2 ^ (8 * w) - 1) value ≡ false = ground arith in
          let next = output ++ to_le_bytes w value in
          rw (h, f, e, fits, under)
            (push_offsets-checked w minimum next width rest e f hs
              ∙ checked-cons w value output others p)
      | inr p ↦ elim (Bool-cases (ltb value u64_mod)) [
        | inl q ↦
            let over : ltb (2 ^ (8 * w) - 1) value ≡ true = ground (arith, word_mod-pos w) in
            rw (h, f, e, q, over) (checked-over w value output others p)
        | inr q ↦ rw (h, f, e, q) (checked-over w value output others p)
      ]
    ]

-- One byte at a time.
push_offset_bytes-checked :
    (minimum : ℕ) (output bytes : Bytes)
    → push_offset_bytes minimum output bytes
      ≡ checked 1 output
          (map (λ value. value + minimum) (map from_le_bytes (chunks (length bytes) 1 bytes)))
unfolding push_offset_bytes bytes_of
push_offset_bytes-checked minimum output [] = ap ok (sym (append-nil output))
push_offset_bytes-checked minimum output (b ∷ bytes) =
    let byte : b + 0 ≡ b = omega arith in
    let others =
      map (λ value. value + minimum) (map from_le_bytes (chunks (length bytes) 1 bytes)) in
    elim (Bool-cases (ltb (b + minimum) 256)) [
      | inl p ↦
          let low : (b + minimum) % 256 ≡ b + minimum = ground arith in
          let write : checked 1 (output ++ (b + minimum) ∷ []) others
              ≡ checked 1 (output ++ (b + minimum) % 256 ∷ []) others =
            ap (λ t. checked 1 (output ++ t ∷ []) others) (sym low) in
          let joined = append_assoc output ((b + minimum) % 256 ∷ []) (bytes_of 1 others) in
          rw (byte, p)
            (push_offset_bytes-checked minimum (output ++ (b + minimum) ∷ []) bytes
              ∙ write
              ∙ ap (λ t. if all_fit (2 ^ (8 * 1)) others then ok t else err (error malformed))
                  joined)
      | inr p ↦ rw (byte, p) refl
    ]

-- The header holds one element of the output, or none for the minimum 0.
abbrev pub IsMinimum : ℕ → Bytes → Type 0
IsMinimum output_width min_bytes = (min_bytes ≡ []) ⊎ (length min_bytes ≡ output_width)

first_or_zero-eq :
    (min_bytes : Bytes) → IsMinimum 1 min_bytes → first_or_zero min_bytes ≡ from_le_bytes min_bytes
first_or_zero-eq [] h = refl
first_or_zero-eq (b ∷ []) h = omega arith
first_or_zero-eq (b ∷ c ∷ bs) (inl e) = absurd (cc)
first_or_zero-eq (b ∷ c ∷ bs) (inr e) = absurd (omega arith)

range_minimum-eq :
    (output_width : ℕ) (min_bytes : Bytes)
    → is_numeric_width output_width ≡ true
    → IsMinimum output_width min_bytes
    → range_minimum min_bytes output_width ≡ ok (from_le_bytes min_bytes)
unfolding range_minimum read_element
range_minimum-eq output_width min_bytes e (inl none_given) = rw none_given refl
range_minimum-eq output_width min_bytes e (inr h) =
    let full : (output_width == 0) ≡ false = ground (arith, is_numeric_width-pos output_width e) in
    let same : (output_width == output_width) ≡ true = ground arith in rw (h, full, same, e) refl

one_byte :
    (min_bytes bytes : Bytes)
    → IsMinimum 1 min_bytes
    → push_offset_bytes (first_or_zero min_bytes) [] bytes
      ≡ checked 1 [] (map (λ value. value + from_le_bytes min_bytes) (elements 1 bytes))
unfolding elements chunks_exact
one_byte min_bytes bytes given =
    let count : length bytes / 1 ≡ length bytes = omega arith in
    rw (first_or_zero-eq min_bytes given, count)
      (push_offset_bytes-checked (from_le_bytes min_bytes) [] bytes)

add_minimum-checked :
    (w output_width : ℕ) (min_bytes bytes : Bytes)
    → is_numeric_width w ≡ true
    → is_numeric_width output_width ≡ true
    → w ≤ output_width
    → length bytes % w ≡ 0
    → IsMinimum output_width min_bytes
    → add_minimum w output_width (from_le_bytes min_bytes) min_bytes bytes []
      ≡ checked output_width [] (map (λ value. value + from_le_bytes min_bytes) (elements w bytes))
unfolding add_minimum elements max_numeric_value
add_minimum-checked w output_width min_bytes bytes e f fits whole given =
    elim (Bool-cases (output_width == 1)) [
      | inl p ↦
          let narrow : output_width ≡ 1 = ground arith in
          let only : w ≡ 1 = ground (arith, is_numeric_width-pos w e) in
          let given' : IsMinimum 1 min_bytes = rw narrow at given in
          rw (p, narrow, only) (one_byte min_bytes bytes given')
      | inr p ↦
          rw (p, f)
            (push_offsets-checked output_width (from_le_bytes min_bytes) [] w (chunks_exact w bytes)
              f e (chunks_exact-width w bytes whole))
    ]

-- On whole elements of a numeric width, with a header of an output width that is no smaller and a
-- minimum of that width or none, and an output shorter than 2 ^ 64 bytes and within the limits: the
-- node returns every element plus
-- the minimum at the output width where all of these sums fit it, and else it refuses the stream as
-- malformed. No sum wraps around.
pub decode_range_pack_node-eq :
    (w output_width : ℕ) (min_bytes bytes : Bytes) (lengths : Option (List ℕ)) (limits : Limits)
    → is_numeric_width w ≡ true
    → is_numeric_width output_width ≡ true
    → w ≤ output_width
    → length bytes % w ≡ 0
    → IsMinimum output_width min_bytes
    → length bytes / w * output_width < usize_mod
    → check_output_len (length bytes / w * output_width) limits ≡ ok tt
    → decode_range_pack_node
        (record { bytes = bytes; element_width = w; string_lengths = lengths })
        (output_width ∷ min_bytes)
        limits
      ≡ (let values = map (λ value. value + from_le_bytes min_bytes) (elements w bytes) in
          if all_fit (2 ^ (8 * output_width)) values
          then ok (typed_stream (bytes_of output_width values) output_width)
          else err (error malformed))
unfolding decode_range_pack_node range_pack_output validate_numeric_stream_width alloc_output
    checked_mul
decode_range_pack_node-eq w output_width min_bytes bytes lengths limits e f fits whole given small
      room =
    let counted = numeric_element_count-whole w bytes (is_numeric_width-pos w e) whole in
    let minimum = range_minimum-eq output_width min_bytes f given in
    let wide : ltb output_width w ≡ false = le→ltb output_width w fits in
    let small' : ltb (length bytes / w * output_width) usize_mod ≡ true = lt→ltb _ _ small in
    let added = add_minimum-checked w output_width min_bytes bytes e f fits whole given in
    rw (e, counted, f, wide, minimum, small', room, added)
      (checked-typed output_width
        (map (λ value. value + from_le_bytes min_bytes) (elements w bytes)))
