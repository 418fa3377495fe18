-- ===== src/Execute/Numeric/Divide/Products.antt =====
-- `divide_by` multiplies every element by the divisor, and refuses a product that does not fit.
use ozlrip.Prelude.{
  ltb, if◌then◌else◌, Bool-cases, length, All, ℕ, ◌-◌, ◌*◌, ◌%◌, ◌^◌, ◌≡◌, refl, sym, ap, ◌∙◌, inl,
  inr, true, false, Option, List, [], ◌∷◌, ◌++◌, map, append-nil, append_assoc, arith,
}
use ozlrip.Core.{Bytes, malformed, error, Result, ok, err, ◌>>=◌, u64_mod, Limits}
use ozlrip.Execute.Streams.{typed_stream}
use ozlrip.Execute.Output.{check_output_len, alloc_output}
use ozlrip.Execute.Elements.{
  from_le_bytes, to_le_bytes, chunks_exact, is_numeric_width, max_numeric_value, read_element,
  push_numeric_element, validate_numeric_stream_width,
}
use ozlrip.Execute.Elements.Words.{word_mod-pos}
use ozlrip.Execute.Elements.Values.{
  elements, bytes_of, is_numeric_width-pos, numeric_element_count-whole, chunks_exact-width,
  word_mod-u64, all_fit,
}
use ozlrip.Execute.Numeric.Divide.{parse_divide_by_divisor, push_products, decode_divide_by_node}

-- What a loop over elements with a check of each result returns.
abbrev pub checked : ℕ → Bytes → List ℕ → Result Bytes
checked w output values =
    if all_fit (2 ^ (8 * w)) values then ok (output ++ bytes_of w values) else err (error malformed)

-- The loop goes on after a value that fits.
pub checked-cons :
    (w value : ℕ) (output : Bytes) (values : List ℕ)
    → ltb value (2 ^ (8 * w)) ≡ true
    → checked w (output ++ to_le_bytes w value) values ≡ checked w output (value ∷ values)
unfolding bytes_of
checked-cons w value output values p =
    let joined = append_assoc output (to_le_bytes w value) (bytes_of w values) in
    rw (p, joined) refl

-- A value past the width ends it.
pub checked-over :
    (w value : ℕ) (output : Bytes) (values : List ℕ)
    → ltb value (2 ^ (8 * w)) ≡ false
    → err (error malformed) ≡ checked w output (value ∷ values)
checked-over w value output values p = rw p refl

pub checked-typed :
    (w : ℕ) (values : List ℕ)
    → (checked w [] values >>= λ bytes. ok (typed_stream bytes w)) ≡ (
        if all_fit (2 ^ (8 * w)) values
        then ok (typed_stream (bytes_of w values) w)
        else err (error malformed))
checked-typed w values = elim (Bool-cases (all_fit (2 ^ (8 * w)) values)) [
  | inl p ↦ rw p refl
  | inr p ↦ rw p refl
]

push_products-checked :
    (w divisor : ℕ) (output : Bytes) (rest : List Bytes)
    → is_numeric_width w ≡ true
    → All (λ (chunk : Bytes). length chunk ≡ w) rest
    → push_products w divisor (2 ^ (8 * w) - 1) output rest
      ≡ checked w output (map (λ value. value * divisor) (map from_le_bytes rest))
unfolding push_products bytes_of read_element push_numeric_element
push_products-checked w divisor output [] e widths = ap ok (sym (append-nil output))
push_products-checked w divisor output (element ∷ rest) e (h, hs) =
    let value = from_le_bytes element * divisor in
    let others = map (λ value. value * divisor) (map from_le_bytes rest) in
    let bound = word_mod-u64 w e in
    elim (Bool-cases (ltb value (2 ^ (8 * w)))) [
      | inl p ↦
          let fits : ltb value u64_mod ≡ true = ground arith in
          let under : ltb (2 ^ (8 * w) - 1) value ≡ false = ground arith in
          let next = output ++ to_le_bytes w value in
          rw (h, e, fits, under)
            (push_products-checked w divisor next rest e hs ∙ checked-cons w value output others p)
      | inr p ↦ elim (Bool-cases (ltb value u64_mod)) [
        | inl q ↦
            let over : ltb (2 ^ (8 * w) - 1) value ≡ true = ground (arith, word_mod-pos w) in
            rw (h, e, q, over) (checked-over w value output others p)
        | inr q ↦ rw (h, e, q) (checked-over w value output others p)
      ]
    ]

-- On whole elements of a numeric width, with a header that holds a divisor and a length within the
-- limits: the node returns every element times the divisor where all of these products fit the width,
-- and else it refuses the stream as malformed. No product wraps around.
pub decode_divide_by_node-eq :
    (w divisor : ℕ) (bytes header : Bytes) (lengths : Option (List ℕ)) (limits : Limits)
    → is_numeric_width w ≡ true
    → length bytes % w ≡ 0
    → parse_divide_by_divisor header w ≡ ok divisor
    → check_output_len (length bytes) limits ≡ ok tt
    → decode_divide_by_node
        (record { bytes = bytes; element_width = w; string_lengths = lengths })
        header
        limits
      ≡ (let values = map (λ value. value * divisor) (elements w bytes) in
          if all_fit (2 ^ (8 * w)) values
          then ok (typed_stream (bytes_of w values) w)
          else err (error malformed))
unfolding decode_divide_by_node elements validate_numeric_stream_width alloc_output
    max_numeric_value
decode_divide_by_node-eq w divisor bytes header lengths limits e whole parsed room =
    let counted = numeric_element_count-whole w bytes (is_numeric_width-pos w e) whole in
    let products =
      push_products-checked w divisor [] (chunks_exact w bytes) e
        (chunks_exact-width w bytes whole) in
    let values = map (λ value. value * divisor) (map from_le_bytes (chunks_exact w bytes)) in
    rw (e, counted, parsed, room, products) (checked-typed w values)
