-- ===== src/Execute/Numeric/Zigzag/RoundTrip.antt =====
-- Decoding undoes the zigzag code.
use ozlrip.Prelude.{
  ltb, if◌then◌else◌, Bool-cases, length, All, ℕ, zero, suc, ◌-◌, ◌*◌, ◌/◌, ◌%◌, ◌^◌, ◌<◌, bit_and,
  ◌≡◌, refl, sym, ap, ◌∙◌, inl, inr, true, Option, List, [], ◌∷◌, ◌++◌, map, append-nil,
  append_assoc, arith,
}
use ozlrip.Prelude.Bits.{bit_xor-ones, bit_xor-zero, bit_and-one}
use ozlrip.Core.{Bytes, IsByte, ok, Limits}
use ozlrip.Execute.Streams.{typed_stream, require_empty_header}
use ozlrip.Execute.Output.{check_output_len, alloc_output}
use ozlrip.Execute.Elements.{
  from_le_bytes, to_le_bytes, chunks_exact, is_numeric_width, validate_numeric_stream_width,
}
use ozlrip.Execute.Elements.Values.{
  elements, bytes_of, length-bytes_of, wrapped, elements-bytes_of, bytes_of-elements, length-map,
  length-elements, elements-AllWords, is_numeric_width-pos, is_multiple_of-true,
}
use ozlrip.Execute.Numeric.Zigzag.{
  unzigzag, push_unzigzag, decode_numeric, decode_zigzag_numeric_chunk,
}
use native.Mathlib.Nat.{pow-suc, mod-eq_of_lt, mod_self, mod-add-div'}

-- The zigzag code of a two's complement word: the numbers 0, -1, 1, -2, ... in this order.
unfoldable pub zigzag : ℕ → ℕ → ℕ
zigzag bits x = if ltb x (2 ^ bits / 2) then 2 * x else 2 * (2 ^ bits - x) - 1

pub unzigzag-zigzag : (bits x : ℕ) → 0 < bits → x < 2 ^ bits → unzigzag bits (zigzag bits x) ≡ x
unfolding zigzag unzigzag
unzigzag-zigzag zero x h l = absurd (omega arith)
unzigzag-zigzag (suc k) x h l =
    let double : 2 ^ suc k ≡ 2 ^ k * 2 = pow-suc 2 k in
    elim (Bool-cases (ltb x (2 ^ suc k / 2))) [
      | inl q ↦
          let bit : bit_and (2 * x) 1 ≡ 0 = bit_and-one (2 * x) ∙ omega arith in
          let half : 2 * x / 2 ≡ x = omega arith in
          let mask : (2 ^ suc k - 0) % 2 ^ suc k ≡ 0 =
            let same : 2 ^ suc k - 0 ≡ 2 ^ suc k = omega arith in rw same (mod_self (2 ^ suc k)) in
          rw (q, bit, half, mask) (bit_xor-zero x)
      | inr q ↦
          let code = 2 * (2 ^ suc k - x) - 1 in
          let bit : bit_and code 1 ≡ 1 = bit_and-one code ∙ omega arith in
          let half : code / 2 ≡ 2 ^ suc k - x - 1 = omega arith in
          let mask : (2 ^ suc k - 1) % 2 ^ suc k ≡ 2 ^ suc k - 1 = mod-eq_of_lt (omega arith) in
          rw (q, bit, half, mask)
            (bit_xor-ones (suc k) (2 ^ suc k - x - 1) (omega arith) ∙ omega arith)
    ]

-- The stream that an encoder writes for the elements of `bytes`.
unfoldable pub encode_zigzag : ℕ → Bytes → Bytes
encode_zigzag w bytes = bytes_of w (map (zigzag (8 * w)) (elements w bytes))

push_unzigzag-bytes_of :
    (w : ℕ) (output : Bytes) (rest : List Bytes)
    → push_unzigzag w output rest
      ≡ output ++ bytes_of w (map (unzigzag (8 * w)) (map from_le_bytes rest))
unfolding push_unzigzag bytes_of
push_unzigzag-bytes_of w output [] = sym (append-nil output)
push_unzigzag-bytes_of w output (encoded ∷ rest) =
    let first = to_le_bytes w (unzigzag (8 * w) (from_le_bytes encoded)) in
    push_unzigzag-bytes_of w (output ++ first) rest
    ∙ append_assoc output first (bytes_of w (map (unzigzag (8 * w)) (map from_le_bytes rest)))

zigzag-bound : (bits x : ℕ) → 0 < bits → x < 2 ^ bits → zigzag bits x < 2 ^ bits
unfolding zigzag
zigzag-bound zero x h l = absurd (omega arith)
zigzag-bound (suc k) x h l = ground (arith, pow-suc 2 k)

-- Decoding the codes of words, which all fit.
unzigzag-each :
    (w : ℕ) (values : List ℕ)
    → 0 < w
    → All (λ value. value < 2 ^ (8 * w)) values
    → map (unzigzag (8 * w)) (wrapped w (map (zigzag (8 * w)) values)) ≡ values
unfolding wrapped
unzigzag-each w [] h all = refl
unzigzag-each w (value ∷ values) h (l, ls) =
    let fits : zigzag (8 * w) value % 2 ^ (8 * w) ≡ zigzag (8 * w) value =
      mod-eq_of_lt (zigzag-bound (8 * w) value (omega arith) l) in
    rw (fits, unzigzag-zigzag (8 * w) value (omega arith) l)
      (ap (◌∷◌ value) (unzigzag-each w values h ls))

length-encode_zigzag :
    (w : ℕ) (bytes : Bytes) → length bytes % w ≡ 0 → length (encode_zigzag w bytes) ≡ length bytes
unfolding encode_zigzag
length-encode_zigzag w bytes whole =
    length-bytes_of w (map (zigzag (8 * w)) (elements w bytes))
    ∙ ap (λ n. n * w) (length-map (zigzag (8 * w)) (elements w bytes) ∙ length-elements w bytes)
    ∙ omega (arith, mod-add-div' (length bytes) w)

decode_numeric-encode_zigzag :
    (w : ℕ) (bytes : Bytes)
    → is_numeric_width w ≡ true
    → length bytes % w ≡ 0
    → All IsByte bytes
    → decode_numeric (encode_zigzag w bytes) w [] ≡ ok bytes
unfolding decode_numeric encode_zigzag elements
decode_numeric-encode_zigzag w bytes e whole all =
    let values = elements w bytes in
    let positive = is_numeric_width-pos w e in
    let codes = bytes_of w (map (zigzag (8 * w)) values) in
    let given : push_unzigzag w [] (chunks_exact w codes) ≡ bytes =
      push_unzigzag-bytes_of w [] (chunks_exact w codes)
      ∙ ap (λ t. bytes_of w (map (unzigzag (8 * w)) t))
          (elements-bytes_of w (map (zigzag (8 * w)) values) positive)
      ∙ ap (bytes_of w) (unzigzag-each w values positive (elements-AllWords w bytes whole all))
      ∙ bytes_of-elements w bytes whole all in
    rw e (ap ok given)

-- For whole elements of a numeric width whose length is within the limits, the zigzag node decodes their
-- zigzag codes to them.
pub decode_zigzag-encode_zigzag :
    (w : ℕ) (bytes : Bytes) (lengths : Option (List ℕ)) (limits : Limits)
    → is_numeric_width w ≡ true
    → length bytes % w ≡ 0
    → All IsByte bytes
    → check_output_len (length bytes) limits ≡ ok tt
    → decode_zigzag_numeric_chunk
        (record { bytes = encode_zigzag w bytes; element_width = w; string_lengths = lengths })
        []
        limits
      ≡ ok (typed_stream bytes w)
unfolding decode_zigzag_numeric_chunk require_empty_header validate_numeric_stream_width
    alloc_output
decode_zigzag-encode_zigzag w bytes lengths limits e whole all room =
    let same = length-encode_zigzag w bytes whole in
    let multiple = is_multiple_of-true (length bytes) w (is_numeric_width-pos w e) whole in
    rw (e, same, multiple, room, decode_numeric-encode_zigzag w bytes e whole all) refl
