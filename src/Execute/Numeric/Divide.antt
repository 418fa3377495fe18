-- ===== src/Execute/Numeric/Divide.antt =====
-- crates/decode/src/execute/numeric/arithmetic.rs: `divide_by` and `range_pack`.
pub mod Products
pub mod Offsets
use ozlrip.Prelude.{ltb, ◌==◌, if◌then◌else◌, length, ℕ, ◌+◌, ◌*◌, not, ◌||◌, List, [], ◌∷◌, ◌++◌}
use ozlrip.Core.{
  Bytes, malformed, error, Result, ok, err, ◌>>=◌, ◌>>◌, fail_if, u64_mod, checked_mul, Limits,
}
use ozlrip.Execute.Streams.{StreamInput, OwnedStream, typed_stream}
use ozlrip.Execute.Output.{alloc_output}
use ozlrip.Execute.Elements.{
  chunks_exact, read_var_u64, is_numeric_width, max_numeric_value, read_element,
  push_numeric_element, validate_numeric_stream_width, numeric_element_count,
}

unfoldable pub parse_divide_by_divisor : Bytes → ℕ → Result ℕ
parse_divide_by_divisor header w = do
  fail_if (length header == 0) (error malformed)
  (divisor, offset) ← read_var_u64 header 0
  fail_if (not (offset == length header)) (error malformed)
  fail_if (divisor == 0) (error malformed)
  max_value ← max_numeric_value w
  fail_if (ltb max_value divisor) (error malformed)
  ok divisor

-- `a.checked_mul(b)` and `a.checked_add(b)` on `u64`, whose overflow is the same error.
abbrev product : ℕ → ℕ → Result ℕ
product a b = if ltb (a * b) u64_mod then ok (a * b) else err (error malformed)

abbrev sum : ℕ → ℕ → Result ℕ
sum a b = if ltb (a + b) u64_mod then ok (a + b) else err (error malformed)

-- The loop over the elements.
unfoldable pub push_products : ℕ → ℕ → ℕ → Bytes → List Bytes → Result Bytes
push_products w divisor max_value output [] = ok output
push_products w divisor max_value output (element ∷ rest) = do
  quotient ← read_element element
  decoded ← product quotient divisor
  fail_if (ltb max_value decoded) (error malformed)
  next ← push_numeric_element output w decoded
  push_products w divisor max_value next rest

unfoldable pub decode_divide_by_node : StreamInput → Bytes → Limits → Result OwnedStream
decode_divide_by_node stored header limits = do
  validate_numeric_stream_width stored.element_width
  count ← numeric_element_count stored.bytes stored.element_width
  divisor ← parse_divide_by_divisor header stored.element_width
  output ← alloc_output (length stored.bytes) limits
  max_value ← max_numeric_value stored.element_width
  bytes ←
      push_products stored.element_width divisor max_value output
        (chunks_exact stored.element_width stored.bytes)
  ok (typed_stream bytes stored.element_width)

-- The minimum in the header, which may be left out.
unfoldable pub range_minimum : Bytes → ℕ → Result ℕ
range_minimum min_bytes output_width =
    if length min_bytes == 0
    then ok 0
    else if length min_bytes == output_width
    then read_element min_bytes
    else err (error malformed)

abbrev pub first_or_zero : Bytes → ℕ
first_or_zero [] = 0
first_or_zero (b ∷ bs) = b

-- The loop of the one-byte case.
unfoldable pub push_offset_bytes : ℕ → Bytes → Bytes → Result Bytes
push_offset_bytes minimum output [] = ok output
push_offset_bytes minimum output (value ∷ values) =
    if ltb (value + minimum) 256
    then push_offset_bytes minimum (output ++ (value + minimum) ∷ []) values
    else err (error malformed)

unfoldable pub push_offsets : ℕ → ℕ → ℕ → Bytes → List Bytes → Result Bytes
push_offsets w minimum max_value output [] = ok output
push_offsets w minimum max_value output (element ∷ rest) = do
  offset ← read_element element
  value ← sum offset minimum
  fail_if (ltb max_value value) (error malformed)
  next ← push_numeric_element output w value
  push_offsets w minimum max_value next rest

unfoldable pub add_minimum : ℕ → ℕ → ℕ → Bytes → Bytes → Bytes → Result Bytes
add_minimum w output_width minimum min_bytes bytes output =
    if output_width == 1
    then push_offset_bytes (first_or_zero min_bytes) output bytes
    else (max_numeric_value output_width >>= λ max_value.
        push_offsets output_width minimum max_value output (chunks_exact w bytes))

unfoldable pub range_pack_output : StreamInput → ℕ → ℕ → Bytes → Limits → Result OwnedStream
range_pack_output stored count output_width min_bytes limits = do
  fail_if (not (is_numeric_width output_width) || ltb output_width stored.element_width)
      (error malformed)
  minimum ← range_minimum min_bytes output_width
  output_len ← checked_mul count output_width
  output ← alloc_output output_len limits
  bytes ← add_minimum stored.element_width output_width minimum min_bytes stored.bytes output
  ok (typed_stream bytes output_width)

unfoldable pub decode_range_pack_node : StreamInput → Bytes → Limits → Result OwnedStream
decode_range_pack_node stored header limits = do
  validate_numeric_stream_width stored.element_width
  count ← numeric_element_count stored.bytes stored.element_width
  elim header [
    | [] ↦ err (error malformed)
    | output_width ∷ min_bytes ↦ range_pack_output stored count output_width min_bytes limits
  ]
