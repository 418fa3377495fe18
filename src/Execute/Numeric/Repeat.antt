-- ===== src/Execute/Numeric/Repeat.antt =====
-- crates/decode/src/execute/numeric/repeat.rs: `constant` and `dedup_num`.
pub mod Doubling
use ozlrip.Prelude.{
  ltb, ◌==◌, if◌then◌else◌, length, take, replicate, ℕ, zero, suc, ◌-◌, min, Bool, true, false, not,
  Option, none, some, List, ◌++◌,
}
use ozlrip.Core.{
  Bytes, malformed, limit_exceeded, invalid_graph, invalid_type, error, Result, ok, stuck, ◌>>=◌,
  ◌>>◌, fail_if, index, checked_mul, usize_from, Limits,
}
use ozlrip.Execute.Streams.{
  StreamInput, OwnedStream, typed_stream, pooled_stream, require_empty_header,
}
use ozlrip.Execute.Output.{check_output_len}
use ozlrip.Execute.Runtime.{DecodeScratch, take_byte_buffer}
use ozlrip.Execute.Elements.{read_var_u64, validate_numeric_stream_width, numeric_element_count}

-- `output.resize(n, value)`
unfoldable pub resize_with : ℕ → ℕ → Bytes → Bytes
resize_with n value output = take n output ++ replicate (n - length output) value

-- The loop `while output.len() < output_len`.
unfoldable pub double : ℕ → ℕ → Bytes → Result Bytes
double zero output_len output = if ltb (length output) output_len then stuck else ok output
double (suc fuel) output_len output =
    let copy_len = min (length output) (output_len - length output) in
    let rest = double fuel output_len (output ++ take copy_len output) in
    if ltb (length output) output_len then rest else ok output

-- Every round adds a byte, so that `output_len` rounds are enough.
unfoldable pub repeat_constant_element : Bytes → ℕ → Bytes → Result Bytes
repeat_constant_element element output_len output =
    if length element == 1
    then (index element 0 >>= λ value. ok (resize_with output_len value output))
    else double output_len output_len (output ++ element)

abbrev is_some : Option (List ℕ) → Bool
is_some none = false
is_some (some lengths) = true

-- The number of elements in the header.
unfoldable pub output_elements : Bytes → Result ℕ
output_elements header = do
  (count, offset) ← read_var_u64 header 0
  fail_if (not (offset == length header)) (error malformed)
  fail_if (count == 0) (error malformed)
  usize_from count (error limit_exceeded)

module _ (allocate : ℕ → Option ℕ) where
  unfoldable pub decode_constant_typed_chunk :
      StreamInput → Bytes → Limits → DecodeScratch → Result (OwnedStream × DecodeScratch)
  decode_constant_typed_chunk stored header limits scratch = do
    fail_if (stored.element_width == 0) (error invalid_type)
    fail_if (not (length stored.bytes == stored.element_width)) (error malformed)
    count ← output_elements header
    output_len ← checked_mul count stored.element_width
    check_output_len output_len limits
    (buffer, rest) ← take_byte_buffer allocate scratch output_len
    bytes ← repeat_constant_element stored.bytes output_len buffer.bytes
    ok (
      pooled_stream (record { bytes = bytes; capacity = buffer.capacity }) stored.element_width,
      rest,
    )

  unfoldable pub decode_constant_serial_chunk :
      Bytes → Bytes → Limits → DecodeScratch → Result (OwnedStream × DecodeScratch)
  decode_constant_serial_chunk stored header limits scratch =
      decode_constant_typed_chunk
        (record { bytes = stored; element_width = 1; string_lengths = none }) header limits scratch

  unfoldable pub decode_constant_fixed_chunk :
      StreamInput → Bytes → Limits → DecodeScratch → Result (OwnedStream × DecodeScratch)
  decode_constant_fixed_chunk stored header limits scratch = do
    fail_if (is_some stored.string_lengths) (error invalid_type)
    decode_constant_typed_chunk stored header limits scratch

unfoldable pub decode_dedup_num_node : StreamInput → Bytes → ℕ → Limits → Result (List OwnedStream)
decode_dedup_num_node stored header output_count limits = do
  require_empty_header header
  fail_if (output_count == 0) (error invalid_graph)
  fail_if (is_some stored.string_lengths) (error invalid_type)
  validate_numeric_stream_width stored.element_width
  count ← numeric_element_count stored.bytes stored.element_width
  check_output_len (length stored.bytes) limits
  total_buffer_bytes ← checked_mul (length stored.bytes) output_count
  fail_if (ltb limits.max_buffer_bytes total_buffer_bytes) (error limit_exceeded)
  ok (replicate output_count (typed_stream stored.bytes stored.element_width))
