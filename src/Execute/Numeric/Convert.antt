-- ===== src/Execute/Numeric/Convert.antt =====
-- crates/decode/src/execute/numeric/convert.rs: the conversions that keep every byte, and those
-- between big-endian and little-endian numbers.
pub mod BigEndian
pub mod Safe
use ozlrip.Prelude.{
  ltb, ◌==◌, if◌then◌else◌, length, reverse, ℕ, ◌^◌, Bool, not, ◌||◌, Option, none, some, List, [],
  ◌∷◌, ◌++◌,
}
use ozlrip.Core.{
  Bytes, malformed, limit_exceeded, invalid_graph, invalid_type, error, Result, ok, err, ◌>>=◌,
  ◌>>◌, fail_if, ok_or, usize_from, Limits,
}
use ozlrip.Standard.Ids.{
  convert_serial_to_struct_id, convert_struct_to_serial_id, convert_struct_to_num_le_id,
  convert_num_to_struct_le_id, convert_serial_to_num_le_id, convert_num_to_serial_le_id,
  convert_string_to_serial_id,
}
use ozlrip.Execute.Streams.{StreamInput, OwnedStream, typed_stream, require_empty_header}
use ozlrip.Execute.Output.{check_output_len}
use ozlrip.Execute.Elements.{
  chunks_exact, read_var_u64, validate_numeric_stream_width, is_multiple_of, checked_sum_u32,
}

unfoldable pub is_byte_preserving_conversion : ℕ → Bool
is_byte_preserving_conversion id =
    id == convert_serial_to_struct_id
    || (id == convert_struct_to_serial_id
        || (id == convert_string_to_serial_id
            || (id == convert_struct_to_num_le_id
                || (id == convert_num_to_struct_le_id
                    || (id == convert_serial_to_num_le_id || id == convert_num_to_serial_le_id)))))

unfoldable pub read_single_conversion_width : Bytes → Result ℕ
read_single_conversion_width header = do
  (raw, offset) ← read_var_u64 header 0
  fail_if (not (offset == length header)) (error malformed)
  w ← usize_from raw (error limit_exceeded)
  fail_if (w == 0) (error malformed)
  ok w

-- `1usize.checked_shl(int_log)`, which is there for every exponent below 64.
unfoldable pub read_conversion_int_size : Bytes → Result ℕ
read_conversion_int_size (int_log ∷ []) =
    fail_if (ltb 3 int_log) (error malformed) >> ok (2 ^ int_log)
read_conversion_int_size _ = err (error malformed)

abbrev pub whole_elements : StreamInput → ℕ → Result ℕ
whole_elements input w = do
  fail_if (not (is_multiple_of (length input.bytes) w)) (error malformed)
  ok w

unfoldable pub string_width : StreamInput → Result ℕ
string_width input = do
  fail_if (not (input.element_width == 1)) (error invalid_type)
  lengths ← ok_or input.string_lengths (error invalid_type)
  total ← checked_sum_u32 lengths
  fail_if (not (total == length input.bytes)) (error malformed)
  ok 1

-- The `match` on the identifier; none for any other one.
unfoldable pub conversion_width : ℕ → StreamInput → Bytes → Option (Result ℕ)
conversion_width id input header =
    if id == convert_serial_to_struct_id
    then some (require_empty_header header >> ok input.element_width)
    else if id == convert_struct_to_serial_id
    then some (read_single_conversion_width header >>= whole_elements input)
    else if id == convert_struct_to_num_le_id
    then some (require_empty_header header >> ok input.element_width)
    else if id == convert_num_to_struct_le_id
    then some (require_empty_header header >> ok input.element_width)
    else if id == convert_string_to_serial_id
    then some (require_empty_header header >> string_width input)
    else if id == convert_serial_to_num_le_id
    then some (require_empty_header header >> ok 1)
    else if id == convert_num_to_serial_le_id
    then some (read_conversion_int_size header >>= whole_elements input)
    else none

unfoldable pub byte_preserving_conversion_output_width :
    ℕ → ℕ → StreamInput → Bytes → Limits → Result (Option ℕ)
byte_preserving_conversion_output_width id input_count input header limits =
    elim (conversion_width id input header) [
      | none ↦ ok none
      | some read ↦ (do
        output_width ← read
        fail_if (not (input_count == 1)) (error invalid_graph)
        check_output_len (length input.bytes) limits
        ok (some output_width))
    ]

unfoldable pub swap_bytes : List Bytes → Bytes
swap_bytes [] = []
swap_bytes (element ∷ rest) = reverse element ++ swap_bytes rest

unfoldable pub decode_big_endian_numeric_conversion : StreamInput → ℕ → Limits → Result OwnedStream
decode_big_endian_numeric_conversion stored w limits = do
  validate_numeric_stream_width w
  check_output_len (length stored.bytes) limits
  whole ← whole_elements stored w
  ok (typed_stream (swap_bytes (chunks_exact w stored.bytes)) w)

unfoldable pub decode_struct_to_num_be_chunk : StreamInput → Bytes → Limits → Result OwnedStream
decode_struct_to_num_be_chunk stored header limits = do
  require_empty_header header
  decode_big_endian_numeric_conversion stored stored.element_width limits

unfoldable pub decode_serial_to_num_be_chunk : StreamInput → Bytes → Limits → Result OwnedStream
decode_serial_to_num_be_chunk stored header limits = do
  int_size ← read_conversion_int_size header
  whole ← whole_elements stored int_size
  decode_big_endian_numeric_conversion stored int_size limits
