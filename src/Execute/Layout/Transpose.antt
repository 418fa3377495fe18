-- ===== src/Execute/Layout/Transpose.antt =====
-- crates/decode/src/execute/layout/transpose.rs.
pub mod Rows
pub mod Places
pub mod Lanes
pub mod Writers
pub mod Interleaved
use ozlrip.Prelude.{
  ltb, ◌==◌, if◌then◌else◌, length, set, ℕ, zero, suc, ◌+◌, ◌*◌, ◌/◌, Bool, not, ◌&&◌, ◌||◌, Option,
  List, [], ◌∷◌, ◌++◌,
}
use ozlrip.Core.{
  Bytes, malformed, invalid_graph, error, Result, ok, err, panic, ◌>>=◌, ◌>>◌, fail_if, index,
  checked_mul, Limits,
}
use ozlrip.Standard.Ids.{
  transpose_split_id, transpose_split2_id, transpose_split4_id, transpose_split8_id,
}
use ozlrip.Execute.Streams.{StreamInput, OwnedStream, pooled_stream, require_empty_header}
use ozlrip.Execute.Output.{check_output_len}
use ozlrip.Execute.Runtime.{DecodeScratch, take_stale_byte_buffer}
use ozlrip.Execute.Elements.{is_multiple_of}
use ozlrip.Execute.Numeric.Delta.{resize}
use ozlrip.Execute.Layout.FastTranspose.{write_transpose_split_output}

-- `output[i] = value`
unfoldable pub write : Bytes → ℕ → ℕ → Result Bytes
write output i value = if ltb i (length output) then ok (set output i value) else panic

-- The inner loop from `output_byte` on, with `left` rounds to go.
unfoldable pub transpose_row : ℕ → ℕ → ℕ → ℕ → ℕ → Bytes → Bytes → Result Bytes
transpose_row zero output_byte output_element source_width output_width source output = ok output
transpose_row (suc left) output_byte output_element source_width output_width source output = do
  value ← index source (output_byte * source_width + output_element)
  next ← write output (output_element * output_width + output_byte) value
  transpose_row left (output_byte + 1) output_element source_width output_width source next

-- The outer loop from `output_element` on.
unfoldable pub transpose_rows : ℕ → ℕ → ℕ → ℕ → ℕ → Bytes → Bytes → Result Bytes
transpose_rows zero output_element source_elements source_width output_width source output =
    ok output
transpose_rows (suc left) output_element source_elements source_width output_width source output =
    do
      next ← transpose_row source_elements 0 output_element source_width output_width source output
      transpose_rows left (output_element + 1) source_elements source_width output_width source next

unfoldable pub transposed_width : ℕ → ℕ → ℕ
transposed_width source_elements source_width =
    if source_elements == 0 then source_width else source_elements

unfoldable pub same_lengths : ℕ → List StreamInput → Result (Unit {0})
same_lengths lane_len [] = ok tt
same_lengths lane_len (lane ∷ lanes) = do
  fail_if (not (length lane.bytes == lane_len)) (error malformed)
  same_lengths lane_len lanes

abbrev first_length : List StreamInput → Result ℕ
first_length [] = err (error invalid_graph)
first_length (lane ∷ lanes) = ok (length lane.bytes)

unfoldable pub is_transpose_split : ℕ → Bool
is_transpose_split id =
    id == transpose_split_id
    || (id == transpose_split2_id || (id == transpose_split4_id || id == transpose_split8_id))

module _ (allocate : ℕ → Option ℕ) where
  unfoldable pub decode_transpose_node :
      StreamInput → Bytes → Limits → DecodeScratch → Result (OwnedStream × DecodeScratch)
  decode_transpose_node source header limits scratch = do
    require_empty_header header
    fail_if
        (source.element_width == 0
          || not (is_multiple_of (length source.bytes) source.element_width))
        (error malformed)
    check_output_len (length source.bytes) limits
    let source_elements = length source.bytes / source.element_width
    let output_width = transposed_width source_elements source.element_width
    (stale, rest) ← take_stale_byte_buffer allocate scratch (length source.bytes)
    bytes ←
        transpose_rows source.element_width 0 source_elements source.element_width output_width
          source.bytes (resize (length source.bytes) stale.bytes)
    ok (pooled_stream (record { bytes = bytes; capacity = stale.capacity }) output_width, rest)

  unfoldable pub decode_transpose_split_node :
      List StreamInput → ℕ → Bytes → Limits → DecodeScratch → Result (OwnedStream × DecodeScratch)
  decode_transpose_split_node inputs variable_inputs header limits scratch = do
    require_empty_header header
    fail_if (not (variable_inputs == 0) && not (variable_inputs == length inputs))
        (error invalid_graph)
    lane_len ← first_length inputs
    output_len ← checked_mul lane_len (length inputs)
    check_output_len output_len limits
    same_lengths lane_len inputs
    (stale, rest) ← take_stale_byte_buffer allocate scratch output_len
    bytes ← write_transpose_split_output inputs output_len stale.bytes
    ok (pooled_stream (record { bytes = bytes; capacity = stale.capacity }) (length inputs), rest)
