-- ===== src/Execute/Layout/Concat.antt =====
-- crates/decode/src/execute/layout/concat.rs: cutting a stream apart.
pub mod Pieces
use ozlrip.Prelude.{
  ltb, ◌==◌, if◌then◌else◌, length, ℕ, zero, suc, ◌+◌, Bool, not, ◌||◌, List, [], ◌∷◌,
}
use ozlrip.Core.{
  Bytes, malformed, invalid_graph, invalid_type, error, Result, ok, err, ◌>>=◌, ◌>>◌, fail_if,
  index_range, checked_add, checked_mul, Limits,
}
use ozlrip.Execute.Streams.{StreamInput, OwnedStream, typed_stream, require_empty_header}
use ozlrip.Execute.Output.{check_output_len}
use ozlrip.Execute.Elements.{is_multiple_of, numeric_element_count, read_usize_numeric_element}

abbrev sizes_width : ℕ → Bool
sizes_width w = w == 1 || w == 4

unfoldable pub concat_size_count : StreamInput → Result ℕ
concat_size_count sizes =
    if sizes_width sizes.element_width
    then numeric_element_count sizes.bytes 4
    else err (error invalid_type)

unfoldable pub concat_output_count : StreamInput → ℕ → Result ℕ
concat_output_count sizes expected_outputs = do
  output_count ← concat_size_count sizes
  fail_if (output_count == 0) (error malformed)
  fail_if (not (output_count == expected_outputs)) (error invalid_graph)
  ok output_count

unfoldable pub read_concat_size : StreamInput → ℕ → Result ℕ
read_concat_size sizes i =
    if sizes_width sizes.element_width
    then read_usize_numeric_element sizes.bytes 4 i
    else err (error invalid_type)

-- How far the input is consumed, in elements and in bytes.
pub record Consumption : Type 0 where
  pub elements : ℕ
  pub bytes : ℕ

-- One round: the piece of output `i`, and how far the input is then consumed.
unfoldable pub cut_piece :
    StreamInput → StreamInput → Limits → ℕ → ℕ → Consumption → Result (Bytes × Consumption)
cut_piece sizes concatenated limits total_elements i consumed = do
  output_elements ← read_concat_size sizes i
  output_bytes ← checked_mul output_elements concatenated.element_width
  check_output_len output_bytes limits
  next_elements ← checked_add consumed.elements output_elements
  next_bytes ← checked_add consumed.bytes output_bytes
  fail_if (ltb total_elements next_elements || ltb (length concatenated.bytes) next_bytes)
      (error malformed)
  piece ← index_range concatenated.bytes consumed.bytes next_bytes
  ok (piece, record { elements = next_elements; bytes = next_bytes })

-- The rounds from output `i` on, and the check behind them.
unfoldable pub cut_pieces :
    ℕ → StreamInput → StreamInput → Limits → ℕ → ℕ → Consumption → Result (List OwnedStream)
cut_pieces zero sizes concatenated limits total_elements i consumed = do
  fail_if
      (not (consumed.elements == total_elements)
        || not (consumed.bytes == length concatenated.bytes))
      (error malformed)
  ok []
cut_pieces (suc left) sizes concatenated limits total_elements i consumed = do
  (piece, next) ← cut_piece sizes concatenated limits total_elements i consumed
  rest ← cut_pieces left sizes concatenated limits total_elements (i + 1) next
  ok (typed_stream piece concatenated.element_width ∷ rest)

unfoldable pub cut_apart : StreamInput → StreamInput → ℕ → Limits → Result (List OwnedStream)
cut_apart sizes concatenated expected_outputs limits = do
  output_count ← concat_output_count sizes expected_outputs
  fail_if (concatenated.element_width == 0) (error invalid_type)
  fail_if (not (is_multiple_of (length concatenated.bytes) concatenated.element_width))
      (error malformed)
  total_elements ← numeric_element_count concatenated.bytes concatenated.element_width
  cut_pieces output_count sizes concatenated limits total_elements 0
      (record { elements = 0; bytes = 0 })

unfoldable pub decode_concat_node :
    List StreamInput → Bytes → ℕ → Limits → Result (List OwnedStream)
decode_concat_node inputs header expected_outputs limits = do
  require_empty_header header
  elim inputs [
    | [] ↦ err (error invalid_graph)
    | sizes ∷ others ↦ elim others [
      | [] ↦ err (error invalid_graph)
      | concatenated ∷ more ↦ elim more [
        | [] ↦ cut_apart sizes concatenated expected_outputs limits
        | _ ∷ _ ↦ err (error invalid_graph)
      ]
    ]
  ]
