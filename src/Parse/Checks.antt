-- ===== src/Parse/Checks.antt =====
-- crates/decode/src/parse/validate.rs: the checks on one node, and on the totals of a chunk.
use ozlrip.Prelude.{
  ℕ, Bool, not, true, false, ◌&&◌, ◌||◌, List, [], ◌∷◌, Option, none, some, ltb, leb, ◌==◌, length,
}
use ozlrip.Core.{
  error, unsupported, limit_exceeded, invalid_graph, Result, ok, err, ◌>>=◌, ◌>>◌, fail_if,
  checked_add, usize_from,
}
use ozlrip.Standard.{standard_node}
use ozlrip.Standard.Table.{NodeShape}
use ozlrip.Parse.Packed.{sum_usize}
use ozlrip.Parse.Plan.{
  TransformType, standard, custom, ByteRange, NodePlan, standard_id, ChunkPlan, regenerated_streams,
}

unfoldable pub validate_known_standard_node_shape : NodePlan → Result NodeShape
validate_known_standard_node_shape node = elim (standard_id node.transform_type node) [
  | none ↦ err (error unsupported)
  | some id ↦ elim (standard_node id) [ none ↦ err (error unsupported) | some row ↦ ok row.shape ]
]

abbrev pub is_standard : TransformType → Bool
is_standard standard = true
is_standard custom = false

unfoldable pub validate_node_kind : NodePlan → Result NodeShape
validate_node_kind node = do
  fail_if (is_standard node.transform_type && leb 128 node.transform_id) (error unsupported)
  validate_known_standard_node_shape node

unfoldable pub node_input_count : NodePlan → NodeShape → Result ℕ
node_input_count node shape = do
  variable_inputs ← usize_from node.variable_outputs (error limit_exceeded)
  fail_if (ltb 0 variable_inputs && not shape.variable_inputs) (error invalid_graph)
  checked_add shape.static_inputs variable_inputs

abbrev pub above : Option ℕ → ℕ → Bool
above none n = false
above (some max_outputs) n = ltb max_outputs n

unfoldable pub validate_node_output_count : NodePlan → NodeShape → Result (Unit {0})
validate_node_output_count node shape = do
  fail_if (ltb (length node.regen_distances) shape.min_outputs) (error invalid_graph)
  fail_if (above shape.max_outputs (length node.regen_distances)) (error invalid_graph)

abbrev pub is_some : Option ℕ → Bool
is_some none = false
is_some (some _) = true

unfoldable pub validate_node_outputs : NodePlan → NodeShape → Result (Unit {0})
validate_node_outputs node shape = do
  validate_node_output_count node shape
  fail_if (is_some node.dict_index && not (is_standard node.transform_type)) (error unsupported)

-- The loop over the stored stream ranges, zipped with the sizes.
unfoldable pub validate_ranges : ℕ → List ByteRange → List ℕ → Result (Unit {0})
validate_ranges expected_start [] sizes = ok tt
validate_ranges expected_start (range ∷ ranges) [] = ok tt
validate_ranges expected_start (range ∷ ranges) (size ∷ sizes) = do
  fail_if (not (range.start == expected_start) || not (range.len == size)) (error invalid_graph)
  next ← checked_add range.start range.len
  validate_ranges next ranges sizes

unfoldable pub validate_stream_totals : ChunkPlan → ℕ → Result (Unit {0})
validate_stream_totals chunk regenerated = do
  fail_if (not (regenerated == regenerated_streams chunk)) (error invalid_graph)
  total ← sum_usize chunk.stored_stream_sizes
  fail_if (not (total == chunk.stored_stream_bytes)) (error invalid_graph)
  fail_if (not (length chunk.stored_stream_ranges == length chunk.stored_stream_sizes))
      (error invalid_graph)
  expected_start ← checked_add chunk.transform_header_range.start chunk.transform_header_range.len
  validate_ranges expected_start chunk.stored_stream_ranges chunk.stored_stream_sizes
