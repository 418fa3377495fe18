-- ===== src/Parse/Validate.antt =====
-- crates/decode/src/parse/validate.rs: the shortcut for one node, chunks and frames.
pub mod Safe
use ozlrip.Prelude.{
  ℕ, zero, suc, ◌+◌, ◌-◌, Bool, not, true, false, ◌&&◌, ◌||◌, List, [], ◌∷◌, Option, none, some,
  max, ltb, leb, ◌==◌, if◌then◌else◌, length, get_elem?, set, take, drop, replicate,
}
use ozlrip.Core.{
  error, unsupported, limit_exceeded, invalid_graph, Limits, Result, ok, err, ◌>>=◌, ◌>>◌, ok_or,
  index, index_range, fail_if, checked_add, usize_from,
}
use ozlrip.Standard.{standard_node}
use ozlrip.Standard.Table.{NodeShape}
use ozlrip.Parse.Packed.{check_limit, sum_usize}
use ozlrip.Parse.Plan.{
  TransformType, standard, custom, ByteRange, NodePlan, standard_id, ChunkPlan, transforms,
  stored_streams, regenerated_streams, FramePlan,
}
use ozlrip.Parse.Checks.{
  validate_node_kind, node_input_count, validate_node_outputs, validate_stream_totals,
}
use ozlrip.Parse.Graph.{validate_graph}

-- The loop of `single_node_final_outputs`, with the count so far.
unfoldable pub count_final_targets : ℕ → List ℕ → ℕ → ℕ → ℕ → Result ℕ
count_final_targets produced [] input_count stream_bound first_final_stream = ok produced
count_final_targets produced (raw ∷ distances) input_count stream_bound first_final_stream = do
  distance ← usize_from raw (error limit_exceeded)
  target ← checked_add input_count distance
  fail_if (leb stream_bound target) (error invalid_graph)
  produced' ← (if leb first_final_stream target then checked_add produced 1 else ok produced)
  count_final_targets produced' distances input_count stream_bound first_final_stream

abbrev pub contains : List ℕ → ℕ → Bool
contains [] d = false
contains (x ∷ xs) d = d == x || contains xs d

-- `(1..distances.len()).any(|index| distances[..index].contains(&distances[index]))`; `seen` is
-- `distances[..index]`, in any order.
unfoldable pub has_duplicate : List ℕ → List ℕ → Bool
has_duplicate seen [] = false
has_duplicate seen (d ∷ distances) = contains seen d || has_duplicate (d ∷ seen) distances

unfoldable pub single_node_final_outputs : NodePlan → ℕ → ℕ → ℕ → Result ℕ
unfolding count_final_targets has_duplicate
single_node_final_outputs node input_count stream_bound first_final_stream = do
  produced ← count_final_targets 0 node.regen_distances input_count stream_bound first_final_stream
  fail_if (has_duplicate [] node.regen_distances) (error invalid_graph)
  ok produced

unfoldable pub validate_single_node_chunk_plan :
    ChunkPlan → NodePlan → ℕ → ℕ → Limits → Result (Unit {0})
validate_single_node_chunk_plan chunk node output_count stream_bound limits = do
  shape ← validate_node_kind node
  fail_if (not (node.transform_header_start == 0)) (error invalid_graph)
  fail_if (not (node.transform_header_size == chunk.transform_header_bytes)) (error invalid_graph)
  input_count ← node_input_count node shape
  fail_if (ltb (stream_bound - output_count) input_count) (error invalid_graph)
  check_limit 1 limits.max_graph_depth
  validate_node_outputs node shape
  produced ← single_node_final_outputs node input_count stream_bound (stream_bound - output_count)
  validate_stream_totals chunk (length node.regen_distances)
  fail_if (ltb (stored_streams chunk) (output_count - produced)) (error invalid_graph)

-- The branch on `chunk.nodes.len() == 1`.
unfoldable pub validate_by_count : List NodePlan → ChunkPlan → ℕ → ℕ → Limits → Result (Unit {0})
validate_by_count (node ∷ []) chunk = validate_single_node_chunk_plan chunk node
validate_by_count _ chunk = validate_graph chunk

unfoldable pub validate_chunk_plan : ChunkPlan → ℕ → Limits → Result (Unit {0})
unfolding validate_by_count
validate_chunk_plan chunk output_count limits = do
  stream_bound ← checked_add (regenerated_streams chunk) (stored_streams chunk)
  fail_if (ltb stream_bound output_count) (error invalid_graph)
  validate_by_count chunk.nodes chunk output_count stream_bound limits

pub record Totals : Type 0 where
  pub transforms : ℕ
  pub stored_streams : ℕ
  pub regenerated_streams : ℕ

unfoldable pub validate_chunks : Totals → List ChunkPlan → ℕ → Limits → Result Totals
validate_chunks t [] output_count limits = ok t
validate_chunks t (chunk ∷ chunks) output_count limits = do
  validate_chunk_plan chunk output_count limits
  nodes ← checked_add t.transforms (transforms chunk)
  stored ← checked_add t.stored_streams (stored_streams chunk)
  regenerated ← checked_add t.regenerated_streams (regenerated_streams chunk)
  validate_chunks
      (record { transforms = nodes; stored_streams = stored; regenerated_streams = regenerated })
      chunks output_count limits

unfoldable pub validate_frame_plan : FramePlan → Limits → Result (Unit {0})
unfolding validate_chunks
validate_frame_plan plan limits = do
  fail_if (not (plan.info.chunks == length plan.chunks)) (error invalid_graph)
  t ←
      validate_chunks (record { transforms = 0; stored_streams = 0; regenerated_streams = 0 })
        plan.chunks (length plan.info.output_types) limits
  fail_if
      (not (t.transforms == plan.info.transforms)
        || not (t.stored_streams == plan.info.stored_streams)
        || not (t.regenerated_streams == plan.info.regenerated_streams))
      (error invalid_graph)
