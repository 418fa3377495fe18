-- ===== src/Execute/Plan.antt =====
-- crates/decode/src/execute/plan.rs: the streams that each node of a chunk reads and fills.
pub mod Accepted
use ozlrip.Prelude.{
  ℕ, ◌+◌, Bool, not, true, false, ◌&&◌, List, [], ◌∷◌, Option, none, some, ◌==◌, if◌then◌else◌,
  get_elem?, get_range, length, set, replicate,
}
use ozlrip.Core.{
  Bytes, error, unsupported, limit_exceeded, invalid_graph, Result, ok, err, ◌>>=◌, ◌>>◌, ok_or,
  fail_if, checked_add, usize_from,
}
use ozlrip.Standard.{standard_node}
use ozlrip.Standard.Ids.{zstd_id}
use ozlrip.Parse.Plan.{NodePlan, standard_id, ChunkPlan, stored_streams, regenerated_streams}

pub record NodeExecutionPlan : Type 0 where
  pub standard_id : ℕ
  pub input_start : ℕ
  pub input_count : ℕ
  pub output_targets : List ℕ
  pub variable_inputs : ℕ
  pub dict_index : Option ℕ
  pub header_start : ℕ
  pub header_size : ℕ

pub record ChunkExecutionPlan : Type 0 where
  pub nodes : List NodeExecutionPlan
  pub regen_targets : List Bool

unfoldable pub header : NodeExecutionPlan → Bytes → Result Bytes
header node headers = do
  end ← checked_add node.header_start node.header_size
  ok_or (get_range headers node.header_start end) (error invalid_graph)

unfoldable pub node_input_count : NodePlan → ℕ → Result ℕ
node_input_count node id = do
  variable_inputs ← usize_from node.variable_outputs (error limit_exceeded)
  row ← ok_or (standard_node id) (error unsupported)
  checked_add row.shape.static_inputs variable_inputs

-- The targets, and the table with each of them marked.
unfoldable pub resolve_output_targets : List ℕ → ℕ → List Bool → Result (List ℕ × List Bool)
resolve_output_targets [] input_end regen_targets = ok ([], regen_targets)
resolve_output_targets (raw ∷ distances) input_end regen_targets = do
  distance ← usize_from raw (error limit_exceeded)
  output_target ← checked_add input_end distance
  taken ← ok_or (get_elem? regen_targets output_target) (error invalid_graph)
  fail_if taken (error invalid_graph)
  (targets, last) ←
      resolve_output_targets distances input_end (set regen_targets output_target true)
  ok (output_target ∷ targets, last)

abbrev is_some : Option ℕ → Bool
is_some none = false
is_some (some _) = true

unfoldable pub build_nodes :
    ℕ → List NodePlan → List Bool → Result (List NodeExecutionPlan × List Bool)
unfolding node_input_count resolve_output_targets
build_nodes stream_cursor [] regen_targets = ok ([], regen_targets)
build_nodes stream_cursor (node ∷ nodes) regen_targets = do
  id ← ok_or (standard_id node.transform_type node) (error unsupported)
  fail_if (is_some node.dict_index && not (id == zstd_id)) (error unsupported)
  input_count ← node_input_count node id
  input_end ← checked_add stream_cursor input_count
  (output_targets, marked) ← resolve_output_targets node.regen_distances input_end regen_targets
  (plans, last) ← build_nodes input_end nodes marked
  let plan : NodeExecutionPlan = record {
    standard_id = id;
    input_start = stream_cursor;
    input_count = input_count;
    output_targets = output_targets;
    variable_inputs = node.variable_outputs;
    dict_index = node.dict_index;
    header_start = node.transform_header_start;
    header_size = node.transform_header_size;
  }
  ok (plan ∷ plans, last)

unfoldable pub build_chunk_execution_plan : ChunkPlan → Result ChunkExecutionPlan
build_chunk_execution_plan chunk = do
  total_streams ← checked_add (stored_streams chunk) (regenerated_streams chunk)
  (nodes, regen_targets) ← build_nodes 0 chunk.nodes (replicate total_streams false)
  ok (record { nodes = nodes; regen_targets = regen_targets })
