-- ===== src/Parse/Graph.antt =====
-- crates/decode/src/parse/validate.rs: the walk over a chunk's nodes and the streams they produce.
pub mod Safe
use ozlrip.Prelude.{
  ℕ, zero, suc, ◌+◌, ◌-◌, Bool, not, true, false, ◌&&◌, ◌||◌, List, [], ◌∷◌, Option, none, some,
  max, ltb, leb, ◌==◌, if◌then◌else◌, length, get_elem?, set, take, drop, replicate,
}
use ozlrip.Core.{
  error, unsupported, limit_exceeded, invalid_graph, Limits, Result, ok, err, ◌>>=◌, ◌>>◌, ok_or,
  index, index_range, fail_if, checked_add, usize_from,
}
use ozlrip.Standard.{standard_node}
use ozlrip.Standard.Table.{NodeShape}
use ozlrip.Parse.Packed.{check_limit, sum_usize}
use ozlrip.Parse.Plan.{
  TransformType, standard, custom, ByteRange, NodePlan, standard_id, ChunkPlan, transforms,
  stored_streams, regenerated_streams, FramePlan,
}
use ozlrip.Parse.Checks.{
  validate_node_kind, node_input_count, validate_node_outputs, validate_stream_totals,
}

pub record StreamGraph : Type 0 where
  pub produced : List Bool
  pub depths : List ℕ

unfoldable pub new_graph : ℕ → StreamGraph
new_graph stream_bound = record {
  produced = replicate stream_bound false;
  depths = replicate stream_bound 0;
}

abbrev pub maximum : List ℕ → ℕ
maximum [] = 0
maximum (d ∷ ds) = max d (maximum ds)

unfoldable pub output_depth : StreamGraph → ℕ → ℕ → Limits → Result ℕ
output_depth graph start end limits = do
  inputs ← index_range graph.depths start end
  depth ← checked_add (maximum inputs) 1
  check_limit depth limits.max_graph_depth
  ok depth

unfoldable pub mark_targets : StreamGraph → List ℕ → ℕ → ℕ → Result StreamGraph
mark_targets graph [] input_end depth = ok graph
mark_targets graph (raw ∷ distances) input_end depth = do
  distance ← usize_from raw (error limit_exceeded)
  target ← checked_add input_end distance
  fail_if (leb (length graph.produced) target) (error invalid_graph)
  taken ← index graph.produced target
  fail_if taken (error invalid_graph)
  _ ← index graph.depths target
  mark_targets
      (record { produced = set graph.produced target true; depths = set graph.depths target depth })
      distances input_end depth

-- The graph with the node's targets marked, and how many there are.
unfoldable pub mark_regen_targets : StreamGraph → NodePlan → ℕ → ℕ → Result (StreamGraph × ℕ)
unfolding mark_targets
mark_regen_targets graph node input_end depth = do
  graph' ← mark_targets graph node.regen_distances input_end depth
  ok (graph', length node.regen_distances)

abbrev pub count_false : List Bool → ℕ
count_false [] = 0
count_false (true ∷ bs) = count_false bs
count_false (false ∷ bs) = suc (count_false bs)

-- `produced.get(first..).unwrap_or_default()` is empty past the end, as `drop` is.
unfoldable pub validate_final_outputs : StreamGraph → ℕ → ℕ → Result (Unit {0})
validate_final_outputs graph first_final_stream stored =
    fail_if (ltb stored (count_false (drop first_final_stream graph.produced)))
      (error invalid_graph)

-- The state of the loop over a chunk's nodes.
pub record Walk : Type 0 where
  pub graph : StreamGraph
  pub stream_cursor : ℕ
  pub header_end : ℕ
  pub regenerated : ℕ

unfoldable pub validate_node : Walk → NodePlan → ℕ → Limits → Result Walk
validate_node w node first_final_stream limits = do
  shape ← validate_node_kind node
  fail_if (not (node.transform_header_start == w.header_end)) (error invalid_graph)
  header_end ← checked_add node.transform_header_start node.transform_header_size
  input_count ← node_input_count node shape
  input_end ← checked_add w.stream_cursor input_count
  fail_if (ltb first_final_stream input_end) (error invalid_graph)
  depth ← output_depth w.graph w.stream_cursor input_end limits
  validate_node_outputs node shape
  (graph, marked) ← mark_regen_targets w.graph node input_end depth
  regenerated ← checked_add w.regenerated marked
  ok (record {
    graph = graph;
    stream_cursor = input_end;
    header_end = header_end;
    regenerated = regenerated;
  })

unfoldable pub validate_nodes : Walk → List NodePlan → ℕ → Limits → Result Walk
validate_nodes w [] first_final_stream limits = ok w
validate_nodes w (node ∷ nodes) first_final_stream limits = do
  w' ← validate_node w node first_final_stream limits
  validate_nodes w' nodes first_final_stream limits

abbrev pub start_walk : ℕ → Walk
start_walk stream_bound = record {
  graph = new_graph stream_bound;
  stream_cursor = 0;
  header_end = 0;
  regenerated = 0;
}

-- `validate_chunk_plan` from `StreamGraph::new` on.
unfoldable pub validate_graph : ChunkPlan → ℕ → ℕ → Limits → Result (Unit {0})
unfolding validate_nodes
validate_graph chunk output_count stream_bound limits = do
  w ← validate_nodes (start_walk stream_bound) chunk.nodes (stream_bound - output_count) limits
  fail_if (not (w.header_end == chunk.transform_header_bytes)) (error invalid_graph)
  validate_stream_totals chunk w.regenerated
  validate_final_outputs w.graph (stream_bound - output_count) (stored_streams chunk)
