-- ===== src/Parse/Validate/Safe.antt =====
-- `parse_frame` returns on every input: crates/decode/src/parse/validate.rs and
-- crates/decode/src/parse.rs.
use ozlrip.Prelude.{ℕ, List, [], ◌∷◌}
use ozlrip.Core.{Limits}
use ozlrip.Core.Safe.{
  IsSafe, IsSafe-ok, IsSafe-bind, IsSafe-checked_add, IsSafe-fail_if, safe_rules,
}
use ozlrip.Parse.Packed.Safe.{IsSafe-check_limit}
use ozlrip.Parse.Plan.{NodePlan, ChunkPlan, FramePlan}
use ozlrip.Parse.Graph.Safe.{
  IsSafe-validate_node_kind, IsSafe-node_input_count, IsSafe-validate_node_outputs,
  IsSafe-validate_stream_totals, IsSafe-validate_graph,
}
use ozlrip.Parse.Validate.{
  count_final_targets, single_node_final_outputs, validate_single_node_chunk_plan,
  validate_by_count, validate_chunk_plan, Totals, validate_chunks, validate_frame_plan,
}

IsSafe-count_final_targets :
    (produced : ℕ) (distances : List ℕ) (input_count stream_bound first : ℕ)
    → IsSafe (count_final_targets produced distances input_count stream_bound first)
unfolding count_final_targets
IsSafe-count_final_targets produced [] input_count stream_bound first = IsSafe-ok produced
IsSafe-count_final_targets produced (raw ∷ distances) input_count stream_bound first =
    search
      (safe_rules, λ (n : ℕ). IsSafe-count_final_targets n distances input_count stream_bound first)
      depth 12

IsSafe-single :
    (chunk : ChunkPlan) (node : NodePlan) (output_count stream_bound : ℕ) (limits : Limits)
    → IsSafe (validate_single_node_chunk_plan chunk node output_count stream_bound limits)
unfolding validate_single_node_chunk_plan single_node_final_outputs
IsSafe-single chunk node output_count stream_bound limits =
    search
      (
        safe_rules, IsSafe-check_limit, IsSafe-validate_node_kind, IsSafe-node_input_count,
        IsSafe-validate_node_outputs, IsSafe-validate_stream_totals, IsSafe-count_final_targets,
      )
      depth 30

IsSafe-validate_by_count :
    (nodes : List NodePlan) (chunk : ChunkPlan) (output_count stream_bound : ℕ) (limits : Limits)
    → IsSafe (validate_by_count nodes chunk output_count stream_bound limits)
unfolding validate_by_count
IsSafe-validate_by_count [] chunk output_count stream_bound limits =
    IsSafe-validate_graph chunk output_count stream_bound limits
IsSafe-validate_by_count (node ∷ []) chunk output_count stream_bound limits =
    IsSafe-single chunk node output_count stream_bound limits
IsSafe-validate_by_count (node ∷ (other ∷ nodes)) chunk output_count stream_bound limits =
    IsSafe-validate_graph chunk output_count stream_bound limits

pub IsSafe-validate_chunk_plan :
    (chunk : ChunkPlan) (output_count : ℕ) (limits : Limits)
    → IsSafe (validate_chunk_plan chunk output_count limits)
unfolding validate_chunk_plan
IsSafe-validate_chunk_plan chunk output_count limits =
    search (safe_rules, IsSafe-validate_by_count) depth 10

IsSafe-validate_chunks :
    (t : Totals) (chunks : List ChunkPlan) (output_count : ℕ) (limits : Limits)
    → IsSafe (validate_chunks t chunks output_count limits)
unfolding validate_chunks
IsSafe-validate_chunks t [] output_count limits = IsSafe-ok t
IsSafe-validate_chunks t (chunk ∷ chunks) output_count limits =
    IsSafe-bind _ _ (IsSafe-validate_chunk_plan chunk output_count limits) λ u.
      IsSafe-bind _ _ (IsSafe-checked_add _ _) λ nodes.
        IsSafe-bind _ _ (IsSafe-checked_add _ _) λ stored.
          IsSafe-bind _ _ (IsSafe-checked_add _ _) λ regenerated.
            IsSafe-validate_chunks
              (record {
                transforms = nodes;
                stored_streams = stored;
                regenerated_streams = regenerated;
              })
              chunks output_count limits

pub IsSafe-validate_frame_plan :
    (plan : FramePlan) (limits : Limits) → IsSafe (validate_frame_plan plan limits)
unfolding validate_frame_plan
IsSafe-validate_frame_plan plan limits =
    IsSafe-bind _ _ (IsSafe-fail_if _ _)
      λ u. IsSafe-bind _ _ (IsSafe-validate_chunks _ plan.chunks _ limits) λ t. IsSafe-fail_if _ _
