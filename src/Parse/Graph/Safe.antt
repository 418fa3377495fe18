-- ===== src/Parse/Graph/Safe.antt =====
-- The checks of crates/decode/src/parse/validate.rs return: no stream of a chunk is looked up out of range.
use ozlrip.Prelude.{
  ℕ, ◌+◌, ◌-◌, ◌≤◌, ◌<◌, ◌≡◌, ◌∙◌, arith, true, false, List, [], ◌∷◌, length, ltb, leb, ltb→le,
  Option-cases, set, inl, inr, not, ◌==◌, length-set, length-replicate,
}
use ozlrip.Core.{Limits}
use ozlrip.Core.Safe.{
  IsSafe, IsSafe-ok, IsSafe-err, IsSafe-bind, IsSafe-index, IsSafe-index_range, IsSafe-usize_from,
  IsSafe-checked_add, checked_add-eq, safe_rules,
}
use ozlrip.Core.Yields.{Yields, Yields-bind, Yields-after, Yields-ok, Yields-IsSafe, Yields-unless}
use ozlrip.Standard.{standard_node}
use ozlrip.Parse.Packed.Safe.{packed_rules, IsSafe-check_limit}
use ozlrip.Parse.Plan.{NodePlan, ChunkPlan, ByteRange, standard_id}
use ozlrip.Parse.Checks.{
  validate_known_standard_node_shape, validate_node_kind, node_input_count,
  validate_node_output_count, validate_node_outputs, validate_ranges, validate_stream_totals,
}
use ozlrip.Parse.Graph.{
  StreamGraph, new_graph, output_depth, mark_targets, mark_regen_targets, validate_final_outputs,
  Walk, validate_node, validate_nodes, start_walk, validate_graph,
}

IsSafe-shape : (node : NodePlan) → IsSafe (validate_known_standard_node_shape node)
unfolding validate_known_standard_node_shape
IsSafe-shape node = elim (Option-cases (standard_id node.transform_type node)) [
  | inl q ↦ rw (q, validate_known_standard_node_shape) (IsSafe-err _)
  | inr (id, q) ↦ elim (Option-cases (standard_node id)) [
    | inl n ↦ rw (q, n, validate_known_standard_node_shape) (IsSafe-err _)
    | inr (row, n) ↦ rw (q, n, validate_known_standard_node_shape) (IsSafe-ok _)
  ]
]

pub IsSafe-validate_node_kind : (node : NodePlan) → IsSafe (validate_node_kind node)
unfolding validate_node_kind
IsSafe-validate_node_kind node = search (safe_rules, IsSafe-shape)

pub IsSafe-node_input_count : (node : NodePlan) (shape : _) → IsSafe (node_input_count node shape)
unfolding node_input_count
IsSafe-node_input_count node shape = search safe_rules depth 10

pub IsSafe-validate_node_outputs :
    (node : NodePlan) (shape : _) → IsSafe (validate_node_outputs node shape)
unfolding validate_node_outputs validate_node_output_count
IsSafe-validate_node_outputs node shape = search safe_rules depth 10

IsSafe-validate_ranges :
    (expected_start : ℕ) (ranges : List ByteRange) (sizes : List ℕ)
    → IsSafe (validate_ranges expected_start ranges sizes)
unfolding validate_ranges
IsSafe-validate_ranges expected_start [] sizes = IsSafe-ok tt
IsSafe-validate_ranges expected_start (range ∷ ranges) [] = IsSafe-ok tt
IsSafe-validate_ranges expected_start (range ∷ ranges) (size ∷ sizes) =
    search (safe_rules, λ (next : ℕ). IsSafe-validate_ranges next ranges sizes) depth 10

pub IsSafe-validate_stream_totals :
    (chunk : ChunkPlan) (regenerated : ℕ) → IsSafe (validate_stream_totals chunk regenerated)
unfolding validate_stream_totals
IsSafe-validate_stream_totals chunk regenerated =
    search (safe_rules, packed_rules, IsSafe-validate_ranges) depth 14

-- Both tables have a row for each of the `bound` streams.
pub record HasBound (bound : ℕ) (graph : StreamGraph) : Type 0 where
  pub produced : length graph.produced ≡ bound
  pub depths : length graph.depths ≡ bound

IsSafe-output_depth :
    (bound : ℕ) (graph : StreamGraph) (start end : ℕ) (limits : Limits)
    → HasBound bound graph
    → start ≤ end
    → end ≤ bound
    → IsSafe (output_depth graph start end limits)
unfolding output_depth
IsSafe-output_depth bound graph start end limits g up fits =
    IsSafe-bind _ _ (IsSafe-index_range graph.depths start end up (omega (arith, g.depths)))
      λ inputs. search (safe_rules, IsSafe-check_limit) depth 10

mark_targets-HasBound :
    (bound : ℕ) (graph : StreamGraph) (distances : List ℕ) (input_end depth : ℕ)
    → HasBound bound graph
    → Yields (HasBound bound) (mark_targets graph distances input_end depth)
unfolding mark_targets
mark_targets-HasBound bound graph [] input_end depth g = Yields-ok graph g
mark_targets-HasBound bound graph (raw ∷ distances) input_end depth g =
    Yields-after _ _ (IsSafe-usize_from _ _) λ distance p.
      Yields-after _ _ (IsSafe-checked_add _ _) λ target q.
        Yields-unless (leb (length graph.produced) target) _ _ λ r.
          let inside : target < length graph.produced = ground arith in
          Yields-after _ _ (IsSafe-index _ _ inside) λ taken s. Yields-unless taken _ _ λ t.
            Yields-after _ _
              (IsSafe-index graph.depths target (omega (arith, g.produced, g.depths)))
              λ old w.
                mark_targets-HasBound bound
                  (record {
                    produced = set graph.produced target true;
                    depths = set graph.depths target depth;
                  })
                  distances input_end depth
                  (record {
                    produced = length-set graph.produced target true ∙ g.produced;
                    depths = length-set graph.depths target depth ∙ g.depths;
                  })

-- The state of the walk: the tables have their bound, and the inputs read so far lie inside.
pub record IsWalk (bound : ℕ) (w : Walk) : Type 0 where
  pub graph : HasBound bound w.graph
  pub cursor : w.stream_cursor ≤ bound

validate_node-IsWalk :
    (bound : ℕ) (w : Walk) (node : NodePlan) (first : ℕ) (limits : Limits)
    → IsWalk bound w
    → first ≤ bound
    → Yields (IsWalk bound) (validate_node w node first limits)
unfolding validate_node mark_regen_targets
validate_node-IsWalk bound w node first limits i fits =
    Yields-after _ _ (IsSafe-validate_node_kind node) λ shape a.
      Yields-unless (not (node.transform_header_start == w.header_end)) _ _ λ b.
        Yields-after _ _ (IsSafe-checked_add _ _) λ header_end c.
          Yields-after _ _ (IsSafe-node_input_count node shape) λ input_count d.
            Yields-after _ _ (IsSafe-checked_add _ _) λ input_end e.
              Yields-unless (ltb first input_end) _ _ λ f.
                let up : input_end ≡ w.stream_cursor + input_count = checked_add-eq _ _ _ e in
                let inside : input_end ≤ first = ltb→le first input_end f in
                Yields-after _ _
                  (IsSafe-output_depth bound w.graph w.stream_cursor input_end limits i.graph
                    (omega arith) (omega arith))
                  λ depth g. Yields-after _ _ (IsSafe-validate_node_outputs node shape) λ x h.
                    Yields-bind (λ (p : StreamGraph × ℕ). HasBound bound p.0) _ _
                      (Yields-bind _ _ _
                        (mark_targets-HasBound bound w.graph node.regen_distances input_end depth
                          i.graph)
                        λ graph k. Yields-ok _ k)
                      λ marked k. Yields-after _ _ (IsSafe-checked_add _ _) λ regenerated l.
                        Yields-ok
                          (record {
                            graph = marked.0;
                            stream_cursor = input_end;
                            header_end = header_end;
                            regenerated = regenerated;
                          })
                          (record { graph = k; cursor = omega arith })

pub validate_nodes-IsWalk :
    (bound : ℕ) (w : Walk) (nodes : List NodePlan) (first : ℕ) (limits : Limits)
    → IsWalk bound w
    → first ≤ bound
    → Yields (IsWalk bound) (validate_nodes w nodes first limits)
unfolding validate_nodes
validate_nodes-IsWalk bound w [] first limits i fits = Yields-ok w i
validate_nodes-IsWalk bound w (node ∷ nodes) first limits i fits =
    Yields-bind _ _ _ (validate_node-IsWalk bound w node first limits i fits)
      λ w' k. validate_nodes-IsWalk bound w' nodes first limits k fits

pub start_walk-IsWalk : (bound : ℕ) → IsWalk bound (start_walk bound)
unfolding new_graph
start_walk-IsWalk bound = record {
  graph = record { produced = length-replicate bound false; depths = length-replicate bound 0 };
  cursor = omega arith;
}

pub IsSafe-validate_graph :
    (chunk : ChunkPlan) (output_count stream_bound : ℕ) (limits : Limits)
    → IsSafe (validate_graph chunk output_count stream_bound limits)
unfolding validate_graph validate_final_outputs
IsSafe-validate_graph chunk output_count stream_bound limits =
    IsSafe-bind _ _
      (Yields-IsSafe _ (
        validate_nodes-IsWalk stream_bound (start_walk stream_bound) chunk.nodes
          (stream_bound - output_count) limits (start_walk-IsWalk stream_bound) (omega arith)))
      λ w. search (safe_rules, IsSafe-validate_stream_totals)
