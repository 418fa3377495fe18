-- ===== src/Execute/Plan/Accepted.antt =====
-- A chunk that crates/decode/src/parse/validate.rs accepts has an execution plan:
-- crates/decode/src/execute/plan.rs finds the same streams, and refuses nothing more but dictionaries.
use ozlrip.Prelude.{
  ℕ, ◌+◌, ◌-◌, ◌≡◌, ◌≢◌, refl, sym, ap, ◌∙◌, arith, Bool, true, false, not, List, [], ◌∷◌, some,
  inl, inr, Option-cases, get_elem?, set, replicate, length, ltb, leb, ◌==◌,
}
use mathlib.Core.Path.{subst}
use ozlrip.Core.{
  Error, error, invalid_graph, unsupported, limit_exceeded, Limits, ok, >>=-eq-ok, index,
  checked_add, usize_from, fail_if,
}
use ozlrip.Standard.{standard_node}
use ozlrip.Standard.Table.{NodeShape, StandardNode}
use ozlrip.Standard.Ids.{zstd_id}
use ozlrip.Parse.Plan.{NodePlan, ChunkPlan, standard_id, stored_streams, regenerated_streams}
use ozlrip.Parse.Checks
use ozlrip.Parse.Checks.{
  validate_node_kind, validate_known_standard_node_shape, validate_node_outputs,
  validate_stream_totals,
}
use ozlrip.Parse.Graph.{
  StreamGraph, new_graph, output_depth, mark_targets, mark_regen_targets, Walk, validate_node,
  validate_nodes, start_walk, validate_graph,
}
use ozlrip.Parse.Validate.{validate_by_count, validate_chunk_plan}
use ozlrip.Execute.Plan.{
  NodeExecutionPlan, ChunkExecutionPlan, node_input_count, resolve_output_targets, build_nodes,
  build_chunk_execution_plan,
}

index-eq-ok :
    {A : Type 0} (xs : List A) (i : ℕ) (a : A) → index xs i ≡ ok a → get_elem? xs i ≡ some a
index-eq-ok xs i a e = elim (Option-cases (get_elem? xs i)) [
  | inl q ↦ absurd (cc (rw (q, index) at e))
  | inr (b, q) ↦ let same : b ≡ a = cc (rw (q, index) at e) in q ∙ ap some same
]

fail_if-eq-ok : (b : Bool) (e : Error) (u : Unit {0}) → fail_if b e ≡ ok u → b ≡ false
fail_if-eq-ok true e u h = absurd (cc)
fail_if-eq-ok false e u h = refl

resolve_step :
    (raw distance target : ℕ) (distances : List ℕ) (input_end : ℕ) (produced : List Bool)
    (targets : List ℕ) (last : List Bool)
    → usize_from raw (error limit_exceeded) ≡ ok distance
    → checked_add input_end distance ≡ ok target
    → get_elem? produced target ≡ some false
    → resolve_output_targets distances input_end (set produced target true) ≡ ok (targets, last)
    → resolve_output_targets (raw ∷ distances) input_end produced ≡ ok (target ∷ targets, last)
unfolding resolve_output_targets
resolve_step raw distance target distances input_end produced targets last p1 p2 p3 p4 =
    rw (p1, p2, p3, p4) refl

ok-inj : {A : Type 0} {a b : A} → ok a ≡ ok b → a ≡ b
ok-inj e = cc

is_id :
    (node : NodePlan) (id : ℕ)
    → standard_id node.transform_type node ≡ some id
    → id ≡ node.transform_id
unfolding standard_id
is_id node id e = ground arith

-- The targets that the validation marks are the ones the plan resolves.
resolve_marked :
    (graph : StreamGraph) (distances : List ℕ) (input_end depth : ℕ) (after : StreamGraph)
    → mark_targets graph distances input_end depth ≡ ok after
    → (targets : List ℕ) × (resolve_output_targets distances input_end graph.produced
        ≡ ok (targets, after.produced))
unfolding mark_targets resolve_output_targets
resolve_marked graph [] input_end depth after e =
    let same : graph ≡ after = cc in ([], ap (λ (g : StreamGraph). ok ([], g.produced)) same)
resolve_marked graph (raw ∷ distances) input_end depth after e =
    let (distance, p1, h1) = >>=-eq-ok (usize_from raw (error limit_exceeded)) _ e in
    let (target, p2, h2) = >>=-eq-ok (checked_add input_end distance) _ h1 in
    let (u, p3, h3) =
      >>=-eq-ok (fail_if (leb (length graph.produced) target) (error invalid_graph)) _ h2 in
    let (taken, p4, h4) = >>=-eq-ok (index graph.produced target) _ h3 in
    let (v, p5, h5) = >>=-eq-ok (fail_if taken (error invalid_graph)) _ h4 in
    let (old, p6, h6) = >>=-eq-ok (index graph.depths target) _ h5 in
    let marked : StreamGraph = record {
      produced = set graph.produced target true;
      depths = set graph.depths target depth;
    } in
    let (targets, q) = resolve_marked marked distances input_end depth after h6 in
    let found : get_elem? graph.produced target ≡ some taken =
      index-eq-ok graph.produced target taken p4 in
    (
      target ∷ targets,
      resolve_step raw distance target distances input_end graph.produced targets after.produced p1
          p2 (found ∙ ap some (fail_if-eq-ok taken _ v p5)) q,
    )

-- The node's transform is a known one, with this row in the table.
known :
    (node : NodePlan) (shape : NodeShape)
    → validate_node_kind node ≡ ok shape
    → (id : ℕ) × (row : StandardNode) × (standard_id node.transform_type node ≡ some id)
      × (standard_node id ≡ some row)
      × (row.shape ≡ shape)
unfolding validate_node_kind validate_known_standard_node_shape
known node shape e =
    let (u, p, h) =
      >>=-eq-ok (fail_if _ (error unsupported)) (λ v. validate_known_standard_node_shape node) e in
    elim (Option-cases (standard_id node.transform_type node)) [
      | inl q ↦ absurd (cc (rw (q, validate_known_standard_node_shape) at h))
      | inr (id, q) ↦ elim (Option-cases (standard_node id)) [
        | inl n ↦ absurd (cc (rw (q, n, validate_known_standard_node_shape) at h))
        | inr (row, n) ↦ (id, row, q, n, cc (rw (q, n, validate_known_standard_node_shape) at h))
      ]
    ]

counted :
    (node : NodePlan) (id : ℕ) (row : StandardNode) (count : ℕ)
    → standard_node id ≡ some row
    → ozlrip.Parse.Checks.node_input_count node row.shape ≡ ok count
    → node_input_count node id ≡ ok count
unfolding ozlrip.Parse.Checks.node_input_count node_input_count
counted node id row count n e =
    let (inputs, p, h) = >>=-eq-ok (usize_from node.variable_outputs (error limit_exceeded)) _ e in
    let (u, q, k) =
      >>=-eq-ok (fail_if _ (error invalid_graph)) (λ v. checked_add row.shape.static_inputs inputs)
        h in
    rw (p, n) k

-- Only a zstd node names a dictionary.
abbrev pub DictsOnZstd : List NodePlan → Type 0
DictsOnZstd [] = Unit
DictsOnZstd (node ∷ nodes) =
    ((dict : ℕ) → node.dict_index ≡ some dict → node.transform_id ≡ zstd_id) × DictsOnZstd nodes

build_step :
    (cursor : ℕ) (node : NodePlan) (nodes : List NodePlan) (table marked last : List Bool)
    (id count input_end : ℕ) (targets : List ℕ) (plans : List NodeExecutionPlan)
    → standard_id node.transform_type node ≡ some id
    → ((dict : ℕ) → node.dict_index ≡ some dict → id ≡ zstd_id)
    → node_input_count node id ≡ ok count
    → checked_add cursor count ≡ ok input_end
    → resolve_output_targets node.regen_distances input_end table ≡ ok (targets, marked)
    → build_nodes input_end nodes marked ≡ ok (plans, last)
    → (built : List NodeExecutionPlan) × (build_nodes cursor (node ∷ nodes) table
        ≡ ok (built, last))
unfolding build_nodes
build_step cursor node nodes table marked last id count input_end targets plans p d q r s t =
    let plan : NodeExecutionPlan = record {
      standard_id = id;
      input_start = cursor;
      input_count = count;
      output_targets = targets;
      variable_inputs = node.variable_outputs;
      dict_index = node.dict_index;
      header_start = node.transform_header_start;
      header_size = node.transform_header_size;
    } in
    elim (Option-cases node.dict_index) [
      | inl n ↦ (plan ∷ plans, rw (p, n, q, r, s, t, build_nodes) refl)
      | inr (dict, n) ↦
          let zstd : (id == zstd_id) ≡ true = ground (arith, d dict n) in
          (plan ∷ plans, rw (p, n, zstd, q, r, s, t, build_nodes) refl)
    ]

-- Where a node's streams start and which of them are marked, in validation and in execution.
node_built :
    (w after : Walk) (node : NodePlan) (nodes : List NodePlan) (first : ℕ) (limits : Limits)
    (plans : List NodeExecutionPlan) (last : List Bool)
    → validate_node w node first limits ≡ ok after
    → ((dict : ℕ) → node.dict_index ≡ some dict → node.transform_id ≡ zstd_id)
    → build_nodes after.stream_cursor nodes after.graph.produced ≡ ok (plans, last)
    → (built : List NodeExecutionPlan) × (build_nodes w.stream_cursor
          (node ∷ nodes)
          w.graph.produced
        ≡ ok (built, last))
unfolding validate_node mark_regen_targets
node_built w after node nodes first limits plans last e d t =
    let (shape, p1, h1) = >>=-eq-ok (validate_node_kind node) _ e in
    let (u1, p2, h2) =
      >>=-eq-ok (fail_if (not (node.transform_header_start == w.header_end)) (error invalid_graph))
        _ h1 in
    let (header_end, p3, h3) =
      >>=-eq-ok (checked_add node.transform_header_start node.transform_header_size) _ h2 in
    let (count, p4, h4) = >>=-eq-ok (ozlrip.Parse.Checks.node_input_count node shape) _ h3 in
    let (input_end, p5, h5) = >>=-eq-ok (checked_add w.stream_cursor count) _ h4 in
    let (u2, p6, h6) = >>=-eq-ok (fail_if (ltb first input_end) (error invalid_graph)) _ h5 in
    let (depth, p7, h7) = >>=-eq-ok (output_depth w.graph w.stream_cursor input_end limits) _ h6 in
    let (u3, p8, h8) = >>=-eq-ok (validate_node_outputs node shape) _ h7 in
    let (marked, p9, h9) = >>=-eq-ok (mark_regen_targets w.graph node input_end depth) _ h8 in
    let (regenerated, p10, h10) = >>=-eq-ok (checked_add w.regenerated marked.1) _ h9 in
    let (graph, q1, k1) =
      >>=-eq-ok (mark_targets w.graph node.regen_distances input_end depth) _ p9 in
    let (targets, resolved) =
      resolve_marked w.graph node.regen_distances input_end depth graph q1 in
    let (id, row, i, n, s) = known node shape p1 in
    let same_graph : graph ≡ marked.0 = ap (λ (m : StreamGraph × ℕ). m.0) (ok-inj k1) in
    let walked : Walk = record {
      graph = marked.0;
      stream_cursor = input_end;
      header_end = header_end;
      regenerated = regenerated;
    } in
    let same : walked ≡ after = ok-inj h10 in
    let table : graph.produced ≡ after.graph.produced =
      ap (λ (g : StreamGraph). g.produced) same_graph ∙ ap (λ (x : Walk). x.graph.produced) same in
    let cursor : input_end ≡ after.stream_cursor = ap (λ (x : Walk). x.stream_cursor) same in
    build_step w.stream_cursor node nodes w.graph.produced graph.produced last id count input_end
      targets plans i (λ dict x. is_id node id i ∙ d dict x)
      (counted node id row count n
        (subst (λ z. ozlrip.Parse.Checks.node_input_count node z ≡ ok count) (sym s) p4))
      p5 resolved
      (subst (λ c. build_nodes c nodes graph.produced ≡ ok (plans, last)) (sym cursor)
        (subst (λ b. build_nodes after.stream_cursor nodes b ≡ ok (plans, last)) (sym table) t))

-- The nodes that the validation accepts from some stream on have an execution plan from that stream
-- on, if only zstd nodes name a dictionary. The streams that the plan marks as regenerated are the
-- ones that the validation found to be produced.
pub build_nodes-validated :
    (w after : Walk) (nodes : List NodePlan) (first : ℕ) (limits : Limits)
    → validate_nodes w nodes first limits ≡ ok after
    → DictsOnZstd nodes
    → (plans : List NodeExecutionPlan) × (build_nodes w.stream_cursor nodes w.graph.produced
        ≡ ok (plans, after.graph.produced))
unfolding validate_nodes build_nodes
build_nodes-validated w after [] first limits e d =
    ([], ap (λ (x : Walk). ok ([], x.graph.produced)) (ok-inj e))
build_nodes-validated w after (node ∷ nodes) first limits e (d, ds) =
    let (w', p, h) = >>=-eq-ok (validate_node w node first limits) _ e in
    let (plans, q) = build_nodes-validated w' after nodes first limits h ds in
    node_built w w' node nodes first limits plans after.graph.produced p d q

checked_add_comm : (a b : ℕ) → checked_add a b ≡ checked_add b a
unfolding checked_add
checked_add_comm a b = let swap : a + b ≡ b + a = omega arith in rw swap refl

-- A chunk of no or of several transforms that passes validation has an execution plan, if only zstd
-- nodes name a dictionary.
pub build_chunk_execution_plan-validated :
    (chunk : ChunkPlan) (output_count : ℕ) (limits : Limits)
    → validate_chunk_plan chunk output_count limits ≡ ok tt
    → length chunk.nodes ≢ 1
    → DictsOnZstd chunk.nodes
    → (plan : ChunkExecutionPlan) × (build_chunk_execution_plan chunk ≡ ok plan)
unfolding validate_chunk_plan validate_by_count validate_graph new_graph build_chunk_execution_plan
build_chunk_execution_plan-validated chunk output_count limits e several d =
    let (bound, p, h) =
      >>=-eq-ok (checked_add (regenerated_streams chunk) (stored_streams chunk)) _ e in
    let (u, q, k) = >>=-eq-ok (fail_if (ltb bound output_count) (error invalid_graph)) _ h in
    let graph : validate_graph chunk output_count bound limits ≡ ok tt =
      whole chunk.nodes bound several k in
    let (after, r, l) =
      >>=-eq-ok (validate_nodes (start_walk bound) chunk.nodes (bound - output_count) limits) _
        graph in
    let (plans, s) = build_nodes-validated (start_walk bound) after chunk.nodes _ limits r d in
    planned bound plans after.graph.produced
      (checked_add_comm (stored_streams chunk) (regenerated_streams chunk) ∙ p) s
  where
    whole :
        (nodes : List NodePlan) (bound : ℕ)
        → length nodes ≢ 1
        → validate_by_count nodes chunk output_count bound limits ≡ ok tt
        → validate_graph chunk output_count bound limits ≡ ok tt
    whole [] bound several k = k
    whole (node ∷ []) bound several k = absurd (several refl)
    whole (node ∷ (other ∷ nodes)) bound several k = k

    planned :
        (bound : ℕ) (plans : List NodeExecutionPlan) (last : List Bool)
        → checked_add (stored_streams chunk) (regenerated_streams chunk) ≡ ok bound
        → build_nodes 0 chunk.nodes (replicate bound false) ≡ ok (plans, last)
        → (plan : ChunkExecutionPlan) × (build_chunk_execution_plan chunk ≡ ok plan)
    planned bound plans last p q =
        (record { nodes = plans; regen_targets = last }, rw (p, q, build_chunk_execution_plan) refl)
