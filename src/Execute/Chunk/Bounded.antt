-- ===== src/Execute/Chunk/Bounded.antt =====
-- The owned streams of a chunk stay within the limit, and the pool within its bounds.
use ozlrip.Prelude.{
  ◌==◌, if◌then◌else◌, Bool-cases, length, get_elem?, ℕ, ◌-◌, ◌<◌, ◌≡◌, ◌∙◌, inl, inr, not, ◌||◌,
  Option, none, some, List, arith,
}
use ozlrip.Core.{
  Bytes, malformed, invalid_graph, invalid_type, error, Result, ok, ◌>>=◌, fail_if, ok_or,
  usize_mod, Limits,
}
use ozlrip.Core.Safe.{IsSafe, IsSafe-ok_or, IsSafe-bind, IsSafe-fail_if}
use ozlrip.Core.Yields.{Yields, Yields-bind, Yields-after, Yields-ok}
use ozlrip.Standard.Ids.{splitn_id}
use ozlrip.Execute.Streams.{StreamInput, OwnedStream, require_empty_header}
use ozlrip.Execute.Output.{check_output_len}
use ozlrip.Execute.Runtime.{DecodeScratch}
use ozlrip.Execute.Runtime.Pool.{IsPool}
use ozlrip.Execute.Elements.{is_multiple_of}
use ozlrip.Execute.Plan.{NodeExecutionPlan}
use ozlrip.Execute.Slots.{
  StreamSlot, as_input, single_execution_input, collect_node_inputs, LiveBytes,
  move_stream_to_single_output, recycle_consumed_owned_streams,
}
use ozlrip.Execute.Slots.Live.{IsLive, Left, move_stream_to_single_output-Left}
use ozlrip.Execute.Numeric.Convert.{
  is_byte_preserving_conversion, byte_preserving_conversion_output_width,
}
use ozlrip.Execute.Numeric.Convert.Safe.{
  IsSafe-check_output_len, IsSafe-require_empty_header,
  IsSafe-byte_preserving_conversion_output_width,
}
use ozlrip.Execute.Chunk.{
  Running, NodeDecoder, place_outputs, is_splitn, try_execute_single_input_splitn_node,
  try_execute_byte_preserving_conversion_node, moved_to, decode_and_place, execute_node,
}
use ozlrip.Execute.Chunk.Counted.{
  place_outputs-Left, Consumed, recycle_consumed_owned_streams-Consumed, IsSafe-as_input,
  IsSafe-collect_node_inputs,
}

IsSafe-single_execution_input :
    (streams : List StreamSlot) (start : ℕ) → IsSafe (single_execution_input streams start)
unfolding single_execution_input
IsSafe-single_execution_input streams start =
    IsSafe-bind (ok_or (get_elem? streams start) (error invalid_graph)) as_input (IsSafe-ok_or _ _)
      IsSafe-as_input

-- What a shortcut leaves where it applies.
abbrev Moved : LiveBytes → Option (List StreamSlot × LiveBytes) → Type 0
Moved live none = Unit
Moved live (some moved) = Left live moved

Moved-after :
    (live : LiveBytes) (m : Result (List StreamSlot × LiveBytes))
    → Yields (Left live) m
    → Yields (Moved live) (m >>= λ moved. ok (some moved))
Moved-after live m p = Yields-bind (Left live) m _ p λ moved q. Yields-ok (some moved) q

module _ (node : NodeExecutionPlan) (bytes : Bytes) (limits : Limits) where
  splitn-Moved :
      (streams : List StreamSlot) (live : LiveBytes)
      → IsLive streams live
      → live.limit < usize_mod - 1
      → Yields (Moved live) (try_execute_single_input_splitn_node streams node bytes limits live)
  unfolding try_execute_single_input_splitn_node
  splitn-Moved streams live ok_live small =
      elim (Bool-cases (not (is_splitn node.standard_id) || not (node.input_count == 1))) [
        | inl p ↦ rw p (Yields-ok none tt)
        | inr p ↦ rw p (
            Yields-after (require_empty_header bytes) _ (IsSafe-require_empty_header bytes) λ _ _.
              Yields-after (single_execution_input streams node.input_start) _
                (IsSafe-single_execution_input streams node.input_start)
                λ input _.
                  Yields-after (fail_if (input.element_width == 0) (error invalid_type)) _
                    (IsSafe-fail_if _ _)
                    λ _ _.
                      Yields-after
                        (fail_if (not (is_multiple_of (length input.bytes) input.element_width))
                          (error malformed))
                        _ (IsSafe-fail_if _ _)
                        λ _ _.
                          Yields-after (check_output_len (length input.bytes) limits) _
                            (IsSafe-check_output_len _ _)
                            λ _ _. Moved-after live _ (
                              move_stream_to_single_output-Left streams node
                                (if node.standard_id == splitn_id then 1 else input.element_width)
                                live ok_live small))
      ]

  conversion-Moved :
      (streams : List StreamSlot) (live : LiveBytes)
      → IsLive streams live
      → live.limit < usize_mod - 1
      → Yields
          (Moved live)
          (try_execute_byte_preserving_conversion_node streams node bytes limits live)
  unfolding try_execute_byte_preserving_conversion_node
  conversion-Moved streams live ok_live small =
      elim (Bool-cases (not (is_byte_preserving_conversion node.standard_id))) [
        | inl p ↦ rw p (Yields-ok none tt)
        | inr p ↦ rw p (
            Yields-after (single_execution_input streams node.input_start) _
              (IsSafe-single_execution_input streams node.input_start)
              λ input _.
                Yields-after
                  (byte_preserving_conversion_output_width node.standard_id node.input_count input
                    bytes limits)
                  _ (IsSafe-byte_preserving_conversion_output_width _ _ _ _ _)
                  λ width _. converted width)
      ]
    where
      converted :
          (width : Option ℕ)
          → Yields (Moved live) (elim width [
            | none ↦ ok none
            | some output_width ↦
                move_stream_to_single_output streams node output_width live >>= λ moved.
                ok (some moved)
          ])
      converted none = Yields-ok none tt
      converted (some output_width) =
          Moved-after live _
            (move_stream_to_single_output-Left streams node output_width live ok_live small)

-- The table, the count and the pool between two nodes.
pub record IsBounded {S : Type 0} (limit : ℕ) (run : Running S) : Type 0 where
  pub live : IsLive run.streams run.live
  pub under : run.live.limit ≡ limit
  pub pool : IsPool run.scratch

-- What a node decoder gives back of the pool.
abbrev pub KeepsPool : {S : Type 0} → List OwnedStream × (DecodeScratch × S) → Type 0
KeepsPool (outputs, (scratch, state)) = IsPool scratch

module _ {S : Type 0} (limit : ℕ) (decode_node : NodeDecoder S) where
  decode_and_place-IsBounded :
      (run : Running S) (node : NodeExecutionPlan) (bytes : Bytes)
      → ((inputs : List StreamInput)
          → Yields KeepsPool (decode_node node inputs bytes run.scratch run.state))
      → IsBounded limit run
      → Yields (IsBounded limit) (decode_and_place decode_node run node bytes)
  unfolding decode_and_place
  decode_and_place-IsBounded run node bytes keeps bounded =
      Yields-after (collect_node_inputs run.streams node.input_start node.input_count) _
        (IsSafe-collect_node_inputs _ _ _)
        λ inputs _.
          Yields-bind KeepsPool (decode_node node inputs bytes run.scratch run.state) _
            (keeps inputs)
            λ (outputs, (scratch, state)) pool.
              Yields-bind (Consumed run.live)
                (recycle_consumed_owned_streams run.streams node.input_start node.input_count
                  scratch run.live)
                _
                (recycle_consumed_owned_streams-Consumed run.streams node.input_start
                  node.input_count scratch run.live pool bounded.live)
                λ (streams, (recycled, live)) (p, q, r).
                  Yields-after
                    (fail_if (not (length outputs == length node.output_targets))
                      (error invalid_graph))
                    _ (IsSafe-fail_if _ _)
                    λ _ _.
                      Yields-bind (Left live)
                        (place_outputs streams outputs node.output_targets live) _
                        (place_outputs-Left outputs node.output_targets streams live q)
                        λ (placed, left) (s, t).
                          Yields-ok _ (record { live = s; under = t ∙ r ∙ bounded.under; pool = p })

  pub execute_node-IsBounded :
      (run : Running S) (node : NodeExecutionPlan) (bytes : Bytes) (limits : Limits)
      → ((inputs : List StreamInput)
          → Yields KeepsPool (decode_node node inputs bytes run.scratch run.state))
      → limit < usize_mod - 1
      → IsBounded limit run
      → Yields (IsBounded limit) (execute_node decode_node run node bytes limits)
  unfolding execute_node
  execute_node-IsBounded run node bytes limits keeps small bounded =
      let small' : run.live.limit < usize_mod - 1 = omega (arith, bounded.under) in
      Yields-bind (Moved run.live)
        (try_execute_single_input_splitn_node run.streams node bytes limits run.live) _
        (splitn-Moved node bytes limits run.streams run.live bounded.live small')
        λ split moved. first split moved
    where
      given :
          (moved : List StreamSlot × LiveBytes)
          → Left run.live moved
          → IsBounded limit (moved_to run moved)
      given (streams, live) (p, q) = record {
        live = p;
        under = q ∙ bounded.under;
        pool = bounded.pool;
      }

      second :
          (conversion : Option (List StreamSlot × LiveBytes))
          → Moved run.live conversion
          → Yields (IsBounded limit) (elim conversion [
            | some moved ↦ ok (moved_to run moved)
            | none ↦ decode_and_place decode_node run node bytes
          ])
      second none p = decode_and_place-IsBounded run node bytes keeps bounded
      second (some moved) p = Yields-ok _ (given moved p)

      first :
          (split : Option (List StreamSlot × LiveBytes))
          → Moved run.live split
          → Yields (IsBounded limit) (elim split [
            | some moved ↦ ok (moved_to run moved)
            | none ↦
                try_execute_byte_preserving_conversion_node run.streams node bytes limits run.live
                >>= λ conversion. elim conversion [
                  | some moved ↦ ok (moved_to run moved)
                  | none ↦ decode_and_place decode_node run node bytes
                ]
          ])
      first none p =
          Yields-bind (Moved run.live)
            (try_execute_byte_preserving_conversion_node run.streams node bytes limits run.live) _
            (conversion-Moved node bytes limits run.streams run.live bounded.live
              (omega (arith, bounded.under)))
            λ conversion q. second conversion q
      first (some moved) p = Yields-ok _ (given moved p)
