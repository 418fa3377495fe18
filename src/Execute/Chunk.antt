-- ===== src/Execute/Chunk.antt =====
-- crates/decode/src/execute/chunk.rs: running the nodes of a chunk into its stream table.
-- `decode_node` stands for the node decoders of node.rs, with the state `S` that they keep besides the
-- pool: the dictionaries and the contexts of the codecs.
pub mod Counted
pub mod Bounded
pub mod Run
use ozlrip.Prelude.{
  ◌==◌, if◌then◌else◌, length, get_elem?, ℕ, ◌-◌, Bool, not, ◌||◌, Option, none, some, List, [],
  ◌∷◌,
}
use ozlrip.Core.{
  Bytes, malformed, invalid_graph, invalid_type, error, Result, ok, err, ◌>>=◌, ◌>>◌, fail_if,
  Limits,
}
use ozlrip.Standard.Ids.{splitn_id, splitn_struct_id, splitn_num_id}
use ozlrip.Parse.Plan.{as_slice, ChunkPlan}
use ozlrip.Execute.Streams.{StreamInput, OwnedStream, require_empty_header}
use ozlrip.Execute.Output.{check_output_len}
use ozlrip.Execute.Runtime.{DecodeScratch, swap_remove}
use ozlrip.Execute.Elements.{is_multiple_of}
use ozlrip.Execute.Plan.{NodeExecutionPlan, ChunkExecutionPlan, header}
use ozlrip.Execute.Slots.{
  StreamSlot, empty, borrowed, owned, single_execution_input, store, initialize_stream_slots,
  collect_node_inputs, LiveBytes, new_live, add, require_empty, move_stream_to_single_output,
  recycle_consumed_owned_streams,
}
use ozlrip.Execute.Numeric.Convert.{
  is_byte_preserving_conversion, byte_preserving_conversion_output_width,
}

pub data DecodedChunk : Type 0 where
  borrowed_chunk : Bytes → DecodedChunk
  owned_chunk : Bytes → DecodedChunk

-- What a node changes.
pub record Running (S : Type 0) : Type 0 where
  pub streams : List StreamSlot
  pub live : LiveBytes
  pub scratch : DecodeScratch
  pub state : S

-- A node decoder: the node, its inputs and its header, the pool and the state.
abbrev pub NodeDecoder : Type 0 → Type 0
NodeDecoder S =
    NodeExecutionPlan
    → List StreamInput
    → Bytes
    → DecodeScratch
    → S
    → Result (List OwnedStream × (DecodeScratch × S))

-- The outputs fill the targets, in order.
unfoldable pub place_outputs :
    List StreamSlot → List OwnedStream → List ℕ → LiveBytes → Result (List StreamSlot × LiveBytes)
place_outputs streams [] targets live = ok (streams, live)
place_outputs streams (output ∷ outputs) [] live = ok (streams, live)
place_outputs streams (output ∷ outputs) (target ∷ targets) live = do
  require_empty (get_elem? streams target)
  next ← add live output
  filled ← store streams target (owned output)
  place_outputs filled outputs targets next

abbrev pub is_splitn : ℕ → Bool
is_splitn id = id == splitn_id || (id == splitn_struct_id || id == splitn_num_id)

-- None where the shortcut does not apply.
unfoldable pub try_execute_single_input_splitn_node :
    List StreamSlot
    → NodeExecutionPlan
    → Bytes
    → Limits
    → LiveBytes
    → Result (Option (List StreamSlot × LiveBytes))
try_execute_single_input_splitn_node streams node bytes limits live =
    if not (is_splitn node.standard_id) || not (node.input_count == 1) then ok none else do
      require_empty_header bytes
      input ← single_execution_input streams node.input_start
      fail_if (input.element_width == 0) (error invalid_type)
      fail_if (not (is_multiple_of (length input.bytes) input.element_width)) (error malformed)
      check_output_len (length input.bytes) limits
      moved ←
          move_stream_to_single_output streams node
            (if node.standard_id == splitn_id then 1 else input.element_width) live
      ok (some moved)

unfoldable pub try_execute_byte_preserving_conversion_node :
    List StreamSlot
    → NodeExecutionPlan
    → Bytes
    → Limits
    → LiveBytes
    → Result (Option (List StreamSlot × LiveBytes))
try_execute_byte_preserving_conversion_node streams node bytes limits live =
    if not (is_byte_preserving_conversion node.standard_id) then ok none else do
      input ← single_execution_input streams node.input_start
      width ←
          byte_preserving_conversion_output_width node.standard_id node.input_count input bytes
            limits
      elim width [
        | none ↦ ok none
        | some output_width ↦
            move_stream_to_single_output streams node output_width live >>= λ moved. ok (some moved)
      ]

abbrev pub moved_to : {S : Type 0} → Running S → List StreamSlot × LiveBytes → Running S
moved_to run (streams, live) = record run { streams = streams; live = live }

abbrev output_of : StreamSlot → Result DecodedChunk
output_of empty = err (error invalid_graph)
output_of (borrowed stream) = ok (borrowed_chunk stream.bytes)
output_of (owned stream) = ok (owned_chunk stream.bytes)

module _ {S : Type 0} (decode_node : NodeDecoder S) where
  -- The end of `execute_node`, where no shortcut applies.
  unfoldable pub decode_and_place : Running S → NodeExecutionPlan → Bytes → Result (Running S)
  decode_and_place run node bytes = do
    inputs ← collect_node_inputs run.streams node.input_start node.input_count
    (outputs, (scratch, state)) ← decode_node node inputs bytes run.scratch run.state
    (streams, (recycled, live)) ←
        recycle_consumed_owned_streams run.streams node.input_start node.input_count scratch
          run.live
    fail_if (not (length outputs == length node.output_targets)) (error invalid_graph)
    (placed, left) ← place_outputs streams outputs node.output_targets live
    ok (record { streams = placed; live = left; scratch = recycled; state = state })

  unfoldable pub execute_node : Running S → NodeExecutionPlan → Bytes → Limits → Result (Running S)
  execute_node run node bytes limits = do
    split ← try_execute_single_input_splitn_node run.streams node bytes limits run.live
    elim split [
      | some moved ↦ ok (moved_to run moved)
      | none ↦ (do
        conversion ←
            try_execute_byte_preserving_conversion_node run.streams node bytes limits run.live
        elim conversion [
          | some moved ↦ ok (moved_to run moved)
          | none ↦ decode_and_place run node bytes
        ])
    ]

  -- The loop over the nodes.
  unfoldable pub run_nodes :
      List NodeExecutionPlan → Bytes → Limits → Running S → Result (Running S)
  run_nodes [] headers limits run = ok run
  run_nodes (node ∷ nodes) headers limits run = do
    node_header ← header node headers
    next ← execute_node run node node_header limits
    run_nodes nodes headers limits next

  unfoldable pub run_chunk :
      Bytes → ChunkPlan → ChunkExecutionPlan → Limits → DecodeScratch → S → Result (Running S)
  run_chunk input chunk plan limits scratch state = do
    streams ← initialize_stream_slots input chunk plan.regen_targets
    headers ← as_slice chunk.transform_header_range input
    run_nodes plan.nodes headers limits
        (record { streams = streams; live = new_live limits; scratch = scratch; state = state })

  -- The last stream is the output.
  unfoldable pub decode_transform_chunk_with_plan :
      Bytes
      → ChunkPlan
      → ChunkExecutionPlan
      → Limits
      → DecodeScratch
      → S
      → Result (DecodedChunk × (DecodeScratch × S))
  decode_transform_chunk_with_plan input chunk plan limits scratch state = do
    run ← run_chunk input chunk plan limits scratch state
    fail_if (length run.streams == 0) (error invalid_graph)
    (last, rest) ← swap_remove run.streams (length run.streams - 1)
    decoded ← output_of last
    ok (decoded, (run.scratch, run.state))
