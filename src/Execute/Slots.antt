-- ===== src/Execute/Slots.antt =====
-- crates/decode/src/execute/slots.rs: the stream table of a chunk, and the bytes it holds.
pub mod Initial
pub mod Live
use ozlrip.Prelude.{
  ltb, ◌==◌, if◌then◌else◌, length, get_elem?, set, take, drop, replicate, reverse, get_range, ℕ,
  ◌+◌, ◌-◌, Bool, true, false, not, Option, none, some, List, [], ◌∷◌, ◌++◌,
}
use ozlrip.Core.{
  Bytes, limit_exceeded, invalid_graph, error, Result, ok, err, panic, ◌>>=◌, ◌>>◌, fail_if, ok_or,
  checked_add, saturating_mul, Limits,
}
use ozlrip.Parse.Plan.{as_slice, ChunkPlan, stored_streams, stored_stream_range}
use ozlrip.Execute.Streams.{BorrowedStream, StreamInput, OwnedStream, live_bytes}
use ozlrip.Execute.Runtime.{DecodeScratch, recycle_owned_stream}
use ozlrip.Execute.Plan.{NodeExecutionPlan}

pub data StreamSlot : Type 0 where
  empty : StreamSlot
  borrowed : BorrowedStream → StreamSlot
  owned : OwnedStream → StreamSlot

unfoldable pub as_input : StreamSlot → Result StreamInput
as_input empty = err (error invalid_graph)
as_input (borrowed stream) =
    ok
      (record { bytes = stream.bytes; element_width = stream.element_width; string_lengths = none })
as_input (owned stream) = ok (record {
  bytes = stream.bytes;
  element_width = stream.element_width;
  string_lengths = stream.string_lengths;
})

unfoldable pub single_execution_input : List StreamSlot → ℕ → Result StreamInput
single_execution_input streams input_start =
    ok_or (get_elem? streams input_start) (error invalid_graph) >>= as_input

-- `streams[i] = slot`
unfoldable pub store : List StreamSlot → ℕ → StreamSlot → Result (List StreamSlot)
store streams i slot = if ltb i (length streams) then ok (set streams i slot) else panic

-- The loop over the table, from the slot `i` on, with the stored streams used so far.
unfoldable pub fill_slots :
    Bytes → ChunkPlan → List Bool → ℕ → ℕ → List StreamSlot → Result (List StreamSlot × ℕ)
fill_slots input chunk [] i stored streams = ok (streams, stored)
fill_slots input chunk (true ∷ targets) i stored streams =
    fill_slots input chunk targets (i + 1) stored streams
fill_slots input chunk (false ∷ targets) i stored streams = do
  range ← ok_or (stored_stream_range chunk stored) (error invalid_graph)
  bytes ← as_slice range input
  filled ← store streams i (borrowed (record { bytes = bytes; element_width = 1 }))
  next ← checked_add stored 1
  fill_slots input chunk targets (i + 1) next filled

unfoldable pub initialize_stream_slots : Bytes → ChunkPlan → List Bool → Result (List StreamSlot)
initialize_stream_slots input chunk regen_targets = do
  (streams, stored) ←
      fill_slots input chunk regen_targets 0 0 (replicate (length regen_targets) empty)
  fail_if (not (stored == stored_streams chunk)) (error invalid_graph)
  ok streams

unfoldable pub inputs_of : List StreamSlot → Result (List StreamInput)
inputs_of [] = ok []
inputs_of (slot ∷ slots) = do input ← as_input slot; rest ← inputs_of slots; ok (input ∷ rest)

-- The inputs of a node, last slot first.
unfoldable pub collect_node_inputs : List StreamSlot → ℕ → ℕ → Result (List StreamInput)
collect_node_inputs streams input_start input_count = do
  input_end ← checked_add input_start input_count
  slots ← ok_or (get_range streams input_start input_end) (error invalid_graph)
  inputs_of (reverse slots)

pub record LiveBytes : Type 0 where
  pub current : ℕ
  pub limit : ℕ

unfoldable pub new_live : Limits → LiveBytes
new_live limits = record { current = 0; limit = limits.max_live_bytes }

unfoldable pub add : LiveBytes → OwnedStream → Result LiveBytes
add live stream = do
  current ← checked_add live.current (live_bytes stream)
  fail_if (ltb live.limit current) (error limit_exceeded)
  ok (record live { current = current })

-- `saturating_sub`
unfoldable pub release : LiveBytes → ℕ → LiveBytes
release live bytes = record live { current = live.current - bytes }

-- `input_slot` with its width changed, and the bytes left live.
unfoldable pub convert : StreamSlot → ℕ → LiveBytes → Result (StreamSlot × LiveBytes)
convert empty width live = err (error invalid_graph)
convert (borrowed stream) width live = ok (borrowed (record stream { element_width = width }), live)
convert (owned stream) width live = ok (
  owned (record stream { element_width = width; string_lengths = none }),
  elim stream.string_lengths [
    | none ↦ live
    | some lengths ↦ release live (saturating_mul (length lengths) 4)
  ],
)

abbrev pub single : List ℕ → Result ℕ
single (target ∷ []) = ok target
single _ = err (error invalid_graph)

abbrev pub require_empty : Option StreamSlot → Result (Unit {0})
require_empty (some empty) = ok tt
require_empty _ = err (error invalid_graph)

unfoldable pub move_stream_to_single_output :
    List StreamSlot → NodeExecutionPlan → ℕ → LiveBytes → Result (List StreamSlot × LiveBytes)
move_stream_to_single_output streams node width live = do
  target ← single node.output_targets
  require_empty (get_elem? streams target)
  slot ← ok_or (get_elem? streams node.input_start) (error invalid_graph)
  (converted, left) ← convert slot width live
  moved ← store (set streams node.input_start empty) target converted
  ok (moved, left)

-- Slots are emptied; owned streams are released and given back to the pool.
unfoldable pub recycle_slots :
    List StreamSlot → DecodeScratch → LiveBytes → Result (DecodeScratch × LiveBytes)
recycle_slots [] scratch live = ok (scratch, live)
recycle_slots (owned stream ∷ slots) scratch live = do
  next ← recycle_owned_stream scratch stream
  recycle_slots slots next (release live (live_bytes stream))
recycle_slots (slot ∷ slots) scratch live = recycle_slots slots scratch live

unfoldable pub recycle_consumed_owned_streams :
    List StreamSlot
    → ℕ
    → ℕ
    → DecodeScratch
    → LiveBytes
    → Result (List StreamSlot × (DecodeScratch × LiveBytes))
recycle_consumed_owned_streams streams input_start input_count scratch live = do
  input_end ← checked_add input_start input_count
  slots ← ok_or (get_range streams input_start input_end) (error invalid_graph)
  (next, left) ← recycle_slots slots scratch live
  let emptied = take input_start streams ++ (replicate input_count empty ++ drop input_end streams)
  ok (emptied, (next, left))

unfoldable pub recycle_stream_slots : DecodeScratch → List StreamSlot → Result DecodeScratch
recycle_stream_slots scratch [] = ok scratch
recycle_stream_slots scratch (owned stream ∷ slots) = do
  next ← recycle_owned_stream scratch stream
  recycle_stream_slots next slots
recycle_stream_slots scratch (slot ∷ slots) = recycle_stream_slots scratch slots
