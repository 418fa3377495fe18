-- ===== src/Execute/Slots/Initial.antt =====
-- Each stored stream starts in the slot of its number among the slots that no node fills.
use ozlrip.Prelude.{
  ltb, ◌==◌, lt→ltb, length, replicate, length-append, set-middle, ℕ, ◌+◌, ◌≡◌, refl, sym, ◌∙◌,
  Bool, true, false, not, some, List, [], ◌∷◌, ◌++◌, append_assoc, arith,
}
use ozlrip.Core.{Bytes, invalid_graph, error, ok, ok_or, checked_add}
use ozlrip.Core.Safe.{IsSafe, IsSafe-ok_or, IsSafe-bind, IsSafe-checked_add, checked_add-eq}
use ozlrip.Core.Yields.{Yields, Yields-bind, Yields-after, Yields-ok, Yields-imp, Yields-unless}
use ozlrip.Parse.Plan.{ByteRange, as_slice, ChunkPlan, stored_streams, stored_stream_range}
use ozlrip.Execute.Slots.{StreamSlot, empty, borrowed, store, fill_slots, initialize_stream_slots}
use ozlrip.Execute.Slots.Live.{table_bytes, ok_or-eq}

-- `Stored input chunk targets from slots to`: in the table `slots` for `targets` the slots that a node
-- fills are empty, and the others hold the stored streams `from`, `from + 1`, ... up to `to`.
pub data Stored (input : Bytes) (chunk : ChunkPlan)
    : List Bool → ℕ → List StreamSlot → ℕ → Type 0 where
  no_slots : (n : ℕ) → Stored input chunk [] n [] n
  regenerated :
      {targets : List Bool} {slots : List StreamSlot} {from to : ℕ}
      → Stored input chunk targets from slots to
      → Stored input chunk (true ∷ targets) from (empty ∷ slots) to
  stored :
      {targets : List Bool} {slots : List StreamSlot} {from to : ℕ} (range : ByteRange)
      (bytes : Bytes)
      → stored_stream_range chunk from ≡ some range
      → as_slice range input ≡ ok bytes
      → Stored input chunk targets (from + 1) slots to
      → Stored input chunk
          (false ∷ targets)
          from
          (borrowed (record { bytes = bytes; element_width = 1 }) ∷ slots)
          to

pub IsSafe-as_slice : (range : ByteRange) (input : Bytes) → IsSafe (as_slice range input)
unfolding as_slice
IsSafe-as_slice range input =
    IsSafe-bind (checked_add range.start range.len) _ (IsSafe-checked_add _ _)
      λ end. IsSafe-ok_or _ _

-- A table whose first slots are filled already.
record FilledAfter (input : Bytes) (chunk : ChunkPlan) (before : List StreamSlot)
    (targets : List Bool) (from : ℕ) (table : List StreamSlot × ℕ) : Type 0 where
  slots : List StreamSlot
  whole : table.0 ≡ before ++ slots
  right : Stored input chunk targets from slots (table.1)

module _ (input : Bytes) (chunk : ChunkPlan) (before : List StreamSlot) (slot : StreamSlot) where
  -- One more slot in front of those that are left.
  extended :
      (target : Bool) (targets : List Bool) (from next : ℕ) (table : List StreamSlot × ℕ)
      → ((slots : List StreamSlot) (to : ℕ)
          → Stored input chunk targets next slots to
          → Stored input chunk (target ∷ targets) from (slot ∷ slots) to)
      → FilledAfter input chunk (before ++ slot ∷ []) targets next table
      → FilledAfter input chunk before (target ∷ targets) from table
  extended target targets from next table step f = record {
    slots = slot ∷ f.slots;
    whole = f.whole ∙ append_assoc before (slot ∷ []) f.slots;
    right = step f.slots (table.1) f.right;
  }

  -- The loop goes on behind it.
  behind :
      (target : Bool) (targets : List Bool) (from next : ℕ)
      → ((slots : List StreamSlot) (to : ℕ)
          → Stored input chunk targets next slots to
          → Stored input chunk (target ∷ targets) from (slot ∷ slots) to)
      → Yields (FilledAfter input chunk (before ++ slot ∷ []) targets next) (
          fill_slots input chunk targets
            (length (before ++ slot ∷ []))
            next
            ((before ++ slot ∷ []) ++ replicate (length targets) empty))
      → Yields (FilledAfter input chunk before (target ∷ targets) from) (
          fill_slots input chunk targets
            (length before + 1)
            next
            ((before ++ slot ∷ []) ++ replicate (length targets) empty))
  behind target targets from next step rest =
      let count : length (before ++ slot ∷ []) ≡ length before + 1 =
        length-append before (slot ∷ []) in
      let given = rw count at rest in
      Yields-imp (FilledAfter input chunk (before ++ slot ∷ []) targets next)
        (FilledAfter input chunk before (target ∷ targets) from) _ given
        (λ table. extended target targets from next table step)

module _ (input : Bytes) (chunk : ChunkPlan) where
  fill_slots-FilledAfter :
      (targets : List Bool) (before : List StreamSlot) (from : ℕ)
      → Yields (FilledAfter input chunk before targets from) (
          fill_slots input chunk targets
            (length before)
            from
            (before ++ replicate (length targets) empty))
  unfolding fill_slots store
  fill_slots-FilledAfter [] before from = record {
    holds = record { slots = []; whole = refl; right = no_slots from };
  }
  fill_slots-FilledAfter (true ∷ targets) before from =
      let rest = fill_slots-FilledAfter targets (before ++ empty ∷ []) from in
      rw (sym (append_assoc before (empty ∷ []) (replicate (length targets) empty)))
        (behind input chunk before empty true targets from from (λ slots to s. regenerated s) rest)
  fill_slots-FilledAfter (false ∷ targets) before from =
      Yields-after (ok_or (stored_stream_range chunk from) (error invalid_graph)) _
        (IsSafe-ok_or _ _)
        λ range found.
          Yields-after (as_slice range input) _ (IsSafe-as_slice range input) λ bytes sliced.
            let slot = borrowed (record { bytes = bytes; element_width = 1 }) in
            let others = replicate (length targets) empty in
            let inside : ltb (length before) (length (before ++ (empty ∷ others))) ≡ true =
              lt→ltb _ _ (omega (arith, length-append before (empty ∷ others))) in
            let here =
              ok_or-eq (stored_stream_range chunk from) (error invalid_graph) range found in
            rw (inside, set-middle before others empty slot)
              (Yields-after (checked_add from 1) _ (IsSafe-checked_add from 1) λ next e.
                let count : next ≡ from + 1 = checked_add-eq from 1 next e in
                rw count (
                  behind input chunk before slot false targets from (from + 1)
                    (λ slots to s. stored range bytes here sliced s)
                    (fill_slots-FilledAfter targets (before ++ slot ∷ []) (from + 1))))

-- The table that a chunk starts with has a slot for every stream: those that a node fills are empty,
-- and the others hold all stored streams of the chunk, in order. Building it never panics.
pub initialize_stream_slots-Stored :
    (input : Bytes) (chunk : ChunkPlan) (targets : List Bool)
    → Yields
        (λ slots. Stored input chunk targets 0 slots (stored_streams chunk))
        (initialize_stream_slots input chunk targets)
unfolding initialize_stream_slots
initialize_stream_slots-Stored input chunk targets =
    Yields-bind (FilledAfter input chunk [] targets 0) _ _
      (fill_slots-FilledAfter input chunk targets [] 0)
      λ (slots, to) f. Yields-unless (not (to == stored_streams chunk)) _ _ λ p.
        let all : to ≡ stored_streams chunk = ground arith in
        let given : Stored input chunk targets 0 slots to = rw (f.whole) f.right in
        Yields-ok slots (rw all at given)

-- Such a table holds no owned stream.
pub Stored-table_bytes :
    {input : Bytes} {chunk : ChunkPlan} {targets : List Bool} {from to : ℕ}
    {slots : List StreamSlot}
    → Stored input chunk targets from slots to
    → table_bytes slots ≡ 0
unfolding table_bytes
Stored-table_bytes (no_slots n) = refl
Stored-table_bytes (regenerated s) = omega (arith, Stored-table_bytes s)
Stored-table_bytes (stored range bytes e f s) = omega (arith, Stored-table_bytes s)
