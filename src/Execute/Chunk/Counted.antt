-- ===== src/Execute/Chunk/Counted.antt =====
-- The count of live bytes while a node is run.
use ozlrip.Prelude.{
  ltb, lt→ltb, Bool-cases, length, get_elem?, set, take, drop, replicate, reverse, get_range,
  get_elem?-some-lt, get_range-split, ℕ, zero, suc, ◌+◌, ◌≤◌, ◌≡◌, refl, ap, ◌∙◌, inl, inr, true,
  some, List, [], ◌∷◌, ◌++◌, arith,
}
use ozlrip.Core.{limit_exceeded, invalid_graph, error, ok, fail_if, ok_or, checked_add, >>=-eq-ok}
use ozlrip.Core.Safe.{
  IsSafe, IsSafe-ok, IsSafe-ok_or, IsSafe-bind, IsSafe-checked_add, checked_add-eq, safe_rules,
}
use ozlrip.Core.Yields.{Yields, Yields-bind, Yields-after, Yields-ok, Yields-imp}
use ozlrip.Execute.Streams.{OwnedStream, live_bytes}
use ozlrip.Execute.Runtime.{DecodeScratch, recycle_owned_stream}
use ozlrip.Execute.Runtime.Pool.{IsPool, recycle_byte_buffer-IsPool}
use ozlrip.Execute.Slots.{
  StreamSlot, empty, borrowed, owned, as_input, store, inputs_of, collect_node_inputs, LiveBytes,
  add, release, require_empty, recycle_slots, recycle_consumed_owned_streams,
}
use ozlrip.Execute.Slots.Live.{
  table_bytes, IsLive, table_bytes-append, table_bytes-set, Left, require_empty-eq,
  IsSafe-require_empty, ok_or-eq,
}
use ozlrip.Execute.Chunk.{place_outputs}

abbrev pub Recycled : ℕ → LiveBytes → DecodeScratch × LiveBytes → Type 0
Recycled bytes live (scratch, left) =
    IsPool scratch × (left.limit ≡ live.limit) × (left.current + bytes ≡ live.current)

recycle_owned_stream-IsPool :
    (scratch : DecodeScratch) (stream : OwnedStream)
    → IsPool scratch
    → Yields IsPool (recycle_owned_stream scratch stream)
unfolding recycle_owned_stream
recycle_owned_stream-IsPool scratch stream pool = elim (Bool-cases stream.recyclable) [
  | inl p ↦ rw p (
      recycle_byte_buffer-IsPool scratch
        (record { bytes = stream.bytes; capacity = stream.capacity }) pool)
  | inr p ↦ rw p (Yields-ok scratch pool)
]

-- Every owned stream among the slots is released, and the pool stays within its bounds.
recycle_slots-Recycled :
    (slots : List StreamSlot) (scratch : DecodeScratch) (live : LiveBytes)
    → IsPool scratch
    → table_bytes slots ≤ live.current
    → Yields (Recycled (table_bytes slots) live) (recycle_slots slots scratch live)
unfolding recycle_slots table_bytes release
recycle_slots-Recycled [] scratch live pool h = record { holds = (pool, refl, omega arith) }
recycle_slots-Recycled (empty ∷ slots) scratch live pool h =
    let same : 0 + table_bytes slots ≡ table_bytes slots = omega arith in
    rw same (recycle_slots-Recycled slots scratch live pool (omega arith))
recycle_slots-Recycled (borrowed stream ∷ slots) scratch live pool h =
    let same : 0 + table_bytes slots ≡ table_bytes slots = omega arith in
    rw same (recycle_slots-Recycled slots scratch live pool (omega arith))
recycle_slots-Recycled (owned stream ∷ slots) scratch live pool h =
    Yields-bind IsPool (recycle_owned_stream scratch stream) _
      (recycle_owned_stream-IsPool scratch stream pool)
      λ next kept.
        let left = release live (live_bytes stream) in
        Yields-imp (Recycled (table_bytes slots) left)
          (Recycled (live_bytes stream + table_bytes slots) live) (recycle_slots slots next left)
          (recycle_slots-Recycled slots next left kept (omega arith))
          λ (end, rest) (p, q, r). (p, q, omega arith)

-- The outputs of a node are counted before they fill their slots.
add-eq :
    (live : LiveBytes) (stream : OwnedStream) (next : LiveBytes)
    → add live stream ≡ ok next
    → (next.current ≡ live.current + live_bytes stream)
      × (next.limit ≡ live.limit)
      × (next.current ≤ next.limit)
unfolding add
add-eq live stream next e =
    let (sum, added, e1) = >>=-eq-ok (checked_add live.current (live_bytes stream)) _ e in
    let (_, under, e2) = >>=-eq-ok (fail_if (ltb live.limit sum) (error limit_exceeded)) _ e1 in
    let total = checked_add-eq live.current (live_bytes stream) sum added in ground (arith, total)

IsSafe-add : (live : LiveBytes) (stream : OwnedStream) → IsSafe (add live stream)
unfolding add
IsSafe-add live stream = search safe_rules depth 6

module _ (live : LiveBytes) (streams : List StreamSlot) where
  stored-IsLive :
      (target : ℕ) (output : OwnedStream) (next : LiveBytes)
      → IsLive streams live
      → get_elem? streams target ≡ some empty
      → add live output ≡ ok next
      → IsLive (set streams target (owned output)) next
  stored-IsLive target output next ok_live free e =
      let (sum, _, bound) = add-eq live output next e in
      let table = table_bytes-set streams target empty (owned output) free in
      record { counted = omega (arith, ok_live.counted); bounded = bound }

pub place_outputs-Left :
    (outputs : List OwnedStream) (targets : List ℕ) (streams : List StreamSlot) (live : LiveBytes)
    → IsLive streams live
    → Yields (Left live) (place_outputs streams outputs targets live)
unfolding place_outputs store
place_outputs-Left [] targets streams live ok_live = record { holds = (ok_live, refl) }
place_outputs-Left (output ∷ outputs) [] streams live ok_live = record { holds = (ok_live, refl) }
place_outputs-Left (output ∷ outputs) (target ∷ targets) streams live ok_live =
    Yields-after (require_empty (get_elem? streams target)) _ (IsSafe-require_empty _) λ done free.
      Yields-after (add live output) _ (IsSafe-add live output) λ next e.
        let here = require_empty-eq (get_elem? streams target) done free in
        let inside : ltb target (length streams) ≡ true =
          lt→ltb _ _ (get_elem?-some-lt streams target here) in
        let (_, same, _) = add-eq live output next e in
        rw inside (
          Yields-imp (Left next) (Left live) _
            (place_outputs-Left outputs targets (set streams target (owned output)) next
              (stored-IsLive live streams target output next ok_live here e))
            λ (end, left) (p, q). (p, q ∙ same))

table_bytes-replicate : (n : ℕ) → table_bytes (replicate n empty) ≡ 0
unfolding table_bytes
table_bytes-replicate zero = refl
table_bytes-replicate (suc n) = omega (arith, table_bytes-replicate n)

abbrev pub Consumed : LiveBytes → List StreamSlot × (DecodeScratch × LiveBytes) → Type 0
Consumed live (streams, (scratch, left)) =
    IsPool scratch × IsLive streams left × (left.limit ≡ live.limit)

-- The slots that a node has read are emptied and released.
pub recycle_consumed_owned_streams-Consumed :
    (streams : List StreamSlot) (start count : ℕ) (scratch : DecodeScratch) (live : LiveBytes)
    → IsPool scratch
    → IsLive streams live
    → Yields (Consumed live) (recycle_consumed_owned_streams streams start count scratch live)
unfolding recycle_consumed_owned_streams
recycle_consumed_owned_streams-Consumed streams start count scratch live pool ok_live =
    Yields-after (checked_add start count) _ (IsSafe-checked_add start count) λ end _.
      Yields-after (ok_or (get_range streams start end) (error invalid_graph)) _
        (IsSafe-ok_or (get_range streams start end) (error invalid_graph))
        λ slots found.
          let here = ok_or-eq (get_range streams start end) (error invalid_graph) slots found in
          let before = take start streams in
          let after = drop end streams in
          let split : table_bytes streams
              ≡ table_bytes before + (table_bytes slots + table_bytes after) =
            ap table_bytes (get_range-split streams start end slots here)
            ∙ omega (
              arith,
              table_bytes-append before (slots ++ after),
              table_bytes-append slots after,
            ) in
          let emptied : table_bytes (before ++ (replicate count empty ++ after))
              ≡ table_bytes before + table_bytes after =
            omega (
              arith,
              table_bytes-append before (replicate count empty ++ after),
              table_bytes-append (replicate count empty) after,
              table_bytes-replicate count,
            ) in
          Yields-bind (Recycled (table_bytes slots) live) (recycle_slots slots scratch live) _
            (recycle_slots-Recycled slots scratch live pool (omega (arith, ok_live.counted)))
            λ (next, left) (p, q, r). Yields-ok _ (
              p,
              record {
                counted = omega (arith, ok_live.counted);
                bounded = omega (arith, ok_live.bounded);
              },
              q,
            )

pub IsSafe-as_input : (slot : StreamSlot) → IsSafe (as_input slot)
unfolding as_input
IsSafe-as_input empty = record { returns = tt }
IsSafe-as_input (borrowed stream) = record { returns = tt }
IsSafe-as_input (owned stream) = record { returns = tt }

IsSafe-inputs_of : (slots : List StreamSlot) → IsSafe (inputs_of slots)
unfolding inputs_of
IsSafe-inputs_of [] = record { returns = tt }
IsSafe-inputs_of (slot ∷ slots) =
    IsSafe-bind (as_input slot) _ (IsSafe-as_input slot)
      λ input. IsSafe-bind (inputs_of slots) _ (IsSafe-inputs_of slots) λ rest. IsSafe-ok _

pub IsSafe-collect_node_inputs :
    (streams : List StreamSlot) (start count : ℕ) → IsSafe (collect_node_inputs streams start count)
unfolding collect_node_inputs
IsSafe-collect_node_inputs streams start count =
    IsSafe-bind (checked_add start count) _ (IsSafe-checked_add start count) λ end.
      IsSafe-bind (ok_or (get_range streams start end) (error invalid_graph)) _ (IsSafe-ok_or _ _)
        λ slots. IsSafe-inputs_of (reverse slots)
