-- ===== src/Execute/Slots/Live.antt =====
-- The count of live bytes is the size of the owned streams in the table.
use ozlrip.Prelude.{
  ltb, lt→ltb, Option-cases, length, get_elem?, set, get_elem?-set_same, get_elem?-some-lt, ℕ, zero,
  suc, ◌+◌, ◌-◌, ◌*◌, ◌≤◌, ◌<◌, min, ◌≡◌, refl, inl, inr, true, Option, none, some, List, [], ◌∷◌,
  ◌++◌, arith,
}
use ozlrip.Core.{
  invalid_graph, Error, error, ok, ◌>>=◌, ok_or, usize_mod, saturating_add, saturating_mul,
}
use ozlrip.Core.Safe.{IsSafe, IsSafe-ok_or}
use ozlrip.Core.Yields.{Yields, Yields-bind, Yields-after}
use ozlrip.Execute.Streams.{live_bytes}
use ozlrip.Execute.Plan.{NodeExecutionPlan}
use ozlrip.Execute.Slots.{
  StreamSlot, empty, borrowed, owned, store, LiveBytes, release, convert, single, require_empty,
  move_stream_to_single_output,
}

abbrev pub slot_bytes : StreamSlot → ℕ
slot_bytes (owned stream) = live_bytes stream
slot_bytes _ = 0

unfoldable pub table_bytes : List StreamSlot → ℕ
table_bytes [] = 0
table_bytes (slot ∷ slots) = slot_bytes slot + table_bytes slots

pub record IsLive (streams : List StreamSlot) (live : LiveBytes) : Type 0 where
  pub counted : live.current ≡ table_bytes streams
  pub bounded : live.current ≤ live.limit

pub table_bytes-append :
    (xs ys : List StreamSlot) → table_bytes (xs ++ ys) ≡ table_bytes xs + table_bytes ys
unfolding table_bytes
table_bytes-append [] ys = omega arith
table_bytes-append (x ∷ xs) ys = omega (arith, table_bytes-append xs ys)

pub table_bytes-set :
    (xs : List StreamSlot) (i : ℕ) (old new : StreamSlot)
    → get_elem? xs i ≡ some old
    → table_bytes (set xs i new) + slot_bytes old ≡ table_bytes xs + slot_bytes new
unfolding table_bytes
table_bytes-set [] i old new e = absurd (cc)
table_bytes-set (x ∷ xs) zero old new e =
    let same : slot_bytes x ≡ slot_bytes old = cc in omega arith
table_bytes-set (x ∷ xs) (suc i) old new e = omega (arith, table_bytes-set xs i old new e)

-- What changing the width of a slot leaves live.
pub record Converted (slot next : StreamSlot) (live left : LiveBytes) : Type 0 where
  kept : left.limit ≡ live.limit
  less : left.current ≤ live.current
  moved : left.current + slot_bytes slot ≡ live.current + slot_bytes next

ConvertedPair : StreamSlot → LiveBytes → StreamSlot × LiveBytes → Type 0
ConvertedPair slot live (next, left) = Converted slot next live left

convert-Converted :
    (slot : StreamSlot) (width : ℕ) (live : LiveBytes)
    → slot_bytes slot ≤ live.current
    → live.current < usize_mod - 1
    → Yields (ConvertedPair slot live) (convert slot width live)
unfolding convert live_bytes release saturating_add saturating_mul ConvertedPair
convert-Converted empty width live h small = record { holds = tt }
convert-Converted (borrowed stream) width live h small = record {
  holds = record { kept = refl; less = omega arith; moved = refl };
}
convert-Converted (owned stream) width live h small = elim (Option-cases stream.string_lengths) [
  | inl e ↦
      let size : slot_bytes (owned stream) ≡ min (length stream.bytes + 0) (usize_mod - 1) =
        rw e refl in
      rw e (record { holds = record { kept = refl; less = omega arith; moved = omega arith } })
  | inr (lengths, e) ↦
      let size : slot_bytes (owned stream)
          ≡ min (length stream.bytes + min (length lengths * 4) (usize_mod - 1)) (usize_mod - 1) =
        rw e refl in
      rw e (record { holds = record { kept = refl; less = omega arith; moved = omega arith } })
]

pub slot-le-table :
    (xs : List StreamSlot) (i : ℕ) (slot : StreamSlot)
    → get_elem? xs i ≡ some slot
    → slot_bytes slot ≤ table_bytes xs
slot-le-table xs i slot e = omega (arith, table_bytes-set xs i slot empty e)

-- What an operation leaves: a table whose bytes are counted, under the same limit.
abbrev pub Left : LiveBytes → List StreamSlot × LiveBytes → Type 0
Left live (streams, left) = IsLive streams left × (left.limit ≡ live.limit)

pub require_empty-eq :
    (o : Option StreamSlot) (done : Unit {0}) → require_empty o ≡ ok done → o ≡ some empty
require_empty-eq none done e = absurd (cc)
require_empty-eq (some empty) done e = refl
require_empty-eq (some (borrowed stream)) done e = absurd (cc)
require_empty-eq (some (owned stream)) done e = absurd (cc)

pub IsSafe-require_empty : (o : Option StreamSlot) → IsSafe (require_empty o)
IsSafe-require_empty none = record { returns = tt }
IsSafe-require_empty (some empty) = record { returns = tt }
IsSafe-require_empty (some (borrowed stream)) = record { returns = tt }
IsSafe-require_empty (some (owned stream)) = record { returns = tt }

IsSafe-single : (targets : List ℕ) → IsSafe (single targets)
IsSafe-single [] = record { returns = tt }
IsSafe-single (target ∷ []) = record { returns = tt }
IsSafe-single (target ∷ other ∷ rest) = record { returns = tt }

module _ (streams : List StreamSlot) (live : LiveBytes) (ok_live : IsLive streams live) where
  -- The stream leaves its slot, and fills the target.
  stored-Left :
      (from target : ℕ) (slot next : StreamSlot) (left : LiveBytes)
      → get_elem? streams from ≡ some slot
      → get_elem? streams target ≡ some empty
      → Converted slot next live left
      → Yields
          (Left live)
          (store (set streams from empty) target next >>= λ moved. ok (moved, left))
  unfolding store
  stored-Left from target slot next left found free converted =
      let emptied = set streams from empty in
      let here : get_elem? emptied target ≡ some empty =
        get_elem?-set_same streams from target empty free in
      let inside : ltb target (length emptied) ≡ true =
        lt→ltb _ _ (get_elem?-some-lt emptied target here) in
      let out = table_bytes-set streams from slot empty found in
      let into = table_bytes-set emptied target empty next here in
      rw inside (record {
        holds = (
          record {
            counted = omega (arith, ok_live.counted, converted.moved);
            bounded = omega (arith, ok_live.bounded, converted.less, converted.kept);
          },
          converted.kept,
        );
      })

pub ok_or-eq {ℓ} : {A : Type ℓ} (o : Option A) (e : Error) (a : A) → ok_or o e ≡ ok a → o ≡ some a
ok_or-eq none e a h = absurd (cc)
ok_or-eq (some b) e a h = cc

-- Moving a stream to the slot of a node's only output never panics, and the live bytes stay counted.
pub move_stream_to_single_output-Left :
    (streams : List StreamSlot) (node : NodeExecutionPlan) (width : ℕ) (live : LiveBytes)
    → IsLive streams live
    → live.limit < usize_mod - 1
    → Yields (Left live) (move_stream_to_single_output streams node width live)
unfolding move_stream_to_single_output ConvertedPair
move_stream_to_single_output-Left streams node width live ok_live small =
    Yields-after (single node.output_targets) _ (IsSafe-single node.output_targets) λ target _.
      Yields-after (require_empty (get_elem? streams target)) _ (IsSafe-require_empty _)
        λ done free.
          Yields-after (ok_or (get_elem? streams node.input_start) (error invalid_graph)) _
            (IsSafe-ok_or (get_elem? streams node.input_start) (error invalid_graph))
            λ slot found.
              let here =
                ok_or-eq (get_elem? streams node.input_start) (error invalid_graph) slot found in
              let free' = require_empty-eq (get_elem? streams target) done free in
              let enough : slot_bytes slot ≤ live.current =
                omega (arith, slot-le-table streams node.input_start slot here, ok_live.counted) in
              Yields-bind (ConvertedPair slot live) (convert slot width live) _
                (convert-Converted slot width live enough (omega (arith, ok_live.bounded)))
                λ (next, left) c.
                  stored-Left streams live ok_live node.input_start target slot next left here free'
                    c
