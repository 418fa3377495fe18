-- ===== src/Standard.antt =====
-- crates/decode/src/standard.rs: finding a standard transform by its ID.
pub mod Ids
pub mod Table
pub mod Safe
pub mod Lookup
pub mod Window
use ozlrip.Prelude.{
  ℕ, zero, suc, ◌+◌, Bool, true, false, ◌||◌, List, [], ◌∷◌, Option, none, some, ltb, ◌==◌,
  if◌then◌else◌, get_elem?, set, replicate,
}
use ozlrip.Core.{error, unsupported, Result, ok, err, panic, stuck, ◌>>=◌, index}
use Table.{StandardNode, standard_nodes}

abbrev pub no_position : ℕ
no_position = 255

-- The table of positions, filled row by row; `assert!(index[id] == u8::MAX)` and an ID past the table
-- stop the build.
unfoldable pub fill_index : ℕ → List StandardNode → List ℕ → Result (List ℕ)
fill_index position [] table = ok table
fill_index position (row ∷ rows) table = index table row.id >>= λ taken.
    elim (taken == no_position) [
      | true ↦ fill_index (position + 1) rows (set table row.id position)
      | false ↦ panic
    ]

unfoldable pub node_index : Result (List ℕ)
unfolding fill_index standard_nodes
node_index = fill_index 0 standard_nodes (replicate 128 no_position)

-- `NODE_INDEX`, which the build computes.
abbrev pub built : Result (List ℕ) → List ℕ
built (ok table) = table
built _ = []

unfoldable pub standard_node : ℕ → Option StandardNode
unfolding node_index
standard_node id = elim (get_elem? (built node_index) id) [
  | none ↦ none
  | some position ↦ get_elem? standard_nodes position
]

abbrev pub too_new : Option ℕ → ℕ → Bool
too_new none format_version = false
too_new (some max_version) format_version = ltb max_version format_version

unfoldable pub validate_transform_id : ℕ → ℕ → Result (Unit {0})
unfolding standard_node
validate_transform_id id format_version = elim (standard_node id) [
  | none ↦ err (error unsupported)
  | some row ↦
      if ltb format_version row.min_version || too_new row.max_version format_version
      then err (error unsupported)
      else ok tt
]
