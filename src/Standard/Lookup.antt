-- ===== src/Standard/Lookup.antt =====
-- The index of the table of standard transforms finds each row: crates/decode/src/standard.rs.
use ozlrip.Prelude.{
  ℕ, zero, suc, ◌+◌, ◌-◌, ◌⊎◌, ◌≤◌, ◌<◌, ◌≡◌, ◌≢◌, refl, sym, ap, ◌∙◌, arith, true, false, List, [],
  ◌∷◌, Option, none, some, ◌==◌, if◌then◌else◌, Bool-cases, Option-cases, inl, inr, get_elem?,
  get_elem?-some-lt, set, replicate, length,
}
use mathlib.Core.Path.{subst}
use ozlrip.Core.{ok, panic, >>=-eq-ok, index}
use ozlrip.Standard.Table.{StandardNode, standard_nodes}
use ozlrip.Standard.{built, no_position, fill_index, node_index, standard_node}

-- The position of the first row with this ID, the first row at `position`.
abbrev position_of : ℕ → List StandardNode → ℕ → Option ℕ
position_of id [] position = none
position_of id (row ∷ rows) position =
    if row.id == id then some position else position_of id rows (position + 1)

-- The first row with this ID.
abbrev pub find_node : ℕ → List StandardNode → Option StandardNode
find_node id [] = none
find_node id (row ∷ rows) = if row.id == id then some row else find_node id rows

get-set : (xs : List ℕ) (i v : ℕ) → i < length xs → get_elem? (set xs i v) i ≡ some v
get-set [] i v h = absurd (omega arith)
get-set (x ∷ xs) zero v h = refl
get-set (x ∷ xs) (suc i) v h = get-set xs i v (omega arith)

get-set_other : (xs : List ℕ) (i j v : ℕ) → i ≢ j → get_elem? (set xs i v) j ≡ get_elem? xs j
get-set_other [] i j v h = refl
get-set_other (x ∷ xs) zero zero v h = absurd (h refl)
get-set_other (x ∷ xs) zero (suc j) v h = refl
get-set_other (x ∷ xs) (suc i) zero v h = refl
get-set_other (x ∷ xs) (suc i) (suc j) v h = get-set_other xs i j v (λ e. h (ap suc e))

index-eq-ok : (xs : List ℕ) (i v : ℕ) → index xs i ≡ ok v → get_elem? xs i ≡ some v
index-eq-ok xs i v e = elim (Option-cases (get_elem? xs i)) [
  | inl q ↦ absurd (cc (rw (q, index) at e))
  | inr (w, q) ↦ let same : w ≡ v = cc (rw (q, index) at e) in q ∙ ap some same
]

-- One row of the table goes to a free place.
step :
    (position : ℕ) (row : StandardNode) (rows : List StandardNode) (table filled : List ℕ)
    → fill_index position (row ∷ rows) table ≡ ok filled
    → (get_elem? table row.id ≡ some no_position)
      × (fill_index (position + 1) rows (set table row.id position) ≡ ok filled)
unfolding fill_index
step position row rows table filled e =
    let (taken, p, h) = >>=-eq-ok (index table row.id) _ e in
    free taken (index-eq-ok table row.id taken p) h
  where
    free :
        (taken : ℕ)
        → get_elem? table row.id ≡ some taken
        → (elim (taken == no_position) [
          | true ↦ fill_index (position + 1) rows (set table row.id position)
          | false ↦ panic
        ])
          ≡ ok filled
        → (get_elem? table row.id ≡ some no_position)
          × (fill_index (position + 1) rows (set table row.id position) ≡ ok filled)
    free taken q h = elim (Bool-cases (taken == no_position)) [
      | inl t ↦ let same : taken ≡ no_position = ground arith in (q ∙ ap some same, rw t at h)
      | inr t ↦ absurd (cc (rw t at h))
    ]

-- A place that is taken stays as it is, and no later row has its ID.
fill_index-taken :
    (position : ℕ) (rows : List StandardNode) (table filled : List ℕ) (id v : ℕ)
    → fill_index position rows table ≡ ok filled
    → get_elem? table id ≡ some v
    → v ≢ no_position
    → get_elem? filled id ≡ some v
unfolding fill_index
fill_index-taken position [] table filled id v e h n =
    let same : table ≡ filled = cc in rw same at h
fill_index-taken position (row ∷ rows) table filled id v e h n =
    let (q, k) = step position row rows table filled e in
    let other : row.id ≢ id = λ x. n (cc) in
    fill_index-taken (position + 1) rows (set table row.id position) filled id v k
      (get-set_other table row.id id position other ∙ h) n

-- What the filled table has for an ID, by the position of its first row.
Found : ℕ → List ℕ → List ℕ → Option ℕ → Type 0
Found id table filled none = get_elem? filled id ≡ get_elem? table id
Found id table filled (some at) = get_elem? filled id ≡ some at

kept :
    (id position at : ℕ) (table filled : List ℕ) (found : Option ℕ)
    → at ≢ id
    → Found id (set table at position) filled found
    → Found id table filled found
unfolding Found
kept id position at table filled none n h = h ∙ get-set_other table at id position n
kept id position at table filled (some q) n h = h

fill_index-Found :
    (position : ℕ) (rows : List StandardNode) (table filled : List ℕ) (id : ℕ)
    → fill_index position rows table ≡ ok filled
    → position + length rows ≤ no_position
    → Found id table filled (position_of id rows position)
unfolding fill_index Found
fill_index-Found position [] table filled id e b = ap (λ t. get_elem? t id) (sym (ok-inj e))
  where
    ok-inj : {x y : List ℕ} → ok x ≡ ok y → x ≡ y
    ok-inj e = cc
fill_index-Found position (row ∷ rows) table filled id e b =
    let (q, k) = step position row rows table filled e in
    elim (Bool-cases (row.id == id)) [
      | inl t ↦
          let same : row.id ≡ id = ground arith in
          let put : get_elem? (set table row.id position) id ≡ some position =
            subst (λ j. get_elem? (set table row.id position) j ≡ some position) same
              (get-set table row.id position (get_elem?-some-lt table row.id q)) in
          rw t (
            fill_index-taken (position + 1) rows (set table row.id position) filled id position k
              put (λ x. omega arith))
      | inr t ↦
          let other : row.id ≢ id = ground arith in
          rw t (
            kept id position row.id table filled (position_of id rows (position + 1)) other (
              fill_index-Found (position + 1) rows (set table row.id position) filled id k
                (omega arith)))
    ]

-- The row that stands at the position of an ID's first row.
At : ℕ → ℕ → List StandardNode → Option ℕ → Type 0
At id position rows none = find_node id rows ≡ none
At id position rows (some at) =
    (position ≤ at) × (get_elem? rows (at - position) ≡ find_node id rows)

later :
    (id position : ℕ) (row : StandardNode) (rows : List StandardNode) (found : Option ℕ)
    → (row.id == id) ≡ false
    → At id (position + 1) rows found
    → At id position (row ∷ rows) found
unfolding At
later id position row rows none t h = rw t h
later id position row rows (some at) t (up, h) =
    let next : at - position ≡ suc (at - (position + 1)) = omega arith in
    rw (t, next) (omega arith, h)

position_of-At :
    (id position : ℕ) (rows : List StandardNode)
    → At id position rows (position_of id rows position)
unfolding At
position_of-At id position [] = refl
position_of-At id position (row ∷ rows) = elim (Bool-cases (row.id == id)) [
  | inl t ↦
      let here : position - position ≡ 0 = omega arith in
      rw (t, here) (omega arith, rw (t, find_node) refl)
  | inr t ↦ rw t (later id position row rows _ t (position_of-At id (position + 1) rows))
]

get-replicate :
    (n v i : ℕ) → (get_elem? (replicate n v) i ≡ none) ⊎ (get_elem? (replicate n v) i ≡ some v)
get-replicate zero v i = inl refl
get-replicate (suc n) v zero = inr refl
get-replicate (suc n) v (suc i) = get-replicate n v i

index_built : fill_index 0 standard_nodes (replicate 128 no_position) ≡ ok (built node_index)
unfolding fill_index standard_nodes node_index
index_built = refl

past_end : get_elem? standard_nodes no_position ≡ none
unfolding standard_nodes
past_end = refl

enough : 0 + length standard_nodes ≤ no_position
unfolding standard_nodes
enough = omega arith

-- Looking a transform up through the index of positions finds, for every number, the first row of
-- the table with this ID, and nothing where no row has it.
pub standard_node-find : (id : ℕ) → standard_node id ≡ find_node id standard_nodes
unfolding standard_node Found At
standard_node-find id =
    looked_up (position_of id standard_nodes 0)
      (fill_index-Found 0 standard_nodes (replicate 128 no_position) (built node_index) id
        index_built enough)
      (position_of-At id 0 standard_nodes)
  where
    looked_up :
        (found : Option ℕ)
        → Found id (replicate 128 no_position) (built node_index) found
        → At id 0 standard_nodes found
        → standard_node id ≡ find_node id standard_nodes
    looked_up none h k = elim (get-replicate 128 no_position id) [
      | inl q ↦ rw (h ∙ q, standard_node) (sym k)
      | inr q ↦ rw (h ∙ q, past_end, standard_node) (sym k)
    ]
    looked_up (some at) h (up, k) =
        let first : at - 0 ≡ at = omega arith in rw (h, standard_node) (rw first at k)
