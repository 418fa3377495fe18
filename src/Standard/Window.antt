-- ===== src/Standard/Window.antt =====
-- The format versions in which a transform may stand: `validate_transform_id` of
-- crates/decode/src/standard.rs.
use ozlrip.Prelude.{
  ℕ, ◌≤◌, ◌≡◌, ◌↔◌, refl, sym, ◌∙◌, arith, false, Option, none, some, Bool-cases, Option-cases, inl,
  inr, ltb,
}
use ozlrip.Core.{ok}
use ozlrip.Standard.Table.{StandardNode, standard_nodes}
use ozlrip.Standard.{too_new, standard_node, validate_transform_id}
use ozlrip.Standard.Lookup.{find_node, standard_node-find}

-- The version is not past the last one.
abbrev pub NotPast : Option ℕ → ℕ → Type 0
NotPast none version = Unit
NotPast (some last) version = version ≤ last

-- The version stands between the first and the last one of the row.
abbrev pub IsAvailable : StandardNode → ℕ → Type 0
IsAvailable row version = (row.min_version ≤ version) × NotPast row.max_version version

too_new-NotPast :
    (last : Option ℕ) (version : ℕ) → (too_new last version ≡ false) ↔ NotPast last version
too_new-NotPast none version = ((λ e. tt), λ u. refl)
too_new-NotPast (some last) version = ((λ e. ground arith), λ h. ground arith)

validate_transform_id-looked_up :
    (id format_version : ℕ)
    → (validate_transform_id id format_version ≡ ok tt)
      ↔ ((row : StandardNode) × (standard_node id ≡ some row) × IsAvailable row format_version)
unfolding validate_transform_id
validate_transform_id-looked_up id format_version = (accepted, available)
  where
    accepted :
        validate_transform_id id format_version ≡ ok tt
        → (row : StandardNode) × (standard_node id ≡ some row) × IsAvailable row format_version
    accepted e = elim (Option-cases (standard_node id)) [
      | inl q ↦ absurd (cc (rw (q, validate_transform_id) at e))
      | inr (row, q) ↦ elim (Bool-cases (ltb format_version row.min_version)) [
        | inl t ↦ absurd (cc (rw (q, t, validate_transform_id) at e))
        | inr t ↦ elim (Bool-cases (too_new row.max_version format_version)) [
          | inl u ↦ absurd (cc (rw (q, t, u, validate_transform_id) at e))
          | inr u ↦ (row, q, (ground arith, (too_new-NotPast row.max_version format_version).0 u))
        ]
      ]
    ]

    available :
        (row : StandardNode) × (standard_node id ≡ some row) × IsAvailable row format_version
        → validate_transform_id id format_version ≡ ok tt
    available (row, q, (first, last)) =
        let begun : ltb format_version row.min_version ≡ false = ground arith in
        rw
          (q, begun, (too_new-NotPast row.max_version format_version).1 last, validate_transform_id)
          refl

-- A transform ID is accepted in a format version exactly where the table of standard transforms has a
-- row with this ID and the version stands between the first and last versions of the first such row.
pub validate_transform_id_iff :
    (id format_version : ℕ)
    → (validate_transform_id id format_version ≡ ok tt) ↔ (
        (row : StandardNode) × (find_node id standard_nodes ≡ some row)
        × IsAvailable row format_version)
validate_transform_id_iff id format_version =
    let same = standard_node-find id in
    let (accepted, available) = validate_transform_id-looked_up id format_version in
    (
      λ e. let (row, q, window) = accepted e in (row, sym same ∙ q, window),
      λ (row, q, window). available (row, same ∙ q, window),
    )
