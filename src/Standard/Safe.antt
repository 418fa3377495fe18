-- ===== src/Standard/Safe.antt =====
-- Looking an ID up neither panics nor runs out of fuel.
use ozlrip.Prelude.{ℕ, inl, inr, Option-cases}
use ozlrip.Core.Safe.{IsSafe, safe_rules}
use ozlrip.Standard.{standard_node, validate_transform_id}

pub IsSafe-validate_transform_id :
    (id format_version : ℕ) → IsSafe (validate_transform_id id format_version)
unfolding validate_transform_id
IsSafe-validate_transform_id id format_version = elim (Option-cases (standard_node id)) [
  | inl e ↦ rw (e, validate_transform_id) (search safe_rules)
  | inr (row, e) ↦ rw (e, validate_transform_id) (search safe_rules)
]
