-- ===== src/Parse/Header/Tame.antt =====
-- The reads of the frame header are tame. Before v21 the output types are read back from the byte
-- behind the magic, so they want the cursor behind that byte.
use ozlrip.Prelude.{ℕ, zero, suc, ◌≤◌, ◌<◌, ◌≡◌, arith, true, false, ltb, leb, ◌==◌}
use ozlrip.Core.{Limits}
use ozlrip.Core.Safe.{IsSafe, safe_rules}
use ozlrip.Parse.Reader.{Read}
use ozlrip.Parse.Reader.Tame.{Tame}
use ozlrip.Parse.Reader.Primitives.{tame_rules, Tame-index_input, Tame-read_byte}
use ozlrip.Parse.Reader.Moves.{Moves, Moves-bind, Moves-if, Tame-raise, read_byte-Moves}
use ozlrip.Prelude.{Bool-cases, inl, inr}
use ozlrip.Parse.Packed.Safe.{packed_rules}
use ozlrip.Parse.Header.{
  format_version_from_magic, read_bundle_id, widen_count, read_output_count, decode_type,
  read_v14_output_type, packed_types_loop, read_packed_types, read_v15_output_types,
  read_v21_output_types, read_output_types, read_output_header,
}

pub IsSafe-format_version_from_magic : (magic : ℕ) → IsSafe (format_version_from_magic magic)
unfolding format_version_from_magic
IsSafe-format_version_from_magic magic = search safe_rules

pub IsSafe-decode_type : (encoded at : ℕ) → IsSafe (decode_type encoded at)
unfolding decode_type
IsSafe-decode_type encoded at = search safe_rules depth 8

module _ {lo : ℕ} where
  pub Tame-read_bundle_id : Tame lo read_bundle_id
  unfolding read_bundle_id
  Tame-read_bundle_id = search tame_rules depth 12

  Tame-widen_count :
      (full outputs : ℕ) (more : Read ℕ) → Tame lo more → Tame lo (widen_count full outputs more)
  unfolding widen_count
  Tame-widen_count full outputs more h = search tame_rules

  pub Tame-read_output_count : (format_version : ℕ) → Tame lo (read_output_count format_version)
  unfolding read_output_count
  Tame-read_output_count format_version = search (tame_rules, Tame-widen_count) depth 12

  Tame-read_v14_output_type : Tame lo read_v14_output_type
  unfolding read_v14_output_type
  Tame-read_v14_output_type = search (tame_rules, IsSafe-decode_type) depth 8

  Tame-packed_types_loop : (left n done token : ℕ) → Tame lo (packed_types_loop left n done token)
  unfolding packed_types_loop
  Tame-packed_types_loop zero n done token = search tame_rules
  Tame-packed_types_loop (suc left) n done token =
      search (tame_rules, IsSafe-decode_type, λ (k d t : ℕ). Tame-packed_types_loop left k d t)
        depth 12

  Tame-read_packed_types : (outputs done : ℕ) → Tame lo (read_packed_types outputs done)
  unfolding read_packed_types
  Tame-read_packed_types outputs done = search Tame-packed_types_loop

  Tame-read_v15_output_types : (outputs : ℕ) → 4 < lo → Tame lo (read_v15_output_types outputs)
  unfolding read_v15_output_types
  Tame-read_v15_output_types outputs h =
      search (tame_rules, IsSafe-decode_type, Tame-read_packed_types, Tame-index_input) depth 14

  Tame-read_v21_output_types : (outputs : ℕ) → Tame lo (read_v21_output_types outputs)
  unfolding read_v21_output_types
  Tame-read_v21_output_types outputs =
      search (tame_rules, IsSafe-decode_type, Tame-read_packed_types) depth 14

  Tame-read_output_types :
      (outputs format_version : ℕ) → 4 < lo → Tame lo (read_output_types outputs format_version)
  unfolding read_output_types
  Tame-read_output_types outputs format_version h =
      search
        (
          tame_rules, Tame-read_v14_output_type, Tame-read_v15_output_types,
          Tame-read_v21_output_types,
        )
        depth 8

-- From v15 on the output count takes a byte at least.
module _ {lo : ℕ} where
  read_output_count-Moves :
      (format_version : ℕ)
      → leb format_version 14 ≡ false
      → Moves lo 1 (read_output_count format_version)
  unfolding read_output_count
  read_output_count-Moves format_version late =
      rw (late, read_output_count)
        (Moves-if _ _ _
          (Moves-bind _ _ Tame-read_byte read_byte-Moves
            λ t. search (tame_rules, Tame-widen_count) depth 12)
          (Moves-bind _ _ Tame-read_byte read_byte-Moves λ t. search tame_rules depth 12))

-- What follows the output count, which is 1 before v15.
Tame-types_early :
    {lo : ℕ} (outputs format_version : ℕ)
    → leb format_version 14 ≡ true
    → Tame lo (read_output_types outputs format_version)
unfolding read_output_types
Tame-types_early outputs format_version early = elim (Bool-cases (ltb format_version 14)) [
  | inl b ↦ rw (b, read_output_types) (search tame_rules)
  | inr b ↦
      let e : (format_version == 14) ≡ true = ground arith in
      rw (b, e, read_output_types) (search (tame_rules, Tame-read_v14_output_type))
]

pub Tame-read_output_header :
    {lo : ℕ} (format_version : ℕ) (limits : Limits)
    → 4 ≤ lo
    → Tame lo (read_output_header format_version limits)
unfolding read_output_header
Tame-read_output_header {lo} format_version limits h = elim (Bool-cases (leb format_version 14)) [
  | inl early ↦
      search
        (
          tame_rules,
          packed_rules,
          Tame-read_output_count,
          λ (n : ℕ). Tame-types_early {lo = lo} n format_version early,
        )
        depth 12
  | inr late ↦
      Tame-raise _ _ (Tame-read_output_count format_version)
        (read_output_count-Moves format_version late)
        (λ hi n up.
          let types : Tame hi (read_output_types n format_version) =
            Tame-read_output_types n format_version (omega arith) in
          search (tame_rules, packed_rules) depth 12)
]
