-- ===== src/Parse/ChunkFields/Tame.antt =====
-- The fields of a chunk header are tame. Each index into an array read before lies inside it.
use ozlrip.Prelude.{
  ℕ, suc, ◌+◌, ◌-◌, ◌≤◌, ◌≡◌, arith, Bool, ltb, ◌==◌, List, [], ◌∷◌, length, inl, inr, Bool-cases,
  ltb→le,
}
use ozlrip.Core.{Limits, index}
use ozlrip.Core.Safe.{checked_add-eq, IsSafe, IsSafe-index, IsSafe-checked_add}
use ozlrip.Standard.Safe.{IsSafe-validate_transform_id}
use ozlrip.Parse.Reader.Tame.{Tame, Tame-bind, Tame-bind_eq}
use ozlrip.Parse.Reader.Rules.{Tame-lift_bind, Tame-lift, Tame-pure}
use ozlrip.Parse.Reader.Primitives.{tame_rules}
use ozlrip.Parse.Reader.Gives.{Gives-then, for_range-length}
use ozlrip.Parse.Packed.Safe.{packed_rules}
use ozlrip.Parse.Bitpacked.Tame.{Tame-read_bitpacked_u32, read_bitpacked_u32-length}
use ozlrip.Parse.Plan.{TransformType, standard, custom}
use ozlrip.Parse.ChunkFields.{
  read_count, read_transform_count, type_of_flag, read_transform_types, count_standard, assign_ids,
  read_transform_ids, read_header_size, read_transform_header_sizes, read_variable_output,
  read_variable_outputs, read_regen_count, read_regen_counts, count_non_zero, assign_dicts,
  read_dict_indexes, read_stored_stream_sizes, read_metadata,
}

count_standard-le : (kinds : List TransformType) → count_standard kinds ≤ length kinds
count_standard-le [] = omega arith
count_standard-le (standard ∷ kinds) = omega (arith, count_standard-le kinds)
count_standard-le (custom ∷ kinds) = omega (arith, count_standard-le kinds)

module _ {lo : ℕ} where
  pub Tame-read_count : (format_version : ℕ) → Tame lo (read_count format_version)
  unfolding read_count
  Tame-read_count format_version = search tame_rules

  pub Tame-read_transform_count :
      (format_version : ℕ) → Tame lo (read_transform_count format_version)
  unfolding read_transform_count
  Tame-read_transform_count format_version = search (tame_rules, Tame-read_count) depth 8

  pub Tame-type_of_flag : (flag : ℕ) → Tame lo (type_of_flag flag)
  unfolding type_of_flag
  Tame-type_of_flag flag = search tame_rules

  Tame-read_transform_types : (transforms : ℕ) → Tame lo (read_transform_types transforms)
  unfolding read_transform_types
  Tame-read_transform_types transforms =
      search (tame_rules, Tame-read_bitpacked_u32, Tame-type_of_flag)

  pub Tame-assign_ids :
      (kinds : List TransformType) (at : ℕ) (standard_ids custom_ids : List ℕ) (format_version : ℕ)
      → at + count_standard kinds ≤ length standard_ids
      → length kinds ≤ count_standard kinds + length custom_ids
      → Tame lo (assign_ids kinds at standard_ids custom_ids format_version)
  unfolding assign_ids
  Tame-assign_ids [] at standard_ids custom_ids format_version h k = search tame_rules
  Tame-assign_ids (standard ∷ kinds) at standard_ids custom_ids format_version h k =
      let here : IsSafe (index standard_ids at) = IsSafe-index standard_ids at (omega arith) in
      Tame-bind _ _ (Tame-lift _ here) λ id. Tame-bind _ _ (search tame_rules) λ u.
        Tame-bind _ _ (search (tame_rules, IsSafe-validate_transform_id)) λ v.
          Tame-lift_bind _ _ (IsSafe-checked_add at 1) λ next e.
            let same : next ≡ at + 1 = checked_add-eq at 1 next e in
            let rest : Tame lo (assign_ids kinds next standard_ids custom_ids format_version) =
              Tame-assign_ids kinds next standard_ids custom_ids format_version (omega arith)
                (omega arith) in
            search tame_rules
  Tame-assign_ids (custom ∷ kinds) at standard_ids custom_ids format_version h k =
      let here : IsSafe (index custom_ids 0) =
        IsSafe-index custom_ids 0 (omega (arith, count_standard-le kinds)) in
      search (tame_rules, here)

  pub Tame-read_transform_ids :
      (kinds : List TransformType) (format_version : ℕ)
      → Tame lo (read_transform_ids kinds format_version)
  unfolding read_transform_ids
  Tame-read_transform_ids kinds format_version =
      Tame-bind_eq _ _ (Tame-read_bitpacked_u32 _ _) λ r ids r' e.
        Tame-bind_eq _ _ (search tame_rules depth 8) λ s customs s' q.
          let standards : length ids ≡ count_standard kinds =
            (read_bitpacked_u32-length _ _).at r ids r' e in
          let others : length customs ≡ length kinds - count_standard kinds =
            (for_range-length _ 0 _).at s customs s' q in
          Tame-assign_ids kinds 0 ids customs format_version (omega arith) (omega arith)

  Tame-read_header_size : (size : ℕ) → Tame lo (read_header_size size)
  unfolding read_header_size
  Tame-read_header_size size = search (tame_rules, packed_rules) depth 8

  Tame-read_transform_header_sizes :
      (transforms : ℕ) → Tame lo (read_transform_header_sizes transforms)
  unfolding read_transform_header_sizes
  Tame-read_transform_header_sizes transforms =
      search (tame_rules, Tame-read_bitpacked_u32, Tame-read_header_size)

  Tame-read_variable_output : (output : ℕ) → Tame lo (read_variable_output output)
  unfolding read_variable_output
  Tame-read_variable_output output = search tame_rules depth 8

  Tame-read_variable_outputs : (transforms : ℕ) → Tame lo (read_variable_outputs transforms)
  unfolding read_variable_outputs
  Tame-read_variable_outputs transforms =
      search (tame_rules, Tame-read_bitpacked_u32, Tame-read_variable_output)

  Tame-read_regen_count : (format_version flag : ℕ) → Tame lo (read_regen_count format_version flag)
  unfolding read_regen_count
  Tame-read_regen_count format_version flag = search (tame_rules, packed_rules) depth 12

  Tame-read_regen_counts :
      (transforms format_version : ℕ) → Tame lo (read_regen_counts transforms format_version)
  unfolding read_regen_counts
  Tame-read_regen_counts transforms format_version =
      search (tame_rules, Tame-read_bitpacked_u32, Tame-read_regen_count)

  Tame-assign_dicts :
      (flags : List ℕ) (at : ℕ) (values : List ℕ)
      → at + count_non_zero flags ≤ length values
      → Tame lo (assign_dicts flags at values)
  unfolding assign_dicts
  Tame-assign_dicts [] at values h = search tame_rules
  Tame-assign_dicts (flag ∷ flags) at values h = elim (Bool-cases (flag == 0)) [
    | inl unset ↦
        let rest : Tame lo (assign_dicts flags at values) =
          Tame-assign_dicts flags at values (rw unset at h) in
        rw (unset, assign_dicts) (Tame-bind _ _ rest λ ds. Tame-pure _)
    | inr set ↦
        let more : at + suc (count_non_zero flags) ≤ length values = rw set at h in
        let here : IsSafe (index values at) = IsSafe-index values at (omega arith) in
        rw (set, assign_dicts)
          (Tame-bind _ _ (Tame-lift _ here) λ value. Tame-bind _ _ (search tame_rules) λ u.
            Tame-lift_bind _ _ (IsSafe-checked_add at 1) λ next e.
              let same : next ≡ at + 1 = checked_add-eq at 1 next e in
              let rest : Tame lo (assign_dicts flags next values) =
                Tame-assign_dicts flags next values (omega arith) in
              Tame-bind _ _ rest λ ds. Tame-pure _)
  ]

  Tame-read_dict_indexes : (transforms : ℕ) → Tame lo (read_dict_indexes transforms)
  unfolding read_dict_indexes
  Tame-read_dict_indexes transforms = Tame-bind _ _ (Tame-read_bitpacked_u32 transforms 1) λ flags.
      elim (Bool-cases (ltb 0 (count_non_zero flags))) [
        | inl some_set ↦ rw some_set (
            Tame-bind_eq _ _ (search (tame_rules, Tame-read_bitpacked_u32) depth 8) λ r values r' e.
              let long : length values ≡ count_non_zero flags =
                (Gives-then _ _ _ λ bits.
                    Gives-then _ _ _
                      λ at. Gives-then _ _ _ λ u. read_bitpacked_u32-length _ bits).at
                  r values r' e in
              Tame-assign_dicts flags 0 values (omega arith))
        | inr none_set ↦ rw none_set (
            Tame-bind _ _ (Tame-pure []) λ values.
              Tame-assign_dicts flags 0 values
                (omega (arith, ltb→le 0 (count_non_zero flags) none_set)))
      ]

  pub Tame-read_stored_stream_sizes :
      (streams : ℕ) (limits : Limits) → Tame lo (read_stored_stream_sizes streams limits)
  unfolding read_stored_stream_sizes
  Tame-read_stored_stream_sizes streams limits = search (tame_rules, packed_rules) depth 12

  pub Tame-read_metadata :
      (transforms format_version : ℕ) (has_dict_indexes : Bool)
      → Tame lo (read_metadata transforms format_version has_dict_indexes)
  unfolding read_metadata
  Tame-read_metadata transforms format_version has_dict_indexes =
      search
        (
          tame_rules, packed_rules, Tame-read_transform_types, Tame-read_transform_ids,
          Tame-read_transform_header_sizes, Tame-read_variable_outputs, Tame-read_regen_counts,
          Tame-read_dict_indexes,
        )
        depth 14
