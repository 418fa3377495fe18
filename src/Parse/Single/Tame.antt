-- ===== src/Parse/Single/Tame.antt =====
-- The header of a chunk with one transform is read tamely.
use ozlrip.Prelude.{ℕ, Bool}
use ozlrip.Core.{Limits}
use ozlrip.Standard.Safe.{IsSafe-validate_transform_id}
use ozlrip.Parse.Reader.Tame.{Tame}
use ozlrip.Parse.Reader.Primitives.{tame_rules}
use ozlrip.Parse.Packed.Safe.{packed_rules}
use ozlrip.Parse.Bitpacked.Tame.{Tame-read_bitpacked_single_u32, Tame-read_bitpacked_u32_inline}
use ozlrip.Parse.Plan.{TransformType, standard, custom}
use ozlrip.Parse.ChunkFields.Tame.{Tame-type_of_flag, Tame-read_stored_stream_sizes}
use ozlrip.Parse.Single.{
  read_one_transform_id, read_one_transform_header_size, read_one_variable_output,
  read_one_regen_count, read_one_dict_index, read_single_transform_chunk_header,
}

ruleset single_rules = (
  tame_rules, packed_rules, Tame-read_bitpacked_single_u32, Tame-read_bitpacked_u32_inline,
  Tame-type_of_flag, Tame-read_stored_stream_sizes, IsSafe-validate_transform_id,
)

module _ {lo : ℕ} where
  Tame-read_one_transform_id :
      (kind : TransformType) (format_version : ℕ)
      → Tame lo (read_one_transform_id kind format_version)
  unfolding read_one_transform_id
  Tame-read_one_transform_id standard format_version = search single_rules depth 8
  Tame-read_one_transform_id custom format_version = search single_rules depth 8

  Tame-read_one_transform_header_size : Tame lo read_one_transform_header_size
  unfolding read_one_transform_header_size
  Tame-read_one_transform_header_size = search single_rules depth 10

  Tame-read_one_variable_output : Tame lo read_one_variable_output
  unfolding read_one_variable_output
  Tame-read_one_variable_output = search single_rules depth 10

  Tame-read_one_regen_count : (format_version : ℕ) → Tame lo (read_one_regen_count format_version)
  unfolding read_one_regen_count
  Tame-read_one_regen_count format_version = search single_rules depth 12

  Tame-read_one_dict_index : Tame lo read_one_dict_index
  unfolding read_one_dict_index
  Tame-read_one_dict_index = search single_rules depth 12

  pub Tame-read_single_transform_chunk_header :
      (stored_streams format_version : ℕ) (has_bundle_id : Bool) (limits : Limits)
      → Tame lo
          (read_single_transform_chunk_header stored_streams format_version has_bundle_id limits)
  unfolding read_single_transform_chunk_header
  Tame-read_single_transform_chunk_header stored_streams format_version has_bundle_id limits =
      search
        (
          single_rules, Tame-read_one_transform_id, Tame-read_one_transform_header_size,
          Tame-read_one_variable_output, Tame-read_one_regen_count, Tame-read_one_dict_index,
        )
        depth 20
