-- ===== src/Parse/Single.antt =====
-- crates/decode/src/parse/chunk.rs: the header of a chunk with one transform.
pub mod Tame
use ozlrip.Prelude.{
  ℕ, ◌+◌, ◌-◌, ◌^◌, Bool, ◌&&◌, List, [], ◌∷◌, Option, none, some, ltb, leb, ◌==◌, if◌then◌else◌,
}
use ozlrip.Core.{
  error, error_at, malformed, unsupported, limit_exceeded, integer_overflow, Limits, fail_if,
  checked_add, checked_add_u64, usize_from, u32_from,
}
use ozlrip.Standard.{validate_transform_id}
use ozlrip.Parse.Reader.{Read, ◌>>=◌, ◌>>◌, pure, fail, lift, offset, read_byte, read_var_u64}
use ozlrip.Parse.Packed.{check_format_limit, bits_needed, sum_usize, read_shifted_u32}
use ozlrip.Parse.Bitpacked.{read_bitpacked_single_u32, read_bitpacked_u32_inline}
use ozlrip.Parse.Plan.{
  TransformType, standard, custom, NodePlan, ChunkPlan, materialized_dict_version_min,
  max_dicts_per_bundle,
}
use ozlrip.Parse.ChunkFields.{
  standard_transform_id_bits, runtime_node_input_limit, runtime_stream_limit, type_of_flag,
  read_stored_stream_sizes,
}

-- `ChunkPlan::new`
abbrev pub new_chunk_plan : List NodePlan → List ℕ → ℕ → ℕ → ChunkPlan
new_chunk_plan nodes stored_stream_sizes transform_header_bytes stored_stream_bytes = record {
  nodes = nodes;
  stored_stream_sizes = stored_stream_sizes;
  transform_header_bytes = transform_header_bytes;
  stored_stream_bytes = stored_stream_bytes;
  transform_header_range = record { start = 0; len = 0 };
  stored_stream_ranges = [];
  decoded_checksum = none;
  encoded_checksum = none;
}

unfoldable pub read_one_transform_id : TransformType → ℕ → Read ℕ
read_one_transform_id standard format_version = do
  id ← read_bitpacked_single_u32 (standard_transform_id_bits format_version)
  lift (fail_if (leb 128 id) (error unsupported))
  lift (validate_transform_id id format_version)
  pure id
read_one_transform_id custom format_version = do _ ← read_var_u64; fail (error unsupported)

unfoldable pub read_one_transform_header_size : Read ℕ
read_one_transform_header_size = do
  size ← read_bitpacked_single_u32 1
  if size == 0 then pure size else (do
    decoded ← read_var_u64
    at ← offset
    lift (read_shifted_u32 decoded 1 at (2 ^ 32 - 1 - 1)))

unfoldable pub read_one_variable_output : Read ℕ
read_one_variable_output = do
  output ← read_bitpacked_single_u32 1
  if output == 0 then pure output else (do
    decoded ← read_var_u64
    at ← offset
    sum ← lift (checked_add_u64 decoded 1 (error_at integer_overflow at))
    lift (u32_from sum (error_at malformed at)))

unfoldable pub read_one_regen_count : ℕ → Read ℕ
read_one_regen_count format_version = if ltb format_version 16 then pure 1 else do
  flag ← read_bitpacked_single_u32 1
  count ←
      (if flag == 0 then pure 1 else (do
        decoded ← read_var_u64
        at ← offset
        sum ← lift (checked_add_u64 decoded 2 (error_at integer_overflow at))
        lift (u32_from sum (error_at malformed at))))
  at ← offset
  size ← lift (usize_from count (error_at limit_exceeded at))
  lift (check_format_limit size (runtime_node_input_limit format_version))
  pure size

unfoldable pub read_one_dict_index : Read (Option ℕ)
read_one_dict_index = do
  flag ← read_bitpacked_single_u32 1
  if flag == 0 then pure none else (do
    bits ← read_byte
    at ← offset
    lift (fail_if (ltb 16 bits) (error_at malformed at))
    value ← read_bitpacked_single_u32 bits
    lift (fail_if (ltb max_dicts_per_bundle value) (error malformed))
    pure (some value))

unfoldable pub read_single_transform_chunk_header : ℕ → ℕ → Bool → Limits → Read ChunkPlan
read_single_transform_chunk_header stored_streams format_version has_bundle_id limits = do
  flag ← read_bitpacked_single_u32 1
  transform_type ← type_of_flag flag
  transform_id ← read_one_transform_id transform_type format_version
  transform_header_size ← read_one_transform_header_size
  transform_header_bytes ← lift (usize_from transform_header_size (error limit_exceeded))
  variable_outputs ← read_one_variable_output
  regen_count ← read_one_regen_count format_version
  dict_index ←
      (if leb materialized_dict_version_min format_version && has_bundle_id
        then read_one_dict_index
        else pure none)
  lift (check_format_limit regen_count (runtime_stream_limit format_version))
  streams ← lift (checked_add regen_count stored_streams)
  regen_distances ← read_bitpacked_u32_inline regen_count (bits_needed streams)
  stored_stream_sizes ← read_stored_stream_sizes stored_streams limits
  stored_stream_bytes ← lift (sum_usize stored_stream_sizes)
  let one : NodePlan = record {
    transform_type = transform_type;
    transform_id = transform_id;
    transform_header_start = 0;
    transform_header_size = transform_header_bytes;
    variable_outputs = variable_outputs;
    regen_distances = regen_distances;
    dict_index = dict_index;
  }
  pure (new_chunk_plan (one ∷ []) stored_stream_sizes transform_header_bytes stored_stream_bytes)
