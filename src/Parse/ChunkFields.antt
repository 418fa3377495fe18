-- ===== src/Parse/ChunkFields.antt =====
-- crates/decode/src/parse/chunk.rs: the per-node fields of a chunk header, one array per field.
pub mod Tame
use ozlrip.Prelude.{
  ℕ, zero, suc, ◌+◌, ◌-◌, ◌^◌, Bool, ◌&&◌, List, [], ◌∷◌, Option, none, some, ltb, leb, ◌==◌,
  if◌then◌else◌, length, replicate,
}
use ozlrip.Core.{
  error, error_at, malformed, unsupported, limit_exceeded, integer_overflow, Limits, index, fail_if,
  checked_add, checked_add_u64, usize_from, u32_from,
}
use ozlrip.Standard.{validate_transform_id}
use ozlrip.Parse.Reader.{
  Read, ◌>>=◌, ◌>>◌, pure, fail, lift, offset, read_byte, read_var_u64, for_each, for_range,
}
use ozlrip.Parse.Packed.{check_limit, check_format_limit, sum_u32_as_usize, read_shifted_u32}
use ozlrip.Parse.Bitpacked.{read_bitpacked_u32}
use ozlrip.Parse.Plan.{TransformType, standard, custom, chunk_version_min, max_dicts_per_bundle}
use ozlrip.Parse.Header.{runtime_input_limit}

unfoldable pub standard_transform_id_bits : ℕ → ℕ
standard_transform_id_bits format_version = if ltb format_version 24 then 6 else 7

unfoldable pub runtime_node_input_limit : ℕ → ℕ
runtime_node_input_limit format_version =
    if leb format_version 15 then 1 else runtime_input_limit format_version

unfoldable pub runtime_node_limit : ℕ → ℕ
runtime_node_limit format_version =
    if ltb format_version 9 then 256 else if ltb format_version 20 then 10000 else 20000

unfoldable pub runtime_stream_limit : ℕ → ℕ
runtime_stream_limit format_version =
    if ltb format_version 9 then 256 else if ltb format_version 16 then 10000 else 110000

unfoldable pub read_count : ℕ → Read ℕ
read_count format_version = if ltb format_version 9 then read_byte else read_var_u64

unfoldable pub read_transform_count : ℕ → Read ℕ
read_transform_count format_version = do
  raw ← read_count format_version
  at ← offset
  lift (fail_if (leb chunk_version_min format_version && raw == 0) (error_at malformed at))
  lift (
      usize_from (if leb chunk_version_min format_version then raw - 1 else raw)
        (error_at limit_exceeded at))

unfoldable pub type_of_flag : ℕ → Read TransformType
type_of_flag flag =
    if flag == 0 then pure standard else if flag == 1 then pure custom else fail (error malformed)

unfoldable pub read_transform_types : ℕ → Read (List TransformType)
read_transform_types transforms = do
  flags ← read_bitpacked_u32 transforms 1
  for_each type_of_flag flags

abbrev pub count_standard : List TransformType → ℕ
count_standard [] = 0
count_standard (standard ∷ kinds) = suc (count_standard kinds)
count_standard (custom ∷ kinds) = count_standard kinds

-- The last loop: `at` is the position in `standard_ids`. `custom_index` is 0 throughout.
unfoldable pub assign_ids : List TransformType → ℕ → List ℕ → List ℕ → ℕ → Read (List ℕ)
assign_ids [] at standard_ids custom_ids format_version = pure []
assign_ids (standard ∷ kinds) at standard_ids custom_ids format_version = do
  id ← lift (index standard_ids at)
  lift (fail_if (leb 128 id) (error unsupported))
  lift (validate_transform_id id format_version)
  next ← lift (checked_add at 1)
  ids ← assign_ids kinds next standard_ids custom_ids format_version
  pure (id ∷ ids)
assign_ids (custom ∷ kinds) at standard_ids custom_ids format_version = do
  _ ← lift (index custom_ids 0)
  fail (error unsupported)

unfoldable pub read_transform_ids : List TransformType → ℕ → Read (List ℕ)
read_transform_ids transform_types format_version = do
  standard_ids ←
      read_bitpacked_u32 (count_standard transform_types)
        (standard_transform_id_bits format_version)
  custom_ids ←
      for_range (λ n. do id ← read_var_u64; at ← offset; lift (u32_from id (error_at malformed at)))
        0 (length transform_types - count_standard transform_types)
  assign_ids transform_types 0 standard_ids custom_ids format_version

unfoldable pub read_header_size : ℕ → Read ℕ
read_header_size size = if size == 0 then pure size else do
  decoded ← read_var_u64
  at ← offset
  lift (read_shifted_u32 decoded 1 at (2 ^ 32 - 1 - 1))

unfoldable pub read_transform_header_sizes : ℕ → Read (List ℕ)
read_transform_header_sizes transforms = do
  sizes ← read_bitpacked_u32 transforms 1
  for_each read_header_size sizes

unfoldable pub read_variable_output : ℕ → Read ℕ
read_variable_output output = if output == 0 then pure output else do
  decoded ← read_var_u64
  at ← offset
  sum ← lift (checked_add_u64 decoded 1 (error_at integer_overflow at))
  lift (u32_from sum (error_at malformed at))

unfoldable pub read_variable_outputs : ℕ → Read (List ℕ)
read_variable_outputs transforms = do
  outputs ← read_bitpacked_u32 transforms 1
  for_each read_variable_output outputs

unfoldable pub read_regen_count : ℕ → ℕ → Read ℕ
read_regen_count format_version flag = do
  count ←
      (if flag == 0 then pure 1 else (do
        decoded ← read_var_u64
        at ← offset
        sum ← lift (checked_add_u64 decoded 2 (error_at integer_overflow at))
        lift (u32_from sum (error_at malformed at))))
  at ← offset
  size ← lift (usize_from count (error_at limit_exceeded at))
  lift (check_format_limit size (runtime_node_input_limit format_version))
  pure size

unfoldable pub read_regen_counts : ℕ → ℕ → Read (List ℕ)
read_regen_counts transforms format_version =
    if ltb format_version 16 then pure (replicate transforms 1) else do
      counts ← read_bitpacked_u32 transforms 1
      for_each (read_regen_count format_version) counts

abbrev pub count_non_zero : List ℕ → ℕ
count_non_zero [] = 0
count_non_zero (flag ∷ flags) =
    if flag == 0 then count_non_zero flags else suc (count_non_zero flags)

-- The last loop: `at` is the position in `values`.
unfoldable pub assign_dicts : List ℕ → ℕ → List ℕ → Read (List (Option ℕ))
assign_dicts [] at values = pure []
assign_dicts (flag ∷ flags) at values = elim (flag == 0) [
  | Bool.true ↦ (do rest ← assign_dicts flags at values; pure (none ∷ rest))
  | Bool.false ↦ (do
    value ← lift (index values at)
    lift (fail_if (ltb max_dicts_per_bundle value) (error malformed))
    next ← lift (checked_add at 1)
    rest ← assign_dicts flags next values
    pure (some value ∷ rest))
]

unfoldable pub read_dict_indexes : ℕ → Read (List (Option ℕ))
read_dict_indexes transforms = do
  flags ← read_bitpacked_u32 transforms 1
  values ←
      (if ltb 0 (count_non_zero flags)
        then (do
          bits ← read_byte
          at ← offset
          lift (fail_if (ltb 16 bits) (error_at malformed at))
          read_bitpacked_u32 (count_non_zero flags) bits)
        else pure [])
  assign_dicts flags 0 values

unfoldable pub read_stored_stream_sizes : ℕ → Limits → Read (List ℕ)
read_stored_stream_sizes streams limits =
    for_range
      (λ n. do
        value ← read_var_u64
        at ← offset
        size ← lift (usize_from value (error_at limit_exceeded at))
        lift (check_limit size limits.max_buffer_bytes)
        pure size)
      0 streams

pub record NodeMetadata : Type 0 where
  pub types : List TransformType
  pub ids : List ℕ
  pub header_sizes : List ℕ
  pub header_bytes : ℕ
  pub variable_outputs : List ℕ
  pub regen_counts : List ℕ
  pub dict_indexes : List (Option ℕ)

unfoldable pub read_metadata : ℕ → ℕ → Bool → Read NodeMetadata
read_metadata transforms format_version has_dict_indexes = do
  types ← read_transform_types transforms
  ids ← read_transform_ids types format_version
  header_sizes ← read_transform_header_sizes transforms
  header_bytes ← lift (sum_u32_as_usize header_sizes)
  variable_outputs ← read_variable_outputs transforms
  regen_counts ← read_regen_counts transforms format_version
  dict_indexes ←
      (if has_dict_indexes then read_dict_indexes transforms else pure (replicate transforms none))
  pure (record {
    types = types;
    ids = ids;
    header_sizes = header_sizes;
    header_bytes = header_bytes;
    variable_outputs = variable_outputs;
    regen_counts = regen_counts;
    dict_indexes = dict_indexes;
  })
