-- ===== src/Parse/Chunk.antt =====
-- crates/decode/src/parse/chunk.rs: chunk headers, payloads, checksums, and the loop over the chunks.
pub mod Tame
pub mod Loop
pub mod Summary
use ozlrip.Prelude.{
  ℕ, zero, suc, ◌+◌, ◌%◌, ◌^◌, bit_and, Bool, not, true, false, ◌&&◌, ◌||◌, List, [], ◌∷◌, ◌++◌,
  Option, none, some, ltb, leb, ◌==◌, if◌then◌else◌, length, get_range,
}
use ozlrip.Core.{
  Bytes, error, error_at, truncated, malformed, limit_exceeded, checksum_mismatch, invalid_graph,
  Limits, Result, ok, err, ok_or, index, fail_if, checked_add, usize_from,
}
use ozlrip.Parse.Reader.{
  Reader, Read, ◌>>=◌, ◌>>◌, pure, fail, lift, out_of_fuel, offset, get_input_range, read_slice,
  peek_byte, read_byte, read_u32_le,
}
use ozlrip.Parse.Packed.{check_limit, check_format_limit, bits_needed, sum_usize}
use ozlrip.Parse.Bitpacked.{read_bitpacked_u32}
use ozlrip.Parse.Plan.{
  NodePlan, ChunkPlan, transforms, stored_streams, regenerated_streams, set_payload_start,
  chunk_version_min, materialized_dict_version_min,
}
use ozlrip.Parse.Sizes.{FrameFlags, flags_from_byte, has_decoded_checksum, has_encoded_checksum}
use ozlrip.Parse.ChunkFields.{
  runtime_node_limit, runtime_stream_limit, read_count, read_transform_count,
  read_stored_stream_sizes, NodeMetadata, read_metadata,
}
use ozlrip.Parse.Single.{new_chunk_plan, read_single_transform_chunk_header}

-- The loop of `build_node_plans`: round `at` of `transforms`, of which `left` remain. The result is
-- the nodes and the last `distance_start`.
unfoldable pub build_nodes_loop : ℕ → ℕ → NodeMetadata → List ℕ → ℕ → ℕ → Read (List NodePlan × ℕ)
build_nodes_loop zero at m regen_distances header_start distance_start = pure ([], distance_start)
build_nodes_loop (suc left) at m regen_distances header_start distance_start = do
  raw_size ← lift (index m.header_sizes at)
  header_size ← lift (usize_from raw_size (error limit_exceeded))
  regen_count ← lift (index m.regen_counts at)
  distance_end ← lift (checked_add distance_start regen_count)
  distances ←
      lift (ok_or (get_range regen_distances distance_start distance_end) (error invalid_graph))
  transform_type ← lift (index m.types at)
  transform_id ← lift (index m.ids at)
  variable_outputs ← lift (index m.variable_outputs at)
  dict_index ← lift (index m.dict_indexes at)
  next_start ← lift (checked_add header_start header_size)
  (nodes, last) ← build_nodes_loop left (at + 1) m regen_distances next_start distance_end
  let one : NodePlan = record {
    transform_type = transform_type;
    transform_id = transform_id;
    transform_header_start = header_start;
    transform_header_size = header_size;
    variable_outputs = variable_outputs;
    regen_distances = distances;
    dict_index = dict_index;
  }
  pure (one ∷ nodes, last)

unfoldable pub lengths_match : NodeMetadata → Bool
lengths_match m =
    length m.ids == length m.types
    && length m.header_sizes == length m.types
    && length m.variable_outputs == length m.types
    && length m.regen_counts == length m.types
    && length m.dict_indexes == length m.types

unfoldable pub build_node_plans : NodeMetadata → List ℕ → Read (List NodePlan)
build_node_plans metadata regen_distances = do
  lift (fail_if (not (lengths_match metadata)) (error invalid_graph))
  (nodes, last) ← build_nodes_loop (length metadata.types) 0 metadata regen_distances 0 0
  lift (fail_if (not (last == length regen_distances)) (error invalid_graph))
  pure nodes

unfoldable pub read_chunk_counts : ℕ → Limits → Read (ℕ × ℕ)
read_chunk_counts format_version limits = do
  transforms ← read_transform_count format_version
  raw ← read_count format_version
  at ← offset
  stored_streams ← lift (usize_from raw (error_at limit_exceeded at))
  lift (check_format_limit transforms (runtime_node_limit format_version))
  lift (check_format_limit stored_streams (runtime_stream_limit format_version))
  lift (check_limit transforms limits.max_nodes)
  lift (check_limit stored_streams limits.max_streams)
  pure (transforms, stored_streams)

unfoldable pub read_multi_transform_chunk_header : ℕ → ℕ → ℕ → Bool → Limits → Read ChunkPlan
read_multi_transform_chunk_header transforms stored_streams format_version has_bundle_id limits = do
  metadata ←
      read_metadata transforms format_version
        (leb materialized_dict_version_min format_version && has_bundle_id)
  regenerated ← lift (sum_usize metadata.regen_counts)
  lift (check_format_limit regenerated (runtime_stream_limit format_version))
  streams ← lift (checked_add regenerated stored_streams)
  regen_distances ← read_bitpacked_u32 regenerated (bits_needed streams)
  stored_stream_sizes ← read_stored_stream_sizes stored_streams limits
  stored_stream_bytes ← lift (sum_usize stored_stream_sizes)
  nodes ← build_node_plans metadata regen_distances
  pure (new_chunk_plan nodes stored_stream_sizes metadata.header_bytes stored_stream_bytes)

-- The flags are the ones passed in, or those of the chunk's own header before v21.
unfoldable pub read_chunk_header : ℕ → FrameFlags → Bool → Limits → Read (ChunkPlan × FrameFlags)
read_chunk_header format_version flags has_bundle_id limits = do
  (transforms, stored_streams) ← read_chunk_counts format_version limits
  flags' ←
      (if leb 4 format_version && ltb format_version chunk_version_min
        then (do byte ← read_byte; pure (flags_from_byte byte format_version))
        else pure flags)
  chunk ←
      (if transforms == 1
        then read_single_transform_chunk_header stored_streams format_version has_bundle_id limits
        else read_multi_transform_chunk_header transforms stored_streams format_version
            has_bundle_id limits)
  pure (chunk, flags')

unfoldable pub read_chunk_payload : ChunkPlan → Limits → Read ChunkPlan
read_chunk_payload chunk limits = do
  at ← offset
  chunk' ← lift (set_payload_start chunk at)
  payload_bytes ← lift (checked_add chunk.transform_header_bytes chunk.stored_stream_bytes)
  lift (check_limit chunk.transform_header_bytes limits.max_transform_header_bytes)
  lift (check_limit chunk.stored_stream_bytes limits.max_stored_stream_bytes)
  _ ← read_slice payload_bytes
  pure chunk'

pub record ChunkSummary : Type 0 where
  pub chunks : ℕ
  pub transforms : ℕ
  pub stored_streams : ℕ
  pub regenerated_streams : ℕ

abbrev pub empty_summary : ChunkSummary
empty_summary = record { chunks = 0; transforms = 0; stored_streams = 0; regenerated_streams = 0 }

unfoldable pub add_chunk : ChunkSummary → ChunkPlan → Limits → Read ChunkSummary
add_chunk summary chunk limits = do
  chunks ← lift (checked_add summary.chunks 1)
  lift (check_limit chunks limits.max_chunks)
  nodes ← lift (checked_add summary.transforms (transforms chunk))
  lift (check_limit nodes limits.max_nodes)
  stored ← lift (checked_add summary.stored_streams (stored_streams chunk))
  lift (check_limit stored limits.max_streams)
  regenerated ← lift (checked_add summary.regenerated_streams (regenerated_streams chunk))
  lift (check_limit regenerated limits.max_streams)
  pure (record {
    chunks = chunks;
    transforms = nodes;
    stored_streams = stored;
    regenerated_streams = regenerated;
  })

pub record ChunkScan : Type 0 where
  pub summary : ChunkSummary
  pub chunks : List ChunkPlan
  pub flags : FrameFlags

unfoldable pub at_chunks_end : ℕ → ChunkSummary → Read Bool
at_chunks_end format_version summary =
    if ltb format_version chunk_version_min
    then pure (ltb 0 summary.chunks)
    else do next ← peek_byte; if next == 0 then (do _ ← read_byte; pure true) else pure false

-- `xxh3` is `xxhash_rust::xxh3::xxh3_64`.
module _ (xxh3 : Bytes → ℕ) where
  -- The parameter `input` is the reader's slice.
  unfoldable pub verify_compressed_checksum : ℕ → ℕ → Option ℕ → Read (Unit {0})
  verify_compressed_checksum start end none = fail (error malformed)
  verify_compressed_checksum start end (some expected) = do
    covered ← get_input_range start end (error_at truncated start)
    lift (
        fail_if (not (bit_and (xxh3 covered) 0xffff_ffff % 2 ^ 32 == expected))
          (error_at checksum_mismatch end))

  unfoldable pub read_chunk_checksums : ChunkPlan → FrameFlags → ℕ → Bool → Read ChunkPlan
  read_chunk_checksums chunk flags checksum_start verify_compressed = do
    decoded ←
        (if has_decoded_checksum flags
          then (do sum ← read_u32_le; pure (some sum))
          else pure chunk.decoded_checksum)
    encoded ←
        (if has_encoded_checksum flags
          then (do
            checksum_offset ← offset
            sum ← read_u32_le
            (if verify_compressed
                then verify_compressed_checksum checksum_start checksum_offset (some sum)
                else pure tt)
            pure (some sum))
          else pure chunk.encoded_checksum)
    pure (record chunk { decoded_checksum = decoded; encoded_checksum = encoded })

  -- One round of the loop over the chunks: the new summary, the chunk and the flags.
  unfoldable pub read_chunk :
      ℕ
      → ChunkSummary
      → FrameFlags
      → Bool
      → Limits
      → Bool
      → Read (ChunkSummary × ChunkPlan × FrameFlags)
  read_chunk format_version summary flags has_bundle_id limits verify_compressed = do
    chunk_start ← offset
    (header, flags') ← read_chunk_header format_version flags has_bundle_id limits
    summary' ← add_chunk summary header limits
    payload ← read_chunk_payload header limits
    let checksum_start = if leb chunk_version_min format_version then chunk_start else 0
    chunk ← read_chunk_checksums payload flags' checksum_start verify_compressed
    pure (summary', chunk, flags')

  unfoldable pub read_chunks_loop :
      ℕ → ℕ → ChunkSummary → FrameFlags → Bool → Limits → Bool → Read ChunkScan
  read_chunks_loop zero format_version summary flags has_bundle_id limits verify_compressed =
      out_of_fuel
  read_chunks_loop (suc fuel) format_version summary flags has_bundle_id limits verify_compressed =
      do
        done ← at_chunks_end format_version summary
        elim done [
          | true ↦ pure (record { summary = summary; chunks = []; flags = flags })
          | false ↦ (do
            (summary', chunk, flags') ←
                read_chunk format_version summary flags has_bundle_id limits verify_compressed
            scan ←
                read_chunks_loop fuel format_version summary' flags' has_bundle_id limits
                  verify_compressed
            pure (record scan { chunks = chunk ∷ scan.chunks }))
        ]

  -- Each round takes a byte at least.
  unfoldable pub read_chunks : ℕ → FrameFlags → Bool → Limits → Bool → Read ChunkScan
  read_chunks format_version flags has_bundle_id limits verify_compressed r =
      read_chunks_loop (length r.bytes + 1) format_version empty_summary flags has_bundle_id limits
        verify_compressed r
