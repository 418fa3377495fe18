-- ===== src/Parse/Chunk/Tame.antt =====
-- Chunk headers, payloads and checksums are read tamely, and a chunk takes a byte at least.
use ozlrip.Prelude.{
  ℕ, zero, suc, ◌+◌, ◌≤◌, ◌≡◌, arith, Bool, false, not, List, [], ◌∷◌, Option, none, some, length,
}
use ozlrip.Core.{Bytes, Limits, index}
use ozlrip.Core.Safe.{IsSafe, IsSafe-ok, IsSafe-index, safe_rules}
use ozlrip.Parse.Reader.Tame.{Tame}
use ozlrip.Parse.Reader.Rules.{Tame-guard, Tame-offset_any}
use ozlrip.Parse.Reader.Primitives.{tame_rules}
use ozlrip.Parse.Reader.Moves.{
  Moves, Moves-bind, Moves-then, Moves-if, read_var_u64-Moves, read_byte-Moves,
}
use ozlrip.Parse.Packed.Safe.{packed_rules}
use ozlrip.Parse.Bitpacked.Tame.{Tame-read_bitpacked_u32}
use ozlrip.Parse.Plan.{ChunkPlan, ranges_from, set_payload_start}
use ozlrip.Parse.Sizes.{FrameFlags}
use ozlrip.Parse.ChunkFields.{NodeMetadata, read_count, read_transform_count}
use ozlrip.Parse.ChunkFields.Tame.{
  Tame-read_count, Tame-read_transform_count, Tame-read_metadata, Tame-read_stored_stream_sizes,
}
use ozlrip.Parse.Single.Tame.{Tame-read_single_transform_chunk_header}
use ozlrip.Parse.Chunk.{
  build_nodes_loop, lengths_match, build_node_plans, read_chunk_counts,
  read_multi_transform_chunk_header, read_chunk_header, read_chunk_payload, ChunkSummary, add_chunk,
  at_chunks_end, verify_compressed_checksum, read_chunk_checksums, read_chunk,
}

IsSafe-ranges_from : (offset : ℕ) (sizes : List ℕ) → IsSafe (ranges_from offset sizes)
unfolding ranges_from
IsSafe-ranges_from offset [] = IsSafe-ok []
IsSafe-ranges_from offset (size ∷ sizes) =
    search (safe_rules, λ (o : ℕ). IsSafe-ranges_from o sizes) depth 8

pub IsSafe-set_payload_start : (chunk : ChunkPlan) (at : ℕ) → IsSafe (set_payload_start chunk at)
unfolding set_payload_start
IsSafe-set_payload_start chunk at = search (safe_rules, IsSafe-ranges_from) depth 8

-- The arrays of the metadata have one entry for each node.
record FitsNodes (m : NodeMetadata) (count : ℕ) : Type 0 where
  of_ids : length m.ids ≡ count
  of_header_sizes : length m.header_sizes ≡ count
  of_variable_outputs : length m.variable_outputs ≡ count
  of_regen_counts : length m.regen_counts ≡ count
  of_dict_indexes : length m.dict_indexes ≡ count

lengths_match-FitsNodes :
    (m : NodeMetadata) → not (lengths_match m) ≡ false → FitsNodes m (length m.types)
unfolding lengths_match
lengths_match-FitsNodes m h = ground arith

module _ {lo : ℕ} where
  Tame-build_nodes_loop :
      (left at : ℕ) (m : NodeMetadata) (distances : List ℕ) (header_start distance_start : ℕ)
      → FitsNodes m (length m.types)
      → at + left ≤ length m.types
      → Tame lo (build_nodes_loop left at m distances header_start distance_start)
  unfolding build_nodes_loop
  Tame-build_nodes_loop zero at m distances header_start distance_start f h = search tame_rules
  Tame-build_nodes_loop (suc left) at m distances header_start distance_start f h =
      let sizes : IsSafe (index m.header_sizes at) = IsSafe-index _ at (omega arith) in
      let counts : IsSafe (index m.regen_counts at) = IsSafe-index _ at (omega arith) in
      let types : IsSafe (index m.types at) = IsSafe-index _ at (omega arith) in
      let ids : IsSafe (index m.ids at) = IsSafe-index _ at (omega arith) in
      let outputs : IsSafe (index m.variable_outputs at) = IsSafe-index _ at (omega arith) in
      let dicts : IsSafe (index m.dict_indexes at) = IsSafe-index _ at (omega arith) in
      let rest : (s d : ℕ) → Tame lo (build_nodes_loop left (at + 1) m distances s d) =
        λ s d. Tame-build_nodes_loop left (at + 1) m distances s d f (omega arith) in
      search tame_rules depth 24

  Tame-build_node_plans :
      (m : NodeMetadata) (distances : List ℕ) → Tame lo (build_node_plans m distances)
  unfolding build_node_plans
  Tame-build_node_plans m distances = Tame-guard _ _ _ λ q.
      let loop : Tame lo (build_nodes_loop (length m.types) 0 m distances 0 0) =
        Tame-build_nodes_loop (length m.types) 0 m distances 0 0 (lengths_match-FitsNodes m q)
          (omega arith) in
      search tame_rules depth 8

  Tame-read_chunk_counts :
      (format_version : ℕ) (limits : Limits) → Tame lo (read_chunk_counts format_version limits)
  unfolding read_chunk_counts
  Tame-read_chunk_counts format_version limits =
      search (tame_rules, packed_rules, Tame-read_transform_count, Tame-read_count) depth 14

  Tame-read_multi_transform_chunk_header :
      (transforms stored_streams format_version : ℕ) (has_bundle_id : Bool) (limits : Limits)
      → Tame lo (
          read_multi_transform_chunk_header transforms stored_streams format_version has_bundle_id
            limits)
  unfolding read_multi_transform_chunk_header
  Tame-read_multi_transform_chunk_header transforms stored_streams format_version has_bundle_id
        limits =
      search
        (
          tame_rules, packed_rules, Tame-read_metadata, Tame-read_bitpacked_u32,
          Tame-read_stored_stream_sizes, Tame-build_node_plans,
        )
        depth 16

  pub Tame-read_chunk_header :
      (format_version : ℕ) (flags : FrameFlags) (has_bundle_id : Bool) (limits : Limits)
      → Tame lo (read_chunk_header format_version flags has_bundle_id limits)
  unfolding read_chunk_header
  Tame-read_chunk_header format_version flags has_bundle_id limits =
      search
        (
          tame_rules, Tame-read_chunk_counts, Tame-read_single_transform_chunk_header,
          Tame-read_multi_transform_chunk_header,
        )
        depth 10

  pub Tame-read_chunk_payload :
      (chunk : ChunkPlan) (limits : Limits) → Tame lo (read_chunk_payload chunk limits)
  unfolding read_chunk_payload
  Tame-read_chunk_payload chunk limits =
      search (tame_rules, packed_rules, IsSafe-set_payload_start) depth 14

  pub Tame-add_chunk :
      (summary : ChunkSummary) (chunk : ChunkPlan) (limits : Limits)
      → Tame lo (add_chunk summary chunk limits)
  unfolding add_chunk
  Tame-add_chunk summary chunk limits = search (tame_rules, packed_rules) depth 16

  pub Tame-at_chunks_end :
      (format_version : ℕ) (summary : ChunkSummary) → Tame lo (at_chunks_end format_version summary)
  unfolding at_chunks_end
  Tame-at_chunks_end format_version summary = search tame_rules depth 8

  module _ (xxh3 : Bytes → ℕ) where
    Tame-verify_compressed_checksum :
        (start end : ℕ) (expected : Option ℕ)
        → Tame lo (verify_compressed_checksum xxh3 start end expected)
    unfolding verify_compressed_checksum
    Tame-verify_compressed_checksum start end none = search tame_rules
    Tame-verify_compressed_checksum start end (some expected) = search tame_rules depth 8

    Tame-read_chunk_checksums :
        (chunk : ChunkPlan) (flags : FrameFlags) (start : ℕ) (verify_compressed : Bool)
        → Tame lo (read_chunk_checksums xxh3 chunk flags start verify_compressed)
    unfolding read_chunk_checksums
    Tame-read_chunk_checksums chunk flags start verify_compressed =
        search (tame_rules, Tame-verify_compressed_checksum) depth 12

    pub Tame-read_chunk :
        (format_version : ℕ) (summary : ChunkSummary) (flags : FrameFlags) (has_bundle_id : Bool)
        (limits : Limits) (verify_compressed : Bool)
        → Tame lo
            (read_chunk xxh3 format_version summary flags has_bundle_id limits verify_compressed)
    unfolding read_chunk
    Tame-read_chunk format_version summary flags has_bundle_id limits verify_compressed =
        search
          (
            tame_rules, Tame-read_chunk_header, Tame-add_chunk, Tame-read_chunk_payload,
            Tame-read_chunk_checksums,
          )
          depth 12

-- The counts of a chunk take a byte at least.
module _ {lo : ℕ} where
  read_count-Moves : (format_version : ℕ) → Moves lo 1 (read_count format_version)
  unfolding read_count
  read_count-Moves format_version = Moves-if _ _ _ read_byte-Moves read_var_u64-Moves

  read_transform_count-Moves :
      (format_version : ℕ) → Moves lo 1 (read_transform_count format_version)
  unfolding read_transform_count
  read_transform_count-Moves format_version =
      Moves-bind _ _ (Tame-read_count format_version) (read_count-Moves format_version)
        (λ raw. search tame_rules depth 8)

  read_chunk_counts-Moves :
      (format_version : ℕ) (limits : Limits) → Moves lo 1 (read_chunk_counts format_version limits)
  unfolding read_chunk_counts
  read_chunk_counts-Moves format_version limits =
      Moves-bind _ _ (Tame-read_transform_count format_version)
        (read_transform_count-Moves format_version)
        (λ n. search (tame_rules, packed_rules, Tame-read_count) depth 12)

  read_chunk_header-Moves :
      (format_version : ℕ) (flags : FrameFlags) (has_bundle_id : Bool) (limits : Limits)
      → Moves lo 1 (read_chunk_header format_version flags has_bundle_id limits)
  unfolding read_chunk_header
  read_chunk_header-Moves format_version flags has_bundle_id limits =
      Moves-bind _ _ (Tame-read_chunk_counts format_version limits)
        (read_chunk_counts-Moves format_version limits)
        (λ counts.
          search
            (
              tame_rules, Tame-read_single_transform_chunk_header,
              Tame-read_multi_transform_chunk_header,
            )
            depth 8)

  pub read_chunk-Moves :
      (xxh3 : Bytes → ℕ) (format_version : ℕ) (summary : ChunkSummary) (flags : FrameFlags)
      (has_bundle_id : Bool) (limits : Limits) (verify_compressed : Bool)
      → Moves lo 1
          (read_chunk xxh3 format_version summary flags has_bundle_id limits verify_compressed)
  unfolding read_chunk
  read_chunk-Moves xxh3 format_version summary flags has_bundle_id limits verify_compressed =
      Moves-then _ _ Tame-offset_any λ start.
        Moves-bind _ _ (Tame-read_chunk_header format_version flags has_bundle_id limits)
          (read_chunk_header-Moves format_version flags has_bundle_id limits)
          (λ p.
            search (tame_rules, Tame-add_chunk, Tame-read_chunk_payload, Tame-read_chunk_checksums)
              depth 12)
