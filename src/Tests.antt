-- ===== src/Tests.antt =====
-- The theorems at concrete inputs, and runs of the definitions.
mod Execute
use ozlrip.Prelude.{
  ℕ, ◌+◌, ◌≡◌, ◌≢◌, ◌≤◌, ◌<◌, ◌^◌, ◌⊎◌, ◌↔◌, refl, List, [], ◌∷◌, ◌++◌, Bool, true, false, arith,
  Option, some, none, length, replicate,
}
use ozlrip.Core.{
  Bytes, Error, strict, Result, ok, err, error, error_at, malformed, invalid_graph,
  integer_overflow, truncated,
}
use ozlrip.Core.Safe.{IsSafe}
use ozlrip.Varint
use ozlrip.Varint.Bounds.{read_var_u64-cases}
use ozlrip.Varint.RoundTrip.{write_var, write_var_u64, read_var_u64-write_var_u64}
use ozlrip.Standard.{standard_node, validate_transform_id}
use ozlrip.Parse.Packed.{bits_needed}
use ozlrip.Parse.Packed.Width.{bits_needed-least}
use ozlrip.Parse.Plan.{
  NodePlan, ChunkPlan, FramePlan, ByteRange, standard, custom, set_payload_start, ranges_from,
}
use ozlrip.Parse.Plan.Layout.{AreAdjacent, set_payload_start-AreAdjacent, validate_ranges_iff}
use ozlrip.Parse.Checks.{validate_ranges}
use ozlrip.Parse.Graph.{Walk, start_walk, validate_nodes, validate_graph}
use ozlrip.Parse.Validate.{validate_chunk_plan}
use ozlrip.Parse.Entry.{scan_frame, inspect_header, frame_size, parse_frame, inspect_frame}
use ozlrip.Parse.Entry.Scan.{
  scan_frame-IsSafe, parse_frame-IsSafe, frame_size-append, parse_frame_trailing,
}
use ozlrip.Parse.Entry.Stream.{frame_size-parsed}
use ozlrip.Parse.Entry.Unverified.{parse_frame-unverified}
use ozlrip.Parse.Frame.Totals.{HasTotals, scan_frame-HasTotals}
use ozlrip.Parse.Frame.Outputs.{AreSized, sizes_of, scan_frame-AreSized}
use ozlrip.Standard.Table.{standard_nodes, StandardNode}
use ozlrip.Standard.Window.{IsAvailable, validate_transform_id_iff}
use ozlrip.Standard.{validate_transform_id}
use ozlrip.Standard.Lookup.{find_node, standard_node-find}
use ozlrip.Execute.Plan.{
  ChunkExecutionPlan, NodeExecutionPlan, build_nodes, build_chunk_execution_plan,
}
use ozlrip.Execute.Plan.Accepted.{
  DictsOnZstd, build_nodes-validated, build_chunk_execution_plan-validated,
}

-- A frame of version 21 with one serial output of three bytes, in a chunk without transforms, with a
-- header checksum and a checksum of the chunk, both zero.
abbrev checked_frame : Bytes
checked_frame =
    0xd5 ∷ 0xa5 ∷ 0xb1 ∷ 0xd7 ∷ 2 ∷ 1 ∷ 4 ∷ 0 ∷ 1 ∷ 1 ∷ 3 ∷ 7 ∷ 8 ∷ 9 ∷ 0 ∷ 0 ∷ 0 ∷ 0 ∷ 0 ∷ []

-- Hash functions.
abbrev zero_hash : Bytes → ℕ
zero_hash bytes = 0

abbrev length_hash : Bytes → ℕ
length_hash bytes = length bytes

abbrev checked_chunk : ChunkPlan
checked_chunk = record {
  nodes = [];
  stored_stream_sizes = 3 ∷ [];
  transform_header_bytes = 0;
  stored_stream_bytes = 3;
  transform_header_range = record { start = 11; len = 0 };
  stored_stream_ranges = record { start = 11; len = 3 } ∷ [];
  decoded_checksum = none;
  encoded_checksum = some 0;
}

abbrev checked_plan : FramePlan
checked_plan = record {
  info = record {
    format_version = 21;
    frame_bytes = 19;
    header_bytes = 8;
    decoded_bytes = some 3;
    chunks = 1;
    outputs = 1;
    output_types = ozlrip.Info.serial ∷ [];
    output_sizes = some 3 ∷ [];
    output_elements = some 3 ∷ [];
    transforms = 0;
    stored_streams = 1;
    regenerated_streams = 0;
    has_decoded_checksum = false;
    has_encoded_checksum = true;
    has_comment = false;
    comment = none;
    dictionary_bundle_id = none;
  };
  chunks = checked_chunk ∷ [];
}

parse_run : parse_frame zero_hash checked_frame strict true ≡ ok checked_plan
unfolding ozlrip.Core.checked_add ozlrip.Core.checked_mul ozlrip.Core.usize_from
    ozlrip.Core.u32_from ozlrip.Core.checked_add_u64 ozlrip.Parse.Bitpacked.read_bitpacked_u32
    ozlrip.Parse.Bitpacked.read_bitpacked_u32_inline
    ozlrip.Parse.Bitpacked.read_bitpacked_single_u32 ozlrip.Parse.Bitpacked.read_single_low_bits_u32
    ozlrip.Parse.Checks.validate_known_standard_node_shape ozlrip.Parse.Checks.validate_node_kind
    ozlrip.Parse.Checks.node_input_count ozlrip.Parse.Checks.validate_node_output_count
    ozlrip.Parse.Checks.validate_node_outputs ozlrip.Parse.Checks.validate_ranges
    ozlrip.Parse.Checks.validate_stream_totals ozlrip.Parse.Chunk.build_nodes_loop
    ozlrip.Parse.Chunk.lengths_match ozlrip.Parse.Chunk.build_node_plans
    ozlrip.Parse.Chunk.read_chunk_counts ozlrip.Parse.Chunk.read_multi_transform_chunk_header
    ozlrip.Parse.Chunk.read_chunk_header ozlrip.Parse.Chunk.read_chunk_payload
    ozlrip.Parse.Chunk.add_chunk ozlrip.Parse.Chunk.at_chunks_end
    ozlrip.Parse.Chunk.verify_compressed_checksum ozlrip.Parse.Chunk.read_chunk_checksums
    ozlrip.Parse.Chunk.read_chunk ozlrip.Parse.Chunk.read_chunks_loop ozlrip.Parse.Chunk.read_chunks
    ozlrip.Parse.ChunkFields.standard_transform_id_bits
    ozlrip.Parse.ChunkFields.runtime_node_input_limit ozlrip.Parse.ChunkFields.runtime_node_limit
    ozlrip.Parse.ChunkFields.runtime_stream_limit ozlrip.Parse.ChunkFields.read_count
    ozlrip.Parse.ChunkFields.read_transform_count ozlrip.Parse.ChunkFields.type_of_flag
    ozlrip.Parse.ChunkFields.read_transform_types ozlrip.Parse.ChunkFields.assign_ids
    ozlrip.Parse.ChunkFields.read_transform_ids ozlrip.Parse.ChunkFields.read_header_size
    ozlrip.Parse.ChunkFields.read_transform_header_sizes
    ozlrip.Parse.ChunkFields.read_variable_output ozlrip.Parse.ChunkFields.read_variable_outputs
    ozlrip.Parse.ChunkFields.read_regen_count ozlrip.Parse.ChunkFields.read_regen_counts
    ozlrip.Parse.ChunkFields.assign_dicts ozlrip.Parse.ChunkFields.read_dict_indexes
    ozlrip.Parse.ChunkFields.read_stored_stream_sizes ozlrip.Parse.ChunkFields.read_metadata
    ozlrip.Parse.Entry.header_info ozlrip.Parse.Entry.scan_frame ozlrip.Parse.Entry.inspect_header
    ozlrip.Parse.Entry.parse_frame ozlrip.Parse.Entry.inspect_frame ozlrip.Parse.Entry.frame_size
    ozlrip.Parse.Frame.frame_plan ozlrip.Parse.Frame.check_header_checksum
    ozlrip.Parse.Frame.read_frame_header ozlrip.Parse.Frame.scan ozlrip.Parse.Graph.new_graph
    ozlrip.Parse.Graph.output_depth ozlrip.Parse.Graph.mark_targets
    ozlrip.Parse.Graph.mark_regen_targets ozlrip.Parse.Graph.validate_final_outputs
    ozlrip.Parse.Graph.validate_node ozlrip.Parse.Graph.validate_nodes
    ozlrip.Parse.Graph.validate_graph ozlrip.Parse.Header.format_version_from_magic
    ozlrip.Parse.Header.all_zero ozlrip.Parse.Header.read_bundle_id
    ozlrip.Parse.Header.runtime_input_limit ozlrip.Parse.Header.widen_count
    ozlrip.Parse.Header.read_output_count ozlrip.Parse.Header.decode_type
    ozlrip.Parse.Header.read_v14_output_type ozlrip.Parse.Header.packed_types_loop
    ozlrip.Parse.Header.read_packed_types ozlrip.Parse.Header.read_v15_output_types
    ozlrip.Parse.Header.read_v21_output_types ozlrip.Parse.Header.read_output_types
    ozlrip.Parse.Header.read_output_header ozlrip.Parse.Packed.check_limit
    ozlrip.Parse.Packed.check_format_limit ozlrip.Parse.Packed.bitpacked_bytes
    ozlrip.Parse.Packed.bit_length ozlrip.Parse.Packed.bits_needed ozlrip.Parse.Packed.gather_word
    ozlrip.Parse.Packed.read_packed_value ozlrip.Parse.Packed.sum_usize
    ozlrip.Parse.Packed.sum_u32_as_usize ozlrip.Parse.Packed.add_output_size
    ozlrip.Parse.Packed.read_shifted_u32 ozlrip.Parse.Plan.as_slice ozlrip.Parse.Plan.standard_id
    ozlrip.Parse.Plan.stored_stream_range ozlrip.Parse.Plan.ranges_from
    ozlrip.Parse.Plan.set_payload_start ozlrip.Parse.Plan.into_public_info ozlrip.Parse.Reader.◌>>=◌
    ozlrip.Parse.Reader.pure ozlrip.Parse.Reader.fail ozlrip.Parse.Reader.out_of_fuel
    ozlrip.Parse.Reader.lift ozlrip.Parse.Reader.offset ozlrip.Parse.Reader.get_input
    ozlrip.Parse.Reader.index_input ozlrip.Parse.Reader.slice_input
    ozlrip.Parse.Reader.get_input_range ozlrip.Parse.Reader.read_slice ozlrip.Parse.Reader.peek_byte
    ozlrip.Parse.Reader.read_byte ozlrip.Parse.Reader.read_array ozlrip.Parse.Reader.read_u16_le
    ozlrip.Parse.Reader.read_u32_le ozlrip.Parse.Reader.read_var_u64 ozlrip.Parse.Reader.for_each
    ozlrip.Parse.Reader.for_range ozlrip.Parse.Single.read_one_transform_id
    ozlrip.Parse.Single.read_one_transform_header_size ozlrip.Parse.Single.read_one_variable_output
    ozlrip.Parse.Single.read_one_regen_count ozlrip.Parse.Single.read_one_dict_index
    ozlrip.Parse.Single.read_single_transform_chunk_header ozlrip.Parse.Sizes.read_u32_output_sizes
    ozlrip.Parse.Sizes.varint_sizes_loop ozlrip.Parse.Sizes.read_elements
    ozlrip.Parse.Sizes.varint_elements_loop ozlrip.Parse.Sizes.read_varint_output_sizes
    ozlrip.Parse.Sizes.read_output_sizes ozlrip.Parse.Sizes.read_comment
    ozlrip.Parse.Sizes.verify_header_checksum ozlrip.Parse.Sizes.flags_from_byte
    ozlrip.Parse.Sizes.has_decoded_checksum ozlrip.Parse.Sizes.has_encoded_checksum
    ozlrip.Parse.Sizes.has_comment ozlrip.Parse.Sizes.has_bundle_id
    ozlrip.Parse.Validate.count_final_targets ozlrip.Parse.Validate.has_duplicate
    ozlrip.Parse.Validate.single_node_final_outputs
    ozlrip.Parse.Validate.validate_single_node_chunk_plan ozlrip.Parse.Validate.validate_by_count
    ozlrip.Parse.Validate.validate_chunk_plan ozlrip.Parse.Validate.validate_chunks
    ozlrip.Parse.Validate.validate_frame_plan ozlrip.Prelude.get_range ozlrip.Standard.fill_index
    ozlrip.Standard.node_index ozlrip.Standard.standard_node ozlrip.Standard.validate_transform_id
    ozlrip.Standard.Table.standard_nodes ozlrip.Varint.read_var_loop ozlrip.Varint.read_var_u64
parse_run = refl

scan_run : scan_frame zero_hash checked_frame strict true ≡ ok checked_plan
unfolding ozlrip.Core.checked_add ozlrip.Core.checked_mul ozlrip.Core.usize_from
    ozlrip.Core.u32_from ozlrip.Core.checked_add_u64 ozlrip.Parse.Bitpacked.read_bitpacked_u32
    ozlrip.Parse.Bitpacked.read_bitpacked_u32_inline
    ozlrip.Parse.Bitpacked.read_bitpacked_single_u32 ozlrip.Parse.Bitpacked.read_single_low_bits_u32
    ozlrip.Parse.Checks.validate_known_standard_node_shape ozlrip.Parse.Checks.validate_node_kind
    ozlrip.Parse.Checks.node_input_count ozlrip.Parse.Checks.validate_node_output_count
    ozlrip.Parse.Checks.validate_node_outputs ozlrip.Parse.Checks.validate_ranges
    ozlrip.Parse.Checks.validate_stream_totals ozlrip.Parse.Chunk.build_nodes_loop
    ozlrip.Parse.Chunk.lengths_match ozlrip.Parse.Chunk.build_node_plans
    ozlrip.Parse.Chunk.read_chunk_counts ozlrip.Parse.Chunk.read_multi_transform_chunk_header
    ozlrip.Parse.Chunk.read_chunk_header ozlrip.Parse.Chunk.read_chunk_payload
    ozlrip.Parse.Chunk.add_chunk ozlrip.Parse.Chunk.at_chunks_end
    ozlrip.Parse.Chunk.verify_compressed_checksum ozlrip.Parse.Chunk.read_chunk_checksums
    ozlrip.Parse.Chunk.read_chunk ozlrip.Parse.Chunk.read_chunks_loop ozlrip.Parse.Chunk.read_chunks
    ozlrip.Parse.ChunkFields.standard_transform_id_bits
    ozlrip.Parse.ChunkFields.runtime_node_input_limit ozlrip.Parse.ChunkFields.runtime_node_limit
    ozlrip.Parse.ChunkFields.runtime_stream_limit ozlrip.Parse.ChunkFields.read_count
    ozlrip.Parse.ChunkFields.read_transform_count ozlrip.Parse.ChunkFields.type_of_flag
    ozlrip.Parse.ChunkFields.read_transform_types ozlrip.Parse.ChunkFields.assign_ids
    ozlrip.Parse.ChunkFields.read_transform_ids ozlrip.Parse.ChunkFields.read_header_size
    ozlrip.Parse.ChunkFields.read_transform_header_sizes
    ozlrip.Parse.ChunkFields.read_variable_output ozlrip.Parse.ChunkFields.read_variable_outputs
    ozlrip.Parse.ChunkFields.read_regen_count ozlrip.Parse.ChunkFields.read_regen_counts
    ozlrip.Parse.ChunkFields.assign_dicts ozlrip.Parse.ChunkFields.read_dict_indexes
    ozlrip.Parse.ChunkFields.read_stored_stream_sizes ozlrip.Parse.ChunkFields.read_metadata
    ozlrip.Parse.Entry.header_info ozlrip.Parse.Entry.scan_frame ozlrip.Parse.Entry.inspect_header
    ozlrip.Parse.Entry.parse_frame ozlrip.Parse.Entry.inspect_frame ozlrip.Parse.Entry.frame_size
    ozlrip.Parse.Frame.frame_plan ozlrip.Parse.Frame.check_header_checksum
    ozlrip.Parse.Frame.read_frame_header ozlrip.Parse.Frame.scan ozlrip.Parse.Graph.new_graph
    ozlrip.Parse.Graph.output_depth ozlrip.Parse.Graph.mark_targets
    ozlrip.Parse.Graph.mark_regen_targets ozlrip.Parse.Graph.validate_final_outputs
    ozlrip.Parse.Graph.validate_node ozlrip.Parse.Graph.validate_nodes
    ozlrip.Parse.Graph.validate_graph ozlrip.Parse.Header.format_version_from_magic
    ozlrip.Parse.Header.all_zero ozlrip.Parse.Header.read_bundle_id
    ozlrip.Parse.Header.runtime_input_limit ozlrip.Parse.Header.widen_count
    ozlrip.Parse.Header.read_output_count ozlrip.Parse.Header.decode_type
    ozlrip.Parse.Header.read_v14_output_type ozlrip.Parse.Header.packed_types_loop
    ozlrip.Parse.Header.read_packed_types ozlrip.Parse.Header.read_v15_output_types
    ozlrip.Parse.Header.read_v21_output_types ozlrip.Parse.Header.read_output_types
    ozlrip.Parse.Header.read_output_header ozlrip.Parse.Packed.check_limit
    ozlrip.Parse.Packed.check_format_limit ozlrip.Parse.Packed.bitpacked_bytes
    ozlrip.Parse.Packed.bit_length ozlrip.Parse.Packed.bits_needed ozlrip.Parse.Packed.gather_word
    ozlrip.Parse.Packed.read_packed_value ozlrip.Parse.Packed.sum_usize
    ozlrip.Parse.Packed.sum_u32_as_usize ozlrip.Parse.Packed.add_output_size
    ozlrip.Parse.Packed.read_shifted_u32 ozlrip.Parse.Plan.as_slice ozlrip.Parse.Plan.standard_id
    ozlrip.Parse.Plan.stored_stream_range ozlrip.Parse.Plan.ranges_from
    ozlrip.Parse.Plan.set_payload_start ozlrip.Parse.Plan.into_public_info ozlrip.Parse.Reader.◌>>=◌
    ozlrip.Parse.Reader.pure ozlrip.Parse.Reader.fail ozlrip.Parse.Reader.out_of_fuel
    ozlrip.Parse.Reader.lift ozlrip.Parse.Reader.offset ozlrip.Parse.Reader.get_input
    ozlrip.Parse.Reader.index_input ozlrip.Parse.Reader.slice_input
    ozlrip.Parse.Reader.get_input_range ozlrip.Parse.Reader.read_slice ozlrip.Parse.Reader.peek_byte
    ozlrip.Parse.Reader.read_byte ozlrip.Parse.Reader.read_array ozlrip.Parse.Reader.read_u16_le
    ozlrip.Parse.Reader.read_u32_le ozlrip.Parse.Reader.read_var_u64 ozlrip.Parse.Reader.for_each
    ozlrip.Parse.Reader.for_range ozlrip.Parse.Single.read_one_transform_id
    ozlrip.Parse.Single.read_one_transform_header_size ozlrip.Parse.Single.read_one_variable_output
    ozlrip.Parse.Single.read_one_regen_count ozlrip.Parse.Single.read_one_dict_index
    ozlrip.Parse.Single.read_single_transform_chunk_header ozlrip.Parse.Sizes.read_u32_output_sizes
    ozlrip.Parse.Sizes.varint_sizes_loop ozlrip.Parse.Sizes.read_elements
    ozlrip.Parse.Sizes.varint_elements_loop ozlrip.Parse.Sizes.read_varint_output_sizes
    ozlrip.Parse.Sizes.read_output_sizes ozlrip.Parse.Sizes.read_comment
    ozlrip.Parse.Sizes.verify_header_checksum ozlrip.Parse.Sizes.flags_from_byte
    ozlrip.Parse.Sizes.has_decoded_checksum ozlrip.Parse.Sizes.has_encoded_checksum
    ozlrip.Parse.Sizes.has_comment ozlrip.Parse.Sizes.has_bundle_id
    ozlrip.Parse.Validate.count_final_targets ozlrip.Parse.Validate.has_duplicate
    ozlrip.Parse.Validate.single_node_final_outputs
    ozlrip.Parse.Validate.validate_single_node_chunk_plan ozlrip.Parse.Validate.validate_by_count
    ozlrip.Parse.Validate.validate_chunk_plan ozlrip.Parse.Validate.validate_chunks
    ozlrip.Parse.Validate.validate_frame_plan ozlrip.Prelude.get_range ozlrip.Standard.fill_index
    ozlrip.Standard.node_index ozlrip.Standard.standard_node ozlrip.Standard.validate_transform_id
    ozlrip.Standard.Table.standard_nodes ozlrip.Varint.read_var_loop ozlrip.Varint.read_var_u64
scan_run = refl

size_run : frame_size zero_hash checked_frame strict ≡ ok 19
unfolding ozlrip.Core.checked_add ozlrip.Core.checked_mul ozlrip.Core.usize_from
    ozlrip.Core.u32_from ozlrip.Core.checked_add_u64 ozlrip.Parse.Bitpacked.read_bitpacked_u32
    ozlrip.Parse.Bitpacked.read_bitpacked_u32_inline
    ozlrip.Parse.Bitpacked.read_bitpacked_single_u32 ozlrip.Parse.Bitpacked.read_single_low_bits_u32
    ozlrip.Parse.Checks.validate_known_standard_node_shape ozlrip.Parse.Checks.validate_node_kind
    ozlrip.Parse.Checks.node_input_count ozlrip.Parse.Checks.validate_node_output_count
    ozlrip.Parse.Checks.validate_node_outputs ozlrip.Parse.Checks.validate_ranges
    ozlrip.Parse.Checks.validate_stream_totals ozlrip.Parse.Chunk.build_nodes_loop
    ozlrip.Parse.Chunk.lengths_match ozlrip.Parse.Chunk.build_node_plans
    ozlrip.Parse.Chunk.read_chunk_counts ozlrip.Parse.Chunk.read_multi_transform_chunk_header
    ozlrip.Parse.Chunk.read_chunk_header ozlrip.Parse.Chunk.read_chunk_payload
    ozlrip.Parse.Chunk.add_chunk ozlrip.Parse.Chunk.at_chunks_end
    ozlrip.Parse.Chunk.verify_compressed_checksum ozlrip.Parse.Chunk.read_chunk_checksums
    ozlrip.Parse.Chunk.read_chunk ozlrip.Parse.Chunk.read_chunks_loop ozlrip.Parse.Chunk.read_chunks
    ozlrip.Parse.ChunkFields.standard_transform_id_bits
    ozlrip.Parse.ChunkFields.runtime_node_input_limit ozlrip.Parse.ChunkFields.runtime_node_limit
    ozlrip.Parse.ChunkFields.runtime_stream_limit ozlrip.Parse.ChunkFields.read_count
    ozlrip.Parse.ChunkFields.read_transform_count ozlrip.Parse.ChunkFields.type_of_flag
    ozlrip.Parse.ChunkFields.read_transform_types ozlrip.Parse.ChunkFields.assign_ids
    ozlrip.Parse.ChunkFields.read_transform_ids ozlrip.Parse.ChunkFields.read_header_size
    ozlrip.Parse.ChunkFields.read_transform_header_sizes
    ozlrip.Parse.ChunkFields.read_variable_output ozlrip.Parse.ChunkFields.read_variable_outputs
    ozlrip.Parse.ChunkFields.read_regen_count ozlrip.Parse.ChunkFields.read_regen_counts
    ozlrip.Parse.ChunkFields.assign_dicts ozlrip.Parse.ChunkFields.read_dict_indexes
    ozlrip.Parse.ChunkFields.read_stored_stream_sizes ozlrip.Parse.ChunkFields.read_metadata
    ozlrip.Parse.Entry.header_info ozlrip.Parse.Entry.scan_frame ozlrip.Parse.Entry.inspect_header
    ozlrip.Parse.Entry.parse_frame ozlrip.Parse.Entry.inspect_frame ozlrip.Parse.Entry.frame_size
    ozlrip.Parse.Frame.frame_plan ozlrip.Parse.Frame.check_header_checksum
    ozlrip.Parse.Frame.read_frame_header ozlrip.Parse.Frame.scan ozlrip.Parse.Graph.new_graph
    ozlrip.Parse.Graph.output_depth ozlrip.Parse.Graph.mark_targets
    ozlrip.Parse.Graph.mark_regen_targets ozlrip.Parse.Graph.validate_final_outputs
    ozlrip.Parse.Graph.validate_node ozlrip.Parse.Graph.validate_nodes
    ozlrip.Parse.Graph.validate_graph ozlrip.Parse.Header.format_version_from_magic
    ozlrip.Parse.Header.all_zero ozlrip.Parse.Header.read_bundle_id
    ozlrip.Parse.Header.runtime_input_limit ozlrip.Parse.Header.widen_count
    ozlrip.Parse.Header.read_output_count ozlrip.Parse.Header.decode_type
    ozlrip.Parse.Header.read_v14_output_type ozlrip.Parse.Header.packed_types_loop
    ozlrip.Parse.Header.read_packed_types ozlrip.Parse.Header.read_v15_output_types
    ozlrip.Parse.Header.read_v21_output_types ozlrip.Parse.Header.read_output_types
    ozlrip.Parse.Header.read_output_header ozlrip.Parse.Packed.check_limit
    ozlrip.Parse.Packed.check_format_limit ozlrip.Parse.Packed.bitpacked_bytes
    ozlrip.Parse.Packed.bit_length ozlrip.Parse.Packed.bits_needed ozlrip.Parse.Packed.gather_word
    ozlrip.Parse.Packed.read_packed_value ozlrip.Parse.Packed.sum_usize
    ozlrip.Parse.Packed.sum_u32_as_usize ozlrip.Parse.Packed.add_output_size
    ozlrip.Parse.Packed.read_shifted_u32 ozlrip.Parse.Plan.as_slice ozlrip.Parse.Plan.standard_id
    ozlrip.Parse.Plan.stored_stream_range ozlrip.Parse.Plan.ranges_from
    ozlrip.Parse.Plan.set_payload_start ozlrip.Parse.Plan.into_public_info ozlrip.Parse.Reader.◌>>=◌
    ozlrip.Parse.Reader.pure ozlrip.Parse.Reader.fail ozlrip.Parse.Reader.out_of_fuel
    ozlrip.Parse.Reader.lift ozlrip.Parse.Reader.offset ozlrip.Parse.Reader.get_input
    ozlrip.Parse.Reader.index_input ozlrip.Parse.Reader.slice_input
    ozlrip.Parse.Reader.get_input_range ozlrip.Parse.Reader.read_slice ozlrip.Parse.Reader.peek_byte
    ozlrip.Parse.Reader.read_byte ozlrip.Parse.Reader.read_array ozlrip.Parse.Reader.read_u16_le
    ozlrip.Parse.Reader.read_u32_le ozlrip.Parse.Reader.read_var_u64 ozlrip.Parse.Reader.for_each
    ozlrip.Parse.Reader.for_range ozlrip.Parse.Single.read_one_transform_id
    ozlrip.Parse.Single.read_one_transform_header_size ozlrip.Parse.Single.read_one_variable_output
    ozlrip.Parse.Single.read_one_regen_count ozlrip.Parse.Single.read_one_dict_index
    ozlrip.Parse.Single.read_single_transform_chunk_header ozlrip.Parse.Sizes.read_u32_output_sizes
    ozlrip.Parse.Sizes.varint_sizes_loop ozlrip.Parse.Sizes.read_elements
    ozlrip.Parse.Sizes.varint_elements_loop ozlrip.Parse.Sizes.read_varint_output_sizes
    ozlrip.Parse.Sizes.read_output_sizes ozlrip.Parse.Sizes.read_comment
    ozlrip.Parse.Sizes.verify_header_checksum ozlrip.Parse.Sizes.flags_from_byte
    ozlrip.Parse.Sizes.has_decoded_checksum ozlrip.Parse.Sizes.has_encoded_checksum
    ozlrip.Parse.Sizes.has_comment ozlrip.Parse.Sizes.has_bundle_id
    ozlrip.Parse.Validate.count_final_targets ozlrip.Parse.Validate.has_duplicate
    ozlrip.Parse.Validate.single_node_final_outputs
    ozlrip.Parse.Validate.validate_single_node_chunk_plan ozlrip.Parse.Validate.validate_by_count
    ozlrip.Parse.Validate.validate_chunk_plan ozlrip.Parse.Validate.validate_chunks
    ozlrip.Parse.Validate.validate_frame_plan ozlrip.Prelude.get_range ozlrip.Standard.fill_index
    ozlrip.Standard.node_index ozlrip.Standard.standard_node ozlrip.Standard.validate_transform_id
    ozlrip.Standard.Table.standard_nodes ozlrip.Varint.read_var_loop ozlrip.Varint.read_var_u64
size_run = refl

-- The frame with a wrong checksum of the chunk.
refused_run :
    parse_frame length_hash checked_frame strict true
    ≡ err (error_at ozlrip.Core.checksum_mismatch 7)
unfolding ozlrip.Core.checked_add ozlrip.Core.checked_mul ozlrip.Core.usize_from
    ozlrip.Core.u32_from ozlrip.Core.checked_add_u64 ozlrip.Parse.Bitpacked.read_bitpacked_u32
    ozlrip.Parse.Bitpacked.read_bitpacked_u32_inline
    ozlrip.Parse.Bitpacked.read_bitpacked_single_u32 ozlrip.Parse.Bitpacked.read_single_low_bits_u32
    ozlrip.Parse.Checks.validate_known_standard_node_shape ozlrip.Parse.Checks.validate_node_kind
    ozlrip.Parse.Checks.node_input_count ozlrip.Parse.Checks.validate_node_output_count
    ozlrip.Parse.Checks.validate_node_outputs ozlrip.Parse.Checks.validate_ranges
    ozlrip.Parse.Checks.validate_stream_totals ozlrip.Parse.Chunk.build_nodes_loop
    ozlrip.Parse.Chunk.lengths_match ozlrip.Parse.Chunk.build_node_plans
    ozlrip.Parse.Chunk.read_chunk_counts ozlrip.Parse.Chunk.read_multi_transform_chunk_header
    ozlrip.Parse.Chunk.read_chunk_header ozlrip.Parse.Chunk.read_chunk_payload
    ozlrip.Parse.Chunk.add_chunk ozlrip.Parse.Chunk.at_chunks_end
    ozlrip.Parse.Chunk.verify_compressed_checksum ozlrip.Parse.Chunk.read_chunk_checksums
    ozlrip.Parse.Chunk.read_chunk ozlrip.Parse.Chunk.read_chunks_loop ozlrip.Parse.Chunk.read_chunks
    ozlrip.Parse.ChunkFields.standard_transform_id_bits
    ozlrip.Parse.ChunkFields.runtime_node_input_limit ozlrip.Parse.ChunkFields.runtime_node_limit
    ozlrip.Parse.ChunkFields.runtime_stream_limit ozlrip.Parse.ChunkFields.read_count
    ozlrip.Parse.ChunkFields.read_transform_count ozlrip.Parse.ChunkFields.type_of_flag
    ozlrip.Parse.ChunkFields.read_transform_types ozlrip.Parse.ChunkFields.assign_ids
    ozlrip.Parse.ChunkFields.read_transform_ids ozlrip.Parse.ChunkFields.read_header_size
    ozlrip.Parse.ChunkFields.read_transform_header_sizes
    ozlrip.Parse.ChunkFields.read_variable_output ozlrip.Parse.ChunkFields.read_variable_outputs
    ozlrip.Parse.ChunkFields.read_regen_count ozlrip.Parse.ChunkFields.read_regen_counts
    ozlrip.Parse.ChunkFields.assign_dicts ozlrip.Parse.ChunkFields.read_dict_indexes
    ozlrip.Parse.ChunkFields.read_stored_stream_sizes ozlrip.Parse.ChunkFields.read_metadata
    ozlrip.Parse.Entry.header_info ozlrip.Parse.Entry.scan_frame ozlrip.Parse.Entry.inspect_header
    ozlrip.Parse.Entry.parse_frame ozlrip.Parse.Entry.inspect_frame ozlrip.Parse.Entry.frame_size
    ozlrip.Parse.Frame.frame_plan ozlrip.Parse.Frame.check_header_checksum
    ozlrip.Parse.Frame.read_frame_header ozlrip.Parse.Frame.scan ozlrip.Parse.Graph.new_graph
    ozlrip.Parse.Graph.output_depth ozlrip.Parse.Graph.mark_targets
    ozlrip.Parse.Graph.mark_regen_targets ozlrip.Parse.Graph.validate_final_outputs
    ozlrip.Parse.Graph.validate_node ozlrip.Parse.Graph.validate_nodes
    ozlrip.Parse.Graph.validate_graph ozlrip.Parse.Header.format_version_from_magic
    ozlrip.Parse.Header.all_zero ozlrip.Parse.Header.read_bundle_id
    ozlrip.Parse.Header.runtime_input_limit ozlrip.Parse.Header.widen_count
    ozlrip.Parse.Header.read_output_count ozlrip.Parse.Header.decode_type
    ozlrip.Parse.Header.read_v14_output_type ozlrip.Parse.Header.packed_types_loop
    ozlrip.Parse.Header.read_packed_types ozlrip.Parse.Header.read_v15_output_types
    ozlrip.Parse.Header.read_v21_output_types ozlrip.Parse.Header.read_output_types
    ozlrip.Parse.Header.read_output_header ozlrip.Parse.Packed.check_limit
    ozlrip.Parse.Packed.check_format_limit ozlrip.Parse.Packed.bitpacked_bytes
    ozlrip.Parse.Packed.bit_length ozlrip.Parse.Packed.bits_needed ozlrip.Parse.Packed.gather_word
    ozlrip.Parse.Packed.read_packed_value ozlrip.Parse.Packed.sum_usize
    ozlrip.Parse.Packed.sum_u32_as_usize ozlrip.Parse.Packed.add_output_size
    ozlrip.Parse.Packed.read_shifted_u32 ozlrip.Parse.Plan.as_slice ozlrip.Parse.Plan.standard_id
    ozlrip.Parse.Plan.stored_stream_range ozlrip.Parse.Plan.ranges_from
    ozlrip.Parse.Plan.set_payload_start ozlrip.Parse.Plan.into_public_info ozlrip.Parse.Reader.◌>>=◌
    ozlrip.Parse.Reader.pure ozlrip.Parse.Reader.fail ozlrip.Parse.Reader.out_of_fuel
    ozlrip.Parse.Reader.lift ozlrip.Parse.Reader.offset ozlrip.Parse.Reader.get_input
    ozlrip.Parse.Reader.index_input ozlrip.Parse.Reader.slice_input
    ozlrip.Parse.Reader.get_input_range ozlrip.Parse.Reader.read_slice ozlrip.Parse.Reader.peek_byte
    ozlrip.Parse.Reader.read_byte ozlrip.Parse.Reader.read_array ozlrip.Parse.Reader.read_u16_le
    ozlrip.Parse.Reader.read_u32_le ozlrip.Parse.Reader.read_var_u64 ozlrip.Parse.Reader.for_each
    ozlrip.Parse.Reader.for_range ozlrip.Parse.Single.read_one_transform_id
    ozlrip.Parse.Single.read_one_transform_header_size ozlrip.Parse.Single.read_one_variable_output
    ozlrip.Parse.Single.read_one_regen_count ozlrip.Parse.Single.read_one_dict_index
    ozlrip.Parse.Single.read_single_transform_chunk_header ozlrip.Parse.Sizes.read_u32_output_sizes
    ozlrip.Parse.Sizes.varint_sizes_loop ozlrip.Parse.Sizes.read_elements
    ozlrip.Parse.Sizes.varint_elements_loop ozlrip.Parse.Sizes.read_varint_output_sizes
    ozlrip.Parse.Sizes.read_output_sizes ozlrip.Parse.Sizes.read_comment
    ozlrip.Parse.Sizes.verify_header_checksum ozlrip.Parse.Sizes.flags_from_byte
    ozlrip.Parse.Sizes.has_decoded_checksum ozlrip.Parse.Sizes.has_encoded_checksum
    ozlrip.Parse.Sizes.has_comment ozlrip.Parse.Sizes.has_bundle_id
    ozlrip.Parse.Validate.count_final_targets ozlrip.Parse.Validate.has_duplicate
    ozlrip.Parse.Validate.single_node_final_outputs
    ozlrip.Parse.Validate.validate_single_node_chunk_plan ozlrip.Parse.Validate.validate_by_count
    ozlrip.Parse.Validate.validate_chunk_plan ozlrip.Parse.Validate.validate_chunks
    ozlrip.Parse.Validate.validate_frame_plan ozlrip.Prelude.get_range ozlrip.Standard.fill_index
    ozlrip.Standard.node_index ozlrip.Standard.standard_node ozlrip.Standard.validate_transform_id
    ozlrip.Standard.Table.standard_nodes ozlrip.Varint.read_var_loop ozlrip.Varint.read_var_u64
refused_run = refl

-- Two zigzag nodes, one on the output of the other.
abbrev zigzag_node : NodePlan
zigzag_node = record {
  transform_type = standard;
  transform_id = 3;
  transform_header_start = 0;
  transform_header_size = 0;
  variable_outputs = 0;
  regen_distances = 0 ∷ [];
  dict_index = none;
}

abbrev zigzag_chunk : ChunkPlan
zigzag_chunk = record {
  nodes = zigzag_node ∷ zigzag_node ∷ [];
  stored_stream_sizes = 4 ∷ [];
  transform_header_bytes = 0;
  stored_stream_bytes = 4;
  transform_header_range = record { start = 20; len = 0 };
  stored_stream_ranges = record { start = 20; len = 4 } ∷ [];
  decoded_checksum = none;
  encoded_checksum = none;
}

abbrev zigzag_end : Walk
zigzag_end = record {
  graph = record { produced = false ∷ true ∷ true ∷ []; depths = 0 ∷ 1 ∷ 2 ∷ [] };
  stream_cursor = 2;
  header_end = 0;
  regenerated = 2;
}

nodes_run : validate_nodes (start_walk 3) (zigzag_node ∷ zigzag_node ∷ []) 2 strict ≡ ok zigzag_end
unfolding ozlrip.Core.checked_add ozlrip.Core.checked_mul ozlrip.Core.usize_from
    ozlrip.Core.u32_from ozlrip.Core.checked_add_u64 ozlrip.Parse.Bitpacked.read_bitpacked_u32
    ozlrip.Parse.Bitpacked.read_bitpacked_u32_inline
    ozlrip.Parse.Bitpacked.read_bitpacked_single_u32 ozlrip.Parse.Bitpacked.read_single_low_bits_u32
    ozlrip.Parse.Checks.validate_known_standard_node_shape ozlrip.Parse.Checks.validate_node_kind
    ozlrip.Parse.Checks.node_input_count ozlrip.Parse.Checks.validate_node_output_count
    ozlrip.Parse.Checks.validate_node_outputs ozlrip.Parse.Checks.validate_ranges
    ozlrip.Parse.Checks.validate_stream_totals ozlrip.Parse.Chunk.build_nodes_loop
    ozlrip.Parse.Chunk.lengths_match ozlrip.Parse.Chunk.build_node_plans
    ozlrip.Parse.Chunk.read_chunk_counts ozlrip.Parse.Chunk.read_multi_transform_chunk_header
    ozlrip.Parse.Chunk.read_chunk_header ozlrip.Parse.Chunk.read_chunk_payload
    ozlrip.Parse.Chunk.add_chunk ozlrip.Parse.Chunk.at_chunks_end
    ozlrip.Parse.Chunk.verify_compressed_checksum ozlrip.Parse.Chunk.read_chunk_checksums
    ozlrip.Parse.Chunk.read_chunk ozlrip.Parse.Chunk.read_chunks_loop ozlrip.Parse.Chunk.read_chunks
    ozlrip.Parse.ChunkFields.standard_transform_id_bits
    ozlrip.Parse.ChunkFields.runtime_node_input_limit ozlrip.Parse.ChunkFields.runtime_node_limit
    ozlrip.Parse.ChunkFields.runtime_stream_limit ozlrip.Parse.ChunkFields.read_count
    ozlrip.Parse.ChunkFields.read_transform_count ozlrip.Parse.ChunkFields.type_of_flag
    ozlrip.Parse.ChunkFields.read_transform_types ozlrip.Parse.ChunkFields.assign_ids
    ozlrip.Parse.ChunkFields.read_transform_ids ozlrip.Parse.ChunkFields.read_header_size
    ozlrip.Parse.ChunkFields.read_transform_header_sizes
    ozlrip.Parse.ChunkFields.read_variable_output ozlrip.Parse.ChunkFields.read_variable_outputs
    ozlrip.Parse.ChunkFields.read_regen_count ozlrip.Parse.ChunkFields.read_regen_counts
    ozlrip.Parse.ChunkFields.assign_dicts ozlrip.Parse.ChunkFields.read_dict_indexes
    ozlrip.Parse.ChunkFields.read_stored_stream_sizes ozlrip.Parse.ChunkFields.read_metadata
    ozlrip.Parse.Entry.header_info ozlrip.Parse.Entry.scan_frame ozlrip.Parse.Entry.inspect_header
    ozlrip.Parse.Entry.parse_frame ozlrip.Parse.Entry.inspect_frame ozlrip.Parse.Entry.frame_size
    ozlrip.Parse.Frame.frame_plan ozlrip.Parse.Frame.check_header_checksum
    ozlrip.Parse.Frame.read_frame_header ozlrip.Parse.Frame.scan ozlrip.Parse.Graph.new_graph
    ozlrip.Parse.Graph.output_depth ozlrip.Parse.Graph.mark_targets
    ozlrip.Parse.Graph.mark_regen_targets ozlrip.Parse.Graph.validate_final_outputs
    ozlrip.Parse.Graph.validate_node ozlrip.Parse.Graph.validate_nodes
    ozlrip.Parse.Graph.validate_graph ozlrip.Parse.Header.format_version_from_magic
    ozlrip.Parse.Header.all_zero ozlrip.Parse.Header.read_bundle_id
    ozlrip.Parse.Header.runtime_input_limit ozlrip.Parse.Header.widen_count
    ozlrip.Parse.Header.read_output_count ozlrip.Parse.Header.decode_type
    ozlrip.Parse.Header.read_v14_output_type ozlrip.Parse.Header.packed_types_loop
    ozlrip.Parse.Header.read_packed_types ozlrip.Parse.Header.read_v15_output_types
    ozlrip.Parse.Header.read_v21_output_types ozlrip.Parse.Header.read_output_types
    ozlrip.Parse.Header.read_output_header ozlrip.Parse.Packed.check_limit
    ozlrip.Parse.Packed.check_format_limit ozlrip.Parse.Packed.bitpacked_bytes
    ozlrip.Parse.Packed.bit_length ozlrip.Parse.Packed.bits_needed ozlrip.Parse.Packed.gather_word
    ozlrip.Parse.Packed.read_packed_value ozlrip.Parse.Packed.sum_usize
    ozlrip.Parse.Packed.sum_u32_as_usize ozlrip.Parse.Packed.add_output_size
    ozlrip.Parse.Packed.read_shifted_u32 ozlrip.Parse.Plan.as_slice ozlrip.Parse.Plan.standard_id
    ozlrip.Parse.Plan.stored_stream_range ozlrip.Parse.Plan.ranges_from
    ozlrip.Parse.Plan.set_payload_start ozlrip.Parse.Plan.into_public_info ozlrip.Parse.Reader.◌>>=◌
    ozlrip.Parse.Reader.pure ozlrip.Parse.Reader.fail ozlrip.Parse.Reader.out_of_fuel
    ozlrip.Parse.Reader.lift ozlrip.Parse.Reader.offset ozlrip.Parse.Reader.get_input
    ozlrip.Parse.Reader.index_input ozlrip.Parse.Reader.slice_input
    ozlrip.Parse.Reader.get_input_range ozlrip.Parse.Reader.read_slice ozlrip.Parse.Reader.peek_byte
    ozlrip.Parse.Reader.read_byte ozlrip.Parse.Reader.read_array ozlrip.Parse.Reader.read_u16_le
    ozlrip.Parse.Reader.read_u32_le ozlrip.Parse.Reader.read_var_u64 ozlrip.Parse.Reader.for_each
    ozlrip.Parse.Reader.for_range ozlrip.Parse.Single.read_one_transform_id
    ozlrip.Parse.Single.read_one_transform_header_size ozlrip.Parse.Single.read_one_variable_output
    ozlrip.Parse.Single.read_one_regen_count ozlrip.Parse.Single.read_one_dict_index
    ozlrip.Parse.Single.read_single_transform_chunk_header ozlrip.Parse.Sizes.read_u32_output_sizes
    ozlrip.Parse.Sizes.varint_sizes_loop ozlrip.Parse.Sizes.read_elements
    ozlrip.Parse.Sizes.varint_elements_loop ozlrip.Parse.Sizes.read_varint_output_sizes
    ozlrip.Parse.Sizes.read_output_sizes ozlrip.Parse.Sizes.read_comment
    ozlrip.Parse.Sizes.verify_header_checksum ozlrip.Parse.Sizes.flags_from_byte
    ozlrip.Parse.Sizes.has_decoded_checksum ozlrip.Parse.Sizes.has_encoded_checksum
    ozlrip.Parse.Sizes.has_comment ozlrip.Parse.Sizes.has_bundle_id
    ozlrip.Parse.Validate.count_final_targets ozlrip.Parse.Validate.has_duplicate
    ozlrip.Parse.Validate.single_node_final_outputs
    ozlrip.Parse.Validate.validate_single_node_chunk_plan ozlrip.Parse.Validate.validate_by_count
    ozlrip.Parse.Validate.validate_chunk_plan ozlrip.Parse.Validate.validate_chunks
    ozlrip.Parse.Validate.validate_frame_plan ozlrip.Prelude.get_range ozlrip.Standard.fill_index
    ozlrip.Standard.node_index ozlrip.Standard.standard_node ozlrip.Standard.validate_transform_id
    ozlrip.Standard.Table.standard_nodes ozlrip.Varint.read_var_loop ozlrip.Varint.read_var_u64
nodes_run = refl

chunk_run : validate_chunk_plan zigzag_chunk 1 strict ≡ ok tt
unfolding ozlrip.Core.checked_add ozlrip.Core.checked_mul ozlrip.Core.usize_from
    ozlrip.Core.u32_from ozlrip.Core.checked_add_u64 ozlrip.Parse.Bitpacked.read_bitpacked_u32
    ozlrip.Parse.Bitpacked.read_bitpacked_u32_inline
    ozlrip.Parse.Bitpacked.read_bitpacked_single_u32 ozlrip.Parse.Bitpacked.read_single_low_bits_u32
    ozlrip.Parse.Checks.validate_known_standard_node_shape ozlrip.Parse.Checks.validate_node_kind
    ozlrip.Parse.Checks.node_input_count ozlrip.Parse.Checks.validate_node_output_count
    ozlrip.Parse.Checks.validate_node_outputs ozlrip.Parse.Checks.validate_ranges
    ozlrip.Parse.Checks.validate_stream_totals ozlrip.Parse.Chunk.build_nodes_loop
    ozlrip.Parse.Chunk.lengths_match ozlrip.Parse.Chunk.build_node_plans
    ozlrip.Parse.Chunk.read_chunk_counts ozlrip.Parse.Chunk.read_multi_transform_chunk_header
    ozlrip.Parse.Chunk.read_chunk_header ozlrip.Parse.Chunk.read_chunk_payload
    ozlrip.Parse.Chunk.add_chunk ozlrip.Parse.Chunk.at_chunks_end
    ozlrip.Parse.Chunk.verify_compressed_checksum ozlrip.Parse.Chunk.read_chunk_checksums
    ozlrip.Parse.Chunk.read_chunk ozlrip.Parse.Chunk.read_chunks_loop ozlrip.Parse.Chunk.read_chunks
    ozlrip.Parse.ChunkFields.standard_transform_id_bits
    ozlrip.Parse.ChunkFields.runtime_node_input_limit ozlrip.Parse.ChunkFields.runtime_node_limit
    ozlrip.Parse.ChunkFields.runtime_stream_limit ozlrip.Parse.ChunkFields.read_count
    ozlrip.Parse.ChunkFields.read_transform_count ozlrip.Parse.ChunkFields.type_of_flag
    ozlrip.Parse.ChunkFields.read_transform_types ozlrip.Parse.ChunkFields.assign_ids
    ozlrip.Parse.ChunkFields.read_transform_ids ozlrip.Parse.ChunkFields.read_header_size
    ozlrip.Parse.ChunkFields.read_transform_header_sizes
    ozlrip.Parse.ChunkFields.read_variable_output ozlrip.Parse.ChunkFields.read_variable_outputs
    ozlrip.Parse.ChunkFields.read_regen_count ozlrip.Parse.ChunkFields.read_regen_counts
    ozlrip.Parse.ChunkFields.assign_dicts ozlrip.Parse.ChunkFields.read_dict_indexes
    ozlrip.Parse.ChunkFields.read_stored_stream_sizes ozlrip.Parse.ChunkFields.read_metadata
    ozlrip.Parse.Entry.header_info ozlrip.Parse.Entry.scan_frame ozlrip.Parse.Entry.inspect_header
    ozlrip.Parse.Entry.parse_frame ozlrip.Parse.Entry.inspect_frame ozlrip.Parse.Entry.frame_size
    ozlrip.Parse.Frame.frame_plan ozlrip.Parse.Frame.check_header_checksum
    ozlrip.Parse.Frame.read_frame_header ozlrip.Parse.Frame.scan ozlrip.Parse.Graph.new_graph
    ozlrip.Parse.Graph.output_depth ozlrip.Parse.Graph.mark_targets
    ozlrip.Parse.Graph.mark_regen_targets ozlrip.Parse.Graph.validate_final_outputs
    ozlrip.Parse.Graph.validate_node ozlrip.Parse.Graph.validate_nodes
    ozlrip.Parse.Graph.validate_graph ozlrip.Parse.Header.format_version_from_magic
    ozlrip.Parse.Header.all_zero ozlrip.Parse.Header.read_bundle_id
    ozlrip.Parse.Header.runtime_input_limit ozlrip.Parse.Header.widen_count
    ozlrip.Parse.Header.read_output_count ozlrip.Parse.Header.decode_type
    ozlrip.Parse.Header.read_v14_output_type ozlrip.Parse.Header.packed_types_loop
    ozlrip.Parse.Header.read_packed_types ozlrip.Parse.Header.read_v15_output_types
    ozlrip.Parse.Header.read_v21_output_types ozlrip.Parse.Header.read_output_types
    ozlrip.Parse.Header.read_output_header ozlrip.Parse.Packed.check_limit
    ozlrip.Parse.Packed.check_format_limit ozlrip.Parse.Packed.bitpacked_bytes
    ozlrip.Parse.Packed.bit_length ozlrip.Parse.Packed.bits_needed ozlrip.Parse.Packed.gather_word
    ozlrip.Parse.Packed.read_packed_value ozlrip.Parse.Packed.sum_usize
    ozlrip.Parse.Packed.sum_u32_as_usize ozlrip.Parse.Packed.add_output_size
    ozlrip.Parse.Packed.read_shifted_u32 ozlrip.Parse.Plan.as_slice ozlrip.Parse.Plan.standard_id
    ozlrip.Parse.Plan.stored_stream_range ozlrip.Parse.Plan.ranges_from
    ozlrip.Parse.Plan.set_payload_start ozlrip.Parse.Plan.into_public_info ozlrip.Parse.Reader.◌>>=◌
    ozlrip.Parse.Reader.pure ozlrip.Parse.Reader.fail ozlrip.Parse.Reader.out_of_fuel
    ozlrip.Parse.Reader.lift ozlrip.Parse.Reader.offset ozlrip.Parse.Reader.get_input
    ozlrip.Parse.Reader.index_input ozlrip.Parse.Reader.slice_input
    ozlrip.Parse.Reader.get_input_range ozlrip.Parse.Reader.read_slice ozlrip.Parse.Reader.peek_byte
    ozlrip.Parse.Reader.read_byte ozlrip.Parse.Reader.read_array ozlrip.Parse.Reader.read_u16_le
    ozlrip.Parse.Reader.read_u32_le ozlrip.Parse.Reader.read_var_u64 ozlrip.Parse.Reader.for_each
    ozlrip.Parse.Reader.for_range ozlrip.Parse.Single.read_one_transform_id
    ozlrip.Parse.Single.read_one_transform_header_size ozlrip.Parse.Single.read_one_variable_output
    ozlrip.Parse.Single.read_one_regen_count ozlrip.Parse.Single.read_one_dict_index
    ozlrip.Parse.Single.read_single_transform_chunk_header ozlrip.Parse.Sizes.read_u32_output_sizes
    ozlrip.Parse.Sizes.varint_sizes_loop ozlrip.Parse.Sizes.read_elements
    ozlrip.Parse.Sizes.varint_elements_loop ozlrip.Parse.Sizes.read_varint_output_sizes
    ozlrip.Parse.Sizes.read_output_sizes ozlrip.Parse.Sizes.read_comment
    ozlrip.Parse.Sizes.verify_header_checksum ozlrip.Parse.Sizes.flags_from_byte
    ozlrip.Parse.Sizes.has_decoded_checksum ozlrip.Parse.Sizes.has_encoded_checksum
    ozlrip.Parse.Sizes.has_comment ozlrip.Parse.Sizes.has_bundle_id
    ozlrip.Parse.Validate.count_final_targets ozlrip.Parse.Validate.has_duplicate
    ozlrip.Parse.Validate.single_node_final_outputs
    ozlrip.Parse.Validate.validate_single_node_chunk_plan ozlrip.Parse.Validate.validate_by_count
    ozlrip.Parse.Validate.validate_chunk_plan ozlrip.Parse.Validate.validate_chunks
    ozlrip.Parse.Validate.validate_frame_plan ozlrip.Prelude.get_range ozlrip.Standard.fill_index
    ozlrip.Standard.node_index ozlrip.Standard.standard_node ozlrip.Standard.validate_transform_id
    ozlrip.Standard.Table.standard_nodes ozlrip.Varint.read_var_loop ozlrip.Varint.read_var_u64
chunk_run = refl

scan_frame-IsSafe_example :
    IsSafe (scan_frame zero_hash checked_frame strict true)
    × IsSafe (inspect_header zero_hash checked_frame strict true)
scan_frame-IsSafe_example = scan_frame-IsSafe zero_hash checked_frame strict true

parse_frame-IsSafe_example :
    IsSafe (parse_frame zero_hash checked_frame strict true)
    × IsSafe (inspect_frame zero_hash checked_frame strict true)
parse_frame-IsSafe_example = parse_frame-IsSafe zero_hash checked_frame strict true

parse_frame-unverified_example :
    parse_frame length_hash checked_frame strict false ≡ ok checked_plan
parse_frame-unverified_example =
    parse_frame-unverified zero_hash length_hash checked_frame strict checked_plan parse_run

parse_frame_trailing_example :
    (checked_plan.info.frame_bytes ≡ length checked_frame)
    × (parse_frame zero_hash (checked_frame ++ (1 ∷ 2 ∷ [])) strict true
        ≡ err (error_at malformed 19))
parse_frame_trailing_example =
    parse_frame_trailing zero_hash checked_frame (2 ∷ []) 1 strict true checked_plan parse_run
      (omega arith)

frame_size-append_example :
    (frame_size zero_hash (checked_frame ++ (1 ∷ 2 ∷ [])) strict ≡ ok 19) × (19 ≤ 19)
frame_size-append_example =
    frame_size-append zero_hash checked_frame (1 ∷ 2 ∷ []) strict 19 size_run

scan_frame-HasTotals_example : HasTotals strict checked_plan
scan_frame-HasTotals_example =
    scan_frame-HasTotals zero_hash checked_frame strict true checked_plan scan_run

read_var_u64-cases_example :
    ((p : ℕ × ℕ) × (ozlrip.Varint.read_var_u64 (7 ∷ 0x80 ∷ 1 ∷ []) 1 ≡ ok p)
      × (1 < p.1)
      × (p.1 ≤ 1 + 10)
      × (p.1 ≤ 3)
      × ((more : Bytes) → ozlrip.Varint.read_var_u64 ((7 ∷ 0x80 ∷ 1 ∷ []) ++ more) 1 ≡ ok p))
    ⊎ ((e : Error) × (ozlrip.Varint.read_var_u64 (7 ∷ 0x80 ∷ 1 ∷ []) 1 ≡ err e))
read_var_u64-cases_example = read_var_u64-cases (7 ∷ 0x80 ∷ 1 ∷ []) 1

bits_needed-least_example :
    ((distance : ℕ) → distance < 5 → distance < 2 ^ bits_needed 5)
    × ((bits : ℕ) → ((distance : ℕ) → distance < 5 → distance < 2 ^ bits) → bits_needed 5 ≤ bits)
bits_needed-least_example = bits_needed-least 5 (omega arith) (omega arith)

abbrev unplaced_chunk : ChunkPlan
unplaced_chunk = record zigzag_chunk {
  transform_header_range = record { start = 0; len = 0 };
  stored_stream_ranges = [];
}

place_run : set_payload_start unplaced_chunk 20 ≡ ok zigzag_chunk
unfolding ozlrip.Core.checked_add ozlrip.Core.checked_mul ozlrip.Core.usize_from
    ozlrip.Core.u32_from ozlrip.Core.checked_add_u64 ozlrip.Parse.Bitpacked.read_bitpacked_u32
    ozlrip.Parse.Bitpacked.read_bitpacked_u32_inline
    ozlrip.Parse.Bitpacked.read_bitpacked_single_u32 ozlrip.Parse.Bitpacked.read_single_low_bits_u32
    ozlrip.Parse.Checks.validate_known_standard_node_shape ozlrip.Parse.Checks.validate_node_kind
    ozlrip.Parse.Checks.node_input_count ozlrip.Parse.Checks.validate_node_output_count
    ozlrip.Parse.Checks.validate_node_outputs ozlrip.Parse.Checks.validate_ranges
    ozlrip.Parse.Checks.validate_stream_totals ozlrip.Parse.Chunk.build_nodes_loop
    ozlrip.Parse.Chunk.lengths_match ozlrip.Parse.Chunk.build_node_plans
    ozlrip.Parse.Chunk.read_chunk_counts ozlrip.Parse.Chunk.read_multi_transform_chunk_header
    ozlrip.Parse.Chunk.read_chunk_header ozlrip.Parse.Chunk.read_chunk_payload
    ozlrip.Parse.Chunk.add_chunk ozlrip.Parse.Chunk.at_chunks_end
    ozlrip.Parse.Chunk.verify_compressed_checksum ozlrip.Parse.Chunk.read_chunk_checksums
    ozlrip.Parse.Chunk.read_chunk ozlrip.Parse.Chunk.read_chunks_loop ozlrip.Parse.Chunk.read_chunks
    ozlrip.Parse.ChunkFields.standard_transform_id_bits
    ozlrip.Parse.ChunkFields.runtime_node_input_limit ozlrip.Parse.ChunkFields.runtime_node_limit
    ozlrip.Parse.ChunkFields.runtime_stream_limit ozlrip.Parse.ChunkFields.read_count
    ozlrip.Parse.ChunkFields.read_transform_count ozlrip.Parse.ChunkFields.type_of_flag
    ozlrip.Parse.ChunkFields.read_transform_types ozlrip.Parse.ChunkFields.assign_ids
    ozlrip.Parse.ChunkFields.read_transform_ids ozlrip.Parse.ChunkFields.read_header_size
    ozlrip.Parse.ChunkFields.read_transform_header_sizes
    ozlrip.Parse.ChunkFields.read_variable_output ozlrip.Parse.ChunkFields.read_variable_outputs
    ozlrip.Parse.ChunkFields.read_regen_count ozlrip.Parse.ChunkFields.read_regen_counts
    ozlrip.Parse.ChunkFields.assign_dicts ozlrip.Parse.ChunkFields.read_dict_indexes
    ozlrip.Parse.ChunkFields.read_stored_stream_sizes ozlrip.Parse.ChunkFields.read_metadata
    ozlrip.Parse.Entry.header_info ozlrip.Parse.Entry.scan_frame ozlrip.Parse.Entry.inspect_header
    ozlrip.Parse.Entry.parse_frame ozlrip.Parse.Entry.inspect_frame ozlrip.Parse.Entry.frame_size
    ozlrip.Parse.Frame.frame_plan ozlrip.Parse.Frame.check_header_checksum
    ozlrip.Parse.Frame.read_frame_header ozlrip.Parse.Frame.scan ozlrip.Parse.Graph.new_graph
    ozlrip.Parse.Graph.output_depth ozlrip.Parse.Graph.mark_targets
    ozlrip.Parse.Graph.mark_regen_targets ozlrip.Parse.Graph.validate_final_outputs
    ozlrip.Parse.Graph.validate_node ozlrip.Parse.Graph.validate_nodes
    ozlrip.Parse.Graph.validate_graph ozlrip.Parse.Header.format_version_from_magic
    ozlrip.Parse.Header.all_zero ozlrip.Parse.Header.read_bundle_id
    ozlrip.Parse.Header.runtime_input_limit ozlrip.Parse.Header.widen_count
    ozlrip.Parse.Header.read_output_count ozlrip.Parse.Header.decode_type
    ozlrip.Parse.Header.read_v14_output_type ozlrip.Parse.Header.packed_types_loop
    ozlrip.Parse.Header.read_packed_types ozlrip.Parse.Header.read_v15_output_types
    ozlrip.Parse.Header.read_v21_output_types ozlrip.Parse.Header.read_output_types
    ozlrip.Parse.Header.read_output_header ozlrip.Parse.Packed.check_limit
    ozlrip.Parse.Packed.check_format_limit ozlrip.Parse.Packed.bitpacked_bytes
    ozlrip.Parse.Packed.bit_length ozlrip.Parse.Packed.bits_needed ozlrip.Parse.Packed.gather_word
    ozlrip.Parse.Packed.read_packed_value ozlrip.Parse.Packed.sum_usize
    ozlrip.Parse.Packed.sum_u32_as_usize ozlrip.Parse.Packed.add_output_size
    ozlrip.Parse.Packed.read_shifted_u32 ozlrip.Parse.Plan.as_slice ozlrip.Parse.Plan.standard_id
    ozlrip.Parse.Plan.stored_stream_range ozlrip.Parse.Plan.ranges_from
    ozlrip.Parse.Plan.set_payload_start ozlrip.Parse.Plan.into_public_info ozlrip.Parse.Reader.◌>>=◌
    ozlrip.Parse.Reader.pure ozlrip.Parse.Reader.fail ozlrip.Parse.Reader.out_of_fuel
    ozlrip.Parse.Reader.lift ozlrip.Parse.Reader.offset ozlrip.Parse.Reader.get_input
    ozlrip.Parse.Reader.index_input ozlrip.Parse.Reader.slice_input
    ozlrip.Parse.Reader.get_input_range ozlrip.Parse.Reader.read_slice ozlrip.Parse.Reader.peek_byte
    ozlrip.Parse.Reader.read_byte ozlrip.Parse.Reader.read_array ozlrip.Parse.Reader.read_u16_le
    ozlrip.Parse.Reader.read_u32_le ozlrip.Parse.Reader.read_var_u64 ozlrip.Parse.Reader.for_each
    ozlrip.Parse.Reader.for_range ozlrip.Parse.Single.read_one_transform_id
    ozlrip.Parse.Single.read_one_transform_header_size ozlrip.Parse.Single.read_one_variable_output
    ozlrip.Parse.Single.read_one_regen_count ozlrip.Parse.Single.read_one_dict_index
    ozlrip.Parse.Single.read_single_transform_chunk_header ozlrip.Parse.Sizes.read_u32_output_sizes
    ozlrip.Parse.Sizes.varint_sizes_loop ozlrip.Parse.Sizes.read_elements
    ozlrip.Parse.Sizes.varint_elements_loop ozlrip.Parse.Sizes.read_varint_output_sizes
    ozlrip.Parse.Sizes.read_output_sizes ozlrip.Parse.Sizes.read_comment
    ozlrip.Parse.Sizes.verify_header_checksum ozlrip.Parse.Sizes.flags_from_byte
    ozlrip.Parse.Sizes.has_decoded_checksum ozlrip.Parse.Sizes.has_encoded_checksum
    ozlrip.Parse.Sizes.has_comment ozlrip.Parse.Sizes.has_bundle_id
    ozlrip.Parse.Validate.count_final_targets ozlrip.Parse.Validate.has_duplicate
    ozlrip.Parse.Validate.single_node_final_outputs
    ozlrip.Parse.Validate.validate_single_node_chunk_plan ozlrip.Parse.Validate.validate_by_count
    ozlrip.Parse.Validate.validate_chunk_plan ozlrip.Parse.Validate.validate_chunks
    ozlrip.Parse.Validate.validate_frame_plan ozlrip.Prelude.get_range ozlrip.Standard.fill_index
    ozlrip.Standard.node_index ozlrip.Standard.standard_node ozlrip.Standard.validate_transform_id
    ozlrip.Standard.Table.standard_nodes ozlrip.Varint.read_var_loop ozlrip.Varint.read_var_u64
place_run = refl

set_payload_start-AreAdjacent_example :
    (zigzag_chunk.transform_header_range ≡ record { start = 20; len = 0 })
    × AreAdjacent 20 (4 ∷ []) zigzag_chunk.stored_stream_ranges
    × (zigzag_chunk ≡ record unplaced_chunk {
      transform_header_range = zigzag_chunk.transform_header_range;
      stored_stream_ranges = zigzag_chunk.stored_stream_ranges;
    })
set_payload_start-AreAdjacent_example =
    set_payload_start-AreAdjacent unplaced_chunk zigzag_chunk 20 place_run

validate_ranges_iff_example : (ranges_from 20 (4 ∷ []) ≡ ok zigzag_chunk.stored_stream_ranges) ↔ (
    (validate_ranges 20 zigzag_chunk.stored_stream_ranges (4 ∷ []) ≡ ok tt)
    × (length zigzag_chunk.stored_stream_ranges ≡ length zigzag_chunk.stored_stream_sizes))
validate_ranges_iff_example = validate_ranges_iff 20 zigzag_chunk.stored_stream_ranges (4 ∷ [])

zigzag_dicts : DictsOnZstd (zigzag_node ∷ zigzag_node ∷ [])
zigzag_dicts = (λ dict e. absurd (cc), (λ dict e. absurd (cc), tt))

build_nodes-validated_example :
    (plans : List NodeExecutionPlan) × (build_nodes 0
        (zigzag_node ∷ zigzag_node ∷ [])
        (start_walk 3).graph.produced
      ≡ ok (plans, false ∷ true ∷ true ∷ []))
build_nodes-validated_example =
    build_nodes-validated (start_walk 3) zigzag_end (zigzag_node ∷ zigzag_node ∷ []) 2 strict
      nodes_run zigzag_dicts

build_chunk_execution_plan-validated_example :
    (plan : ChunkExecutionPlan) × (build_chunk_execution_plan zigzag_chunk ≡ ok plan)
build_chunk_execution_plan-validated_example =
    build_chunk_execution_plan-validated zigzag_chunk 1 strict chunk_run (λ e. omega arith)
      zigzag_dicts

scan_frame-AreSized_example : AreSized strict 1 (sizes_of checked_plan)
scan_frame-AreSized_example =
    scan_frame-AreSized zero_hash checked_frame strict true checked_plan scan_run

standard_node-find_example : standard_node 22 ≡ find_node 22 standard_nodes
standard_node-find_example = standard_node-find 22

validate_transform_id_iff_example :
    (validate_transform_id 22 21 ≡ ok tt)
    ↔ ((row : StandardNode) × (find_node 22 standard_nodes ≡ some row) × IsAvailable row 21)
validate_transform_id_iff_example = validate_transform_id_iff 22 21

frame_size-parsed_example : frame_size zero_hash (checked_frame ++ (1 ∷ 2 ∷ [])) strict ≡ ok 19
frame_size-parsed_example =
    frame_size-parsed zero_hash checked_frame (1 ∷ 2 ∷ []) strict true checked_plan parse_run

read_var_u64-write_var_u64_example :
    ozlrip.Varint.read_var_u64 (7 ∷ (write_var_u64 300 ++ (8 ∷ 9 ∷ []))) 1 ≡ ok (300, 3)
unfolding write_var_u64 write_var
read_var_u64-write_var_u64_example =
    read_var_u64-write_var_u64 300 (7 ∷ []) (8 ∷ 9 ∷ []) (omega arith) (omega arith)
