-- ===== src/Parse/Plan.antt =====
-- crates/decode/src/parse.rs: the plan of a frame, and the constants of the format.
pub mod Layout
use ozlrip.Prelude.{ℕ, ◌+◌, Bool, List, [], ◌∷◌, Option, none, some, length, get_elem?}
use ozlrip.Core.{Bytes, Result, ok, ◌>>=◌, checked_add, ok_or, error_at, truncated}
use ozlrip.Prelude.{get_range}
use ozlrip.Info.{FrameValueType, FrameInfo}

abbrev pub magic_base : ℕ
magic_base = 0xd7b1_a5c0

abbrev pub min_format_version : ℕ
min_format_version = 8

abbrev pub max_format_version : ℕ
max_format_version = 27

abbrev pub chunk_version_min : ℕ
chunk_version_min = 21

abbrev pub comment_version_min : ℕ
comment_version_min = 22

abbrev pub materialized_dict_version_min : ℕ
materialized_dict_version_min = 25

abbrev pub max_header_comment_bytes : ℕ
max_header_comment_bytes = 10000

-- crates/decode/src/dict.rs
abbrev pub unique_id_bytes : ℕ
unique_id_bytes = 32

abbrev pub max_dicts_per_bundle : ℕ
max_dicts_per_bundle = 0xffff

pub data TransformType : Type 0 where
  standard custom : TransformType

pub record ByteRange : Type 0 where
  pub start : ℕ
  pub len : ℕ

unfoldable pub as_slice : ByteRange → Bytes → Result Bytes
as_slice range input = do
  end ← checked_add range.start range.len
  ok_or (get_range input range.start end) (error_at truncated range.start)

pub record NodePlan : Type 0 where
  pub transform_type : TransformType
  pub transform_id : ℕ
  pub transform_header_start : ℕ
  pub transform_header_size : ℕ
  pub variable_outputs : ℕ
  pub regen_distances : List ℕ
  pub dict_index : Option ℕ

unfoldable pub standard_id : TransformType → NodePlan → Option ℕ
standard_id standard node = some node.transform_id
standard_id custom node = none

pub record ChunkPlan : Type 0 where
  pub nodes : List NodePlan
  pub stored_stream_sizes : List ℕ
  pub transform_header_bytes : ℕ
  pub stored_stream_bytes : ℕ
  pub transform_header_range : ByteRange
  pub stored_stream_ranges : List ByteRange
  pub decoded_checksum : Option ℕ
  pub encoded_checksum : Option ℕ

abbrev pub transforms : ChunkPlan → ℕ
transforms chunk = length chunk.nodes

abbrev pub stored_streams : ChunkPlan → ℕ
stored_streams chunk = length chunk.stored_stream_sizes

-- `iter().map(..).sum()`; a sum past 2 ^ 64 would need as many distances in memory.
abbrev pub regen_total : List NodePlan → ℕ
regen_total [] = 0
regen_total (node ∷ nodes) = length node.regen_distances + regen_total nodes

abbrev pub regenerated_streams : ChunkPlan → ℕ
regenerated_streams chunk = regen_total chunk.nodes

unfoldable pub stored_stream_range : ChunkPlan → ℕ → Option ByteRange
stored_stream_range chunk i = get_elem? chunk.stored_stream_ranges i

-- The ranges of the stored streams, each starting where the one before ends.
unfoldable pub ranges_from : ℕ → List ℕ → Result (List ByteRange)
ranges_from offset [] = ok []
ranges_from offset (size ∷ sizes) = do
  next ← checked_add offset size
  rest ← ranges_from next sizes
  ok (record { start = offset; len = size } ∷ rest)

unfoldable pub set_payload_start : ChunkPlan → ℕ → Result ChunkPlan
unfolding ranges_from
set_payload_start chunk payload_start = do
  transform_header_end ← checked_add payload_start chunk.transform_header_bytes
  ranges ← ranges_from transform_header_end chunk.stored_stream_sizes
  ok (record chunk {
    transform_header_range = record { start = payload_start; len = chunk.transform_header_bytes };
    stored_stream_ranges = ranges;
  })

pub record FramePlanInfo : Type 0 where
  pub format_version : ℕ
  pub frame_bytes : ℕ
  pub header_bytes : ℕ
  pub decoded_bytes : Option ℕ
  pub chunks : ℕ
  pub outputs : ℕ
  pub output_types : List FrameValueType
  pub output_sizes : List (Option ℕ)
  pub output_elements : List (Option ℕ)
  pub transforms : ℕ
  pub stored_streams : ℕ
  pub regenerated_streams : ℕ
  pub has_decoded_checksum : Bool
  pub has_encoded_checksum : Bool
  pub has_comment : Bool
  pub comment : Option Bytes
  pub dictionary_bundle_id : Option Bytes

pub record FramePlan : Type 0 where
  pub info : FramePlanInfo
  pub chunks : List ChunkPlan

unfoldable pub into_public_info : FramePlanInfo → FrameInfo
into_public_info i = record {
  format_version = i.format_version;
  frame_bytes = i.frame_bytes;
  header_bytes = i.header_bytes;
  decoded_bytes = i.decoded_bytes;
  chunks = i.chunks;
  outputs = i.outputs;
  output_types = i.output_types;
  output_sizes = i.output_sizes;
  output_elements = i.output_elements;
  transforms = i.transforms;
  stored_streams = i.stored_streams;
  regenerated_streams = i.regenerated_streams;
  has_decoded_checksum = i.has_decoded_checksum;
  has_encoded_checksum = i.has_encoded_checksum;
  has_comment = i.has_comment;
  comment = i.comment;
  dictionary_bundle_id = i.dictionary_bundle_id;
}
