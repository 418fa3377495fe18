-- ===== src/Parse/Frame.antt =====
-- crates/decode/src/parse.rs: the frame header, the scan of a whole frame, and the entry points.
pub mod Tame
pub mod Totals
pub mod Outputs
use ozlrip.Prelude.{
  ℕ, ◌+◌, Bool, not, ◌&&◌, List, [], ◌∷◌, Option, none, some, ltb, leb, ◌==◌, if◌then◌else◌, length,
  take,
}
use ozlrip.Core.{Bytes, error_at, malformed, Limits, Result, ok, err, fail_if}
use ozlrip.Core
use ozlrip.Info.{FrameInfo, FrameHeaderInfo}
use ozlrip.Parse.Reader.{
  Reader, Read, ◌>>=◌, ◌>>◌, pure, lift, offset, slice_input, read_byte, read_u32_le,
}
use ozlrip.Parse.Packed.{check_limit}
use ozlrip.Parse.Plan.{FramePlan, FramePlanInfo, chunk_version_min}
use ozlrip.Parse.Header.{
  format_version_from_magic, read_bundle_id, OutputHeader, read_output_header,
}
use ozlrip.Parse.Sizes.{
  OutputSizes, read_output_sizes, read_comment, verify_header_checksum, FrameFlags, default_flags,
  flags_from_byte, has_decoded_checksum, has_encoded_checksum, has_comment, has_bundle_id,
}
use ozlrip.Parse.Chunk.{ChunkScan, read_chunks}

pub record FrameHeader : Type 0 where
  pub format_version : ℕ
  pub flags : FrameFlags
  pub dictionary_bundle_id : Option Bytes
  pub output_header : OutputHeader
  pub output_sizes : OutputSizes
  pub comment : Option Bytes
  pub header_bytes : ℕ

abbrev is_some : Option Bytes → Bool
is_some none = Bool.false
is_some (some _) = Bool.true

unfoldable pub frame_plan : FrameHeader → ChunkScan → ℕ → FramePlan
frame_plan h scan frame_bytes = record {
  info = record {
    format_version = h.format_version;
    frame_bytes = frame_bytes;
    header_bytes = h.header_bytes;
    decoded_bytes = h.output_sizes.decoded_bytes;
    chunks = scan.summary.chunks;
    outputs = h.output_header.outputs;
    output_types = h.output_header.output_types;
    output_sizes = h.output_sizes.sizes;
    output_elements = h.output_sizes.elements;
    transforms = scan.summary.transforms;
    stored_streams = scan.summary.stored_streams;
    regenerated_streams = scan.summary.regenerated_streams;
    has_decoded_checksum = has_decoded_checksum scan.flags;
    has_encoded_checksum = has_encoded_checksum scan.flags;
    has_comment = has_comment h.flags;
    comment = h.comment;
    dictionary_bundle_id = h.dictionary_bundle_id;
  };
  chunks = scan.chunks;
}

module _ (xxh3 : Bytes → ℕ) where
  -- The checksum of the header covers the input up to the checksum.
  unfoldable pub check_header_checksum : Bool → Read (Unit {0})
  check_header_checksum verify_compressed = do
    checksum_offset ← offset
    expected ← read_byte
    if verify_compressed
        then (do
          covered ← slice_input checksum_offset
          lift (verify_header_checksum xxh3 covered expected checksum_offset))
        else pure tt

  unfoldable pub read_frame_header : Limits → Bool → Read FrameHeader
  read_frame_header limits verify_compressed = do
    magic ← read_u32_le
    format_version ← lift (format_version_from_magic magic)
    flags ←
        (if leb chunk_version_min format_version
          then (do byte ← read_byte; pure (flags_from_byte byte format_version))
          else pure default_flags)
    dictionary_bundle_id ←
        (if has_bundle_id flags then (do id ← read_bundle_id; pure (some id)) else pure none)
    output_header ← read_output_header format_version limits
    output_sizes ← read_output_sizes output_header.output_types format_version limits
    comment ← (if has_comment flags then (do text ← read_comment; pure (some text)) else pure none)
    if leb chunk_version_min format_version && has_encoded_checksum flags
        then check_header_checksum verify_compressed
        else pure tt
    header_bytes ← offset
    pure (record {
      format_version = format_version;
      flags = flags;
      dictionary_bundle_id = dictionary_bundle_id;
      output_header = output_header;
      output_sizes = output_sizes;
      comment = comment;
      header_bytes = header_bytes;
    })

  -- `scan_frame` on the reader; `frame_bytes` is the offset behind the last chunk.
  unfoldable pub scan : Limits → Bool → Read FramePlan
  scan limits verify_compressed = do
    h ← read_frame_header limits verify_compressed
    chunks ←
        read_chunks xxh3 h.format_version h.flags (is_some h.dictionary_bundle_id) limits
          verify_compressed
    frame_bytes ← offset
    pure (frame_plan h chunks frame_bytes)
