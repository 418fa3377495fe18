-- ===== src/Parse/Entry.antt =====
-- crates/decode/src/parse.rs: the entry points of the parser.
pub mod Scan
pub mod Unverified
pub mod Stream
use ozlrip.Prelude.{ℕ, Bool, not, false, ◌==◌, length}
use ozlrip.Core.{
  Bytes, error_at, malformed, Limits, Result, ok, err, panic, stuck, ◌>>=◌, ◌>>◌, fail_if,
}
use ozlrip.Info.{FrameInfo, FrameHeaderInfo}
use ozlrip.Parse.Reader.{Reader, Read}
use ozlrip.Parse.Packed.{check_limit}
use ozlrip.Parse.Plan.{FramePlan, into_public_info}
use ozlrip.Parse.Frame.{FrameHeader, read_frame_header, scan}
use ozlrip.Parse.Validate.{validate_frame_plan}

-- `Reader::new(input)`
abbrev pub new_reader : Bytes → Reader
new_reader input = record { bytes = input; offset = 0 }

-- What a read from the start of `input` gives.
abbrev pub value : {A : Type 0} → Result (A × Reader) → Result A
value (ok (a, r)) = ok a
value (err e) = err e
value panic = panic
value stuck = stuck

unfoldable pub header_info : FrameHeader → FrameHeaderInfo
header_info h = record {
  format_version = h.format_version;
  header_bytes = h.header_bytes;
  decoded_bytes = h.output_sizes.decoded_bytes;
  outputs = h.output_header.outputs;
  output_types = h.output_header.output_types;
  output_sizes = h.output_sizes.sizes;
  output_elements = h.output_sizes.elements;
  comment = h.comment;
  dictionary_bundle_id = h.dictionary_bundle_id;
}

-- `xxh3` is `xxhash_rust::xxh3::xxh3_64`.
module _ (xxh3 : Bytes → ℕ) where
  unfoldable pub scan_frame : Bytes → Limits → Bool → Result FramePlan
  scan_frame input limits verify_compressed =
      value (scan xxh3 limits verify_compressed (new_reader input))

  unfoldable pub inspect_header : Bytes → Limits → Bool → Result FrameHeaderInfo
  inspect_header input limits verify_compressed = do
    h ← value (read_frame_header xxh3 limits verify_compressed (new_reader input))
    ok (header_info h)

  unfoldable pub parse_frame : Bytes → Limits → Bool → Result FramePlan
  parse_frame input limits verify_compressed = do
    check_limit (length input) limits.max_frame_bytes
    plan ← scan_frame input limits verify_compressed
    fail_if (not (plan.info.frame_bytes == length input)) (error_at malformed plan.info.frame_bytes)
    validate_frame_plan plan limits
    ok plan

  unfoldable pub inspect_frame : Bytes → Limits → Bool → Result FrameInfo
  inspect_frame input limits verify_compressed = do
    plan ← parse_frame input limits verify_compressed
    ok (into_public_info plan.info)

  unfoldable pub frame_size : Bytes → Limits → Result ℕ
  frame_size input limits = do
    plan ← scan_frame input limits false
    check_limit plan.info.frame_bytes limits.max_frame_bytes
    ok plan.info.frame_bytes
