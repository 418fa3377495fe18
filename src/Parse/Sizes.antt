-- ===== src/Parse/Sizes.antt =====
-- crates/decode/src/parse/header.rs: the declared output sizes, the comment, the header checksum and
-- the frame flags.
pub mod Tame
use ozlrip.Prelude.{
  ℕ, ◌+◌, ◌-◌, ◌%◌, ◌^◌, Bool, not, bit_and, bit_or, List, [], ◌∷◌, Option, none, some, ltb, leb,
  ◌==◌, if◌then◌else◌,
}
use ozlrip.Core.{
  Bytes, error_at, malformed, unsupported, limit_exceeded, checksum_mismatch, Limits, Result, ok,
  index, fail_if, checked_add, usize_from,
}
use ozlrip.Info.{FrameValueType, serial, struct, numeric, string}
use ozlrip.Parse.Reader.{
  Read, ◌>>=◌, ◌>>◌, pure, lift, offset, read_slice, peek_byte, read_u32_le, read_var_u64,
}
use ozlrip.Parse.Packed.{add_output_size}
use ozlrip.Parse.Plan.{
  chunk_version_min, comment_version_min, materialized_dict_version_min, max_header_comment_bytes,
}

elements_of : FrameValueType → ℕ → Option ℕ
elements_of serial size = some size
elements_of _ size = none

-- Before v21 each output size is a little-endian u32. The result is the total, the sizes and the
-- element counts.
unfoldable pub read_u32_output_sizes :
    ℕ → List FrameValueType → Limits → Read (ℕ × List (Option ℕ) × List (Option ℕ))
unfolding elements_of
read_u32_output_sizes total [] limits = pure (total, [], [])
read_u32_output_sizes total (value_type ∷ types) limits = do
  size ← read_u32_le
  at ← offset
  total' ← lift (add_output_size total size at limits)
  (last, sizes, elements) ← read_u32_output_sizes total' types limits
  pure (last, some size ∷ sizes, elements_of value_type size ∷ elements)

-- The first loop of `read_varint_output_sizes`: each size is a varint holding the size plus one.
unfoldable pub varint_sizes_loop : ℕ → List FrameValueType → Limits → Read (ℕ × List (Option ℕ))
varint_sizes_loop total [] limits = pure (total, [])
varint_sizes_loop total (value_type ∷ types) limits = do
  encoded ← read_var_u64
  at ← offset
  lift (fail_if (encoded == 0) (error_at malformed at))
  total' ← lift (add_output_size total (encoded - 1) at limits)
  (last, sizes) ← varint_sizes_loop total' types limits
  pure (last, some (encoded - 1) ∷ sizes)

-- One round of the second loop, at position `idx` of the outputs.
unfoldable pub read_elements : FrameValueType → List (Option ℕ) → ℕ → Read (Option ℕ)
read_elements serial sizes idx = lift (index sizes idx)
read_elements string sizes idx = do count ← read_var_u64; pure (some count)
read_elements struct sizes idx = pure none
read_elements numeric sizes idx = pure none

unfoldable pub varint_elements_loop :
    ℕ → List FrameValueType → List (Option ℕ) → Read (List (Option ℕ))
varint_elements_loop idx [] sizes = pure []
varint_elements_loop idx (value_type ∷ types) sizes = do
  count ← read_elements value_type sizes idx
  counts ← varint_elements_loop (idx + 1) types sizes
  pure (count ∷ counts)

-- From v21: the sizes, and for string outputs their string counts.
unfoldable pub read_varint_output_sizes :
    List FrameValueType → Limits → Read (ℕ × List (Option ℕ) × List (Option ℕ))
read_varint_output_sizes types limits = do
  first ← peek_byte
  at ← offset
  lift (fail_if (first == 0) (error_at unsupported at))
  (total, sizes) ← varint_sizes_loop 0 types limits
  elements ← varint_elements_loop 0 types sizes
  pure (total, sizes, elements)

pub record OutputSizes : Type 0 where
  pub sizes : List (Option ℕ)
  pub elements : List (Option ℕ)
  pub decoded_bytes : Option ℕ

unfoldable pub read_output_sizes : List FrameValueType → ℕ → Limits → Read OutputSizes
read_output_sizes types format_version limits = do
  (total, sizes, elements) ←
      (if ltb format_version chunk_version_min
        then read_u32_output_sizes 0 types limits
        else read_varint_output_sizes types limits)
  pure (record { sizes = sizes; elements = elements; decoded_bytes = some total })

unfoldable pub read_comment : Read Bytes
read_comment = do
  at ← offset
  len ← read_var_u64
  lift (fail_if (len == 0) (error_at malformed at))
  lift (fail_if (ltb max_header_comment_bytes len) (error_at limit_exceeded at))
  size ← lift (usize_from len (error_at limit_exceeded at))
  read_slice size

-- `xxh3` is `xxhash_rust::xxh3::xxh3_64`.
unfoldable pub verify_header_checksum : (xxh3 : Bytes → ℕ) → Bytes → ℕ → ℕ → Result (Unit {0})
verify_header_checksum xxh3 bytes expected at =
    fail_if (not (bit_and (xxh3 bytes) 0xff % 2 ^ 8 == expected)) (error_at checksum_mismatch at)

pub record FrameFlags : Type 0 where
  pub bits : ℕ

abbrev pub default_flags : FrameFlags
default_flags = record { bits = 0 }

unfoldable pub flags_from_byte : ℕ → ℕ → FrameFlags
flags_from_byte flags format_version =
    let normalized = bit_and flags 3 in
    let commented =
      if leb comment_version_min format_version
      then bit_or normalized (bit_and flags (2 ^ 2))
      else normalized in
    record {
      bits =
          if leb materialized_dict_version_min format_version
          then bit_or commented (bit_and flags (2 ^ 3))
          else commented;
    }

unfoldable pub has_decoded_checksum : FrameFlags → Bool
has_decoded_checksum flags = not (bit_and flags.bits (2 ^ 0) == 0)

unfoldable pub has_encoded_checksum : FrameFlags → Bool
has_encoded_checksum flags = not (bit_and flags.bits (2 ^ 1) == 0)

unfoldable pub has_comment : FrameFlags → Bool
has_comment flags = not (bit_and flags.bits (2 ^ 2) == 0)

unfoldable pub has_bundle_id : FrameFlags → Bool
has_bundle_id flags = not (bit_and flags.bits (2 ^ 3) == 0)
