-- ===== src/Parse/Header.antt =====
-- crates/decode/src/parse/header.rs: the fields of a frame's header.
pub mod Tame
use ozlrip.Prelude.{
  ℕ, zero, suc, ◌+◌, ◌-◌, ◌*◌, ◌/◌, ◌%◌, ◌^◌, min, bit_and, Bool, true, ◌&&◌, List, [], ◌∷◌, ◌++◌,
  Option, none, some, ltb, leb, ◌==◌, if◌then◌else◌, get_elem?, length,
}
use ozlrip.Core.{
  Bytes, Error, error, error_at, truncated, malformed, unsupported, limit_exceeded,
  checksum_mismatch, invalid_type, integer_overflow, Limits, Result, ok, err, ok_or, index, fail_if,
  checked_add, checked_mul, usize_from,
}
use ozlrip.Info.{FrameValueType, serial, struct, numeric, string}
use ozlrip.Parse.Reader.{
  Read, ◌>>=◌, ◌>>◌, pure, fail, lift, offset, get_input, index_input, read_slice, peek_byte,
  read_byte, read_u16_le, read_u32_le, read_var_u64, for_each, for_range,
}
use ozlrip.Parse.Packed.{check_limit, check_format_limit}
use ozlrip.Parse.Plan.{
  magic_base, min_format_version, max_format_version, chunk_version_min, comment_version_min,
  materialized_dict_version_min, max_header_comment_bytes, unique_id_bytes,
}

unfoldable pub format_version_from_magic : ℕ → Result ℕ
format_version_from_magic magic =
    if ltb magic magic_base
    then err (error_at unsupported 0)
    else if leb min_format_version (magic - magic_base)
        && leb (magic - magic_base) max_format_version
    then ok (magic - magic_base)
    else err (error_at unsupported 0)

unfoldable pub all_zero : Bytes → Bool
all_zero [] = true
all_zero (b ∷ bs) = b == 0 && all_zero bs

unfoldable pub read_bundle_id : Read Bytes
unfolding all_zero
read_bundle_id = do
  start ← offset
  len ← read_byte
  lift (fail_if (len == 0) (error_at malformed start))
  lift (fail_if (ltb unique_id_bytes len) (error_at malformed start))
  id ← read_slice len
  lift (fail_if (all_zero id) (error_at malformed start))
  pure id

unfoldable pub runtime_input_limit : ℕ → ℕ
runtime_input_limit format_version = if leb format_version 14 then 1 else 2048

-- One more step of the v15 output count: at `full` a byte or more adds to it.
unfoldable pub widen_count : ℕ → ℕ → Read ℕ → Read ℕ
widen_count full outputs more =
    if outputs == full then (do extra ← more; pure (extra + full)) else pure outputs

unfoldable pub read_output_count : ℕ → Read ℕ
unfolding widen_count
read_output_count format_version =
    if leb format_version 14
    then (if format_version == 14 then (do _ ← read_byte; pure 1) else pure 1)
    else if ltb format_version chunk_version_min
    then (do
      token1 ← read_byte
      a ← widen_count 4 (token1 / 2 ^ 6 + 1) (do token2 ← read_byte; pure (token2 / 2 ^ 4))
      b ← widen_count 19 a read_byte
      widen_count 274 b read_u16_le)
    else do
      token1 ← read_byte
      if bit_and token1 0x0f == 15
          then (do token2 ← read_byte; pure (token2 * 2 ^ 4 + token1 / 2 ^ 4 + 15))
          else pure (bit_and token1 0x0f)

unfoldable pub decode_type : ℕ → ℕ → Result FrameValueType
decode_type encoded at =
    if encoded == 0
    then ok serial
    else if encoded == 1
    then ok struct
    else if encoded == 2
    then ok numeric
    else if encoded == 3
    then ok string
    else err (error_at invalid_type at)

unfoldable pub read_v14_output_type : Read FrameValueType
read_v14_output_type = do
  encoded ← get_input 4 (error_at truncated 4)
  lift (fail_if (ltb 3 encoded) (error_at invalid_type 4))
  lift (decode_type encoded 4)

-- The rounds `n..outputs` of `read_packed_types`, of which `left` remain; `token` is the byte being
-- taken apart. The result is what the loop pushes.
unfoldable pub packed_types_loop : ℕ → ℕ → ℕ → ℕ → Read (List FrameValueType)
packed_types_loop zero n done token = pure []
packed_types_loop (suc left) n done token = do
  shift ← lift (checked_mul ((n - done) % 4) 2)
  at ← offset
  token' ← (if shift == 0 then read_byte else pure token)
  kind ← lift (decode_type (bit_and (token' / 2 ^ shift) 3) at)
  kinds ← packed_types_loop left (n + 1) done token'
  pure (kind ∷ kinds)

unfoldable pub read_packed_types : ℕ → ℕ → Read (List FrameValueType)
unfolding packed_types_loop
read_packed_types outputs done = packed_types_loop (outputs - done) done done 0

-- v15 to v20: three types in the byte after the magic, two in the next, then four per byte.
unfoldable pub read_v15_output_types : ℕ → Read (List FrameValueType)
read_v15_output_types outputs = do
  first ←
      for_range
        (λ n. do
          shift ← lift (checked_mul n 2)
          byte ← index_input 4
          lift (decode_type (bit_and (byte / 2 ^ shift) 3) 4))
        0 (min outputs 3)
  second ←
      (if ltb 3 outputs
        then (do
          token ← get_input 5 (error_at truncated 5)
          for_range
              (λ n. do
                shift ← lift (checked_mul (n - 3) 2)
                lift (decode_type (bit_and (token / 2 ^ shift) 3) 5))
              3 (min outputs 5 - 3))
        else pure [])
  third ← (if ltb 5 outputs then read_packed_types outputs 5 else pure [])
  pure (first ++ (second ++ third))

-- v21 and later: up to 14 outputs keep two types in the high bits of the output count byte.
unfoldable pub read_v21_output_types : ℕ → Read (List FrameValueType)
read_v21_output_types outputs =
    if leb outputs 14
    then (do
      at ← offset
      lift (fail_if (at == 0) (error_at integer_overflow at))
      token ← get_input (at - 1) (error_at truncated (at - 1))
      first ←
          for_range
            (λ n. do
              product ← lift (checked_mul n 2)
              shift ← lift (checked_add product 4)
              lift (decode_type (bit_and (token / 2 ^ shift) 3) (at - 1)))
            0 (min outputs 2)
      if leb outputs 2
          then pure first
          else (do rest ← read_packed_types outputs (length first); pure (first ++ rest)))
    else read_packed_types outputs 0

unfoldable pub read_output_types : ℕ → ℕ → Read (List FrameValueType)
read_output_types outputs format_version =
    if ltb format_version 14
    then pure (serial ∷ [])
    else if format_version == 14
    then (do kind ← read_v14_output_type; pure (kind ∷ []))
    else if ltb format_version chunk_version_min
    then read_v15_output_types outputs
    else read_v21_output_types outputs

pub record OutputHeader : Type 0 where
  pub outputs : ℕ
  pub output_types : List FrameValueType

unfoldable pub read_output_header : ℕ → Limits → Read OutputHeader
read_output_header format_version limits = do
  outputs ← read_output_count format_version
  lift (check_format_limit outputs (runtime_input_limit format_version))
  lift (check_limit outputs limits.max_streams)
  at ← offset
  lift (fail_if (outputs == 0) (error_at malformed at))
  output_types ← read_output_types outputs format_version
  pure (record { outputs = outputs; output_types = output_types })
