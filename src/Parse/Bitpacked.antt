-- ===== src/Parse/Bitpacked.antt =====
-- crates/decode/src/parse/reader.rs: bit-packed fields read at the cursor.
pub mod Tame
use ozlrip.Prelude.{ℕ, ◌-◌, ◌^◌, bit_and, List, ltb, ◌==◌, if◌then◌else◌}
use ozlrip.Core.{error, malformed, fail_if}
use ozlrip.Parse.Reader.{Read, ◌>>=◌, ◌>>◌, pure, lift, read_slice, read_byte, for_range}
use ozlrip.Parse.Packed.{bitpacked_bytes, read_packed_value}

unfoldable pub read_bitpacked_u32 : ℕ → ℕ → Read (List ℕ)
read_bitpacked_u32 count bits = do
  lift (fail_if (ltb 32 bits) (error malformed))
  bytes ← lift (bitpacked_bytes count bits)
  packed ← read_slice bytes
  for_range (λ index. lift (read_packed_value packed index bits)) 0 count

-- The same over a `SmallVec`.
unfoldable pub read_bitpacked_u32_inline : ℕ → ℕ → Read (List ℕ)
read_bitpacked_u32_inline count bits = do
  lift (fail_if (ltb 32 bits) (error malformed))
  bytes ← lift (bitpacked_bytes count bits)
  packed ← read_slice bytes
  for_range (λ index. lift (read_packed_value packed index bits)) 0 count

unfoldable pub read_bitpacked_single_u32 : ℕ → Read ℕ
read_bitpacked_single_u32 bits = do
  lift (fail_if (ltb 32 bits) (error malformed))
  bytes ← lift (bitpacked_bytes 1 bits)
  packed ← read_slice bytes
  lift (read_packed_value packed 0 bits)

unfoldable pub read_single_low_bits_u32 : ℕ → Read ℕ
read_single_low_bits_u32 bits =
    if ltb 8 bits
    then read_bitpacked_single_u32 bits
    else if bits == 0
    then pure 0
    else do byte ← read_byte; pure (bit_and byte (2 ^ bits - 1))
