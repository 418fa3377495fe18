-- ===== src/Parse/Packed.antt =====
-- crates/decode/src/parse/reader.rs: bit-packed values, bit widths, limits and sums.
pub mod Safe
pub mod Width
use ozlrip.Prelude.{
  ℕ, zero, suc, ◌+◌, ◌-◌, ◌*◌, ◌/◌, ◌%◌, ◌^◌, bit_and, bit_or, List, [], ◌∷◌, ltb, leb, ◌==◌,
  if◌then◌else◌, get_elem?,
}
use ozlrip.Core.{
  Bytes, error, error_at, truncated, malformed, limit_exceeded, integer_overflow, Limits, Result,
  ok, ok_or, ◌>>=◌, ◌>>◌, checked_add_u64, fail_if, checked_add, checked_mul, usize_from, u32_from,
  u64_mod,
}

-- The detail text and the name of the limit are left out.
unfoldable pub check_limit : ℕ → ℕ → Result (Unit {0})
check_limit value limit = fail_if (ltb limit value) (error limit_exceeded)

unfoldable pub check_format_limit : ℕ → ℕ → Result (Unit {0})
check_format_limit value limit = fail_if (ltb limit value) (error malformed)

unfoldable pub bitpacked_bytes : ℕ → ℕ → Result ℕ
bitpacked_bytes count bits = do
  product ← checked_mul count bits
  total ← checked_add product 7
  ok (total / 8)

-- The number of binary digits of `n`, with fuel: `64 - n.leading_zeros()` for `n` below 2 ^ 64.
unfoldable pub bit_length : ℕ → ℕ → ℕ
bit_length zero n = 0
bit_length (suc fuel) n = let rest = bit_length fuel (n / 2) in if n == 0 then 0 else rest + 1

unfoldable pub bits_needed : ℕ → ℕ
unfolding bit_length
bits_needed max_value = if leb max_value 1 then 0 else bit_length 64 (max_value - 1)

-- The rounds `offset..needed_bytes`, of which `left` remain.
unfoldable pub gather_word : ℕ → Bytes → ℕ → ℕ → ℕ → Result ℕ
gather_word zero bytes byte_start offset word = ok word
gather_word (suc left) bytes byte_start offset word = do
  position ← checked_add byte_start offset
  byte ← ok_or (get_elem? bytes position) (error truncated)
  product ← checked_mul offset 8
  shift ← u32_from product (error integer_overflow)
  gather_word left bytes byte_start (offset + 1) (bit_or word (byte * 2 ^ shift % u64_mod))

unfoldable pub read_packed_value : Bytes → ℕ → ℕ → Result ℕ
read_packed_value bytes index bits = if bits == 0 then ok 0 else do
  bit_offset ← checked_mul index bits
  needed_bits ← checked_add bits (bit_offset % 8)
  needed_bytes ← bitpacked_bytes 1 needed_bits
  word ← gather_word needed_bytes bytes (bit_offset / 8) 0 0
  let mask = if bits == 32 then 2 ^ 32 - 1 else 2 ^ bits - 1
  u32_from (bit_and (word / 2 ^ (bit_offset % 8)) mask) (error integer_overflow)

sum_loop : ℕ → List ℕ → Result ℕ
sum_loop total [] = ok total
sum_loop total (v ∷ vs) = do t ← checked_add total v; sum_loop t vs

unfoldable pub sum_usize : List ℕ → Result ℕ
unfolding sum_loop
sum_usize values = sum_loop 0 values

sum_u32_loop : ℕ → List ℕ → Result ℕ
sum_u32_loop total [] = ok total
sum_u32_loop total (v ∷ vs) = do
  value ← usize_from v (error limit_exceeded)
  t ← checked_add total value
  sum_u32_loop t vs

unfoldable pub sum_u32_as_usize : List ℕ → Result ℕ
unfolding sum_u32_loop
sum_u32_as_usize values = sum_u32_loop 0 values

-- crates/decode/src/parse/header.rs: checks one declared output size, and gives the new total.
unfoldable pub add_output_size : ℕ → ℕ → ℕ → Limits → Result ℕ
add_output_size total size at limits = do
  size_usize ← usize_from size (error_at limit_exceeded at)
  check_limit size_usize limits.max_buffer_bytes
  total' ← checked_add total size_usize
  check_limit total' limits.max_decoded_bytes
  ok total'

-- crates/decode/src/parse/chunk.rs: a field that is stored less `shift`.
unfoldable pub read_shifted_u32 : ℕ → ℕ → ℕ → ℕ → Result ℕ
read_shifted_u32 raw shift at max_raw = do
  fail_if (leb max_raw raw) (error_at malformed at)
  shifted ← checked_add_u64 raw shift (error_at integer_overflow at)
  u32_from shifted (error_at malformed at)
