-- ===== src/Parse/Packed/Safe.antt =====
-- The bit arithmetic, the limits and the sums neither panic nor run out of fuel.
use ozlrip.Prelude.{ℕ, zero, suc, List, [], ◌∷◌}
use ozlrip.Core.{Bytes, Limits}
use ozlrip.Core.Safe.{IsSafe, IsSafe-ok, safe_rules}
use ozlrip.Parse.Packed.{
  check_limit, check_format_limit, bitpacked_bytes, gather_word, read_packed_value, sum_loop,
  sum_usize, sum_u32_loop, sum_u32_as_usize, add_output_size, read_shifted_u32,
}

pub IsSafe-check_limit : (value limit : ℕ) → IsSafe (check_limit value limit)
unfolding check_limit
IsSafe-check_limit value limit = search safe_rules

pub IsSafe-check_format_limit : (value limit : ℕ) → IsSafe (check_format_limit value limit)
unfolding check_format_limit
IsSafe-check_format_limit value limit = search safe_rules

pub IsSafe-bitpacked_bytes : (count bits : ℕ) → IsSafe (bitpacked_bytes count bits)
unfolding bitpacked_bytes
IsSafe-bitpacked_bytes count bits = search safe_rules

IsSafe-gather_word :
    (left : ℕ) (bytes : Bytes) (byte_start offset word : ℕ)
    → IsSafe (gather_word left bytes byte_start offset word)
unfolding gather_word
IsSafe-gather_word zero bytes byte_start offset word = IsSafe-ok word
IsSafe-gather_word (suc left) bytes byte_start offset word =
    search (safe_rules, IsSafe-gather_word left) depth 12

pub IsSafe-read_packed_value :
    (bytes : Bytes) (index bits : ℕ) → IsSafe (read_packed_value bytes index bits)
unfolding read_packed_value
IsSafe-read_packed_value bytes index bits =
    search (safe_rules, IsSafe-bitpacked_bytes, IsSafe-gather_word) depth 12

IsSafe-sum_loop : (total : ℕ) (values : List ℕ) → IsSafe (sum_loop total values)
unfolding sum_loop
IsSafe-sum_loop total [] = IsSafe-ok total
IsSafe-sum_loop total (v ∷ vs) = search (safe_rules, λ (t : ℕ). IsSafe-sum_loop t vs)

pub IsSafe-sum_usize : (values : List ℕ) → IsSafe (sum_usize values)
unfolding sum_usize
IsSafe-sum_usize values = IsSafe-sum_loop 0 values

IsSafe-sum_u32_loop : (total : ℕ) (values : List ℕ) → IsSafe (sum_u32_loop total values)
unfolding sum_u32_loop
IsSafe-sum_u32_loop total [] = IsSafe-ok total
IsSafe-sum_u32_loop total (v ∷ vs) =
    search (safe_rules, λ (t : ℕ). IsSafe-sum_u32_loop t vs) depth 8

pub IsSafe-sum_u32_as_usize : (values : List ℕ) → IsSafe (sum_u32_as_usize values)
unfolding sum_u32_as_usize
IsSafe-sum_u32_as_usize values = IsSafe-sum_u32_loop 0 values

pub IsSafe-add_output_size :
    (total size at : ℕ) (limits : Limits) → IsSafe (add_output_size total size at limits)
unfolding add_output_size
IsSafe-add_output_size total size at limits = search (safe_rules, IsSafe-check_limit) depth 12

pub IsSafe-read_shifted_u32 :
    (raw shift at max_raw : ℕ) → IsSafe (read_shifted_u32 raw shift at max_raw)
unfolding read_shifted_u32
IsSafe-read_shifted_u32 raw shift at max_raw = search safe_rules depth 8

pub ruleset packed_rules = (
  IsSafe-check_limit, IsSafe-check_format_limit, IsSafe-bitpacked_bytes, IsSafe-read_packed_value,
  IsSafe-sum_usize, IsSafe-sum_u32_as_usize, IsSafe-add_output_size, IsSafe-read_shifted_u32,
)
