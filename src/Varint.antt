-- ===== src/Varint.antt =====
-- crates/decode/src/varint.rs: unsigned LEB128 of at most ten bytes.
pub mod Bounds
pub mod RoundTrip
use ozlrip.Prelude.{
  ℕ, zero, suc, ◌+◌, ◌*◌, ◌^◌, ◌%◌, bit_and, bit_or, ◌&&◌, none, some, ltb, ◌==◌, if◌then◌else◌,
  get_elem?,
}
use ozlrip.Core.{
  Bytes, error_at, truncated, malformed, integer_overflow, Result, ok, err, usize_mod, u64_mod,
}

-- `value |= payload << (7 * index)`
abbrev pub add_payload : ℕ → ℕ → ℕ → ℕ
add_payload value payload index = bit_or value (payload * 2 ^ (7 * index) % u64_mod)

-- The rounds `index..10`, of which `left` remain. The result is the value and the new offset.
unfoldable pub read_var_loop : ℕ → Bytes → ℕ → ℕ → ℕ → Result (ℕ × ℕ)
read_var_loop zero bytes start index value = err (error_at malformed start)
read_var_loop (suc left) bytes start index value =
    if ltb (start + index) usize_mod
    then (elim (get_elem? bytes (start + index)) [
      | none ↦ err (error_at truncated (start + index))
      | some byte ↦
          let payload = bit_and byte 0x7f in
          let value' = add_payload value payload index in
          let rest = read_var_loop left bytes start (index + 1) value' in
          if index == 9 && ltb 1 payload
          then err (error_at integer_overflow start)
          else if bit_and byte 0x80 == 0
          then ok (value', start + index + 1)
          else rest
    ])
    else err (error_at integer_overflow start)

unfoldable pub read_var_u64 : Bytes → ℕ → Result (ℕ × ℕ)
read_var_u64 bytes offset = read_var_loop 10 bytes offset 0 0
