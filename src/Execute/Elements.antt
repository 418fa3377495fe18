-- ===== src/Execute/Elements.antt =====
-- crates/decode/src/execute/elements.rs: little-endian elements of 1, 2, 4 or 8 bytes, and varints.
pub mod Words
pub mod Values
use ozlrip.Varint
use ozlrip.Prelude.{
  leb, ◌==◌, if◌then◌else◌, length, get_elem?, take, drop, get_range, ℕ, zero, suc, ◌+◌, ◌-◌, ◌*◌,
  ◌/◌, ◌%◌, ◌^◌, Bool, not, ◌&&◌, ◌||◌, List, [], ◌∷◌, ◌++◌,
}
use ozlrip.Core.{
  Bytes, ErrorKind, truncated, malformed, limit_exceeded, invalid_type, Error, error, Result, ok,
  err, panic, ◌>>=◌, ◌>>◌, fail_if, ok_or, checked_add, checked_mul, plus, usize_from,
}
use ozlrip.Execute.Streams.{StreamInput}

-- `from_le_bytes` and `to_le_bytes`; the second keeps the low bytes, as `as u16` and `as u32` do.
abbrev pub from_le_bytes : Bytes → ℕ
from_le_bytes [] = 0
from_le_bytes (b ∷ bs) = b + 256 * from_le_bytes bs

abbrev pub to_le_bytes : ℕ → ℕ → Bytes
to_le_bytes zero value = []
to_le_bytes (suc w) value = value % 256 ∷ to_le_bytes w (value / 256)

-- `bytes.chunks_exact(w)`, of which there are `count`.
abbrev pub chunks : ℕ → ℕ → Bytes → List Bytes
chunks zero w bytes = []
chunks (suc count) w bytes = take w bytes ∷ chunks count w (drop w bytes)

unfoldable pub chunks_exact : ℕ → Bytes → List Bytes
chunks_exact w bytes = chunks (length bytes / w) w bytes

abbrev malformed_where_truncated : ErrorKind → Error → Error
malformed_where_truncated truncated e = error malformed
malformed_where_truncated _ e = e

abbrev pub map_err : Result (ℕ × ℕ) → Result (ℕ × ℕ)
map_err (err e) = err (malformed_where_truncated e.kind e)
map_err m = m

unfoldable pub read_var_u64 : Bytes → ℕ → Result (ℕ × ℕ)
read_var_u64 bytes offset = map_err (Varint.read_var_u64 bytes offset)

-- `matches!(element_width, 1 | 2 | 4 | 8)`
unfoldable pub is_numeric_width : ℕ → Bool
is_numeric_width w = w == 1 || (w == 2 || (w == 4 || w == 8))

unfoldable pub max_numeric_value : ℕ → Result ℕ
max_numeric_value w = if is_numeric_width w then ok (2 ^ (8 * w) - 1) else err (error invalid_type)

unfoldable pub read_numeric_element : Bytes → ℕ → ℕ → Result ℕ
read_numeric_element bytes w i = do
  start ← checked_mul i w
  end ← plus start w
  element ← ok_or (get_range bytes start end) (error malformed)
  if leb w 8 then ok (from_le_bytes element) else panic

-- What `write_numeric_element` puts at the start of `dst`, which panics where `dst` is shorter.
unfoldable pub write_numeric_element : Bytes → ℕ → ℕ → Result Bytes
write_numeric_element dst w value =
    if leb w (length dst) && leb w 8 then ok (to_le_bytes w value ++ drop w dst) else panic

unfoldable pub read_element : Bytes → Result ℕ
read_element element =
    if is_numeric_width (length element) then ok (from_le_bytes element) else panic

unfoldable pub push_numeric_element : Bytes → ℕ → ℕ → Result Bytes
push_numeric_element output w value =
    if is_numeric_width w then ok (output ++ to_le_bytes w value) else panic

unfoldable pub validate_numeric_stream_width : ℕ → Result (Unit {0})
validate_numeric_stream_width w = if is_numeric_width w then ok tt else err (error invalid_type)

-- `n.is_multiple_of(w)`, which holds at 0 of 0 alone.
abbrev pub is_multiple_of : ℕ → ℕ → Bool
is_multiple_of n w = if w == 0 then n == 0 else n % w == 0

-- Division by zero panics.
unfoldable pub numeric_element_count : Bytes → ℕ → Result ℕ
numeric_element_count bytes w = do
  fail_if (not (is_multiple_of (length bytes) w)) (error malformed)
  if w == 0 then panic else ok (length bytes / w)

unfoldable pub read_u16_element : Bytes → ℕ → Result ℕ
read_u16_element bytes i = do
  start ← checked_mul i 2
  end ← plus start 2
  element ← ok_or (get_range bytes start end) (error malformed)
  ok (from_le_bytes element)

unfoldable pub read_u32_element : Bytes → ℕ → Result ℕ
read_u32_element bytes i = do
  start ← checked_mul i 4
  end ← plus start 4
  element ← ok_or (get_range bytes start end) (error malformed)
  ok (from_le_bytes element)

unfoldable pub read_u64_element : Bytes → ℕ → Result ℕ
read_u64_element bytes start = do
  end ← plus start 8
  element ← ok_or (get_range bytes start end) (error malformed)
  usize_from (from_le_bytes element) (error limit_exceeded)

-- The widths of `read_usize_numeric_element` in turn.
unfoldable pub read_usize_numeric_element : Bytes → ℕ → ℕ → Result ℕ
read_usize_numeric_element bytes w i = do
  start ← checked_mul i w
  if w == 1
      then ok_or (get_elem? bytes start) (error malformed)
      else if w == 2
      then read_u16_element bytes i
      else if w == 4
      then (read_u32_element bytes i >>= λ value. usize_from value (error limit_exceeded))
      else if w == 8
      then read_u64_element bytes start
      else err (error invalid_type)

unfoldable pub sum_from : ℕ → List ℕ → Result ℕ
sum_from total [] = ok total
sum_from total (raw ∷ values) = do
  value ← usize_from raw (error limit_exceeded)
  next ← checked_add total value
  sum_from next values

unfoldable pub checked_sum_u32 : List ℕ → Result ℕ
checked_sum_u32 values = sum_from 0 values

unfoldable pub require_numeric_width : StreamInput → ℕ → Result (Unit {0})
require_numeric_width stream expected = do
  fail_if (not (stream.element_width == expected)) (error invalid_type)
  count ← numeric_element_count stream.bytes expected
  ok tt
