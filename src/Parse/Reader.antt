-- ===== src/Parse/Reader.antt =====
-- crates/decode/src/parse/reader.rs: the cursor over the input, and the loops that read with it.
pub mod Tame
pub mod Rules
pub mod Primitives
pub mod Gives
pub mod Moves
use ozlrip.Prelude.{
  ℕ, zero, suc, ◌+◌, ◌*◌, List, [], ◌∷◌, none, some, ltb, if◌then◌else◌, get_elem?, get_range,
}
use ozlrip.Core.{
  Bytes, Error, error_at, truncated, integer_overflow, Result, ok, err, panic, stuck, usize_mod,
}
use ozlrip.Varint

pub record Reader : Type 0 where
  pub bytes : Bytes
  pub offset : ℕ

-- A function on `&mut Reader`. Every error is passed up to the caller of the parser, so the cursor
-- beside an error is never used again.
abbrev pub Read : Type 0 → Type 0
Read A = Reader → Result (A × Reader)

abbrev pub continue {ℓ κ} :
    {A : Type ℓ} {B : Type κ} {S : Type 0} → Result (A × S) → (A → S → Result B) → Result B
continue (ok (a, s)) f = f a s
continue (err e) f = err e
continue panic f = panic
continue stuck f = stuck

infixl 5 ◌>>=◌ ◌>>◌
unfoldable pub ◌>>=◌ : {A B : Type 0} → Read A → (A → Read B) → Read B
◌>>=◌ m f r = continue (m r) f

abbrev pub ◌>>◌ : {B : Type 0} → Read (Unit {0}) → Read B → Read B
m >> k = m >>= λ _. k

unfoldable pub pure : {A : Type 0} → A → Read A
pure a r = ok (a, r)

unfoldable pub fail : {A : Type 0} → Error → Read A
fail e r = err e

unfoldable pub out_of_fuel : {A : Type 0} → Read A
out_of_fuel r = stuck

-- A computation that does not touch the cursor.
unfoldable pub lift : {A : Type 0} → Result A → Read A
lift m r = elim m [ ok a ↦ ok (a, r) | err e ↦ err e | panic ↦ panic | stuck ↦ stuck ]

unfoldable pub offset : Read ℕ
offset r = ok (r.offset, r)

-- The parameter `input` of the header's functions is the reader's own slice: `input.get(i).ok_or(e)`,
-- `input[i]`, `input[..end]` and `input.get(start..end).ok_or(e)`.
unfoldable pub get_input : ℕ → Error → Read ℕ
get_input i e r = elim (get_elem? r.bytes i) [ none ↦ err e | some byte ↦ ok (byte, r) ]

unfoldable pub index_input : ℕ → Read ℕ
index_input i r = elim (get_elem? r.bytes i) [ none ↦ panic | some byte ↦ ok (byte, r) ]

unfoldable pub slice_input : ℕ → Read Bytes
slice_input end r = elim (get_range r.bytes 0 end) [ none ↦ panic | some slice ↦ ok (slice, r) ]

unfoldable pub get_input_range : ℕ → ℕ → Error → Read Bytes
get_input_range start end e r = elim (get_range r.bytes start end) [
  | none ↦ err e
  | some slice ↦ ok (slice, r)
]

unfoldable pub read_slice : ℕ → Read Bytes
read_slice len r =
    if ltb (r.offset + len) usize_mod
    then (elim (get_range r.bytes r.offset (r.offset + len)) [
      | none ↦ err (error_at truncated r.offset)
      | some slice ↦ ok (slice, record r { offset = r.offset + len })
    ])
    else err (error_at integer_overflow r.offset)

unfoldable pub peek_byte : Read ℕ
peek_byte r = elim (get_elem? r.bytes r.offset) [
  | none ↦ err (error_at truncated r.offset)
  | some byte ↦ ok (byte, r)
]

unfoldable pub read_byte : Read ℕ
read_byte r = elim (get_elem? r.bytes r.offset) [
  | none ↦ err (error_at truncated r.offset)
  | some byte ↦
      if ltb (r.offset + 1) usize_mod
      then ok (byte, record r { offset = r.offset + 1 })
      else err (error_at integer_overflow r.offset)
]

-- `u16::from_le_bytes` and its like.
abbrev pub from_le_bytes : Bytes → ℕ
from_le_bytes [] = 0
from_le_bytes (b ∷ bs) = b + 256 * from_le_bytes bs

-- `read_array::<N>` gives the slice as an array.
unfoldable pub read_array : ℕ → Read Bytes
read_array n = read_slice n

unfoldable pub read_u16_le : Read ℕ
read_u16_le = do bs ← read_array 2; pure (from_le_bytes bs)

unfoldable pub read_u32_le : Read ℕ
read_u32_le = do bs ← read_array 4; pure (from_le_bytes bs)

unfoldable pub read_var_u64 : Read ℕ
read_var_u64 r =
    continue (Varint.read_var_u64 r.bytes r.offset) (λ v o. ok (v, record r { offset = o }))

-- `for x in xs { out.push(f(x)?) }`
unfoldable pub for_each : {A B : Type 0} → (A → Read B) → List A → Read (List B)
for_each f [] = pure []
for_each f (x ∷ xs) = do y ← f x; ys ← for_each f xs; pure (y ∷ ys)

-- `for n in start..start + count { out.push(f(n)?) }`
unfoldable pub for_range : {B : Type 0} → (ℕ → Read B) → ℕ → ℕ → Read (List B)
for_range f start zero = pure []
for_range f start (suc count) = do y ← f start; ys ← for_range f (start + 1) count; pure (y ∷ ys)
