-- ===== src/Core.antt =====
-- crates/core/src/lib.rs: errors, limits and results. `crates/decode/src/arith.rs`: checked sums and
-- products. The detail text of an error is left out.
pub mod Safe
pub mod Yields
use ozlrip.Prelude.{
  ℕ, ◌+◌, ◌-◌, ◌*◌, min, ◌^◌, ◌≡◌, refl, Bool, true, false, List, Option, none, some, ltb,
  if◌then◌else◌, get_elem?, get_range,
}

abbrev pub Bytes : Type 0
Bytes = List ℕ

abbrev pub IsByte : ℕ → Type 0
IsByte b = ltb b 256 ≡ true

pub data ErrorKind : Type 0 where
  truncated malformed unsupported limit_exceeded allocation_failed : ErrorKind
  checksum_mismatch invalid_graph invalid_type integer_overflow : ErrorKind

pub record Error : Type 0 where
  pub kind : ErrorKind
  pub offset : Option ℕ

-- `Error::new` and `Error::at`.
abbrev pub error : ErrorKind → Error
error k = record { kind = k; offset = none }

abbrev pub error_at : ErrorKind → ℕ → Error
error_at k o = record { kind = k; offset = some o }

-- What a call of the program does: it returns, it returns an error, or it panics on an index out of
-- range. `stuck` is no behaviour of the program: a loop of the model ran out of fuel.
pub data Result {ℓ} (A : Type ℓ) : Type ℓ where
  ok : A → Result A
  err : Error → Result A
  panic : Result A
  stuck : Result A

infixl 5 ◌>>=◌ ◌>>◌
abbrev pub ◌>>=◌ {ℓ κ} : {A : Type ℓ} {B : Type κ} → Result A → (A → Result B) → Result B
ok a >>= f = f a
err e >>= f = err e
panic >>= f = panic
stuck >>= f = stuck

abbrev pub ◌>>◌ {ℓ} : {B : Type ℓ} → Result (Unit {0}) → Result B → Result B
m >> k = m >>= λ _. k

-- An error where the test holds.
abbrev pub fail_if : Bool → Error → Result (Unit {0})
fail_if true e = err e
fail_if false e = ok tt

-- `o.ok_or(e)`
abbrev pub ok_or {ℓ} : {A : Type ℓ} → Option A → Error → Result A
ok_or none e = err e
ok_or (some a) e = ok a

-- `xs[i]` and `xs[start..end]`, which panic out of range.
abbrev pub index {ℓ} : {A : Type ℓ} → List A → ℕ → Result A
index xs i = elim (get_elem? xs i) [ none ↦ panic | some a ↦ ok a ]

abbrev pub index_range {ℓ} : {A : Type ℓ} → List A → ℕ → ℕ → Result (List A)
index_range xs start end = elim (get_range xs start end) [ none ↦ panic | some a ↦ ok a ]

-- The target is a 64-bit one: `usize` holds the numbers below 2 ^ 64.
abbrev pub usize_mod : ℕ
usize_mod = 2 ^ 64

abbrev pub u64_mod : ℕ
u64_mod = 2 ^ 64

abbrev pub u32_mod : ℕ
u32_mod = 2 ^ 32

unfoldable pub checked_add : ℕ → ℕ → Result ℕ
checked_add lhs rhs =
    if ltb (lhs + rhs) usize_mod then ok (lhs + rhs) else err (error integer_overflow)

unfoldable pub checked_mul : ℕ → ℕ → Result ℕ
checked_mul lhs rhs =
    if ltb (lhs * rhs) usize_mod then ok (lhs * rhs) else err (error integer_overflow)

-- `a - b` and `a + b` on `usize` where the source relies on them: overflow stops a checked build.
unfoldable pub minus : ℕ → ℕ → Result ℕ
minus a b = if ltb a b then panic else ok (a - b)

unfoldable pub plus : ℕ → ℕ → Result ℕ
plus a b = if ltb (a + b) usize_mod then ok (a + b) else panic

-- `a.saturating_add(b)` and `a.saturating_mul(b)` on `usize`.
unfoldable pub saturating_add : ℕ → ℕ → ℕ
saturating_add a b = min (a + b) (usize_mod - 1)

unfoldable pub saturating_mul : ℕ → ℕ → ℕ
saturating_mul a b = min (a * b) (usize_mod - 1)

-- `usize::try_from(v).map_err(e)` and `u32::try_from(v).map_err(e)`.
unfoldable pub usize_from : ℕ → Error → Result ℕ
usize_from v e = if ltb v usize_mod then ok v else err e

unfoldable pub u32_from : ℕ → Error → Result ℕ
u32_from v e = if ltb v u32_mod then ok v else err e

-- `a.checked_add(b).ok_or(e)` on `u64`.
unfoldable pub checked_add_u64 : ℕ → ℕ → Error → Result ℕ
checked_add_u64 a b e = if ltb (a + b) u64_mod then ok (a + b) else err e

pub record Limits : Type 0 where
  pub max_frame_bytes : ℕ
  pub max_decoded_bytes : ℕ
  pub max_chunks : ℕ
  pub max_nodes : ℕ
  pub max_streams : ℕ
  pub max_transform_header_bytes : ℕ
  pub max_stored_stream_bytes : ℕ
  pub max_buffer_bytes : ℕ
  pub max_live_bytes : ℕ
  pub max_graph_depth : ℕ
  pub max_dictionaries : ℕ
  pub max_dictionary_bytes : ℕ
  pub max_expansion_ratio : ℕ
  pub expansion_ratio_exempt_bytes : ℕ

abbrev pub strict : Limits
strict = record {
  max_frame_bytes = 64 * 1024 * 1024;
  max_decoded_bytes = 64 * 1024 * 1024;
  max_chunks = 16384;
  max_nodes = 65536;
  max_streams = 131072;
  max_transform_header_bytes = 16 * 1024 * 1024;
  max_stored_stream_bytes = 64 * 1024 * 1024;
  max_buffer_bytes = 64 * 1024 * 1024;
  max_live_bytes = 512 * 1024 * 1024;
  max_graph_depth = 1024;
  max_dictionaries = 1024;
  max_dictionary_bytes = 64 * 1024 * 1024;
  max_expansion_ratio = 256;
  expansion_ratio_exempt_bytes = 1024 * 1024;
}

-- Inversion of a chain that returned.
pub >>=-eq-ok {κ ℓ} :
    {B : Type κ} {A : Type ℓ} (first : Result A) (next : A → Result B) {given : B}
    → (first >>= next) ≡ ok given
    → (value : A) × (first ≡ ok value) × (next value ≡ ok given)
>>=-eq-ok (ok value) next e = (value, refl, e)
>>=-eq-ok (err z) next e = absurd (cc)
>>=-eq-ok panic next e = absurd (cc)
>>=-eq-ok stuck next e = absurd (cc)
