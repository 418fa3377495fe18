-- ===== src/Core/Safe.antt =====
-- Computations that neither panic nor run out of fuel.
use ozlrip.Prelude.{
  ℕ, ◌+◌, ◌<◌, ◌≡◌, Bool, true, false, List, none, some, Option, if◌then◌else◌, length, arith,
  lt-get_elem?-some, ◌≤◌, get_range-eq-some,
}
use ozlrip.Core.{
  Error, Result, ok, err, panic, stuck, ◌>>=◌, fail_if, ok_or, index, checked_add, checked_mul,
  usize_from, u32_from, checked_add_u64, index_range,
}

abbrev pub Returns {ℓ} : {A : Type ℓ} → Result A → Type 0
Returns (ok a) = Unit
Returns (err e) = Unit
Returns panic = ⊥
Returns stuck = ⊥

pub record IsSafe {ℓ} {A : Type ℓ} (m : Result A) : Type 0 where
  pub returns : Returns m

module _ {ℓ} {A : Type ℓ} where
  pub IsSafe-ok : (a : A) → IsSafe (ok a)
  IsSafe-ok a = record { returns = tt }

  pub IsSafe-err : (e : Error) → IsSafe {A = A} (err e)
  IsSafe-err e = record { returns = tt }

  pub IsSafe-ok_or : (o : Option A) (e : Error) → IsSafe (ok_or o e)
  IsSafe-ok_or none e = record { returns = tt }
  IsSafe-ok_or (some a) e = record { returns = tt }

  pub IsSafe-if : (b : Bool) (m n : Result A) → IsSafe m → IsSafe n → IsSafe (if b then m else n)
  IsSafe-if true m n p q = p
  IsSafe-if false m n p q = q

  pub IsSafe-index : (xs : List A) (i : ℕ) → i < length xs → IsSafe (index xs i)
  IsSafe-index xs i h =
      let (a, e) = lt-get_elem?-some xs i h in rw (e, index) (record { returns = tt })

  pub IsSafe-index_range :
      (xs : List A) (start end : ℕ)
      → start ≤ end
      → end ≤ length xs
      → IsSafe (index_range xs start end)
  IsSafe-index_range xs start end h k =
      rw (get_range-eq-some xs start end h k, index_range) (record { returns = tt })

  pub IsSafe-bind {κ} :
      {B : Type κ} (m : Result A) (f : A → Result B)
      → IsSafe m
      → ((a : A) → IsSafe (f a))
      → IsSafe (m >>= f)
  IsSafe-bind (ok a) f p q = q a
  IsSafe-bind (err e) f p q = record { returns = tt }
  IsSafe-bind panic f p q = absurd p.returns
  IsSafe-bind stuck f p q = absurd p.returns

pub IsSafe-fail_if : (b : Bool) (e : Error) → IsSafe (fail_if b e)
IsSafe-fail_if true e = record { returns = tt }
IsSafe-fail_if false e = record { returns = tt }

pub IsSafe-checked_add : (a b : ℕ) → IsSafe (checked_add a b)
unfolding checked_add
IsSafe-checked_add a b = IsSafe-if _ _ _ (IsSafe-ok _) (IsSafe-err _)

pub IsSafe-checked_mul : (a b : ℕ) → IsSafe (checked_mul a b)
unfolding checked_mul
IsSafe-checked_mul a b = IsSafe-if _ _ _ (IsSafe-ok _) (IsSafe-err _)

pub IsSafe-usize_from : (v : ℕ) (e : Error) → IsSafe (usize_from v e)
unfolding usize_from
IsSafe-usize_from v e = IsSafe-if _ _ _ (IsSafe-ok _) (IsSafe-err _)

pub IsSafe-u32_from : (v : ℕ) (e : Error) → IsSafe (u32_from v e)
unfolding u32_from
IsSafe-u32_from v e = IsSafe-if _ _ _ (IsSafe-ok _) (IsSafe-err _)

pub IsSafe-checked_add_u64 : (a b : ℕ) (e : Error) → IsSafe (checked_add_u64 a b e)
unfolding checked_add_u64
IsSafe-checked_add_u64 a b e = IsSafe-if _ _ _ (IsSafe-ok _) (IsSafe-err _)

-- A sum that did not overflow is the sum.
pub checked_add-eq : (a b c : ℕ) → checked_add a b ≡ ok c → c ≡ a + b
unfolding checked_add
checked_add-eq a b c e = ground arith

pub ruleset safe_rules = (
  IsSafe-ok, IsSafe-err, IsSafe-ok_or, IsSafe-if, IsSafe-bind, IsSafe-fail_if, IsSafe-checked_add,
  IsSafe-checked_mul, IsSafe-usize_from, IsSafe-u32_from, IsSafe-checked_add_u64,
)
