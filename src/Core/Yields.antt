-- ===== src/Core/Yields.antt =====
-- Computations that return, with what holds of a value that they return.
use ozlrip.Prelude.{◌≡◌, refl, Bool, true, false}
use ozlrip.Core.{Error, Result, ok, err, panic, stuck, ◌>>=◌, ◌>>◌, fail_if}
use ozlrip.Core.Safe.{IsSafe}

abbrev pub Holds {ℓ} : {A : Type ℓ} → (A → Type 0) → Result A → Type 0
Holds P (ok a) = P a
Holds P (err e) = Unit
Holds P panic = ⊥
Holds P stuck = ⊥

pub record Yields {ℓ} {A : Type ℓ} (P : A → Type 0) (m : Result A) : Type 0 where
  pub holds : Holds P m

module _ {ℓ κ} {A : Type ℓ} {B : Type κ} {Q : B → Type 0} where
  pub Yields-bind :
      (P : A → Type 0) (m : Result A) (f : A → Result B)
      → Yields P m
      → ((a : A) → P a → Yields Q (f a))
      → Yields Q (m >>= f)
  Yields-bind P (ok a) f p q = q a p.holds
  Yields-bind P (err e) f p q = record { holds = tt }
  Yields-bind P panic f p q = absurd p.holds
  Yields-bind P stuck f p q = absurd p.holds

  pub Yields-after :
      (m : Result A) (f : A → Result B)
      → IsSafe m
      → ((a : A) → m ≡ ok a → Yields Q (f a))
      → Yields Q (m >>= f)
  Yields-after (ok a) f p q = q a refl
  Yields-after (err e) f p q = record { holds = tt }
  Yields-after panic f p q = absurd p.returns
  Yields-after stuck f p q = absurd p.returns

module _ {ℓ} {A : Type ℓ} {P : A → Type 0} where
  pub Yields-ok : (a : A) → P a → Yields P (ok a)
  Yields-ok a p = record { holds = p }

  pub Yields-IsSafe : (m : Result A) → Yields P m → IsSafe m
  Yields-IsSafe (ok a) p = record { returns = tt }
  Yields-IsSafe (err e) p = record { returns = tt }
  Yields-IsSafe panic p = absurd p.holds
  Yields-IsSafe stuck p = absurd p.holds

  pub Yields-at : (m : Result A) (a : A) → Yields P m → m ≡ ok a → P a
  Yields-at m a p e = rw e at p.holds

pub Yields-imp {ℓ} :
    {A : Type ℓ} (P Q : A → Type 0) (m : Result A) → Yields P m → ((a : A) → P a → Q a) → Yields Q m
Yields-imp P Q (ok a) p each = record { holds = each a p.holds }
Yields-imp P Q (err e) p each = record { holds = tt }
Yields-imp P Q panic p each = absurd p.holds
Yields-imp P Q stuck p each = absurd p.holds

-- A guard, and what follows where it lets through.
pub Yields-unless {κ} :
    {B : Type κ} {Q : B → Type 0} (b : Bool) (e : Error) (m : Result B)
    → (b ≡ false → Yields Q m)
    → Yields Q (fail_if b e >> m)
Yields-unless true e m q = record { holds = tt }
Yields-unless false e m q = q refl
