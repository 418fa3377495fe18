-- ===== src/Parse/Reader/Rules.antt =====
-- One rule of `Tame` for each way to build a read out of others.
use ozlrip.Prelude.{
  ℕ, zero, suc, ◌+◌, ◌≤◌, ◌≡◌, refl, arith, Bool, true, false, List, [], ◌∷◌, length, if◌then◌else◌,
}
use ozlrip.Core.{Error, Result, ok, err, panic, stuck, fail_if}
use ozlrip.Core.Safe.{IsSafe, IsSafe-fail_if}
use ozlrip.Parse.Reader.{Reader, Read, ◌>>=◌, pure, fail, lift, offset, for_each, for_range}
use ozlrip.Parse.Reader.Tame.{After, Tame, Tame-bind, Tame-bind_eq}

After-lift :
    {A : Type 0} (m : Result A) (r : Reader)
    → r.offset ≤ length r.bytes
    → IsSafe m
    → After (lift m) r (lift m r)
unfolding lift
After-lift (ok a) r inside safe = (refl, omega arith, inside, λ more. refl)
After-lift (err e) r inside safe = tt
After-lift panic r inside safe = safe.returns
After-lift stuck r inside safe = safe.returns

lift_eq : {A : Type 0} (m : Result A) (r r' : Reader) (a : A) → lift m r ≡ ok (a, r') → m ≡ ok a
unfolding lift
lift_eq (ok b) r r' a e = cc
lift_eq (err b) r r' a e = absurd (cc)
lift_eq panic r r' a e = absurd (cc)
lift_eq stuck r r' a e = absurd (cc)

module _ {A : Type 0} {lo : ℕ} where
  pub Tame-pure : (a : A) → Tame lo (pure a)
  unfolding pure
  Tame-pure a = record { at = λ r from inside. (refl, omega arith, inside, λ more. refl) }

  pub Tame-fail : (e : Error) → Tame {A = A} lo (fail e)
  unfolding fail
  Tame-fail e = record { at = λ r from inside. tt }

  pub Tame-if : (b : Bool) (m n : Read A) → Tame lo m → Tame lo n → Tame lo (if b then m else n)
  Tame-if true m n p q = p
  Tame-if false m n p q = q

  -- Each branch may use its test.
  pub Tame-if_eq :
      (b : Bool) (m n : Read A)
      → (b ≡ true → Tame lo m)
      → (b ≡ false → Tame lo n)
      → Tame lo (if b then m else n)
  Tame-if_eq true m n p q = p refl
  Tame-if_eq false m n p q = q refl

  pub Tame-lift : (m : Result A) → IsSafe m → Tame lo (lift m)
  Tame-lift m safe = record { at = λ r from inside. After-lift m r inside safe }

  -- From a later offset on, all the more.
  pub Tame-later : {hi : ℕ} (m : Read A) → lo ≤ hi → Tame lo m → Tame hi m
  Tame-later m h t = record { at = λ r from inside. t.at r (omega arith) inside }

module _ {A B : Type 0} {lo : ℕ} where
  pub Tame-lift_bind :
      (m : Result A) (f : A → Read B)
      → IsSafe m
      → ((a : A) → m ≡ ok a → Tame lo (f a))
      → Tame lo (lift m >>= f)
  Tame-lift_bind m f safe k =
      Tame-bind_eq (lift m) f (Tame-lift m safe) (λ r a r' e. k a (lift_eq m r r' a e))

-- What follows a guard may use that it did not fail.
pub Tame-guard :
    {B : Type 0} {lo : ℕ} (b : Bool) (e : Error) (f : Unit {0} → Read B)
    → (b ≡ false → Tame lo (f tt))
    → Tame lo (lift (fail_if b e) >>= f)
Tame-guard true e f k = Tame-lift_bind _ f (IsSafe-fail_if true e) (λ u q. absurd (cc))
Tame-guard false e f k = Tame-lift_bind _ f (IsSafe-fail_if false e) (λ u q. k refl)

module _ {A B : Type 0} {lo : ℕ} where
  pub Tame-for_each :
      (f : A → Read B) (xs : List A) → ((x : A) → Tame lo (f x)) → Tame lo (for_each f xs)
  unfolding for_each
  Tame-for_each f [] k = Tame-pure []
  Tame-for_each f (x ∷ xs) k =
      Tame-bind _ _ (k x) (λ y. Tame-bind _ _ (Tame-for_each f xs k) (λ ys. Tame-pure _))

pub Tame-for_range :
    {B : Type 0} {lo : ℕ} (f : ℕ → Read B) (start count : ℕ)
    → ((n : ℕ) → Tame lo (f n))
    → Tame lo (for_range f start count)
unfolding for_range
Tame-for_range f start zero k = Tame-pure []
Tame-for_range f start (suc count) k =
    Tame-bind _ _ (k start)
      (λ y. Tame-bind _ _ (Tame-for_range f (start + 1) count k) (λ ys. Tame-pure _))

-- The offset read now is a bound from which the rest goes on.
pub Tame-offset :
    {B : Type 0} {lo : ℕ} (f : ℕ → Read B)
    → ((n : ℕ) → lo ≤ n → Tame n (f n))
    → Tame lo (offset >>= f)
unfolding offset ◌>>=◌
Tame-offset f k = record {
  at = λ r from inside. widen r (f r.offset r) ((k r.offset from).at r (omega arith) inside);
}
  where
    widen : (r : Reader) (x : _) → After (f r.offset) r x → After (offset >>= f) r x
    widen r (ok (b, r')) h = h
    widen r (err e) h = tt
    widen r panic h = h
    widen r stuck h = h

pub Tame-offset_any : {lo : ℕ} → Tame lo offset
unfolding offset
Tame-offset_any = record { at = λ r from inside. (refl, omega arith, inside, λ more. refl) }
