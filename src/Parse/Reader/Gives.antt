-- ===== src/Parse/Reader/Gives.antt =====
-- What a read returns, whatever the input.
use ozlrip.Prelude.{
  ℕ, zero, suc, ◌+◌, ◌≡◌, refl, ap, arith, Bool, true, false, List, [], ◌∷◌, length, if◌then◌else◌,
}
use mathlib.Core.Path.{subst}
use ozlrip.Core.{Error, Result, ok, err, panic, stuck}
use ozlrip.Parse.Reader.{Reader, Read, continue, ◌>>=◌, pure, fail, offset, for_each, for_range}

pub record Gives {A : Type 0} (Q : A → Type 0) (m : Read A) : Type 0 where
  pub at : (r : Reader) (a : A) (r' : Reader) → m r ≡ ok (a, r') → Q a

-- Inversion of a chain that returned.
pub bind-eq-ok :
    {A B : Type 0} (m : Read A) (f : A → Read B) (r r'' : Reader) (b : B)
    → (m >>= f) r ≡ ok (b, r'')
    → (a : A) × (r' : Reader) × (m r ≡ ok (a, r')) × (f a r' ≡ ok (b, r''))
unfolding ◌>>=◌
bind-eq-ok m f r r'' b e = split (m r) refl e
  where
    split :
        (x : Result _)
        → m r ≡ x
        → continue x f ≡ ok (b, r'')
        → (a : _) × (r' : Reader) × (m r ≡ ok (a, r')) × (f a r' ≡ ok (b, r''))
    split (ok (a, r')) q h = (a, r', q, h)
    split (err z) q h = absurd (cc)
    split panic q h = absurd (cc)
    split stuck q h = absurd (cc)

module _ {A : Type 0} (Q : A → Type 0) where
  pub Gives-pure : (a : A) → Q a → Gives Q (pure a)
  unfolding pure
  Gives-pure a h = record { at = λ r b r' e. let same : a ≡ b = cc in rw same at h }

  pub Gives-fail : (e : Error) → Gives Q (fail e)
  unfolding fail
  Gives-fail e = record { at = λ r b r' q. absurd (cc q) }

  pub Gives-if : (b : Bool) (m n : Read A) → Gives Q m → Gives Q n → Gives Q (if b then m else n)
  Gives-if true m n p q = p
  Gives-if false m n p q = q

module _ {A B : Type 0} (P : A → Type 0) (Q : B → Type 0) where
  pub Gives-bind :
      (m : Read A) (f : A → Read B)
      → Gives P m
      → ((a : A) → P a → Gives Q (f a))
      → Gives Q (m >>= f)
  Gives-bind m f p k = record {
    at = λ r b r'' e.
        let (a, r', q, h) = bind-eq-ok m f r r'' b e in (k a (p.at r a r' q)).at r' b r'' h;
  }

-- Where nothing is known of what the first read gives.
pub Gives-then :
    {A B : Type 0} (Q : B → Type 0) (m : Read A) (f : A → Read B)
    → ((a : A) → Gives Q (f a))
    → Gives Q (m >>= f)
Gives-then Q m f k = record {
  at = λ r b r'' e. let (a, r', q, h) = bind-eq-ok m f r r'' b e in (k a).at r' b r'' h;
}

pub for_each-length :
    {A B : Type 0} (f : A → Read B) (xs : List A)
    → Gives (λ ys. length ys ≡ length xs) (for_each f xs)
unfolding for_each
for_each-length f [] = Gives-pure _ [] refl
for_each-length f (x ∷ xs) = Gives-then _ (f x) _ (λ y.
    Gives-bind (λ ys. length ys ≡ length xs) _ (for_each f xs) _ (for_each-length f xs)
      (λ ys h. Gives-pure _ _ (ap suc h)))

pub for_range-length :
    {B : Type 0} (f : ℕ → Read B) (start count : ℕ)
    → Gives (λ ys. length ys ≡ count) (for_range f start count)
unfolding for_range
for_range-length f start zero = Gives-pure _ [] refl
for_range-length f start (suc count) = Gives-then _ (f start) _ (λ y.
    Gives-bind (λ ys. length ys ≡ count) _ (for_range f (start + 1) count) _
      (for_range-length f (start + 1) count) (λ ys h. Gives-pure _ _ (ap suc h)))

-- What a read returns and where it leaves the cursor.
pub record Leaves {A : Type 0} (Q : A → Reader → Type 0) (m : Read A) : Type 0 where
  pub at : (r : Reader) (a : A) (r' : Reader) → m r ≡ ok (a, r') → Q a r'

pub Leaves-then :
    {A B : Type 0} (Q : B → Reader → Type 0) (m : Read A) (f : A → Read B)
    → ((a : A) → Leaves Q (f a))
    → Leaves Q (m >>= f)
Leaves-then Q m f k = record {
  at = λ r b r'' e. let (a, r', q, h) = bind-eq-ok m f r r'' b e in (k a).at r' b r'' h;
}

-- A read that ends by giving a value made from the cursor's offset.
pub Leaves-offset :
    {B : Type 0} (Q : B → Reader → Type 0) (g : ℕ → B)
    → ((r : Reader) → Q (g r.offset) r)
    → Leaves Q (offset >>= λ n. pure (g n))
unfolding offset pure ◌>>=◌
Leaves-offset Q g h = record {
  at = λ r b r' e.
      let same : g r.offset ≡ b = ground arith in
      let stays : r ≡ r' = ground arith in
      subst (λ c. Q c r') same (subst (λ s. Q (g r.offset) s) stays (h r));
}
