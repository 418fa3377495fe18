-- ===== src/Prelude/Lists.antt =====
-- Lists measured and indexed by native numbers, under the library's names, and slices.
use Prim.Native.Nat.{ℕ, zero, suc, ◌+◌, ◌-◌, ◌<◌, ◌≤◌, min}
use mathlib.Core.Path.{◌≡◌, refl, ap, sym, ◌∙◌}
use mathlib.Core.Logic.{inl, inr}
use mathlib.Core.Bool.{◌&&◌}
use mathlib.Core.List.{List, [], ◌∷◌, ◌++◌}
use mathlib.Core.Option.{Option, none, some}
use native.Mathlib.Omega.{arith}
use ozlrip.Prelude.Tests.{leb, if◌then◌else◌, le→leb, leb→le, Bool-cases}

module _ {ℓ} {A : Type ℓ} where
  abbrev pub length : List A → ℕ
  length [] = 0
  length (x ∷ xs) = suc (length xs)

  abbrev pub get_elem? : List A → ℕ → Option A
  get_elem? [] i = none
  get_elem? (x ∷ xs) zero = some x
  get_elem? (x ∷ xs) (suc i) = get_elem? xs i

  -- A write out of bounds changes nothing.
  abbrev pub set : List A → ℕ → A → List A
  set [] i v = []
  set (x ∷ xs) zero v = v ∷ xs
  set (x ∷ xs) (suc i) v = x ∷ set xs i v

  abbrev pub take : ℕ → List A → List A
  take zero xs = []
  take (suc n) [] = []
  take (suc n) (x ∷ xs) = x ∷ take n xs

  abbrev pub drop : ℕ → List A → List A
  drop zero xs = xs
  drop (suc n) [] = []
  drop (suc n) (x ∷ xs) = drop n xs

  abbrev pub replicate : ℕ → A → List A
  replicate zero a = []
  replicate (suc n) a = a ∷ replicate n a

  abbrev pub reverse : List A → List A
  reverse [] = []
  reverse (x ∷ xs) = reverse xs ++ x ∷ []

  abbrev pub All {κ} : (A → Type κ) → List A → Type κ
  All P [] = Unit {κ}
  All P (x ∷ xs) = P x × All P xs

module _ {ℓ} {A : Type ℓ} where
  -- Rust's `slice.get(start..end)`.
  unfoldable pub get_range : List A → ℕ → ℕ → Option (List A)
  get_range xs start end =
      if leb start end && leb end (length xs)
      then some (take (end - start) (drop start xs))
      else none

  pub length-append : (xs ys : List A) → length (xs ++ ys) ≡ length xs + length ys
  length-append [] ys = omega arith
  length-append (x ∷ xs) ys = omega (arith, length-append xs ys)

  pub length-set : (xs : List A) (i : ℕ) (v : A) → length (set xs i v) ≡ length xs
  length-set [] i v = refl
  length-set (x ∷ xs) zero v = refl
  length-set (x ∷ xs) (suc i) v = ap suc (length-set xs i v)

  pub length-take : (n : ℕ) (xs : List A) → length (take n xs) ≡ min n (length xs)
  length-take zero xs = omega arith
  length-take (suc n) [] = omega arith
  length-take (suc n) (x ∷ xs) = omega (arith, length-take n xs)

  pub length-drop : (n : ℕ) (xs : List A) → length (drop n xs) ≡ length xs - n
  length-drop zero xs = omega arith
  length-drop (suc n) [] = omega arith
  length-drop (suc n) (x ∷ xs) = omega (arith, length-drop n xs)

  pub length-replicate : (n : ℕ) (a : A) → length (replicate n a) ≡ n
  length-replicate zero a = refl
  length-replicate (suc n) a = ap suc (length-replicate n a)

  pub set-middle :
      (before after : List A) (old new : A)
      → set (before ++ (old ∷ after)) (length before) new ≡ (before ++ new ∷ []) ++ after
  set-middle [] after old new = refl
  set-middle (x ∷ before) after old new = ap (◌∷◌ x) (set-middle before after old new)

  -- A write of what a place holds already.
  pub get_elem?-set_same :
      (xs : List A) (i j : ℕ) (x : A) → get_elem? xs j ≡ some x → get_elem? (set xs i x) j ≡ some x
  get_elem?-set_same [] i j x e = e
  get_elem?-set_same (y ∷ ys) zero zero x e = refl
  get_elem?-set_same (y ∷ ys) zero (suc j) x e = e
  get_elem?-set_same (y ∷ ys) (suc i) zero x e = e
  get_elem?-set_same (y ∷ ys) (suc i) (suc j) x e = get_elem?-set_same ys i j x e

  pub get_elem?-some-lt : (xs : List A) (i : ℕ) {a : A} → get_elem? xs i ≡ some a → i < length xs
  get_elem?-some-lt [] i e = absurd (cc)
  get_elem?-some-lt (x ∷ xs) zero e = omega arith
  get_elem?-some-lt (x ∷ xs) (suc i) e = omega (arith, get_elem?-some-lt xs i e)

  pub lt-get_elem?-some :
      (xs : List A) (i : ℕ) → i < length xs → (a : A) × (get_elem? xs i ≡ some a)
  lt-get_elem?-some [] i h = absurd (omega arith)
  lt-get_elem?-some (x ∷ xs) zero h = (x, refl)
  lt-get_elem?-some (x ∷ xs) (suc i) h = lt-get_elem?-some xs i (omega arith)

  pub get_elem?-append :
      (xs ys : List A) (i : ℕ) {a : A} → get_elem? xs i ≡ some a → get_elem? (xs ++ ys) i ≡ some a
  get_elem?-append [] ys i e = absurd (cc)
  get_elem?-append (x ∷ xs) ys zero e = e
  get_elem?-append (x ∷ xs) ys (suc i) e = get_elem?-append xs ys i e

  pub take-append : (n : ℕ) (xs ys : List A) → n ≤ length xs → take n (xs ++ ys) ≡ take n xs
  take-append zero xs ys h = refl
  take-append (suc n) [] ys h = absurd (omega arith)
  take-append (suc n) (x ∷ xs) ys h = ap (◌∷◌ x) (take-append n xs ys (omega arith))

  pub drop-append : (n : ℕ) (xs ys : List A) → n ≤ length xs → drop n (xs ++ ys) ≡ drop n xs ++ ys
  drop-append zero xs ys h = refl
  drop-append (suc n) [] ys h = absurd (omega arith)
  drop-append (suc n) (x ∷ xs) ys h = drop-append n xs ys (omega arith)

  pub get_range-eq-some :
      (xs : List A) (start end : ℕ)
      → start ≤ end
      → end ≤ length xs
      → get_range xs start end ≡ some (take (end - start) (drop start xs))
  unfolding get_range
  get_range-eq-some xs start end h k = rw (le→leb start end h) (rw (le→leb end (length xs) k) refl)

  -- A slice that `get` returns lies inside.
  pub get_range-bounds :
      (xs : List A) (start end : ℕ) (slice : List A)
      → get_range xs start end ≡ some slice
      → (start ≤ end) × (end ≤ length xs)
  unfolding get_range
  get_range-bounds xs start end slice e = elim (Bool-cases (leb start end)) [
    | inl p ↦ elim (Bool-cases (leb end (length xs))) [
      | inl q ↦ (leb→le start end p, leb→le end (length xs) q)
      | inr q ↦ absurd (cc (rw (p, q) at e))
    ]
    | inr p ↦ absurd (cc (rw p at e))
  ]

  -- It stays the same where the list goes on.
  pub get_range-append :
      (xs ys : List A) (start end : ℕ) (slice : List A)
      → get_range xs start end ≡ some slice
      → get_range (xs ++ ys) start end ≡ some slice
  get_range-append xs ys start end slice e =
      let (h, k) = get_range-bounds xs start end slice e in
      get_range-eq-some (xs ++ ys) start end h (omega (arith, length-append xs ys))
      ∙ ap some (
          ap (take (end - start)) (drop-append start xs ys (omega arith))
          ∙ take-append (end - start) (drop start xs) ys (omega (arith, length-drop start xs)))
      ∙ sym (get_range-eq-some xs start end h k)
      ∙ e

  pub take-drop : (n : ℕ) (xs : List A) → take n xs ++ drop n xs ≡ xs
  take-drop zero xs = refl
  take-drop (suc n) [] = refl
  take-drop (suc n) (x ∷ xs) = ap (◌∷◌ x) (take-drop n xs)

module _ {ℓ κ} {A : Type ℓ} (P : A → Type κ) where
  pub All-take : (n : ℕ) (xs : List A) → All P xs → All P (take n xs)
  All-take zero xs all = tt
  All-take (suc n) [] all = tt
  All-take (suc n) (x ∷ xs) (p, ps) = (p, All-take n xs ps)

  pub All-drop : (n : ℕ) (xs : List A) → All P xs → All P (drop n xs)
  All-drop zero xs all = all
  All-drop (suc n) [] all = tt
  All-drop (suc n) (x ∷ xs) (p, ps) = All-drop n xs ps

  pub All-append : (xs ys : List A) → All P xs → All P ys → All P (xs ++ ys)
  All-append [] ys ps qs = qs
  All-append (x ∷ xs) ys (p, ps) qs = (p, All-append xs ys ps qs)

module _ {ℓ} {A : Type ℓ} where
  pub drop-drop : (m n : ℕ) (xs : List A) → drop n (drop m xs) ≡ drop (m + n) xs
  drop-drop zero n xs = let same : 0 + n ≡ n = omega arith in rw same refl
  drop-drop (suc m) zero [] = let same : suc m + 0 ≡ suc m = omega arith in rw same refl
  drop-drop (suc m) (suc n) [] =
      let same : suc m + suc n ≡ suc (m + suc n) = omega arith in rw same refl
  drop-drop (suc m) n (x ∷ xs) =
      let same : suc m + n ≡ suc (m + n) = omega arith in rw same (drop-drop m n xs)

  pub drop-all : (n : ℕ) (xs : List A) → length xs ≤ n → drop n xs ≡ []
  drop-all zero [] h = refl
  drop-all zero (x ∷ xs) h = absurd (omega arith)
  drop-all (suc n) [] h = refl
  drop-all (suc n) (x ∷ xs) h = drop-all n xs (omega arith)

  pub get_elem?-behind :
      (xs ys : List A) (i : ℕ) → get_elem? (xs ++ ys) (length xs + i) ≡ get_elem? ys i
  get_elem?-behind [] ys i = ap (get_elem? ys) (omega arith)
  get_elem?-behind (x ∷ xs) ys i =
      let next : suc (length xs) + i ≡ suc (length xs + i) = omega arith in
      rw next (get_elem?-behind xs ys i)

  -- A slice lies between what is before it and what is after it.
  pub get_range-split :
      (xs : List A) (start end : ℕ) (slice : List A)
      → get_range xs start end ≡ some slice
      → xs ≡ take start xs ++ (slice ++ drop end xs)
  get_range-split xs start end slice e =
      let (h, k) = get_range-bounds xs start end slice e in
      let given : some (take (end - start) (drop start xs)) ≡ some slice =
        sym (get_range-eq-some xs start end h k) ∙ e in
      let here : take (end - start) (drop start xs) ≡ slice = cc in
      let after : drop (end - start) (drop start xs) ≡ drop end xs =
        drop-drop start (end - start) xs ∙ ap (λ n. drop n xs) (omega arith) in
      sym (
        ap (λ t. take start xs ++ t)
          (ap (λ t. t ++ drop end xs) (sym here)
            ∙ ap (λ t. take (end - start) (drop start xs) ++ t) (sym after)
            ∙ take-drop (end - start) (drop start xs))
        ∙ take-drop start xs)
