-- ===== src/Parse/Reader/Tame.antt =====
-- What every read of the parser keeps: the cursor moves forward and stays inside the input, nothing
-- panics, and bytes behind the input do not change a result.
use ozlrip.Prelude.{ℕ, ◌≤◌, ◌≡◌, refl, ap, ◌∙◌, arith, ◌++◌, length}
use ozlrip.Core.{Bytes, Result, ok, err, panic, stuck}
use ozlrip.Parse.Reader.{Reader, Read, continue, ◌>>=◌}

-- The same position in the input followed by `more`.
abbrev pub extend : Reader → Bytes → Reader
extend r more = record { bytes = r.bytes ++ more; offset = r.offset }

abbrev pub After : {A : Type 0} → Read A → Reader → Result (A × Reader) → Type 0
After m r (ok (a, r')) =
    (r'.bytes ≡ r.bytes)
    × (r.offset ≤ r'.offset)
    × (r'.offset ≤ length r.bytes)
    × ((more : Bytes) → m (extend r more) ≡ ok (a, extend r' more))
After m r (err e) = Unit
After m r panic = ⊥
After m r stuck = ⊥

-- `m` is well behaved from offset `lo` on.
pub record Tame {A : Type 0} (lo : ℕ) (m : Read A) : Type 0 where
  pub at : (r : Reader) → lo ≤ r.offset → r.offset ≤ length r.bytes → After m r (m r)

pub After-step :
    {A B : Type 0} (m : Read A) (f : A → Read B) (r r' : Reader) (a : A)
    → After m r (ok (a, r'))
    → (y : Result (B × Reader)) → After (f a) r' y
    → After (m >>= f) r y
unfolding ◌>>=◌
After-step m f r r' a (same, forward, inside, ext) (ok (b, r'')) (same', forward', inside', ext') =
    (
      same' ∙ same,
      omega arith,
      rw same at inside',
      λ more. ap (λ x. continue x f) (ext more) ∙ ext' more,
    )
After-step m f r r' a h (err e) k = tt
After-step m f r r' a h panic k = k
After-step m f r r' a h stuck k = k

After-bind :
    {A B : Type 0} (lo : ℕ) (m : Read A) (f : A → Read B) (r : Reader)
    → lo ≤ r.offset
    → (x : Result (A × Reader)) → After m r x
    → ((a : A) (r' : Reader) → x ≡ ok (a, r') → Tame lo (f a))
    → After (m >>= f) r (continue x f)
After-bind lo m f r from (ok (a, r')) h k =
    After-step m f r r' a h (f a r') ((k a r' refl).at r' (omega (arith, h.1)) (rw h.0 h.2))
After-bind lo m f r from (err e) h k = tt
After-bind lo m f r from panic h k = h
After-bind lo m f r from stuck h k = h

module _ {A B : Type 0} {lo : ℕ} where
  -- The continuation may use what the first read returned.
  pub Tame-bind_eq :
      (m : Read A) (f : A → Read B)
      → Tame lo m
      → ((r : Reader) (a : A) (r' : Reader) → m r ≡ ok (a, r') → Tame lo (f a))
      → Tame lo (m >>= f)
  unfolding ◌>>=◌
  Tame-bind_eq m f km kf = record {
    at = λ r from inside. After-bind lo m f r from (m r) (km.at r from inside) (kf r);
  }

  pub Tame-bind :
      (m : Read A) (f : A → Read B) → Tame lo m → ((a : A) → Tame lo (f a)) → Tame lo (m >>= f)
  Tame-bind m f km kf = Tame-bind_eq m f km (λ r a r' e. kf a)
