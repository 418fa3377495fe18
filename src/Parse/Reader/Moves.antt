-- ===== src/Parse/Reader/Moves.antt =====
-- How far a read moves the cursor at least.
use ozlrip.Prelude.{
  ℕ, ◌+◌, ◌≤◌, ◌≡◌, refl, arith, Bool, true, false, inl, inr, length, get_elem?, if◌then◌else◌,
  Option-cases, Bool-cases, ltb, get_range,
}
use ozlrip.Core.{Result, ok, err, panic, stuck, usize_mod}
use ozlrip.Varint.Bounds.{read_var_u64-cases}
use ozlrip.Parse.Reader.{Reader, Read, continue, ◌>>=◌, read_byte, read_slice, read_var_u64}
use ozlrip.Parse.Reader.Tame.{After, Tame, After-step}
use ozlrip.Parse.Reader.Gives.{bind-eq-ok}

pub record Moves {A : Type 0} (lo n : ℕ) (m : Read A) : Type 0 where
  pub at :
      (r : Reader) (a : A) (r' : Reader)
      → lo ≤ r.offset
      → r.offset ≤ length r.bytes
      → m r ≡ ok (a, r')
      → r.offset + n ≤ r'.offset

-- What a tame read that returned says of the reader.
pub Tame-ok :
    {A : Type 0} {lo : ℕ} (m : Read A)
    → Tame lo m
    → (r r' : Reader) (a : A) → lo ≤ r.offset
    → r.offset ≤ length r.bytes
    → m r ≡ ok (a, r')
    → After m r (ok (a, r'))
Tame-ok m t r r' a from inside e = rw e at (t.at r from inside)

module _ {A B : Type 0} {lo n : ℕ} (m : Read A) (f : A → Read B) (km : Tame lo m) where
  pub Moves-bind : Moves lo n m → ((a : A) → Tame lo (f a)) → Moves lo n (m >>= f)
  Moves-bind mm kf = record {
    at = λ r b r'' from inside e.
        let (a, r', q, h) = bind-eq-ok m f r r'' b e in
        let (same, forward, fits, _) = Tame-ok m km r r' a from inside q in
        let (_, onward, _, _) = Tame-ok (f a) (kf a) r' r'' b (omega arith) (rw same fits) h in
        omega (arith, mm.at r a r' from inside q);
  }

  pub Moves-then : ((a : A) → Moves lo n (f a)) → Moves lo n (m >>= f)
  Moves-then mf = record {
    at = λ r b r'' from inside e.
        let (a, r', q, h) = bind-eq-ok m f r r'' b e in
        let (same, forward, fits, _) = Tame-ok m km r r' a from inside q in
        omega (arith, (mf a).at r' b r'' (omega arith) (rw same fits) h);
  }

  -- After a read that moves, the rest starts further on.
  pub Tame-raise :
      Moves lo n m → ((hi : ℕ) (a : A) → lo + n ≤ hi → Tame hi (f a)) → Tame lo (m >>= f)
  unfolding ◌>>=◌
  Tame-raise mm kf = record {
    at = λ r from inside. start r from inside (m r) refl (km.at r from inside);
  }
    where
      start :
          (r : Reader)
          → lo ≤ r.offset
          → r.offset ≤ length r.bytes
          → (x : Result (A × Reader)) → m r ≡ x
          → After m r x
          → After (m >>= f) r (continue x f)
      start r from inside (ok (a, r')) e h = After-step m f r r' a h (f a r') (
          (kf (lo + n) a (omega arith)).at r' (omega (arith, mm.at r a r' from inside e))
            (rw h.0 h.2))
      start r from inside (err e) q h = tt
      start r from inside panic q h = h
      start r from inside stuck q h = h

pub Moves-if :
    {A : Type 0} {lo n : ℕ} (b : Bool) (m k : Read A)
    → Moves lo n m
    → Moves lo n k
    → Moves lo n (if b then m else k)
Moves-if true m k p q = p
Moves-if false m k p q = q

same_offset :
    {A : Type 0} (a b : A) (r r' : Reader)
    → ◌≡◌ {A = Result (A × Reader)} (ok (a, r)) (ok (b, r'))
    → r'.offset ≡ r.offset
same_offset a b r r' e = ground arith

module _ {lo : ℕ} where
  pub read_byte-Moves : Moves lo 1 read_byte
  unfolding read_byte
  read_byte-Moves = record {
    at = λ r b r' from inside e. elim (Option-cases (get_elem? r.bytes r.offset)) [
      | inl q ↦ absurd (cc (rw (q, read_byte) at e))
      | inr (c, q) ↦ elim (Bool-cases (ltb (r.offset + 1) usize_mod)) [
        | inl fits ↦ omega (
          arith,
          same_offset c b (record r { offset = r.offset + 1 }) r' (rw (q, fits, read_byte) at e),
        )
        | inr wraps ↦ absurd (cc (rw (q, wraps, read_byte) at e))
      ]
    ];
  }

  pub read_var_u64-Moves : Moves lo 1 read_var_u64
  unfolding read_var_u64
  read_var_u64-Moves = record {
    at = λ r b r' from inside e. elim (read_var_u64-cases r.bytes r.offset) [
      | inl ((v, o), q, moved, _, _, _) ↦
          omega (arith, same_offset v b (record r { offset = o }) r' (rw (q, read_var_u64) at e))
      | inr (z, q) ↦ absurd (cc (rw (q, read_var_u64) at e))
    ];
  }

  pub read_slice-Moves : (len : ℕ) → Moves lo len (read_slice len)
  unfolding read_slice
  read_slice-Moves len = record {
    at = λ r b r' from inside e. elim (Bool-cases (ltb (r.offset + len) usize_mod)) [
      | inl fits ↦ elim (Option-cases (get_range r.bytes r.offset (r.offset + len))) [
        | inl q ↦ absurd (cc (rw (fits, q, read_slice) at e))
        | inr (s, q) ↦ omega (
          arith,
          same_offset s b (record r { offset = r.offset + len }) r' (rw (fits, q, read_slice) at e),
        )
      ]
      | inr wraps ↦ absurd (cc (rw (wraps, read_slice) at e))
    ];
  }
