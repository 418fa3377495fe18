-- ===== src/Parse/Reader/Primitives.antt =====
-- The reads of single fields are tame.
use ozlrip.Prelude.{
  ℕ, ◌+◌, ◌≤◌, ◌<◌, ◌≡◌, refl, arith, some, inl, inr, ltb, length, get_elem?, get_range, Bool-cases,
  Option-cases, get_elem?-some-lt, get_elem?-append, get_range-eq-some, get_range-bounds,
  get_range-append, lt-get_elem?-some,
}
use ozlrip.Core.{Error, usize_mod}
use ozlrip.Varint.Bounds.{read_var_u64-cases}
use ozlrip.Parse.Reader.{
  Reader, get_input, index_input, slice_input, get_input_range, read_slice, peek_byte, read_byte,
  read_array, read_u16_le, read_u32_le, read_var_u64,
}
use ozlrip.Parse.Reader.Tame.{extend, After, Tame, Tame-bind}
use ozlrip.Core.Safe.{safe_rules}
use ozlrip.Parse.Reader.Rules.{
  Tame-pure, Tame-fail, Tame-if, Tame-lift, Tame-for_each, Tame-for_range, Tame-offset_any,
}

After-index_input :
    (i : ℕ) (r : Reader)
    → r.offset ≤ length r.bytes
    → (b : ℕ) → get_elem? r.bytes i ≡ some b
    → After (index_input i) r (index_input i r)
unfolding index_input
After-index_input i r inside b q =
    rw (q, After)
      (refl, omega arith, inside, λ more. rw (get_elem?-append r.bytes more i q, index_input) refl)

module _ {lo : ℕ} where
  pub Tame-get_input : (i : ℕ) (e : Error) → Tame lo (get_input i e)
  unfolding get_input
  Tame-get_input i e = record {
    at = λ r from inside. elim (Option-cases (get_elem? r.bytes i)) [
      | inl q ↦ rw (q, After) tt
      | inr (b, q) ↦
          rw (q, After)
            (
              refl,
              omega arith,
              inside,
              λ more. rw (get_elem?-append r.bytes more i q, get_input) refl,
            )
    ];
  }

  pub Tame-index_input : (i : ℕ) → i < lo → Tame lo (index_input i)
  Tame-index_input i h = record {
    at = λ r from inside.
        let (b, q) = lt-get_elem?-some r.bytes i (omega arith) in After-index_input i r inside b q;
  }

  pub Tame-slice_input : (end : ℕ) → end ≤ lo → Tame lo (slice_input end)
  unfolding slice_input
  Tame-slice_input end h = record {
    at = λ r from inside.
        let q = get_range-eq-some r.bytes 0 end (omega arith) (omega arith) in
        rw (q, After)
          (
            refl,
            omega arith,
            inside,
            λ more. rw (get_range-append r.bytes more 0 end _ q, slice_input) refl,
          );
  }

  pub Tame-get_input_range : (start end : ℕ) (e : Error) → Tame lo (get_input_range start end e)
  unfolding get_input_range
  Tame-get_input_range start end e = record {
    at = λ r from inside. elim (Option-cases (get_range r.bytes start end)) [
      | inl q ↦ rw (q, After) tt
      | inr (s, q) ↦
          rw (q, After)
            (
              refl,
              omega arith,
              inside,
              λ more. rw (get_range-append r.bytes more start end s q, get_input_range) refl,
            )
    ];
  }

  pub Tame-peek_byte : Tame lo peek_byte
  unfolding peek_byte
  Tame-peek_byte = record {
    at = λ r from inside. elim (Option-cases (get_elem? r.bytes r.offset)) [
      | inl q ↦ rw (q, After) tt
      | inr (b, q) ↦
          rw (q, After)
            (
              refl,
              omega arith,
              inside,
              λ more. rw (get_elem?-append r.bytes more r.offset q, peek_byte) refl,
            )
    ];
  }

  pub Tame-read_byte : Tame lo read_byte
  unfolding read_byte
  Tame-read_byte = record {
    at = λ r from inside. elim (Option-cases (get_elem? r.bytes r.offset)) [
      | inl q ↦ rw (q, After) tt
      | inr (b, q) ↦ elim (Bool-cases (ltb (r.offset + 1) usize_mod)) [
        | inl fits ↦
            rw (q, fits, After)
              (
                refl,
                omega arith,
                omega (arith, get_elem?-some-lt r.bytes r.offset q),
                λ more. rw (get_elem?-append r.bytes more r.offset q, fits, read_byte) refl,
              )
        | inr wraps ↦ rw (q, wraps, After) tt
      ]
    ];
  }

  pub Tame-read_slice : (len : ℕ) → Tame lo (read_slice len)
  unfolding read_slice
  Tame-read_slice len = record {
    at = λ r from inside. elim (Bool-cases (ltb (r.offset + len) usize_mod)) [
      | inl fits ↦ elim (Option-cases (get_range r.bytes r.offset (r.offset + len))) [
        | inl q ↦ rw (fits, q, After) tt
        | inr (s, q) ↦
            rw (fits, q, After)
              (
                refl,
                omega arith,
                (get_range-bounds r.bytes r.offset (r.offset + len) s q).1,
                λ more.
                    rw
                      (
                        fits,
                        get_range-append r.bytes more r.offset (r.offset + len) s q,
                        read_slice,
                      )
                      refl,
              )
      ]
      | inr wraps ↦ rw (wraps, After) tt
    ];
  }

  pub Tame-read_array : (n : ℕ) → Tame lo (read_array n)
  unfolding read_array
  Tame-read_array n = Tame-read_slice n

  pub Tame-read_u16_le : Tame lo read_u16_le
  unfolding read_u16_le
  Tame-read_u16_le = Tame-bind _ _ (Tame-read_array 2) (λ bs. Tame-pure _)

  pub Tame-read_u32_le : Tame lo read_u32_le
  unfolding read_u32_le
  Tame-read_u32_le = Tame-bind _ _ (Tame-read_array 4) (λ bs. Tame-pure _)

  pub Tame-read_var_u64 : Tame lo read_var_u64
  unfolding read_var_u64
  Tame-read_var_u64 = record {
    at = λ r from inside. elim (read_var_u64-cases r.bytes r.offset) [
      | inl ((v, o), q, moved, less, fits, same) ↦
          rw (q, After) (refl, omega arith, fits, λ more. rw (same more, read_var_u64) refl)
      | inr (e, q) ↦ rw (q, After) tt
    ];
  }

pub ruleset tame_rules = (
  Tame-pure, Tame-fail, Tame-if, Tame-bind, Tame-lift, Tame-for_each, Tame-for_range,
  Tame-offset_any, Tame-get_input, Tame-get_input_range, Tame-peek_byte, Tame-read_byte,
  Tame-read_slice, Tame-read_u16_le, Tame-read_u32_le, Tame-read_var_u64, safe_rules,
)
