-- ===== src/Varint/Bounds.antt =====
-- What a varint takes, whatever the bytes: `read_var_u64` returns, moves by one to ten bytes, and does
-- not look behind them.
use ozlrip.Prelude.{
  ℕ, zero, suc, ◌+◌, ◌≤◌, ◌<◌, ◌≡◌, ◌∙◌, arith, bit_and, ◌&&◌, Bool, true, false, some, ◌⊎◌, inl,
  inr, refl, ◌++◌, length, get_elem?, get_elem?-append, get_elem?-some-lt, ltb, ◌==◌, Bool-cases,
  Option-cases, if◌then◌else◌,
}
use ozlrip.Core.{Bytes, Error, error_at, integer_overflow, Result, ok, err, panic, stuck, usize_mod}
use ozlrip.Varint.{add_payload, read_var_loop, read_var_u64}

-- The result of a varint that starts at `start` and is read up to `most` bytes from `index` on.
abbrev Took : Bytes → ℕ → ℕ → ℕ → (Bytes → Result (ℕ × ℕ)) → Result (ℕ × ℕ) → Type 0
Took bytes start index left m (ok (v, o)) =
    (start + index < o)
    × (o ≤ start + index + left)
    × (o ≤ length bytes)
    × ((more : Bytes) → m (bytes ++ more) ≡ ok (v, o))
Took bytes start index left m (err e) = Unit
Took bytes start index left m panic = ⊥
Took bytes start index left m stuck = ⊥

-- One byte read, with `payload` its low digits: the round of the loop, and the rest of it.
pub round :
    (left : ℕ) (bytes : Bytes) (start index value b : ℕ)
    → ltb (start + index) usize_mod ≡ true
    → get_elem? bytes (start + index) ≡ some b
    → read_var_loop (suc left) bytes start index value ≡ (
        if index == 9 && ltb 1 (bit_and b 0x7f)
        then err (error_at integer_overflow start)
        else if bit_and b 0x80 == 0
        then ok (add_payload value (bit_and b 0x7f) index, start + index + 1)
        else read_var_loop left bytes start (index + 1) (add_payload value (bit_and b 0x7f) index))
unfolding read_var_loop
round left bytes start index value b fits q = rw (fits, q)

Took-shift :
    (bytes : Bytes) (start index left : ℕ) (m : Bytes → Result (ℕ × ℕ)) (x : Result (ℕ × ℕ))
    → Took bytes start (index + 1) left m x
    → Took bytes start index (suc left) m x
Took-shift bytes start index left m (ok (v, o)) (a, b, c, d) = (omega arith, omega arith, c, d)
Took-shift bytes start index left m (err e) h = tt
Took-shift bytes start index left m panic h = h
Took-shift bytes start index left m stuck h = h

Took-of :
    (bytes : Bytes) (start index left : ℕ) (m n : Bytes → Result (ℕ × ℕ)) (x y : Result (ℕ × ℕ))
    → x ≡ y
    → ((more : Bytes) → m (bytes ++ more) ≡ n (bytes ++ more))
    → Took bytes start index left n y
    → Took bytes start index left m x
Took-of bytes start index left m n x (ok (v, o)) e k (a, b, c, d) =
    rw (e, Took) (a, b, c, λ more. k more ∙ d more)
Took-of bytes start index left m n x (err z) e k h = rw (e, Took) tt
Took-of bytes start index left m n x panic e k h = absurd h
Took-of bytes start index left m n x stuck e k h = absurd h

-- A round that refuses, ends, or goes on with `n`.
choice-Took :
    (over stop : Bool) (bytes : Bytes) (start index left v : ℕ) (n : Bytes → Result (ℕ × ℕ))
    → start + index < length bytes
    → Took bytes start (index + 1) left n (n bytes)
    → Took bytes start index
        (suc left)
        (λ b.
          if over
          then err (error_at integer_overflow start)
          else if stop
          then ok (v, start + index + 1)
          else n b)
        (if over
          then err (error_at integer_overflow start)
          else if stop
          then ok (v, start + index + 1)
          else n bytes)
choice-Took true stop bytes start index left v n inside h = tt
choice-Took false true bytes start index left v n inside h =
    (omega arith, omega arith, omega arith, λ more. refl)
choice-Took false false bytes start index left v n inside h =
    Took-shift bytes start index left n (n bytes) h

read_var_loop-Took :
    (left : ℕ) (bytes : Bytes) (start index value : ℕ)
    → Took bytes start index left
        (λ b. read_var_loop left b start index value)
        (read_var_loop left bytes start index value)
read_var_loop-Took zero bytes start index value = unfold read_var_loop in tt
read_var_loop-Took (suc left) bytes start index value =
    elim (Bool-cases (ltb (start + index) usize_mod)) [
      | inl fits ↦ elim (Option-cases (get_elem? bytes (start + index))) [
        | inl q ↦ unfold read_var_loop in rw (fits, q, Took) tt
        | inr (b, q) ↦
            let v = add_payload value (bit_and b 0x7f) index in
            let n : Bytes → Result (ℕ × ℕ) = λ c. read_var_loop left c start (index + 1) v in
            Took-of bytes start index (suc left) (λ c. read_var_loop (suc left) c start index value)
              (λ c.
                if index == 9 && ltb 1 (bit_and b 0x7f)
                then err (error_at integer_overflow start)
                else if bit_and b 0x80 == 0
                then ok (v, start + index + 1)
                else n c)
              _ _ (round left bytes start index value b fits q)
              (λ more.
                round left (bytes ++ more) start index value b fits
                  (get_elem?-append bytes more (start + index) q))
              (choice-Took (index == 9 && ltb 1 (bit_and b 0x7f)) (bit_and b 0x80 == 0) bytes start
                index left v n (get_elem?-some-lt bytes (start + index) q)
                (read_var_loop-Took left bytes start (index + 1) v))
      ]
      | inr wraps ↦ unfold read_var_loop in rw (wraps, Took) tt
    ]

Took-cases :
    (bytes : Bytes) (start left : ℕ) (m : Bytes → Result (ℕ × ℕ)) (x : Result (ℕ × ℕ))
    → Took bytes start 0 left m x
    → ((p : ℕ × ℕ) × (x ≡ ok p)
        × (start < p.1)
        × (p.1 ≤ start + left)
        × (p.1 ≤ length bytes)
        × ((more : Bytes) → m (bytes ++ more) ≡ ok p))
      ⊎ ((e : Error) × (x ≡ err e))
Took-cases bytes start left m (ok (v, o)) (a, b, c, d) =
    inl ((v, o), refl, omega arith, omega arith, c, d)
Took-cases bytes start left m (err e) h = inr (e, refl)
Took-cases bytes start left m panic h = absurd h
Took-cases bytes start left m stuck h = absurd h

-- `read_var_u64` returns a value after one to ten bytes, all of them inside the input, and the same
-- value whatever follows; or it returns an error.
pub read_var_u64-cases :
    (bytes : Bytes) (offset : ℕ)
    → ((p : ℕ × ℕ) × (read_var_u64 bytes offset ≡ ok p)
        × (offset < p.1)
        × (p.1 ≤ offset + 10)
        × (p.1 ≤ length bytes)
        × ((more : Bytes) → read_var_u64 (bytes ++ more) offset ≡ ok p))
      ⊎ ((e : Error) × (read_var_u64 bytes offset ≡ err e))
unfolding read_var_u64
read_var_u64-cases bytes offset =
    Took-cases bytes offset 10 (λ c. read_var_loop 10 c offset 0 0) _
      (read_var_loop-Took 10 bytes offset 0 0)
