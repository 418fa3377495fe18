-- ===== src/Execute/Runtime/Pool.antt =====
-- The pool keeps at most 64 buffers of at most 64 MiB together.
use ozlrip.Prelude.{
  ltb, ◌==◌, Bool-cases, length, get_elem?, set, take, length-append, length-set, length-take,
  get_elem?-set_same, get_elem?-some-lt, lt-get_elem?-some, ℕ, zero, suc, ◌+◌, ◌-◌, ◌≤◌, ◌<◌, ◌≡◌,
  refl, inl, inr, true, false, ◌||◌, some, List, [], ◌∷◌, ◌++◌, arith,
}
use ozlrip.Core.{ok, index, usize_mod, minus, plus}
use ozlrip.Core.Yields.{Yields, Yields-ok}
use ozlrip.Execute.Streams.{Buffer}
use ozlrip.Execute.Runtime.{
  DecodeScratch, max_pooled_buffers, max_pooled_bytes, swap_remove, take_pooled, keep,
  recycle_byte_buffer,
}

abbrev pub total_capacity : List Buffer → ℕ
total_capacity [] = 0
total_capacity (buffer ∷ buffers) = buffer.capacity + total_capacity buffers

pub record IsPool (scratch : DecodeScratch) : Type 0 where
  pub count : length scratch.byte_buffers ≤ max_pooled_buffers
  pub counted : scratch.pooled_bytes ≡ total_capacity scratch.byte_buffers
  pub size : scratch.pooled_bytes ≤ max_pooled_bytes

total_capacity-append :
    (xs ys : List Buffer) → total_capacity (xs ++ ys) ≡ total_capacity xs + total_capacity ys
total_capacity-append [] ys = omega arith
total_capacity-append (x ∷ xs) ys = omega (arith, total_capacity-append xs ys)

keep-IsPool :
    (scratch : DecodeScratch) (buffer : Buffer)
    → IsPool scratch
    → length scratch.byte_buffers < max_pooled_buffers
    → scratch.pooled_bytes + buffer.capacity ≤ max_pooled_bytes
    → Yields IsPool (keep scratch buffer)
unfolding keep plus
keep-IsPool scratch buffer pool few small =
    let fits : ltb (scratch.pooled_bytes + buffer.capacity) usize_mod ≡ true = ground arith in
    rw fits (
      Yields-ok _ (record {
        count = omega (arith, length-append scratch.byte_buffers (buffer ∷ []));
        counted = omega (arith, total_capacity-append scratch.byte_buffers (buffer ∷ []));
        size = small;
      }))

-- Recycling any buffer on a pool of at most 64 buffers that counts their capacities, at most 64 MiB,
-- never panics and leaves such a pool.
pub recycle_byte_buffer-IsPool :
    (scratch : DecodeScratch) (buffer : Buffer)
    → IsPool scratch
    → Yields IsPool (recycle_byte_buffer scratch buffer)
unfolding recycle_byte_buffer minus
recycle_byte_buffer-IsPool scratch buffer pool =
    let fits : ltb max_pooled_bytes scratch.pooled_bytes ≡ false = ground arith in
    elim (Bool-cases (buffer.capacity == 0 || length scratch.byte_buffers == max_pooled_buffers)) [
      | inl p ↦ rw p (Yields-ok scratch pool)
      | inr p ↦ elim (Bool-cases (ltb (max_pooled_bytes - scratch.pooled_bytes) buffer.capacity)) [
        | inl q ↦ rw (p, fits, q) (Yields-ok scratch pool)
        | inr q ↦ rw (p, fits, q) (keep-IsPool scratch buffer pool (ground arith) (ground arith))
      ]
    ]

-- Removing a buffer.
total_capacity-set :
    (xs : List Buffer) (i : ℕ) (old new : Buffer)
    → get_elem? xs i ≡ some old
    → total_capacity (set xs i new) + old.capacity ≡ total_capacity xs + new.capacity
total_capacity-set [] i old new e = absurd (cc)
total_capacity-set (x ∷ xs) zero old new e = ground arith
total_capacity-set (x ∷ xs) (suc i) old new e = omega (arith, total_capacity-set xs i old new e)

total_capacity-take :
    (n : ℕ) (xs : List Buffer) (last : Buffer)
    → length xs ≡ suc n
    → get_elem? xs n ≡ some last
    → total_capacity (take n xs) + last.capacity ≡ total_capacity xs
total_capacity-take n [] last h e = absurd (omega arith)
total_capacity-take zero (x ∷ []) last h e = ground arith
total_capacity-take zero (x ∷ y ∷ xs) last h e = absurd (omega arith)
total_capacity-take (suc n) (x ∷ xs) last h e =
    omega (arith, total_capacity-take n xs last (omega arith) e)

-- A buffer in the pool leaves it: nothing panics, and the rest is a pool.
pub take_pooled-IsPool :
    (scratch : DecodeScratch) (i : ℕ) (buffer : Buffer)
    → IsPool scratch
    → get_elem? scratch.byte_buffers i ≡ some buffer
    → (rest : DecodeScratch) × (take_pooled scratch i ≡ ok (buffer, rest)) × IsPool rest
unfolding take_pooled swap_remove minus
take_pooled-IsPool scratch i buffer pool e =
    let xs = scratch.byte_buffers in
    let inside : i < length xs = get_elem?-some-lt xs i e in
    let (last, le) = lt-get_elem?-some xs (length xs - 1) (omega arith) in
    let moved = total_capacity-set xs i buffer last e in
    let end =
      total_capacity-take (length xs - 1) (set xs i last) last (omega (arith, length-set xs i last))
        (get_elem?-set_same xs i (length xs - 1) last le) in
    let left : List Buffer = take (length xs - 1) (set xs i last) in
    let enough : ltb scratch.pooled_bytes buffer.capacity ≡ false = ground (arith, pool.counted) in
    (
      record { byte_buffers = left; pooled_bytes = scratch.pooled_bytes - buffer.capacity },
      rw (e, le, enough, index) refl,
      record {
        count =
            omega (
              arith,
              pool.count,
              length-take (length xs - 1) (set xs i last),
              length-set xs i last,
            );
        counted = omega (arith, pool.counted);
        size = omega (arith, pool.size);
      },
    )
