-- ===== src/Execute/Runtime/Best.antt =====
-- A request takes the smallest pooled buffer that fits.
use ozlrip.Prelude.{
  leb, if◌then◌else◌, leb→le, Bool-cases, Option-cases, get_elem?, All, ℕ, suc, ◌+◌, ◌≤◌, ◌<◌, ◌≡◌,
  refl, sym, ap, ◌∙◌, inl, inr, Option, none, some, List, [], ◌∷◌, arith,
}
use ozlrip.Core.{allocation_failed, error, ok, ◌>>=◌, ok_or}
use ozlrip.Core.Yields.{Yields, Yields-ok}
use ozlrip.Execute.Streams.{Buffer}
use ozlrip.Execute.Runtime.{DecodeScratch, closer, best_fit, take_pooled, take_pooled_or_new}
use ozlrip.Execute.Runtime.Pool.{IsPool, take_pooled-IsPool}
use mathlib.Core.Path.{subst}

-- A capacity that meets the request, and is the smallest to do so.
pub record IsBest (request capacity : ℕ) (buffers : List Buffer) : Type 0 where
  pub enough : request ≤ capacity
  pub least : All (λ (b : Buffer). request ≤ b.capacity → capacity ≤ b.capacity) buffers

record Found (request i j capacity : ℕ) (buffers : List Buffer) : Type 0 where
  position : ℕ
  buffer : Buffer
  at : j ≡ i + position
  found : get_elem? buffers position ≡ some buffer
  same : buffer.capacity ≡ capacity
  best : IsBest request capacity buffers

Search : ℕ → ℕ → Option (ℕ × ℕ) → List Buffer → Type 0
Search request i none buffers = All (λ (b : Buffer). b.capacity < request) buffers
Search request i (some (j, capacity)) buffers = Found request i j capacity buffers

module _ {P Q : Buffer → Type 0} (each : (b : Buffer) → P b → Q b) where
  All-imp : (buffers : List Buffer) → All P buffers → All Q buffers
  All-imp [] tt = tt
  All-imp (b ∷ bs) (p, ps) = (each b p, All-imp bs ps)

module _ (request i : ℕ) (buffer : Buffer) (buffers : List Buffer) where
  -- The head of the list is passed over.
  passed :
      (j capacity : ℕ)
      → (request ≤ buffer.capacity → capacity ≤ buffer.capacity)
      → Found request (i + 1) j capacity buffers
      → Found request i j capacity (buffer ∷ buffers)
  passed j capacity first f = record {
    position = suc f.position;
    buffer = f.buffer;
    at = omega (arith, f.at);
    found = f.found;
    same = f.same;
    best = record { enough = f.best.enough; least = (first, f.best.least) };
  }

  -- The head of the list is taken.
  taken :
      request ≤ buffer.capacity
      → All (λ (b : Buffer). request ≤ b.capacity → buffer.capacity ≤ b.capacity) buffers
      → Found request i i buffer.capacity (buffer ∷ buffers)
  taken h least = record {
    position = 0;
    buffer = buffer;
    at = omega arith;
    found = refl;
    same = refl;
    best = record { enough = h; least = (λ _. omega arith, least) };
  }

  Search-step :
      (later : Option (ℕ × ℕ))
      → Search request (i + 1) later buffers
      → Search request i
          (if leb request buffer.capacity then closer i buffer.capacity later else later)
          (buffer ∷ buffers)
  unfolding Search
  Search-step none rest = elim (Bool-cases (leb request buffer.capacity)) [
    | inl p ↦ rw p (taken (leb→le _ _ p) (All-imp (λ b h k. absurd (omega arith)) buffers rest))
    | inr p ↦ rw p (ground arith, rest)
  ]
  Search-step (some (j, least)) rest = elim (Bool-cases (leb request buffer.capacity)) [
    | inl p ↦ elim (Bool-cases (leb buffer.capacity least)) [
      | inl q ↦
          rw (p, q)
            (taken (leb→le _ _ p) (All-imp (λ b h k. ground (arith, h k)) buffers rest.best.least))
      | inr q ↦ rw (p, q) (passed j least (λ _. ground arith) rest)
    ]
    | inr p ↦ rw p (passed j least (λ h. absurd (ground arith)) rest)
  ]

best_fit-Search :
    (request i : ℕ) (buffers : List Buffer) → Search request i (best_fit request i buffers) buffers
unfolding best_fit Search
best_fit-Search request i [] = tt
best_fit-Search request i (buffer ∷ buffers) =
    Search-step request i buffer buffers (best_fit request (i + 1) buffers)
      (best_fit-Search request (i + 1) buffers)

-- What a request hands out.
abbrev pub Taken : DecodeScratch → ℕ → Buffer × DecodeScratch → Type 0
Taken scratch request (buffer, rest) =
    IsBest request buffer.capacity scratch.byte_buffers × IsPool rest

-- On a pool within its bounds, and with an allocator that gives at least what is asked for, a request
-- never panics: where it returns a buffer, the buffer meets the request, no pooled buffer that meets it
-- is smaller, and the rest of the pool is within its bounds.
pub take_pooled_or_new-Taken :
    (allocate : ℕ → Option ℕ) (scratch : DecodeScratch) (request : ℕ)
    → ((n capacity : ℕ) → allocate n ≡ some capacity → n ≤ capacity)
    → IsPool scratch
    → Yields (Taken scratch request) (take_pooled_or_new allocate scratch request)
unfolding take_pooled_or_new Search
take_pooled_or_new-Taken allocate scratch request fresh pool =
    let search : Search request 0 (best_fit request 0 scratch.byte_buffers) scratch.byte_buffers =
      best_fit-Search request 0 scratch.byte_buffers in
    elim (Option-cases (best_fit request 0 scratch.byte_buffers)) [
      | inl e ↦
          let none_fits : All (λ (b : Buffer). b.capacity < request) scratch.byte_buffers =
            rw e at search in
          rw (e, take_pooled_or_new) (fresh-Taken none_fits)
      | inr ((j, least), e) ↦
          let found : Found request 0 j least scratch.byte_buffers = rw e at search in
          let (rest, given, left) =
            take_pooled-IsPool scratch found.position found.buffer pool found.found in
          let at : take_pooled scratch j ≡ ok (found.buffer, rest) =
            ap (take_pooled scratch) (omega (arith, found.at)) ∙ given in
          let best : IsBest request found.buffer.capacity scratch.byte_buffers =
            subst (λ c. IsBest request c scratch.byte_buffers) (sym found.same) found.best in
          rw (e, take_pooled_or_new) (rw at (Yields-ok _ (best, left)))
    ]
  where
    fresh-Taken :
        All (λ (b : Buffer). b.capacity < request) scratch.byte_buffers
        → Yields (Taken scratch request) (
            ok_or (allocate request) (error allocation_failed) >>= λ capacity.
            ok (record { bytes = []; capacity = capacity }, scratch))
    fresh-Taken none_fits = elim (Option-cases (allocate request)) [
      | inl a ↦ rw a (record { holds = tt })
      | inr (capacity, a) ↦
          let least = All-imp (λ b h k. absurd (omega arith)) scratch.byte_buffers none_fits in
          rw a (Yields-ok _ (record { enough = fresh request capacity a; least = least }, pool))
    ]
