-- ===== src/Parse/Packed/Width.antt =====
-- The width of bit-packed distances.
use ozlrip.Prelude.{
  ℕ, zero, suc, ◌+◌, ◌-◌, ◌*◌, ◌/◌, ◌^◌, ◌≤◌, ◌<◌, ◌≡◌, arith, ◌==◌, Bool-cases, inl, inr, leb,
}
use ozlrip.Prelude.Bits.{pow-add}
use native.Mathlib.Nat.{pow-suc}
use ozlrip.Parse.Packed.{bit_length, bits_needed}

abbrev Fits : ℕ → ℕ → Type 0
Fits n bits = (n < 2 ^ bits) × ((k : ℕ) → n < 2 ^ k → bits ≤ k)

halve : (n k : ℕ) → n < 2 ^ suc k → n / 2 < 2 ^ k
halve n k h = omega (arith, pow-suc 2 k)

bit_length-Fits : (fuel n : ℕ) → n < 2 ^ fuel → Fits n (bit_length fuel n)
unfolding bit_length
bit_length-Fits zero n h = (h, λ k q. omega arith)
bit_length-Fits (suc fuel) n h = elim (Bool-cases (n == 0)) [
  | inl q ↦ rw (q, bit_length) (ground arith, λ k p. omega arith)
  | inr q ↦
      let (above, least) = bit_length-Fits fuel (n / 2) (halve n fuel h) in
      let some : 0 < n = ground arith in
      let wide : 2 ^ (bit_length fuel (n / 2) + 1) ≡ 2 ^ bit_length fuel (n / 2) * 2 =
        pow-add (bit_length fuel (n / 2)) 1 in
      let doubled : n < 2 ^ (bit_length fuel (n / 2) + 1) = omega arith in
      rw (q, bit_length) (doubled, longer some least)
]
  where
    longer :
        0 < n
        → ((k : ℕ) → n / 2 < 2 ^ k → bit_length fuel (n / 2) ≤ k)
        → (k : ℕ) → n < 2 ^ k
        → bit_length fuel (n / 2) + 1 ≤ k
    longer some least zero p = absurd (omega arith)
    longer some least (suc k) p = omega (arith, least k (halve n k p))

-- Every distance below the number of streams fits in the width that is computed for it, and no
-- smaller width holds them all, for at least one stream and fewer than 2 ^ 64.
pub bits_needed-least :
    (streams : ℕ)
    → 0 < streams
    → streams < 2 ^ 64
    → ((distance : ℕ) → distance < streams → distance < 2 ^ bits_needed streams)
      × ((bits : ℕ)
          → ((distance : ℕ) → distance < streams → distance < 2 ^ bits)
          → bits_needed streams ≤ bits)
unfolding bits_needed
bits_needed-least streams some small = elim (Bool-cases (leb streams 1)) [
  | inl q ↦ rw (q, bits_needed) (λ d h. ground arith, λ bits h. omega arith)
  | inr q ↦
      let (above, least) = bit_length-Fits 64 (streams - 1) (omega arith) in
      rw (q, bits_needed) (λ d h. omega arith, λ bits h. least bits (h (streams - 1) (omega arith)))
]
