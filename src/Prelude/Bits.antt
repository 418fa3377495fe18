-- ===== src/Prelude/Bits.antt =====
-- Powers of two, masks of words and bytes, and digits above others.
use Prim.Native.Nat.{
  ℕ, zero, suc, ◌+◌, ◌-◌, ◌*◌, ◌/◌, ◌%◌, ◌^◌, ◌≤◌, ◌<◌, min, max, digits, differ, bit_and, bit_or,
  bit_xor, bit_and-bitwise, bit_or-bitwise, bit_xor-bitwise,
}
use mathlib.Core.Path.{◌≡◌, refl, ap, ◌∙◌}
use native.Mathlib.Nat.{pow-suc, add-zero}
use native.Mathlib.Omega.{arith}
use mathlib.Core.Bool.{Bool, true, ◌&&◌}
use ozlrip.Prelude.Tests.{◌==◌}

pub pow-add : (a b : ℕ) → 2 ^ (a + b) ≡ 2 ^ a * 2 ^ b
pow-add a zero = rw (add-zero a) (omega arith)
pow-add a (suc b) =
    let sum : a + suc b ≡ suc (a + b) = omega arith in
    rw (sum, pow-suc) (omega (arith, pow-suc 2 b, pow-add a b, ap (λ t. 2 ^ a * t) (pow-suc 2 b)))

abbrev xor_digits : ℕ → ℕ → ℕ → ℕ
xor_digits n a b = digits (λ b. b) differ n a b

differ-one : (x : ℕ) → x < 2 → differ x 1 ≡ 1 - x
differ-one zero h = refl
differ-one (suc zero) h = refl
differ-one (suc (suc x)) h = absurd (omega arith)

differ-zero : (x : ℕ) → differ x 0 ≡ x
differ-zero zero = refl
differ-zero (suc x) = refl

-- A word flipped by the mask of all its bits.
xor_digits-ones : (n k a : ℕ) → a ≤ n → a < 2 ^ k → xor_digits n a (2 ^ k - 1) ≡ 2 ^ k - 1 - a
xor_digits-ones zero k zero h l = omega arith
xor_digits-ones zero k (suc a) h l = absurd (omega arith)
xor_digits-ones (suc n) k zero h l = omega arith
xor_digits-ones (suc n) zero (suc a) h l = absurd (omega arith)
xor_digits-ones (suc n) (suc k) (suc a) h l =
    let double : 2 ^ suc k ≡ 2 ^ k * 2 = pow-suc 2 k in
    let half : suc a / 2 < 2 ^ k = omega arith in
    let inner : xor_digits n (suc a / 2) (2 ^ k - 1) ≡ 2 ^ k - 1 - suc a / 2 =
      xor_digits-ones n k (suc a / 2) (omega arith) half in
    let high : (2 ^ suc k - 1) / 2 ≡ 2 ^ k - 1 = omega arith in
    let low : (2 ^ suc k - 1) % 2 ≡ 1 = omega arith in
    let bit = differ-one (suc a % 2) (omega arith) in rw (high, low, inner, bit) (omega arith)

pub bit_xor-ones : (k a : ℕ) → a < 2 ^ k → bit_xor a (2 ^ k - 1) ≡ 2 ^ k - 1 - a
bit_xor-ones k a l = bit_xor-bitwise a (2 ^ k - 1) ∙ xor_digits-ones a k a (omega arith) l

xor_digits-zero : (n a : ℕ) → a ≤ n → xor_digits n a 0 ≡ a
xor_digits-zero zero zero h = refl
xor_digits-zero zero (suc a) h = absurd (omega arith)
xor_digits-zero (suc n) zero h = refl
xor_digits-zero (suc n) (suc a) h =
    omega (arith, xor_digits-zero n (suc a / 2) (omega arith), differ-zero (suc a % 2))

pub bit_xor-zero : (a : ℕ) → bit_xor a 0 ≡ a
bit_xor-zero a = bit_xor-bitwise a 0 ∙ xor_digits-zero a a (omega arith)

-- The lowest bit.
and_digits-zero : (n a : ℕ) → digits (λ b. zero) min n a 0 ≡ 0
and_digits-zero zero a = refl
and_digits-zero (suc n) zero = refl
and_digits-zero (suc n) (suc a) = omega (arith, and_digits-zero n (suc a / 2))

pub bit_and-one : (a : ℕ) → bit_and a 1 ≡ a % 2
bit_and-one zero = bit_and-bitwise 0 1
bit_and-one (suc a) = bit_and-bitwise (suc a) 1 ∙ omega (arith, and_digits-zero a (suc a / 2))

-- The digits of a number above those of another.
or_digits-above :
    (n k a c : ℕ) → a ≤ n → a < 2 ^ k → digits (λ b. b) max n a (c * 2 ^ k) ≡ a + c * 2 ^ k
or_digits-above zero k zero c h l = omega arith
or_digits-above zero k (suc a) c h l = absurd (omega arith)
or_digits-above (suc n) k zero c h l = omega arith
or_digits-above (suc n) zero (suc a) c h l = absurd (omega arith)
or_digits-above (suc n) (suc k) (suc a) c h l =
    let double : 2 ^ suc k ≡ 2 ^ k * 2 = pow-suc 2 k in
    let even : c * 2 ^ suc k ≡ c * 2 ^ k * 2 = omega (arith, ap (λ (t : ℕ). c * t) double) in
    let half : suc a / 2 < 2 ^ k = omega arith in
    let inner : digits (λ b. b) max n (suc a / 2) (c * 2 ^ k) ≡ suc a / 2 + c * 2 ^ k =
      or_digits-above n k (suc a / 2) c (omega arith) half in
    let high : c * 2 ^ suc k / 2 ≡ c * 2 ^ k = omega arith in
    let low : c * 2 ^ suc k % 2 ≡ 0 = omega arith in rw (high, low, inner) (omega arith)

pub bit_or-above : (k a c : ℕ) → a < 2 ^ k → bit_or a (c * 2 ^ k) ≡ a + c * 2 ^ k
bit_or-above k a c l = bit_or-bitwise a (c * 2 ^ k) ∙ or_digits-above a k a c (omega arith) l

-- Two functions with the same values below a number, by evaluation.
abbrev same_below : (ℕ → ℕ) → (ℕ → ℕ) → ℕ → Bool
same_below f g zero = true
same_below f g (suc n) = f n == g n && same_below f g n

same_below-eq : (f g : ℕ → ℕ) (n : ℕ) → same_below f g n ≡ true → (i : ℕ) → i < n → f i ≡ g i
same_below-eq f g zero e i h = absurd (omega arith)
same_below-eq f g (suc n) e i h = ground (arith, same_below-eq f g n (ground arith) i)

pub byte_low : (b : ℕ) → b < 256 → bit_and b 0x7f ≡ b % 128
byte_low = same_below-eq (λ b. bit_and b 0x7f) (λ b. b % 128) 256 refl

pub byte_top : (b : ℕ) → b < 256 → bit_and b 0x80 ≡ b / 128 * 128
byte_top = same_below-eq (λ b. bit_and b 0x80) (λ b. b / 128 * 128) 256 refl
