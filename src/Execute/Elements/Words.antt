-- ===== src/Execute/Elements/Words.antt =====
-- Little-endian words.
use ozlrip.Prelude.{
  ltb→lt, length, All, ℕ, zero, suc, ◌+◌, ◌*◌, ◌/◌, ◌%◌, ◌^◌, ◌<◌, ◌≡◌, refl, sym, ap, ◌∙◌, [], ◌∷◌,
  arith,
}
use ozlrip.Prelude.Bits.{pow-add}
use ozlrip.Core.{Bytes, IsByte}
use ozlrip.Execute.Elements.{from_le_bytes, to_le_bytes}
use native.Mathlib.Nat.{div-add-mod, add-mul-mod_self_left, mod-eq_of_lt, mod-lt, mul_assoc}

pub length-to_le_bytes : (w value : ℕ) → length (to_le_bytes w value) ≡ w
length-to_le_bytes zero value = refl
length-to_le_bytes (suc w) value = ap suc (length-to_le_bytes w (value / 256))

-- The low byte and the rest of a word.
split-mod : (value m : ℕ) → 0 < m → value % (256 * m) ≡ value % 256 + 256 * (value / 256 % m)
split-mod value m h =
    let q = value / 256 in
    let low = value % 256 + 256 * (q % m) in
    let whole : value ≡ low + 256 * m * (q / m) =
      omega (arith, ap (λ t. 256 * t) (div-add-mod q m), mul_assoc 256 m (q / m)) in
    let small : q % m < m = mod-lt q h in
    ap (λ t. t % (256 * m)) whole
    ∙ add-mul-mod_self_left low (256 * m) (q / m)
    ∙ mod-eq_of_lt (omega arith)

pub word_mod : (w : ℕ) → 2 ^ (8 * suc w) ≡ 256 * 2 ^ (8 * w)
word_mod w = let sum : 8 * suc w ≡ 8 + 8 * w = omega arith in rw sum (pow-add 8 (8 * w))

pub word_mod-pos : (w : ℕ) → 0 < 2 ^ (8 * w)
word_mod-pos zero = omega arith
word_mod-pos (suc w) = omega (arith, word_mod w, word_mod-pos w)

pub from_le_bytes-to_le_bytes :
    (w value : ℕ) → from_le_bytes (to_le_bytes w value) ≡ value % 2 ^ (8 * w)
from_le_bytes-to_le_bytes zero value = omega arith
from_le_bytes-to_le_bytes (suc w) value = rw (word_mod w) (
    ap (λ t. value % 256 + 256 * t) (from_le_bytes-to_le_bytes w (value / 256))
    ∙ sym (split-mod value (2 ^ (8 * w)) (word_mod-pos w)))

pub to_le_bytes-from_le_bytes :
    (bytes : Bytes) → All IsByte bytes → to_le_bytes (length bytes) (from_le_bytes bytes) ≡ bytes
to_le_bytes-from_le_bytes [] tt = refl
to_le_bytes-from_le_bytes (b ∷ bs) (h, hs) =
    let low : b < 256 = ltb→lt b 256 h in
    let first : (b + 256 * from_le_bytes bs) % 256 ≡ b = omega arith in
    let next : (b + 256 * from_le_bytes bs) / 256 ≡ from_le_bytes bs = omega arith in
    rw (first, next) (ap (◌∷◌ b) (to_le_bytes-from_le_bytes bs hs))

pub from_le_bytes-bound :
    (bytes : Bytes) → All IsByte bytes → from_le_bytes bytes < 2 ^ (8 * length bytes)
from_le_bytes-bound [] tt = omega arith
from_le_bytes-bound (b ∷ bs) (h, hs) =
    omega (arith, word_mod (length bs), from_le_bytes-bound bs hs, ltb→lt b 256 h)
