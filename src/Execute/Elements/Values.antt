-- ===== src/Execute/Elements/Values.antt =====
-- The numbers that a numeric stream holds.
use ozlrip.Prelude.{
  ltb, ◌==◌, Bool-cases, length, take, drop, All, length-append, length-take, length-drop,
  take-drop, All-take, All-drop, ℕ, zero, suc, ◌*◌, ◌/◌, ◌%◌, ◌^◌, ◌≤◌, ◌<◌, ◌≡◌, refl, sym, ap,
  ◌∙◌, inl, inr, Bool, true, false, ◌&&◌, List, [], ◌∷◌, ◌++◌, map, append_assoc, arith,
}
use ozlrip.Core.{Bytes, IsByte, ok, u64_mod}
use ozlrip.Execute.Elements.{
  from_le_bytes, to_le_bytes, chunks, chunks_exact, is_numeric_width, is_multiple_of,
  numeric_element_count,
}
use ozlrip.Execute.Elements.Words.{
  length-to_le_bytes, from_le_bytes-to_le_bytes, to_le_bytes-from_le_bytes, from_le_bytes-bound,
}
use native.Mathlib.Nat.{mod-add-div', mul-div_cancel}

unfoldable pub elements : ℕ → Bytes → List ℕ
elements w bytes = map from_le_bytes (chunks_exact w bytes)

unfoldable pub bytes_of : ℕ → List ℕ → Bytes
bytes_of w [] = []
bytes_of w (value ∷ values) = to_le_bytes w value ++ bytes_of w values

pub length-bytes_of : (w : ℕ) (values : List ℕ) → length (bytes_of w values) ≡ length values * w
unfolding bytes_of
length-bytes_of w [] = omega arith
length-bytes_of w (value ∷ values) = omega (
  arith,
  length-append (to_le_bytes w value) (bytes_of w values),
  length-to_le_bytes w value,
  length-bytes_of w values,
)

pub bytes_of-append :
    (w : ℕ) (xs ys : List ℕ) → bytes_of w (xs ++ ys) ≡ bytes_of w xs ++ bytes_of w ys
unfolding bytes_of
bytes_of-append w [] ys = refl
bytes_of-append w (x ∷ xs) ys =
    ap (λ t. to_le_bytes w x ++ t) (bytes_of-append w xs ys)
    ∙ sym (append_assoc (to_le_bytes w x) (bytes_of w xs) (bytes_of w ys))

pub take-length-append : (xs ys : Bytes) → take (length xs) (xs ++ ys) ≡ xs
take-length-append [] ys = refl
take-length-append (x ∷ xs) ys = ap (◌∷◌ x) (take-length-append xs ys)

pub drop-length-append : (xs ys : Bytes) → drop (length xs) (xs ++ ys) ≡ ys
drop-length-append [] ys = refl
drop-length-append (x ∷ xs) ys = drop-length-append xs ys

-- Cutting written elements apart gives them back.
pub chunks-bytes_of :
    (w : ℕ) (values : List ℕ)
    → chunks (length values) w (bytes_of w values) ≡ map (to_le_bytes w) values
unfolding bytes_of
chunks-bytes_of w [] = refl
chunks-bytes_of w (value ∷ values) =
    let front : take w (to_le_bytes w value ++ bytes_of w values) ≡ to_le_bytes w value =
      rw (length-to_le_bytes w value) at
        (take-length-append (to_le_bytes w value) (bytes_of w values)) in
    let back : drop w (to_le_bytes w value ++ bytes_of w values) ≡ bytes_of w values =
      rw (length-to_le_bytes w value) at
        (drop-length-append (to_le_bytes w value) (bytes_of w values)) in
    rw (front, back) (ap (◌∷◌ (to_le_bytes w value)) (chunks-bytes_of w values))

-- Values too large for the width keep their low bits.
unfoldable pub wrapped : ℕ → List ℕ → List ℕ
wrapped w values = map (λ value. value % 2 ^ (8 * w)) values

from_le_bytes-each :
    (w : ℕ) (values : List ℕ) → map from_le_bytes (map (to_le_bytes w) values) ≡ wrapped w values
unfolding wrapped
from_le_bytes-each w [] = refl
from_le_bytes-each w (value ∷ values) =
    rw (from_le_bytes-to_le_bytes w value)
      (ap (◌∷◌ (value % 2 ^ (8 * w))) (from_le_bytes-each w values))

pub elements-bytes_of :
    (w : ℕ) (values : List ℕ) → 0 < w → elements w (bytes_of w values) ≡ wrapped w values
unfolding elements chunks_exact
elements-bytes_of w values h =
    let count : length (bytes_of w values) / w ≡ length values =
      rw (length-bytes_of w values) (mul-div_cancel (length values) h) in
    rw (count, chunks-bytes_of w values) (from_le_bytes-each w values)

-- Whole elements, written again.
bytes_of-chunks :
    (count w : ℕ) (bytes : Bytes)
    → length bytes ≡ count * w
    → All IsByte bytes
    → bytes_of w (map from_le_bytes (chunks count w bytes)) ≡ bytes
unfolding bytes_of
bytes_of-chunks zero w [] h all = refl
bytes_of-chunks zero w (b ∷ bs) h all = absurd (omega arith)
bytes_of-chunks (suc count) w bytes h all =
    let long : w ≤ length bytes = grind arith in
    let front : length (take w bytes) ≡ w = omega (arith, length-take w bytes) in
    let first : to_le_bytes w (from_le_bytes (take w bytes)) ≡ take w bytes =
      rw front at (to_le_bytes-from_le_bytes (take w bytes) (All-take IsByte w bytes all)) in
    let rest =
      bytes_of-chunks count w (drop w bytes) (omega (arith, length-drop w bytes))
        (All-drop IsByte w bytes all) in
    rw (first, rest) (take-drop w bytes)

pub bytes_of-elements :
    (w : ℕ) (bytes : Bytes)
    → length bytes % w ≡ 0
    → All IsByte bytes
    → bytes_of w (elements w bytes) ≡ bytes
unfolding elements chunks_exact
bytes_of-elements w bytes h all =
    bytes_of-chunks (length bytes / w) w bytes (omega (arith, mod-add-div' (length bytes) w)) all

pub length-map : (f : ℕ → ℕ) (xs : List ℕ) → length (map f xs) ≡ length xs
length-map f [] = refl
length-map f (x ∷ xs) = ap suc (length-map f xs)

length-chunks :
    (count w : ℕ) (bytes : Bytes) → length (map from_le_bytes (chunks count w bytes)) ≡ count
length-chunks zero w bytes = refl
length-chunks (suc count) w bytes = ap suc (length-chunks count w (drop w bytes))

pub length-elements : (w : ℕ) (bytes : Bytes) → length (elements w bytes) ≡ length bytes / w
unfolding elements chunks_exact
length-elements w bytes = length-chunks (length bytes / w) w bytes

chunks-AllWords :
    (count w : ℕ) (bytes : Bytes)
    → length bytes ≡ count * w
    → All IsByte bytes
    → All (λ value. value < 2 ^ (8 * w)) (map from_le_bytes (chunks count w bytes))
chunks-AllWords zero w bytes h all = tt
chunks-AllWords (suc count) w bytes h all =
    let long : w ≤ length bytes = grind arith in
    let front : length (take w bytes) ≡ w = omega (arith, length-take w bytes) in
    let first : from_le_bytes (take w bytes) < 2 ^ (8 * w) =
      rw front at (from_le_bytes-bound (take w bytes) (All-take IsByte w bytes all)) in
    (
      first,
      chunks-AllWords count w (drop w bytes) (omega (arith, length-drop w bytes))
          (All-drop IsByte w bytes all),
    )

pub elements-AllWords :
    (w : ℕ) (bytes : Bytes)
    → length bytes % w ≡ 0
    → All IsByte bytes
    → All (λ value. value < 2 ^ (8 * w)) (elements w bytes)
unfolding elements chunks_exact
elements-AllWords w bytes h all =
    chunks-AllWords (length bytes / w) w bytes (omega (arith, mod-add-div' (length bytes) w)) all

pub is_numeric_width-pos : (w : ℕ) → is_numeric_width w ≡ true → 0 < w
unfolding is_numeric_width
is_numeric_width-pos w e = ground arith

pub is_multiple_of-true : (n w : ℕ) → 0 < w → n % w ≡ 0 → is_multiple_of n w ≡ true
is_multiple_of-true n w h e = ground arith

pub numeric_element_count-whole :
    (w : ℕ) (bytes : Bytes)
    → 0 < w
    → length bytes % w ≡ 0
    → numeric_element_count bytes w ≡ ok (length bytes / w)
unfolding numeric_element_count
numeric_element_count-whole w bytes h whole =
    let multiple = is_multiple_of-true (length bytes) w h whole in
    let divides : (w == 0) ≡ false = ground arith in rw (multiple, divides) refl

-- Every chunk is one element long.
chunks-width :
    (count w : ℕ) (bytes : Bytes)
    → length bytes ≡ count * w
    → All (λ (chunk : Bytes). length chunk ≡ w) (chunks count w bytes)
chunks-width zero w bytes h = tt
chunks-width (suc count) w bytes h =
    let long : w ≤ length bytes = grind arith in
    (
      omega (arith, length-take w bytes),
      chunks-width count w (drop w bytes) (omega (arith, length-drop w bytes)),
    )

pub chunks_exact-width :
    (w : ℕ) (bytes : Bytes)
    → length bytes % w ≡ 0
    → All (λ (chunk : Bytes). length chunk ≡ w) (chunks_exact w bytes)
unfolding chunks_exact
chunks_exact-width w bytes whole =
    chunks-width (length bytes / w) w bytes (omega (arith, mod-add-div' (length bytes) w))

-- No numeric word is wider than 64 bits.
pub word_mod-u64 : (w : ℕ) → is_numeric_width w ≡ true → 2 ^ (8 * w) ≤ u64_mod
unfolding is_numeric_width
word_mod-u64 w e = elim (Bool-cases (w == 1)) [
  | inl p ↦ let only : w ≡ 1 = ground arith in rw only (omega arith)
  | inr p ↦ elim (Bool-cases (w == 2)) [
    | inl q ↦ let only : w ≡ 2 = ground arith in rw only (omega arith)
    | inr q ↦ elim (Bool-cases (w == 4)) [
      | inl r ↦ let only : w ≡ 4 = ground arith in rw only (omega arith)
      | inr r ↦ let only : w ≡ 8 = ground arith in rw only (omega arith)
    ]
  ]
]

-- All of the values fit a word.
abbrev pub all_fit : ℕ → List ℕ → Bool
all_fit bound [] = true
all_fit bound (value ∷ values) = ltb value bound && all_fit bound values
