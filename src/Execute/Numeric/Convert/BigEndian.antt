-- ===== src/Execute/Numeric/Convert/BigEndian.antt =====
-- The conversion from big-endian structs and the numbers in its elements:
-- crates/decode/src/execute/numeric/convert.rs.
use ozlrip.Prelude.{
  length, take, drop, reverse, length-append, length-take, length-drop, take-drop, ℕ, zero, suc,
  ◌+◌, ◌*◌, ◌/◌, ◌%◌, ◌^◌, ◌≤◌, ◌≡◌, refl, sym, ap, ◌∙◌, true, Option, List, [], ◌∷◌, ◌++◌, map,
  append-nil, append_assoc, arith,
}
use ozlrip.Core.{Bytes, ok, Limits}
use ozlrip.Execute.Streams.{typed_stream, require_empty_header}
use ozlrip.Execute.Output.{check_output_len}
use ozlrip.Execute.Elements.{
  from_le_bytes, chunks, chunks_exact, is_numeric_width, validate_numeric_stream_width,
}
use ozlrip.Execute.Elements.Values.{
  elements, take-length-append, drop-length-append, is_numeric_width-pos, is_multiple_of-true,
}
use ozlrip.Execute.Numeric.Convert.{
  swap_bytes, decode_big_endian_numeric_conversion, decode_struct_to_num_be_chunk,
}
use native.Mathlib.Nat.{mod-add-div'}

length-reverse : (xs : Bytes) → length (reverse xs) ≡ length xs
length-reverse [] = refl
length-reverse (x ∷ xs) = omega (arith, length-append (reverse xs) (x ∷ []), length-reverse xs)

reverse-append : (xs ys : Bytes) → reverse (xs ++ ys) ≡ reverse ys ++ reverse xs
reverse-append [] ys = sym (append-nil (reverse ys))
reverse-append (x ∷ xs) ys =
    ap (λ t. t ++ x ∷ []) (reverse-append xs ys) ∙ append_assoc (reverse ys) (reverse xs) (x ∷ [])

reverse-reverse : (xs : Bytes) → reverse (reverse xs) ≡ xs
reverse-reverse [] = refl
reverse-reverse (x ∷ xs) = reverse-append (reverse xs) (x ∷ []) ∙ ap (◌∷◌ x) (reverse-reverse xs)

length-swap_bytes :
    (count w : ℕ) (bytes : Bytes)
    → length bytes ≡ count * w
    → length (swap_bytes (chunks count w bytes)) ≡ length bytes
unfolding swap_bytes
length-swap_bytes zero w bytes h = omega arith
length-swap_bytes (suc count) w bytes h =
    let long : w ≤ length bytes = grind arith in
    let front = take w bytes in
    let back = drop w bytes in
    let rest = length-swap_bytes count w back (omega (arith, length-drop w bytes)) in
    omega (
      arith,
      length-append (reverse front) (swap_bytes (chunks count w back)),
      length-reverse front,
      length-take w bytes,
      length-drop w bytes,
    )

swap_bytes-twice :
    (count w : ℕ) (bytes : Bytes)
    → length bytes ≡ count * w
    → swap_bytes (chunks count w (swap_bytes (chunks count w bytes))) ≡ bytes
unfolding swap_bytes
swap_bytes-twice zero w [] h = refl
swap_bytes-twice zero w (b ∷ bytes) h = absurd (omega arith)
swap_bytes-twice (suc count) w bytes h =
    let long : w ≤ length bytes = grind arith in
    let front = take w bytes in
    let others = swap_bytes (chunks count w (drop w bytes)) in
    let size : length (reverse front) ≡ w =
      omega (arith, length-reverse front, length-take w bytes) in
    let first : take w (reverse front ++ others) ≡ reverse front =
      rw size at (take-length-append (reverse front) others) in
    let after : drop w (reverse front ++ others) ≡ others =
      rw size at (drop-length-append (reverse front) others) in
    rw
      (
        first,
        after,
        reverse-reverse front,
        swap_bytes-twice count w (drop w bytes) (omega (arith, length-drop w bytes)),
      )
      (take-drop w bytes)

carried : (x a p b : ℕ) → x + 256 * (a + p * b) ≡ x + 256 * a + 256 * p * b
carried x a p b = grind arith

from_le_bytes-append :
    (xs ys : Bytes)
    → from_le_bytes (xs ++ ys) ≡ from_le_bytes xs + 256 ^ length xs * from_le_bytes ys
from_le_bytes-append [] ys = omega arith
from_le_bytes-append (x ∷ xs) ys =
    let power : 256 ^ suc (length xs) ≡ 256 * 256 ^ length xs = grind arith in
    rw (from_le_bytes-append xs ys, power)
      (carried x (from_le_bytes xs) (256 ^ length xs) (from_le_bytes ys))

-- The number whose most significant byte comes first.
abbrev pub from_be_bytes : Bytes → ℕ
from_be_bytes [] = 0
from_be_bytes (b ∷ bs) = b * 256 ^ length bs + from_be_bytes bs

from_le_bytes-reverse : (bs : Bytes) → from_le_bytes (reverse bs) ≡ from_be_bytes bs
from_le_bytes-reverse [] = refl
from_le_bytes-reverse (b ∷ bs) =
    let split = from_le_bytes-append (reverse bs) (b ∷ []) in
    let size = length-reverse bs in
    let rest = from_le_bytes-reverse bs in rw (split, size, rest) (grind arith)

-- The bytes of an element, least significant first in the swapped stream, are most significant first in
-- the stream.
swap_bytes-values :
    (count w : ℕ) (bytes : Bytes)
    → length bytes ≡ count * w
    → map from_le_bytes (chunks count w (swap_bytes (chunks count w bytes)))
      ≡ map from_be_bytes (chunks count w bytes)
unfolding swap_bytes
swap_bytes-values zero w bytes h = refl
swap_bytes-values (suc count) w bytes h =
    let long : w ≤ length bytes = grind arith in
    let front = take w bytes in
    let others = swap_bytes (chunks count w (drop w bytes)) in
    let size : length (reverse front) ≡ w =
      omega (arith, length-reverse front, length-take w bytes) in
    let first : take w (reverse front ++ others) ≡ reverse front =
      rw size at (take-length-append (reverse front) others) in
    let after : drop w (reverse front ++ others) ≡ others =
      rw size at (drop-length-append (reverse front) others) in
    let rest = swap_bytes-values count w (drop w bytes) (omega (arith, length-drop w bytes)) in
    rw (first, after, from_le_bytes-reverse front) (ap (◌∷◌ (from_be_bytes front)) rest)

-- On whole elements of a numeric width within the limits the conversion from big-endian structs returns
-- a stream of the same length whose elements, read with the least significant byte first, are the
-- elements of the source read with the most significant byte first, and on that stream the conversion
-- returns the source.
pub decode_struct_to_num_be_chunk-from_be_bytes :
    (w : ℕ) (bytes : Bytes) (lengths : Option (List ℕ)) (limits : Limits)
    → is_numeric_width w ≡ true
    → length bytes % w ≡ 0
    → check_output_len (length bytes) limits ≡ ok tt
    → (swapped : Bytes) × (decode_struct_to_num_be_chunk
          (record { bytes = bytes; element_width = w; string_lengths = lengths })
          []
          limits
        ≡ ok (typed_stream swapped w))
      × (length swapped ≡ length bytes)
      × (elements w swapped ≡ map from_be_bytes (chunks_exact w bytes))
      × (decode_struct_to_num_be_chunk
            (record { bytes = swapped; element_width = w; string_lengths = lengths })
            []
            limits
          ≡ ok (typed_stream bytes w))
unfolding decode_struct_to_num_be_chunk decode_big_endian_numeric_conversion
    validate_numeric_stream_width chunks_exact require_empty_header elements
decode_struct_to_num_be_chunk-from_be_bytes w bytes lengths limits e whole room =
    let count : length bytes ≡ length bytes / w * w =
      omega (arith, mod-add-div' (length bytes) w) in
    let swapped = swap_bytes (chunks (length bytes / w) w bytes) in
    let same : length swapped ≡ length bytes = length-swap_bytes (length bytes / w) w bytes count in
    let multiple = is_multiple_of-true (length bytes) w (is_numeric_width-pos w e) whole in
    (
      swapped,
      rw (e, room, multiple) refl,
      same,
      rw same (swap_bytes-values (length bytes / w) w bytes count),
      rw (e, same, room, multiple, swap_bytes-twice (length bytes / w) w bytes count) refl,
    )
