-- ===== src/Execute/Numeric/Repeat/Doubling.antt =====
-- The doubling loop of `constant` ends, with the element repeated.
use ozlrip.Varint
use ozlrip.Prelude.{
  ltb, leb, ◌==◌, lt→ltb, leb→le, ltb→lt, Bool-cases, length, take, replicate, length-append, ℕ,
  zero, suc, ◌+◌, ◌-◌, ◌*◌, ◌≤◌, ◌<◌, min, ◌≡◌, refl, sym, ap, ◌∙◌, inl, inr, true, false, Option,
  List, [], ◌∷◌, ◌++◌, append-nil, append_assoc, arith,
}
use ozlrip.Core.{Bytes, ok, ◌>>=◌, index, usize_mod, checked_mul, usize_from, Limits, >>=-eq-ok}
use ozlrip.Execute.Streams.{Buffer, pooled_stream}
use ozlrip.Execute.Output.{check_output_len}
use ozlrip.Execute.Runtime.{DecodeScratch, take_pooled_or_new, take_byte_buffer}
use ozlrip.Execute.Elements.{read_var_u64}
use ozlrip.Execute.Elements.Values.{take-length-append}
use ozlrip.Execute.Numeric.Repeat.{
  resize_with, double, repeat_constant_element, output_elements, decode_constant_typed_chunk,
}

unfoldable pub repeated : ℕ → Bytes → Bytes
repeated zero element = []
repeated (suc count) element = element ++ repeated count element

min-scale : (a b w : ℕ) → min (a * w) (b * w) ≡ min a b * w
min-scale a b w = elim (Bool-cases (leb a b)) [
  | inl p ↦
      let le : a * w ≤ b * w = let h : a ≤ b = leb→le a b p in grind arith in
      let least : min a b ≡ a = ground arith in rw least (omega arith)
  | inr p ↦
      let le : b * w ≤ a * w = let h : b ≤ a = ground arith in grind arith in
      let least : min a b ≡ b = ground arith in rw least (omega arith)
]

module _ (element : Bytes) where
  length-repeated : (count : ℕ) → length (repeated count element) ≡ count * length element
  unfolding repeated
  length-repeated zero = omega arith
  length-repeated (suc count) =
      omega (arith, length-append element (repeated count element), length-repeated count)

  repeated-append : (a b : ℕ) → repeated a element ++ repeated b element ≡ repeated (a + b) element
  unfolding repeated
  repeated-append zero b = let same : 0 + b ≡ b = omega arith in rw same refl
  repeated-append (suc a) b =
      let next : suc a + b ≡ suc (a + b) = omega arith in
      rw next (
        append_assoc element (repeated a element) (repeated b element)
        ∙ ap (λ t. element ++ t) (repeated-append a b))

  take-repeated :
      (a b : ℕ) → a ≤ b → take (a * length element) (repeated b element) ≡ repeated a element
  take-repeated a b h =
      let whole : a + (b - a) ≡ b = omega arith in
      let split : repeated b element ≡ repeated a element ++ repeated (b - a) element =
        ap (λ n. repeated n element) (sym whole) ∙ sym (repeated-append a (b - a)) in
      rw (split, sym (length-repeated a))
        (take-length-append (repeated a element) (repeated (b - a) element))

  -- All copies are there.
  all_there :
      (have count : ℕ)
      → have ≡ count
      → ltb (length (repeated have element)) (count * length element) ≡ false
  all_there have count e = rw (e, length-repeated count) (ground arith)

  -- Some are missing.
  missing :
      (have count : ℕ)
      → 0 < length element
      → have < count
      → ltb (length (repeated have element)) (count * length element) ≡ true
  missing have count w h =
      let less : have * length element < count * length element = grind arith in
      rw (length-repeated have) (lt→ltb (have * length element) (count * length element) less)

  copied :
      (have count : ℕ)
      → have ≤ count
      → min
          (length (repeated have element))
          (count * length element - length (repeated have element))
        ≡ min have (count - have) * length element
  copied have count h =
      let split : count * length element - have * length element ≡ (count - have) * length element =
        grind arith in
      rw (length-repeated have, split) (min-scale have (count - have) (length element))

-- From some copies of the element the loop reaches all of them.
double-repeated :
    (element : Bytes) (fuel count have : ℕ)
    → 0 < length element
    → 0 < have
    → have ≤ count
    → count ≤ have + fuel
    → double fuel (count * length element) (repeated have element) ≡ ok (repeated count element)
unfolding double
double-repeated element zero count have w h le enough =
    let same : have ≡ count = omega arith in rw (all_there element have count same, same) refl
double-repeated element (suc fuel) count have w h le enough = elim (Bool-cases (ltb have count)) [
  | inr p ↦
      let same : have ≡ count = ground arith in rw (all_there element have count same, same) refl
  | inl p ↦
      let less : have < count = ltb→lt have count p in
      let more = min have (count - have) in
      let rest =
        double-repeated element fuel count (have + more) w (omega arith) (omega arith)
          (omega arith) in
      let joined : repeated have element ++ take (more * length element) (repeated have element)
          ≡ repeated (have + more) element =
        ap (λ t. repeated have element ++ t) (take-repeated element more have (omega arith))
        ∙ repeated-append element have more in
      rw (missing element have count w less, copied element have count le, joined) rest
]

one_byte : (b count : ℕ) → replicate count b ≡ repeated count (b ∷ [])
unfolding repeated
one_byte b zero = refl
one_byte b (suc count) = ap (◌∷◌ b) (one_byte b count)

take-nil : (n : ℕ) → take {A = ℕ} n [] ≡ []
take-nil zero = refl
take-nil (suc n) = refl

one_copy : (element : Bytes) → element ≡ repeated 1 element
unfolding repeated
one_copy element = sym (append-nil element)

repeat_one :
    (element : Bytes) (count : ℕ)
    → length element ≡ 1
    → (index element 0 >>= λ value. ok (resize_with count value [])) ≡ ok (repeated count element)
unfolding resize_with
repeat_one [] count h = absurd (omega arith)
repeat_one (b ∷ c ∷ bs) count h = absurd (omega arith)
repeat_one (b ∷ []) count h =
    let whole : count - 0 ≡ count = omega arith in
    rw (whole, take-nil count) (ap ok (one_byte b count))

-- Into an empty buffer, one element of a byte or more is written as many times as asked, at least once:
-- the doubling loop ends within as many rounds as the output has bytes, and nothing panics.
pub repeat_constant_element-repeated :
    (element : Bytes) (count : ℕ)
    → 0 < length element
    → 0 < count
    → repeat_constant_element element (count * length element) [] ≡ ok (repeated count element)
unfolding repeat_constant_element
repeat_constant_element-repeated element count w h = elim (Bool-cases (length element == 1)) [
  | inl p ↦
      let only : length element ≡ 1 = ground arith in
      let bytes : count * length element ≡ count = rw only (omega arith) in
      rw (p, bytes) (repeat_one element count only)
  | inr p ↦
      let size = count * length element in
      let enough : count ≤ 1 + count * length element = grind arith in
      rw p (
        ap (double size size) (one_copy element)
        ∙ double-repeated element size count 1 w (omega arith) h enough)
]

output_elements-read :
    (header : Bytes) (count : ℕ)
    → 0 < count
    → count < usize_mod
    → Varint.read_var_u64 header 0 ≡ ok (count, length header)
    → output_elements header ≡ ok count
unfolding output_elements usize_from read_var_u64
output_elements-read header count some_elements small read =
    let all : (length header == length header) ≡ true = ground arith in
    let filled : (count == 0) ≡ false = ground arith in
    let fits : ltb count usize_mod ≡ true = lt→ltb _ _ small in rw (read, all, filled, fits) refl

take_byte_buffer-empty :
    (allocate : ℕ → Option ℕ) (scratch : DecodeScratch) (request : ℕ) (buffer : Buffer)
    (rest : DecodeScratch)
    → take_byte_buffer allocate scratch request ≡ ok (buffer, rest)
    → buffer.bytes ≡ []
unfolding take_byte_buffer
take_byte_buffer-empty allocate scratch request buffer rest e =
    let ((given, left), _, e1) = >>=-eq-ok (take_pooled_or_new allocate scratch request) _ e in cc

-- On one element of a byte or more and a header that is one varint, of a count above 0, with an output
-- shorter than 2 ^ 64 bytes and within the limits, on every pool that hands out a buffer: the constant
-- node returns the element as many times as the header says, in the buffer handed out.
pub decode_constant_typed_chunk-repeated :
    (allocate : ℕ → Option ℕ) (bytes header : Bytes) (count : ℕ) (lengths : Option (List ℕ))
    → (limits : Limits) (scratch rest : DecodeScratch) (buffer : Buffer) → 0 < length bytes
    → 0 < count
    → Varint.read_var_u64 header 0 ≡ ok (count, length header)
    → count * length bytes < usize_mod
    → check_output_len (count * length bytes) limits ≡ ok tt
    → take_byte_buffer allocate scratch (count * length bytes) ≡ ok (buffer, rest)
    → decode_constant_typed_chunk allocate
        (record { bytes = bytes; element_width = length bytes; string_lengths = lengths })
        header
        limits
        scratch
      ≡ ok (
        pooled_stream
            (record { bytes = repeated count bytes; capacity = buffer.capacity })
            (length bytes),
        rest,
      )
unfolding decode_constant_typed_chunk checked_mul
decode_constant_typed_chunk-repeated allocate bytes header count lengths limits scratch rest buffer
      w some_copies read small room taken =
    let few : count < usize_mod = grind arith in
    let counted = output_elements-read header count some_copies few read in
    let wide : (length bytes == 0) ≡ false = ground arith in
    let same : (length bytes == length bytes) ≡ true = ground arith in
    let fits : ltb (count * length bytes) usize_mod ≡ true = lt→ltb _ _ small in
    let clean = take_byte_buffer-empty allocate scratch (count * length bytes) buffer rest taken in
    let filled = repeat_constant_element-repeated bytes count w some_copies in
    rw (wide, same, counted, fits, room, taken, clean, filled) refl
