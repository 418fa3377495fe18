-- ===== src/Varint/RoundTrip.antt =====
-- A writer of varints for `read_var_u64` of crates/decode/src/varint.rs.
use ozlrip.Prelude.{
  ℕ, zero, suc, ◌+◌, ◌*◌, ◌/◌, ◌%◌, ◌^◌, ◌≤◌, ◌<◌, ◌≡◌, refl, sym, ap, ◌∙◌, arith, bit_and, ◌&&◌,
  true, false, some, inl, inr, [], ◌∷◌, ◌++◌, length, length-append, append_assoc, get_elem?,
  get_elem?-behind, ltb, ◌==◌, lt→ltb, Bool-cases, if◌then◌else◌,
}
use ozlrip.Prelude.Bits.{pow-add, bit_or-above, byte_low, byte_top}
use ozlrip.Core.{Bytes, ok, usize_mod, u64_mod}
use ozlrip.Varint.{add_payload, read_var_loop, read_var_u64}
use ozlrip.Varint.Bounds.{round}

-- Groups of seven bits, the lowest first, each but the last with the top bit set.
unfoldable pub write_var : ℕ → ℕ → Bytes
write_var zero value = []
write_var (suc left) value =
    if ltb value 128 then value ∷ [] else (value % 128 + 128) ∷ write_var left (value / 128)

unfoldable pub write_var_u64 : ℕ → Bytes
write_var_u64 value = write_var 10 value

get-middle :
    (before after : Bytes) (b i : ℕ)
    → length before ≡ i
    → get_elem? (before ++ (b ∷ after)) i ≡ some b
get-middle before after b i e =
    let place : i ≡ length before + 0 = omega arith in
    ap (get_elem? (before ++ (b ∷ after))) place ∙ get_elem?-behind before (b ∷ after) 0

-- A group goes above what was read.
add_payload-sum :
    (value group index : ℕ)
    → value < 2 ^ (7 * index)
    → value + group * 2 ^ (7 * index) < u64_mod
    → add_payload value group index ≡ value + group * 2 ^ (7 * index)
add_payload-sum value group index low small =
    let whole : group * 2 ^ (7 * index) % u64_mod ≡ group * 2 ^ (7 * index) = omega arith in
    rw (add_payload, whole) (bit_or-above (7 * index) value group low)

-- In the tenth byte only the lowest bit is left.
not_over :
    (value group index : ℕ)
    → value + group * 2 ^ (7 * index) < u64_mod
    → (index == 9 && ltb 1 group) ≡ false
not_over value group index small = elim (Bool-cases (index == 9)) [
  | inl p ↦
      let last : index ≡ 9 = ground arith in
      let few : value + group * 2 ^ (7 * 9) < u64_mod = rw last at small in ground arith
  | inr p ↦ rw p refl
]

next_power : (index : ℕ) → 2 ^ (7 * (index + 1)) ≡ 128 * 2 ^ (7 * index)
next_power index =
    let more : 7 * (index + 1) ≡ 7 * index + 7 = omega arith in
    ap (λ k. 2 ^ k) more ∙ pow-add (7 * index) 7 ∙ omega arith

-- The last byte.
last_round :
    (left index value group start : ℕ) (before after : Bytes)
    → group < 128
    → value < 2 ^ (7 * index)
    → value + group * 2 ^ (7 * index) < u64_mod
    → length before ≡ start + index
    → start + index < usize_mod
    → read_var_loop (suc left) (before ++ (group ∷ after)) start index value
      ≡ ok (value + group * 2 ^ (7 * index), start + index + 1)
last_round left index value group start before after few low small at room =
    let fits : ltb (start + index) usize_mod ≡ true = lt→ltb _ _ room in
    let here = get-middle before after group (start + index) at in
    let payload : bit_and group 0x7f ≡ group = omega (arith, byte_low group (omega arith)) in
    let top : bit_and group 0x80 ≡ 0 = omega (arith, byte_top group (omega arith)) in
    let over = not_over value group index small in
    let sum = add_payload-sum value group index low small in
    round left (before ++ (group ∷ after)) start index value group fits here
    ∙ rw (payload, over, top) (ap (λ v. ok (v, start + index + 1)) sum)

-- A byte before the last one.
inner_round :
    (left index value group start : ℕ) (before after : Bytes)
    → group < 128
    → value < 2 ^ (7 * index)
    → value + group * 2 ^ (7 * index) < u64_mod
    → index < 9
    → length before ≡ start + index
    → start + index < usize_mod
    → read_var_loop (suc left) (before ++ ((group + 128) ∷ after)) start index value
      ≡ read_var_loop left
          (before ++ ((group + 128) ∷ after))
          start
          (index + 1)
          (value + group * 2 ^ (7 * index))
inner_round left index value group start before after few low small inside at room =
    let fits : ltb (start + index) usize_mod ≡ true = lt→ltb _ _ room in
    let here = get-middle before after (group + 128) (start + index) at in
    let payload : bit_and (group + 128) 0x7f ≡ group =
      omega (arith, byte_low (group + 128) (omega arith)) in
    let top : bit_and (group + 128) 0x80 ≡ 128 =
      omega (arith, byte_top (group + 128) (omega arith)) in
    let over = not_over value group index small in
    let sum = add_payload-sum value group index low small in
    let bytes = before ++ ((group + 128) ∷ after) in
    round left bytes start index value (group + 128) fits here
    ∙ rw (payload, over, top) (ap (read_var_loop left bytes start (index + 1)) sum)

regrouped : (value v p : ℕ) → value + v % 128 * p + v / 128 * (128 * p) ≡ value + v * p
regrouped value v p =
    let split : v ≡ v / 128 * 128 + v % 128 = omega arith in
    apart (v / 128) (v % 128) ∙ ap (λ t. value + t * p) (sym split)
  where
    apart : (q r : ℕ) → value + r * p + q * (128 * p) ≡ value + (q * 128 + r) * p
    apart q r = grind arith

below_next : (value group p : ℕ) → value < p → group < 128 → value + group * p < 128 * p
below_next value group p h few = let most : (group + 1) * p ≤ 128 * p = grind arith in grind arith

read_var_loop-write_var :
    (left index value v start : ℕ) (before after : Bytes)
    → left + index ≡ 9
    → value < 2 ^ (7 * index)
    → value + v * 2 ^ (7 * index) < u64_mod
    → length before ≡ start + index
    → start + 10 ≤ usize_mod
    → read_var_loop (suc left) (before ++ (write_var (suc left) v ++ after)) start index value
      ≡ ok (value + v * 2 ^ (7 * index), start + index + length (write_var (suc left) v))
unfolding write_var
read_var_loop-write_var zero index value v start before after rounds low small at room =
    let last : index ≡ 9 = omega arith in
    let few : value + v * 2 ^ (7 * 9) < u64_mod = rw last at small in
    let p : ltb v 128 ≡ true = ground arith in
    rw p (last_round zero index value v start before after (omega arith) low small at (omega arith))
read_var_loop-write_var (suc left) index value v start before after rounds low small at room =
    elim (Bool-cases (ltb v 128)) [
      | inl p ↦ rw p (
          last_round (suc left) index value v start before after (ground arith) low small at
            (omega arith))
      | inr p ↦
          let byte = v % 128 + 128 in
          let tail = write_var (suc left) (v / 128) ++ after in
          let power = 2 ^ (7 * index) in
          let next = next_power index in
          let parts = regrouped value v power in
          let part : value + v % 128 * power < u64_mod = omega arith in
          let low' : value + v % 128 * power < 2 ^ (7 * (index + 1)) =
            rw next (below_next value (v % 128) power low (omega arith)) in
          let whole : value + v % 128 * power + v / 128 * 2 ^ (7 * (index + 1))
              ≡ value + v * power =
            rw next parts in
          let at' : length (before ++ byte ∷ []) ≡ start + (index + 1) =
            omega (arith, length-append before (byte ∷ [])) in
          let end : start + (index + 1) + length (write_var (suc left) (v / 128))
              ≡ start + index + suc (length (write_var (suc left) (v / 128))) =
            omega arith in
          let rest =
            read_var_loop-write_var left (index + 1) (value + v % 128 * power) (v / 128) start
              (before ++ byte ∷ []) after (omega arith) low' (rw whole small) at' room in
          rw p (
            inner_round (suc left) index value (v % 128) start before tail (omega arith) low part
              (omega arith) at (omega arith)
            ∙ ap
                (λ bytes.
                  read_var_loop (suc left) bytes start (index + 1) (value + v % 128 * power))
                (sym (append_assoc before (byte ∷ []) tail))
            ∙ rest
            ∙ ap (λ o. ok (value + v % 128 * power + v / 128 * 2 ^ (7 * (index + 1)), o)) end
            ∙ ap (λ u. ok (u, start + index + suc (length (write_var (suc left) (v / 128))))) whole)
    ]

-- For a number below 2 ^ 64 and an offset of at most 2 ^ 64 - 10: reading at the offset where the number
-- was written returns the number and the offset behind it, whatever bytes stand before and after.
pub read_var_u64-write_var_u64 :
    (value : ℕ) (before after : Bytes)
    → value < u64_mod
    → length before + 10 ≤ usize_mod
    → read_var_u64 (before ++ (write_var_u64 value ++ after)) (length before)
      ≡ ok (value, length before + length (write_var_u64 value))
unfolding read_var_u64 write_var_u64
read_var_u64-write_var_u64 value before after small room =
    let all : 0 + value * 2 ^ (7 * 0) ≡ value = omega arith in
    let start : length before + 0 ≡ length before = omega arith in
    let read =
      read_var_loop-write_var 9 0 0 value (length before) before after refl (omega arith)
        (rw all small) (omega arith) room in
    read
    ∙ ap (λ u. ok (u, length before + 0 + length (write_var 10 value))) all
    ∙ ap (λ o. ok (value, o + length (write_var 10 value))) start
