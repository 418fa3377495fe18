-- ===== src/Parse/Plan/Layout.antt =====
-- Where a chunk's payload puts its transform headers and stored streams.
use ozlrip.Prelude.{
  ℕ, ◌+◌, ◌≡◌, refl, sym, ap, arith, true, List, [], ◌∷◌, length, suc, ◌↔◌, ◌==◌, not, ◌||◌,
}
use ozlrip.Core.{ok, >>=-eq-ok, checked_add, fail_if}
use ozlrip.Core.Safe.{checked_add-eq}
use ozlrip.Parse.Checks.{validate_ranges}
use ozlrip.Parse.Plan.{ByteRange, ChunkPlan, ranges_from, set_payload_start}

-- The ranges have the given sizes and follow each other without a gap from `start` on.
abbrev pub AreAdjacent : ℕ → List ℕ → List ByteRange → Type 0
AreAdjacent start [] [] = Unit
AreAdjacent start [] (range ∷ ranges) = ⊥
AreAdjacent start (size ∷ sizes) [] = ⊥
AreAdjacent start (size ∷ sizes) (range ∷ ranges) =
    (range.start ≡ start) × (range.len ≡ size) × AreAdjacent (start + size) sizes ranges

==-refl : (n : ℕ) → (n == n) ≡ true
==-refl n = ground arith

ranges_from-AreAdjacent :
    (start : ℕ) (sizes : List ℕ) (ranges : List ByteRange)
    → ranges_from start sizes ≡ ok ranges
    → AreAdjacent start sizes ranges
unfolding ranges_from
ranges_from-AreAdjacent start [] [] e = tt
ranges_from-AreAdjacent start [] (range ∷ ranges) e = absurd (cc)
ranges_from-AreAdjacent start (size ∷ sizes) ranges e =
    let (next, p, h) = >>=-eq-ok (checked_add start size) _ e in
    let (rest, q, k) = >>=-eq-ok (ranges_from next sizes) _ h in
    let first : ByteRange = record { start = start; len = size } in
    let same : (first ∷ rest) ≡ ranges = ground arith in
    let up : next ≡ start + size = checked_add-eq start size next p in
    rw (sym same) (refl, refl, rw up at (ranges_from-AreAdjacent next sizes rest q))

-- The payload of a chunk: the transform headers first, from where the payload starts, and then the
-- stored streams in order, each of its declared size, without a gap; nothing else of the chunk changes.
pub set_payload_start-AreAdjacent :
    (chunk placed : ChunkPlan) (payload_start : ℕ)
    → set_payload_start chunk payload_start ≡ ok placed
    → (placed.transform_header_range
        ≡ record { start = payload_start; len = chunk.transform_header_bytes })
      × AreAdjacent
          (payload_start + chunk.transform_header_bytes)
          chunk.stored_stream_sizes
          placed.stored_stream_ranges
      × (placed ≡ record chunk {
        transform_header_range = placed.transform_header_range;
        stored_stream_ranges = placed.stored_stream_ranges;
      })
unfolding set_payload_start
set_payload_start-AreAdjacent chunk placed payload_start e =
    let (end, p, h) = >>=-eq-ok (checked_add payload_start chunk.transform_header_bytes) _ e in
    let (ranges, q, k) = >>=-eq-ok (ranges_from end chunk.stored_stream_sizes) _ h in
    let up : end ≡ payload_start + chunk.transform_header_bytes = checked_add-eq _ _ _ p in
    let whole : ChunkPlan = record chunk {
      transform_header_range = record { start = payload_start; len = chunk.transform_header_bytes };
      stored_stream_ranges = ranges;
    } in
    let same : whole ≡ placed = cc in
    rw (sym same)
      (refl, rw up at (ranges_from-AreAdjacent end chunk.stored_stream_sizes ranges q), refl)

-- The check of the stored streams' ranges accepts what the payload's layout writes, and for as many
-- ranges as sizes nothing else.
pub validate_ranges_iff :
    (start : ℕ) (ranges : List ByteRange) (sizes : List ℕ)
    → (ranges_from start sizes ≡ ok ranges)
      ↔ ((validate_ranges start ranges sizes ≡ ok tt) × (length ranges ≡ length sizes))
unfolding ranges_from validate_ranges
validate_ranges_iff start ranges sizes = (accepted start ranges sizes, unique start ranges sizes)
  where
    accepted :
        (start : ℕ) (ranges : List ByteRange) (sizes : List ℕ)
        → ranges_from start sizes ≡ ok ranges
        → (validate_ranges start ranges sizes ≡ ok tt) × (length ranges ≡ length sizes)
    accepted start [] [] e = (refl, refl)
    accepted start (range ∷ ranges) [] e = absurd (cc)
    accepted start ranges (size ∷ sizes) e =
        let (next, p, h) = >>=-eq-ok (checked_add start size) _ e in
        let (rest, q, k) = >>=-eq-ok (ranges_from next sizes) _ h in
        let first : ByteRange = record { start = start; len = size } in
        let same : (first ∷ rest) ≡ ranges = ground arith in
        let (v, l) = accepted next rest sizes q in
        let ranged : validate_ranges start (first ∷ rest) (size ∷ sizes) ≡ ok tt =
          rw (==-refl start, ==-refl size, p) v in
        rw (sym same) (ranged, ap suc l)

    unique :
        (start : ℕ) (ranges : List ByteRange) (sizes : List ℕ)
        → (validate_ranges start ranges sizes ≡ ok tt) × (length ranges ≡ length sizes)
        → ranges_from start sizes ≡ ok ranges
    unique start [] [] e = refl
    unique start [] (size ∷ sizes) (e, l) = absurd (cc)
    unique start (range ∷ ranges) [] (e, l) = absurd (cc)
    unique start (range ∷ ranges) (size ∷ sizes) (e, l) =
        let (u, p, h) =
          >>=-eq-ok (fail_if (not (range.start == start) || not (range.len == size)) _) _ e in
        let (next, q, k) = >>=-eq-ok (checked_add range.start range.len) _ h in
        let from : range.start ≡ start = ground arith in
        let sized : range.len ≡ size = ground arith in
        let rest : ranges_from next sizes ≡ ok ranges = unique next ranges sizes (k, omega arith) in
        let added : checked_add start size ≡ ok next = cc in
        let expected : ByteRange = record { start = start; len = size } in
        let exact : expected ≡ range = λ i. record { start = sym from i; len = sym sized i } in
        rw (added, rest) (ap (λ (r : ByteRange). ok (r ∷ ranges)) exact)
