-- ===== src/Parse/Entry/Unverified.antt =====
-- Checksums only ever refuse: without verification the parser gives the same plans, whatever the hash.
use ozlrip.Prelude.{
  ℕ, zero, suc, ◌≡◌, refl, Bool, true, false, leb, ◌&&◌, length, ◌+◌, if◌then◌else◌, ap, ◌∙◌, arith,
  Option-cases, inl, inr, get_range,
}
use ozlrip.Core.{Bytes, Error, Limits, Result, ok, err, panic, stuck, >>=-eq-ok}
use ozlrip.Parse.Reader.{
  Reader, Read, ◌>>=◌, ◌>>◌, pure, offset, read_byte, slice_input, get_input_range, lift,
  out_of_fuel, read_u32_le,
}
use ozlrip.Parse.Reader.Gives.{bind-eq-ok}
use ozlrip.Parse.Sizes.{FrameFlags, has_encoded_checksum}
use ozlrip.Parse.Packed.{check_limit}
use ozlrip.Parse.Plan.{FramePlan, ChunkPlan, chunk_version_min}
use ozlrip.Parse.Chunk.{
  ChunkSummary, read_chunk_checksums, read_chunk, read_chunks_loop, read_chunks,
  verify_compressed_checksum, empty_summary,
}
use ozlrip.Parse.Frame.{check_header_checksum, read_frame_header, scan}
use ozlrip.Parse.Entry.{new_reader, value, scan_frame, parse_frame}

-- Where `m` gives a value, `n` gives it too, and stops at the same place.
pub record Implies {A : Type 0} (m n : Read A) : Type 0 where
  pub at : (r : Reader) (a : A) (r' : Reader) → m r ≡ ok (a, r') → n r ≡ ok (a, r')

pub Implies-refl : {A : Type 0} (m : Read A) → Implies m m
Implies-refl m = record { at = λ r a r' e. e }

module _ {A B : Type 0} where
  pub Implies-bind :
      (m n : Read A) (f g : A → Read B)
      → Implies m n
      → ((a : A) → Implies (f a) (g a))
      → Implies (m >>= f) (n >>= g)
  unfolding ozlrip.Parse.Reader.◌>>=◌
  Implies-bind m n f g p q = record {
    at = λ r b r'' e.
        let (a, r', h, k) = bind-eq-ok m f r r'' b e in rw (p.at r a r' h) ((q a).at r' b r'' k);
  }

  pub Implies-same :
      (m : Read A) (f g : A → Read B)
      → ((a : A) → Implies (f a) (g a))
      → Implies (m >>= f) (m >>= g)
  Implies-same m f g q = Implies-bind m m f g (Implies-refl m) q

pub Implies-if :
    {A : Type 0} (b : Bool) (m n k l : Read A)
    → Implies m n
    → Implies k l
    → Implies (if b then m else k) (if b then n else l)
Implies-if true m n k l p q = p
Implies-if false m n k l p q = q

Implies-both :
    {A : Type 0} (f g : Bool → Read A)
    → Implies (f true) (g true)
    → Implies (f false) (g false)
    → (b : Bool) → Implies (f b) (g b)
Implies-both f g p q true = p
Implies-both f g p q false = q

-- A read that leaves the cursor where it is.
record Stays {A : Type 0} (m : Read A) : Type 0 where
  at : (r : Reader) (a : A) (r' : Reader) → m r ≡ ok (a, r') → r ≡ r'

kept :
    {A : Type 0} (a b : A) (r r' : Reader)
    → ◌≡◌ {A = Result (A × Reader)} (ok (a, r)) (ok (b, r'))
    → r ≡ r'
kept a b r r' e = ground arith

Stays-lift : {A : Type 0} (m : Result A) → Stays (lift m)
unfolding lift
Stays-lift (ok a) = record { at = λ r b r' e. kept a b r r' e }
Stays-lift (err z) = record { at = λ r b r' e. absurd (cc) }
Stays-lift panic = record { at = λ r b r' e. absurd (cc) }
Stays-lift stuck = record { at = λ r b r' e. absurd (cc) }

Stays-slice_input : (end : ℕ) → Stays (slice_input end)
unfolding slice_input
Stays-slice_input end = record {
  at = λ r b r' e. elim (Option-cases (get_range r.bytes 0 end)) [
    | inl q ↦ absurd (cc (rw (q, slice_input) at e))
    | inr (s, q) ↦ kept s b r r' (rw (q, slice_input) at e)
  ];
}

Stays-get_input_range : (start end : ℕ) (z : Error) → Stays (get_input_range start end z)
unfolding get_input_range
Stays-get_input_range start end z = record {
  at = λ r b r' e. elim (Option-cases (get_range r.bytes start end)) [
    | inl q ↦ absurd (cc (rw (q, get_input_range) at e))
    | inr (s, q) ↦ kept s b r r' (rw (q, get_input_range) at e)
  ];
}

Stays-bind :
    {A B : Type 0} (m : Read A) (f : A → Read B)
    → Stays m
    → ((a : A) → Stays (f a))
    → Stays (m >>= f)
Stays-bind m f p q = record {
  at = λ r b r'' e.
      let (a, r', h, k) = bind-eq-ok m f r r'' b e in p.at r a r' h ∙ (q a).at r' b r'' k;
}

-- A check gives nothing and stays where it is, so leaving it out changes nothing where it passes.
check-Implies : (m : Read (Unit {0})) → Stays m → Implies m (pure tt)
unfolding pure
check-Implies m h = record { at = λ r u r' e. ap (λ s. ok (tt, s)) (h.at r u r' e) }

module _ (xxh3 other : Bytes → ℕ) where
  Implies-header :
      (limits : Limits)
      → Implies (read_frame_header xxh3 limits true) (read_frame_header other limits false)
  unfolding read_frame_header check_header_checksum
  Implies-header limits = Implies-same _ _ _ λ magic. Implies-same _ _ _ λ format_version.
      Implies-same _ _ _ λ flags. Implies-same _ _ _ λ id. Implies-same _ _ _ λ output_header.
        Implies-same _ _ _ λ output_sizes. Implies-same _ _ _ λ comment.
          Implies-bind _ _ _ _
            (Implies-if (leb chunk_version_min format_version && has_encoded_checksum flags) _ _ _ _
              (Implies-same _ _ _ λ n. Implies-same _ _ _ λ expected.
                check-Implies _ (Stays-bind _ _ (Stays-slice_input n) λ covered. Stays-lift _))
              (Implies-refl _))
            λ u. Implies-refl _

  Implies-checksums :
      (chunk : ChunkPlan) (flags : FrameFlags) (start : ℕ)
      → Implies
          (read_chunk_checksums xxh3 chunk flags start true)
          (read_chunk_checksums other chunk flags start false)
  unfolding read_chunk_checksums verify_compressed_checksum
  Implies-checksums chunk flags start = Implies-same _ _ _ λ decoded.
      Implies-bind _ _ _ _
        (Implies-if (has_encoded_checksum flags) _ _ _ _
          (Implies-same _ _ _ λ n. Implies-same _ _ _ λ sum.
            Implies-bind _ _ _ _
              (check-Implies _
                (Stays-bind _ _ (Stays-get_input_range start n _) λ covered. Stays-lift _))
              λ u. Implies-refl _)
          (Implies-refl _))
        λ encoded. Implies-refl _

  Implies-loop :
      (fuel format_version : ℕ) (summary : ChunkSummary) (flags : FrameFlags) (has_bundle_id : Bool)
      (limits : Limits)
      → Implies
          (read_chunks_loop xxh3 fuel format_version summary flags has_bundle_id limits true)
          (read_chunks_loop other fuel format_version summary flags has_bundle_id limits false)
  unfolding read_chunks_loop read_chunk
  Implies-loop zero format_version summary flags has_bundle_id limits = Implies-refl _
  Implies-loop (suc fuel) format_version summary flags has_bundle_id limits = Implies-same _ _ _ (
      Implies-both _ _ (Implies-refl _) (
        Implies-bind _ _ _ _
          (Implies-same _ _ _ λ start. Implies-same _ _ _ λ header. Implies-same _ _ _ λ summary'.
            Implies-same _ _ _ λ payload.
              Implies-bind _ _ _ _ (Implies-checksums payload header.1 _) λ chunk. Implies-refl _)
          λ round.
            Implies-bind _ _ _ _
              (Implies-loop fuel format_version round.0 round.2 has_bundle_id limits)
              λ rest. Implies-refl _))

  Implies-scan : (limits : Limits) → Implies (scan xxh3 limits true) (scan other limits false)
  unfolding scan read_chunks
  Implies-scan limits = Implies-bind _ _ _ _ (Implies-header limits) λ h.
      Implies-bind _ _ _ _
        (record {
          at = λ r.
              (Implies-loop (length r.bytes + 1) h.format_version empty_summary h.flags _ limits).at
                r;
        })
        λ chunks. Implies-refl _

  value-Implies :
      {A : Type 0} (m n : Read A) (r : Reader) (a : A) (x : Result (A × Reader))
      → Implies m n
      → m r ≡ x
      → value x ≡ ok a
      → value (n r) ≡ ok a
  value-Implies m n r a (ok (b, r')) p e h = rw (p.at r b r' e) h
  value-Implies m n r a (err z) p e h = absurd (cc)
  value-Implies m n r a panic p e h = absurd (cc)
  value-Implies m n r a stuck p e h = absurd (cc)

  pub scan_frame-unverified :
      (input : Bytes) (limits : Limits) (plan : FramePlan)
      → scan_frame xxh3 input limits true ≡ ok plan
      → scan_frame other input limits false ≡ ok plan
  unfolding scan_frame
  scan_frame-unverified input limits plan e =
      value-Implies _ _ (new_reader input) plan _ (Implies-scan limits) refl e

  -- A frame that parses with its compressed checksums verified parses to the same plan without, and
  -- then whatever the hash function is: checksums refuse frames, and do nothing else.
  pub parse_frame-unverified :
      (input : Bytes) (limits : Limits) (plan : FramePlan)
      → parse_frame xxh3 input limits true ≡ ok plan
      → parse_frame other input limits false ≡ ok plan
  unfolding parse_frame
  parse_frame-unverified input limits plan e =
      let (u, c, h) = >>=-eq-ok (check_limit (length input) limits.max_frame_bytes) _ e in
      let (p, q, k) = >>=-eq-ok (scan_frame xxh3 input limits true) _ h in
      let same : scan_frame other input limits false ≡ ok p =
        scan_frame-unverified input limits p q in
      rw (c, same) k
