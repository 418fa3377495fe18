-- ===== src/Parse/Chunk/Summary.antt =====
-- What the loop over the chunks counts: crates/decode/src/parse/chunk.rs.
use ozlrip.Prelude.{
  ℕ, zero, suc, ◌+◌, ◌≤◌, ◌≡◌, refl, ap, ◌∙◌, arith, Bool, true, false, List, [], ◌∷◌,
}
use mathlib.Core.Path.{subst}
use ozlrip.Core.{Bytes, Limits, Result, ok, err, panic, stuck, checked_add}
use ozlrip.Core.Safe.{checked_add-eq}
use ozlrip.Parse.Reader.{Read, lift, out_of_fuel}
use ozlrip.Parse.Reader.Gives.{Gives, Gives-pure, Gives-bind, Gives-then}
use ozlrip.Parse.Packed.{check_limit}
use ozlrip.Parse.Plan.{
  ChunkPlan, transforms, stored_streams, regenerated_streams, set_payload_start,
}
use ozlrip.Parse.Plan.Layout.{set_payload_start-AreAdjacent}
use ozlrip.Parse.Sizes.{FrameFlags}
use ozlrip.Parse.Chunk.{
  ChunkSummary, add_chunk, read_chunk_payload, read_chunk_checksums, read_chunk, read_chunks_loop,
}

pub Gives-lift :
    {A : Type 0} (P : A → Type 0) (m : Result A) → ((a : A) → m ≡ ok a → P a) → Gives P (lift m)
unfolding lift
Gives-lift P (ok a) h = record {
  at = λ r b r' e. let same : a ≡ b = ground arith in subst P same (h a refl);
}
Gives-lift P (err z) h = record { at = λ r b r' e. absurd (cc) }
Gives-lift P panic h = record { at = λ r b r' e. absurd (cc) }
Gives-lift P stuck h = record { at = λ r b r' e. absurd (cc) }

-- A sum, and its check against a limit.
lifted_sum : (a b : ℕ) → Gives (λ c. c ≡ a + b) (lift (checked_add a b))
lifted_sum a b = Gives-lift _ _ (λ c e. checked_add-eq a b c e)

lifted_limit : (value limit : ℕ) → Gives (λ u. value ≤ limit) (lift (check_limit value limit))
unfolding check_limit
lifted_limit value limit = Gives-lift _ _ (λ u e. ground arith)

pub record IsWithin (limits : Limits) (s : ChunkSummary) : Type 0 where
  pub chunks : s.chunks ≤ limits.max_chunks
  pub transforms : s.transforms ≤ limits.max_nodes
  pub stored_streams : s.stored_streams ≤ limits.max_streams
  pub regenerated_streams : s.regenerated_streams ≤ limits.max_streams

-- The summary with one more chunk.
abbrev pub plus : ChunkSummary → ChunkPlan → ChunkSummary
plus s chunk = record {
  chunks = s.chunks + 1;
  transforms = s.transforms + transforms chunk;
  stored_streams = s.stored_streams + stored_streams chunk;
  regenerated_streams = s.regenerated_streams + regenerated_streams chunk;
}

abbrev pub all_chunks : ChunkSummary → List ChunkPlan → ChunkSummary
all_chunks s [] = s
all_chunks s (chunk ∷ chunks) = all_chunks (plus s chunk) chunks

Added : Limits → ChunkSummary → ChunkPlan → ChunkSummary → Type 0
Added limits before chunk after = (after ≡ plus before chunk) × IsWithin limits after

add_chunk-Added :
    (s : ChunkSummary) (chunk : ChunkPlan) (limits : Limits)
    → Gives (Added limits s chunk) (add_chunk s chunk limits)
unfolding add_chunk Added
add_chunk-Added s chunk limits = Gives-bind _ _ _ _ (lifted_sum _ _) λ chunks a.
    Gives-bind _ _ _ _ (lifted_limit _ _) λ u1 b. Gives-bind _ _ _ _ (lifted_sum _ _) λ nodes c.
      Gives-bind _ _ _ _ (lifted_limit _ _) λ u2 d. Gives-bind _ _ _ _ (lifted_sum _ _) λ stored e.
        Gives-bind _ _ _ _ (lifted_limit _ _) λ u3 f.
          Gives-bind _ _ _ _ (lifted_sum _ _) λ regenerated g.
            Gives-bind _ _ _ _ (lifted_limit _ _) λ u4 h. Gives-pure _ _ (
              λ i. record {
                chunks = a i;
                transforms = c i;
                stored_streams = e i;
                regenerated_streams = g i;
              },
              record { chunks = b; transforms = d; stored_streams = f; regenerated_streams = h },
            )

-- The same nodes and stored streams.
SameCounts : ChunkPlan → ChunkPlan → Type 0
SameCounts a b = (b.nodes ≡ a.nodes) × (b.stored_stream_sizes ≡ a.stored_stream_sizes)

read_chunk_payload-SameCounts :
    (chunk : ChunkPlan) (limits : Limits)
    → Gives (SameCounts chunk) (read_chunk_payload chunk limits)
unfolding read_chunk_payload SameCounts
read_chunk_payload-SameCounts chunk limits = Gives-then _ _ _ λ at.
    Gives-bind (λ placed. set_payload_start chunk at ≡ ok placed) _ _ _
      (Gives-lift _ _ (λ placed e. e))
      λ placed p. Gives-then _ _ _ λ n. Gives-then _ _ _ λ u. Gives-then _ _ _ λ v.
        Gives-then _ _ _ λ w.
          let (_, _, same) = set_payload_start-AreAdjacent chunk placed at p in
          Gives-pure _ _ (
            ap (λ (c : ChunkPlan). c.nodes) same,
            ap (λ (c : ChunkPlan). c.stored_stream_sizes) same,
          )

module _ (xxh3 : Bytes → ℕ) where
  read_chunk_checksums-SameCounts :
      (chunk : ChunkPlan) (flags : FrameFlags) (start : ℕ) (verify : Bool)
      → Gives (SameCounts chunk) (read_chunk_checksums xxh3 chunk flags start verify)
  unfolding read_chunk_checksums SameCounts
  read_chunk_checksums-SameCounts chunk flags start verify =
      Gives-then _ _ _ λ decoded. Gives-then _ _ _ λ encoded. Gives-pure _ _ (refl, refl)

  read_chunk-Added :
      (format_version : ℕ) (s : ChunkSummary) (flags : FrameFlags) (has_bundle_id : Bool)
      (limits : Limits) (verify : Bool)
      → Gives
          (λ round. Added limits s round.1 round.0)
          (read_chunk xxh3 format_version s flags has_bundle_id limits verify)
  unfolding read_chunk SameCounts Added
  read_chunk-Added format_version s flags has_bundle_id limits verify = Gives-then _ _ _ λ start.
      Gives-then _ _ _ λ header. Gives-bind _ _ _ _ (add_chunk-Added s header.0 limits) λ s' a.
        Gives-bind _ _ _ _ (read_chunk_payload-SameCounts header.0 limits) λ payload b.
          Gives-bind _ _ _ _ (read_chunk_checksums-SameCounts payload header.1 _ verify) λ chunk c.
            let nodes : chunk.nodes ≡ header.0.nodes = c.0 ∙ b.0 in
            let sizes : chunk.stored_stream_sizes ≡ header.0.stored_stream_sizes = c.1 ∙ b.1 in
            Gives-pure _ _ (rw (nodes, sizes) a)

  -- The chunks of the rest of the frame are what the summary at its end counts more.
  pub loop-all_chunks :
      (fuel format_version : ℕ) (s : ChunkSummary) (flags : FrameFlags) (has_bundle_id : Bool)
      (limits : Limits) (verify : Bool)
      → IsWithin limits s
      → Gives
          (λ scan. (scan.summary ≡ all_chunks s scan.chunks) × IsWithin limits scan.summary)
          (read_chunks_loop xxh3 fuel format_version s flags has_bundle_id limits verify)
  unfolding read_chunks_loop out_of_fuel Added
  loop-all_chunks zero format_version s flags has_bundle_id limits verify w = record {
    at = λ r b r' e. absurd (cc);
  }
  loop-all_chunks (suc fuel) format_version s flags has_bundle_id limits verify w =
      Gives-then _ _ _ (
        Gives-both _ _ (Gives-pure _ _ (refl, w)) (
          Gives-bind _ _ _ _ (read_chunk-Added format_version s flags has_bundle_id limits verify)
            λ round a.
              Gives-bind _ _ _ _
                (loop-all_chunks fuel format_version round.0 round.2 has_bundle_id limits verify
                  a.1)
                λ scan b. Gives-pure _ _ (rw a.0 at b.0, b.1)))
    where
      Gives-both :
          {A : Type 0} (P : A → Type 0) (f : Bool → Read A)
          → Gives P (f true)
          → Gives P (f false)
          → (b : Bool) → Gives P (f b)
      Gives-both P f p q true = p
      Gives-both P f p q false = q
