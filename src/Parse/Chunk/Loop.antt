-- ===== src/Parse/Chunk/Loop.antt =====
-- The loop over the chunks ends: each round takes a byte, so the fuel never runs out, and bytes behind
-- the frame change neither its rounds nor its result.
use ozlrip.Prelude.{
  ℕ, zero, suc, ◌+◌, ◌≤◌, ◌<◌, ◌≡◌, refl, sym, ap, ◌∙◌, arith, Bool, true, false, [], ◌∷◌, ◌++◌,
  length, length-append,
}
use ozlrip.Core.{Bytes, Error, Limits, Result, ok, err, panic, stuck}
use mathlib.Core.Path.{subst}
use ozlrip.Parse.Plan.{ChunkPlan}
use ozlrip.Parse.Reader.{Reader, Read, continue, ◌>>=◌, pure}
use ozlrip.Parse.Reader.Tame.{extend, After, Tame}
use ozlrip.Parse.Sizes.{FrameFlags}
use ozlrip.Parse.Chunk.{
  ChunkSummary, ChunkScan, empty_summary, at_chunks_end, read_chunk, read_chunks_loop, read_chunks,
}
use ozlrip.Parse.Chunk.Tame.{Tame-at_chunks_end, Tame-read_chunk, read_chunk-Moves}

module _ (xxh3 : Bytes → ℕ) (format_version : ℕ) (has_bundle_id : Bool) (limits : Limits)
    (verify : Bool) where
  -- The loop from `r` on, with any fuel that the input left allows for.
  abbrev Ends : ChunkSummary → FrameFlags → Reader → Result (ChunkScan × Reader) → Type 0
  Ends summary flags r (ok (a, r')) =
      (r'.bytes ≡ r.bytes)
      × (r.offset ≤ r'.offset)
      × (r'.offset ≤ length r.bytes)
      × ((more : Bytes) (fuel : ℕ)
          → length (r.bytes ++ more) < fuel + r.offset
          → read_chunks_loop xxh3 fuel format_version summary flags has_bundle_id limits verify
              (extend r more)
            ≡ ok (a, extend r' more))
  Ends summary flags r (err e) = Unit
  Ends summary flags r panic = ⊥
  Ends summary flags r stuck = ⊥

  abbrev loop : ℕ → ChunkSummary → FrameFlags → Read ChunkScan
  loop fuel summary flags =
      read_chunks_loop xxh3 fuel format_version summary flags has_bundle_id limits verify

  abbrev round : ChunkSummary → FrameFlags → Read (ChunkSummary × ChunkPlan × FrameFlags)
  round summary flags = read_chunk xxh3 format_version summary flags has_bundle_id limits verify

  abbrev ended : ChunkSummary → FrameFlags → ChunkScan
  ended summary flags = record { summary = summary; chunks = []; flags = flags }

  abbrev prepend : ChunkPlan → Result (ChunkScan × Reader) → Result (ChunkScan × Reader)
  prepend chunk x = continue x (λ scan r. ok (record scan { chunks = chunk ∷ scan.chunks }, r))

  run_ended :
      (fuel : ℕ) (summary : ChunkSummary) (flags : FrameFlags) (r r1 : Reader)
      → at_chunks_end format_version summary r ≡ ok (true, r1)
      → loop (suc fuel) summary flags r ≡ ok (ended summary flags, r1)
  unfolding read_chunks_loop ◌>>=◌ pure
  run_ended fuel summary flags r r1 e = rw e

  run_more :
      (fuel : ℕ) (summary s : ChunkSummary) (flags f : FrameFlags) (chunk : ChunkPlan)
      (r r1 r2 : Reader)
      → at_chunks_end format_version summary r ≡ ok (false, r1)
      → round summary flags r1 ≡ ok ((s, chunk, f), r2)
      → loop (suc fuel) summary flags r ≡ prepend chunk (loop fuel s f r2)
  unfolding read_chunks_loop ◌>>=◌ pure
  run_more fuel summary s flags f chunk r r1 r2 e h = rw (e, h)

  run_refused :
      (fuel : ℕ) (summary : ChunkSummary) (flags : FrameFlags) (r r1 : Reader) (z : Error)
      → at_chunks_end format_version summary r ≡ ok (false, r1)
      → round summary flags r1 ≡ err z
      → loop (suc fuel) summary flags r ≡ err z
  unfolding read_chunks_loop ◌>>=◌ pure
  run_refused fuel summary flags r r1 z e h = rw (e, h)

  run_cut :
      (fuel : ℕ) (summary : ChunkSummary) (flags : FrameFlags) (r : Reader) (z : Error)
      → at_chunks_end format_version summary r ≡ err z
      → loop (suc fuel) summary flags r ≡ err z
  unfolding read_chunks_loop ◌>>=◌
  run_cut fuel summary flags r z e = rw e

  -- What is left after one round is left after the rounds before it.
  Ends-more :
      (summary s : ChunkSummary) (flags f : FrameFlags) (chunk : ChunkPlan) (r r1 r2 : Reader)
      → After (at_chunks_end format_version summary) r (ok (false, r1))
      → After (round summary flags) r1 (ok ((s, chunk, f), r2))
      → r1.offset + 1 ≤ r2.offset
      → (x : Result (ChunkScan × Reader)) → Ends s f r2 x
      → Ends summary flags r (prepend chunk x)
  Ends-more summary s flags f chunk r r1 r2 (b1, o1, i1, e1) (b2, o2, i2, e2) up (ok (scan, r3))
        (b3, o3, i3, e3) =
      (b3 ∙ b2 ∙ b1, omega arith, rw (b2 ∙ b1) at i3, go)
    where
      go :
          (more : Bytes) (fuel : ℕ)
          → length (r.bytes ++ more) < fuel + r.offset
          → loop fuel summary flags (extend r more)
            ≡ ok (record scan { chunks = chunk ∷ scan.chunks }, extend r3 more)
      go more zero big = absurd (omega (arith, length-append r.bytes more))
      go more (suc fuel) big =
          run_more fuel summary s flags f chunk (extend r more) (extend r1 more) (extend r2 more)
            (e1 more) (e2 more)
          ∙ ap (prepend chunk) (e3 more fuel (rw (b2 ∙ b1) (omega arith)))
  Ends-more summary s flags f chunk r r1 r2 a1 a2 up (err z) h = tt
  Ends-more summary s flags f chunk r r1 r2 a1 a2 up panic h = h
  Ends-more summary s flags f chunk r r1 r2 a1 a2 up stuck h = h

  Ends-ended :
      (summary : ChunkSummary) (flags : FrameFlags) (r r1 : Reader)
      → After (at_chunks_end format_version summary) r (ok (true, r1))
      → r.offset ≤ length r.bytes
      → Ends summary flags r (ok (ended summary flags, r1))
  Ends-ended summary flags r r1 (b1, o1, i1, e1) inside = (b1, o1, i1, go)
    where
      go :
          (more : Bytes) (fuel : ℕ)
          → length (r.bytes ++ more) < fuel + r.offset
          → loop fuel summary flags (extend r more) ≡ ok (ended summary flags, extend r1 more)
      go more zero big = absurd (omega (arith, length-append r.bytes more))
      go more (suc fuel) big =
          run_ended fuel summary flags (extend r more) (extend r1 more) (e1 more)

  loop-Ends :
      (fuel : ℕ) (summary : ChunkSummary) (flags : FrameFlags) (r : Reader)
      → r.offset ≤ length r.bytes
      → length r.bytes < fuel + r.offset
      → Ends summary flags r (loop fuel summary flags r)
  loop-Ends zero summary flags r inside big = absurd (omega arith)
  loop-Ends (suc fuel) summary flags r inside big =
      at_end (at_chunks_end format_version summary r) refl
        ((Tame-at_chunks_end {lo = 0} format_version summary).at r (omega arith) inside)
        (loop-Ends fuel)
    where
      in_round :
          (r1 : Reader)
          → at_chunks_end format_version summary r ≡ ok (false, r1)
          → After (at_chunks_end format_version summary) r (ok (false, r1))
          → ((s : ChunkSummary) (f : FrameFlags) (q : Reader)
              → q.offset ≤ length q.bytes
              → length q.bytes < fuel + q.offset
              → Ends s f q (loop fuel s f q))
          → (x : Result ((ChunkSummary × ChunkPlan × FrameFlags) × Reader))
          → round summary flags r1 ≡ x
          → After (round summary flags) r1 x
          → Ends summary flags r (loop (suc fuel) summary flags r)
      in_round r1 e a1 ih (ok ((s, chunk, f), r2)) q a2 =
          let up : r1.offset + 1 ≤ r2.offset =
            (read_chunk-Moves {lo = 0} xxh3 format_version summary flags has_bundle_id limits
                verify).at
              r1 _ r2 (omega arith) (rw a1.0 a1.2) q in
          subst (Ends summary flags r) (sym (run_more fuel summary s flags f chunk r r1 r2 e q)) (
            Ends-more summary s flags f chunk r r1 r2 a1 a2 up (loop fuel s f r2)
              (ih s f r2 (rw a2.0 a2.2) (rw (a2.0 ∙ a1.0) (omega arith))))
      in_round r1 e a1 ih (err z) q a2 =
          subst (Ends summary flags r) (sym (run_refused fuel summary flags r r1 z e q)) tt
      in_round r1 e a1 ih panic q a2 = absurd a2
      in_round r1 e a1 ih stuck q a2 = absurd a2

      at_end :
          (x : Result (Bool × Reader))
          → at_chunks_end format_version summary r ≡ x
          → After (at_chunks_end format_version summary) r x
          → ((s : ChunkSummary) (f : FrameFlags) (q : Reader)
              → q.offset ≤ length q.bytes
              → length q.bytes < fuel + q.offset
              → Ends s f q (loop fuel s f q))
          → Ends summary flags r (loop (suc fuel) summary flags r)
      at_end (ok (true, r1)) e a1 ih =
          subst (Ends summary flags r) (sym (run_ended fuel summary flags r r1 e))
            (Ends-ended summary flags r r1 a1 inside)
      at_end (ok (false, r1)) e a1 ih = in_round r1 e a1 ih (round summary flags r1) refl (
          (Tame-read_chunk {lo = 0} xxh3 format_version summary flags has_bundle_id limits
              verify).at
            r1 (omega arith) (rw a1.0 a1.2))
      at_end (err z) e a1 ih =
          subst (Ends summary flags r) (sym (run_cut fuel summary flags r z e)) tt
      at_end panic e a1 ih = absurd a1
      at_end stuck e a1 ih = absurd a1

-- Reading all chunks is tame: the bytes behind the last chunk only add fuel.
pub Tame-read_chunks :
    {lo : ℕ} (xxh3 : Bytes → ℕ) (format_version : ℕ) (flags : FrameFlags) (has_bundle_id : Bool)
    (limits : Limits) (verify : Bool)
    → Tame lo (read_chunks xxh3 format_version flags has_bundle_id limits verify)
unfolding read_chunks
Tame-read_chunks xxh3 format_version flags has_bundle_id limits verify = record {
  at = λ r from inside. widen r inside _ (
      loop-Ends xxh3 format_version has_bundle_id limits verify (length r.bytes + 1) empty_summary
        flags r inside (omega arith));
}
  where
    widen :
        (r : Reader)
        → r.offset ≤ length r.bytes
        → (x : Result (ChunkScan × Reader))
        → Ends xxh3 format_version has_bundle_id limits verify empty_summary flags r x
        → After (read_chunks xxh3 format_version flags has_bundle_id limits verify) r x
    widen r inside (ok (a, r')) (same, forward, fits, ext) =
        (same, forward, fits, λ more. ext more (length (r.bytes ++ more) + 1) (omega arith))
    widen r inside (err e) h = tt
    widen r inside panic h = h
    widen r inside stuck h = h
