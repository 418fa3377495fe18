-- ===== src/Parse/Frame/Totals.antt =====
-- The totals that a scanned frame's plan declares: `scan_frame` of crates/decode/src/parse.rs.
use ozlrip.Prelude.{ℕ, ◌+◌, ◌≤◌, ◌≡◌, refl, sym, arith, Bool, List, [], ◌∷◌, length}
use mathlib.Core.Path.{subst}
use ozlrip.Core.{Bytes, Limits, Result, ok, err, panic, stuck}
use ozlrip.Parse.Reader.{Reader, Read}
use ozlrip.Parse.Reader.Gives.{Gives, Gives-pure, Gives-bind, Gives-then}
use ozlrip.Parse.Plan.{ChunkPlan, FramePlan, transforms, stored_streams, regenerated_streams}
use ozlrip.Parse.Chunk.{ChunkSummary, empty_summary, read_chunks}
use ozlrip.Parse.Chunk.Summary.{IsWithin, plus, all_chunks, loop-all_chunks}
use ozlrip.Parse.Frame.{scan, frame_plan}
use ozlrip.Parse.Entry.{new_reader, value, scan_frame}

abbrev pub sum_of : (ChunkPlan → ℕ) → List ChunkPlan → ℕ
sum_of f [] = 0
sum_of f (chunk ∷ chunks) = f chunk + sum_of f chunks

AreTotals : ChunkSummary → List ChunkPlan → ChunkSummary → Type 0
AreTotals s chunks t =
    (t.chunks ≡ s.chunks + length chunks)
    × (t.transforms ≡ s.transforms + sum_of transforms chunks)
    × (t.stored_streams ≡ s.stored_streams + sum_of stored_streams chunks)
    × (t.regenerated_streams ≡ s.regenerated_streams + sum_of regenerated_streams chunks)

all_chunks-AreTotals :
    (s : ChunkSummary) (chunks : List ChunkPlan) → AreTotals s chunks (all_chunks s chunks)
unfolding AreTotals
all_chunks-AreTotals s [] = (omega arith, omega arith, omega arith, omega arith)
all_chunks-AreTotals s (chunk ∷ chunks) =
    let (a, b, c, d) = all_chunks-AreTotals (plus s chunk) chunks in
    (omega arith, omega arith, omega arith, omega arith)

-- A plan declares as many chunks, transforms, stored and regenerated streams as its chunks have, and
-- no more than the limits allow.
pub record HasTotals (limits : Limits) (plan : FramePlan) : Type 0 where
  pub chunks : plan.info.chunks ≡ length plan.chunks
  pub transforms : plan.info.transforms ≡ sum_of transforms plan.chunks
  pub stored_streams : plan.info.stored_streams ≡ sum_of stored_streams plan.chunks
  pub regenerated_streams : plan.info.regenerated_streams ≡ sum_of regenerated_streams plan.chunks
  pub max_chunks : plan.info.chunks ≤ limits.max_chunks
  pub max_nodes : plan.info.transforms ≤ limits.max_nodes
  pub max_stored : plan.info.stored_streams ≤ limits.max_streams
  pub max_regenerated : plan.info.regenerated_streams ≤ limits.max_streams

scan-HasTotals :
    (xxh3 : Bytes → ℕ) (limits : Limits) (verify : Bool)
    → Gives (HasTotals limits) (scan xxh3 limits verify)
unfolding scan read_chunks frame_plan AreTotals
scan-HasTotals xxh3 limits verify =
    let start : IsWithin limits empty_summary = record {
      chunks = omega arith;
      transforms = omega arith;
      stored_streams = omega arith;
      regenerated_streams = omega arith;
    } in
    Gives-then _ _ _ λ h.
      Gives-bind (λ s. (s.summary ≡ all_chunks empty_summary s.chunks) × IsWithin limits s.summary)
        _ _ _
        (record {
          at = λ r.
              (loop-all_chunks xxh3 (length r.bytes + 1) h.format_version empty_summary h.flags _
                  limits verify start).at
                r;
        })
        λ s a. Gives-then _ _ _ λ n.
          let (b, c, d, e) =
            subst (AreTotals empty_summary s.chunks) (sym a.0)
              (all_chunks-AreTotals empty_summary s.chunks) in
          Gives-pure _ _ (record {
            chunks = omega arith;
            transforms = omega arith;
            stored_streams = omega arith;
            regenerated_streams = omega arith;
            max_chunks = a.1.chunks;
            max_nodes = a.1.transforms;
            max_stored = a.1.stored_streams;
            max_regenerated = a.1.regenerated_streams;
          })

pub value-Gives :
    {A : Type 0} (P : A → Type 0) (m : Read A) (r : Reader) (a : A) (x : Result (A × Reader))
    → Gives P m
    → m r ≡ x
    → value x ≡ ok a
    → P a
value-Gives P m r a (ok (b, r')) p e h = let same : b ≡ a = cc in subst P same (p.at r b r' e)
value-Gives P m r a (err z) p e h = absurd (cc)
value-Gives P m r a panic p e h = absurd (cc)
value-Gives P m r a stuck p e h = absurd (cc)

-- A scanned frame declares the chunks, transforms, stored and regenerated streams that its chunks
-- have, and within the limits on them, whatever its bytes are.
pub scan_frame-HasTotals :
    (xxh3 : Bytes → ℕ) (input : Bytes) (limits : Limits) (verify : Bool) (plan : FramePlan)
    → scan_frame xxh3 input limits verify ≡ ok plan
    → HasTotals limits plan
unfolding scan_frame
scan_frame-HasTotals xxh3 input limits verify plan e =
    value-Gives _ (scan xxh3 limits verify) (new_reader input) plan _
      (scan-HasTotals xxh3 limits verify) refl e
