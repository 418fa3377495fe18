-- ===== src/Execute/Chunk/Run.antt =====
-- Running a chunk.
use ozlrip.Prelude.{ℕ, ◌-◌, ◌<◌, refl, sym, List, [], ◌∷◌, arith}
use ozlrip.Core.{Bytes, usize_mod, checked_add, Limits}
use ozlrip.Core.Safe.{IsSafe, IsSafe-ok_or, IsSafe-bind, IsSafe-checked_add}
use ozlrip.Core.Yields.{Yields, Yields-bind, Yields-after, Yields-ok}
use ozlrip.Parse.Plan.{as_slice, ChunkPlan, stored_streams}
use ozlrip.Execute.Streams.{StreamInput}
use ozlrip.Execute.Runtime.{DecodeScratch}
use ozlrip.Execute.Runtime.Pool.{IsPool}
use ozlrip.Execute.Plan.{NodeExecutionPlan, ChunkExecutionPlan, header}
use ozlrip.Execute.Slots.{new_live}
use ozlrip.Execute.Slots.Initial.{
  Stored, IsSafe-as_slice, initialize_stream_slots-Stored, Stored-table_bytes,
}
use ozlrip.Execute.Chunk.{Running, NodeDecoder, execute_node, run_nodes, run_chunk}
use ozlrip.Execute.Chunk.Bounded.{IsBounded, KeepsPool, execute_node-IsBounded}

IsSafe-header : (node : NodeExecutionPlan) (headers : Bytes) → IsSafe (header node headers)
unfolding header
IsSafe-header node headers =
    IsSafe-bind (checked_add node.header_start node.header_size) _ (IsSafe-checked_add _ _)
      λ end. IsSafe-ok_or _ _

-- A node decoder that does not panic and gives back a pool within its bounds, given one.
pub record IsNodeDecoder {S : Type 0} (decode_node : NodeDecoder S) : Type 0 where
  pub keeps :
      (node : NodeExecutionPlan) (inputs : List StreamInput) (bytes : Bytes)
      → (scratch : DecodeScratch) (state : S) → IsPool scratch
      → Yields KeepsPool (decode_node node inputs bytes scratch state)

module _ {S : Type 0} (decode_node : NodeDecoder S) (decoder : IsNodeDecoder decode_node) where
  run_nodes-IsBounded :
      (nodes : List NodeExecutionPlan) (headers : Bytes) (limits : Limits) (limit : ℕ)
      (run : Running S)
      → limit < usize_mod - 1
      → IsBounded limit run
      → Yields (IsBounded limit) (run_nodes decode_node nodes headers limits run)
  unfolding run_nodes
  run_nodes-IsBounded [] headers limits limit run small bounded = Yields-ok run bounded
  run_nodes-IsBounded (node ∷ nodes) headers limits limit run small bounded =
      Yields-after (header node headers) _ (IsSafe-header node headers) λ bytes _.
        Yields-bind (IsBounded limit) (execute_node decode_node run node bytes limits) _
          (execute_node-IsBounded limit decode_node run node bytes limits
            (λ inputs. decoder.keeps node inputs bytes run.scratch run.state bounded.pool) small
            bounded)
          λ next kept. run_nodes-IsBounded nodes headers limits limit next small kept

-- Whatever the decoders of the nodes do, as long as they do not panic and keep the pool within its
-- bounds, and for a limit of live bytes below 2 ^ 64 - 1: running any plan on any chunk with a pool
-- within its bounds never panics, and where it returns, the count of live bytes is the size of all
-- owned streams in the table, within the limit, and the pool is within its bounds.
pub run_chunk-IsBounded :
    {S : Type 0} (decode_node : NodeDecoder S) (input : Bytes) (chunk : ChunkPlan)
    → (plan : ChunkExecutionPlan) (limits : Limits) (scratch : DecodeScratch) (state : S)
    → IsNodeDecoder decode_node
    → IsPool scratch
    → limits.max_live_bytes < usize_mod - 1
    → Yields
        (IsBounded limits.max_live_bytes)
        (run_chunk decode_node input chunk plan limits scratch state)
unfolding run_chunk new_live
run_chunk-IsBounded decode_node input chunk plan limits scratch state decoder pool small =
    Yields-bind (λ slots. Stored input chunk plan.regen_targets 0 slots (stored_streams chunk)) _ _
      (initialize_stream_slots-Stored input chunk plan.regen_targets)
      λ streams stored.
        Yields-after (as_slice chunk.transform_header_range input) _ (IsSafe-as_slice _ _)
          λ headers _.
            run_nodes-IsBounded decode_node decoder plan.nodes headers limits limits.max_live_bytes
              _ small
              (record {
                live = record { counted = sym (Stored-table_bytes stored); bounded = omega arith };
                under = refl;
                pool = pool;
              })
