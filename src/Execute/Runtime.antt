-- ===== src/Execute/Runtime.antt =====
-- crates/decode/src/execute/runtime.rs: the byte buffers kept for reuse between nodes and chunks.
-- `allocate n` is the capacity of a fresh vector after `try_reserve_exact(n)`, or none where that
-- fails. A release build keeps the stale bytes of a pooled buffer.
pub mod Pool
pub mod Best
use ozlrip.Prelude.{
  ltb, leb, ◌==◌, if◌then◌else◌, length, set, take, ℕ, ◌+◌, ◌-◌, ◌*◌, ◌^◌, ◌||◌, Option, none, some,
  List, [], ◌∷◌, ◌++◌,
}
use ozlrip.Core.{allocation_failed, error, Result, ok, ◌>>=◌, ◌>>◌, ok_or, index, minus, plus}
use ozlrip.Execute.Streams.{Buffer, OwnedStream}

pub record DecodeScratch : Type 0 where
  pub byte_buffers : List Buffer
  pub pooled_bytes : ℕ

abbrev pub max_pooled_buffers : ℕ
max_pooled_buffers = 64

abbrev pub max_pooled_bytes : ℕ
max_pooled_bytes = 64 * 2 ^ 20

abbrev pub clear : DecodeScratch
clear = record { byte_buffers = []; pooled_bytes = 0 }

-- The first of the smallest buffers that fit, with its position: `filter`, then `min_by_key`.
abbrev pub closer : ℕ → ℕ → Option (ℕ × ℕ) → Option (ℕ × ℕ)
closer i capacity none = some (i, capacity)
closer i capacity (some (j, least)) =
    if leb capacity least then some (i, capacity) else some (j, least)

unfoldable pub best_fit : ℕ → ℕ → List Buffer → Option (ℕ × ℕ)
best_fit request i [] = none
best_fit request i (buffer ∷ buffers) =
    let later = best_fit request (i + 1) buffers in
    if leb request buffer.capacity then closer i buffer.capacity later else later

-- `xs.swap_remove(i)`: the last element takes the place of the one removed.
unfoldable pub swap_remove {ℓ} : {A : Type ℓ} → List A → ℕ → Result (A × List A)
swap_remove xs i = do
  removed ← index xs i
  last ← index xs (length xs - 1)
  ok (removed, take (length xs - 1) (set xs i last))

-- The effect on the pool of a buffer that leaves it.
unfoldable pub take_pooled : DecodeScratch → ℕ → Result (Buffer × DecodeScratch)
take_pooled scratch i = do
  (buffer, buffers) ← swap_remove scratch.byte_buffers i
  pooled ← minus scratch.pooled_bytes buffer.capacity
  ok (buffer, record { byte_buffers = buffers; pooled_bytes = pooled })

module _ (allocate : ℕ → Option ℕ) where
  unfoldable pub take_pooled_or_new : DecodeScratch → ℕ → Result (Buffer × DecodeScratch)
  take_pooled_or_new scratch request = elim (best_fit request 0 scratch.byte_buffers) [
    | some (i, _) ↦ take_pooled scratch i
    | none ↦ (do
      capacity ← ok_or (allocate request) (error allocation_failed)
      ok (record { bytes = []; capacity = capacity }, scratch))
  ]

  unfoldable pub take_byte_buffer : DecodeScratch → ℕ → Result (Buffer × DecodeScratch)
  take_byte_buffer scratch request = do
    (buffer, rest) ← take_pooled_or_new scratch request
    ok (record buffer { bytes = [] }, rest)

  unfoldable pub take_stale_byte_buffer : DecodeScratch → ℕ → Result (Buffer × DecodeScratch)
  take_stale_byte_buffer scratch request = take_pooled_or_new scratch request

-- The end of `recycle_byte_buffer`.
unfoldable pub keep : DecodeScratch → Buffer → Result DecodeScratch
keep scratch buffer = do
  pooled ← plus scratch.pooled_bytes buffer.capacity
  ok (record { byte_buffers = scratch.byte_buffers ++ buffer ∷ []; pooled_bytes = pooled })

unfoldable pub recycle_byte_buffer : DecodeScratch → Buffer → Result DecodeScratch
recycle_byte_buffer scratch buffer =
    if buffer.capacity == 0 || length scratch.byte_buffers == max_pooled_buffers
    then ok scratch
    else do
      room ← minus max_pooled_bytes scratch.pooled_bytes
      if ltb room buffer.capacity then ok scratch else keep scratch buffer

unfoldable pub recycle_owned_stream : DecodeScratch → OwnedStream → Result DecodeScratch
recycle_owned_stream scratch stream =
    if stream.recyclable
    then recycle_byte_buffer scratch (record { bytes = stream.bytes; capacity = stream.capacity })
    else ok scratch
