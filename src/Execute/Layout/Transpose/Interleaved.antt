-- ===== src/Execute/Layout/Transpose/Interleaved.antt =====
-- The places of the lanes' bytes: `decode_transpose_split_node` of
-- crates/decode/src/execute/layout/transpose.rs.
use ozlrip.Prelude.{
  ltb, ◌==◌, length, get_elem?, lt→ltb, get_elem?-append, get_elem?-behind, ℕ, zero, suc, ◌+◌, ◌*◌,
  ◌<◌, ◌≡◌, ◌⊎◌, inl, inr, refl, sym, ap, ◌∙◌, true, false, not, ◌&&◌, Option, some, List, [], ◌∷◌,
  ◌++◌, arith,
}
use ozlrip.Core.{Bytes, ok, checked_mul, usize_mod, Limits}
use ozlrip.Execute.Streams.{StreamInput, Buffer, pooled_stream, require_empty_header}
use ozlrip.Execute.Output.{check_output_len}
use ozlrip.Execute.Runtime.{DecodeScratch, take_stale_byte_buffer}
use ozlrip.Execute.Layout.FastTranspose.{write_transpose_split_output}
use ozlrip.Execute.Layout.Transpose.{same_lengths, decode_transpose_split_node}
use ozlrip.Execute.Layout.Transpose.Rows.{byte_at}
use ozlrip.Execute.Layout.Transpose.Lanes.{
  AreLong, row, rows, length-row, length-rows, get-row, byte_at-get,
}
use ozlrip.Execute.Layout.Transpose.Writers.{write_lanes-rows}

get-rows :
    (left i e k : ℕ) (lanes : List StreamInput) (lane : StreamInput)
    → e < left
    → get_elem? lanes k ≡ some lane
    → get_elem? (rows left i lanes) (e * length lanes + k) ≡ some (byte_at lane.bytes (i + e))
unfolding rows
get-rows zero i e k lanes lane h at = absurd (omega arith)
get-rows (suc left) i zero k lanes lane h at =
    let here : 0 * length lanes + k ≡ k = omega arith in
    let same : i + 0 ≡ i = omega arith in
    rw (here, same)
      (get_elem?-append (row lanes i) (rows left (i + 1) lanes) k (get-row lanes i k lane at))
get-rows (suc left) i (suc e) k lanes lane h at =
    let size = length-row lanes i in
    let behind : suc e * length lanes + k ≡ length (row lanes i) + (e * length lanes + k) =
      rw size (grind arith) in
    let same : i + 1 + e ≡ i + suc e = omega arith in
    ap (get_elem? (row lanes i ++ rows left (i + 1) lanes)) behind
    ∙ get_elem?-behind (row lanes i) (rows left (i + 1) lanes) (e * length lanes + k)
    ∙ get-rows left (i + 1) e k lanes lane (omega arith) at
    ∙ ap (λ p. some (byte_at lane.bytes p)) same

AreLong-same_lengths :
    (n : ℕ) (lanes : List StreamInput) → AreLong n lanes → same_lengths n lanes ≡ ok tt
unfolding same_lengths
AreLong-same_lengths n [] long = refl
AreLong-same_lengths n (lane ∷ lanes) (size, long) =
    let same : (length lane.bytes == n) ≡ true = ground arith in
    rw same (AreLong-same_lengths n lanes long)

AreLong-get :
    (n k : ℕ) (lanes : List StreamInput) (lane : StreamInput)
    → AreLong n lanes
    → get_elem? lanes k ≡ some lane
    → length lane.bytes ≡ n
AreLong-get n k [] lane long e = absurd (cc e)
AreLong-get n zero (first ∷ lanes) lane (size, long) e = cc (size, e)
AreLong-get n (suc k) (first ∷ lanes) lane (size, long) e = AreLong-get n k lanes lane long e

count_fits :
    (declared count : ℕ)
    → (declared ≡ 0) ⊎ (declared ≡ count)
    → (not (declared == 0) && not (declared == count)) ≡ false
count_fits declared count (inl h) = ground arith
count_fits declared count (inr h) = ground arith

-- On one lane or more of `n` bytes each, where the declared count of variable inputs is 0 or the number of
-- lanes and all bytes together are within the limits and fewer than 2 ^ 64, and on every pool that hands
-- out a buffer, whatever that holds: the split transpose node returns, in the buffer handed out, a stream
-- as long as the lanes together, with byte `e` of lane `k` at place `k` of element `e`, of as many bytes an
-- element as there are lanes.
pub decode_transpose_split_node-interleaved :
    (allocate : ℕ → Option ℕ) (n declared : ℕ) (lanes : List StreamInput) (limits : Limits)
    → (scratch rest : DecodeScratch) (buffer : Buffer) → 0 < length lanes
    → AreLong n lanes
    → (declared ≡ 0) ⊎ (declared ≡ length lanes)
    → n * length lanes < usize_mod
    → check_output_len (n * length lanes) limits ≡ ok tt
    → take_stale_byte_buffer allocate scratch (n * length lanes) ≡ ok (buffer, rest)
    → (output : Bytes) × (decode_transpose_split_node allocate lanes declared [] limits scratch
        ≡ ok (
          pooled_stream (record { bytes = output; capacity = buffer.capacity }) (length lanes),
          rest,
        ))
      × (length output ≡ n * length lanes)
      × ((e k : ℕ) (lane : StreamInput)
          → e < n
          → get_elem? lanes k ≡ some lane
          → get_elem? output (e * length lanes + k) ≡ get_elem? lane.bytes e)
unfolding decode_transpose_split_node require_empty_header checked_mul write_transpose_split_output
decode_transpose_split_node-interleaved allocate n declared [] limits scratch rest buffer some_lanes
      long counted small room taken =
    absurd (omega arith)
decode_transpose_split_node-interleaved allocate n declared (first ∷ others) limits scratch rest
      buffer some_lanes long counted small room taken =
    let lanes = first ∷ others in
    let fits : ltb (n * length lanes) usize_mod ≡ true = lt→ltb _ _ small in
    let count = count_fits declared (length lanes) counted in
    let same = AreLong-same_lengths n lanes long in
    let written = write_lanes-rows n lanes buffer.bytes some_lanes long small in
    (
      rows n 0 lanes,
      rw (count, long.0, fits, room, same, taken, written) refl,
      length-rows n 0 lanes,
      λ e k lane inside at.
          let size = AreLong-get n k lanes lane long at in
          let from : 0 + e ≡ e = omega arith in
          get-rows n 0 e k lanes lane inside at
          ∙ ap (λ p. some (byte_at lane.bytes p)) from
          ∙ sym (byte_at-get lane.bytes e (omega arith)),
    )
