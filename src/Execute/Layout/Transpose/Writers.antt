-- ===== src/Execute/Layout/Transpose/Writers.antt =====
-- The lane writers of crates/decode/src/execute/layout/fast_transpose.rs and the rows of their lanes.
use ozlrip.Prelude.{
  ltb, length, set, length-append, set-middle, lt→ltb, ℕ, ◌+◌, ◌*◌, ◌<◌, ◌≡◌, refl, sym, ap, ◌∙◌,
  true, List, [], ◌∷◌, ◌++◌, append_assoc, arith,
}
use ozlrip.Core.{Bytes, ok, usize_mod}
use ozlrip.Execute.Streams.{StreamInput}
use ozlrip.Execute.Layout.FastTranspose.{
  times, zip_lanes, write_2_chunk, write_2, write_4_chunk, write_4, write_8_chunk, write_8,
  write_other, write_lanes,
}
use ozlrip.Execute.Layout.Transpose.Lanes.{
  AreLong, row, rows, index-byte_at, for_each_chunk-rows, zip_lanes-row,
}

-- Values set in turn from the end of `before` on.
abbrev put : Bytes → ℕ → Bytes → Bytes
put [] k out = out
put (value ∷ values) k out = put values (k + 1) (set out k value)

put-all :
    (values before rest : Bytes)
    → length rest ≡ length values
    → put values (length before) (before ++ rest) ≡ before ++ values
put-all [] before [] h = refl
put-all [] before (old ∷ rest) h = absurd (omega arith)
put-all (value ∷ values) before [] h = absurd (omega arith)
put-all (value ∷ values) before (old ∷ rest) h =
    let size : length (before ++ value ∷ []) ≡ length before + 1 =
      omega (arith, length-append before (value ∷ [])) in
    let others = put-all values (before ++ value ∷ []) rest (omega arith) in
    ap (put values (length before + 1)) (set-middle before rest old value)
    ∙ ap (λ k. put values k ((before ++ value ∷ []) ++ rest)) (sym size)
    ∙ others
    ∙ append_assoc before (value ∷ []) values

write_2_chunk-row :
    (n : ℕ) (lane0 lane1 : StreamInput)
    → AreLong n (lane0 ∷ lane1 ∷ [])
    → (k : ℕ) (out : Bytes) → k < n
    → length out ≡ 2
    → write_2_chunk lane0.bytes lane1.bytes k out ≡ ok (row (lane0 ∷ lane1 ∷ []) k)
unfolding write_2_chunk
write_2_chunk-row n lane0 lane1 (h0, (h1, u)) k out inside h =
    rw (index-byte_at lane0.bytes k (omega arith), index-byte_at lane1.bytes k (omega arith))
      (ap ok (put-all (row (lane0 ∷ lane1 ∷ []) k) [] out h))

write_4_chunk-row :
    (n : ℕ) (lane0 lane1 lane2 lane3 : StreamInput)
    → AreLong n (lane0 ∷ lane1 ∷ lane2 ∷ lane3 ∷ [])
    → (k : ℕ) (out : Bytes) → k < n
    → length out ≡ 4
    → write_4_chunk lane0.bytes lane1.bytes lane2.bytes lane3.bytes k out
      ≡ ok (row (lane0 ∷ lane1 ∷ lane2 ∷ lane3 ∷ []) k)
unfolding write_4_chunk
write_4_chunk-row n lane0 lane1 lane2 lane3 (h0, (h1, (h2, (h3, u)))) k out inside h =
    rw
      (
        index-byte_at lane0.bytes k (omega arith),
        index-byte_at lane1.bytes k (omega arith),
        index-byte_at lane2.bytes k (omega arith),
        index-byte_at lane3.bytes k (omega arith),
      )
      (ap ok (put-all (row (lane0 ∷ lane1 ∷ lane2 ∷ lane3 ∷ []) k) [] out h))

write_8_chunk-row :
    (n : ℕ) (lane0 lane1 lane2 lane3 lane4 lane5 lane6 lane7 : StreamInput)
    → AreLong n (lane0 ∷ lane1 ∷ lane2 ∷ lane3 ∷ lane4 ∷ lane5 ∷ lane6 ∷ lane7 ∷ [])
    → (k : ℕ) (out : Bytes) → k < n
    → length out ≡ 8
    → write_8_chunk lane0.bytes lane1.bytes lane2.bytes lane3.bytes lane4.bytes lane5.bytes
        lane6.bytes lane7.bytes k out
      ≡ ok (row (lane0 ∷ lane1 ∷ lane2 ∷ lane3 ∷ lane4 ∷ lane5 ∷ lane6 ∷ lane7 ∷ []) k)
unfolding write_8_chunk
write_8_chunk-row n lane0 lane1 lane2 lane3 lane4 lane5 lane6 lane7
      (h0, (h1, (h2, (h3, (h4, (h5, (h6, (h7, u)))))))) k out inside h =
    rw
      (
        index-byte_at lane0.bytes k (omega arith),
        index-byte_at lane1.bytes k (omega arith),
        index-byte_at lane2.bytes k (omega arith),
        index-byte_at lane3.bytes k (omega arith),
        index-byte_at lane4.bytes k (omega arith),
        index-byte_at lane5.bytes k (omega arith),
        index-byte_at lane6.bytes k (omega arith),
        index-byte_at lane7.bytes k (omega arith),
      )
      (ap ok (
        put-all (row (lane0 ∷ lane1 ∷ lane2 ∷ lane3 ∷ lane4 ∷ lane5 ∷ lane6 ∷ lane7 ∷ []) k) [] out
          h))

write_other-rows :
    (n : ℕ) (lanes : List StreamInput) (output : Bytes)
    → 0 < length lanes
    → AreLong n lanes
    → write_other lanes (n * length lanes) output ≡ ok (rows n 0 lanes)
unfolding write_other
write_other-rows n lanes output some_lanes long =
    for_each_chunk-rows n (length lanes) (zip_lanes lanes) lanes output some_lanes
      (λ k out inside h. zip_lanes-row n lanes k out long inside h)

write_2-rows :
    (n : ℕ) (lane0 lane1 : StreamInput) (output : Bytes)
    → AreLong n (lane0 ∷ lane1 ∷ [])
    → n * 2 < usize_mod
    → write_2 lane0.bytes lane1.bytes output ≡ ok (rows n 0 (lane0 ∷ lane1 ∷ []))
unfolding write_2 times
write_2-rows n lane0 lane1 output long small =
    let fits : ltb (n * 2) usize_mod ≡ true = lt→ltb _ _ small in
    rw (long.0, fits)
      (for_each_chunk-rows n 2 (write_2_chunk lane0.bytes lane1.bytes) (lane0 ∷ lane1 ∷ []) output
        (omega arith) (write_2_chunk-row n lane0 lane1 long))

write_4-rows :
    (n : ℕ) (lane0 lane1 lane2 lane3 : StreamInput) (output : Bytes)
    → AreLong n (lane0 ∷ lane1 ∷ lane2 ∷ lane3 ∷ [])
    → n * 4 < usize_mod
    → write_4 lane0.bytes lane1.bytes lane2.bytes lane3.bytes output
      ≡ ok (rows n 0 (lane0 ∷ lane1 ∷ lane2 ∷ lane3 ∷ []))
unfolding write_4 times
write_4-rows n lane0 lane1 lane2 lane3 output long small =
    let fits : ltb (n * 4) usize_mod ≡ true = lt→ltb _ _ small in
    rw (long.0, fits)
      (for_each_chunk-rows n 4 (write_4_chunk lane0.bytes lane1.bytes lane2.bytes lane3.bytes)
        (lane0 ∷ lane1 ∷ lane2 ∷ lane3 ∷ []) output (omega arith)
        (write_4_chunk-row n lane0 lane1 lane2 lane3 long))

write_8-rows :
    (n : ℕ) (lane0 lane1 lane2 lane3 lane4 lane5 lane6 lane7 : StreamInput) (output : Bytes)
    → AreLong n (lane0 ∷ lane1 ∷ lane2 ∷ lane3 ∷ lane4 ∷ lane5 ∷ lane6 ∷ lane7 ∷ [])
    → n * 8 < usize_mod
    → write_8 lane0.bytes lane1.bytes lane2.bytes lane3.bytes lane4.bytes lane5.bytes lane6.bytes
        lane7.bytes output
      ≡ ok (rows n 0 (lane0 ∷ lane1 ∷ lane2 ∷ lane3 ∷ lane4 ∷ lane5 ∷ lane6 ∷ lane7 ∷ []))
unfolding write_8 times
write_8-rows n lane0 lane1 lane2 lane3 lane4 lane5 lane6 lane7 output long small =
    let fits : ltb (n * 8) usize_mod ≡ true = lt→ltb _ _ small in
    rw (long.0, fits)
      (for_each_chunk-rows n 8
        (write_8_chunk lane0.bytes lane1.bytes lane2.bytes lane3.bytes lane4.bytes lane5.bytes
          lane6.bytes lane7.bytes)
        (lane0 ∷ lane1 ∷ lane2 ∷ lane3 ∷ lane4 ∷ lane5 ∷ lane6 ∷ lane7 ∷ []) output (omega arith)
        (write_8_chunk-row n lane0 lane1 lane2 lane3 lane4 lane5 lane6 lane7 long))

-- The whole output is the rows of the lanes.
pub write_lanes-rows :
    (n : ℕ) (lanes : List StreamInput) (output : Bytes)
    → 0 < length lanes
    → AreLong n lanes
    → n * length lanes < usize_mod
    → write_lanes lanes (n * length lanes) output ≡ ok (rows n 0 lanes)
unfolding write_lanes
write_lanes-rows n [] output some_lanes long small = absurd (omega arith)
write_lanes-rows n (lane0 ∷ []) output some_lanes long small =
    write_other-rows n (lane0 ∷ []) output some_lanes long
write_lanes-rows n (lane0 ∷ lane1 ∷ []) output some_lanes long small =
    write_2-rows n lane0 lane1 output long small
write_lanes-rows n (lane0 ∷ lane1 ∷ lane2 ∷ []) output some_lanes long small =
    write_other-rows n (lane0 ∷ lane1 ∷ lane2 ∷ []) output some_lanes long
write_lanes-rows n (lane0 ∷ lane1 ∷ lane2 ∷ lane3 ∷ []) output some_lanes long small =
    write_4-rows n lane0 lane1 lane2 lane3 output long small
write_lanes-rows n (lane0 ∷ lane1 ∷ lane2 ∷ lane3 ∷ lane4 ∷ []) output some_lanes long small =
    write_other-rows n (lane0 ∷ lane1 ∷ lane2 ∷ lane3 ∷ lane4 ∷ []) output some_lanes long
write_lanes-rows n (lane0 ∷ lane1 ∷ lane2 ∷ lane3 ∷ lane4 ∷ lane5 ∷ []) output some_lanes long
      small =
    write_other-rows n (lane0 ∷ lane1 ∷ lane2 ∷ lane3 ∷ lane4 ∷ lane5 ∷ []) output some_lanes long
write_lanes-rows n (lane0 ∷ lane1 ∷ lane2 ∷ lane3 ∷ lane4 ∷ lane5 ∷ lane6 ∷ []) output some_lanes
      long small =
    write_other-rows n (lane0 ∷ lane1 ∷ lane2 ∷ lane3 ∷ lane4 ∷ lane5 ∷ lane6 ∷ []) output
      some_lanes long
write_lanes-rows n (lane0 ∷ lane1 ∷ lane2 ∷ lane3 ∷ lane4 ∷ lane5 ∷ lane6 ∷ lane7 ∷ []) output
      some_lanes long small =
    write_8-rows n lane0 lane1 lane2 lane3 lane4 lane5 lane6 lane7 output long small
write_lanes-rows n (lane0 ∷ lane1 ∷ lane2 ∷ lane3 ∷ lane4 ∷ lane5 ∷ lane6 ∷ lane7 ∷ lane8 ∷ lanes)
      output some_lanes long small =
    write_other-rows n
      (lane0 ∷ lane1 ∷ lane2 ∷ lane3 ∷ lane4 ∷ lane5 ∷ lane6 ∷ lane7 ∷ lane8 ∷ lanes) output
      some_lanes long
