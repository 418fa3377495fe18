-- ===== src/Execute/Layout/FastTranspose.antt =====
-- crates/decode/src/execute/layout/fast_transpose.rs: the lanes of `transpose_split`, in a release build.
use ozlrip.Prelude.{
  ltb, ◌==◌, length, take, drop, set, ℕ, zero, suc, ◌+◌, ◌*◌, ◌/◌, if◌then◌else◌, List, [], ◌∷◌,
  ◌++◌,
}
use ozlrip.Core.{Bytes, Result, ok, panic, ◌>>=◌, index, usize_mod}
use ozlrip.Execute.Streams.{StreamInput}
use ozlrip.Execute.Numeric.Delta.{resize}

-- `a * b` on `usize`, where overflow stops a checked build.
unfoldable pub times : ℕ → ℕ → Result ℕ
times a b = if ltb (a * b) usize_mod then ok (a * b) else panic

-- What a loop over chunks does with one chunk: from the chunk's number and the bytes it holds to the
-- bytes it holds afterwards.
abbrev pub ChunkBody : Type 0
ChunkBody = ℕ → Bytes → Result Bytes

-- The loop over chunks of `width` bytes from chunk `i` on, with `left` rounds to go. The bytes behind the
-- last whole chunk stay.
unfoldable pub write_chunks : ℕ → ℕ → ℕ → ChunkBody → Bytes → Result Bytes
write_chunks zero width i body output = ok output
write_chunks (suc left) width i body output = do
  out ← body i (take width output)
  rest ← write_chunks left width (i + 1) body (drop width output)
  ok (out ++ rest)

-- `output.chunks_exact_mut(width).enumerate()` and `output.as_chunks_mut::<width>()`, over all of `output`.
unfoldable pub for_each_chunk : ℕ → ChunkBody → Bytes → Result Bytes
for_each_chunk width body output =
    if width == 0 then panic else write_chunks (length output / width) width 0 body output

-- `for (byte, lane) in out.iter_mut().zip(inputs)`
unfoldable pub zip_lanes : List StreamInput → ChunkBody
zip_lanes lanes element [] = ok []
zip_lanes [] element (byte ∷ out) = ok (byte ∷ out)
zip_lanes (lane ∷ lanes) element (byte ∷ out) = do
  value ← index lane.bytes element
  rest ← zip_lanes lanes element out
  ok (value ∷ rest)

-- `out` is an array of the lane writer's width, so that only the reads can panic.
unfoldable pub write_2_chunk : Bytes → Bytes → ChunkBody
write_2_chunk lane0 lane1 i out = do
  byte0 ← index lane0 i
  byte1 ← index lane1 i
  ok (set (set out 0 byte0) 1 byte1)

unfoldable pub write_2 : Bytes → Bytes → Bytes → Result Bytes
write_2 lane0 lane1 output = do
  size ← times (length lane0) 2
  for_each_chunk 2 (write_2_chunk lane0 lane1) (resize size output)

unfoldable pub write_4_chunk : Bytes → Bytes → Bytes → Bytes → ChunkBody
write_4_chunk lane0 lane1 lane2 lane3 i out = do
  byte0 ← index lane0 i
  byte1 ← index lane1 i
  byte2 ← index lane2 i
  byte3 ← index lane3 i
  ok (set (set (set (set out 0 byte0) 1 byte1) 2 byte2) 3 byte3)

unfoldable pub write_4 : Bytes → Bytes → Bytes → Bytes → Bytes → Result Bytes
write_4 lane0 lane1 lane2 lane3 output = do
  size ← times (length lane0) 4
  for_each_chunk 4 (write_4_chunk lane0 lane1 lane2 lane3) (resize size output)

unfoldable pub write_8_chunk :
    Bytes → Bytes → Bytes → Bytes → Bytes → Bytes → Bytes → Bytes → ChunkBody
write_8_chunk lane0 lane1 lane2 lane3 lane4 lane5 lane6 lane7 i out = do
  byte0 ← index lane0 i
  byte1 ← index lane1 i
  byte2 ← index lane2 i
  byte3 ← index lane3 i
  byte4 ← index lane4 i
  byte5 ← index lane5 i
  byte6 ← index lane6 i
  byte7 ← index lane7 i
  let half = set (set (set (set out 0 byte0) 1 byte1) 2 byte2) 3 byte3
  ok (set (set (set (set half 4 byte4) 5 byte5) 6 byte6) 7 byte7)

unfoldable pub write_8 :
    Bytes → Bytes → Bytes → Bytes → Bytes → Bytes → Bytes → Bytes → Bytes → Result Bytes
write_8 lane0 lane1 lane2 lane3 lane4 lane5 lane6 lane7 output = do
  size ← times (length lane0) 8
  for_each_chunk 8 (write_8_chunk lane0 lane1 lane2 lane3 lane4 lane5 lane6 lane7)
      (resize size output)

-- The loop for any other number of lanes.
unfoldable pub write_other : List StreamInput → ℕ → Bytes → Result Bytes
write_other inputs output_len output =
    for_each_chunk (length inputs) (zip_lanes inputs) (resize output_len output)

unfoldable pub write_lanes : List StreamInput → ℕ → Bytes → Result Bytes
write_lanes (lane0 ∷ lane1 ∷ []) output_len output = write_2 lane0.bytes lane1.bytes output
write_lanes (lane0 ∷ lane1 ∷ lane2 ∷ lane3 ∷ []) output_len output =
    write_4 lane0.bytes lane1.bytes lane2.bytes lane3.bytes output
write_lanes (lane0 ∷ lane1 ∷ lane2 ∷ lane3 ∷ lane4 ∷ lane5 ∷ lane6 ∷ lane7 ∷ []) output_len output =
    write_8 lane0.bytes lane1.bytes lane2.bytes lane3.bytes lane4.bytes lane5.bytes lane6.bytes
      lane7.bytes output
write_lanes inputs output_len output = write_other inputs output_len output

-- Every SIMD level runs the same code.
unfoldable pub write_transpose_split_output : List StreamInput → ℕ → Bytes → Result Bytes
write_transpose_split_output inputs output_len output = write_lanes inputs output_len output
