-- ===== src/Execute/Numeric/Delta.antt =====
-- crates/decode/src/execute/numeric/fast_delta.rs, and `decode_delta_node` of arithmetic.rs.
pub mod Stale
pub mod RoundTrip
use ozlrip.Prelude.{
  ltb, leb, ◌==◌, if◌then◌else◌, length, take, drop, replicate, ℕ, ◌+◌, ◌-◌, ◌*◌, ◌%◌, ◌^◌, not,
  ◌&&◌, Option, List, [], ◌∷◌, ◌++◌,
}
use ozlrip.Core.{
  Bytes, malformed, error, Result, ok, err, panic, ◌>>=◌, ◌>>◌, fail_if, index, checked_add, Limits,
}
use ozlrip.Execute.Streams.{StreamInput, OwnedStream, pooled_stream, require_empty_header}
use ozlrip.Execute.Output.{check_output_len}
use ozlrip.Execute.Runtime.{DecodeScratch, take_stale_byte_buffer}
use ozlrip.Execute.Elements.{
  from_le_bytes, to_le_bytes, chunks_exact, is_numeric_width, validate_numeric_stream_width,
  numeric_element_count,
}

-- `output.resize(n, 0)`
unfoldable pub resize : ℕ → Bytes → Bytes
resize n bytes = take n bytes ++ replicate (n - length bytes) 0

-- The mapped iterator of the one-byte case.
unfoldable pub running_bytes : ℕ → Bytes → Bytes
running_bytes previous [] = []
running_bytes previous (delta ∷ deltas) =
    let next = (previous + delta) % 256 in next ∷ running_bytes next deltas

-- The loop over pairs of an output element and a delta, which ends with the shorter side.
unfoldable pub zip_deltas : ℕ → ℕ → Bytes → List Bytes → Bytes
zip_deltas w previous out [] = out
zip_deltas w previous out (delta ∷ deltas) =
    let next = (previous + from_le_bytes delta) % 2 ^ (8 * w) in
    let rest = zip_deltas w next (drop w out) deltas in
    if leb w (length out) then to_le_bytes w next ++ rest else out

-- `output[..w].copy_from_slice(header)`, and the loop over the rest of the output.
unfoldable pub write_deltas : ℕ → Bytes → Bytes → Bytes → Result Bytes
write_deltas w header stored output =
    if leb w (length output) && length header == w
    then ok (header ++ zip_deltas w (from_le_bytes header) (drop w output) (chunks_exact w stored))
    else panic

unfoldable pub decode_delta_elements : Bytes → Bytes → ℕ → ℕ → Bytes → Result Bytes
decode_delta_elements stored header w output_len output =
    if w == 1
    then (index header 0 >>= λ previous. ok (previous ∷ running_bytes previous stored))
    else if is_numeric_width w
    then write_deltas w header stored (resize output_len output)
    else panic

abbrev pub delta_header_version_min : ℕ
delta_header_version_min = 13

-- `bytes.split_at_checked(w).unwrap_or_default()`
unfoldable pub split_at_checked : ℕ → Bytes → Bytes × Bytes
split_at_checked w bytes = if leb w (length bytes) then (take w bytes, drop w bytes) else ([], [])

-- The first value, and the deltas.
unfoldable pub first_and_deltas : StreamInput → Bytes → ℕ → Result (Bytes × Bytes)
first_and_deltas stored header format_version =
    if ltb format_version delta_header_version_min
    then (require_empty_header header >> ok (split_at_checked stored.element_width stored.bytes))
    else if length header == 0
    then fail_if (not (length stored.bytes == 0)) (error malformed) >> ok (header, stored.bytes)
    else if length header == stored.element_width
    then ok (header, stored.bytes)
    else err (error malformed)

module _ (allocate : ℕ → Option ℕ) where
  -- A buffer with room for the output is filled, and does not grow.
  unfoldable pub fill_deltas :
      Bytes → Bytes → ℕ → ℕ → DecodeScratch → Result (OwnedStream × DecodeScratch)
  fill_deltas first deltas w output_len scratch = do
    (stale, rest) ← take_stale_byte_buffer allocate scratch output_len
    bytes ← decode_delta_elements deltas first w output_len stale.bytes
    ok (pooled_stream (record { bytes = bytes; capacity = stale.capacity }) w, rest)

  unfoldable pub decode_delta_node :
      StreamInput → Bytes → ℕ → Limits → DecodeScratch → Result (OwnedStream × DecodeScratch)
  decode_delta_node stored header format_version limits scratch = do
    validate_numeric_stream_width stored.element_width
    count ← numeric_element_count stored.bytes stored.element_width
    (first, deltas) ← first_and_deltas stored header format_version
    output_len ← checked_add (length first) (length deltas)
    check_output_len output_len limits
    if length first == 0
        then ok (pooled_stream (record { bytes = []; capacity = 0 }) stored.element_width, scratch)
        else fill_deltas first deltas stored.element_width output_len scratch
