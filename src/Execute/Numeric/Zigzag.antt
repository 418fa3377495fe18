-- ===== src/Execute/Numeric/Zigzag.antt =====
-- crates/decode/src/execute/numeric/fast_zigzag.rs, and `decode_zigzag_numeric_chunk` of arithmetic.rs.
pub mod RoundTrip
use ozlrip.Prelude.{
  if◌then◌else◌, length, ℕ, ◌-◌, ◌*◌, ◌/◌, ◌%◌, ◌^◌, bit_and, bit_xor, not, List, [], ◌∷◌, ◌++◌,
}
use ozlrip.Core.{Bytes, malformed, error, Result, ok, panic, ◌>>=◌, ◌>>◌, fail_if, Limits}
use ozlrip.Execute.Streams.{StreamInput, OwnedStream, typed_stream, require_empty_header}
use ozlrip.Execute.Output.{alloc_output}
use ozlrip.Execute.Elements.{
  from_le_bytes, to_le_bytes, chunks_exact, is_numeric_width, validate_numeric_stream_width,
  is_multiple_of,
}

-- `(v >> 1) ^ 0.wrapping_sub(v & 1)` on a word of that many bits.
unfoldable pub unzigzag : ℕ → ℕ → ℕ
unzigzag bits v = bit_xor (v / 2) ((2 ^ bits - bit_and v 1) % 2 ^ bits)

-- The loop over the whole elements of the input.
unfoldable pub push_unzigzag : ℕ → Bytes → List Bytes → Bytes
push_unzigzag w output [] = output
push_unzigzag w output (encoded ∷ rest) =
    push_unzigzag w (output ++ to_le_bytes w (unzigzag (8 * w) (from_le_bytes encoded))) rest

unfoldable pub decode_numeric : Bytes → ℕ → Bytes → Result Bytes
decode_numeric input w output =
    if is_numeric_width w then ok (push_unzigzag w output (chunks_exact w input)) else panic

unfoldable pub decode_zigzag_numeric_chunk : StreamInput → Bytes → Limits → Result OwnedStream
decode_zigzag_numeric_chunk stored header limits = do
  require_empty_header header
  validate_numeric_stream_width stored.element_width
  fail_if (not (is_multiple_of (length stored.bytes) stored.element_width)) (error malformed)
  output ← alloc_output (length stored.bytes) limits
  bytes ← decode_numeric stored.bytes stored.element_width output
  ok (typed_stream bytes stored.element_width)
