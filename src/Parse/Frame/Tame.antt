-- ===== src/Parse/Frame/Tame.antt =====
-- The header and the whole scan of a frame are read tamely.
use ozlrip.Prelude.{ℕ, ◌≤◌, arith, Bool}
use ozlrip.Core.{Bytes, Limits}
use ozlrip.Parse.Reader.{read_u32_le, read_array}
use ozlrip.Parse.Reader.Tame.{Tame}
use ozlrip.Parse.Reader.Rules.{Tame-offset, Tame-pure}
use ozlrip.Parse.Reader.Primitives.{tame_rules, Tame-read_u32_le, Tame-slice_input, Tame-read_array}
use ozlrip.Parse.Reader.Moves.{Moves, Moves-bind, Tame-raise, read_slice-Moves}
use ozlrip.Parse.Header.Tame.{
  IsSafe-format_version_from_magic, Tame-read_bundle_id, Tame-read_output_header,
}
use ozlrip.Parse.Sizes.Tame.{
  IsSafe-verify_header_checksum, Tame-read_output_sizes, Tame-read_comment,
}
use ozlrip.Parse.Chunk.Loop.{Tame-read_chunks}
use ozlrip.Parse.Frame.{check_header_checksum, read_frame_header, scan}

read_u32_le-Moves : {lo : ℕ} → Moves lo 4 read_u32_le
unfolding read_u32_le read_array
read_u32_le-Moves = Moves-bind _ _ (Tame-read_array 4) (read_slice-Moves 4) (λ bs. Tame-pure _)

module _ (xxh3 : Bytes → ℕ) where
  Tame-check_header_checksum :
      {lo : ℕ} (verify_compressed : Bool) → Tame lo (check_header_checksum xxh3 verify_compressed)
  unfolding check_header_checksum
  Tame-check_header_checksum verify_compressed = Tame-offset _ λ n up.
      let covered = Tame-slice_input {lo = n} n (omega arith) in
      search (tame_rules, IsSafe-verify_header_checksum) depth 10

  pub Tame-read_frame_header :
      (limits : Limits) (verify_compressed : Bool)
      → Tame 0 (read_frame_header xxh3 limits verify_compressed)
  unfolding read_frame_header
  Tame-read_frame_header limits verify_compressed =
      Tame-raise _ _ Tame-read_u32_le read_u32_le-Moves λ hi magic up.
        let four : 4 ≤ hi = omega arith in
        search
          (
            tame_rules, IsSafe-format_version_from_magic, Tame-read_bundle_id,
            Tame-read_output_header, Tame-read_output_sizes, Tame-read_comment,
            Tame-check_header_checksum,
          )
          depth 24

  pub Tame-scan :
      (limits : Limits) (verify_compressed : Bool) → Tame 0 (scan xxh3 limits verify_compressed)
  unfolding scan
  Tame-scan limits verify_compressed =
      search (tame_rules, Tame-read_frame_header, Tame-read_chunks) depth 8
