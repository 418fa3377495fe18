-- ===== src/Parse/Sizes/Tame.antt =====
-- The reads of the output sizes and of the comment are tame.
use ozlrip.Prelude.{ℕ, suc, ap, ◌+◌, ◌≤◌, ◌<◌, ◌≡◌, arith, List, [], ◌∷◌, Option, length, refl}
use ozlrip.Core.{Bytes, Limits}
use ozlrip.Core.Safe.{IsSafe, IsSafe-index, safe_rules}
use ozlrip.Info.{FrameValueType, serial, struct, numeric, string}
use ozlrip.Parse.Reader.Tame.{Tame, Tame-bind, Tame-bind_eq}
use ozlrip.Parse.Reader.Primitives.{tame_rules, Tame-peek_byte}
use ozlrip.Parse.Reader.Rules.{Tame-offset_any}
use ozlrip.Parse.Reader.Gives.{Gives, Gives-pure, Gives-bind, Gives-then}
use ozlrip.Parse.Packed.Safe.{packed_rules}
use ozlrip.Parse.Sizes.{
  read_u32_output_sizes, varint_sizes_loop, read_elements, varint_elements_loop,
  read_varint_output_sizes, read_output_sizes, read_comment, verify_header_checksum,
}

pub IsSafe-verify_header_checksum :
    (xxh3 : Bytes → ℕ) (bytes : Bytes) (expected at : ℕ)
    → IsSafe (verify_header_checksum xxh3 bytes expected at)
unfolding verify_header_checksum
IsSafe-verify_header_checksum xxh3 bytes expected at = search safe_rules

module _ {lo : ℕ} where
  pub Tame-read_comment : Tame lo read_comment
  unfolding read_comment
  Tame-read_comment = search tame_rules depth 12

  Tame-read_u32_output_sizes :
      (total : ℕ) (types : List FrameValueType) (limits : Limits)
      → Tame lo (read_u32_output_sizes total types limits)
  unfolding read_u32_output_sizes
  Tame-read_u32_output_sizes total [] limits = search tame_rules
  Tame-read_u32_output_sizes total (t ∷ types) limits =
      search (tame_rules, packed_rules, λ (n : ℕ). Tame-read_u32_output_sizes n types limits) depth
        12

  Tame-varint_sizes_loop :
      (total : ℕ) (types : List FrameValueType) (limits : Limits)
      → Tame lo (varint_sizes_loop total types limits)
  unfolding varint_sizes_loop
  Tame-varint_sizes_loop total [] limits = search tame_rules
  Tame-varint_sizes_loop total (t ∷ types) limits =
      search (tame_rules, packed_rules, λ (n : ℕ). Tame-varint_sizes_loop n types limits) depth 12

  Tame-read_elements :
      (t : FrameValueType) (sizes : List (Option ℕ)) (idx : ℕ)
      → idx < length sizes
      → Tame lo (read_elements t sizes idx)
  unfolding read_elements
  Tame-read_elements serial sizes idx h = search (tame_rules, IsSafe-index)
  Tame-read_elements struct sizes idx h = search tame_rules
  Tame-read_elements numeric sizes idx h = search tame_rules
  Tame-read_elements string sizes idx h = search tame_rules

  Tame-varint_elements_loop :
      (idx : ℕ) (types : List FrameValueType) (sizes : List (Option ℕ))
      → idx + length types ≤ length sizes
      → Tame lo (varint_elements_loop idx types sizes)
  unfolding varint_elements_loop
  Tame-varint_elements_loop idx [] sizes h = search tame_rules
  Tame-varint_elements_loop idx (t ∷ types) sizes h =
      let rest : Tame lo (varint_elements_loop (idx + 1) types sizes) =
        Tame-varint_elements_loop (idx + 1) types sizes (omega arith) in
      let first : Tame lo (read_elements t sizes idx) =
        Tame-read_elements t sizes idx (omega arith) in
      search tame_rules depth 8

varint_sizes_loop-length :
    (total : ℕ) (types : List FrameValueType) (limits : Limits)
    → Gives (λ p. length p.1 ≡ length types) (varint_sizes_loop total types limits)
unfolding varint_sizes_loop
varint_sizes_loop-length total [] limits = Gives-pure _ _ refl
varint_sizes_loop-length total (t ∷ types) limits = Gives-then _ _ _ λ encoded.
    Gives-then _ _ _ λ at. Gives-then _ _ _ λ u. Gives-then _ _ _ λ n.
      Gives-bind (λ p. length p.1 ≡ length types) _ (varint_sizes_loop n types limits) _
        (varint_sizes_loop-length n types limits) (λ p h. Gives-pure _ _ (ap suc h))

module _ {lo : ℕ} where
  Tame-read_varint_output_sizes :
      (types : List FrameValueType) (limits : Limits)
      → Tame lo (read_varint_output_sizes types limits)
  unfolding read_varint_output_sizes
  Tame-read_varint_output_sizes types limits = Tame-bind _ _ Tame-peek_byte λ first.
      Tame-bind _ _ Tame-offset_any λ at. Tame-bind _ _ (search tame_rules) λ u.
        Tame-bind_eq _ _ (Tame-varint_sizes_loop 0 types limits) λ r p r' e.
          let same : length p.1 ≡ length types =
            (varint_sizes_loop-length 0 types limits).at r p r' e in
          let elements : Tame lo (varint_elements_loop 0 types p.1) =
            Tame-varint_elements_loop 0 types p.1 (omega arith) in
          search tame_rules

  pub Tame-read_output_sizes :
      (types : List FrameValueType) (format_version : ℕ) (limits : Limits)
      → Tame lo (read_output_sizes types format_version limits)
  unfolding read_output_sizes
  Tame-read_output_sizes types format_version limits =
      search (tame_rules, Tame-read_u32_output_sizes, Tame-read_varint_output_sizes) depth 8
