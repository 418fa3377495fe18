-- ===== src/Parse/Bitpacked/Tame.antt =====
-- The bit-packed fields are tame.
use ozlrip.Prelude.{ℕ, ◌≡◌, length}
use ozlrip.Parse.Reader.{lift}
use ozlrip.Parse.Packed.{read_packed_value}
use ozlrip.Parse.Reader.Gives.{Gives, Gives-then, for_range-length}
use ozlrip.Parse.Reader.Tame.{Tame}
use ozlrip.Parse.Reader.Primitives.{tame_rules}
use ozlrip.Parse.Packed.Safe.{packed_rules}
use ozlrip.Parse.Bitpacked.{
  read_bitpacked_u32, read_bitpacked_u32_inline, read_bitpacked_single_u32,
  read_single_low_bits_u32,
}

module _ {lo : ℕ} where
  pub Tame-read_bitpacked_u32 : (count bits : ℕ) → Tame lo (read_bitpacked_u32 count bits)
  unfolding read_bitpacked_u32
  Tame-read_bitpacked_u32 count bits = search (tame_rules, packed_rules) depth 12

  pub Tame-read_bitpacked_u32_inline :
      (count bits : ℕ) → Tame lo (read_bitpacked_u32_inline count bits)
  unfolding read_bitpacked_u32_inline
  Tame-read_bitpacked_u32_inline count bits = search (tame_rules, packed_rules) depth 12

  pub Tame-read_bitpacked_single_u32 : (bits : ℕ) → Tame lo (read_bitpacked_single_u32 bits)
  unfolding read_bitpacked_single_u32
  Tame-read_bitpacked_single_u32 bits = search (tame_rules, packed_rules) depth 12

  pub Tame-read_single_low_bits_u32 : (bits : ℕ) → Tame lo (read_single_low_bits_u32 bits)
  unfolding read_single_low_bits_u32
  Tame-read_single_low_bits_u32 bits =
      search (tame_rules, packed_rules, Tame-read_bitpacked_single_u32) depth 12

-- As many values as asked for.
pub read_bitpacked_u32-length :
    (count bits : ℕ) → Gives (λ values. length values ≡ count) (read_bitpacked_u32 count bits)
unfolding read_bitpacked_u32
read_bitpacked_u32-length count bits = Gives-then _ _ _ λ u. Gives-then _ _ _ λ n.
    Gives-then _ _ _
      λ packed. for_range-length (λ index. lift (read_packed_value packed index bits)) 0 count
