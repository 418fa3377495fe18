-- ===== src/Parse/Frame/Outputs.antt =====
-- The output sizes that a frame's header declares: crates/decode/src/parse/header.rs.
use ozlrip.Prelude.{
  ℕ, suc, ◌+◌, ◌-◌, ◌≤◌, ◌≡◌, refl, sym, ap, ◌∙◌, arith, Bool, List, [], ◌∷◌, length, Option, some,
  none,
}
use ozlrip.Core.{Bytes, Limits, ok, >>=-eq-ok, checked_add, usize_from, error_at, limit_exceeded}
use ozlrip.Core.Safe.{checked_add-eq}
use ozlrip.Info.{FrameValueType}
use ozlrip.Parse.Reader.{lift}
use ozlrip.Parse.Reader.Gives.{Gives, Gives-pure, Gives-bind, Gives-then, Gives-if}
use ozlrip.Parse.Packed.{add_output_size, check_limit}
use ozlrip.Parse.Plan.{FramePlan}
use ozlrip.Parse.Sizes.{
  read_u32_output_sizes, varint_sizes_loop, varint_elements_loop, read_varint_output_sizes,
  OutputSizes, read_output_sizes,
}
use ozlrip.Parse.Chunk.Summary.{Gives-lift}
use ozlrip.Parse.Frame.{FrameHeader, read_frame_header, scan, frame_plan}
use ozlrip.Parse.Frame.Totals.{value-Gives}
use ozlrip.Parse.Entry.{new_reader, scan_frame}

abbrev pub sum_sizes : List (Option ℕ) → ℕ
sum_sizes [] = 0
sum_sizes (none ∷ sizes) = sum_sizes sizes
sum_sizes (some size ∷ sizes) = size + sum_sizes sizes

-- The new total of the declared sizes.
added_size :
    (total size at : ℕ) (limits : Limits)
    → Gives
        (λ t. (t ≡ total + size) × (t ≤ limits.max_decoded_bytes))
        (lift (add_output_size total size at limits))
unfolding add_output_size check_limit usize_from
added_size total size at limits = Gives-lift _ _ λ t e.
    let (s, p, h) = >>=-eq-ok (usize_from size (error_at limit_exceeded at)) _ e in
    let (u, q, k) = >>=-eq-ok (check_limit s limits.max_buffer_bytes) _ h in
    let (n, r, l) = >>=-eq-ok (checked_add total s) _ k in
    let (v, w, m) = >>=-eq-ok (check_limit n limits.max_decoded_bytes) _ l in
    let up : n ≡ total + s = checked_add-eq total s n r in
    let taken : s ≡ size = ground arith in
    let same : n ≡ t = ground arith in
    let within : n ≤ limits.max_decoded_bytes = ground arith in
    (sym same ∙ up ∙ ap (λ x. total + x) taken, omega arith)

-- From `total` on: the last total, the sizes and the element counts.
Sized : ℕ → List FrameValueType → Limits → ℕ → List (Option ℕ) → Type 0
Sized total types limits last sizes =
    (last ≡ total + sum_sizes sizes)
    × (total ≤ limits.max_decoded_bytes → last ≤ limits.max_decoded_bytes)
    × (length sizes ≡ length types)

u32-Sized :
    (total : ℕ) (types : List FrameValueType) (limits : Limits)
    → Gives
        (λ (x : ℕ × List (Option ℕ) × List (Option ℕ)).
          Sized total types limits x.0 x.1 × (length x.2 ≡ length types))
        (read_u32_output_sizes total types limits)
unfolding read_u32_output_sizes Sized
u32-Sized total [] limits = Gives-pure _ _ ((omega arith, (λ h. h), refl), refl)
u32-Sized total (kind ∷ types) limits = Gives-then _ _ _ λ size. Gives-then _ _ _ λ at.
    Gives-bind _ _ _ _ (added_size total size at limits) λ t a.
      Gives-bind _ _ _ _ (u32-Sized t types limits)
        λ rest b. Gives-pure _ _ ((omega arith, (λ h. b.0.1 a.1), ap suc b.0.2), ap suc b.1)

varint-Sized :
    (total : ℕ) (types : List FrameValueType) (limits : Limits)
    → Gives
        (λ (x : ℕ × List (Option ℕ)). Sized total types limits x.0 x.1)
        (varint_sizes_loop total types limits)
unfolding varint_sizes_loop Sized
varint-Sized total [] limits = Gives-pure _ _ (omega arith, (λ h. h), refl)
varint-Sized total (kind ∷ types) limits = Gives-then _ _ _ λ encoded. Gives-then _ _ _ λ at.
    Gives-then _ _ _ λ u. Gives-bind _ _ _ _ (added_size total (encoded - 1) at limits) λ t a.
      Gives-bind _ _ _ _ (varint-Sized t types limits)
        λ rest b. Gives-pure _ _ (omega arith, (λ h. b.1 a.1), ap suc b.2)

elements-length :
    (idx : ℕ) (types : List FrameValueType) (sizes : List (Option ℕ))
    → Gives (λ counts. length counts ≡ length types) (varint_elements_loop idx types sizes)
unfolding varint_elements_loop
elements-length idx [] sizes = Gives-pure _ _ refl
elements-length idx (kind ∷ types) sizes = Gives-then _ _ _ λ count.
    Gives-bind _ _ _ _ (elements-length (idx + 1) types sizes) λ counts a. Gives-pure _ _ (ap suc a)

read_varint-Sized :
    (types : List FrameValueType) (limits : Limits)
    → Gives
        (λ (x : ℕ × List (Option ℕ) × List (Option ℕ)).
          Sized 0 types limits x.0 x.1 × (length x.2 ≡ length types))
        (read_varint_output_sizes types limits)
unfolding read_varint_output_sizes
read_varint-Sized types limits = Gives-then _ _ _ λ first. Gives-then _ _ _ λ at.
    Gives-then _ _ _ λ u. Gives-bind _ _ _ _ (varint-Sized 0 types limits) λ sized a.
      Gives-bind _ _ _ _ (elements-length 0 types sized.1) λ counts b. Gives-pure _ _ (a, b)

-- The total is declared, is the sum of the sizes, and is within the limit; each output has a size and
-- an entry for its elements.
pub record AreSized (limits : Limits) (outputs : ℕ) (o : OutputSizes) : Type 0 where
  pub decoded_bytes : o.decoded_bytes ≡ some (sum_sizes o.sizes)
  pub within : sum_sizes o.sizes ≤ limits.max_decoded_bytes
  pub sizes : length o.sizes ≡ outputs
  pub elements : length o.elements ≡ outputs

read_output_sizes-AreSized :
    (types : List FrameValueType) (format_version : ℕ) (limits : Limits)
    → Gives (AreSized limits (length types)) (read_output_sizes types format_version limits)
unfolding read_output_sizes Sized
read_output_sizes-AreSized types format_version limits =
    Gives-bind
      (λ (x : ℕ × List (Option ℕ) × List (Option ℕ)).
        Sized 0 types limits x.0 x.1 × (length x.2 ≡ length types))
      _ _ _ (Gives-if _ _ _ _ (u32-Sized 0 types limits) (read_varint-Sized types limits))
      λ x a.
        let total : x.0 ≡ sum_sizes x.1 = omega (arith, a.0.0) in
        let within : x.0 ≤ limits.max_decoded_bytes = a.0.1 (omega arith) in
        Gives-pure _ _ (record {
          decoded_bytes = ap some total;
          within = omega arith;
          sizes = a.0.2;
          elements = a.1;
        })

-- The header's output sizes are those read for its output types.
IsHeader : Limits → FrameHeader → Type 0
IsHeader limits h = AreSized limits (length h.output_header.output_types) h.output_sizes

-- The outputs of a plan.
abbrev pub sizes_of : FramePlan → OutputSizes
sizes_of plan = record {
  sizes = plan.info.output_sizes;
  elements = plan.info.output_elements;
  decoded_bytes = plan.info.decoded_bytes;
}

module _ (xxh3 : Bytes → ℕ) where
  read_frame_header-IsHeader :
      (limits : Limits) (verify : Bool)
      → Gives (IsHeader limits) (read_frame_header xxh3 limits verify)
  unfolding read_frame_header IsHeader
  read_frame_header-IsHeader limits verify = Gives-then _ _ _ λ magic.
      Gives-then _ _ _ λ format_version. Gives-then _ _ _ λ flags. Gives-then _ _ _ λ id.
        Gives-then _ _ _ λ header.
          Gives-bind _ _ _ _ (read_output_sizes-AreSized header.output_types format_version limits)
            λ sizes a.
              Gives-then _ _ _
                λ comment. Gives-then _ _ _ λ u. Gives-then _ _ _ λ n. Gives-pure _ _ a

  scan-AreSized :
      (limits : Limits) (verify : Bool)
      → Gives
          (λ plan. AreSized limits (length plan.info.output_types) (sizes_of plan))
          (scan xxh3 limits verify)
  unfolding scan frame_plan IsHeader
  scan-AreSized limits verify = Gives-bind _ _ _ _ (read_frame_header-IsHeader limits verify) λ h a.
      Gives-then _ _ _ λ chunks. Gives-then _ _ _ λ n. Gives-pure _ _ (record {
        decoded_bytes = a.decoded_bytes;
        within = a.within;
        sizes = a.sizes;
        elements = a.elements;
      })

  -- A scanned frame declares its decoded size: the sum of its outputs' sizes, within the limit on
  -- decoded bytes, with one size and one entry for elements to each output type.
  pub scan_frame-AreSized :
      (input : Bytes) (limits : Limits) (verify : Bool) (plan : FramePlan)
      → scan_frame xxh3 input limits verify ≡ ok plan
      → AreSized limits (length plan.info.output_types) (sizes_of plan)
  unfolding scan_frame
  scan_frame-AreSized input limits verify plan e =
      value-Gives _ (scan xxh3 limits verify) (new_reader input) plan _
        (scan-AreSized limits verify) refl e
