-- ===== src/Parse/Entry/Scan.antt =====
-- The entry points on any input: they return, and a frame ends where its own bytes say.
use ozlrip.Prelude.{
  ℕ, ◌≤◌, ◌≡◌, ◌≢◌, refl, ap, ◌∙◌, arith, Bool, false, not, ◌∷◌, ◌++◌, length, length-append, ◌==◌,
  ltb, le→ltb,
}
use ozlrip.Core.{
  Bytes, error_at, malformed, Limits, Result, ok, err, panic, stuck, fail_if, >>=-eq-ok,
}
use ozlrip.Core.Safe.{IsSafe, IsSafe-ok, IsSafe-bind, IsSafe-fail_if}
use ozlrip.Parse.Reader.{Reader, Read}
use ozlrip.Parse.Reader.Tame.{After}
use ozlrip.Parse.Packed.{check_limit}
use ozlrip.Parse.Packed.Safe.{IsSafe-check_limit}
use ozlrip.Parse.Validate.Safe.{IsSafe-validate_frame_plan}
use ozlrip.Parse.Plan.{FramePlan}
use ozlrip.Parse.Frame.{read_frame_header, frame_plan, scan}
use ozlrip.Parse.Validate.{validate_frame_plan}
use ozlrip.Parse.Reader.Gives.{Leaves, Leaves-then, Leaves-offset}
use ozlrip.Parse.Frame.Tame.{Tame-read_frame_header, Tame-scan}
use ozlrip.Parse.Entry.{
  new_reader, value, scan_frame, inspect_header, frame_size, parse_frame, inspect_frame,
}

value-IsSafe :
    {A : Type 0} (m : Read A) (r : Reader) (x : Result (A × Reader))
    → After m r x
    → IsSafe (value x)
value-IsSafe m r (ok (a, r')) h = record { returns = tt }
value-IsSafe m r (err e) h = record { returns = tt }
value-IsSafe m r panic h = absurd h
value-IsSafe m r stuck h = absurd h

-- What is read from the start of an input is also read from the start of a longer one.
value-append :
    {A : Type 0} (m : Read A) (input more : Bytes) (a : A) (x : Result (A × Reader))
    → m (new_reader input) ≡ x
    → After m (new_reader input) x
    → value x ≡ ok a
    → value (m (new_reader (input ++ more))) ≡ ok a
value-append m input more a (ok (b, r')) e (same, _, _, ext) h = ap value (ext more) ∙ h
value-append m input more a (err z) e h q = absurd (cc)
value-append m input more a panic e h q = absurd h
value-append m input more a stuck e h q = absurd h

-- The plan that a scan gives ends where the reader stopped.
scan-Leaves :
    (xxh3 : Bytes → ℕ) (limits : Limits) (verify : Bool)
    → Leaves (λ plan r. (plan.info.frame_bytes ≡ r.offset)) (scan xxh3 limits verify)
unfolding scan frame_plan
scan-Leaves xxh3 limits verify =
    Leaves-then _ _ _ λ h. Leaves-then _ _ _ λ chunks. Leaves-offset _ _ λ n. refl

value-bounds :
    {A : Type 0} (m : Read A) (r : Reader) (x : Result (A × Reader)) (Q : A → Reader → Type 0)
    (a : A)
    → m r ≡ x
    → After m r x
    → Leaves Q m
    → value x ≡ ok a
    → (r' : Reader) × Q a r' × (r'.offset ≤ length r.bytes)
value-bounds m r (ok (b, r')) Q a e (_, _, fits, _) l h =
    let same : b ≡ a = cc in (r', rw same at (l.at r b r' e), fits)
value-bounds m r (err z) Q a e h l q = absurd (cc)
value-bounds m r panic Q a e h l q = absurd h
value-bounds m r stuck Q a e h l q = absurd h

module _ (xxh3 : Bytes → ℕ) where
  scan_frame-bounds :
      (input : Bytes) (limits : Limits) (verify : Bool) (plan : FramePlan)
      → scan_frame xxh3 input limits verify ≡ ok plan
      → plan.info.frame_bytes ≤ length input
  unfolding scan_frame
  scan_frame-bounds input limits verify plan e =
      let (r', q, fits) =
        value-bounds (scan xxh3 limits verify) (new_reader input) _ _ plan refl
          ((Tame-scan xxh3 limits verify).at (new_reader input) (omega arith) (omega arith))
          (scan-Leaves xxh3 limits verify) e in
      rw q fits

  -- Whatever the bytes, the limits and the hash function, scanning a frame and reading its header
  -- return a result or an error: no index is out of range, and the loop over the chunks ends.
  pub scan_frame-IsSafe :
      (input : Bytes) (limits : Limits) (verify : Bool)
      → IsSafe (scan_frame xxh3 input limits verify)
        × IsSafe (inspect_header xxh3 input limits verify)
  unfolding scan_frame inspect_header
  scan_frame-IsSafe input limits verify = (
    value-IsSafe (scan xxh3 limits verify) (new_reader input) _
        ((Tame-scan xxh3 limits verify).at (new_reader input) (omega arith) (omega arith)),
    IsSafe-bind _ _
        (value-IsSafe (read_frame_header xxh3 limits verify) (new_reader input) _ (
          (Tame-read_frame_header xxh3 limits verify).at (new_reader input) (omega arith)
            (omega arith)))
        (λ h. IsSafe-ok _),
  )

  -- Parsing a whole frame, and describing it, return a result or an error on every input: neither
  -- an index out of range nor an endless loop, also in the checks of the graph.
  pub parse_frame-IsSafe :
      (input : Bytes) (limits : Limits) (verify : Bool)
      → IsSafe (parse_frame xxh3 input limits verify)
        × IsSafe (inspect_frame xxh3 input limits verify)
  unfolding parse_frame inspect_frame
  parse_frame-IsSafe input limits verify =
      let parsed : IsSafe (parse_frame xxh3 input limits verify) =
        IsSafe-bind _ _ (IsSafe-check_limit _ _) λ u.
          IsSafe-bind _ _ ((scan_frame-IsSafe input limits verify).0) λ plan.
            IsSafe-bind _ _ (IsSafe-fail_if _ _)
              λ v. IsSafe-bind _ _ (IsSafe-validate_frame_plan plan limits) λ w. IsSafe-ok plan in
      (parsed, IsSafe-bind _ _ parsed λ plan. IsSafe-ok _)

  pub scan_frame-append :
      (input more : Bytes) (limits : Limits) (verify : Bool) (plan : FramePlan)
      → scan_frame xxh3 input limits verify ≡ ok plan
      → scan_frame xxh3 (input ++ more) limits verify ≡ ok plan
  unfolding scan_frame
  scan_frame-append input more limits verify plan e =
      value-append (scan xxh3 limits verify) input more plan _ refl
        ((Tame-scan xxh3 limits verify).at (new_reader input) (omega arith) (omega arith)) e

  -- A frame's size is found from its own bytes: whatever stands behind the frame, the size is the same.
  -- It counts no byte that is not there.
  pub frame_size-append :
      (input more : Bytes) (limits : Limits) (size : ℕ)
      → frame_size xxh3 input limits ≡ ok size
      → (frame_size xxh3 (input ++ more) limits ≡ ok size) × (size ≤ length input)
  unfolding frame_size
  frame_size-append input more limits size e =
      let (plan, q, h) = >>=-eq-ok (scan_frame xxh3 input limits false) _ e in
      let (u, c, k) = >>=-eq-ok (check_limit plan.info.frame_bytes limits.max_frame_bytes) _ h in
      let same : plan.info.frame_bytes ≡ size = ground arith in
      (
        rw (scan_frame-append input more limits false plan q) h,
        rw same at (scan_frame-bounds input limits false plan q),
      )

  -- A frame is parsed only where it fills the input: the same frame with a byte behind it is malformed
  -- at that byte, if the limit on the frame's size lets the longer input in.
  pub parse_frame_trailing :
      (input more : Bytes) (byte : ℕ) (limits : Limits) (verify : Bool) (plan : FramePlan)
      → parse_frame xxh3 input limits verify ≡ ok plan
      → length (input ++ (byte ∷ more)) ≤ limits.max_frame_bytes
      → (plan.info.frame_bytes ≡ length input)
        × (parse_frame xxh3 (input ++ (byte ∷ more)) limits verify
            ≡ err (error_at malformed (length input)))
  unfolding parse_frame check_limit
  parse_frame_trailing input more byte limits verify plan e fits =
      let (u, c, h) = >>=-eq-ok (fail_if (ltb limits.max_frame_bytes (length input)) _) _ e in
      let (p, q, k) = >>=-eq-ok (scan_frame xxh3 input limits verify) _ h in
      let (v, g, l) = >>=-eq-ok (fail_if (not (p.info.frame_bytes == length input)) _) _ k in
      let (w, f, m) = >>=-eq-ok (validate_frame_plan p limits) _ l in
      let same : p ≡ plan = cc in
      let whole : p.info.frame_bytes ≡ length input = ground arith in
      let longer : p.info.frame_bytes ≢ length (input ++ (byte ∷ more)) =
        λ x. omega (arith, length-append input (byte ∷ more)) in
      let refused : (p.info.frame_bytes == length (input ++ (byte ∷ more))) ≡ false =
        ground arith in
      (
        rw same at whole,
        rw
            (
              le→ltb _ _ fits,
              scan_frame-append input (byte ∷ more) limits verify p q,
              refused,
              whole,
            )
            refl,
      )
