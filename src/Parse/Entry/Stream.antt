-- ===== src/Parse/Entry/Stream.antt =====
-- Finding the end of a frame in a longer input: `frame_size` and `parse_frame` of
-- crates/decode/src/parse.rs.
use ozlrip.Prelude.{ℕ, ◌≡◌, refl, Bool, true, false, not, ◌++◌, length, ◌==◌, arith}
use ozlrip.Core.{Bytes, error_at, malformed, Limits, ok, >>=-eq-ok, fail_if}
use ozlrip.Parse.Packed.{check_limit}
use ozlrip.Parse.Plan.{FramePlan}
use ozlrip.Parse.Entry.{scan_frame, frame_size, parse_frame}
use ozlrip.Parse.Entry.Scan.{frame_size-append}
use ozlrip.Parse.Entry.Unverified.{scan_frame-unverified}

module _ (xxh3 : Bytes → ℕ) where
  scanned :
      (input : Bytes) (limits : Limits) (verify : Bool) (plan : FramePlan)
      → scan_frame xxh3 input limits verify ≡ ok plan
      → scan_frame xxh3 input limits false ≡ ok plan
  scanned input limits true plan e = scan_frame-unverified xxh3 xxh3 input limits plan e
  scanned input limits false plan e = e

  -- A frame that parses is found at the start of any input that begins with it: `frame_size` gives its
  -- length, whatever follows.
  pub frame_size-parsed :
      (input more : Bytes) (limits : Limits) (verify : Bool) (plan : FramePlan)
      → parse_frame xxh3 input limits verify ≡ ok plan
      → frame_size xxh3 (input ++ more) limits ≡ ok (length input)
  unfolding parse_frame frame_size
  frame_size-parsed input more limits verify plan e =
      let (u, c, h) = >>=-eq-ok (check_limit (length input) limits.max_frame_bytes) _ e in
      let (p, q, k) = >>=-eq-ok (scan_frame xxh3 input limits verify) _ h in
      let (v, g, l) =
        >>=-eq-ok
          (fail_if (not (p.info.frame_bytes == length input))
            (error_at malformed p.info.frame_bytes))
          _ k in
      let whole : p.info.frame_bytes ≡ length input = ground arith in
      (frame_size-append xxh3 input more limits (length input)
        (sized p (scanned input limits verify p q) whole c)).0
    where
      sized :
          (p : FramePlan) {u : Unit {0}}
          → scan_frame xxh3 input limits false ≡ ok p
          → p.info.frame_bytes ≡ length input
          → check_limit (length input) limits.max_frame_bytes ≡ ok u
          → frame_size xxh3 input limits ≡ ok (length input)
      sized p q whole c = rw (q, whole, c, frame_size) refl
