-- ===== src/Execute/Layout/Concat/Pieces.antt =====
-- The outputs of `concat` are consecutive pieces of its input.
use ozlrip.Prelude.{
  ltb, ◌==◌, Option-cases, length, take, drop, get_range, length-take, get_range-bounds, drop-all,
  get_range-split, ℕ, zero, suc, ◌+◌, ◌≤◌, ◌≡◌, refl, sym, ap, ◌∙◌, inl, inr, not, ◌||◌, List, [],
  ◌∷◌, ◌++◌, arith,
}
use ozlrip.Core.{
  Bytes, malformed, invalid_graph, invalid_type, error, Result, ok, fail_if, index_range,
  checked_add, checked_mul, Limits, >>=-eq-ok,
}
use ozlrip.Execute.Streams.{StreamInput, OwnedStream, typed_stream}
use ozlrip.Execute.Output.{check_output_len}
use ozlrip.Execute.Elements.{is_multiple_of, numeric_element_count}
use ozlrip.Execute.Elements.Values.{drop-length-append}
use ozlrip.Execute.Layout.Concat.{
  concat_size_count, concat_output_count, read_concat_size, Consumption, cut_piece, cut_pieces,
  cut_apart,
}

unfoldable pub joined_bytes : List OwnedStream → Bytes
joined_bytes [] = []
joined_bytes (stream ∷ streams) = stream.bytes ++ joined_bytes streams

-- A piece that is cut out is followed by what is left.
index_range-next :
    (xs : Bytes) (start end : ℕ) (piece : Bytes)
    → index_range xs start end ≡ ok piece
    → drop start xs ≡ piece ++ drop end xs
index_range-next xs start end piece e = elim (Option-cases (get_range xs start end)) [
  | inl q ↦ absurd (cc (rw (q, index_range) at e))
  | inr (slice, q) ↦
      let given : ok slice ≡ ok piece = rw (q, index_range) at e in
      let same : slice ≡ piece = cc in
      let (h, k) = get_range-bounds xs start end slice q in
      let size : length (take start xs) ≡ start = omega (arith, length-take start xs) in
      let behind : drop start (take start xs ++ (slice ++ drop end xs)) ≡ slice ++ drop end xs =
        rw size at (drop-length-append (take start xs) (slice ++ drop end xs)) in
      ap (drop start) (get_range-split xs start end slice q)
      ∙ behind
      ∙ ap (λ t. t ++ drop end xs) same
]

ok-eq : {A : Type 0} (a b : A) → ok a ≡ ok b → a ≡ b
ok-eq a b e = cc

cut-end :
    (piece given : Bytes) (here next : Consumption)
    → ◌≡◌ {A = Result (Bytes × Consumption)} (ok (piece, here)) (ok (given, next))
    → (piece ≡ given) × (here.bytes ≡ next.bytes)
cut-end piece given here next e = (cc, cc)

cut_piece-next :
    (sizes concatenated : StreamInput) (limits : Limits) (total i : ℕ) (consumed next : Consumption)
    → (piece : Bytes) → cut_piece sizes concatenated limits total i consumed ≡ ok (piece, next)
    → drop consumed.bytes concatenated.bytes ≡ piece ++ drop next.bytes concatenated.bytes
unfolding cut_piece
cut_piece-next sizes concatenated limits total i consumed next piece e =
    let (n, _, e1) = >>=-eq-ok (read_concat_size sizes i) _ e in
    let (b, _, e2) = >>=-eq-ok (checked_mul n concatenated.element_width) _ e1 in
    let (_, _, e3) = >>=-eq-ok (check_output_len b limits) _ e2 in
    let (ne, _, e4) = >>=-eq-ok (checked_add consumed.elements n) _ e3 in
    let (nb, _, e5) = >>=-eq-ok (checked_add consumed.bytes b) _ e4 in
    let (_, _, e6) =
      >>=-eq-ok (fail_if (ltb total ne || ltb (length concatenated.bytes) nb) (error malformed)) _
        e5 in
    let (p, cut, e7) = >>=-eq-ok (index_range concatenated.bytes consumed.bytes nb) _ e6 in
    let (same, end) = cut-end p piece (record { elements = ne; bytes = nb }) next e7 in
    index_range-next concatenated.bytes consumed.bytes nb p cut
    ∙ ap (λ t. t ++ drop nb concatenated.bytes) same
    ∙ ap (λ k. piece ++ drop k concatenated.bytes) end

cut_pieces-joined :
    (left : ℕ) (sizes concatenated : StreamInput) (limits : Limits) (total i : ℕ)
    → (consumed : Consumption) (outputs : List OwnedStream)
    → cut_pieces left sizes concatenated limits total i consumed ≡ ok outputs
    → (joined_bytes outputs ≡ drop consumed.bytes concatenated.bytes) × (length outputs ≡ left)
unfolding cut_pieces joined_bytes
cut_pieces-joined zero sizes concatenated limits total i consumed outputs e =
    let done =
      not (consumed.elements == total) || not (consumed.bytes == length concatenated.bytes) in
    let (_, kept, e1) = >>=-eq-ok (fail_if done (error malformed)) _ e in
    let none_left : [] ≡ outputs = ok-eq [] outputs e1 in
    let all : length concatenated.bytes ≤ consumed.bytes = ground arith in
    rw (sym none_left) (sym (drop-all consumed.bytes concatenated.bytes all), refl)
cut_pieces-joined (suc left) sizes concatenated limits total i consumed outputs e =
    let ((piece, next), cut, e1) =
      >>=-eq-ok (cut_piece sizes concatenated limits total i consumed) _ e in
    let (rest, more, e2) =
      >>=-eq-ok (cut_pieces left sizes concatenated limits total (i + 1) next) _ e1 in
    let whole : typed_stream piece concatenated.element_width ∷ rest ≡ outputs =
      ok-eq _ outputs e2 in
    let (join, count) =
      cut_pieces-joined left sizes concatenated limits total (i + 1) next rest more in
    let here = cut_piece-next sizes concatenated limits total i consumed next piece cut in
    rw (sym whole) (ap (λ t. piece ++ t) join ∙ sym here, ap suc count)

-- Where `concat` cuts its input apart, it returns as many streams as the node has outputs, and their
-- bytes joined in order are all bytes of the input.
pub cut_apart-joined :
    (sizes concatenated : StreamInput) (expected_outputs : ℕ) (limits : Limits)
    → (outputs : List OwnedStream)
    → cut_apart sizes concatenated expected_outputs limits ≡ ok outputs
    → (joined_bytes outputs ≡ concatenated.bytes) × (length outputs ≡ expected_outputs)
unfolding cut_apart concat_output_count
cut_apart-joined sizes concatenated expected_outputs limits outputs e =
    let (count, counted, e1) = >>=-eq-ok (concat_output_count sizes expected_outputs) _ e in
    let (_, _, e2) =
      >>=-eq-ok (fail_if (concatenated.element_width == 0) (error invalid_type)) _ e1 in
    let (_, _, e3) =
      >>=-eq-ok
        (fail_if (not (is_multiple_of (length concatenated.bytes) concatenated.element_width))
          (error malformed))
        _ e2 in
    let (total, _, e4) =
      >>=-eq-ok (numeric_element_count concatenated.bytes concatenated.element_width) _ e3 in
    let (join, as_many) =
      cut_pieces-joined count sizes concatenated limits total 0 (record { elements = 0; bytes = 0 })
        outputs e4 in
    let (n, _, c1) = >>=-eq-ok (concat_size_count sizes) _ counted in
    let (_, _, c2) = >>=-eq-ok (fail_if (n == 0) (error malformed)) _ c1 in
    let (_, same, c3) =
      >>=-eq-ok (fail_if (not (n == expected_outputs)) (error invalid_graph)) _ c2 in
    let given : n ≡ count = ok-eq n count c3 in
    let right : n ≡ expected_outputs = ground (arith, same) in (join, as_many ∙ sym given ∙ right)
