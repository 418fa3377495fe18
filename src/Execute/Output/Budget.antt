-- ===== src/Execute/Output/Budget.antt =====
-- An output grows to the size that it declares and no further.
use ozlrip.Prelude.{
  leb, ◌==◌, if◌then◌else◌, leb→le, Bool-cases, ℕ, ◌+◌, ◌≤◌, ◌<◌, ◌≡◌, refl, ap, ◌∙◌, ◌↔◌, inl, inr,
  false, List, [], ◌∷◌, arith,
}
use ozlrip.Core.{Result, ok, err, ◌>>=◌, usize_mod, minus, plus, Limits, >>=-eq-ok}
use ozlrip.Execute.Output.{
  check_output_len, OutputBudget, size_mismatch, part, remaining, consume, finish,
}

-- Charging the decoded chunks of an output, in order.
unfoldable pub consume_all : OutputBudget → List ℕ → Result OutputBudget
consume_all budget [] = ok budget
consume_all budget (len ∷ lens) = do next ← consume budget len; consume_all next lens

abbrev pub total : List ℕ → ℕ
total [] = 0
total (len ∷ lens) = len + total lens

consumed :
    (budget : OutputBudget) (len : ℕ)
    → budget.written ≤ budget.declared
    → budget.declared < usize_mod
    → consume budget len ≡ (
        if leb (budget.written + len) budget.declared
        then ok (record budget { written = budget.written + len })
        else err size_mismatch)
unfolding consume remaining minus plus
consumed budget len up small = ground arith

-- Chunks are charged as far as their total stays within the declared size: all of them succeed, or
-- one is refused as malformed. No subtraction underflows.
pub consume_all-total :
    (budget : OutputBudget) (lens : List ℕ)
    → budget.written ≤ budget.declared
    → budget.declared < usize_mod
    → consume_all budget lens ≡ (
        if leb (budget.written + total lens) budget.declared
        then ok (record budget { written = budget.written + total lens })
        else err size_mismatch)
unfolding consume_all
consume_all-total budget [] up small = ground arith
consume_all-total budget (len ∷ lens) up small =
    ap (λ m. m >>= λ next. consume_all next lens) (consumed budget len up small)
    ∙ elim (Bool-cases (leb (budget.written + len) budget.declared)) [
      | inl q ↦
          let next : OutputBudget = record budget { written = budget.written + len } in
          let sum : budget.written + len + total lens ≡ budget.written + (len + total lens) =
            omega arith in
          let rest : consume_all next lens ≡ (
              if leb (budget.written + (len + total lens)) budget.declared
              then ok (record budget { written = budget.written + (len + total lens) })
              else err size_mismatch) =
            rw sum at (consume_all-total next lens (leb→le _ _ q) small) in
          rw q rest
      | inr q ↦
          let over : leb (budget.written + (len + total lens)) budget.declared ≡ false =
            ground arith in
          rw (q, over) refl
    ]

module _ (declared : ℕ) (limits : Limits) (budget : OutputBudget) where
  fresh :
      part declared limits ≡ ok budget
      → budget ≡ record { declared = declared; written = 0; reserved = false }
  unfolding part
  fresh e = let (_, _, given) = >>=-eq-ok (check_output_len declared limits) _ e in cc

-- Finishing after the chunks.
finished :
    (declared : ℕ) (lens : List ℕ)
    → declared < usize_mod
    → (consume_all (record { declared = declared; written = 0; reserved = false }) lens
        >>= λ charged. finish charged)
      ≡ (if total lens == declared then ok tt else err size_mismatch)
unfolding finish
finished declared lens small =
    rw
      (consume_all-total (record { declared = declared; written = 0; reserved = false }) lens
        (omega arith) small)
      (ground arith)

-- Charging any chunks to a fresh budget and finishing it succeeds if and only if their sizes add up to
-- the declared size, for a declared size below 2 ^ 64.
pub finish_iff :
    (declared : ℕ) (limits : Limits) (lens : List ℕ) (budget : OutputBudget)
    → part declared limits ≡ ok budget
    → declared < usize_mod
    → ((consume_all budget lens >>= λ charged. finish charged) ≡ ok tt) ↔ (total lens ≡ declared)
finish_iff declared limits lens budget e small =
    rw (fresh declared limits budget e, finished declared lens small) (ground arith)
