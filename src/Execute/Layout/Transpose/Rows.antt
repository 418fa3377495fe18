-- ===== src/Execute/Layout/Transpose/Rows.antt =====
-- A transposed stream holds every byte of the source at its place in the other order.
use ozlrip.Prelude.{
  ltb, lt→ltb, length, get_elem?, drop, length-append, length-drop, set-middle, lt-get_elem?-some,
  drop-drop, drop-all, ℕ, zero, suc, ◌+◌, ◌*◌, ◌≤◌, ◌<◌, ◌≡◌, refl, sym, ap, ◌∙◌, true, none, some,
  [], ◌∷◌, ◌++◌, append-nil, append_assoc, arith,
}
use ozlrip.Core.{Bytes, ok, ◌>>=◌, index}
use ozlrip.Execute.Numeric.Delta.{resize}
use ozlrip.Execute.Numeric.Delta.Stale.{length-resize}
use ozlrip.Execute.Layout.Transpose.{write, transpose_row, transpose_rows}

-- A byte of the source, where it has one.
abbrev pub byte_at : Bytes → ℕ → ℕ
byte_at source i = elim (get_elem? source i) [ none ↦ 0 | some b ↦ b ]

-- Every `w`-th byte of the source.
unfoldable pub column : ℕ → ℕ → ℕ → Bytes → Bytes
column zero w i source = []
column (suc left) w i source = byte_at source i ∷ column left w (i + w) source

-- The columns from `i` on, of `n` bytes each.
unfoldable pub columns : ℕ → ℕ → ℕ → ℕ → Bytes → Bytes
columns zero n w i source = []
columns (suc left) n w i source = column n w i source ++ columns left n w (i + 1) source

-- One round writes one byte behind what is there.
row_step :
    (left ob oe w n : ℕ) (source before rest : Bytes) (old value : ℕ)
    → length before ≡ oe * n + ob
    → get_elem? source (ob * w + oe) ≡ some value
    → transpose_row left (ob + 1) oe w n source ((before ++ value ∷ []) ++ rest)
      ≡ ok ((before ++ value ∷ []) ++ (column left w ((ob + 1) * w + oe) source ++ drop left rest))
    → transpose_row (suc left) ob oe w n source (before ++ (old ∷ rest))
      ≡ ok (before ++ (column (suc left) w (ob * w + oe) source ++ drop left rest))
unfolding transpose_row write column
row_step left ob oe w n source before rest old value at read later =
    let fits : ltb (length before) (length (before ++ (old ∷ rest))) ≡ true =
      lt→ltb _ _ (omega (arith, length-append before (old ∷ rest))) in
    let place : (ob + 1) * w + oe ≡ ob * w + oe + w = grind arith in
    let shown : byte_at source (ob * w + oe) ≡ value = rw (read, byte_at) refl in
    let others = column left w (ob * w + oe + w) source ++ drop left rest in
    rw (read, index, sym at, fits, set-middle before rest old value)
      (later
        ∙ ap (λ p. ok ((before ++ value ∷ []) ++ (column left w p source ++ drop left rest))) place
        ∙ ap ok (append_assoc before (value ∷ []) others)
        ∙ ap (λ v. ok (before ++ (v ∷ others))) (sym shown))

-- The inner loop puts a column behind what is there.
transpose_row-column :
    (left ob oe w n : ℕ) (source before rest : Bytes)
    → length before ≡ oe * n + ob
    → left ≤ length rest
    → ob + left ≡ n
    → oe < w
    → n * w ≤ length source
    → transpose_row left ob oe w n source (before ++ rest)
      ≡ ok (before ++ (column left w (ob * w + oe) source ++ drop left rest))
unfolding transpose_row write column
transpose_row-column zero ob oe w n source before rest at room end inside whole = refl
transpose_row-column (suc left) ob oe w n source before [] at room end inside whole =
    absurd (omega arith)
transpose_row-column (suc left) ob oe w n source before (old ∷ rest) at room end inside whole =
    let below : ob * w + oe < length source = grind arith in
    let (value, read) = lt-get_elem?-some source (ob * w + oe) below in
    row_step left ob oe w n source before rest old value at read (
      transpose_row-column left (ob + 1) oe w n source (before ++ value ∷ []) rest
        (omega (arith, length-append before (value ∷ []))) (omega arith) (omega arith) inside whole)

pub length-column : (n w i : ℕ) (source : Bytes) → length (column n w i source) ≡ n
unfolding column
length-column zero w i source = refl
length-column (suc n) w i source = ap suc (length-column n w (i + w) source)

pub length-columns :
    (left n w i : ℕ) (source : Bytes) → length (columns left n w i source) ≡ left * n
unfolding columns
length-columns zero n w i source = omega arith
length-columns (suc left) n w i source =
    let first = length-column n w i source in
    let others = length-columns left n w (i + 1) source in
    let both = length-append (column n w i source) (columns left n w (i + 1) source) in grind arith

-- The outer loop puts the columns behind each other.
transpose_rows-columns :
    (left oe w n : ℕ) (source before rest : Bytes)
    → length before ≡ oe * n
    → left * n ≤ length rest
    → oe + left ≡ w
    → n * w ≤ length source
    → transpose_rows left oe n w n source (before ++ rest)
      ≡ ok (before ++ (columns left n w oe source ++ drop (left * n) rest))
unfolding transpose_rows columns
transpose_rows-columns zero oe w n source before rest at room end whole =
    let nothing : 0 * n ≡ 0 = omega arith in rw nothing refl
transpose_rows-columns (suc left) oe w n source before rest at room end whole =
    let start : 0 * w + oe ≡ oe = omega arith in
    let col = column n w oe source in
    let row : transpose_row n 0 oe w n source (before ++ rest)
        ≡ ok (before ++ (col ++ drop n rest)) =
      transpose_row-column n 0 oe w n source before rest (omega arith) (grind arith) (omega arith)
        (omega arith) whole
      ∙ ap (λ p. ok (before ++ (column n w p source ++ drop n rest))) start in
    let more : n + left * n ≡ suc left * n = grind arith in
    let others = columns left n w (oe + 1) source in
    let next : (oe + 1) * n ≡ oe * n + n = grind arith in
    let at' : length (before ++ col) ≡ (oe + 1) * n =
      omega (arith, length-append before col, length-column n w oe source) in
    let room' : left * n ≤ length (drop n rest) = omega (arith, length-drop n rest) in
    let later =
      transpose_rows-columns left (oe + 1) w n source (before ++ col) (drop n rest) at' room'
        (omega arith) whole in
    ap (λ m. m >>= λ next. transpose_rows left (oe + 1) n w n source next) row
    ∙ ap (transpose_rows left (oe + 1) n w n source) (sym (append_assoc before col (drop n rest)))
    ∙ later
    ∙ ap (λ t. ok ((before ++ col) ++ (others ++ t)))
        (drop-drop n (left * n) rest ∙ ap (λ k. drop k rest) more)
    ∙ ap ok (append_assoc before col (others ++ drop (suc left * n) rest))
    ∙ ap (λ t. ok (before ++ t)) (sym (append_assoc col others (drop (suc left * n) rest)))

-- The transposed stream does not depend on the reused buffer.
pub transposed :
    (w n : ℕ) (source stale : Bytes)
    → length source ≡ n * w
    → transpose_rows w 0 n w n source (resize (length source) stale) ≡ ok (columns w n w 0 source)
transposed w n source stale h =
    let size = length-resize (length source) stale in
    let all : w * n ≡ n * w = grind arith in
    let given =
      transpose_rows-columns w 0 w n source [] (resize (length source) stale) (omega arith)
        (omega arith) (omega arith) (omega arith) in
    let nothing : drop (w * n) (resize (length source) stale) ≡ [] =
      drop-all (w * n) (resize (length source) stale) (omega arith) in
    given
    ∙ ap (λ t. ok (columns w n w 0 source ++ t)) nothing
    ∙ ap ok (append-nil (columns w n w 0 source))
