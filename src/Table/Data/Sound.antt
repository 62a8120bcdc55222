-- ===== src/Table/Data/Sound.antt =====
-- Rows of data that fit the rows of the layout, in the model of tbl_data.c.
use mandoc_mirror.Prelude.{
  ℕ, ◌≤◌, ◌<◌, ◌≡◌, inl, inr, refl, Bool, true, false, Option, none, some, List, [], ◌∷◌, arith,
  ◌==◌, if◌then◌else◌, if_both, Bool-cases, length, Bytes,
}
use mandoc_mirror.Table.Cells.{Cell}
use mandoc_mirror.Table.Rows.{Row}
use mandoc_mirror.Table.Rows.Invariant.{IsRow, HasCell, Every, Filled}
use mandoc_mirror.Table.Data.{Dat, Span, row_at, set_row, cell_of, advance_cell}

-- The number of cells of a row of the layout
abbrev pub width : ℕ → List Row → ℕ
width i [] = 0
width i (r ∷ rs) = if length rs == i then length r.cells else width i rs

abbrev pub Cols : ℕ → List Dat → Type 0
Cols n [] = Unit {0}
Cols n (d ∷ ds) = (d.col < n) × Cols n ds

abbrev pub has_text : Option Bytes → Bool
has_text none = false
has_text (some t) = true

abbrev pub Texts : List Dat → Type 0
Texts [] = Unit {0}
Texts (d ∷ ds) = (has_text d.string ≡ true) × Texts ds

-- A row of data has a row in the layout, and its cells have cells there.
abbrev pub IsIn : List Row → Span → Type 0
IsIn rows s = (s.row < length rows) × Cols (width s.row rows) s.dats

abbrev pub AllIn : List Row → List Span → Type 0
AllIn rows [] = Unit {0}
AllIn rows (s ∷ ss) = IsIn rows s × AllIn rows ss

abbrev pub AllTexts : List Span → Type 0
AllTexts [] = Unit {0}
AllTexts (s ∷ ss) = Texts s.dats × AllTexts ss

-- What is known of a row of the layout
pub record Found (cols i : ℕ) (rows : List Row) (r : Row) : Type 0 where
  pub at : row_at i rows ≡ some r
  pub row : IsRow cols r
  pub cell : HasCell r
  pub cells : length r.cells ≡ width i rows

pub row_at-Found :
    (cols i : ℕ) (rows : List Row)
    → Every cols rows
    → Filled rows
    → i < length rows
    → (r : Row) × Found cols i rows r
unfolding row_at
row_at-Found cols i [] e f l = absurd (omega arith)
row_at-Found cols i (r ∷ rs) e f l = elim (Bool-cases (length rs == i)) [
  | inl b ↦ (r, record { at = rw b refl; row = e.0; cell = f.0; cells = rw b refl })
  | inr b ↦
      let (q, k) = row_at-Found cols i rs e.1 f.1 (ground (arith, b)) in
      (q, record { at = rw b (k.at); row = k.row; cell = k.cell; cells = rw b (k.cells) })
]

pub length-set_row : (i : ℕ) (q : Row) (rows : List Row) → length (set_row i q rows) ≡ length rows
unfolding set_row
length-set_row i q [] = refl
length-set_row i q (r ∷ rs) = ground (arith, length-set_row i q rs)

pub Every-set_row :
    (cols i : ℕ) (q : Row) (rows : List Row)
    → IsRow cols q
    → Every cols rows
    → Every cols (set_row i q rows)
unfolding set_row
Every-set_row cols i q [] h e = tt
Every-set_row cols i q (r ∷ rs) h e =
    if_both (Every cols) (length rs == i) (λ b. (h, e.1))
      λ b. (e.0, Every-set_row cols i q rs h e.1)

pub Filled-set_row :
    (i : ℕ) (q : Row) (rows : List Row) → HasCell q → Filled rows → Filled (set_row i q rows)
unfolding set_row
Filled-set_row i q [] h f = tt
Filled-set_row i q (r ∷ rs) h f =
    if_both Filled (length rs == i) (λ b. (h, f.1)) λ b. (f.0, Filled-set_row i q rs h f.1)

pub width-set_row :
    (i j : ℕ) (q : Row) (rows : List Row)
    → width i rows ≤ length q.cells
    → width j rows ≤ width j (set_row i q rows)
unfolding set_row
width-set_row i j q [] h = omega arith
width-set_row i j q (r ∷ rs) h =
    if_both (λ (qs : List Row). width j (r ∷ rs) ≤ width j qs) (length rs == i)
      (λ b. ground (arith, h, b))
      λ b.
        let k : width i rs ≤ length q.cells = ground (arith, h, b) in
        ground (arith, width-set_row i j q rs k, length-set_row i q rs)

pub width-set_row_self :
    (i : ℕ) (q : Row) (rows : List Row)
    → i < length rows
    → width i (set_row i q rows) ≡ length q.cells
unfolding set_row
width-set_row_self i q [] l = absurd (omega arith)
width-set_row_self i q (r ∷ rs) l =
    if_both (λ (qs : List Row). width i qs ≡ length q.cells) (length rs == i)
      (λ b. ground (arith, b))
      λ b. ground (arith, b, width-set_row_self i q rs, length-set_row i q rs)

Cols-more : {m n : ℕ} (ds : List Dat) → m ≤ n → Cols m ds → Cols n ds
Cols-more [] l h = tt
Cols-more (d ∷ ds) l h = (omega (arith, h.0), Cols-more ds l h.1)

-- More cells in the rows do no harm.
pub IsIn-more :
    (rows qs : List Row) (s : Span)
    → length rows ≡ length qs
    → ((j : ℕ) → width j rows ≤ width j qs)
    → IsIn rows s
    → IsIn qs s
IsIn-more rows qs s e f h = (omega (arith, e, h.0), Cols-more s.dats (f s.row) h.1)

pub AllIn-more :
    (rows qs : List Row) (ss : List Span)
    → length rows ≡ length qs
    → ((j : ℕ) → width j rows ≤ width j qs)
    → AllIn rows ss
    → AllIn qs ss
AllIn-more rows qs [] e f h = tt
AllIn-more rows qs (s ∷ ss) e f h = (IsIn-more rows qs s e f h.0, AllIn-more rows qs ss e f h.1)

pub cell_of-some : (k : ℕ) (cs : List Cell) → k < length cs → (c : Cell) × (cell_of k cs ≡ some c)
unfolding cell_of
cell_of-some k [] l = absurd (omega arith)
cell_of-some k (c ∷ cs) l = elim (Bool-cases (length cs == k)) [
  | inl b ↦ (c, rw b refl)
  | inr b ↦ let (d, e) = cell_of-some k cs (ground (arith, b)) in (d, rw b e)
]

pub advance_cell-lt : (k j : ℕ) (cs : List Cell) → advance_cell k cs ≡ some j → j < length cs
unfolding advance_cell
advance_cell-lt k j [] h = cc
advance_cell-lt k j (c ∷ cs) h = ground (arith, advance_cell-lt k j cs)
