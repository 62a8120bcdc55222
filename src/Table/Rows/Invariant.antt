-- ===== src/Table/Rows/Invariant.antt =====
-- What the rows of a layout keep to, and the new cells of `cell_alloc` of tbl_layout.c.
use mandoc_mirror.Prelude.{ℕ, ◌≤◌, ◌<◌, ◌≡◌, refl, false, List, [], ◌∷◌, arith, length}
use mandoc_mirror.Table.Options.{Opts}
use mandoc_mirror.Table.Cells.{Cellt, Cell}
use mandoc_mirror.Table.Cells.Places.{IsCell}
use mandoc_mirror.Table.Rows.{Row, Tbl, next_col, cell_alloc, no_cells, append_cell}

-- The columns count from 0, the last cell is first in the list.
abbrev pub Numbered : List Cell → Type 0
Numbered [] = Unit {0}
Numbered (c ∷ cs) = IsCell (length cs) c × Numbered cs

pub record IsRow (cols : ℕ) (r : Row) : Type 0 where
  pub numbered : Numbered r.cells
  pub fit : length r.cells ≤ cols
  pub vert : r.vert ≤ 2

abbrev pub HasCell : Row → Type 0
HasCell r = 0 < length r.cells

abbrev pub Every : ℕ → List Row → Type 0
Every cols [] = Unit {0}
Every cols (r ∷ rs) = IsRow cols r × Every cols rs

abbrev pub Filled : List Row → Type 0
Filled [] = Unit {0}
Filled (r ∷ rs) = HasCell r × Filled rs

-- All but the last row, which is first in the list, have cells.
abbrev pub FilledBefore : List Row → Type 0
FilledBefore [] = Unit {0}
FilledBefore (r ∷ rs) = Filled rs

pub record IsBounded (t : Opts) : Type 0 where
  pub lvert : t.lvert ≤ 2
  pub rvert : t.rvert ≤ 2

pub record IsTable (t : Tbl) : Type 0 where
  pub bounded : IsBounded t.opts
  pub every : Every t.opts.cols t.rows
  pub filled : FilledBefore t.rows

-- A table whose layout is over: there are rows, and each has a cell.
pub record IsComplete (t : Tbl) : Type 0 where
  pub bounded : IsBounded t.opts
  pub every : Every t.opts.cols t.rows
  pub filled : Filled t.rows
  pub rows : 0 < length t.rows

pub Every-more : {m n : ℕ} (rs : List Row) → m ≤ n → Every m rs → Every n rs
Every-more [] l h = tt
Every-more (r ∷ rs) l (h, k) =
    (record { numbered = h.numbered; fit = omega (arith, h.fit); vert = h.vert }, Every-more rs l k)

pub next_col_lem : (cs : List Cell) → Numbered cs → next_col cs ≡ length cs
next_col_lem [] h = refl
next_col_lem (c ∷ cs) h = omega (arith, h.0.col)

-- What a new cell does to the options and its row.
pub record Allocates (t : Opts) (r : Row) (ut : Opts × Cell) : Type 0 where
  pub cols : t.cols ≤ ut.0.cols
  pub fit : length r.cells < ut.0.cols
  pub bounded : IsBounded ut.0
  pub cell : IsCell (length r.cells) ut.1

pub cell_alloc-Allocates :
    (t : Opts) (r : Row) (k : Cellt)
    → IsRow t.cols r
    → IsBounded t
    → Allocates t r (cell_alloc t r k)
unfolding cell_alloc
cell_alloc-Allocates t r k h b =
    let e = next_col_lem r.cells h.numbered in
    record {
      cols = ground arith;
      fit = ground (arith, e);
      bounded = record { lvert = ground (arith, b); rvert = ground (arith, b) };
      cell = record { col = e; vert = omega arith };
    }

pub append_cell-IsRow :
    {m n : ℕ} (r : Row) (cp : Cell)
    → IsRow m r
    → IsCell (length r.cells) cp
    → length r.cells < n
    → IsRow n (append_cell r cp)
append_cell-IsRow r cp h k l = record {
  numbered = (k, h.numbered);
  fit = omega arith;
  vert = h.vert;
}

pub fresh-IsRow : (n : ℕ) → IsRow n (record { cells = []; vert = 0 })
fresh-IsRow n = record { numbered = tt; fit = omega arith; vert = omega arith }

pub length-no_cells : (cs : List Cell) → no_cells cs ≡ false → 0 < length cs
length-no_cells [] h = cc
length-no_cells (c ∷ cs) h = omega arith
