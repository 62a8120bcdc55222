-- ===== src/Table/Rows/Close.antt =====
-- The rows at the full stop of a layout, in `tbl_layout` of tbl_layout.c.
use mandoc_mirror.Prelude.{
  ℕ, ◌+◌, ◌≤◌, ◌<◌, ◌≡◌, refl, true, false, List, [], ◌∷◌, arith, ltb, if◌then◌else◌, if_both,
  length,
}
use mandoc_mirror.Table.Options.{Opts}
use mandoc_mirror.Table.Cells.{Cell, left}
use mandoc_mirror.Table.Rows.{
  Row, data_part, Tbl, cell_alloc, no_cells, append_cell, right_line, margin, no_cells_next,
  margins, reverse_onto, clear_vspace, close_rows, close_layout, finish,
}
use mandoc_mirror.Table.Rows.Invariant.{
  Numbered, IsRow, HasCell, Every, Filled, FilledBefore, IsBounded, IsTable, IsComplete, Every-more,
  Allocates, cell_alloc-Allocates, append_cell-IsRow, fresh-IsRow, length-no_cells,
}

right_line_lem : (t : Opts) (cs : List Cell) → Numbered cs → t.rvert ≤ 2 → right_line t cs ≤ 2
right_line_lem t [] h k = k
right_line_lem t (c ∷ cs) h k = ground (arith, h.0.vert)

margin-IsBounded : (t : Opts) (r : Row) → IsRow t.cols r → IsBounded t → IsBounded (margin t r)
unfolding margin
margin-IsBounded t r h b = record {
  lvert = ground (arith, b, h.vert);
  rvert = right_line_lem t r.cells h.numbered b.rvert;
}

-- The rows that the loop over the margins leaves
record Margins (n : ℕ) (ur : Opts × List Row) : Type 0 where
  pub cols : ur.0.cols ≡ n
  pub bounded : IsBounded ur.0
  pub every : Every n ur.1
  pub filled : Filled ur.1

margins_lem :
    (t : Opts) (rs : List Row)
    → no_cells_next rs ≡ false
    → Every t.cols rs
    → IsBounded t
    → Margins t.cols (margins t rs)
unfolding margins margin
margins_lem t [] e h b = record { cols = refl; bounded = b; every = tt; filled = tt }
margins_lem t (r ∷ rs) e (h, k) b =
    let c = length-no_cells r.cells e in
    let x = margin-IsBounded t r h b in
    if_both (Margins t.cols) (no_cells_next rs)
      (λ f. record { cols = refl; bounded = x; every = (h, tt); filled = (c, tt) })
      λ f.
        let m = margins_lem (margin t r) rs f k x in
        record { cols = m.cols; bounded = m.bounded; every = (h, m.every); filled = (c, m.filled) }

-- The rows from the first one on: all but the last have cells.
abbrev FilledOn : List Row → Type 0
FilledOn [] = Unit {0}
FilledOn (r ∷ []) = Unit {0}
FilledOn (r ∷ s ∷ rs) = HasCell r × FilledOn (s ∷ rs)

reverse-FilledOn :
    (rs : List Row) (s : Row) (acc : List Row)
    → Filled rs
    → FilledOn (s ∷ acc)
    → FilledOn (reverse_onto rs (s ∷ acc))
unfolding reverse_onto
reverse-FilledOn [] s acc h k = k
reverse-FilledOn (r ∷ rs) s acc h k = reverse-FilledOn rs r (s ∷ acc) h.1 (h.0, k)

reverse-Filled : (rs acc : List Row) → Filled rs → Filled acc → Filled (reverse_onto rs acc)
unfolding reverse_onto
reverse-Filled [] acc h k = k
reverse-Filled (r ∷ rs) acc h k = reverse-Filled rs (r ∷ acc) h.1 (h.0, k)

reverse-Every :
    (n : ℕ) (rs acc : List Row) → Every n rs → Every n acc → Every n (reverse_onto rs acc)
unfolding reverse_onto
reverse-Every n [] acc h k = k
reverse-Every n (r ∷ rs) acc h k = reverse-Every n rs (r ∷ acc) h.1 (h.0, k)

length-reverse : (rs acc : List Row) → length (reverse_onto rs acc) ≡ length rs + length acc
unfolding reverse_onto
length-reverse [] acc = omega arith
length-reverse (r ∷ rs) acc = omega (arith, length-reverse rs (r ∷ acc))

some-no_cells : (cs : List Cell) → no_cells cs ≡ true → ¬ (0 < length cs)
some-no_cells [] e h = omega arith
some-no_cells (c ∷ cs) e h = cc

Filled-tail : (r : Row) (rs : List Row) → FilledOn (r ∷ rs) → no_cells r.cells ≡ true → rs ≡ []
Filled-tail r [] h e = refl
Filled-tail r (s ∷ rs) h e = absurd (some-no_cells r.cells e h.0)

margins_some : (t : Opts) (r : Row) (rs : List Row) → 0 < length (margins t (r ∷ rs)).1
unfolding margins
margins_some t r rs =
    if_both (λ (ut : Opts × List Row). 0 < length ut.1) (no_cells_next rs) (λ e. omega arith)
      λ e. omega arith

-- The options and the rows, the first one first, of a layout that is over
record Closes (ur : Opts × List Row) : Type 0 where
  pub bounded : IsBounded ur.0
  pub every : Every ur.0.cols ur.1
  pub filled : Filled ur.1
  pub rows : 0 < length ur.1

clear_vspace-IsBounded : (cs : List Cell) (t : Opts) → IsBounded t → IsBounded (clear_vspace cs t)
clear_vspace-IsBounded cs t b = ground (arith, b)

clear_vspace-cols : (cs : List Cell) (t : Opts) → (clear_vspace cs t).cols ≡ t.cols
clear_vspace-cols cs t = ground arith

left-Closes :
    (t : Opts) (r : Row) (ut : Opts × Cell)
    → Allocates t r ut
    → IsRow t.cols r
    → Closes (
      if ltb ut.0.lvert r.vert then record ut.0 { lvert = r.vert } else ut.0,
      append_cell r ut.1 ∷ [],
    )
left-Closes t r (u, cp) a h = record {
  bounded = ground (arith, a.bounded, h);
  every = (append_cell-IsRow r cp h a.cell (ground (arith, a.fit)), tt);
  filled = (omega arith, tt);
  rows = omega arith;
}

close_rows-Closes :
    (t : Opts) (r : Row) (rs : List Row)
    → Every t.cols (r ∷ rs)
    → FilledOn (r ∷ rs)
    → IsBounded t
    → Closes (close_rows t r rs)
unfolding close_rows
close_rows-Closes t r rs h f b =
    if_both Closes (no_cells r.cells)
      (λ e.
        rw (Filled-tail r rs f e)
          (left-Closes t r (cell_alloc t r left) (cell_alloc-Allocates t r left h.0 b) h.0))
      λ e.
        let m = margins_lem t (r ∷ rs) e h b in
        record {
          bounded = clear_vspace-IsBounded r.cells _ m.bounded;
          every =
              Every-more _ (omega (arith, clear_vspace-cols r.cells (margins t (r ∷ rs)).0, m.cols))
                m.every;
          filled = m.filled;
          rows = margins_some t r rs;
        }

close_layout-Closes :
    (t : Opts) (rs : List Row)
    → Every t.cols rs
    → FilledOn rs
    → IsBounded t
    → Closes (close_layout t rs)
close_layout-Closes t [] h f b =
    close_rows-Closes t (record { cells = []; vert = 0 }) [] (fresh-IsRow t.cols, tt) tt b
close_layout-Closes t (r ∷ rs) h f b = close_rows-Closes t r rs h f b

FilledOn-reverse : (rs : List Row) → FilledBefore rs → FilledOn (reverse_onto rs [])
unfolding reverse_onto
FilledOn-reverse [] h = tt
FilledOn-reverse (r ∷ rs) h = reverse-FilledOn rs r [] h tt

-- At the full stop of a sound table, the layout is complete.
pub finish-IsComplete :
    (t : Tbl) → IsTable t → IsComplete (finish t) × ((finish t).part ≡ data_part)
unfolding finish
finish-IsComplete t h =
    let c =
      close_layout-Closes t.opts (reverse_onto t.rows [])
        (reverse-Every t.opts.cols t.rows [] h.every tt) (FilledOn-reverse t.rows h.filled)
        h.bounded in
    (
      record {
        bounded = c.bounded;
        every = reverse-Every _ _ [] c.every tt;
        filled = reverse-Filled _ [] c.filled tt;
        rows =
            omega
              (arith, c.rows, length-reverse (close_layout t.opts (reverse_onto t.rows [])).1 []);
      },
      refl,
    )
