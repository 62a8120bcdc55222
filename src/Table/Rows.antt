-- ===== src/Table/Rows.antt =====
-- The rows of the layout of a table, `cell_alloc` of tbl_layout.c and what `tbl_layout` does at a full stop. The
-- rows and the cells of a row are lists with the last one first, where the code links to it.
pub mod Invariant
pub mod Close
use mandoc_mirror.Prelude.{
  ℕ, zero, suc, ◌+◌, ◌-◌, ◌^◌, Bool, true, false, not, ◌&&◌, ◌||◌, Option, none, some, List, [],
  ◌∷◌, ltb, leb, ◌==◌, if◌then◌else◌, Bytes, peek, next, tolower, length,
}
use mandoc_mirror.Font.{font_roman}
use mandoc_mirror.Roff.Double.{Double}
use mandoc_mirror.Table.Options.{Opts, is_blank, skip_blank}
use mandoc_mirror.Table.Cells.{
  Cellt, centre, right, left, number, span, long, down, horiz, dhoriz, Cell, Modified, modified,
  mod_trapped, mod_out_of_fuel, set_vspace, mods,
}
use Prim.Native.Nat.{bit_and}

-- `struct tbl_row`
pub record Row : Type 0 where
  pub cells : List Cell
  pub vert : ℕ

-- `enum tbl_part`
pub data Part : Type 0 where
  opts_part layout_part data_part cdata_part : Part

-- `struct tbl_node`, without the rows of data
pub record Tbl : Type 0 where
  pub opts : Opts
  pub rows : List Row
  pub part : Part

-- `tbl_alloc`
abbrev pub tbl_alloc : Tbl
tbl_alloc = record {
  opts = record { opts = 0; cols = 0; lvert = 0; rvert = 0; tab = 9; decimal = b'.' };
  rows = [];
  part = opts_part;
}

-- `tbl_restart`
abbrev pub tbl_restart : Tbl → Tbl
tbl_restart t = record t { part = layout_part }

abbrev pub is_line : Cellt → Bool
is_line horiz = true
is_line dhoriz = true
is_line _ = false

abbrev pub next_col : List Cell → ℕ
next_col [] = 0
next_col (c ∷ cs) = c.col + 1

-- The new cell of `cell_alloc`
abbrev pub new_cell : ℕ → Cellt → Cell
new_cell n k = record {
  width = 0;
  spacing = 2 ^ 64 - 1;
  vert = 0;
  col = n;
  flags = 0;
  font = font_roman;
  kind = k;
}

-- `cell_alloc`, which returns the cell, where the caller appends it to the row `r`.
unfoldable pub cell_alloc : Opts → Row → Cellt → Opts × Cell
cell_alloc t r k =
    let n = next_col r.cells in
    (if leb t.cols n then record t { cols = n + 1 } else t, new_cell n k)

abbrev pub no_cells : List Cell → Bool
no_cells [] = true
no_cells (c ∷ cs) = false

-- The row with the new cell
abbrev pub append_cell : Row → Cell → Row
append_cell r cp = record r { cells = cp ∷ r.cells }

-- The width of the right line, at the cells of a row: that of the line after its last cell, where
-- this is in the last column and wider.
abbrev pub right_line : Opts → List Cell → ℕ
right_line t [] = t.rvert
right_line t (c ∷ cs) = if c.col + 1 == t.cols && ltb t.rvert c.vert then c.vert else t.rvert

-- "Search for the widest line along the left and right margins", at one row.
unfoldable pub margin : Opts → Row → Opts
margin t r = record t {
  lvert = if ltb t.lvert r.vert then r.vert else t.lvert;
  rvert = right_line t r.cells;
}

-- Whether there is a next row, and it has no cells.
abbrev pub no_cells_next : List Row → Bool
no_cells_next [] = false
no_cells_next (r ∷ rs) = no_cells r.cells

-- The loop over the rows, the first one first: "If the last line is empty, drop it."
unfoldable pub margins : Opts → List Row → Opts × List Row
unfolding margin
margins t [] = (t, [])
margins t (r ∷ rs) =
    let (u, qs) = margins (margin t r) rs in
    if no_cells_next rs then (margin t r, r ∷ []) else (u, r ∷ qs)

unfoldable pub reverse_onto : List Row → List Row → List Row
reverse_onto [] acc = acc
reverse_onto (r ∷ rs) acc = reverse_onto rs (r ∷ acc)

unfoldable pub has_line : List Cell → Bool
has_line [] = false
has_line (c ∷ cs) = is_line c.kind || has_line cs

-- "A horizontal line on the first table row suppresses vertical space before the table."
abbrev pub clear_vspace : List Cell → Opts → Opts
clear_vspace cs t = if has_line cs then record t { opts = bit_and t.opts (2 ^ 32 - 1 - 256) } else t

-- At the full stop, where there is a first row.
unfoldable pub close_rows : Opts → Row → List Row → Opts × List Row
unfolding margins cell_alloc has_line
close_rows t r rs =
    let (u, cp) = cell_alloc t r left in
    let (w, qs) = margins t (r ∷ rs) in
    if no_cells r.cells
    then (if ltb u.lvert r.vert then record u { lvert = r.vert } else u, append_cell r cp ∷ rs)
    else (clear_vspace r.cells w, qs)

-- The same, where "the layout is completely empty" too.
abbrev pub close_layout : Opts → List Row → Opts × List Row
close_layout t [] = close_rows t (record { cells = []; vert = 0 }) []
close_layout t (r ∷ rs) = close_rows t r rs

-- "End of layout."
unfoldable pub finish : Tbl → Tbl
unfolding reverse_onto close_rows
finish t =
    let (u, rs) = close_layout t.opts (reverse_onto t.rows []) in
    record { opts = u; rows = reverse_onto rs []; part = data_part }
