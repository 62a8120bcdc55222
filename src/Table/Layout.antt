-- ===== src/Table/Layout.antt =====
-- The layout of a table, `tbl_layout` and `cell` of tbl_layout.c.
pub mod Moves
pub mod Ends
use mandoc_mirror.Prelude.{
  ℕ, zero, suc, ◌+◌, ◌-◌, ◌^◌, Bool, true, false, not, ◌&&◌, ◌||◌, Option, none, some, List, [],
  ◌∷◌, ltb, leb, ◌==◌, if◌then◌else◌, Bytes, peek, next, tolower, length,
}
use mandoc_mirror.Font.{font_roman}
use mandoc_mirror.Roff.Double.{Double}
use mandoc_mirror.Table.Options.{Opts, is_blank, skip_blank}
use mandoc_mirror.Table.Cells.{
  Cellt, centre, right, left, number, span, long, down, horiz, dhoriz, Cell, Modified, modified,
  mod_trapped, mod_out_of_fuel, set_vspace, mods,
}
use Prim.Native.Nat.{bit_and}
use mandoc_mirror.Table.Rows.{
  Row, Part, opts_part, layout_part, data_part, cdata_part, Tbl, tbl_alloc, tbl_restart, is_line,
  next_col, new_cell, cell_alloc, no_cells, append_cell, right_line, margin, no_cells_next, margins,
  reverse_onto, has_line, clear_vspace, close_rows, close_layout, finish,
}

-- The outcome of the parser of layouts
pub data Laid : Type 0 where
  laid : Tbl → Laid
  layout_trapped : Laid
  layout_out_of_fuel : Laid

-- The outcome of one round of its loop, which goes round again, with whether `rp` is NULL, or ends.
pub data Turn : Type 0 where
  lay_more : Bool → Tbl → Bytes → Turn
  lay_done : Laid → Turn

unfoldable pub go_round : (Bool → Tbl → Bytes → Laid) → Turn → Laid
go_round again (lay_more fresh t v) = again fresh t v
go_round again (lay_done l) = l

-- `keys`
unfoldable pub cell_key : ℕ → Option Cellt
cell_key c =
    if c == b'c'
    then some centre
    else if c == b'r'
    then some right
    else if c == b'l'
    then some left
    else if c == b'n'
    then some number
    else if c == b's'
    then some span
    else if c == b'a'
    then some long
    else if c == b'^'
    then some down
    else if c == b'-' || c == b'_'
    then some horiz
    else if c == b'='
    then some dhoriz
    else none

-- "Handle leading vertical lines", with the options and the width of the line.
unfoldable pub lead : ℕ → ℕ → Bytes → ℕ × ℕ × Bytes
lead o n [] = (o, n, [])
lead o n (c ∷ v) =
    let hit = c == b'|' && ltb n 2 in
    let more = lead (if hit then set_vspace o else o) (if hit then n + 1 else n) v in
    if is_blank c || c == b'|' then more else (o, n, c ∷ v)

-- The kind of a cell and the place behind its letter if the letter is one, else what the loop finds.
unfoldable pub key_or : Option Cellt → Bytes → Option Cellt × Bytes → Option Cellt × Bytes
key_or none v more = more
key_or (some k) v more = (some k, v)

-- The loop of `cell` at `again`: the kind of a cell and the place behind its letter, or the place where
-- there is no cell.
unfoldable pub seek_key : Bytes → Option Cellt × Bytes
seek_key [] = (none, [])
seek_key (c ∷ v) =
    let more = seek_key v in
    if is_blank c
    then more
    else if c == b'.'
    then (none, c ∷ v)
    else key_or (cell_key (tolower c)) v more

-- "Special cases of spanners"
unfoldable pub spanner : Cellt → List Cell → Cellt
spanner span (c ∷ cs) = if is_line c.kind then c.kind else span
spanner k cs = k

-- The row that the cell goes to, and the rows before it: `fresh` says that `rp` is NULL.
unfoldable pub open_row : Bool → List Row → Row × List Row
open_row fresh [] = (record { cells = []; vert = 0 }, [])
open_row false (r ∷ rs) = (r, rs)
open_row true (r ∷ rs) =
    if no_cells r.cells then (r, rs) else (record { cells = []; vert = 0 }, r ∷ rs)

-- What follows `mods` in the loop of `tbl_layout`.
unfoldable pub place_cell : Tbl → Row → List Row → Modified → Turn
place_cell t r rs (modified cp o v) =
    lay_more false (record t { opts = record t.opts { opts = o }; rows = append_cell r cp ∷ rs }) v
place_cell t r rs mod_trapped = lay_done layout_trapped
place_cell t r rs mod_out_of_fuel = lay_done layout_out_of_fuel

abbrev pub is_single : List Row → Bool
is_single [] = true
is_single (r ∷ rs) = false

module _ (d : Double) where
  -- `cell` behind the vertical lines, where `r` has their width.
  unfoldable pub cell_here : Tbl → Row → List Row → Option Cellt × Bytes → Turn
  unfolding cell_alloc spanner place_cell
  cell_here t r rs (none, v) = lay_more false (record t { rows = r ∷ rs }) v
  cell_here t r rs (some k, v) =
      let (u, cp) = cell_alloc t.opts r (spanner k r.cells) in
      place_cell (record t { opts = u }) r rs (mods d (suc (length v)) (is_single rs) cp u.opts v)

  -- `cell`
  unfoldable pub cell_at : Tbl → Row → List Row → Bytes → Turn
  unfolding lead seek_key cell_here
  cell_at t r rs v =
      let (o, n, w) = lead t.opts.opts r.vert v in
      cell_here (record t { opts = record t.opts { opts = o } }) (record r { vert = n }) rs
        (seek_key w)

  -- One round of the loop of `tbl_layout`, behind the blanks, where `fresh` says that `rp` is NULL.
  unfoldable pub layout_at : Bool → Tbl → Bytes → Turn
  unfolding finish cell_at open_row
  layout_at fresh t [] = lay_done (laid t)
  layout_at fresh t (c ∷ v) =
      let (r, rs) = open_row fresh t.rows in
      if c == b','
      then lay_more true t v
      else if c == b'.'
      then lay_done (laid (finish t))
      else cell_at t r rs (c ∷ v)

  unfoldable pub layout_loop : ℕ → Bool → Tbl → Bytes → Laid
  unfolding layout_at go_round
  layout_loop zero fresh t v = layout_out_of_fuel
  layout_loop (suc fuel) fresh t v =
      go_round (λ g u w. layout_loop fuel g u w) (layout_at fresh t (skip_blank v))

  -- `tbl_layout`
  abbrev pub tbl_layout : Tbl → Bytes → Laid
  tbl_layout t v = layout_loop (suc (length v)) true t v
