-- ===== src/Table/Data/Steps.antt =====
-- The steps over a line of data in tbl_data.c: `getdata`, `newspan`, `tbl_data` and `tbl_cdata`.
use mandoc_mirror.Prelude.{
  ℕ, zero, suc, ◌+◌, ◌-◌, ◌^◌, Bool, true, false, not, ◌&&◌, ◌||◌, Option, none, some, List, [],
  ◌∷◌, ◌++◌, ltb, ◌==◌, if◌then◌else◌, Bytes, codes, peek, next, length, take, str_same,
}
use mandoc_mirror.Table.Options.{Opts}
use mandoc_mirror.Table.Cells.{left, Cell}
use mandoc_mirror.Table.Rows.{Row, data_part, cdata_part, Tbl, new_cell, is_line, append_cell}
use Prim.Native.Nat.{bit_and}
use mandoc_mirror.Table.Data.{
  Dat, Spant, Span, Full, Read, CellEnd, find_end, row_at, set_row, is_down, cell_of, advance_cell,
  count_spans, next_start, above, extend_above, skip_blank_bytes, cell_text, is_block, dat_kind,
  data_none, data_data, span_data, span_horiz, span_dhoriz, read, null_read, line_overread,
  escape_aborts, read_out_of_fuel, cell_end, end_overread, end_aborts, end_out_of_fuel,
}

-- "Append the new data cell to the data row", and what follows, at the cell of `n` bytes at the beginning
-- of `v`, in front of `w`.
unfoldable pub put_dat : Tbl → List Cell → ℕ → ℕ → Bytes → Bytes → Span → List Span → Read
unfolding count_spans cell_text dat_kind
put_dat t cells k n v w s ss =
    let nospace = not (bit_and t.opts.opts 64 == 0) in
    let hspans = count_spans k cells in
    let string = cell_text nospace n v in
    let empty : Dat = record {
      col = k;
      string = none;
      hspans = hspans;
      vspans = 0;
      block = false;
      kind = data_none;
    } in
    let text : Dat = record empty { string = some string; kind = dat_kind string } in
    if is_block nospace n v
    then read
        (record {
          tbl = record t { part = cdata_part };
          spans = record s { dats = empty ∷ s.dats } ∷ ss;
        })
        w
    else read (record { tbl = t; spans = record s { dats = text ∷ s.dats } ∷ ss }) (next w)

abbrev pub put_below : Tbl → List Cell → ℕ → ℕ → Bytes → Bytes → Span → Option (List Span) → Read
put_below t cells k n v w s none = null_read
put_below t cells k n v w s (some ss) = put_dat t cells k n v w s ss

-- "Increment the number of vertical spans in a data cell above", where the cell in the layout asks for it.
unfoldable pub span_dat :
    Tbl → List Cell → ℕ → ℕ → Bytes → Bytes → Span → List Span → Option Cell → Read
unfolding extend_above put_dat
span_dat t cells k n v w s ss none = null_read
span_dat t cells k n v w s ss (some c) =
    if is_down c.kind || str_same (take n v) above
    then put_below t cells k n v w s (extend_above t.rows k ss)
    else put_dat t cells k n v w s ss

-- At the last cell of a row of the layout that has just got it
unfoldable pub add_cell : Tbl → Row → ℕ → Bytes → Bytes → Span → List Span → Read
unfolding set_row span_dat
add_cell t q n v w s ss =
    let k = length q.cells - 1 in
    span_dat (record t { rows = set_row s.row q t.rows }) q.cells k n v w s ss (cell_of k q.cells)

-- "If the current layout row is out of cells, allocate a new cell if another row of the table has at
-- least this number of columns, or discard the input", at the row `r` of the layout with its cells.
unfoldable pub extend_row : Tbl → Row → ℕ → Bytes → Bytes → Span → List Span → List Cell → Read
unfolding add_cell
extend_row t r n v w s ss [] = null_read
extend_row t r n v w s ss (c ∷ cs) =
    if ltb (c.col + 1) t.opts.cols
    then add_cell t (append_cell r (new_cell (c.col + 1) left)) n v w s ss
    else read (record { tbl = t; spans = s ∷ ss }) []

unfoldable pub place_dat : Tbl → Row → ℕ → Bytes → Bytes → Span → List Span → Option ℕ → Read
unfolding extend_row span_dat
place_dat t r n v w s ss (some k) = span_dat t r.cells k n v w s ss (cell_of k r.cells)
place_dat t r n v w s ss none = extend_row t r n v w s ss r.cells

unfoldable pub data_in : Tbl → Bytes → Bytes → Span → List Span → Option Row → Read
unfolding place_dat advance_cell
data_in t v w s ss none = null_read
data_in t v w s ss (some r) =
    place_dat t r (length v - length w) v w s ss (advance_cell (next_start s.dats) r.cells)

unfoldable pub data_to : Tbl → Span → List Span → Bytes → CellEnd → Read
unfolding data_in row_at
data_to t s ss v end_overread = line_overread
data_to t s ss v end_aborts = escape_aborts
data_to t s ss v end_out_of_fuel = read_out_of_fuel
data_to t s ss v (cell_end w) = data_in t v w s ss (row_at s.row t.rows)

-- `getdata`, at the last row of data
unfoldable pub get_data : Tbl → Span → List Span → Bytes → Read
unfolding find_end data_to
get_data t s ss v = data_to t s ss v (find_end t.opts.tab (suc (length v)) v)

abbrev pub next_cell : (Full → Bytes → Read) → Read → Read
next_cell again (read g w) = again g w
next_cell again null_read = null_read
next_cell again line_overread = line_overread
next_cell again escape_aborts = escape_aborts
next_cell again read_out_of_fuel = read_out_of_fuel

abbrev pub data_of : Full → Bytes → List Span → Read
data_of f v [] = null_read
data_of f v (s ∷ ss) = get_data f.tbl s ss v

-- The loop over the cells of the line
unfoldable pub read_cells : ℕ → Full → Bytes → Read
unfolding get_data
read_cells zero f v = read_out_of_fuel
read_cells (suc fuel) f [] = read f []
read_cells (suc fuel) f (c ∷ v) = next_cell (λ g w. read_cells fuel g w) (data_of f (c ∷ v) f.spans)

-- `newspan`, where `tbl->current_span` is not modelled
abbrev pub new_span : ℕ → ℕ → Spant → Span
new_span line i kind = record { row = i; dats = []; line = line; kind = kind }

abbrev pub is_data : Spant → Bool
is_data span_data = true
is_data _ = false

-- The last row of data that is no line
unfoldable pub last_data : List Span → Option Span
last_data [] = none
last_data (s ∷ ss) = let more = last_data ss in if is_data s.kind then some s else more

-- The row of the layout for the next row of data
unfoldable pub next_row : List Row → Option Span → ℕ
next_row rows none = 0
next_row rows (some s) = if ltb (s.row + 1) (length rows) then s.row + 1 else s.row

unfoldable pub all_lines : List Cell → Bool
all_lines [] = true
all_lines (c ∷ cs) = is_line c.kind && all_lines cs

-- Whether a row of the layout takes data; `none` is one without cells.
abbrev pub takes_data : Opts → List Cell → Option Bool
takes_data t [] = none
takes_data t (c ∷ cs) = some (ltb (c.col + 1) t.cols || not (all_lines (c ∷ cs)))

abbrev pub row_takes_data : Opts → Option Row → Option Bool
row_takes_data t none = none
row_takes_data t (some r) = takes_data t r.cells

abbrev pub skip_if : Option Bool → ℕ → List Span → Option (ℕ × List Span) → Option (ℕ × List Span)
skip_if none i ss more = none
skip_if (some b) i ss more = if b then some (i, ss) else more

-- "If the layout row contains nothing but horizontal lines, allocate an empty span for it and assign the
-- current span to the next layout row": the number of that row, and the rows of data before it, where
-- `n` rows follow; `none` is a row without cells.
unfoldable pub skip_lines : ℕ → ℕ → Tbl → ℕ → List Span → Option (ℕ × List Span)
unfolding row_at all_lines
skip_lines zero line t i ss = some (i, ss)
skip_lines (suc n) line t i ss =
    skip_if (row_takes_data t.opts (row_at i t.rows)) i ss
      (skip_lines n line t (i + 1) (new_span line i span_data ∷ ss))

-- "Process a real data row."
unfoldable pub data_row : ℕ → Tbl → Bytes → Option (ℕ × List Span) → Read
unfolding read_cells
data_row line t v none = null_read
data_row line t v (some (i, ss)) =
    read_cells (suc (length v)) (record { tbl = t; spans = new_span line i span_data ∷ ss }) v

-- "Suppress vertical space before the table if it starts with a horizontal line."
abbrev pub clear_first : Option Span → Opts → Opts
clear_first none t = record t { opts = bit_and t.opts (2 ^ 32 - 1 - 256) }
clear_first (some s) t = t

-- `tbl_data`, at the line `p` and the place `v` in it; what the code reads as `p[1]` does not matter if
-- the line is empty.
unfoldable pub tbl_data : ℕ → Full → Bytes → Bytes → Read
unfolding last_data next_row skip_lines data_row
tbl_data line f p v =
    let t = f.tbl in
    let found = last_data f.spans in
    let i = next_row t.rows found in
    let line_opts = clear_first found t.opts in
    let drawn = λ (k : Spant).
      read (record { tbl = record t { opts = line_opts }; spans = new_span line i k ∷ f.spans })
        v in
    let row = data_row line t v (skip_lines (length t.rows - 1 - i) line t i f.spans) in
    if length t.rows == 0
    then null_read
    else if str_same p (codes ".")
    then read f v
    else if str_same p (codes "_")
    then drawn span_horiz
    else if str_same p (codes "=")
    then drawn span_dhoriz
    else row

-- The text of a block: the line is added to that of the cell.
abbrev pub add_line : Option Bytes → Bytes → Bytes
add_line none v = v
add_line (some t) v = t ++ b' ' ∷ v

abbrev pub block_line : Tbl → Span → List Span → Bytes → List Dat → Read
block_line t s ss v [] = null_read
block_line t s ss v (d ∷ ds) =
    let e : Dat = record d {
      string = some (add_line d.string v);
      block = true;
      kind = data_data;
    } in
    read (record { tbl = t; spans = record s { dats = e ∷ ds } ∷ ss }) []

abbrev pub block_text : Full → Bytes → List Span → Read
block_text f v [] = null_read
block_text f v (s ∷ ss) = block_line f.tbl s ss v s.dats

-- `tbl_cdata`
unfoldable pub tbl_cdata : Full → Bytes → Read
unfolding read_cells skip_blank_bytes
tbl_cdata f v =
    let t = f.tbl in
    let u = next (next v) in
    let w = if bit_and t.opts.opts 64 == 0 then u else skip_blank_bytes u in
    let closed = record f { tbl = record t { part = data_part } } in
    if not (str_same (take 2 v) (codes "T}"))
    then block_text f v f.spans
    else if peek w == t.opts.tab
    then read_cells (suc (length w)) closed (next w)
    else if peek w == 0
    then read closed []
    else block_text f w f.spans
