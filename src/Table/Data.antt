-- ===== src/Table/Data.antt =====
-- The rows of data of a table, tbl_data.c. The rows of data and the cells of a row are lists with the
-- last one first. The pointer of a row of data to its row in the layout is the number of that row,
-- from the first one on, and the pointer of a cell to its cell in the layout is the column.
pub mod Steps
pub mod Sound
pub mod Above
pub mod Cells
pub mod Places
pub mod Lines
pub mod Blocks
pub mod Fields
pub mod Overrun
use mandoc_mirror.Prelude.{
  ℕ, zero, suc, ◌+◌, ◌-◌, ◌^◌, Bool, true, false, not, ◌&&◌, ◌||◌, Option, none, some, List, [],
  ◌∷◌, ◌++◌, ltb, leb, ◌==◌, if◌then◌else◌, Bytes, codes, peek, next, length, take, drop, get_or,
  str_same,
}
use mandoc_mirror.Escape.Syntax.{Escape, escaped, overread, out_of_fuel, is_expand}
use mandoc_mirror.Escape.Parse.{escape}
use mandoc_mirror.Table.Options.{Opts}
use mandoc_mirror.Table.Cells.{
  Cellt, centre, right, left, number, span, long, down, horiz, dhoriz, Cell,
}
use mandoc_mirror.Table.Rows.{Row, Part, data_part, cdata_part, Tbl, new_cell, is_line, append_cell}
use Prim.Native.Nat.{bit_and}

-- `enum tbl_datt`
pub data Datt : Type 0 where
  data_none data_data data_horiz data_dhoriz data_nhoriz data_ndhoriz : Datt

-- `struct tbl_dat`
pub record Dat : Type 0 where
  pub col : ℕ
  pub string : Option Bytes
  pub hspans : ℕ
  pub vspans : ℕ
  pub block : Bool
  pub kind : Datt

-- `enum tbl_spant`
pub data Spant : Type 0 where
  span_data span_horiz span_dhoriz : Spant

-- `struct tbl_span`
pub record Span : Type 0 where
  pub row : ℕ
  pub dats : List Dat
  pub line : ℕ
  pub kind : Spant

-- The table with its rows of data
pub record Full : Type 0 where
  pub tbl : Tbl
  pub spans : List Span

-- The outcome of a step, or a fault: a NULL that is read through, a read behind the line,
-- or the failed assertion of `mandoc_escape`.
pub data Read : Type 0 where
  read : Full → Bytes → Read
  null_read : Read
  line_overread : Read
  escape_aborts : Read
  read_out_of_fuel : Read

-- The end of a cell: `while (*ccp != '\0' && *ccp != tbl->opts.tab)`
pub data CellEnd : Type 0 where
  cell_end : Bytes → CellEnd
  end_overread : CellEnd
  end_aborts : CellEnd
  end_out_of_fuel : CellEnd

-- Behind what `mandoc_escape` finds at the beginning of `v`; it asserts that this needs no expansion.
unfoldable pub past_escape : (Bytes → CellEnd) → Bytes → Escape → CellEnd
past_escape again v (escaped f) =
    let more = again (drop f.iend v) in if is_expand f.rval then end_aborts else more
past_escape again v overread = end_overread
past_escape again v out_of_fuel = end_out_of_fuel

unfoldable pub find_end : ℕ → ℕ → Bytes → CellEnd
unfolding past_escape
find_end tab zero v = end_out_of_fuel
find_end tab (suc fuel) [] = cell_end []
find_end tab (suc fuel) (c ∷ v) =
    let plain = find_end tab fuel v in
    let special =
      past_escape (λ w. find_end tab fuel w) (c ∷ v)
        (escape (suc (length (c ∷ v))) true (c ∷ v) 0) in
    if c == tab then cell_end (c ∷ v) else if c == b'\\' then special else plain

-- The row of the layout with a number
unfoldable pub row_at : ℕ → List Row → Option Row
row_at i [] = none
row_at i (r ∷ rs) = if length rs == i then some r else row_at i rs

unfoldable pub set_row : ℕ → Row → List Row → List Row
set_row i q [] = []
set_row i q (r ∷ rs) = if length rs == i then q ∷ rs else r ∷ set_row i q rs

abbrev pub is_span : Cellt → Bool
is_span span = true
is_span _ = false

abbrev pub is_down : Cellt → Bool
is_down down = true
is_down _ = false

-- The cell of a row in a column
unfoldable pub cell_of : ℕ → List Cell → Option Cell
cell_of k [] = none
cell_of k (c ∷ cs) = if length cs == k then some c else cell_of k cs

abbrev pub or_here : Option ℕ → Bool → ℕ → Option ℕ
or_here (some j) b i = some j
or_here none b i = if b then some i else none

-- "Advance to the next layout cell, skipping spanners", from the column `k` on
unfoldable pub advance_cell : ℕ → List Cell → Option ℕ
advance_cell k [] = none
advance_cell k (c ∷ cs) =
    or_here (advance_cell k cs) (leb k (length cs) && not (is_span c.kind)) (length cs)

-- "Count the number of horizontal spans to the right of this cell."
unfoldable pub count_spans : ℕ → List Cell → ℕ
count_spans k [] = 0
count_spans k (c ∷ cs) =
    let n = count_spans k cs in
    if ltb k (length cs) && length cs == k + 1 + n && is_span c.kind then n + 1 else n

-- The column to begin at
abbrev pub next_start : List Dat → ℕ
next_start [] = 0
next_start (d ∷ ds) = d.col + 1

abbrev pub or_this : Option Dat → Bool → Dat → Option Dat
or_this (some e) b d = some e
or_this none b d = if b then some d else none

-- The cell of a row above: the first one that is not before the column
unfoldable pub dat_from : ℕ → List Dat → Option Dat
dat_from k [] = none
dat_from k (d ∷ ds) = or_this (dat_from k ds) (leb k d.col) d

unfoldable pub bump : ℕ → List Dat → List Dat
bump k [] = []
bump k (d ∷ ds) = if d.col == k then record d { vspans = d.vspans + 1 } ∷ ds else d ∷ bump k ds

abbrev pub above : Bytes
above = codes "\\^"

abbrev pub kind_of : Option Cell → Option Cellt
kind_of none = none
kind_of (some c) = some c.kind

abbrev pub kind_in : ℕ → Option Row → Option Cellt
kind_in k none = none
kind_in k (some r) = kind_of (cell_of k r.cells)

abbrev pub kind_at : List Row → ℕ → ℕ → Option Cellt
kind_at rows i k = kind_in k (row_at i rows)

abbrev pub keep_span : Span → Option (List Span) → Option (List Span)
keep_span s none = none
keep_span s (some ts) = some (s ∷ ts)

-- `strcmp(pdat->string, "\\^") != 0`; `none` is a string that is NULL.
abbrev pub compare_above :
    Option Bytes → Option (List Span) → Option (List Span) → Option (List Span)
compare_above none here more = none
compare_above (some t) here more = if str_same t above then more else here

abbrev pub at_above :
    Option Cellt → Option Bytes → Option (List Span) → Option (List Span) → Option (List Span)
at_above none string here more = none
at_above (some kind) string here more =
    if is_down kind then more else compare_above string here more

-- At the cell of one row above, where `more` is the search of the rows above that
abbrev pub extend_at :
    List Row → Span → List Span → Option (List Span) → Option Dat → Option (List Span)
extend_at rows s ss more none = some (s ∷ ss)
extend_at rows s ss more (some d) =
    at_above (kind_at rows s.row d.col) d.string (some (record s { dats = bump d.col s.dats } ∷ ss))
      more

-- The search of the rows above for the cell that a vertical span extends; `none` is a comparison of a
-- string that is NULL.
unfoldable pub extend_above : List Row → ℕ → List Span → Option (List Span)
unfolding dat_from bump row_at cell_of
extend_above rows k [] = some []
extend_above rows k (s ∷ ss) =
    extend_at rows s ss (keep_span s (extend_above rows k ss)) (dat_from k s.dats)

-- The blanks at the beginning of a line, and their number
unfoldable pub skip_blank_bytes : Bytes → Bytes
skip_blank_bytes [] = []
skip_blank_bytes (c ∷ v) = let more = skip_blank_bytes v in if c == b' ' then more else c ∷ v

-- The bytes up to the last one that is no blank
unfoldable pub strip_end : Bytes → Bytes
strip_end [] = []
strip_end (c ∷ v) =
    let more = strip_end v in
    if c == b' ' then elim more [ [] ↦ [] | d ∷ w ↦ c ∷ d ∷ w ] else c ∷ more

-- "Strip leading and trailing spaces, if requested": the string of the cell, which has `n` bytes at the
-- beginning of `v`. Where blanks run over its end, the length is negative, and as a size larger
-- than the line.
unfoldable pub cell_text : Bool → ℕ → Bytes → Bytes
unfolding skip_blank_bytes strip_end
cell_text nospace n v =
    let u = skip_blank_bytes v in
    let skipped = length v - length u in
    if not nospace then take n v else if ltb n skipped then u else strip_end (take (n - skipped) u)

-- Whether the stripped cell is `T{`
abbrev pub is_block : Bool → ℕ → Bytes → Bool
is_block nospace n v =
    let skipped = length v - length (skip_blank_bytes v) in
    not (nospace && ltb n skipped) && str_same (cell_text nospace n v) (codes "T{")

unfoldable pub dat_kind : Bytes → Datt
dat_kind t =
    if str_same t (codes "_")
    then data_horiz
    else if str_same t (codes "=")
    then data_dhoriz
    else if str_same t (codes "\\_")
    then data_nhoriz
    else if str_same t (codes "\\=")
    then data_ndhoriz
    else data_data
