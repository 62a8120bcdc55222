-- ===== src/Table/Reading/Tests.antt =====
-- Runs over the lines of data of a table.
use mandoc_mirror.Prelude.{
  ◌≡◌, inl, refl, false, none, some, [], ◌∷◌, ◌++◌, arith, codes, str_same, elem,
}
use mandoc_mirror.Prelude.Int.{ℤ, pos, ◌+ℤ◌, ◌*ℤ◌}
use mandoc_mirror.Roff.Double.{Double}
use mandoc_mirror.Escape.Parse.{escape}
use mandoc_mirror.Table.Cells.{left}
use mandoc_mirror.Table.Rows.{Row, Tbl, data_part, cdata_part, new_cell}
use mandoc_mirror.Table.Rows.Invariant.{IsComplete}
use mandoc_mirror.Table.Data.{
  Dat, Span, span_data, Full, read, null_read, row_at, data_none, data_data, skip_blank_bytes,
}
use mandoc_mirror.Table.Data.Steps.{tbl_data, tbl_cdata, get_data, read_cells}
use mandoc_mirror.Table.Data.Places.{is_expanded}
use mandoc_mirror.Table.Data.Cells.{IsReady}
use mandoc_mirror.Table.Data.Lines.{with_rows}
use mandoc_mirror.Table.Data.Blocks.{tbl_cdata-again, read_block, block_dat, read_block-lines}
use mandoc_mirror.Table.Data.Fields.{text_dat, fill, fields, read_cells-fields}
use mandoc_mirror.Table.Data.Overrun.{get_data-overrun}
use mandoc_mirror.Table.Reading.{tbl_read}
use mandoc_mirror.Table.Reading.Sections.{body, Takes, tbl_read-Takes}

-- Integers in place of `double`
abbrev whole_numbers : Double
whole_numbers = record {
  Real = ℤ;
  lit = pos;
  tenth = pos 0;
  add = ◌+ℤ◌;
  mul = ◌*ℤ◌;
  div = λ a b. a;
  neg = λ a. a;
  to_int = λ a. a;
}

abbrev two_cells : Row
two_cells = record { cells = new_cell 1 left ∷ new_cell 0 left ∷ []; vert = 0 }

-- A layout of two columns, with a colon for the tab
abbrev two_columns : Tbl
two_columns = record {
  opts = record { opts = 0; cols = 2; lvert = 0; rvert = 0; tab = b':'; decimal = b'.' };
  rows = two_cells ∷ [];
  part = data_part;
}

two_columns-IsComplete : IsComplete two_columns
two_columns-IsComplete = record {
  bounded = record { lvert = omega arith; rvert = omega arith };
  every = (
    record {
      numbered = (
        record { col = refl; vert = omega arith },
        (record { col = refl; vert = omega arith }, tt),
      );
      fit = omega arith;
      vert = omega arith;
    },
    tt,
  );
  filled = (omega arith, tt);
  rows = omega arith;
}

abbrev word_dat : Dat
word_dat = record {
  col = 0;
  string = some (codes "x");
  hspans = 0;
  vspans = 0;
  block = false;
  kind = data_data;
}

abbrev one_row : Span
one_row = record { row = 0; dats = word_dat ∷ []; line = 2; kind = span_data }

abbrev one_row_table : Full
one_row_table = record { tbl = two_columns; spans = one_row ∷ [] }

one_row-IsReady : IsReady two_columns one_row []
one_row-IsReady = record {
  complete = two_columns-IsComplete;
  here = (omega arith, (omega arith, tt));
  before = tt;
  texts = tt;
  part = inl refl;
}

tbl_read-Takes_example :
    Takes (tbl_read whole_numbers 3 one_row_table (codes "\\^:T{") (codes "\\^:T{"))
unfolding is_expanded escape elem
tbl_read-Takes_example =
    tbl_read-Takes whole_numbers 3 one_row_table (codes "\\^:T{") (codes "\\^:T{")
      (body one_row_table (with_rows two_columns one_row [] one_row-IsReady))
      (λ e. ((refl, tt), tt)) refl

abbrev empty_row : Span
empty_row = record { row = 0; dats = []; line = 3; kind = span_data }

read_cells-fields_example :
    read_cells 9 (record { tbl = two_columns; spans = empty_row ∷ one_row ∷ [] }) (codes "ab:c:")
    ≡ read
        (record {
          tbl = two_columns;
          spans = record empty_row { dats = fill (fields b':' (codes "ab:c:")) [] } ∷ one_row ∷ [];
        })
        []
unfolding row_at fields str_same
read_cells-fields_example =
    read_cells-fields two_columns two_cells (one_row ∷ []) refl ((refl, refl, (refl, refl, tt))) 9
      empty_row (codes "ab:c:") refl (omega arith) (refl, (refl, (refl, (refl, (refl, tt)))))
      (refl, (refl, tt)) (omega arith)

-- The same layout with a blank for the tab, and blanks to be removed
abbrev blank_columns : Tbl
blank_columns = record {
  opts = record { opts = 64; cols = 2; lvert = 0; rvert = 0; tab = b' '; decimal = b'.' };
  rows = two_cells ∷ [];
  part = data_part;
}

get_data-overrun_example :
    get_data blank_columns empty_row [] (codes " x y")
    ≡ read
        (record {
          tbl = blank_columns;
          spans = record empty_row { dats = text_dat 0 (skip_blank_bytes (codes "x y")) ∷ [] } ∷ [];
        })
        (codes "x y")
unfolding row_at
get_data-overrun_example =
    get_data-overrun blank_columns two_cells empty_row [] (codes "x y") refl refl
      (refl, refl, (refl, refl, tt)) refl (omega arith)

abbrev open_dat : Dat
open_dat = record {
  col = 0;
  string = none;
  hspans = 0;
  vspans = 0;
  block = false;
  kind = data_none;
}

-- Behind a line `T{`
abbrev open_row : Span
open_row = record { row = 0; dats = open_dat ∷ []; line = 3; kind = span_data }

abbrev open_table : Full
open_table = record { tbl = record two_columns { part = cdata_part }; spans = open_row ∷ [] }

tbl_cdata-again_example :
    tbl_cdata open_table (codes "T}" ++ codes "s") ≡ tbl_cdata open_table (codes "s")
unfolding str_same
tbl_cdata-again_example = tbl_cdata-again open_table (codes "s") refl refl refl refl

read_block-lines_example :
    read_block (codes "a" ∷ codes "b" ∷ codes "T}" ∷ []) open_table
    ≡ read
        (record open_table {
          tbl = two_columns;
          spans =
              record open_row { dats = block_dat open_dat (codes "a" ∷ codes "b" ∷ []) ∷ [] } ∷ [];
        })
        []
unfolding str_same
read_block-lines_example =
    read_block-lines (open_table.tbl) open_row [] open_dat [] (codes "a" ∷ codes "b" ∷ []) refl refl
      (refl, (refl, tt))

-- A block without text leaves a cell without a string, and a vertical span in the next row reads NULL.
empty_block_lem :
    tbl_data 4 (record { tbl = two_columns; spans = open_row ∷ [] }) (codes "\\^:y") (codes "\\^:y")
    ≡ null_read
unfolding tbl_data str_same escape elem
empty_block_lem = refl
