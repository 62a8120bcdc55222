-- ===== src/Table/Tests.antt =====
-- Runs of the table parser.
use mandoc_mirror.Prelude.{
  ℕ, ◌≡◌, map, length, refl, List, [], ◌∷◌, arith, Bytes, codes, str_same, elem,
}
use mandoc_mirror.Prelude.Int.{ℤ, pos, ◌+ℤ◌, ◌*ℤ◌}
use mandoc_mirror.Roff.Double.{Double}
use mandoc_mirror.Table.Rows.{Tbl, tbl_alloc, tbl_restart, layout_part}
use mandoc_mirror.Table.Layout.{
  Laid, laid, layout_trapped, layout_out_of_fuel, tbl_layout, layout_loop, key_or, cell_key,
}
use mandoc_mirror.Table.Rows.Invariant.{IsTable}
use mandoc_mirror.Table.Layout.Ends.{Reads, tbl_layout-Reads}
use mandoc_mirror.Table.Cells.{mods, is_font}
use mandoc_mirror.Font.{mandoc_font}
use mandoc_mirror.Table.Options.{skip_blank, Opts, optioned, option_overread, tbl_option}

abbrev defaults : Opts
defaults = tbl_alloc.opts

abbrev three_options : Bytes
three_options = codes "tab(;), BOX allbox;l."

three_options_lem :
    tbl_option 30 defaults three_options
    ≡ optioned (record defaults { opts = 3; tab = b';' }) (codes "l.")
unfolding tbl_option str_same
three_options_lem = refl

-- What the test of the caller avoids
unclosed_lem : tbl_option 30 defaults (codes "tab(;") ≡ option_overread
unfolding tbl_option str_same
unclosed_lem = refl

-- Integers in place of `double`
abbrev integers : Double
integers = record {
  Real = ℤ;
  lit = pos;
  tenth = pos 0;
  add = ◌+ℤ◌;
  mul = ◌*ℤ◌;
  div = λ a b. a;
  neg = λ a. a;
  to_int = λ a. a;
}

abbrev new_table : Tbl
new_table = tbl_restart tbl_alloc

new_table-IsTable : IsTable new_table
new_table-IsTable = record {
  bounded = record { lvert = omega arith; rvert = omega arith };
  every = tt;
  filled = tt;
}

-- What a test looks at: the columns, the lines at the margins, and the columns of each row.
columns : Laid → List ℕ
columns (laid t) = t.opts.cols ∷ t.opts.lvert ∷ t.opts.rvert ∷ map (λ r. length r.cells) t.rows
columns layout_trapped = []
columns layout_out_of_fuel = []

-- The empty row before the full stop is dropped.
layout_lem :
    columns (tbl_layout integers new_table (codes "|cfI|l w3||,r5s,|.")) ≡ 2 ∷ 1 ∷ 2 ∷ 2 ∷ 2 ∷ []
unfolding columns layout_loop skip_blank key_or cell_key mods elem is_font mandoc_font
layout_lem = refl

-- "When the layout is completely empty, default to one left-justified column."
layout_empty_lem : columns (tbl_layout integers new_table (codes " .")) ≡ 1 ∷ 0 ∷ 0 ∷ 1 ∷ []
unfolding columns layout_loop skip_blank
layout_empty_lem = refl

tbl_layout-Reads_example :
    Reads layout_part (tbl_layout integers new_table (codes "|cb|l w(3n)||,r5 s."))
tbl_layout-Reads_example =
    tbl_layout-Reads integers new_table (codes "|cb|l w(3n)||,r5 s.") new_table-IsTable
