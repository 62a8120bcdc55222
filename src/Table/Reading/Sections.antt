-- ===== src/Table/Reading/Sections.antt =====
-- The sections of a table, in the model of `tbl_read` of tbl.c.
use mandoc_mirror.Prelude.{
  ℕ, suc, ◌<◌, ◌≡◌, ◌⊎◌, inl, inr, refl, sym, true, List, [], ◌∷◌, arith, if_both, Bytes, length,
}
use mathlib.Core.Path.{subst}
use mandoc_mirror.Roff.Double.{Double}
use mandoc_mirror.Table.Data.Places.{is_expanded}
use mandoc_mirror.Table.Options.{
  Opts, Optioned, optioned, option_overread, option_out_of_fuel, tbl_option, semicolon,
}
use mandoc_mirror.Table.Options.Semicolon.{Ends, tbl_option-Ends}
use mandoc_mirror.Table.Options.Margins.{IsLike, Leaves, tbl_option-Leaves}
use mandoc_mirror.Table.Rows.{Part, opts_part, layout_part, data_part, Tbl}
use mandoc_mirror.Table.Rows.Invariant.{Every, IsTable}
use mandoc_mirror.Table.Layout.{Laid, tbl_layout}
use mandoc_mirror.Table.Layout.Ends.{Reads, tbl_layout-Reads}
use mandoc_mirror.Table.Data.{Dat, Full, Read}
use mandoc_mirror.Table.Data.Sound.{AllTexts}
use mandoc_mirror.Table.Data.Lines.{IsFull, no_rows, with_rows, Keeps, tbl_data-Keeps}
use mandoc_mirror.Table.Data.Blocks.{tbl_cdata-Keeps}
use mandoc_mirror.Table.Reading.{
  Outcome, took, width_trap, from_layout, from_data, behind_options, read_options, read_section,
  tbl_read,
}

-- Before the data there are no rows of data, and the layout is sound so far; from there on the rows of
-- data fit the layout.
pub data IsState : Full → Type 0 where
  header :
      (t : Tbl)
      → (t.part ≡ opts_part) ⊎ (t.part ≡ layout_part)
      → IsTable t
      → IsState (record { tbl = t; spans = [] })
  body : (f : Full) → IsFull f → IsState f

-- A table like that, or the trap of a width
pub data Takes : Outcome → Type 0 where
  takes : (f : Full) → IsState f → Takes (took f)
  trapped : Takes width_trap

from_layout-Takes : (l : Laid) → Reads layout_part l → Takes (from_layout [] l)
from_layout-Takes _ (Reads.unfinished t e h) = takes _ (header t (inr e) h)
from_layout-Takes _ (Reads.finished t e h) = takes _ (body _ (no_rows t h e))
from_layout-Takes _ Reads.traps = trapped

layout-Takes :
    (d : Double) (t : Tbl) (v : Bytes)
    → t.part ≡ layout_part
    → IsTable t
    → Takes (from_layout [] (tbl_layout d t v))
layout-Takes d t v e h =
    from_layout-Takes (tbl_layout d t v)
      (subst (λ (p : Part). Reads p (tbl_layout d t v)) e (tbl_layout-Reads d t v h))

like-IsTable : (t : Tbl) (u : Opts) → IsTable t → IsLike t.opts u → IsTable (record t { opts = u })
like-IsTable t u h l = record {
  bounded = record {
    lvert = rw (l.lvert) (h.bounded.lvert);
    rvert = rw (l.rvert) (h.bounded.rvert);
  };
  every = subst (λ (n : ℕ). Every n t.rows) (sym l.cols) h.every;
  filled = h.filled;
}

behind_options-Takes :
    (d : Double) (t : Tbl) (v : Bytes) (o : Optioned)
    → t.part ≡ layout_part
    → IsTable t
    → Leaves t.opts o
    → Ends v o
    → Takes (behind_options d t [] o)
behind_options-Takes d t v (optioned _ []) e h (Leaves.leaves u w l) i =
    takes _ (header (record t { opts = u }) (inr e) (like-IsTable t u h l))
behind_options-Takes d t v (optioned _ (c ∷ w)) e h (Leaves.leaves u _ l) i =
    layout-Takes d (record t { opts = u }) (c ∷ w) e (like-IsTable t u h l)
behind_options-Takes d t v option_overread e h _ i = elim i [ ]
behind_options-Takes d t v option_out_of_fuel e h _ i = elim i [ ]

read_options-Takes :
    (d : Double) (t : Tbl) (v : Bytes)
    → t.part ≡ layout_part
    → IsTable t
    → Takes (read_options d t [] v)
read_options-Takes d t v e h =
    if_both Takes (semicolon true v)
      (λ b.
        behind_options-Takes d t v (tbl_option (suc (length v)) t.opts v) e h
          (tbl_option-Leaves (suc (length v)) t.opts v)
          (tbl_option-Ends (suc (length v)) t.opts v b (omega arith)))
      λ b. layout-Takes d t v e h

from_data-Takes : (r : Read) → Keeps r → Takes (from_data r)
from_data-Takes _ (Keeps.keeps f w h) = takes f (body f h)

section-Takes :
    (d : Double) (line : ℕ) (f : Full) (p v : Bytes) {q r : Part}
    → q ≡ r
    → Takes (read_section d r line f p v)
    → Takes (read_section d q line f p v)
section-Takes d line f p v e h = subst (λ (x : Part). Takes (read_section d x line f p v)) (sym e) h

full-Takes :
    (d : Double) (line : ℕ) (f : Full) (p v : Bytes)
    → IsFull f
    → (f.tbl.part ≡ data_part → AllTexts f.spans)
    → is_expanded v ≡ true
    → Takes (tbl_read d line f p v)
unfolding read_section
full-Takes d line _ p v (no_rows t c e) texts safe = section-Takes d line _ p v e (
    from_data-Takes _ (
      tbl_data-Keeps line (record { tbl = t; spans = [] }) p v
        (record { complete = c; fit = tt; texts = tt; part = e }) safe))
full-Takes d line _ p v (with_rows t s ss h) texts safe = elim (h.part) [
  | inl e ↦ section-Takes d line _ p v e (
      from_data-Takes _ (
        tbl_data-Keeps line (record { tbl = t; spans = s ∷ ss }) p v
          (record { complete = h.complete; fit = (h.here, h.before); texts = texts e; part = e })
          safe))
  | inr (e, l) ↦
      let (x, xs, q) = cells_lem s.dats l in
      section-Takes d line _ p v e (from_data-Takes _ (tbl_cdata-Keeps t s ss x xs v q h safe))
]
  where
    cells_lem : (ds : List Dat) → 0 < length ds → (x : Dat) × (xs : List Dat) × (ds ≡ x ∷ xs)
    cells_lem [] m = absurd (omega arith)
    cells_lem (x ∷ xs) m = (x, xs, refl)

-- From the first line of a table up to the first T&, `tbl_read` comes to an end on each line in which each
-- backslash has a byte behind it and no escape sequence has to be expanded, provided that in the
-- section of data all cells have strings, unless the expression for a width traps: before the full
-- stop of the layout there are no rows of data, and from there on all rows of data fit the layout,
-- a block is open only if the last row has a cell, and all cells of the rows before that have
-- strings.
pub tbl_read-Takes :
    (d : Double) (line : ℕ) (f : Full) (p v : Bytes)
    → IsState f
    → (f.tbl.part ≡ data_part → AllTexts f.spans)
    → is_expanded v ≡ true
    → Takes (tbl_read d line f p v)
unfolding read_section
tbl_read-Takes d line _ p v (header t (inl e) h) texts safe = section-Takes d line _ p v e (
    read_options-Takes d (record t { part = layout_part }) v refl
      (record { bounded = h.bounded; every = h.every; filled = h.filled }))
tbl_read-Takes d line _ p v (header t (inr e) h) texts safe =
    section-Takes d line _ p v e (layout-Takes d t v e h)
tbl_read-Takes d line _ p v (body f h) texts safe = full-Takes d line f p v h texts safe
