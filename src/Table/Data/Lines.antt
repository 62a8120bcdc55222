-- ===== src/Table/Data/Lines.antt =====
-- The lines of data, `tbl_data` and `tbl_cdata` of tbl_data.c.
use mandoc_mirror.Prelude.{
  ℕ, zero, suc, ◌+◌, ◌-◌, ◌≤◌, ◌<◌, ◌≡◌, refl, Bool, true, Option, none, some, List, [], ◌∷◌, arith,
  ◌==◌, if_both, inl, Bytes, codes, str_same, length,
}
use mandoc_mirror.Table.Options.{Opts}
use mandoc_mirror.Table.Cells.{Cell}
use mandoc_mirror.Table.Rows.{Row, Tbl, data_part}
use mandoc_mirror.Table.Rows.Invariant.{IsComplete}
use mandoc_mirror.Table.Data.Places.{is_expanded}
use mandoc_mirror.Table.Data.{
  Span, Full, Read, read, row_at, Spant, span_data, span_horiz, span_dhoriz,
}
use mandoc_mirror.Table.Data.Steps.{
  next_cell, read_cells, new_span, clear_first, last_data, next_row, skip_if, row_takes_data,
  takes_data, is_data, skip_lines, data_row, tbl_data,
}
use mandoc_mirror.Table.Data.Sound.{AllIn, AllTexts, row_at-Found}
use mandoc_mirror.Table.Data.Cells.{IsReady, Gets, get_data-Gets}

-- The layout is over, the rows of data fit it, a block is open only if the last row has a cell, and all
-- cells of the rows before that have strings.
pub data IsFull : Full → Type 0 where
  no_rows : (t : Tbl) → IsComplete t → t.part ≡ data_part → IsFull (record { tbl = t; spans = [] })
  with_rows :
      (t : Tbl) (s : Span) (ss : List Span)
      → IsReady t s ss
      → IsFull (record { tbl = t; spans = s ∷ ss })

-- Success, with a table like that
pub data Keeps : Read → Type 0 where
  keeps : (f : Full) (w : Bytes) → IsFull f → Keeps (read f w)

next_cell-Keeps :
    (n : ℕ) (again : Full → Bytes → Read) (r : Read)
    → Gets (suc n) r
    → ((t : Tbl) (s : Span) (ss : List Span) (w : Bytes)
        → IsReady t s ss
        → length w ≤ n
        → is_expanded w ≡ true
        → Keeps (again (record { tbl = t; spans = s ∷ ss }) w))
    → Keeps (next_cell again r)
next_cell-Keeps n again _ (Gets.gets t s ss w h l f) go = go t s ss w h (omega (arith, l)) f

pub read_cells-Keeps :
    (fuel : ℕ) (t : Tbl) (s : Span) (ss : List Span) (v : Bytes)
    → IsReady t s ss
    → length v < fuel
    → is_expanded v ≡ true
    → Keeps (read_cells fuel (record { tbl = t; spans = s ∷ ss }) v)
unfolding read_cells
read_cells-Keeps zero t s ss v h l f = absurd (omega arith)
read_cells-Keeps (suc fuel) t s ss [] h l f = keeps _ [] (with_rows t s ss h)
read_cells-Keeps (suc fuel) t s ss (c ∷ v) h l f =
    next_cell-Keeps (length v) (λ g w. read_cells fuel g w) _
      (get_data-Gets t s ss (c ∷ v) h (omega arith) f)
      λ u q qs w i m g. read_cells-Keeps fuel u q qs w i (omega (arith, l, m)) g

-- All rows of data fit the layout, and all their cells have strings.
pub record IsTexted (f : Full) : Type 0 where
  pub complete : IsComplete f.tbl
  pub fit : AllIn f.tbl.rows f.spans
  pub texts : AllTexts f.spans
  pub part : f.tbl.part ≡ data_part

fresh-IsReady :
    (t : Tbl) (ss : List Span) (line i : ℕ) (kind : Spant)
    → IsComplete t
    → AllIn t.rows ss
    → AllTexts ss
    → i < length t.rows
    → t.part ≡ data_part
    → IsReady t (new_span line i kind) ss
fresh-IsReady t ss line i kind c a x l p = record {
  complete = c;
  here = (l, tt);
  before = a;
  texts = x;
  part = inl p;
}

-- The last row of data that is no line has a row in the layout.
data Points (rows : List Row) : Option Span → Type 0 where
  no_row : Points rows none
  points : (s : Span) → s.row < length rows → Points rows (some s)

last_data-Points : (rows : List Row) (ss : List Span) → AllIn rows ss → Points rows (last_data ss)
unfolding last_data
last_data-Points rows [] a = no_row
last_data-Points rows (s ∷ ss) a =
    if_both (Points rows) (is_data s.kind) (λ b. points s a.0.0) λ b. last_data-Points rows ss a.1

next_row-lt :
    (rows : List Row) (o : Option Span)
    → 0 < length rows
    → Points rows o
    → next_row rows o < length rows
unfolding next_row
next_row-lt rows _ l no_row = l
next_row-lt rows _ l (points s h) = ground (arith, h)

-- The number of the row for the data, and the rows of data before it
data Skips (t : Tbl) : Option (ℕ × List Span) → Type 0 where
  skips :
      (i : ℕ) (ss : List Span)
      → i < length t.rows
      → AllIn t.rows ss
      → AllTexts ss
      → Skips t (some (i, ss))

takes_data_lem :
    (t : Opts) (cs : List Cell) → 0 < length cs → (b : Bool) × (takes_data t cs ≡ some b)
takes_data_lem t [] l = absurd (omega arith)
takes_data_lem t (c ∷ cs) l = (_, refl)

row_takes_data_lem :
    (t : Tbl) (i : ℕ)
    → IsComplete t
    → i < length t.rows
    → (b : Bool) × (row_takes_data t.opts (row_at i t.rows) ≡ some b)
row_takes_data_lem t i h l =
    let (r, f) = row_at-Found t.opts.cols i t.rows h.every h.filled l in
    let (b, e) = takes_data_lem t.opts r.cells f.cell in (b, rw (f.at) e)

skip_if-Skips :
    (t : Tbl) (o : Option Bool) (b : Bool) (i : ℕ) (ss : List Span) (more : Option (ℕ × List Span))
    → o ≡ some b
    → Skips t (some (i, ss))
    → Skips t more
    → Skips t (skip_if o i ss more)
skip_if-Skips t none b i ss more e h m = cc
skip_if-Skips t (some x) b i ss more e h m = if_both (Skips t) x (λ k. h) λ k. m

skip_lines-Skips :
    (n line : ℕ) (t : Tbl) (i : ℕ) (ss : List Span)
    → IsComplete t
    → i + n < length t.rows
    → AllIn t.rows ss
    → AllTexts ss
    → Skips t (skip_lines n line t i ss)
unfolding skip_lines
skip_lines-Skips zero line t i ss h l a x = skips i ss (omega arith) a x
skip_lines-Skips (suc n) line t i ss h l a x =
    let (b, e) = row_takes_data_lem t i h (omega arith) in
    skip_if-Skips t _ b i ss _ e (skips i ss (omega arith) a x) (
      skip_lines-Skips n line t (i + 1) (new_span line i span_data ∷ ss) h (omega arith)
        ((omega arith, tt), a) (tt, x))

data_row-Keeps :
    (line : ℕ) (t : Tbl) (v : Bytes) (o : Option (ℕ × List Span))
    → IsComplete t
    → t.part ≡ data_part
    → is_expanded v ≡ true
    → Skips t o
    → Keeps (data_row line t v o)
unfolding data_row
data_row-Keeps line t v _ c p f (skips i ss l a x) =
    read_cells-Keeps (suc (length v)) t (new_span line i span_data) ss v
      (fresh-IsReady t ss line i span_data c a x l p) (omega arith) f

drawn-Keeps :
    (t : Tbl) (o : Option Span) (line i : ℕ) (kind : Spant) (ss : List Span) (v : Bytes)
    → IsComplete t
    → AllIn t.rows ss
    → AllTexts ss
    → i < length t.rows
    → t.part ≡ data_part
    → Keeps (
        read
          (record {
            tbl = record t { opts = clear_first o t.opts };
            spans = new_span line i kind ∷ ss;
          })
          v)
drawn-Keeps t none line i kind ss v c a x l p = keeps _ v (
    with_rows (record t { opts = clear_first none t.opts }) _ ss
      (fresh-IsReady (record t { opts = clear_first none t.opts }) ss line i kind
        (record {
          bounded = record { lvert = c.bounded.lvert; rvert = c.bounded.rvert };
          every = c.every;
          filled = c.filled;
          rows = c.rows;
        })
        a x l p))
drawn-Keeps t (some s) line i kind ss v c a x l p =
    keeps _ v (with_rows t _ ss (fresh-IsReady t ss line i kind c a x l p))

texted-IsFull :
    (t : Tbl) (ss : List Span)
    → IsComplete t
    → AllIn t.rows ss
    → AllTexts ss
    → t.part ≡ data_part
    → IsFull (record { tbl = t; spans = ss })
texted-IsFull t [] c a x p = no_rows t c p
texted-IsFull t (s ∷ ss) c a x p =
    with_rows t s ss (record { complete = c; here = a.0; before = a.1; texts = x.1; part = inl p })

-- Where the section of data is reached, all rows of data fit the layout and all their cells have strings, `tbl_data` comes to
-- an end on each line in which nothing has to be expanded: it reads no NULL and not behind
-- the line, all rows of data, the new ones included, fit the layout, a block is open only if the last
-- row has a cell, and all cells of the rows before the last one have strings.
pub tbl_data-Keeps :
    (line : ℕ) (f : Full) (p v : Bytes)
    → IsTexted f
    → is_expanded v ≡ true
    → Keeps (tbl_data line f p v)
unfolding tbl_data
tbl_data-Keeps line f p v h safe =
    let t = f.tbl in
    let c = h.complete in
    let o = last_data f.spans in
    let i = next_row t.rows o in
    let l : i < length t.rows =
      next_row-lt t.rows o c.rows (last_data-Points t.rows f.spans h.fit) in
    if_both Keeps (length t.rows == 0) (λ b. absurd (ground (arith, b, c.rows)))
      λ b.
        if_both Keeps (str_same p (codes "."))
          (λ k. keeps f v (texted-IsFull t f.spans c h.fit h.texts h.part))
          λ k.
            if_both Keeps (str_same p (codes "_"))
              (λ j. drawn-Keeps t o line i span_horiz f.spans v c h.fit h.texts l h.part)
              λ j.
                if_both Keeps (str_same p (codes "="))
                  (λ q. drawn-Keeps t o line i span_dhoriz f.spans v c h.fit h.texts l h.part)
                  λ q. data_row-Keeps line t v _ c h.part safe (
                    skip_lines-Skips (length t.rows - 1 - i) line t i f.spans c (omega (arith, l))
                      h.fit h.texts)
