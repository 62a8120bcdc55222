-- ===== src/Table/Data/Blocks.antt =====
-- The text of a block from `T{` to `T}`, `tbl_cdata` of tbl_data.c.
use mandoc_mirror.Prelude.{
  suc, ◌≡◌, refl, ap, ◌∙◌, append_assoc, true, false, not, Option, none, some, List, [], ◌∷◌, ◌++◌,
  arith, ◌==◌, if◌then◌else◌, if_both, Bytes, codes, str_same, peek, next, length, take, Suffix,
  Suffix-next, length-Suffix, Bool-cases, inl, inr,
}
use mandoc_mirror.Table.Rows.{Tbl, data_part}
use mandoc_mirror.Table.Data.Places.{is_expanded}
use mandoc_mirror.Table.Data.{Dat, Span, Full, Read, read, skip_blank_bytes, data_data}
use mandoc_mirror.Table.Data.Steps.{tbl_cdata, block_text, block_line, add_line, next_cell}
use mandoc_mirror.Table.Data.Sound.{width, Cols}
use mandoc_mirror.Table.Data.Places.{is_expanded-Suffix}
use mandoc_mirror.Table.Data.Cells.{IsReady, InData, is_expanded-next}
use mandoc_mirror.Table.Data.Lines.{with_rows, Keeps, keeps, read_cells-Keeps}
use mathlib.Core.Path.{subst}
use Prim.Native.Nat.{bit_and}

-- Text that the code takes as text of the block
abbrev pub IsText : Bytes → Type 0
IsText v = str_same (take 2 v) (codes "T}") ≡ false

-- A line of text whose first byte is neither a blank nor the tab nor the end of the line, and that does not
-- begin with `T}`, gives the same with `T}` in front of it: the `T}` is lost.
pub tbl_cdata-again :
    (f : Full) (v : Bytes)
    → IsText v
    → peek v == b' ' ≡ false
    → peek v == f.tbl.opts.tab ≡ false
    → peek v == 0 ≡ false
    → tbl_cdata f (codes "T}" ++ v) ≡ tbl_cdata f v
unfolding tbl_cdata skip_blank_bytes str_same
tbl_cdata-again f [] i b t e = cc
tbl_cdata-again f (c ∷ v) i b t e = elim (Bool-cases (bit_and f.tbl.opts.opts 64 == 0)) [
  | inl k ↦ rw (k, t, e, i) refl
  | inr k ↦ rw (k, b, t, e, i) refl
]

-- The lines of a block, one after the other
abbrev pub read_block : List Bytes → Full → Read
read_block [] f = read f []
read_block (v ∷ vs) f = next_cell (λ g w. read_block vs g) (tbl_cdata f v)

abbrev pub AllText : List Bytes → Type 0
AllText [] = Unit {0}
AllText (v ∷ vs) = IsText v × AllText vs

-- Texts with blanks between them
abbrev pub unwords : Bytes → List Bytes → Bytes
unwords v [] = v
unwords v (w ∷ ws) = v ++ b' ' ∷ unwords w ws

-- The text of a cell with the lines of a block, which follow what is there already
abbrev pub block_string : Option Bytes → Bytes → List Bytes → Bytes
block_string none v vs = unwords v vs
block_string (some t) v vs = unwords t (v ∷ vs)

abbrev pub block_dat : Dat → List Bytes → Dat
block_dat d [] = d
block_dat d (v ∷ vs) = record d {
  string = some (block_string d.string v vs);
  block = true;
  kind = data_data;
}

add_line-string :
    (o : Option Bytes) (v : Bytes) (ws : List Bytes)
    → unwords (add_line o v) ws ≡ block_string o v ws
add_line-string none v ws = refl
add_line-string (some t) v [] = refl
add_line-string (some t) v (w ∷ ws) = append_assoc t (b' ' ∷ v) (b' ' ∷ unwords w ws)

abbrev with_line : Dat → Bytes → Dat
with_line d v = record d { string = some (add_line d.string v); block = true; kind = data_data }

block_dat-line :
    (d : Dat) (v : Bytes) (ws : List Bytes) → block_dat (with_line d v) ws ≡ block_dat d (v ∷ ws)
block_dat-line d v [] =
    ap (λ (x : Bytes). record d { string = some x; block = true; kind = data_data })
      (add_line-string d.string v [])
block_dat-line d v (w ∷ ws) =
    ap (λ (x : Bytes). record d { string = some x; block = true; kind = data_data })
      (add_line-string d.string v (w ∷ ws))

tbl_cdata-text :
    (t : Tbl) (s : Span) (ss : List Span) (d : Dat) (ds : List Dat) (v : Bytes)
    → s.dats ≡ d ∷ ds
    → IsText v
    → tbl_cdata (record { tbl = t; spans = s ∷ ss }) v ≡ block_line t s ss v (d ∷ ds)
unfolding tbl_cdata
tbl_cdata-text t s ss d ds v e i = rw (i, e) refl

tbl_cdata-close :
    (t : Tbl) (spans : List Span)
    → 0 == t.opts.tab ≡ false
    → tbl_cdata (record { tbl = t; spans = spans }) (codes "T}")
      ≡ read (record { tbl = record t { part = data_part }; spans = spans }) []
unfolding tbl_cdata skip_blank_bytes str_same
tbl_cdata-close t spans h = elim (Bool-cases (bit_and t.opts.opts 64 == 0)) [
  | inl k ↦ rw (k, h) refl
  | inr k ↦ rw (k, h) refl
]

-- Where the tab is not NUL, any number of lines that do not begin with `T}`, and a line `T}` behind them,
-- return to the section of data. The last cell of the last row of data has then as its string what
-- it had before and the lines, with a blank between each two of them, and is a block of data,
-- or is as it was if there are no lines; nothing else in the table changes.
pub read_block-lines :
    (t : Tbl) (s : Span) (ss : List Span) (d : Dat) (ds : List Dat) (vs : List Bytes)
    → 0 == t.opts.tab ≡ false
    → s.dats ≡ d ∷ ds
    → AllText vs
    → read_block (vs ++ codes "T}" ∷ []) (record { tbl = t; spans = s ∷ ss })
      ≡ read
          (record {
            tbl = record t { part = data_part };
            spans = record s { dats = block_dat d vs ∷ ds } ∷ ss;
          })
          []
read_block-lines t s ss d ds [] h e i =
    ap (next_cell (λ g w. read g [])) (tbl_cdata-close t (s ∷ ss) h)
    ∙ ap
        (λ (ds : List Dat).
          read (record { tbl = record t { part = data_part }; spans = record s { dats = ds } ∷ ss })
            [])
        e
read_block-lines t s ss d ds (v ∷ vs) h e i =
    let x = with_line d v in
    rw (tbl_cdata-text t s ss d ds v e i.0, ← block_dat-line d v vs)
      (read_block-lines t (record s { dats = x ∷ ds }) ss x ds vs h refl i.1)

block_text-Keeps :
    (t : Tbl) (s : Span) (ss : List Span) (d : Dat) (ds : List Dat) (v : Bytes)
    → s.dats ≡ d ∷ ds
    → IsReady t s ss
    → Keeps (block_text (record { tbl = t; spans = s ∷ ss }) v (s ∷ ss))
block_text-Keeps t s ss d ds v e h =
    let p : InData t.part (d ∷ ds) = subst (InData t.part) e h.part in
    let c : Cols (width s.row t.rows) (d ∷ ds) = subst (Cols (width s.row t.rows)) e h.here.1 in
    rw e (
      keeps _ [] (
        with_rows t _ ss (record {
          complete = h.complete;
          here = (h.here.0, c);
          before = h.before;
          texts = h.texts;
          part = p;
        })))

skip_blank_bytes-Suffix : (v : Bytes) → Suffix (skip_blank_bytes v) v
unfolding skip_blank_bytes
skip_blank_bytes-Suffix [] = Suffix.here
skip_blank_bytes-Suffix (c ∷ v) =
    if_both (λ (w : Bytes). Suffix w (c ∷ v)) (c == b' ')
      (λ b. Suffix.there (skip_blank_bytes-Suffix v)) λ b. Suffix.here

-- Where the layout is over, all rows of data fit it, the last one has a cell, and all cells of the rows
-- before it have strings, `tbl_cdata` comes to an end on each line in which nothing has to be
-- expanded, and leaves a table whose rows of data fit the layout.
pub tbl_cdata-Keeps :
    (t : Tbl) (s : Span) (ss : List Span) (d : Dat) (ds : List Dat) (v : Bytes)
    → s.dats ≡ d ∷ ds
    → IsReady t s ss
    → is_expanded v ≡ true
    → Keeps (tbl_cdata (record { tbl = t; spans = s ∷ ss }) v)
unfolding tbl_cdata
tbl_cdata-Keeps t s ss d ds v e h f =
    let u = next (next v) in
    let w = if bit_and t.opts.opts 64 == 0 then u else skip_blank_bytes u in
    let c = h.complete in
    let safe : is_expanded w ≡ true =
      if_both (λ (x : Bytes). is_expanded x ≡ true) (bit_and t.opts.opts 64 == 0)
        (λ b. is_expanded-next (next v) (is_expanded-next v f))
        λ b.
          is_expanded-Suffix (skip_blank_bytes-Suffix u)
            (is_expanded-next (next v) (is_expanded-next v f)) in
    let ready : IsReady (record t { part = data_part }) s ss = record {
      complete = record { bounded = c.bounded; every = c.every; filled = c.filled; rows = c.rows };
      here = h.here;
      before = h.before;
      texts = h.texts;
      part = inl refl;
    } in
    if_both Keeps (not (str_same (take 2 v) (codes "T}"))) (λ b. block_text-Keeps t s ss d ds v e h)
      λ b.
        if_both Keeps (peek w == t.opts.tab)
          (λ b.
            read_cells-Keeps (suc (length w)) (record t { part = data_part }) s ss (next w) ready
              (omega (arith, length-Suffix (Suffix-next w))) (is_expanded-next w safe))
          λ b.
            if_both Keeps (peek w == 0)
              (λ b. keeps _ [] (with_rows (record t { part = data_part }) s ss ready))
              λ b. block_text-Keeps t s ss d ds w e h
