-- ===== src/Table/Data/Cells.antt =====
-- One cell of a line, in `getdata` of tbl_data.c.
use mandoc_mirror.Prelude.{
  ℕ, zero, suc, ◌+◌, ◌-◌, ◌≤◌, ◌<◌, ◌≡◌, refl, sym, ◌∙◌, Bool, true, false, not, ◌&&◌, ◌||◌, ap,
  Option, none, some, List, [], ◌∷◌, arith, ltb, ◌==◌, if_both, ◌⊎◌, inl, inr, Bytes, codes,
  str_same, next, length, take, length-Suffix,
}
use Prim.Native.Nat.{bit_and}
use mandoc_mirror.Table.Cells.{Cell, left}
use mandoc_mirror.Table.Rows.{
  Row, Part, data_part, cdata_part, Tbl, new_cell, next_col, append_cell,
}
use mandoc_mirror.Table.Rows.Invariant.{IsRow, next_col_lem, append_cell-IsRow, HasCell, IsComplete}
use mandoc_mirror.Table.Data.Places.{is_expanded}
use mandoc_mirror.Table.Data.{
  Dat, Span, Read, read, CellEnd, row_at, set_row, advance_cell, next_start, extend_above, above,
  is_down, cell_text, is_block, strip_end, skip_blank_bytes, find_end, count_spans, dat_kind,
}
use mandoc_mirror.Table.Data.Steps.{
  put_dat, put_below, span_dat, add_cell, extend_row, place_dat, data_in, data_to, get_data,
}
use mandoc_mirror.Table.Data.Sound.{
  width, IsIn, AllIn, AllTexts, Found, row_at-Found, length-set_row, Every-set_row, Filled-set_row,
  width-set_row, width-set_row_self, IsIn-more, AllIn-more, cell_of-some, advance_cell-lt,
}
use mandoc_mirror.Table.Data.Above.{Extends, extend_above-Extends}
use mandoc_mirror.Table.Data.Places.{EndsIn, find_end-EndsIn}

-- The section of the input: a block is open only if the last row has a cell.
abbrev pub InData : Part → List Dat → Type 0
InData p ds = (p ≡ data_part) ⊎ ((p ≡ cdata_part) × (0 < length ds))

InData-more : (p : Part) (d : Dat) (ds : List Dat) → InData p ds → InData p (d ∷ ds)
InData-more p d ds (inl e) = inl e
InData-more p d ds (inr (e, l)) = inr (e, omega arith)

-- The layout is over, the rows of data fit it, a block is open only if the last row has a cell, and all
-- cells of the rows before that have strings.
pub record IsReady (t : Tbl) (s : Span) (ss : List Span) : Type 0 where
  pub complete : IsComplete t
  pub here : IsIn t.rows s
  pub before : AllIn t.rows ss
  pub texts : AllTexts ss
  pub part : InData t.part s.dats

-- A table like that, at a place with fewer than `n` bytes behind it, in which nothing has to be expanded.
pub data Gets (n : ℕ) : Read → Type 0 where
  gets :
      (t : Tbl) (s : Span) (ss : List Span) (w : Bytes)
      → IsReady t s ss
      → length w < n
      → is_expanded w ≡ true
      → Gets n (read (record { tbl = t; spans = s ∷ ss }) w)

is_block_zero : (nospace : Bool) (v : Bytes) → is_block nospace 0 v ≡ false
unfolding cell_text strip_end str_same
is_block_zero false v = refl
is_block_zero true v =
    if_both
      (λ (t : Bytes).
        not (ltb 0 (length v - length (skip_blank_bytes v))) && str_same t (codes "T{") ≡ false)
      (ltb 0 (length v - length (skip_blank_bytes v))) (λ b. rw b refl) λ b. ground arith

is_block-pos : (nospace : Bool) (n : ℕ) (v : Bytes) → is_block nospace n v ≡ true → 0 < n
is_block-pos nospace zero v h = ground (arith, is_block_zero nospace v, h)
is_block-pos nospace (suc n) v h = omega arith

pub length-next : (w : Bytes) → length (next w) ≤ length w - 1
length-next [] = omega arith
length-next (c ∷ w) = omega arith

pub is_expanded-next : (w : Bytes) → is_expanded w ≡ true → is_expanded (next w) ≡ true
unfolding is_expanded
is_expanded-next [] f = f
is_expanded-next (c ∷ w) f = ground (arith, f)

module _ (n : ℕ) (v w : Bytes) (shorter : n ≡ length v - length w) (full : 0 < length v)
    (within : length w ≤ length v) (safe : is_expanded w ≡ true) where
  put_dat-Gets :
      (t : Tbl) (cells : List Cell) (k : ℕ) (s : Span) (ss : List Span)
      → IsReady t s ss
      → k < width s.row t.rows
      → Gets (length v) (put_dat t cells k n v w s ss)
  unfolding put_dat
  put_dat-Gets t cells k s ss h l =
      let complete = h.complete in
      let string = cell_text (not (bit_and t.opts.opts 64 == 0)) n v in
      let d : Dat = record {
        col = k;
        string = some string;
        hspans = count_spans k cells;
        vspans = 0;
        block = false;
        kind = dat_kind string;
      } in
      if_both (Gets (length v)) (is_block (not (bit_and t.opts.opts 64 == 0)) n v)
        (λ b.
          gets _ _ ss w
            (record {
              complete = record {
                bounded = complete.bounded;
                every = complete.every;
                filled = complete.filled;
                rows = complete.rows;
              };
              here = (h.here.0, (l, h.here.1));
              before = h.before;
              texts = h.texts;
              part = inr (refl, omega arith);
            })
            (omega (arith, shorter, is_block-pos (not (bit_and t.opts.opts 64 == 0)) n v b)) safe)
        λ b.
          gets t _ ss (next w)
            (record {
              complete = complete;
              here = (h.here.0, (l, h.here.1));
              before = h.before;
              texts = h.texts;
              part = InData-more t.part d s.dats h.part;
            })
            (omega (arith, length-next w, full, within)) (is_expanded-next w safe)

  put_below-Gets :
      (t : Tbl) (cells : List Cell) (k : ℕ) (s : Span) (o : Option (List Span))
      → IsComplete t
      → IsIn t.rows s
      → k < width s.row t.rows
      → InData t.part s.dats
      → Extends t.rows o
      → Gets (length v) (put_below t cells k n v w s o)
  put_below-Gets t cells k s _ c i l p (Extends.extends ss a b) =
      put_dat-Gets t cells k s ss
        (record { complete = c; here = i; before = a; texts = b; part = p }) l

  span_dat-Gets :
      (t : Tbl) (cells : List Cell) (k : ℕ) (s : Span) (ss : List Span) (o : Option Cell) (c : Cell)
      → o ≡ some c
      → IsReady t s ss
      → k < width s.row t.rows
      → Gets (length v) (span_dat t cells k n v w s ss o)
  unfolding span_dat
  span_dat-Gets t cells k s ss none c e h l = cc
  span_dat-Gets t cells k s ss (some x) c e h l =
      if_both (Gets (length v)) (is_down x.kind || str_same (take n v) above)
        (λ b. put_below-Gets t cells k s (extend_above t.rows k ss) h.complete h.here l h.part (
          extend_above-Extends t.opts.cols k t.rows ss h.complete.every h.complete.filled h.before
            h.texts))
        λ b. put_dat-Gets t cells k s ss h l

  add_cell-Gets :
      (t : Tbl) (q : Row) (s : Span) (ss : List Span)
      → IsReady t s ss
      → IsRow t.opts.cols q
      → HasCell q
      → width s.row t.rows ≤ length q.cells
      → Gets (length v) (add_cell t q n v w s ss)
  unfolding add_cell
  add_cell-Gets t q s ss h r k m =
      let complete = h.complete in
      let rows = set_row s.row q t.rows in
      let same = length-set_row s.row q t.rows in
      let more = λ (j : ℕ). width-set_row s.row j q t.rows m in
      let (c, e) = cell_of-some (length q.cells - 1) q.cells (omega (arith, k)) in
      span_dat-Gets (record t { rows = rows }) q.cells (length q.cells - 1) s ss _ c e
        (record {
          complete = record {
            bounded = complete.bounded;
            every = Every-set_row t.opts.cols s.row q t.rows r complete.every;
            filled = Filled-set_row s.row q t.rows k complete.filled;
            rows = omega (arith, same, complete.rows);
          };
          here = IsIn-more t.rows rows s (sym same) more h.here;
          before = AllIn-more t.rows rows ss (sym same) more h.before;
          texts = h.texts;
          part = h.part;
        })
        (omega (arith, width-set_row_self s.row q t.rows h.here.0, k))

  extend_row-Gets :
      (t : Tbl) (r : Row) (s : Span) (ss : List Span) (cs : List Cell)
      → r.cells ≡ cs
      → IsReady t s ss
      → Found t.opts.cols s.row t.rows r
      → Gets (length v) (extend_row t r n v w s ss cs)
  unfolding extend_row is_expanded
  extend_row-Gets t r s ss [] e h f = absurd (omega (arith, f.cell, ap length e))
  extend_row-Gets t r s ss (c ∷ cs) e h f =
      let col : c.col + 1 ≡ length r.cells =
        ap next_col (sym e) ∙ next_col_lem r.cells f.row.numbered in
      if_both (Gets (length v)) (ltb (c.col + 1) t.opts.cols)
        (λ b.
          add_cell-Gets t (append_cell r (new_cell (c.col + 1) left)) s ss h
            (append_cell-IsRow r (new_cell (c.col + 1) left) f.row
              (record { col = col; vert = omega arith }) (ground (arith, col, b)))
            (omega arith) (omega (arith, f.cells)))
        λ b. gets t s ss [] h full refl

  place_dat-Gets :
      (t : Tbl) (r : Row) (s : Span) (ss : List Span) (o : Option ℕ)
      → advance_cell (next_start s.dats) r.cells ≡ o
      → IsReady t s ss
      → Found t.opts.cols s.row t.rows r
      → Gets (length v) (place_dat t r n v w s ss o)
  unfolding place_dat
  place_dat-Gets t r s ss none q h f = extend_row-Gets t r s ss r.cells refl h f
  place_dat-Gets t r s ss (some k) q h f =
      let l = advance_cell-lt (next_start s.dats) k r.cells q in
      let (c, e) = cell_of-some k r.cells l in
      span_dat-Gets t r.cells k s ss _ c e h (omega (arith, l, f.cells))

data_in-Gets :
    (t : Tbl) (v w : Bytes) (s : Span) (ss : List Span) (r : Row)
    → 0 < length v
    → length w ≤ length v
    → is_expanded w ≡ true
    → IsReady t s ss
    → Found t.opts.cols s.row t.rows r
    → Gets (length v) (data_in t v w s ss (row_at s.row t.rows))
unfolding data_in
data_in-Gets t v w s ss r p l f h found = rw (found.at) (
    place_dat-Gets (length v - length w) v w refl p l f t r s ss
      (advance_cell (next_start s.dats) r.cells) refl h found)

data_to-Gets :
    (t : Tbl) (s : Span) (ss : List Span) (v : Bytes) (e : CellEnd)
    → 0 < length v
    → IsReady t s ss
    → EndsIn v e
    → Gets (length v) (data_to t s ss v e)
unfolding data_to
data_to-Gets t s ss v _ p h (EndsIn.ends_in w i f) =
    let (r, k) =
      row_at-Found t.opts.cols s.row t.rows h.complete.every h.complete.filled h.here.0 in
    data_in-Gets t v w s ss r p (length-Suffix i) f h k

-- Where the layout is over, all rows of data fit it and all cells of the rows before the last one have
-- strings, `getdata` takes at least one byte of a line that is not empty and in which
-- nothing has to be expanded, reads no NULL and not behind the line, and leaves a table like that.
pub get_data-Gets :
    (t : Tbl) (s : Span) (ss : List Span) (v : Bytes)
    → IsReady t s ss
    → 0 < length v
    → is_expanded v ≡ true
    → Gets (length v) (get_data t s ss v)
unfolding get_data
get_data-Gets t s ss v h p f =
    data_to-Gets t s ss v (find_end t.opts.tab (suc (length v)) v) p h
      (find_end-EndsIn t.opts.tab (suc (length v)) v f (omega arith))
