-- ===== src/Table/Data/Overrun.antt =====
-- Cells of a table whose tab is a blank, in `getdata` of tbl_data.c.
use mandoc_mirror.Prelude.{
  ℕ, suc, ◌-◌, ◌≤◌, ◌<◌, ◌≡◌, refl, true, false, some, List, [], ◌∷◌, arith, ltb, ◌==◌, Bytes,
  str_same, length,
}
use Prim.Native.Nat.{bit_and}
use mandoc_mirror.Table.Rows.{Row, Tbl}
use mandoc_mirror.Table.Data.{
  Span, read, cell_end, find_end, row_at, next_start, skip_blank_bytes, cell_text, is_block,
}
use mandoc_mirror.Table.Data.Steps.{put_dat, span_dat, place_dat, data_in, data_to, get_data}
use mandoc_mirror.Table.Data.Fields.{
  NoSpans, text_dat, cell_of-NoSpans, advance_cell_self, count_spans_none,
}

length-skip_blank_bytes : (v : Bytes) → length (skip_blank_bytes v) ≤ length v
unfolding skip_blank_bytes
length-skip_blank_bytes [] = omega arith
length-skip_blank_bytes (c ∷ v) = ground (arith, length-skip_blank_bytes v)

-- The string of an empty cell in front of a blank
cell_text_lem :
    (v : Bytes)
    → (is_block true 0 (b' ' ∷ v) ≡ false) × (cell_text true 0 (b' ' ∷ v) ≡ skip_blank_bytes v)
unfolding cell_text skip_blank_bytes
cell_text_lem v =
    let b : ltb 0 (suc (length v) - length (skip_blank_bytes v)) ≡ true =
      ground (arith, length-skip_blank_bytes v) in
    (rw b refl, rw b refl)

find_end_blank :
    (fuel tab : ℕ) (v : Bytes)
    → tab ≡ b' '
    → find_end tab (suc fuel) (b' ' ∷ v) ≡ cell_end (b' ' ∷ v)
unfolding find_end
find_end_blank fuel tab v e = rw e refl

-- Where the tab is a blank and blanks around a cell are to be removed, the empty cell in front of a blank
-- in a row of the layout without horizontal and vertical spans gets all of the rest of the line
-- behind the blanks as its string, and the reading goes on behind the blank, where the same text
-- is read again.
pub get_data-overrun :
    (t : Tbl) (r : Row) (s : Span) (spans : List Span) (v : Bytes)
    → t.opts.tab ≡ b' '
    → bit_and t.opts.opts 64 == 0 ≡ false
    → NoSpans r.cells
    → row_at s.row t.rows ≡ some r
    → next_start s.dats < length r.cells
    → get_data t s spans (b' ' ∷ v)
      ≡ read
          (record {
            tbl = t;
            spans =
                record s { dats = text_dat (next_start s.dats) (skip_blank_bytes v) ∷ s.dats }
                ∷ spans;
          })
          v
unfolding get_data data_to data_in place_dat span_dat put_dat str_same
get_data-overrun t r s spans v tab spaces flat at l =
    let k = next_start s.dats in
    let (d, e, q) = cell_of-NoSpans k r.cells flat l in
    let (b, x) = cell_text_lem v in
    let n : suc (length v) - suc (length v) ≡ 0 = omega arith in
    rw
      (
        find_end_blank (length (b' ' ∷ v)) t.opts.tab v tab,
        at,
        advance_cell_self k r.cells flat l,
        e,
        n,
        q,
        spaces,
        b,
        x,
        count_spans_none k r.cells flat,
      )
      refl
