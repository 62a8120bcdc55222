-- ===== src/Table/Data/Fields.antt =====
-- Lines of data without escape sequences, in `getdata` of tbl_data.c.
use mandoc_mirror.Prelude.{
  ℕ, zero, suc, ◌+◌, ◌-◌, ◌≤◌, ◌<◌, ◌≡◌, refl, sym, ap, Bool, true, false, none, some, List, [],
  ◌∷◌, arith, ltb, leb, ◌==◌, if◌then◌else◌, if_both, Bytes, codes, str_same, next, length, take,
  Bool-cases, inl, inr,
}
use mathlib.Core.Path.{subst}
use Prim.Native.Nat.{bit_and}
use mandoc_mirror.Table.Cells.{Cell}
use mandoc_mirror.Table.Rows.{Row, Tbl}
use mandoc_mirror.Table.Data.{
  Dat, Span, read, cell_end, find_end, row_at, cell_of, advance_cell, next_start, is_span, is_down,
  count_spans, above, cell_text, dat_kind,
}
use mandoc_mirror.Table.Data.Steps.{
  put_dat, span_dat, place_dat, data_in, data_to, get_data, read_cells,
}
use mandoc_mirror.Table.Data.Cells.{length-next}

-- Without backslashes
abbrev pub IsPlain : Bytes → Type 0
IsPlain [] = Unit {0}
IsPlain (c ∷ v) = (c == b'\\' ≡ false) × IsPlain v

-- From the first tab on
unfoldable pub rest : ℕ → Bytes → Bytes
rest tab [] = []
rest tab (c ∷ v) = if c == tab then c ∷ v else rest tab v

abbrev pub in_first : ℕ → List Bytes → List Bytes
in_first c [] = (c ∷ []) ∷ []
in_first c (x ∷ xs) = (c ∷ x) ∷ xs

-- The bytes between the tabs, where none stand behind a tab at the end
unfoldable pub fields : ℕ → Bytes → List Bytes
fields tab [] = []
fields tab (c ∷ v) = if c == tab then [] ∷ fields tab v else in_first c (fields tab v)

find_end-rest :
    (tab fuel : ℕ) (v : Bytes)
    → IsPlain v
    → length v < fuel
    → find_end tab fuel v ≡ cell_end (rest tab v)
unfolding find_end rest
find_end-rest tab zero v p l = absurd (omega arith)
find_end-rest tab (suc fuel) [] p l = refl
find_end-rest tab (suc fuel) (c ∷ v) p l = elim (Bool-cases (c == tab)) [
  | inl b ↦ rw b refl
  | inr b ↦ rw (b, p.0) (find_end-rest tab fuel v p.1 (omega arith))
]

length-rest : (tab : ℕ) (v : Bytes) → length (rest tab v) ≤ length v
unfolding rest
length-rest tab [] = omega arith
length-rest tab (c ∷ v) =
    if_both (λ (w : Bytes). length w ≤ length (c ∷ v)) (c == tab) (λ b. omega arith)
      λ b. omega (arith, length-rest tab v)

rest-IsPlain : (tab : ℕ) (v : Bytes) → IsPlain v → IsPlain (rest tab v)
unfolding rest
rest-IsPlain tab [] p = p
rest-IsPlain tab (c ∷ v) p = if_both IsPlain (c == tab) (λ b. p) λ b. rest-IsPlain tab v p.1

next-IsPlain : (v : Bytes) → IsPlain v → IsPlain (next v)
next-IsPlain [] p = p
next-IsPlain (c ∷ v) p = p.1

fields_empty : (tab : ℕ) → fields tab [] ≡ []
unfolding fields
fields_empty tab = refl

-- The bytes before the first tab
unfoldable pub first : ℕ → Bytes → Bytes
first tab [] = []
first tab (c ∷ v) = if c == tab then [] else c ∷ first tab v

take-first : (tab : ℕ) (v : Bytes) → take (length v - length (rest tab v)) v ≡ first tab v
unfolding first rest
take-first tab [] = refl
take-first tab (c ∷ v) = elim (Bool-cases (c == tab)) [
  | inl b ↦ let e : length (c ∷ v) - length (c ∷ v) ≡ 0 = omega arith in rw (b, e) refl
  | inr b ↦
      let e : length (c ∷ v) - length (rest tab v) ≡ suc (length v - length (rest tab v)) =
        omega (arith, length-rest tab v) in
      rw (b, e) (ap (λ (x : Bytes). c ∷ x) (take-first tab v))
]

-- The first field, and those behind it
fields_lem :
    (tab c : ℕ) (v : Bytes)
    → fields tab (c ∷ v) ≡ first tab (c ∷ v) ∷ fields tab (next (rest tab (c ∷ v)))
unfolding fields first rest
fields_lem tab c [] = if_both_lem (c == tab)
  where
    if_both_lem :
        (b : Bool)
        → (if b then [] ∷ [] else (c ∷ []) ∷ [])
          ≡ (if b then [] else c ∷ []) ∷ fields tab (next (if b then c ∷ [] else []))
    if_both_lem true = refl
    if_both_lem false = refl
fields_lem tab c (d ∷ v) = elim (Bool-cases (c == tab)) [
  | inl b ↦ rw b refl
  | inr b ↦ rw b (ap (in_first c) (fields_lem tab d v))
]

-- Every cell of a row of the layout is neither a horizontal nor a vertical span.
abbrev pub NoSpans : List Cell → Type 0
NoSpans [] = Unit {0}
NoSpans (c ∷ cs) = (is_span c.kind ≡ false) × (is_down c.kind ≡ false) × NoSpans cs

advance_cell-none : (k : ℕ) (cs : List Cell) → length cs ≤ k → advance_cell k cs ≡ none
unfolding advance_cell
advance_cell-none k [] l = refl
advance_cell-none k (c ∷ cs) l =
    let b : leb k (length cs) ≡ false = ground (arith, l) in
    rw (advance_cell-none k cs (omega (arith, l)), b) refl

pub advance_cell_self :
    (k : ℕ) (cs : List Cell) → NoSpans cs → k < length cs → advance_cell k cs ≡ some k
unfolding advance_cell
advance_cell_self k [] n l = absurd (omega arith)
advance_cell_self k (c ∷ cs) n l = elim (Bool-cases (ltb k (length cs))) [
  | inl b ↦ rw (advance_cell_self k cs n.2 (ground (arith, b))) refl
  | inr b ↦
      let e : k ≡ length cs = ground (arith, b, l) in
      let m : leb k (length cs) ≡ true = ground (arith, e) in
      rw (advance_cell-none k cs (omega (arith, e)), m, n.0) (ap some (sym e))
]

pub count_spans_none : (k : ℕ) (cs : List Cell) → NoSpans cs → count_spans k cs ≡ 0
unfolding count_spans
count_spans_none k [] n = refl
count_spans_none k (c ∷ cs) n = ground (arith, n.0, count_spans_none k cs n.2)

pub cell_of-NoSpans :
    (k : ℕ) (cs : List Cell)
    → NoSpans cs
    → k < length cs
    → (c : Cell) × (cell_of k cs ≡ some c) × (is_down c.kind ≡ false)
unfolding cell_of
cell_of-NoSpans k [] n l = absurd (omega arith)
cell_of-NoSpans k (c ∷ cs) n l = elim (Bool-cases (length cs == k)) [
  | inl b ↦ (c, rw b refl, n.1)
  | inr b ↦ let (d, e, f) = cell_of-NoSpans k cs n.2 (ground (arith, b)) in (d, rw b e, f)
]

-- A field as the text of a cell
abbrev pub text_dat : ℕ → Bytes → Dat
text_dat k x = record {
  col = k;
  string = some x;
  hspans = 0;
  vspans = 0;
  block = false;
  kind = dat_kind x;
}

-- The cells of a row of data with the fields appended, in one column after the other
abbrev pub fill : List Bytes → List Dat → List Dat
fill [] ds = ds
fill (x ∷ xs) ds = fill xs (text_dat (next_start ds) x ∷ ds)

abbrev pub NoBlocks : List Bytes → Type 0
NoBlocks [] = Unit {0}
NoBlocks (x ∷ xs) = (str_same x (codes "T{") ≡ false) × NoBlocks xs

first_not_above : (tab : ℕ) (v : Bytes) → IsPlain v → str_same (first tab v) above ≡ false
unfolding str_same first
first_not_above tab [] p = refl
first_not_above tab (c ∷ v) p =
    if_both (λ (x : Bytes). str_same x above ≡ false) (c == tab) (λ b. refl) λ b. rw (p.0) refl

module _ (t : Tbl) (r : Row) (spans : List Span) (spaces : bit_and t.opts.opts 64 == 0 ≡ true)
    (flat : NoSpans r.cells) where
  span_dat-field :
      (k n : ℕ) (v w : Bytes) (s : Span) (d : Cell)
      → is_down d.kind ≡ false
      → str_same (take n v) above ≡ false
      → str_same (take n v) (codes "T{") ≡ false
      → span_dat t r.cells k n v w s spans (some d)
        ≡ read
            (record { tbl = t; spans = record s { dats = text_dat k (take n v) ∷ s.dats } ∷ spans })
            (next w)
  unfolding span_dat put_dat cell_text
  span_dat-field k n v w s d q a b = rw (q, a, spaces, b, count_spans_none k r.cells flat) refl

  get_data-first :
      (s : Span) (v : Bytes)
      → row_at s.row t.rows ≡ some r
      → next_start s.dats < length r.cells
      → IsPlain v
      → str_same (first t.opts.tab v) (codes "T{") ≡ false
      → get_data t s spans v
        ≡ read
            (record {
              tbl = t;
              spans =
                  record s { dats = text_dat (next_start s.dats) (first t.opts.tab v) ∷ s.dats }
                  ∷ spans;
            })
            (next (rest t.opts.tab v))
  unfolding get_data data_to data_in place_dat
  get_data-first s v at l p b =
      let (d, e, q) = cell_of-NoSpans (next_start s.dats) r.cells flat l in
      let x = take-first t.opts.tab v in
      rw
        (
          find_end-rest t.opts.tab (suc (length v)) v p (omega arith),
          at,
          advance_cell_self (next_start s.dats) r.cells flat l,
          e,
          ← x,
        )
        (span_dat-field (next_start s.dats) (length v - length (rest t.opts.tab v)) v
          (rest t.opts.tab v) s d q (rw x (first_not_above t.opts.tab v p)) (rw x b))

  -- In a row of the layout without horizontal and vertical spans that has a cell for each field, where
  -- blanks are kept, the loop of `tbl_data` over a line without backslashes and without a field `T{`
  -- gives each field between the tabs a cell of its own, in one column after the other, and
  -- changes nothing else.
  pub read_cells-fields :
      (fuel : ℕ) (s : Span) (v : Bytes)
      → row_at s.row t.rows ≡ some r
      → next_start s.dats + length (fields t.opts.tab v) ≤ length r.cells
      → IsPlain v
      → NoBlocks (fields t.opts.tab v)
      → length v < fuel
      → read_cells fuel (record { tbl = t; spans = s ∷ spans }) v
        ≡ read
            (record {
              tbl = t;
              spans = record s { dats = fill (fields t.opts.tab v) s.dats } ∷ spans;
            })
            []
  unfolding read_cells
  read_cells-fields zero s v at l p b m = absurd (omega arith)
  read_cells-fields (suc fuel) s [] at l p b m = rw (fields_empty t.opts.tab) refl
  read_cells-fields (suc fuel) s (c ∷ v) at l p b m =
      let tab = t.opts.tab in
      let e = fields_lem tab c v in
      let x = text_dat (next_start s.dats) (first tab (c ∷ v)) in
      let nb : NoBlocks (first tab (c ∷ v) ∷ fields tab (next (rest tab (c ∷ v)))) =
        subst NoBlocks e b in
      let len = ap length e in
      rw (get_data-first s (c ∷ v) at (omega (arith, l, len)) p nb.0, e)
        (read_cells-fields fuel (record s { dats = x ∷ s.dats }) (next (rest tab (c ∷ v))) at
          (omega (arith, l, len)) (next-IsPlain (rest tab (c ∷ v)) (rest-IsPlain tab (c ∷ v) p))
          nb.1 (omega (arith, m, length-next (rest tab (c ∷ v)), length-rest tab (c ∷ v))))
