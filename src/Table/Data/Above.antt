-- ===== src/Table/Data/Above.antt =====
-- The search of the rows above for a vertical span, in `getdata` of tbl_data.c.
use mandoc_mirror.Prelude.{
  ℕ, ◌<◌, ◌≡◌, ◌⊎◌, inl, inr, refl, Bool, true, false, Option, none, some, List, [], ◌∷◌, arith,
  leb, ◌==◌, if_both, length, Bytes, str_same,
}
use mathlib.Core.Path.{subst}
use mandoc_mirror.Table.Cells.{Cellt}
use mandoc_mirror.Table.Rows.{Row}
use mandoc_mirror.Table.Rows.Invariant.{Every, Filled}
use mandoc_mirror.Table.Data.{
  Dat, Span, kind_at, dat_from, bump, above, is_down, extend_above, keep_span, or_this, extend_at,
  at_above, compare_above,
}
use mandoc_mirror.Table.Data.Sound.{
  width, Cols, has_text, Texts, IsIn, AllIn, AllTexts, row_at-Found, cell_of-some,
}

or_this_lem :
    (o : Option Dat) (b : Bool) (e d : Dat)
    → or_this o b e ≡ some d
    → (o ≡ some d) ⊎ (some e ≡ some d)
or_this_lem (some x) b e d h = inl h
or_this_lem none true e d h = inr h
or_this_lem none false e d h = cc

dat_from_lem :
    (k n : ℕ) (ds : List Dat) (d : Dat)
    → Cols n ds
    → Texts ds
    → dat_from k ds ≡ some d
    → (d.col < n) × (has_text d.string ≡ true)
unfolding dat_from
dat_from_lem k n [] d c t h = cc
dat_from_lem k n (e ∷ ds) d c t h = elim (or_this_lem (dat_from k ds) (leb k e.col) e d h) [
  | inl i ↦ dat_from_lem k n ds d c.1 t.1 i
  | inr i ↦
      let l : e ≡ d = cc in
      subst (λ (x : Dat). (x.col < n) × (has_text x.string ≡ true)) l (c.0, t.0)
]

bump-Cols : (k n : ℕ) (ds : List Dat) → Cols n ds → Cols n (bump k ds)
unfolding bump
bump-Cols k n [] c = tt
bump-Cols k n (d ∷ ds) c =
    if_both (Cols n) (d.col == k) (λ b. (c.0, c.1)) λ b. (c.0, bump-Cols k n ds c.1)

bump-Texts : (k : ℕ) (ds : List Dat) → Texts ds → Texts (bump k ds)
unfolding bump
bump-Texts k [] c = tt
bump-Texts k (d ∷ ds) c =
    if_both Texts (d.col == k) (λ b. (c.0, c.1)) λ b. (c.0, bump-Texts k ds c.1)

kind_at-some :
    (cols i k : ℕ) (rows : List Row)
    → Every cols rows
    → Filled rows
    → i < length rows
    → k < width i rows
    → (t : Cellt) × (kind_at rows i k ≡ some t)
kind_at-some cols i k rows e f l m =
    let (r, h) = row_at-Found cols i rows e f l in
    let (c, j) = cell_of-some k r.cells (omega (arith, h.cells)) in (c.kind, rw (h.at, j) refl)

-- The rows above after a vertical span
pub data Extends (rows : List Row) : Option (List Span) → Type 0 where
  extends : (ss : List Span) → AllIn rows ss → AllTexts ss → Extends rows (some ss)

keep_span-Extends :
    (rows : List Row) (s : Span) (o : Option (List Span))
    → IsIn rows s
    → Texts s.dats
    → Extends rows o
    → Extends rows (keep_span s o)
keep_span-Extends rows s _ i t (extends ss a b) = extends (s ∷ ss) (i, a) (t, b)

compare_above-Extends :
    (rows : List Row) (string : Option Bytes) (here more : Option (List Span))
    → has_text string ≡ true
    → Extends rows here
    → Extends rows more
    → Extends rows (compare_above string here more)
compare_above-Extends rows none here more t h m = cc
compare_above-Extends rows (some x) here more t h m =
    if_both (Extends rows) (str_same x above) (λ b. m) λ b. h

at_above-Extends :
    (rows : List Row) (o : Option Cellt) (kind : Cellt) (string : Option Bytes)
    (here more : Option (List Span))
    → o ≡ some kind
    → has_text string ≡ true
    → Extends rows here
    → Extends rows more
    → Extends rows (at_above o string here more)
at_above-Extends rows none kind string here more e t h m = cc
at_above-Extends rows (some x) kind string here more e t h m =
    if_both (Extends rows) (is_down x) (λ b. m)
      λ b. compare_above-Extends rows string here more t h m

extend_at-Extends :
    (cols : ℕ) (rows : List Row) (s : Span) (ss : List Span) (more : Option (List Span)) (k : ℕ)
    (o : Option Dat)
    → dat_from k s.dats ≡ o
    → Every cols rows
    → Filled rows
    → AllIn rows (s ∷ ss)
    → AllTexts (s ∷ ss)
    → Extends rows more
    → Extends rows (extend_at rows s ss more o)
extend_at-Extends cols rows s ss more k none q e f a t m = extends (s ∷ ss) a t
extend_at-Extends cols rows s ss more k (some d) q e f a t m =
    let (c, i) = dat_from_lem k (width s.row rows) s.dats d a.0.1 t.0 q in
    let (kind, j) = kind_at-some cols s.row d.col rows e f a.0.0 c in
    let here : Span = record s { dats = bump d.col s.dats } in
    at_above-Extends rows (kind_at rows s.row d.col) kind d.string (some (here ∷ ss)) more j i
      (extends (here ∷ ss) ((a.0.0, bump-Cols d.col (width s.row rows) s.dats a.0.1), a.1)
        (bump-Texts d.col s.dats t.0, t.1))
      m

-- Where all rows of data above fit the layout and all their cells have strings, the search for the cell
-- to extend reads no NULL, and the rows still fit and have strings.
pub extend_above-Extends :
    (cols k : ℕ) (rows : List Row) (ss : List Span)
    → Every cols rows
    → Filled rows
    → AllIn rows ss
    → AllTexts ss
    → Extends rows (extend_above rows k ss)
unfolding extend_above
extend_above-Extends cols k rows [] e f a t = extends [] tt tt
extend_above-Extends cols k rows (s ∷ ss) e f a t =
    extend_at-Extends cols rows s ss (keep_span s (extend_above rows k ss)) k (dat_from k s.dats)
      refl e f a t
      (keep_span-Extends rows s (extend_above rows k ss) a.0 t.0
        (extend_above-Extends cols k rows ss e f a.1 t.1))
