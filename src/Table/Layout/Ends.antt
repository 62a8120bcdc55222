-- ===== src/Table/Layout/Ends.antt =====
-- The loop of `tbl_layout` of tbl_layout.c: the outcomes of a line.
use mandoc_mirror.Prelude.{
  ℕ, zero, suc, ◌<◌, ◌≡◌, refl, Bool, true, false, Option, none, some, List, [], ◌∷◌, arith, ◌==◌,
  if_both, Bytes, peek, length, length-Suffix,
}
use mandoc_mirror.Roff.Double.{Double}
use mandoc_mirror.Table.Options.{Opts, is_blank, skip_blank}
use mandoc_mirror.Table.Cells.{Cellt, Modified}
use mandoc_mirror.Table.Cells.Places.{Fits, skip_blank-Suffix, mods-Fits}
use mandoc_mirror.Table.Layout.{
  Turn, lay_more, lay_done, go_round, Laid, laid, layout_trapped, lead, seek_key, spanner, open_row,
  place_cell, is_single, cell_here, cell_at, layout_at, layout_loop, tbl_layout,
}
use mandoc_mirror.Table.Rows.{Row, Part, data_part, Tbl, cell_alloc, no_cells, finish}
use mandoc_mirror.Table.Rows.Invariant.{
  IsRow, Every, Filled, FilledBefore, IsBounded, IsTable, IsComplete, Every-more,
  cell_alloc-Allocates, append_cell-IsRow, fresh-IsRow, length-no_cells,
}
use mandoc_mirror.Table.Rows.Close.{finish-IsComplete}
use mandoc_mirror.Table.Layout.Moves.{skip_blank-peek, lead_lem, cell_moves}

-- The line is over in the same section, or at a full stop, or an expression for a width traps.
pub data Reads (p : Part) : Laid → Type 0 where
  unfinished : (t : Tbl) → t.part ≡ p → IsTable t → Reads p (laid t)
  finished : (t : Tbl) → t.part ≡ data_part → IsComplete t → Reads p (laid t)
  traps : Reads p layout_trapped

-- A round of the loop ends in this way, or goes on at a line shorter than n.
data Goes (n : ℕ) (p : Part) : Turn → Type 0 where
  goes :
      (g : Bool) (t : Tbl) (w : Bytes)
      → t.part ≡ p
      → IsTable t
      → length w < n
      → Goes n p (lay_more g t w)
  stops : (l : Laid) → Reads p l → Goes n p (lay_done l)

-- The state in which a cell is read: the row `r`, which it goes to, and those before it.
record IsOpen (t : Opts) (r : Row) (rs : List Row) : Type 0 where
  pub bounded : IsBounded t
  pub row : IsRow t.cols r
  pub every : Every t.cols rs
  pub filled : Filled rs

choose_lem :
    (fresh : Bool) (t : Opts) (rows : List Row)
    → IsBounded t
    → Every t.cols rows
    → FilledBefore rows
    → IsOpen t (open_row fresh rows).0 (open_row fresh rows).1
unfolding open_row
choose_lem fresh t [] b h f = record {
  bounded = b;
  row = fresh-IsRow t.cols;
  every = tt;
  filled = tt;
}
choose_lem false t (r ∷ rs) b h f = record { bounded = b; row = h.0; every = h.1; filled = f }
choose_lem true t (r ∷ rs) b h f =
    if_both (λ (p : Row × List Row). IsOpen t p.0 p.1) (no_cells r.cells)
      (λ e. record { bounded = b; row = h.0; every = h.1; filled = f })
      λ e. record {
        bounded = b;
        row = fresh-IsRow t.cols;
        every = h;
        filled = (length-no_cells r.cells e, f);
      }

open_row-IsOpen :
    (fresh : Bool) (t : Tbl)
    → IsTable t
    → IsOpen t.opts (open_row fresh t.rows).0 (open_row fresh t.rows).1
open_row-IsOpen fresh t h = choose_lem fresh t.opts t.rows h.bounded h.every h.filled

place_cell-Goes :
    (n : ℕ) (t : Tbl) (r : Row) (rs : List Row) (v : Bytes) (m : Modified)
    → IsOpen t.opts r rs
    → length r.cells < t.opts.cols
    → length v < n
    → Fits (length r.cells) v m
    → Goes n t.part (place_cell t r rs m)
unfolding place_cell
place_cell-Goes n t r rs v _ h l k (Fits.fits cp o w i s) =
    goes false _ w refl
      (record {
        bounded = record { lvert = h.bounded.lvert; rvert = h.bounded.rvert };
        every = (append_cell-IsRow r cp h.row i l, h.every);
        filled = h.filled;
      })
      (omega (arith, length-Suffix s))
place_cell-Goes n t r rs v _ h l k Fits.traps = stops _ traps

module _ (d : Double) where
  cell_here-Goes :
      (n : ℕ) (t : Tbl) (r : Row) (rs : List Row) (kv : Option Cellt × Bytes)
      → IsOpen t.opts r rs
      → length kv.1 < n
      → Goes n t.part (cell_here d t r rs kv)
  unfolding cell_here
  cell_here-Goes n t r rs (none, v) h l =
      goes false _ v refl
        (record { bounded = h.bounded; every = (h.row, h.every); filled = h.filled }) l
  cell_here-Goes n t r rs (some k, v) h l =
      let ut = cell_alloc t.opts r (spanner k r.cells) in
      let a = cell_alloc-Allocates t.opts r (spanner k r.cells) h.row h.bounded in
      place_cell-Goes n (record t { opts = ut.0 }) r rs v _
        (record {
          bounded = a.bounded;
          row = record {
            numbered = h.row.numbered;
            fit = omega (arith, h.row.fit, a.cols);
            vert = h.row.vert;
          };
          every = Every-more rs a.cols h.every;
          filled = h.filled;
        })
        a.fit l
        (mods-Fits d (length r.cells) (suc (length v)) (is_single rs) ut.1 ut.0.opts v a.cell
          (omega arith))

  cell_at-Goes :
      (t : Tbl) (r : Row) (rs : List Row) (c : ℕ) (v : Bytes)
      → IsOpen t.opts r rs
      → is_blank c ≡ false
      → (c == b'.') ≡ false
      → Goes (length (c ∷ v)) t.part (cell_at d t r rs (c ∷ v))
  unfolding cell_at
  cell_at-Goes t r rs c v h e f =
      let (o, n, w) = lead t.opts.opts r.vert (c ∷ v) in
      let (l, k) = lead_lem t.opts.opts r.vert (c ∷ v) h.row.vert in
      cell_here-Goes (length (c ∷ v)) (record t { opts = record t.opts { opts = o } })
        (record r { vert = n }) rs (seek_key w)
        (record {
          bounded = record { lvert = h.bounded.lvert; rvert = h.bounded.rvert };
          row = record { numbered = h.row.numbered; fit = h.row.fit; vert = l };
          every = h.every;
          filled = h.filled;
        })
        (cell_moves t.opts.opts r.vert c v h.row.vert e f)

  layout_at-Goes :
      (fresh : Bool) (t : Tbl) (v : Bytes)
      → IsTable t
      → is_blank (peek v) ≡ false
      → Goes (length v) t.part (layout_at d fresh t v)
  unfolding layout_at
  layout_at-Goes fresh t [] h e = stops _ (unfinished t refl h)
  layout_at-Goes fresh t (c ∷ v) h e =
      if_both (Goes (length (c ∷ v)) t.part) (c == b',') (λ k. goes true t v refl h (omega arith))
        λ k.
          if_both (Goes (length (c ∷ v)) t.part) (c == b'.')
            (λ f. let (i, p) = finish-IsComplete t h in stops _ (finished (finish t) p i))
            λ f.
              cell_at-Goes t (open_row fresh t.rows).0 (open_row fresh t.rows).1 c v
                (open_row-IsOpen fresh t h) e f

  go_round-Reads :
      (n : ℕ) (p : Part) (r : Turn) (again : Bool → Tbl → Bytes → Laid)
      → Goes n p r
      → ((g : Bool) (t : Tbl) (w : Bytes)
          → t.part ≡ p
          → IsTable t
          → length w < n
          → Reads p (again g t w))
      → Reads p (go_round again r)
  unfolding go_round
  go_round-Reads n p _ again (goes g t w e h l) go = go g t w e h l
  go_round-Reads n p _ again (stops l h) go = h

  layout_loop-Reads :
      (p : Part) (fuel : ℕ) (fresh : Bool) (t : Tbl) (v : Bytes)
      → t.part ≡ p
      → IsTable t
      → length v < fuel
      → Reads p (layout_loop d fuel fresh t v)
  unfolding layout_loop
  layout_loop-Reads p zero fresh t v q h l = absurd (omega arith)
  layout_loop-Reads p (suc fuel) fresh t v q h l = rw (← q) (
      go_round-Reads (length (skip_blank v)) t.part _ (λ g u w. layout_loop d fuel g u w)
        (layout_at-Goes fresh t (skip_blank v) h (skip_blank-peek v))
        λ g u w k i j.
          layout_loop-Reads t.part fuel g u w k i
            (omega (arith, length-Suffix (skip_blank-Suffix v))))

  -- From a table in which the columns of each row count from 0 and are below the number of columns, the
  -- vertical lines are at most two wide and all rows but the last have cells, `tbl_layout` comes to
  -- an end, unless the expression for a width traps: it leaves the section as it was and the table
  -- as described, or at the full stop begins the section of data with at least one row, and with
  -- cells in every row.
  pub tbl_layout-Reads : (t : Tbl) (v : Bytes) → IsTable t → Reads t.part (tbl_layout d t v)
  tbl_layout-Reads t v h = layout_loop-Reads t.part (suc (length v)) true t v refl h (omega arith)
