-- ===== src/Table/Reading.antt =====
-- The lines of a table in all its sections, `tbl_read` of tbl.c.
pub mod Sections
mod Tests
use Prim.Native.Nat.{bit_and}
use mandoc_mirror.Prelude.{
  not, ◌||◌, ◌-◌, ◌^◌, ◌==◌, ℕ, suc, Bool, true, false, List, [], ◌∷◌, if◌then◌else◌, Bytes, length,
}
use mandoc_mirror.Roff.Double.{Double}
use mandoc_mirror.Table.Options.{
  Optioned, optioned, option_overread, option_out_of_fuel, tbl_option, semicolon,
}
use mandoc_mirror.Table.Rows.{Part, opts_part, layout_part, data_part, cdata_part, Tbl}
use mandoc_mirror.Table.Layout.{Laid, laid, layout_trapped, layout_out_of_fuel, tbl_layout}
use mandoc_mirror.Table.Data.{
  Span, Full, Read, read, null_read, line_overread, escape_aborts, read_out_of_fuel,
}
use mandoc_mirror.Table.Data.Steps.{tbl_data, tbl_cdata}

-- The outcome of a line: the table behind it, the trap of a width that is an expression, or a fault.
pub data Outcome : Type 0 where
  took : Full → Outcome
  width_trap : Outcome
  fault : Outcome

abbrev pub from_layout : List Span → Laid → Outcome
from_layout ss (laid t) = took (record { tbl = t; spans = ss })
from_layout ss layout_trapped = width_trap
from_layout ss layout_out_of_fuel = fault

abbrev pub from_data : Read → Outcome
from_data (read f w) = took f
from_data null_read = fault
from_data line_overread = fault
from_data escape_aborts = fault
from_data read_out_of_fuel = fault

module _ (d : Double) where
  -- Behind the options, where the line may go on with the layout
  abbrev pub behind_options : Tbl → List Span → Optioned → Outcome
  behind_options t ss (optioned o []) = took (record { tbl = record t { opts = o }; spans = ss })
  behind_options t ss (optioned o (c ∷ w)) =
      from_layout ss (tbl_layout d (record t { opts = o }) (c ∷ w))
  behind_options t ss option_overread = fault
  behind_options t ss option_out_of_fuel = fault

  abbrev pub read_options : Tbl → List Span → Bytes → Outcome
  read_options t ss v =
      let options = behind_options t ss (tbl_option (suc (length v)) t.opts v) in
      if semicolon true v then options else from_layout ss (tbl_layout d t v)

  -- `tbl_read`, in a section, at the line `p` and the place `v` in it.
  unfoldable pub read_section : Part → ℕ → Full → Bytes → Bytes → Outcome
  read_section opts_part line f p v = read_options (record f.tbl { part = layout_part }) f.spans v
  read_section layout_part line f p v = from_layout f.spans (tbl_layout d f.tbl v)
  read_section data_part line f p v = from_data (tbl_data line f p v)
  read_section cdata_part line f p v = from_data (tbl_cdata f v)

  abbrev pub tbl_read : ℕ → Full → Bytes → Bytes → Outcome
  tbl_read line f p v = read_section f.tbl.part line f p v

abbrev pub has_dats : List Span → Bool
has_dats [] = false
has_dats (s ∷ ss) = not (length s.dats == 0) || has_dats ss

-- `tbl_end`: the options, and whether there is data.
abbrev pub tbl_end : Bool → Full → Full × Bool
tbl_end space_allowed f =
    let t = f.tbl in
    let tight = record t {
      opts = record t.opts { opts = bit_and t.opts.opts (2 ^ 32 - 1 - 256) };
    } in
    (if space_allowed then f else record f { tbl = tight }, has_dats f.spans)
