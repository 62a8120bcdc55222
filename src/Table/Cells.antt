-- ===== src/Table/Cells.antt =====
-- The modifiers of a cell in the layout of a table, `mods` of tbl_layout.c, and the types of tbl.h.
-- A place in the line is the rest of the line.
pub mod Places
use mandoc_mirror.Prelude.{
  ℕ, zero, suc, ◌+◌, ◌-◌, ◌*◌, ◌%◌, ◌^◌, Bool, true, false, not, ◌&&◌, ◌||◌, Option, none, some,
  List, [], ◌∷◌, ltb, leb, ◌==◌, if◌then◌else◌, Bytes, codes, peek, next, isdigit, tolower, elem,
  length, drop,
}
use mandoc_mirror.Prelude.Int.{ℤ, pos, negsuc}
use mandoc_mirror.Font.{Esc, error, font_bold, font_italic, font_roman, font_prev, mandoc_font}
use mandoc_mirror.Roff.Double.{Double}
use mandoc_mirror.Roff.Number.{Num, parsed, failed, trapped, out_of_fuel, evalnum}
use mandoc_mirror.Table.Options.{is_blank, skip_blank}
use Prim.Native.Nat.{bit_and, bit_or}

-- `enum tbl_cellt`
pub data Cellt : Type 0 where
  centre right left number span long down horiz dhoriz : Cellt

-- `struct tbl_cell`
pub record Cell : Type 0 where
  pub width : ℕ
  pub spacing : ℕ
  pub vert : ℕ
  pub col : ℕ
  pub flags : ℕ
  pub font : Esc
  pub kind : Cellt

-- The outcome of `mods`: the cell, the options of the table, and the place behind the modifiers.
pub data Modified : Type 0 where
  modified : Cell → ℕ → Bytes → Modified
  mod_trapped : Modified
  mod_out_of_fuel : Modified

-- The outcome of one round of its loop, which goes round again or ends.
pub data Round : Type 0 where
  mod_more : Cell → ℕ → Bytes → Round
  mod_done : Modified → Round

-- `goto mod`
unfoldable pub goto_mod : (Cell → ℕ → Bytes → Modified) → Round → Modified
goto_mod again (mod_more cp o v) = again cp o v
goto_mod again (mod_done m) = m

-- An int as a size_t
abbrev pub to_size : ℤ → ℕ
to_size (pos n) = n
to_size (negsuc n) = 2 ^ 64 - (n + 1)

-- "Row delimiters and cell specifiers end modifier lists", as the NUL does.
abbrev pub is_end : ℕ → Bool
is_end c = c == 0 || elem c (codes ".,-=^_ACLNRSaclnrs")

-- `while (p[*pos] && ')' != p[*pos]) (*pos)++`
unfoldable pub skip_paren : Bytes → Bytes
skip_paren [] = []
skip_paren (c ∷ v) = let more = skip_paren v in if c == b')' then c ∷ v else more

unfoldable pub skip_digits : Bytes → Bytes
skip_digits [] = []
skip_digits (c ∷ v) = let more = skip_digits v in if isdigit c then more else c ∷ v

-- The value of the digits at the beginning, where `n` stands before them: as `strtoul`, up to the
-- largest value.
unfoldable pub digits_value : ℕ → Bytes → ℕ
digits_value n [] = n
digits_value n (c ∷ v) =
    let more = digits_value (n * 10 + (c - 48)) v in if isdigit c then more else n

-- The same in a size_t
unfoldable pub wrapped : ℕ → Bytes → ℕ
wrapped n [] = n
wrapped n (c ∷ v) =
    let more = wrapped (((n * 10) % 2 ^ 64 + (c - 48)) % 2 ^ 64) v in if isdigit c then more else n

-- The letters that set a flag or a font
unfoldable pub plain_mod : ℕ → Cell → Cell
plain_mod c cp =
    if c == b'b'
    then record cp { font = font_bold }
    else if c == b'd'
    then record cp { flags = bit_or cp.flags 16 }
    else if c == b'e'
    then record cp { flags = bit_or cp.flags 64 }
    else if c == b'i'
    then record cp { font = font_italic }
    else if c == b't'
    then record cp { flags = bit_or cp.flags 4 }
    else if c == b'u'
    then record cp { flags = bit_or cp.flags 8 }
    else if c == b'x'
    then record cp { flags = bit_or cp.flags 128 }
    else if c == b'z'
    then record cp { flags = bit_or cp.flags 32 }
    else cp

-- "Vertical lines in the first layout row trigger vertical spacing before the table": where neither
-- TBL_OPT_DBOX nor TBL_OPT_BOX is set, TBL_OPT_VSPACE is.
abbrev pub set_vspace : ℕ → ℕ
set_vspace o = if bit_and o 10 == 0 then bit_or o 256 else o

-- The number of bytes of a font name
abbrev pub font_size : Bytes → ℕ
font_size [] = 0
font_size (c ∷ []) = 1
font_size (c ∷ d ∷ v) = if elem d (codes " \t.") then 1 else 2

unfoldable pub is_font : Esc → Bool
is_font font_prev = false
is_font error = false
is_font _ = true

abbrev pub set_font : Esc → Cell → Cell
set_font esc cp = if is_font esc then record cp { font = esc } else cp

-- The modifier `f`, behind the letter and the blanks.
unfoldable pub mod_font : Cell → ℕ → Bytes → Round
mod_font cp o v =
    if peek v == b'('
    then mod_more cp o v
    else mod_more (set_font (mandoc_font v (font_size v)) cp) o (drop (font_size v) v)

-- The modifier `w` with an expression in parentheses, where `num` is its evaluation.
unfoldable pub mod_width : Cell → ℕ → Num → Round
mod_width cp o (parsed n w) =
    if peek w == b')'
    then mod_more (record cp { width = to_size n }) o (next w)
    else mod_more cp o w
mod_width cp o (failed w) = mod_more cp o w
mod_width cp o trapped = mod_done mod_trapped
mod_width cp o out_of_fuel = mod_done mod_out_of_fuel

-- The modifier `|`; `single` says that the table has one row.
unfoldable pub mod_bar : Bool → Cell → ℕ → Bytes → Round
mod_bar single cp o v =
    if ltb cp.vert 2
    then mod_more (record cp { vert = cp.vert + 1 }) (if single then set_vspace o else o) v
    else mod_more cp o v

module _ (d : Double) where
  -- The switch over the letter, and what stands behind it.
  unfoldable pub mod_letter : Bool → Cell → ℕ → ℕ → Bytes → Round
  unfolding mod_font mod_width mod_bar plain_mod wrapped skip_digits
  mod_letter single cp o c v =
      if c == b'f'
      then mod_font cp o (skip_blank v)
      else if c == b'p' || c == b'v'
      then mod_more cp o (skip_digits (if peek v == b'-' || peek v == b'+' then next v else v))
      else if c == b'w'
      then if peek v == b'('
        then mod_width cp o (evalnum d (length v) true b'n' true (next v))
        else mod_more (record cp { width = (wrapped 0 v * 24) % 2 ^ 64 }) o (skip_digits v)
      else if c == b'|'
      then mod_bar single cp o v
      else mod_more (plain_mod c cp) o v

  -- One round of the loop, behind the blanks.
  unfoldable pub mod_at : Bool → Cell → ℕ → Bytes → Round
  unfolding mod_letter skip_paren digits_value skip_digits
  mod_at single cp o v =
      if is_end (peek v)
      then mod_done (modified cp o v)
      else if peek v == b'('
      then if peek (skip_paren v) == b')'
        then mod_more cp o (next (skip_paren v))
        else mod_done (modified cp o (skip_paren v))
      else if isdigit (peek v)
      then mod_more
          (if ltb 9 (digits_value 0 v) then cp else record cp { spacing = digits_value 0 v }) o
          (skip_digits v)
      else mod_letter single cp o (tolower (peek v)) (next v)

  -- `mods`
  unfoldable pub mods : ℕ → Bool → Cell → ℕ → Bytes → Modified
  unfolding mod_at goto_mod
  mods zero single cp o v = mod_out_of_fuel
  mods (suc fuel) single cp o v =
      goto_mod (λ p q w. mods fuel single p q w) (mod_at single cp o (skip_blank v))
