-- ===== src/Escape/Scan.antt =====
-- The loop of `roff_escape` of roff_escape.c over an argument.
use mandoc_mirror.Prelude.{
  ℕ, zero, suc, ◌+◌, ◌-◌, Bool, false, not, ◌&&◌, ◌||◌, Option, none, some, ltb, ◌==◌,
  if◌then◌else◌, Bytes, codes, elem, isdigit, length,
}
use mandoc_mirror.Font.{error}
use mandoc_mirror.Escape.Syntax.{
  at, Located, Escape, Pos, is_expand, is_undef, is_overstrike, escaped, overread, out_of_fuel,
}

-- "Advance to the end of the argument.": `valid_A` and the variables, or a sequence that is to be
-- expanded first.
pub data Scanned : Type 0 where
  scanned : Bool → Pos → Scanned
  nested : Located → Scanned
  scan_overread : Scanned
  scan_out_of_fuel : Scanned

abbrev pub is_zero_limit : Option ℕ → Bool
is_zero_limit none = false
is_zero_limit (some n) = n == 0

abbrev pub lower_limit : Option ℕ → Option ℕ
lower_limit none = none
lower_limit (some n) = some (n - 1)

-- The argument is not complete at the end of the line.
unfoldable pub incomplete : ℕ → Pos → Pos
incomplete nam p = record p {
  rval = if is_expand p.rval || is_overstrike p.rval then p.rval else error;
  iendarg = if elem nam (codes "Aow") then p.iendarg else p.iarg;
}

-- One round of the loop, where `sub` is `roff_escape` and `again` is the loop. `esc` is `buf[iesc]`.
unfoldable pub scan_nested :
    Bytes → ℕ → Bool → (Bool → Pos → Scanned) → Bool → Pos → Escape → Scanned
scan_nested buf nam escterm again valid p overread = scan_overread
scan_nested buf nam escterm again valid p out_of_fuel = scan_out_of_fuel
scan_nested buf nam escterm again valid p (escaped f) =
    if is_expand f.rval
    then nested f
    else if escterm && (at buf f.inam == p.term || nam == b'N')
    then scanned valid (record p { iend = f.iend })
    else again (valid && is_undef f.rval) (record p { iend = f.iend; iendarg = f.iend })

unfoldable pub scan_byte : ℕ → ℕ → (Bool → Pos → Scanned) → Bool → Pos → Scanned
scan_byte nam c again valid p =
    if nam == b'N' && not (isdigit c)
    then scanned valid (record p { iend = p.iendarg + 1 })
    else again (valid && not (c == b' ' || c == 9))
        (record p { limit = lower_limit p.limit; iend = p.iendarg + 1; iendarg = p.iendarg + 1 })

unfoldable pub scan_round :
    Bytes → ℕ → ℕ → Bool → (ℕ → Escape) → (Bool → Pos → Scanned) → Bool → Pos → Scanned
unfolding incomplete scan_nested scan_byte
scan_round buf esc nam escterm sub again valid p =
    if is_zero_limit p.limit
    then scanned valid p
    else if ltb (length buf) p.iendarg
    then scan_overread
    else if at buf p.iendarg == 0
    then scanned valid (incomplete nam p)
    else if not escterm && at buf p.iendarg == p.term
    then scanned valid (record p { iend = p.iendarg + 1 })
    else if at buf p.iendarg == esc
    then scan_nested buf nam escterm again valid p (sub p.iendarg)
    else scan_byte nam (at buf p.iendarg) again valid p

unfoldable pub scan_argument : ℕ → Bytes → ℕ → ℕ → Bool → (ℕ → Escape) → Bool → Pos → Scanned
unfolding scan_round
scan_argument zero buf esc nam escterm sub valid p = scan_out_of_fuel
scan_argument (suc fuel) buf esc nam escterm sub valid p =
    scan_round buf esc nam escterm sub (λ v q. scan_argument fuel buf esc nam escterm sub v q) valid
      p
