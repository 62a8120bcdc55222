-- ===== src/Escape/Parse.antt =====
-- `roff_escape` of roff_escape.c, from its parts.
use mandoc_mirror.Prelude.{
  ℕ, zero, suc, ◌+◌, Bool, true, false, none, some, [], ◌∷◌, ◌==◌, if◌then◌else◌, Bytes, length,
  drop,
}
use mandoc_mirror.Font.{undef, special}
use mandoc_mirror.Escape.Syntax.{
  at, Located, Escape, Form, form, Pos, any_term, is_expand, size_pos, at_place, escaped, overread,
  out_of_fuel, itself, no_argument, standard, glyph, quoted, size,
}
use mandoc_mirror.Escape.Delimit.{is_missing, is_nested, Delimited, delimit, ended, opened}
use mandoc_mirror.Escape.Scan.{
  Scanned, scan_argument, scanned, nested, scan_overread, scan_out_of_fuel,
}
use mandoc_mirror.Escape.Check.{check_name, check_value}

-- What the parser leaves at `out`.
abbrev pub found : ℕ → ℕ → Pos → Located
found iesc inam p = record {
  rval = p.rval;
  iesc = iesc;
  inam = inam;
  iarg = p.iarg;
  iendarg = p.iendarg;
  iend = p.iend;
}

unfoldable pub conclude : Bool → Bytes → ℕ → ℕ → Scanned → Escape
unfolding check_name check_value
conclude null buf iesc inam (scanned valid p) =
    let q = check_name null buf (at buf inam) valid p in
    escaped (found iesc inam (check_value buf q q.rval))
conclude null buf iesc inam (nested f) = escaped f
conclude null buf iesc inam scan_overread = overread
conclude null buf iesc inam scan_out_of_fuel = out_of_fuel

unfoldable pub argue : Bool → (ℕ → Escape) → Bytes → ℕ → ℕ → Delimited → Escape
unfolding conclude scan_argument
argue null sub buf iesc inam (ended p) = escaped (found iesc inam p)
argue null sub buf iesc inam (opened escterm p) = conclude null buf iesc inam (
    scan_argument (length buf + 2) buf (at buf iesc) (at buf inam) escterm sub true
      (record p { iendarg = p.iarg }))

-- Behind the escape sequence at the beginning of the argument.
unfoldable pub after_nested : Bool → (ℕ → Escape) → Bytes → ℕ → ℕ → Pos → Escape → Escape
unfolding argue delimit
after_nested null sub buf iesc inam p overread = overread
after_nested null sub buf iesc inam p out_of_fuel = out_of_fuel
after_nested null sub buf iesc inam p (escaped f) =
    if is_expand f.rval
    then escaped f
    else argue null sub buf iesc inam (delimit buf (at buf inam) p (some f))

-- A name that takes an argument, from "Mandatory argument is missing." on.
unfoldable pub argument : Bool → (ℕ → Escape) → Bytes → ℕ → ℕ → Pos → Escape
unfolding is_missing is_nested after_nested
argument null sub buf iesc inam p =
    if is_missing buf p
    then escaped (found iesc inam p)
    else if is_nested buf iesc p
    then after_nested null sub buf iesc inam p (sub p.iendarg)
    else argue null sub buf iesc inam (delimit buf (at buf inam) p none)

-- By the syntax of the name.
unfoldable pub dispatch : Bool → (ℕ → Escape) → Bytes → ℕ → ℕ → Form → Escape
unfolding argument size_pos
dispatch null sub buf iesc inam (itself r) = escaped (record {
  rval = r;
  iesc = iesc;
  inam = inam;
  iarg = inam;
  iendarg = inam + 1;
  iend = inam + 1;
})
dispatch null sub buf iesc inam (no_argument r) =
    escaped (found iesc inam (at_place r (inam + 1) 0))
dispatch null sub buf iesc inam (standard r) =
    argument null sub buf iesc inam (at_place r (inam + 1) 0)
dispatch null sub buf iesc inam glyph = argument null sub buf iesc inam (at_place special inam 0)
dispatch null sub buf iesc inam (quoted r) =
    argument null sub buf iesc inam (at_place r (inam + 1) any_term)
dispatch null sub buf iesc inam size = argument null sub buf iesc inam (size_pos buf inam)

-- `while (buf[inam] == 'E')`: the bytes are those from `i` on.
unfoldable pub name_at : Bytes → ℕ → ℕ
name_at [] i = i
name_at (c ∷ cs) i = let more = name_at cs (i + 1) in if c == b'E' then more else i

unfoldable pub escape_at : Bool → (ℕ → Escape) → Bytes → ℕ → ℕ → Escape
unfolding dispatch form
escape_at null sub buf iesc inam =
    if at buf inam == 0
    then escaped (found iesc inam (at_place undef inam 0))
    else dispatch null sub buf iesc inam (form (at buf inam))

-- `roff_escape` at `aesc`; `null` says that `resc` is NULL, which it is not in the nested calls.
unfoldable pub escape : ℕ → Bool → Bytes → ℕ → Escape
unfolding escape_at name_at
escape zero null buf aesc = out_of_fuel
escape (suc fuel) null buf aesc =
    escape_at null (λ i. escape fuel false buf i) buf aesc
      (name_at (drop (aesc + 1) buf) (aesc + 1))
