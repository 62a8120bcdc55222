-- ===== src/Escape/Syntax.antt =====
-- The names of escape sequences and the syntax that they call for: the first switch of `roff_escape`
-- of roff_escape.c. The line is the list of its bytes before the NUL, and places in it are indices,
-- as in the code. The diagnostics, which the formatters do not ask for, are left out.
use mandoc_mirror.Prelude.{
  ℕ, ◌+◌, ◌-◌, Bool, true, false, ◌&&◌, ◌||◌, Option, none, some, leb, ◌==◌, if◌then◌else◌, Bytes,
  codes, elem, isdigit, get_or,
}
use mandoc_mirror.Font.{
  Esc, expand, unsupp, ignore, undef, special, font, numbered, line_break, nospace, horiz, hline,
  skipchar, overstrike,
}

-- `buf[i]`, where `i` is not behind the NUL
abbrev pub at : Bytes → ℕ → ℕ
at buf i = get_or buf i 0

-- `strchr(set, c) != NULL`, which the NUL ends too
abbrev pub in_set : ℕ → Bytes → Bool
in_set c set = c == 0 || elem c set

-- What is found: the kind and the places `*resc`, `*rnam`, `*rarg`, `*rendarg` and `*rend`.
pub record Located : Type 0 where
  pub rval : Esc
  pub iesc : ℕ
  pub inam : ℕ
  pub iarg : ℕ
  pub iendarg : ℕ
  pub iend : ℕ

-- The outcome, where a read behind the NUL is one of its own.
pub data Escape : Type 0 where
  escaped : Located → Escape
  overread : Escape
  out_of_fuel : Escape

-- The syntax that a name calls for.
pub data Form : Type 0 where
  -- the name is the argument
  itself : Esc → Form
  no_argument : Esc → Form
  standard : Esc → Form
  -- `\(` and `\[`, where the name begins the argument
  glyph : Form
  quoted : Esc → Form
  size : Form

-- The first switch, at a name that is not the NUL.
unfoldable pub form : ℕ → Form
form c =
    if elem c (codes "!?r")
    then no_argument unsupp
    else if elem c (codes "%&),/^adtu{|}")
    then no_argument ignore
    else if elem c (codes " '-0:_`e~")
    then itself special
    else if c == b'p'
    then no_argument line_break
    else if c == b'c'
    then no_argument nospace
    else if c == b'z'
    then no_argument skipchar
    else if elem c (codes "$*Vgn")
    then standard expand
    else if elem c (codes "FMOYkm")
    then standard ignore
    else if elem c (codes "([")
    then glyph
    else if c == b'f'
    then standard font
    else if elem c (codes "ABw")
    then quoted expand
    else if elem c (codes "DHLRSXZbvx")
    then quoted ignore
    else if c == b'C'
    then quoted special
    else if c == b'N'
    then quoted numbered
    else if c == b'h'
    then quoted horiz
    else if c == b'l'
    then quoted hline
    else if c == b'o'
    then quoted overstrike
    else if c == b's'
    then size
    else itself undef

-- The variables of the parser, where `limit` is `maxl`, and `none` is INT_MAX.
pub record Pos : Type 0 where
  pub rval : Esc
  pub iarg : ℕ
  pub iendarg : ℕ
  pub iend : ℕ
  pub limit : Option ℕ
  pub term : ℕ

-- The value of `term` that stands for a delimiter which is not known yet: '\b'.
abbrev pub any_term : ℕ
any_term = 8

abbrev pub is_none_limit : Option ℕ → Bool
is_none_limit none = true
is_none_limit (some n) = false

abbrev pub is_expand : Esc → Bool
is_expand expand = true
is_expand _ = false

abbrev pub is_undef : Esc → Bool
is_undef undef = true
is_undef _ = false

abbrev pub is_overstrike : Esc → Bool
is_overstrike overstrike = true
is_overstrike _ = false

-- Behind the case 's', with the argument beginning at `iarg`.
abbrev pub sized : ℕ → Option ℕ → ℕ → Pos
sized iarg limit term = record {
  rval = ignore;
  iarg = iarg;
  iendarg = iarg;
  iend = iarg;
  limit = limit;
  term = term;
}

-- The switch of the case 's', at `i`.
unfoldable pub size_at : Bytes → ℕ → Pos
size_at buf i =
    if at buf i == b'('
    then sized (i + 1) (some 2) 0
    else if at buf i == b'['
    then sized (i + 1) none b']'
    else if at buf i == b'\''
    then sized (i + 1) none b'\''
    else if leb b'1' (at buf i)
        && leb (at buf i) b'3'
        && (at buf (i - 1) == b's' && isdigit (at buf (i + 1)))
    then sized i (some 2) 0
    else sized i (some 1) 0

-- ASCII_HYPH
abbrev pub ascii_hyph : ℕ
ascii_hyph = 28

unfoldable pub size_pos : Bytes → ℕ → Pos
unfolding size_at
size_pos buf inam =
    let c = at buf (inam + 1) in
    size_at buf (if c == b'+' || c == b'-' || c == ascii_hyph then inam + 2 else inam + 1)

abbrev pub at_place : Esc → ℕ → ℕ → Pos
at_place rval i term = record {
  rval = rval;
  iarg = i;
  iendarg = i;
  iend = i;
  limit = none;
  term = term;
}
