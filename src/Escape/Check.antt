-- ===== src/Escape/Check.antt =====
-- The checks of `roff_escape` of roff_escape.c that depend on the content of an argument.
use mandoc_mirror.Prelude.{
  ℕ, ◌+◌, ◌-◌, ◌*◌, Bool, not, ◌&&◌, ◌||◌, [], ◌∷◌, ltb, leb, ◌==◌, if◌then◌else◌, Bytes, codes,
  elem, toupper, take, drop, str_same,
}
use mandoc_mirror.Font.{
  Esc, error, unsupp, ignore, special, font, numbered, unicode, device, mandoc_font,
}
use mandoc_mirror.Escape.Syntax.{at, in_set, Pos}

-- The switch over the name behind the loop; `null` says that `resc` is NULL.
unfoldable pub check_device : Bool → Bytes → Pos → Pos
check_device null buf p =
    if null && (p.iendarg - p.iarg == 2 && (at buf p.iarg == b'.' && at buf (p.iarg + 1) == b'T'))
    then record p { rval = device }
    else p

unfoldable pub check_overlay : Bytes → Pos → Pos
check_overlay buf p =
    let c = at buf p.iarg in
    record p {
      rval =
          if c == b'0'
          then unsupp
          else if leb b'1' c && leb c b'4'
          then (if p.iendarg - p.iarg == 1 then ignore else error)
          else if c == b'5'
          then (if at buf (p.iarg - 1) == b'[' then unsupp else error)
          else error;
    }

unfoldable pub check_name : Bool → Bytes → ℕ → Bool → Pos → Pos
unfolding check_device check_overlay
check_name null buf nam valid p =
    if nam == b'*'
    then check_device null buf p
    else if nam == b'A'
    then record p { iendarg = if valid then p.iendarg else p.iarg }
    else if nam == b'O'
    then check_overlay buf p
    else p

-- `strspn`
unfoldable pub strspn : Bytes → Bytes → ℕ
strspn [] set = 0
strspn (c ∷ s) set = let more = strspn s set in if elem c set then more + 1 else 0

-- The loop that is to read the number of `\[charNN]`, over the bytes of the argument.
unfoldable pub char_number : ℕ → Bytes → ℕ
char_number c [] = c
char_number c (b ∷ s) = char_number (10 * c + (b - b'0')) s

-- "Treat \[char...] as an alias for \N'...'."
unfoldable pub check_char : Bytes → Pos → Pos
unfolding strspn char_number
check_char buf p =
    let argl = p.iendarg - p.iarg in
    let arg = drop p.iarg buf in
    let c = char_number 0 (take argl arg) in
    if ltb argl 6
      || ltb 7 argl
      || not (str_same (take 4 arg) (codes "char"))
      || ltb (strspn (drop 4 arg) (codes "0123456789") + 4) argl
    then p
    else if ltb c 0x21 || (ltb 0x7e c && ltb c 0xa0) || ltb 0xff c
    then p
    else record p { iarg = p.iarg + 4; rval = numbered }

-- "the contained value must be a valid Unicode codepoint."
unfoldable pub unicode_kind : Bytes → Pos → Esc
unfolding strspn
unicode_kind buf p =
    let argl = p.iendarg - p.iarg in
    let c = at buf (p.iarg + 1) in
    let d = at buf (p.iarg + 2) in
    if not (at buf p.iarg == b'u') || ltb argl 5 || ltb 7 argl
    then p.rval
    else if argl == 7 && (not (c == b'1') || not (d == b'0'))
    then p.rval
    else if argl == 6 && c == b'0'
    then p.rval
    else if argl == 5 && (toupper c == b'D' && in_set d (codes "89ABCDEFabcdef"))
    then p.rval
    else if strspn (drop (p.iarg + 1) buf) (codes "0123456789ABCDEFabcdef") + 1 == argl
    then unicode
    else p.rval

unfoldable pub check_unicode : Bytes → Pos → Pos
unfolding unicode_kind
check_unicode buf p = record p { rval = unicode_kind buf p }

unfoldable pub check_special : Bytes → Pos → Pos
unfolding check_char check_unicode
check_special buf p =
    if p.iendarg - p.iarg == 0
    then record p { rval = error }
    else if not (p.term == 0) && (p.iendarg - p.iarg == 1 && not (at buf p.iarg == b'-'))
    then record p { rval = error }
    else if at buf p.iarg == b'c'
    then check_char buf p
    else check_unicode buf p

-- The switch over `rval`.
unfoldable pub check_value : Bytes → Pos → Esc → Pos
unfolding check_special
check_value buf p font = record p { rval = mandoc_font (drop p.iarg buf) (p.iendarg - p.iarg) }
check_value buf p special = check_special buf p
check_value buf p _ = p
