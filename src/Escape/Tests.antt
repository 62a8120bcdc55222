-- ===== src/Escape/Tests.antt =====
-- Escape sequences of roff_escape.c at concrete lines.
use mandoc_mirror.Prelude.{◌≡◌, refl, false, none, codes, elem, arith}
use mandoc_mirror.Font.{Esc, special, unicode, font, font_bold, mandoc_font, expand}
use mandoc_mirror.Escape.Syntax.{escaped, overread, form, Pos}
use mandoc_mirror.Escape.Parse.{escape}
use mandoc_mirror.Escape.Places.{EscapeFits}
use mandoc_mirror.Escape.Places.Parse.{escape-Fits}
use mandoc_mirror.Escape.Past.{escape-overread}
use mandoc_mirror.Escape.Forms.{escape-bracket}

bold_run :
    escape 5 false (codes "a\\fBc") 1
    ≡ escaped (record { rval = font_bold; iesc = 1; inam = 2; iarg = 3; iendarg = 4; iend = 4 })
unfolding escape elem mandoc_font
bold_run = refl

unicode_run :
    escape 9 false (codes "\\[u20AC]x") 0
    ≡ escaped (record { rval = unicode; iesc = 0; inam = 1; iarg = 2; iendarg = 7; iend = 8 })
unfolding escape elem mandoc_font
unicode_run = refl

past_end_run : escape 9 false (codes "\\w\\") 0 ≡ overread
unfolding escape elem mandoc_font
past_end_run = refl

escape-Fits_example : EscapeFits (codes "a\\*[x]b") 1 (escape 8 false (codes "a\\*[x]b") 1)
escape-Fits_example = escape-Fits 8 false (codes "a\\*[x]b") 1 (omega arith) (omega arith) refl

escape-overread_example : escape 3 false (codes "\\w\\") 0 ≡ overread
unfolding form elem
escape-overread_example =
    escape-overread 1 false (codes "\\w\\") 0 expand refl refl refl (omega arith) refl

escape-bracket_example :
    (q : Esc) × (escape 1 false (codes "a\\f[B]c") 1
      ≡ escaped (record { rval = q; iesc = 1; inam = 2; iarg = 4; iendarg = 5; iend = 6 }))
unfolding form elem
escape-bracket_example =
    escape-bracket (codes "a\\f[B]c") 1 b'\\' b'f' font (codes "B") (codes "c") refl refl refl refl
      refl 0 false

abbrev named_char : Pos
named_char = record { rval = special; iarg = 2; iendarg = 8; iend = 9; limit = none; term = b']' }
