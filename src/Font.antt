-- ===== src/Font.antt =====
-- `mandoc_font` of mandoc.c, and the kinds of escape sequences of mandoc.h.
pub mod Names
mod Tests
use mandoc_mirror.Prelude.{ℕ, ◌==◌, ◌||◌, if◌then◌else◌, Bytes, get_or}

-- `enum mandoc_esc`
pub data Esc : Type 0 where
  expand error unsupp ignore undef special : Esc
  font font_bold font_italic font_bi font_roman font_cr font_cb font_ci font_prev : Esc
  numbered unicode device line_break nospace horiz hline skipchar overstrike : Esc

-- A name of one byte.
unfoldable pub font_one : ℕ → Esc
font_one c =
    if c == b'B' || c == b'3'
    then font_bold
    else if c == b'I' || c == b'2'
    then font_italic
    else if c == b'P'
    then font_prev
    else if c == b'R' || c == b'1'
    then font_roman
    else if c == b'4'
    then font_bi
    else error

-- A name of two bytes.
unfoldable pub font_two : ℕ → ℕ → Esc
font_two c d =
    if c == b'B'
    then (if d == b'I' then font_bi else error)
    else if c == b'C'
    then (if d == b'B'
        then font_cb
        else if d == b'I'
        then font_ci
        else if d == b'R' || d == b'W'
        then font_cr
        else error)
    else error

-- `mandoc_font`, at the bytes from `cp` on
unfoldable pub mandoc_font : Bytes → ℕ → Esc
unfolding font_one font_two
mandoc_font cp sz =
    if sz == 0
    then font_prev
    else if sz == 1
    then font_one (get_or cp 0 0)
    else if sz == 2
    then font_two (get_or cp 0 0) (get_or cp 1 0)
    else error
