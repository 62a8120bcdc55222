-- ===== src/Font/Names.antt =====
-- The names of fonts, which `mandoc_font` of mandoc.c recognizes by their bytes.
use mandoc_mirror.Prelude.{List, [], ◌∷◌, if◌then◌else◌, Bytes, codes, str_same}
use mandoc_mirror.Font.{
  Esc, error, font_bold, font_italic, font_bi, font_roman, font_cr, font_cb, font_ci, font_prev,
}

-- The names, in words: the previous font, the four text fonts by letter and by number, and the constant
-- width fonts.
abbrev pub font_names : List (Bytes × Esc)
font_names =
    ([], font_prev)
    ∷ (codes "P", font_prev)
    ∷ (codes "R", font_roman)
    ∷ (codes "1", font_roman)
    ∷ (codes "I", font_italic)
    ∷ (codes "2", font_italic)
    ∷ (codes "B", font_bold)
    ∷ (codes "3", font_bold)
    ∷ (codes "BI", font_bi)
    ∷ (codes "4", font_bi)
    ∷ (codes "CR", font_cr)
    ∷ (codes "CW", font_cr)
    ∷ (codes "CB", font_cb)
    ∷ (codes "CI", font_ci)
    ∷ []

unfoldable pub font_named : Bytes → List (Bytes × Esc) → Esc
font_named s [] = error
font_named s ((name, esc) ∷ names) = if str_same s name then esc else font_named s names
