-- ===== src/Escape/Places.antt =====
-- The places that `roff_escape` of roff_escape.c finds: in order and inside the line, if the line does
-- not end with the escape character.
pub mod Delimit
pub mod Scan
pub mod Check
pub mod Parse
use mandoc_mirror.Prelude.{
  ℕ, zero, suc, ◌+◌, ◌-◌, ◌≤◌, ◌<◌, ◌≡◌, ◌⊎◌, refl, sym, ap, ◌∙◌, Bool, true, false, not, ◌&&◌,
  ◌||◌, none, some, [], ◌∷◌, arith, ltb, ◌==◌, if◌then◌else◌, if_both, inl, inr, Bool-cases, Bytes,
  codes, peek, elem, isdigit, length, length-drop, take, drop, str_same,
}
use mandoc_mirror.Font.{Esc, expand, error, undef, special, font}
use mandoc_mirror.Escape.Syntax.{
  at, in_set, Located, Escape, escaped, Form, form, itself, no_argument, standard, glyph, quoted,
  size, Pos, any_term, is_none_limit, is_expand, is_undef, size_at, size_pos, at_place, ascii_hyph,
}
use mandoc_mirror.Escape.Delimit.{
  is_missing, is_nested, Delimited, ended, opened, take_term, delimit_byte, delimit_escape,
  delimit_quoted, delimit_standard, delimit,
}
use mandoc_mirror.Escape.Scan.{
  Scanned, scanned, nested, is_zero_limit, incomplete, scan_nested, scan_byte, scan_round,
  scan_argument,
}
use mandoc_mirror.Escape.Check.{
  check_device, check_overlay, check_name, char_number, strspn, check_char, check_unicode,
  check_special, check_value,
}
use mandoc_mirror.Escape.Parse.{
  found, conclude, argue, after_nested, argument, dispatch, name_at, escape_at, escape,
}

-- From the place `a` of a line of `n` bytes on.
pub record Fits (n a : ℕ) (f : Located) : Type 0 where
  pub begins : a ≤ f.iesc
  pub named : f.iesc < f.inam
  pub ends : f.inam ≤ f.iend
  pub stops : f.iend ≤ n
  pub ordered : f.iarg ≤ f.iendarg
  pub inside : f.iendarg ≤ n

-- Behind the delimiter; the name is at `m`.
pub record Ready (n m : ℕ) (p : Pos) : Type 0 where
  pub low : m ≤ p.iarg
  pub high : p.iarg ≤ n
  pub ends : m ≤ p.iend
  pub stops : p.iend ≤ n

-- In the loop and behind it.
pub record Done (n m : ℕ) (p : Pos) : Type 0 where
  pub low : m ≤ p.iarg
  pub ordered : p.iarg ≤ p.iendarg
  pub inside : p.iendarg ≤ n
  pub ends : m ≤ p.iend
  pub stops : p.iend ≤ n

pub data DelimitFits (n m : ℕ) : Delimited → Type 0 where
  ended_fits : (p : Pos) → Done n m p → DelimitFits n m (ended p)
  opened_fits : (e : Bool) (p : Pos) → Ready n m p → DelimitFits n m (opened e p)

-- A name of the value that stands for an unknown delimiter is that of an undefined sequence.
abbrev pub Plain : Bytes → Located → Type 0
Plain buf f = (is_undef f.rval ≡ true) ⊎ ((at buf f.inam == any_term) ≡ false)

pub data ScanFits (buf : Bytes) (m : ℕ) : Scanned → Type 0 where
  scanned_fits : (v : Bool) (p : Pos) → Done (length buf) m p → ScanFits buf m (scanned v p)
  nested_fits : (f : Located) → Fits (length buf) m f → Plain buf f → ScanFits buf m (nested f)

pub data EscapeFits (buf : Bytes) (a : ℕ) : Escape → Type 0 where
  escaped_fits : (f : Located) → Fits (length buf) a f → Plain buf f → EscapeFits buf a (escaped f)

pub at-pos : (buf : Bytes) (i : ℕ) → 0 < at buf i → i < length buf
at-pos [] i h = absurd (omega arith)
at-pos (c ∷ buf) zero h = omega arith
at-pos (c ∷ buf) (suc i) h = omega (arith, at-pos buf i)

-- Every escape character has a byte behind it.
abbrev pub followed : ℕ → Bytes → Bool
followed esc [] = true
followed esc (c ∷ s) = (not (c == esc) || not (peek s == 0)) && followed esc s

peek-at : (s : Bytes) → peek s ≡ at s 0
peek-at [] = refl
peek-at (c ∷ s) = refl

pub followed_lem :
    (esc : ℕ) (s : Bytes) (i : ℕ)
    → followed esc s ≡ true
    → 0 < esc
    → at s i ≡ esc
    → 0 < at s (i + 1)
followed_lem esc [] i f h e = absurd (omega arith)
followed_lem esc (c ∷ s) zero f h e = ground (arith, peek-at s)
followed_lem esc (c ∷ s) (suc i) f h e = ground (arith, followed_lem esc s i)

-- The nested calls from the place `m` on.
abbrev pub SubFits : Bytes → ℕ → ℕ → (ℕ → Escape) → Type 0
SubFits buf esc m sub = (i : ℕ) → m ≤ i → at buf i ≡ esc → EscapeFits buf i (sub i)
