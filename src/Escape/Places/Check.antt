-- ===== src/Escape/Places/Check.antt =====
-- The places behind the checks of an argument: roff_escape.c.
use mandoc_mirror.Prelude.{
  ℕ, ◌+◌, ◌-◌, ◌≤◌, Bool, not, ◌&&◌, ◌||◌, arith, ltb, ◌==◌, if_both, Bytes, codes, length, take,
  drop, str_same,
}
use mandoc_mirror.Font.{Esc, special, font}
use mandoc_mirror.Escape.Syntax.{at, Pos}
use mandoc_mirror.Escape.Check.{
  check_device, check_overlay, check_name, char_number, strspn, check_char, check_unicode,
  check_special, check_value,
}
use mandoc_mirror.Escape.Places.{Done}

module _ (buf : Bytes) (m : ℕ) where
  -- The checks of the content.
  pub check_name-Done :
      (null : Bool) (nam : ℕ) (v : Bool) (p : Pos)
      → Done (length buf) m p
      → Done (length buf) m (check_name null buf nam v p)
  unfolding check_name check_device check_overlay
  check_name-Done null nam v p r =
      if_both (Done (length buf) m) (nam == b'*')
        (λ e.
          if_both (Done (length buf) m)
            (null
              && (p.iendarg - p.iarg == 2
                  && (at buf p.iarg == b'.' && at buf (p.iarg + 1) == b'T')))
            (λ j. omega arith) λ j. r)
        λ e.
          if_both (Done (length buf) m) (nam == b'A') (λ j. ground arith)
            λ e. if_both (Done (length buf) m) (nam == b'O') (λ j. omega arith) λ j. r

  check_char-Done : (p : Pos) → Done (length buf) m p → Done (length buf) m (check_char buf p)
  unfolding check_char
  check_char-Done p r =
      let argl = p.iendarg - p.iarg in
      let arg = drop p.iarg buf in
      let c = char_number 0 (take argl arg) in
      if_both (Done (length buf) m)
        (ltb argl 6
          || ltb 7 argl
          || not (str_same (take 4 arg) (codes "char"))
          || ltb (strspn (drop 4 arg) (codes "0123456789") + 4) argl)
        (λ e. r)
        λ e.
          if_both (Done (length buf) m) (ltb c 0x21 || (ltb 0x7e c && ltb c 0xa0) || ltb 0xff c)
            (λ j. r) λ j. let six : 6 ≤ argl = ground arith in omega arith

  check_unicode-Done : (p : Pos) → Done (length buf) m p → Done (length buf) m (check_unicode buf p)
  unfolding check_unicode
  check_unicode-Done p r = omega arith

  pub check_value-Done :
      (p : Pos) (e : Esc) → Done (length buf) m p → Done (length buf) m (check_value buf p e)
  unfolding check_value check_special
  check_value-Done p font r = omega arith
  check_value-Done p special r =
      if_both (Done (length buf) m) (p.iendarg - p.iarg == 0) (λ e. omega arith)
        λ e.
          if_both (Done (length buf) m)
            (not (p.term == 0) && (p.iendarg - p.iarg == 1 && not (at buf p.iarg == b'-')))
            (λ j. omega arith)
            λ j.
              if_both (Done (length buf) m) (at buf p.iarg == b'c') (λ k. check_char-Done p r)
                λ k. check_unicode-Done p r
  check_value-Done p _ r = r
