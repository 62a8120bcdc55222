-- ===== src/Escape/Past.antt =====
-- Where `roff_escape` of roff_escape.c reads behind the line, and the alias that it never takes.
use mandoc_mirror.Prelude.{
  ℕ, zero, suc, ◌+◌, ◌-◌, ◌*◌, ◌≤◌, ◌<◌, ◌≡◌, refl, sym, ap, ◌∙◌, Bool, true, false, not, ◌&&◌,
  ◌||◌, none, [], ◌∷◌, arith, ltb, lt→ltb, ◌==◌, if_both, inl, inr, Bool-cases, Bytes, codes, elem,
  length, drop, take, str_same,
}
use mandoc_mirror.Font.{Esc, undef}
use mandoc_mirror.Escape.Syntax.{
  at, Escape, escaped, overread, form, itself, quoted, Pos, any_term, at_place,
}
use mandoc_mirror.Escape.Delimit.{
  is_missing, is_nested, delimit, delimit_quoted, delimit_byte, take_term,
}
use mandoc_mirror.Escape.Scan.{scan_argument, scan_round, is_zero_limit, scan_overread}
use mandoc_mirror.Escape.Check.{char_number, strspn, check_char}
use mandoc_mirror.Escape.Parse.{
  conclude, argue, after_nested, argument, dispatch, name_at, escape_at, escape,
}

char_number-ge : (c : ℕ) (s : Bytes) → c ≤ char_number c s
unfolding char_number
char_number-ge c [] = omega arith
char_number-ge c (b ∷ s) = omega (arith, char_number-ge (10 * c + (b - b'0')) s)

-- The number is read from the first byte of the name on.
char_number-gt :
    (argl : ℕ) (arg : Bytes)
    → 6 ≤ argl
    → str_same (take 4 arg) (codes "char") ≡ true
    → 255 < char_number 0 (take argl arg)
unfolding char_number str_same
char_number-gt (suc (suc n)) (c ∷ d ∷ s) h e =
    ground (arith, char_number-ge (10 * (10 * 0 + (c - b'0')) + (d - b'0')) (take n s))
char_number-gt _ _ h e = ground arith

-- A name that begins with "char" stays the name of a special character, with the places as they are.
pub check_char_lem : (buf : Bytes) (p : Pos) → check_char buf p ≡ p
unfolding check_char
check_char_lem buf p =
    let argl = p.iendarg - p.iarg in
    let arg = drop p.iarg buf in
    let c = char_number 0 (take argl arg) in
    if_both (λ x. x ≡ p)
      (ltb argl 6
        || ltb 7 argl
        || not (str_same (take 4 arg) (codes "char"))
        || ltb (strspn (drop 4 arg) (codes "0123456789") + 4) argl)
      (λ e. refl)
      λ e.
        if_both (λ x. x ≡ p) (ltb c 0x21 || (ltb 0x7e c && ltb c 0xa0) || ltb 0xff c) (λ j. refl)
          λ j. absurd (ground (arith, char_number-gt argl arg))

pub drop-at : (i : ℕ) (buf : Bytes) → at (drop i buf) 0 ≡ at buf i
drop-at zero buf = refl
drop-at (suc i) [] = refl
drop-at (suc i) (c ∷ buf) = drop-at i buf

pub name_at-here : (s : Bytes) (i : ℕ) → (at s 0 == b'E') ≡ false → name_at s i ≡ i
unfolding name_at
name_at-here [] i h = refl
name_at-here (c ∷ s) i h = rw h

at_none : (buf : Bytes) (i : ℕ) → length buf ≤ i → at buf i ≡ 0
at_none [] i h = refl
at_none (c ∷ buf) zero h = absurd (omega arith)
at_none (c ∷ buf) (suc i) h = at_none buf i (omega arith)

-- The escape character at the very end.
escape_last :
    (fuel : ℕ) (null : Bool) (buf : Bytes) (a : ℕ)
    → length buf ≡ a + 1
    → escape (suc fuel) null buf a
      ≡ escaped (record {
        rval = undef;
        iesc = a;
        inam = a + 1;
        iarg = a + 1;
        iendarg = a + 1;
        iend = a + 1;
      })
unfolding escape escape_at
escape_last fuel null buf a h =
    let z : at buf (a + 1) ≡ 0 = at_none buf (a + 1) (omega arith) in
    let n : name_at (drop (a + 1) buf) (a + 1) ≡ a + 1 =
      name_at-here (drop (a + 1) buf) (a + 1) (rw (drop-at (a + 1) buf, z) refl) in
    rw (n, z) refl

pub escape_step :
    (fuel : ℕ) (null : Bool) (buf : Bytes) (a : ℕ)
    → escape (suc fuel) null buf a
      ≡ escape_at null (λ i. escape fuel false buf i) buf a (name_at (drop (a + 1) buf) (a + 1))
unfolding escape
escape_step fuel null buf a = refl

scan_past :
    (k : ℕ) (buf : Bytes) (esc nam : ℕ) (e : Bool) (sub : ℕ → Escape) (v : Bool) (p : Pos)
    → is_zero_limit p.limit ≡ false
    → length buf < p.iendarg
    → scan_argument (suc k) buf esc nam e sub v p ≡ scan_overread
unfolding scan_argument scan_round
scan_past k buf esc nam e sub v p h lt = simp (h, lt→ltb (length buf) p.iendarg lt)

-- A quoted argument that is delimited by the escape character at the very end: the name is at `a + 1`.
module _ (fuel : ℕ) (null : Bool) (buf : Bytes) (a : ℕ) (r : Esc) (len : length buf ≡ a + 3)
    (name : form (at buf (a + 1)) ≡ quoted r)
    (other : elem (at buf (a + 1)) (codes "BDHLRSvxNhl") ≡ false) (esc : 0 < at buf a)
    (last : at buf (a + 2) ≡ at buf a) where
  name_not_nul : (at buf (a + 1) == 0) ≡ false
  unfolding form elem
  name_not_nul = elim (Bool-cases (at buf (a + 1) == 0)) [
    | inl e ↦
        let q : at buf (a + 1) ≡ 0 = ground arith in
        let w : itself undef ≡ quoted r = sym (ap form q) ∙ name in cc
    | inr e ↦ e
  ]

  name_not_e : (at buf (a + 1) == b'E') ≡ false
  unfolding form elem
  name_not_e = elim (Bool-cases (at buf (a + 1) == b'E')) [
    | inl e ↦
        let q : at buf (a + 1) ≡ b'E' = ground arith in
        let w : itself undef ≡ quoted r = sym (ap form q) ∙ name in cc
    | inr e ↦ e
  ]

  argument-overread :
      argument null
        (λ i. escape (suc fuel) false buf i)
        buf
        a
        (a + 1)
        (at_place r (a + 1 + 1) any_term)
      ≡ overread
  unfolding argument is_missing is_nested after_nested argue conclude delimit delimit_quoted
      delimit_byte take_term
  argument-overread =
      let q : a + 1 + 1 ≡ a + 2 = omega arith in
      let d : at buf (a + 1 + 1) ≡ at buf a = ap (λ i. at buf i) q ∙ last in
      let t : (at buf (a + 1 + 1) == at buf a) ≡ true = ground arith in
      let z : (at buf (a + 1 + 1) == 0) ≡ false = ground arith in
      let w = escape_last fuel false buf (a + 1 + 1) (omega arith) in
      let p : Pos = record {
        rval = r;
        iarg = a + 1 + 1 + 1 + 1;
        iendarg = a + 1 + 1 + 1 + 1;
        iend = a + 1 + 1;
        limit = none;
        term = at buf (a + 1 + 1 + 1);
      } in
      let e : length buf + 2 ≡ suc (length buf + 1) = omega arith in
      rw (z, t, w)
        (rw (other, delimit_byte)
          (rw e (
            rw
              (scan_past (length buf + 1) buf (at buf a) (at buf (a + 1)) false
                (λ i. escape (suc fuel) false buf i) true p refl (omega arith))
              refl)))

  -- Where such an argument calls for no test of its delimiter, it is read behind the line.
  pub escape-overread : escape (suc (suc fuel)) null buf a ≡ overread
  unfolding escape_at dispatch
  escape-overread =
      let n : name_at (drop (a + 1) buf) (a + 1) ≡ a + 1 =
        name_at-here (drop (a + 1) buf) (a + 1) (rw (drop-at (a + 1) buf) name_not_e) in
      rw (escape_step (suc fuel) null buf a, n, name_not_nul, name) argument-overread
