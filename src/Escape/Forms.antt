-- ===== src/Escape/Forms.antt =====
-- The argument in brackets of a standard escape sequence, as `roff_escape` of roff_escape.c finds it.
use mandoc_mirror.Prelude.{
  ℕ, zero, suc, ◌+◌, ◌-◌, ◌<◌, ◌≡◌, refl, sym, ap, ◌∙◌, Bool, true, false, not, ◌&&◌, ◌||◌, none,
  [], ◌∷◌, ◌++◌, arith, ltb, ◌==◌, if◌then◌else◌, inl, inr, Bool-cases, Bytes, elem, length,
  length-drop, length-append, drop,
}
use mandoc_mirror.Font.{Esc, undef, font, special, numbered, expand, error}
use mandoc_mirror.Escape.Syntax.{
  at, Located, Escape, escaped, Form, form, itself, standard, quoted, Pos, at_place,
}
use mandoc_mirror.Escape.Delimit.{is_missing, is_nested, delimit, delimit_standard, opened}
use mandoc_mirror.Escape.Scan.{scanned, scan_argument, scan_round, scan_byte}
use mandoc_mirror.Escape.Check.{
  check_name, check_device, check_overlay, check_char, check_unicode, check_special, check_value,
}
use mandoc_mirror.Escape.Parse.{
  found, conclude, argue, argument, dispatch, name_at, escape_at, escape,
}
use mandoc_mirror.Escape.Past.{drop-at, name_at-here, escape_step, check_char_lem}

-- A byte that neither ends the argument nor begins an escape sequence.
abbrev pub is_plain : ℕ → ℕ → Bool
is_plain esc c = not (c == 0) && (not (c == b']') && not (c == esc))

abbrev pub all_plain : ℕ → Bytes → Bool
all_plain esc [] = true
all_plain esc (c ∷ s) = is_plain esc c && all_plain esc s

drop-suc : (i c : ℕ) (buf s : Bytes) → drop i buf ≡ c ∷ s → drop (suc i) buf ≡ s
drop-suc zero c [] s h = cc
drop-suc (suc i) c [] s h = cc
drop-suc zero c (d ∷ buf) s h = cc
drop-suc (suc i) c (d ∷ buf) s h = drop-suc i c buf s h

drop-cons : (i c : ℕ) (buf s : Bytes) → drop i buf ≡ c ∷ s → drop (i + 1) buf ≡ s
drop-cons i c buf s h =
    let q : i + 1 ≡ suc i = omega arith in ap (λ k. drop k buf) q ∙ drop-suc i c buf s h

drop-lt-length : (i c : ℕ) (buf s : Bytes) → drop i buf ≡ c ∷ s → i < length buf
drop-lt-length i c buf s h = omega (arith, length-drop i buf, ap length h)

at-drop : (i c : ℕ) (buf s : Bytes) → drop i buf ≡ c ∷ s → at buf i ≡ c
at-drop i c buf s h = sym (drop-at i buf) ∙ ap (λ t. at t 0) h

-- The variables in the loop over an argument in brackets.
abbrev bracketed : Esc → ℕ → ℕ → ℕ → Pos
bracketed r iarg iendarg iend = record {
  rval = r;
  iarg = iarg;
  iendarg = iendarg;
  iend = iend;
  limit = none;
  term = b']';
}

module _ (buf : Bytes) (esc nam : ℕ) (sub : ℕ → Escape) (other : (nam == b'N') ≡ false) where
  plain_step :
      (k i : ℕ) (v : Bool) (r : Esc) (iarg iend : ℕ)
      → i < length buf
      → is_plain esc (at buf i) ≡ true
      → scan_argument (suc k) buf esc nam false sub v (bracketed r iarg i iend)
        ≡ scan_argument k buf esc nam false sub
            (v && not (at buf i == b' ' || at buf i == 9))
            (bracketed r iarg (i + 1) (i + 1))
  unfolding scan_argument scan_round scan_byte
  plain_step k i v r iarg iend lt p =
      let l : ltb (length buf) i ≡ false = ground arith in
      let z : (at buf i == 0) ≡ false = ground arith in
      let t : (at buf i == b']') ≡ false = ground arith in
      let e : (at buf i == esc) ≡ false = ground arith in simp (l, z, t, e, other)

  bracket_step :
      (k i : ℕ) (v : Bool) (r : Esc) (iarg iend : ℕ)
      → i < length buf
      → at buf i ≡ b']'
      → scan_argument (suc k) buf esc nam false sub v (bracketed r iarg i iend)
        ≡ scanned v (bracketed r iarg i (i + 1))
  unfolding scan_argument scan_round
  bracket_step k i v r iarg iend lt d =
      let l : ltb (length buf) i ≡ false = ground arith in simp (l, d)

  scan-bracket :
      (name rest : Bytes) (k i : ℕ) (v : Bool) (r : Esc) (iarg iend : ℕ)
      → drop i buf ≡ name ++ (b']' ∷ rest)
      → all_plain esc name ≡ true
      → length name < k
      → (w : Bool) × (scan_argument k buf esc nam false sub v (bracketed r iarg i iend)
          ≡ scanned w (bracketed r iarg (i + length name) (i + length name + 1)))
  scan-bracket name rest zero i v r iarg iend h p lt = absurd (omega arith)
  scan-bracket [] rest (suc k) i v r iarg iend h p lt =
      let q : i ≡ i + 0 = omega arith in
      (
        v,
        bracket_step k i v r iarg iend (drop-lt-length i b']' buf rest h)
              (at-drop i b']' buf rest h)
            ∙ ap (λ j. scanned v (bracketed r iarg j (j + 1))) q,
      )
  scan-bracket (c ∷ name) rest (suc k) i v r iarg iend h p lt =
      let d : at buf i ≡ c = at-drop i c buf (name ++ (b']' ∷ rest)) h in
      let pl : is_plain esc (at buf i) ≡ true = rw d (ground arith) in
      let (w, x) =
        scan-bracket name rest k (i + 1) (v && not (at buf i == b' ' || at buf i == 9)) r iarg
          (i + 1) (drop-cons i c buf (name ++ (b']' ∷ rest)) h) (ground arith) (omega arith) in
      let q : i + 1 + length name ≡ i + suc (length name) = omega arith in
      (
        w,
        plain_step k i v r iarg iend (drop-lt-length i c buf (name ++ (b']' ∷ rest)) h) pl
            ∙ (x ∙ ap (λ j. scanned w (bracketed r iarg j (j + 1))) q),
      )

abbrev is_standard_form : Form → Bool
is_standard_form (standard r) = true
is_standard_form _ = false

form_e : form b'E' ≡ itself undef
unfolding form elem
form_e = refl

form_n : form b'N' ≡ quoted numbered
unfolding form elem
form_n = refl

form_a : form b'A' ≡ quoted expand
unfolding form elem
form_a = refl

form_nul : form 0 ≡ itself undef
unfolding form elem
form_nul = refl

-- The checks keep the places of a standard argument.
check_name-places :
    (null : Bool) (buf : Bytes) (nam : ℕ) (v : Bool) (p : Pos)
    → (nam == b'A') ≡ false
    → check_name null buf nam v p ≡ record p { rval = (check_name null buf nam v p).rval }
unfolding check_name check_device check_overlay
check_name-places null buf nam v p h = ground arith

abbrev Keeps : Pos → Pos → Type 0
Keeps p x = x ≡ record p { rval = x.rval }

set_if : (p q : Pos) (b : Bool) (x : Pos) → Keeps p q → Keeps p x → Keeps p (if b then q else x)
set_if p q true x h k = h
set_if p q false x h k = k

check_unicode-places :
    (buf : Bytes) (p : Pos) → check_unicode buf p ≡ record p { rval = (check_unicode buf p).rval }
unfolding check_unicode
check_unicode-places buf p = refl

check_value-places :
    (buf : Bytes) (p : Pos) (e : Esc)
    → check_value buf p e ≡ record p { rval = (check_value buf p e).rval }
unfolding check_value check_special
check_value-places buf p font = refl
check_value-places buf p special =
    set_if p (record p { rval = error }) (p.iendarg - p.iarg == 0) _ refl
      (set_if p (record p { rval = error })
        (not (p.term == 0) && (p.iendarg - p.iarg == 1 && not (at buf p.iarg == b'-'))) _ refl
        (set_if p (check_char buf p) (at buf p.iarg == b'c') (check_unicode buf p)
          (rw (check_char_lem buf p) refl) (check_unicode-places buf p)))
check_value-places buf p _ = refl

ne_sym : (x y : ℕ) → (x == y) ≡ false → (y == x) ≡ false
ne_sym x y h = ground arith

not_space :
    (name rest : Bytes)
    → (at name 0 == b' ') ≡ false
    → (at (name ++ (b']' ∷ rest)) 0 == b' ') ≡ false
not_space [] rest h = refl
not_space (d ∷ name) rest h = h

-- A standard escape sequence with the name `c` and an argument in brackets, at the place `a`.
module _ (buf : Bytes) (a esc c : ℕ) (r : Esc) (name rest : Bytes)
    (line : drop a buf ≡ esc ∷ c ∷ b'[' ∷ (name ++ (b']' ∷ rest))) (is : form c ≡ standard r)
    (other : (esc == b'[') ≡ false) (start : (at name 0 == b' ') ≡ false)
    (plain : all_plain esc name ≡ true) where
  esc_at : at buf a ≡ esc
  esc_at = at-drop a esc buf (c ∷ b'[' ∷ (name ++ (b']' ∷ rest))) line

  line_one : drop (a + 1) buf ≡ c ∷ b'[' ∷ (name ++ (b']' ∷ rest))
  line_one = drop-cons a esc buf (c ∷ b'[' ∷ (name ++ (b']' ∷ rest))) line

  line_two : drop (a + 1 + 1) buf ≡ b'[' ∷ (name ++ (b']' ∷ rest))
  line_two = drop-cons (a + 1) c buf (b'[' ∷ (name ++ (b']' ∷ rest))) line_one

  line_three : drop (a + 1 + 1 + 1) buf ≡ name ++ (b']' ∷ rest)
  line_three = drop-cons (a + 1 + 1) b'[' buf (name ++ (b']' ∷ rest)) line_two

  name_at_one : at buf (a + 1) ≡ c
  name_at_one = at-drop (a + 1) c buf (b'[' ∷ (name ++ (b']' ∷ rest))) line_one

  bracket_at : at buf (a + 1 + 1) ≡ b'['
  bracket_at = at-drop (a + 1 + 1) b'[' buf (name ++ (b']' ∷ rest)) line_two

  name_at_three : (at buf (a + 1 + 1 + 1) == b' ') ≡ false
  name_at_three = rw (sym (drop-at (a + 1 + 1 + 1) buf), line_three) (not_space name rest start)

  -- The delimiter is a bracket.
  delimit-bracket :
      delimit buf c (at_place r (a + 1 + 1) 0) none
      ≡ opened false (bracketed r (a + 1 + 1 + 1) (a + 1 + 1) (a + 1 + 1))
  unfolding delimit delimit_standard
  delimit-bracket =
      let n : (c == b'n' && (at buf (a + 1 + 1) == b'+' || at buf (a + 1 + 1) == b'-')) ≡ false =
        ground (arith, bracket_at) in
      rw n (simp (bracket_at, name_at_three))

  -- What is found, of the kind `q`.
  abbrev pub at_bracket : Esc → Located
  at_bracket q = record {
    rval = q;
    iesc = a;
    inam = a + 1;
    iarg = a + 1 + 1 + 1;
    iendarg = a + 1 + 1 + 1 + length name;
    iend = a + 1 + 1 + 1 + length name + 1;
  }

  name_is_not : (d : ℕ) (x : Form) → form d ≡ x → is_standard_form x ≡ false → (c == d) ≡ false
  name_is_not d x u f = elim (Bool-cases (c == d)) [
    | inl e ↦
        let q : c ≡ d = ground arith in
        let w : is_standard_form (standard r) ≡ is_standard_form x =
          ap is_standard_form (sym is ∙ (ap form q ∙ u)) in
        cc
    | inr e ↦ e
  ]

  conclude-bracket :
      (null v : Bool) (iarg iendarg iend : ℕ)
      → (q : Esc) × (conclude null buf a (a + 1) (scanned v (bracketed r iarg iendarg iend))
          ≡ escaped (record {
            rval = q;
            iesc = a;
            inam = a + 1;
            iarg = iarg;
            iendarg = iendarg;
            iend = iend;
          }))
  unfolding conclude
  conclude-bracket null v iarg iendarg iend =
      let p = bracketed r iarg iendarg iend in
      let x = check_name null buf (at buf (a + 1)) v p in
      let n : (at buf (a + 1) == b'A') ≡ false =
        rw name_at_one (name_is_not b'A' (quoted expand) form_a refl) in
      (
        (check_value buf x x.rval).rval,
        ap (λ y. escaped (found a (a + 1) y)) (check_value-places buf x x.rval)
            ∙ ap
                (λ y. escaped (record {
                  rval = (check_value buf x x.rval).rval;
                  iesc = a;
                  inam = a + 1;
                  iarg = y.iarg;
                  iendarg = y.iendarg;
                  iend = y.iend;
                }))
                (check_name-places null buf (at buf (a + 1)) v p n),
      )

  argue-bracket :
      (sub : ℕ → Escape) (null : Bool)
      → (q : Esc) × (argue null sub buf a
            (a + 1)
            (opened false (bracketed r (a + 1 + 1 + 1) (a + 1 + 1) (a + 1 + 1)))
          ≡ escaped (at_bracket q))
  unfolding argue
  argue-bracket sub null =
      let n : (at buf (a + 1) == b'N') ≡ false =
        rw name_at_one (name_is_not b'N' (quoted numbered) form_n refl) in
      let (w, x) =
        scan-bracket buf (at buf a) (at buf (a + 1)) sub n name rest (length buf + 2)
          (a + 1 + 1 + 1) true r (a + 1 + 1 + 1) (a + 1 + 1) line_three (rw esc_at plain)
          (omega (
            arith,
            length-drop (a + 1 + 1 + 1) buf,
            ap length line_three,
            length-append {0} name (b']' ∷ rest),
          )) in
      let (q, y) =
        conclude-bracket null w (a + 1 + 1 + 1) (a + 1 + 1 + 1 + length name)
          (a + 1 + 1 + 1 + length name + 1) in
      (q, rw x y)

  argument-bracket :
      (sub : ℕ → Escape) (null : Bool)
      → (q : Esc) × (argument null sub buf a (a + 1) (at_place r (a + 1 + 1) 0)
          ≡ escaped (at_bracket q))
  unfolding argument is_missing is_nested
  argument-bracket sub null =
      let (q, x) = argue-bracket sub null in
      let ne : (at buf (a + 1 + 1) == at buf a) ≡ false =
        rw (bracket_at, esc_at) (ne_sym esc b'[' other) in
      let nz : (at buf (a + 1 + 1) == 0) ≡ false = rw bracket_at refl in
      (q, rw (nz, ne) (rw (name_at_one, delimit-bracket) x))

  -- The argument is what stands in the brackets, and the sequence ends behind the closing one.
  pub escape-bracket :
      (fuel : ℕ) (null : Bool) → (q : Esc) × (escape (suc fuel) null buf a ≡ escaped (at_bracket q))
  unfolding escape_at dispatch
  escape-bracket fuel null =
      let (q, x) = argument-bracket (λ i. escape fuel false buf i) null in
      let e : (at (drop (a + 1) buf) 0 == b'E') ≡ false =
        rw (drop-at (a + 1) buf, name_at_one) (name_is_not b'E' (itself undef) form_e refl) in
      let n : name_at (drop (a + 1) buf) (a + 1) ≡ a + 1 =
        name_at-here (drop (a + 1) buf) (a + 1) e in
      (
        q,
        rw (escape_step fuel null buf a, n)
            (rw name_at_one (rw (name_is_not 0 (itself undef) form_nul refl, is) x)),
      )
