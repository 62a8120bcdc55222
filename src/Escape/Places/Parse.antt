-- ===== src/Escape/Places/Parse.antt =====
-- The places that the whole of `roff_escape` of roff_escape.c finds.
use mandoc_mirror.Prelude.{
  ℕ, zero, suc, ◌+◌, ◌≤◌, ◌<◌, ◌≡◌, refl, sym, ap, ◌∙◌, Bool, true, false, ◌||◌, [], ◌∷◌, arith,
  ◌==◌, if◌then◌else◌, if_both, inl, inr, Bool-cases, Bytes, elem, length, length-drop, drop,
}
use mandoc_mirror.Font.{undef, special}
use mandoc_mirror.Escape.Syntax.{
  at, Escape, Form, form, itself, no_argument, standard, glyph, quoted, size, Pos, any_term,
  is_expand, size_at, size_pos, at_place, ascii_hyph,
}
use mandoc_mirror.Escape.Delimit.{is_missing, is_nested, Delimited}
use mandoc_mirror.Escape.Scan.{Scanned}
use mandoc_mirror.Escape.Check.{check_name}
use mandoc_mirror.Escape.Parse.{
  found, conclude, argue, after_nested, argument, dispatch, name_at, escape_at, escape,
}
use mandoc_mirror.Escape.Places.{
  Fits, Done, DelimitFits, ScanFits, EscapeFits, at-pos, followed, followed_lem, SubFits,
  ended_fits, opened_fits, scanned_fits, nested_fits, escaped_fits,
}
use mandoc_mirror.Escape.Places.Delimit.{size_at-Ready, delimit-none, delimit-some}
use mandoc_mirror.Escape.Places.Scan.{scan_argument-Fits}
use mandoc_mirror.Escape.Places.Check.{check_name-Done, check_value-Done}

size_at-same : (buf : Bytes) (i : ℕ) → (size_at buf i).iarg ≡ (size_at buf i).iendarg
unfolding size_at
size_at-same buf i = ground arith

size_pos-same : (buf : Bytes) (m : ℕ) → (size_pos buf m).iarg ≡ (size_pos buf m).iendarg
unfolding size_pos
size_pos-same buf m = size_at-same buf _

size_pos-Done : (buf : Bytes) (m : ℕ) → 0 < at buf m → Done (length buf) m (size_pos buf m)
unfolding size_pos
size_pos-Done buf m h =
    let c = at buf (m + 1) in
    let i = if c == b'+' || c == b'-' || c == ascii_hyph then m + 2 else m + 1 in
    size_at-Ready buf m i (ground arith) (ground (arith, at-pos buf m, at-pos buf (m + 1)))

-- The sequence at `a`, whose name is at `m`.
module _ (buf : Bytes) (a m : ℕ) (lt : a < m) (null : Bool) (sub : ℕ → Escape) where
  Fits-found : (p : Pos) → Done (length buf) m p → Fits (length buf) a (found a m p)
  Fits-found p r = omega arith

  nested-at : (p : Pos) → is_nested buf a p ≡ true → at buf p.iarg ≡ at buf a
  unfolding is_nested
  nested-at p h = ground arith

  module _ (ne : (at buf m == any_term) ≡ false) (safe : followed (at buf a) buf ≡ true)
      (pos : 0 < at buf a) (subs : SubFits buf (at buf a) m sub) where
    conclude-Fits : (s : Scanned) → ScanFits buf m s → EscapeFits buf a (conclude null buf a m s)
    unfolding conclude
    conclude-Fits _ (scanned_fits v p r) =
        let q = check_name null buf (at buf m) v p in
        escaped_fits _
          (Fits-found _
            (check_value-Done buf m q q.rval (check_name-Done buf m null (at buf m) v p r)))
          (inr ne)
    conclude-Fits _ (nested_fits f g pl) = escaped_fits f (omega arith) pl

    argue-Fits :
        (d : Delimited) → DelimitFits (length buf) m d → EscapeFits buf a (argue null sub buf a m d)
    unfolding argue
    argue-Fits _ (ended_fits p r) = escaped_fits _ (Fits-found p r) (inr ne)
    argue-Fits _ (opened_fits e p r) = conclude-Fits _ (
        scan_argument-Fits buf m (at buf a) sub subs (length buf + 2) (at buf m) e true
          (record p { iendarg = p.iarg }) (omega arith) (omega arith))

    after_nested-Fits :
        (p : Pos) (x : Escape)
        → Done (length buf) m p
        → p.iarg ≡ p.iendarg
        → at buf p.iarg ≡ at buf a
        → EscapeFits buf p.iendarg x
        → EscapeFits buf a (after_nested null sub buf a m p x)
    unfolding after_nested
    after_nested-Fits p _ r e h (escaped_fits f g pl) =
        if_both (EscapeFits buf a) (is_expand f.rval) (λ j. escaped_fits f (omega arith) pl)
          λ j. argue-Fits _ (
            delimit-some buf m (at buf m) p f r e g pl
              (followed_lem (at buf a) buf p.iarg safe pos h))

    argument-Fits :
        (p : Pos)
        → Done (length buf) m p
        → p.iarg ≡ p.iendarg
        → EscapeFits buf a (argument null sub buf a m p)
    unfolding argument
    argument-Fits p r e =
        if_both (EscapeFits buf a) (is_missing buf p)
          (λ j. escaped_fits _ (Fits-found p r) (inr ne))
          λ j. elim (Bool-cases (is_nested buf a p)) [
            | inl k ↦
                let q : at buf p.iarg ≡ at buf a = nested-at p k in
                rw k (
                  after_nested-Fits p (sub p.iendarg) r e q
                    (subs p.iendarg (omega arith) (rw (sym e) q)))
            | inr k ↦ rw k (argue-Fits _ (delimit-none buf m (at buf m) p r j))
          ]

    dispatch-Fits : (x : Form) → 0 < at buf m → EscapeFits buf a (dispatch null sub buf a m x)
    unfolding dispatch
    dispatch-Fits (itself r) h = escaped_fits _ (omega (arith, at-pos buf m)) (inr ne)
    dispatch-Fits (no_argument r) h = escaped_fits _ (omega (arith, at-pos buf m)) (inr ne)
    dispatch-Fits (standard r) h =
        argument-Fits (at_place r (m + 1) 0) (omega (arith, at-pos buf m)) refl
    dispatch-Fits glyph h = argument-Fits (at_place special m 0) (omega (arith, at-pos buf m)) refl
    dispatch-Fits (quoted r) h =
        argument-Fits (at_place r (m + 1) any_term) (omega (arith, at-pos buf m)) refl
    dispatch-Fits size h =
        argument-Fits (size_pos buf m) (size_pos-Done buf m h) (size_pos-same buf m)

form_any : form any_term ≡ itself undef
unfolding form elem
form_any = refl

module _ (buf : Bytes) (a : ℕ) (null : Bool) (sub : ℕ → Escape)
    (safe : followed (at buf a) buf ≡ true) (pos : 0 < at buf a) where
  escape_at-Fits :
      (m : ℕ)
      → a < m
      → m ≤ length buf
      → SubFits buf (at buf a) m sub
      → EscapeFits buf a (escape_at null sub buf a m)
  unfolding escape_at
  escape_at-Fits m lt le subs =
      if_both (EscapeFits buf a) (at buf m == 0) (λ e. escaped_fits _ (omega arith) (inl refl))
        λ e. elim (Bool-cases (at buf m == any_term)) [
          | inl k ↦
              let q : at buf m ≡ any_term = ground arith in
              let inside : m < length buf = at-pos buf m (omega arith) in
              rw (ap form q ∙ form_any) (escaped_fits _ (omega arith) (inl refl))
          | inr k ↦
              dispatch-Fits buf a m lt null sub k safe pos subs (form (at buf m)) (ground arith)
        ]

name_at_bounds : (s : Bytes) (i : ℕ) → (i ≤ name_at s i) × (name_at s i ≤ i + length s)
unfolding name_at
name_at_bounds [] i = omega arith
name_at_bounds (c ∷ s) i = let (h, k) = name_at_bounds s (i + 1) in ground arith

-- With more fuel than bytes behind the escape character, in a line in which a byte stands behind
-- every escape character, roff_escape ends without a read behind the line. What it finds begins at
-- the escape character or behind it, the name stands behind that and inside the sequence, and the
-- sequence and the argument end inside the line.
pub escape-Fits :
    (fuel : ℕ) (null : Bool) (buf : Bytes) (a : ℕ)
    → length buf < a + fuel
    → 0 < at buf a
    → followed (at buf a) buf ≡ true
    → EscapeFits buf a (escape fuel null buf a)
unfolding escape
escape-Fits zero null buf a lt pos safe = absurd (omega (arith, at-pos buf a))
escape-Fits (suc fuel) null buf a lt pos safe =
    let (h, k) = name_at_bounds (drop (a + 1) buf) (a + 1) in
    escape_at-Fits buf a null (λ i. escape fuel false buf i) safe pos
      (name_at (drop (a + 1) buf) (a + 1)) (omega arith)
      (omega (arith, length-drop (a + 1) buf, at-pos buf a))
      λ i le e. escape-Fits fuel false buf i (omega arith) (rw e pos) (rw e safe)
