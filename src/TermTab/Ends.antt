-- ===== src/TermTab/Ends.antt =====
-- When `term_tab_next` ends, and when it does not.
use mandoc_mirror.Prelude.{
  ℕ, zero, suc, ◌+◌, ◌^◌, ◌≤◌, ◌<◌, ◌≡◌, inl, inr, refl, ap, ◌∙◌, arith, false, Option, none, some,
  List, [], ◌∷◌, ◌++◌, ltb, ◌==◌, Bool-cases, Option-cases, length, get_or,
}
use mandoc_mirror.TermTab.{
  Tablist, Tabs, add_size, last_or_zero, period, extend, next_from, tab_next,
}
use mandoc_mirror.TermTab.Next.{
  first_above, first_above-append, length-period, t-extend, next_from-walk, next_from-period,
  next_from-end,
}

-- `b` is `a` with some number of periods appended.
pub data Extends (p : List ℕ) : Tablist → Tablist → Type 0 where
  here : {a : Tablist} → Extends p a a
  more : {a b : Tablist} → Extends p (extend a p) b → Extends p a b

-- The answer is the first position beyond `prev`, in the array with some periods appended.
pub record Answers (prev : ℕ) (p : List ℕ) (a : Tablist) (out : Option (ℕ × Tablist)) : Type 0 where
  pub found : ℕ
  pub array : Tablist
  pub result : out ≡ some (found, array)
  pub first : first_above prev array.t ≡ some found
  pub grown : Extends p a array

last-le : (prev : ℕ) (t : List ℕ) → first_above prev t ≡ none → last_or_zero t ≤ prev
unfolding first_above last_or_zero
last-le prev [] h = omega arith
last-le prev (x ∷ []) h = ground arith
last-le prev (x ∷ y ∷ ys) h = last-le prev (y ∷ ys) (ground arith)

last-append : (t u : List ℕ) → 0 < length u → last_or_zero (t ++ u) ≡ last_or_zero u
unfolding last_or_zero
last-append [] u h = refl
last-append (x ∷ []) (y ∷ u) h = refl
last-append (x ∷ []) [] h = absurd (omega arith)
last-append (x ∷ y ∷ t) u h = last-append (y ∷ t) u h

last-period :
    (base : ℕ) (p : List ℕ)
    → 0 < length p
    → last_or_zero (period base p) ≡ add_size (last_or_zero p) base
unfolding last_or_zero period
last-period base [] h = absurd (omega arith)
last-period base (x ∷ []) h = refl
last-period base (x ∷ y ∷ p) h = last-period base (y ∷ p) (omega arith)

module _ (prev : ℕ) (p : List ℕ) (some_p : 0 < length p) where
  last-extend :
      (a : Tablist) → last_or_zero (extend a p).t ≡ add_size (last_or_zero p) (last_or_zero a.t)
  last-extend a = rw t-extend (
      last-append a.t (period (last_or_zero a.t) p)
        (omega (arith, length-period (last_or_zero a.t) p))
      ∙ last-period (last_or_zero a.t) p some_p)

  none-extend :
      (a : Tablist)
      → first_above prev a.t ≡ none
      → first_above prev (period (last_or_zero a.t) p) ≡ none
      → first_above prev (extend a p).t ≡ none
  none-extend a h k = rw t-extend (first_above-append prev a.t _ h ∙ k)

  -- The number of rounds is bounded by the distance from the last position to `prev`.
  next_from-Answers :
      (d : ℕ) (a : Tablist)
      → 0 < last_or_zero p
      → prev + last_or_zero p < 2 ^ 64
      → first_above prev a.t ≡ none
      → prev < last_or_zero a.t + d
      → (fuel : ℕ) × Answers prev p a (next_from fuel prev (length a.t) a p)
  next_from-Answers zero a pos small h k = absurd (omega (arith, last-le prev a.t h))
  next_from-Answers (suc d) a pos small h k =
      elim (Option-cases (first_above prev (period (last_or_zero a.t) p))) [
        | inl e ↦
            let h' = none-extend a h e in
            let k' : prev < last_or_zero (extend a p).t + d =
              omega (arith, last-extend a, last-le prev a.t h) in
            let (fuel, ih) = next_from-Answers d (extend a p) pos small h' k' in
            (
              length p + fuel,
              record {
                found = ih.found;
                array = ih.array;
                result = next_from-period prev p fuel a some_p ∙ rw e ih.result;
                first = ih.first;
                grown = more ih.grown;
              },
            )
        | inr (x, e) ↦ (
          length p + 0,
          record {
            found = x;
            array = extend a p;
            result = next_from-period prev p 0 a some_p ∙ rw e;
            first = rw t-extend (first_above-append prev a.t _ h ∙ e);
            grown = more here;
          },
        )
      ]

tab_next-eq :
    (fuel prev : ℕ) (tabs : Tabs) (x : ℕ) (a : Tablist)
    → next_from fuel prev 0 tabs.a tabs.p.t ≡ some (x, a)
    → tab_next fuel prev tabs ≡ some (x, record tabs { a = a })
unfolding tab_next
tab_next-eq fuel prev tabs x a h = rw (h, tab_next)

-- With periodic positions of which the last is positive, and where no sum wraps before `prev`, the
-- loop ends. It returns the first position beyond `prev` in the array, which has only grown by whole
-- periods, and nothing else changes.
pub tab_next-Extends :
    (prev : ℕ) (tabs : Tabs)
    → 0 < length tabs.p.t
    → 0 < last_or_zero tabs.p.t
    → prev + last_or_zero tabs.p.t < 2 ^ 64
    → (fuel : ℕ) × (found : ℕ) × (array : Tablist) × (tab_next fuel prev tabs
        ≡ some (found, record tabs { a = array }))
      × (first_above prev array.t ≡ some found)
      × Extends tabs.p.t tabs.a array
tab_next-Extends prev tabs h pos small = elim (Option-cases (first_above prev tabs.a.t)) [
  | inr (x, e) ↦ (
    length tabs.a.t + 0,
    x,
    tabs.a,
    tab_next-eq _ prev tabs x tabs.a
        (next_from-walk prev tabs.p.t (length tabs.a.t) 0 0 tabs.a (omega arith) ∙ rw e),
    e,
    here,
  )
  | inl e ↦
      let (fuel, ans) =
        next_from-Answers prev tabs.p.t h (suc prev) tabs.a pos small e (omega arith) in
      (
        length tabs.a.t + fuel,
        ans.found,
        ans.array,
        tab_next-eq _ prev tabs ans.found ans.array (
            next_from-walk prev tabs.p.t (length tabs.a.t) fuel 0 tabs.a (omega arith)
            ∙ rw e ans.result),
        ans.first,
        ans.grown,
      )
]

-- With no periodic position the loop ends after one round for each position. It returns the first
-- position beyond `prev`, or `prev` where there is none, and changes nothing.
pub tab_next_no_period :
    (prev : ℕ) (tabs : Tabs)
    → tabs.p.t ≡ []
    → tab_next (length tabs.a.t + 1) prev tabs
      ≡ some ((elim (first_above prev tabs.a.t) [ none ↦ prev | some x ↦ x ]), tabs)
tab_next_no_period prev tabs h = elim (Option-cases (first_above prev tabs.a.t)) [
  | inr (x, e) ↦ rw e (
      tab_next-eq _ prev tabs x tabs.a
        (next_from-walk prev tabs.p.t (length tabs.a.t) 1 0 tabs.a (omega arith) ∙ rw e))
  | inl e ↦ rw e (
      tab_next-eq _ prev tabs prev tabs.a (
        next_from-walk prev tabs.p.t (length tabs.a.t) 1 0 tabs.a (omega arith)
        ∙ rw e (next_from-end prev tabs.p.t 0 tabs.a (ap length h))))
]

abbrev pub AllZero : List ℕ → Type 0
AllZero [] = Unit {0}
AllZero (x ∷ xs) = (x ≡ 0) × AllZero xs

AllZero-last : (p : List ℕ) → AllZero p → last_or_zero p ≡ 0
unfolding last_or_zero
AllZero-last [] h = refl
AllZero-last (x ∷ []) h = h.0
AllZero-last (x ∷ y ∷ p) h = AllZero-last (y ∷ p) h.1

period-none :
    (prev base : ℕ) (p : List ℕ) → AllZero p → base ≤ prev → first_above prev (period base p) ≡ none
unfolding first_above period
period-none prev base [] h k = refl
period-none prev base (x ∷ p) h k =
    let low : ltb prev (add_size x base) ≡ false = ground (arith, h.0) in
    rw low (period-none prev base p h.1 k)

get_or-le : (prev : ℕ) (t : List ℕ) (i : ℕ) → first_above prev t ≡ none → get_or t i 0 ≤ prev
unfolding first_above
get_or-le prev [] i h = omega arith
get_or-le prev (x ∷ t) zero h = ground arith
get_or-le prev (x ∷ t) (suc i) h = get_or-le prev t i (ground arith)

next_from-none :
    (fuel prev i : ℕ) (a : Tablist) (p : List ℕ)
    → 0 < length p
    → AllZero p
    → first_above prev a.t ≡ none
    → next_from fuel prev i a p ≡ none
unfolding next_from
next_from-none zero prev i a p h z e = refl
next_from-none (suc fuel) prev i a p h z e = elim (Bool-cases (i == length a.t)) [
  | inl q ↦
      let e' = none-extend prev p h a e (period-none prev _ p z (last-le prev a.t e)) in
      let l : ltb prev (get_or (extend a p).t i 0) ≡ false =
        ground (arith, get_or-le prev (extend a p).t i e') in
      let n : (length p == 0) ≡ false = ground arith in
      simp (q, n, l) (next_from-none fuel prev (i + 1) (extend a p) p h z e')
  | inr q ↦
      let l : ltb prev (get_or a.t i 0) ≡ false = ground (arith, get_or-le prev a.t i e) in
      simp (q, l) (next_from-none fuel prev (i + 1) a p h z e)
]

-- Where there are periodic positions and all of them are 0, the loop never ends from a position
-- beyond which there is no other: no number of rounds is enough.
pub tab_next_diverges :
    (fuel prev : ℕ) (tabs : Tabs)
    → 0 < length tabs.p.t
    → AllZero tabs.p.t
    → first_above prev tabs.a.t ≡ none
    → tab_next fuel prev tabs ≡ none
unfolding tab_next
tab_next_diverges fuel prev tabs h z e =
    rw (next_from-none fuel prev 0 tabs.a tabs.p.t h z e, tab_next)
