-- ===== src/TermTab/Next.antt =====
-- What `term_tab_next` returns.
use mandoc_mirror.Prelude.{
  ℕ, zero, suc, ◌+◌, ◌-◌, ◌<◌, ◌≡◌, inl, inr, refl, ap, ◌∙◌, arith, true, false, Option, none, some,
  List, [], ◌∷◌, ◌++◌, ltb, ◌==◌, if◌then◌else◌, Bool-cases, length, length-append, get_or, drop,
}
use mandoc_mirror.TermTab.{Tablist, last_or_zero, period, extend, next_from}

-- The first position beyond `prev`.
unfoldable pub first_above : ℕ → List ℕ → Option ℕ
first_above prev [] = none
first_above prev (x ∷ xs) = if ltb prev x then some x else first_above prev xs

drop_all : (t : List ℕ) (i : ℕ) → i ≡ length t → drop i t ≡ []
drop_all [] zero h = refl
drop_all [] (suc i) h = refl
drop_all (x ∷ t) zero h = absurd (omega arith)
drop_all (x ∷ t) (suc i) h = drop_all t i (omega arith)

drop-get_or : (t : List ℕ) (i : ℕ) → i < length t → drop i t ≡ get_or t i 0 ∷ drop (suc i) t
drop-get_or [] i h = elim h [ ]
drop-get_or (x ∷ t) zero h = refl
drop-get_or (x ∷ t) (suc i) h = drop-get_or t i (omega arith)

first_above-cons :
    (prev x : ℕ) (xs : List ℕ)
    → first_above prev (x ∷ xs) ≡ (if ltb prev x then some x else first_above prev xs)
unfolding first_above
first_above-cons prev x xs = refl

pub first_above-append :
    (prev : ℕ) (xs ys : List ℕ)
    → first_above prev xs ≡ none
    → first_above prev (xs ++ ys) ≡ first_above prev ys
unfolding first_above
first_above-append prev [] ys h = refl
first_above-append prev (x ∷ xs) ys h = elim (Bool-cases (ltb prev x)) [
  | inl q ↦ cc (rw q at h)
  | inr q ↦ rw q (first_above-append prev xs ys (rw q at h))
]

pub first_above-append_some :
    (prev : ℕ) (xs ys : List ℕ) (x : ℕ)
    → first_above prev xs ≡ some x
    → first_above prev (xs ++ ys) ≡ some x
unfolding first_above
first_above-append_some prev [] ys x h = cc
first_above-append_some prev (y ∷ xs) ys x h = elim (Bool-cases (ltb prev y)) [
  | inl q ↦ rw q (rw q at h)
  | inr q ↦ rw q (first_above-append_some prev xs ys x (rw q at h))
]

pub length-period : (base : ℕ) (p : List ℕ) → length (period base p) ≡ length p
unfolding period
length-period base [] = refl
length-period base (x ∷ p) = ap suc (length-period base p)

pub t-extend : (a : Tablist) (p : List ℕ) → (extend a p).t ≡ a.t ++ period (last_or_zero a.t) p
unfolding extend
t-extend a p = refl

length-extend : (a : Tablist) (p : List ℕ) → length (extend a p).t ≡ length a.t + length p
length-extend a p = rw t-extend (
    omega (
      arith,
      length-append {0} a.t (period (last_or_zero a.t) p),
      length-period (last_or_zero a.t) p,
    ))

drop-append : (t u : List ℕ) → drop (length t) (t ++ u) ≡ u
drop-append [] u = refl
drop-append (x ∷ t) u = drop-append t u

module _ (prev : ℕ) (p : List ℕ) where
  -- One round inside the array.
  next_from-inside :
      (fuel i : ℕ) (a : Tablist)
      → i < length a.t
      → next_from (suc fuel) prev i a p ≡ (
          if ltb prev (get_or a.t i 0)
          then some (get_or a.t i 0, a)
          else next_from fuel prev (i + 1) a p)
  unfolding next_from
  next_from-inside fuel i a h = let e : (i == length a.t) ≡ false = ground arith in simp e

  -- One round at the end of the array, where there are periodic positions.
  next_from-extend :
      (fuel : ℕ) (a : Tablist)
      → 0 < length p
      → next_from (suc fuel) prev (length a.t) a p
        ≡ next_from (suc fuel) prev (length a.t) (extend a p) p
  unfolding next_from
  next_from-extend fuel a h =
      let e : (length a.t == length a.t) ≡ true = ground arith in
      let z : (length p == 0) ≡ false = ground arith in
      let k : (length a.t == length (extend a p).t) ≡ false = ground (arith, length-extend a p) in
      simp (e, z, k)

  abbrev pub walk_result : ℕ → Tablist → Option ℕ → Option (ℕ × Tablist)
  walk_result fuel a (some x) = some (x, a)
  walk_result fuel a none = next_from fuel prev (length a.t) a p

  -- The loop passes over the positions that are in the array.
  pub next_from-walk :
      (k fuel i : ℕ) (a : Tablist)
      → i + k ≡ length a.t
      → next_from (k + fuel) prev i a p ≡ walk_result fuel a (first_above prev (drop i a.t))
  next_from-walk zero fuel i a h =
      let e : i ≡ length a.t = omega arith in
      let z : zero + fuel ≡ fuel = omega arith in
      rw (drop_all a.t i e, z, e) (unfold first_above in refl)
  next_from-walk (suc k) fuel i a h =
      let lt : i < length a.t = omega arith in
      let z : suc k + fuel ≡ suc (k + fuel) = omega arith in
      let ih = next_from-walk k fuel (i + 1) a (omega arith) in
      let n : i + 1 ≡ suc i = omega arith in
      rw (z, drop-get_or a.t i lt, next_from-inside (k + fuel) i a lt)
        (elim (Bool-cases (ltb prev (get_or a.t i 0))) [
          | inl q ↦ rw (first_above-cons, q)
          | inr q ↦ rw (first_above-cons, q) (ih ∙ rw n)
        ])

  -- From the end of the array, one period is appended and passed over.
  pub next_from-period :
      (fuel : ℕ) (a : Tablist)
      → 0 < length p
      → next_from (length p + fuel) prev (length a.t) a p
        ≡ walk_result fuel (extend a p) (first_above prev (period (last_or_zero a.t) p))
  next_from-period fuel a h =
      let e : length p + fuel ≡ suc (length p - 1 + fuel) = omega arith in
      let on =
        next_from-walk (length p) fuel (length a.t) (extend a p)
          (omega (arith, length-extend a p)) in
      rw e (
        next_from-extend (length p - 1 + fuel) a h
        ∙ rw (← e) (on ∙ rw t-extend (rw drop-append refl)))

  -- Past the last position, with none to append, the argument comes back.
  pub next_from-end :
      (fuel : ℕ) (a : Tablist)
      → length p ≡ 0
      → next_from (suc fuel) prev (length a.t) a p ≡ some (prev, a)
  unfolding next_from
  next_from-end fuel a h =
      let e : (length a.t == length a.t) ≡ true = ground arith in
      let z : (length p == 0) ≡ true = ground arith in simp (e, z)
