-- ===== src/Roff/Number/Point.antt =====
-- The parse point of a numeric expression stays inside the line, and the evaluation ends.
use mandoc_mirror.Prelude.{
  ℕ, zero, suc, ◌+◌, ◌-◌, ◌≤◌, ◌<◌, ◌≡◌, ◌⊎◌, refl, Bool, true, false, not, ◌&&◌, ◌||◌, Option,
  none, some, [], ◌∷◌, ◌==◌, if◌then◌else◌, Bool-cases, inl, inr, arith, Bytes, codes, peek, next,
  isdigit, isspace, elem, skip_space, length, Suffix, here, there, Suffix-trans, Suffix-next,
  length-Suffix, skip_space-Suffix,
}
use mandoc_mirror.Prelude.Int.{ℤ}
use mandoc_mirror.Roff.Double.{Double}
use mandoc_mirror.Roff.Number.{
  Num, parsed, failed, trapped, out_of_fuel, getop, spaces, negative, scan_digits, scan_fraction,
  scan_num, finish_num, getnum, close, evalpar, proceed, operate, apply_next, evalnum, operators,
}

spaces-Suffix : (skip : Bool) (v : Bytes) → Suffix (spaces skip v) v
spaces-Suffix true v = skip_space-Suffix v
spaces-Suffix false v = here

-- Success moves on by at least one byte.
abbrev pub Within : Bytes → Num → Type 0
Within v (parsed n w) = Suffix w v × (length w < length v)
Within v (failed w) = Suffix w v
Within v trapped = Unit {0}
Within v out_of_fuel = ⊥

-- The loop may end where it begins.
abbrev pub Reaches : Bytes → Num → Type 0
Reaches v (parsed n w) = Suffix w v
Reaches v (failed w) = Suffix w v
Reaches v trapped = Unit {0}
Reaches v out_of_fuel = ⊥

Within-wider : {v u : Bytes} (r : Num) → Suffix v u → Within v r → Within u r
Within-wider (parsed n w) s h = (Suffix-trans h.0 s, omega (arith, length-Suffix s, h.1))
Within-wider (failed w) s h = Suffix-trans h s
Within-wider trapped s h = tt
Within-wider out_of_fuel s h = h

Reaches-wider : {v u : Bytes} (r : Num) → Suffix v u → Reaches v r → Reaches u r
Reaches-wider (parsed n w) s h = Suffix-trans h s
Reaches-wider (failed w) s h = Suffix-trans h s
Reaches-wider trapped s h = tt
Reaches-wider out_of_fuel s h = h

getop_point :
    (c : ℕ) (v : Bytes) (op : ℕ) (w : Bytes) → getop (c ∷ v) ≡ some (op, w) → (w ≡ v) ⊎ (w ≡ next v)
unfolding getop
getop_point c v op w h = ground arith

getop-Suffix :
    (v : Bytes) (op : ℕ) (w : Bytes) → getop v ≡ some (op, w) → Suffix w v × (length w < length v)
unfolding getop
getop-Suffix [] op w h = cc
getop-Suffix (c ∷ v) op w h = elim (getop_point c v op w h) [
  | inl e ↦ rw e (there here, omega arith)
  | inr e ↦ rw e (there (Suffix-next v), omega (arith, length-Suffix (Suffix-next v)))
]

sign_point : (v : Bytes) → Suffix (if negative v || peek v == b'+' then next v else v) v
sign_point v = elim (Bool-cases (negative v || peek v == b'+')) [
  | inl p ↦ simp p (Suffix-next v)
  | inr p ↦ simp p here
]

sign_length :
    (v : Bytes)
    → length (if negative v || peek v == b'+' then next v else v) + (if negative v then 1 else 0)
      ≤ length v
sign_length [] = omega arith
sign_length (c ∷ v) = ground arith

shorter :
    (w v : Bytes) {l : ℕ} (m : ℕ)
    → length w ≤ l
    → (length w + m == length v) ≡ false
    → l + m ≤ length v
    → length w < length v
shorter w v h p k = ground arith

close-Within : (eval : Bool) (v : Bytes) (r : Num) → Within v r → Within v (close eval r)
unfolding close
close-Within eval v (parsed n w) h = elim (Bool-cases (peek w == b')')) [
  | inl p ↦
      simp p (Suffix-trans (Suffix-next w) h.0, omega (arith, h.1, length-Suffix (Suffix-next w)))
  | inr p ↦ simp p (elim (Bool-cases eval) [ inl q ↦ simp q h | inr q ↦ simp q h.0 ])
]
close-Within eval v (failed w) h = h
close-Within eval v trapped h = tt
close-Within eval v out_of_fuel h = h

apply_next-Reaches :
    (operand : Bytes → Num) (again : ℤ → Bytes → Num) (eval : Bool) (n : ℤ) (v : Bytes)
    (o : Option (ℕ × Bytes))
    → ((op : ℕ) (w : Bytes) → o ≡ some (op, w) → Suffix w v × (length w < length v))
    → ((w : Bytes) → length w < length v → Within w (operand w))
    → ((k : ℤ) (x : Bytes) → length x < length v → Reaches x (again k x))
    → Reaches v (apply_next operand again eval n v o)
unfolding apply_next
apply_next-Reaches operand again eval n v none g h k = here
apply_next-Reaches operand again eval n v (some (op, w)) g h k =
    go (operand w) (h w (g op w refl).1)
  where
    onward :
        (m : ℤ) (x : Bytes)
        → Suffix x w
        → length x < length w
        → (o : Option ℤ) → Reaches v (elim o [ none ↦ trapped | some j ↦ again j x ])
    onward m x s l none = tt
    onward m x s l (some j) =
        Reaches-wider (again j x) (Suffix-trans s (g op w refl).0)
          (k j x (omega (arith, (g op w refl).1)))

    go :
        (r : Num)
        → Within w r
        → Reaches v
            (proceed (λ m x. elim (operate eval op n m) [ none ↦ trapped | some j ↦ again j x ]) r)
    go (parsed m x) q = onward m x q.0 q.1 (operate eval op n m)
    go (failed x) q = Suffix-trans q (g op w refl).0
    go trapped q = tt
    go out_of_fuel q = q

proceed-Within :
    (u v : Bytes) (r : Num) (k : ℤ → Bytes → Num)
    → Suffix u v
    → ((n : ℤ) (w : Bytes) → length w < length u → Reaches w (k n w))
    → Within u r
    → Within v (proceed k r)
unfolding proceed
proceed-Within u v (parsed n w) k s g h = shrink (k n w) (g n w h.1)
  where
    shrink : (r : Num) → Reaches w r → Within v r
    shrink (parsed m x) q =
        (Suffix-trans (Suffix-trans q h.0) s, omega (arith, length-Suffix q, h.1, length-Suffix s))
    shrink (failed x) q = Suffix-trans (Suffix-trans q h.0) s
    shrink trapped q = tt
    shrink out_of_fuel q = q
proceed-Within u v (failed w) k s g h = Suffix-trans h s
proceed-Within u v trapped k s g h = tt
proceed-Within u v out_of_fuel k s g h = h

module _ (d : Double) where
  scan_digits-Suffix : (acc : d.Real) (v : Bytes) → Suffix (scan_digits d acc v).1 v
  unfolding scan_digits
  scan_digits-Suffix acc [] = here
  scan_digits-Suffix acc (c ∷ v) = elim (Bool-cases (isdigit c)) [
    | inl p ↦
        rw (p, scan_digits)
          (there (scan_digits-Suffix (d.add (d.mul acc (d.lit 10)) (d.lit (c - b'0'))) v))
    | inr p ↦ rw (p, scan_digits) here
  ]

  scan_fraction-Suffix : (frac acc : d.Real) (v : Bytes) → Suffix (scan_fraction d frac acc v).1 v
  unfolding scan_fraction
  scan_fraction-Suffix frac acc [] = here
  scan_fraction-Suffix frac acc (c ∷ v) = elim (Bool-cases (isdigit c)) [
    | inl p ↦
        rw (p, scan_fraction)
          (there (
            scan_fraction-Suffix (d.mul frac d.tenth) (d.add acc (d.mul frac (d.lit (c - b'0'))))
              v))
    | inr p ↦ rw (p, scan_fraction) here
  ]

  scan_num-Suffix : (v : Bytes) → Suffix (scan_num d v).1 v
  unfolding scan_num
  scan_num-Suffix v = elim (Bool-cases (peek (scan_digits d (d.lit 0) v).1 == b'.')) [
    | inl p ↦ simp p (
        Suffix-trans (scan_fraction-Suffix d.tenth _ (next (scan_digits d (d.lit 0) v).1))
          (Suffix-trans (Suffix-next _) (scan_digits-Suffix (d.lit 0) v)))
    | inr p ↦ simp p (scan_digits-Suffix (d.lit 0) v)
  ]

  finish_num-Within :
      (unit : ℕ) (x : d.Real) {w v : Bytes}
      → Suffix w v
      → length w < length v
      → Within v (finish_num d unit x w)
  unfolding finish_num
  finish_num-Within unit x {w} {v} s h =
      elim (Bool-cases (not (peek w == 0) && elem (peek w) (codes "ficvPmnpuM"))) [
        | inl p ↦
            simp p (Suffix-trans (Suffix-next w) s, omega (arith, length-Suffix (Suffix-next w)))
        | inr p ↦ simp p (s, h)
      ]

  getnum-Within : (unit : ℕ) (skip : Bool) (v : Bytes) → Within v (getnum d unit skip v)
  unfolding getnum
  getnum-Within unit skip v =
      elim (Bool-cases (length w + (if negative v then 1 else 0) == length v)) [
        | inl p ↦ simp p here
        | inr p ↦ simp p (
            finish_num-Within unit (if negative v then d.neg x else x) inside
              (shorter w v _ (length-Suffix short) p (sign_length v)))
      ]
    where
      start : Bytes
      start = if negative v || peek v == b'+' then next v else v

      w : Bytes
      w = (scan_num d (spaces skip start)).1

      x : d.Real
      x = (scan_num d (spaces skip start)).0

      short : Suffix w start
      short = Suffix-trans (scan_num-Suffix (spaces skip start)) (spaces-Suffix skip start)

      inside : Suffix w v
      inside = Suffix-trans short (sign_point v)

  evalpar-Within :
      (inner : Bytes → Num) (eval : Bool) (unit : ℕ) (skip : Bool) (v : Bytes)
      → ((u : Bytes) → length u < length v → Within u (inner u))
      → Within v (evalpar d inner eval unit skip v)
  unfolding evalpar
  evalpar-Within inner eval unit skip [] h = getnum-Within unit skip []
  evalpar-Within inner eval unit skip (c ∷ v) h = elim (Bool-cases (c == b'(')) [
    | inl p ↦ simp p (
        close-Within eval (c ∷ v) (inner v)
          (Within-wider (inner v) (there here) (h v (omega arith))))
    | inr p ↦ simp p (getnum-Within unit skip (c ∷ v))
  ]

  mutual
    unfolding evalnum operators

    evalnum_point :
        (fuel : ℕ) (eval : Bool) (unit : ℕ) (skip : Bool) (v : Bytes)
        → length v < fuel
        → Within v (evalnum d fuel eval unit skip v)
    evalnum_point zero eval unit skip v h = absurd (omega arith)
    evalnum_point (suc fuel) eval unit skip v h =
        proceed-Within (spaces skip v) v _ (operators d fuel eval unit skip) (spaces-Suffix skip v)
          (λ n w l.
            operators_point fuel eval unit skip n w
              (omega (arith, length-Suffix (spaces-Suffix skip v))))
          (evalpar-Within (λ w. evalnum d fuel eval unit true w) eval unit skip (spaces skip v)
            (λ u l.
              evalnum_point fuel eval unit true u
                (omega (arith, length-Suffix (spaces-Suffix skip v)))))

    operators_point :
        (fuel : ℕ) (eval : Bool) (unit : ℕ) (skip : Bool) (n : ℤ) (v : Bytes)
        → length v < fuel
        → Reaches v (operators d fuel eval unit skip n v)
    operators_point zero eval unit skip n v h = absurd (omega arith)
    operators_point (suc fuel) eval unit skip n v h = Reaches-wider _ (spaces-Suffix skip v) (
        apply_next-Reaches
          (λ w. evalpar d (λ x. evalnum d fuel true unit true x) true unit skip (spaces skip w))
          (λ k x. operators d fuel eval unit skip k (spaces skip x)) eval n (spaces skip v) _
          (getop-Suffix (spaces skip v))
          (λ w l. Within-wider _ (spaces-Suffix skip w) (
            evalpar-Within (λ x. evalnum d fuel true unit true x) true unit skip (spaces skip w)
              (λ u m. evalnum_point fuel true unit true u (
                omega (
                  arith,
                  length-Suffix (spaces-Suffix skip v),
                  length-Suffix (spaces-Suffix skip w),
                )))))
          (λ k x l. Reaches-wider _ (spaces-Suffix skip x) (
            operators_point fuel eval unit skip k (spaces skip x) (
              omega (
                arith,
                length-Suffix (spaces-Suffix skip v),
                length-Suffix (spaces-Suffix skip x),
              )))))

  -- With more fuel than bytes in the line, the evaluation of a numeric expression ends. Wherever it
  -- ends, the parse point is in the line, and on success it has moved on.
  pub evalnum-Within :
      (fuel : ℕ) (eval : Bool) (unit : ℕ) (skip : Bool) (v : Bytes)
      → length v < fuel
      → Within v (evalnum d fuel eval unit skip v)
  evalnum-Within fuel eval unit skip v h = evalnum_point fuel eval unit skip v h

  -- A plus sign is a number with the value 0 where no digit, no point and no blank follows it:
  -- `roff_getnum` succeeds.
  pub getnum_no_digits :
      (unit : ℕ) (skip : Bool) (c : ℕ) (v : Bytes)
      → isdigit c ≡ false
      → isspace c ≡ false
      → (c == b'.') ≡ false
      → getnum d unit skip (b'+' ∷ c ∷ v) ≡ finish_num d unit (d.lit 0) (c ∷ v)
  unfolding getnum skip_space
  getnum_no_digits unit skip c v h k p = ground arith
