-- ===== src/Roff/Number.antt =====
-- Numeric expressions of roff.c: `roff_getnum`, `roff_getop`, `roff_evalpar`, `roff_evalnum`.
-- `unit` is the default scaling unit, 0 for '\0'. `eval` says that the argument `res` is not NULL.
pub mod Point
pub mod Value
pub mod Meaning
pub mod Traps
pub mod Decimal
pub mod Refine
pub mod Print
use mandoc_mirror.Prelude.{
  ℕ, zero, suc, ◌+◌, ◌-◌, Bool, true, false, not, ◌&&◌, ◌||◌, Option, none, some, [], ◌∷◌, ltb, leb,
  ◌==◌, if◌then◌else◌, Bytes, codes, peek, next, isdigit, isspace, elem, skip_space, length,
}
use mandoc_mirror.Prelude.Int.{ℤ, pos, ltb_ℤ}
use mandoc_mirror.Roff.Int32.{int_add, int_sub, int_mul, int_div, int_mod, is_zero, eq_ℤ, of_bool}
use mandoc_mirror.Roff.Double.{Double}

-- The outcome of an evaluation: success with the value and the parse point, failure with the parse
-- point, or a division that traps.
pub data Num : Type 0 where
  parsed : ℤ → Bytes → Num
  failed : Bytes → Num
  trapped : Num
  out_of_fuel : Num

-- `roff_getop`: the operator, by the letter that stands for it, and the parse point behind it.
unfoldable pub getop : Bytes → Option (ℕ × Bytes)
getop [] = none
getop (c ∷ v) =
    if elem c (codes "+-*/%&:")
    then some (c, v)
    else if c == b'<'
    then if peek v == b'='
      then some (b'l', next v)
      else if peek v == b'>'
      then some (b'!', next v)
      else if peek v == b'?'
      then some (b'i', next v)
      else some (c, v)
    else if c == b'>'
    then if peek v == b'='
      then some (b'g', next v)
      else if peek v == b'?'
      then some (b'a', next v)
      else some (c, v)
    else if c == b'='
    then some (c, if peek v == b'=' then next v else v)
    else none

-- The switch over the operator; `none` is a trap.
unfoldable pub apply_op : ℕ → ℤ → ℤ → Option ℤ
apply_op op a b =
    if op == b'+'
    then some (int_add a b)
    else if op == b'-'
    then some (int_sub a b)
    else if op == b'*'
    then some (int_mul a b)
    else if op == b'/'
    then (if is_zero b then some (pos 0) else int_div a b)
    else if op == b'%'
    then (if is_zero b then some (pos 0) else int_mod a b)
    else if op == b'<'
    then some (of_bool (ltb_ℤ a b))
    else if op == b'>'
    then some (of_bool (ltb_ℤ b a))
    else if op == b'l'
    then some (of_bool (not (ltb_ℤ b a)))
    else if op == b'g'
    then some (of_bool (not (ltb_ℤ a b)))
    else if op == b'='
    then some (of_bool (eq_ℤ a b))
    else if op == b'!'
    then some (of_bool (not (eq_ℤ a b)))
    else if op == b'&'
    then some (of_bool (not (is_zero a) && not (is_zero b)))
    else if op == b':'
    then some (of_bool (not (is_zero a) || not (is_zero b)))
    else if op == b'i'
    then some (if ltb_ℤ b a then b else a)
    else some (if ltb_ℤ a b then b else a)

abbrev pub spaces : Bool → Bytes → Bytes
spaces skip v = if skip then skip_space v else v

-- `n` of `roff_getnum`: whether there is a minus sign
abbrev pub negative : Bytes → Bool
negative v = peek v == b'-'

-- Behind the expression in parentheses: the closing one may be left out when evaluating.
unfoldable pub close : Bool → Num → Num
close eval (parsed n w) =
    if peek w == b')' then parsed n (next w) else if eval then parsed n w else failed w
close eval (failed w) = failed w
close eval trapped = trapped
close eval out_of_fuel = out_of_fuel

-- The loop goes on behind an operand.
unfoldable pub proceed : (ℤ → Bytes → Num) → Num → Num
proceed k (parsed n v) = k n v
proceed k (failed v) = failed v
proceed k trapped = trapped
proceed k out_of_fuel = out_of_fuel

-- `if (NULL == res) continue;` and the switch
unfoldable pub operate : Bool → ℕ → ℤ → ℤ → Option ℤ
operate eval op a b = if eval then apply_op op a b else some a

-- Behind `roff_getop`: `operand` reads the second operand, `again` is the loop.
unfoldable pub apply_next :
    (Bytes → Num) → (ℤ → Bytes → Num) → Bool → ℤ → Bytes → Option (ℕ × Bytes) → Num
unfolding proceed
apply_next operand again eval n v none = parsed n v
apply_next operand again eval n v (some (op, w)) =
    proceed (λ m x. elim (operate eval op n m) [ none ↦ trapped | some k ↦ again k x ]) (operand w)

module _ (d : Double) where
  -- The loop over the digits before the point.
  unfoldable pub scan_digits : d.Real → Bytes → d.Real × Bytes
  scan_digits acc [] = (acc, [])
  scan_digits acc (c ∷ v) = elim (isdigit c) [
    | true ↦ scan_digits (d.add (d.mul acc (d.lit 10)) (d.lit (c - b'0'))) v
    | false ↦ (acc, c ∷ v)
  ]

  -- The loop over the digits behind it.
  unfoldable pub scan_fraction : d.Real → d.Real → Bytes → d.Real × Bytes
  scan_fraction frac acc [] = (acc, [])
  scan_fraction frac acc (c ∷ v) = elim (isdigit c) [
    | true ↦ scan_fraction (d.mul frac d.tenth) (d.add acc (d.mul frac (d.lit (c - b'0')))) v
    | false ↦ (acc, c ∷ v)
  ]

  -- The switch over the scaling unit.
  unfoldable pub scaled : ℕ → d.Real → d.Real
  scaled unit x =
      if unit == b'f'
      then d.mul x (d.lit 65536)
      else if unit == b'i'
      then d.mul x (d.lit 240)
      else if unit == b'c'
      then d.div (d.mul x (d.lit 24000)) (d.lit 254)
      else if unit == b'v' || unit == b'P'
      then d.mul x (d.lit 40)
      else if unit == b'm' || unit == b'n'
      then d.mul x (d.lit 24)
      else if unit == b'p'
      then d.div (d.mul x (d.lit 40)) (d.lit 12)
      else if unit == b'M'
      then d.div (d.mul x (d.lit 24)) (d.lit 100)
      else x

  -- Behind the digits: the optional scaling unit, and the result.
  unfoldable pub finish_num : ℕ → d.Real → Bytes → Num
  unfolding scaled
  finish_num unit x v =
      let given = not (peek v == 0) && elem (peek v) (codes "ficvPmnpuM") in
      parsed (d.to_int (scaled (if given && not (unit == 0) then peek v else unit) x))
        (if given then next v else v)

  -- The digits and the fraction.
  unfoldable pub scan_num : Bytes → d.Real × Bytes
  unfolding scan_digits scan_fraction
  scan_num v =
      let (x, w) = scan_digits (d.lit 0) v in
      if peek w == b'.' then scan_fraction d.tenth x (next w) else (x, w)

  unfoldable pub getnum : ℕ → Bool → Bytes → Num
  unfolding scan_num finish_num
  getnum unit skip v =
      let n = negative v in
      let (x, w) = scan_num (spaces skip (if n || peek v == b'+' then next v else v)) in
      if length w + (if n then 1 else 0) == length v
      then failed v
      else finish_num unit (if n then d.neg x else x) w

  -- `roff_evalpar`, where `inner` is `roff_evalnum` with skipspace set.
  unfoldable pub evalpar : (Bytes → Num) → Bool → ℕ → Bool → Bytes → Num
  unfolding close
  evalpar inner eval unit skip v =
      if not (peek v == b'(') then getnum unit skip v else close eval (inner (next v))

  unfoldable mutual
    unfolding getop proceed

    -- `roff_evalnum`
    pub evalnum : ℕ → Bool → ℕ → Bool → Bytes → Num
    evalnum zero eval unit skip v = out_of_fuel
    evalnum (suc fuel) eval unit skip v =
        proceed (λ n w. operators fuel eval unit skip n w)
          (evalpar (λ w. evalnum fuel eval unit true w) eval unit skip (spaces skip v))

    -- The loop over operators and operands.
    pub operators : ℕ → Bool → ℕ → Bool → ℤ → Bytes → Num
    operators zero eval unit skip n v = out_of_fuel
    operators (suc fuel) eval unit skip n v =
        apply_next
          (λ w. evalpar (λ x. evalnum fuel true unit true x) true unit skip (spaces skip w))
          (λ k x. operators fuel eval unit skip k (spaces skip x)) eval n (spaces skip v)
          (getop (spaces skip v))
