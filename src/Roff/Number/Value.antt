-- ===== src/Roff/Number/Value.antt =====
-- The value of a numeric expression: `roff_evalnum` against expressions as trees.
use mandoc_mirror.Prelude.{
  ℕ, ◌-◌, ◌≡◌, true, false, Bool, not, ◌&&◌, ◌||◌, if◌then◌else◌, List, Option, none, some, [], ◌∷◌,
  ◌++◌, ◌==◌, Bytes, codes, peek, isdigit, isspace, elem,
}
use mandoc_mirror.Prelude.Int.{ℤ, pos, negsuc, ltb_ℤ, ◌+ℤ◌, ◌-ℤ◌, ◌*ℤ◌}
use mandoc_mirror.Roff.Double.{Double}
use mandoc_mirror.Roff.Int32.{wrap, is_zero, int_div, int_mod, of_bool}

-- The operators by their spelling.
pub data Op : Type 0 where
  plus minus times divide modulo and or lt gt le ge eq ne min max : Op

abbrev pub spelling : Op → Bytes
spelling plus = codes "+"
spelling minus = codes "-"
spelling times = codes "*"
spelling divide = codes "/"
spelling modulo = codes "%"
spelling and = codes "&"
spelling or = codes ":"
spelling lt = codes "<"
spelling gt = codes ">"
spelling le = codes "<="
spelling ge = codes ">="
spelling eq = codes "="
spelling ne = codes "<>"
spelling min = codes "<?"
spelling max = codes ">?"

-- The letter by which the code names an operator.
abbrev pub letter : Op → ℕ
letter plus = b'+'
letter minus = b'-'
letter times = b'*'
letter divide = b'/'
letter modulo = b'%'
letter and = b'&'
letter or = b':'
letter lt = b'<'
letter gt = b'>'
letter le = b'l'
letter ge = b'g'
letter eq = b'='
letter ne = b'!'
letter min = b'i'
letter max = b'a'

-- An operand is a string of digits or an expression in parentheses; an expression is an operand and
-- the operators and operands behind it.
mutual
  pub data Operand : Type 0 where
    digits : ℕ → Bytes → Operand
    paren : Operand → Tail → Operand

  pub data Tail : Type 0 where
    end : Tail
    more : Op → Operand → Tail → Tail

unfoldable mutual
  pub print : Operand → Bytes
  print (digits c cs) = c ∷ cs
  print (paren o t) = b'(' ∷ (print o ++ (print_tail t ++ (b')' ∷ [])))

  pub print_tail : Tail → Bytes
  print_tail end = []
  print_tail (more op o t) = spelling op ++ (print o ++ print_tail t)

abbrev pub AllDigits : Bytes → Type 0
AllDigits [] = Unit {0}
AllDigits (c ∷ cs) = (isdigit c ≡ true) × AllDigits cs

-- The operands are digits.
abbrev mutual
  pub Proper : Operand → Type 0
  Proper (digits c cs) = (isdigit c ≡ true) × AllDigits cs
  Proper (paren o t) = Proper o × ProperTail t

  pub ProperTail : Tail → Type 0
  ProperTail end = Unit {0}
  ProperTail (more op o t) = Proper o × ProperTail t

abbrev pub same_ℤ : ℤ → ℤ → Bool
same_ℤ (pos n) (pos m) = n == m
same_ℤ (negsuc n) (negsuc m) = n == m
same_ℤ _ _ = false

-- `none` is passed on.
abbrev pub bind : Option ℤ → (ℤ → Option ℤ) → Option ℤ
bind none f = none
bind (some a) f = f a

-- What the operators mean: sums, differences and products wrap around, a division by 0 gives 0 and one
-- that does not fit is a trap, a comparison gives 1 or 0, and so do the logical operators, for which
-- 0 is false.
abbrev pub meaning : Op → ℤ → ℤ → Option ℤ
meaning plus n m = some (wrap (n +ℤ m))
meaning minus n m = some (wrap (n -ℤ m))
meaning times n m = some (wrap (n *ℤ m))
meaning divide n m = if is_zero m then some (pos 0) else int_div n m
meaning modulo n m = if is_zero m then some (pos 0) else int_mod n m
meaning and n m = some (if is_zero n then pos 0 else if is_zero m then pos 0 else pos 1)
meaning or n m = some (if is_zero n && is_zero m then pos 0 else pos 1)
meaning lt n m = some (of_bool (ltb_ℤ n m))
meaning gt n m = some (of_bool (ltb_ℤ m n))
meaning le n m = some (of_bool (ltb_ℤ n m || same_ℤ n m))
meaning ge n m = some (of_bool (ltb_ℤ m n || same_ℤ n m))
meaning eq n m = some (of_bool (same_ℤ n m))
meaning ne n m = some (of_bool (not (same_ℤ n m)))
meaning min n m = some (if ltb_ℤ n m then n else m)
meaning max n m = some (if ltb_ℤ n m then m else n)

-- A scaling unit: a factor, or a ratio.
pub data Scale : Type 0 where
  factor : ℕ → Scale
  ratio : ℕ → ℕ → Scale
  basic : Scale

-- The units, as multiples of a basic unit
abbrev pub unit_table : List (ℕ × Scale)
unit_table =
    (b'f', factor 65536)
    ∷ (b'i', factor 240)
    ∷ (b'c', ratio 24000 254)
    ∷ (b'v', factor 40)
    ∷ (b'P', factor 40)
    ∷ (b'm', factor 24)
    ∷ (b'n', factor 24)
    ∷ (b'p', ratio 40 12)
    ∷ (b'M', ratio 24 100)
    ∷ []

abbrev pub scale_of : ℕ → List (ℕ × Scale) → Scale
scale_of u [] = basic
scale_of u (p ∷ ps) = if u == p.0 then p.1 else scale_of u ps

module _ (d : Double) (unit : ℕ) where
  abbrev pub in_scale : Scale → d.Real → d.Real
  in_scale (factor n) x = d.mul x (d.lit n)
  in_scale (ratio n m) x = d.div (d.mul x (d.lit n)) (d.lit m)
  in_scale basic x = x

  -- The value of a string of digits, one digit after the other.
  unfoldable pub digits_value : d.Real → Bytes → d.Real
  digits_value acc [] = acc
  digits_value acc (c ∷ cs) = digits_value (d.add (d.mul acc (d.lit 10)) (d.lit (c - b'0'))) cs

  -- The value of an expression, from left to right with no precedence; `none` is a trap.
  unfoldable mutual
    pub value : Operand → Option ℤ
    value (digits c cs) =
        some (d.to_int (in_scale (scale_of unit unit_table) (digits_value (d.lit 0) (c ∷ cs))))
    value (paren o t) = bind (value o) (λ n. tail_value n t)

    pub tail_value : ℤ → Tail → Option ℤ
    tail_value n end = some n
    tail_value n (more op o t) = bind (value o) (λ m. bind (meaning op n m) (λ k. tail_value k t))

-- What may follow a number: nothing that would go on with it, and no blank.
pub record EndsNumber (rest : Bytes) : Type 0 where
  pub no_digit : isdigit (peek rest) ≡ false
  pub no_point : (peek rest == b'.') ≡ false
  pub no_unit : (not (peek rest == 0) && elem (peek rest) (codes "ficvPmnpuM")) ≡ false
  pub no_space : isspace (peek rest) ≡ false
