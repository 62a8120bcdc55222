-- ===== src/Roff/Int32.antt =====
-- C's `int` with 32 bits, in two's complement. Sums, differences and products wrap around; a
-- quotient is cut towards zero, and the one that does not fit is `none`, a trap of the processor.
use mandoc_mirror.Prelude.{
  ℕ, suc, ◌-◌, ◌/◌, ◌%◌, ◌^◌, ◌<◌, ◌≡◌, Bool, true, false, not, ◌&&◌, Option, none, some, ltb, ◌==◌,
  if◌then◌else◌, arith,
}
use mandoc_mirror.Prelude.Int.{ℤ, pos, negsuc, sub_ℕ, ◌+ℤ◌, ◌-ℤ◌, ◌*ℤ◌, ltb_ℤ}

-- The integer that a bit pattern stands for.
abbrev pub of_pattern : ℕ → ℤ
of_pattern u = if ltb u (2 ^ 31) then pos u else negsuc (2 ^ 32 - 1 - u)

unfoldable pub wrap : ℤ → ℤ
wrap (pos n) = of_pattern (n % 2 ^ 32)
wrap (negsuc n) = of_pattern (2 ^ 32 - 1 - n % 2 ^ 32)

-- The values of an `int`.
abbrev pub IsInt : ℤ → Type 0
IsInt (pos n) = n < 2 ^ 31
IsInt (negsuc n) = n < 2 ^ 31

unfoldable pub int_add : ℤ → ℤ → ℤ
unfolding wrap ◌+ℤ◌
int_add a b = wrap (a +ℤ b)

unfoldable pub int_sub : ℤ → ℤ → ℤ
unfolding wrap ◌-ℤ◌
int_sub a b = wrap (a -ℤ b)

unfoldable pub int_mul : ℤ → ℤ → ℤ
unfolding wrap ◌*ℤ◌
int_mul a b = wrap (a *ℤ b)

abbrev pub is_zero : ℤ → Bool
is_zero (pos n) = n == 0
is_zero (negsuc n) = false

abbrev pub is_neg : ℤ → Bool
is_neg (pos n) = false
is_neg (negsuc n) = true

abbrev pub magnitude : ℤ → ℕ
magnitude (pos n) = n
magnitude (negsuc n) = suc n

-- The integer with a sign and a magnitude.
abbrev pub signed : Bool → ℕ → ℤ
signed n m = if n then sub_ℕ 0 m else pos m

abbrev pub xor_bool : Bool → Bool → Bool
xor_bool a b = if a then not b else b

abbrev pub min_over_minus_one : ℤ → ℤ → Bool
min_over_minus_one a b = is_neg a && magnitude a == 2 ^ 31 && is_neg b && magnitude b == 1

-- `a / b`, where `b` is not 0
unfoldable pub int_div : ℤ → ℤ → Option ℤ
int_div a b =
    if min_over_minus_one a b
    then none
    else some (signed (xor_bool (is_neg a) (is_neg b)) (magnitude a / magnitude b))

-- `a % b`, where `b` is not 0: the sign is that of `a`.
unfoldable pub int_mod : ℤ → ℤ → Option ℤ
int_mod a b =
    if min_over_minus_one a b then none else some (signed (is_neg a) (magnitude a % magnitude b))

abbrev pub eq_ℤ : ℤ → ℤ → Bool
eq_ℤ a b = not (ltb_ℤ a b) && not (ltb_ℤ b a)

abbrev pub of_bool : Bool → ℤ
of_bool true = pos 1
of_bool false = pos 0

-- A value that fits is not changed.
pub wrap-IsInt : (z : ℤ) → IsInt z → wrap z ≡ z
unfolding wrap
wrap-IsInt (pos n) h = ground arith
wrap-IsInt (negsuc n) h = ground arith

pub IsInt-wrap : (z : ℤ) → IsInt (wrap z)
unfolding wrap
IsInt-wrap (pos n) = ground arith
IsInt-wrap (negsuc n) = ground arith

pub int_div-none : (a b : ℤ) → int_div a b ≡ none → (a ≡ negsuc (2 ^ 31 - 1)) × (b ≡ negsuc 0)
unfolding int_div
int_div-none (pos a) b h = cc
int_div-none (negsuc a) (pos b) h = ground arith
int_div-none (negsuc a) (negsuc b) h = ground arith

pub int_mod-none : (a b : ℤ) → int_mod a b ≡ none → (a ≡ negsuc (2 ^ 31 - 1)) × (b ≡ negsuc 0)
unfolding int_mod
int_mod-none (pos a) b h = cc
int_mod-none (negsuc a) (pos b) h = ground arith
int_mod-none (negsuc a) (negsuc b) h = ground arith
