-- ===== src/Roff/Number/Traps.antt =====
-- The divisions in numeric expressions that trap.
use mandoc_mirror.Prelude.{
  ℕ, ◌-◌, ◌^◌, ◌<◌, ◌≡◌, ◌⊎◌, ◌∙◌, none, some, Bool, true, arith, inl, inr, ◌++◌, Bytes, ap, length,
}
use mandoc_mirror.Prelude.Int.{ℤ, negsuc}
use mandoc_mirror.Roff.Double.{Double}
use mandoc_mirror.Roff.Int32.{int_div, int_mod, int_div-none, int_mod-none}
use mandoc_mirror.Roff.Number.{apply_op, trapped, getop, evalnum}
use mandoc_mirror.Roff.Number.Value.{
  Op, Operand, Tail, paren, more, print, print_tail, Proper, ProperTail, bind, value, tail_value,
  meaning, EndsNumber,
}
use mandoc_mirror.Roff.Number.Refine.{outcome, evalnum-value}

-- An operator traps only in dividing the least `int` by -1, by / or %.
pub apply_op-none :
    (op : ℕ) (a b : ℤ)
    → apply_op op a b ≡ none
    → ((op ≡ b'/') ⊎ (op ≡ b'%')) × (a ≡ negsuc (2 ^ 31 - 1)) × (b ≡ negsuc 0)
unfolding apply_op
apply_op-none op a b h = ground (arith, int_div-none a b, int_mod-none a b)

meaning_traps :
    (op : Op)
    → (op ≡ Op.divide) ⊎ (op ≡ Op.modulo)
    → meaning op (negsuc (2 ^ 31 - 1)) (negsuc 0) ≡ none
unfolding int_div int_mod
meaning_traps op (inl e) = rw e
meaning_traps op (inr e) = rw e

value_traps :
    (d : Double) (unit : ℕ) (o p : Operand) (op : Op) (t : Tail)
    → (op ≡ Op.divide) ⊎ (op ≡ Op.modulo)
    → value d unit o ≡ some (negsuc (2 ^ 31 - 1))
    → value d unit p ≡ some (negsuc 0)
    → value d unit (paren o (more op p t)) ≡ none
unfolding value
value_traps d unit o p op t c h k =
    ap (λ x. bind x (λ n. tail_value d unit n (more op p t))) h
    ∙ ap (λ x. bind x (λ m. bind (meaning op (negsuc (2 ^ 31 - 1)) m) (λ j. tail_value d unit j t)))
        k
    ∙ ap (λ x. bind x (λ j. tail_value d unit j t)) (meaning_traps op c)

-- With more fuel than bytes, `roff_evalnum` traps at an expression that begins with a division, by / or %,
-- of an operand with the least `int` as its value by one with the value -1, whatever operators and
-- operands follow.
pub evalnum_traps :
    (d : Double) (unit : ℕ) (o p : Operand) (op : Op) (t : Tail) (fuel : ℕ) (skip : Bool)
    (rest : Bytes)
    → (op ≡ Op.divide) ⊎ (op ≡ Op.modulo)
    → value d unit o ≡ some (negsuc (2 ^ 31 - 1))
    → value d unit p ≡ some (negsuc 0)
    → Proper o
    → ProperTail (more op p t)
    → EndsNumber rest
    → getop rest ≡ none
    → length (print o ++ (print_tail (more op p t) ++ rest)) < fuel
    → evalnum d fuel true unit skip (print o ++ (print_tail (more op p t) ++ rest)) ≡ trapped
evalnum_traps d unit o p op t fuel skip rest c h k q r e s l =
    evalnum-value d unit o (more op p t) fuel skip rest q r e s l
    ∙ ap (λ x. outcome x rest) (value_traps d unit o p op t c h k)
