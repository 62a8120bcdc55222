-- ===== src/Roff/Number/Refine.antt =====
-- `roff_evalnum` computes the value of every printed expression.
use mandoc_mirror.Prelude.{
  ℕ, zero, suc, ◌-◌, ◌≤◌, ◌<◌, ◌≡◌, refl, Bool, true, false, Option, none, some, [], ◌∷◌, ◌++◌,
  append_assoc, ◌∙◌, ap, ◌==◌, arith, Bytes, peek, isdigit, isspace, elem, length, length-append,
}
use mandoc_mirror.Prelude.Int.{ℤ}
use mandoc_mirror.Roff.Double.{Double}
use mandoc_mirror.Roff.Number.{
  Num, parsed, trapped, getop, spaces, getnum, close, evalpar, proceed, operate, apply_next,
  evalnum, operators,
}
use mandoc_mirror.Roff.Number.Value.{
  Op, spelling, letter, Operand, digits, paren, Tail, end, more, print, print_tail, Proper,
  ProperTail, bind, value, tail_value, EndsNumber, meaning, digits_value,
}
use mandoc_mirror.Roff.Number.Meaning.{apply_op-meaning, scaled-in_scale}
use mandoc_mirror.Roff.Number.Print.{
  spaces_none, getop-spelling, EndsNumber-tail, print-BeginsOperand, getnum-digits,
}

-- A value that was computed, or a trap.
abbrev pub outcome : Option ℤ → Bytes → Num
outcome (some n) rest = parsed n rest
outcome none rest = trapped

print_paren :
    (o : Operand) (t : Tail) (rest : Bytes)
    → print (paren o t) ++ rest ≡ b'(' ∷ (print o ++ (print_tail t ++ (b')' ∷ rest)))
unfolding print
print_paren o t rest = rw (append_assoc, append_assoc)

print_more :
    (op : Op) (o : Operand) (t : Tail) (rest : Bytes)
    → print_tail (more op o t) ++ rest ≡ spelling op ++ (print o ++ (print_tail t ++ rest))
unfolding print
print_more op o t rest = rw (append_assoc, append_assoc)

length-spelling : (op : Op) → 0 < length (spelling op)
length-spelling Op.plus = omega arith
length-spelling _ = omega arith

EndsNumber-close : (rest : Bytes) → EndsNumber (b')' ∷ rest)
unfolding elem
EndsNumber-close rest = record { no_digit = refl; no_point = refl; no_unit = refl; no_space = refl }

getop-close : (rest : Bytes) → getop (b')' ∷ rest) ≡ none
unfolding getop elem
getop-close rest = refl

length-print : (o : Operand) (rest : Bytes) → length rest < length (print o ++ rest)
unfolding print
length-print (digits c cs) rest = omega (arith, length-append {0} cs rest)
length-print (paren o t) rest =
    omega (arith, length-append {0} (print o ++ (print_tail t ++ (b')' ∷ []))) rest)

length-paren :
    (o : Operand) (t : Tail) (rest : Bytes)
    → length (print (paren o t) ++ rest) ≡ suc (length (print o ++ (print_tail t ++ (b')' ∷ rest))))
length-paren o t rest = ap length (print_paren o t rest)

length-more :
    (op : Op) (o : Operand) (t : Tail) (rest : Bytes)
    → length (print o ++ (print_tail t ++ rest)) < length (print_tail (more op o t) ++ rest)
length-more op o t rest = omega (
  arith,
  ap length (print_more op o t rest),
  length-spelling op,
  length-append {0} (spelling op) (print o ++ (print_tail t ++ rest)),
)

space_spelling : (op : Op) (v : Bytes) → isspace (peek (spelling op ++ v)) ≡ false
space_spelling Op.plus v = refl
space_spelling _ v = refl

module _ (d : Double) (unit : ℕ) where
  apply_none :
      (operand : Bytes → Num) (again : ℤ → Bytes → Num) (n : ℤ) (v : Bytes)
      → apply_next operand again true n v none ≡ parsed n v
  unfolding apply_next
  apply_none operand again n v = refl

  evalnum_step :
      (fuel : ℕ) (skip : Bool) (v : Bytes)
      → 0 < fuel
      → evalnum d fuel true unit skip v
        ≡ proceed
            (λ n w. operators d (fuel - 1) true unit skip n w)
            (evalpar d (λ w. evalnum d (fuel - 1) true unit true w) true unit skip (spaces skip v))
  unfolding evalnum
  evalnum_step zero skip v h = absurd (omega arith)
  evalnum_step (suc fuel) skip v h = let e : suc fuel - 1 ≡ fuel = omega arith in rw e

  operators_step :
      (fuel : ℕ) (skip : Bool) (n : ℤ) (v : Bytes)
      → 0 < fuel
      → isspace (peek v) ≡ false
      → operators d fuel true unit skip n v
        ≡ apply_next
            (λ w.
              evalpar d (λ x. evalnum d (fuel - 1) true unit true x) true unit skip (spaces skip w))
            (λ k x. operators d (fuel - 1) true unit skip k (spaces skip x))
            true
            n
            v
            (getop v)
  unfolding operators
  operators_step zero skip n v h k = absurd (omega arith)
  operators_step (suc fuel) skip n v h k =
      let e : suc fuel - 1 ≡ fuel = omega arith in rw (e, spaces_none skip v k)

  evalpar_paren :
      (inner : Bytes → Num) (skip : Bool) (v : Bytes)
      → evalpar d inner true unit skip (b'(' ∷ v) ≡ close true (inner v)
  unfolding evalpar
  evalpar_paren inner skip v = refl

  evalpar_digits :
      (inner : Bytes → Num) (skip : Bool) (c : ℕ) (v : Bytes)
      → isdigit c ≡ true
      → evalpar d inner true unit skip (c ∷ v) ≡ getnum d unit skip (c ∷ v)
  unfolding evalpar
  evalpar_digits inner skip c v h = let e : (c == b'(') ≡ false = ground arith in simp e

  close-outcome :
      (o : Option ℤ) (rest : Bytes) → close true (outcome o (b')' ∷ rest)) ≡ outcome o rest
  unfolding close
  close-outcome none rest = refl
  close-outcome (some n) rest = refl

  -- Behind the first operand.
  proceed-outcome :
      (o : Option ℤ) (f : ℤ → Option ℤ) (k : ℤ → Bytes → Num) (rest rest' : Bytes)
      → ((n : ℤ) → k n rest ≡ outcome (f n) rest')
      → proceed k (outcome o rest) ≡ outcome (bind o f) rest'
  unfolding proceed
  proceed-outcome none f k rest rest' h = refl
  proceed-outcome (some n) f k rest rest' h = h n

  apply_outcome :
      (op : Op) (n : ℤ) (o : Option ℤ) (f : ℤ → Option ℤ) (operand : Bytes → Num)
      (again : ℤ → Bytes → Num) (v w rest rest' : Bytes)
      → operand w ≡ outcome o rest
      → ((k : ℤ) → again k rest ≡ outcome (f k) rest')
      → apply_next operand again true n v (some (letter op, w))
        ≡ outcome (bind o (λ m. bind (meaning op n m) f)) rest'
  unfolding apply_next proceed operate
  apply_outcome op n none f operand again v w rest rest' h k = rw h
  apply_outcome op n (some m) f operand again v w rest rest' h k = rw h (
      ap (λ (o : Option ℤ). elim o [ none ↦ trapped | some j ↦ again j rest ])
        (apply_op-meaning op n m)
      ∙ go (meaning op n m))
    where
      go :
          (o : Option ℤ)
          → elim o [ none ↦ trapped | some j ↦ again j rest ] ≡ outcome (bind o f) rest'
      go none = refl
      go (some j) = k j

  -- An operand and what follows it, from the facts about the parts.
  chain_value :
      (o : Operand) (t : Tail) (fuel : ℕ) (skip : Bool) (rest : Bytes)
      → Proper o
      → 0 < fuel
      → evalpar d
          (λ w. evalnum d (fuel - 1) true unit true w)
          true
          unit
          skip
          (print o ++ (print_tail t ++ rest))
        ≡ outcome (value d unit o) (print_tail t ++ rest)
      → ((n : ℤ)
          → operators d (fuel - 1) true unit skip n (print_tail t ++ rest)
            ≡ outcome (tail_value d unit n t) rest)
      → evalnum d fuel true unit skip (print o ++ (print_tail t ++ rest))
        ≡ outcome (value d unit (paren o t)) rest
  unfolding value
  chain_value o t fuel skip rest h l first follows =
      let b = print-BeginsOperand o (print_tail t ++ rest) h in
      evalnum_step fuel skip _ l
      ∙ rw (spaces_none skip _ b.no_space) (
          ap (proceed (λ n w. operators d (fuel - 1) true unit skip n w)) first
          ∙ proceed-outcome (value d unit o) (λ n. tail_value d unit n t) _ (print_tail t ++ rest)
              rest follows)

  mutual
    unfolding value print

    operand_value :
        (o : Operand) (fuel : ℕ) (skip : Bool) (rest : Bytes)
        → Proper o
        → EndsNumber rest
        → length (print o ++ rest) ≤ fuel
        → evalpar d (λ w. evalnum d fuel true unit true w) true unit skip (print o ++ rest)
          ≡ outcome (value d unit o) rest
    operand_value (digits c cs) fuel skip rest h e l =
        evalpar_digits (λ w. evalnum d fuel true unit true w) skip c (cs ++ rest) h.0
        ∙ getnum-digits d unit skip c cs rest h.0 h.1 e
        ∙ ap (λ (x : d.Real). parsed (d.to_int x) rest)
            (scaled-in_scale d unit (digits_value d unit (d.lit 0) (c ∷ cs)))
    operand_value (paren o t) fuel skip rest h e l =
        let rest' = b')' ∷ rest in
        let enough = length-paren o t rest in
        let ends = EndsNumber-tail t rest' (EndsNumber-close rest) in
        let first =
          operand_value o (fuel - 1) true (print_tail t ++ rest') h.0 ends
            (omega (arith, enough)) in
        let follows = λ (n : ℤ).
          tail_follows t (fuel - 1) true n rest' h.1 (EndsNumber-close rest) (getop-close rest)
            (omega (arith, enough, length-print o (print_tail t ++ rest'))) in
        rw (append_assoc, append_assoc)
          (evalpar_paren (λ w. evalnum d fuel true unit true w) skip
              (print o ++ (print_tail t ++ rest'))
            ∙ ap (close true)
                (chain_value o t fuel true rest' h.0 (omega (arith, enough)) first follows)
            ∙ close-outcome (value d unit (paren o t)) rest)

    tail_follows :
        (t : Tail) (fuel : ℕ) (skip : Bool) (n : ℤ) (rest : Bytes)
        → ProperTail t
        → EndsNumber rest
        → getop rest ≡ none
        → length (print_tail t ++ rest) < fuel
        → operators d fuel true unit skip n (print_tail t ++ rest)
          ≡ outcome (tail_value d unit n t) rest
    tail_follows end fuel skip n rest h e s l =
        operators_step fuel skip n rest (omega arith) e.no_space ∙ rw s (apply_none _ _ n rest)
    tail_follows (more op o t) fuel skip n rest h e s l =
        let after = print_tail t ++ rest in
        let enough = length-more op o t rest in
        let b = print-BeginsOperand o after h.0 in
        let ends = EndsNumber-tail t rest e in
        let operand = operand_value o (fuel - 1) skip after h.0 ends (omega (arith, enough)) in
        let again = λ (k : ℤ).
          tail_follows t (fuel - 1) skip k rest h.1 e s
            (omega (arith, enough, length-print o after)) in
        rw print_more (
          operators_step fuel skip n _ (omega arith) (space_spelling op (print o ++ after))
          ∙ rw (getop-spelling op (print o ++ after) b.no_eq b.no_gt b.no_question) (
              apply_outcome op n (value d unit o) (λ k. tail_value d unit k t) _ _ _
                (print o ++ after) after rest (rw (spaces_none skip _ b.no_space) operand)
                (λ k. rw (spaces_none skip _ ends.no_space) (again k))))

  -- With more fuel than bytes, roff_evalnum applied to a printed expression of digits, operators and
  -- parentheses gives its value, where each operator has its meaning of its own and they are applied
  -- from left to right, or traps where a division in it does, and leaves the parse point behind the
  -- expression, whatever follows that goes on with no number, no blank and no operator.
  pub evalnum-value :
      (o : Operand) (t : Tail) (fuel : ℕ) (skip : Bool) (rest : Bytes)
      → Proper o
      → ProperTail t
      → EndsNumber rest
      → getop rest ≡ none
      → length (print o ++ (print_tail t ++ rest)) < fuel
      → evalnum d fuel true unit skip (print o ++ (print_tail t ++ rest))
        ≡ outcome (value d unit (paren o t)) rest
  evalnum-value o t fuel skip rest h k e s l =
      chain_value o t fuel skip rest h (omega arith)
        (operand_value o (fuel - 1) skip (print_tail t ++ rest) h (EndsNumber-tail t rest e)
          (omega arith))
        (λ n.
          tail_follows t (fuel - 1) skip n rest k e s
            (omega (arith, length-print o (print_tail t ++ rest))))
