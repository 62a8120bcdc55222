-- ===== src/Roff/Number/Print.antt =====
-- Each piece of a printed expression is read back.
use mandoc_mirror.Prelude.{
  ℕ, suc, ◌+◌, ◌-◌, ◌≡◌, refl, Bool, true, false, some, [], ◌∷◌, ◌++◌, ◌==◌, arith, Bytes, peek,
  isdigit, isspace, elem, skip_space, length, length-append,
}
use mandoc_mirror.Roff.Double.{Double}
use mandoc_mirror.Roff.Number.{
  parsed, getop, spaces, scan_digits, scan_num, scaled, finish_num, getnum,
}
use mandoc_mirror.Roff.Number.Value.{
  Op, plus, lt, gt, eq, spelling, letter, Operand, digits, paren, Tail, end, more, print,
  print_tail, AllDigits, Proper, digits_value, EndsNumber,
}

pub skip_space_none : (v : Bytes) → isspace (peek v) ≡ false → skip_space v ≡ v
unfolding skip_space
skip_space_none [] h = refl
skip_space_none (c ∷ v) h = rw (h, skip_space)

pub spaces_none : (skip : Bool) (v : Bytes) → isspace (peek v) ≡ false → spaces skip v ≡ v
spaces_none true v h = skip_space_none v h
spaces_none false v h = refl

digit_not_space : (c : ℕ) → isdigit c ≡ true → isspace c ≡ false
digit_not_space c h = ground arith

pub getop-spelling :
    (op : Op) (w : Bytes)
    → (peek w == b'=') ≡ false
    → (peek w == b'>') ≡ false
    → (peek w == b'?') ≡ false
    → getop (spelling op ++ w) ≡ some (letter op, w)
unfolding getop elem
getop-spelling plus w h k l = refl
getop-spelling lt w h k l = simp (h, k, l)
getop-spelling gt w h k l = simp (h, l)
getop-spelling eq w h k l = simp h
getop-spelling _ w h k l = refl

pub EndsNumber-tail :
    (t : Tail) (rest : Bytes) → EndsNumber rest → EndsNumber (print_tail t ++ rest)
unfolding print_tail elem
EndsNumber-tail end rest h = h
EndsNumber-tail (more plus o t) rest h = record {
  no_digit = refl;
  no_point = refl;
  no_unit = refl;
  no_space = refl;
}
EndsNumber-tail (more op o t) rest h = record {
  no_digit = refl;
  no_point = refl;
  no_unit = refl;
  no_space = refl;
}

-- The first byte of an operand.
pub record BeginsOperand (v : Bytes) : Type 0 where
  pub no_space : isspace (peek v) ≡ false
  pub no_eq : (peek v == b'=') ≡ false
  pub no_gt : (peek v == b'>') ≡ false
  pub no_question : (peek v == b'?') ≡ false

digit-BeginsOperand : (c : ℕ) (v : Bytes) → isdigit c ≡ true → BeginsOperand (c ∷ v)
digit-BeginsOperand c v h = ground arith

pub print-BeginsOperand : (o : Operand) (rest : Bytes) → Proper o → BeginsOperand (print o ++ rest)
unfolding print
print-BeginsOperand (digits c cs) rest h = digit-BeginsOperand c (cs ++ rest) h.0
print-BeginsOperand (paren o t) rest h = record {
  no_space = refl;
  no_eq = refl;
  no_gt = refl;
  no_question = refl;
}

module _ (d : Double) (unit : ℕ) where
  scan_digits-append :
      (acc : d.Real) (cs rest : Bytes)
      → AllDigits cs
      → isdigit (peek rest) ≡ false
      → scan_digits d acc (cs ++ rest) ≡ (digits_value d unit acc cs, rest)
  unfolding scan_digits digits_value
  scan_digits-append acc [] [] h k = refl
  scan_digits-append acc [] (c ∷ rest) h k = rw (k, scan_digits)
  scan_digits-append acc (c ∷ cs) rest h k =
      rw (h.0, scan_digits)
        (scan_digits-append (d.add (d.mul acc (d.lit 10)) (d.lit (c - b'0'))) cs rest h.1 k)

  pub getnum-digits :
      (skip : Bool) (c : ℕ) (cs rest : Bytes)
      → isdigit c ≡ true
      → AllDigits cs
      → EndsNumber rest
      → getnum d unit skip (c ∷ (cs ++ rest))
        ≡ parsed (d.to_int (scaled d unit (digits_value d unit (d.lit 0) (c ∷ cs)))) rest
  unfolding getnum scan_num finish_num
  getnum-digits skip c cs rest h k e =
      let n : (c == b'-') ≡ false = ground arith in
      let p : (c == b'+') ≡ false = ground arith in
      let l : (length rest + 0 == suc (length (cs ++ rest))) ≡ false =
        ground (arith, length-append {0} cs rest) in
      simp (
        n,
        p,
        spaces_none skip (c ∷ (cs ++ rest)) (digit_not_space c h),
        scan_digits-append (d.lit 0) (c ∷ cs) rest (h, k) e.no_digit,
        e.no_point,
        l,
        e.no_unit,
      )
