-- ===== src/Roff/Tests.antt =====
-- Runs of the code of roff.c, and the theorems at concrete inputs.
use mandoc_mirror.Prelude.{
  ℕ, ◌+◌, ◌*◌, ◌≡◌, refl, true, false, none, some, [], ◌∷◌, inr, arith, codes, elem, skip_space,
  str_same, map,
}
use mandoc_mirror.Prelude.Int.{ℤ, pos, ◌+ℤ◌, ◌*ℤ◌, ◌-ℤ◌}
use mandoc_mirror.Roff.Int32.{int_add, int_sub, int_mul, int_div, wrap}
use mandoc_mirror.Roff.Double.{Double, IsExact}
use mandoc_mirror.Roff.Number.{
  parsed, trapped, getop, apply_op, scan_num, getnum, finish_num, evalpar, evalnum, operate,
  apply_next,
}
use mandoc_mirror.Roff.Number.Point.{Within, evalnum-Within}
use mandoc_mirror.Roff.Number.Value.{
  Operand, digits, paren, Tail, end, more, Op, value, digits_value, print,
}
use mandoc_mirror.Roff.Number.Refine.{outcome, evalnum-value}
use mandoc_mirror.Roff.Number.Traps.{evalnum_traps}
use mandoc_mirror.Roff.Condition.{Environment, past_end, evalstrcond, evalcond}
use mandoc_mirror.Roff.Condition.Strings.{evalstrcond-str_same}
use mandoc_mirror.Roff.Condition.Past.{evalcond-past_end}
use mandoc_mirror.Roff.Register.{
  Reg, find_reg, assign, advance, setregn, int_min, readonly, getregn,
}
use mandoc_mirror.Roff.Register.Lookup.{find_reg-setregn, getregn_lem}
use mandoc_mirror.Roff.Register.Unique.{UniqueKeys}
use mandoc_mirror.Roff.Name.{named, getname}
use mandoc_mirror.Roff.Name.Room.{HasRoom, getname-HasRoom}
use mandoc_mirror.Roff.Argument.{getarg, unquoted, userdef_args, escape_quotes}
use mandoc_mirror.Roff.Argument.Quoting.{print_args, userdef_args-print_args}
use mandoc_mirror.Roff.Argument.Blanks.{getarg-escaped_blank}
use mandoc_mirror.Roff.Strtab.{
  Kv, find_kv, Strings, Wanted, Tables, Macroset, new_value, setstrn, find_val, getstrn, user, copy,
}
use mandoc_mirror.Roff.Strtab.Copy.{double, copy-double}
use mandoc_mirror.Roff.Strtab.Lookup.{UniqueNames, find_val-setstrn}
use mandoc_mirror.Roff.Strtab.Priority.{getstrn-candidates}

-- Integers in place of `double`, exact wherever no fraction and no quotient is needed.
abbrev whole : Double
whole = record {
  Real = ℤ;
  lit = pos;
  tenth = pos 0;
  add = ◌+ℤ◌;
  mul = ◌*ℤ◌;
  div = λ a b. a;
  neg = λ a. pos 0 -ℤ a;
  to_int = λ a. a;
}

whole-add : (a b : ℕ) → pos a +ℤ pos b ≡ pos (a + b)
unfolding ◌+ℤ◌
whole-add a b = ground arith

whole-mul : (a b : ℕ) → pos a *ℤ pos b ≡ pos (a * b)
unfolding ◌*ℤ◌
whole-mul a b = ground arith

whole-IsExact : IsExact whole
whole-IsExact = record {
  lit-add = λ a b h. whole-add a b;
  lit-mul = λ a b h. whole-mul a b;
  to_int-lit = λ a h. refl;
}

left_to_right :
    evalnum whole 20 true b'u' false (codes "1+2*(3-1)>?4x") ≡ parsed (pos 6) (codes "x")
unfolding evalnum evalpar getnum scan_num finish_num getop elem skip_space apply_next operate
    apply_op int_add int_sub int_mul ◌+ℤ◌ ◌*ℤ◌ ◌-ℤ◌ wrap
left_to_right = refl

division_traps : evalnum whole 30 true b'u' false (codes "-2147483648/-1") ≡ trapped
unfolding evalnum evalpar getnum scan_num finish_num getop elem skip_space apply_next operate
    apply_op int_add int_div ◌+ℤ◌ ◌*ℤ◌ ◌-ℤ◌ wrap
division_traps = refl

evalnum-Within_example : Within (codes "(1+2") (evalnum whole 5 true b'u' false (codes "(1+2"))
evalnum-Within_example = evalnum-Within whole 5 true b'u' false (codes "(1+2") (omega arith)

abbrev sum_first : Operand
sum_first = paren (digits b'1' []) (more Op.plus (digits b'2' (b'0' ∷ [])) end)

abbrev times_three : Tail
times_three = more Op.times (digits b'3' []) end

evalnum-value_example :
    evalnum whole 10 true b'u' false (codes "(1+20)*3")
    ≡ outcome (value whole b'u' (paren sum_first times_three)) []
unfolding print getop elem
evalnum-value_example =
    evalnum-value whole b'u' sum_first times_three 10 false []
      ((refl, tt), ((refl, (refl, tt)), tt)) ((refl, tt), tt)
      (record { no_digit = refl; no_point = refl; no_unit = refl; no_space = refl }) refl
      (omega arith)

abbrev least_int : Operand
least_int =
    paren (digits b'0' [])
      (more Op.minus (digits b'2' (codes "147483647")) (more Op.minus (digits b'1' []) end))

abbrev minus_one : Operand
minus_one = paren (digits b'0' []) (more Op.minus (digits b'1' []) end)

evalnum_traps_example :
    evalnum whole 40 true b'u' false (codes "(0-2147483647-1)%(0-1)+3") ≡ trapped
unfolding print value digits_value getop elem wrap ◌+ℤ◌ ◌*ℤ◌ ◌-ℤ◌
evalnum_traps_example =
    evalnum_traps whole b'u' least_int minus_one Op.modulo (more Op.plus (digits b'3' []) end) 40
      false [] (inr refl) refl refl
      (
        (refl, tt),
        (
          (refl, (refl, (refl, (refl, (refl, (refl, (refl, (refl, (refl, (refl, tt)))))))))),
          ((refl, tt), tt),
        ),
      )
      (((refl, tt), ((refl, tt), tt)), ((refl, tt), tt))
      (record { no_digit = refl; no_point = refl; no_unit = refl; no_space = refl }) refl
      (omega arith)

evalstrcond-str_same_example : evalstrcond b'\'' (codes "ab'abc' rest") ≡ (false, codes " rest")
unfolding str_same elem
evalstrcond-str_same_example =
    evalstrcond-str_same b'\'' (codes "ab") (codes "abc") (codes " rest") refl refl

abbrev nothing_there : Environment
nothing_there = record {
  getname = λ v. (v, []);
  has_register = λ n. false;
  is_defined = λ n. false;
  glyph = λ v. (none, v);
}

evalcond-past_end_example : evalcond nothing_there whole 9 (codes "c  ") ≡ past_end true
evalcond-past_end_example = evalcond-past_end nothing_there whole 9 2

abbrev page : Reg
page = record { key = codes "page"; val = pos 3; step = pos 2 }

find_reg-setregn_example :
    find_reg (codes "page") (setregn (codes "page") (pos 4) b'+' int_min (page ∷ []))
    ≡ some (record page { val = pos 7 })
unfolding str_same find_reg assign int_add ◌+ℤ◌ wrap
find_reg-setregn_example =
    find_reg-setregn (codes "page") (codes "page") (pos 4) b'+' int_min (page ∷ [])

getregn_lem_example :
    ((getregn (pos 0) (codes "page") b'+' (page ∷ [])).0 ≡ pos 5)
    × (find_reg (codes "page") (getregn (pos 0) (codes "page") b'+' (page ∷ [])).1
        ≡ some (record page { val = pos 5 }))
unfolding str_same find_reg advance int_add ◌+ℤ◌ wrap readonly
getregn_lem_example = getregn_lem (pos 0) (codes "page") (codes "page") b'+' (page ∷ []) refl

page-UniqueKeys : UniqueKeys (page ∷ [])
unfolding find_reg
page-UniqueKeys = (refl, tt)

abbrev greeting : Kv
greeting = record { key = codes "hi"; val = some (codes "hello") }

greeting-UniqueNames : UniqueNames (greeting ∷ [])
unfolding find_kv
greeting-UniqueNames = (refl, tt)

find_val-setstrn_example :
    (find_val (codes "hi") (setstrn (codes "hi") (some (codes " there")) 1 (greeting ∷ []))
      ≡ some (codes "hello there"))
    × UniqueNames (setstrn (codes "hi") (some (codes " there")) 1 (greeting ∷ []))
unfolding str_same find_val new_value
find_val-setstrn_example =
    find_val-setstrn (codes "hi") (codes "hi") (some (codes " there")) 1 (greeting ∷ [])
      greeting-UniqueNames

abbrev empty_tables : Tables
empty_tables = record { predefined = λ n. none; is_mdoc = λ n. false; is_man = λ n. false }

abbrev all_but_renamed : Wanted
all_but_renamed = record { user = true; ren = false; pre = true; std = true }

abbrev strings : Strings
strings = record { strtab = greeting ∷ []; rentab = [] }

getstrn-candidates_example :
    getstrn empty_tables Macroset.mdoc (codes "hi") all_but_renamed strings
    ≡ (user, some (codes "hello"), strings)
unfolding str_same find_val
getstrn-candidates_example =
    getstrn-candidates empty_tables Macroset.mdoc (codes "hi") all_but_renamed strings

copy-double_example : copy (codes "\\\\.") ≡ codes "\\."
unfolding double
copy-double_example = copy-double (codes "\\.")

userdef_args-print_args_example :
    userdef_args 3 (print_args (codes "a b" ∷ (b'"' ∷ []) ∷ []))
    ≡ map escape_quotes (codes "a b" ∷ (b'"' ∷ []) ∷ [])
userdef_args-print_args_example =
    userdef_args-print_args 3 (codes "a b" ∷ (b'"' ∷ []) ∷ [])
      ((refl, (refl, (refl, tt))), ((refl, tt), tt)) (omega arith)

getarg-escaped_blank_example :
    getarg (codes "\\t\\ xy")
    ≡ record { text = 9 ∷ b'\\' ∷ b'\\' ∷ codes "xy"; newesc = false; quoted = unquoted; rest = [] }
getarg-escaped_blank_example = getarg-escaped_blank (codes "xy") (refl, refl, (refl, refl, tt))

-- Without the tab the blank is kept.
getarg_kept_lem :
    getarg (codes "a\\ xy z")
    ≡ record { text = codes "a\\ xy"; newesc = false; quoted = unquoted; rest = codes "z" }
unfolding getarg
getarg_kept_lem = refl

getname-HasRoom_example : HasRoom 0 (codes "a\\.b\\fRx y") (getname (codes "a\\.b\\fRx y"))
getname-HasRoom_example = getname-HasRoom (codes "a\\.b\\fRx y") refl

getname_plain_lem : getname (codes "ab  x") ≡ named (codes "ab") (codes "x")
unfolding getname
getname_plain_lem = refl
