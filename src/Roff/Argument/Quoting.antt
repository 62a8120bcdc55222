-- ===== src/Roff/Argument/Quoting.antt =====
-- Quoted arguments, in the model of `roff_getarg`.
use mandoc_mirror.Prelude.{
  ℕ, zero, suc, ◌≤◌, ◌<◌, ◌≡◌, refl, ◌∙◌, ap, Bool, true, false, List, [], ◌∷◌, ◌++◌, arith, ◌==◌,
  if◌then◌else◌, if_both, Bool-cases, inl, inr, Bytes, peek, length, map,
}
use mandoc_mirror.Roff.Argument.{
  Argument, end_quoted, round, do_round, arg_loop, add_byte, getarg, userdef_args, escape_quotes,
  past_blanks, make_quote, end_quote, move_byte,
}

-- Without backslashes
abbrev pub NoEscapes : Bytes → Type 0
NoEscapes [] = Unit {0}
NoEscapes (c ∷ x) = (c == b'\\' ≡ false) × NoEscapes x

-- An argument with its quotes doubled, in front of the rest of a line
abbrev pub double_quotes : Bytes → Bytes → Bytes
double_quotes [] r = r
double_quotes (c ∷ x) r = if c == b'"' then c ∷ c ∷ double_quotes x r else c ∷ double_quotes x r

-- An argument in quotes
abbrev pub quote_arg : Bytes → Bytes → Bytes
quote_arg x r = b'"' ∷ double_quotes x (b'"' ∷ r)

-- A line of arguments in quotes, with a blank behind each
abbrev pub print_args : List Bytes → Bytes
print_args [] = []
print_args (x ∷ xs) = quote_arg x (b' ' ∷ print_args xs)

pub add_byte_lem : (out : Bytes) (c : ℕ) (x : Bytes) → add_byte out c ++ x ≡ out ++ c ∷ x
add_byte_lem [] c x = refl
add_byte_lem (d ∷ out) c x = ap (λ (y : Bytes). d ∷ y) (add_byte_lem out c x)

pub append_nil : (out : Bytes) → out ++ [] ≡ out
append_nil [] = refl
append_nil (d ∷ out) = ap (λ (y : Bytes). d ∷ y) (append_nil out)

round_plain : (c d : ℕ) → c == b'\\' ≡ false → c == b'"' ≡ false → round true c d ≡ move_byte
unfolding round
round_plain c d e q = rw (e, q) refl

round_pair :
    (c d : ℕ)
    → c == b'\\' ≡ false
    → c == b'"' ≡ true
    → d == b'"' ≡ true
    → round true c d ≡ make_quote
unfolding round
round_pair c d e q f = rw (e, q, f) refl

round_end : (d : ℕ) → d == b'"' ≡ false → round true b'"' d ≡ end_quote
unfolding round
round_end d f = rw f refl

length-double_quotes : (x r : Bytes) → length r ≤ length (double_quotes x r)
length-double_quotes [] r = omega arith
length-double_quotes (c ∷ x) r =
    if_both (λ (w : Bytes). length r ≤ length w) (c == b'"')
      (λ b. omega (arith, length-double_quotes x r)) λ b. omega (arith, length-double_quotes x r)

arg_loop-quoted :
    (fuel : ℕ) (start out x r : Bytes)
    → NoEscapes x
    → peek r == b'"' ≡ false
    → length (double_quotes x (b'"' ∷ r)) < fuel
    → arg_loop fuel start true false out (double_quotes x (b'"' ∷ r))
      ≡ record { text = out ++ x; newesc = false; quoted = end_quoted; rest = b'"' ∷ r }
unfolding arg_loop do_round
arg_loop-quoted zero start out x r n p l = absurd (omega arith)
arg_loop-quoted (suc fuel) start out [] r n p l = rw (round_end (peek r) p, append_nil out) refl
arg_loop-quoted (suc fuel) start out (c ∷ x) r n p l = elim (Bool-cases (c == b'"')) [
  | inl b ↦
      rw (← add_byte_lem out c x, b, round_pair c c n.0 b b)
        (arg_loop-quoted fuel start (add_byte out c) x r n.1 p (omega (arith, lt_pair b)))
  | inr b ↦
      rw (← add_byte_lem out c x, b, round_plain c (peek (double_quotes x (b'"' ∷ r))) n.0 b)
        (arg_loop-quoted fuel start (add_byte out c) x r n.1 p (omega (arith, lt_pair b)))
]
  where
    lt_pair : {t : Bool} → c == b'"' ≡ t → length (double_quotes x (b'"' ∷ r)) < fuel
    lt_pair q = ground (arith, l)

past_blanks_lem : (v : Bytes) → peek v == b' ' ≡ false → past_blanks v ≡ v
unfolding past_blanks
past_blanks_lem [] h = refl
past_blanks_lem (c ∷ v) h = rw h refl

getarg-quoted :
    (x r : Bytes)
    → NoEscapes x
    → peek r == b' ' ≡ false
    → getarg (quote_arg x (b' ' ∷ r))
      ≡ record { text = x; newesc = false; quoted = end_quoted; rest = r }
unfolding getarg past_blanks
getarg-quoted x r n p =
    let w = double_quotes x (b'"' ∷ b' ' ∷ r) in
    rw
      (arg_loop-quoted (suc (length w)) w [] x (b' ' ∷ r) n refl (omega arith), past_blanks_lem r p)
      refl

abbrev pub AllNoEscapes : List Bytes → Type 0
AllNoEscapes [] = Unit {0}
AllNoEscapes (x ∷ xs) = NoEscapes x × AllNoEscapes xs

print_args_lem : (xs : List Bytes) → peek (print_args xs) == b' ' ≡ false
print_args_lem [] = refl
print_args_lem (x ∷ xs) = refl

userdef_args_step :
    (fuel c : ℕ) (v : Bytes) (a : Argument)
    → getarg (c ∷ v) ≡ a
    → userdef_args (suc fuel) (c ∷ v) ≡ escape_quotes a.text ∷ userdef_args fuel a.rest
unfolding userdef_args
userdef_args_step fuel c v a e =
    ap (λ (b : Argument). escape_quotes b.text ∷ userdef_args fuel b.rest) e

-- Arguments without backslashes, each in quotes with its own quotes doubled, and a blank behind it, are
-- what the loop of `roff_userdef` reads back with `roff_getarg`, with fuel for each of them, but for
-- the quotes inside, which it stores as `\(dq`.
pub userdef_args-print_args :
    (fuel : ℕ) (xs : List Bytes)
    → AllNoEscapes xs
    → length xs < fuel
    → userdef_args fuel (print_args xs) ≡ map escape_quotes xs
unfolding userdef_args
userdef_args-print_args zero xs n l = absurd (omega arith)
userdef_args-print_args (suc fuel) [] n l = refl
userdef_args-print_args (suc fuel) (x ∷ xs) n l =
    userdef_args_step fuel b'"' (double_quotes x (b'"' ∷ b' ' ∷ print_args xs)) _
      (getarg-quoted x (print_args xs) n.0 (print_args_lem xs))
    ∙ (ap (λ (ys : List Bytes). escape_quotes x ∷ ys)
        (userdef_args-print_args fuel xs n.1 (omega arith)))
