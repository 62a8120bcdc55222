-- ===== src/Roff/Argument.antt =====
-- The arguments of a request or macro, `roff_getarg` of roff.c, up to the call of `roff_expand`, and the
-- loop of `roff_userdef` over them. The argument is moved to the left in place: `out` is what stands
-- from `start` on up to `cp - pairs`, and the byte there is still that of the line.
pub mod Quoting
pub mod Blanks
use mandoc_mirror.Prelude.{
  ℕ, zero, suc, Bool, true, false, List, [], ◌∷◌, ◌++◌, ◌==◌, not, ◌&&◌, ◌||◌, if◌then◌else◌, Bytes,
  peek, next, length, get_or, codes,
}

-- `quoted` at the end of the loop: 0, 1 and 2
pub data Quoted : Type 0 where
  unquoted still_quoted end_quoted : Quoted

-- The argument, `newesc`, and the line from `cp` on
pub record Argument : Type 0 where
  pub text : Bytes
  pub newesc : Bool
  pub quoted : Quoted
  pub rest : Bytes

-- What the loop does at a byte
pub data ArgStep : Type 0 where
  move_byte make_tab make_backslash skip_escaped make_quote end_word end_quote : ArgStep

-- At the byte `c` with `d` behind it
unfoldable pub round : Bool → ℕ → ℕ → ArgStep
round quoted c d =
    if c == b'\\'
    then if d == b'a' || d == b't'
      then make_tab
      else if d == b'\\'
      then make_backslash
      else if d == b' ' && not quoted
      then skip_escaped
      else move_byte
    else if not quoted
    then if c == b' ' then end_word else move_byte
    else if c == b'"'
    then if d == b'"' then make_quote else end_quote
    else move_byte

abbrev pub quoted_at_end : Bool → Quoted
quoted_at_end true = still_quoted
quoted_at_end false = unquoted

abbrev pub add_byte : Bytes → ℕ → Bytes
add_byte out c = out ++ c ∷ []

-- One round at the line `c ∷ v`, where `again` is the loop with `newesc` and `out`
unfoldable pub do_round :
    (Bool → Bytes → Bytes → Argument) → Bytes → Bool → Bool → Bytes → ℕ → Bytes → ArgStep → Argument
do_round again start quoted newesc out c v move_byte = again newesc (add_byte out c) v
do_round again start quoted newesc out c v make_tab = again newesc (add_byte out 9) (next v)
do_round again start quoted newesc out c v make_backslash = again true (add_byte out b'\\') (next v)
do_round again start quoted newesc out c v skip_escaped =
    let moved = add_byte out c in
    again newesc (add_byte moved (get_or start (length moved) 0)) (next v)
do_round again start quoted newesc out c v make_quote = again newesc (add_byte out c) (next v)
do_round again start quoted newesc out c v end_word = record {
  text = out;
  newesc = newesc;
  quoted = quoted_at_end quoted;
  rest = c ∷ v;
}
do_round again start quoted newesc out c v end_quote = record {
  text = out;
  newesc = newesc;
  quoted = end_quoted;
  rest = c ∷ v;
}

-- The loop, with more fuel than bytes
unfoldable pub arg_loop : ℕ → Bytes → Bool → Bool → Bytes → Bytes → Argument
unfolding do_round round
arg_loop zero start quoted newesc out v = record {
  text = out;
  newesc = newesc;
  quoted = quoted_at_end quoted;
  rest = v;
}
arg_loop (suc fuel) start quoted newesc out [] = record {
  text = out;
  newesc = newesc;
  quoted = quoted_at_end quoted;
  rest = [];
}
arg_loop (suc fuel) start quoted newesc out (c ∷ v) =
    do_round (λ e o w. arg_loop fuel start quoted e o w) start quoted newesc out c v
      (round quoted c (peek v))

-- `while (' ' == *cp) cp++`
unfoldable pub past_blanks : Bytes → Bytes
past_blanks [] = []
past_blanks (c ∷ v) = let more = past_blanks v in if c == b' ' then more else c ∷ v

-- "NUL-terminate this argument and move to the next one."
abbrev pub next_word : Argument → Argument
next_word a = record a { rest = past_blanks (next a.rest) }

-- `roff_getarg`
unfoldable pub getarg : Bytes → Argument
unfolding arg_loop past_blanks
getarg v =
    let w = next v in
    let quoted = next_word (arg_loop (suc (length w)) w true false [] w) in
    let plain = next_word (arg_loop (suc (length v)) v false false [] v) in
    if peek v == b'"' then quoted else plain

-- The argument with `\(dq` for each quote
unfoldable pub escape_quotes : Bytes → Bytes
escape_quotes [] = []
escape_quotes (c ∷ x) =
    let more = escape_quotes x in if c == b'"' then codes "\\(dq" ++ more else c ∷ more

-- The loop of `roff_userdef` over the arguments
unfoldable pub userdef_args : ℕ → Bytes → List Bytes
unfolding getarg escape_quotes
userdef_args zero v = []
userdef_args (suc fuel) [] = []
userdef_args (suc fuel) (c ∷ v) =
    let a = getarg (c ∷ v) in escape_quotes a.text ∷ userdef_args fuel a.rest
