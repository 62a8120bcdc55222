-- ===== src/Roff/Condition.antt =====
-- Conditions of roff.c: `roff_evalstrcond` and `roff_evalcond`.
pub mod Strings
pub mod Past
use mandoc_mirror.Prelude.{
  ℕ, Bool, true, false, not, ◌&&◌, ◌||◌, Option, none, some, [], ◌∷◌, ltb, ◌==◌, if◌then◌else◌,
  Bytes, codes, peek, next, elem, length,
}
use mandoc_mirror.Prelude.Int.{ℤ, pos, ltb_ℤ}
use mandoc_mirror.Roff.Double.{Double}
use mandoc_mirror.Roff.Number.{Num, parsed, failed, trapped, out_of_fuel, evalnum}

-- `strchr(s, c)`, for c other than the NUL
unfoldable pub strchr : Bytes → ℕ → Option Bytes
strchr [] c = none
strchr (x ∷ s) c = if x == c then some (x ∷ s) else strchr s c

-- `s3++` at the delimiter that was found, or the end of the line
abbrev pub behind : Option Bytes → Bytes
behind none = []
behind (some s) = next s

-- The loop of `roff_evalstrcond`: `s3` is the second string from the byte on that is compared.
unfoldable pub compare_strings : ℕ → Bytes → Bytes → Bool × Bytes
compare_strings delim s2 [] = (false, [])
compare_strings delim s2 (c ∷ s3) =
    let more = compare_strings delim (next s2) s3 in
    if not (peek s2 == c)
    then (false, behind (strchr (c ∷ s3) delim))
    else if c == delim
    then (true, s3)
    else more

-- `roff_evalstrcond`, at the delimiter `delim` and the line behind it.
unfoldable pub evalstrcond : ℕ → Bytes → Bool × Bytes
unfolding strchr compare_strings
evalstrcond delim s2 = elim (strchr s2 delim) [
  | none ↦ (false, [])
  | some s3 ↦ compare_strings delim s2 (next s3)
]

-- What `roff_evalcond` asks of the rest of the preprocessor. A name is measured by `roff_getname`.
pub record Environment : Type 0 where
  -- `roff_getname`: the name, and the line behind it
  pub getname : Bytes → Bytes × Bytes
  -- `roff_hasregn`
  pub has_register : Bytes → Bool
  -- `roff_getstrn` with ROFFDEF_ANY
  pub is_defined : Bytes → Bool
  -- `mandoc_escape` behind the backslash, with the lookups of characters: whether the glyph is
  -- available, or `none` in the default case, and the line behind the escape sequence
  pub glyph : Bytes → Option Bool × Bytes

pub data Cond : Type 0 where
  -- the result and the parse point
  decided : Bool → Bytes → Cond
  -- the result, with a parse point behind the NUL
  past_end : Bool → Cond
  cond_trapped : Cond
  cond_out_of_fuel : Cond

abbrev pub same : Bool → Bool → Bool
same a b = if a then b else not b

-- `do (*pos)++; while (v[*pos] == ' ');`, behind the first of these bytes
unfoldable pub skip_spaces : Bytes → Bytes
skip_spaces [] = []
skip_spaces (c ∷ v) = if c == b' ' then skip_spaces v else c ∷ v

-- The default case, at a line that is not empty.
unfoldable pub cond_number : Bool → ℕ → Bytes → Num → Cond
unfolding evalstrcond
cond_number want c v (parsed n w) = decided (same (ltb_ℤ (pos 0) n) want) w
cond_number want c v (failed w) =
    if length w == length (c ∷ v)
    then (let (match, rest) = evalstrcond c v in decided (same match want) rest)
    else decided false w
cond_number want c v trapped = cond_trapped
cond_number want c v out_of_fuel = cond_out_of_fuel

module _ (env : Environment) (d : Double) where
  -- case 'c', at the line behind the letter and the blanks
  unfoldable pub cond_char : Bool → Bytes → Cond
  cond_char want [] = past_end want
  cond_char want (c ∷ v) =
      if c == b'\t'
      then decided false v
      else if not (c == b'\\')
      then decided want v
      else let (available, rest) = env.glyph v in
        elim available [
          | some yes_no ↦ decided (same yes_no want) rest
          | none ↦ decided (same (not want) want) rest
        ]

  -- cases 'd' and 'r', at the line behind the letter
  unfoldable pub cond_name : Bool → Bool → Bytes → Cond
  unfolding skip_spaces
  cond_name want is_register v =
      let (name, rest) = env.getname (skip_spaces v) in
      let is_true =
        if length name == 0
        then false
        else if is_register
        then env.has_register name
        else env.is_defined name in
      decided (same is_true want) rest

  -- The switch of `roff_evalcond`.
  unfoldable pub cond_case : ℕ → Bool → Bytes → Cond
  unfolding cond_char cond_name skip_spaces
  cond_case fuel want [] = decided false []
  cond_case fuel want (c ∷ v) =
      if elem c (codes "no")
      then decided want v
      else if elem c (codes "etv")
      then decided (not want) v
      else if c == b'c'
      then cond_char want (skip_spaces v)
      else if elem c (codes "dr")
      then cond_name want (c == b'r') v
      else cond_number want c v (evalnum d fuel true b'u' false (c ∷ v))

  -- `roff_evalcond`
  unfoldable pub evalcond : ℕ → Bytes → Cond
  unfolding cond_case
  evalcond fuel v = if peek v == b'!' then cond_case fuel false (next v) else cond_case fuel true v
