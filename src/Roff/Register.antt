-- ===== src/Roff/Register.antt =====
-- Number registers of roff.c: `r->regtab` as a list, with `roff_setregn`, `roff_getregro`,
-- `roff_getregn`, `roff_hasregn`, `roff_nr` and `roff_rr`.
pub mod Lookup
pub mod Unique
use mandoc_mirror.Prelude.{
  ℕ, ◌^◌, ◌-◌, ◌*◌, Bool, true, false, not, ◌&&◌, ◌||◌, Option, none, some, List, [], ◌∷◌, ◌==◌,
  if◌then◌else◌, Bytes, peek, next, str_same, skip_space, length,
}
use mandoc_mirror.Prelude.Int.{ℤ, pos, negsuc}
use mandoc_mirror.Roff.Int32.{int_add, int_sub, eq_ℤ}
use mandoc_mirror.Roff.Double.{Double}
use mandoc_mirror.Roff.Number.{Num, parsed, failed, trapped, out_of_fuel, evalnum}

-- `struct roffreg`
pub record Reg : Type 0 where
  pub key : Bytes
  pub val : ℤ
  pub step : ℤ

-- INT_MIN, by which `step` says that it is not given
abbrev pub int_min : ℤ
int_min = negsuc (2 ^ 31 - 1)

-- The first register of a name.
unfoldable pub find_reg : Bytes → List Reg → Option Reg
find_reg name [] = none
find_reg name (r ∷ regs) = if str_same r.key name then some r else find_reg name regs

-- The assignments to the register at the end of `roff_setregn`.
unfoldable pub assign : ℤ → ℕ → ℤ → Reg → Reg
assign val sign step r = record {
  key = r.key;
  val = if sign == b'+' then int_add r.val val else if sign == b'-' then int_sub r.val val else val;
  step = if eq_ℤ step int_min then r.step else step;
}

-- A write through the pointer to the first register of a name.
unfoldable pub update : Bytes → (Reg → Reg) → List Reg → List Reg
update name f [] = []
update name f (r ∷ regs) = if str_same r.key name then f r ∷ regs else r ∷ update name f regs

abbrev pub fresh_reg : Bytes → Reg
fresh_reg name = record { key = name; val = pos 0; step = pos 0 }

unfoldable pub setregn : Bytes → ℤ → ℕ → ℤ → List Reg → List Reg
setregn name val sign step regs = elim (find_reg name regs) [
  | none ↦ update name (assign val sign step) (fresh_reg name ∷ regs)
  | some r ↦ update name (assign val sign step) regs
]

-- `roff_setreg`
abbrev pub setreg : Bytes → ℤ → ℕ → List Reg → List Reg
setreg name val sign = setregn name val sign int_min

-- `roff_getregro`, at the byte behind the dot; `nargs` is the number of arguments of the macro that
-- is being evaluated, or 0. The result -1 is `none`.
unfoldable pub getregro : ℤ → ℕ → Option ℤ
getregro nargs c =
    if c == b'$'
    then (if eq_ℤ nargs (negsuc 0) then none else some nargs)
    else if c == b'A'
    then some (pos 0)
    else if c == b'g'
    then some (pos 1)
    else if c == b'H'
    then some (pos 24)
    else if c == b'j'
    then some (pos 0)
    else if c == b'l'
    then some (pos (78 * 24))
    else if c == b'T'
    then some (pos 1)
    else if c == b'V'
    then some (pos 40)
    else none

-- The read-only register of a name, if it is a dot and one more byte.
unfoldable pub readonly : ℤ → Bytes → Option ℤ
readonly nargs name =
    if peek name == b'.' && length name == 2 then getregro nargs (peek (next name)) else none

-- The automatic increment of `roff_getregn`.
unfoldable pub advance : ℕ → Reg → Reg
advance sign r = record {
  key = r.key;
  val =
      if sign == b'+'
      then int_add r.val r.step
      else if sign == b'-'
      then int_sub r.val r.step
      else r.val;
  step = r.step;
}

-- Behind the read-only registers.
unfoldable pub getregn_user : Bytes → ℕ → List Reg → Option Reg → ℤ × List Reg
getregn_user name sign regs (some r) = ((advance sign r).val, update name (advance sign) regs)
getregn_user name sign regs none = (pos 0, setregn name (pos 0) 0 int_min regs)

unfoldable pub getregn : ℤ → Bytes → ℕ → List Reg → ℤ × List Reg
unfolding getregn_user
getregn nargs name sign regs = elim (readonly nargs name) [
  | some v ↦ (v, regs)
  | none ↦ getregn_user name sign regs (find_reg name regs)
]

abbrev pub is_some {ℓ} : {A : Type ℓ} → Option A → Bool
is_some none = false
is_some (some a) = true

unfoldable pub hasregn : ℤ → Bytes → List Reg → Bool
hasregn nargs name regs = is_some (readonly nargs name) || is_some (find_reg name regs)

-- The removal at the end of `roff_rr`.
unfoldable pub remove : Bytes → List Reg → List Reg
remove name [] = []
remove name (r ∷ regs) = if str_same name r.key then regs else r ∷ remove name regs

-- `roff_getname`: the name, the line from its end on, and the next word.
pub record Names : Type 0 where
  pub getname : Bytes → Bytes × Bytes × Bytes

-- What `roff_nr` does with the outcome for the value; `none` is a trap, or the fuel ran out.
unfoldable pub nr_assign : (Bytes → Num) → Bytes → ℕ → List Reg → Num → Option (List Reg)
nr_assign eval_step key sign regs (parsed iv v) = elim (eval_step (skip_space v)) [
  | trapped ↦ none
  | out_of_fuel ↦ none
  | parsed is w ↦ some (setregn key iv sign is regs)
  | failed w ↦ some (setregn key iv sign int_min regs)
]
nr_assign eval_step key sign regs (failed v) = some regs
nr_assign eval_step key sign regs trapped = none
nr_assign eval_step key sign regs out_of_fuel = none

module _ (names : Names) (d : Double) where
  -- `roff_nr`, at the line behind the request
  unfoldable pub nr : ℕ → Bytes → List Reg → Option (List Reg)
  unfolding nr_assign
  nr fuel line regs =
      let (key, after, val) = names.getname line in
      let sign = peek val in
      let num = if sign == b'+' || sign == b'-' then next val else val in
      if peek line == 0 || peek after == b'\\' || peek after == b'\t'
      then some regs
      else nr_assign (evalnum d fuel true 0 false) key sign regs
          (evalnum d fuel true b'u' false num)

  -- `roff_rr`
  unfoldable pub rr : Bytes → List Reg → List Reg
  rr line regs = if peek line == 0 then regs else remove (names.getname line).0 regs
