-- ===== src/Roff/Register/Lookup.antt =====
-- What is found in the registers after each operation.
use mandoc_mirror.Prelude.{
  ℕ, ◌-◌, ◌^◌, ◌==◌, ◌≡◌, ◌∙◌, refl, Option, none, some, List, [], ◌∷◌, if◌then◌else◌, Bytes,
  Bool-cases, Option-cases, inl, inr, arith, str_same, str_same→eq, str_same_refl,
}
use mathlib.Core.Path.{subst}
use mandoc_mirror.Prelude.Int.{ℤ, pos, negsuc, ◌+ℤ◌, ◌-ℤ◌}
use mandoc_mirror.Roff.Int32.{int_add, int_sub, eq_ℤ, wrap}
use mandoc_mirror.Roff.Register.{
  Reg, find_reg, assign, update, fresh_reg, setregn, int_min, readonly, advance, getregn_user,
  getregn,
}

-- The register that a name stands for when it is used.
abbrev pub reg_or_fresh : Bytes → List Reg → Reg
reg_or_fresh name regs = elim (find_reg name regs) [ none ↦ fresh_reg name | some r ↦ r ]

key-find_reg :
    (name : Bytes) (regs : List Reg) (r : Reg) → find_reg name regs ≡ some r → r.key ≡ name
unfolding find_reg
key-find_reg name [] r h = cc
key-find_reg name (s ∷ regs) r h = elim (Bool-cases (str_same s.key name)) [
  | inl p ↦ cc (str_same→eq s.key name p, rw p at h)
  | inr p ↦ key-find_reg name regs r (rw p at h)
]

same_key : (k j n : Bytes) → n ≡ k → str_same n j ≡ str_same k j
same_key k j n e = rw e

-- The write reaches the first register of its name, and no other name.
pub find_reg-update :
    (k j : Bytes) (f : Reg → Reg) (regs : List Reg)
    → ((r : Reg) → (f r).key ≡ r.key)
    → find_reg j (update k f regs) ≡ (
        if str_same k j
        then (elim (find_reg k regs) [ none ↦ none | some r ↦ some (f r) ])
        else find_reg j regs)
unfolding find_reg update
find_reg-update k j f [] h = elim (Bool-cases (str_same k j)) [ inl p ↦ rw p | inr p ↦ rw p ]
find_reg-update k j f (r ∷ regs) h = elim (Bool-cases (str_same r.key k)) [
  | inl p ↦ ground (arith, h r, str_same→eq r.key k p)
  | inr p ↦ ground (
    arith,
    find_reg-update k j f regs h,
    str_same→eq k j,
    str_same→eq r.key j,
    str_same_refl k,
    str_same_refl j,
  )
]

pub key-assign : (v : ℤ) (sign : ℕ) (step : ℤ) (r : Reg) → (assign v sign step r).key ≡ r.key
unfolding assign
key-assign v sign step r = refl

pub key-advance : (sign : ℕ) (r : Reg) → (advance sign r).key ≡ r.key
unfolding advance
key-advance sign r = refl

find_reg-cons_fresh :
    (k j : Bytes) (regs : List Reg)
    → find_reg j (fresh_reg k ∷ regs)
      ≡ (if str_same k j then some (fresh_reg k) else find_reg j regs)
unfolding find_reg
find_reg-cons_fresh k j regs = refl

-- What a sign asks for
pub data Direction : Type 0 where
  up down stay : Direction

abbrev pub direction : ℕ → Direction
direction sign = if sign == b'+' then up else if sign == b'-' then down else stay

-- A value moved by an amount, or another value: sums wrap around in 32 bits.
abbrev pub moved : Direction → ℤ → ℤ → ℤ → ℤ
moved up base amount other = wrap (base +ℤ amount)
moved down base amount other = wrap (base -ℤ amount)
moved stay base amount other = other

-- A register that is set: a sign makes the value relative to the old one, and INT_MIN keeps the step.
abbrev pub after_set : ℤ → ℕ → ℤ → Reg → Reg
after_set val sign step r = record {
  key = r.key;
  val = moved (direction sign) r.val val val;
  step = if eq_ℤ step (negsuc (2 ^ 31 - 1)) then r.step else step;
}

-- A register that is read: a sign moves it by its step.
abbrev pub after_get : ℕ → Reg → Reg
after_get sign r = record r { val = moved (direction sign) r.val r.step r.val }

assign-after_set :
    (v : ℤ) (sign : ℕ) (step : ℤ) (r : Reg) → assign v sign step r ≡ after_set v sign step r
unfolding assign int_add int_sub
assign-after_set v sign step r = elim (Bool-cases (sign == b'+')) [
  | inl p ↦ rw p refl
  | inr p ↦ rw p (elim (Bool-cases (sign == b'-')) [ inl q ↦ rw q refl | inr q ↦ rw q refl ])
]

advance-after_get : (sign : ℕ) (r : Reg) → advance sign r ≡ after_get sign r
unfolding advance int_add int_sub
advance-after_get sign r = elim (Bool-cases (sign == b'+')) [
  | inl p ↦ rw p refl
  | inr p ↦ rw p (elim (Bool-cases (sign == b'-')) [ inl q ↦ rw q refl | inr q ↦ rw q refl ])
]

-- The same by the assignments of the code.
setregn-assign :
    (k j : Bytes) (v : ℤ) (sign : ℕ) (step : ℤ) (regs : List Reg)
    → find_reg j (setregn k v sign step regs)
      ≡ (if str_same k j then some (assign v sign step (reg_or_fresh k regs)) else find_reg j regs)
unfolding setregn
setregn-assign k j v sign step regs = elim (Option-cases (find_reg k regs)) [
  | inl e ↦
      rw (e, setregn)
        (find_reg-update k j (assign v sign step) (fresh_reg k ∷ regs) (key-assign v sign step)
          ∙ ground
              (arith, find_reg-cons_fresh k k regs, find_reg-cons_fresh k j regs, str_same_refl k))
  | inr (r, e) ↦
      rw (e, setregn)
        (find_reg-update k j (assign v sign step) regs (key-assign v sign step)
          ∙ rw (e, reg_or_fresh))
]

-- Setting a register changes the register of that name, which is made with the value and the step 0 if
-- there is none, and no other: the sign + adds the new value to the old one, - subtracts it, in 32
-- bits with wrap-around, and any other replaces it, and a step other than INT_MIN is stored.
pub find_reg-setregn :
    (k j : Bytes) (v : ℤ) (sign : ℕ) (step : ℤ) (regs : List Reg)
    → find_reg j (setregn k v sign step regs) ≡ (
        if str_same k j
        then some (after_set v sign step (reg_or_fresh k regs))
        else find_reg j regs)
find_reg-setregn k j v sign step regs =
    rw (← assign-after_set v sign step (reg_or_fresh k regs)) (setregn-assign k j v sign step regs)

assign_nothing :
    (k : Bytes) (sign : ℕ) → assign (pos 0) 0 int_min (fresh_reg k) ≡ advance sign (fresh_reg k)
unfolding assign advance int_add int_sub wrap
assign_nothing k sign = ground arith

advance-fresh_reg : (k : Bytes) (sign : ℕ) → pos 0 ≡ (advance sign (fresh_reg k)).val
unfolding advance int_add int_sub wrap
advance-fresh_reg k sign = ground arith

-- The same by the increment of the code.
getregn-advance :
    (nargs : ℤ) (k j : Bytes) (sign : ℕ) (regs : List Reg)
    → readonly nargs k ≡ none
    → ((getregn nargs k sign regs).0 ≡ (advance sign (reg_or_fresh k regs)).val)
      × (find_reg j (getregn nargs k sign regs).1
          ≡ (if str_same k j then some (advance sign (reg_or_fresh k regs)) else find_reg j regs))
unfolding getregn getregn_user
getregn-advance nargs k j sign regs h = rw (h, getregn) (go (find_reg k regs) refl)
  where
    go :
        (o : Option Reg)
        → find_reg k regs ≡ o
        → ((getregn_user k sign regs o).0
            ≡ (advance sign (elim o [ none ↦ fresh_reg k | some r ↦ r ])).val)
          × (find_reg j (getregn_user k sign regs o).1 ≡ (
              if str_same k j
              then some (advance sign (elim o [ none ↦ fresh_reg k | some r ↦ r ]))
              else find_reg j regs))
    go none e = (
      advance-fresh_reg k sign,
      setregn-assign k j (pos 0) 0 int_min regs ∙ rw (e, reg_or_fresh) (rw (assign_nothing k sign)),
    )
    go (some r) e = (refl, find_reg-update k j (advance sign) regs (key-advance sign) ∙ rw e)

-- Reading a register that is not read-only returns its value behind the automatic increment, which is
-- stored: the sign + adds the step of the register, - subtracts it, in 32 bits with wrap-around,
-- and any other changes nothing. An undefined register is made with the value and the step 0. No
-- other register changes.
pub getregn_lem :
    (nargs : ℤ) (k j : Bytes) (sign : ℕ) (regs : List Reg)
    → readonly nargs k ≡ none
    → ((getregn nargs k sign regs).0 ≡ (after_get sign (reg_or_fresh k regs)).val)
      × (find_reg j (getregn nargs k sign regs).1
          ≡ (if str_same k j then some (after_get sign (reg_or_fresh k regs)) else find_reg j regs))
getregn_lem nargs k j sign regs h =
    subst
      (λ (r : Reg).
        ((getregn nargs k sign regs).0 ≡ r.val)
        × (find_reg j (getregn nargs k sign regs).1
            ≡ (if str_same k j then some r else find_reg j regs)))
      (advance-after_get sign (reg_or_fresh k regs)) (getregn-advance nargs k j sign regs h)
