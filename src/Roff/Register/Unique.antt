-- ===== src/Roff/Register/Unique.antt =====
-- No two registers have one name, so that a removed register is gone.
use mandoc_mirror.Prelude.{
  ℕ, ◌≡◌, ◌∙◌, none, List, [], ◌∷◌, if◌then◌else◌, Bytes, Bool-cases, Option-cases, inl, inr, arith,
  str_same, str_same→eq, str_same_refl,
}
use mandoc_mirror.Prelude.Int.{ℤ}
use mandoc_mirror.Roff.Register.{Reg, find_reg, update, fresh_reg, setregn, remove}
use mandoc_mirror.Roff.Register.Lookup.{find_reg-update, key-assign}

abbrev pub UniqueKeys : List Reg → Type 0
UniqueKeys [] = Unit {0}
UniqueKeys (r ∷ regs) = (find_reg r.key regs ≡ none) × UniqueKeys regs

update-UniqueKeys :
    (k : Bytes) (f : Reg → Reg) (regs : List Reg)
    → ((r : Reg) → (f r).key ≡ r.key)
    → UniqueKeys regs
    → UniqueKeys (update k f regs)
unfolding update
update-UniqueKeys k f [] h u = u
update-UniqueKeys k f (r ∷ regs) h u = elim (Bool-cases (str_same r.key k)) [
  | inl p ↦ rw (p, update) (rw (h r) u.0, u.1)
  | inr p ↦
      rw (p, update)
        (
          find_reg-update k r.key f regs h
              ∙ ground (arith, u.0, str_same→eq k r.key, str_same_refl k),
          update-UniqueKeys k f regs h u.1,
        )
]

-- Setting a register keeps the names unique.
pub setregn-UniqueKeys :
    (k : Bytes) (v : ℤ) (sign : ℕ) (step : ℤ) (regs : List Reg)
    → UniqueKeys regs
    → UniqueKeys (setregn k v sign step regs)
unfolding setregn
setregn-UniqueKeys k v sign step regs u = elim (Option-cases (find_reg k regs)) [
  | inl e ↦
      rw (e, setregn) (update-UniqueKeys k _ (fresh_reg k ∷ regs) (key-assign v sign step) (e, u))
  | inr (r, e) ↦ rw (e, setregn) (update-UniqueKeys k _ regs (key-assign v sign step) u)
]

-- Where the names are unique, removing a register removes its name and no other.
pub find_reg-remove :
    (k j : Bytes) (regs : List Reg)
    → UniqueKeys regs
    → find_reg j (remove k regs) ≡ (if str_same k j then none else find_reg j regs)
unfolding find_reg remove
find_reg-remove k j [] u = elim (Bool-cases (str_same k j)) [ inl p ↦ rw p | inr p ↦ rw p ]
find_reg-remove k j (r ∷ regs) u = ground (
  arith,
  find_reg-remove k j regs u.1,
  u.0,
  str_same→eq k r.key,
  str_same→eq k j,
  str_same→eq r.key j,
  str_same_refl k,
  str_same_refl j,
)
