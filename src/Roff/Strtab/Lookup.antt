-- ===== src/Roff/Strtab/Lookup.antt =====
-- What is found in the tables after `roff_setstr`.
use mandoc_mirror.Prelude.{
  ℕ, zero, suc, ltb, ◌==◌, true, false, Bool, ◌++◌, append-nil, ap, ◌≡◌, ◌∙◌, refl, Option, none,
  some, List, [], ◌∷◌, if◌then◌else◌, Bytes, Bool-cases, Option-cases, inl, inr, arith, str_same,
  str_same→eq, str_same_refl,
}
use mandoc_mirror.Roff.Strtab.{
  copy, Kv, find_kv, update_kv, val_of, new_value, rewrite, setstrn, find_val,
}

-- No two entries have one name.
abbrev pub UniqueNames : List Kv → Type 0
UniqueNames [] = Unit {0}
UniqueNames (n ∷ kvs) = (find_kv n.key kvs ≡ none) × UniqueNames kvs

find_val-none : (k : Bytes) (kvs : List Kv) → find_kv k kvs ≡ none → find_val k kvs ≡ none
unfolding find_kv find_val
find_val-none k [] h = refl
find_val-none k (n ∷ kvs) h = ground (arith, find_val-none k kvs)

-- Where the names are unique, the entry of a name is the only one.
find_val-eq :
    (k : Bytes) (kvs : List Kv) → UniqueNames kvs → find_val k kvs ≡ val_of (find_kv k kvs)
unfolding find_kv find_val
find_val-eq k [] u = refl
find_val-eq k (n ∷ kvs) u =
    ground (arith, find_val-eq k kvs u.1, str_same→eq n.key k, find_val-none k kvs, u.0)

find_kv-update_kv :
    (k j : Bytes) (f : Kv → Kv) (kvs : List Kv)
    → ((n : Kv) → (f n).key ≡ n.key)
    → find_kv j (update_kv k f kvs) ≡ (
        if str_same k j
        then (elim (find_kv k kvs) [ none ↦ none | some n ↦ some (f n) ])
        else find_kv j kvs)
unfolding find_kv update_kv
find_kv-update_kv k j f [] h = elim (Bool-cases (str_same k j)) [ inl p ↦ rw p | inr p ↦ rw p ]
find_kv-update_kv k j f (n ∷ kvs) h = elim (Bool-cases (str_same n.key k)) [
  | inl p ↦ ground (arith, h n, str_same→eq n.key k p)
  | inr p ↦ ground (
    arith,
    find_kv-update_kv k j f kvs h,
    str_same→eq k j,
    str_same→eq n.key j,
    str_same_refl k,
    str_same_refl j,
  )
]

update_kv-UniqueNames :
    (k : Bytes) (f : Kv → Kv) (kvs : List Kv)
    → ((n : Kv) → (f n).key ≡ n.key)
    → UniqueNames kvs
    → UniqueNames (update_kv k f kvs)
unfolding update_kv
update_kv-UniqueNames k f [] h u = u
update_kv-UniqueNames k f (n ∷ kvs) h u = elim (Bool-cases (str_same n.key k)) [
  | inl p ↦ rw (p, update_kv) (rw (h n) u.0, u.1)
  | inr p ↦
      rw (p, update_kv)
        (
          find_kv-update_kv k n.key f kvs h
              ∙ ground (arith, u.0, str_same→eq k n.key, str_same_refl k),
          update_kv-UniqueNames k f kvs h u.1,
        )
]

setstrn-UniqueNames :
    (k : Bytes) (string : Option Bytes) (append : ℕ) (kvs : List Kv)
    → UniqueNames kvs
    → UniqueNames (setstrn k string append kvs)
unfolding setstrn
setstrn-UniqueNames k string append kvs u = elim (Option-cases (find_kv k kvs)) [
  | inl e ↦
      rw (e, setstrn)
        (update_kv-UniqueNames k _ (record { key = k; val = none } ∷ kvs) (λ n. refl) (e, u))
  | inr (n, e) ↦ rw (e, setstrn) (update_kv-UniqueNames k _ kvs (λ n. refl) u)
]

val-cons :
    (k j : Bytes) (kvs : List Kv)
    → find_kv j (record { key = k; val = none } ∷ kvs)
      ≡ (if str_same k j then some (record { key = k; val = none }) else find_kv j kvs)
unfolding find_kv
val-cons k j kvs = refl

val-setstrn :
    (k j : Bytes) (string : Option Bytes) (append : ℕ) (kvs : List Kv)
    → val_of (find_kv j (setstrn k string append kvs)) ≡ (
        if str_same k j
        then new_value (val_of (find_kv k kvs)) append string
        else val_of (find_kv j kvs))
unfolding setstrn
val-setstrn k j string append kvs = elim (Option-cases (find_kv k kvs)) [
  | inl e ↦
      rw (e, setstrn)
        (rw
          (find_kv-update_kv k j (rewrite append string) (record { key = k; val = none } ∷ kvs)
            (λ n. refl))
          (ground (arith, val-cons k k kvs, val-cons k j kvs, str_same_refl k)))
  | inr (n, e) ↦
      rw (e, setstrn)
        (rw (find_kv-update_kv k j (rewrite append string) kvs (λ n. refl)) (ground (arith, e)))
]

-- The same by the assignment of the code.
find_val-new_value :
    (k j : Bytes) (string : Option Bytes) (append : ℕ) (kvs : List Kv)
    → UniqueNames kvs
    → (find_val j (setstrn k string append kvs)
        ≡ (if str_same k j then new_value (find_val k kvs) append string else find_val j kvs))
      × UniqueNames (setstrn k string append kvs)
find_val-new_value k j string append kvs u = (
  find_val-eq j (setstrn k string append kvs) (setstrn-UniqueNames k string append kvs u)
      ∙ val-setstrn k j string append kvs
      ∙ rw (find_val-eq k kvs u, find_val-eq j kvs u),
  setstrn-UniqueNames k string append kvs u,
)

-- A string without each backslash that stands behind one that is kept
abbrev pub keep : Bool → Bytes → Bytes
keep behind [] = []
keep false (c ∷ s) = c ∷ keep (c == b'\\') s
keep true (c ∷ s) = if c == b'\\' then keep false s else c ∷ keep false s

copy-keep : (s : Bytes) → copy s ≡ keep false s
unfolding copy
copy-keep [] = refl
copy-keep (c ∷ []) = refl
copy-keep (c ∷ e ∷ s) = elim (Bool-cases (c == b'\\')) [
  | inl p ↦ elim (Bool-cases (e == b'\\')) [
    | inl q ↦ rw (p, q, copy) (ap2_lem (ground (arith, p)) (copy-keep s))
    | inr q ↦ rw (p, q, copy) (ap (λ (x : Bytes). c ∷ x) (copy-keep (e ∷ s) ∙ rw q refl))
  ]
  | inr p ↦ rw (p, copy) (ap (λ (x : Bytes). c ∷ x) (copy-keep (e ∷ s)))
]
  where
    ap2_lem : {x y : Bytes} → b'\\' ≡ c → x ≡ y → b'\\' ∷ x ≡ c ∷ y
    ap2_lem h k = cc

-- The value that is set, from the old one: 0 replaces it, 1 appends to it, and more than 1 appends and ends
-- the line; no string with 0 removes it.
abbrev pub value_after : ℕ → Option Bytes → Option Bytes → Option Bytes
value_after zero old none = none
value_after zero old (some s) = some (keep false s)
value_after (suc n) old none = old
value_after (suc zero) none (some s) = some (keep false s)
value_after (suc zero) (some t) (some s) = some (t ++ keep false s)
value_after (suc (suc n)) none (some s) = some (keep false s ++ b'\n' ∷ [])
value_after (suc (suc n)) (some t) (some s) = some (t ++ (keep false s ++ b'\n' ∷ []))

new_value-value_after :
    (append : ℕ) (old string : Option Bytes)
    → new_value old append string ≡ value_after append old string
unfolding new_value
new_value-value_after zero old none = refl
new_value-value_after zero old (some s) = ap some (append-nil (copy s) ∙ copy-keep s)
new_value-value_after (suc n) old none = let b : suc n == 0 ≡ false = ground arith in rw b refl
new_value-value_after (suc zero) none (some s) = ap some (append-nil (copy s) ∙ copy-keep s)
new_value-value_after (suc zero) (some t) (some s) =
    ap (λ (x : Bytes). some (t ++ x)) (append-nil (copy s) ∙ copy-keep s)
new_value-value_after (suc (suc n)) none (some s) =
    let b : suc (suc n) == 0 ≡ false = ground arith in
    let l : ltb 1 (suc (suc n)) ≡ true = ground arith in
    rw (b, l) (ap (λ (x : Bytes). some (x ++ b'\n' ∷ [])) (copy-keep s))
new_value-value_after (suc (suc n)) (some t) (some s) =
    let b : suc (suc n) == 0 ≡ false = ground arith in
    let l : ltb 1 (suc (suc n)) ≡ true = ground arith in
    rw (b, l) (ap (λ (x : Bytes). some (t ++ (x ++ b'\n' ∷ []))) (copy-keep s))

-- In a table with unique names, `roff_setstrn` changes the value of the name that is set and no other, and the
-- names stay unique. The new value is the string without each backslash behind one that is kept,
-- behind the old value unless `append` is 0, and with a newline if it is more than 1; without a
-- string, 0 removes the value and the others leave it.
pub find_val-setstrn :
    (k j : Bytes) (string : Option Bytes) (append : ℕ) (kvs : List Kv)
    → UniqueNames kvs
    → (find_val j (setstrn k string append kvs)
        ≡ (if str_same k j then value_after append (find_val k kvs) string else find_val j kvs))
      × UniqueNames (setstrn k string append kvs)
find_val-setstrn k j string append kvs u =
    let (h, v) = find_val-new_value k j string append kvs u in
    (rw (← new_value-value_after append (find_val k kvs) string) h, v)
