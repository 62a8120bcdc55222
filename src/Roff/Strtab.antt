-- ===== src/Roff/Strtab.antt =====
-- User-defined strings of roff.c: `roff_setstr`, `roff_setstrn` and `roff_getstrn`, on the lists
-- `r->strtab` and `r->rentab`. The tables of predefined strings and of the names of the standard
-- macros are parameters, and so is which macro set is in use.
pub mod Copy
pub mod Lookup
pub mod Priority
use mandoc_mirror.Prelude.{
  ℕ, zero, suc, Bool, true, false, not, ◌&&◌, ◌||◌, Option, none, some, List, [], ◌∷◌, ◌++◌, ltb,
  ◌==◌, if◌then◌else◌, Bytes, str_same,
}

-- `struct roffkv`; the value `none` is a null pointer.
pub record Kv : Type 0 where
  pub key : Bytes
  pub val : Option Bytes

-- The loop that copies `string`: of two backslashes one is copied.
unfoldable pub copy : Bytes → Bytes
copy [] = []
copy (c ∷ []) = c ∷ []
copy (c ∷ e ∷ s) = elim (c == b'\\' && e == b'\\') [
  | true ↦ b'\\' ∷ copy s
  | false ↦ c ∷ copy (e ∷ s)
]

-- The entry of a name, in the first place where it stands.
unfoldable pub find_kv : Bytes → List Kv → Option Kv
find_kv name [] = none
find_kv name (n ∷ kvs) = if str_same n.key name then some n else find_kv name kvs

unfoldable pub update_kv : Bytes → (Kv → Kv) → List Kv → List Kv
update_kv name f [] = []
update_kv name f (n ∷ kvs) = if str_same n.key name then f n ∷ kvs else n ∷ update_kv name f kvs

abbrev pub text : Option Bytes → Bytes
text none = []
text (some s) = s

-- The value of an entry, or `none`.
abbrev pub val_of : Option Kv → Option Bytes
val_of none = none
val_of (some n) = n.val

-- The new value, from the old one: `append` is 0 to replace, 1 to append, 2 to append a line.
unfoldable pub new_value : Option Bytes → ℕ → Option Bytes → Option Bytes
unfolding copy
new_value old append none = if append == 0 then none else old
new_value old append (some string) = some (
    (if append == 0 then [] else text old)
    ++ (copy string ++ (if ltb 1 append then b'\n' ∷ [] else [])))

abbrev pub rewrite : ℕ → Option Bytes → Kv → Kv
rewrite append string n = record { key = n.key; val = new_value n.val append string }

-- `roff_setstrn`
unfoldable pub setstrn : Bytes → Option Bytes → ℕ → List Kv → List Kv
setstrn name string append kvs = elim (find_kv name kvs) [
  | none ↦ update_kv name (rewrite append string) (record { key = name; val = none } ∷ kvs)
  | some n ↦ update_kv name (rewrite append string) kvs
]

pub record Strings : Type 0 where
  pub strtab : List Kv
  pub rentab : List Kv

-- `roff_setstr`
unfoldable pub setstr : Bytes → Option Bytes → ℕ → Strings → Strings
setstr name string append r = record {
  strtab = setstrn name string append r.strtab;
  rentab = setstrn name none 0 r.rentab;
}

-- The kinds of definitions, and none of them: ROFFDEF_USER, _REN, _PRE, _STD, _UNDEF, 0.
pub data Def : Type 0 where
  user ren pre std undef nothing : Def

-- `*deftype` on entry: the kinds that are wanted.
pub record Wanted : Type 0 where
  pub user : Bool
  pub ren : Bool
  pub pre : Bool
  pub std : Bool

-- `*deftype == ROFFDEF_ANY`
abbrev pub is_any : Wanted → Bool
is_any w = w.user && w.pre && w.ren && w.std

-- The first entry of a name that has a value.
unfoldable pub find_val : Bytes → List Kv → Option Bytes
find_val name [] = none
find_val name (n ∷ kvs) =
    let more = find_val name kvs in
    if str_same n.key name then (elim n.val [ none ↦ more | some s ↦ some s ]) else more

-- The generated and static tables.
pub record Tables : Type 0 where
  -- `predefs`
  pub predefined : Bytes → Option Bytes
  -- a name from MDOC_Dd to MDOC_MAX
  pub is_mdoc : Bytes → Bool
  -- a name from MAN_TH to MAN_MAX
  pub is_man : Bytes → Bool

-- `r->man->meta.macroset`
pub data Macroset : Type 0 where
  unset mdoc man : Macroset

abbrev pub is_none {ℓ} : {A : Type ℓ} → Option A → Bool
is_none none = true
is_none (some a) = false

abbrev pub not_man : Macroset → Bool
not_man man = false
not_man _ = true

abbrev pub not_mdoc : Macroset → Bool
not_mdoc mdoc = false
not_mdoc _ = true

abbrev pub Found : Type 0
Found = Def × Option Bytes × Strings

module _ (tables : Tables) (set : Macroset) where
  -- Whether the name is that of a standard macro of a macro set that may be in use.
  unfoldable pub is_standard : Bytes → Bool
  is_standard name = not_man set && tables.is_mdoc name || not_mdoc set && tables.is_man name

  -- The end of `roff_getstrn`, where nothing that was wanted is there.
  unfoldable pub getstrn_end : Bytes → Wanted → Bool → Strings → Found
  getstrn_end name want found r =
      if not found && not (is_any want)
      then if want.ren then (undef, none, r) else (
        nothing,
        none,
        record {
          strtab = setstrn name (some []) 0 r.strtab;
          rentab = setstrn name none 0 r.rentab;
        },
      )
      else (nothing, none, r)

  -- `roff_getstrn`: the kind of definition, its text, and the tables. Of the two loops over the
  -- names of macros the second looks for the same kind, so that one test serves.
  unfoldable pub getstrn : Bytes → Wanted → Strings → Found
  unfolding getstrn_end
  getstrn name want r =
      let u = find_val name r.strtab in
      let n = find_val name r.rentab in
      let p = tables.predefined name in
      let s = is_standard name in
      if not (is_none u) && want.user
      then (user, u, r)
      else if not (is_none n) && want.ren
      then (ren, n, r)
      else if not (is_none p) && want.pre
      then (pre, p, r)
      else if s && want.std
      then (std, none, r)
      else getstrn_end name want (not (is_none u) || not (is_none n) || not (is_none p) || s) r
