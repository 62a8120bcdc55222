-- ===== src/Xref.antt =====
-- The cross references of mandoc_xr.c, as the list from `xr_first` on, by which the hash table is
-- searched too: the entries of the two are the same.
pub mod Counts
mod Tests
use mandoc_mirror.Prelude.{
  ℕ, ◌+◌, Bool, true, false, not, ◌&&◌, ◌||◌, Option, none, some, List, [], ◌∷◌, ◌++◌, ◌==◌,
  if◌then◌else◌, Bytes, str_same,
}
use mandoc_mirror.Prelude.Int.{ℤ, pos, negsuc}

-- `struct mandoc_xr`; `at` is its field `pos`.
pub record Xr : Type 0 where
  pub hashkey : Bytes
  pub line : ℤ
  pub at : ℤ
  pub count : ℕ

-- Section and name, each with its NUL.
abbrev pub key_of : Bytes → Bytes → Bytes
key_of sec name = (sec ++ (0 ∷ [])) ++ (name ++ (0 ∷ []))

-- `line == -1`: one of the page's own names.
abbrev pub is_own : ℤ → Bool
is_own (pos n) = false
is_own (negsuc n) = n == 0

abbrev pub made : Bytes → ℤ → ℤ → Xr
made key line at = record { hashkey = key; line = line; at = at; count = 1 }

-- `ohash_find` at the slot of a key
unfoldable pub find_xr : Bytes → List Xr → Option Xr
find_xr key [] = none
find_xr key (o ∷ xrs) = if str_same o.hashkey key then some o else find_xr key xrs

-- The writes to an entry that is found.
abbrev pub again : ℤ → Xr → Xr
again line o = record o { count = o.count + 1; line = if is_own line then line else o.line }

unfoldable pub update_xr : Bytes → ℤ → List Xr → List Xr
update_xr key line [] = []
update_xr key line (o ∷ xrs) =
    if str_same o.hashkey key then again line o ∷ xrs else o ∷ update_xr key line xrs

abbrev pub differs : Bool → Bool → Bool
differs true b = not b
differs false b = b

-- `mandoc_xr_add`, at a table that is there
unfoldable pub xr_insert : Bytes → ℤ → ℤ → List Xr → Bool × List Xr
xr_insert key line at xrs = elim (find_xr key xrs) [
  | none ↦ (false, xrs ++ (made key line at ∷ []))
  | some o ↦ (differs (is_own o.line) (is_own line), update_xr key line xrs)
]

-- `mandoc_xr_add`; `none` is a table that is not there.
unfoldable pub xr_add : Bytes → Bytes → ℤ → ℤ → Option (List Xr) → Bool × Option (List Xr)
unfolding xr_insert
xr_add sec name line at none = (false, none)
xr_add sec name line at (some xrs) =
    let (ret, new) = xr_insert (key_of sec name) line at xrs in (ret, some new)

-- `mandoc_xr_reset` and `mandoc_xr_free`
abbrev pub xr_reset : Option (List Xr) → Option (List Xr)
xr_reset xrs = some []

abbrev pub xr_free : Option (List Xr) → Option (List Xr)
xr_free xrs = none
