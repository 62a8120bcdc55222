-- ===== src/Xref/Counts.antt =====
-- The counts of cross references after any number of calls of `mandoc_xr_add`.
use mandoc_mirror.Prelude.{
  ℕ, ◌+◌, ◌≡◌, refl, ap, ◌∙◌, Bool, true, false, ◌&&◌, ◌||◌, Option, none, some, List, [], ◌∷◌,
  ◌++◌, arith, if◌then◌else◌, inl, inr, Bool-cases, Option-cases, Bytes, str_same, str_same→eq,
}
use mandoc_mirror.Prelude.Int.{ℤ}
use mandoc_mirror.Xref.{Xr, key_of, is_own, made, find_xr, update_xr, differs, xr_insert, xr_add}

-- The arguments of a call.
pub record Call : Type 0 where
  pub sec : Bytes
  pub name : Bytes
  pub line : ℤ
  pub at : ℤ

-- The table after some calls.
abbrev pub after : List Call → Option (List Xr) → Option (List Xr)
after [] xrs = xrs
after (c ∷ cs) xrs = after cs (xr_add c.sec c.name c.line c.at xrs).1

-- The count of a key, 0 where it has no entry.
abbrev pub count_of : Bytes → List Xr → ℕ
count_of k [] = 0
count_of k (o ∷ xrs) = if str_same o.hashkey k then o.count else count_of k xrs

-- Whether the key is that of one of the page's own names.
abbrev pub own_of : Bytes → List Xr → Bool
own_of k [] = false
own_of k (o ∷ xrs) = if str_same o.hashkey k then is_own o.line else own_of k xrs

-- Whether there is an entry of the key.
abbrev pub has : Bytes → List Xr → Bool
has k [] = false
has k (o ∷ xrs) = if str_same o.hashkey k then true else has k xrs

-- The number of calls for a key.
abbrev pub calls_of : Bytes → List Call → ℕ
calls_of k [] = 0
calls_of k (c ∷ cs) = (if str_same (key_of c.sec c.name) k then 1 else 0) + calls_of k cs

-- Whether there is a call for a key with the line -1.
abbrev pub owned : Bytes → List Call → Bool
owned k [] = false
owned k (c ∷ cs) = str_same (key_of c.sec c.name) k && is_own c.line || owned k cs

-- Whether there is a call for a key.
abbrev pub called : Bytes → List Call → Bool
called k [] = false
called k (c ∷ cs) = str_same (key_of c.sec c.name) k || called k cs

count-append :
    (k key : Bytes) (line at : ℤ) (xrs : List Xr)
    → find_xr key xrs ≡ none
    → count_of k (xrs ++ (made key line at ∷ []))
      ≡ count_of k xrs + (if str_same key k then 1 else 0)
unfolding find_xr
count-append k key line at [] h = ground arith
count-append k key line at (o ∷ xrs) h = elim (Bool-cases (str_same o.hashkey key)) [
  | inl p ↦ cc (rw p at h)
  | inr p ↦ ground (arith, count-append k key line at xrs (rw p at h), str_same→eq key k)
]

count-update :
    (k key : Bytes) (line : ℤ) (xrs : List Xr) (o : Xr)
    → find_xr key xrs ≡ some o
    → count_of k (update_xr key line xrs) ≡ count_of k xrs + (if str_same key k then 1 else 0)
unfolding find_xr update_xr
count-update k key line [] o h = cc
count-update k key line (q ∷ xrs) o h = elim (Bool-cases (str_same q.hashkey key)) [
  | inl p ↦ ground (arith, str_same→eq q.hashkey key p)
  | inr p ↦ ground (arith, count-update k key line xrs o (rw p at h), str_same→eq key k)
]

own-append :
    (k key : Bytes) (line at : ℤ) (xrs : List Xr)
    → find_xr key xrs ≡ none
    → own_of k (xrs ++ (made key line at ∷ [])) ≡ own_of k xrs || (str_same key k && is_own line)
unfolding find_xr
own-append k key line at [] h = ground arith
own-append k key line at (o ∷ xrs) h = elim (Bool-cases (str_same o.hashkey key)) [
  | inl p ↦ cc (rw p at h)
  | inr p ↦ ground (arith, own-append k key line at xrs (rw p at h), str_same→eq key k)
]

own-update :
    (k key : Bytes) (line : ℤ) (xrs : List Xr) (o : Xr)
    → find_xr key xrs ≡ some o
    → own_of k (update_xr key line xrs) ≡ own_of k xrs || (str_same key k && is_own line)
unfolding find_xr update_xr
own-update k key line [] o h = cc
own-update k key line (q ∷ xrs) o h = elim (Bool-cases (str_same q.hashkey key)) [
  | inl p ↦ ground (arith, str_same→eq q.hashkey key p)
  | inr p ↦ ground (arith, own-update k key line xrs o (rw p at h), str_same→eq key k)
]

has-append :
    (k key : Bytes) (line at : ℤ) (xrs : List Xr)
    → has k (xrs ++ (made key line at ∷ [])) ≡ has k xrs || str_same key k
has-append k key line at [] = ground arith
has-append k key line at (o ∷ xrs) = ground (arith, has-append k key line at xrs)

has-update :
    (k key : Bytes) (line : ℤ) (xrs : List Xr) (o : Xr)
    → find_xr key xrs ≡ some o
    → has k (update_xr key line xrs) ≡ has k xrs || str_same key k
unfolding find_xr update_xr
has-update k key line [] o h = cc
has-update k key line (q ∷ xrs) o h = elim (Bool-cases (str_same q.hashkey key)) [
  | inl p ↦ ground (arith, str_same→eq q.hashkey key p)
  | inr p ↦ ground (arith, has-update k key line xrs o (rw p at h), str_same→eq key k)
]

abbrev own_line : Option Xr → Bool
own_line none = false
own_line (some o) = is_own o.line

has-found :
    (key : Bytes) (xrs : List Xr) (o : Xr)
    → find_xr key xrs ≡ some o
    → (has key xrs ≡ true) × (own_of key xrs ≡ is_own o.line)
unfolding find_xr
has-found key [] o h = cc
has-found key (q ∷ xrs) o h = elim (Bool-cases (str_same q.hashkey key)) [
  | inl p ↦ rw p (refl, ap own_line (rw p at h))
  | inr p ↦ rw p (has-found key xrs o (rw p at h))
]

has-none : (key : Bytes) (xrs : List Xr) → find_xr key xrs ≡ none → has key xrs ≡ false
unfolding find_xr
has-none key [] h = refl
has-none key (q ∷ xrs) h = elim (Bool-cases (str_same q.hashkey key)) [
  | inl p ↦ cc (rw p at h)
  | inr p ↦ rw p (has-none key xrs (rw p at h))
]

-- The table behind one call.
abbrev Counted : Bytes → Bytes → ℤ → List Xr → List Xr → Type 0
Counted k key line xrs new =
    (count_of k new ≡ count_of k xrs + (if str_same key k then 1 else 0))
    × (own_of k new ≡ own_of k xrs || (str_same key k && is_own line))
    × (has k new ≡ has k xrs || str_same key k)

insert-Counted :
    (k key : Bytes) (line at : ℤ) (xrs : List Xr)
    → Counted k key line xrs (xr_insert key line at xrs).1
unfolding xr_insert
insert-Counted k key line at xrs = elim (Option-cases (find_xr key xrs)) [
  | inl e ↦
      rw (e, xr_insert)
        (
          count-append k key line at xrs e,
          own-append k key line at xrs e,
          has-append k key line at xrs,
        )
  | inr (o, e) ↦
      rw (e, xr_insert)
        (
          count-update k key line xrs o e,
          own-update k key line xrs o e,
          has-update k key line xrs o e,
        )
]

or_assoc : (a b c : Bool) → (a || b) || c ≡ a || (b || c)
or_assoc true b c = refl
or_assoc false b c = refl

-- What an insertion reports.
insert_lem :
    (key : Bytes) (line at : ℤ) (xrs : List Xr)
    → (xr_insert key line at xrs).0 ≡ has key xrs && differs (own_of key xrs) (is_own line)
unfolding xr_insert
insert_lem key line at xrs = elim (Option-cases (find_xr key xrs)) [
  | inl e ↦ rw (e, xr_insert) (rw (has-none key xrs e) refl)
  | inr (o, e) ↦ let (h, w) = has-found key xrs o e in rw (e, xr_insert) (rw (h, w) refl)
]

-- After any calls of mandoc_xr_add from a table on, every key has the count that it had and one more
-- for each call for it, is there if it was or if there is such a call, and is that of a name of the
-- page's own if it was or if such a call has the line -1.
pub after-counts :
    (k : Bytes) (cs : List Call) (xrs : List Xr)
    → (new : List Xr) × (after cs (some xrs) ≡ some new)
      × (count_of k new ≡ count_of k xrs + calls_of k cs)
      × (own_of k new ≡ own_of k xrs || owned k cs)
      × (has k new ≡ has k xrs || called k cs)
unfolding xr_add
after-counts k [] xrs = (xrs, refl, omega arith, ground arith, ground arith)
after-counts k (c ∷ cs) xrs =
    let (n, o, h) = insert-Counted k (key_of c.sec c.name) c.line c.at xrs in
    let next = (xr_insert (key_of c.sec c.name) c.line c.at xrs).1 in
    let (new, e, n', o', h') = after-counts k cs next in
    (
      new,
      e,
      n' ∙ rw n (omega arith),
      o' ∙ rw o (or_assoc (own_of k xrs) _ (owned k cs)),
      h' ∙ rw h (or_assoc (has k xrs) _ (called k cs)),
    )

-- After any calls from the empty table on, mandoc_xr_add reports exactly when the same section and
-- name were added before, and either this call has the line -1 or one before has, but not both.
pub xr_add-reports :
    (cs : List Call) (sec name : Bytes) (line at : ℤ)
    → (xr_add sec name line at (after cs (some []))).0
      ≡ called (key_of sec name) cs && differs (owned (key_of sec name) cs) (is_own line)
unfolding xr_add
xr_add-reports cs sec name line at =
    let (new, e, _, o, h) = after-counts (key_of sec name) cs [] in
    rw (e, xr_add) (insert_lem (key_of sec name) line at new ∙ rw (o, h) refl)
