-- ===== src/Dba/Array.antt =====
-- The growable arrays of dba_array.c. An entry `none` is a null pointer; the copy of a string that
-- is made for DBA_STR is the string. `none` as the outcome of an operation is a failed assertion, or
-- a write behind the used entries. The sizes stay below 2^31, as the memory does not suffice for
-- more.
use mandoc_mirror.Prelude.{
  ℕ, zero, suc, ◌+◌, ◌-◌, ◌*◌, Bool, false, ◌&&◌, Option, none, some, List, [], ◌∷◌, ◌++◌, map, ltb,
  leb, ◌==◌, if◌then◌else◌, Bytes, length, get_elem?, set, drop,
}
use mandoc_mirror.Prelude.Int.{ℤ, pos, negsuc}
use mandoc_mirror.Dba.Write.{File, tell, skip, int_write, str_write, char_write}

-- One used place of `ep` and `em`.
pub record Slot {ℓ} (A : Type ℓ) : Type ℓ where
  pub ep : Option A
  pub em : ℤ

-- `struct dba_array`; the number of the used entries `eu` is the length of `slots`.
pub record Array {ℓ} (A : Type ℓ) : Type ℓ where
  pub slots : List (Slot A)
  -- `flags & DBA_GROW`
  pub grow : Bool
  pub ea : ℕ
  pub ed : ℕ
  pub ec : ℕ
  pub pos : ℕ

-- `em == -1`
abbrev pub is_minus_one : ℤ → Bool
is_minus_one (pos n) = false
is_minus_one (negsuc n) = n == 0

module _ {ℓ} {A : Type ℓ} where
  abbrev pub deleted : Slot A → Bool
  deleted s = is_minus_one s.em

  unfoldable pub array_new : ℕ → Bool → Option (Array A)
  array_new ea grow =
      if ltb 0 ea
      then some (record { slots = []; grow = grow; ea = ea; ed = 0; ec = 0; pos = 0 })
      else none

  abbrev pub place : Option A → Slot A
  place entry = record { ep = entry; em = pos 0 }

  unfoldable pub array_set : Array A → ℕ → Option A → Option (Array A)
  array_set a ie entry =
      if ltb ie a.ea && leb ie (length a.slots)
      then some (record a {
        slots =
            if ie == length a.slots
            then a.slots ++ (place entry ∷ [])
            else set a.slots ie (place entry);
      })
      else none

  unfoldable pub array_add : Array A → Option A → Option (Array A)
  unfolding array_set
  array_add a entry =
      if length a.slots == a.ea
      then if a.grow then array_set (record a { ea = a.ea * 2 }) (length a.slots) entry else none
      else array_set a (length a.slots) entry

  -- The pointer in a place, if the place is used.
  abbrev pub entry_of : Option (Slot A) → Option A
  entry_of none = none
  entry_of (some s) = s.ep

  abbrev pub live_entry : Option (Slot A) → Option A
  live_entry none = none
  live_entry (some s) = if deleted s then none else s.ep

  unfoldable pub array_get : Array A → ℤ → Option A
  array_get a (pos ie) = live_entry (get_elem? a.slots ie)
  array_get a (negsuc n) = none

  unfoldable pub array_start : Array A → Array A
  array_start a = record a { ec = length a.slots }

  -- The loop of `dba_array_next`, with the places from the index on.
  unfoldable pub skip_deleted : List (Slot A) → ℕ → ℕ
  skip_deleted [] i = i
  skip_deleted (s ∷ ss) i = if deleted s then skip_deleted ss (i + 1) else i

  -- The rest of `dba_array_next`, from the index at which it begins to look.
  unfoldable pub next_at : Array A → ℕ → Option A × Array A
  unfolding skip_deleted
  next_at a i =
      let ec = skip_deleted (drop i a.slots) i in
      (entry_of (get_elem? a.slots ec), record a { ec = ec })

  unfoldable pub array_next : Array A → Option A × Array A
  unfolding next_at
  array_next a = next_at a (if ltb a.ec (length a.slots) then a.ec + 1 else 0)

  abbrev pub mark : Slot A → Slot A
  mark s = record s { em = negsuc 0 }

  unfoldable pub array_del : Array A → Array A
  array_del a = elim (get_elem? a.slots a.ec) [
    | none ↦ a
    | some s ↦
        if deleted s then a else record a { slots = set a.slots a.ec (mark s); ed = a.ed + 1 }
  ]

  abbrev pub unmark : Slot A → Slot A
  unmark s = record s { em = pos 0 }

  unfoldable pub array_undel : Array A → Array A
  array_undel a = record a { slots = map unmark a.slots }

  unfoldable pub array_setpos : Array A → ℕ → ℤ → Option (Array A)
  array_setpos a ie p = elim (get_elem? a.slots ie) [
    | none ↦ none
    | some s ↦ some (record a { slots = set a.slots ie (record s { em = p }) })
  ]

  -- Entries put into the places, whose map positions stay.
  unfoldable pub refill : List (Slot A) → List (Option A) → List (Slot A)
  refill (s ∷ ss) (e ∷ es) = record { ep = e; em = s.em } ∷ refill ss es
  refill ss es = ss

  -- `qsort` of the C library with the comparison function
  unfoldable pub array_sort : (List (Option A) → List (Option A)) → Array A → Option (Array A)
  unfolding refill
  array_sort qsort a =
      if a.ed == 0
      then some (record a { slots = refill a.slots (qsort (map (λ s. s.ep) a.slots)) })
      else none

  unfoldable pub array_writelen : ℕ → Array A → File → Option (ℕ × File)
  unfolding skip
  array_writelen nmemb a f =
      let n = length a.slots - a.ed in
      if ltb (length a.slots) a.ed then none else skip nmemb n (int_write (pos n) f)

  -- The loop of `dba_array_writepos`.
  unfoldable pub write_positions : List (Slot A) → File → File
  write_positions [] f = f
  write_positions (s ∷ ss) f = write_positions ss (if deleted s then f else int_write s.em f)

  unfoldable pub array_writepos : Array A → File → Option (Array A × File)
  unfolding tell write_positions
  array_writepos a f = elim (tell f) [
    | none ↦ none
    | some p ↦ some (record a { pos = p }, write_positions a.slots f)
  ]

  -- One round of the loop, where `again` is what follows.
  unfoldable pub visit :
      (A → Bool)
      → (Array A → Option (List A × Array A))
      → Option A × Array A
      → Option (List A × Array A)
  unfolding array_del
  visit removes again (none, b) = some ([], b)
  visit removes again (some x, b) = elim (again (if removes x then array_del b else b)) [
    | none ↦ none
    | some (xs, c) ↦ some (x ∷ xs, c)
  ]

  -- `dba_array_FOREACH` behind its start, with a body that deletes some of the entries: the entries
  -- that it runs for, and the array. `none` means that the fuel ran out.
  unfoldable pub foreach : (A → Bool) → ℕ → Array A → Option (List A × Array A)
  unfolding array_next visit
  foreach removes zero a = none
  foreach removes (suc fuel) a = visit removes (λ b. foreach removes fuel b) (array_next a)

-- The strings that `dba_array_writelst` writes.
unfoldable pub write_strings : List Bytes → File → File
write_strings [] f = char_write 0 f
write_strings (s ∷ ss) f = write_strings ss (str_write s f)

unfoldable pub array_writelst : ℕ → Array Bytes → File → Option (Array Bytes × File)
unfolding foreach array_start write_strings
array_writelst fuel a f = elim (foreach (λ s. false) fuel (array_start a)) [
  | none ↦ none
  | some (ss, b) ↦ some (b, write_strings ss f)
]
