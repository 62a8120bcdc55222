-- ===== src/Dba/Counts.antt =====
-- The count of deleted entries of an array, and what is written by it: dba_array.c.
use mandoc_mirror.Prelude.{
  ℕ, zero, suc, ◌+◌, ◌-◌, ◌≤◌, ◌<◌, ◌⊎◌, ◌*◌, ◌≡◌, refl, sym, ap, ◌∙◌, Bool, true, false, Option,
  none, some, List, [], ◌∷◌, ◌++◌, arith, ltb, lt→ltb, leb, ◌==◌, if◌then◌else◌, map, ◌&&◌, inl,
  inr, Bool-cases, Option-cases, length, length-set, length-append, get_elem?, set,
}
use mathlib.Core.Option.{some-injective}
use mathlib.Core.Path.{subst}
use mandoc_mirror.Prelude.Int.{pos}
use mandoc_mirror.Dba.Array.{
  Slot, Array, deleted, mark, place, next_at, array_new, array_set, array_add, array_next,
  array_start, array_del, array_setpos, array_writelen, write_positions, array_writepos, array_sort,
  refill,
}
use mandoc_mirror.Dba.Write.{File, be32, int_write, tell, skip}

leb_refl : (n : ℕ) → leb n n ≡ true
leb_refl n = ground arith

==_refl : (n : ℕ) → (n == n) ≡ true
==_refl n = ground arith

abbrev has_value {ℓ} : {A : Type ℓ} → Option A → ℕ
has_value none = 0
has_value (some x) = 1

module _ {ℓ} {A : Type ℓ} where
  abbrev pub count_deleted : List (Slot A) → ℕ
  count_deleted [] = 0
  count_deleted (s ∷ ss) = (if deleted s then 1 else 0) + count_deleted ss

  -- `ed` counts the deleted entries, and the used places are allocated, of which there is one.
  pub record IsCounted (a : Array A) : Type 0 where
    pub counted : a.ed ≡ count_deleted a.slots
    pub allocated : length a.slots ≤ a.ea
    pub positive : 1 ≤ a.ea

  count_append :
      (ss : List (Slot A)) (s : Slot A)
      → count_deleted (ss ++ (s ∷ [])) ≡ count_deleted ss + (if deleted s then 1 else 0)
  count_append [] s = omega arith
  count_append (t ∷ ss) s = omega (arith, count_append ss s)

  abbrev count_one : Option (Slot A) → ℕ
  count_one none = 0
  count_one (some s) = if deleted s then 1 else 0

  -- A write at a used place changes the count by that place alone.
  count_set :
      (ss : List (Slot A)) (i : ℕ) (s t : Slot A)
      → get_elem? ss i ≡ some s
      → count_deleted (set ss i t) + (if deleted s then 1 else 0)
        ≡ count_deleted ss + (if deleted t then 1 else 0)
  count_set [] i s t h = absurd (omega (arith, ap has_value h))
  count_set (u ∷ ss) zero s t h = omega (arith, ap count_one h)
  count_set (u ∷ ss) (suc i) s t h = omega (arith, count_set ss i s t h)

  marked : (a : Array A) (s : Slot A) → Array A
  marked a s = record a { slots = set a.slots a.ec (mark s); ed = a.ed + 1 }

  marked-IsCounted :
      (a : Array A) (s : Slot A)
      → get_elem? a.slots a.ec ≡ some s
      → deleted s ≡ false
      → IsCounted a
      → IsCounted (marked a s)
  unfolding marked
  marked-IsCounted a s e k c = record {
    counted = ground (arith, count_set a.slots a.ec s (mark s) e, c.counted);
    allocated = rw (length-set a.slots a.ec (mark s)) c.allocated;
    positive = c.positive;
  }

  array_del-IsCounted : (a : Array A) → IsCounted a → IsCounted (array_del a)
  unfolding array_del marked
  array_del-IsCounted a c = elim (Option-cases (get_elem? a.slots a.ec)) [
    | inl e ↦ rw (e, array_del) c
    | inr (s, e) ↦ elim (Bool-cases (deleted s)) [
      | inl k ↦ rw (e, array_del) (simp k c)
      | inr k ↦ rw (e, array_del) (simp k (marked-IsCounted a s e k c))
    ]
  ]

  -- An array with one more entry, in `ea` places.
  abbrev pub longer : Array A → ℕ → Option A → Array A
  longer a ea entry = record a { slots = a.slots ++ (place entry ∷ []); ea = ea }

  array_set-longer :
      (a : Array A) (entry : Option A)
      → length a.slots < a.ea
      → array_set a (length a.slots) entry ≡ some (longer a a.ea entry)
  unfolding array_set
  array_set-longer a entry h =
      simp (lt→ltb (length a.slots) a.ea h, leb_refl (length a.slots), ==_refl (length a.slots))

  longer-IsCounted :
      (a : Array A) (ea : ℕ) (entry : Option A)
      → length a.slots < ea
      → IsCounted a
      → IsCounted (longer a ea entry)
  longer-IsCounted a ea entry h c = record {
    counted = omega (arith, count_append a.slots (place entry), c.counted);
    allocated = omega (arith, length-append a.slots (place entry ∷ []));
    positive = omega arith;
  }

  -- With a right count, dba_array_add at an array that may grow or has room puts the entry behind
  -- the others and leaves the count right.
  pub array_add-IsCounted :
      (a : Array A) (entry : Option A)
      → (a.grow ≡ true) ⊎ (length a.slots < a.ea)
      → IsCounted a
      → (b : Array A) × (array_add a entry ≡ some b)
        × (b.slots ≡ a.slots ++ (place entry ∷ []))
        × IsCounted b
  unfolding array_add
  array_add-IsCounted a entry h c = elim (Bool-cases (length a.slots == a.ea)) [
    | inl k ↦
        let lt : length a.slots < a.ea * 2 = ground (arith, k, c.positive) in
        let g : a.grow ≡ true = elim h [ inl g ↦ g | inr l ↦ absurd (ground (arith, k)) ] in
        (
          longer a (a.ea * 2) entry,
          simp (k, g, array_set-longer (record a { grow = true; ea = a.ea * 2 }) entry lt),
          refl,
          longer-IsCounted a (a.ea * 2) entry lt c,
        )
    | inr k ↦
        let lt : length a.slots < a.ea = ground (arith, c.allocated) in
        (
          longer a a.ea entry,
          simp (k, array_set-longer a entry lt),
          refl,
          longer-IsCounted a a.ea entry lt c,
        )
  ]

  placed : Array A → ℕ → Slot A → Array A
  placed a ie s = record a { slots = set a.slots ie s }

  array_setpos-IsCounted :
      (a : Array A) (ie p : ℕ) (s : Slot A)
      → get_elem? a.slots ie ≡ some s
      → deleted s ≡ false
      → IsCounted a
      → (array_setpos a ie (pos p) ≡ some (placed a ie (record s { em = pos p })))
        × IsCounted (placed a ie (record s { em = pos p }))
  unfolding array_setpos placed
  array_setpos-IsCounted a ie p s e k c = (
    rw (e, array_setpos) refl,
    record {
      counted = ground (arith, count_set a.slots ie s (record s { em = pos p }) e, c.counted);
      allocated = rw (length-set a.slots ie (record s { em = pos p })) c.allocated;
      positive = c.positive;
    },
  )

  array_set_full :
      (a : Array A) (ie : ℕ) (entry : Option A)
      → (ltb ie a.ea && leb ie (length a.slots)) ≡ false
      → array_set a ie entry ≡ none
  unfolding array_set
  array_set_full a ie entry h = rw h refl

  array_set_used :
      (a : Array A) (ie : ℕ) (entry : Option A)
      → (ltb ie a.ea && leb ie (length a.slots)) ≡ true
      → (ie == length a.slots) ≡ false
      → array_set a ie entry ≡ some (placed a ie (place entry))
  unfolding array_set placed
  array_set_used a ie entry h k = rw (h, k) refl

  get_elem-lt :
      (ss : List (Slot A)) (ie : ℕ) (s : Slot A) → get_elem? ss ie ≡ some s → ie < length ss
  get_elem-lt [] ie s h = absurd (omega (arith, ap has_value h))
  get_elem-lt (t ∷ ss) zero s h = omega arith
  get_elem-lt (t ∷ ss) (suc ie) s h = omega (arith, get_elem-lt ss ie s h)

  placed-IsCounted :
      (a : Array A) (ie : ℕ) (s : Slot A) (entry : Option A)
      → get_elem? a.slots ie ≡ some s
      → deleted s ≡ false
      → IsCounted a
      → IsCounted (placed a ie (place entry))
  unfolding placed
  placed-IsCounted a ie s entry e k c = record {
    counted = ground (arith, count_set a.slots ie s (place entry) e, c.counted);
    allocated = rw (length-set a.slots ie (place entry)) c.allocated;
    positive = c.positive;
  }

  set-IsCounted :
      (a b : Array A) (ie : ℕ) (s : Slot A) (entry : Option A)
      → get_elem? a.slots ie ≡ some s
      → deleted s ≡ false
      → array_set a ie entry ≡ some b
      → IsCounted a
      → IsCounted b
  set-IsCounted a b ie s entry e k h c =
      let lt = get_elem-lt a.slots ie s e in
      let room : (ltb ie a.ea && leb ie (length a.slots)) ≡ true =
        ground (arith, lt, c.allocated) in
      let used : (ie == length a.slots) ≡ false = ground (arith, lt) in
      subst IsCounted (some-injective _ _ (sym (array_set_used a ie entry room used) ∙ h))
        (placed-IsCounted a ie s entry e k c)

  put-IsCounted :
      (a b : Array A) (entry : Option A)
      → array_set a (length a.slots) entry ≡ some b
      → IsCounted a
      → IsCounted b
  put-IsCounted a b entry h c = elim (Bool-cases (ltb (length a.slots) a.ea)) [
    | inl k ↦
        let lt : length a.slots < a.ea = ground (arith, k) in
        subst IsCounted (some-injective _ _ (sym (array_set-longer a entry lt) ∙ h))
          (longer-IsCounted a a.ea entry lt c)
    | inr k ↦ absurd (
        omega (
          arith,
          ap has_value (sym (array_set_full a (length a.slots) entry (ground (arith, k))) ∙ h),
        ))
  ]

  refill_lem :
      (ss : List (Slot A)) (es : List (Option A))
      → (count_deleted (refill ss es) ≡ count_deleted ss) × (length (refill ss es) ≡ length ss)
  unfolding refill
  refill_lem [] es = (refl, refl)
  refill_lem (s ∷ ss) [] = (refl, refl)
  refill_lem (s ∷ ss) (e ∷ es) =
      let (h, k) = refill_lem ss es in (ground (arith, h), omega (arith, k))

  sorted : (List (Option A) → List (Option A)) → Array A → Array A
  sorted qsort a = record a { slots = refill a.slots (qsort (map (λ s. s.ep) a.slots)) }

  sort-IsCounted :
      (qsort : List (Option A) → List (Option A)) (a b : Array A)
      → array_sort qsort a ≡ some b
      → IsCounted a
      → IsCounted b
  unfolding array_sort sorted
  sort-IsCounted qsort a b h c = elim (Bool-cases (a.ed == 0)) [
    | inl k ↦
        let (n, l) = refill_lem a.slots (qsort (map (λ s. s.ep) a.slots)) in
        let e : array_sort qsort a ≡ some (sorted qsort a) = rw k refl in
        subst IsCounted (some-injective _ _ (sym e ∙ h)) (record {
          counted = omega (arith, n, c.counted);
          allocated = omega (arith, l, c.allocated);
          positive = c.positive;
        })
    | inr k ↦
        let e : array_sort qsort a ≡ none = rw k refl in
        absurd (omega (arith, ap has_value (sym e ∙ h)))
  ]

  -- The arrays that the operations other than `dba_array_undel` make, where entries and map positions are
  -- set at places that are not deleted, or behind them, and map positions are not negative.
  pub data Reached : Array A → Type ℓ where
    new : (ea : ℕ) (grow : Bool) (a : Array A) → array_new ea grow ≡ some a → Reached a
    add : (a b : Array A) (entry : Option A) → Reached a → array_add a entry ≡ some b → Reached b
    start : (a : Array A) → Reached a → Reached (array_start a)
    next : (a : Array A) → Reached a → Reached (array_next a).1
    del : (a : Array A) → Reached a → Reached (array_del a)
    setpos :
        (a b : Array A) (ie p : ℕ) (s : Slot A)
        → Reached a
        → get_elem? a.slots ie ≡ some s
        → deleted s ≡ false
        → array_setpos a ie (pos p) ≡ some b
        → Reached b
    replace :
        (a b : Array A) (ie : ℕ) (s : Slot A) (entry : Option A)
        → Reached a
        → get_elem? a.slots ie ≡ some s
        → deleted s ≡ false
        → array_set a ie entry ≡ some b
        → Reached b
    put :
        (a b : Array A) (entry : Option A)
        → Reached a
        → array_set a (length a.slots) entry ≡ some b
        → Reached b
    sort :
        (qsort : List (Option A) → List (Option A)) (a b : Array A)
        → Reached a
        → array_sort qsort a ≡ some b
        → Reached b

  array_new_lem :
      (ea : ℕ) (grow : Bool)
      → 0 < ea
      → array_new {A = A} ea grow
        ≡ some (record { slots = []; grow = grow; ea = ea; ed = 0; ec = 0; pos = 0 })
  unfolding array_new
  array_new_lem ea grow h = simp (lt→ltb 0 ea h)

  array_new-IsCounted :
      (ea : ℕ) (grow : Bool) (a : Array A) → array_new ea grow ≡ some a → IsCounted a
  unfolding array_new
  array_new-IsCounted zero grow a h = absurd (omega (arith, ap has_value h))
  array_new-IsCounted (suc ea) grow a h =
      subst IsCounted (some-injective _ _ (sym (array_new_lem (suc ea) grow (omega arith)) ∙ h))
        (record { counted = refl; allocated = omega arith; positive = omega arith })

  array_add_full :
      (a : Array A) (entry : Option A)
      → a.grow ≡ false
      → (length a.slots == a.ea) ≡ true
      → array_add a entry ≡ none
  unfolding array_add
  array_add_full a entry g k = simp (k, g)

  add-IsCounted :
      (a b : Array A) (entry : Option A) → array_add a entry ≡ some b → IsCounted a → IsCounted b
  add-IsCounted a b entry h c =
      let from = λ (k : (a.grow ≡ true) ⊎ (length a.slots < a.ea)).
        let (d, e, _, cd) = array_add-IsCounted a entry k c in
        subst IsCounted (some-injective _ _ (sym e ∙ h)) cd in
      elim (Bool-cases a.grow) [
        | inl g ↦ from (inl g)
        | inr g ↦ elim (Bool-cases (length a.slots == a.ea)) [
          | inl k ↦ absurd (omega (arith, ap has_value (sym (array_add_full a entry g k) ∙ h)))
          | inr k ↦ from (inr (ground (arith, c.allocated)))
        ]
      ]

  moved-IsCounted : (a : Array A) (ec : ℕ) → IsCounted a → IsCounted (record a { ec = ec })
  moved-IsCounted a ec c = record {
    counted = c.counted;
    allocated = c.allocated;
    positive = c.positive;
  }

  array_start-IsCounted : (a : Array A) → IsCounted a → IsCounted (array_start a)
  unfolding array_start
  array_start-IsCounted a c = moved-IsCounted a (length a.slots) c

  array_next-IsCounted : (a : Array A) → IsCounted a → IsCounted (array_next a).1
  unfolding array_next next_at
  array_next-IsCounted a c = moved-IsCounted a _ c

  -- Every array that is reached counts its deleted entries and has places for all it uses.
  pub Reached-IsCounted : (a : Array A) → Reached a → IsCounted a
  Reached-IsCounted a (new ea grow _ h) = array_new-IsCounted ea grow a h
  Reached-IsCounted a (add b _ entry r h) = add-IsCounted b a entry h (Reached-IsCounted b r)
  Reached-IsCounted _ (start b r) = array_start-IsCounted b (Reached-IsCounted b r)
  Reached-IsCounted _ (next b r) = array_next-IsCounted b (Reached-IsCounted b r)
  Reached-IsCounted _ (del b r) = array_del-IsCounted b (Reached-IsCounted b r)
  Reached-IsCounted a (setpos b _ ie p s r e k h) =
      let (q, c) = array_setpos-IsCounted b ie p s e k (Reached-IsCounted b r) in
      subst IsCounted (some-injective _ _ (sym q ∙ h)) c
  Reached-IsCounted a (replace b _ ie s entry r e k h) =
      set-IsCounted b a ie s entry e k h (Reached-IsCounted b r)
  Reached-IsCounted a (put b _ entry r h) = put-IsCounted b a entry h (Reached-IsCounted b r)
  Reached-IsCounted a (sort qsort b _ r h) = sort-IsCounted qsort b a h (Reached-IsCounted b r)

  -- The number of entries that are not deleted.
  abbrev pub live_count : List (Slot A) → ℕ
  live_count [] = 0
  live_count (s ∷ ss) = (if deleted s then 0 else 1) + live_count ss

  live_deleted : (ss : List (Slot A)) → live_count ss + count_deleted ss ≡ length ss
  live_deleted [] = refl
  live_deleted (s ∷ ss) = ground (arith, live_deleted ss)

  -- Each position takes four bytes.
  write_positions-at :
      (ss : List (Slot A)) (f : File) → (write_positions ss f).at ≡ f.at + 4 * live_count ss
  unfolding write_positions be32
  write_positions-at [] f = omega arith
  write_positions-at (s ∷ ss) f = elim (Bool-cases (deleted s)) [
    | inl k ↦ simp k (omega (arith, write_positions-at ss f))
    | inr k ↦ simp k (omega (arith, write_positions-at ss (int_write s.em f)))
  ]

  -- At every array made by the operations other than dba_array_undel, where dba_array_set and
  -- dba_array_setpos are called for entries that are not deleted, or dba_array_set for the place
  -- behind the last one, and positions are not negative, dba_array_writelen writes the number of
  -- entries that are not deleted and leaves room for as many groups, and dba_array_writepos writes
  -- as many integers.
  pub writelen-writepos :
      (a : Array A) (nmemb p : ℕ) (f : File)
      → Reached a
      → tell f ≡ some p
      → (array_writelen nmemb a f
          ≡ skip nmemb (live_count a.slots) (int_write (pos (live_count a.slots)) f))
        × ((b : Array A) × (g : File) × (array_writepos a f ≡ some (b, g))
            × (b.pos ≡ p)
            × (g.at ≡ f.at + 4 * live_count a.slots))
  unfolding array_writelen array_writepos
  writelen-writepos a nmemb p f r h =
      let c = Reached-IsCounted a r in
      let n : length a.slots - a.ed ≡ live_count a.slots =
        omega (arith, c.counted, live_deleted a.slots) in
      let m : ltb (length a.slots) a.ed ≡ false = ground (arith, c.counted, live_deleted a.slots) in
      (
        simp m (ap (λ k. skip nmemb k (int_write (pos k) f)) n),
        (
          record a { pos = p },
          write_positions a.slots f,
          rw (h, array_writepos) refl,
          refl,
          write_positions-at a.slots f,
        ),
      )
