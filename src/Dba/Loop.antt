-- ===== src/Dba/Loop.antt =====
-- The loop `dba_array_FOREACH` of dba_array.c: what it visits, and what is left where its body
-- deletes entries.
use mandoc_mirror.Prelude.{
  ℕ, zero, suc, ◌+◌, ◌≤◌, ◌<◌, ◌≡◌, refl, sym, ap, ◌∙◌, Bool, true, false, Option, none, some, List,
  [], ◌∷◌, ◌++◌, append-nil, append_assoc, arith, ltb, lt→ltb, inl, inr, Bool-cases, Option-cases,
  if◌then◌else◌, length, length-append, get_elem?, set, drop,
}
use mandoc_mirror.Dba.Array.{
  Slot, Array, deleted, mark, skip_deleted, next_at, array_next, array_del, array_start, visit,
  foreach, entry_of,
}

ltb_irrefl : (n : ℕ) → ltb n n ≡ false
ltb_irrefl n = ground arith

module _ {ℓ} {A : Type ℓ} where
  abbrev pub onto : Option A → List A → List A
  onto none xs = xs
  onto (some x) xs = x ∷ xs

  -- The entries that are not deleted, in order.
  abbrev pub live : List (Slot A) → List A
  live [] = []
  live (s ∷ ss) = if deleted s then live ss else onto s.ep (live ss)

  abbrev pub is_there : Option A → Bool
  is_there none = false
  is_there (some x) = true

  -- No place that is not deleted holds a null pointer.
  abbrev pub all_there : List (Slot A) → Bool
  all_there [] = true
  all_there (s ∷ ss) =
      if deleted s then all_there ss else if is_there s.ep then all_there ss else false

  -- The entries of which a test does not hold.
  abbrev pub without : (A → Bool) → List A → List A
  without removes [] = []
  without removes (x ∷ xs) = if removes x then without removes xs else x ∷ without removes xs

  drop-length : (done rest : List (Slot A)) → drop (length done) (done ++ rest) ≡ rest
  drop-length [] rest = refl
  drop-length (s ∷ done) rest = drop-length done rest

  get-length :
      (done : List (Slot A)) (s : Slot A) (ss : List (Slot A))
      → get_elem? (done ++ (s ∷ ss)) (length done) ≡ some s
  get-length [] s ss = refl
  get-length (t ∷ done) s ss = get-length done s ss

  get_none : (xs : List (Slot A)) → get_elem? xs (length xs) ≡ none
  get_none [] = refl
  get_none (x ∷ xs) = get_none xs

  set-length :
      (done : List (Slot A)) (s t : Slot A) (ss : List (Slot A))
      → set (done ++ (s ∷ ss)) (length done) t ≡ done ++ (t ∷ ss)
  set-length [] s t ss = refl
  set-length (u ∷ done) s t ss = ap (λ xs. u ∷ xs) (set-length done s t ss)

  drop_none : (xs : List (Slot A)) → drop (length xs) xs ≡ []
  drop_none [] = refl
  drop_none (x ∷ xs) = drop_none xs

  skip_deleted_next :
      (done : List (Slot A)) (s : Slot A) (ss : List (Slot A))
      → deleted s ≡ true
      → skip_deleted (drop (length done) (done ++ (s ∷ ss))) (length done)
        ≡ skip_deleted
            (drop (length (done ++ (s ∷ []))) ((done ++ (s ∷ [])) ++ ss))
            (length (done ++ (s ∷ [])))
  unfolding skip_deleted
  skip_deleted_next done s ss k =
      rw (drop-length (done ++ (s ∷ [])) ss)
        (simp (drop-length done (s ∷ ss), k, length-append done (s ∷ [])))

  module _ (a : Array A) (done : List (Slot A)) where
    next_at_end :
        a.slots ≡ done ++ [] → next_at a (length done) ≡ (none, record a { ec = length done })
    unfolding next_at skip_deleted
    next_at_end h = simp (h ∙ append-nil done, drop_none done, get_none done)

    next_at-deleted :
        (s : Slot A) (ss : List (Slot A))
        → a.slots ≡ done ++ (s ∷ ss)
        → deleted s ≡ true
        → next_at a (length done) ≡ next_at a (length (done ++ (s ∷ [])))
    unfolding next_at skip_deleted
    next_at-deleted s ss h k =
        ap (λ i. (entry_of (get_elem? a.slots i), record a { ec = i }))
          (rw h (skip_deleted_next done s ss k ∙ rw (append_assoc done (s ∷ []) ss)))

    next_at_live :
        (s : Slot A) (ss : List (Slot A))
        → a.slots ≡ done ++ (s ∷ ss)
        → deleted s ≡ false
        → next_at a (length done) ≡ (s.ep, record a { ec = length done })
    unfolding next_at skip_deleted
    next_at_live s ss h k = simp (h, drop-length done (s ∷ ss), k, get-length done s ss)

  -- The loop, from behind the places `done` on.
  module _ (removes : A → Bool) where
    abbrev Visits : ℕ → Array A → List (Slot A) → List (Slot A) → Type ℓ
    Visits fuel a done rest =
        (b : Array A) × (new : List (Slot A)) × (visit removes (λ c. foreach removes fuel c)
            (next_at a (length done))
          ≡ some (live rest, b))
        × (b.slots ≡ done ++ new)
        × (live new ≡ without removes (live rest))

    -- The array behind the body.
    abbrev body : A → Array A → Array A
    body x b = if removes x then array_del b else b

    array_del_at :
        (a : Array A) (done : List (Slot A)) (s : Slot A) (ss : List (Slot A))
        → a.slots ≡ done ++ (s ∷ ss)
        → deleted s ≡ false
        → a.ec ≡ length done
        → array_del a ≡ record a { slots = done ++ (mark s ∷ ss); ed = a.ed + 1 }
    unfolding array_del
    array_del_at a done s ss h k e =
        let g : get_elem? a.slots a.ec ≡ some s = rw (h, e) (get-length done s ss) in
        let w : set a.slots a.ec (mark s) ≡ done ++ (mark s ∷ ss) =
          rw (h, e) (set-length done s (mark s) ss) in
        rw (g, array_del) (simp (k, w))

    body-slots :
        (a : Array A) (done : List (Slot A)) (s : Slot A) (ss : List (Slot A)) (x : A)
        → a.slots ≡ done ++ (s ∷ ss)
        → deleted s ≡ false
        → a.ec ≡ length done
        → ((body x a).slots ≡ done ++ ((if removes x then mark s else s) ∷ ss))
          × ((body x a).ec ≡ length done)
    body-slots a done s ss x h k e = elim (Bool-cases (removes x)) [
      | inl p ↦ simp (p, array_del_at a done s ss h k e) (refl, e)
      | inr p ↦ simp p (h, e)
    ]

    after_live :
        (a : Array A) (done : List (Slot A)) (s t : Slot A) (ss : List (Slot A))
        → a.slots ≡ done ++ (s ∷ ss)
        → a.ec ≡ length done
        → array_next a ≡ next_at a (length (done ++ (t ∷ [])))
    unfolding array_next
    after_live a done s t ss h e =
        rw (lt→ltb a.ec (length a.slots) (rw (h, e, length-append done (s ∷ ss)) (omega arith)))
          (rw (e, length-append done (t ∷ [])) refl)

    Visits-deleted :
        (fuel : ℕ) (a : Array A) (done : List (Slot A)) (s : Slot A) (ss : List (Slot A))
        → a.slots ≡ done ++ (s ∷ ss)
        → deleted s ≡ true
        → Visits fuel a (done ++ (s ∷ [])) ss
        → Visits fuel a done (s ∷ ss)
    Visits-deleted fuel a done s ss h k (b, new, v, sl, lv) = (
      b,
      s ∷ new,
      rw (next_at-deleted a done s ss h k) (simp k v),
      sl ∙ append_assoc done (s ∷ []) new,
      simp k lv,
    )

    visit_end :
        (again : Array A → Option (List A × Array A)) (b : Array A)
        → visit removes again (none, b) ≡ some ([], b)
    unfolding visit
    visit_end again b = refl

    foreach_step :
        (fuel : ℕ) (a : Array A)
        → foreach removes (suc fuel) a ≡ visit removes (λ c. foreach removes fuel c) (array_next a)
    unfolding foreach
    foreach_step fuel a = refl

    live_after :
        (s : Slot A) (ss new : List (Slot A)) (x : A)
        → deleted s ≡ false
        → s.ep ≡ some x
        → live new ≡ without removes (live ss)
        → live ((if removes x then mark s else s) ∷ new) ≡ without removes (live (s ∷ ss))
    live_after s ss new x k e lv = elim (Bool-cases (removes x)) [
      | inl p ↦ simp (p, k, e, lv)
      | inr p ↦ simp (p, k, e, lv)
    ]

    Visits-live :
        (fuel : ℕ) (a : Array A) (done : List (Slot A)) (s : Slot A) (ss : List (Slot A)) (x : A)
        → a.slots ≡ done ++ (s ∷ ss)
        → deleted s ≡ false
        → s.ep ≡ some x
        → Visits fuel
            (body x (record a { ec = length done }))
            (done ++ ((if removes x then mark s else s) ∷ []))
            ss
        → Visits (suc fuel) a done (s ∷ ss)
    unfolding visit
    Visits-live fuel a done s ss x h k e (b, new, v, sl, lv) =
        let (hs, he) = body-slots (record a { ec = length done }) done s ss x h k refl in
        let s' = if removes x then mark s else s in
        (
          b,
          s' ∷ new,
          rw (next_at_live a done s ss h k, e)
              (rw
                (
                  foreach_step fuel (body x (record a { ec = length done })),
                  after_live (body x (record a { ec = length done })) done s' s' ss hs he,
                  v,
                )
                (simp k)),
          sl ∙ append_assoc done (s' ∷ []) new,
          live_after s ss new x k e lv,
        )

    visits :
        (fuel : ℕ) (a : Array A) (done rest : List (Slot A))
        → a.slots ≡ done ++ rest
        → all_there rest ≡ true
        → length rest ≤ fuel
        → Visits fuel a done rest
    visits fuel a done [] h t le =
        (record a { ec = length done }, [], rw (next_at_end a done h) (visit_end _ _), h, refl)
    visits zero a done (s ∷ ss) h t le = elim le [ ]
    visits (suc fuel) a done (s ∷ ss) h t le = elim (Bool-cases (deleted s)) [
      | inl k ↦ Visits-deleted (suc fuel) a done s ss h k (
          visits (suc fuel) a (done ++ (s ∷ [])) ss (h ∙ sym (append_assoc done (s ∷ []) ss))
            (let eq : all_there (s ∷ ss) ≡ all_there ss = simp k in sym eq ∙ t) (omega arith))
      | inr k ↦ elim (Option-cases s.ep) [
        | inl e ↦ let eq : all_there (s ∷ ss) ≡ false = simp (k, e) in cc
        | inr (x, e) ↦
            let (hs, he) = body-slots (record a { ec = length done }) done s ss x h k refl in
            let s' = if removes x then mark s else s in
            Visits-live fuel a done s ss x h k e (
              visits fuel (body x (record a { ec = length done })) (done ++ (s' ∷ [])) ss
                (hs ∙ sym (append_assoc done (s' ∷ []) ss))
                (let eq : all_there (s ∷ ss) ≡ all_there ss = simp (k, e) in sym eq ∙ t)
                (omega arith))
      ]
    ]

  next_first : (a : Array A) → array_next (array_start a) ≡ next_at (array_start a) 0
  unfolding array_next array_start
  next_first a = simp (ltb_irrefl (length a.slots))

  -- With more fuel than places and no null pointer among the entries that are not deleted, the loop
  -- ends; it runs for the entries that are not deleted, in order, and those for which its body does
  -- not call for a deletion are then the ones that are not deleted, in the same order.
  pub foreach-live :
      (removes : A → Bool) (fuel : ℕ) (a : Array A)
      → all_there a.slots ≡ true
      → length a.slots < fuel
      → (b : Array A) × (foreach removes fuel (array_start a) ≡ some (live a.slots, b))
        × (live b.slots ≡ without removes (live a.slots))
  unfolding array_start
  foreach-live removes zero a t le = elim le [ ]
  foreach-live removes (suc fuel) a t le =
      let (b, new, v, sl, lv) =
        visits removes fuel (array_start a) [] a.slots refl t (omega arith) in
      (b, rw (foreach_step removes fuel (array_start a), next_first a) v, rw sl lv)
