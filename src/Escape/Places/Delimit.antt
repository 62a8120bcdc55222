-- ===== src/Escape/Places/Delimit.antt =====
-- The places behind the delimiter of an argument: roff_escape.c.
use mandoc_mirror.Prelude.{
  ℕ, ◌+◌, ◌≤◌, ◌<◌, ◌≡◌, Bool, true, false, ◌&&◌, ◌||◌, none, some, arith, ◌==◌, if◌then◌else◌,
  if_both, inl, inr, Bytes, codes, elem, length,
}
use mandoc_mirror.Font.{expand, error}
use mandoc_mirror.Escape.Syntax.{
  at, in_set, Located, Pos, any_term, is_none_limit, is_expand, is_undef, size_at,
}
use mandoc_mirror.Escape.Delimit.{
  is_missing, take_term, delimit_byte, delimit_escape, delimit_quoted, delimit_standard, delimit,
}
use mandoc_mirror.Escape.Places.{
  Fits, Ready, Done, DelimitFits, Plain, at-pos, ended_fits, opened_fits,
}

module _ (buf : Bytes) (m : ℕ) where
  pub size_at-Ready : (i : ℕ) → m ≤ i → i ≤ length buf → Done (length buf) m (size_at buf i)
  unfolding size_at
  size_at-Ready i h k =
      if_both (Done (length buf) m) (at buf i == b'(') (λ e. ground (arith, at-pos buf i))
        λ e.
          if_both (Done (length buf) m) (at buf i == b'[') (λ e. ground (arith, at-pos buf i))
            λ e.
              if_both (Done (length buf) m) (at buf i == b'\'') (λ e. ground (arith, at-pos buf i))
                λ e. ground arith

  take_term-Fits :
      (e : Bool) (p : Pos)
      → Ready (length buf) m p
      → 0 < at buf p.iarg
      → DelimitFits (length buf) m (take_term buf e p)
  unfolding take_term
  take_term-Fits e p r h =
      if_both (DelimitFits (length buf) m) (p.term == any_term)
        (λ k. opened_fits e _ (ground (arith, r, at-pos buf p.iarg))) λ k. opened_fits e p r

  delimit_byte-Fits :
      (nam : ℕ) (p : Pos)
      → Ready (length buf) m p
      → 0 < at buf p.iarg
      → DelimitFits (length buf) m (delimit_byte buf nam p)
  unfolding delimit_byte
  delimit_byte-Fits nam p r h =
      let q = record p { rval = if is_expand p.rval then expand else error } in
      let lt : p.iarg < length buf = at-pos buf p.iarg h in
      if_both (DelimitFits (length buf) m)
        (elem nam (codes "BDHLRSvxNhl")
          && in_set (at buf p.iarg) (codes " %&()*+-./0123456789:<=>"))
        (λ k.
          if_both (DelimitFits (length buf) m) (nam == b'D')
            (λ j. take_term-Fits false q (omega arith) h) λ j. ended_fits _ (omega arith))
        λ k. take_term-Fits false p (omega arith) h

  delimit_escape-Fits :
      (nam i : ℕ) (p : Pos) (f : Located)
      → Done (length buf) m p
      → m ≤ i
      → Fits (length buf) i f
      → (at buf f.inam == any_term) ≡ false
      → DelimitFits (length buf) m (delimit_escape buf nam p f)
  unfolding delimit_escape take_term
  delimit_escape-Fits nam i p f r h g ne =
      if_both (DelimitFits (length buf) m)
        (elem nam (codes "BHLRSNhlvx") && in_set (at buf f.inam) (codes " ,.0DLOXYZ^abdhlortuvx|~"))
        (λ k. ended_fits _ (omega arith)) λ k. simp ne (opened_fits true _ (omega arith))

  -- The standard argument at `i`.
  delimit_standard-Fits :
      (i : ℕ) (p : Pos)
      → Done (length buf) m p
      → m ≤ i
      → i ≤ length buf
      → DelimitFits (length buf) m (delimit_standard buf i p)
  unfolding delimit_standard
  delimit_standard-Fits i p r h k =
      if_both (DelimitFits (length buf) m) (at buf i == b'(')
        (λ e. opened_fits false _ (ground (arith, at-pos buf i)))
        λ e.
          if_both (DelimitFits (length buf) m) (at buf i == b'[')
            (λ e.
              if_both (DelimitFits (length buf) m) (at buf (i + 1) == b' ')
                (λ j. ended_fits _ (ground (arith, at-pos buf (i + 1))))
                λ j. opened_fits false _ (ground (arith, at-pos buf i)))
            λ e. opened_fits false _ (ground arith)

  delimit_standard_at :
      (nam : ℕ) (p : Pos)
      → Done (length buf) m p
      → DelimitFits (length buf) m (
          delimit_standard buf
            (if nam == b'n' && (at buf p.iarg == b'+' || at buf p.iarg == b'-')
              then p.iarg + 1
              else p.iarg)
            p)
  delimit_standard_at nam p r =
      let i =
        if nam == b'n' && (at buf p.iarg == b'+' || at buf p.iarg == b'-')
        then p.iarg + 1
        else p.iarg in
      delimit_standard-Fits i p r (ground arith) (ground (arith, at-pos buf p.iarg))

  pub delimit-none :
      (nam : ℕ) (p : Pos)
      → Done (length buf) m p
      → is_missing buf p ≡ false
      → DelimitFits (length buf) m (delimit buf nam p none)
  unfolding delimit delimit_quoted is_missing
  delimit-none nam p r h =
      if_both (DelimitFits (length buf) m) (p.term == any_term)
        (λ k. delimit_byte-Fits nam p (omega arith) (ground arith))
        λ k.
          if_both (DelimitFits (length buf) m) (p.term == 0 && is_none_limit p.limit)
            (λ j. delimit_standard_at nam p r) λ j. opened_fits false p (omega arith)

  pub delimit-some :
      (nam : ℕ) (p : Pos) (f : Located)
      → Done (length buf) m p
      → (p.iarg ≡ p.iendarg)
      → Fits (length buf) p.iendarg f
      → Plain buf f
      → 0 < at buf (p.iarg + 1)
      → DelimitFits (length buf) m (delimit buf nam p (some f))
  unfolding delimit delimit_quoted
  delimit-some nam p f r e g pl h =
      if_both (DelimitFits (length buf) m) (p.term == any_term)
        (λ k.
          if_both (DelimitFits (length buf) m) (is_undef f.rval)
            (λ u.
              delimit_byte-Fits nam (record p { iarg = p.iarg + 1 })
                (omega (arith, at-pos buf (p.iarg + 1))) h)
            λ u.
              delimit_escape-Fits nam p.iendarg p f r (omega arith) g
                (elim pl [ inl w ↦ cc | inr w ↦ w ]))
        λ k.
          if_both (DelimitFits (length buf) m) (p.term == 0 && is_none_limit p.limit)
            (λ j. delimit_standard_at nam p r) λ j. opened_fits false p (omega arith)
