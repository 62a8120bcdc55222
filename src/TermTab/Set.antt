-- ===== src/TermTab/Set.antt =====
-- `term_tab_set` writes inside the allocated positions, through a pointer that is there.
use mandoc_mirror.Prelude.{
  ℕ, ◌≤◌, ◌≡◌, ◌≢◌, inl, inr, refl, arith, Bool, not, ◌&&◌, Option, none, some, List, [], ◌∷◌, ◌==◌,
  if◌then◌else◌, Bool-cases, length, length-append, Bytes, str_same, codes, peek, next,
}
use mandoc_mirror.Roffsu.{Scale, em, Strtod, a2roffsu}
use mandoc_mirror.TermTab.{
  Tablist, Tabs, Recorded, nowhere, in_all, in_periodic, add_size, last_or_zero, record_tab,
  record_in, tab_set, period, extend,
}
use mandoc_mirror.TermTab.Next.{length-period}
use mandoc_mirror.TermTab.Ends.{Extends, here, more}

-- The used positions are allocated.
abbrev pub Fits : Tablist → Type 0
Fits l = length l.t ≤ l.s

pub record IsValid (tabs : Tabs) : Type 0 where
  pub all_fits : Fits tabs.a
  pub periodic_fits : Fits tabs.p
  pub recording : tabs.r ≢ nowhere

record_tab-Fits : (add : Bool) (pos : ℕ) (l : Tablist) → Fits l → Fits (record_tab add pos l)
unfolding record_tab
record_tab-Fits add pos l h = ground (
  arith,
  length-append {0} l.t
      ((if add && not (length l.t == 0) then add_size pos (last_or_zero l.t) else pos) ∷ []),
)

record_in-IsValid :
    (r : Recorded) (add : Bool) (pos : ℕ) (tabs : Tabs)
    → r ≡ tabs.r
    → IsValid tabs
    → (tabs' : Tabs) × (record_in r add pos tabs ≡ some tabs') × IsValid tabs'
unfolding record_in
record_in-IsValid nowhere add pos tabs e v = absurd (v.recording (cc))
record_in-IsValid in_all add pos tabs e v = (
  _,
  refl,
  record {
    all_fits = record_tab-Fits add pos tabs.a v.all_fits;
    periodic_fits = v.periodic_fits;
    recording = v.recording;
  },
)
record_in-IsValid in_periodic add pos tabs e v = (
  _,
  refl,
  record {
    all_fits = v.all_fits;
    periodic_fits = record_tab-Fits add pos tabs.p v.periodic_fits;
    recording = v.recording;
  },
)

module _ {Double : Type 0} (lib : Strtod Double) (hspan : Scale × Double → ℕ) where
  -- Clearing makes any state valid whose lists are allocated.
  pub tab_set-IsValid_clear :
      (tabs : Tabs) → (tabs' : Tabs) × (tab_set lib hspan none tabs ≡ some tabs') × IsValid tabs'
  unfolding tab_set
  tab_set-IsValid_clear tabs =
      (_, refl, record { all_fits = omega arith; periodic_fits = omega arith; recording = λ e. cc })

  -- From a valid state every argument leads to a valid state: the new position is written inside
  -- the allocated array, and the list that is recorded is there.
  pub tab_set-IsValid :
      (arg : Option Bytes) (tabs : Tabs)
      → IsValid tabs
      → (tabs' : Tabs) × (tab_set lib hspan arg tabs ≡ some tabs') × IsValid tabs'
  unfolding tab_set
  tab_set-IsValid none tabs v = tab_set-IsValid_clear tabs
  tab_set-IsValid (some arg) tabs v = elim (Bool-cases (str_same arg (codes "T"))) [
    | inl e ↦ (
      record tabs { r = in_periodic },
      simp e,
      record { all_fits = v.all_fits; periodic_fits = v.periodic_fits; recording = λ e. cc },
    )
    | inr e ↦ simp e (go (a2roffsu lib (if peek arg == b'+' then next arg else arg) em))
  ]
    where
      go :
          (r : (Scale × Double) × Option Bytes)
          → (tabs' : Tabs) × (elim r.1 [
            | none ↦ some tabs
            | some rest ↦ record_in tabs.r (peek arg == b'+') (hspan r.0) tabs
          ]
              ≡ some tabs')
            × IsValid tabs'
      go (su, none) = (tabs, refl, v)
      go (su, some rest) = record_in-IsValid tabs.r (peek arg == b'+') (hspan su) tabs refl v

extend-Fits : (a : Tablist) (p : List ℕ) → Fits a → Fits (extend a p)
unfolding extend
extend-Fits a p h =
    ground (
      arith,
      length-append {0} a.t (period (last_or_zero a.t) p),
      length-period (last_or_zero a.t) p,
    )

-- The periods that `term_tab_next` appends are allocated.
pub Extends-Fits : (p : List ℕ) {a b : Tablist} → Extends p a b → Fits a → Fits b
Extends-Fits p here h = h
Extends-Fits p (more {a} e) h = Extends-Fits p e (extend-Fits a p h)
