-- ===== src/TermTab/Tests.antt =====
-- Runs of term_tab.c, and the theorems at concrete inputs.
use mandoc_mirror.Prelude.{
  ℕ, ◌*◌, ◌≡◌, refl, none, some, [], ◌∷◌, arith, codes, next, peek, if◌then◌else◌, isdigit,
}
use mandoc_mirror.Roffsu.{Scale, Strtod}
use mandoc_mirror.TermTab.{
  Tabs, Tablist, in_periodic, tab_set, tab_next, next_from, extend, last_or_zero,
}
use mandoc_mirror.TermTab.Next.{first_above}
use mandoc_mirror.TermTab.Ends.{Extends, tab_next-Extends, tab_next_diverges}
use mandoc_mirror.TermTab.Set.{IsValid, tab_set-IsValid}

-- One decimal digit for `strtod`.
abbrev digit : Strtod ℕ
digit = record { strtod = λ s. if isdigit (peek s) then (peek s, some (next s)) else (0, none) }

abbrev cell : Scale × ℕ → ℕ
cell su = su.1 * 24

abbrev start : Tabs
start = record {
  a = record { t = 100 ∷ []; s = 8 };
  p = record { t = 50 ∷ 80 ∷ []; s = 8 };
  r = in_periodic;
  d = 0;
}

abbrev stuck : Tabs
stuck = record {
  a = record { t = []; s = 0 };
  p = record { t = 0 ∷ []; s = 8 };
  r = in_periodic;
  d = 0;
}

third :
    tab_next 9 155 start
    ≡ some (180, record start { a = record { t = 100 ∷ 150 ∷ 180 ∷ []; s = 8 } })
unfolding tab_next next_from extend
third = refl

tab_next-Extends_example :
    (fuel : ℕ) × (found : ℕ) × (array : Tablist) × (tab_next fuel 155 start
      ≡ some (found, record start { a = array }))
    × (first_above 155 array.t ≡ some found)
    × Extends (50 ∷ 80 ∷ []) start.a array
unfolding last_or_zero
tab_next-Extends_example = tab_next-Extends 155 start (omega arith) (omega arith) (omega arith)

tab_next_diverges_example : tab_next 100 7 stuck ≡ none
unfolding first_above
tab_next_diverges_example = tab_next_diverges 100 7 stuck (omega arith) (omega arith) refl

tab_set-IsValid_example :
    (tabs' : Tabs) × (tab_set digit cell (some (codes "+3n")) start ≡ some tabs') × IsValid tabs'
tab_set-IsValid_example = tab_set-IsValid digit cell (some (codes "+3n")) start valid
  where
    valid : IsValid start
    valid = record { all_fits = omega arith; periodic_fits = omega arith; recording = λ e. cc }
