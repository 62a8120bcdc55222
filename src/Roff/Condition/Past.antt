-- ===== src/Roff/Condition/Past.antt =====
-- The parse point that `roff_evalcond` hands back.
use mandoc_mirror.Prelude.{ℕ, ◌≡◌, refl, true, [], ◌∷◌, Bytes, elem}
use mandoc_mirror.Roff.Double.{Double}
use mandoc_mirror.Roff.Condition.{Environment, past_end, skip_spaces, evalcond}

-- Some number of blanks.
abbrev pub blanks : ℕ → Bytes
blanks ℕ.zero = []
blanks (ℕ.suc n) = b' ' ∷ blanks n

skip_spaces-blanks : (n : ℕ) → skip_spaces (blanks n) ≡ []
unfolding skip_spaces
skip_spaces-blanks ℕ.zero = refl
skip_spaces-blanks (ℕ.suc n) = skip_spaces-blanks n

module _ (env : Environment) (d : Double) where
  -- The condition c with no character but blanks behind it, at the end of the line, is taken to be
  -- met, and the parse point moves behind the NUL that ends the line.
  pub evalcond-past_end : (fuel n : ℕ) → evalcond env d fuel (b'c' ∷ blanks n) ≡ past_end true
  unfolding evalcond elem
  evalcond-past_end fuel n = rw (skip_spaces-blanks n, evalcond)
