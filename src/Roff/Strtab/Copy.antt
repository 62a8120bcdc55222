-- ===== src/Roff/Strtab/Copy.antt =====
-- The rudimentary copy mode of `roff_setstrn`.
use mandoc_mirror.Prelude.{
  ℕ, ◌≡◌, ◌∙◌, refl, ap, false, [], ◌∷◌, ◌==◌, if◌then◌else◌, Bytes, Bool-cases, inl, inr, arith,
}
use mandoc_mirror.Roff.Strtab.{copy}

-- A text with every backslash doubled.
unfoldable pub double : Bytes → Bytes
double [] = []
double (c ∷ s) = if c == b'\\' then b'\\' ∷ b'\\' ∷ double s else c ∷ double s

copy-plain : (c : ℕ) (s : Bytes) → (c == b'\\') ≡ false → copy (c ∷ s) ≡ c ∷ copy s
unfolding copy
copy-plain c [] h = refl
copy-plain c (e ∷ s) h = ground arith

-- Copying undoes the doubling of the backslashes.
pub copy-double : (s : Bytes) → copy (double s) ≡ s
unfolding double
copy-double [] = unfold copy in refl
copy-double (c ∷ s) = elim (Bool-cases (c == b'\\')) [
  | inl p ↦ rw (p, double) (escaped (double s) ∙ ground (arith, copy-double s))
  | inr p ↦ rw (p, double) (copy-plain c (double s) p ∙ ap (◌∷◌ c) (copy-double s))
]
  where
    escaped : (t : Bytes) → copy (b'\\' ∷ b'\\' ∷ t) ≡ b'\\' ∷ copy t
    escaped t = unfold copy in refl
