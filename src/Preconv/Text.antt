-- ===== src/Preconv/Text.antt =====
-- The text that `preconv_encode` prints.
use mandoc_mirror.Prelude.{
  ℕ, ◌+◌, ◌*◌, ◌/◌, ◌%◌, ◌≤◌, ◌<◌, ◌≡◌, ◌⊎◌, inl, inr, [], ◌∷◌, ◌++◌, arith, ltb, Bytes, zero, suc,
  Bool-cases, length, length-append,
}
use mandoc_mirror.Preconv.{pad_zeros, hex_digit, hex_onto, unicode_escape}

-- The bytes that mandoc(1) lets through: printable ASCII, and the tab.
abbrev pub IsClean : Bytes → Type 0
IsClean [] = Unit {0}
IsClean (c ∷ cs) = (((0x20 ≤ c) × (c < 0x7f)) ⊎ (c ≡ 9)) × IsClean cs

pub IsClean-append : (a b : Bytes) → IsClean a → IsClean b → IsClean (a ++ b)
IsClean-append [] b p q = q
IsClean-append (c ∷ a) b p q = (p.0, IsClean-append a b p.1 q)

hex_onto-IsClean : (fuel n : ℕ) (acc : Bytes) → IsClean acc → IsClean (hex_onto fuel n acc)
unfolding hex_onto
hex_onto-IsClean zero n acc h = h
hex_onto-IsClean (suc fuel) n acc h = elim (Bool-cases (ltb n 16)) [
  | inl p ↦ rw p (ground arith, h)
  | inr p ↦ rw p (hex_onto-IsClean fuel (n / 16) (hex_digit (n % 16) ∷ acc) (ground arith, h))
]

pad_zeros-IsClean : (s : Bytes) → IsClean s → IsClean (pad_zeros s)
pad_zeros-IsClean [] h = omega arith
pad_zeros-IsClean (a ∷ []) h = (omega arith, (omega arith, (omega arith, h)))
pad_zeros-IsClean (a ∷ b ∷ []) h = (omega arith, (omega arith, h))
pad_zeros-IsClean (a ∷ b ∷ c ∷ []) h = (omega arith, h)
pad_zeros-IsClean (a ∷ b ∷ c ∷ d ∷ s) h = h

pub unicode_escape-IsClean : (u : ℕ) → IsClean (unicode_escape u)
unfolding unicode_escape
unicode_escape-IsClean u = (
  omega arith,
  (
    omega arith,
    (
      omega arith,
      IsClean-append (pad_zeros (hex_onto 8 u [])) (b']' ∷ [])
          (pad_zeros-IsClean _ (hex_onto-IsClean 8 u [] tt)) (omega arith),
    ),
  ),
)

length-pad_zeros : (s : Bytes) → length s ≤ 6 → length (pad_zeros s) ≤ 6
length-pad_zeros [] h = omega arith
length-pad_zeros (a ∷ []) h = omega arith
length-pad_zeros (a ∷ b ∷ []) h = omega arith
length-pad_zeros (a ∷ b ∷ c ∷ []) h = omega arith
length-pad_zeros (a ∷ b ∷ c ∷ d ∷ s) h = h

-- 16 to the power of `k + 1`
abbrev hex_limit : ℕ → ℕ
hex_limit zero = 16
hex_limit (suc k) = 16 * hex_limit k

length-hex_onto :
    (fuel n k : ℕ) (acc : Bytes)
    → n < hex_limit k
    → length (hex_onto fuel n acc) ≤ suc k + length acc
unfolding hex_onto
length-hex_onto zero n k acc h = omega arith
length-hex_onto (suc fuel) n zero acc h = elim (Bool-cases (ltb n 16)) [
  | inl q ↦ rw q (omega arith)
  | inr q ↦ absurd (ground arith)
]
length-hex_onto (suc fuel) n (suc k) acc h = elim (Bool-cases (ltb n 16)) [
  | inl q ↦ rw q (omega arith)
  | inr q ↦
      rw q (omega (arith, length-hex_onto fuel (n / 16) k (hex_digit (n % 16) ∷ acc) (omega arith)))
]

-- The escape of a Unicode code point takes at most 10 bytes, so that the 11 bytes given to
-- `snprintf` hold it with its NUL.
pub length-unicode_escape : (u : ℕ) → u < 0x110000 → length (unicode_escape u) ≤ 10
unfolding unicode_escape
length-unicode_escape u h = omega (
  arith,
  length-append {0} (pad_zeros (hex_onto 8 u [])) (b']' ∷ []),
  length-pad_zeros (hex_onto 8 u []) (omega (arith, length-hex_onto 8 u 5 [] (omega arith))),
)
