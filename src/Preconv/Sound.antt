-- ===== src/Preconv/Sound.antt =====
-- What every outcome of `preconv_encode` says of its input.
use mandoc_mirror.Prelude.{
  ℕ, ◌+◌, ◌*◌, ◌/◌, ◌%◌, ◌≤◌, ◌<◌, ◌≡◌, ◌⊎◌, inl, inr, true, false, [], ◌∷◌, ◌++◌, refl, sym, ap,
  arith, none, some, ltb, ◌==◌, if◌then◌else◌, Bytes, zero, suc, Bool-cases, length,
}
use mandoc_mirror.Preconv.{
  FileEnc, Encoded, encoded, refused, overread, unicode_escape, sequence_length, header_bits,
  bad_second, continuation, encode_latin, encode_rest, encode_second, encode,
}
use mandoc_mirror.Preconv.Utf8.{utf8, IsScalar, sequence_length_lem}

-- The bytes of a buffer.
abbrev pub AreBytes : Bytes → Type 0
AreBytes [] = Unit {0}
AreBytes (c ∷ cs) = (c < 0x100) × AreBytes cs

abbrev pub Explains : FileEnc → ℕ → Bytes → Encoded → Type 0
Explains e c cu (encoded out rest e') =
    ((u : ℕ) × IsScalar u
      × (e.utf8 ≡ true)
      × (c ∷ cu ≡ utf8 u ++ rest)
      × (out ≡ unicode_escape u)
      × (e' ≡ record e { latin1 = false }))
    ⊎ ((e.latin1 ≡ true)
        × (rest ≡ cu)
        × (out ≡ unicode_escape c)
        × (e' ≡ record e { utf8 = false }))
Explains e c cu refused = e.latin1 ≡ false
Explains e c cu overread = (e.utf8 ≡ true) × (suc (length cu) < sequence_length c)

latin-Explains : (e : FileEnc) (c : ℕ) (cu : Bytes) → Explains e c cu (encode_latin e c cu)
unfolding encode_latin
latin-Explains e c cu = elim (Bool-cases e.latin1) [
  | inl p ↦ rw p (inr (refl, refl, refl, refl))
  | inr p ↦ rw p refl
]

is_continuation : (d : ℕ) → d < 0x100 → (d / 64) % 4 ≡ 2 → d ≡ 0x80 + d % 64
is_continuation d h p = omega arith

utf8-two :
    (c d u : ℕ)
    → u ≡ c % 32 * 64 + d % 64
    → 0xC2 ≤ c
    → c < 0xE0
    → d ≡ 0x80 + d % 64
    → utf8 u ≡ c ∷ d ∷ []
utf8-two c d u e h k p = ground arith

utf8-three :
    (c d f u : ℕ)
    → u ≡ (c % 16 * 64 + d % 64) * 64 + f % 64
    → 0xE0 ≤ c
    → c < 0xF0
    → d ≡ 0x80 + d % 64
    → f ≡ 0x80 + f % 64
    → 0x800 ≤ u
    → utf8 u ≡ c ∷ d ∷ f ∷ []
utf8-three c d f u e h k p q l = ground arith

utf8-four :
    (c d f g u : ℕ)
    → u ≡ ((c % 8 * 64 + d % 64) * 64 + f % 64) * 64 + g % 64
    → 0xF0 ≤ c
    → c < 0xF8
    → d ≡ 0x80 + d % 64
    → f ≡ 0x80 + f % 64
    → g ≡ 0x80 + g % 64
    → 0x10000 ≤ u
    → utf8 u ≡ c ∷ d ∷ f ∷ g ∷ []
utf8-four c d f g u e h k p q r l = ground arith

module _ (e : FileEnc) (c : ℕ) (on : e.utf8 ≡ true) where
  two-Explains :
      (cu : Bytes)
      → AreBytes cu
      → sequence_length c ≡ 2
      → 0xC2 ≤ c
      → c < 0xE0
      → Explains e c cu (encode_second e c cu 2 (some (c % 32)))
  unfolding encode_second bad_second continuation
  two-Explains [] b n h k = (on, omega (arith, n))
  two-Explains (d ∷ r) b n h k = elim (Bool-cases ((d / 64) % 4 == 2)) [
    | inl q ↦
        let p : d ≡ 0x80 + d % 64 = is_continuation d b.0 (ground arith) in
        rw q (
          inl (
            c % 32 * 64 + d % 64,
            ground arith,
            on,
            ap (λ s. s ++ r) (sym (utf8-two c d _ refl h k p)),
            refl,
            refl,
          ))
    | inr q ↦ rw q (latin-Explains e c (d ∷ r))
  ]

  -- Behind the checks of the second byte `d`.
  three_rest :
      (d : ℕ) (r : Bytes)
      → AreBytes (d ∷ r)
      → sequence_length c ≡ 3
      → 0xE0 ≤ c
      → c < 0xF0
      → 0x800 ≤ c % 16 * 4096 + d % 64 * 64
      → (c % 16 * 4096 + d % 64 * 64 < 0xD800) ⊎ (0xE000 ≤ c % 16 * 4096 + d % 64 * 64)
      → Explains e c (d ∷ r) (encode_rest e c (d ∷ r) (continuation 2 (c % 16) (d ∷ r)))
  unfolding encode_rest continuation
  three_rest d r b n h k lo sur = elim (Bool-cases ((d / 64) % 4 == 2)) [
    | inr q ↦ rw q (latin-Explains e c (d ∷ r))
    | inl q ↦ rw q (go r b (is_continuation d b.0 (ground arith)))
  ]
    where
      go :
          (r : Bytes)
          → AreBytes (d ∷ r)
          → d ≡ 0x80 + d % 64
          → Explains e c (d ∷ r) (encode_rest e c (d ∷ r) (continuation 1 (c % 16 * 64 + d % 64) r))
      go [] b p = (on, omega (arith, n))
      go (f ∷ r) b p = elim (Bool-cases ((f / 64) % 4 == 2)) [
        | inr q ↦ rw q (latin-Explains e c (d ∷ f ∷ r))
        | inl q ↦
            let p' : f ≡ 0x80 + f % 64 = is_continuation f b.1.0 (ground arith) in
            rw q (
              inl (
                (c % 16 * 64 + d % 64) * 64 + f % 64,
                omega arith,
                on,
                ap (λ s. s ++ r) (sym (utf8-three c d f _ refl h k p p' (omega arith))),
                refl,
                refl,
              ))
      ]

  three-Explains :
      (cu : Bytes)
      → AreBytes cu
      → sequence_length c ≡ 3
      → 0xE0 ≤ c
      → c < 0xF0
      → Explains e c cu (encode_second e c cu 3 (some (c % 16)))
  unfolding encode_second
  three-Explains [] b n h k = (on, omega (arith, n))
  three-Explains (d ∷ r) b n h k = elim (Bool-cases (bad_second 3 (c % 16) d)) [
    | inl x ↦ rw x (latin-Explains e c (d ∷ r))
    | inr x ↦ rw x (
        three_rest d r b n h k (unfold bad_second in ground arith)
          (unfold bad_second in ground arith))
  ]

  four_rest :
      (d : ℕ) (r : Bytes)
      → AreBytes (d ∷ r)
      → sequence_length c ≡ 4
      → 0xF0 ≤ c
      → c < 0xF8
      → 0x10000 ≤ c % 8 * 262144 + d % 64 * 4096
      → c % 8 * 262144 + d % 64 * 4096 < 0x110000
      → Explains e c (d ∷ r) (encode_rest e c (d ∷ r) (continuation 3 (c % 8) (d ∷ r)))
  unfolding encode_rest continuation
  four_rest d r b n h k lo hi = elim (Bool-cases ((d / 64) % 4 == 2)) [
    | inr q ↦ rw q (latin-Explains e c (d ∷ r))
    | inl q ↦ rw q (go r b (is_continuation d b.0 (ground arith)))
  ]
    where
      last :
          (f : ℕ) (r : Bytes)
          → AreBytes (d ∷ f ∷ r)
          → d ≡ 0x80 + d % 64
          → f ≡ 0x80 + f % 64
          → Explains e c
              (d ∷ f ∷ r)
              (encode_rest e c (d ∷ f ∷ r) (continuation 1 ((c % 8 * 64 + d % 64) * 64 + f % 64) r))
      last f [] b p q = (on, omega (arith, n))
      last f (g ∷ r) b p p' = elim (Bool-cases ((g / 64) % 4 == 2)) [
        | inr q ↦ rw q (latin-Explains e c (d ∷ f ∷ g ∷ r))
        | inl q ↦
            let p'' : g ≡ 0x80 + g % 64 = is_continuation g b.1.1.0 (ground arith) in
            rw q (
              inl (
                ((c % 8 * 64 + d % 64) * 64 + f % 64) * 64 + g % 64,
                omega arith,
                on,
                ap (λ s. s ++ r) (sym (utf8-four c d f g _ refl h k p p' p'' (omega arith))),
                refl,
                refl,
              ))
      ]

      go :
          (r : Bytes)
          → AreBytes (d ∷ r)
          → d ≡ 0x80 + d % 64
          → Explains e c (d ∷ r) (encode_rest e c (d ∷ r) (continuation 2 (c % 8 * 64 + d % 64) r))
      go [] b p = (on, omega (arith, n))
      go (f ∷ r) b p = elim (Bool-cases ((f / 64) % 4 == 2)) [
        | inr q ↦ rw q (latin-Explains e c (d ∷ f ∷ r))
        | inl q ↦ rw q (last f r b p (is_continuation f b.1.0 (ground arith)))
      ]

  four-Explains :
      (cu : Bytes)
      → AreBytes cu
      → sequence_length c ≡ 4
      → 0xF0 ≤ c
      → c < 0xF8
      → c % 8 ≤ 4
      → Explains e c cu (encode_second e c cu 4 (some (c % 8)))
  unfolding encode_second
  four-Explains [] b n h k l = (on, omega (arith, n))
  four-Explains (d ∷ r) b n h k l = elim (Bool-cases (bad_second 4 (c % 8) d)) [
    | inl x ↦ rw x (latin-Explains e c (d ∷ r))
    | inr x ↦ rw x (
        four_rest d r b n h k (unfold bad_second in ground arith)
          (unfold bad_second in ground arith))
  ]

  -- Where the header is refused, the second switch is not reached.
  none-Explains :
      (cu : Bytes) (n : ℕ)
      → header_bits n c ≡ none
      → Explains e c cu (encode_second e c cu n (header_bits n c))
  unfolding encode_second
  none-Explains cu n p = rw p (latin-Explains e c cu)

  utf8_Explains :
      (cu : Bytes) (n : ℕ)
      → AreBytes cu
      → 0x80 ≤ c
      → c < 0x100
      → sequence_length c ≡ n
      → n ≡ (
          if ltb c 0xC0
          then 1
          else if ltb c 0xE0
          then 2
          else if ltb c 0xF0
          then 3
          else if ltb c 0xF8
          then 4
          else 5)
      → Explains e c cu (encode_second e c cu n (header_bits n c))
  utf8_Explains cu zero b h k s t = absurd (ground arith)
  utf8_Explains cu (suc zero) b h k s t = none-Explains cu 1 (unfold header_bits in refl)
  utf8_Explains cu (suc (suc zero)) b h k s t = elim (Bool-cases (ltb (c % 32) 2)) [
    | inl p ↦ none-Explains cu 2 (unfold header_bits in rw p)
    | inr p ↦ unfold header_bits in rw p (two-Explains cu b s (ground arith) (ground arith))
  ]
  utf8_Explains cu (suc (suc (suc zero))) b h k s t =
      unfold header_bits in three-Explains cu b s (ground arith) (ground arith)
  utf8_Explains cu (suc (suc (suc (suc zero)))) b h k s t = elim (Bool-cases (ltb 4 (c % 8))) [
    | inl p ↦ none-Explains cu 4 (unfold header_bits in rw p)
    | inr p ↦
        unfold header_bits in
        rw p (four-Explains cu b s (ground arith) (ground arith) (ground arith))
  ]
  utf8_Explains cu (suc (suc (suc (suc (suc n))))) b h k s t =
      none-Explains cu (suc (suc (suc (suc (suc n))))) (unfold header_bits in ground arith)

-- Every outcome of `preconv_encode` at a byte with the high bit set. If bytes were consumed, they
-- are the UTF-8 encoding of one Unicode scalar value in UTF-8 mode, or one byte in ISO-8859-1 mode,
-- the output is its escape, and the other encoding is ruled out. A refusal happens only if
-- ISO-8859-1 is ruled out already. A byte behind the buffer is read only in UTF-8 mode, and only if
-- the buffer ends before the sequence that its first byte announces.
pub encode-Explains :
    (e : FileEnc) (c : ℕ) (cu : Bytes)
    → 0x80 ≤ c
    → c < 0x100
    → AreBytes cu
    → Explains e c cu (encode e c cu)
unfolding encode
encode-Explains e c cu h k b = elim (Bool-cases e.utf8) [
  | inl p ↦ simp p (utf8_Explains e c p cu _ b h k refl (sequence_length_lem c h k))
  | inr p ↦ simp p (latin-Explains e c cu)
]

-- In UTF-8 mode, a buffer that ends with the first byte of a multibyte sequence is read behind its
-- end.
pub encode-overread :
    (e : FileEnc) (c : ℕ) → e.utf8 ≡ true → 0xC2 ≤ c → c < 0xF5 → encode e c [] ≡ overread
unfolding encode header_bits
encode-overread e c on h k = rw (sequence_length_lem c (omega arith) (omega arith)) (ground arith)
