-- ===== src/Preconv/Utf8.antt =====
-- The UTF-8 branch of `preconv_encode` against the definition of UTF-8.
use mandoc_mirror.Prelude.{
  ℕ, ◌+◌, ◌/◌, ◌%◌, ◌≤◌, ◌<◌, ◌≡◌, ◌⊎◌, true, false, [], ◌∷◌, ◌++◌, arith, ltb, if◌then◌else◌,
  Bytes,
}
use mandoc_mirror.Preconv.{
  FileEnc, encoded, unicode_escape, sequence_length, header_bits, bad_second, continuation, encode,
}

-- The encoding of a code point by RFC 3629.
abbrev pub utf8 : ℕ → Bytes
utf8 u =
    if ltb u 0x80
    then u ∷ []
    else if ltb u 0x800
    then (0xC0 + u / 64) ∷ (0x80 + u % 64) ∷ []
    else if ltb u 0x10000
    then (0xE0 + u / 4096) ∷ (0x80 + u / 64 % 64) ∷ (0x80 + u % 64) ∷ []
    else (0xF0 + u / 262144) ∷ (0x80 + u / 4096 % 64) ∷ (0x80 + u / 64 % 64) ∷ (0x80 + u % 64) ∷ []

-- A Unicode scalar value outside ASCII.
pub record IsScalar (u : ℕ) : Type 0 where
  pub not_ascii : 0x80 ≤ u
  pub in_range : u < 0x110000
  pub not_surrogate : (u < 0xD800) ⊎ (0xE000 ≤ u)

-- The number of leading one bits, at least 1 and at most 5.
pub sequence_length_lem :
    (c : ℕ)
    → 0x80 ≤ c
    → c < 0x100
    → sequence_length c ≡ (
        if ltb c 0xC0
        then 1
        else if ltb c 0xE0
        then 2
        else if ltb c 0xF0
        then 3
        else if ltb c 0xF8
        then 4
        else 5)
unfolding sequence_length
sequence_length_lem c h k = ground arith

two_bytes : (u : ℕ) → 0x80 ≤ u → u < 0x800 → sequence_length (0xC0 + u / 64) ≡ 2
two_bytes u h k = ground (arith, sequence_length_lem (0xC0 + u / 64))

three_bytes : (u : ℕ) → u < 0x10000 → sequence_length (0xE0 + u / 4096) ≡ 3
three_bytes u k = ground (arith, sequence_length_lem (0xE0 + u / 4096))

four_bytes : (u : ℕ) → u < 0x110000 → sequence_length (0xF0 + u / 262144) ≡ 4
four_bytes u k = ground (arith, sequence_length_lem (0xF0 + u / 262144))

abbrev pub tail_bytes : ℕ → Bytes
tail_bytes u =
    if ltb u 0x800
    then (0x80 + u % 64) ∷ []
    else if ltb u 0x10000
    then (0x80 + u / 64 % 64) ∷ (0x80 + u % 64) ∷ []
    else (0x80 + u / 4096 % 64) ∷ (0x80 + u / 64 % 64) ∷ (0x80 + u % 64) ∷ []

abbrev pub lead_byte : ℕ → ℕ
lead_byte u =
    if ltb u 0x800
    then 0xC0 + u / 64
    else if ltb u 0x10000
    then 0xE0 + u / 4096
    else 0xF0 + u / 262144

pub utf8-lead_byte : (u : ℕ) → 0x80 ≤ u → utf8 u ≡ lead_byte u ∷ tail_bytes u
utf8-lead_byte u h = ground arith

module _ (e : FileEnc) (u : ℕ) (rest : Bytes) (on : e.utf8 ≡ true) (s : IsScalar u) where
  encode-two :
      u < 0x800
      → encode e (0xC0 + u / 64) ((0x80 + u % 64) ∷ rest)
        ≡ encoded (unicode_escape u) rest (record e { latin1 = false })
  unfolding encode header_bits bad_second continuation
  encode-two k = rw (two_bytes u s.not_ascii k) (ground arith)

  encode-three :
      0x800 ≤ u
      → u < 0x10000
      → encode e (0xE0 + u / 4096) ((0x80 + u / 64 % 64) ∷ (0x80 + u % 64) ∷ rest)
        ≡ encoded (unicode_escape u) rest (record e { latin1 = false })
  unfolding encode header_bits bad_second continuation
  encode-three h k = rw (three_bytes u k) (ground arith)

  encode-four :
      0x10000 ≤ u
      → encode e
          (0xF0 + u / 262144)
          ((0x80 + u / 4096 % 64) ∷ (0x80 + u / 64 % 64) ∷ (0x80 + u % 64) ∷ rest)
        ≡ encoded (unicode_escape u) rest (record e { latin1 = false })
  unfolding encode header_bits bad_second continuation
  encode-four h = rw (four_bytes u s.in_range) (ground arith)

-- In UTF-8 mode the encoding of every scalar value outside ASCII is consumed whole, whatever
-- follows it, and becomes the escape of that value; ISO-8859-1 is ruled out from then on.
pub encode-utf8 :
    (e : FileEnc) (u : ℕ) (rest : Bytes)
    → e.utf8 ≡ true
    → IsScalar u
    → (utf8 u ≡ lead_byte u ∷ tail_bytes u)
      × (encode e (lead_byte u) (tail_bytes u ++ rest)
          ≡ encoded (unicode_escape u) rest (record e { latin1 = false }))
encode-utf8 e u rest on s = (
  utf8-lead_byte u s.not_ascii,
  ground (arith, encode-two e u rest on s, encode-three e u rest on s, encode-four e u rest on s),
)
