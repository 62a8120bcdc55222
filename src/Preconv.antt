-- ===== src/Preconv.antt =====
-- preconv.c: the conversion of 8-bit input to roff(7) Unicode escapes, and the character loop of
-- `mparse_buf_r` in read.c that calls it. The input is the list of the bytes from `ib->buf + *ii`
-- to the end of the buffer. A read behind that end has an outcome of its own, `overread`.
-- Masks and shifts of a byte are written as `%` and `/` by powers of two.

pub mod Utf8
pub mod Sound
pub mod Text
pub mod Line
pub mod Cue
mod Tests
use mandoc_mirror.Prelude.{
  ℕ, zero, suc, ◌+◌, ◌-◌, ◌*◌, ◌/◌, ◌%◌, ◌^◌, Bool, true, false, not, ◌&&◌, ◌||◌, Option, none,
  some, List, [], ◌∷◌, ◌++◌, ltb, leb, ◌==◌, if◌then◌else◌, Bytes, codes, peek, next, length, drop,
  has_prefix, has_prefix_nocase,
}

-- `*filenc`: whether the input may still turn out to be UTF-8, and ISO-8859-1.
pub record FileEnc : Type 0 where
  pub utf8 : Bool
  pub latin1 : Bool

pub data Encoded : Type 0 where
  -- return 1: the bytes appended to `ob`, the input left, and `*filenc`
  encoded : Bytes → Bytes → FileEnc → Encoded
  -- return 0
  refused : Encoded
  -- a byte behind the end of the buffer was read
  overread : Encoded

abbrev pub hex_digit : ℕ → ℕ
hex_digit d = if ltb d 10 then b'0' + d else b'A' + (d - 10)

-- The digits of a number below `16 ^ fuel`, in front of `acc`.
pub hex_onto : ℕ → ℕ → Bytes → Bytes
hex_onto zero n acc = acc
hex_onto (suc fuel) n acc =
    let rest = hex_onto fuel (n / 16) (hex_digit (n % 16) ∷ acc) in
    if ltb n 16 then hex_digit n ∷ acc else rest

abbrev pad_zeros : Bytes → Bytes
pad_zeros (a ∷ b ∷ c ∷ d ∷ s) = a ∷ b ∷ c ∷ d ∷ s
pad_zeros (a ∷ b ∷ c ∷ []) = b'0' ∷ a ∷ b ∷ c ∷ []
pad_zeros (a ∷ b ∷ []) = b'0' ∷ b'0' ∷ a ∷ b ∷ []
pad_zeros (a ∷ []) = b'0' ∷ b'0' ∷ b'0' ∷ a ∷ []
pad_zeros [] = b'0' ∷ b'0' ∷ b'0' ∷ b'0' ∷ []

-- `snprintf(..., "\\[u%.4X]", u)`: an unsigned int has at most 8 hexadecimal digits.
unfoldable pub unicode_escape : ℕ → Bytes
unfolding hex_onto
unicode_escape u = b'\\' ∷ b'[' ∷ b'u' ∷ (pad_zeros (hex_onto 8 u []) ++ (b']' ∷ []))

-- `while (nby < 5 && *cu & (1 << (7 - nby))) nby++`, with the rounds left.
pub count_bits : ℕ → ℕ → ℕ → ℕ
count_bits zero c nby = nby
count_bits (suc rounds) c nby =
    let more = count_bits rounds c (nby + 1) in
    if ltb nby 5 && (c / 2 ^ (7 - nby)) % 2 == 1 then more else nby

-- `nby` for the first byte of a sequence
unfoldable pub sequence_length : ℕ → ℕ
unfolding count_bits
sequence_length c = count_bits 4 c 1

-- The first switch: the bits of the header; `none` is `goto latin`.
unfoldable pub header_bits : ℕ → ℕ → Option ℕ
header_bits nby c =
    if nby == 2
    then (if ltb (c % 32) 2 then none else some (c % 32))
    else if nby == 3
    then some (c % 16)
    else if nby == 4
    then (if ltb 4 (c % 8) then none else some (c % 8))
    else none

-- The second switch: whether the second byte `c` shows an overlong sequence, a surrogate or a
-- number beyond Unicode. Only the cases 3 and 4 read that byte.
unfoldable pub bad_second : ℕ → ℕ → ℕ → Bool
bad_second nby accum c =
    if nby == 3
    then (accum == 0 && (c / 32) % 2 == 0) || (accum == 13 && (c / 32) % 2 == 1)
    else if nby == 4
    then (accum == 0 && (c / 16) % 4 == 0) || (accum == 4 && not ((c / 16) % 4 == 0))
    else false

pub data Continued : Type 0 where
  complete : ℕ → Bytes → Continued
  invalid : Continued
  truncated : Continued

-- `while (--nby)`, with the rounds left
unfoldable pub continuation : ℕ → ℕ → Bytes → Continued
continuation zero accum cu = complete accum cu
continuation (suc n) accum [] = truncated
continuation (suc n) accum (c ∷ cu) =
    let more = continuation n (accum * 64 + c % 64) cu in
    if not ((c / 64) % 4 == 2) then invalid else more

-- the label `latin`
unfoldable pub encode_latin : FileEnc → ℕ → Bytes → Encoded
encode_latin filenc c cu =
    if not filenc.latin1
    then refused
    else encoded (unicode_escape c) cu (record filenc { utf8 = false })

-- behind the second switch
unfoldable pub encode_rest : FileEnc → ℕ → Bytes → Continued → Encoded
encode_rest filenc c cu (complete accum rest) =
    encoded (unicode_escape accum) rest (record filenc { latin1 = false })
encode_rest filenc c cu invalid = encode_latin filenc c cu
encode_rest filenc c cu truncated = overread

-- behind `cu++`, where `cu` is the input from the second byte on
unfoldable pub encode_second : FileEnc → ℕ → Bytes → ℕ → Option ℕ → Encoded
unfolding encode_rest
encode_second filenc c cu nby none = encode_latin filenc c cu
encode_second filenc c [] nby (some accum) = overread
encode_second filenc c (d ∷ cu) nby (some accum) =
    if bad_second nby accum d
    then encode_latin filenc c (d ∷ cu)
    else encode_rest filenc c (d ∷ cu) (continuation (nby - 1) accum (d ∷ cu))

-- `preconv_encode` at an input that begins with the byte `c`, which has the high bit set.
unfoldable pub encode : FileEnc → ℕ → Bytes → Encoded
unfolding encode_second
encode filenc c cu =
    if not filenc.utf8
    then encode_latin filenc c cu
    else encode_second filenc c cu (sequence_length c) (header_bits (sequence_length c) c)

-- One run of the character loop of `mparse_buf_r`.
pub data LineRead : Type 0 where
  -- the bytes put into `ln`, the input behind the line, and `curp->filenc`
  line : Bytes → Bytes → FileEnc → LineRead
  line_overread : LineRead
  out_of_fuel : LineRead

-- `c == 0x7f || (c < 0x20 && c != 0x09)`
abbrev pub is_control : ℕ → Bool
is_control c = c == 0x7f || (ltb c 0x20 && not (c == 0x09))

-- `curp->filenc && preconv_encode(...)`, at the byte `c` with the high bit set
unfoldable pub encode_if : FileEnc → ℕ → Bytes → Encoded
encode_if e c cs = if e.utf8 || e.latin1 then encode e c cs else refused

-- One round, at the byte `c`, where the loop goes on by `again`. `start`: the input is the file
-- itself and not the text of a macro, which ends at a NUL.
unfoldable pub read_byte :
    Bool → FileEnc → Bytes → ℕ → Bytes → (FileEnc → Bytes → Bytes → LineRead) → LineRead
read_byte start e out c cs again =
    if not start && c == 0
    then line out (c ∷ cs) e
    else if c == b'\r' && peek cs == b'\n'
    then line out (next cs) e
    else if c == b'\n'
    then line out cs e
    else if leb 0x80 c
    then (elim (encode_if e c cs) [
      | encoded text rest e' ↦ again e' (out ++ text) rest
      | refused ↦ again e (out ++ (b'?' ∷ [])) cs
      | overread ↦ line_overread
    ])
    else if is_control c
    then (if not (c == b'\r') then again e (out ++ (b'?' ∷ [])) cs else again e out cs)
    else again e (out ++ (c ∷ [])) cs

unfoldable pub read_line : ℕ → Bool → FileEnc → Bytes → Bytes → LineRead
read_line zero start e out cs = out_of_fuel
read_line (suc fuel) start e out [] = line out [] e
read_line (suc fuel) start e out (c ∷ cs) = read_byte start e out c cs (read_line fuel start)

-- What `preconv_cue` makes of an encoding that the file names after "coding:". The bytes are those
-- from `ln` on; `phsz` is the size of the phrase, its label included.
unfoldable pub cue_encoding : ℕ → Bytes → FileEnc
cue_encoding phsz ln =
    if ltb 4 phsz && has_prefix_nocase ln (codes "utf-8")
    then record { utf8 = true; latin1 = false }
    else if ltb 10 phsz && has_prefix_nocase ln (codes "iso-latin-1")
    then record { utf8 = false; latin1 = true }
    else record { utf8 = false; latin1 = false }

abbrev pub undecided : FileEnc
undecided = record { utf8 = true; latin1 = true }

-- The size of the phrase at `ln`: up to and with the semicolon, or up to the trailer, which is `sz`
-- bytes ahead.
unfoldable pub phrase_size : ℕ → Bytes → ℕ
phrase_size zero ln = 0
phrase_size (suc sz) [] = suc sz
phrase_size (suc sz) (c ∷ ln) = let more = phrase_size sz ln in if c == b';' then 1 else suc more

-- `while (sz > 0 && ' ' == *ln)`: what is left of `sz` and `ln`
unfoldable pub skip_blanks : ℕ → Bytes → ℕ × Bytes
skip_blanks zero ln = (0, ln)
skip_blanks (suc sz) [] = (suc sz, [])
skip_blanks (suc sz) (c ∷ ln) =
    let more = skip_blanks sz ln in if c == b' ' then more else (suc sz, c ∷ ln)

-- One round of the loop over the phrases of the header, where `again` is the loop.
unfoldable pub cue_phrase : ℕ → Bytes → (ℕ → Bytes → Option FileEnc) → Option FileEnc
unfolding skip_blanks phrase_size cue_encoding
cue_phrase sz ln again =
    let phsz = phrase_size sz ln in
    let (sz', ln') = skip_blanks (sz - 7) (drop 7 ln) in
    if sz == 0
    then some undecided
    else if ltb phsz 7 || not (has_prefix_nocase ln (codes "coding:"))
    then again (sz - phsz) (drop phsz ln)
    else if sz' == 0
    then some (record { utf8 = false; latin1 = false })
    else some (cue_encoding phsz ln')

-- `none` means that the fuel ran out.
unfoldable pub cue_phrases : ℕ → ℕ → Bytes → Option FileEnc
unfolding cue_phrase
cue_phrases zero sz ln = none
cue_phrases (suc fuel) sz ln =
    let (sz', ln') = skip_blanks sz ln in cue_phrase sz' ln' (cue_phrases fuel)

-- The bytes up to the newline or the end of the buffer.
unfoldable pub first_line : Bytes → Bytes
first_line [] = []
first_line (c ∷ cs) = if c == b'\n' then [] else c ∷ first_line cs

-- `preconv_cue`, at the bytes from `b->buf + offset` to the end of the buffer.
unfoldable pub cue : Bytes → Option FileEnc
unfolding first_line cue_phrases
cue buf =
    let sz = length (first_line buf) in
    if ltb sz 10
      || not (has_prefix buf (codes ".\\\" -*-"))
      || not (has_prefix (drop (sz - 3) buf) (codes "-*-"))
    then some undecided
    else cue_phrases sz (sz - 10) (drop 7 buf)
