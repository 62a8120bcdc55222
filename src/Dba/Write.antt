-- ===== src/Dba/Write.antt =====
-- The output of dba_write.c. The file is the bytes that are in it and the position of the next
-- write, which `fseek` of the C library moves; its errors, which end the program, are left out.
use mandoc_mirror.Prelude.{
  ℕ, zero, suc, ◌+◌, ◌-◌, ◌*◌, ◌/◌, ◌%◌, ◌^◌, Option, none, some, [], ◌∷◌, ◌++◌, ltb, leb, ◌==◌,
  if◌then◌else◌, ◌&&◌, Bytes, length, take, drop, replicate,
}
use mandoc_mirror.Prelude.Int.{ℤ, pos, negsuc}

-- `ofp`
pub record File : Type 0 where
  pub bytes : Bytes
  pub at : ℕ

-- Bytes at the position of the file, written over what is there.
abbrev pub put : Bytes → File → File
put b f = record {
  bytes = take f.at f.bytes ++ (b ++ drop (f.at + length b) f.bytes);
  at = f.at + length b;
}

-- `dba_tell`; `none` is the end of the program where the position is no int32_t.
unfoldable pub tell : File → Option ℕ
tell f = if leb (2 ^ 31 - 1) f.at then none else some f.at

-- `dba_seek`
abbrev pub seek : ℕ → File → File
seek to f = record f { at = to }

-- `dba_char_write`
abbrev pub char_write : ℕ → File → File
char_write c f = put (c ∷ []) f

-- The bytes of a 32-bit integer, the most significant one first: `htobe32`.
unfoldable pub be32 : ℕ → Bytes
be32 i = i / 2 ^ 24 % 256 ∷ i / 2 ^ 16 % 256 ∷ i / 2 ^ 8 % 256 ∷ i % 256 ∷ []

-- An int32_t as the number that has its bits.
abbrev pub bits : ℤ → ℕ
bits (pos n) = n % 2 ^ 32
bits (negsuc n) = 2 ^ 32 - 1 - n % 2 ^ 32

-- `dba_int_write`
abbrev pub int_write : ℤ → File → File
int_write i f = put (be32 (bits i)) f

-- `dba_str_write`
abbrev pub str_write : Bytes → File → File
str_write s f = char_write 0 (put s f)

-- The loop of `dba_align`, from the position `pos` on; three rounds are enough.
unfoldable pub pad : ℕ → ℕ → File → ℕ × File
pad zero p f = (p, f)
pad (suc fuel) p f =
    let more = pad fuel (p + 1) (char_write 0 f) in if p % 4 == 0 then (p, f) else more

-- `dba_align`
unfoldable pub align : File → Option (ℕ × File)
unfolding tell pad
align f = elim (tell f) [ none ↦ none | some p ↦ some (pad 3 p f) ]

-- `dba_skip`: room for `sz` groups of `nmemb` integers, and where it begins.
unfoldable pub skip : ℕ → ℕ → File → Option (ℕ × File)
unfolding tell
skip nmemb sz f =
    if ltb 0 nmemb && leb nmemb 5
    then elim (tell f) [ none ↦ none | some p ↦ some (p, put (replicate (4 * nmemb * sz) 0) f) ]
    else none
