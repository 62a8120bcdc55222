-- ===== src/Preconv/Tests.antt =====
-- Runs of the code of preconv.c and of the character loop of read.c, and the theorems at concrete
-- inputs.
use mandoc_mirror.Prelude.{
  ◌≡◌, refl, true, false, some, [], ◌∷◌, arith, codes, has_prefix, has_prefix_nocase,
}
use mandoc_mirror.Preconv.{
  FileEnc, encoded, overread, unicode_escape, undecided, encode, encode_latin, header_bits,
  bad_second, continuation, sequence_length, encode_if, line, read_byte, read_line, cue,
}
use mandoc_mirror.Preconv.Utf8.{utf8, lead_byte, tail_bytes, encode-utf8}
use mandoc_mirror.Preconv.Sound.{Explains, encode-Explains, encode-overread}
use mandoc_mirror.Preconv.Line.{IsCleanLine, read_line-IsClean}

abbrev only_utf8 : FileEnc
only_utf8 = record { utf8 = true; latin1 = false }

euro :
    encode undecided 0xE2 (0x82 ∷ 0xAC ∷ b'x' ∷ [])
    ≡ encoded (codes "\\[u20AC]") (b'x' ∷ []) only_utf8
unfolding encode encode_latin header_bits bad_second continuation sequence_length unicode_escape
euro = refl

a_line :
    read_line 9 true undecided [] (b'a' ∷ 0xE9 ∷ b'b' ∷ 7 ∷ b'\r' ∷ b'\n' ∷ b'c' ∷ [])
    ≡ line (codes "a\\[u00E9]b?") (b'c' ∷ []) (record { utf8 = false; latin1 = true })
unfolding read_line read_byte encode_if encode encode_latin header_bits bad_second continuation
    sequence_length unicode_escape
a_line = refl

a_cue : cue (codes ".\\\" -*- mode: nroff; coding: utf-8 -*-\n") ≡ some only_utf8
unfolding cue has_prefix has_prefix_nocase
a_cue = refl

encode-utf8_example :
    (utf8 0x20AC ≡ lead_byte 0x20AC ∷ tail_bytes 0x20AC)
    × (encode undecided 0xE2 (0x82 ∷ 0xAC ∷ b'x' ∷ [])
        ≡ encoded (unicode_escape 0x20AC) (b'x' ∷ []) only_utf8)
encode-utf8_example = encode-utf8 undecided 0x20AC (b'x' ∷ []) refl (omega arith)

encode-Explains_example :
    Explains undecided 0xE2 (0x82 ∷ 0xAC ∷ []) (encode undecided 0xE2 (0x82 ∷ 0xAC ∷ []))
encode-Explains_example =
    encode-Explains undecided 0xE2 (0x82 ∷ 0xAC ∷ []) (omega arith) (omega arith) (omega arith)

encode-overread_example : encode undecided 0xE2 [] ≡ overread
encode-overread_example = encode-overread undecided 0xE2 refl (omega arith) (omega arith)

read_line-IsClean_example :
    IsCleanLine (0xE2 ∷ 0x82 ∷ 7 ∷ []) (read_line 4 true undecided [] (0xE2 ∷ 0x82 ∷ 7 ∷ []))
read_line-IsClean_example =
    read_line-IsClean 4 true undecided [] (0xE2 ∷ 0x82 ∷ 7 ∷ []) (omega arith) tt
