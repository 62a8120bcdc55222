-- ===== src/Preconv/Line.antt =====
-- The character loop of `mparse_buf_r`: it ends, and lets no other byte through.
use mandoc_mirror.Prelude.{
  ℕ, ◌+◌, ◌*◌, ◌/◌, ◌%◌, ◌<◌, ◌≡◌, inl, inr, false, not, ◌&&◌, ◌||◌, Bool, [], ◌∷◌, ◌++◌, arith,
  none, some, leb, ◌==◌, Bytes, zero, suc, Bool-cases, if_both, length, true, Suffix, length-Suffix,
  peek, Option, ◌-◌,
}
use mandoc_mirror.Preconv.{
  FileEnc, Encoded, encoded, refused, overread, Continued, complete, invalid, truncated,
  continuation, encode_latin, encode_rest, encode_second, encode, LineRead, line, line_overread,
  out_of_fuel, is_control, encode_if, read_byte, read_line, bad_second,
}
use mandoc_mirror.Preconv.Text.{IsClean, IsClean-append, unicode_escape-IsClean}

-- Whether the last byte has the high bit set
abbrev pub wide_end : Bytes → Bool
wide_end [] = false
wide_end (c ∷ []) = leb 0x80 c
wide_end (c ∷ d ∷ v) = wide_end (d ∷ v)

wide_end-cons : (c : ℕ) (v : Bytes) → wide_end v ≡ true → wide_end (c ∷ v) ≡ true
wide_end-cons c [] h = cc
wide_end-cons c (d ∷ v) h = h

wide_end-Suffix : {w v : Bytes} → Suffix w v → wide_end w ≡ true → wide_end v ≡ true
wide_end-Suffix Suffix.here h = h
wide_end-Suffix {v = c ∷ v} (Suffix.there s) h = wide_end-cons c v (wide_end-Suffix s h)

-- What a call at the byte `c` in front of `cu` hands back is an end of what it was given, its text is
-- clean, and it reads behind the end only if the last byte has the high bit set.
abbrev IsGood : ℕ → Bytes → Encoded → Type 0
IsGood c cu (encoded out rest e) = IsClean out × Suffix rest cu
IsGood c cu refused = Unit {0}
IsGood c cu overread = wide_end (c ∷ cu) ≡ true

abbrev Shrinks : ℕ → Bytes → Continued → Type 0
Shrinks p cu (complete a rest) = Suffix rest cu
Shrinks p cu invalid = Unit {0}
Shrinks p cu truncated = wide_end (p ∷ cu) ≡ true

continuation-Shrinks :
    (n a p : ℕ) (cu : Bytes) → leb 0x80 p ≡ true → Shrinks p cu (continuation n a cu)
unfolding continuation
continuation-Shrinks zero a p cu h = Suffix.here
continuation-Shrinks (suc n) a p [] h = h
continuation-Shrinks (suc n) a p (c ∷ cu) h = elim (Bool-cases ((c / 64) % 4 == 2)) [
  | inr q ↦ rw q tt
  | inl q ↦ rw q (
      wider (continuation n (a * 64 + c % 64) cu)
        (continuation-Shrinks n (a * 64 + c % 64) c cu (ground (arith, q))))
]
  where
    wider : (r : Continued) → Shrinks c cu r → Shrinks p (c ∷ cu) r
    wider (complete b rest) k = Suffix.there k
    wider invalid k = tt
    wider truncated k = k

encode_latin-IsGood : (e : FileEnc) (c : ℕ) (cu : Bytes) → IsGood c cu (encode_latin e c cu)
unfolding encode_latin
encode_latin-IsGood e c cu = elim (Bool-cases e.latin1) [
  | inl p ↦ rw p (unicode_escape-IsClean c, Suffix.here)
  | inr p ↦ rw p tt
]

encode_rest-IsGood :
    (e : FileEnc) (c : ℕ) (cu : Bytes) (r : Continued)
    → Shrinks c cu r
    → IsGood c cu (encode_rest e c cu r)
unfolding encode_rest
encode_rest-IsGood e c cu (complete a rest) h = (unicode_escape-IsClean a, h)
encode_rest-IsGood e c cu invalid h = encode_latin-IsGood e c cu
encode_rest-IsGood e c cu truncated h = h

encode_second-IsGood :
    (e : FileEnc) (c : ℕ) (cu : Bytes) (nby : ℕ) (o : Option ℕ)
    → leb 0x80 c ≡ true
    → IsGood c cu (encode_second e c cu nby o)
unfolding encode_second
encode_second-IsGood e c cu nby none w = encode_latin-IsGood e c cu
encode_second-IsGood e c [] nby (some a) w = w
encode_second-IsGood e c (d ∷ cu) nby (some a) w = elim (Bool-cases (bad_second nby a d)) [
  | inl p ↦ rw p (encode_latin-IsGood e c (d ∷ cu))
  | inr p ↦ rw p (encode_rest-IsGood e c (d ∷ cu) _ (continuation-Shrinks (nby - 1) a c (d ∷ cu) w))
]

encode_if-IsGood :
    (e : FileEnc) (c : ℕ) (cu : Bytes) → leb 0x80 c ≡ true → IsGood c cu (encode_if e c cu)
unfolding encode_if encode
encode_if-IsGood e c cu w = elim (Bool-cases (e.utf8 || e.latin1)) [
  | inr p ↦ simp p tt
  | inl p ↦ simp p (elim (Bool-cases e.utf8) [
    | inl q ↦ simp q (encode_second-IsGood e c cu _ _ w)
    | inr q ↦ simp q (encode_latin-IsGood e c cu)
  ])
]

-- The line that is read of `cs` is clean, the run has enough fuel, and it reads behind the end only if the
-- last byte has the high bit set.
abbrev pub IsCleanLine : Bytes → LineRead → Type 0
IsCleanLine cs (line out rest e) = IsClean out
IsCleanLine cs line_overread = wide_end cs ≡ true
IsCleanLine cs out_of_fuel = ⊥

IsCleanLine-Suffix : {w v : Bytes} (r : LineRead) → Suffix w v → IsCleanLine w r → IsCleanLine v r
IsCleanLine-Suffix (line out rest e) s h = h
IsCleanLine-Suffix line_overread s h = wide_end-Suffix s h
IsCleanLine-Suffix out_of_fuel s h = h

plain_byte : (c : ℕ) → leb 0x80 c ≡ false → is_control c ≡ false → IsClean (c ∷ [])
plain_byte c h k = ground arith

-- What the loop does at a byte with the high bit set, where it goes on by `again`.
wide-IsCleanLine :
    (e : FileEnc) (c : ℕ) (out cs : Bytes) (again : FileEnc → Bytes → Bytes → LineRead)
    (r : Encoded)
    → ((e : FileEnc) (out rest : Bytes)
        → Suffix rest cs
        → IsClean out
        → IsCleanLine (c ∷ cs) (again e out rest))
    → IsClean out
    → IsGood c cs r
    → IsCleanLine (c ∷ cs) (elim r [
      | encoded text rest e' ↦ again e' (out ++ text) rest
      | refused ↦ again e (out ++ (b'?' ∷ [])) cs
      | overread ↦ line_overread
    ])
wide-IsCleanLine e c out cs again (encoded text rest e') h k g =
    h e' (out ++ text) rest g.1 (IsClean-append out text k g.0)
wide-IsCleanLine e c out cs again refused h k g =
    h e (out ++ (b'?' ∷ [])) cs Suffix.here (IsClean-append out _ k (omega arith))
wide-IsCleanLine e c out cs again overread h k g = g

read_byte-IsCleanLine :
    (start : Bool) (e : FileEnc) (out : Bytes) (c : ℕ) (cs : Bytes)
    (again : FileEnc → Bytes → Bytes → LineRead)
    → ((e : FileEnc) (out rest : Bytes)
        → Suffix rest cs
        → IsClean out
        → IsCleanLine (c ∷ cs) (again e out rest))
    → IsClean out
    → IsCleanLine (c ∷ cs) (read_byte start e out c cs again)
unfolding read_byte
read_byte-IsCleanLine start e out c cs again h k = elim (Bool-cases (not start && c == 0)) [
  | inl p ↦ simp p k
  | inr p ↦ simp p (elim (Bool-cases (c == b'\r' && peek cs == b'\n')) [
    | inl q ↦ simp q k
    | inr q ↦ simp q (elim (Bool-cases (c == b'\n')) [
      | inl r ↦ simp r k
      | inr r ↦ simp r (elim (Bool-cases (leb 0x80 c)) [
        | inl s ↦
            simp s
              (wide-IsCleanLine e c out cs again (encode_if e c cs) h k (encode_if-IsGood e c cs s))
        | inr s ↦ simp s (elim (Bool-cases (is_control c)) [
          | inl t ↦ simp t (
              if_both (IsCleanLine (c ∷ cs)) {x = again e (out ++ (b'?' ∷ [])) cs}
                {y = again e out cs} (not (c == b'\r'))
                (λ _.
                  h e (out ++ (b'?' ∷ [])) cs Suffix.here (IsClean-append out _ k (omega arith)))
                (λ _. h e out cs Suffix.here k))
          | inr t ↦ simp t (
              h e (out ++ (c ∷ [])) cs Suffix.here
                (IsClean-append out (c ∷ []) k (plain_byte c s t)))
        ])
      ])
    ])
  ])
]

-- From a clean line buffer, with more fuel than there are bytes left, the loop ends. Every byte of the line
-- that it reads is printable ASCII or a tab, whatever bytes the input holds, and it reads behind
-- the end of the input, in place of returning a line, only if the last byte of that has the high
-- bit set.
pub read_line-IsClean :
    (fuel : ℕ) (start : Bool) (e : FileEnc) (out cs : Bytes)
    → length cs < fuel
    → IsClean out
    → IsCleanLine cs (read_line fuel start e out cs)
unfolding read_line
read_line-IsClean zero start e out cs h k = absurd (omega arith)
read_line-IsClean (suc fuel) start e out [] h k = k
read_line-IsClean (suc fuel) start e out (c ∷ cs) h k =
    read_byte-IsCleanLine start e out c cs (read_line fuel start)
      (λ e out rest s l.
        IsCleanLine-Suffix (read_line fuel start e out rest) (Suffix.there s)
          (read_line-IsClean fuel start e out rest (omega (arith, h, length-Suffix s)) l))
      k
