-- ===== src/Preconv/Cue.antt =====
-- `preconv_cue` ends on every input.
use mandoc_mirror.Prelude.{
  ℕ, zero, suc, ◌-◌, ◌≤◌, ◌<◌, ◌≡◌, refl, Bool, not, ◌||◌, Option, some, none, [], ◌∷◌, arith,
  pos_of_ne_zero, false, has_prefix, Bytes, Bool-cases, ltb, ◌==◌, if_both, inl, inr, length, drop,
  codes, has_prefix_nocase,
}
use mandoc_mirror.Preconv.{
  FileEnc, cue_encoding, phrase_size, skip_blanks, cue_phrase, cue_phrases, first_line, cue,
}

abbrev Succeeds : Option FileEnc → Type 0
Succeeds (some e) = Unit {0}
Succeeds none = ⊥

le-skip_blanks : (sz : ℕ) (ln : Bytes) → (skip_blanks sz ln).0 ≤ sz
unfolding skip_blanks
le-skip_blanks zero ln = omega arith
le-skip_blanks (suc sz) [] = omega arith
le-skip_blanks (suc sz) (c ∷ ln) = ground (arith, le-skip_blanks sz ln)

phrase_size_pos : (sz : ℕ) (ln : Bytes) → 0 < sz → 0 < phrase_size sz ln
unfolding phrase_size
phrase_size_pos zero ln h = h
phrase_size_pos (suc sz) [] h = omega arith
phrase_size_pos (suc sz) (c ∷ ln) h = ground arith

cue_phrase-Succeeds :
    (sz : ℕ) (ln : Bytes) (again : ℕ → Bytes → Option FileEnc)
    → ((s : ℕ) (l : Bytes) → s < sz → Succeeds (again s l))
    → Succeeds (cue_phrase sz ln again)
unfolding cue_phrase
cue_phrase-Succeeds sz ln again h = elim (Bool-cases (sz == 0)) [
  | inl p ↦ simp p tt
  | inr p ↦
      simp p
        (elim (Bool-cases
          (ltb (phrase_size sz ln) 7 || not (has_prefix_nocase ln (codes "coding:")))) [
            | inl q ↦ simp q (
                h _ _
                  (omega (arith, phrase_size_pos sz ln (pos_of_ne_zero sz p), pos_of_ne_zero sz p)))
            | inr q ↦ simp q (
                if_both Succeeds {x = some (record { utf8 = false; latin1 = false })}
                  {y = some (cue_encoding (phrase_size sz ln) (skip_blanks (sz - 7) (drop 7 ln)).1)}
                  ((skip_blanks (sz - 7) (drop 7 ln)).0 == 0) (λ _. tt) (λ _. tt))
          ])
]

cue_phrases-Succeeds : (fuel sz : ℕ) (ln : Bytes) → sz < fuel → Succeeds (cue_phrases fuel sz ln)
unfolding cue_phrases
cue_phrases-Succeeds zero sz ln h = absurd (omega arith)
cue_phrases-Succeeds (suc fuel) sz ln h =
    cue_phrase-Succeeds (skip_blanks sz ln).0 (skip_blanks sz ln).1 (cue_phrases fuel)
      λ s l k. cue_phrases-Succeeds fuel s l (omega (arith, le-skip_blanks sz ln))

-- The search for an encoding in the first line of a file ends, and answers, on every input.
pub cue-IsSome : (buf : Bytes) → (e : FileEnc) × (cue buf ≡ some e)
unfolding cue
cue-IsSome buf = take_out (cue buf) (elim (Bool-cases (ltb sz 10 || not header || not trailer)) [
  | inl p ↦ simp p tt
  | inr p ↦ simp p (cue_phrases-Succeeds sz (sz - 10) (drop 7 buf) (large sz header trailer p))
])
  where
    sz : ℕ
    sz = length (first_line buf)

    header : Bool
    header = has_prefix buf (codes ".\\\" -*-")

    trailer : Bool
    trailer = has_prefix (drop (sz - 3) buf) (codes "-*-")

    take_out : (o : Option FileEnc) → Succeeds o → (e : FileEnc) × (o ≡ some e)
    take_out (some e) h = (e, refl)
    take_out none h = absurd h

    large : (n : ℕ) (a b : Bool) → (ltb n 10 || not a || not b) ≡ false → n - 10 < n
    large n a b h = ground arith
