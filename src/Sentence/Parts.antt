-- ===== src/Sentence/Parts.antt =====
-- `mandoc_eos` by the parts of a text: what stands before the punctuation, the punctuation, and what
-- closes the sentence behind it.
use mandoc_mirror.Prelude.{
  ℕ, ◌≡◌, refl, sym, ap, ◌∙◌, Bool, true, false, not, ◌||◌, Option, none, some, [], ◌∷◌, ◌++◌,
  append_assoc, arith, if◌then◌else◌, Bytes, isalnum, inl, inr, Bool-cases,
}
use mathlib.Core.List.{reverse, reverse-append, reverse-cons}
use mandoc_mirror.Sentence.{is_closer, is_stop, scan, eos}

abbrev pub all_of : (ℕ → Bool) → Bytes → Bool
all_of p [] = true
all_of p (c ∷ cs) = if p c then all_of p cs else false

abbrev pub is_mark : ℕ → Bool
is_mark c = is_closer c || is_stop c

abbrev pub is_empty : Bytes → Bool
is_empty [] = true
is_empty (c ∷ cs) = false

-- The last byte, if there is one.
abbrev pub last : Bytes → Option ℕ
last [] = none
last (c ∷ []) = some c
last (c ∷ d ∷ cs) = last (d ∷ cs)

-- The text is empty, or its last byte is no mark.
abbrev pub plain_end : Option ℕ → Bool
plain_end none = true
plain_end (some c) = not (is_mark c)

abbrev pub letter_end : Option ℕ → Bool
letter_end none = false
letter_end (some c) = isalnum c

abbrev head : Bytes → Option ℕ
head [] = none
head (c ∷ cs) = some c

head-append : (cs : Bytes) (c d : ℕ) → head ((cs ++ (c ∷ [])) ++ (d ∷ [])) ≡ head (cs ++ (c ∷ []))
head-append [] c d = refl
head-append (x ∷ cs) c d = refl

last-reverse : (cs : Bytes) → head (reverse cs) ≡ last cs
last-reverse [] = refl
last-reverse (c ∷ []) = refl
last-reverse (c ∷ d ∷ cs) =
    rw (reverse-cons c (d ∷ cs), reverse-cons d cs)
      (head-append (reverse cs) d c ∙ (sym (ap head (reverse-cons d cs)) ∙ last-reverse (d ∷ cs)))

all_of-cons :
    (p : ℕ → Bool) (x : ℕ) (xs : Bytes)
    → all_of p (x ∷ xs) ≡ true
    → (p x ≡ true) × (all_of p xs ≡ true)
all_of-cons p x xs h = ground arith

all_of-append :
    (p : ℕ → Bool) (xs ys : Bytes)
    → all_of p xs ≡ true
    → all_of p ys ≡ true
    → all_of p (xs ++ ys) ≡ true
all_of-append p [] ys h k = k
all_of-append p (x ∷ xs) ys h k =
    let (a, b) = all_of-cons p x xs h in simp a (all_of-append p xs ys b k)

all_of-reverse : (p : ℕ → Bool) (xs : Bytes) → all_of p xs ≡ true → all_of p (reverse xs) ≡ true
all_of-reverse p [] h = refl
all_of-reverse p (x ∷ xs) h =
    let (a, b) = all_of-cons p x xs h in
    rw (reverse-cons x xs) (all_of-append p (reverse xs) (x ∷ []) (all_of-reverse p xs b) (simp a))

scan-marks :
    (e : Bool) (ms r : Bytes) → all_of is_mark ms ≡ true → scan e true (ms ++ r) ≡ scan e true r
unfolding scan
scan-marks e [] r h = refl
scan-marks e (m ∷ ms) r h =
    let (a, b) = all_of-cons is_mark m ms h in
    elim (Bool-cases (is_closer m)) [
      | inl k ↦ rw (k, scan) (scan-marks e ms r b)
      | inr k ↦
          let s : is_stop m ≡ true = sym (simp k refl) ∙ a in
          rw (k, scan) (rw s (scan-marks e ms r b))
    ]

scan-closer :
    (e : Bool) (c : ℕ) (r : Bytes) → is_closer c ≡ true → scan e false (c ∷ r) ≡ scan true false r
unfolding scan
scan-closer e c r h = rw (h, scan) refl

scan-front :
    (e : Bool) (f : Bytes)
    → plain_end (head f) ≡ true
    → scan e true f ≡ not e || letter_end (head f)
unfolding scan
scan-front e [] h = ground arith
scan-front e (c ∷ f) h =
    let k : is_closer c ≡ false = ground arith in
    let s : is_stop c ≡ false = ground arith in rw (k, scan) (rw s refl)

not-not : (b : Bool) → not (not b) ≡ b
not-not true = refl
not-not false = refl

scan-none : (e : Bool) (f : Bytes) → plain_end (head f) ≡ true → scan e false f ≡ false
unfolding scan
scan-none e [] h = refl
scan-none e (c ∷ f) h =
    let k : is_closer c ≡ false = ground arith in
    let s : is_stop c ≡ false = ground arith in rw (k, scan) (rw s refl)

-- Behind a group of closers, read from the last one on.
scan-enclosed :
    (cs r : Bytes)
    → all_of is_closer cs ≡ true
    → scan false false (reverse cs ++ r) ≡ scan (not (is_empty cs)) false r
unfolding scan
scan-enclosed [] r h = refl
scan-enclosed (c ∷ cs) r h =
    let (a, b) = all_of-cons is_closer c cs h in
    rw (reverse-cons c cs, append_assoc (reverse cs) (c ∷ []) r)
      (scan-enclosed cs (c ∷ r) b ∙ scan-closer (not (is_empty cs)) c r a)

stop_no_closer : (c : ℕ) → is_stop c ≡ true → is_closer c ≡ false
unfolding is_stop is_closer
stop_no_closer c h = ground arith

scan-stop : (e : Bool) (c : ℕ) (r : Bytes) → is_stop c ≡ true → scan e false (c ∷ r) ≡ scan e true r
unfolding scan
scan-stop e c r h = rw (stop_no_closer c h, scan) (rw h refl)

-- A text that has a stop before its closers, and marks before that stop, ends a sentence exactly
-- when there are no closers or a letter or digit stands before the marks.
pub eos-stop :
    (front marks closers : Bytes) (c : ℕ)
    → plain_end (last front) ≡ true
    → all_of is_mark marks ≡ true
    → is_stop c ≡ true
    → all_of is_closer closers ≡ true
    → eos (front ++ (marks ++ (c ∷ closers))) ≡ is_empty closers || letter_end (last front)
unfolding eos
eos-stop front marks closers c f m s k =
    rw
      (
        reverse-append front (marks ++ (c ∷ closers)),
        reverse-append marks (c ∷ closers),
        reverse-cons c closers,
        append_assoc (reverse closers ++ (c ∷ [])) (reverse marks) (reverse front),
        append_assoc (reverse closers) (c ∷ []) (reverse marks ++ reverse front),
      )
      (scan-enclosed closers (c ∷ (reverse marks ++ reverse front)) k
        ∙ (scan-stop (not (is_empty closers)) c (reverse marks ++ reverse front) s
            ∙ (scan-marks (not (is_empty closers)) (reverse marks) (reverse front)
                  (all_of-reverse is_mark marks m)
                ∙ (scan-front (not (is_empty closers)) (reverse front) (rw (last-reverse front) f)
                    ∙ rw (last-reverse front, not-not (is_empty closers)) refl))))

-- A text without a stop before its closers ends no sentence.
pub eos-none :
    (front closers : Bytes)
    → plain_end (last front) ≡ true
    → all_of is_closer closers ≡ true
    → eos (front ++ closers) ≡ false
unfolding eos
eos-none front closers f k =
    rw (reverse-append front closers, scan-enclosed closers (reverse front) k)
      (scan-none (not (is_empty closers)) (reverse front) (rw (last-reverse front) f))
