-- ===== src/Table/Options/Semicolon.antt =====
-- The options line of a table, tbl_opts.c, behind the test of `tbl_read` in tbl.c.
use mandoc_mirror.Prelude.{
  ℕ, zero, suc, ◌+◌, ◌<◌, ◌≡◌, refl, ◌∙◌, Bool, true, false, Option, none, some, [], ◌∷◌, arith,
  ◌==◌, if_both, inl, inr, Bool-cases, Bytes, peek, next, isalpha, length, Suffix, Suffix-trans,
  Suffix-next, length-Suffix,
}
use mandoc_mirror.Table.Options.{
  Opts, Key, dpoint, delim, linesize, tab_key, bits, keys, look_up, Optioned, optioned, until_paren,
  is_blank, skip_blank, set_arg, close_paren, arg, handle, is_separator, skip_separators, word,
  option_at, tbl_option, semicolon,
}

-- The place is behind a semicolon of the line.
pub data Ends (v : Bytes) : Optioned → Type 0 where
  ends : (t : Opts) (w : Bytes) → Suffix (b';' ∷ w) v → Ends v (optioned t w)

semicolon_any : (a : Bool) (v : Bytes) → semicolon false v ≡ true → semicolon a v ≡ true
unfolding semicolon
semicolon_any a [] h = cc
semicolon_any a (c ∷ v) h = ground (arith, semicolon_any a v)

skip_separators_lem :
    (v : Bytes)
    → (semicolon true (skip_separators v) ≡ semicolon true v) × Suffix (skip_separators v) v
unfolding semicolon skip_separators
skip_separators_lem [] = (refl, Suffix.here)
skip_separators_lem (c ∷ v) =
    let (h, s) = skip_separators_lem v in
    elim (Bool-cases (is_separator c)) [
      | inl k ↦ rw k (ground arith, Suffix.there s)
      | inr k ↦ rw k (refl, Suffix.here)
    ]

skip_blank_lem :
    (v : Bytes) → (semicolon true (skip_blank v) ≡ semicolon true v) × Suffix (skip_blank v) v
unfolding semicolon skip_blank
skip_blank_lem [] = (refl, Suffix.here)
skip_blank_lem (c ∷ v) =
    let (h, s) = skip_blank_lem v in
    elim (Bool-cases (is_blank c)) [
      | inl k ↦ rw k (ground arith, Suffix.there s)
      | inr k ↦ rw k (refl, Suffix.here)
    ]

word_lem :
    (v : Bytes)
    → (semicolon true (word v).1 ≡ semicolon true v)
      × Suffix (word v).1 v
      × (length (word v).0 + length (word v).1 ≡ length v)
unfolding semicolon word
word_lem [] = (refl, Suffix.here, refl)
word_lem (c ∷ v) =
    let (h, s, l) = word_lem v in
    elim (Bool-cases (isalpha c)) [
      | inl k ↦ rw k (ground arith, Suffix.there s, omega arith)
      | inr k ↦ rw k (refl, Suffix.here, omega arith)
    ]

until_paren_lem :
    (v : Bytes)
    → semicolon false v ≡ true
    → (s : Bytes) × (w : Bytes) × (until_paren v ≡ some (s, w))
      × (semicolon true (close_paren w) ≡ true)
      × Suffix (close_paren w) v
unfolding semicolon until_paren
until_paren_lem [] h = cc
until_paren_lem (c ∷ v) h = elim (Bool-cases (c == b')')) [
  | inl k ↦ ([], c ∷ v, rw k refl, rw k (ground arith), rw k (Suffix.there Suffix.here))
  | inr k ↦
      let (s, w, e, t, x) = until_paren_lem v (ground arith) in
      (c ∷ s, w, rw (k, e) refl, t, Suffix.there x)
]

-- What the loop may rely on when it goes round again behind `v`.
abbrev Again : Bytes → (Opts → Bytes → Optioned) → Type 0
Again v again =
    (t : Opts) (w : Bytes)
    → semicolon true w ≡ true
    → Suffix w v
    → length w < length v
    → Ends v (again t w)

Ends-Suffix : {v w : Bytes} → (o : Optioned) → Ends w o → Suffix w v → Ends v o
Ends-Suffix o (ends t x s) k = ends t x (Suffix-trans s k)

-- The loop goes round again at `x`, which is behind `v`.
goes :
    {v x : Bytes}
    → (again : Opts → Bytes → Optioned) → Again v again
    → (t : Opts) → (w : Bytes) → Suffix w v
    → length w < length v
    → Suffix x w
    → semicolon true x ≡ true
    → Ends v (again t x)
goes again go t w s l k h = go t _ h (Suffix-trans k s) (omega (arith, l, length-Suffix k))

close_paren_lem : (v : Bytes) → semicolon true v ≡ true → semicolon true (close_paren v) ≡ true
unfolding semicolon
close_paren_lem [] h = h
close_paren_lem (c ∷ v) h = ground arith

close_paren-Suffix : (v : Bytes) → Suffix (close_paren v) v
close_paren-Suffix v =
    if_both (λ x. Suffix x v) (peek v == b')') (λ e. Suffix-next v) λ e. Suffix.here

open_paren_lem :
    (v : Bytes)
    → peek v ≡ b'('
    → semicolon true v ≡ true
    → (semicolon false (next v) ≡ true) × Suffix (next v) v
unfolding semicolon
open_paren_lem [] e h = cc
open_paren_lem (c ∷ v) e h = (ground arith, Suffix.there Suffix.here)

arg_lem :
    (key : Key)
    → (v : Bytes) → (again : Opts → Bytes → Optioned) → (t : Opts) → (w : Bytes)
    → semicolon true w ≡ true
    → Suffix w v
    → length w < length v
    → Again v again
    → Ends v (arg key again t w)
unfolding arg
arg_lem key v again t w h s l go =
    let (e, k) = skip_blank_lem w in
    if_both (Ends v) (peek (skip_blank w) == b'(')
      (λ d.
        let (f, j) = open_paren_lem (skip_blank w) (ground arith) (e ∙ h) in
        let (x, y, r, g, i) = until_paren_lem (next (skip_blank w)) f in
        rw r (goes again go (set_arg key x t) w s l (Suffix-trans i (Suffix-trans j k)) g))
      λ d.
        goes again go (set_arg key [] t) w s l (Suffix-trans (close_paren-Suffix (skip_blank w)) k)
          (close_paren_lem (skip_blank w) (e ∙ h))

handle_lem :
    (key : Option Key)
    → (v : Bytes) → (again : Opts → Bytes → Optioned) → (t : Opts) → (w : Bytes)
    → semicolon true w ≡ true
    → Suffix w v
    → length w < length v
    → Again v again
    → Ends v (handle key again t w)
unfolding handle
handle_lem none v again t w h s l go = go t w h s l
handle_lem (some (bits b)) v again t w h s l go = go _ w h s l
handle_lem (some dpoint) v again t w h s l go = arg_lem dpoint v again t w h s l go
handle_lem (some delim) v again t w h s l go = arg_lem delim v again t w h s l go
handle_lem (some linesize) v again t w h s l go = arg_lem linesize v again t w h s l go
handle_lem (some tab_key) v again t w h s l go = arg_lem tab_key v again t w h s l go

semicolon_at : (c : ℕ) (v : Bytes) → (c == b';') ≡ true → Suffix (b';' ∷ v) (c ∷ v)
semicolon_at c v d = let e : c ≡ b';' = ground (arith, d) in rw e Suffix.here

option_at_lem :
    (v : Bytes)
    → (again : Opts → Bytes → Optioned) → (t : Opts) → semicolon true v ≡ true
    → Again v again
    → Ends v (option_at again t v)
unfolding option_at semicolon
option_at_lem [] again t h go = cc
option_at_lem (c ∷ v) again t h go =
    let (e, k, l) = word_lem (c ∷ v) in
    if_both (Ends (c ∷ v)) (c == b';') (λ d. ends t v (semicolon_at c v d))
      λ d.
        if_both (Ends (c ∷ v)) (length (word (c ∷ v)).0 == 0)
          (λ f.
            go t v (ground (arith, semicolon_any true v)) (Suffix.there Suffix.here) (omega arith))
          λ f.
            handle_lem (look_up (word (c ∷ v)).0 keys) (c ∷ v) again t (word (c ∷ v)).1 (e ∙ h) k
              (ground arith) go

-- Where the test of `tbl_read` finds a semicolon, `tbl_option` with more fuel than bytes in the line ends
-- behind a semicolon of the line, and does not read over the end of the line in an argument.
pub tbl_option-Ends :
    (fuel : ℕ)
    → (t : Opts) → (v : Bytes) → semicolon true v ≡ true
    → length v < fuel
    → Ends v (tbl_option fuel t v)
unfolding tbl_option
tbl_option-Ends zero t v h l = absurd (omega arith)
tbl_option-Ends (suc fuel) t v h l =
    let (e, s) = skip_separators_lem v in
    Ends-Suffix _
      (option_at_lem (skip_separators v) (λ u w. tbl_option fuel u w) t (e ∙ h)
        λ u w g k j. Ends-Suffix _ (tbl_option-Ends fuel u w g (omega (arith, length-Suffix s))) k)
      s
