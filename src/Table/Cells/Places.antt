-- ===== src/Table/Cells/Places.antt =====
-- The places in `mods` of tbl_layout.c and the cell it fills in.
use mandoc_mirror.Prelude.{
  ℕ, zero, suc, ◌≤◌, ◌<◌, ◌≡◌, Bool, true, ◌||◌, [], ◌∷◌, arith, ltb, ◌==◌, if◌then◌else◌, if_both,
  Bytes, peek, next, isdigit, tolower, length, drop, Suffix, here, there, Suffix-trans, Suffix-next,
  length-Suffix,
}
use mandoc_mirror.Font.{Esc, mandoc_font}
use mandoc_mirror.Roff.Double.{Double}
use mandoc_mirror.Roff.Number.{Num, parsed, failed, trapped, out_of_fuel}
use mandoc_mirror.Roff.Number.Point.{Within, evalnum-Within}
use mandoc_mirror.Table.Options.{is_blank, skip_blank}
use mandoc_mirror.Table.Cells.{
  Cell, Round, mod_more, mod_done, goto_mod, Modified, modified, mod_trapped, is_end, skip_paren,
  skip_digits, plain_mod, font_size, set_font, mod_font, mod_width, mod_bar, mod_letter, mod_at,
  mods,
}

-- A cell of column n whose line to the right is at most two wide.
pub record IsCell (n : ℕ) (cp : Cell) : Type 0 where
  pub col : cp.col ≡ n
  pub vert : cp.vert ≤ 2

-- The modifiers are over at a place in the line, and the cell is sound.
pub data Fits (n : ℕ) (v : Bytes) : Modified → Type 0 where
  fits : (cp : Cell) (o : ℕ) (w : Bytes) → IsCell n cp → Suffix w v → Fits n v (modified cp o w)
  traps : Fits n v mod_trapped

-- A round of the loop ends in this way, or goes on behind `v`.
pub data Moves (n : ℕ) (v : Bytes) : Round → Type 0 where
  moves :
      (cp : Cell) (o : ℕ) (w : Bytes)
      → IsCell n cp
      → Suffix w v
      → length w < length v
      → Moves n v (mod_more cp o w)
  stops : (m : Modified) → Fits n v m → Moves n v (mod_done m)

pub skip_blank-Suffix : (v : Bytes) → Suffix (skip_blank v) v
unfolding skip_blank
skip_blank-Suffix [] = here
skip_blank-Suffix (c ∷ v) =
    if_both (λ w. Suffix w (c ∷ v)) (is_blank c) (λ e. there (skip_blank-Suffix v)) λ e. here

skip_paren-Suffix : (v : Bytes) → Suffix (skip_paren v) v
unfolding skip_paren
skip_paren-Suffix [] = here
skip_paren-Suffix (c ∷ v) =
    if_both (λ w. Suffix w (c ∷ v)) (c == b')') (λ e. here) λ e. there (skip_paren-Suffix v)

skip_digits-Suffix : (v : Bytes) → Suffix (skip_digits v) v
unfolding skip_digits
skip_digits-Suffix [] = here
skip_digits-Suffix (c ∷ v) =
    if_both (λ w. Suffix w (c ∷ v)) (isdigit c) (λ e. there (skip_digits-Suffix v)) λ e. here

drop-Suffix : (n : ℕ) (v : Bytes) → Suffix (drop n v) v
drop-Suffix zero v = here
drop-Suffix (suc n) [] = here
drop-Suffix (suc n) (c ∷ v) = there (drop-Suffix n v)

plain_mod-IsCell : (n c : ℕ) (cp : Cell) → IsCell n cp → IsCell n (plain_mod c cp)
unfolding plain_mod
plain_mod-IsCell n c cp h = ground (arith, h)

set_font-IsCell : (n : ℕ) (esc : Esc) (cp : Cell) → IsCell n cp → IsCell n (set_font esc cp)
set_font-IsCell n esc cp h = ground (arith, h)

Fits-past : {n : ℕ} {v w : Bytes} (m : Modified) → Fits n w m → Suffix w v → Fits n v m
Fits-past m (fits cp o x h k) s = fits cp o x h (Suffix-trans k s)
Fits-past m traps s = traps

-- A place not before `w` is one behind `v`.
further :
    {n : ℕ} {v : Bytes} (cp : Cell) (o : ℕ) (w x : Bytes)
    → IsCell n cp
    → Suffix w v
    → length w < length v
    → Suffix x w
    → Moves n v (mod_more cp o x)
further cp o w x h s l k = moves cp o x h (Suffix-trans k s) (omega (arith, length-Suffix k))

sign-Suffix : (v : Bytes) → Suffix (if peek v == b'-' || peek v == b'+' then next v else v) v
sign-Suffix v =
    if_both (λ x. Suffix x v) (peek v == b'-' || peek v == b'+') (λ e. Suffix-next v) λ e. here

length-next : (v : Bytes) → 0 < peek v → length (next v) < length v
length-next [] h = absurd (omega arith)
length-next (c ∷ v) h = omega arith

mod_font-Moves :
    (n : ℕ) (v w : Bytes) (cp : Cell) (o : ℕ)
    → IsCell n cp
    → Suffix w v
    → length w < length v
    → Moves n v (mod_font cp o w)
unfolding mod_font
mod_font-Moves n v w cp o h s l =
    if_both (Moves n v) (peek w == b'(') (λ e. moves cp o w h s l)
      λ e.
        let k = drop-Suffix (font_size w) w in
        moves _ o _ (set_font-IsCell n (mandoc_font w (font_size w)) cp h) (Suffix-trans k s)
          (omega (arith, length-Suffix k))

mod_width-Moves :
    (n : ℕ) (v w : Bytes) (cp : Cell) (o : ℕ) (r : Num)
    → IsCell n cp
    → Suffix w v
    → length w < length v
    → Within w r
    → Moves n v (mod_width cp o r)
unfolding mod_width
mod_width-Moves n v w cp o (parsed i x) h s l k =
    if_both (Moves n v) (peek x == b')')
      (λ e.
        moves _ o _ (record { col = h.col; vert = h.vert })
          (Suffix-trans (Suffix-next x) (Suffix-trans k.0 s))
          (omega (arith, k.1, length-Suffix (Suffix-next x))))
      λ e. moves cp o x h (Suffix-trans k.0 s) (omega (arith, k.1))
mod_width-Moves n v w cp o (failed x) h s l k =
    moves cp o x h (Suffix-trans k s) (omega (arith, length-Suffix k))
mod_width-Moves n v w cp o trapped h s l k = stops _ traps
mod_width-Moves n v w cp o out_of_fuel h s l k = absurd k

mod_bar-Moves :
    (n : ℕ) (v w : Bytes) (single : Bool) (cp : Cell) (o : ℕ)
    → IsCell n cp
    → Suffix w v
    → length w < length v
    → Moves n v (mod_bar single cp o w)
unfolding mod_bar
mod_bar-Moves n v w single cp o h s l =
    if_both (Moves n v) (ltb cp.vert 2)
      (λ e. moves _ _ w (record { col = h.col; vert = ground arith }) s l) λ e. moves cp o w h s l

skip_digits_lem :
    (c : ℕ) (v : Bytes) → isdigit c ≡ true → length (skip_digits (c ∷ v)) < length (c ∷ v)
unfolding skip_digits
skip_digits_lem c v h = rw h (omega (arith, length-Suffix (skip_digits-Suffix v)))

spacing-IsCell :
    (n k : ℕ) (b : Bool) (cp : Cell)
    → IsCell n cp
    → IsCell n (if b then cp else record cp { spacing = k })
spacing-IsCell n k b cp h = ground (arith, h)

module _ (d : Double) where
  mod_letter-Moves :
      (n : ℕ) (c : ℕ) (w : Bytes) (single : Bool) (cp : Cell) (o : ℕ)
      → IsCell n cp
      → (k : ℕ) → Moves n (c ∷ w) (mod_letter d single cp o k w)
  unfolding mod_letter
  mod_letter-Moves n c w single cp o h k =
      let s = there here in
      if_both (Moves n (c ∷ w)) (k == b'f')
        (λ e.
          let x = skip_blank-Suffix w in
          mod_font-Moves n (c ∷ w) (skip_blank w) cp o h (there x) (omega (arith, length-Suffix x)))
        λ e.
          if_both (Moves n (c ∷ w)) (k == b'p' || k == b'v')
            (λ e.
              further cp o w _ h s (omega arith)
                (Suffix-trans (skip_digits-Suffix _) (sign-Suffix w)))
            λ e.
              if_both (Moves n (c ∷ w)) (k == b'w')
                (λ e.
                  if_both (Moves n (c ∷ w)) (peek w == b'(')
                    (λ f.
                      mod_width-Moves n (c ∷ w) (next w) cp o _ h (there (Suffix-next w))
                        (omega (arith, length-Suffix (Suffix-next w)))
                        (evalnum-Within d (length w) true b'n' true (next w)
                          (length-next w (ground (arith, f)))))
                    λ f.
                      further _ o w _ (record { col = h.col; vert = h.vert }) s (omega arith)
                        (skip_digits-Suffix w))
                λ e.
                  if_both (Moves n (c ∷ w)) (k == b'|')
                    (λ e. mod_bar-Moves n (c ∷ w) w single cp o h s (omega arith))
                    λ e. moves _ o w (plain_mod-IsCell n k cp h) s (omega arith)

  mod_at-Moves :
      (n : ℕ) (v : Bytes) (single : Bool) (cp : Cell) (o : ℕ)
      → IsCell n cp
      → Moves n v (mod_at d single cp o v)
  unfolding mod_at
  mod_at-Moves n [] single cp o h = stops _ (fits cp o [] h here)
  mod_at-Moves n (c ∷ v) single cp o h =
      if_both (Moves n (c ∷ v)) (is_end c) (λ e. stops _ (fits cp o (c ∷ v) h here))
        λ e.
          if_both (Moves n (c ∷ v)) (c == b'(')
            (λ e.
              let x = skip_paren-Suffix (c ∷ v) in
              if_both (Moves n (c ∷ v)) (peek (skip_paren (c ∷ v)) == b')')
                (λ f. moves cp o _ h (Suffix-trans (Suffix-next _) x) (
                  omega
                    (arith, length-Suffix x, length-next (skip_paren (c ∷ v)) (ground (arith, f)))))
                λ f. stops _ (fits cp o _ h x))
            λ e.
              if_both (Moves n (c ∷ v)) (isdigit c)
                (λ e.
                  moves _ o _ (spacing-IsCell n _ _ cp h) (skip_digits-Suffix (c ∷ v))
                    (skip_digits_lem c v e))
                λ e. mod_letter-Moves n c v single cp o h (tolower c)

  goto_mod-Fits :
      (n : ℕ) (v : Bytes) (r : Round) (again : Cell → ℕ → Bytes → Modified)
      → Moves n v r
      → ((cp : Cell) (o : ℕ) (w : Bytes)
          → IsCell n cp
          → Suffix w v
          → length w < length v
          → Fits n v (again cp o w))
      → Fits n v (goto_mod again r)
  unfolding goto_mod
  goto_mod-Fits n v _ again (moves cp o w h s l) go = go cp o w h s l
  goto_mod-Fits n v _ again (stops m h) go = h

  -- With more fuel than bytes in the line.
  pub mods-Fits :
      (n : ℕ) (fuel : ℕ) (single : Bool) (cp : Cell) (o : ℕ) (v : Bytes)
      → IsCell n cp
      → length v < fuel
      → Fits n v (mods d fuel single cp o v)
  unfolding mods
  mods-Fits n zero single cp o v h l = absurd (omega arith)
  mods-Fits n (suc fuel) single cp o v h l =
      let x = skip_blank-Suffix v in
      Fits-past _
        (goto_mod-Fits n (skip_blank v) _ (λ p q w. mods d fuel single p q w)
          (mod_at-Moves n (skip_blank v) single cp o h)
          λ p q w k s j.
            Fits-past _ (mods-Fits n fuel single p q w k (omega (arith, length-Suffix x))) s)
        x
