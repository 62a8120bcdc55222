-- ===== src/Table/Data/Places.antt =====
-- The end of a cell in a line, in `getdata` of tbl_data.c.
use mandoc_mirror.Prelude.{
  ℕ, zero, suc, ◌≤◌, ◌<◌, ◌≡◌, refl, sym, Bool, true, false, not, ◌&&◌, ◌||◌, peek, [], ◌∷◌, arith,
  ◌==◌, if_both, Bytes, length, drop, length-drop, Suffix, Suffix-trans,
}
use mathlib.Core.Path.{subst}
use mandoc_mirror.Escape.Syntax.{Escape, escaped, is_expand}
use mandoc_mirror.Escape.Parse.{escape}
use mandoc_mirror.Escape.Places.{followed, EscapeFits}
use mandoc_mirror.Escape.Places.Parse.{escape-Fits}
use mandoc_mirror.Table.Data.{CellEnd, cell_end, find_end, past_escape}

abbrev pub expands : Escape → Bool
expands (escaped f) = is_expand f.rval
expands _ = false

-- Each backslash has a byte behind it, and `mandoc_escape` finds no sequence there that has to be expanded.
unfoldable pub is_expanded : Bytes → Bool
is_expanded [] = true
is_expanded (c ∷ v) =
    let found = escape (suc (length (c ∷ v))) true (c ∷ v) 0 in
    (not (c == b'\\') || (not (peek v == 0) && not (expands found))) && is_expanded v

pub is_expanded-Suffix : {w v : Bytes} → Suffix w v → is_expanded v ≡ true → is_expanded w ≡ true
unfolding is_expanded
is_expanded-Suffix Suffix.here f = f
is_expanded-Suffix (Suffix.there h) f = is_expanded-Suffix h (ground (arith, f))

followed-is_expanded : (v : Bytes) → is_expanded v ≡ true → followed b'\\' v ≡ true
unfolding is_expanded
followed-is_expanded [] f = refl
followed-is_expanded (c ∷ v) f = ground (arith, f, followed-is_expanded v)

expands-is_expanded :
    (c : ℕ) (v : Bytes)
    → c == b'\\' ≡ true
    → is_expanded (c ∷ v) ≡ true
    → expands (escape (suc (length (c ∷ v))) true (c ∷ v) 0) ≡ false
unfolding is_expanded
expands-is_expanded c v k f = ground (arith, k, f)

pub followed-Suffix : {w v : Bytes} → Suffix w v → followed b'\\' v ≡ true → followed b'\\' w ≡ true
followed-Suffix Suffix.here f = f
followed-Suffix (Suffix.there h) f = followed-Suffix h (ground (arith, f))

-- A place in the line `v` behind which nothing has to be expanded
pub data EndsIn (v : Bytes) : CellEnd → Type 0 where
  ends_in : (w : Bytes) → Suffix w v → is_expanded w ≡ true → EndsIn v (cell_end w)

pub drop-Suffix : (n : ℕ) (v : Bytes) → Suffix (drop n v) v
drop-Suffix zero v = Suffix.here
drop-Suffix (suc n) [] = Suffix.here
drop-Suffix (suc n) (c ∷ v) = Suffix.there (drop-Suffix n v)

EndsIn-there : {c : ℕ} {v : Bytes} {e : CellEnd} → EndsIn v e → EndsIn (c ∷ v) e
EndsIn-there (ends_in w s f) = ends_in w (Suffix.there s) f

EndsIn-drop : (n : ℕ) (v : Bytes) {e : CellEnd} → EndsIn (drop n v) e → EndsIn v e
EndsIn-drop n v (ends_in w s f) = ends_in w (Suffix-trans s (drop-Suffix n v)) f

past_escape-EndsIn :
    (n : ℕ) (again : Bytes → CellEnd) (v : Bytes) (e : Escape)
    → EscapeFits v 0 e
    → expands e ≡ false
    → is_expanded v ≡ true
    → length v ≡ suc n
    → ((w : Bytes) → is_expanded w ≡ true → length w ≤ n → EndsIn w (again w))
    → EndsIn v (past_escape again v e)
unfolding past_escape
past_escape-EndsIn n again v _ (EscapeFits.escaped_fits f h p) x s l go = rw x (
    EndsIn-drop f.iend v (
      go (drop f.iend v) (is_expanded-Suffix (drop-Suffix f.iend v) s)
        (omega (arith, length-drop f.iend v, h.begins, h.named, h.ends))))

-- In a line from no backslash of which on there is an escape sequence to be expanded or nothing at all,
-- the search for the end of a cell comes to an end, at a place in the line.
pub find_end-EndsIn :
    (tab fuel : ℕ) (v : Bytes)
    → is_expanded v ≡ true
    → length v < fuel
    → EndsIn v (find_end tab fuel v)
unfolding find_end
find_end-EndsIn tab zero v f l = absurd (omega arith)
find_end-EndsIn tab (suc fuel) [] f l = ends_in [] Suffix.here f
find_end-EndsIn tab (suc fuel) (c ∷ v) f l =
    if_both (EndsIn (c ∷ v)) (c == tab) (λ b. ends_in (c ∷ v) Suffix.here f)
      λ b.
        if_both (EndsIn (c ∷ v)) (c == b'\\')
          (λ k.
            let e : c ≡ b'\\' = ground (arith, k) in
            past_escape-EndsIn (length v) (λ w. find_end tab fuel w) (c ∷ v) _
              (escape-Fits (suc (length (c ∷ v))) true (c ∷ v) 0 (omega arith) (rw e (omega arith))
                (subst (λ x. followed x (c ∷ v) ≡ true) (sym e) (followed-is_expanded (c ∷ v) f)))
              (expands-is_expanded c v k f) f refl
              λ w g m. find_end-EndsIn tab fuel w g (omega arith))
          λ k. EndsIn-there (
            find_end-EndsIn tab fuel v (is_expanded-Suffix (Suffix.there Suffix.here) f)
              (omega arith))
