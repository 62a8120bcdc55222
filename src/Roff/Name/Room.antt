-- ===== src/Roff/Name/Room.antt =====
-- The places of `roff_getname` of roff.c in the line.
use mandoc_mirror.Prelude.{
  ℕ, zero, suc, ◌+◌, ◌≤◌, ◌<◌, ◌≡◌, refl, sym, true, not, ◌||◌, [], ◌∷◌, ◌++◌, arith, ◌==◌, if_both,
  Bytes, peek, length, drop, length-drop, Suffix, Suffix-trans, length-Suffix,
}
use mathlib.Core.Path.{subst}
use mandoc_mirror.Escape.Syntax.{Escape, at, is_undef}
use mandoc_mirror.Escape.Places.{followed, EscapeFits}
use mandoc_mirror.Escape.Places.Parse.{escape-Fits}
use mandoc_mirror.Table.Data.Places.{drop-Suffix, followed-Suffix}
use mandoc_mirror.Roff.Name.{Named, named, name_escape, name_loop, past_spaces, past_name, getname}

-- What follows is in the line `v`, and the name has room for `n` bytes before `v` and what is read of it.
pub data HasRoom (n : ℕ) (v : Bytes) : Named → Type 0 where
  has_room :
      (out w : Bytes)
      → Suffix w v
      → length out + length w ≤ n + length v
      → HasRoom n v (named out w)

length-add : (out : Bytes) (c : ℕ) → length (out ++ c ∷ []) ≡ length out + 1
length-add [] c = omega arith
length-add (d ∷ out) c = omega (arith, length-add out c)

HasRoom-shift :
    (m n : ℕ) (w v : Bytes) (o : Named)
    → Suffix w v
    → m + length w ≤ n + length v
    → HasRoom m w o
    → HasRoom n v o
HasRoom-shift m n w v _ s l (has_room out x t k) =
    has_room out x (Suffix-trans t s) (omega (arith, l, k))

name_escape-HasRoom :
    (n : ℕ) (again : Bytes → Bytes → Named) (out v : Bytes) (e : Escape)
    → EscapeFits v 0 e
    → followed b'\\' v ≡ true
    → length v ≡ suc n
    → ((o w : Bytes) → followed b'\\' w ≡ true → length w ≤ n → HasRoom (length o) w (again o w))
    → HasRoom (length out) v (name_escape again out v e)
unfolding name_escape
name_escape-HasRoom n again out v _ (EscapeFits.escaped_fits f h p) s l go =
    let o = out ++ at v f.inam ∷ [] in
    let w = drop f.iend v in
    let d = length-drop f.iend v in
    let shorter : length w ≤ n = omega (arith, l, d, h.begins, h.named, h.ends) in
    if_both (HasRoom (length out) v) (is_undef f.rval)
      (λ b.
        HasRoom-shift (length o) (length out) w v _ (drop-Suffix f.iend v)
          (omega (arith, length-add out (at v f.inam), shorter, l))
          (go o w (followed-Suffix (drop-Suffix f.iend v) s) shorter))
      λ b. has_room out w (drop-Suffix f.iend v) (omega (arith, shorter, l))

name_loop-HasRoom :
    (fuel : ℕ) (out v : Bytes)
    → followed b'\\' v ≡ true
    → length v < fuel
    → HasRoom (length out) v (name_loop fuel out v)
unfolding name_loop
name_loop-HasRoom zero out v f l = absurd (omega arith)
name_loop-HasRoom (suc fuel) out [] f l = has_room out [] Suffix.here (omega arith)
name_loop-HasRoom (suc fuel) out (c ∷ v) f l =
    if_both (HasRoom (length out) (c ∷ v)) (c == b' ' || c == 9)
      (λ b. has_room out v (Suffix.there Suffix.here) (omega arith))
      λ b.
        if_both (HasRoom (length out) (c ∷ v)) (not (c == b'\\'))
          (λ k.
            HasRoom-shift (length (out ++ c ∷ [])) (length out) v (c ∷ v) _
              (Suffix.there Suffix.here) (omega (arith, length-add out c))
              (name_loop-HasRoom fuel (out ++ c ∷ []) v (ground (arith, f)) (omega arith)))
          λ k.
            if_both (HasRoom (length out) (c ∷ v)) (peek v == b'{' || peek v == b'}')
              (λ j. has_room out (c ∷ v) Suffix.here (omega arith))
              λ j.
                let e : c ≡ b'\\' = ground (arith, k) in
                name_escape-HasRoom (length v) (λ o w. name_loop fuel o w) out (c ∷ v) _
                  (escape-Fits (suc (length (c ∷ v))) true (c ∷ v) 0 (omega arith)
                    (rw e (omega arith)) (subst (λ x. followed x (c ∷ v) ≡ true) (sym e) f))
                  f refl λ o w g m. name_loop-HasRoom fuel o w g (omega arith)

past_spaces-Suffix : (v : Bytes) → Suffix (past_spaces v) v
unfolding past_spaces
past_spaces-Suffix [] = Suffix.here
past_spaces-Suffix (c ∷ v) =
    if_both (λ (w : Bytes). Suffix w (c ∷ v)) (c == b' ') (λ b. Suffix.there (past_spaces-Suffix v))
      λ b. Suffix.here

past_name-HasRoom : (v : Bytes) (o : Named) → HasRoom 0 v o → HasRoom 0 v (past_name o)
past_name-HasRoom v _ (has_room out w s l) =
    has_room out (past_spaces w) (Suffix-trans (past_spaces-Suffix w) s)
      (omega (arith, l, length-Suffix (past_spaces-Suffix w)))

-- In a line in which each backslash has a byte behind it, `roff_getname` comes to an end and does not read
-- behind the line, what follows the name is at a place in the line, and the name that is written
-- in place has room in front of it.
pub getname-HasRoom : (v : Bytes) → followed b'\\' v ≡ true → HasRoom 0 v (getname v)
unfolding getname
getname-HasRoom [] f = has_room [] [] Suffix.here (omega arith)
getname-HasRoom (c ∷ v) f =
    past_name-HasRoom (c ∷ v) _
      (name_loop-HasRoom (suc (length (c ∷ v))) [] (c ∷ v) f (omega arith))
