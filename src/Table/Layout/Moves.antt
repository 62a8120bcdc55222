-- ===== src/Table/Layout/Moves.antt =====
-- The places in the loops of `cell` of tbl_layout.c.
use mandoc_mirror.Prelude.{
  ℕ, suc, ◌+◌, ◌≤◌, ◌<◌, ◌≡◌, refl, false, ◌&&◌, ◌||◌, Option, none, some, [], ◌∷◌, arith, ltb,
  ◌==◌, if◌then◌else◌, if_both, Bool-cases, inl, inr, Bytes, peek, tolower, length,
}
use mandoc_mirror.Table.Options.{is_blank, skip_blank}
use mandoc_mirror.Table.Cells.{Cellt, set_vspace}
use mandoc_mirror.Table.Layout.{cell_key, lead, key_or, seek_key}

pub skip_blank-peek : (v : Bytes) → is_blank (peek (skip_blank v)) ≡ false
unfolding skip_blank
skip_blank-peek [] = refl
skip_blank-peek (c ∷ v) = elim (Bool-cases (is_blank c)) [
  | inl e ↦ rw e (skip_blank-peek v)
  | inr e ↦ rw e e
]

length-key_or :
    (n : ℕ) (k : Option Cellt) (v : Bytes) (more : Option Cellt × Bytes)
    → length v ≤ n
    → length more.1 ≤ n
    → length (key_or k v more).1 ≤ n
unfolding key_or
length-key_or n none v more h l = l
length-key_or n (some k) v more h l = h

length-seek_key : (v : Bytes) → length (seek_key v).1 ≤ length v
unfolding seek_key
length-seek_key [] = omega arith
length-seek_key (c ∷ v) =
    let IH = length-seek_key v in
    if_both (λ (kw : Option Cellt × Bytes). length kw.1 ≤ suc (length v)) (is_blank c)
      (λ e. omega arith)
      λ e.
        if_both (λ (kw : Option Cellt × Bytes). length kw.1 ≤ suc (length v)) (c == b'.')
          (λ f. omega arith) λ f. length-key_or _ _ v (seek_key v) (omega arith) (omega arith)

seek_moves :
    (c : ℕ) (v : Bytes)
    → is_blank c ≡ false
    → (c == b'.') ≡ false
    → length (seek_key (c ∷ v)).1 < length (c ∷ v)
unfolding seek_key
seek_moves c v e f =
    let l =
      length-key_or (length v) (cell_key (tolower c)) v (seek_key v) (omega arith)
        (length-seek_key v) in
    rw (e, f) (omega (arith, l))

pub lead_lem :
    (o n : ℕ) (v : Bytes) → n ≤ 2 → ((lead o n v).1 ≤ 2) × (length (lead o n v).2 ≤ length v)
unfolding lead
lead_lem o n [] h = (h, omega arith)
lead_lem o n (c ∷ v) h =
    let hit = c == b'|' && ltb n 2 in
    let x =
      lead_lem (if hit then set_vspace o else o) (if hit then n + 1 else n) v (ground arith) in
    if_both (λ (r : ℕ × ℕ × Bytes). (r.1 ≤ 2) × (length r.2 ≤ suc (length v)))
      (is_blank c || c == b'|') (λ e. (x.0, omega (arith, x.1))) λ e. (h, omega arith)

pub cell_moves :
    (o n c : ℕ) (v : Bytes)
    → n ≤ 2
    → is_blank c ≡ false
    → (c == b'.') ≡ false
    → length (seek_key (lead o n (c ∷ v)).2).1 < length (c ∷ v)
unfolding lead
cell_moves o n c v h e f =
    let hit = c == b'|' && ltb n 2 in
    let x =
      lead_lem (if hit then set_vspace o else o) (if hit then n + 1 else n) v (ground arith) in
    if_both (λ (r : ℕ × ℕ × Bytes). length (seek_key r.2).1 < suc (length v))
      (is_blank c || c == b'|')
      (λ k. omega (
        arith,
        x.1,
        length-seek_key (lead (if hit then set_vspace o else o) (if hit then n + 1 else n) v).2,
      ))
      λ k. seek_moves c v e f
