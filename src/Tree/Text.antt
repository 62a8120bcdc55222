-- ===== src/Tree/Text.antt =====
-- The text of a part of the syntax tree, `deroff` of roff.c.
use mandoc_mirror.Prelude.{
  ℕ, zero, suc, ◌-◌, ◌≤◌, ◌<◌, ◌≡◌, refl, false, ◌&&◌, Option, none, some, [], ◌∷◌, ◌++◌, arith,
  ltb, ◌==◌, if◌then◌else◌, length, take, get_or, replicate, Bytes, codes, elem, isspace,
}
use mandoc_mirror.Tree.{Nodes}

-- "Skip leading whitespace."
unfoldable pub skip_leading : Bytes → Bytes
skip_leading [] = []
skip_leading (c ∷ []) = if isspace c then [] else c ∷ []
skip_leading (c ∷ d ∷ s) =
    let two = skip_leading s in
    let one = skip_leading (d ∷ s) in
    if c == b'\\' && elem d (codes " %&0^|~") then two else if isspace c then one else c ∷ d ∷ s

-- "Skip trailing backslash."
unfoldable pub skip_backslash : Bytes → ℕ
skip_backslash cp =
    let sz = length cp in if ltb 0 sz && get_or cp (sz - 1) 0 == b'\\' then sz - 1 else sz

-- "Skip trailing whitespace."
unfoldable pub skip_trailing : Bytes → ℕ → ℕ
skip_trailing cp zero = 0
skip_trailing cp (suc sz) =
    let more = skip_trailing cp sz in if isspace (get_or cp sz 0) then more else suc sz

-- The text that `"%s %*s"` makes: the number is the least width of the second string.
abbrev pub joined : Bytes → ℕ → Bytes → Bytes
joined dest sz cp = dest ++ b' ' ∷ (replicate (sz - length cp) b' ' ++ cp)

-- The end of `deroff`, where the node has a string.
unfoldable pub add_text : Option Bytes → Bytes → Option Bytes
unfolding skip_leading skip_backslash skip_trailing
add_text dest s =
    let cp = skip_leading s in
    let sz = skip_trailing cp (skip_backslash cp) in
    if sz == 0
    then dest
    else elim dest [ none ↦ some (take sz cp) | some t ↦ some (joined t sz cp) ]

-- `deroff` on fuel, and its loop over the children from the node `c` on
mutual
  unfolding add_text

  pub deroff : ℕ → Option Bytes → ℕ → Nodes → Option (Option Bytes)
  deroff zero dest n h = none
  deroff (suc fuel) dest n h = elim (h.string n) [
    | none ↦ deroff_children fuel dest (h.child n) h
    | some s ↦ some (add_text dest s)
  ]

  pub deroff_children : ℕ → Option Bytes → ℕ → Nodes → Option (Option Bytes)
  deroff_children zero dest c h = none
  deroff_children (suc fuel) dest c h = if c == 0 then some dest else elim (deroff fuel dest c h) [
    | none ↦ none
    | some d ↦ deroff_children fuel d (h.next c) h
  ]

skip_trailing-le : (cp : Bytes) (sz : ℕ) → skip_trailing cp sz ≤ sz
unfolding skip_trailing
skip_trailing-le cp zero = omega arith
skip_trailing-le cp (suc sz) = ground (arith, skip_trailing-le cp sz)

skip_backslash-le : (cp : Bytes) → skip_backslash cp ≤ length cp
unfolding skip_backslash
skip_backslash-le cp = ground arith

-- Where there is text already and something is left of the string of a node, deroff adds all of
-- the string from its first byte that is no blank on, with the blanks and the backslash at the
-- end that it means to skip.
pub add_text-keeps :
    (t s : Bytes)
    → 0 < skip_trailing (skip_leading s) (skip_backslash (skip_leading s))
    → add_text (some t) s ≡ some (t ++ b' ' ∷ skip_leading s)
unfolding add_text
add_text-keeps t s h =
    let cp = skip_leading s in
    let l : skip_trailing cp (skip_backslash cp) ≤ length cp =
      omega (arith, skip_trailing-le cp (skip_backslash cp), skip_backslash-le cp) in
    let z : skip_trailing cp (skip_backslash cp) - length cp ≡ 0 = omega arith in
    let b : (skip_trailing cp (skip_backslash cp) == 0) ≡ false = ground arith in rw (b, z) refl
