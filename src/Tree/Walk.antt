-- ===== src/Tree/Walk.antt =====
-- The walks of roff.c along the children of a node that leave out the transparent ones.
use mandoc_mirror.Prelude.{
  ℕ, zero, suc, ◌<◌, ◌≡◌, refl, Bool, true, false, not, ◌||◌, Option, none, some, List, [], ◌∷◌,
  arith, ◌==◌, if◌then◌else◌, length, Bool-cases, inl, inr,
}
use Prim.Native.Nat.{bit_and}
use mandoc_mirror.Tree.{NodeType, comment, Tok, tok_none, other, Nodes}
use mandoc_mirror.Tree.Links.{Links, Children}

-- `roff_tok_transparent`
unfoldable pub tok_transparent : Tok → Bool
tok_transparent tok_none = false
tok_transparent (other k) = false
tok_transparent _ = true

abbrev pub is_comment : NodeType → Bool
is_comment comment = true
is_comment _ = false

-- `roff_node_transparent`
unfoldable pub node_transparent : ℕ → Nodes → Bool
unfolding tok_transparent
node_transparent n h =
    if n == 0
    then false
    else if is_comment (h.type n) || not (bit_and (h.flags n) 1024 == 0)
    then true
    else tok_transparent (h.tok n)

-- The loop of `roff_node_child`, `roff_node_prev` and `roff_node_next`, where `step` is the link.
unfoldable pub skip_transparent : ℕ → (ℕ → ℕ) → ℕ → Nodes → Option ℕ
skip_transparent zero step n h = none
skip_transparent (suc fuel) step n h =
    let more = skip_transparent fuel step (step n) h in
    if node_transparent n h then more else some n

unfoldable pub node_child : ℕ → ℕ → Nodes → Option ℕ
unfolding skip_transparent node_transparent
node_child fuel n h = skip_transparent fuel h.next (h.child n) h

unfoldable pub node_prev : ℕ → ℕ → Nodes → Option ℕ
unfolding skip_transparent node_transparent
node_prev fuel n h = skip_transparent fuel h.prev (h.prev n) h

unfoldable pub node_next : ℕ → ℕ → Nodes → Option ℕ
unfolding skip_transparent node_transparent
node_next fuel n h = skip_transparent fuel h.next (h.next n) h

-- The first node of the list that is not transparent, or NULL
pub first_visible : Nodes → List ℕ → ℕ
first_visible h [] = 0
first_visible h (x ∷ xs) = let more = first_visible h xs in if node_transparent x h then more else x

transparent_null : (h : Nodes) → node_transparent 0 h ≡ false
unfolding node_transparent
transparent_null h = refl

skip_transparent-visible :
    (fuel : ℕ) (h : Nodes) (p before : ℕ) (xs : List ℕ) (first : ℕ)
    → length xs < fuel
    → Links h p before xs first
    → skip_transparent fuel h.next first h ≡ some (first_visible h xs)
unfolding skip_transparent first_visible
skip_transparent-visible zero h p before xs first l k = absurd (omega arith)
skip_transparent-visible (suc fuel) h p before [] first l k = rw (k.0, transparent_null h) refl
skip_transparent-visible (suc fuel) h p before (x ∷ xs) first l k =
    let ih = skip_transparent-visible fuel h p x xs (h.next x) (omega arith) k.5 in
    elim (Bool-cases (node_transparent x h)) [ inl b ↦ rw (k.0, b) ih | inr b ↦ rw (k.0, b) refl ]

-- With fuel for each child of a node and one more, roff_node_child finds the first of the
-- children that is not transparent, or NULL.
pub node_child-first_visible :
    (fuel : ℕ) (h : Nodes) (p : ℕ) (xs : List ℕ)
    → length xs < fuel
    → Children h p xs
    → node_child fuel p h ≡ some (first_visible h xs)
unfolding node_child
node_child-first_visible fuel h p xs l k = skip_transparent-visible fuel h p 0 xs (h.child p) l k
