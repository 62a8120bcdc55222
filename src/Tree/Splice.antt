-- ===== src/Tree/Splice.antt =====
-- The two switches of `roff_node_append` of roff.c.
use mandoc_mirror.Prelude.{
  ℕ, ◌<◌, ◌≡◌, ◌≢◌, refl, Bool, true, false, not, Option, some, arith, ◌==◌, if_both,
}
use mandoc_mirror.Tree.{
  NodeType, root, block, head, body, tail, elem, text, comment, tbl, eqn, Nodes, append_sibling,
  append_child, inherit, attach,
}
use mandoc_mirror.Tree.Insert.{IsSpliced, IsNested}

-- The node is linked in, and nothing else changes than links.
pub data Splices (h : Nodes) (l n : ℕ) : Option Nodes → Type 0 where
  splices :
      (g : Nodes)
      → IsSpliced h g l n
      → g.type ≡ h.type
      → g.end_mark ≡ h.end_mark
      → Splices h l n (some g)

pub data Nests (h : Nodes) (l n : ℕ) : Option Nodes → Type 0 where
  nests :
      (g : Nodes)
      → IsNested h g l n
      → g.type ≡ h.type
      → g.end_mark ≡ h.end_mark
      → Nests h l n (some g)

pub Splices-some :
    (h : Nodes) (l n : ℕ) {o : Option Nodes}
    → Splices h l n o
    → (g : Nodes) × (o ≡ some g) × IsSpliced h g l n × (g.type ≡ h.type)
Splices-some h l n (splices g s t e) = (g, refl, s, t)

pub Nests-some :
    (h : Nodes) (l n : ℕ) {o : Option Nodes}
    → Nests h l n o
    → (g : Nodes) × (o ≡ some g) × IsNested h g l n × (g.type ≡ h.type)
Nests-some h l n (nests g s t e) = (g, refl, s, t)

module _ (l n : ℕ) (h : Nodes) where
  pub append_sibling-Splices :
      0 < h.parent l
      → h.next n ≡ 0
      → n ≢ l
      → n ≢ h.next l
      → l ≢ h.next l
      → Splices h l n (append_sibling l n h)
  unfolding append_sibling
  append_sibling-Splices a b c d m =
      if_both (Splices h l n) (not (h.next l == 0)) (λ e. splices _ (ground arith) refl refl)
        λ e.
          if_both (Splices h l n) (h.parent l == 0) (λ f. absurd (ground arith))
            λ f. splices _ (ground arith) refl refl

  pub append_child-Nests :
      h.next n ≡ 0 → h.prev n ≡ 0 → n ≢ l → n ≢ h.child l → Nests h l n (append_child l n h)
  unfolding append_child
  append_child-Nests a b c d =
      if_both (Nests h l n) (not (h.child l == 0)) (λ e. nests _ (ground arith) refl refl)
        λ e. nests _ (ground arith) refl refl

abbrev pub is_part : NodeType → Bool
is_part head = true
is_part body = true
is_part tail = true
is_part _ = false

-- Heads, bodies and tails are children of blocks.
abbrev pub Fits : NodeType → NodeType → Type 0
Fits t u = is_part t ≡ true → u ≡ block

-- The second switch changes no links.
pub data Keeps (g : Nodes) : Option Nodes → Type 0 where
  keeps :
      (a b c d : ℕ → ℕ) → Keeps g (some (record g { heads = a; bodies = b; tails = c; norm = d }))

inherit-Keeps :
    (g : Nodes) (a b c : ℕ → ℕ) (n : ℕ)
    → g.type (g.parent n) ≡ block
    → Keeps g (inherit n (record g { heads = a; bodies = b; tails = c }))
inherit-Keeps g a b c n e = rw e (keeps a b c _)

pub attach-Keeps :
    (t : NodeType) (n : ℕ) (g : Nodes) → Fits t (g.type (g.parent n)) → Keeps g (attach t n g)
unfolding attach
attach-Keeps head n g f = inherit-Keeps g _ _ _ n (f refl)
attach-Keeps body n g f =
    if_both (Keeps g) (g.end_mark n) (λ e. keeps _ _ _ _) λ e. inherit-Keeps g _ _ _ n (f refl)
attach-Keeps tail n g f = inherit-Keeps g _ _ _ n (f refl)
attach-Keeps root n g f = keeps _ _ _ _
attach-Keeps block n g f = keeps _ _ _ _
attach-Keeps elem n g f = keeps _ _ _ _
attach-Keeps text n g f = keeps _ _ _ _
attach-Keeps comment n g f = keeps _ _ _ _
attach-Keeps tbl n g f = keeps _ _ _ _
attach-Keeps eqn n g f = keeps _ _ _ _
