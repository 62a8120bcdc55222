-- ===== src/Tree/Refine.antt =====
-- The syntax tree as the lists of the children of its nodes, and what `roff_node_append` does to them.
use mandoc_mirror.Prelude.{
  ℕ, ◌<◌, ◌≡◌, ◌≢◌, refl, sym, ap, ◌∙◌, false, Option, some, List, ◌∷◌, arith, ◌==◌, if_both, ◌||◌,
}
use mathlib.Core.Path.{subst}
use mandoc_mirror.Tree.{
  Nodes, Man, Next, next_sibling, next_child, update, attach, linked, node_append,
}
use mandoc_mirror.Tree.Links.{
  Out, In, Children, ne_first, ne_next, ne_self, pos-In, Out-of_parent, parent_first, parent_next,
  Out-other, Out-ne,
}
use mandoc_mirror.Tree.Insert.{
  insert_after, IsSpliced, Links-rest, Links-insert, IsNested, Links-others, Children-first,
}
use mandoc_mirror.Tree.Splice.{
  Splices-some, append_sibling-Splices, Nests-some, append_child-Nests, Fits, Keeps, keeps,
  attach-Keeps,
}

-- The children of each node, in their order
abbrev pub Kids : Type 0
Kids = ℕ → List ℕ

abbrev pub Represents : Nodes → Kids → Type 0
Represents h kids = (q : ℕ) → 0 < q → Children h q (kids q)

abbrev pub Detached : ℕ → Kids → Type 0
Detached n kids = (q : ℕ) → 0 < q → Out n (kids q)

-- The new node behind `l` or below it
pub placed : Next → ℕ → ℕ → ℕ → Kids → Kids
placed next_sibling l p n kids = update kids p (insert_after l n (kids p))
placed next_child l p n kids = update kids l (n ∷ kids l)

-- The place for the new node: behind a child of another node, or below another node.
abbrev pub IsPlace : Next → ℕ → ℕ → Nodes → Kids → Type 0
IsPlace next_sibling l n h kids = (0 < h.parent l) × (n ≢ h.parent l) × In l (kids (h.parent l))
IsPlace next_child l n h kids = (0 < l) × (n ≢ l)

-- The node that the new one becomes a child of
abbrev pub parent_at : Next → ℕ → Nodes → ℕ
parent_at next_sibling l h = h.parent l
parent_at next_child l h = l

module _ (l n : ℕ) (h : Nodes) (kids : Kids) (r : Represents h kids) (m : 0 < n)
    (d : Detached n kids) where
  sibling-Represents :
      (g : Nodes)
      → IsSpliced h g l n
      → IsPlace next_sibling l n h kids
      → Represents g (placed next_sibling l (h.parent l) n kids)
  unfolding placed
  sibling-Represents g s (a, b, i) q mq =
      let p = h.parent l in
      let k = r p a in
      if_both (Children g q) (q == p)
        (λ e.
          let f : p ≡ q = ground (arith, e) in
          subst (λ x. Children g x (insert_after l n (kids p))) f
            (rw (s.child p) (Links-insert h g p l n s m refl 0 (kids p) (h.child p) i (d p a) k)))
        λ e.
          let f : p ≢ q = λ j. absurd (ground (arith, e, j)) in
          let w =
            Out-other h q (h.next l) 0 (kids q) (h.child q)
              (λ c j. f (sym (parent_next h p l 0 (kids p) (h.child p) c i k) ∙ j)) (r q mq) in
          rw (s.child q) (
            Links-rest h g p l n s m refl q 0 (kids q) (h.child q) (s.last q f)
              (Out-of_parent h q l 0 (kids q) (h.child q) f (r q mq)) (d q mq) w (r q mq))

  child-Represents :
      (g : Nodes)
      → IsNested h g l n
      → IsPlace next_child l n h kids
      → (p : ℕ) → Represents g (placed next_child l p n kids)
  unfolding placed
  child-Represents g s (a, b) p q mq =
      if_both (Children g q) (q == l)
        (λ e.
          let f : l ≡ q = ground (arith, e) in
          subst (λ x. Children g x (n ∷ kids l)) f
            (Children-first h g l n s m (kids l) (d l a) (r l a)))
        λ e.
          let f : l ≢ q = λ j. absurd (ground (arith, e, j)) in
          let w =
            Out-other h q (h.child l) 0 (kids q) (h.child q)
              (λ c j. f (sym (parent_first h l 0 (kids l) (h.child l) c (r l a)) ∙ j)) (r q mq) in
          rw (s.child q f)
            (Links-others h g l n s m q 0 (kids q) (h.child q) (s.last q f) (d q mq) w (r q mq))

  -- The first switch, whatever the place
  linked_lem :
      (t : Next)
      → IsPlace t l n h kids
      → h.next n ≡ 0
      → h.prev n ≡ 0
      → (g : Nodes) × (linked t l n h ≡ some g)
        × Represents g (placed t l (parent_at t l h) n kids)
        × (g.parent n ≡ parent_at t l h)
        × (g.type ≡ h.type)
  linked_lem next_sibling w a b =
      let p = h.parent l in
      let k = r p w.0 in
      let (g, e, s, t) = Splices-some h l n (
        append_sibling-Splices l n h w.0 a (Out-ne n l (kids p) (d p w.0) w.2)
          (ne_next h p n l 0 (kids p) (h.child p) m (d p w.0) w.2 k)
          (ne_self h p l 0 (kids p) (h.child p) w.2 k)) in
      (g, e, sibling-Represents g s w, s.new_parent, t)
  linked_lem next_child w a b =
      let (g, e, s, t) = Nests-some h l n (
        append_child-Nests l n h a b w.1
          (ne_first h l n 0 (kids l) (h.child l) m (d l w.0) (r l w.0))) in
      (g, e, child-Represents g s w l, s.new_parent, t)

Keeps-some :
    (g : Nodes) (kids : Kids) (o : Option Nodes)
    → Keeps g o
    → Represents g kids
    → (k : Nodes) × (o ≡ some k) × Represents k kids × (k.parent ≡ g.parent)
Keeps-some g kids _ (keeps a b c d) r =
    (record g { heads = a; bodies = b; tails = c; norm = d }, refl, r, refl)

pos_place :
    (t : Next) (l n : ℕ) (h : Nodes) (kids : Kids)
    → Represents h kids
    → IsPlace t l n h kids
    → 0 < l
pos_place next_sibling l n h kids r w =
    pos-In h (h.parent l) l 0 (kids (h.parent l)) (h.child (h.parent l)) w.2 (r (h.parent l) w.0)
pos_place next_child l n h kids r w = w.0

node_append_steps :
    (m : Man) (n : ℕ) (h g k : Nodes)
    → 0 < m.last
    → 0 < n
    → linked m.next m.last n h ≡ some g
    → attach (g.type n) n g ≡ some k
    → node_append m n h ≡ some (record m { last = n }, k)
unfolding node_append
node_append_steps m n h g k a b e i =
    let z : (m.last == 0 || n == 0) ≡ false = ground arith in rw (z, e, i) refl

-- For a tree given by the lists of the children of its nodes, and a node that is in none of them
-- and has no siblings, roff_node_append succeeds, makes the node the last one parsed and the tree
-- that in which it follows the last node among its siblings, or is the first of its children; all
-- other lists stay. The last node has a parent where the new one becomes its sibling, is not its
-- own parent, and a head, body or tail goes into a block.
pub node_append-Represents :
    (m : Man) (n : ℕ) (h : Nodes) (kids : Kids)
    → Represents h kids
    → 0 < n
    → Detached n kids
    → h.next n ≡ 0
    → h.prev n ≡ 0
    → IsPlace m.next m.last n h kids
    → Fits (h.type n) (h.type (parent_at m.next m.last h))
    → (g : Nodes) × (node_append m n h ≡ some (record m { last = n }, g))
      × Represents g (placed m.next m.last (parent_at m.next m.last h) n kids)
      × (g.parent n ≡ parent_at m.next m.last h)
node_append-Represents m n h kids r p d a b w f =
    let l = m.last in
    let (g, e, s, q, t) = linked_lem l n h kids r p d m.next w a b in
    let (k, i, s', j) =
      Keeps-some g (placed m.next l (parent_at m.next l h) n kids) (attach (g.type n) n g)
        (attach-Keeps (g.type n) n g (rw (t, q) f)) s in
    (
      k,
      node_append_steps m n h g k (pos_place m.next l n h kids r w) p e i,
      s',
      ap (λ (z : ℕ → ℕ). z n) j ∙ q,
    )
