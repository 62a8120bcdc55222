-- ===== src/Tree/Unlink.antt =====
-- What `roff_node_unlink` and `roff_node_relink` of roff.c do to the lists of children.
use mandoc_mirror.Prelude.{ℕ, ◌<◌, ◌≡◌, ◌≢◌, refl, sym, ◌∙◌, some, arith, ◌==◌, if_both}
use mathlib.Core.Path.{subst}
use mandoc_mirror.Tree.{NodeType, Nodes, Man, update, set_next, set_prev}
use mandoc_mirror.Tree.Detach.{unlink_siblings, unlink_parent, node_unlink, node_relink}
use mandoc_mirror.Tree.Links.{
  Out, In, Children, ne_self, ne_prev, parent_prev, pos-In, Out-of_parent, parent_next, Out-other,
  Out-zero, Links-Same, Same-but,
}
use mandoc_mirror.Tree.Remove.{
  remove, IsCut, unlink-IsCut, Links-apart, Links-remove, Out-remove_self,
}
use mandoc_mirror.Tree.Splice.{Fits}
use mandoc_mirror.Tree.Refine.{
  Kids, Represents, Detached, placed, IsPlace, parent_at, node_append-Represents,
}

-- The children without the node `n` of `p`
unfoldable pub without : ℕ → ℕ → Kids → Kids
without n p kids = update kids p (remove n (kids p))

module _ (n : ℕ) (h : Nodes) (kids : Kids) (r : Represents h kids) (a : 0 < h.parent n)
    (i : In n (kids (h.parent n))) where
  cut : IsCut h (unlink_parent n (unlink_siblings n h)) n
  cut =
      let p = h.parent n in
      let k = r p a in
      unlink-IsCut h n a
        (ne_prev h p n 0 (kids p) (h.child p) i (Out-zero h p 0 (kids p) (h.child p) k) k)
        (ne_self h p n 0 (kids p) (h.child p) i k)

  -- For a tree given by the lists of children, roff_node_unlink at a node with a parent takes
  -- it from the list of that parent, and leaves all other lists, those of the node too.
  pub node_unlink-Represents :
      (m : Man) → Represents (node_unlink m n h).1 (without n (h.parent n) kids)
  unfolding node_unlink without
  node_unlink-Represents m q mq =
      let p = h.parent n in
      let k = r p a in
      let g = unlink_parent n (unlink_siblings n h) in
      if_both (Children g q) (q == p)
        (λ e.
          let f : p ≡ q = ground (arith, e) in
          subst (λ x. Children g x (remove n (kids p))) f
            (Links-remove h g n cut 0 (kids p) (h.child p) (g.child p) i
              (Out-zero h p 0 (kids p) (h.child p) k) cut.first_cut cut.first_same k))
        λ e.
          let f : p ≢ q = λ j. absurd (ground (arith, e, j)) in
          let others = r q mq in
          let b =
            Out-other h q (h.prev n) 0 (kids q) (h.child q)
              (λ c j. f (
                sym
                  (parent_prev h p n 0 (kids p) (h.child p) i (λ z. absurd (omega (arith, c, z))) k)
                ∙ j))
              others in
          let w =
            Out-other h q (h.next n) 0 (kids q) (h.child q)
              (λ c j. f (sym (parent_next h p n 0 (kids p) (h.child p) c i k) ∙ j)) others in
          rw (cut.child q f)
            (Links-apart h g n cut q 0 (kids q) (h.child q) (cut.last q f) b w others)

  pub without-Detached : (q : ℕ) → 0 < q → Out n (without n (h.parent n) kids q)
  unfolding without
  without-Detached q mq =
      if_both (Out n) (q == h.parent n)
        (λ e.
          Out-remove_self h (h.parent n) n 0 (kids (h.parent n)) (h.child (h.parent n))
            (r (h.parent n) a))
        λ e.
          Out-of_parent h q n 0 (kids q) (h.child q) (λ z. absurd (ground (arith, e, z))) (r q mq)

node_unlink-type : (m : Man) (n : ℕ) (h : Nodes) → (node_unlink m n h).1.type ≡ h.type
unfolding node_unlink
node_unlink-type m n h = ground arith

-- New links of a node that is in no list
cleared-Represents :
    (n : ℕ) (g : Nodes) (kids : Kids)
    → Represents g kids
    → Detached n kids
    → Represents (set_next n 0 (set_prev n 0 g)) kids
cleared-Represents n g kids r d q mq =
    Links-Same (set_next n 0 (set_prev n 0 g)) g q 0 (kids q) (g.child q)
      (Same-but (set_next n 0 (set_prev n 0 g)) g n (kids q)
        (λ x o. (refl, ground (arith, o), ground (arith, o))) (d q mq))
      refl (r q mq)

-- The nodes and the parse point of `roff_node_relink` between its two calls
abbrev pub cleared : Man → ℕ → Nodes → Nodes
cleared m n h = set_next n 0 (set_prev n 0 (node_unlink m n h).1)

abbrev pub point : Man → ℕ → Nodes → Man
point m n h = (node_unlink m n h).0

-- roff_node_relink at a node with a parent takes the node, with what is below it, from the
-- children of its parent, and puts it behind the last node or as the first below it, where the
-- last node is that after the removal, and the place is one for a node that is not below itself
-- and, for a head, body or tail, in a block.
pub node_relink-Represents :
    (m : Man) (n : ℕ) (h : Nodes) (kids : Kids)
    → Represents h kids
    → 0 < h.parent n
    → In n (kids (h.parent n))
    → IsPlace (point m n h).next (point m n h).last n (cleared m n h) (without n (h.parent n) kids)
    → Fits (h.type n) (h.type (parent_at (point m n h).next (point m n h).last (cleared m n h)))
    → (g : Nodes) × (node_relink m n h ≡ some (record (point m n h) { last = n }, g))
      × Represents g (
          placed
            (point m n h).next
            (point m n h).last
            (parent_at (point m n h).next (point m n h).last (cleared m n h))
            n
            (without n (h.parent n) kids))
unfolding node_relink
node_relink-Represents m n h kids r a i w f =
    let k = r (h.parent n) a in
    let d = without-Detached n h kids r a i in
    let (g, e, s, t) =
      node_append-Represents (point m n h) n (cleared m n h) (without n (h.parent n) kids)
        (cleared-Represents n (node_unlink m n h).1 (without n (h.parent n) kids)
          (node_unlink-Represents n h kids r a i m) d)
        (pos-In h (h.parent n) n 0 (kids (h.parent n)) (h.child (h.parent n)) i k) d (ground arith)
        (ground arith) w
        (subst
          (λ (ty : ℕ → NodeType).
            Fits (ty n) (ty (parent_at (point m n h).next (point m n h).last (cleared m n h))))
          (sym (node_unlink-type m n h)) f) in
    (g, e, s)
