-- ===== src/Tree/Alloc.antt =====
-- New nodes in the syntax tree: `roff_node_alloc` of roff.c before `roff_node_append`.
use mandoc_mirror.Prelude.{ℕ, ◌<◌, ◌≡◌, ◌≢◌, refl, sym, some, [], arith, ◌==◌, if_both}
use mathlib.Core.Path.{subst}
use mandoc_mirror.Tree.{
  NodeType, Tok, Nodes, Man, Next, next_sibling, next_child, update, node_alloc, part_alloc,
}
use mandoc_mirror.Tree.Links.{Out, In, Children, Links-Same, Same-but, Out-ne}
use mandoc_mirror.Tree.Splice.{Fits}
use mandoc_mirror.Tree.Refine.{
  Kids, Represents, Detached, placed, IsPlace, parent_at, node_append-Represents,
}

-- The new node has no children.
abbrev pub childless : ℕ → Kids → Kids
childless n kids = update kids n []

module _ (m : Man) (n line col : ℕ) (type : NodeType) (tok : Tok) (h : Nodes) (kids : Kids)
    (d : Detached n kids) where
  node_alloc-Represents :
      Represents h kids → Represents (node_alloc m n line col type tok h).1 (childless n kids)
  unfolding node_alloc
  node_alloc-Represents r q mq =
      let g = (node_alloc m n line col type tok h).1 in
      if_both (Children g q) (q == n) (λ e. ground (arith, e))
        λ e.
          let c : g.child q ≡ h.child q = ground (arith, e) in
          rw c (
            Links-Same g h q 0 (kids q) (h.child q)
              (Same-but g h n (kids q)
                (λ x o. (ground (arith, o), ground (arith, o), ground (arith, o))) (d q mq))
              (ground (arith, e)) (r q mq))

  childless-Detached : Detached n (childless n kids)
  childless-Detached q mq = if_both (Out n) (q == n) (λ e. tt) λ e. d q mq

  node_alloc-parent_at :
      (t : Next) (l : ℕ)
      → IsPlace t l n h kids
      → parent_at t l (node_alloc m n line col type tok h).1 ≡ parent_at t l h
  unfolding node_alloc
  node_alloc-parent_at next_sibling l (a, b, i) =
      let o = Out-ne n l (kids (h.parent l)) (d (h.parent l) a) i in ground (arith, o)
  node_alloc-parent_at next_child l w = refl

  node_alloc-IsPlace :
      (t : Next) (l : ℕ)
      → IsPlace t l n h kids
      → IsPlace t l n (node_alloc m n line col type tok h).1 (childless n kids)
  unfolding node_alloc
  node_alloc-IsPlace next_sibling l (a, b, i) =
      let p = h.parent l in
      subst (λ z. (0 < z) × (n ≢ z) × In l (childless n kids z))
        (sym (node_alloc-parent_at next_sibling l (a, b, i)))
        (a, b, if_both (In l) (p == n) (λ e. absurd (b (ground (arith, e)))) λ e. i)
  node_alloc-IsPlace next_child l w = w

  node_alloc-type : (q : ℕ) → n ≢ q → (node_alloc m n line col type tok h).1.type q ≡ h.type q
  unfolding node_alloc
  node_alloc-type q o = ground (arith, o)

  node_alloc-own : (node_alloc m n line col type tok h).1.type n ≡ type
  unfolding node_alloc
  node_alloc-own = ground arith

  ne_parent_at : (t : Next) (l : ℕ) → IsPlace t l n h kids → n ≢ parent_at t l h
  ne_parent_at next_sibling l w = w.1
  ne_parent_at next_child l w = w.1

  node_alloc-Fits :
      (t : Next) (l : ℕ)
      → IsPlace t l n h kids
      → Fits type (h.type (parent_at t l h))
      → Fits ((node_alloc m n line col type tok h).1.type n) (
          (node_alloc m n line col type tok h).1.type
            (parent_at t l (node_alloc m n line col type tok h).1))
  node_alloc-Fits t l w f =
      rw
        (
          node_alloc-parent_at t l w,
          node_alloc-type (parent_at t l h) (ne_parent_at t l w),
          node_alloc-own,
        )
        f

  -- The functions that allocate an element, block, head or body add it, without children, in
  -- the place that roff_node_append gives it, make it the last node parsed, and set the next
  -- place below it, whatever the fields of the new node were before.
  pub part_alloc-Represents :
      Represents h kids
      → 0 < n
      → IsPlace m.next m.last n h kids
      → Fits type (h.type (parent_at m.next m.last h))
      → (g : Nodes) × (k : Man) × (part_alloc type m n line col tok h ≡ some (k, g))
        × (k.last ≡ n)
        × (k.next ≡ next_child)
        × Represents g (placed m.next m.last (parent_at m.next m.last h) n (childless n kids))
  unfolding part_alloc node_alloc
  part_alloc-Represents r p w f =
      let m' = (node_alloc m n line col type tok h).0 in
      let g = (node_alloc m n line col type tok h).1 in
      let (k, e, s, i) =
        node_append-Represents m' n g (childless n kids) (node_alloc-Represents r) p
          childless-Detached (ground arith) (ground arith) (node_alloc-IsPlace m.next m.last w)
          (node_alloc-Fits m.next m.last w f) in
      (
        k,
        record m' { last = n; next = next_child },
        rw (part_alloc, e) refl,
        refl,
        refl,
        rw (← node_alloc-parent_at m.next m.last w) s,
      )
