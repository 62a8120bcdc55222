-- ===== src/Tree/Insert.antt =====
-- A new node among the children of a node: the links that `roff_node_append` of roff.c makes.
use mandoc_mirror.Prelude.{
  ℕ, ◌<◌, ◌≡◌, ◌≢◌, inl, inr, sym, ap, ◌∙◌, List, [], ◌∷◌, arith, ◌==◌, if◌then◌else◌, if_both,
  Bool-cases,
}
use mathlib.Core.Path.{subst}
use mandoc_mirror.Tree.{Nodes}
use mandoc_mirror.Tree.Links.{Out, In, Links, Children, ne_first, ne_next, tail-In}

pub insert_after : ℕ → ℕ → List ℕ → List ℕ
insert_after l n [] = []
insert_after l n (x ∷ xs) =
    let more = insert_after l n xs in if x == l then x ∷ n ∷ xs else x ∷ more

Out-insert_after : (a l n : ℕ) (xs : List ℕ) → Out a xs → a ≢ n → Out a (insert_after l n xs)
unfolding insert_after
Out-insert_after a l n [] o m = tt
Out-insert_after a l n (x ∷ xs) o m =
    if_both (Out a) (x == l) (λ e. (o.0, (m, o.1))) λ e. (o.0, Out-insert_after a l n xs o.1 m)

-- What `g` has of `h` with the node `n` behind the node `l`
pub record IsSpliced (h g : Nodes) (l n : ℕ) : Type 0 where
  pub parent : (x : ℕ) → n ≢ x → g.parent x ≡ h.parent x
  pub next : (x : ℕ) → n ≢ x → l ≢ x → g.next x ≡ h.next x
  pub prev : (x : ℕ) → 0 < x → n ≢ x → h.next l ≢ x → g.prev x ≡ h.prev x
  pub child : (x : ℕ) → g.child x ≡ h.child x
  pub last : (x : ℕ) → h.parent l ≢ x → g.last x ≡ h.last x
  pub new_parent : g.parent n ≡ h.parent l
  pub new_prev : g.prev n ≡ l
  pub new_next : g.next n ≡ h.next l
  pub behind : g.next l ≡ n
  pub after : (0 < h.next l) → g.prev (h.next l) ≡ n
  pub last_same : (0 < h.next l) → g.last (h.parent l) ≡ h.last (h.parent l)
  pub last_new : h.next l ≡ 0 → g.last (h.parent l) ≡ n

module _ (h g : Nodes) (p l n : ℕ) (s : IsSpliced h g l n) (m : 0 < n) (own : h.parent l ≡ p) where
  open s use {
    parent, next, prev, last, new_parent, new_prev, new_next, behind, after, last_same, last_new,
  }

  -- A list that neither the two nodes nor the one behind them is in
  pub Links-rest :
      (q before : ℕ) (xs : List ℕ) (first : ℕ)
      → g.last q ≡ h.last q
      → Out l xs
      → Out n xs
      → Out (h.next l) xs
      → Links h q before xs first
      → Links g q before xs first
  Links-rest q before [] first e o u w k = (k.0, e ∙ k.1)
  Links-rest q before (x ∷ xs) first e o u w k = (
    k.0,
    k.1,
    parent x u.0 ∙ k.2,
    prev x k.1 u.0 w.0 ∙ k.3,
    k.4,
    rw (next x u.0 o.0) (Links-rest q x xs (h.next x) e o.1 u.1 w.1 k.5),
  )

  -- Behind `l`, the list goes on from the new node.
  Links-new :
      (xs : List ℕ) → Out l xs → Out n xs → Links h p l xs (h.next l) → Links g p n xs (h.next l)
  Links-new [] o u k = (k.0, rw (← own) (last_new k.0))
  Links-new (x ∷ xs) o u k =
      let e = k.0 in
      let b : 0 < h.next l = omega (arith, e, k.1) in
      let r : g.last p ≡ h.last p = rw (← own) (last_same b) in
      (
        e,
        k.1,
        parent x u.0 ∙ k.2,
        ap g.prev (sym e) ∙ after b,
        k.4,
        rw (next x u.0 o.0) (Links-rest p x xs (h.next x) r o.1 u.1 (rw e k.4) k.5),
      )

  Links-at :
      (before : ℕ) (xs : List ℕ) (first : ℕ)
      → Out n (l ∷ xs)
      → Links h p before (l ∷ xs) first
      → Links g p before (l ∷ n ∷ xs) first
  Links-at before xs first o k =
      let a = ne_first h p l l xs (h.next l) k.1 k.4 k.5 in
      (
        k.0,
        k.1,
        parent l o.0 ∙ k.2,
        prev l k.1 o.0 (λ e. a (sym e)) ∙ k.3,
        (λ e. o.0 (sym e), k.4),
        (behind, m, new_parent ∙ own, new_prev, o.1, rw new_next (Links-new xs k.4 o.1 k.5)),
      )

  pub Links-insert :
      (before : ℕ) (zs : List ℕ) (first : ℕ)
      → In l zs
      → Out n zs
      → Links h p before zs first
      → Links g p before (insert_after l n zs) first
  unfolding insert_after
  Links-insert before [] first i o k = absurd i
  Links-insert before (x ∷ xs) first i o k = elim (Bool-cases (x == l)) [
    | inl b ↦
        let e : l ≡ x = ground (arith, b) in
        rw b (
          subst (λ y. Links g p before (y ∷ n ∷ xs) first) e
            (Links-at before xs first (subst (λ y. Out n (y ∷ xs)) (sym e) o)
              (subst (λ y. Links h p before (y ∷ xs) first) (sym e) k)))
    | inr b ↦
        let j = tail-In l x xs b i in
        let t = Links-insert x xs (h.next x) j o.1 k.5 in
        rw b (
          k.0,
          k.1,
          parent x o.0 ∙ k.2,
          prev x k.1 o.0 (λ e. ne_next h p x l x xs (h.next x) k.1 k.4 j k.5 (sym e)) ∙ k.3,
          Out-insert_after x l n xs k.4 (λ e. o.0 (sym e)),
          rw (next x o.0 (λ e. absurd (ground (arith, b, e)))) t,
        )
  ]

-- What `g` has of `h` with the node `n` as the first child of the node `l`
pub record IsNested (h g : Nodes) (l n : ℕ) : Type 0 where
  pub parent : (x : ℕ) → n ≢ x → g.parent x ≡ h.parent x
  pub next : (x : ℕ) → n ≢ x → g.next x ≡ h.next x
  pub prev : (x : ℕ) → 0 < x → n ≢ x → h.child l ≢ x → g.prev x ≡ h.prev x
  pub child : (x : ℕ) → l ≢ x → g.child x ≡ h.child x
  pub last : (x : ℕ) → l ≢ x → g.last x ≡ h.last x
  pub new_child : g.child l ≡ n
  pub new_parent : g.parent n ≡ l
  pub new_prev : g.prev n ≡ 0
  pub new_next : g.next n ≡ h.child l
  pub after : (0 < h.child l) → g.prev (h.child l) ≡ n
  pub last_same : (0 < h.child l) → g.last l ≡ h.last l
  pub last_new : h.child l ≡ 0 → g.last l ≡ n

module _ (h g : Nodes) (l n : ℕ) (s : IsNested h g l n) (m : 0 < n) where
  open s use {
    parent, next, prev, child, last, new_child, new_parent, new_prev, new_next, after, last_same,
    last_new,
  }

  pub Links-others :
      (q before : ℕ) (xs : List ℕ) (first : ℕ)
      → g.last q ≡ h.last q
      → Out n xs
      → Out (h.child l) xs
      → Links h q before xs first
      → Links g q before xs first
  Links-others q before [] first e u w k = (k.0, e ∙ k.1)
  Links-others q before (x ∷ xs) first e u w k = (
    k.0,
    k.1,
    parent x u.0 ∙ k.2,
    prev x k.1 u.0 w.0 ∙ k.3,
    k.4,
    rw (next x u.0) (Links-others q x xs (h.next x) e u.1 w.1 k.5),
  )

  Links-below : (xs : List ℕ) → Out n xs → Children h l xs → Links g l n xs (h.child l)
  Links-below [] u k = (k.0, last_new k.0)
  Links-below (x ∷ xs) u k =
      let e = k.0 in
      let b : 0 < h.child l = omega (arith, e, k.1) in
      (
        e,
        k.1,
        parent x u.0 ∙ k.2,
        ap g.prev (sym e) ∙ after b,
        k.4,
        rw (next x u.0) (Links-others l x xs (h.next x) (last_same b) u.1 (rw e k.4) k.5),
      )

  pub Children-first : (xs : List ℕ) → Out n xs → Children h l xs → Children g l (n ∷ xs)
  Children-first xs u k = (new_child, m, new_parent, new_prev, u, rw new_next (Links-below xs u k))
