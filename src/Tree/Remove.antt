-- ===== src/Tree/Remove.antt =====
-- A node taken from the children of its parent: the links that `roff_node_unlink` of roff.c changes.
use mandoc_mirror.Prelude.{
  ℕ, ◌<◌, ◌≡◌, ◌≢◌, inl, inr, sym, ap, ◌∙◌, List, [], ◌∷◌, arith, ◌==◌, if◌then◌else◌, if_both,
  Bool-cases,
}
use mathlib.Core.Path.{subst}
use mandoc_mirror.Tree.{Nodes}
use mandoc_mirror.Tree.Detach.{unlink_siblings, unlink_parent}
use mandoc_mirror.Tree.Links.{
  Out, In, Links, ne_next, Out-ne, prev_first, prev-In, last-In, tail-In,
}

unfoldable pub remove : ℕ → List ℕ → List ℕ
remove n [] = []
remove n (x ∷ xs) = let more = remove n xs in if x == n then xs else x ∷ more

Out-remove : (a n : ℕ) (xs : List ℕ) → Out a xs → Out a (remove n xs)
unfolding remove
Out-remove a n [] o = tt
Out-remove a n (x ∷ xs) o = if_both (Out a) (x == n) (λ e. o.1) λ e. (o.0, Out-remove a n xs o.1)

-- What `g` has of `h` without the node `n`
pub record IsCut (h g : Nodes) (n : ℕ) : Type 0 where
  pub parent : (x : ℕ) → g.parent x ≡ h.parent x
  pub next : (x : ℕ) → 0 < x → h.prev n ≢ x → g.next x ≡ h.next x
  pub prev : (x : ℕ) → 0 < x → h.next n ≢ x → g.prev x ≡ h.prev x
  pub child : (x : ℕ) → h.parent n ≢ x → g.child x ≡ h.child x
  pub last : (x : ℕ) → h.parent n ≢ x → g.last x ≡ h.last x
  pub behind : (0 < h.prev n) → g.next (h.prev n) ≡ h.next n
  pub after : (0 < h.next n) → g.prev (h.next n) ≡ h.prev n
  pub first_cut : h.child (h.parent n) ≡ n → g.child (h.parent n) ≡ h.next n
  pub first_same : h.child (h.parent n) ≢ n → g.child (h.parent n) ≡ h.child (h.parent n)
  pub last_cut : h.last (h.parent n) ≡ n → g.last (h.parent n) ≡ h.prev n
  pub last_same : h.last (h.parent n) ≢ n → g.last (h.parent n) ≡ h.last (h.parent n)

pub unlink-IsCut :
    (h : Nodes) (n : ℕ)
    → 0 < h.parent n
    → n ≢ h.prev n
    → n ≢ h.next n
    → IsCut h (unlink_parent n (unlink_siblings n h)) n
unfolding unlink_siblings unlink_parent
unlink-IsCut h n a b c = ground arith

module _ (h g : Nodes) (n : ℕ) (s : IsCut h g n) where
  open s use {parent, next, prev, behind, after, last_cut, last_same}

  -- A list that neither the node before nor the one behind is in
  pub Links-apart :
      (q before : ℕ) (xs : List ℕ) (first : ℕ)
      → g.last q ≡ h.last q
      → Out (h.prev n) xs
      → Out (h.next n) xs
      → Links h q before xs first
      → Links g q before xs first
  Links-apart q before [] first e u w k = (k.0, e ∙ k.1)
  Links-apart q before (x ∷ xs) first e u w k = (
    k.0,
    k.1,
    parent x ∙ k.2,
    prev x k.1 w.0 ∙ k.3,
    k.4,
    rw (next x k.1 u.0) (Links-apart q x xs (h.next x) e u.1 w.1 k.5),
  )

  -- What stands behind the node is behind what stood before it.
  Links-closed :
      (before : ℕ) (xs : List ℕ)
      → h.prev n ≡ before
      → Out before xs
      → Out n xs
      → Links h (h.parent n) n xs (h.next n)
      → Links g (h.parent n) before xs (h.next n)
  Links-closed before [] e u o k = (k.0, last_cut k.1 ∙ e)
  Links-closed before (x ∷ xs) e u o k =
      let b : 0 < h.next n = omega (arith, k.0, k.1) in
      let m =
        Out-ne n (h.last (h.parent n)) (x ∷ xs) o (last-In h (h.parent n) n x xs (h.next n) k) in
      (
        k.0,
        k.1,
        parent x ∙ k.2,
        ap g.prev (sym k.0) ∙ after b ∙ e,
        k.4,
        rw (next x k.1 (λ f. u.0 (sym e ∙ f))) (
            Links-apart (h.parent n) x xs (h.next x) (last_same (λ f. m (sym f))) (rw e u.1)
              (rw k.0 k.4) k.5),
      )

  pub Links-remove :
      (before : ℕ) (zs : List ℕ) (first first' : ℕ)
      → In n zs
      → Out before zs
      → (first ≡ n → first' ≡ h.next n)
      → (first ≢ n → first' ≡ first)
      → Links h (h.parent n) before zs first
      → Links g (h.parent n) before (remove n zs) first'
  unfolding remove
  Links-remove before [] first first' i u e f k = absurd i
  Links-remove before (x ∷ xs) first first' i u e f k = elim (Bool-cases (x == n)) [
    | inl b ↦
        let c : x ≡ n = ground (arith, b) in
        rw b (
          subst (λ z. Links g (h.parent n) before xs z) (sym (e (k.0 ∙ c)))
            (Links-closed before xs (ap h.prev (sym c) ∙ k.3) u.1 (subst (λ z. Out z xs) c k.4)
              (subst (λ z. Links h (h.parent n) z xs (h.next z)) c k.5)))
    | inr b ↦
        let c : x ≢ n = λ z. absurd (ground (arith, b, z)) in
        let j = tail-In n x xs b i in
        let p = h.parent n in
        let w = ne_next h p x n x xs (h.next x) k.1 k.4 j k.5 in
        let t =
          Links-remove x xs (h.next x) (g.next x) j k.4
            (λ z.
              let y = prev_first h p n x xs (h.next x) j z k.5 in
              ap g.next (sym y) ∙ behind (omega (arith, y, k.1)))
            (λ z.
              let y = Out-ne x (h.prev n) xs k.4 (prev-In h p n x xs (h.next x) j z k.5) in
              next x k.1 (λ v. y (sym v)))
            k.5 in
        rw b (
          f (λ z. c (sym k.0 ∙ z)) ∙ k.0,
          k.1,
          parent x ∙ k.2,
          prev x k.1 (λ z. w (sym z)) ∙ k.3,
          Out-remove x n xs k.4,
          t,
        )
  ]

pub Out-remove_self :
    (h : Nodes) (p n before : ℕ) (xs : List ℕ) (first : ℕ)
    → Links h p before xs first
    → Out n (remove n xs)
unfolding remove
Out-remove_self h p n before [] first k = tt
Out-remove_self h p n before (x ∷ xs) first k = elim (Bool-cases (x == n)) [
  | inl b ↦ let c : x ≡ n = ground (arith, b) in rw b (subst (λ z. Out z xs) c k.4)
  | inr b ↦ rw b ((λ z. absurd (ground (arith, b, z))), Out-remove_self h p n x xs (h.next x) k.5)
]
