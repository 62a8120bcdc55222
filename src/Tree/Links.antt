-- ===== src/Tree/Links.antt =====
-- The links of a node to its children, and what a change to a node leaves of them.
use mandoc_mirror.Prelude.{
  ℕ, zero, suc, ◌<◌, ◌≡◌, ◌≢◌, ◌⊎◌, inl, inr, sym, ap, ◌∙◌, false, List, [], ◌∷◌, arith, ◌==◌,
  Bool-cases,
}
use mandoc_mirror.Tree.{Nodes}

-- A node is not in a list.
abbrev pub Out : ℕ → List ℕ → Type 0
Out a [] = Unit {0}
Out a (x ∷ xs) = (a ≢ x) × Out a xs

-- A node is in a list.
abbrev pub In : ℕ → List ℕ → Type 0
In a [] = ⊥
In a (x ∷ xs) = (a ≡ x) ⊎ In a xs

-- From the node `first` on, the nodes of the list are linked in both directions, behind `before`
-- and up to the last child of `p`.
abbrev pub Links : Nodes → ℕ → ℕ → List ℕ → ℕ → Type 0
Links h p before [] first = (first ≡ 0) × (h.last p ≡ before)
Links h p before (x ∷ xs) first =
    (first ≡ x)
    × (0 < x)
    × (h.parent x ≡ p)
    × (h.prev x ≡ before)
    × Out x xs
    × Links h p x xs (h.next x)

-- The children of `p`, from the first to the last
abbrev pub Children : Nodes → ℕ → List ℕ → Type 0
Children h p xs = Links h p 0 xs (h.child p)

-- Nodes that the list is linked in the same way in
abbrev pub Same : Nodes → Nodes → List ℕ → Type 0
Same g h [] = Unit {0}
Same g h (x ∷ xs) =
    (g.parent x ≡ h.parent x) × (g.prev x ≡ h.prev x) × (g.next x ≡ h.next x) × Same g h xs

pub Links-Same :
    (g h : Nodes) (p before : ℕ) (xs : List ℕ) (first : ℕ)
    → Same g h xs
    → g.last p ≡ h.last p
    → Links h p before xs first
    → Links g p before xs first
Links-Same g h p before [] first s e l = (l.0, e ∙ l.1)
Links-Same g h p before (x ∷ xs) first s e l =
    (l.0, l.1, s.0 ∙ l.2, s.1 ∙ l.3, l.4, rw s.2 (Links-Same g h p x xs (h.next x) s.3 e l.5))

-- The nodes that `a` is none of are the same if only the links of `a` change.
pub Same-but :
    (g h : Nodes) (a : ℕ) (xs : List ℕ)
    → ((x : ℕ) → a ≢ x → (g.parent x ≡ h.parent x) × (g.prev x ≡ h.prev x) × (g.next x ≡ h.next x))
    → Out a xs
    → Same g h xs
Same-but g h a [] f o = tt
Same-but g h a (x ∷ xs) f o = let (i, j, k) = f x o.0 in (i, j, k, Same-but g h a xs f o.1)

module _ (h : Nodes) (p : ℕ) where
  -- The first node is none that is not in the list.
  pub ne_first :
      (a before : ℕ) (xs : List ℕ) (first : ℕ)
      → 0 < a
      → Out a xs
      → Links h p before xs first
      → a ≢ first
  ne_first a before [] first m o l = λ e. absurd (omega (arith, e, l.0))
  ne_first a before (x ∷ xs) first m o l = λ e. o.0 (e ∙ l.0)

  -- Behind a node in the list is none that is not.
  pub ne_next :
      (a b before : ℕ) (xs : List ℕ) (first : ℕ)
      → 0 < a
      → Out a xs
      → In b xs
      → Links h p before xs first
      → a ≢ h.next b
  ne_next a b before [] first m o i l = absurd i
  ne_next a b before (x ∷ xs) first m o (inl e) l = rw e (ne_first a x xs (h.next x) m o.1 l.5)
  ne_next a b before (x ∷ xs) first m o (inr i) l = ne_next a b x xs (h.next x) m o.1 i l.5

  -- No node is behind itself.
  pub ne_self :
      (b before : ℕ) (xs : List ℕ) (first : ℕ) → In b xs → Links h p before xs first → b ≢ h.next b
  ne_self b before [] first i l = absurd i
  ne_self b before (x ∷ xs) first (inl e) l = rw e (ne_first x x xs (h.next x) l.1 l.4 l.5)
  ne_self b before (x ∷ xs) first (inr i) l = ne_self b x xs (h.next x) i l.5

  pub parent-In :
      (b before : ℕ) (xs : List ℕ) (first : ℕ)
      → In b xs
      → Links h p before xs first
      → h.parent b ≡ p
  parent-In b before [] first i l = absurd i
  parent-In b before (x ∷ xs) first (inl e) l = rw e (l.2)
  parent-In b before (x ∷ xs) first (inr i) l = parent-In b x xs (h.next x) i l.5

  -- A node with another parent is not in the list.
  pub Out-of_parent :
      (a before : ℕ) (xs : List ℕ) (first : ℕ)
      → h.parent a ≢ p
      → Links h p before xs first
      → Out a xs
  Out-of_parent a before [] first m l = tt
  Out-of_parent a before (x ∷ xs) first m l =
      (λ e. m (ap h.parent e ∙ l.2), Out-of_parent a x xs (h.next x) m l.5)

  pub pos-In :
      (b before : ℕ) (xs : List ℕ) (first : ℕ) → In b xs → Links h p before xs first → 0 < b
  pos-In b before [] first i l = absurd i
  pos-In b before (x ∷ xs) first (inl e) l = rw e (l.1)
  pos-In b before (x ∷ xs) first (inr i) l = pos-In b x xs (h.next x) i l.5

  pub parent_first :
      (before : ℕ) (xs : List ℕ) (first : ℕ)
      → 0 < first
      → Links h p before xs first
      → h.parent first ≡ p
  parent_first before [] first m l = absurd (omega (arith, l.0))
  parent_first before (x ∷ xs) first m l = ap h.parent l.0 ∙ l.2

  pub parent_next :
      (b before : ℕ) (xs : List ℕ) (first : ℕ)
      → 0 < h.next b
      → In b xs
      → Links h p before xs first
      → h.parent (h.next b) ≡ p
  parent_next b before [] first m i l = absurd i
  parent_next b before (x ∷ xs) first m (inl e) l =
      ap (λ y. h.parent (h.next y)) e
      ∙ parent_first x xs (h.next x) (omega (arith, m, ap h.next e)) l.5
  parent_next b before (x ∷ xs) first m (inr i) l = parent_next b x xs (h.next x) m i l.5

  pub Out-zero : (before : ℕ) (xs : List ℕ) (first : ℕ) → Links h p before xs first → Out 0 xs
  Out-zero before [] first l = tt
  Out-zero before (x ∷ xs) first l =
      (λ e. absurd (omega (arith, e, l.1)), Out-zero x xs (h.next x) l.5)

  -- Before the first node is what the list starts behind, and before a later one a node of the list.
  pub prev_first :
      (n before : ℕ) (xs : List ℕ) (first : ℕ)
      → In n xs
      → first ≡ n
      → Links h p before xs first
      → h.prev n ≡ before
  prev_first n before [] first i e l = absurd i
  prev_first n before (x ∷ xs) first i e l = ap h.prev (sym e ∙ l.0) ∙ l.3

  pub prev-In :
      (n before : ℕ) (xs : List ℕ) (first : ℕ)
      → In n xs
      → first ≢ n
      → Links h p before xs first
      → In (h.prev n) xs
  prev-In n before [] first i e l = absurd i
  prev-In n before (x ∷ xs) first (inl i) e l = absurd (e (l.0 ∙ sym i))
  prev-In n before (x ∷ xs) first (inr i) e l = elim (Bool-cases (h.next x == n)) [
    | inl b ↦ let f : h.next x ≡ n = ground (arith, b) in inl (prev_first n x xs (h.next x) i f l.5)
    | inr b ↦ inr (prev-In n x xs (h.next x) i (λ f. absurd (ground (arith, b, f))) l.5)
  ]

  pub ne_prev :
      (n before : ℕ) (xs : List ℕ) (first : ℕ)
      → In n xs
      → Out before xs
      → Links h p before xs first
      → n ≢ h.prev n
  ne_prev n before [] first i o l = absurd i
  ne_prev n before (x ∷ xs) first (inl e) o l = λ f. o.0 (sym l.3 ∙ ap h.prev (sym e) ∙ sym f ∙ e)
  ne_prev n before (x ∷ xs) first (inr i) o l = ne_prev n x xs (h.next x) i l.4 l.5

  pub parent_prev :
      (n before : ℕ) (xs : List ℕ) (first : ℕ)
      → In n xs
      → h.prev n ≢ before
      → Links h p before xs first
      → h.parent (h.prev n) ≡ p
  parent_prev n before [] first i o l = absurd i
  parent_prev n before (x ∷ xs) first (inl e) o l = absurd (o (ap h.prev e ∙ l.3))
  parent_prev n before (x ∷ xs) first (inr i) o l = elim (Bool-cases (h.prev n == x)) [
    | inl b ↦ let e : h.prev n ≡ x = ground (arith, b) in ap h.parent e ∙ l.2
    | inr b ↦ parent_prev n x xs (h.next x) i (λ f. absurd (ground (arith, b, f))) l.5
  ]

  pub last-In :
      (before y : ℕ) (xs : List ℕ) (first : ℕ)
      → Links h p before (y ∷ xs) first
      → In (h.last p) (y ∷ xs)
  last-In before y [] first l = inl l.5.1
  last-In before y (x ∷ xs) first l = inr (last-In y x xs (h.next y) l.5)

pub tail-In : (l x : ℕ) (xs : List ℕ) → (x == l) ≡ false → In l (x ∷ xs) → In l xs
tail-In l x xs b (inl e) = absurd (ground (arith, b, e))
tail-In l x xs b (inr i) = i

pub Out-ne : (a b : ℕ) (xs : List ℕ) → Out a xs → In b xs → a ≢ b
Out-ne a b [] o i = absurd i
Out-ne a b (x ∷ xs) o (inl e) = λ f. o.0 (f ∙ e)
Out-ne a b (x ∷ xs) o (inr i) = Out-ne a b xs o.1 i

-- NULL or a node with another parent is not in the list.
pub Out-other :
    (h : Nodes) (q a before : ℕ) (xs : List ℕ) (first : ℕ)
    → (0 < a → h.parent a ≢ q)
    → Links h q before xs first
    → Out a xs
Out-other h q zero before xs first f l = Out-zero h q before xs first l
Out-other h q (suc a) before xs first f l =
    Out-of_parent h q (suc a) before xs first (f (omega arith)) l
