-- ===== src/Tree/Tests.antt =====
-- Runs of the functions on the syntax tree.
use mandoc_mirror.Prelude.{
  ℕ, ◌≡◌, refl, inl, false, none, some, [], ◌∷◌, ◌++◌, arith, ◌==◌, if◌then◌else◌, codes,
}
use mandoc_mirror.Tree.{
  root, elem, tok_none, Nodes, Man, next_sibling, next_child, set_parent, set_child, set_last,
  set_next, set_prev, node_append, part_alloc,
}
use mandoc_mirror.Tree.Detach.{node_unlink, node_relink}
use mandoc_mirror.Tree.Refine.{Kids, Represents, placed, node_append-Represents}
use mandoc_mirror.Tree.Alloc.{childless, part_alloc-Represents}
use mandoc_mirror.Tree.Unlink.{without, node_unlink-Represents, node_relink-Represents}
use mandoc_mirror.Tree.Remove.{remove}
use mandoc_mirror.Tree.Walk.{node_child, first_visible, node_child-first_visible}
use mandoc_mirror.Tree.Text.{add_text, add_text-keeps, skip_leading}

abbrev zeros : ℕ → ℕ
zeros n = 0

-- Nodes without links, as of a new page.
abbrev unlinked : Nodes
unlinked = record {
  parent = zeros;
  child = zeros;
  last = zeros;
  next = zeros;
  prev = zeros;
  heads = zeros;
  bodies = zeros;
  tails = zeros;
  norm = zeros;
  string = λ n. none;
  line = zeros;
  column = zeros;
  flags = zeros;
  tok = λ n. tok_none;
  type = λ n. root;
  sec = zeros;
  end_mark = λ n. false;
}

abbrev nobody : Kids
nobody q = []

abbrev start : Man
start = record { first = 1; last = 1; next = next_child; flags = 0; lastsec = 0 }

node_append-Represents_example :
    (g : Nodes) × (node_append start 2 unlinked ≡ some (record start { last = 2 }, g))
    × Represents g (placed next_child 1 1 2 nobody)
    × (g.parent 2 ≡ 1)
node_append-Represents_example =
    node_append-Represents start 2 unlinked nobody (λ q m. (refl, refl)) (omega arith) (λ q m. tt)
      refl refl (omega arith, omega arith) (λ e. cc)

part_alloc-Represents_example :
    (g : Nodes) × (k : Man) × (part_alloc elem start 2 7 1 tok_none unlinked ≡ some (k, g))
    × (k.last ≡ 2)
    × (k.next ≡ next_child)
    × Represents g (placed next_child 1 1 2 (childless 2 nobody))
part_alloc-Represents_example =
    part_alloc-Represents start 2 7 1 elem tok_none unlinked nobody (λ q m. tt)
      (λ q m. (refl, refl)) (omega arith) (omega arith, omega arith) (λ e. cc)

-- Node 1 with the children 2 and 3.
abbrev family : Nodes
family =
    set_parent 2 1
      (set_parent 3 1 (set_child 1 2 (set_last 1 3 (set_next 2 3 (set_prev 3 2 unlinked)))))

abbrev kids_of : Kids
kids_of q = if q == 1 then 2 ∷ 3 ∷ [] else []

family-Represents : Represents family kids_of
family-Represents q m = ground arith

abbrev at_last : Man
at_last = record { first = 1; last = 3; next = next_sibling; flags = 0; lastsec = 0 }

node_unlink-Represents_example : Represents (node_unlink at_last 2 family).1 (without 2 1 kids_of)
node_unlink-Represents_example =
    node_unlink-Represents 2 family kids_of family-Represents (omega arith) (inl refl) at_last

node_relink-Represents_example :
    (g : Nodes) × (node_relink at_last 2 family ≡ some (record at_last { last = 2 }, g))
    × Represents g (placed next_sibling 3 1 2 (without 2 1 kids_of))
unfolding node_unlink without remove
node_relink-Represents_example =
    node_relink-Represents at_last 2 family kids_of family-Represents (omega arith) (inl refl)
      (omega arith, omega arith, inl refl) (λ e. cc)

node_child-first_visible_example : node_child 3 1 family ≡ some (first_visible family (2 ∷ 3 ∷ []))
node_child-first_visible_example =
    node_child-first_visible 3 family 1 (2 ∷ 3 ∷ []) (omega arith)
      (family-Represents 1 (omega arith))

-- The blanks at the end stay.
add_text-keeps_example :
    add_text (some (codes "one")) (codes " two  ")
    ≡ some (codes "one" ++ b' ' ∷ skip_leading (codes " two  "))
unfolding add_text
add_text-keeps_example = add_text-keeps (codes "one") (codes " two  ") (omega arith)

kept_lem : add_text (some (codes "one")) (codes " two  ") ≡ some (codes "one two  ")
unfolding add_text
kept_lem = refl

first_lem : add_text none (codes " two  ") ≡ some (codes "two")
unfolding add_text
first_lem = refl
