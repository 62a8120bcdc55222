-- ===== src/Tree/Detach.antt =====
-- Nodes taken out of the syntax tree, `roff_node_unlink` and `roff_node_relink` of roff.c.
use mandoc_mirror.Prelude.{ℕ, not, Option, ◌==◌, if◌then◌else◌}
use mandoc_mirror.Tree.{
  Nodes, Man, next_sibling, next_child, set_child, set_last, set_next, set_prev, node_append,
}

-- "Adjust siblings."
unfoldable pub unlink_siblings : ℕ → Nodes → Nodes
unlink_siblings n h =
    let g = if h.prev n == 0 then h else set_next (h.prev n) (h.next n) h in
    if g.next n == 0 then g else set_prev (g.next n) (g.prev n) g

-- "Adjust parent."
unfoldable pub unlink_parent : ℕ → Nodes → Nodes
unlink_parent n h =
    let p = h.parent n in
    let g = if h.child p == n then set_child p (h.next n) h else h in
    if p == 0 then h else if g.last p == n then set_last p (g.prev n) g else g

-- "Adjust parse point."
unfoldable pub unlink_point : ℕ → Nodes → Man → Man
unlink_point n h m =
    let m' =
      if not (m.last == n)
      then m
      else if h.prev n == 0
      then record m { last = h.parent n; next = next_child }
      else record m { last = h.prev n; next = next_sibling } in
    if m'.first == n then record m' { first = 0 } else m'

-- `roff_node_unlink`, where `man` is not NULL.
unfoldable pub node_unlink : Man → ℕ → Nodes → Man × Nodes
unfolding unlink_siblings unlink_parent unlink_point
node_unlink m n h = let g = unlink_parent n (unlink_siblings n h) in (unlink_point n g m, g)

-- `roff_node_relink`
unfoldable pub node_relink : Man → ℕ → Nodes → Option (Man × Nodes)
unfolding node_unlink node_append
node_relink m n h =
    let (m', g) = node_unlink m n h in node_append m' n (set_next n 0 (set_prev n 0 g))
