-- ===== src/Tree.antt =====
-- The syntax tree, `struct roff_node` of roff.h and the functions on nodes of roff.c. A pointer is a
-- number, NULL is 0; a field is a function from the nodes. `none` is an access through NULL or a
-- failed assertion.
pub mod Detach
pub mod Links
pub mod Insert
pub mod Remove
pub mod Splice
pub mod Refine
pub mod Alloc
pub mod Unlink
pub mod Walk
pub mod Text
mod Tests
use mandoc_mirror.Prelude.{
  ℕ, zero, suc, ◌+◌, ◌-◌, ◌^◌, Bool, true, false, not, ◌&&◌, ◌||◌, Option, none, some, ◌∷◌, ◌++◌,
  ◌==◌, if◌then◌else◌, Bytes,
}
use Prim.Native.Nat.{bit_and, bit_or}

-- `enum roff_type`
pub data NodeType : Type 0 where
  root block head body tail elem text comment tbl eqn : NodeType

-- `enum roff_tok`, where `roff_tok_transparent` tells them apart
pub data Tok : Type 0 where
  tok_none roff_ft roff_ll roff_mc roff_po roff_ta : Tok
  mdoc_db mdoc_es mdoc_sm mdoc_tg man_dt man_uc man_pd man_at : Tok
  other : ℕ → Tok

-- The nodes, by the fields of `struct roff_node` that the functions here use
pub record Nodes : Type 0 where
  pub parent : ℕ → ℕ
  pub child : ℕ → ℕ
  pub last : ℕ → ℕ
  pub next : ℕ → ℕ
  pub prev : ℕ → ℕ
  pub heads : ℕ → ℕ
  pub bodies : ℕ → ℕ
  pub tails : ℕ → ℕ
  pub norm : ℕ → ℕ
  pub string : ℕ → Option Bytes
  pub line : ℕ → ℕ
  pub column : ℕ → ℕ
  pub flags : ℕ → ℕ
  pub tok : ℕ → Tok
  pub type : ℕ → NodeType
  pub sec : ℕ → ℕ
  pub end_mark : ℕ → Bool

-- `enum roff_next`
pub data Next : Type 0 where
  next_sibling next_child : Next

-- `struct roff_man`, as far as the functions here use it
pub record Man : Type 0 where
  pub first : ℕ
  pub last : ℕ
  pub next : Next
  pub flags : ℕ
  pub lastsec : ℕ

abbrev pub update {ℓ} : {A : Type ℓ} → (ℕ → A) → ℕ → A → ℕ → A
update f p v q = if q == p then v else f q

abbrev pub set_parent : ℕ → ℕ → Nodes → Nodes
set_parent p v h = record h { parent = update h.parent p v }

abbrev pub set_child : ℕ → ℕ → Nodes → Nodes
set_child p v h = record h { child = update h.child p v }

abbrev pub set_last : ℕ → ℕ → Nodes → Nodes
set_last p v h = record h { last = update h.last p v }

abbrev pub set_next : ℕ → ℕ → Nodes → Nodes
set_next p v h = record h { next = update h.next p v }

abbrev pub set_prev : ℕ → ℕ → Nodes → Nodes
set_prev p v h = record h { prev = update h.prev p v }

-- The node that `mandoc_calloc` returns is `n`.
unfoldable pub node_alloc : Man → ℕ → ℕ → ℕ → NodeType → Tok → Nodes → Man × Nodes
node_alloc m n line col type tok h =
    let synopsis = if bit_and m.flags 128 == 0 then 0 else 128 in
    let nofill = if bit_and m.flags 65538 == 2 then 256 else 0 in
    let newline = if bit_and m.flags 8 == 0 then 0 else 8 in
    (
      record m { flags = bit_and m.flags (2 ^ 32 - 1 - 8) },
      record {
        parent = update h.parent n 0;
        child = update h.child n 0;
        last = update h.last n 0;
        next = update h.next n 0;
        prev = update h.prev n 0;
        heads = update h.heads n 0;
        bodies = update h.bodies n 0;
        tails = update h.tails n 0;
        norm = update h.norm n 0;
        string = update h.string n none;
        line = update h.line n line;
        column = update h.column n col;
        flags = update h.flags n (synopsis + nofill + newline);
        tok = update h.tok n tok;
        type = update h.type n type;
        sec = update h.sec n m.lastsec;
        end_mark = update h.end_mark n false;
      },
    )

abbrev pub link_behind : ℕ → ℕ → Nodes → Nodes
link_behind l n h = set_parent n (h.parent l) (set_prev n l (set_next l n h))

-- ROFF_NEXT_SIBLING, behind the node `l`
unfoldable pub append_sibling : ℕ → ℕ → Nodes → Option Nodes
append_sibling l n h =
    if not (h.next l == 0)
    then some (link_behind l n (set_prev (h.next l) n (set_next n (h.next l) h)))
    else if h.parent l == 0
    then none
    else some (link_behind l n (set_last (h.parent l) n h))

abbrev pub link_below : ℕ → ℕ → Nodes → Nodes
link_below l n h = set_parent n l (set_child l n h)

-- ROFF_NEXT_CHILD, below the node `l`
unfoldable pub append_child : ℕ → ℕ → Nodes → Option Nodes
append_child l n h =
    if not (h.child l == 0)
    then some (link_below l n (set_prev (h.child l) n (set_next n (h.child l) h)))
    else some (link_below l n (set_last l n h))

-- The end of `roff_node_append`: "Copy over the normalised-data pointer of our parent."
abbrev pub inherit : ℕ → Nodes → Option Nodes
inherit n h = elim (h.type (h.parent n)) [
  | block ↦ some (record h { norm = update h.norm n (h.norm (h.parent n)) })
  | _ ↦ none
]

-- The second switch of `roff_node_append`
unfoldable pub attach : NodeType → ℕ → Nodes → Option Nodes
attach head n h = inherit n (record h { heads = update h.heads (h.parent n) n })
attach body n h =
    if h.end_mark n
    then some h
    else inherit n (record h { bodies = update h.bodies (h.parent n) n })
attach tail n h = inherit n (record h { tails = update h.tails (h.parent n) n })
attach _ n h = some h

abbrev pub linked : Next → ℕ → ℕ → Nodes → Option Nodes
linked next_sibling l n h = append_sibling l n h
linked next_child l n h = append_child l n h

abbrev pub and_then {ℓ κ} : {A : Type ℓ} {B : Type κ} → Option A → (A → Option B) → Option B
and_then none f = none
and_then (some a) f = f a

-- `roff_node_append`
unfoldable pub node_append : Man → ℕ → Nodes → Option (Man × Nodes)
unfolding append_sibling append_child attach
node_append m n h =
    if m.last == 0 || n == 0
    then none
    else and_then (linked m.next m.last n h)
        λ g. and_then (attach (g.type n) n g) λ k. some (record m { last = n }, k)

-- `roff_elem_alloc`, `roff_block_alloc`, `roff_head_alloc` and `roff_body_alloc`, by the type of the node
unfoldable pub part_alloc : NodeType → Man → ℕ → ℕ → ℕ → Tok → Nodes → Option (Man × Nodes)
unfolding node_alloc node_append
part_alloc type m n line col tok h =
    let (m', g) = node_alloc m n line col type tok h in
    and_then (node_append m' n g) λ (k, f). some (record k { next = next_child }, f)

-- `roff_word_alloc`, where `word` is the copy that `roff_strdup` makes.
unfoldable pub word_alloc : Man → ℕ → ℕ → ℕ → Bytes → Nodes → Option (Man × Nodes)
unfolding node_alloc node_append
word_alloc m n line col word h =
    let (m', g) = node_alloc m n line col text tok_none h in
    let g' = record g { string = update g.string n (some word) } in
    and_then (node_append m' n g') λ (k, f). some (
      record k { next = next_sibling },
      record f { flags = update f.flags n (bit_or (f.flags n) 3) },
    )

-- `roff_word_append`, with the copy of the word
unfoldable pub word_append : Man → Bytes → Nodes → Option (Man × Nodes)
word_append m word h = if m.last == 0 then none else elim (h.string m.last) [
  | none ↦ none
  | some s ↦ some (
    record m { next = next_sibling },
    record h { string = update h.string m.last (some (s ++ b' ' ∷ word)) },
  )
]
