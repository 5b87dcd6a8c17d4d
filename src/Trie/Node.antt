-- ===== src/Trie/Node.antt =====
-- `skit_trie_node` of survival_kit/trie.h, and the pointers into a tree of nodes
-- (survival_kit/trie.c).
use c_survival_kit.Common.{ℕ, zero, suc, Bool, true, false, Option, none, some, List, [], ◌∷◌}

-- SKIT__TRIE_NODE_PREALLOC
abbrev pub node_prealloc : ℕ
node_prealloc = 12

-- A node owns its children, so the nodes form a tree. `value` joins the C fields `have_value` and
-- `value`. `chars` holds the first `chars_len` bytes of the array, or in a table node, whose
-- `chars_len` is 0xFF, whatever the array last held. `nodes` is both members of the union: the
-- elements of `array`, or the 256 pointers of `table`, where a `gap` is NULL.
mutual
  pub data Node : Type 0 where
    node : (value : Option ℕ) (nodes_len chars_len : ℕ) (chars : List ℕ) (nodes : Nodes) → Node

  pub data Nodes : Type 0 where
    nil : Nodes
    cons : Node → Nodes → Nodes
    gap : Nodes → Nodes

abbrev pub value : Node → Option ℕ
value (node v nl cl cs ns) = v

abbrev pub nodes : Node → Nodes
nodes (node v nl cl cs ns) = ns

abbrev pub have_value : Node → Bool
have_value (node none nl cl cs ns) = false
have_value (node (some v) nl cl cs ns) = true

-- `nodes.array[i]` and `nodes.table[i]`.
unfoldable pub child : Nodes → ℕ → Option Node
child nil i = none
child (cons n ns) zero = some n
child (cons n ns) (suc i) = child ns i
child (gap ns) zero = none
child (gap ns) (suc i) = child ns i

-- The array or table after a write at index `i`.
unfoldable pub put : Nodes → ℕ → Node → Nodes
put nil i m = nil
put (cons n ns) zero m = cons m ns
put (cons n ns) (suc i) m = cons n (put ns i m)
put (gap ns) zero m = cons m ns
put (gap ns) (suc i) m = gap (put ns i m)

unfoldable pub size : Nodes → ℕ
size nil = 0
size (cons n ns) = suc (size ns)
size (gap ns) = suc (size ns)

-- A `skit_trie_node *` is the list of child indices that leads to the node from the root.
abbrev pub NodePath : Type 0
NodePath = List ℕ

unfoldable pub node_at : Node → NodePath → Option Node
node_at n [] = some n
node_at (node v nl cl cs ns) (i ∷ p) = elim (child ns i) [ none ↦ none | some m ↦ node_at m p ]

-- The tree after `*p` has been changed to `m`.
unfoldable pub replace_at : Node → NodePath → Node → Node
replace_at n [] m = m
replace_at (node v nl cl cs ns) (i ∷ p) m = elim (child ns i) [
  | none ↦ node v nl cl cs ns
  | some n ↦ node v nl cl cs (put ns i (replace_at n p m))
]
