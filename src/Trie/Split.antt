-- ===== src/Trie/Split.antt =====
-- Insertion in survival_kit/trie.c: the functions that grow a node for a key that is not in the
-- trie. All of them change the node `*coords.node` and memory that they allocate, so each is a
-- function from that node to the node that it becomes. A result `none` is an assertion that fails.
use c_survival_kit.Common.{
  ℕ, zero, suc, ◌+◌, ◌-◌, ◌&&◌, Option, none, some, List, [], ◌∷◌, ◌++◌, ltb, ◌==◌, if◌then◌else◌,
  get_or, take, drop, length,
}
use c_survival_kit.Trie.Node.{Node, Nodes, node, nil, cons, gap, child, put, node_prealloc}
use c_survival_kit.Trie.Find.{index_of}

-- `skit_trie_node_ctor`
abbrev pub empty_node : Node
empty_node = node none 0 0 [] nil

abbrev pub set_value : Node → ℕ → Node
set_value (node _ nl cl cs ns) v = node (some v) nl cl cs ns

-- `skit_trie_node_insert_non0_str`: a chain of narrow nodes that spells `str` and ends at `tail`.
-- Each round takes twelve characters of the string, so its length is enough fuel.
unfoldable pub insert_non0_str : ℕ → Node → List ℕ → Node
insert_non0_str zero tail str = node none 1 (length str) str (cons tail nil)
insert_non0_str (suc fuel) tail str =
    let rest = insert_non0_str fuel tail (drop node_prealloc str) in
    if ltb node_prealloc (length str)
    then node none 1 node_prealloc (take node_prealloc str) (cons rest nil)
    else node none 1 (length str) str (cons tail nil)

-- `skit_trie_node_append_str` on a new node, with the tail that the caller then fills.
unfoldable pub append_str : Node → List ℕ → Node
unfolding insert_non0_str
append_str tail [] = tail
append_str tail (c ∷ cs) = insert_non0_str (length cs) tail (c ∷ cs)

-- `skit_trie_finish_tail`: the branch for what follows the key's character at `pos`.
unfoldable pub finish_tail : List ℕ → ℕ → ℕ → Node
unfolding append_str
finish_tail key pos v = append_str (set_value empty_node v) (drop (suc pos) key)

-- `realloc` by one element, which is then filled.
unfoldable pub push_back : Nodes → Node → Nodes
push_back nil m = cons m nil
push_back (cons n ns) m = cons n (push_back ns m)
push_back (gap ns) m = gap (push_back ns m)

unfoldable pub null_table : ℕ → Nodes
null_table zero = nil
null_table (suc n) = gap (null_table n)

-- The loop that copies the nodes of an array into a table, each at its character.
unfoldable pub fill_table : List ℕ → Nodes → Nodes → Nodes
fill_table (c ∷ cs) (cons n ns) t = fill_table cs ns (put t c n)
fill_table _ _ t = t

unfoldable pub split_table_node : Node → List ℕ → ℕ → ℕ → Option Node
split_table_node (node w nl cl cs ns) key pos v =
    if ltb node_prealloc nl
    then some (node w (nl + 1) cl cs (put ns (get_or key pos 0) (finish_tail key pos v)))
    else none

-- `sASSERT_NE(node->chars[i], new_char)` is checked at every element.
unfoldable pub split_multi_to_table : Node → List ℕ → ℕ → ℕ → Option Node
split_multi_to_table (node w nl cl cs ns) key pos v =
    let c = get_or key pos 0 in
    let t = fill_table cs ns (null_table 256) in
    if nl == cl && nl == node_prealloc
    then elim (index_of c cs) [
      | none ↦ some (node w (nl + 1) 0xff cs (put t c (finish_tail key pos v)))
      | some _ ↦ none
    ]
    else none

unfoldable pub split_multi_node : Node → List ℕ → ℕ → ℕ → Option Node
split_multi_node (node w nl cl cs ns) key pos v =
    if nl == cl && ltb nl node_prealloc
    then some (
        node w (nl + 1) (cl + 1) (cs ++ (get_or key pos 0 ∷ []))
          (push_back ns (finish_tail key pos v)))
    else none

-- `skit_trie_split_linear_node`, first with nothing in common, then with a common prefix of `n`
-- characters, where `split_rest` is the call of `skit_trie_split_node` on the rest of the node.
unfoldable pub split_linear_front : Node → List ℕ → ℕ → ℕ → Option Node
split_linear_front (node w nl cl [] ns) key pos v = none
split_linear_front (node w nl cl (c ∷ cs) ns) key pos v = elim (child ns 0) [
  | none ↦ none
  | some cnode0 ↦
      let node0 = insert_non0_str (length cs) cnode0 cs in
      let node1 = finish_tail key pos v in
      some (node w 2 2 (c ∷ get_or key pos 0 ∷ []) (cons node0 (cons node1 nil)))
]

unfoldable pub split_linear_back : (Node → Option Node) → Node → ℕ → Option Node
split_linear_back split_rest (node w nl cl cs ns) n =
    elim (split_rest (node none 1 (cl - n) (drop n cs) ns)) [
      | none ↦ none
      | some node0 ↦ some (node w nl n (take n cs) (cons node0 nil))
    ]

-- The body of `skit_trie_split_node`, over its call of itself.
unfoldable pub split_node_body : (Node → Option Node) → Node → ℕ → List ℕ → ℕ → ℕ → Option Node
split_node_body split_rest (node w nl cl cs ns) n key pos v =
    let m = node w nl cl cs ns in
    if n == 0 && pos == length key
    then some (set_value m v)
    else if nl == 1 && ltb 1 cl
    then (if n == 0 then split_linear_front m key pos v else split_linear_back split_rest m n)
    else if ltb nl node_prealloc
    then split_multi_node m key pos v
    else if nl == node_prealloc
    then split_multi_to_table m key pos v
    else split_table_node m key pos v

-- `skit_trie_split_node` calls itself only from a common prefix, and then with
-- `n_chars_into_node == 0`, so it is never more than two calls deep.
unfoldable pub split_node : Node → ℕ → List ℕ → ℕ → ℕ → Option Node
unfolding split_node_body split_linear_front split_linear_back split_table_node split_multi_to_table
    split_multi_node finish_tail fill_table null_table push_back insert_non0_str
split_node m n key pos v =
    split_node_body (λ node0. split_node_body (λ _. none) node0 0 key pos v) m n key pos v
