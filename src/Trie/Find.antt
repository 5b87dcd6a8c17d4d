-- ===== src/Trie/Find.antt =====
-- Lookup in survival_kit/trie.c: `skit_trie_coords` and its three readings, `skit_trie_next_node`
-- and the two forms of `skit_trie_find`. A result `none` stands for an assertion that fails, a
-- pointer that leads nowhere, or fuel that runs out.
use c_survival_kit.Common.{
  ℕ, zero, suc, ◌+◌, ◌%◌, ◌^◌, Bool, true, false, not, ◌&&◌, ◌||◌, Option, none, some, List, [],
  ◌∷◌, ◌++◌, leb, ltb, ◌==◌, if◌then◌else◌, get_or, set, take, length,
}
use c_survival_kit.Common.Int.{is_zero}
use c_survival_kit.Ascii.{to_lower, to_upper, ccmp}
use c_survival_kit.Trie.Node.{
  Node, Nodes, node, have_value, child, NodePath, node_at, node_prealloc,
}

pub data CaseMode : Type 0 where
  sensitive try_upper try_lower : CaseMode

abbrev pub is_sensitive : CaseMode → Bool
is_sensitive sensitive = true
is_sensitive _ = false

-- The character that a multi node or a table node is asked for.
unfoldable pub fold_case : CaseMode → ℕ → ℕ
unfolding to_lower to_upper
fold_case sensitive c = c
fold_case try_upper c = to_upper c
fold_case try_lower c = to_lower c

-- A conversion to `uint32_t`, the type of `pos`.
unfoldable pub uint32 : ℕ → ℕ
uint32 n = n % 2 ^ 32

-- `skit_trie_coords`; a `node` of `none` is NULL. `n_chars_into_node` counts characters of one node,
-- of which there are twelve at most.
pub record Coords : Type 0 where
  pub node : Option NodePath
  pub pos : ℕ
  pub n_chars_into_node : ℕ
  pub lookup_stopped : Bool

abbrev pub stop_lookup : Option NodePath → ℕ → ℕ → Coords
stop_lookup p pos n = record {
  node = p;
  pos = uint32 pos;
  n_chars_into_node = n;
  lookup_stopped = true;
}

abbrev pub continue_lookup : NodePath → ℕ → Coords
continue_lookup p pos = record {
  node = some p;
  pos = uint32 pos;
  n_chars_into_node = 0;
  lookup_stopped = false;
}

-- `coords.node`, followed from the root.
unfoldable pub target : Node → Coords → Option Node
target root c = elim c.node [ none ↦ none | some p ↦ node_at root p ]

-- The test `coords.node != NULL && coords.node->have_value`.
abbrev pub holds_value : Option Node → Bool
holds_value none = false
holds_value (some n) = have_value n

unfoldable pub exact_match : Node → Coords → ℕ → Bool
exact_match root c key_len = c.pos == key_len && holds_value (target root c)

unfoldable pub prefix_match : Node → Coords → ℕ → Bool
prefix_match root c key_len =
    c.lookup_stopped && (key_len == c.pos && not (holds_value (target root c)))

unfoldable pub no_match : Coords → ℕ → Bool
no_match c key_len = elim c.node [ none ↦ true | some p ↦ c.lookup_stopped && ltb c.pos key_len ]

-- `memcpy` of a fragment into the key buffer.
unfoldable pub accumulate_key : List ℕ → ℕ → List ℕ → List ℕ
accumulate_key buf pos [] = buf
accumulate_key buf pos (c ∷ cs) = accumulate_key (set buf pos c) (suc pos) cs

-- The loop over a narrow node's characters: whether all of them agree with the key from `pos` on,
-- and the number of those that do.
unfoldable pub match_chars : Bool → List ℕ → ℕ → List ℕ → ℕ → Bool × ℕ
match_chars cs key pos [] i = (true, i)
match_chars cs key pos (c ∷ chars) i =
    let rest = match_chars cs key (suc pos) chars (suc i) in
    if leb (length key) pos || not (is_zero (ccmp (get_or key pos 0) c cs))
    then (false, i)
    else rest

-- The index of the first character that is equal to `c`.
unfoldable pub index_of : ℕ → List ℕ → Option ℕ
index_of c [] = none
index_of c (d ∷ chars) =
    let rest = index_of c chars in
    if is_zero (ccmp d c true) then some 0 else elim rest [ none ↦ none | some i ↦ some (suc i) ]

abbrev pub Found : Type 0
Found = Option (Coords × List ℕ)

-- The three kinds of node that have children, each from the test of its kind on.
unfoldable pub next_narrow : CaseMode → List ℕ → NodePath → List ℕ → ℕ → List ℕ → Coords × List ℕ
next_narrow mode chars p key pos buf =
    let (all, i) = match_chars (is_sensitive mode) key pos chars 0 in
    if all
    then (continue_lookup (p ++ (0 ∷ [])) (pos + i), accumulate_key buf pos chars)
    else (stop_lookup (some p) (pos + i) i, accumulate_key buf pos (take i chars))

unfoldable pub next_multi : CaseMode → List ℕ → NodePath → List ℕ → ℕ → List ℕ → Coords × List ℕ
next_multi mode chars p key pos buf =
    if leb (length key) pos
    then (stop_lookup (some p) pos 0, buf)
    else elim (index_of (fold_case mode (get_or key pos 0)) chars) [
      | none ↦ (stop_lookup (some p) pos 0, buf)
      | some i ↦ (
        continue_lookup (p ++ (i ∷ [])) (suc pos),
        accumulate_key buf pos (get_or chars i 0 ∷ []),
      )
    ]

unfoldable pub next_table : CaseMode → Nodes → NodePath → List ℕ → ℕ → List ℕ → Coords × List ℕ
next_table mode ns p key pos buf =
    if leb (length key) pos
    then (stop_lookup (some p) pos 0, buf)
    else let c = fold_case mode (get_or key pos 0) in
      elim (child ns c) [
        | none ↦ (stop_lookup (some p) pos 0, buf)
        | some _ ↦ (
          continue_lookup (p ++ (c ∷ [])) (suc pos),
          accumulate_key buf pos (get_or key pos 0 ∷ []),
        )
      ]

-- `skit_trie_next_node` at the node `*p`.
unfoldable pub next_node : CaseMode → Node → NodePath → List ℕ → ℕ → List ℕ → Found
unfolding next_narrow next_multi next_table
next_node mode (node v nodes_len chars_len chars ns) p key pos buf =
    if nodes_len == 0
    then some (stop_lookup (some p) pos 0, buf)
    else if nodes_len == 1
    then some (next_narrow mode chars p key pos buf)
    else if leb chars_len node_prealloc
    then (if chars_len == nodes_len then some (next_multi mode chars p key pos buf) else none)
    else some (next_table mode ns p key pos buf)

-- One call of `skit_trie_next_node`, from the coordinates reached so far.
unfoldable pub next_from : CaseMode → Node → List ℕ → Coords → List ℕ → Found
next_from mode root key c buf = elim c.node [
  | none ↦ none
  | some p ↦ elim (node_at root p) [ none ↦ none | some n ↦ next_node mode n p key c.pos buf ]
]

-- The `while ( 1 )` loop of the case-sensitive search.
unfoldable pub find_loop : ℕ → Node → List ℕ → Coords → List ℕ → Found
unfolding next_from exact_match target
find_loop zero root key c buf = none
find_loop (suc fuel) root key c buf = elim (next_from sensitive root key c buf) [
  | none ↦ none
  | some (c', buf') ↦
      let rest = find_loop fuel root key c' buf' in
      if c'.lookup_stopped || exact_match root c' (length key) then some (c', buf') else rest
]

-- `skit_trie_find_icase_r`; `find_rest` is the call of `skit_trie_find_icase` at its end.
unfoldable pub find_icase_r :
    (Node → List ℕ → Coords → List ℕ → Found) → Node → List ℕ → Coords → CaseMode → List ℕ → Found
find_icase_r find_rest root key c mode buf = elim (next_from mode root key c buf) [
  | none ↦ none
  | some (c', buf') ↦
      let rest = find_rest root key c' buf' in
      if c'.lookup_stopped || exact_match root c' (length key) then some (c', buf') else rest
]

-- The choice between the two attempts of `skit_trie_find_icase`.
unfoldable pub further : Coords → Coords × List ℕ → Coords × List ℕ
further a (b, buf) = if ltb b.pos a.pos then (a, buf) else (b, buf)

unfoldable pub find_icase : ℕ → Node → List ℕ → Coords → List ℕ → Found
unfolding find_icase_r further next_from exact_match target
find_icase zero root key c buf = none
find_icase (suc fuel) root key c buf =
    elim (find_icase_r (find_icase fuel) root key c try_upper buf) [
      | none ↦ none
      | some (a, buf') ↦
          let second = find_icase_r (find_icase fuel) root key c try_lower buf' in
          if a.lookup_stopped && not (exact_match root a (length key))
          then elim second [ none ↦ none | some b ↦ some (further a b) ]
          else some (a, buf')
    ]

-- `skit_trie_find`. Every round but the last consumes a character, so two rounds more than the key
-- has characters are enough.
unfoldable pub find : Option Node → List ℕ → Bool → List ℕ → Found
find none key case_sensitive buf = some (stop_lookup none 0 0, buf)
find (some root) key case_sensitive buf =
    let start : Coords = continue_lookup [] 0 in
    if case_sensitive
    then find_loop (length key + 2) root key start buf
    else find_icase (length key + 2) root key start buf
