-- ===== src/Trie/NextNode.antt =====
-- `skit_trie_next_node` of survival_kit/trie.c on a valid node, in a case-sensitive search: each
-- call stops or moves to a child.
use mathlib.Core.Path.{subst}
use c_survival_kit.Common.{
  ℕ, suc, ◌+◌, ◌≤◌, ◌<◌, ◌≡◌, refl, sym, inl, inr, true, Option, none, some, List, [], ◌∷◌, ◌++◌,
  leb, arith, get_or, take, take_all, drop, length, drop-eq-cons, drop_all, drop_add, length-take,
  length-drop, Bool-cases, Option-cases,
}
use c_survival_kit.Trie.Node.{Node, Nodes, node, child, NodePath, node_prealloc}
use c_survival_kit.Trie.Find.{
  stop_lookup, continue_lookup, Found, sensitive, fold_case, next_narrow, next_multi, next_table,
  next_node, accumulate_key,
}
use c_survival_kit.Trie.Contents.{
  route, route_narrow, route_multi, route_table, position, strip_prefix,
}
use c_survival_kit.Trie.Valid.{Shape, leaf, narrow, multi, table, Filled, Filled-child}
use c_survival_kit.Trie.Shared.{
  shared, shared-le, match_chars-shared, strip_prefix-shared, take-shared, index_of-position,
  get_or-position, position-lt, length-accumulate_key, accumulate_key-take,
}

-- The node has no child for the rest of a key, of which it shares `n` characters.
pub data Closed (v : Option ℕ) (nl cl : ℕ) (cs : List ℕ) (ns : Nodes) (rest : List ℕ) (n : ℕ)
    : Type 0 where
  at_leaf : nl ≡ 0 → n ≡ 0 → Closed v nl cl cs ns rest n
  in_narrow : nl ≡ 1 → n ≡ shared cs rest → n < length cs → Closed v nl cl cs ns rest n
  at_end : 1 < nl → n ≡ 0 → rest ≡ [] → Closed v nl cl cs ns rest n
  no_char :
      {k : ℕ} {key : List ℕ}
      → 1 < nl
      → nl ≤ node_prealloc
      → cl ≡ nl
      → n ≡ 0
      → rest ≡ k ∷ key
      → position k cs ≡ none
      → Closed v nl cl cs ns rest n
  no_slot :
      {k : ℕ} {key : List ℕ}
      → node_prealloc < nl
      → cl ≡ 0xff
      → n ≡ 0
      → rest ≡ k ∷ key
      → child ns k ≡ none
      → Closed v nl cl cs ns rest n

-- The buffer keeps its length, and goes from spelling the key up to `pos` to spelling it up to `end`.
pub record Buffered (key : List ℕ) (pos end : ℕ) (buf buf' : List ℕ) : Type 0 where
  pub same_length : length buf' ≡ length buf
  pub spells : length key ≤ length buf → take pos buf ≡ take pos key → take end buf' ≡ take end key

unchanged : {key : List ℕ} {pos end : ℕ} (buf : List ℕ) → end ≡ pos → Buffered key pos end buf buf
unchanged buf e = record { same_length = refl; spells = λ h s. rw e s }

module _ (key : List ℕ) (pos : ℕ) (buf : List ℕ) where
  extended :
      (frag : List ℕ) (end : ℕ)
      → end ≡ pos + length frag
      → end ≤ length key
      → frag ≡ take (length frag) (drop pos key)
      → Buffered key pos end buf (accumulate_key buf pos frag)
  extended frag end e h f = record {
    same_length = length-accumulate_key buf pos frag;
    spells = λ long s. accumulate_key-take key buf pos frag end e (omega arith) h s f;
  }

  module _ (p : NodePath) (v : Option ℕ) (nl cl : ℕ) (cs : List ℕ) (ns : Nodes) where
    -- The kind of node that `skit_trie_next_node` takes it for.
    next_node-leaf :
        nl ≡ 0
        → next_node sensitive (node v nl cl cs ns) p key pos buf
          ≡ some (stop_lookup (some p) pos 0, buf)
    unfolding next_node
    next_node-leaf e = rw e

    next_node-narrow :
        nl ≡ 1
        → next_node sensitive (node v nl cl cs ns) p key pos buf
          ≡ some (next_narrow sensitive cs p key pos buf)
    unfolding next_node
    next_node-narrow e = rw e

    next_node-multi :
        1 < nl
        → nl ≤ node_prealloc
        → cl ≡ nl
        → next_node sensitive (node v nl cl cs ns) p key pos buf
          ≡ some (next_multi sensitive cs p key pos buf)
    unfolding next_node
    next_node-multi many few e = ground arith

    next_node-table :
        node_prealloc < nl
        → cl ≡ 0xff
        → next_node sensitive (node v nl cl cs ns) p key pos buf
          ≡ some (next_table sensitive ns p key pos buf)
    unfolding next_node
    next_node-table many e = ground arith

    pub data Next (r : Found) : Type 0 where
      halts :
          (n : ℕ) (buf' : List ℕ)
          → r ≡ some (stop_lookup (some p) (pos + n) n, buf')
          → Closed v nl cl cs ns (drop pos key) n
          → pos + n ≤ length key
          → Buffered key pos (pos + n) buf buf'
          → Next r
      moves :
          (i end : ℕ) (kid : Node) (buf' : List ℕ)
          → r ≡ some (continue_lookup (p ++ (i ∷ [])) end, buf')
          → route nl cl cs (drop pos key) ≡ some (i, drop end key)
          → child ns i ≡ some kid
          → pos < end
          → end ≤ length key
          → Buffered key pos end buf buf'
          → Next r

    stays :
        {r : Found}
        → pos ≤ length key
        → r ≡ some (stop_lookup (some p) pos 0, buf)
        → Closed v nl cl cs ns (drop pos key) 0
        → Next r
    stays h e c = halts 0 buf (ground arith) c (omega arith) (unchanged buf (omega arith))

    next_narrow-Next :
        nl ≡ 1
        → 0 < length cs
        → Filled 1 ns
        → pos ≤ length key
        → Next (some (next_narrow sensitive cs p key pos buf))
    unfolding next_narrow
    next_narrow-Next one some_chars f h =
        let n = shared cs (drop pos key) in
        let bounds = shared-le cs (drop pos key) in
        let loop = match_chars-shared key pos cs 0 in
        let stem = take-shared cs (drop pos key) in
        elim (Bool-cases (leb (length cs) n)) [
          | inl all ↦
              let (kid, at) = only_child one f in
              moves 0 (pos + length cs) kid (accumulate_key buf pos cs)
                (ground (arith, loop, bounds))
                (route_narrow nl cl cs (drop pos key) _ one (whole_prefix all)) at (omega arith)
                (ground (arith, bounds, length-drop pos key))
                (extended cs (pos + length cs) refl (ground (arith, bounds, length-drop pos key))
                  (ground (arith, bounds, stem, take_all n cs)))
          | inr part ↦
              halts n (accumulate_key buf pos (take n cs)) (ground (arith, loop, bounds))
                (in_narrow one refl (ground arith)) (ground (arith, bounds, length-drop pos key))
                (extended (take n cs) (pos + n) (ground (arith, bounds, length-take n cs))
                  (ground (arith, bounds, length-drop pos key))
                  (ground (arith, bounds, stem, length-take n cs)))
        ]
      where
        only_child : nl ≡ 1 → Filled 1 ns → (kid : Node) × (child ns 0 ≡ some kid)
        only_child one f = Filled-child 1 ns 0 f (omega arith)

        whole_prefix :
            leb (length cs) (shared cs (drop pos key)) ≡ true
            → strip_prefix cs (drop pos key) ≡ some (drop (pos + length cs) key)
        whole_prefix all = ground (
          arith,
          shared-le cs (drop pos key),
          strip_prefix-shared cs (drop pos key),
          drop_add pos (length cs) (pos + length cs) key refl,
        )

    next_multi-Next :
        1 < nl
        → cl ≡ nl
        → nl ≤ node_prealloc
        → length cs ≡ nl
        → Filled nl ns
        → pos ≤ length key
        → Next (some (next_multi sensitive cs p key pos buf))
    unfolding next_multi fold_case
    next_multi-Next many same few chars f h = elim (Bool-cases (leb (length key) pos)) [
      | inl out ↦ stays h (rw out) (at_end many refl (drop_all pos key (ground arith)))
      | inr more ↦
          let c = get_or key pos 0 in
          let front = drop-eq-cons pos key 0 (ground arith) in
          elim (Option-cases (position c cs)) [
            | inl absent ↦
                stays h (rw (more, index_of-position, absent))
                  (no_char many (omega arith) same refl front absent)
            | inr (i, at) ↦
                let (kid, child_at) =
                  Filled-child nl ns i f (omega (arith, position-lt c cs i at)) in
                moves i (suc pos) kid (accumulate_key buf pos (get_or cs i 0 ∷ []))
                  (rw (more, index_of-position, at))
                  (rw (front, route_multi nl cl cs c (drop (suc pos) key) many (omega arith), at))
                  child_at (omega arith) (ground arith)
                  (extended (get_or cs i 0 ∷ []) (suc pos) (omega arith) (ground arith)
                    (rw (front, get_or-position c cs at)))
          ]
    ]

    next_table-Next :
        node_prealloc < nl
        → cl ≡ 0xff
        → pos ≤ length key
        → Next (some (next_table sensitive ns p key pos buf))
    unfolding next_table fold_case
    next_table-Next many same h = elim (Bool-cases (leb (length key) pos)) [
      | inl out ↦ stays h (rw out) (at_end (omega arith) refl (drop_all pos key (ground arith)))
      | inr more ↦
          let c = get_or key pos 0 in
          let front = drop-eq-cons pos key 0 (ground arith) in
          elim (Option-cases (child ns c)) [
            | inl absent ↦ stays h (rw (more, absent)) (no_slot many same refl front absent)
            | inr (kid, at) ↦
                moves c (suc pos) kid (accumulate_key buf pos (c ∷ [])) (rw (more, at))
                  (rw (front, route_table nl cl cs c (drop (suc pos) key) (omega arith) same)) at
                  (omega arith) (ground arith)
                  (extended (c ∷ []) (suc pos) (omega arith) (ground arith) (rw front))
          ]
    ]

    -- On a valid node the call returns, and it stops or moves.
    pub next_node-Next :
        Shape nl cl cs ns
        → pos ≤ length key
        → Next (next_node sensitive (node v nl cl cs ns) p key pos buf)
    next_node-Next (leaf a b c f) h = stays h (next_node-leaf a) (at_leaf a refl)
    next_node-Next (narrow a b c d y f) h =
        subst Next (sym (next_node-narrow a)) (next_narrow-Next a (omega arith) f h)
    next_node-Next (multi a b c d u y f) h =
        subst Next (sym (next_node-multi a b c)) (next_multi-Next a c b d f h)
    next_node-Next (table a b s o) h =
        subst Next (sym (next_node-table a b)) (next_table-Next a b h)
