-- ===== src/Trie/Set/Branches.antt =====
-- The three ways in which `skit_trie_set` of survival_kit/trie.c stores a value: the first key of a
-- trie, a key that is there, and a new key.
use c_survival_kit.Common.{
  ℕ, ◌≤◌, ◌^◌, ◌+◌, ◌%◌, ◌≡◌, refl, ◌∙◌, Bool, true, false, ◌||◌, Option, none, some, List, [],
  arith, length, take, drop,
}
use c_survival_kit.Trie.Node.{Node, Nodes, NodePath, node, replace_at}
use c_survival_kit.Trie.Split.{set_value, empty_node, append_str}
use c_survival_kit.Trie.Find.{Coords, find, accumulate_key, exact_match, prefix_match, no_match}
use c_survival_kit.Trie.Contents.{
  contents, contents-replace_at, contents-replace_at_ne, Walk, node_at-Walk,
}
use c_survival_kit.Trie.Valid.{IsValid, Bytes, Walk-IsValid, replace_at-IsValid}
use c_survival_kit.Trie.Shared.{length-accumulate_key}
use c_survival_kit.Trie.Chain.{append_str-IsValid, append_str_adds, append_str_alone, leaf-IsValid}
use c_survival_kit.Trie.NextNode.{Closed}
use c_survival_kit.Trie.Search.{coords}
use c_survival_kit.Trie.Grow.Kinds.{split_node-Grown}
use c_survival_kit.Trie.Api.{
  Trie, set_first, set_new, set_existing, set_found, has_flag, set_key_return_buf, create,
  overwrite, icase,
}
use c_survival_kit.Trie.WellFormed.{contents_of, IsWellFormed}
use c_survival_kit.Trie.Set.Stored.{
  IsStored, stored, spelled_out, set_value-IsValid, contents-set_value, contents-set_value_ne,
}

module _ (t : Trie) (key : List ℕ) (v flags : ℕ) (w : IsWellFormed t) (bytes : Bytes key)
    (room : length key ≤ length t.key_return_buf) where
  pub set_first-IsStored :
      t.root ≡ none
      → has_flag flags create ≡ true
      → IsStored t key v ((t.length + 1) % 2 ^ 64) (set_first t key v flags)
  unfolding contents_of set_first
  set_first-IsStored unrooted mode =
      rw (set_first, mode)
        (stored t key v _ (append_str (set_value empty_node v) key)
          (accumulate_key t.key_return_buf 0 key) t.iterator_count w
          (append_str-IsValid (set_value empty_node v) key bytes (leaf-IsValid v))
          (append_str_adds v key) (λ other ne. append_str_alone v key other ne ∙ rw unrooted refl)
          (length-accumulate_key t.key_return_buf 0 key)
          (omega (arith, length-accumulate_key t.key_return_buf 0 key))
          (spelled_out key t.key_return_buf 0 (omega arith) room refl))

  module _ (root : Node) (rooted : t.root ≡ some root) (root_valid : IsValid root) where
    old_contents : (other : List ℕ) → contents root other ≡ contents_of t.root other
    unfolding contents_of
    old_contents other = rw rooted refl

    -- The node at which the key ends takes the new value.
    pub set_existing-IsStored :
        (p : NodePath) (place : Node) (pos into : ℕ) (stopped : Bool)
        → Walk root p key place []
        → take (length key) t.key_return_buf ≡ key
        → has_flag flags overwrite ≡ true
        → IsStored t key v t.length (set_existing t root key v flags (coords p pos into stopped))
    unfolding set_existing
    set_existing-IsStored p place pos into stopped walk spelled mode =
        rw (set_existing, mode, node_at-Walk walk)
          (stored t key v t.length (replace_at root p (set_value place v)) t.key_return_buf
            t.iterator_count w
            (replace_at-IsValid (set_value-IsValid place v (Walk-IsValid walk root_valid)) walk
              root_valid)
            (contents-replace_at (set_value place v) walk ∙ contents-set_value place v)
            (λ other ne.
              contents-replace_at_ne (set_value place v) (contents-set_value_ne place v) walk other
                ne
              ∙ old_contents other)
            refl room spelled)

    -- The node at which the search has stopped is split.
    pub set_new-IsStored :
        (p : NodePath) {o : Option ℕ} {nl cl : ℕ} {cs : List ℕ} {ns : Nodes} (base into : ℕ)
        → Walk root p key (node o nl cl cs ns) (drop base key)
        → Closed o nl cl cs ns (drop base key) into
        → base + into ≤ length key
        → take (base + into) t.key_return_buf ≡ take (base + into) key
        → has_flag flags create ≡ true
        → IsStored t key v
            ((t.length + 1) % 2 ^ 64)
            (set_new t root key v flags (coords p (base + into) into true))
    unfolding set_new
    set_new-IsStored p {o} {nl} {cl} {cs} {ns} base into walk stop within spelled mode =
        let g =
          split_node-Grown o nl cl cs ns into key base v bytes within (Walk-IsValid walk root_valid)
            stop in
        let buf = accumulate_key t.key_return_buf (base + into) (drop (base + into) key) in
        let same = length-accumulate_key t.key_return_buf (base + into) (drop (base + into) key) in
        rw (set_new, mode, node_at-Walk walk, g.result)
          (stored t key v _ (replace_at root p g.grown) buf t.iterator_count w
            (replace_at-IsValid g.grown_valid walk root_valid)
            (contents-replace_at g.grown walk ∙ g.adds)
            (λ other ne. contents-replace_at_ne g.grown g.keeps walk other ne ∙ old_contents other)
            same (omega (arith, same))
            (spelled_out key t.key_return_buf (base + into) within room spelled))

-- What the call does once the search has ended.
module _ (t : Trie) (root : Node) (key : List ℕ) (v flags : ℕ)
    (sensitive : has_flag flags icase ≡ false) where
  pub set_found-hit :
      {c : Coords} {buf : List ℕ}
      → find (some root) key true t.key_return_buf ≡ some (c, buf)
      → exact_match root c (length key) ≡ true
      → set_found t root key v flags ≡ set_existing (set_key_return_buf t buf) root key v flags c
  unfolding set_found
  set_found-hit r hit = rw (set_found, sensitive, r, hit) refl

  pub set_found-miss :
      {c : Coords} {buf : List ℕ}
      → find (some root) key true t.key_return_buf ≡ some (c, buf)
      → exact_match root c (length key) ≡ false
      → (prefix_match root c (length key) || no_match c (length key)) ≡ true
      → set_found t root key v flags ≡ set_new (set_key_return_buf t buf) root key v flags c
  unfolding set_found
  set_found-miss r miss other = rw (set_found, sensitive, r, miss, other) refl
