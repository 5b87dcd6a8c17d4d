-- ===== src/Trie/RoundTrip.antt =====
-- `skit_trie_set` and then `skit_trie_get` of survival_kit/trie.c.
use c_survival_kit.Common.{
  ℕ, ◌≤◌, ◌<◌, ◌^◌, ◌+◌, ◌≡◌, ◌≢◌, ◌∙◌, inl, inr, true, false, some, List, length, Option-cases,
}
use c_survival_kit.Common.Int.{pos, ltb_ℤ}
use c_survival_kit.Trie.Valid.{Bytes}
use c_survival_kit.Trie.Api.{Trie, get, set_key, has_flag, create, overwrite, icase}
use c_survival_kit.Trie.WellFormed.{contents_of, IsWellFormed, is_inside}
use c_survival_kit.Trie.Get.{IsRead, get-present}
use c_survival_kit.Trie.Set.{set-new, set-existing}
use c_survival_kit.Trie.Set.Stored.{IsStored}

module _ (fresh : List ℕ) (t : Trie) (key : List ℕ) (v flags : ℕ) (w : IsWellFormed t)
    (enough : length key ≤ length fresh) (short : length key < 2 ^ 32) (bytes : Bytes key)
    (outside : is_inside t.root key ≡ false) (sensitive : has_flag flags icase ≡ false)
    (idle : ltb_ℤ (pos 0) t.iterator_count ≡ false)
    (mode : has_flag flags (create + overwrite) ≡ true) (c : has_flag flags create ≡ true)
    (o : has_flag flags overwrite ≡ true) (get_flags : ℕ)
    (get_sensitive : has_flag get_flags icase ≡ false) where
  -- With both flags the call stores the value, whether the key is new or not.
  is_stored : (count : ℕ) × IsStored t key v count (set_key fresh t key v flags)
  is_stored = elim (Option-cases (contents_of t.root key)) [
    | inl e ↦ (_, set-new fresh t key v flags w enough short sensitive idle mode bytes e outside c)
    | inr (old, e) ↦
        (_, set-existing fresh t key v flags w enough short sensitive idle mode bytes e o)
  ]

  -- A case-sensitive `skit_trie_set` with the flags c and o, on a well-formed trie that no
  -- iterator walks, followed by a case-sensitive `skit_trie_get` of the same key of bytes,
  -- returns that key and the stored value. The key has fewer than 2^32 characters and does not
  -- end inside a narrow node that has a value, and the allocator gives as many bytes as the key
  -- needs.
  pub get-set :
      IsRead
        (set_key fresh t key v flags).0
        (get (set_key fresh t key v flags).0 (some key) true get_flags)
        (some key, v)
  get-set =
      let s = is_stored.1 in
      get-present (set_key fresh t key v flags).0 key get_flags v s.stays short get_sensitive
        s.stores

  -- After the same call of `skit_trie_set`, a case-sensitive `skit_trie_get` of any other key
  -- that the trie held before returns that key and the value that it had.
  pub get-set_ne :
      (other : List ℕ) {x : ℕ}
      → other ≢ key
      → length other < 2 ^ 32
      → contents_of t.root other ≡ some x
      → IsRead
          (set_key fresh t key v flags).0
          (get (set_key fresh t key v flags).0 (some other) true get_flags)
          (some other, x)
  get-set_ne other {x} ne other_short e =
      let s = is_stored.1 in
      get-present (set_key fresh t key v flags).0 other get_flags x s.stays other_short
        get_sensitive (s.keeps other ne ∙ e)
