-- ===== src/Trie/Iter/New.antt =====
-- `skit_trie_iter_new` (survival_kit/trie.c): where an iteration begins.
use mathlib.Core.Path.{subst}
use c_survival_kit.Common.{
  ℕ, suc, ◌+◌, ◌≤◌, ◌<◌, ◌^◌, ◌≡◌, sym, ◌∙◌, inl, inr, true, false, Option, some, List, [],
  if◌then◌else◌, length, take, arith, Bool-cases,
}
use c_survival_kit.Common.Int.{ℤ}
use c_survival_kit.Trie.Node.{Node}
use c_survival_kit.Trie.Find.{Coords, find, no_match}
use c_survival_kit.Trie.Valid.{IsValid}
use c_survival_kit.Trie.Search.{coords, find-Ended}
use c_survival_kit.Trie.Iter.{Iter, iter_accumulate_key, iter_new, first_frame}
use c_survival_kit.Trie.Iter.Entries.{Entries, height}
use c_survival_kit.Trie.Api.{Trie, returned, has_flag, create, icase, overwrite, allowed}
use c_survival_kit.Trie.Get.{enforce_valid_flags-passes}
use c_survival_kit.Trie.Iter.Pending.{passes, pending}
use c_survival_kit.Trie.Iter.Next.{list_all, list_all-pending}
use c_survival_kit.Trie.Iter.Order.{InOrder}
use c_survival_kit.Trie.Iter.Listing.{IsListing}
use c_survival_kit.Trie.Iter.Begin.{Begins-Halt, begun}

trie_at : ℕ → List ℕ → Option Node → ℤ → Trie
trie_at len buf root count = record {
  length = len;
  key_return_buf = buf;
  root = root;
  iterator_count = count;
}

iter_new_found :
    (fresh : List ℕ) (len : ℕ) (buf : List ℕ) (root : Node) (count : ℤ) (prefix : List ℕ)
    (flags : ℕ) (c : Coords) (out : List ℕ)
    → has_flag flags (create + overwrite) ≡ false
    → has_flag flags icase ≡ false
    → find (some root) prefix true buf ≡ some (c, out)
    → (iter_new fresh (trie_at len buf (some root) count) prefix flags).1 ≡ (
        if no_match c (length prefix)
        then returned (record { frames = []; prev_depth = 0; key_buffer = take (length buf) fresh })
        else first_frame
            (iter_accumulate_key
              (record { frames = []; prev_depth = 0; key_buffer = take (length buf) fresh })
              0
              (take c.pos out))
            root
            c)
unfolding iter_new trie_at
iter_new_found fresh len buf root count prefix flags c out no_co no_i found =
    elim (Bool-cases (no_match c (length prefix))) [
      | inl nothing ↦ rw (no_i, enforce_valid_flags-passes flags allowed, no_co, found, nothing)
      | inr something ↦ rw (no_i, enforce_valid_flags-passes flags allowed, no_co, found, something)
    ]

-- On a trie with a valid tree and a returned-key buffer as long as the tree is high, and with
-- none of the flags c, i and o, `skit_trie_iter_new` returns an iterator, and a loop of
-- `skit_trie_iter_next` then ends and lists exactly the keys that begin with the prefix, with
-- their values, each once and in the order of their characters. The buffer and the prefix have
-- fewer than 2^32 characters, and the allocator gives a key buffer as long as the returned-key
-- buffer. The loop makes one call more than there are entries, and each call takes at most as
-- many passes as the frames of the first iterator have left.
pub iter_new-lists :
    (fresh : List ℕ) (t : Trie) (root : Node) (prefix : List ℕ) (flags : ℕ)
    → t.root ≡ some root
    → IsValid root
    → height root ≤ length t.key_return_buf
    → length t.key_return_buf < 2 ^ 32
    → length t.key_return_buf ≤ length fresh
    → length prefix < 2 ^ 32
    → has_flag flags (create + overwrite) ≡ false
    → has_flag flags icase ≡ false
    → (it : Iter) × (es : Entries) × ((iter_new fresh t prefix flags).1 ≡ returned it)
      × (list_all (suc (length es)) (suc (passes it.frames)) it ≡ some es)
      × IsListing root prefix es
      × InOrder es
unfolding trie_at
iter_new-lists fresh t root prefix flags has_root is fits short room short_prefix no_co no_i =
    let e = find-Ended root prefix t.key_return_buf short_prefix is in
    let (it, got, is_it, listing, order) =
      Begins-Halt root prefix t.key_return_buf fresh is short fits room e.path e.base e.into
        e.stopped e.place e.out e.walk e.halt e.within e.buffered in
    let began : (iter_new fresh t prefix flags).1
        ≡ begun root prefix t.key_return_buf fresh is short fits room e.path (e.base + e.into)
            e.into e.stopped e.out =
      subst
        (λ r.
          (iter_new fresh (trie_at t.length t.key_return_buf r t.iterator_count) prefix flags).1
          ≡ begun root prefix t.key_return_buf fresh is short fits room e.path (e.base + e.into)
              e.into e.stopped e.out)
        (sym has_root)
        (iter_new_found fresh t.length t.key_return_buf root t.iterator_count prefix flags
          (coords e.path (e.base + e.into) e.into e.stopped) e.out no_co no_i e.result) in
    (
      it,
      pending it,
      began ∙ got,
      list_all-pending (suc (length (pending it))) (suc (passes it.frames)) it is_it (omega arith)
          (omega arith),
      listing,
      order,
    )
