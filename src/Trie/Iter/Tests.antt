-- ===== src/Trie/Iter/Tests.antt =====
-- Runs of the iterator of survival_kit/trie.c, and the cases at which its theorems are applied.
use c_survival_kit.Common.{ℕ, suc, ◌≡◌, refl, none, some, List, [], ◌∷◌, arith, length, inl}
use c_survival_kit.Common.Int.{int32, pos, ◌+ℤ◌}
use c_survival_kit.Trie.Node.{Node, node, nil, cons}
use c_survival_kit.Trie.Find.{accumulate_key, find, no_match}
use c_survival_kit.Trie.Contents.{position}
use c_survival_kit.Trie.Valid.{IsValid, valid, leaf, narrow, multi, empty, filled}
use c_survival_kit.Trie.Api.{Trie, returned, thrown, write_in_iteration, set_key, has_flag}
use c_survival_kit.Trie.Iter.{Iter, iter_new, iter_next, iter_free, iter_pass}
use c_survival_kit.Trie.Iter.Entries.{
  Entries, height, height_from, height_at, longest, edges, char_edges, slot,
}
use c_survival_kit.Trie.Iter.Pending.{IsIter, pending, passes}
use c_survival_kit.Trie.Iter.Next.{list_all, list_all-pending}
use c_survival_kit.Trie.Iter.Listing.{IsListing}
use c_survival_kit.Trie.Iter.New.{iter_new-lists}
use c_survival_kit.Trie.Iter.Order.{InOrder}
use c_survival_kit.Trie.Iter.Guard.{set_key-iter_new}

-- The keys "ab", "abx" and "abcd", and what the allocator leaves in the key buffer.
abbrev three_keys : Node
three_keys = node none 1 2 (97 ∷ 98 ∷ []) (
    cons
      (node (some 6) 2 2 (120 ∷ 99 ∷ []) (
        cons (node (some 8) 0 0 [] nil)
          (cons (node none 1 1 (100 ∷ []) (cons (node (some 7) 0 0 [] nil) nil)) nil)))
      nil)

abbrev trie : Trie
trie = record {
  length = 3;
  key_return_buf = 1 ∷ 2 ∷ 3 ∷ 4 ∷ [];
  root = some three_keys;
  iterator_count = pos 0;
}

abbrev junk : List ℕ
junk = 9 ∷ 9 ∷ 9 ∷ 9 ∷ []

three_keys-IsValid : IsValid three_keys
unfolding position
three_keys-IsValid =
    valid {cs = 97 ∷ 98 ∷ []}
      (narrow refl refl (omega arith) (omega arith) (omega arith, (omega arith, tt)) tt)
      (filled
        (valid {cs = 120 ∷ 99 ∷ []}
          (multi (omega arith) (omega arith) refl refl (refl, (refl, tt))
            (omega arith, (omega arith, tt)) tt)
          (filled (valid (leaf refl refl refl tt) empty) (
            filled
              (valid {cs = 100 ∷ []}
                (narrow refl refl (omega arith) (omega arith) (omega arith, tt) tt)
                (filled (valid (leaf refl refl refl tt) empty) empty))
              empty)))
        empty)

abbrev begun : ℕ → List ℕ → Iter
begun at buf = record {
  frames = record { node = three_keys; pos = at; current_char = 0 } ∷ [];
  prev_depth = 0;
  key_buffer = buf;
}

-- All keys, in order.
run_list :
    list_all 4 3000 (begun 0 junk)
    ≡ some ((97 ∷ 98 ∷ [], 6) ∷ (97 ∷ 98 ∷ 99 ∷ 100 ∷ [], 7) ∷ (97 ∷ 98 ∷ 120 ∷ [], 8) ∷ [])
unfolding list_all iter_next iter_pass accumulate_key
run_list = refl

begun-IsIter : IsIter (begun 0 junk)
unfolding height_from height_at longest edges char_edges slot position
begun-IsIter = record {
  short = omega arith;
  frames_good = (
    omega arith,
    record {
      is_valid = three_keys-IsValid;
      char_within = omega arith;
      fits = omega arith;
      phase = λ l. inl refl;
    },
    tt,
  );
}

list_all-pending_example :
    list_all
      (suc (length (pending (begun 0 junk))))
      (suc (passes (begun 0 junk).frames))
      (begun 0 junk)
    ≡ some (pending (begun 0 junk))
list_all-pending_example =
    list_all-pending (suc (length (pending (begun 0 junk)))) (suc (passes (begun 0 junk).frames))
      (begun 0 junk) begun-IsIter (omega arith) (omega arith)

-- An iteration from the prefix "a", which ends inside the first node.
iter_new-lists_example :
    (it : Iter) × (es : Entries) × ((iter_new junk trie (97 ∷ []) 0).1 ≡ returned it)
    × (list_all (suc (length es)) (suc (passes it.frames)) it ≡ some es)
    × IsListing three_keys (97 ∷ []) es
    × InOrder es
unfolding has_flag height height_at longest edges char_edges slot position
iter_new-lists_example =
    iter_new-lists junk trie three_keys (97 ∷ []) 0 refl three_keys-IsValid (omega arith)
      (omega arith) (omega arith) (omega arith) refl refl

-- An iterator over the empty trie, and an attempt to add a key meanwhile.
abbrev empty_trie : Trie
empty_trie = record { length = 0; key_return_buf = []; root = none; iterator_count = pos 0 }

abbrev watched : Trie
watched = record { length = 0; key_return_buf = []; root = none; iterator_count = pos 1 }

abbrev idle : Iter
idle = record { frames = []; prev_depth = 0; key_buffer = [] }

empty_begins : iter_new junk empty_trie [] 0 ≡ (watched, returned idle)
unfolding iter_new has_flag find no_match ◌+ℤ◌ int32
empty_begins = refl

set_key-iter_new_example :
    (set_key junk watched (97 ∷ []) 5 0x4004 ≡ (watched, thrown write_in_iteration))
    × ((iter_free watched (some idle.key_buffer)).0.iterator_count ≡ pos 0)
set_key-iter_new_example =
    set_key-iter_new junk junk empty_trie [] 0 0 watched idle (97 ∷ []) 5 0x4004 refl (omega arith)
      empty_begins
