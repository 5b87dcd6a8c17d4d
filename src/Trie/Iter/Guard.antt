-- ===== src/Trie/Iter/Guard.antt =====
-- A live iterator keeps the trie from being written (survival_kit/trie.c).
use c_survival_kit.Common.{ℕ, ◌<◌, ◌-◌, ◌^◌, ◌≡◌, ap, ◌∙◌, true, some, List, arith}
use c_survival_kit.Common.Int.{int32, ℤ, pos, ◌+ℤ◌, ◌-ℤ◌, ltb_ℤ}
use c_survival_kit.Trie.Api.{Trie, returned, thrown, write_in_iteration, set_key}
use c_survival_kit.Trie.Iter.{Iter, iter_new, iter_free}

iter_new_count :
    (fresh : List ℕ) (t : Trie) (prefix : List ℕ) (flags : ℕ) {t' : Trie} {it : Iter}
    → iter_new fresh t prefix flags ≡ (t', returned it)
    → t'.iterator_count ≡ int32 (t.iterator_count +ℤ pos 1)
unfolding iter_new
iter_new_count fresh t prefix flags e = ground arith

up_down :
    (z : ℤ) (n : ℕ)
    → z ≡ pos n
    → n < 2 ^ 31 - 1
    → (ltb_ℤ (pos 0) (int32 (z +ℤ pos 1)) ≡ true) × (int32 (int32 (z +ℤ pos 1) -ℤ pos 1) ≡ z)
unfolding int32 ◌+ℤ◌ ◌-ℤ◌
up_down z n e small = ground arith

-- While an iterator that `skit_trie_iter_new` has returned lives, `skit_trie_set` throws and
-- leaves the trie as it is, and `skit_trie_iter_free` sets the iterator count back to what it
-- was. The count was not negative and below 2^31 - 1 before.
pub set_key-iter_new :
    (fresh fresh' : List ℕ) (t : Trie) (prefix : List ℕ) (flags : ℕ) (n : ℕ) (t' : Trie) (it : Iter)
    (key : List ℕ) (v set_flags : ℕ)
    → t.iterator_count ≡ pos n
    → n < 2 ^ 31 - 1
    → iter_new fresh t prefix flags ≡ (t', returned it)
    → (set_key fresh' t' key v set_flags ≡ (t', thrown write_in_iteration))
      × ((iter_free t' (some it.key_buffer)).0.iterator_count ≡ t.iterator_count)
unfolding set_key iter_free
set_key-iter_new fresh fresh' t prefix flags n t' it key v set_flags count small e =
    let counted = iter_new_count fresh t prefix flags e in
    let (live, restored) = up_down t.iterator_count n count small in
    let live' : ltb_ℤ (pos 0) t'.iterator_count ≡ true = ap (ltb_ℤ (pos 0)) counted ∙ live in
    (rw live', ap (λ z. int32 (z -ℤ pos 1)) counted ∙ restored)
