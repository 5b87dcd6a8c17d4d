-- ===== src/Trie/Get.antt =====
-- `skit_trie_get` of survival_kit/trie.c, in a case-sensitive search.
use mathlib.Core.Path.{subst}
use c_survival_kit.Common.{
  ℕ, ◌≤◌, ◌<◌, ◌^◌, ◌≡◌, refl, sym, ◌∙◌, ap, Bool, inl, inr, Option-cases, ◌+◌, true, false, Option,
  none, some, List, arith, length, take, if◌then◌else◌, take_all,
}
use c_survival_kit.Trie.Node.{Node, NodePath, value, node_at}
use c_survival_kit.Trie.Find.{Coords, Found, find, stop_lookup, exact_match, target}
use c_survival_kit.Trie.Contents.{contents, node_at-Walk}
use c_survival_kit.Trie.NextNode.{Buffered}
use c_survival_kit.Trie.Search.{coords}
use c_survival_kit.Trie.Lookup.{
  Lookup, present, absent, inside, find-Lookup, inside_none, EndsInside,
}
use c_survival_kit.Trie.Api.{
  Trie, returned, died, Got, get, get_key, enforce_valid_flags, has_flag, icase, set_key_return_buf,
  exact_match_of, value_at,
}
use c_survival_kit.Trie.WellFormed.{contents_of, IsValidRoot, IsWellFormed, is_inside, outside_of}

-- The check of the flags lets every set of flags pass, whatever flags are allowed.
pub enforce_valid_flags-passes : (given mask : ℕ) → enforce_valid_flags given mask ≡ true
enforce_valid_flags-passes given mask = ground arith

-- What the call makes of the search's result.
answer : Trie → List ℕ → Found → Trie × Got
answer t key none = (t, died)
answer t key (some (c, buf)) = (
  set_key_return_buf t buf,
  if exact_match_of t.root c (length key)
      then returned (some (take (length key) buf), value_at t.root c)
      else returned (none, 0),
)

get-answer :
    (t : Trie) (key : List ℕ) (flags : ℕ)
    → has_flag flags icase ≡ false
    → get t (some key) true flags ≡ answer t key (find t.root key true t.key_return_buf)
unfolding get get_key answer
get-answer t key flags e = ground (arith, e)

-- The call returns `got`, and leaves the trie as it was but for the returned-key buffer.
pub record IsRead (t : Trie) (r : Trie × Got) (got : Option (List ℕ) × ℕ) : Type 0 where
  pub answers : r.1 ≡ returned got
  pub same_root : r.0.root ≡ t.root
  pub same_length : r.0.length ≡ t.length
  pub same_iterators : r.0.iterator_count ≡ t.iterator_count
  pub stays : IsWellFormed r.0

module _ (t : Trie) (key : List ℕ) (flags : ℕ) (w : IsWellFormed t)
    (sensitive : has_flag flags icase ≡ false) where
  -- The call at a search that has ended at `c`.
  at-IsRead :
      (c : Coords) (buf : List ℕ) (got : Option (List ℕ) × ℕ)
      → find t.root key true t.key_return_buf ≡ some (c, buf)
      → length buf ≡ length t.key_return_buf
      → (if exact_match_of t.root c (length key)
          then returned (some (take (length key) buf), value_at t.root c)
          else returned (none, 0))
        ≡ returned got
      → IsRead t (get t (some key) true flags) got
  unfolding answer
  at-IsRead c buf got e same a =
      subst (λ r. IsRead t r got) (sym (get-answer t key flags sensitive ∙ ap (answer t key) e))
        (record {
          answers = a;
          same_root = refl;
          same_length = refl;
          same_iterators = refl;
          stays = record {
            root_valid = w.root_valid;
            keys_fit = λ k {v} e. omega (arith, w.keys_fit k e, same);
          };
        })

  -- A trie that has a root.
  module _ (root : Node) (rooted : t.root ≡ some root) where
    rooted-IsRead :
        (p : NodePath) (pos into : ℕ) (stopped : Bool) (buf : List ℕ) (got : Option (List ℕ) × ℕ)
        → find (some root) key true t.key_return_buf ≡ some (coords p pos into stopped, buf)
        → length buf ≡ length t.key_return_buf
        → (if exact_match root (coords p pos into stopped) (length key)
            then returned
                (some (take (length key) buf), value_at (some root) (coords p pos into stopped))
            else returned (none, 0))
          ≡ returned got
        → IsRead t (get t (some key) true flags) got
    unfolding exact_match_of
    rooted-IsRead p pos into stopped buf got e same a =
        at-IsRead (coords p pos into stopped) buf got
          (ap (λ r. find r key true t.key_return_buf) rooted ∙ e) same (rw rooted a)

value_at-coords :
    (root : Node) (p : NodePath) {place : Node} (pos into : ℕ) (stopped : Bool) {v : ℕ}
    → node_at root p ≡ some place
    → value place ≡ some v
    → value_at (some root) (coords p pos into stopped) ≡ v
unfolding value_at target
value_at-coords root p pos into stopped at e = ground (arith, at, e)

spelled :
    {key buf out : List ℕ} {pos : ℕ}
    → Buffered key 0 pos buf out
    → pos ≡ length key
    → length key ≤ length buf
    → take (length key) out ≡ key
spelled {key} {out} b e long =
    subst (λ n. take n out ≡ key) e (b.spells long refl ∙ take_all _ key (omega arith))

module _ (t : Trie) (key : List ℕ) (flags : ℕ) (w : IsWellFormed t) (short : length key < 2 ^ 32)
    (sensitive : has_flag flags icase ≡ false) (root : Node) (rooted : t.root ≡ some root) where
  searched : Lookup root key t.key_return_buf
  searched = find-Lookup root key t.key_return_buf short (subst IsValidRoot rooted w.root_valid)

  present-IsRead :
      {v : ℕ}
      → contents root key ≡ some v
      → length key ≤ length t.key_return_buf
      → Lookup root key t.key_return_buf
      → IsRead t (get t (some key) true flags) (some key, v)
  present-IsRead {v} e long
        (present {p} {pos} {into} {stopped} {out} {v = v'} r exact same holds walk ends b) =
      let stored : value_at (some root) (coords p pos into stopped) ≡ v =
        value_at-coords root p pos into stopped (node_at-Walk walk) (holds ∙ sym same ∙ e) in
      rooted-IsRead t key flags w sensitive root rooted p pos into stopped out (some key, v) r
        b.same_length (rw (exact, stored, spelled b ends long) refl)
  present-IsRead e long (absent base r miss other nothing walk stop within b) = cc
  present-IsRead e long (inside i) = let none_there = inside_none root key i in cc

  absent-IsRead :
      contents root key ≡ none
      → (EndsInside root key → ⊥)
      → Lookup root key t.key_return_buf
      → IsRead t (get t (some key) true flags) (none, 0)
  absent-IsRead e outside (present r exact same holds walk ends b) = cc
  absent-IsRead e outside (absent base {p} {into} {out} r miss other nothing walk stop within b) =
      rooted-IsRead t key flags w sensitive root rooted p (base + into) into true out (none, 0) r
        b.same_length (rw miss refl)
  absent-IsRead e outside (inside i) = absurd (outside i)

-- A case-sensitive `skit_trie_get` of a key of fewer than 2^32 characters that a well-formed trie
-- holds returns that very key and its value, and leaves the trie as it was but for the
-- returned-key buffer.
pub get-present :
    (t : Trie) (key : List ℕ) (flags v : ℕ)
    → IsWellFormed t
    → length key < 2 ^ 32
    → has_flag flags icase ≡ false
    → contents_of t.root key ≡ some v
    → IsRead t (get t (some key) true flags) (some key, v)
unfolding contents_of
get-present t key flags v w short sensitive e = elim (Option-cases t.root) [
  | inl unrooted ↦
      let impossible : none ≡ some v = subst (λ r. contents_of r key ≡ some v) unrooted e in cc
  | inr (root, rooted) ↦
      present-IsRead t key flags w short sensitive root rooted
        (subst (λ r. contents_of r key ≡ some v) rooted e) (w.keys_fit key e)
        (searched t key flags w short sensitive root rooted)
]

-- A case-sensitive `skit_trie_get` of a key of fewer than 2^32 characters that a well-formed trie
-- does not hold, and that does not end inside a narrow node with a value, returns a null slice
-- and NULL, and leaves the trie as it was but for the returned-key buffer.
pub get-absent :
    (t : Trie) (key : List ℕ) (flags : ℕ)
    → IsWellFormed t
    → length key < 2 ^ 32
    → has_flag flags icase ≡ false
    → contents_of t.root key ≡ none
    → is_inside t.root key ≡ false
    → IsRead t (get t (some key) true flags) (none, 0)
unfolding contents_of find exact_match_of
get-absent t key flags w short sensitive e outside = elim (Option-cases t.root) [
  | inl unrooted ↦
      at-IsRead t key flags w sensitive (stop_lookup none 0 0) t.key_return_buf (none, 0)
        (ap (λ r. find r key true t.key_return_buf) unrooted) refl (rw unrooted refl)
  | inr (root, rooted) ↦
      absent-IsRead t key flags w short sensitive root rooted
        (subst (λ r. contents_of r key ≡ none) rooted e) (outside_of t.root root key rooted outside)
        (searched t key flags w short sensitive root rooted)
]
