-- ===== src/Trie/WellFormed.antt =====
-- The invariant of a whole `skit_trie` of survival_kit/trie.h, and the map that a trie stands for.
use mathlib.Core.Path.{subst}
use c_survival_kit.Common.{ℕ, ◌≤◌, ◌≡◌, Bool, false, Option, none, some, List, arith, length}
use c_survival_kit.Trie.Node.{Node}
use c_survival_kit.Trie.Contents.{contents}
use c_survival_kit.Trie.Valid.{IsValid}
use c_survival_kit.Trie.Lookup.{EndsInside}
use c_survival_kit.Trie.Inside.{ends_inside, ends_inside_complete}
use c_survival_kit.Trie.Api.{Trie, trie_ctor}

-- The value of each key, read off the nodes.
unfoldable pub contents_of : Option Node → List ℕ → Option ℕ
contents_of none key = none
contents_of (some n) key = contents n key

abbrev pub IsValidRoot : Option Node → Type 0
IsValidRoot none = Unit {0}
IsValidRoot (some n) = IsValid n

-- The nodes are valid, and the returned-key buffer has room for every key.
pub record IsWellFormed (t : Trie) : Type 0 where
  pub root_valid : IsValidRoot t.root
  pub keys_fit :
      (key : List ℕ) {v : ℕ}
      → contents_of t.root key ≡ some v
      → length key ≤ length t.key_return_buf

-- Whether the key ends inside the characters of a narrow node that has a value.
abbrev pub is_inside : Option Node → List ℕ → Bool
is_inside none key = false
is_inside (some n) key = ends_inside n key

-- A key for which the test says no is not one of those.
pub outside_of :
    (r : Option Node) (n : Node) (key : List ℕ)
    → r ≡ some n
    → is_inside r key ≡ false
    → EndsInside n key
    → ⊥
outside_of none n key e o i = cc
outside_of (some m) n key e o i =
    let same : is_inside (some n) key ≡ false = subst (λ r. is_inside r key ≡ false) e o in
    let found = ends_inside_complete n key i in ground (arith, same, found)

pub trie_ctor-IsWellFormed : IsWellFormed trie_ctor
unfolding contents_of
trie_ctor-IsWellFormed = record { root_valid = tt; keys_fit = λ k e. cc }
