-- ===== src/Trie/Tests.antt =====
-- Runs of the operations of survival_kit/trie.c, and the cases at which its theorems are applied.
use c_survival_kit.Common.{ℕ, ◌≡◌, refl, ap, true, none, some, List, [], ◌∷◌, arith, length}
use c_survival_kit.Common.Int.{pos}
use c_survival_kit.Trie.Valid.{Bytes, IsValid}
use c_survival_kit.Trie.Search.{Ended, find-Ended}
use c_survival_kit.Trie.Shared.{shared}
use c_survival_kit.Trie.NextNode.{in_narrow}
use c_survival_kit.Trie.Split.{split_node, append_str}
use c_survival_kit.Trie.Chain.{beyond, contents-append_str}
use c_survival_kit.Trie.Grow.Grown.{Grown}
use c_survival_kit.Trie.Grow.Kinds.{split_node-Grown}
use c_survival_kit.Trie.Contents.{contents, route, strip_prefix}
use c_survival_kit.Trie.Inside.{ends_inside}
use c_survival_kit.Trie.Node.{Node, node, nil, cons, child, node_at}
use c_survival_kit.Trie.Find.{
  find, find_loop, find_icase, next_node, match_chars, uint32, index_of, fold_case, accumulate_key,
}
use c_survival_kit.Ascii.{ccmp}
use c_survival_kit.Trie.Api.{
  Trie, returned, thrown, exception, get, set_key, has_flag, create, overwrite, icase, trie_ctor,
}
use c_survival_kit.Trie.WellFormed.{contents_of, IsWellFormed, trie_ctor-IsWellFormed}
use c_survival_kit.Trie.Get.{IsRead, get-present, get-absent}
use c_survival_kit.Trie.Set.{set-new, set-existing, set-missing, set-taken}
use c_survival_kit.Trie.Set.Stored.{IsStored, IsRefused}
use c_survival_kit.Trie.RoundTrip.{get-set, get-set_ne}

-- "abcd", "abx" and what the allocator leaves in a new block.
abbrev abcd : List ℕ
abcd = 97 ∷ 98 ∷ 99 ∷ 100 ∷ []

abbrev abx : List ℕ
abx = 97 ∷ 98 ∷ 120 ∷ []

abbrev junk : List ℕ
junk = 1 ∷ 2 ∷ 3 ∷ 4 ∷ 5 ∷ []

abbrev co : ℕ
co = 0x4004

-- A trie with one key, and the same with "abx" beside it.
abbrev one_key : Trie
one_key = record {
  length = 1;
  key_return_buf = abcd;
  root = some (node none 1 4 abcd (cons (node (some 7) 0 0 [] nil) nil));
  iterator_count = pos 0;
}

abbrev forked : Node
forked = node none 2 2 (99 ∷ 120 ∷ []) (
    cons (node none 1 1 (100 ∷ []) (cons (node (some 7) 0 0 [] nil) nil))
      (cons (node (some 8) 0 0 [] nil) nil))

abbrev two_keys : Trie
two_keys = record {
  length = 2;
  key_return_buf = 97 ∷ 98 ∷ 120 ∷ 100 ∷ [];
  root = some (node none 1 2 (97 ∷ 98 ∷ []) (cons forked nil));
  iterator_count = pos 0;
}

set_first_key : set_key junk trie_ctor abcd 7 co ≡ (one_key, returned abcd)
unfolding set_key
set_first_key = refl

set_second_key : set_key junk one_key abx 8 create ≡ (two_keys, returned abx)
unfolding set_key find_loop find_icase next_node match_chars uint32 ccmp child index_of fold_case
    accumulate_key node_at
set_second_key = refl

set_without_create : set_key junk one_key abx 8 overwrite ≡ (
  record { length = 1; key_return_buf = abcd; root = one_key.root; iterator_count = pos 0 },
  thrown exception,
)
unfolding set_key find_loop find_icase next_node match_chars uint32 ccmp child index_of fold_case
    accumulate_key node_at
set_without_create = refl

get-icase :
    (get two_keys (some (65 ∷ 66 ∷ 88 ∷ [])) true icase).1 ≡ returned (some (97 ∷ 98 ∷ 120 ∷ []), 8)
unfolding get find_loop find_icase next_node match_chars uint32 ccmp child index_of fold_case
    accumulate_key node_at
get-icase = refl

-- "ab" ends inside the node of "abcd", whose value it is then taken to have.
abbrev nested : Trie
nested = record {
  length = 2;
  key_return_buf = abcd;
  root = some (node (some 9) 1 4 abcd (cons (node (some 7) 0 0 [] nil) nil));
  iterator_count = pos 0;
}

nested-is_set : (set_key junk one_key [] 9 create).0 ≡ nested
unfolding set_key find_loop find_icase next_node match_chars uint32 ccmp child index_of fold_case
    accumulate_key node_at
nested-is_set = refl

get_inside : (get nested (some (97 ∷ 98 ∷ [])) true 0).1 ≡ returned (some (97 ∷ 98 ∷ []), 9)
unfolding get find_loop find_icase next_node match_chars uint32 ccmp child index_of fold_case
    accumulate_key node_at
get_inside = refl

abcd-Bytes : Bytes abcd
abcd-Bytes = (omega arith, (omega arith, (omega arith, (omega arith, tt))))

abx-Bytes : Bytes abx
abx-Bytes = (omega arith, (omega arith, (omega arith, tt)))

one_key-IsWellFormed : IsWellFormed one_key
unfolding set_key contents_of
one_key-IsWellFormed =
    (set-new junk trie_ctor abcd 7 co trie_ctor-IsWellFormed (omega arith) (omega arith) refl refl
      refl abcd-Bytes refl refl refl).stays

set-new_example : IsStored one_key abx 8 2 (set_key junk one_key abx 8 create)
unfolding contents_of has_flag contents route strip_prefix ends_inside
set-new_example =
    set-new junk one_key abx 8 create one_key-IsWellFormed (omega arith) (omega arith) refl refl
      refl abx-Bytes refl refl refl

set-existing_example : IsStored one_key abcd 9 1 (set_key junk one_key abcd 9 overwrite)
unfolding contents_of has_flag contents route strip_prefix ends_inside
set-existing_example =
    set-existing junk one_key abcd 9 overwrite one_key-IsWellFormed (omega arith) (omega arith) refl
      refl refl abcd-Bytes refl refl

set-missing_example : IsRefused one_key exception (set_key junk one_key abx 8 overwrite)
unfolding contents_of has_flag contents route strip_prefix ends_inside
set-missing_example =
    set-missing junk one_key abx 8 overwrite one_key-IsWellFormed (omega arith) (omega arith) refl
      refl refl refl refl refl

set-taken_example : IsRefused one_key exception (set_key junk one_key abcd 9 create)
unfolding contents_of has_flag contents route strip_prefix ends_inside
set-taken_example =
    set-taken junk one_key abcd 9 create one_key-IsWellFormed (omega arith) (omega arith) refl refl
      refl refl refl

get-present_example : IsRead one_key (get one_key (some abcd) true 0) (some abcd, 7)
unfolding contents_of has_flag contents route strip_prefix ends_inside
get-present_example = get-present one_key abcd 0 7 one_key-IsWellFormed (omega arith) refl refl

get-absent_example : IsRead one_key (get one_key (some abx) true 0) (none, 0)
unfolding contents_of has_flag contents route strip_prefix ends_inside
get-absent_example = get-absent one_key abx 0 one_key-IsWellFormed (omega arith) refl refl refl

get-set_example : IsRead two_keys (get two_keys (some abx) true 0) (some abx, 8)
unfolding contents_of has_flag contents route strip_prefix ends_inside set_key find_loop next_node
    match_chars uint32 ccmp child
get-set_example =
    get-set junk one_key abx 8 co one_key-IsWellFormed (omega arith) (omega arith) abx-Bytes refl
      refl refl refl refl refl 0 refl

get-set_ne_example : IsRead two_keys (get two_keys (some abcd) true 0) (some abcd, 7)
unfolding contents_of has_flag contents route strip_prefix ends_inside set_key find_loop next_node
    match_chars uint32 ccmp child
get-set_ne_example =
    get-set_ne junk one_key abx 8 co one_key-IsWellFormed (omega arith) (omega arith) abx-Bytes refl
      refl refl refl refl refl 0 refl abcd (λ e. absurd (omega (arith, ap length e))) (omega arith)
      refl

one_key-IsValid : IsValid (node none 1 4 abcd (cons (node (some 7) 0 0 [] nil) nil))
one_key-IsValid = one_key-IsWellFormed.root_valid

find-Ended_example :
    Ended
      (node none 1 4 abcd (cons (node (some 7) 0 0 [] nil) nil))
      []
      abx
      0
      abcd
      (find (some (node none 1 4 abcd (cons (node (some 7) 0 0 [] nil) nil))) abx true abcd)
find-Ended_example =
    find-Ended (node none 1 4 abcd (cons (node (some 7) 0 0 [] nil) nil)) abx abcd (omega arith)
      one_key-IsValid

split_node-Grown_example :
    Grown
      (contents (node none 1 4 abcd (cons (node (some 7) 0 0 [] nil) nil)))
      abx
      8
      (split_node (node none 1 4 abcd (cons (node (some 7) 0 0 [] nil) nil)) 2 abx 2 8)
unfolding shared
split_node-Grown_example =
    split_node-Grown none 1 4 abcd (cons (node (some 7) 0 0 [] nil) nil) 2 abx 0 8 abx-Bytes
      (omega arith) one_key-IsValid (in_narrow refl refl (omega arith))

contents-append_str_example :
    contents (append_str (node (some 7) 0 0 [] nil) abcd) abx
    ≡ beyond abcd (node (some 7) 0 0 [] nil) abx
contents-append_str_example = contents-append_str (node (some 7) 0 0 [] nil) abcd abx
