-- ===== src/Trie/Api.antt =====
-- The operations of survival_kit/trie.c on a whole `skit_trie`: construction, `skit_trie_len`,
-- `skit_trie_get`, `skit_trie_set` and the stub `skit_trie_remove`. The trie pointer of all but
-- `skit_trie_set` is not NULL; a key of `none` is a slice whose pointer is NULL.
use Prim.Native.Nat.{bit_and}
use c_survival_kit.Common.{
  ℕ, ◌+◌, ◌-◌, ◌%◌, ◌^◌, Bool, true, false, not, ◌||◌, Option, none, some, List, [], ltb, ◌==◌,
  if◌then◌else◌, take, drop, length,
}
use c_survival_kit.Common.Int.{ℤ, pos, ltb_ℤ}
use c_survival_kit.Slice.Loaf.{loaf_resize}
use c_survival_kit.Trie.Node.{Node, node_at, replace_at}
use c_survival_kit.Trie.Find.{
  Coords, find, exact_match, prefix_match, no_match, target, accumulate_key,
}
use c_survival_kit.Trie.Node.{value}
use c_survival_kit.Trie.Split.{empty_node, set_value, append_str, split_node}

-- SKIT_FLAG_C, SKIT_FLAG_I and SKIT_FLAG_O of survival_kit/flags.h.
abbrev pub create : ℕ
create = 0x4

abbrev pub icase : ℕ
icase = 0x100

abbrev pub overwrite : ℕ
overwrite = 0x4000

-- A test `flags & mask`.
unfoldable pub has_flag : ℕ → ℕ → Bool
has_flag flags mask = not (bit_and flags mask == 0)

pub data Error : Type 0 where
  exception fatal_exception bad_flags write_in_iteration : Error

-- How a call ends: it returns, it throws, or a check has ended the process.
pub data Outcome {ℓ} (A : Type ℓ) : Type ℓ where
  returned : A → Outcome A
  thrown : Error → Outcome A
  died : Outcome A

pub record Trie : Type 0 where
  pub length : ℕ
  pub key_return_buf : List ℕ
  pub root : Option Node
  pub iterator_count : ℤ

abbrev pub trie_ctor : Trie
trie_ctor = record { length = 0; key_return_buf = []; root = none; iterator_count = pos 0 }

abbrev pub trie_len : Trie → ℕ
trie_len t = t.length

-- `skit_trie_enforce_valid_flags`: whether it passes. `~` flips the 32 bits of `skit_flags`.
abbrev pub enforce_valid_flags : ℕ → ℕ → Bool
enforce_valid_flags flags_given flags_allowed =
    let bad_flags = bit_and flags_given (2 ^ 32 - 1 - flags_allowed) in
    if bad_flags == 0 then bad_flags == 0 else true

-- The flags that `skit_trie_get` and `skit_trie_set` allow.
abbrev pub allowed : ℕ
allowed = create + overwrite + icase

abbrev pub set_key_return_buf : Trie → List ℕ → Trie
set_key_return_buf t buf = record {
  length = t.length;
  key_return_buf = buf;
  root = t.root;
  iterator_count = t.iterator_count;
}

abbrev pub set_root : Trie → Node → Trie
set_root t n = record {
  length = t.length;
  key_return_buf = t.key_return_buf;
  root = some n;
  iterator_count = t.iterator_count;
}

-- `(trie->length)++`, on a 64-bit `size_t`.
abbrev pub count_key : Trie → Trie
count_key t = record {
  length = (t.length + 1) % 2 ^ 64;
  key_return_buf = t.key_return_buf;
  root = t.root;
  iterator_count = t.iterator_count;
}

-- The value at `coords.node`; 0 is NULL.
unfoldable pub value_at : Option Node → Coords → ℕ
unfolding target
value_at none c = 0
value_at (some root) c = elim (target root c) [
  | none ↦ 0
  | some m ↦ elim (value m) [ none ↦ 0 | some v ↦ v ]
]

unfoldable pub exact_match_of : Option Node → Coords → ℕ → Bool
unfolding exact_match
exact_match_of none c key_len = false
exact_match_of (some root) c key_len = exact_match root c key_len

-- The slice that is returned, and `*value`.
abbrev pub Got : Type 0
Got = Outcome (Option (List ℕ) × ℕ)

-- `skit_trie_get` behind its checks for NULL.
unfoldable pub get_key : Trie → List ℕ → ℕ → Trie × Got
unfolding has_flag exact_match_of value_at find
get_key t key flags =
    if not (enforce_valid_flags flags allowed)
    then (t, died)
    else elim (find t.root key (not (has_flag flags icase)) t.key_return_buf) [
      | none ↦ (t, died)
      | some (c, buf) ↦ (
        set_key_return_buf t buf,
        if exact_match_of t.root c (length key)
            then returned (some (take (length key) buf), value_at t.root c)
            else returned (none, 0),
      )
    ]

-- `skit_trie_get`; `can_store` says that the pointer `value` is not NULL.
unfoldable pub get : Trie → Option (List ℕ) → (can_store : Bool) → ℕ → Trie × Got
unfolding get_key
get t key can_store flags =
    if not can_store then (t, died) else elim key [ none ↦ (t, died) | some k ↦ get_key t k flags ]

-- `skit_trie_set` on a trie whose root is NULL.
unfoldable pub set_first : Trie → List ℕ → ℕ → ℕ → Trie × Outcome (List ℕ)
unfolding has_flag append_str accumulate_key
set_first t key v flags =
    if not (has_flag flags create)
    then (t, thrown exception)
    else let buf = accumulate_key t.key_return_buf 0 key in
      (
        count_key (set_root (set_key_return_buf t buf) (append_str (set_value empty_node v) key)),
        returned (take (length key) buf),
      )

-- The new value of a key that the search has found.
unfoldable pub set_existing : Trie → Node → List ℕ → ℕ → ℕ → Coords → Trie × Outcome (List ℕ)
unfolding has_flag target node_at replace_at
set_existing t root key v flags c =
    if not (has_flag flags overwrite) then (t, thrown exception) else elim c.node [
      | none ↦ (t, died)
      | some p ↦ elim (node_at root p) [
        | none ↦ (t, died)
        | some m ↦ (
          set_root t (replace_at root p (set_value m v)),
          returned (take (length key) t.key_return_buf),
        )
      ]
    ]

-- A new key, for which the node at which the search has stopped is split.
unfoldable pub set_new : Trie → Node → List ℕ → ℕ → ℕ → Coords → Trie × Outcome (List ℕ)
unfolding has_flag node_at replace_at accumulate_key split_node
set_new t root key v flags c =
    if not (has_flag flags create)
    then (t, thrown exception)
    else let buf = accumulate_key t.key_return_buf c.pos (drop c.pos key) in
      elim c.node [
        | none ↦ (t, died)
        | some p ↦ elim (node_at root p) [
          | none ↦ (t, died)
          | some m ↦ elim (split_node m c.n_chars_into_node key c.pos v) [
            | none ↦ (t, died)
            | some m' ↦ (
              count_key (set_root (set_key_return_buf t buf) (replace_at root p m')),
              returned (take (length key) buf),
            )
          ]
        ]
      ]

-- `skit_trie_set` from its call of `skit_trie_find` on.
unfoldable pub set_found : Trie → Node → List ℕ → ℕ → ℕ → Trie × Outcome (List ℕ)
unfolding has_flag find exact_match prefix_match no_match set_existing set_new
set_found t root key v flags =
    elim (find (some root) key (not (has_flag flags icase)) t.key_return_buf) [
      | none ↦ (t, died)
      | some (c, buf) ↦
          let t' = set_key_return_buf t buf in
          if exact_match root c (length key)
          then set_existing t' root key v flags c
          else if prefix_match root c (length key) || no_match c (length key)
          then set_new t' root key v flags c
          else (t', thrown fatal_exception)
    ]

-- Room for a key that is longer than all before it.
abbrev pub make_room : (fresh : List ℕ) → Trie → List ℕ → Trie
make_room fresh t key =
    if ltb (length t.key_return_buf) (length key)
    then set_key_return_buf t (loaf_resize fresh t.key_return_buf (length key))
    else t

-- `skit_trie_set` behind its checks for NULL.
unfoldable pub set_key : (fresh : List ℕ) → Trie → List ℕ → ℕ → ℕ → Trie × Outcome (List ℕ)
unfolding has_flag loaf_resize set_first set_found
set_key fresh t key v flags =
    if ltb_ℤ (pos 0) t.iterator_count
    then (t, thrown write_in_iteration)
    else if not (enforce_valid_flags flags allowed)
    then (t, died)
    else if not (has_flag flags (create + overwrite))
    then (t, thrown bad_flags)
    else let t' = make_room fresh t key in
      elim t.root [ none ↦ set_first t' key v flags | some root ↦ set_found t' root key v flags ]

-- `skit_trie_set`; a trie of `none` is a NULL pointer.
unfoldable pub set :
    (fresh : List ℕ) → Option Trie → Option (List ℕ) → ℕ → ℕ → Option Trie × Outcome (List ℕ)
unfolding set_key
set fresh none key v flags = (none, died)
set fresh (some t) none v flags = (some t, died)
set fresh (some t) (some key) v flags = let (t', r) = set_key fresh t key v flags in (some t', r)

-- `skit_trie_remove`, which is a stub: past its check it returns a null slice.
abbrev pub remove : Trie → List ℕ → ℕ → Trie × Outcome (Option (List ℕ))
remove t key flags =
    if ltb_ℤ (pos 0) t.iterator_count then (t, thrown write_in_iteration) else (t, returned none)
