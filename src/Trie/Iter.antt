-- ===== src/Trie/Iter.antt =====
-- The iterator of survival_kit/trie.c. No write happens while an iterator lives, so a frame holds the
-- node that its `coords.node` points to.
pub mod Entries
pub mod Scan
pub mod Pending
pub mod Passes
pub mod Next
pub mod Listed
pub mod Routes
pub mod Members
pub mod Order
pub mod Listing
pub mod Start
pub mod Begin
pub mod New
pub mod Guard
pub mod Tests
use Prim.Native.Nat.{bit_and}
use c_survival_kit.Common.{
  ℕ, zero, suc, ◌+◌, ◌-◌, Bool, true, false, not, ◌&&◌, ◌||◌, Option, none, some, List, [], ◌∷◌,
  ltb, leb, ◌==◌, if◌then◌else◌, take, drop, length,
}
use c_survival_kit.Common.Int.{int32, ℤ, pos, ◌+ℤ◌, ◌-ℤ◌}
use c_survival_kit.Trie.Node.{Node, Nodes, node, value, child, node_at, node_prealloc}
use c_survival_kit.Trie.Find.{Coords, find, no_match, target, accumulate_key, uint32}
use c_survival_kit.Trie.Api.{
  Trie, Error, Outcome, bad_flags, exception, returned, thrown, died, create, icase, overwrite,
  has_flag, enforce_valid_flags, allowed, set_key_return_buf,
}

-- `skit_trie_frame`; a `current_char` of 256 says that the node is exhausted.
pub record Frame : Type 0 where
  pub node : Node
  pub pos : ℕ
  pub current_char : ℕ

-- `skit_trie_iter`: `frames` are those up to `current_frame`, the current one first, and
-- `prev_depth` is `prev_frame + 1`. The trie stands beside it.
pub record Iter : Type 0 where
  pub frames : List Frame
  pub prev_depth : ℕ
  pub key_buffer : List ℕ

-- `skit_trie_iter_push` and `skit_trie_iter_pop`
unfoldable pub iter_push : Iter → Node → ℕ → Iter
unfolding uint32
iter_push it n at = record {
  frames = record { node = n; pos = uint32 at; current_char = 0 } ∷ it.frames;
  prev_depth = length it.frames;
  key_buffer = it.key_buffer;
}

unfoldable pub iter_pop : Iter → Iter
iter_pop it = record {
  frames = drop 1 it.frames;
  prev_depth = length it.frames;
  key_buffer = it.key_buffer;
}

-- `skit_iter_accumulate_key`
unfoldable pub iter_accumulate_key : Iter → ℕ → List ℕ → Iter
iter_accumulate_key it at frag = record it { key_buffer = accumulate_key it.key_buffer at frag }

-- One pass of `skit_trie_iter_next`: it returns a key and its value, calls itself, or returns 0.
pub data Pass : Type 0 where
  yields : Iter → List ℕ → ℕ → Pass
  resumes : Iter → Pass
  ends : Iter → Pass
  fails : Pass

-- The loop over a multi node's characters: the index of `current`, and the next higher character.
unfoldable pub scan_chars : (current : ℕ) → List ℕ → (i : ℕ) → Option ℕ × ℕ → Option ℕ × ℕ
scan_chars current [] i (index, next) = (index, next)
scan_chars current (c ∷ cs) i (index, next) =
    scan_chars current cs (suc i)
      (if c == current then some i else index, if ltb current c && ltb c next then c else next)

-- The loop over a table: the next pointer that is not NULL, from `i` on.
unfoldable pub scan_table : (count : ℕ) → Nodes → (i : ℕ) → ℕ
scan_table zero ns i = 256
scan_table (suc k) ns i =
    let rest = scan_table k ns (suc i) in elim (child ns i) [ none ↦ rest | some m ↦ i ]

-- The current frame with another character, and the frame of a child above it; its label is added to
-- the key.
unfoldable pub descend : Iter → Frame → List Frame → ℕ → Option Node → List ℕ → Pass
unfolding iter_push iter_accumulate_key
descend it f fs next none label = fails
descend it f fs next (some m) label =
    let it' =
      iter_push (record it { frames = record f { current_char = next } ∷ fs }) m
        (f.pos + length label) in
    resumes (iter_accumulate_key it' f.pos label)

-- The iteration case, for each kind of node.
unfoldable pub visit_linear : Iter → Frame → List Frame → List ℕ → Nodes → Pass
unfolding descend child
visit_linear it f fs cs ns = descend it f fs 256 (child ns 0) cs

unfoldable pub visit_multi :
    Iter → Frame → List Frame → (nodes_len chars_len : ℕ) → List ℕ → Nodes → Pass
unfolding descend child scan_chars
visit_multi it f fs nl cl cs ns =
    if not (nl == cl)
    then fails
    else let (index, next) = scan_chars f.current_char cs 0 (none, 256) in
      elim index [
        | none ↦ resumes (record it { frames = record f { current_char = next } ∷ fs })
        | some i ↦ descend it f fs next (child ns i) (f.current_char ∷ [])
      ]

unfoldable pub visit_table : Iter → Frame → List Frame → Nodes → Pass
unfolding descend child scan_table
visit_table it f fs ns =
    let next = scan_table (255 - f.current_char) ns (suc f.current_char) in
    elim (child ns f.current_char) [
      | none ↦ resumes (record it { frames = record f { current_char = next } ∷ fs })
      | some m ↦ descend it f fs next (some m) (f.current_char ∷ [])
    ]

unfoldable pub visit : Iter → Frame → List Frame → Node → Pass
unfolding visit_linear visit_multi visit_table
visit it f fs (node v nl cl cs ns) =
    if (nl == 1) && ltb 1 cl
    then visit_linear it f fs cs ns
    else if leb nl node_prealloc
    then visit_multi it f fs nl cl cs ns
    else visit_table it f fs ns

-- The exit case, and else the iteration case.
unfoldable pub leave_or_visit : Iter → Frame → List Frame → Pass
unfolding visit iter_pop
leave_or_visit it f fs =
    if ltb 255 f.current_char then resumes (iter_pop it) else visit it f fs f.node

-- The entry case in front of them.
unfoldable pub enter : Iter → Frame → List Frame → Pass
unfolding leave_or_visit
enter it f fs =
    if ltb it.prev_depth (length it.frames)
    then elim (value f.node) [
      | none ↦ leave_or_visit it f fs
      | some v ↦ yields (record it { prev_depth = length it.frames }) (take f.pos it.key_buffer) v
    ]
    else leave_or_visit it f fs

unfoldable pub iter_pass : Iter → Pass
unfolding enter
iter_pass it = elim it.frames [ [] ↦ ends it | f ∷ fs ↦ enter it f fs ]

-- `skit_trie_iter_next`, on fuel; `key` and `value` are not NULL. The result is the key and the value,
-- or none where it returns 0.
unfoldable pub iter_next : ℕ → Iter → Option (Iter × Option (List ℕ × ℕ))
iter_next zero it = none
iter_next (suc k) it = elim (iter_pass it) [
  | yields it' key v ↦ some (it', some (key, v))
  | resumes it' ↦ iter_next k it'
  | ends it' ↦ some (it', none)
  | fails ↦ none
]

-- The child that follows a narrow node in which the prefix has ended, and the rest of its characters.
unfoldable pub skip_node : Iter → Coords → Node → Outcome Iter
unfolding iter_push iter_accumulate_key child
skip_node it c (node v nl cl cs ns) =
    if not ((nl == 1) && ltb 1 cl)
    then died
    else let rest = drop c.n_chars_into_node cs in
      elim (child ns 0) [
        | none ↦ died
        | some m ↦ returned (iter_push (iter_accumulate_key it c.pos rest) m (c.pos + length rest))
      ]

-- The first frame of a new iterator.
unfoldable pub first_frame : Iter → Node → Coords → Outcome Iter
unfolding iter_push skip_node target
first_frame it root c = elim (target root c) [
  | none ↦ died
  | some m ↦ if ltb 0 c.n_chars_into_node then skip_node it c m else returned (iter_push it m c.pos)
]

-- `skit_trie_iter_new`, on an allocator that leaves `fresh` in the key buffer.
unfoldable pub iter_new : (fresh : List ℕ) → Trie → List ℕ → ℕ → Trie × Outcome Iter
iter_new fresh t prefix flags =
    if has_flag flags icase || not (enforce_valid_flags flags allowed)
    then (t, died)
    else if has_flag flags (create + overwrite)
    then (t, thrown bad_flags)
    else elim (find t.root prefix true t.key_return_buf) [
      | none ↦ (t, died)
      | some (c, buf) ↦
          let t' : Trie = record (set_key_return_buf t buf) {
            iterator_count = int32 (t.iterator_count +ℤ pos 1);
          } in
          let it : Iter = record {
            frames = [];
            prev_depth = 0;
            key_buffer = take (length t.key_return_buf) fresh;
          } in
          if no_match c (length prefix) then (t', returned it) else elim t.root [
            | none ↦ (t', died)
            | some root ↦ (t', first_frame (iter_accumulate_key it 0 (take c.pos buf)) root c)
          ]
    ]

-- `skit_trie_iter_free`; a `key_buffer` of `none` is NULL.
unfoldable pub iter_free : Trie → (key_buffer : Option (List ℕ)) → Trie × Outcome (Unit {0})
iter_free t none = (t, thrown exception)
iter_free t (some buf) =
    (record t { iterator_count = int32 (t.iterator_count -ℤ pos 1) }, returned tt)
