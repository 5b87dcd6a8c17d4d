-- ===== src/Trie/Chain.antt =====
-- The chains of narrow nodes of survival_kit/trie.c (`skit_trie_node_append_str`,
-- `skit_trie_finish_tail`): what they hold, and that they are valid.
use c_survival_kit.Common.{
  ℕ, zero, suc, ◌≤◌, ◌<◌, ◌≡◌, ◌≢◌, refl, ap, ◌∙◌, inl, inr, Option, none, some, List, [], ◌∷◌,
  ◌++◌, ltb, arith, take, drop, length, take-append-drop, length-take, length-drop, Bool-cases,
  Option-cases, append-nil,
}
use c_survival_kit.Trie.Node.{Node, node, nil, cons, node_prealloc}
use c_survival_kit.Trie.Split.{empty_node, set_value, insert_non0_str, append_str}
use c_survival_kit.Trie.Contents.{contents, strip_prefix, route}
use c_survival_kit.Trie.Valid.{IsValid, valid, leaf, narrow, Bytes, filled, empty}

-- The value of a key whose first characters are `str`, at the rest of it.
unfoldable pub beyond : List ℕ → Node → List ℕ → Option ℕ
beyond str tail key = elim (strip_prefix str key) [ none ↦ none | some t ↦ contents tail t ]

pub strip_prefix-append :
    (a b key : List ℕ)
    → strip_prefix (a ++ b) key
      ≡ (elim (strip_prefix a key) [ none ↦ none | some t ↦ strip_prefix b t ])
unfolding strip_prefix
strip_prefix-append [] b key = refl
strip_prefix-append (c ∷ a) b [] = refl
strip_prefix-append (c ∷ a) b (k ∷ key) = ground (arith, strip_prefix-append a b key)

pub strip_prefix_self : (cs rest : List ℕ) → strip_prefix cs (cs ++ rest) ≡ some rest
unfolding strip_prefix
strip_prefix_self [] rest = refl
strip_prefix_self (c ∷ cs) rest = ground (arith, strip_prefix_self cs rest)

strip_prefix_whole : (cs : List ℕ) → strip_prefix cs cs ≡ some []
unfolding strip_prefix
strip_prefix_whole [] = refl
strip_prefix_whole (c ∷ cs) = ground (arith, strip_prefix_whole cs)

pub append-strip_prefix :
    (cs key : List ℕ) {t : List ℕ} → strip_prefix cs key ≡ some t → key ≡ cs ++ t
unfolding strip_prefix
append-strip_prefix [] key e = ground arith
append-strip_prefix (c ∷ cs) [] e = cc
append-strip_prefix (c ∷ cs) (k ∷ key) {t} e = ground (arith, append-strip_prefix cs key {t = t})

-- A narrow node holds its own value and what lies beyond its characters.
pub contents-narrow :
    (w : Option ℕ) (cl : ℕ) (c : ℕ) (cs : List ℕ) (kid : Node) (k : ℕ) (key : List ℕ)
    → contents (node w 1 cl (c ∷ cs) (cons kid nil)) (k ∷ key) ≡ beyond (c ∷ cs) kid (k ∷ key)
unfolding contents beyond route
contents-narrow w cl c cs kid k key = ground arith

pub contents-narrow_none :
    (cl : ℕ) (cs : List ℕ) (kid : Node)
    → 0 < length cs
    → (key : List ℕ) → contents (node none 1 cl cs (cons kid nil)) key ≡ beyond cs kid key
unfolding contents beyond strip_prefix
contents-narrow_none cl [] kid h key = absurd (omega arith)
contents-narrow_none cl (c ∷ cs) kid h [] = refl
contents-narrow_none cl (c ∷ cs) kid h (k ∷ key) = contents-narrow none cl c cs kid k key

pub beyond-append :
    (a b : List ℕ) (mid tail : Node)
    → ((key : List ℕ) → contents mid key ≡ beyond b tail key)
    → (key : List ℕ) → beyond a mid key ≡ beyond (a ++ b) tail key
unfolding beyond
beyond-append a b mid tail h key = elim (Option-cases (strip_prefix a key)) [
  | inl e ↦ ground (arith, strip_prefix-append a b key)
  | inr (t, e) ↦ ground (arith, strip_prefix-append a b key, h t)
]

pub Bytes-take : (n : ℕ) (cs : List ℕ) → Bytes cs → Bytes (take n cs)
Bytes-take zero cs h = tt
Bytes-take (suc n) [] h = tt
Bytes-take (suc n) (c ∷ cs) h = (h.0, Bytes-take n cs h.1)

pub Bytes-drop : (n : ℕ) (cs : List ℕ) → Bytes cs → Bytes (drop n cs)
Bytes-drop zero cs h = h
Bytes-drop (suc n) [] h = tt
Bytes-drop (suc n) (c ∷ cs) h = Bytes-drop n cs h.1

-- With a character of fuel for each character of the string, the chain spells the whole string.
pub contents-insert_non0_str :
    (fuel : ℕ) (tail : Node) (str : List ℕ)
    → 0 < length str
    → length str ≤ suc fuel
    → (key : List ℕ) → contents (insert_non0_str fuel tail str) key ≡ beyond str tail key
unfolding insert_non0_str
contents-insert_non0_str zero tail str some_chars h key =
    contents-narrow_none _ str tail some_chars key
contents-insert_non0_str (suc fuel) tail str some_chars h key =
    elim (Bool-cases (ltb node_prealloc (length str))) [
      | inl long ↦ rw long (
          contents-narrow_none _ (take node_prealloc str) _ (ground (arith, length-take 12 str)) key
          ∙ beyond-append (take node_prealloc str) (drop node_prealloc str) _ tail
              (contents-insert_non0_str fuel tail (drop node_prealloc str)
                (ground (arith, length-drop 12 str)) (ground (arith, length-drop 12 str)))
              key
          ∙ ap (λ s. beyond s tail key) (take-append-drop node_prealloc str))
      | inr short ↦ rw short (contents-narrow_none _ str tail some_chars key)
    ]

pub insert_non0_str-IsValid :
    (fuel : ℕ) (tail : Node) (str : List ℕ)
    → 0 < length str
    → length str ≤ suc fuel
    → Bytes str
    → IsValid tail
    → IsValid (insert_non0_str fuel tail str)
unfolding insert_non0_str
insert_non0_str-IsValid zero tail str some_chars h y v =
    valid (narrow refl refl some_chars (omega arith) y tt) (filled v empty)
insert_non0_str-IsValid (suc fuel) tail str some_chars h y v =
    elim (Bool-cases (ltb node_prealloc (length str))) [
      | inl long ↦ rw long (
          valid
            (narrow refl (ground (arith, length-take 12 str)) (omega arith) (omega arith)
              (Bytes-take 12 str y) tt)
            (filled
              (insert_non0_str-IsValid fuel tail (drop node_prealloc str)
                (ground (arith, length-drop 12 str)) (ground (arith, length-drop 12 str))
                (Bytes-drop 12 str y) v)
              empty))
      | inr short ↦
          rw short (valid (narrow refl refl some_chars (ground arith) y tt) (filled v empty))
    ]

-- The chain of narrow nodes that `skit_trie_node_append_str` builds, however many nodes of twelve
-- characters it takes, holds for each key what its tail holds for what is left of the key behind
-- the whole string, and nothing for a key that does not begin with the string.
pub contents-append_str :
    (tail : Node) (str key : List ℕ) → contents (append_str tail str) key ≡ beyond str tail key
unfolding append_str beyond strip_prefix
contents-append_str tail [] key = refl
contents-append_str tail (c ∷ cs) key =
    contents-insert_non0_str (length cs) tail (c ∷ cs) (omega arith) (omega arith) key

pub append_str-IsValid :
    (tail : Node) (str : List ℕ) → Bytes str → IsValid tail → IsValid (append_str tail str)
unfolding append_str
append_str-IsValid tail [] y v = v
append_str-IsValid tail (c ∷ cs) y v =
    insert_non0_str-IsValid (length cs) tail (c ∷ cs) (omega arith) (omega arith) y v

-- A new leaf holds its value for the empty key alone.
leaf_with : (v : ℕ) (key : List ℕ) → key ≢ [] → contents (set_value empty_node v) key ≡ none
unfolding contents route
leaf_with v [] h = absurd (h refl)
leaf_with v (k ∷ key) h = refl

pub leaf-IsValid : (v : ℕ) → IsValid (set_value empty_node v)
leaf-IsValid v = valid (leaf refl refl refl tt) empty

-- A chain that ends in a new leaf holds the value for its own string.
pub append_str_adds :
    (v : ℕ) (str : List ℕ) → contents (append_str (set_value empty_node v) str) str ≡ some v
unfolding contents beyond
append_str_adds v str =
    ground (arith, contents-append_str (set_value empty_node v) str str, strip_prefix_whole str)

-- ... and for nothing else.
pub append_str_alone :
    (v : ℕ) (str key : List ℕ)
    → key ≢ str
    → contents (append_str (set_value empty_node v) str) key ≡ none
unfolding beyond
append_str_alone v str key h = elim (Option-cases (strip_prefix str key)) [
  | inl e ↦ ground (arith, contents-append_str (set_value empty_node v) str key)
  | inr (t, e) ↦ ground (
    arith,
    contents-append_str (set_value empty_node v) str key,
    leaf_with v t (λ nothing. h (append-strip_prefix str key e ∙ rw (nothing, append-nil))),
  )
]
