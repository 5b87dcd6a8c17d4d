-- ===== src/Trie/Grow/Branch.antt =====
-- Nodes that choose among single characters, and `skit_trie_split_multi_node` of
-- survival_kit/trie.c, which gives such a node one character more.
use mathlib.Core.Path.{subst}
use c_survival_kit.Common.{
  ℕ, zero, suc, ◌+◌, ◌≤◌, ◌<◌, ◌≡◌, refl, ◌∙◌, sym, inl, inr, Option, none, some, List, [], ◌∷◌,
  ◌++◌, ◌==◌, if◌then◌else◌, arith, get_or, drop, length, length-append, Option-cases,
}
use c_survival_kit.Trie.Node.{Node, Nodes, node, nil, cons, gap, node_prealloc}
use c_survival_kit.Trie.Split.{finish_tail, push_back, split_multi_node}
use c_survival_kit.Trie.Contents.{
  contents, contents_at, strip_prefix, position, route, contents-nil,
}
use c_survival_kit.Trie.Valid.{
  IsValid, valid, AreValid, filled, empty, null, narrow, multi, Bytes, Filled, Distinct,
}
use c_survival_kit.Trie.Shared.{position-lt}
use c_survival_kit.Trie.Grow.Grown.{Grown, branch-Grown, finish_tail-Tail}

-- Up to twelve children, each behind one character.
pub contents-chars :
    (w : Option ℕ) (nl cl : ℕ) (cs : List ℕ) (ns : Nodes) (k : ℕ) (key : List ℕ)
    → cl ≡ nl
    → length cs ≡ nl
    → nl ≤ node_prealloc
    → contents (node w nl cl cs ns) (k ∷ key)
      ≡ (elim (position k cs) [ none ↦ none | some i ↦ contents_at ns i key ])
unfolding contents position strip_prefix route
contents-chars w zero cl [] ns k key e l few = refl
contents-chars w zero cl (c ∷ cs) ns k key e l few = absurd (omega arith)
contents-chars w (suc zero) cl [] ns k key e l few = absurd (omega arith)
contents-chars w (suc zero) cl (c ∷ []) ns k key e l few = ground arith
contents-chars w (suc zero) cl (c ∷ d ∷ cs) ns k key e l few = absurd (omega arith)
contents-chars w (suc (suc n)) cl cs ns k key e l few = elim (Option-cases (position k cs)) [
  | inl at ↦ ground arith
  | inr (i, at) ↦ ground arith
]

position-push :
    (k c : ℕ) (cs : List ℕ)
    → position k (cs ++ (c ∷ [])) ≡ (elim (position k cs) [
      | none ↦ if c == k then some (length cs) else none
      | some i ↦ some i
    ])
unfolding position
position-push k c [] = ground arith
position-push k c (d ∷ cs) = ground (arith, position-push k c cs)

Distinct-push :
    (c : ℕ) (cs : List ℕ) → position c cs ≡ none → Distinct cs → Distinct (cs ++ (c ∷ []))
unfolding position
Distinct-push c [] new u = (refl, tt)
Distinct-push c (d ∷ cs) new u =
    (ground (arith, position-push d c cs), Distinct-push c cs (ground arith) u.1)

Bytes-push : (c : ℕ) (cs : List ℕ) → c < 256 → Bytes cs → Bytes (cs ++ (c ∷ []))
Bytes-push c [] h y = (h, tt)
Bytes-push c (d ∷ cs) h y = (y.0, Bytes-push c cs h y.1)

Filled-push : (n : ℕ) (ns : Nodes) (m : Node) → Filled n ns → Filled (suc n) (push_back ns m)
unfolding push_back
Filled-push zero nil m f = tt
Filled-push zero (cons a ns) m f = elim f [ ]
Filled-push zero (gap ns) m f = elim f [ ]
Filled-push (suc n) nil m f = elim f [ ]
Filled-push (suc n) (cons a ns) m f = Filled-push n ns m f
Filled-push (suc n) (gap ns) m f = elim f [ ]

AreValid-push : {ns : Nodes} {m : Node} → AreValid ns → IsValid m → AreValid (push_back ns m)
unfolding push_back
AreValid-push empty h = filled h empty
AreValid-push (filled v vs) h = filled v (AreValid-push vs h)
AreValid-push (null vs) h = null (AreValid-push vs h)

contents_at-push :
    (n : ℕ) (ns : Nodes) (m : Node) (i : ℕ) (key : List ℕ)
    → Filled n ns
    → contents_at (push_back ns m) i key ≡ (if i == n then contents m key else contents_at ns i key)
unfolding push_back contents
contents_at-push zero nil m zero key f = refl
contents_at-push zero nil m (suc i) key f = ground arith
contents_at-push zero (cons a ns) m i key f = elim f [ ]
contents_at-push zero (gap ns) m i key f = elim f [ ]
contents_at-push (suc n) nil m i key f = elim f [ ]
contents_at-push (suc n) (cons a ns) m zero key f = ground arith
contents_at-push (suc n) (cons a ns) m (suc i) key f = ground (arith, contents_at-push n ns m i key)
contents_at-push (suc n) (gap ns) m i key f = elim f [ ]

push-IsValid :
    (w : Option ℕ) (nl cl : ℕ) (cs : List ℕ) (ns : Nodes) (c : ℕ) {m : Node}
    → cl ≡ nl
    → length cs ≡ nl
    → nl < node_prealloc
    → Distinct cs
    → Bytes cs
    → Filled nl ns
    → AreValid ns
    → c < 256
    → position c cs ≡ none
    → IsValid m
    → IsValid (node w (nl + 1) (cl + 1) (cs ++ (c ∷ [])) (push_back ns m))
push-IsValid w zero cl [] ns c {m} e l few u y f vs h new v =
    valid
      (narrow (omega arith) (omega arith) (omega arith) (omega arith) (h, tt)
        (Filled-push 0 ns m f))
      (AreValid-push vs v)
push-IsValid w zero cl (d ∷ cs) ns c {m} e l few u y f vs h new v = absurd (omega arith)
push-IsValid w (suc n) cl cs ns c {m} e l few u y f vs h new v =
    valid
      (multi (omega arith) (omega arith) (omega arith) (omega (arith, length-append cs (c ∷ [])))
        (Distinct-push c cs new u) (Bytes-push c cs h y)
        (subst (λ n. Filled n (push_back ns m)) {x = suc (suc n)} (omega arith)
          (Filled-push (suc n) ns m f)))
      (AreValid-push vs v)

-- The new character leads to the new branch, and every other one where it did.
contents-push :
    (w : Option ℕ) (nl cl : ℕ) (cs : List ℕ) (ns : Nodes) (c : ℕ) (m : Node)
    → cl ≡ nl
    → length cs ≡ nl
    → nl < node_prealloc
    → Filled nl ns
    → position c cs ≡ none
    → (k : ℕ) (s : List ℕ)
    → contents (node w (nl + 1) (cl + 1) (cs ++ (c ∷ [])) (push_back ns m)) (k ∷ s)
      ≡ (if k == c then contents m s else contents (node w nl cl cs ns) (k ∷ s))
contents-push w nl cl cs ns c m e l few f new k s =
    let before = contents-chars w nl cl cs ns k s e l (omega arith) in
    let after =
      contents-chars w (nl + 1) (cl + 1) (cs ++ (c ∷ [])) (push_back ns m) k s (omega arith)
        (omega (arith, length-append cs (c ∷ []))) (omega arith) in
    elim (Option-cases (position k cs)) [
      | inl at ↦
          ground (arith, before, after, position-push k c cs, contents_at-push nl ns m nl s f)
      | inr (i, at) ↦ ground (
        arith,
        before,
        after,
        position-push k c cs,
        position-lt k cs i at,
        contents_at-push nl ns m i s f,
      )
    ]

-- A leaf, a narrow node of one character or a multi node with room takes the new character.
pub split_multi_node-Grown :
    (w : Option ℕ) (nl cl : ℕ) (cs : List ℕ) (ns : Nodes) (key : List ℕ) (pos v : ℕ)
    → cl ≡ nl
    → length cs ≡ nl
    → nl < node_prealloc
    → Distinct cs
    → Bytes cs
    → Filled nl ns
    → AreValid ns
    → Bytes key
    → get_or key pos 0 < 256
    → position (get_or key pos 0) cs ≡ none
    → Grown
        (contents (node w nl cl cs ns))
        (get_or key pos 0 ∷ drop (suc pos) key)
        v
        (split_multi_node (node w nl cl cs ns) key pos v)
unfolding split_multi_node
split_multi_node-Grown w nl cl cs ns key pos v e l few u y f vs b h new =
    let c = get_or key pos 0 in
    let tail = finish_tail-Tail key pos v b in
    branch-Grown (contents (node w nl cl cs ns)) c (drop (suc pos) key) v (finish_tail key pos v)
      (node w (nl + 1) (cl + 1) (cs ++ (c ∷ [])) (push_back ns (finish_tail key pos v))) tail
      (ground arith) (push-IsValid w nl cl cs ns c e l few u y f vs h new tail.tail_valid)
      (contents-nil _ _ _ _ _ ∙ sym (contents-nil w nl cl cs ns))
      (contents-push w nl cl cs ns c (finish_tail key pos v) e l few f new)
      (λ s. ground (arith, contents-chars w nl cl cs ns c s))
