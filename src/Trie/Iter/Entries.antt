-- ===== src/Trie/Iter/Entries.antt =====
-- What an iteration lists: the keys and values of a tree, read off the nodes in the order of their
-- characters, with no use of the iterator.
use mathlib.Core.Option.{some-injective}
use c_survival_kit.Common.{
  ℕ, zero, suc, ◌+◌, ◌-◌, ◌&&◌, Option, none, some, List, [], ◌∷◌, ◌++◌, map, ltb, ◌==◌,
  if◌then◌else◌, length, max, ◌≡◌, refl, ap,
}
use c_survival_kit.Trie.Node.{Node, Nodes, node, value, nil, cons, gap, child}
use c_survival_kit.Trie.Contents.{position}

abbrev pub Entries : Type 0
Entries = List (List ℕ × ℕ)

unfoldable pub add_prefix : List ℕ → Entries → Entries
add_prefix p es = map (λ (k, v). (p ++ k, v)) es

-- The index of the child behind a character.
unfoldable pub slot : (chars_len : ℕ) → List ℕ → Nodes → ℕ → Option ℕ
slot cl cs ns c =
    if cl == 0xff then elim (child ns c) [ none ↦ none | some m ↦ some c ] else position c cs

-- The ways from a node to its children, each with its label, in the order of the characters from `c`
-- on; `count` characters are asked for.
abbrev pub Edges : Type 0
Edges = List (List ℕ × ℕ)

unfoldable pub char_edges : (count : ℕ) → (c : ℕ) → (ℕ → Option ℕ) → Edges
char_edges zero c at = []
char_edges (suc k) c at =
    let rest = char_edges k (suc c) at in elim (at c) [ none ↦ rest | some i ↦ (c ∷ [], i) ∷ rest ]

unfoldable pub edges : (nodes_len chars_len : ℕ) → List ℕ → Nodes → ℕ → Edges
edges nl cl cs ns c =
    if (nl == 1) && ltb 1 cl
    then if c == 0 then (cs, 0) ∷ [] else []
    else char_edges (256 - c) c (slot cl cs ns)

unfoldable pub gather : (ℕ → Entries) → Edges → Entries
gather at [] = []
gather at ((label, i) ∷ rest) = add_prefix label (at i) ++ gather at rest

abbrev pub own : Option ℕ → Entries → Entries
own none es = es
own (some v) es = ([], v) ∷ es

unfoldable mutual
  pub entries : Node → Entries
  entries (node v nl cl cs ns) = own v (gather (entries_at ns) (edges nl cl cs ns 0))

  pub entries_at : Nodes → ℕ → Entries
  entries_at nil i = []
  entries_at (cons n ns) zero = entries n
  entries_at (cons n ns) (suc i) = entries_at ns i
  entries_at (gap ns) zero = []
  entries_at (gap ns) (suc i) = entries_at ns i

-- What is left of a node's entries when the characters in front of `c` are done.
unfoldable pub entries_from : Node → ℕ → Entries
unfolding entries_at edges
entries_from (node v nl cl cs ns) c = gather (entries_at ns) (edges nl cl cs ns c)

-- A count over edges, and the longest way.
unfoldable pub total : (ℕ → ℕ) → Edges → ℕ
total at [] = 0
total at ((label, i) ∷ rest) = at i + total at rest

unfoldable pub longest : (ℕ → ℕ) → Edges → ℕ
longest at [] = 0
longest at ((label, i) ∷ rest) = max (length label + at i) (longest at rest)

-- The passes that a node takes are fewer than its work, and no key in it is longer than its height.
unfoldable mutual
  pub work : Node → ℕ
  work (node v nl cl cs ns) = 257 + total (work_at ns) (edges nl cl cs ns 0)

  pub work_at : Nodes → ℕ → ℕ
  work_at nil i = 0
  work_at (cons n ns) zero = work n
  work_at (cons n ns) (suc i) = work_at ns i
  work_at (gap ns) zero = 0
  work_at (gap ns) (suc i) = work_at ns i

unfoldable mutual
  pub height : Node → ℕ
  height (node v nl cl cs ns) = longest (height_at ns) (edges nl cl cs ns 0)

  pub height_at : Nodes → ℕ → ℕ
  height_at nil i = 0
  height_at (cons n ns) zero = height n
  height_at (cons n ns) (suc i) = height_at ns i
  height_at (gap ns) zero = 0
  height_at (gap ns) (suc i) = height_at ns i

unfoldable pub work_from : Node → ℕ → ℕ
unfolding work_at edges
work_from (node v nl cl cs ns) c = 257 - c + total (work_at ns) (edges nl cl cs ns c)

unfoldable pub height_from : Node → ℕ → ℕ
unfolding height_at edges
height_from (node v nl cl cs ns) c = longest (height_at ns) (edges nl cl cs ns c)

-- What a child adds.
pub entries_at-child :
    (ns : Nodes) (i : ℕ) {m : Node} → child ns i ≡ some m → entries_at ns i ≡ entries m
unfolding entries_at child
entries_at-child nil i e = cc
entries_at-child (cons n ns) zero e = ap entries (some-injective _ _ e)
entries_at-child (cons n ns) (suc i) e = entries_at-child ns i e
entries_at-child (gap ns) zero e = cc
entries_at-child (gap ns) (suc i) e = entries_at-child ns i e

pub work_at-child : (ns : Nodes) (i : ℕ) {m : Node} → child ns i ≡ some m → work_at ns i ≡ work m
unfolding work_at child
work_at-child nil i e = cc
work_at-child (cons n ns) zero e = ap work (some-injective _ _ e)
work_at-child (cons n ns) (suc i) e = work_at-child ns i e
work_at-child (gap ns) zero e = cc
work_at-child (gap ns) (suc i) e = work_at-child ns i e

pub height_at-child :
    (ns : Nodes) (i : ℕ) {m : Node} → child ns i ≡ some m → height_at ns i ≡ height m
unfolding height_at child
height_at-child nil i e = cc
height_at-child (cons n ns) zero e = ap height (some-injective _ _ e)
height_at-child (cons n ns) (suc i) e = height_at-child ns i e
height_at-child (gap ns) zero e = cc
height_at-child (gap ns) (suc i) e = height_at-child ns i e

pub entries-own : (n : Node) → entries n ≡ own (value n) (entries_from n 0)
unfolding entries entries_from
entries-own (node v nl cl cs ns) = refl

pub work-from : (n : Node) → work n ≡ work_from n 0
unfolding work work_from
work-from (node v nl cl cs ns) = refl

pub height-from : (n : Node) → height n ≡ height_from n 0
unfolding height height_from
height-from (node v nl cl cs ns) = refl
