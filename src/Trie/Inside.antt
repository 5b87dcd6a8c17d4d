-- ===== src/Trie/Inside.antt =====
-- The keys that survival_kit/trie.c takes for others: `skit_exact_match` does not look at
-- `n_chars_into_node`, so a key that ends inside the characters of a narrow node with a value is
-- treated as if it were that node's own key.
use c_survival_kit.Common.{
  ℕ, zero, suc, ◌<◌, ◌≡◌, refl, ◌∙◌, Bool, true, false, ◌&&◌, Option, none, some, List, [], ◌∷◌,
  leb, ◌==◌, arith, length,
}
use c_survival_kit.Trie.Node.{Node, Nodes, NodePath, node, nil, cons, gap, child}
use c_survival_kit.Trie.Contents.{route, Walk, here, next}
use c_survival_kit.Trie.Shared.{shared, strip_prefix-none}
use c_survival_kit.Trie.Lookup.{EndsInside, route_stops}

-- The rest of a key ends inside the characters of this node, which has a value.
abbrev pub stops_inside : Option ℕ → ℕ → List ℕ → List ℕ → Bool
stops_inside none nl cs rest = false
stops_inside (some v) nl cs rest = nl == 1 && leb (length rest) (shared cs rest)

unfoldable mutual
  pub ends_inside : Node → List ℕ → Bool
  ends_inside (node w nl cl cs ns) [] = false
  ends_inside (node w nl cl cs ns) (k ∷ key) = elim (route nl cl cs (k ∷ key)) [
    | none ↦ stops_inside w nl cs (k ∷ key)
    | some (i, t) ↦ ends_inside_at ns i t
  ]

  pub ends_inside_at : Nodes → ℕ → List ℕ → Bool
  ends_inside_at nil i key = false
  ends_inside_at (cons n ns) zero key = ends_inside n key
  ends_inside_at (cons n ns) (suc i) key = ends_inside_at ns i key
  ends_inside_at (gap ns) zero key = false
  ends_inside_at (gap ns) (suc i) key = ends_inside_at ns i key

ends_inside_at-child :
    (ns : Nodes) (i : ℕ) (key : List ℕ) {kid : Node}
    → child ns i ≡ some kid
    → ends_inside_at ns i key ≡ ends_inside kid key
unfolding ends_inside child
ends_inside_at-child nil i key e = cc
ends_inside_at-child (cons n ns) zero key e = cc
ends_inside_at-child (cons n ns) (suc i) key e = ends_inside_at-child ns i key e
ends_inside_at-child (gap ns) zero key e = cc
ends_inside_at-child (gap ns) (suc i) key e = ends_inside_at-child ns i key e

ends_inside-Walk :
    {n m : Node} {p : NodePath} {key rest : List ℕ}
    → Walk n p key m rest
    → ends_inside n key ≡ ends_inside m rest
unfolding ends_inside
ends_inside-Walk here = refl
ends_inside-Walk (next {ns} {t} {i} {kid} r c w) =
    ground (arith, ends_inside_at-child ns i t c, ends_inside-Walk w)

at_place :
    (owner cl : ℕ) (cs : List ℕ) (ns : Nodes) (rest : List ℕ)
    → 0 < length rest
    → length rest < length cs
    → shared cs rest ≡ length rest
    → ends_inside (node (some owner) 1 cl cs ns) rest ≡ true
unfolding ends_inside
at_place owner cl cs ns [] h less e = absurd (omega arith)
at_place owner cl cs ns (k ∷ t) h less e =
    ground (arith, route_stops 1 cl cs (k ∷ t) refl (strip_prefix-none cs (k ∷ t) (omega arith)))

-- The test finds every such key.
pub ends_inside_complete :
    (root : Node) (key : List ℕ) → EndsInside root key → ends_inside root key ≡ true
ends_inside_complete root key e =
    ends_inside-Walk e.walk
    ∙ at_place e.owner e.chars_len e.chars e.kids e.rest e.some_chars e.fewer e.agree
