-- ===== src/Trie/Iter/Members.antt =====
-- The entries of a valid tree are its keys with their values.
use mathlib.Core.Path.{subst}
use mathlib.Core.Option.{some-injective}
use c_survival_kit.Common.{
  ℕ, zero, suc, ◌<◌, ◌≡◌, ◌↔◌, refl, sym, ap, ◌∙◌, ◌⊎◌, inl, inr, Option, none, some, List, [], ◌∷◌,
  ◌++◌, length, arith, length-append, Option-cases,
}
use c_survival_kit.Trie.Node.{Node, Nodes, node, nil, cons, gap, child}
use c_survival_kit.Trie.Contents.{contents, contents_at, contents_at-child, route}
use c_survival_kit.Trie.Valid.{IsValid, AreValid}
use c_survival_kit.Trie.Iter.Passes.{kids_valid, IsValid-Shape}
use c_survival_kit.Trie.Iter.Entries.{Entries, edges, gather, own, entries, entries_at}
use c_survival_kit.Trie.Iter.Listed.{Listed, Listed-gather, gather-Listed}
use c_survival_kit.Trie.Iter.Routes.{edge-route, first-IsValid, gap_valid, rest_valid, route-IsEdge}

own-Listed :
    (o : Option ℕ) (es : Entries) (key : List ℕ) (v : ℕ)
    → Listed key v (own o es)
    → ((key ≡ []) × (o ≡ some v)) ⊎ Listed key v es
own-Listed none es key v l = inr l
own-Listed (some w) es key v (inl (e, f)) = inl (sym e, ap some f)
own-Listed (some w) es key v (inr l) = inr l

Listed-own :
    (o : Option ℕ) (es : Entries) (key : List ℕ) (v : ℕ) → Listed key v es → Listed key v (own o es)
Listed-own none es key v l = l
Listed-own (some w) es key v l = inr l

contents_along :
    (w : Option ℕ) (nl cl : ℕ) (cs : List ℕ) (ns : Nodes) (key rest : List ℕ) (i : ℕ)
    → 0 < length key
    → route nl cl cs key ≡ some (i, rest)
    → contents (node w nl cl cs ns) key ≡ contents_at ns i rest
unfolding contents
contents_along w nl cl cs ns [] rest i long e = absurd (omega arith)
contents_along w nl cl cs ns (k ∷ key) rest i long e = ground arith

pub contents_step :
    (w : Option ℕ) (nl cl : ℕ) (cs : List ℕ) (ns : Nodes) (k : ℕ) (key : List ℕ) (v : ℕ)
    → contents (node w nl cl cs ns) (k ∷ key) ≡ some v
    → (i : ℕ) × (rest : List ℕ) × (route nl cl cs (k ∷ key) ≡ some (i, rest))
      × (contents_at ns i rest ≡ some v)
unfolding contents
contents_step w nl cl cs ns k key v e = elim (Option-cases (route nl cl cs (k ∷ key))) [
  | inl nowhere ↦ absurd (ground arith)
  | inr (ir, way) ↦ (ir.0, ir.1, way, ground arith)
]

kid_of_contents :
    (ns : Nodes) (i : ℕ) (rest : List ℕ) (v : ℕ)
    → contents_at ns i rest ≡ some v
    → (m : Node) × (child ns i ≡ some m)
kid_of_contents ns i rest v e = elim (Option-cases (child ns i)) [
  | inl gone ↦ absurd (ground (arith, contents_at-child ns i rest))
  | inr found ↦ found
]

mutual
  unfolding entries contents entries_at contents_at

  entries_sound :
      (n : Node)
      → IsValid n
      → (key : List ℕ) (v : ℕ) → Listed key v (entries n)
      → contents n key ≡ some v
  entries_sound (node w nl cl cs ns) is key v l =
      elim (own-Listed w (gather (entries_at ns) (edges nl cl cs ns 0)) key v l) [
        | inl (e, f) ↦ ap (contents (node w nl cl cs ns)) e ∙ f
        | inr kids ↦
            let (label, rest, i, edge, e, m) =
              Listed-gather (entries_at ns) (edges nl cl cs ns 0) key v kids in
            let (way, long) = edge-route nl cl cs ns (IsValid-Shape is) label rest i edge in
            ap (contents (node w nl cl cs ns)) e
            ∙ contents_along w nl cl cs ns (label ++ rest) rest i
                (omega (arith, length-append label rest)) way
            ∙ entries_at_sound ns (kids_valid is) i rest v m
      ]

  entries_at_sound :
      (ns : Nodes)
      → AreValid ns
      → (i : ℕ) (key : List ℕ) (v : ℕ) → Listed key v (entries_at ns i)
      → contents_at ns i key ≡ some v
  entries_at_sound nil is i key v l = absurd l
  entries_at_sound (cons n ns) is zero key v l = entries_sound n (first-IsValid is) key v l
  entries_at_sound (cons n ns) is (suc i) key v l = entries_at_sound ns (rest_valid is) i key v l
  entries_at_sound (gap ns) is zero key v l = absurd l
  entries_at_sound (gap ns) is (suc i) key v l = entries_at_sound ns (gap_valid is) i key v l

mutual
  unfolding entries contents entries_at contents_at

  entries_complete :
      (n : Node)
      → IsValid n
      → (key : List ℕ) (v : ℕ) → contents n key ≡ some v
      → Listed key v (entries n)
  entries_complete (node none nl cl cs ns) is [] v e = cc
  entries_complete (node (some w) nl cl cs ns) is [] v e = inl (refl, some-injective w v e)
  entries_complete (node o nl cl cs ns) is (k ∷ key) v e =
      let (i, rest, way, found) = contents_step o nl cl cs ns k key v e in
      let (m, kid) = kid_of_contents ns i rest v found in
      let (label, edge, split) =
        route-IsEdge nl cl cs ns (IsValid-Shape is) k key rest i m way kid in
      Listed-own o (gather (entries_at ns) (edges nl cl cs ns 0)) (k ∷ key) v (
        subst (λ z. Listed z v (gather (entries_at ns) (edges nl cl cs ns 0))) (sym split)
          (gather-Listed (entries_at ns) (edges nl cl cs ns 0) label rest i v edge
            (entries_at_complete ns (kids_valid is) i rest v found)))

  entries_at_complete :
      (ns : Nodes)
      → AreValid ns
      → (i : ℕ) (key : List ℕ) (v : ℕ) → contents_at ns i key ≡ some v
      → Listed key v (entries_at ns i)
  entries_at_complete nil is i key v e = cc
  entries_at_complete (cons n ns) is zero key v e = entries_complete n (first-IsValid is) key v e
  entries_at_complete (cons n ns) is (suc i) key v e =
      entries_at_complete ns (rest_valid is) i key v e
  entries_at_complete (gap ns) is zero key v e = cc
  entries_at_complete (gap ns) is (suc i) key v e = entries_at_complete ns (gap_valid is) i key v e

pub entries-contents :
    (n : Node)
    → IsValid n
    → (key : List ℕ) (v : ℕ) → Listed key v (entries n) ↔ (contents n key ≡ some v)
entries-contents n is key v = (entries_sound n is key v, entries_complete n is key v)
