-- ===== src/Trie/Contents.antt =====
-- What a tree of nodes stands for: the value of each key. It is read off the nodes alone, with no
-- use of the search of survival_kit/trie.c, and serves as the specification of search and insertion.
use c_survival_kit.Common.{
  ℕ, zero, suc, ◌<◌, ◌≡◌, ◌≢◌, refl, ap, ◌∙◌, Option, none, some, List, [], ◌∷◌, ◌==◌,
  if◌then◌else◌, arith, Option-cases, inl, inr,
}
use native.Mathlib.Decide.{ℕ_discrete}
use c_survival_kit.Trie.Node.{
  Node, Nodes, node, nil, cons, gap, child, put, NodePath, node_at, replace_at,
}

-- What is left of the key behind the prefix.
unfoldable pub strip_prefix : List ℕ → List ℕ → Option (List ℕ)
strip_prefix [] key = some key
strip_prefix (c ∷ cs) [] = none
strip_prefix (c ∷ cs) (k ∷ key) = let rest = strip_prefix cs key in if k == c then rest else none

unfoldable pub position : ℕ → List ℕ → Option ℕ
position c [] = none
position c (d ∷ cs) =
    let rest = position c cs in
    if d == c then some 0 else elim rest [ none ↦ none | some i ↦ some (suc i) ]

-- The index of the child that a key (not empty) leads to, and the rest of the key.
unfoldable pub route : (nodes_len chars_len : ℕ) → List ℕ → List ℕ → Option (ℕ × List ℕ)
route zero cl cs key = none
route (suc zero) cl cs key = elim (strip_prefix cs key) [ none ↦ none | some t ↦ some (0, t) ]
route (suc (suc n)) cl cs [] = none
route (suc (suc n)) cl cs (k ∷ key) =
    if cl == 0xff
    then some (k, key)
    else elim (position k cs) [ none ↦ none | some i ↦ some (i, key) ]

unfoldable mutual
  pub contents : Node → List ℕ → Option ℕ
  contents (node v nl cl cs ns) [] = v
  contents (node v nl cl cs ns) (k ∷ key) = elim (route nl cl cs (k ∷ key)) [
    | none ↦ none
    | some (i, t) ↦ contents_at ns i t
  ]

  pub contents_at : Nodes → ℕ → List ℕ → Option ℕ
  contents_at nil i key = none
  contents_at (cons n ns) zero key = contents n key
  contents_at (cons n ns) (suc i) key = contents_at ns i key
  contents_at (gap ns) zero key = none
  contents_at (gap ns) (suc i) key = contents_at ns i key

pub contents-nil :
    (v : Option ℕ) (nl cl : ℕ) (cs : List ℕ) (ns : Nodes) → contents (node v nl cl cs ns) [] ≡ v
unfolding contents
contents-nil v nl cl cs ns = refl

pub contents_at-child :
    (ns : Nodes) (i : ℕ) (key : List ℕ)
    → contents_at ns i key ≡ (elim (child ns i) [ none ↦ none | some n ↦ contents n key ])
unfolding contents child
contents_at-child nil i key = refl
contents_at-child (cons n ns) zero key = refl
contents_at-child (cons n ns) (suc i) key = contents_at-child ns i key
contents_at-child (gap ns) zero key = refl
contents_at-child (gap ns) (suc i) key = contents_at-child ns i key

-- A key leads along the path `p` from a node to another, where `rest` of it is left.
pub data Walk : Node → NodePath → List ℕ → Node → List ℕ → Type 0 where
  here : {n : Node} {key : List ℕ} → Walk n [] key n key
  next :
      {v : Option ℕ} {nl cl : ℕ} {cs : List ℕ} {ns : Nodes} {k : ℕ} {key t rest : List ℕ} {i : ℕ}
      {kid m : Node} {p : NodePath}
      → route nl cl cs (k ∷ key) ≡ some (i, t)
      → child ns i ≡ some kid
      → Walk kid p t m rest
      → Walk (node v nl cl cs ns) (i ∷ p) (k ∷ key) m rest

-- A key has in a tree the value that its rest has where it leads.
pub contents-Walk :
    {n m : Node} {p : NodePath} {key rest : List ℕ}
    → Walk n p key m rest
    → contents n key ≡ contents m rest
unfolding contents
contents-Walk here = refl
contents-Walk (next {ns} {t} {i} r c w) = ground (arith, contents_at-child ns i t, contents-Walk w)

pub node_at-Walk :
    {n m : Node} {p : NodePath} {key rest : List ℕ} → Walk n p key m rest → node_at n p ≡ some m
unfolding node_at
node_at-Walk here = refl
node_at-Walk (next r c w) = rw (c, node_at) (node_at-Walk w)

-- Two keys with one route are one key.
strip_prefix_injective :
    (cs key key' : List ℕ) {t : List ℕ}
    → strip_prefix cs key ≡ some t
    → strip_prefix cs key' ≡ some t
    → key ≡ key'
unfolding strip_prefix
strip_prefix_injective [] key key' e e' = cc
strip_prefix_injective (c ∷ cs) [] key' e e' = cc
strip_prefix_injective (c ∷ cs) (k ∷ key) [] e e' = cc
strip_prefix_injective (c ∷ cs) (k ∷ key) (k' ∷ key') {t} e e' =
    ground (arith, strip_prefix_injective cs key key' {t = t})

position_injective :
    (c d : ℕ) (cs : List ℕ) {i : ℕ} → position c cs ≡ some i → position d cs ≡ some i → c ≡ d
unfolding position
position_injective c d [] e e' = cc
position_injective c d (x ∷ cs) {i = zero} e e' = ground arith
position_injective c d (x ∷ cs) {i = suc i} e e' = ground (arith, position_injective c d cs {i = i})

route_injective :
    (nl cl : ℕ) (cs key key' : List ℕ) {i : ℕ} {t : List ℕ}
    → route nl cl cs key ≡ some (i, t)
    → route nl cl cs key' ≡ some (i, t)
    → key ≡ key'
unfolding route
route_injective zero cl cs key key' e e' = cc
route_injective (suc zero) cl cs key key' {t} e e' =
    ground (arith, strip_prefix_injective cs key key' {t = t})
route_injective (suc (suc n)) cl cs [] key' e e' = cc
route_injective (suc (suc n)) cl cs (k ∷ key) [] e e' = cc
route_injective (suc (suc n)) cl cs (k ∷ key) (k' ∷ key') {i} e e' =
    ground (arith, position_injective k k' cs {i = i})

contents_at-put_self :
    (ns : Nodes) (i : ℕ) (m kid : Node) (key : List ℕ)
    → child ns i ≡ some kid
    → contents_at (put ns i m) i key ≡ contents m key
unfolding contents child put
contents_at-put_self nil i m kid key e = cc
contents_at-put_self (cons n ns) zero m kid key e = refl
contents_at-put_self (cons n ns) (suc i) m kid key e = contents_at-put_self ns i m kid key e
contents_at-put_self (gap ns) zero m kid key e = cc
contents_at-put_self (gap ns) (suc i) m kid key e = contents_at-put_self ns i m kid key e

pub contents_at-put_ne :
    (ns : Nodes) (i j : ℕ) (m : Node) (key : List ℕ)
    → i ≢ j
    → contents_at (put ns i m) j key ≡ contents_at ns j key
unfolding contents put
contents_at-put_ne nil i j m key h = refl
contents_at-put_ne (cons n ns) zero zero m key h = absurd (h refl)
contents_at-put_ne (cons n ns) zero (suc j) m key h = refl
contents_at-put_ne (cons n ns) (suc i) zero m key h = refl
contents_at-put_ne (cons n ns) (suc i) (suc j) m key h =
    contents_at-put_ne ns i j m key (λ e. h (ap suc e))
contents_at-put_ne (gap ns) zero zero m key h = absurd (h refl)
contents_at-put_ne (gap ns) zero (suc j) m key h = refl
contents_at-put_ne (gap ns) (suc i) zero m key h = refl
contents_at-put_ne (gap ns) (suc i) (suc j) m key h =
    contents_at-put_ne ns i j m key (λ e. h (ap suc e))

-- The change of a node at the end of a walk gives the key the changed node's value.
pub contents-replace_at :
    (m' : Node) {n m : Node} {p : NodePath} {key rest : List ℕ}
    → Walk n p key m rest
    → contents (replace_at n p m') key ≡ contents m' rest
unfolding replace_at contents
contents-replace_at m' here = refl
contents-replace_at m' (next {ns} {t} {i} {kid} {p} r c w) =
    ground (arith, contents_at-put_self ns i (replace_at kid p m') kid t, contents-replace_at m' w)

-- If it changes the value of no other rest, no other key of the tree has its value changed.
pub contents-replace_at_ne :
    (m' : Node) {n m : Node} {p : NodePath} {key rest : List ℕ}
    → ((s : List ℕ) → s ≢ rest → contents m' s ≡ contents m s)
    → Walk n p key m rest
    → (other : List ℕ) → other ≢ key
    → contents (replace_at n p m') other ≡ contents n other
unfolding replace_at contents
contents-replace_at_ne m' keep here other ne = keep other ne
contents-replace_at_ne m' keep (next {ns} {i} {kid} {p} r c w) [] ne = ground arith
contents-replace_at_ne m' keep (next {nl} {cl} {cs} {ns} {k} {key} {t} {i} {kid} {p} r c w)
      (x ∷ other) ne =
    elim (Option-cases (route nl cl cs (x ∷ other))) [
      | inl e ↦ ground arith
      | inr ((j, s), e) ↦ elim (ℕ_discrete i j) [
        | yes same ↦ ground (
          arith,
          contents_at-put_self ns i (replace_at kid p m') kid s,
          contents_at-child ns i s,
          contents-replace_at_ne m' keep w s (elsewhere j s e same),
        )
        | no apart ↦ ground (arith, contents_at-put_ne ns i j (replace_at kid p m') s apart)
      ]
    ]
  where
    elsewhere : (j : ℕ) (s : List ℕ) → route nl cl cs (x ∷ other) ≡ some (j, s) → i ≡ j → s ≢ t
    elsewhere j s e same e' = ne (route_injective nl cl cs (x ∷ other) (k ∷ key) (e ∙ cc) r)

-- The route of a key at each kind of node.
pub route_narrow :
    (nl cl : ℕ) (cs key t : List ℕ)
    → nl ≡ 1
    → strip_prefix cs key ≡ some t
    → route nl cl cs key ≡ some (0, t)
unfolding route
route_narrow zero cl cs key t one e = absurd (omega arith)
route_narrow (suc zero) cl cs key t one e = ground arith
route_narrow (suc (suc n)) cl cs key t one e = absurd (omega arith)

pub route_multi :
    (nl cl : ℕ) (cs : List ℕ) (k : ℕ) (key : List ℕ)
    → 1 < nl
    → cl ≢ 0xff
    → route nl cl cs (k ∷ key) ≡ (elim (position k cs) [ none ↦ none | some i ↦ some (i, key) ])
unfolding route
route_multi zero cl cs k key many few = absurd (omega arith)
route_multi (suc zero) cl cs k key many few = absurd (omega arith)
route_multi (suc (suc n)) cl cs k key many few = ground arith

pub route_table :
    (nl cl : ℕ) (cs : List ℕ) (k : ℕ) (key : List ℕ)
    → 1 < nl
    → cl ≡ 0xff
    → route nl cl cs (k ∷ key) ≡ some (k, key)
unfolding route
route_table zero cl cs k key many e = absurd (omega arith)
route_table (suc zero) cl cs k key many e = absurd (omega arith)
route_table (suc (suc n)) cl cs k key many e = rw e
