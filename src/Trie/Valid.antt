-- ===== src/Trie/Valid.antt =====
-- The invariant of a tree of nodes: which of the four kinds each node is, and that a node's lengths
-- and children fit its kind.
use mathlib.Core.Path.{subst}
use mathlib.Core.Option.{some-injective}
use c_survival_kit.Common.{
  ℕ, zero, suc, ◌≤◌, ◌<◌, ◌≡◌, refl, ap, Option, none, some, List, [], ◌∷◌, length, arith,
}
use c_survival_kit.Trie.Node.{
  Node, Nodes, node, nil, cons, gap, child, put, size, NodePath, replace_at, node_prealloc,
}
use c_survival_kit.Trie.Contents.{Walk, here, next, position}

-- Every index below `n` has a child.
abbrev pub Filled : ℕ → Nodes → Type 0
Filled zero nil = Unit {0}
Filled zero (cons m ns) = ⊥
Filled zero (gap ns) = ⊥
Filled (suc n) nil = ⊥
Filled (suc n) (cons m ns) = Filled n ns
Filled (suc n) (gap ns) = ⊥

pub Filled-child :
    (n : ℕ) (ns : Nodes) (i : ℕ) → Filled n ns → i < n → (kid : Node) × (child ns i ≡ some kid)
unfolding child
Filled-child zero ns i f h = absurd (omega arith)
Filled-child (suc n) nil i f h = elim f [ ]
Filled-child (suc n) (cons m ns) zero f h = (m, refl)
Filled-child (suc n) (cons m ns) (suc i) f h = Filled-child n ns i f (omega arith)
Filled-child (suc n) (gap ns) i f h = elim f [ ]

-- The number of pointers in a table that are not NULL.
unfoldable pub occupied : Nodes → ℕ
occupied nil = 0
occupied (cons m ns) = suc (occupied ns)
occupied (gap ns) = occupied ns

-- No character stands twice.
abbrev pub Distinct : List ℕ → Type 0
Distinct [] = Unit {0}
Distinct (c ∷ cs) = (position c cs ≡ none) × Distinct cs

abbrev pub Bytes : List ℕ → Type 0
Bytes [] = Unit {0}
Bytes (c ∷ cs) = (c < 256) × Bytes cs

pub data Shape (nl cl : ℕ) (cs : List ℕ) (ns : Nodes) : Type 0 where
  leaf : nl ≡ 0 → cl ≡ 0 → cs ≡ [] → Filled 0 ns → Shape nl cl cs ns
  narrow :
      nl ≡ 1
      → cl ≡ length cs
      → 0 < cl
      → cl ≤ node_prealloc
      → Bytes cs
      → Filled 1 ns
      → Shape nl cl cs ns
  multi :
      1 < nl
      → nl ≤ node_prealloc
      → cl ≡ nl
      → length cs ≡ nl
      → Distinct cs
      → Bytes cs
      → Filled nl ns
      → Shape nl cl cs ns
  table : node_prealloc < nl → cl ≡ 0xff → size ns ≡ 256 → occupied ns ≡ nl → Shape nl cl cs ns

mutual
  pub data IsValid : Node → Type 0 where
    valid :
        {v : Option ℕ} {nl cl : ℕ} {cs : List ℕ} {ns : Nodes}
        → Shape nl cl cs ns
        → AreValid ns
        → IsValid (node v nl cl cs ns)

  pub data AreValid : Nodes → Type 0 where
    empty : AreValid nil
    filled : {n : Node} {ns : Nodes} → IsValid n → AreValid ns → AreValid (cons n ns)
    null : {ns : Nodes} → AreValid ns → AreValid (gap ns)

pub child-IsValid : {ns : Nodes} (i : ℕ) {n : Node} → AreValid ns → child ns i ≡ some n → IsValid n
unfolding child
child-IsValid i empty e = cc
child-IsValid zero (filled h hs) e = subst IsValid (some-injective _ _ e) h
child-IsValid (suc i) (filled h hs) e = child-IsValid i hs e
child-IsValid zero (null hs) e = cc
child-IsValid (suc i) (null hs) e = child-IsValid i hs e

pub put-AreValid : {ns : Nodes} (i : ℕ) {m : Node} → AreValid ns → IsValid m → AreValid (put ns i m)
unfolding put
put-AreValid i empty h = empty
put-AreValid zero (filled h hs) k = filled k hs
put-AreValid (suc i) (filled h hs) k = filled h (put-AreValid i hs k)
put-AreValid zero (null hs) k = filled k hs
put-AreValid (suc i) (null hs) k = null (put-AreValid i hs k)

pub size-put : (ns : Nodes) (i : ℕ) (m : Node) → size (put ns i m) ≡ size ns
unfolding size put
size-put nil i m = refl
size-put (cons n ns) zero m = refl
size-put (cons n ns) (suc i) m = ap suc (size-put ns i m)
size-put (gap ns) zero m = refl
size-put (gap ns) (suc i) m = ap suc (size-put ns i m)

put-Filled : (k : ℕ) (ns : Nodes) (i : ℕ) (m : Node) → Filled k ns → Filled k (put ns i m)
unfolding put
put-Filled zero nil i m h = tt
put-Filled zero (cons n ns) i m h = elim h [ ]
put-Filled zero (gap ns) i m h = elim h [ ]
put-Filled (suc k) nil i m h = elim h [ ]
put-Filled (suc k) (cons n ns) zero m h = h
put-Filled (suc k) (cons n ns) (suc i) m h = put-Filled k ns i m h
put-Filled (suc k) (gap ns) i m h = elim h [ ]

-- Replacing a child leaves as many children as before.
occupied-put :
    (ns : Nodes) (i : ℕ) (m kid : Node)
    → child ns i ≡ some kid
    → occupied (put ns i m) ≡ occupied ns
unfolding child put occupied
occupied-put nil i m kid e = cc
occupied-put (cons n ns) zero m kid e = refl
occupied-put (cons n ns) (suc i) m kid e = ap suc (occupied-put ns i m kid e)
occupied-put (gap ns) zero m kid e = cc
occupied-put (gap ns) (suc i) m kid e = occupied-put ns i m kid e

put-Shape :
    {nl cl : ℕ} {cs : List ℕ} {ns : Nodes} (i : ℕ) (m : Node) {kid : Node}
    → Shape nl cl cs ns
    → child ns i ≡ some kid
    → Shape nl cl cs (put ns i m)
put-Shape {ns} i m (leaf a b c f) e = leaf a b c (put-Filled 0 ns i m f)
put-Shape {ns} i m (narrow a b c d y f) e = narrow a b c d y (put-Filled 1 ns i m f)
put-Shape {nl} {ns} i m (multi a b c d u y f) e = multi a b c d u y (put-Filled nl ns i m f)
put-Shape {ns} i m {kid} (table a b s o) e =
    table a b (rw size-put s) (rw (occupied-put ns i m kid e) o)

pub Walk-IsValid :
    {n m : Node} {p : NodePath} {key rest : List ℕ} → Walk n p key m rest → IsValid n → IsValid m
Walk-IsValid here v = v
Walk-IsValid (next {i} r c w) (valid s vs) = Walk-IsValid w (child-IsValid i vs c)

-- The invariant survives the change of the node at the end of a walk to another valid node.
pub replace_at-IsValid :
    {m' n m : Node} {p : NodePath} {key rest : List ℕ}
    → IsValid m'
    → Walk n p key m rest
    → IsValid n
    → IsValid (replace_at n p m')
unfolding replace_at
replace_at-IsValid h here v = h
replace_at-IsValid {m'} h (next {i} {kid} {p} r c w) (valid s vs) =
    rw (c, replace_at)
      (valid (put-Shape i (replace_at kid p m') s c)
        (put-AreValid i vs (replace_at-IsValid h w (child-IsValid i vs c))))
