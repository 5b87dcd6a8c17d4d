-- ===== src/Trie/Grow/Kinds.antt =====
-- `skit_trie_split_node` of survival_kit/trie.c on every kind of node.
use mathlib.Core.Path.{subst}
use c_survival_kit.Common.{
  ℕ, zero, suc, ◌+◌, ◌-◌, ◌≤◌, ◌<◌, ◌≡◌, ◌≢◌, refl, ap, ◌∙◌, sym, inl, inr, Option, none, some,
  List, [], ◌∷◌, ltb, ◌==◌, arith, get_or, drop, length, length-drop, drop-eq-cons, drop_all,
  drop_add, Bool-cases,
}
use c_survival_kit.Trie.Node.{Node, size, Nodes, node, nil, cons, gap, child, node_prealloc}
use c_survival_kit.Trie.Split.{
  set_value, split_node, split_node_body, split_multi_node, split_linear_front, split_linear_back,
  split_multi_to_table, split_table_node,
}
use c_survival_kit.Trie.Contents.{contents, position}
use c_survival_kit.Trie.Valid.{
  IsValid, occupied, valid, AreValid, filled, Shape, leaf, narrow, multi, table, Bytes, Filled,
  Distinct,
}
use c_survival_kit.Trie.Shared.{shared}
use c_survival_kit.Trie.Chain.{Bytes-drop}
use c_survival_kit.Trie.NextNode.{Closed, at_leaf, in_narrow, at_end, no_char, no_slot}
use c_survival_kit.Trie.Grow.Grown.{Grown}
use c_survival_kit.Trie.Grow.Branch.{split_multi_node-Grown}
use c_survival_kit.Trie.Grow.Table.{split_table_node-Grown, split_multi_to_table-Grown}
use c_survival_kit.Trie.Grow.Narrow.{split_linear_front-Grown, split_linear_back-Grown, shared-drop}

get_or-Bytes : (key : List ℕ) (i : ℕ) → Bytes key → get_or key i 0 < 256
get_or-Bytes [] i b = omega arith
get_or-Bytes (c ∷ key) zero b = b.0
get_or-Bytes (c ∷ key) (suc i) b = get_or-Bytes key i b.1

module _ (w : Option ℕ) (nl cl : ℕ) (cs : List ℕ) (ns : Nodes) (key : List ℕ) (pos v : ℕ) where
  -- The key ends at the node, which takes the value.
  set_value-Grown :
      AreValid ns
      → Shape nl cl cs ns
      → Grown (contents (node w nl cl cs ns)) [] v (some (set_value (node w nl cl cs ns) v))
  unfolding contents
  set_value-Grown vs s = record {
    grown = set_value (node w nl cl cs ns) v;
    result = refl;
    grown_valid = valid s vs;
    adds = refl;
    keeps = others;
  }
    where
      others :
          (r : List ℕ)
          → r ≢ []
          → contents (set_value (node w nl cl cs ns) v) r ≡ contents (node w nl cl cs ns) r
      others [] ne = absurd (ne refl)
      others (k ∷ r) ne = refl

  module _ (split_rest : Node → Option Node) where
    body-value :
        pos ≡ length key
        → split_node_body split_rest (node w nl cl cs ns) 0 key pos v
          ≡ some (set_value (node w nl cl cs ns) v)
    unfolding split_node_body
    body-value e = ground arith

    body-front :
        pos < length key
        → nl ≡ 1
        → 1 < cl
        → split_node_body split_rest (node w nl cl cs ns) 0 key pos v
          ≡ split_linear_front (node w nl cl cs ns) key pos v
    unfolding split_node_body
    body-front h one long = ground arith

    body-back :
        (n : ℕ)
        → 0 < n
        → nl ≡ 1
        → 1 < cl
        → split_node_body split_rest (node w nl cl cs ns) n key pos v
          ≡ split_linear_back split_rest (node w nl cl cs ns) n
    unfolding split_node_body
    body-back n h one long = ground arith

    body-multi :
        pos < length key
        → (nl ≡ 1 → cl ≡ 1)
        → nl < node_prealloc
        → split_node_body split_rest (node w nl cl cs ns) 0 key pos v
          ≡ split_multi_node (node w nl cl cs ns) key pos v
    unfolding split_node_body
    body-multi h short few = elim (Bool-cases (nl == 1)) [
      | inl one ↦ ground (arith, short)
      | inr other ↦ ground arith
    ]

    body-full :
        pos < length key
        → nl ≡ node_prealloc
        → split_node_body split_rest (node w nl cl cs ns) 0 key pos v
          ≡ split_multi_to_table (node w nl cl cs ns) key pos v
    unfolding split_node_body
    body-full h full = ground arith

    body-table :
        pos < length key
        → node_prealloc < nl
        → split_node_body split_rest (node w nl cl cs ns) 0 key pos v
          ≡ split_table_node (node w nl cl cs ns) key pos v
    unfolding split_node_body
    body-table h many = ground arith

cons_nil : {k : ℕ} {t : List ℕ} → k ∷ t ≢ []
cons_nil e = cc

position-nil : (k : ℕ) → position k [] ≡ none
unfolding position
position-nil k = refl

position-head :
    (cs : List ℕ) {k k' : ℕ} {t t' : List ℕ}
    → k ∷ t ≡ k' ∷ t'
    → position k' cs ≡ none
    → position k cs ≡ none
position-head cs e new = cc

child-head :
    (ns : Nodes) {k k' : ℕ} {t t' : List ℕ}
    → k ∷ t ≡ k' ∷ t'
    → child ns k' ≡ none
    → child ns k ≡ none
child-head ns e new = cc

apart : (c k : ℕ) (cs t : List ℕ) → 0 ≡ shared (c ∷ cs) (k ∷ t) → k ≢ c
unfolding shared
apart c k cs t e = ground arith

alone : (c k : ℕ) → k ≢ c → position k (c ∷ []) ≡ none
unfolding position
alone c k e = ground arith

module _ (w : Option ℕ) (key : List ℕ) (pos v : ℕ) (split_rest : Node → Option Node) (b : Bytes key)
    (h : pos < length key) where
  module _ (nl cl : ℕ) (cs : List ℕ) (ns : Nodes) where
    -- What `skit_trie_split_node` makes of a node for the rest of the key.
    IsGrown : Type 0
    IsGrown =
        Grown (contents (node w nl cl cs ns)) (get_or key pos 0 ∷ drop (suc pos) key) v
          (split_node_body split_rest (node w nl cl cs ns) 0 key pos v)

  grown-narrow :
      (cl : ℕ) (cs : List ℕ) (ns : Nodes)
      → cl ≡ length cs
      → 0 < cl
      → cl ≤ node_prealloc
      → Bytes cs
      → Filled 1 ns
      → AreValid ns
      → 0 ≡ shared cs (get_or key pos 0 ∷ drop (suc pos) key)
      → IsGrown 1 cl cs ns
  unfolding IsGrown position
  grown-narrow cl [] ns e some_chars few y f vs s = absurd (omega arith)
  grown-narrow cl (c ∷ cs) nil e some_chars few y f vs s = elim f [ ]
  grown-narrow cl (c ∷ cs) (gap ns) e some_chars few y f vs s = elim f [ ]
  grown-narrow cl (c ∷ cs) (cons kid (cons a ns)) e some_chars few y f vs s = elim f [ ]
  grown-narrow cl (c ∷ cs) (cons kid (gap ns)) e some_chars few y f vs s = elim f [ ]
  grown-narrow cl (c ∷ []) (cons kid nil) e some_chars few y f vs s =
      rw
        (body-multi w 1 cl (c ∷ []) (cons kid nil) key pos v split_rest h (λ _. omega arith)
          (omega arith))
        (split_multi_node-Grown w 1 cl (c ∷ []) (cons kid nil) key pos v (omega arith) refl
          (omega arith) (refl, tt) y f vs b (get_or-Bytes key pos b) (alone c _ (apart c _ [] _ s)))
  grown-narrow cl (c ∷ d ∷ cs) (cons kid nil) e some_chars few y f (filled kid_valid _) s =
      rw (body-front w 1 cl (c ∷ d ∷ cs) (cons kid nil) key pos v split_rest h refl (omega arith)) (
        split_linear_front-Grown w cl c (d ∷ cs) kid key pos v (omega arith) y kid_valid b
          (get_or-Bytes key pos b) (apart c _ (d ∷ cs) _ s))

  grown-multi :
      (nl cl : ℕ) (cs : List ℕ) (ns : Nodes)
      → nl ≤ node_prealloc
      → nl ≢ 1
      → cl ≡ nl
      → length cs ≡ nl
      → Distinct cs
      → Bytes cs
      → Filled nl ns
      → AreValid ns
      → position (get_or key pos 0) cs ≡ none
      → IsGrown nl cl cs ns
  unfolding IsGrown
  grown-multi nl cl cs ns few many e l u y f vs new = elim (Bool-cases (ltb nl node_prealloc)) [
    | inl room ↦
        rw (body-multi w nl cl cs ns key pos v split_rest h (λ q. absurd (many q)) (ground arith)) (
          split_multi_node-Grown w nl cl cs ns key pos v e l (ground arith) u y f vs b
            (get_or-Bytes key pos b) new)
    | inr full ↦ rw (body-full w nl cl cs ns key pos v split_rest h (ground arith)) (
        split_multi_to_table-Grown cs ns (subst (λ z. Filled z ns) (sym l) f) u y w nl cl key pos v
          e l (ground arith) vs b (get_or-Bytes key pos b) new)
  ]

  grown-table :
      (nl cl : ℕ) (cs : List ℕ) (ns : Nodes)
      → node_prealloc < nl
      → cl ≡ 0xff
      → size ns ≡ 256
      → occupied ns ≡ nl
      → AreValid ns
      → child ns (get_or key pos 0) ≡ none
      → IsGrown nl cl cs ns
  unfolding IsGrown
  grown-table nl cl cs ns more a s o vs new =
      rw (body-table w nl cl cs ns key pos v split_rest h more) (
        split_table_node-Grown w nl cl cs ns key pos v more a s o vs b (get_or-Bytes key pos b) new)

  -- Every kind of node, where the key leads no further.
  grown-inside :
      (nl cl : ℕ) (cs : List ℕ) (ns : Nodes)
      → Shape nl cl cs ns
      → AreValid ns
      → Closed w nl cl cs ns (get_or key pos 0 ∷ drop (suc pos) key) 0
      → IsGrown nl cl cs ns
  grown-inside nl cl cs ns (leaf a d e f) vs c =
      grown-multi nl cl cs ns (omega arith) (omega arith) (omega arith) (ap length e ∙ sym a)
        (subst Distinct (sym e) tt) (subst Bytes (sym e) tt) (subst (λ z. Filled z ns) (sym a) f) vs
        (rw e (position-nil _))
  grown-inside nl cl cs ns (narrow a d e few y f) vs (in_narrow one s less) =
      subst (λ z. IsGrown z cl cs ns) (sym a) (grown-narrow cl cs ns d e few y f vs s)
  grown-inside nl cl cs ns (narrow a d e few y f) vs (at_leaf z _) = absurd (omega arith)
  grown-inside nl cl cs ns (narrow a d e few y f) vs (at_end many _ _) = absurd (omega arith)
  grown-inside nl cl cs ns (narrow a d e few y f) vs (no_char many _ _ _ _ _) = absurd (omega arith)
  grown-inside nl cl cs ns (narrow a d e few y f) vs (no_slot many _ _ _ _) = absurd (omega arith)
  grown-inside nl cl cs ns (multi many few d l u y f) vs (no_char _ _ _ _ front new) =
      grown-multi nl cl cs ns few (omega arith) d l u y f vs (position-head cs front new)
  grown-inside nl cl cs ns (multi many few d l u y f) vs (at_leaf z _) = absurd (omega arith)
  grown-inside nl cl cs ns (multi many few d l u y f) vs (in_narrow one s less) =
      absurd (omega arith)
  grown-inside nl cl cs ns (multi many few d l u y f) vs (at_end _ _ nothing) =
      absurd (cons_nil nothing)
  grown-inside nl cl cs ns (multi many few d l u y f) vs (no_slot more _ _ _ _) =
      absurd (omega arith)
  grown-inside nl cl cs ns (table more a s o) vs (no_slot _ _ _ front new) =
      grown-table nl cl cs ns more a s o vs (child-head ns front new)
  grown-inside nl cl cs ns (table more a s o) vs (at_leaf z _) = absurd (omega arith)
  grown-inside nl cl cs ns (table more a s o) vs (in_narrow one _ less) = absurd (omega arith)
  grown-inside nl cl cs ns (table more a s o) vs (at_end _ _ nothing) = absurd (cons_nil nothing)
  grown-inside nl cl cs ns (table more a s o) vs (no_char _ few _ _ _ _) = absurd (omega arith)

-- A node at which the key ends, or leads no further at its first character.
body-Grown :
    (split_rest : Node → Option Node) (w : Option ℕ) (nl cl : ℕ) (cs : List ℕ) (ns : Nodes)
    (key : List ℕ) (pos v : ℕ)
    → Bytes key
    → pos ≤ length key
    → Shape nl cl cs ns
    → AreValid ns
    → Closed w nl cl cs ns (drop pos key) 0
    → Grown
        (contents (node w nl cl cs ns))
        (drop pos key)
        v
        (split_node_body split_rest (node w nl cl cs ns) 0 key pos v)
unfolding IsGrown
body-Grown split_rest w nl cl cs ns key pos v b h s vs c = elim (Bool-cases (pos == length key)) [
  | inl finished ↦
      let e : pos ≡ length key = ground arith in
      let nothing : drop pos key ≡ [] = drop_all pos key (omega arith) in
      rw (body-value w nl cl cs ns key pos v split_rest e, nothing)
        (set_value-Grown w nl cl cs ns key pos v vs s)
  | inr inside ↦
      let less : pos < length key = ground arith in
      let more = drop-eq-cons pos key 0 less in
      subst
        (λ r.
          Grown (contents (node w nl cl cs ns)) r v
            (split_node_body split_rest (node w nl cl cs ns) 0 key pos v))
        (sym more)
        (grown-inside w key pos v split_rest b less nl cl cs ns s vs
          (subst (λ r. Closed w nl cl cs ns r 0) more c))
]

shared-dropped : (cs r : List ℕ) {n : ℕ} → n ≡ shared cs r → shared (drop n cs) (drop n r) ≡ 0
shared-dropped cs r e = rw e (shared-drop cs r)

-- `n` characters into a narrow node, what is left of it is split as a node of its own.
body-Grown_within :
    (w : Option ℕ) (cl : ℕ) (cs : List ℕ) (ns : Nodes) (n : ℕ) (key : List ℕ) (base v : ℕ)
    → Bytes key
    → base + n ≤ length key
    → 0 < n
    → n < length cs
    → n ≡ shared cs (drop base key)
    → cl ≡ length cs
    → cl ≤ node_prealloc
    → Bytes cs
    → Filled 1 ns
    → AreValid ns
    → Grown (contents (node w 1 cl cs ns)) (drop base key) v (
        split_node_body
          (λ node0. split_node_body (λ _. none) node0 0 key (base + n) v)
          (node w 1 cl cs ns)
          n
          key
          (base + n)
          v)
body-Grown_within w cl cs nil n key base v b h some_shared less s e few y f vs = elim f [ ]
body-Grown_within w cl cs (gap ns) n key base v b h some_shared less s e few y f vs = elim f [ ]
body-Grown_within w cl cs (cons kid (cons a ns)) n key base v b h some_shared less s e few y f vs =
    elim f [ ]
body-Grown_within w cl cs (cons kid (gap ns)) n key base v b h some_shared less s e few y f vs =
    elim f [ ]
body-Grown_within w cl cs (cons kid nil) n key base v b h some_shared less s e few y f vs =
    let rest_of : Node → Option Node =
      λ node0. split_node_body (λ _. none) node0 0 key (base + n) v in
    let further = drop_add base n (base + n) key refl in
    let at_rest : Closed none 1 (cl - n) (drop n cs) (cons kid nil) (drop (base + n) key) 0 =
      in_narrow refl
        (subst (λ r. 0 ≡ shared (drop n cs) r) (sym further)
          (sym (shared-dropped cs (drop base key) s)))
        (omega (arith, length-drop n cs)) in
    rw
      (body-back w 1 cl cs (cons kid nil) key (base + n) v rest_of n some_shared refl (omega arith))
      (split_linear_back-Grown rest_of w cl n cs kid (drop base key) v some_shared less
        (omega arith) s y
        (subst
          (λ r.
            Grown (contents (node none 1 (cl - n) (drop n cs) (cons kid nil))) r v
              (rest_of (node none 1 (cl - n) (drop n cs) (cons kid nil))))
          further
          (body-Grown (λ _. none) none 1 (cl - n) (drop n cs) (cons kid nil) key (base + n) v b h
            (narrow refl (omega (arith, length-drop n cs)) (omega arith) (omega arith)
              (Bytes-drop n cs y) tt)
            vs at_rest)))

split_node-eq :
    (m : Node) (n : ℕ) (key : List ℕ) (pos v : ℕ)
    → split_node m n key pos v
      ≡ split_node_body (λ node0. split_node_body (λ _. none) node0 0 key pos v) m n key pos v
unfolding split_node
split_node-eq m n key pos v = refl

-- At a valid node where the search of a key of bytes has stopped, `base` characters of the key
-- behind and `n` inside the node, `skit_trie_split_node` passes all its assertions and leaves a
-- valid node that holds the value for the rest of the key and for every other string what it held
-- before.
pub split_node-Grown :
    (w : Option ℕ) (nl cl : ℕ) (cs : List ℕ) (ns : Nodes) (n : ℕ) (key : List ℕ) (base v : ℕ)
    → Bytes key
    → base + n ≤ length key
    → IsValid (node w nl cl cs ns)
    → Closed w nl cl cs ns (drop base key) n
    → Grown
        (contents (node w nl cl cs ns))
        (drop base key)
        v
        (split_node (node w nl cl cs ns) n key (base + n) v)
split_node-Grown w nl cl cs ns zero key base v b h (valid s vs) c =
    let e : base + 0 ≡ base = omega arith in
    rw (split_node-eq (node w nl cl cs ns) 0 key (base + 0) v, e)
      (body-Grown _ w nl cl cs ns key base v b (omega arith) s vs c)
split_node-Grown w nl cl cs ns (suc n) key base v b h (valid (narrow one d e few y f) vs)
      (in_narrow _ s less) =
    subst
      (λ z.
        Grown (contents (node w z cl cs ns)) (drop base key) v
          (split_node (node w z cl cs ns) (suc n) key (base + suc n) v))
      (sym one)
      (rw (split_node-eq (node w 1 cl cs ns) (suc n) key (base + suc n) v)
        (body-Grown_within w cl cs ns (suc n) key base v b h (omega arith) less s d few y f vs))
split_node-Grown w nl cl cs ns (suc n) key base v b h (valid (leaf z _ _ _) vs)
      (in_narrow one _ less) =
    absurd (omega arith)
split_node-Grown w nl cl cs ns (suc n) key base v b h (valid (multi many _ _ _ _ _ _) vs)
      (in_narrow one _ less) =
    absurd (omega arith)
split_node-Grown w nl cl cs ns (suc n) key base v b h (valid (table many _ _ _) vs)
      (in_narrow one _ less) =
    absurd (omega arith)
split_node-Grown w nl cl cs ns (suc n) key base v b h (valid s vs) (at_leaf _ z) =
    absurd (omega arith)
split_node-Grown w nl cl cs ns (suc n) key base v b h (valid s vs) (at_end _ z _) =
    absurd (omega arith)
split_node-Grown w nl cl cs ns (suc n) key base v b h (valid s vs) (no_char _ _ _ z _ _) =
    absurd (omega arith)
split_node-Grown w nl cl cs ns (suc n) key base v b h (valid s vs) (no_slot _ _ z _ _) =
    absurd (omega arith)
