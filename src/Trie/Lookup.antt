-- ===== src/Trie/Lookup.antt =====
-- What the case-sensitive `skit_trie_find` of survival_kit/trie.c says of a key: whether the trie
-- holds it, and where a new branch belongs if it does not.
use mathlib.Core.Path.{subst}
use c_survival_kit.Common.{
  ℕ, zero, suc, ◌+◌, ◌≤◌, ◌<◌, ◌^◌, ◌≡◌, refl, ap, ◌∙◌, inl, inr, Bool, true, false, ◌||◌, ◌&&◌,
  Option, none, some, List, [], ◌∷◌, ◌==◌, arith, drop, drop_all, length, length-drop, Bool-cases,
}
use c_survival_kit.Trie.Node.{Node, Nodes, node, value, have_value, child, NodePath, node_at}
use c_survival_kit.Trie.Find.{find, exact_match, prefix_match, no_match, target}
use c_survival_kit.Trie.Contents.{
  contents, contents_at-child, contents-nil, contents-Walk, position, route, route_multi,
  route_table, strip_prefix, Walk, node_at-Walk,
}
use c_survival_kit.Trie.Valid.{IsValid}
use c_survival_kit.Trie.Shared.{shared, strip_prefix-none}
use c_survival_kit.Trie.NextNode.{Closed, at_leaf, in_narrow, at_end, no_char, no_slot, Buffered}
use c_survival_kit.Trie.Search.{Halt, at_value, closed, coords, find-Ended}

-- The key ends inside the characters of a narrow node that has a value of its own.
pub record EndsInside (root : Node) (key : List ℕ) : Type 0 where
  pub path : NodePath
  pub owner : ℕ
  pub chars_len : ℕ
  pub chars : List ℕ
  pub kids : Nodes
  pub rest : List ℕ
  pub walk : Walk root path key (node (some owner) 1 chars_len chars kids) rest
  pub some_chars : 0 < length rest
  pub fewer : length rest < length chars
  pub agree : shared chars rest ≡ length rest

-- The search of a tree whose root is not NULL.
pub data Lookup (root : Node) (key buf : List ℕ) : Type 0 where
  present :
      {p : NodePath} {place : Node} {pos into : ℕ} {stopped : Bool} {out : List ℕ} {v : ℕ}
      → find (some root) key true buf ≡ some (coords p pos into stopped, out)
      → exact_match root (coords p pos into stopped) (length key) ≡ true
      → contents root key ≡ some v
      → value place ≡ some v
      → Walk root p key place []
      → pos ≡ length key
      → Buffered key 0 pos buf out
      → Lookup root key buf
  absent :
      (base : ℕ) {p : NodePath} {w : Option ℕ} {nl cl : ℕ} {cs : List ℕ} {ns : Nodes} {into : ℕ}
      {out : List ℕ}
      → find (some root) key true buf ≡ some (coords p (base + into) into true, out)
      → exact_match root (coords p (base + into) into true) (length key) ≡ false
      → (prefix_match root (coords p (base + into) into true) (length key)
          || no_match (coords p (base + into) into true) (length key))
        ≡ true
      → contents root key ≡ none
      → Walk root p key (node w nl cl cs ns) (drop base key)
      → Closed w nl cl cs ns (drop base key) into
      → base + into ≤ length key
      → Buffered key 0 (base + into) buf out
      → Lookup root key buf
  inside : EndsInside root key → Lookup root key buf

no_route :
    (w : Option ℕ) (nl cl : ℕ) (cs : List ℕ) (ns : Nodes) (k : ℕ) (t : List ℕ)
    → route nl cl cs (k ∷ t) ≡ none
    → contents (node w nl cl cs ns) (k ∷ t) ≡ none
unfolding contents
no_route w nl cl cs ns k t e = ground arith

no_child :
    (w : Option ℕ) (nl cl : ℕ) (cs : List ℕ) (ns : Nodes) (k : ℕ) (t : List ℕ) {i : ℕ} {s : List ℕ}
    → route nl cl cs (k ∷ t) ≡ some (i, s)
    → child ns i ≡ none
    → contents (node w nl cl cs ns) (k ∷ t) ≡ none
unfolding contents
no_child w nl cl cs ns k t {i} {s} e c = ground (arith, contents_at-child ns i s)

route_leaf : (nl cl : ℕ) (cs key : List ℕ) → nl ≡ 0 → route nl cl cs key ≡ none
unfolding route
route_leaf zero cl cs key z = refl
route_leaf (suc nl) cl cs key z = absurd (omega arith)

pub route_stops :
    (nl cl : ℕ) (cs key : List ℕ) → nl ≡ 1 → strip_prefix cs key ≡ none → route nl cl cs key ≡ none
unfolding route
route_stops zero cl cs key one e = absurd (omega arith)
route_stops (suc zero) cl cs key one e = ground arith
route_stops (suc (suc n)) cl cs key one e = absurd (omega arith)

-- Where the search stops at a node, the node holds nothing for what is left of the key.
pub contents-Closed :
    (w : Option ℕ) (nl cl : ℕ) (cs : List ℕ) (ns : Nodes) (k : ℕ) (t : List ℕ) {n : ℕ}
    → Closed w nl cl cs ns (k ∷ t) n
    → contents (node w nl cl cs ns) (k ∷ t) ≡ none
contents-Closed w nl cl cs ns k t (at_leaf z _) =
    no_route w nl cl cs ns k t (route_leaf nl cl cs (k ∷ t) z)
contents-Closed w nl cl cs ns k t (in_narrow one e less) =
    no_route w nl cl cs ns k t
      (route_stops nl cl cs (k ∷ t) one (strip_prefix-none cs (k ∷ t) (omega arith)))
contents-Closed w nl cl cs ns k t (at_end _ _ nothing) = cc
contents-Closed w nl cl cs ns k t (no_char {k = k'} many few e _ front new) =
    let same : position k cs ≡ none = cc in
    no_route w nl cl cs ns k t (route_multi nl cl cs k t many (omega arith) ∙ rw same refl)
contents-Closed w nl cl cs ns k t (no_slot more e _ front new) =
    no_child w nl cl cs ns k t (route_table nl cl cs k t (omega arith) e) cc

module _ (root : Node) (key : List ℕ) (p : NodePath) {place : Node}
    (at : node_at root p ≡ some place) where
  exact_match-coords :
      (pos into : ℕ) (stopped : Bool)
      → exact_match root (coords p pos into stopped) (length key)
        ≡ (pos == length key && have_value place)
  unfolding exact_match target
  exact_match-coords pos into stopped = ground arith

  no_value :
      (pos into : ℕ)
      → pos ≤ length key
      → exact_match root (coords p pos into true) (length key) ≡ false
      → (prefix_match root (coords p pos into true) (length key)
          || no_match (coords p pos into true) (length key))
        ≡ true
  unfolding exact_match prefix_match no_match target
  no_value pos into h e = ground arith

have_value-value : (n : Node) → have_value n ≡ true → (v : ℕ) × (value n ≡ some v)
have_value-value (node none nl cl cs ns) h = cc
have_value-value (node (some v) nl cl cs ns) h = (v, refl)

contents-value : (n : Node) → contents n [] ≡ value n
contents-value (node w nl cl cs ns) = contents-nil w nl cl cs ns

drop-length : (base : ℕ) (key : List ℕ) → base ≤ length key → drop base key ≡ [] → base ≡ length key
drop-length base key h e =
    let l : length (drop base key) ≡ 0 = ap length e in omega (arith, length-drop base key)

no_owner :
    (w : Option ℕ) (nl cl : ℕ) (cs : List ℕ) (ns : Nodes)
    → have_value (node w nl cl cs ns) ≡ false
    → w ≡ none
no_owner none nl cl cs ns h = refl
no_owner (some v) nl cl cs ns h = cc

contents-stopped :
    (w : Option ℕ) (nl cl : ℕ) (cs : List ℕ) (ns : Nodes) {rest : List ℕ} {n : ℕ}
    → Closed w nl cl cs ns rest n
    → (rest ≡ [] → w ≡ none)
    → contents (node w nl cl cs ns) rest ≡ none
contents-stopped w nl cl cs ns {rest = []} c h = contents-nil w nl cl cs ns ∙ h refl
contents-stopped w nl cl cs ns {rest = k ∷ t} c h = contents-Closed w nl cl cs ns k t c

owned :
    (w : Option ℕ) (nl cl : ℕ) (cs : List ℕ) (ns : Nodes)
    → have_value (node w nl cl cs ns) ≡ true
    → (v : ℕ) × (w ≡ some v)
owned none nl cl cs ns h = cc
owned (some v) nl cl cs ns h = (v, refl)

ends-inside :
    (root : Node) (key : List ℕ) (base : ℕ) {p : NodePath} {w : Option ℕ} {nl cl : ℕ} {cs : List ℕ}
    {ns : Nodes} {into v : ℕ}
    → Walk root p key (node w nl cl cs ns) (drop base key)
    → Closed w nl cl cs ns (drop base key) into
    → 0 < into
    → base + into ≡ length key
    → w ≡ some v
    → EndsInside root key
ends-inside root key base walk (at_leaf _ z) some_into e owner = absurd (omega arith)
ends-inside root key base walk (at_end _ z _) some_into e owner = absurd (omega arith)
ends-inside root key base walk (no_char _ _ _ z _ _) some_into e owner = absurd (omega arith)
ends-inside root key base walk (no_slot _ _ z _ _) some_into e owner = absurd (omega arith)
ends-inside root key base {p} {w} {nl} {cl} {cs} {ns} {into} {v} walk (in_narrow one s less)
      some_into e owner =
    record {
      path = p;
      owner = v;
      chars_len = cl;
      chars = cs;
      kids = ns;
      rest = drop base key;
      walk =
          subst (λ x. Walk root p key (node x 1 cl cs ns) (drop base key)) owner
            (subst (λ z. Walk root p key (node w z cl cs ns) (drop base key)) one walk);
      some_chars = omega (arith, length-drop base key);
      fewer = omega (arith, length-drop base key);
      agree = omega (arith, length-drop base key);
    }

module _ (root : Node) (key buf : List ℕ) (base : ℕ) {p : NodePath} {w : Option ℕ} {nl cl : ℕ}
    {cs : List ℕ} {ns : Nodes} {into : ℕ} {out : List ℕ}
    (result : find (some root) key true buf ≡ some (coords p (base + into) into true, out))
    (walk : Walk root p key (node w nl cl cs ns) (drop base key))
    (stop : Closed w nl cl cs ns (drop base key) into) (within : base + into ≤ length key)
    (buffered : Buffered key 0 (base + into) buf out) where
  exact :
      exact_match root (coords p (base + into) into true) (length key)
      ≡ (base + into == length key && have_value (node w nl cl cs ns))
  exact = exact_match-coords root key p (node_at-Walk walk) (base + into) into true

  -- The search that stopped for want of a child.
  nothing_there :
      exact_match root (coords p (base + into) into true) (length key) ≡ false
      → contents (node w nl cl cs ns) (drop base key) ≡ none
  nothing_there e = contents-stopped w nl cl cs ns stop (λ nothing.
      no_owner w nl cl cs ns (ground (arith, exact, drop-length base key (omega arith) nothing)))

  classify-closed : Lookup root key buf
  classify-closed =
      elim (Bool-cases (exact_match root (coords p (base + into) into true) (length key))) [
        | inr e ↦
            absent base result e
              (no_value root key p (node_at-Walk walk) (base + into) into within e)
              (contents-Walk walk ∙ nothing_there e) walk stop within buffered
        | inl e ↦
            let ends : base + into ≡ length key = ground (arith, exact) in
            let (v, owner) = owned w nl cl cs ns (ground (arith, exact)) in
            elim (Bool-cases (into == 0)) [
              | inl z ↦
                  let nothing : drop base key ≡ [] = drop_all base key (ground arith) in
                  present result e
                    (contents-Walk walk ∙ rw nothing (contents-nil w nl cl cs ns) ∙ owner) owner
                    (subst (λ r. Walk root p key (node w nl cl cs ns) r) nothing walk) ends buffered
              | inr more ↦ inside (ends-inside root key base walk stop (ground arith) ends owner)
            ]
      ]

-- Every search of a valid tree is one of the three.
pub find-Lookup :
    (root : Node) (key buf : List ℕ) → length key < 2 ^ 32 → IsValid root → Lookup root key buf
find-Lookup root key buf short is_valid =
    let e = find-Ended root key buf short is_valid in
    classify e.base e.result e.walk e.halt e.within e.buffered
  where
    classify :
        (base : ℕ) {p : NodePath} {place : Node} {into : ℕ} {stopped : Bool} {out : List ℕ}
        → find (some root) key true buf ≡ some (coords p (base + into) into stopped, out)
        → Walk root p key place (drop base key)
        → Halt place (drop base key) into stopped
        → base + into ≤ length key
        → Buffered key 0 (base + into) buf out
        → Lookup root key buf
    classify base {p} {place} {into} r walk (at_value z nothing h) within b =
        let (v, e) = have_value-value place h in
        let ends = drop-length base key (omega arith) nothing in
        present r
          (exact_match-coords root key p (node_at-Walk walk) (base + into) into false
            ∙ ground arith)
          (contents-Walk walk ∙ rw nothing (contents-value place) ∙ e) e
          (subst (λ t. Walk root p key place t) nothing walk) (omega arith) b
    classify base r walk (closed c) within b = classify-closed root key buf base r walk c within b

-- A key that ends inside a node is not a key of the tree.
pub inside_none : (root : Node) (key : List ℕ) → EndsInside root key → contents root key ≡ none
inside_none root key e =
    contents-Walk e.walk ∙ at_place e.rest e.some_chars (omega (arith, e.agree, e.fewer))
  where
    at_place :
        (rest : List ℕ)
        → 0 < length rest
        → shared e.chars rest < length e.chars
        → contents (node (some e.owner) 1 e.chars_len e.chars e.kids) rest ≡ none
    at_place [] h less = absurd (omega arith)
    at_place (k ∷ t) h less =
        contents-Closed (some e.owner) 1 e.chars_len e.chars e.kids k t (in_narrow refl refl less)
