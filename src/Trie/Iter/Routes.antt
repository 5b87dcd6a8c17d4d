-- ===== src/Trie/Iter/Routes.antt =====
-- The edges of a node are the ways that a key can take from it (survival_kit/trie.c).
use mathlib.Core.Path.{subst}
use mathlib.Core.Option.{some-injective}
use c_survival_kit.Common.{
  ℕ, zero, suc, ◌+◌, ◌≤◌, ◌<◌, ◌≡◌, refl, sym, ap, ◌∙◌, ◌⊎◌, inl, inr, true, false, ◌&&◌, Option,
  none, some, List, [], ◌∷◌, ◌++◌, ltb, ◌==◌, length, arith, Bool-cases, Option-cases,
}
use c_survival_kit.Trie.Node.{Node, Nodes, nil, cons, gap, child, size}
use c_survival_kit.Trie.Contents.{
  position, route, strip_prefix, route_narrow, route_multi, route_table,
}
use c_survival_kit.Trie.Valid.{
  IsValid, AreValid, filled, null, Shape, leaf, narrow, multi, table, Bytes, Filled-child,
}
use c_survival_kit.Trie.Lookup.{route_stops}
use c_survival_kit.Trie.Iter.Entries.{slot, char_edges, edges}
use c_survival_kit.Trie.Iter.Listed.{IsEdge}

char_edge-slot :
    (k c : ℕ) (at : ℕ → Option ℕ) (label : List ℕ) (i : ℕ)
    → IsEdge label i (char_edges k c at)
    → (d : ℕ) × (label ≡ d ∷ []) × (at d ≡ some i)
unfolding char_edges
char_edge-slot zero c at label i edge = absurd edge
char_edge-slot (suc k) c at label i edge = elim (Option-cases (at c)) [
  | inl gone ↦ char_edge-slot k (suc c) at label i (rw (char_edges, gone) at edge)
  | inr (j, got) ↦
      let edge' : ((c ∷ [] ≡ label) × (j ≡ i)) ⊎ IsEdge label i (char_edges k (suc c) at) =
        rw (char_edges, got) at edge in
      elim edge' [
        | inl (e, f) ↦ (c, sym e, got ∙ ap some f)
        | inr later ↦ char_edge-slot k (suc c) at label i later
      ]
]

slot-char-IsEdge :
    (k c : ℕ) (at : ℕ → Option ℕ) (d : ℕ) (i : ℕ)
    → c ≤ d
    → d < c + k
    → at d ≡ some i
    → IsEdge (d ∷ []) i (char_edges k c at)
unfolding char_edges
slot-char-IsEdge zero c at d i lo hi e = absurd (omega arith)
slot-char-IsEdge (suc k) c at d i lo hi e = elim (Bool-cases (c == d)) [
  | inl here ↦
      let same : c ≡ d = ground arith in
      let got = ap at same ∙ e in rw (char_edges, got) (inl (ap (λ x. x ∷ []) same, refl))
  | inr past ↦
      let later = slot-char-IsEdge k (suc c) at d i (ground arith) (omega arith) e in
      elim (Option-cases (at c)) [
        | inl gone ↦ rw (char_edges, gone) later
        | inr (j, got) ↦ rw (char_edges, got) (inr later)
      ]
]

pub strip_prefix-append : (cs rest : List ℕ) → strip_prefix cs (cs ++ rest) ≡ some rest
unfolding strip_prefix
strip_prefix-append [] rest = refl
strip_prefix-append (c ∷ cs) rest = ground (arith, strip_prefix-append cs rest)

pub strip_prefix_split : (cs key rest : List ℕ) → strip_prefix cs key ≡ some rest → key ≡ cs ++ rest
unfolding strip_prefix
strip_prefix_split [] key rest e = some-injective key rest e
strip_prefix_split (c ∷ cs) [] rest e = cc
strip_prefix_split (c ∷ cs) (k ∷ key) rest e = ground (arith, strip_prefix_split cs key rest)

single_slot :
    (cs : List ℕ) (d i : ℕ) (rest : List ℕ)
    → length cs ≡ 1
    → position d cs ≡ some i
    → (strip_prefix cs (d ∷ rest) ≡ some rest) × (i ≡ 0)
unfolding position strip_prefix
single_slot [] d i rest one e = absurd (omega arith)
single_slot (c ∷ []) d i rest one e = ground arith
single_slot (c ∷ x ∷ cs) d i rest one e = absurd (omega arith)

single_label :
    (cs : List ℕ) (k : ℕ) (key rest : List ℕ)
    → length cs ≡ 1
    → k ∷ key ≡ cs ++ rest
    → (position k cs ≡ some 0) × (k ∷ key ≡ (k ∷ []) ++ rest)
unfolding position
single_label [] k key rest one e = absurd (omega arith)
single_label (c ∷ []) k key rest one e = ground arith
single_label (c ∷ x ∷ cs) k key rest one e = absurd (omega arith)

position-lt-256 : (k : ℕ) (cs : List ℕ) (i : ℕ) → Bytes cs → position k cs ≡ some i → k < 256
unfolding position
position-lt-256 k [] i b e = cc
position-lt-256 k (c ∷ cs) zero b e = ground (arith, b.0)
position-lt-256 k (c ∷ cs) (suc i) b e = ground (arith, b.0, position-lt-256 k cs i b.1)

child-lt-size : (ns : Nodes) (i : ℕ) {m : Node} → child ns i ≡ some m → i < size ns
unfolding child size
child-lt-size nil i e = cc
child-lt-size (cons n ns) zero e = omega arith
child-lt-size (cons n ns) (suc i) e = omega (arith, child-lt-size ns i e)
child-lt-size (gap ns) zero e = cc
child-lt-size (gap ns) (suc i) e = omega (arith, child-lt-size ns i e)

module _ (nl cl : ℕ) (cs : List ℕ) (ns : Nodes) where
  edge_slot :
      ((nl == 1) && ltb 1 cl) ≡ false
      → (label : List ℕ) (i : ℕ) → IsEdge label i (edges nl cl cs ns 0)
      → (d : ℕ) × (label ≡ d ∷ []) × (slot cl cs ns d ≡ some i)
  unfolding edges
  edge_slot many label i edge = char_edge-slot 256 0 (slot cl cs ns) label i (rw many at edge)

  slot-IsEdge :
      ((nl == 1) && ltb 1 cl) ≡ false
      → (d i : ℕ) → d < 256
      → slot cl cs ns d ≡ some i
      → IsEdge (d ∷ []) i (edges nl cl cs ns 0)
  unfolding edges
  slot-IsEdge many d i hi e =
      rw many (slot-char-IsEdge 256 0 (slot cl cs ns) d i (omega arith) (omega arith) e)

  slot-chars : cl < 0xff → (d : ℕ) → slot cl cs ns d ≡ position d cs
  unfolding slot
  slot-chars few d = let no : (cl == 0xff) ≡ false = ground arith in rw no

  table_slot : cl ≡ 0xff → (d i : ℕ) → slot cl cs ns d ≡ some i → d ≡ i
  unfolding slot
  table_slot ff d i e = let yes_ff : (cl == 0xff) ≡ true = ground arith in ground arith

  kid_slot : cl ≡ 0xff → (d : ℕ) (m : Node) → child ns d ≡ some m → slot cl cs ns d ≡ some d
  unfolding slot
  kid_slot ff d m kid = let yes_ff : (cl == 0xff) ≡ true = ground arith in rw (yes_ff, kid)

  -- An edge is the route of the keys that begin with its label.
  pub edge-route :
      Shape nl cl cs ns
      → (label rest : List ℕ) (i : ℕ) → IsEdge label i (edges nl cl cs ns 0)
      → (route nl cl cs (label ++ rest) ≡ some (i, rest)) × (0 < length label)
  unfolding edges position
  edge-route (leaf z zc no_chars f) label rest i edge =
      let not_linear : ((nl == 1) && ltb 1 cl) ≡ false = ground arith in
      let (d, e, at) = edge_slot not_linear label i edge in
      let nowhere : position d cs ≡ none = rw no_chars in
      absurd (ground (arith, slot-chars (omega arith) d, nowhere, at))
  edge-route (narrow one len some_chars few bytes f) label rest i edge =
      elim (Bool-cases ((nl == 1) && ltb 1 cl)) [
        | inl linear ↦
            let edge' : ((cs ≡ label) × (0 ≡ i)) ⊎ ⊥ = rw (edges, linear) at edge in
            elim edge' [
              | inl (e, f) ↦
                  rw (← e, ← f)
                    (
                      route_narrow nl cl cs (cs ++ rest) rest one (strip_prefix-append cs rest),
                      omega arith,
                    )
              | inr no_edge ↦ absurd no_edge
            ]
        | inr many ↦
            let (d, e, at) = edge_slot many label i edge in
            let (strip, first) =
              single_slot cs d i rest (ground arith) (sym (slot-chars (omega arith) d) ∙ at) in
            rw (e, first) (route_narrow nl cl cs (d ∷ rest) rest one strip, omega arith)
      ]
  edge-route (multi more few same len distinct bytes f) label rest i edge =
      let not_linear : ((nl == 1) && ltb 1 cl) ≡ false = ground arith in
      let (d, e, at) = edge_slot not_linear label i edge in
      let found = sym (slot-chars (omega arith) d) ∙ at in
      rw e (route_multi nl cl cs d rest more (omega arith) ∙ rw found, omega arith)
  edge-route (table many ff sized occ) label rest i edge =
      let not_linear : ((nl == 1) && ltb 1 cl) ≡ false = ground arith in
      let (d, e, at) = edge_slot not_linear label i edge in
      rw e (
        route_table nl cl cs d rest (omega arith) ff
            ∙ ap (λ z. some (z, rest)) (table_slot ff d i at),
        omega arith,
      )

  pub route-IsEdge :
      Shape nl cl cs ns
      → (k : ℕ) (key rest : List ℕ) (i : ℕ) (m : Node) → route nl cl cs (k ∷ key) ≡ some (i, rest)
      → child ns i ≡ some m
      → (label : List ℕ) × IsEdge label i (edges nl cl cs ns 0) × (k ∷ key ≡ label ++ rest)
  unfolding edges route
  route-IsEdge (leaf z zc no_chars f) k key rest i m e kid =
      let nowhere : none ≡ some (i, rest) =
        subst (λ n. route n cl cs (k ∷ key) ≡ some (i, rest)) z e in
      absurd (ground arith)
  route-IsEdge (narrow one len some_chars few bytes f) k key rest i m e kid =
      elim (Option-cases (strip_prefix cs (k ∷ key))) [
        | inl no_strip ↦ absurd (ground (arith, e, route_stops nl cl cs (k ∷ key) one no_strip))
        | inr (t, strip) ↦
            let way = sym (route_narrow nl cl cs (k ∷ key) t one strip) ∙ e in
            let first : 0 ≡ i = ground arith in
            let left : t ≡ rest = ground arith in
            let split : k ∷ key ≡ cs ++ rest =
              strip_prefix_split cs (k ∷ key) t strip ∙ ap (λ z. cs ++ z) left in
            elim (Bool-cases ((nl == 1) && ltb 1 cl)) [
              | inl linear ↦ (cs, rw (edges, linear) (inl (refl, first)), split)
              | inr many ↦
                  let (at, split') = single_label cs k key rest (ground arith) split in
                  (
                    k ∷ [],
                    slot-IsEdge many k i (position-lt-256 k cs 0 bytes at)
                        (slot-chars (omega arith) k ∙ at ∙ ap some first),
                    split',
                  )
            ]
      ]
  route-IsEdge (multi more few same len distinct bytes f) k key rest i m e kid =
      let not_linear : ((nl == 1) && ltb 1 cl) ≡ false = ground arith in
      let way = sym (route_multi nl cl cs k key more (omega arith)) ∙ e in
      elim (Option-cases (position k cs)) [
        | inl gone ↦ absurd (ground (arith, way, gone))
        | inr (j, at) ↦
            let same_index : j ≡ i = ground (arith, way, at) in
            let left : key ≡ rest = ground (arith, way, at) in
            (
              k ∷ [],
              slot-IsEdge not_linear k i (position-lt-256 k cs j bytes at)
                  (slot-chars (omega arith) k ∙ at ∙ ap some same_index),
              ap (λ z. k ∷ z) left,
            )
      ]
  route-IsEdge (table many ff sized occ) k key rest i m e kid =
      let not_linear : ((nl == 1) && ltb 1 cl) ≡ false = ground arith in
      let way = sym (route_table nl cl cs k key (omega arith) ff) ∙ e in
      let same_index : k ≡ i = ground arith in
      let left : key ≡ rest = ground arith in
      let below : i < 256 = omega (arith, child-lt-size ns i kid) in
      (
        k ∷ [],
        subst (λ z. IsEdge (z ∷ []) i (edges nl cl cs ns 0)) (sym same_index)
            (slot-IsEdge not_linear i i below (kid_slot ff i m kid)),
        ap (λ z. k ∷ z) left,
      )

pub narrow-Shape :
    {nl cl : ℕ} {cs : List ℕ} {ns : Nodes}
    → Shape nl cl cs ns
    → nl ≡ 1
    → (cl ≡ length cs) × ((m : Node) × (child ns 0 ≡ some m))
narrow-Shape (leaf z zc no_chars f) one = absurd (omega arith)
narrow-Shape {ns} (narrow o len some_chars few bytes f) one =
    (len, Filled-child 1 ns 0 f (omega arith))
narrow-Shape (multi more few same len distinct bytes f) one = absurd (omega arith)
narrow-Shape (table many ff sized occ) one = absurd (omega arith)

pub first-IsValid : {n : Node} {ns : Nodes} → AreValid (cons n ns) → IsValid n
first-IsValid (filled h hs) = h

pub rest_valid : {n : Node} {ns : Nodes} → AreValid (cons n ns) → AreValid ns
rest_valid (filled h hs) = hs

pub gap_valid : {ns : Nodes} → AreValid (gap ns) → AreValid ns
gap_valid (null hs) = hs
