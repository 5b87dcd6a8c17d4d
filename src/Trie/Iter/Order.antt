-- ===== src/Trie/Iter/Order.antt =====
-- The entries of a tree stand in the order of their keys, each key once.
use c_survival_kit.Common.{
  ℕ, zero, suc, ◌≤◌, ◌<◌, ◌≡◌, refl, ◌⊎◌, inl, inr, ◌&&◌, Option, none, some, List, [], ◌∷◌, ◌++◌,
  ltb, ◌==◌, length, arith, append-nil, Bool-cases, Option-cases,
}
use c_survival_kit.Trie.Node.{Node, Nodes, node, nil, cons, gap}
use c_survival_kit.Trie.Valid.{IsValid, AreValid, Shape}
use c_survival_kit.Trie.Iter.Passes.{kids_valid, IsValid-Shape}
use c_survival_kit.Trie.Iter.Routes.{first-IsValid, rest_valid, gap_valid, narrow-Shape}
use c_survival_kit.Trie.Iter.Entries.{
  Entries, add_prefix, slot, char_edges, edges, gather, own, entries, entries_at,
}

-- One key in front of another, by their characters.
abbrev pub Before : List ℕ → List ℕ → Type 0
Before xs [] = ⊥
Before [] (y ∷ ys) = Unit {0}
Before (x ∷ xs) (y ∷ ys) = (x < y) ⊎ ((x ≡ y) × Before xs ys)

abbrev pub AllAfter : List ℕ → Entries → Type 0
AllAfter k [] = Unit {0}
AllAfter k ((l, v) ∷ es) = Before k l × AllAfter k es

abbrev pub InOrder : Entries → Type 0
InOrder [] = Unit {0}
InOrder ((k, v) ∷ es) = AllAfter k es × InOrder es

-- Every key begins with a character from `c` on.
abbrev From : ℕ → Entries → Type 0
From c [] = Unit {0}
From c (([], v) ∷ es) = ⊥
From c ((d ∷ k, v) ∷ es) = (c ≤ d) × From c es

Before-prefix : (p k l : List ℕ) → Before k l → Before (p ++ k) (p ++ l)
Before-prefix [] k l b = b
Before-prefix (c ∷ p) k l b = inr (refl, Before-prefix p k l b)

AllAfter-add_prefix :
    (p k : List ℕ) (es : Entries) → AllAfter k es → AllAfter (p ++ k) (add_prefix p es)
unfolding add_prefix
AllAfter-add_prefix p k [] a = tt
AllAfter-add_prefix p k ((l, v) ∷ es) (b, a) = (Before-prefix p k l b, AllAfter-add_prefix p k es a)

pub InOrder-add_prefix : (p : List ℕ) (es : Entries) → InOrder es → InOrder (add_prefix p es)
unfolding add_prefix
InOrder-add_prefix p [] o = tt
InOrder-add_prefix p ((k, v) ∷ es) (a, o) =
    (AllAfter-add_prefix p k es a, InOrder-add_prefix p es o)

AllAfter-append :
    (k : List ℕ) (xs ys : Entries) → AllAfter k xs → AllAfter k ys → AllAfter k (xs ++ ys)
AllAfter-append k [] ys a b = b
AllAfter-append k (x ∷ xs) ys (h, a) b = (h, AllAfter-append k xs ys a b)

AllAfter-From : (c : ℕ) (k : List ℕ) (es : Entries) → From (suc c) es → AllAfter (c ∷ k) es
AllAfter-From c k [] f = tt
AllAfter-From c k (([], v) ∷ es) f = absurd f
AllAfter-From c k ((d ∷ l, v) ∷ es) (h, f) = (inl (omega arith), AllAfter-From c k es f)

From-trans : (c : ℕ) (es : Entries) → From (suc c) es → From c es
From-trans c [] f = tt
From-trans c (([], v) ∷ es) f = absurd f
From-trans c ((d ∷ l, v) ∷ es) (h, f) = (omega arith, From-trans c es f)

From-char : (c : ℕ) (es fs : Entries) → From (suc c) fs → From c (add_prefix (c ∷ []) es ++ fs)
unfolding add_prefix
From-char c [] fs f = From-trans c fs f
From-char c ((k, v) ∷ es) fs f = (omega arith, From-char c es fs f)

InOrder-char :
    (c : ℕ) (es fs : Entries)
    → InOrder es
    → InOrder fs
    → From (suc c) fs
    → InOrder (add_prefix (c ∷ []) es ++ fs)
unfolding add_prefix
InOrder-char c [] fs o q f = q
InOrder-char c ((k, v) ∷ es) fs (a, o) q f = (
  AllAfter-append (c ∷ k) (add_prefix (c ∷ []) es) fs (AllAfter-add_prefix (c ∷ []) k es a)
      (AllAfter-From c k fs f),
  InOrder-char c es fs o q f,
)

module _ (at : ℕ → Entries) (sorted : (i : ℕ) → InOrder (at i)) (slots : ℕ → Option ℕ) where
  char_edges-InOrder :
      (k c : ℕ)
      → InOrder (gather at (char_edges k c slots)) × From c (gather at (char_edges k c slots))
  unfolding gather char_edges
  char_edges-InOrder zero c = (tt, tt)
  char_edges-InOrder (suc k) c =
      let (o, f) = char_edges-InOrder k (suc c) in
      elim (Option-cases (slots c)) [
        | inl gone ↦
            rw (char_edges, gone) (o, From-trans c (gather at (char_edges k (suc c) slots)) f)
        | inr (i, got) ↦
            rw (char_edges, got)
              (
                InOrder-char c (at i) (gather at (char_edges k (suc c) slots)) (sorted i) o f,
                From-char c (at i) (gather at (char_edges k (suc c) slots)) f,
              )
      ]

AllAfter-nil : (c : ℕ) (es : Entries) → From c es → AllAfter [] es
AllAfter-nil c [] f = tt
AllAfter-nil c (([], v) ∷ es) f = absurd f
AllAfter-nil c ((d ∷ k, v) ∷ es) (h, f) = (tt, AllAfter-nil c es f)

AllAfter-label : (cs : List ℕ) (es : Entries) → 0 < length cs → AllAfter [] (add_prefix cs es)
unfolding add_prefix
AllAfter-label [] es h = absurd (omega arith)
AllAfter-label (c ∷ cs) [] h = tt
AllAfter-label (c ∷ cs) ((k, v) ∷ es) h = (tt, AllAfter-label (c ∷ cs) es h)

edges-InOrder :
    {nl cl : ℕ} {cs : List ℕ} {ns : Nodes} (at : ℕ → Entries)
    → Shape nl cl cs ns
    → ((i : ℕ) → InOrder (at i))
    → InOrder (gather at (edges nl cl cs ns 0)) × AllAfter [] (gather at (edges nl cl cs ns 0))
unfolding edges gather
edges-InOrder {nl} {cl} {cs} {ns} at shape sorted = elim (Bool-cases ((nl == 1) && ltb 1 cl)) [
  | inl linear ↦
      let one : nl ≡ 1 = ground arith in
      let (len, kid) = narrow-Shape shape one in
      let some_chars : 0 < length cs = ground arith in
      rw (edges, linear, append-nil)
        (InOrder-add_prefix cs (at 0) (sorted 0), AllAfter-label cs (at 0) some_chars)
  | inr many ↦
      let (o, f) = char_edges-InOrder at sorted (slot cl cs ns) 256 0 in
      rw (edges, many) (o, AllAfter-nil 0 (gather at (char_edges 256 0 (slot cl cs ns))) f)
]

own-InOrder : (o : Option ℕ) (es : Entries) → InOrder es → AllAfter [] es → InOrder (own o es)
own-InOrder none es s a = s
own-InOrder (some v) es s a = (a, s)

mutual
  unfolding entries entries_at

  node-InOrder : (n : Node) → IsValid n → InOrder (entries n)
  node-InOrder (node w nl cl cs ns) is =
      let (o, a) =
        edges-InOrder (entries_at ns) (IsValid-Shape is) (nodes-InOrder ns (kids_valid is)) in
      own-InOrder w (gather (entries_at ns) (edges nl cl cs ns 0)) o a

  nodes-InOrder : (ns : Nodes) → AreValid ns → (i : ℕ) → InOrder (entries_at ns i)
  nodes-InOrder nil is i = tt
  nodes-InOrder (cons n ns) is zero = node-InOrder n (first-IsValid is)
  nodes-InOrder (cons n ns) is (suc i) = nodes-InOrder ns (rest_valid is) i
  nodes-InOrder (gap ns) is zero = tt
  nodes-InOrder (gap ns) is (suc i) = nodes-InOrder ns (gap_valid is) i

pub entries-InOrder : (n : Node) → IsValid n → InOrder (entries n)
entries-InOrder n is = node-InOrder n is
