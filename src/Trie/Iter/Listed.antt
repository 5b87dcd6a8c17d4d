-- ===== src/Trie/Iter/Listed.antt =====
-- Lists of entries as sets of keys with values, for the iterator of survival_kit/trie.c.
use mathlib.Core.Path.{subst}
use c_survival_kit.Common.{ℕ, ◌≡◌, refl, sym, ap, ◌⊎◌, inl, inr, List, [], ◌∷◌, ◌++◌}
use c_survival_kit.Trie.Iter.Entries.{Entries, Edges, add_prefix, gather}

-- `es` lists the key with the value.
abbrev pub Listed : List ℕ → ℕ → Entries → Type 0
Listed key v [] = ⊥
Listed key v ((k, w) ∷ es) = ((k ≡ key) × (w ≡ v)) ⊎ Listed key v es

abbrev pub IsEdge : List ℕ → ℕ → Edges → Type 0
IsEdge label i [] = ⊥
IsEdge label i ((l, j) ∷ es) = ((l ≡ label) × (j ≡ i)) ⊎ IsEdge label i es

Listed-append :
    (key : List ℕ) (v : ℕ) (xs ys : Entries)
    → Listed key v (xs ++ ys)
    → Listed key v xs ⊎ Listed key v ys
Listed-append key v [] ys l = inr l
Listed-append key v (x ∷ xs) ys (inl e) = inl (inl e)
Listed-append key v (x ∷ xs) ys (inr l) = elim (Listed-append key v xs ys l) [
  | inl a ↦ inl (inr a)
  | inr b ↦ inr b
]

Listed-left : (key : List ℕ) (v : ℕ) (xs ys : Entries) → Listed key v xs → Listed key v (xs ++ ys)
Listed-left key v [] ys l = absurd l
Listed-left key v (x ∷ xs) ys (inl e) = inl e
Listed-left key v (x ∷ xs) ys (inr l) = inr (Listed-left key v xs ys l)

Listed-right : (key : List ℕ) (v : ℕ) (xs ys : Entries) → Listed key v ys → Listed key v (xs ++ ys)
Listed-right key v [] ys l = l
Listed-right key v (x ∷ xs) ys l = inr (Listed-right key v xs ys l)

pub Listed-add_prefix :
    (p key : List ℕ) (v : ℕ) (es : Entries)
    → Listed key v (add_prefix p es)
    → (rest : List ℕ) × (key ≡ p ++ rest) × Listed rest v es
unfolding add_prefix
Listed-add_prefix p key v [] l = absurd l
Listed-add_prefix p key v ((k, w) ∷ es) (inl (e, f)) = (k, sym e, inl (refl, f))
Listed-add_prefix p key v ((k, w) ∷ es) (inr l) =
    let (rest, e, m) = Listed-add_prefix p key v es l in (rest, e, inr m)

pub add_prefix-Listed :
    (p rest : List ℕ) (v : ℕ) (es : Entries)
    → Listed rest v es
    → Listed (p ++ rest) v (add_prefix p es)
unfolding add_prefix
add_prefix-Listed p rest v [] l = absurd l
add_prefix-Listed p rest v ((k, w) ∷ es) (inl (e, f)) = inl (ap (λ z. p ++ z) e, f)
add_prefix-Listed p rest v ((k, w) ∷ es) (inr l) = inr (add_prefix-Listed p rest v es l)

pub Listed-gather :
    (at : ℕ → Entries) (es : Edges) (key : List ℕ) (v : ℕ)
    → Listed key v (gather at es)
    → (label rest : List ℕ) × (i : ℕ) × IsEdge label i es
      × (key ≡ label ++ rest)
      × Listed rest v (at i)
unfolding gather
Listed-gather at [] key v l = absurd l
Listed-gather at ((label, i) ∷ es) key v l =
    elim (Listed-append key v (add_prefix label (at i)) (gather at es) l) [
      | inl here ↦
          let (rest, e, m) = Listed-add_prefix label key v (at i) here in
          (label, rest, i, inl (refl, refl), e, m)
      | inr there ↦
          let (label', rest, j, edge, e, m) = Listed-gather at es key v there in
          (label', rest, j, inr edge, e, m)
    ]

pub gather-Listed :
    (at : ℕ → Entries) (es : Edges) (label rest : List ℕ) (i v : ℕ)
    → IsEdge label i es
    → Listed rest v (at i)
    → Listed (label ++ rest) v (gather at es)
unfolding gather
gather-Listed at [] label rest i v edge l = absurd edge
gather-Listed at ((label', j) ∷ es) label rest i v (inl (e, f)) l =
    Listed-left (label ++ rest) v (add_prefix label' (at j)) (gather at es) (
      subst (λ z. Listed (z ++ rest) v (add_prefix label' (at j))) e
        (add_prefix-Listed label' rest v (at j) (subst (λ z. Listed rest v (at z)) (sym f) l)))
gather-Listed at ((label', j) ∷ es) label rest i v (inr edge) l =
    Listed-right (label ++ rest) v (add_prefix label' (at j)) (gather at es)
      (gather-Listed at es label rest i v edge l)
