-- ===== src/Trie/Grow/Narrow.antt =====
-- Narrow nodes of several characters: `skit_trie_split_linear_node` of survival_kit/trie.c.
use c_survival_kit.Common.{
  ℕ, suc, ◌-◌, ◌≤◌, ◌<◌, ◌≡◌, ◌≢◌, refl, ap, ◌∙◌, sym, inl, inr, Option, none, some, List, [], ◌∷◌,
  ◌++◌, ◌==◌, if◌then◌else◌, arith, get_or, take, drop, length, length-take, length-drop,
  take-append-drop, Option-cases,
}
use c_survival_kit.Trie.Node.{Node, node, nil, cons, child, node_prealloc}
use c_survival_kit.Trie.Split.{insert_non0_str, finish_tail, split_linear_front, split_linear_back}
use c_survival_kit.Trie.Contents.{contents, contents_at, position, strip_prefix, contents-nil}
use c_survival_kit.Trie.Valid.{IsValid, valid, filled, empty, narrow, multi, Bytes, Distinct}
use c_survival_kit.Trie.Chain.{
  beyond, beyond-append, append-strip_prefix, strip_prefix_self, Bytes-take, contents-narrow_none,
  contents-narrow, contents-insert_non0_str, insert_non0_str-IsValid,
}
use c_survival_kit.Trie.Shared.{shared, shared-le, take-shared}
use c_survival_kit.Trie.Grow.Grown.{Grown, branch-Grown, finish_tail-Tail}
use c_survival_kit.Trie.Grow.Branch.{contents-chars}

two-Distinct : (c k : ℕ) → k ≢ c → Distinct (c ∷ k ∷ [])
unfolding position
two-Distinct c k differ = (ground arith, (refl, tt))

position-two :
    (x c k : ℕ)
    → position x (c ∷ k ∷ []) ≡ (if c == x then some 0 else if k == x then some 1 else none)
unfolding position
position-two x c k = ground arith

contents_at-two :
    (a b : Node) (r : List ℕ)
    → (contents_at (cons a (cons b nil)) 0 r ≡ contents a r)
      × (contents_at (cons a (cons b nil)) 1 r ≡ contents b r)
unfolding contents
contents_at-two a b r = (refl, refl)

beyond-cons :
    (c : ℕ) (cs : List ℕ) (kid : Node) (x : ℕ) (r : List ℕ)
    → beyond (c ∷ cs) kid (x ∷ r) ≡ (if x == c then beyond cs kid r else none)
unfolding beyond strip_prefix
beyond-cons c cs kid x r = ground arith

-- Nothing in common: the node becomes a multi node of two characters.
pub split_linear_front-Grown :
    (w : Option ℕ) (cl c : ℕ) (cs : List ℕ) (kid : Node) (key : List ℕ) (pos v : ℕ)
    → 0 < length cs
    → Bytes (c ∷ cs)
    → IsValid kid
    → Bytes key
    → get_or key pos 0 < 256
    → get_or key pos 0 ≢ c
    → Grown
        (contents (node w 1 cl (c ∷ cs) (cons kid nil)))
        (get_or key pos 0 ∷ drop (suc pos) key)
        v
        (split_linear_front (node w 1 cl (c ∷ cs) (cons kid nil)) key pos v)
unfolding split_linear_front child
split_linear_front-Grown w cl c cs kid key pos v some_chars y kid_valid b h differ =
    let k = get_or key pos 0 in
    let tail = finish_tail-Tail key pos v b in
    let m = finish_tail key pos v in
    let node0 = insert_non0_str (length cs) kid cs in
    branch-Grown (contents (node w 1 cl (c ∷ cs) (cons kid nil))) k (drop (suc pos) key) v m
      (node w 2 2 (c ∷ k ∷ []) (cons node0 (cons m nil))) tail refl
      (valid {cs = c ∷ k ∷ []}
        (multi (omega arith) (omega arith) refl refl (two-Distinct c k differ) (y.0, (h, tt)) tt)
        (filled (insert_non0_str-IsValid (length cs) kid cs some_chars (omega arith) y.1 kid_valid)
          (filled tail.tail_valid empty)))
      (contents-nil _ _ _ _ _ ∙ sym (contents-nil w 1 cl (c ∷ cs) (cons kid nil)))
      (λ x r. ground (
        arith,
        contents-chars w 2 2 (c ∷ k ∷ []) (cons node0 (cons m nil)) x r refl refl (omega arith),
        position-two x c k,
        contents_at-two node0 m r,
        contents-insert_non0_str (length cs) kid cs some_chars (omega arith) r,
        contents-narrow w cl c cs kid x r,
        beyond-cons c cs kid x r,
      ))
      (λ r. ground (arith, contents-narrow w cl c cs kid k r, beyond-cons c cs kid k r))

pub shared-drop : (cs r : List ℕ) → shared (drop (shared cs r) cs) (drop (shared cs r) r) ≡ 0
unfolding shared
shared-drop [] r = refl
shared-drop (c ∷ cs) [] = refl
shared-drop (c ∷ cs) (k ∷ r) = ground (arith, shared-drop cs r)

-- The key that shares the whole prefix is the prefix and a rest.
beyond-keeps :
    (a : List ℕ) (old new : Node) (rest : List ℕ)
    → ((s : List ℕ) → s ≢ rest → contents new s ≡ contents old s)
    → (s : List ℕ) → s ≢ a ++ rest
    → beyond a new s ≡ beyond a old s
unfolding beyond
beyond-keeps a old new rest keep s ne = elim (Option-cases (strip_prefix a s)) [
  | inl e ↦ ground arith
  | inr (t, e) ↦ ground (arith, keep t (λ q. ne (append-strip_prefix a s e ∙ rw q refl)))
]

contents-prefix :
    (w : Option ℕ) (cl : ℕ) (cs : List ℕ) (kid : Node) (key : List ℕ)
    → 0 < length cs
    → 0 < length key
    → contents (node w 1 cl cs (cons kid nil)) key ≡ beyond cs kid key
contents-prefix w cl [] kid key h g = absurd (omega arith)
contents-prefix w cl (c ∷ cs) kid [] h g = absurd (omega arith)
contents-prefix w cl (c ∷ cs) kid (k ∷ key) h g = contents-narrow w cl c cs kid k key

-- A common prefix: the node keeps it, and what follows it grows.
pub split_linear_back-Grown :
    (split_rest : Node → Option Node) (w : Option ℕ) (cl n : ℕ) (cs : List ℕ) (kid : Node)
    (rest : List ℕ) (v : ℕ)
    → 0 < n
    → n < length cs
    → length cs ≤ node_prealloc
    → n ≡ shared cs rest
    → Bytes cs
    → Grown
        (contents (node none 1 (cl - n) (drop n cs) (cons kid nil)))
        (drop n rest)
        v
        (split_rest (node none 1 (cl - n) (drop n cs) (cons kid nil)))
    → Grown
        (contents (node w 1 cl cs (cons kid nil)))
        rest
        v
        (split_linear_back split_rest (node w 1 cl cs (cons kid nil)) n)
unfolding split_linear_back beyond
split_linear_back-Grown split_rest w cl n cs kid rest v some_shared less few e y g = record {
  grown = node w 1 n (take n cs) (cons g.grown nil);
  result = rw (g.result, split_linear_back) refl;
  grown_valid =
      valid
        (narrow refl (ground (arith, length-take n cs)) some_shared (omega arith)
          (Bytes-take n cs y) tt)
        (filled g.grown_valid empty);
  adds =
      contents-prefix w n (take n cs) g.grown rest starts continues
      ∙ ap (λ z. beyond (take n cs) g.grown z) (sym whole)
      ∙ rw (strip_prefix_self, beyond) g.adds;
  keeps = others;
}
  where
    starts : 0 < length (take n cs)
    starts = ground (arith, length-take n cs)

    continues : 0 < length rest
    continues = omega (arith, shared-le cs rest)

    whole : take n cs ++ drop n rest ≡ rest
    whole =
        let e' : take n cs ≡ take n rest = rw e (take-shared cs rest) in
        rw e' (take-append-drop n rest)

    others :
        (s : List ℕ)
        → s ≢ rest
        → contents (node w 1 n (take n cs) (cons g.grown nil)) s
          ≡ contents (node w 1 cl cs (cons kid nil)) s
    others [] ne = contents-nil _ _ _ _ _ ∙ sym (contents-nil w 1 cl cs (cons kid nil))
    others (k ∷ s) ne =
        contents-prefix w n (take n cs) g.grown (k ∷ s) starts (omega arith)
        ∙ beyond-keeps (take n cs) (node none 1 (cl - n) (drop n cs) (cons kid nil)) g.grown
            (drop n rest) g.keeps (k ∷ s) (λ q. ne (q ∙ whole))
        ∙ beyond-append (take n cs) (drop n cs) _ kid
            (contents-narrow_none (cl - n) (drop n cs) kid (ground (arith, length-drop n cs)))
            (k ∷ s)
        ∙ ap (λ z. beyond z kid (k ∷ s)) (take-append-drop n cs)
        ∙ sym (contents-prefix w cl cs kid (k ∷ s) (omega arith) (omega arith))
