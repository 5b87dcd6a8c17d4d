-- ===== src/Trie/Iter/Listing.antt =====
-- What an iteration from a prefix of `skit_trie_iter_new` (survival_kit/trie.c) is to list.
use mathlib.Core.Path.{subst}
use mathlib.Core.Option.{some-injective}
use c_survival_kit.Common.{
  ℕ, zero, suc, ◌+◌, ◌≤◌, ◌<◌, ◌≡◌, ◌↔◌, refl, sym, ap, ◌∙◌, inl, inr, Option, none, some, List, [],
  ◌∷◌, ◌++◌, max, length, drop, arith, append-nil, append_assoc, length-append, Option-cases,
}
use c_survival_kit.Trie.Node.{Node, Nodes, node, child, NodePath}
use c_survival_kit.Trie.Contents.{
  contents, contents-Walk, route, strip_prefix, route_narrow, Walk, here, next,
}
use c_survival_kit.Trie.Valid.{IsValid, child-IsValid, Walk-IsValid}
use c_survival_kit.Trie.Shared.{shared}
use c_survival_kit.Trie.NextNode.{Closed, at_leaf, in_narrow, at_end, no_char, no_slot}
use c_survival_kit.Trie.Lookup.{contents-Closed, route_stops}
use c_survival_kit.Trie.Iter.Entries.{
  Entries, add_prefix, edges, longest, height, height_at, height_at-child, entries,
}
use c_survival_kit.Trie.Iter.Passes.{kids_valid, IsValid-Shape}
use c_survival_kit.Trie.Iter.Listed.{Listed, IsEdge, Listed-add_prefix, add_prefix-Listed}
use c_survival_kit.Trie.Iter.Routes.{route-IsEdge, strip_prefix-append, strip_prefix_split}
use c_survival_kit.Trie.Iter.Members.{entries-contents, contents_step}

strip_prefix_extend :
    (cs key t x : List ℕ)
    → strip_prefix cs key ≡ some t
    → strip_prefix cs (key ++ x) ≡ some (t ++ x)
unfolding strip_prefix
strip_prefix_extend [] key t x e = ap (λ z. some (z ++ x)) (some-injective key t e)
strip_prefix_extend (c ∷ cs) [] t x e = cc
strip_prefix_extend (c ∷ cs) (k ∷ key) t x e = ground (arith, strip_prefix_extend cs key t x)

route_extend :
    (nl cl : ℕ) (cs : List ℕ) (k : ℕ) (key t x : List ℕ) (i : ℕ)
    → route nl cl cs (k ∷ key) ≡ some (i, t)
    → route nl cl cs (k ∷ key ++ x) ≡ some (i, t ++ x)
unfolding route
route_extend zero cl cs k key t x i e = cc
route_extend (suc zero) cl cs k key t x i e = elim (Option-cases (strip_prefix cs (k ∷ key))) [
  | inl gone ↦ absurd (ground arith)
  | inr (t', strip) ↦ ground (arith, strip_prefix_extend cs (k ∷ key) t' x strip)
]
route_extend (suc (suc n)) cl cs k key t x i e = ground arith

-- A longer key goes the same way.
Walk_extend :
    {n m : Node} {p : NodePath} {key rest : List ℕ} (x : List ℕ)
    → Walk n p key m rest
    → Walk n p (key ++ x) m (rest ++ x)
Walk_extend x here = here
Walk_extend x (next {nl} {cl} {cs} {k} {key} {t} {i} way kid w) =
    next (route_extend nl cl cs k key t x i way) kid (Walk_extend x w)

edge_longest :
    (at : ℕ → ℕ) (label : List ℕ) (i : ℕ) (es : List (List ℕ × ℕ))
    → IsEdge label i es
    → length label + at i ≤ longest at es
unfolding longest
edge_longest at label i [] edge = absurd edge
edge_longest at label i ((l, j) ∷ es) (inl (e, f)) =
    subst (λ z. length z + at i ≤ max (length l + at j) (longest at es)) e
      (subst (λ z. length l + at z ≤ max (length l + at j) (longest at es)) f (omega arith))
edge_longest at label i ((l, j) ∷ es) (inr edge) = omega (arith, edge_longest at label i es edge)

-- What a walk has used of the key, with the height of the node where it ends.
pub height-Walk :
    {n m : Node} {p : NodePath} {key rest : List ℕ}
    → IsValid n
    → Walk n p key m rest
    → length key + height m ≤ height n + length rest
unfolding height
height-Walk is here = omega arith
height-Walk is (next {nl} {cl} {cs} {ns} {k} {key} {t} {rest} {i} {kid} way at w) =
    let (label, edge, split) = route-IsEdge nl cl cs ns (IsValid-Shape is) k key t i kid way at in
    let below = height-Walk (child-IsValid i (kids_valid is) at) w in
    omega (
      arith,
      below,
      edge_longest (height_at ns) label i (edges nl cl cs ns 0) edge,
      height_at-child ns i at,
      ap length split,
      length-append label t,
    )

-- What an iteration from a prefix is to list.
abbrev pub IsListing : Node → List ℕ → Entries → Type 0
IsListing root prefix es =
    (key : List ℕ) (v : ℕ)
    → Listed key v es ↔ (((rest : List ℕ) × (key ≡ prefix ++ rest)) × (contents root key ≡ some v))

-- It lists the entries of the node to which the prefix leads.
pub IsListing-whole :
    (root m : Node) (p : NodePath) (prefix : List ℕ)
    → IsValid root
    → Walk root p prefix m []
    → IsListing root prefix (add_prefix prefix (entries m))
IsListing-whole root m p prefix is walk key v =
    let at_end' : (x : List ℕ) → contents root (prefix ++ x) ≡ contents m x =
      λ x. contents-Walk (Walk_extend x walk) in
    (
      λ l.
          let (rest, e, k) = Listed-add_prefix prefix key v (entries m) l in
          (
            (rest, e),
            ap (contents root) e
                ∙ at_end' rest
                ∙ (entries-contents m (Walk-IsValid walk is) rest v).0 k,
          ),
      λ ((rest, e), found).
          subst (λ z. Listed z v (add_prefix prefix (entries m))) (sym e)
            (add_prefix-Listed prefix rest v (entries m) (
              (entries-contents m (Walk-IsValid walk is) rest v).1
                (sym (at_end' rest) ∙ ap (contents root) (sym e) ∙ found))),
    )

Walk-snoc :
    {n : Node} {p : NodePath} {key : List ℕ} (w : Option ℕ) {nl cl : ℕ} {cs : List ℕ} {ns : Nodes}
    (k : ℕ) (t rest : List ℕ) (i : ℕ) {m : Node}
    → Walk n p key (node w nl cl cs ns) (k ∷ t)
    → route nl cl cs (k ∷ t) ≡ some (i, rest)
    → child ns i ≡ some m
    → Walk n (p ++ (i ∷ [])) key m rest
Walk-snoc w k t rest i here way kid = next way kid here
Walk-snoc w k t rest i (next way' kid' walk) way kid =
    next way' kid' (Walk-snoc w k t rest i walk way kid)

shared_rest : (cs r : List ℕ) → shared cs r ≡ length r → r ++ drop (length r) cs ≡ cs
unfolding shared
shared_rest cs [] e = refl
shared_rest [] (k ∷ r) e = absurd (omega arith)
shared_rest (c ∷ cs) (k ∷ r) e = ground (arith, shared_rest cs r)

shared_extend :
    (cs r x : List ℕ)
    → shared cs r < length r
    → shared cs r < length cs
    → shared cs (r ++ x) ≡ shared cs r
unfolding shared
shared_extend [] r x h g = refl
shared_extend (c ∷ cs) [] x h g = absurd (omega arith)
shared_extend (c ∷ cs) (k ∷ r) x h g = ground (arith, shared_extend cs r x)

append_cancel : (r x y : List ℕ) → r ++ x ≡ r ++ y → x ≡ y
append_cancel [] x y e = e
append_cancel (k ∷ r) x y e = append_cancel r x y (ground arith)

narrow_split :
    (nl cl : ℕ) (cs key : List ℕ) (i : ℕ) (t : List ℕ)
    → nl ≡ 1
    → route nl cl cs key ≡ some (i, t)
    → key ≡ cs ++ t
narrow_split nl cl cs key i t one way = elim (Option-cases (strip_prefix cs key)) [
  | inl gone ↦ absurd (ground (arith, route_stops nl cl cs key one gone))
  | inr (t', strip) ↦
      let same : t' ≡ t = ground (arith, route_narrow nl cl cs key t' one strip) in
      strip_prefix_split cs key t' strip ∙ ap (λ z. cs ++ z) same
]

module _ (root m : Node) (p : NodePath) (prefix : List ℕ) (w : Option ℕ) {nl cl : ℕ} {cs : List ℕ}
    {ns : Nodes} (k : ℕ) (r : List ℕ) (is : IsValid root)
    (walk : Walk root p prefix (node w nl cl cs ns) (k ∷ r)) (one : nl ≡ 1)
    (agree : shared cs (k ∷ r) ≡ suc (length r)) (kid : child ns 0 ≡ some m) where
  spelled : (k ∷ r) ++ drop (suc (length r)) cs ≡ cs
  spelled = shared_rest cs (k ∷ r) agree

  -- With the rest of its characters a prefix that ends inside a narrow node leads to the child.
  pub Walk_skip : Walk root (p ++ (0 ∷ [])) (prefix ++ drop (suc (length r)) cs) m []
  Walk_skip =
      let d = drop (suc (length r)) cs in
      let strip : strip_prefix cs ((k ∷ r) ++ d) ≡ some [] =
        ap (strip_prefix cs) (spelled ∙ sym (append-nil cs)) ∙ strip_prefix-append cs [] in
      Walk-snoc w k (r ++ d) [] 0 (Walk_extend d walk)
        (route_narrow nl cl cs ((k ∷ r) ++ d) [] one strip) kid

  pub IsListing-skip :
      IsListing root prefix (add_prefix (prefix ++ drop (suc (length r)) cs) (entries m))
  IsListing-skip key v =
      let d = drop (suc (length r)) cs in
      let (to, back) = IsListing-whole root m (p ++ (0 ∷ [])) (prefix ++ d) is Walk_skip key v in
      (
        λ l. let ((rest, e), found) = to l in ((d ++ rest, e ∙ append_assoc prefix d rest), found),
        λ ((x, e), found).
            let at_place : contents (node w nl cl cs ns) (k ∷ r ++ x) ≡ some v =
              sym (contents-Walk (Walk_extend x walk)) ∙ ap (contents root) (sym e) ∙ found in
            let (i, t, way, _) = contents_step w nl cl cs ns k (r ++ x) v at_place in
            let split = narrow_split nl cl cs (k ∷ r ++ x) i t one way in
            let tail : x ≡ d ++ t =
              append_cancel (k ∷ r) x (d ++ t)
                (split ∙ ap (λ z. z ++ t) (sym spelled) ∙ append_assoc (k ∷ r) d t) in
            back ((t, e ∙ ap (λ z. prefix ++ z) tail ∙ sym (append_assoc prefix d t)), found),
      )

-- Where the search has stopped in front of the prefix's end, no key has the prefix.
pub IsListing-none :
    (root : Node) (p : NodePath) (prefix : List ℕ) (w : Option ℕ) {nl cl : ℕ} {cs : List ℕ}
    {ns : Nodes} (k : ℕ) (r : List ℕ) {n : ℕ}
    → Walk root p prefix (node w nl cl cs ns) (k ∷ r)
    → Closed w nl cl cs ns (k ∷ r) n
    → n < suc (length r)
    → IsListing root prefix []
IsListing-none root p prefix w {nl} {cl} {cs} {ns} k r {n} walk c less key v = (
  λ l. absurd l,
  λ ((x, e), found).
      let none_there : contents (node w nl cl cs ns) (k ∷ r ++ x) ≡ none =
        contents-Closed w nl cl cs ns k (r ++ x) (longer x c) in
      absurd (
        ground
          (arith, contents-Walk (Walk_extend x walk), ap (contents root) e, none_there, found)),
)
  where
    longer : (x : List ℕ) → Closed w nl cl cs ns (k ∷ r) n → Closed w nl cl cs ns (k ∷ r ++ x) n
    longer x (at_leaf z m) = at_leaf z m
    longer x (in_narrow one e f) =
        in_narrow one (e ∙ sym (shared_extend cs (k ∷ r) x (omega arith) (omega arith))) f
    longer x (at_end many m e) = absurd (ground arith)
    longer x (no_char {k = k'} {key = key'} many few same m e free) =
        no_char {k = k'} {key = key' ++ x} many few same m (ap (λ z. z ++ x) e) free
    longer x (no_slot {k = k'} {key = key'} many ff m e free) =
        no_slot {k = k'} {key = key' ++ x} many ff m (ap (λ z. z ++ x) e) free
