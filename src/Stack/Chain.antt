-- ===== src/Stack/Chain.antt =====
-- What a stack stands for: the nodes that the `next` pointers lead through.
use mathlib.Core.Bool.{or_assoc}
use mathlib.Core.Path.{subst}
use c_survival_kit.Common.{
  ◌≡◌, ◌≢◌, refl, sym, ◌∙◌, Bool, true, false, none, ◌||◌, some, List, [], ◌∷◌, ◌++◌, ◌==◌, arith,
  length,
}
use c_survival_kit.Common.Int.{pos}
use c_survival_kit.Stack.Heap.{Ptr, null, Node, node, Heap, ok, load, store, fill, set_next}
use c_survival_kit.Stack.Core.{Stack}

-- The address and the value of each node, from the front.
abbrev pub Cells : Type 0 → Type 0
Cells V = List (Ptr × V)

module _ {V : Type 0} where
  abbrev pub has : Ptr → Cells V → Bool
  has a [] = false
  has a ((b, v) ∷ xs) = (a == b) || has a xs

  abbrev pub last_ptr : Ptr → Cells V → Ptr
  last_ptr d [] = d
  last_ptr d ((a, v) ∷ xs) = last_ptr a xs

  -- `h` and `g` agree outside `xs`, and on `xs`.
  abbrev pub SameBut : Cells V → Heap V → Heap V → Type 0
  SameBut xs h g = (a : Ptr) → has a xs ≡ false → g a ≡ h a

  abbrev pub SameOn : Cells V → Heap V → Heap V → Type 0
  SameOn xs h g = (a : Ptr) → has a xs ≡ true → g a ≡ h a

  abbrev pub Disjoint : Cells V → Cells V → Type 0
  Disjoint xs ys = (a : Ptr) → has a xs ≡ true → has a ys ≡ false

  -- An address that holds a node, and whose value is `v`.
  abbrev pub Holds : Heap V → Ptr → V → Type 0
  Holds h p v = (p ≢ null) × ((q : Ptr) × (h p ≡ some (node v q)))

  -- From `p` the `next` pointers lead through the distinct nodes `xs` to `stop`.
  pub data IsChain (h : Heap V) : Ptr → Cells V → Ptr → Type 0 where
    end : {p stop : Ptr} → p ≡ stop → IsChain h p [] stop
    link :
        {p a q stop : Ptr} {v : V} {xs : Cells V}
        → p ≡ a
        → a ≢ null
        → has a xs ≡ false
        → h a ≡ some (node v q)
        → IsChain h q xs stop
        → IsChain h p ((a, v) ∷ xs) stop

  pub record IsStack (h : Heap V) (s : Stack) (xs : Cells V) : Type 0 where
    pub chain : IsChain h s.front xs null
    pub back : s.back ≡ last_ptr null xs
    pub length : s.length ≡ pos (length xs)

  pub has-append : (a : Ptr) (xs ys : Cells V) → has a (xs ++ ys) ≡ (has a xs || has a ys)
  has-append a [] ys = refl
  has-append a ((b, v) ∷ xs) ys = rw (has-append a xs ys, or_assoc)

  pub last_ptr-append :
      (d a : Ptr) (v : V) (xs ys : Cells V) → last_ptr d (xs ++ (a, v) ∷ ys) ≡ last_ptr a ys
  last_ptr-append d a v [] ys = refl
  last_ptr-append d a v ((b, w) ∷ xs) ys = last_ptr-append b a v xs ys

module _ {V : Type 0} (h : Heap V) {p q : Ptr} {v : V} (ne : p ≢ null)
    (at : h p ≡ some (node v q)) where
  pub load-ok : load p h ≡ ok (node v q) h
  unfolding load
  load-ok = ground arith

  pub set_next-ok : (r : Ptr) → set_next p r h ≡ ok tt (store h p (node v r))
  unfolding set_next fill
  set_next-ok r = rw load-ok

module _ {V : Type 0} (h : Heap V) (p : Ptr) (n : Node V) where
  pub store_self : store h p n p ≡ some n
  unfolding store
  store_self = ground arith

  pub store-other : (a : Ptr) → (a == p) ≡ false → store h p n a ≡ h a
  unfolding store
  store-other a e = rw e

module _ {V : Type 0} {h : Heap V} where
  -- A chain survives any change that spares its own nodes.
  pub IsChain_frame :
      {g : Heap V} {p stop : Ptr} {xs : Cells V}
      → IsChain h p xs stop
      → SameOn xs h g
      → IsChain g p xs stop
  IsChain_frame (end e) same = end e
  IsChain_frame (link {a} e ne out at c) same =
      link e ne out (same a (ground arith) ∙ at) (IsChain_frame c λ b i. same b (ground arith))

  pub IsChain-store :
      {p stop : Ptr} {xs : Cells V} (a : Ptr) (n : Node V)
      → IsChain h p xs stop
      → has a xs ≡ false
      → IsChain (store h a n) p xs stop
  unfolding store
  IsChain-store a n c out = IsChain_frame c λ b i. ground arith

  pub IsChain-append :
      {p m stop : Ptr} {xs ys : Cells V}
      → IsChain h p xs m
      → IsChain h m ys stop
      → Disjoint xs ys
      → IsChain h p (xs ++ ys) stop
  IsChain-append {stop} {ys} (end e) d apart = subst (λ z. IsChain h z ys stop) (sym e) d
  IsChain-append {ys} (link {a} {xs} e ne out at c) d apart =
      link e ne (rw (has-append a xs ys, out) (apart a (ground arith))) at
        (IsChain-append c d λ b i. apart b (ground arith))

  pub not-has_of_none :
      {p stop : Ptr} {xs : Cells V} (a : Ptr) → IsChain h p xs stop → h a ≡ none → has a xs ≡ false
  not-has_of_none a (end e) free = refl
  not-has_of_none a (link e ne out at c) free = ground (arith, not-has_of_none a c free)

  pub IsChain_uncons :
      {p a stop : Ptr} {v : V} {xs : Cells V}
      → IsChain h p ((a, v) ∷ xs) stop
      → (p ≡ a)
        × (a ≢ null)
        × (has a xs ≡ false)
        × ((q : Ptr) × (h a ≡ some (node v q)) × IsChain h q xs stop)
  IsChain_uncons (link {q} e ne out at c) = (e, ne, out, (q, at, c))

  pub eq_of_end : {p stop : Ptr} → IsChain h p [] stop → p ≡ stop
  eq_of_end (end e) = e

  pub null_front-cons :
      {p stop a : Ptr} {v : V} {xs : Cells V} → IsChain h p ((a, v) ∷ xs) stop → (p == null) ≡ false
  null_front-cons (link e ne _ _ _) = ground arith

  -- The last node of a chain that is not empty, and the chain after a write of that node's `next`.
  pub IsChain_redirect :
      {p stop : Ptr} {xs : Cells V} (a : Ptr) (v : V) (r : Ptr)
      → IsChain h p ((a, v) ∷ xs) stop
      → (w : V) × (q : Ptr) × (last_ptr a xs ≢ null)
        × (h (last_ptr a xs) ≡ some (node w q))
        × (has (last_ptr a xs) ((a, v) ∷ xs) ≡ true)
        × IsChain (store h (last_ptr a xs) (node w r)) p ((a, v) ∷ xs) r
  IsChain_redirect a v r (link {q} e ne out at (end {p} {stop} stops)) =
      (v, q, ne, at, ground arith, link e ne out (store_self h a (node v r)) (end refl))
  IsChain_redirect a v r (link e ne out at (link {a = b} {v = w} {xs} e' ne' out' at' c)) =
      let (last, q, ne_last, at_last, i, d) = IsChain_redirect b w r (link e' ne' out' at' c) in
      (
        last,
        q,
        ne_last,
        at_last,
        ground arith,
        link e ne out (store-other h (last_ptr b xs) (node last r) a (ground arith) ∙ at) d,
      )
