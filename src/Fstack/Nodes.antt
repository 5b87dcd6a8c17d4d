-- ===== src/Fstack/Nodes.antt =====
-- What the operations of a free-list stack do with its nodes: none is lost, and none is on both
-- stacks.
use c_survival_kit.Common.{◌≡◌, ◌≢◌, refl, ◌∙◌, true, false, none, some, [], ◌∷◌, arith}
use c_survival_kit.Common.Int.{is_zero}
use c_survival_kit.Stack.Heap.{
  Ptr, null, Node, node, Heap, Run, ok, throws, fill, store, Returns, returns, Returns-bind,
  and_then,
}
use c_survival_kit.Stack.Core
use c_survival_kit.Stack.Core.{Stack}
use c_survival_kit.Stack.Chain.{
  Cells, has, SameBut, SameOn, Disjoint, IsStack, IsChain_frame, IsChain_uncons, IsChain-store,
  not-has_of_none, store_self, store-other,
}
use c_survival_kit.Stack.Ends.{push-cons, pop-cons, pop_empty}
use c_survival_kit.Fstack.Core.{Fstack, grow, push, alloc, pop}

-- The nodes on both stacks, each from its front.
pub record IsFstack {V : Type 0} (h : Heap V) (s : Fstack) (us ns : Cells V) : Type 0 where
  pub used : IsStack h s.used us
  pub unused : IsStack h s.unused ns
  pub apart : Disjoint us ns

-- One node is the result of an operation that writes no other node.
abbrev pub Moved :
    {V : Type 0} → Heap V → Ptr × V → Cells V → Cells V → Ptr × Fstack → Heap V → Type 0
Moved h (p, v) us ns (r, s) g = (r ≡ p) × IsFstack g s us ns × SameBut ((p, v) ∷ []) h g

IsStack-kept :
    {V : Type 0} {h g : Heap V} {s : Stack} {xs : Cells V}
    → IsStack h s xs
    → SameOn xs h g
    → IsStack g s xs
IsStack-kept is same = record {
  chain = IsChain_frame is.chain same;
  back = is.back;
  length = is.length;
}

spared :
    {V : Type 0} {h g : Heap V} (p : Ptr) (v : V) (xs : Cells V)
    → SameBut ((p, v) ∷ []) h g
    → has p xs ≡ false
    → SameOn xs h g
spared p v xs same out a i = same a (ground arith)

first_out :
    {V : Type 0} (p : Ptr) (v : V) (us ns : Cells V) → Disjoint us ((p, v) ∷ ns) → has p us ≡ false
first_out p v us ns apart = ground (arith, apart p)

-- Both operations that move a node take it off one stack and put it onto the other.
transfer :
    {V A : Type 0} {h : Heap V} {Q : A → Heap V → Type 0} {a b : Stack} (p : Ptr) (v : V)
    {xs ys : Cells V} (finish : Ptr → Stack → Stack → A)
    → IsStack h a ((p, v) ∷ xs)
    → IsStack h b ys
    → has p ys ≡ false
    → ((a' b' : Stack) (g : Heap V)
        → IsStack g a' xs
        → IsStack g b' ((p, v) ∷ ys)
        → SameBut ((p, v) ∷ []) h g
        → Q (finish p a' b') g)
    → Returns Q (
        and_then
          (Core.pop a h)
          λ (r, a') g. and_then (Core.push b r g) λ b' f. ok (finish r a' b') f)
transfer p v {xs} {ys} finish is_a is_b off done =
    let (e, ne, out, (q, at, c)) = IsChain_uncons is_a.chain in
    Returns-bind (pop-cons p v is_a) λ (r, a') g (same_node, at', is_a', same). rw same_node (
      Returns-bind (push-cons p v (IsStack-kept is_b (spared p v ys same off)) ne at' off)
        λ b' f (is_b', same'). returns (
          done a' b' f (IsStack-kept is_a' (spared p v xs same' out)) is_b'
            λ i o. same' i o ∙ same i o))

module _ {V : Type 0} {h : Heap V} {s : Fstack} {us ns : Cells V} where
  push-Moved :
      (p : Ptr) (v : V)
      → IsFstack h s us ((p, v) ∷ ns)
      → Returns (Moved h (p, v) ((p, v) ∷ us) ns) (push s h)
  unfolding push
  push-Moved p v is =
      let (e, ne, out, at) = IsChain_uncons is.unused.chain in
      let some_left : is_zero s.unused.length ≡ false = ground (arith, is.unused.length) in
      rw some_left (
        transfer p v (λ r a b. (r, record { unused = a; used = b })) is.unused is.used
          (first_out p v us ns is.apart)
          λ a b g is_a is_b same. (
            refl,
            record { used = is_b; unused = is_a; apart = λ i on. ground (arith, is.apart i) },
            same,
          ))

module _ {V : Type 0} {h : Heap V} {s : Fstack} {us ns : Cells V} where
  pop-Moved :
      (p : Ptr) (v : V)
      → IsFstack h s ((p, v) ∷ us) ns
      → Returns (Moved h (p, v) us ((p, v) ∷ ns)) (pop s h)
  unfolding pop
  pop-Moved p v is =
      let (e, ne, out, at) = IsChain_uncons is.used.chain in
      transfer p v (λ r a b. (r, record { unused = b; used = a })) is.used is.unused
        (is.apart p (ground arith))
        λ a b g is_a is_b same. (
          refl,
          record { used = is_a; unused = is_b; apart = λ i on. ground (arith, is.apart i) },
          same,
        )

  -- `fstack_grow` adds a node to the unused ones.
  pub grow-Moved :
      {q : Ptr} (p : Ptr) (v : V)
      → IsFstack h s us ns
      → p ≢ null
      → h p ≡ some (node v q)
      → has p us ≡ false
      → has p ns ≡ false
      → Returns (λ s' g. IsFstack g s' us ((p, v) ∷ ns) × SameBut ((p, v) ∷ []) h g) (grow s p h)
  unfolding grow
  grow-Moved p v is ne at off_us off_ns =
      Returns-bind (push-cons p v is.unused ne at off_ns) λ unused g (is', same). returns (
        record {
          used = IsStack-kept is.used (spared p v us same off_us);
          unused = is';
          apart = λ a on. ground (arith, is.apart a);
        },
        same,
      )

module _ {V : Type 0} where
  abbrev pub Pushed : Heap V → Cells V → Cells V → Run V (Ptr × Fstack) → Type 0
  Pushed h us [] r = r ≡ throws h
  Pushed h us (x ∷ ns) r = Returns (Moved h x (x ∷ us) ns) r

  abbrev pub Popped : Heap V → Cells V → Cells V → Run V (Ptr × Fstack) → Type 0
  Popped h [] ns r = r ≡ throws h
  Popped h (x ∷ us) ns r = Returns (Moved h x us (x ∷ ns)) r

  abbrev pub Allocated : Heap V → Ptr → V → Cells V → Cells V → Run V (Ptr × Fstack) → Type 0
  Allocated h block v us [] r = Returns (Moved h (block, v) ((block, v) ∷ us) []) r
  Allocated h block v us (x ∷ ns) r = Returns (Moved h x (x ∷ us) ns) r

module _ {V : Type 0} {h : Heap V} {s : Fstack} where
  -- `fstack_push` takes the first unused node to the front of the used ones; without one, it throws
  -- and writes nothing.
  pub push-Pushed : {us : Cells V} (ns : Cells V) → IsFstack h s us ns → Pushed h us ns (push s h)
  unfolding push
  push-Pushed [] is =
      let no_node : is_zero s.unused.length ≡ true = ground (arith, is.unused.length) in rw no_node
  push-Pushed ((p, v) ∷ ns) is = push-Moved p v is

  -- `fstack_pop` moves the first used node to the front of the unused ones and returns it, with
  -- its value, writing no other node; where no node is used it throws, and writes nothing.
  pub pop-Popped : (us : Cells V) {ns : Cells V} → IsFstack h s us ns → Popped h us ns (pop s h)
  unfolding pop
  pop-Popped [] is = rw (pop_empty is.used)
  pop-Popped ((p, v) ∷ us) is = pop-Moved p v is

  -- `fstack_alloc` never throws: it moves the first unused node to the front of the used ones and
  -- returns it, and only where there is none it puts the new block there, in the place of the
  -- unused node. It writes no other node, and no node is on both stacks. The block that the
  -- allocator gives is not null and not in use.
  pub alloc-Allocated :
      (block : Ptr) (junk : Node V) {us : Cells V} (ns : Cells V)
      → IsFstack h s us ns
      → block ≢ null
      → h block ≡ none
      → Allocated h block junk.val us ns (alloc s block junk h)
  unfolding alloc fill
  alloc-Allocated block junk {us} [] is ne free =
      let no_node : is_zero s.unused.length ≡ true = ground (arith, is.unused.length) in
      let off : has block us ≡ false = not-has_of_none block is.used.chain free in
      let used1 : IsStack (store h block junk) s.used us = record {
        chain = IsChain-store block junk is.used.chain off;
        back = is.used.back;
        length = is.used.length;
      } in
      rw no_node (
        Returns-bind (push-cons block junk.val used1 ne (store_self h block junk) off)
          λ used g (is', same). returns (
            refl,
            record {
              used = is';
              unused = IsStack-kept is.unused (λ a i. absurd (ground arith));
              apart = λ a i. refl;
            },
            λ a o. same a o ∙ store-other h block junk a (ground arith),
          ))
  alloc-Allocated block junk (x ∷ ns) is ne free =
      let some_left : is_zero s.unused.length ≡ false = ground (arith, is.unused.length) in
      rw some_left (push-Moved x.0 x.1 is)
