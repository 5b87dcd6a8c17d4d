-- ===== src/Stack/Ends.antt =====
-- Both ends of a stack: `stack_push`, `stack_append` and `stack_pop`.
use c_survival_kit.Common.{
  ℕ, suc, ◌≡◌, ◌≢◌, refl, sym, ap, ◌∙◌, false, some, [], ◌∷◌, ◌++◌, ◌==◌, if◌then◌else◌, arith,
  length, length-append,
}
use c_survival_kit.Common.Int.{ℤ, pos, ◌+ℤ◌, ◌-ℤ◌}
use c_survival_kit.Stack.Heap.{Ptr, null, node, Heap, throws, store, Returns, returns}
use c_survival_kit.Stack.Core.{Stack, push, append, pop}
use c_survival_kit.Stack.Chain.{
  Cells, has, last_ptr, SameBut, Disjoint, IsChain, end, link, IsStack, load-ok, set_next-ok,
  store_self, store-other, IsChain-store, IsChain-append, IsChain_redirect, eq_of_end,
  null_front-cons, IsChain_uncons, last_ptr-append,
}

increment : (z : ℤ) (n : ℕ) → z ≡ pos n → z +ℤ pos 1 ≡ pos (suc n)
unfolding ◌+ℤ◌
increment z n e = ground arith

decrement : (z : ℤ) (n : ℕ) → z ≡ pos (suc n) → z -ℤ pos 1 ≡ pos n
unfolding ◌-ℤ◌
decrement z n e = ground arith

apart : {V : Type 0} (p : Ptr) (v : V) (xs : Cells V) → has p xs ≡ false → Disjoint xs ((p, v) ∷ [])
apart p v xs out a i = ground arith

module _ {V : Type 0} {h : Heap V} where
  null_back-cons :
      {p stop : Ptr} (d a : Ptr) (v : V) (xs : Cells V)
      → IsChain h p ((a, v) ∷ xs) stop
      → (last_ptr d ((a, v) ∷ xs) == null) ≡ false
  null_back-cons d a v xs c = let (_, _, ne, _, _, _) = IsChain_redirect a v null c in ground arith

  back_after :
      {q b : Ptr} (p : Ptr) (v : V) (xs : Cells V)
      → IsChain h q xs null
      → b ≡ last_ptr null ((p, v) ∷ xs)
      → (if q == null then null else b) ≡ last_ptr null xs
  back_after p v [] c e = rw (eq_of_end c)
  back_after p v (x ∷ xs) c e = rw (null_front-cons c) e

  -- A node in use that is not on the stack becomes the first node. Only that node is written.
  pub push-cons :
      {s : Stack} {xs : Cells V} {q : Ptr} (p : Ptr) (v : V)
      → IsStack h s xs
      → p ≢ null
      → h p ≡ some (node v q)
      → has p xs ≡ false
      → Returns (λ s' g. IsStack g s' ((p, v) ∷ xs) × SameBut ((p, v) ∷ []) h g) (push s p h)
  unfolding push
  push-cons {s} {xs = []} p v is ne at out =
      rw (eq_of_end is.chain, set_next-ok h ne at null)
        (returns (
          record {
            chain = link refl ne refl (store_self h p (node v null)) (end refl);
            back = refl;
            length = increment s.length 0 is.length;
          },
          λ a o. store-other h p (node v null) a (ground arith),
        ))
  push-cons {s} {xs = x ∷ xs} p v is ne at out =
      rw (null_front-cons is.chain, set_next-ok h ne at s.front)
        (returns (
          record {
            chain =
                link refl ne out (store_self h p (node v s.front))
                  (IsChain-store p (node v s.front) is.chain out);
            back = is.back;
            length = increment s.length (suc (length xs)) is.length;
          },
          λ a o. store-other h p (node v s.front) a (ground arith),
        ))

  -- `stack_append` of a node in use that is not on the stack makes it the last one, with the back
  -- and the length that belong to the stack, and writes only it and the nodes of the stack.
  pub append-snoc :
      {s : Stack} {xs : Cells V} {q : Ptr} (p : Ptr) (v : V)
      → IsStack h s xs
      → p ≢ null
      → h p ≡ some (node v q)
      → has p xs ≡ false
      → Returns
          (λ s' g. IsStack g s' (xs ++ (p, v) ∷ []) × SameBut ((p, v) ∷ xs) h g)
          (append s p h)
  unfolding append
  append-snoc {s} {xs = []} p v is ne at out =
      rw (is.back, set_next-ok h ne at null)
        (returns (
          record {
            chain = link refl ne refl (store_self h p (node v null)) (end refl);
            back = refl;
            length = increment s.length 0 is.length;
          },
          λ a o. store-other h p (node v null) a (ground arith),
        ))
  append-snoc {s} {xs = (a, w) ∷ xs} p v is ne at out =
      let fresh = IsChain-store p (node v null) is.chain out in
      let (u, r, ne_last, at_last, i, c) = IsChain_redirect a w p fresh in
      let out_last : (last_ptr a xs == null) ≡ false = ground arith in
      let node_p : store h p (node v null) p ≡ some (node v null) = store_self h p (node v null) in
      let away : (p == last_ptr a xs) ≡ false =
        ground (arith, apart p v ((a, w) ∷ xs) out (last_ptr a xs) i) in
      rw
        (
          is.back,
          out_last,
          set_next-ok h ne at null,
          set_next-ok (store h p (node v null)) ne_last at_last p,
        )
        (returns (
          record {
            chain =
                IsChain-append c
                  (link refl ne refl
                    (store-other (store h p (node v null)) (last_ptr a xs) (node u p) p away
                      ∙ node_p)
                    (end refl))
                  (apart p v ((a, w) ∷ xs) out);
            back = sym (last_ptr-append null p v ((a, w) ∷ xs) []);
            length =
                increment s.length (suc (length xs)) is.length
                ∙ ap pos (omega (arith, length-append xs ((p, v) ∷ [])));
          },
          λ b o.
              store-other (store h p (node v null)) (last_ptr a xs) (node u p) b (ground arith)
              ∙ store-other h p (node v null) b (ground arith),
        ))

  -- `stack_pop` takes the first node off, with its value, and clears its `next`.
  pub pop-cons :
      {s : Stack} (p : Ptr) (v : V) {xs : Cells V}
      → IsStack h s ((p, v) ∷ xs)
      → Returns
          (λ (r, s') g.
            (r ≡ p) × (g p ≡ some (node v null)) × IsStack g s' xs × SameBut ((p, v) ∷ []) h g)
          (pop s h)
  unfolding pop
  pop-cons {s} p v {xs} is =
      let (e, ne, out, (q, at, c)) = IsChain_uncons is.chain in
      rw (e, null_front-cons (link refl ne out at c), load-ok h ne at, set_next-ok h ne at null)
        (returns (
          refl,
          store_self h p (node v null),
          record {
            chain = IsChain-store p (node v null) c out;
            back = back_after p v xs c is.back;
            length = decrement s.length (length xs) is.length;
          },
          λ a o. store-other h p (node v null) a (ground arith),
        ))

  -- On an empty stack it throws and writes nothing.
  pub pop_empty : {s : Stack} → IsStack h s [] → pop s h ≡ throws h
  unfolding pop
  pop_empty is = rw (eq_of_end is.chain)
