-- ===== src/Stack/Reverse.antt =====
-- `stack_reverse`.
use mathlib.Core.Path.{subst}
use mathlib.Core.List
use mathlib.Core.List.{reverse_aux, reverse-cons}
use c_survival_kit.Common.{
  ℕ, zero, suc, ◌<◌, ◌≡◌, ◌≢◌, refl, sym, ap, ◌∙◌, true, false, some, [], ◌∷◌, ◌++◌, ◌==◌, arith,
  length, length-reverse_aux,
}
use c_survival_kit.Common.Int.{pos}
use c_survival_kit.Stack.Heap.{Ptr, null, node, Heap, store, Returns, returns, Returns-mono}
use c_survival_kit.Stack.Core.{Stack, reverse_loop, reverse}
use c_survival_kit.Stack.Chain.{
  Cells, has, last_ptr, SameBut, Disjoint, IsChain, end, link, IsStack, load-ok, set_next-ok,
  store_self, store-other, IsChain-store, IsChain_uncons, eq_of_end, null_front-cons,
  IsChain-append, last_ptr-append,
}

module _ {V : Type 0} where
  -- The chain runs through `ys` to the old front `p`, and `rest` is still to be moved.
  reverse_loop-reverse_aux :
      (k : ℕ) {h : Heap V} (s : Stack) (p : Ptr) (v : V) {t : Ptr} {rest : Cells V} (ys : Cells V)
      → IsChain h s.front ys p
      → p ≢ null
      → h p ≡ some (node v t)
      → IsChain h t rest null
      → has p ys ≡ false
      → has p rest ≡ false
      → Disjoint rest ys
      → length rest < k
      → Returns
          (λ s' g.
            IsChain g s'.front (reverse_aux rest ys ++ (p, v) ∷ []) null
            × (s'.back ≡ p)
            × (s'.length ≡ s.length)
            × SameBut ((p, v) ∷ rest) h g)
          (reverse_loop k p s h)
  unfolding reverse_loop
  reverse_loop-reverse_aux zero s p v ys before ne at after out_ys out_rest apart fuel =
      absurd (omega arith)
  reverse_loop-reverse_aux (suc k) {h} s p v ys before ne at (end e) out_ys out_rest apart fuel =
      rw (load-ok h ne at, e)
        (returns (
          IsChain-append before (link refl ne refl (at ∙ ap (λ q. some (node v q)) e) (end refl))
              (λ a i. ground arith),
          refl,
          refl,
          λ a o. refl,
        ))
  reverse_loop-reverse_aux (suc k) {h} s p v ys before ne at
        (link {a} {q} {v = w} {xs} e ne_a out at_a c) out_ys out_rest apart fuel =
      let h1 = store h p (node v q) in
      let h2 = store h1 a (node w s.front) in
      let a_ne_p : (a == p) ≡ false = ground arith in
      let p_ne_a : (p == a) ≡ false = ground arith in
      let a_out : has a ys ≡ false = apart a (ground arith) in
      let null_a : (a == null) ≡ false = ground arith in
      let at1 : h1 a ≡ some (node w q) = store-other h p (node v q) a a_ne_p ∙ at_a in
      let at2 : h2 p ≡ some (node v q) =
        store-other h1 a (node w s.front) p p_ne_a ∙ store_self h p (node v q) in
      let before2 =
        IsChain-store a (node w s.front) (IsChain-store p (node v q) before out_ys) a_out in
      let c2 = IsChain-store a (node w s.front) (IsChain-store p (node v q) c (ground arith)) out in
      rw
        (
          load-ok h ne at,
          e,
          null_a,
          load-ok h ne_a at_a,
          set_next-ok h ne at q,
          set_next-ok h1 ne_a at1 s.front,
        )
        (Returns-mono
          (reverse_loop-reverse_aux k (record s { front = a }) p v ((a, w) ∷ ys)
            (link refl ne_a a_out (store_self h1 a (node w s.front)) before2) ne at2 c2
            (ground arith) (ground arith) (λ b i. ground (arith, apart b)) (omega arith))
          λ s' g (chain, back, len, same). (
            chain,
            back,
            len,
            λ b o.
                same b (ground arith)
                ∙ store-other h1 a (node w s.front) b (ground arith)
                ∙ store-other h p (node v q) b (ground arith),
          ))

  -- `stack_reverse` returns on every stack, given more rounds than it has nodes, and relinks the
  -- same nodes in the opposite order, with the back and the length that belong to it. It writes
  -- no other node.
  pub reverse_lem :
      (k : ℕ) {h : Heap V} {s : Stack} {xs : Cells V}
      → IsStack h s xs
      → length xs < k
      → Returns (λ s' g. IsStack g s' (List.reverse xs) × SameBut xs h g) (reverse k s h)
  unfolding reverse
  reverse_lem k {s} {xs = []} is fuel =
      let front : (s.front == null) ≡ true = ground (arith, eq_of_end is.chain) in
      rw front (returns (is, λ a o. refl))
  reverse_lem k {h} {s} {xs = (p, v) ∷ xs} is fuel =
      let (e, ne, out, (q, at, c)) = IsChain_uncons is.chain in
      let front : (s.front == null) ≡ false = null_front-cons is.chain in
      let loop =
        reverse_loop-reverse_aux k s p v [] (end e) ne at c refl out (λ a i. refl) (omega arith) in
      let turned = sym (reverse-cons (p, v) xs) in
      rw front (
        subst
          (λ z.
            Returns (λ s' g. IsStack g s' (List.reverse ((p, v) ∷ xs)) × SameBut ((p, v) ∷ xs) h g)
              (reverse_loop k z s h))
          (sym e)
          (Returns-mono loop λ s' g (chain, back, len, same). (
            record {
              chain = subst (λ zs. IsChain g s'.front zs null) turned chain;
              back =
                  back
                  ∙ sym (last_ptr-append null p v (List.reverse xs) [])
                  ∙ ap (last_ptr null) turned;
              length =
                  len ∙ is.length ∙ ap pos (omega (arith, length-reverse_aux xs ((p, v) ∷ [])));
            },
            same,
          )))
