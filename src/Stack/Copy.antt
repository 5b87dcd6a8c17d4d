-- ===== src/Stack/Copy.antt =====
-- `stack_dup` and `stack_rdup`.
use mathlib.Core.Path.{subst}
use mathlib.Core.List
use mathlib.Core.List.{reverse_aux}
use c_survival_kit.Common.{
  ℕ, zero, suc, ◌≤◌, ◌<◌, ◌≡◌, ◌≢◌, refl, sym, ap, ◌∙◌, true, false, ◌||◌, none, some, List, [],
  ◌∷◌, ◌++◌, ◌==◌, arith, length, map, append_assoc, append-nil, Bool-cases, inl, inr,
}
use c_survival_kit.Stack.Heap.{
  Ptr, null, Node, node, Heap, Cmd, fill, store, Returns, returns, Returns-bind, Returns-mono,
}
use c_survival_kit.Stack.Core.{
  Stack, empty_stack, push, append, walk_loop, walk, copy_iter, rdup_iter, dup_iter, rdup, dup,
}
use c_survival_kit.Stack.Ends.{push-cons, append-snoc}
use c_survival_kit.Stack.Chain.{
  Cells, has, SameBut, Disjoint, IsChain, end, link, IsStack, load-ok, store_self, store-other,
  IsChain_frame, IsChain-store, not-has_of_none, has-append,
}

-- What the allocator promises: distinct blocks that are not in use.
pub record IsSupply {V : Type 0} (h : Heap V) (malloc : ℕ → Ptr) : Type 0 where
  pub ne_null : (i : ℕ) → malloc i ≢ null
  pub distinct : (i j : ℕ) → i < j → (malloc j == malloc i) ≡ false
  pub unused : (i : ℕ) → h (malloc i) ≡ none

abbrev pub values : {V : Type 0} → Cells V → List V
values xs = map (λ z. z.1) xs

-- Every node in use keeps its value and its place.
abbrev pub Keeps : {V : Type 0} → Heap V → Heap V → Type 0
Keeps {V} h g = (a : Ptr) (n : Node V) → h a ≡ some n → g a ≡ some n

-- Where `add` puts a node that is not on the stack.
record IsAdd {V : Type 0} (add : Stack → Ptr → Cmd V Stack) (place : Cells V → Ptr × V → Cells V)
    : Type 0 where
  has-place : (a m : Ptr) (v : V) (ys : Cells V) → has a (place ys (m, v)) ≡ ((a == m) || has a ys)
  adds :
      {h : Heap V} {s : Stack} {ys : Cells V} {q : Ptr} (m : Ptr) (v : V)
      → IsStack h s ys
      → m ≢ null
      → h m ≡ some (node v q)
      → has m ys ≡ false
      → Returns (λ s' g. IsStack g s' (place ys (m, v)) × SameBut ((m, v) ∷ ys) h g) (add s m h)

-- The copies `zs`, placed one after the other.
abbrev place_all : {V : Type 0} → (Cells V → Ptr × V → Cells V) → Cells V → Cells V → Cells V
place_all place ys [] = ys
place_all place ys (z ∷ zs) = place_all place (place ys z) zs

module _ {V : Type 0} {add : Stack → Ptr → Cmd V Stack} {place : Cells V → Ptr × V → Cells V}
    (is_add : IsAdd add place) (malloc : ℕ → Ptr) where
  copy_iter-adds :
      {h g : Heap V} {s : Stack} (i : ℕ) {a q : Ptr} {v : V} {ys : Cells V}
      → IsSupply h malloc
      → g (malloc i) ≡ none
      → a ≢ null
      → g a ≡ some (node v q)
      → IsStack g s ys
      → Returns
          (λ (more, (s', i')) f.
            (more ≡ true)
            × (i' ≡ suc i)
            × IsStack f s' (place ys (malloc i, v))
            × SameBut ((malloc i, v) ∷ ys) g f)
          (copy_iter add malloc (s, i) a g)
  unfolding copy_iter fill
  copy_iter-adds {g} {s} i {q} {v} {ys} supply free ne at is =
      let m = malloc i in
      let out : has m ys ≡ false = not-has_of_none m is.chain free in
      let g1 = store g m (node v q) in
      let is1 : IsStack g1 s ys = record {
        chain = IsChain-store m (node v q) is.chain out;
        back = is.back;
        length = is.length;
      } in
      rw (load-ok g ne at) (
        Returns-bind (is_add.adds m v is1 (supply.ne_null i) (store_self g m (node v q)) out)
          λ s' f (is', same).
            returns
              (refl, refl, is', λ b o. same b o ∙ store-other g m (node v q) b (ground arith)))

  fresh_back :
      (g f : Heap V) {s' : Stack} (m : Ptr) (ys : Cells V) (b : Ptr) (v : V)
      → g m ≡ none
      → IsStack f s' (place ys (m, v))
      → SameBut ((m, v) ∷ ys) g f
      → (zs : Cells V) → ((b == m) || has b zs) ≡ true
      → (has b zs ≡ true → f b ≡ none)
      → g b ≡ none
  fresh_back g f m ys b v free is' same zs on fresh = elim (Bool-cases (b == m)) [
    | inl hit ↦ ground arith
    | inr miss ↦
        let gone = fresh (ground arith) in
        let off : ((b == m) || has b ys) ≡ false =
          sym (is_add.has-place b m v ys) ∙ not-has_of_none b is'.chain gone in
        sym (same b off) ∙ gone
  ]

  copy_loop :
      (k : ℕ) {h g : Heap V} {s : Stack} (i : ℕ) {p : Ptr} {ys : Cells V} (rest : Cells V)
      → IsSupply h malloc
      → ((j : ℕ) → i ≤ j → g (malloc j) ≡ none)
      → IsChain g p rest null
      → IsStack g s ys
      → Disjoint rest ys
      → length rest < k
      → Returns
          (λ (s', i') f.
            (zs : Cells V) × IsStack f s' (place_all place ys zs)
            × (values zs ≡ values rest)
            × ((a : Ptr) → has a zs ≡ true → g a ≡ none)
            × ((a : Ptr) (n : Node V) → g a ≡ some n → has a ys ≡ false → f a ≡ some n))
          (walk_loop (copy_iter add malloc) null null k true (s, i) p g)
  unfolding walk_loop
  copy_loop zero i rest supply free chain is apart fuel = absurd (omega arith)
  copy_loop (suc k) i [] supply free (end e) is apart fuel =
      rw e (returns ([], is, refl, λ a none_in. absurd (ground arith), λ a n at out. at))
  copy_loop (suc k) {h} {g} {s} i {p} {ys} ((a, v) ∷ rest) supply free (link {q} e ne out at chain)
        is apart fuel =
      let m = malloc i in
      let null_a : (a == null) ≡ false = ground arith in
      let a_out : has a ys ≡ false = apart a (ground arith) in
      let m_free = free i (omega arith) in
      let m_rest = not-has_of_none m chain m_free in
      let a_ne_m : (a == m) ≡ false = elim (Bool-cases (a == m)) [
        | inl hit ↦ absurd (ground (arith, m_free))
        | inr miss ↦ miss
      ] in
      rw (e, null_a)
        (Returns-bind (copy_iter-adds i supply (free i (omega arith)) ne at is)
          λ (more, (s', i')) f (go, next, is', same).
            let at' : f a ≡ some (node v q) = same a (rw (a_ne_m, a_out)) ∙ at in
            rw (go, next, load-ok f ne at')
              (Returns-mono
                (copy_loop k {s = s'} (suc i) rest supply
                  (λ j le.
                    same (malloc j) (
                      rw (
                        supply.distinct i j (omega arith),
                        not-has_of_none (malloc j) is.chain (free j (omega arith)),
                      ))
                    ∙ free j (omega arith))
                  (IsChain_frame chain (λ b on. same b (ground (arith, apart b)))) is'
                  (λ b on. is_add.has-place b m v ys ∙ ground (arith, apart b)) (omega arith))
                λ (s2, i2) f2 (zs, is2, vals, fresh, keeps). (
                  (m, v) ∷ zs,
                  is2,
                  ap (λ ws. v ∷ ws) vals,
                  λ b on. fresh_back g f m ys b v m_free is' same zs (ground arith) (fresh b),
                  λ b n used off.
                      let b_ne_m : (b == m) ≡ false = ground arith in
                      keeps b n (same b (rw (b_ne_m, off)) ∙ used)
                        (is_add.has-place b m v ys ∙ rw (b_ne_m, off)),
                )))

empty_IsStack : {V : Type 0} {h : Heap V} → IsStack h empty_stack []
empty_IsStack = record { chain = end refl; back = refl; length = refl }

push-IsAdd : {V : Type 0} → IsAdd {V = V} push (λ ys z. z ∷ ys)
push-IsAdd = record {
  has-place = λ a m v ys. refl;
  adds = λ m v is ne at out.
      Returns-mono (push-cons m v is ne at out)
        λ s' g (is', same). (is', λ b o. same b (ground arith));
}

append-IsAdd : {V : Type 0} → IsAdd {V = V} append (λ ys z. ys ++ z ∷ [])
append-IsAdd = record {
  has-place = λ a m v ys. has-append a ys ((m, v) ∷ []) ∙ ground arith;
  adds = λ m v is ne at out. append-snoc m v is ne at out;
}

place_all-push :
    {V : Type 0} (ys zs : Cells V) → place_all (λ xs z. z ∷ xs) ys zs ≡ reverse_aux zs ys
place_all-push ys [] = refl
place_all-push ys (z ∷ zs) = place_all-push (z ∷ ys) zs

place_all-append :
    {V : Type 0} (ys zs : Cells V) → place_all (λ xs z. xs ++ z ∷ []) ys zs ≡ ys ++ zs
place_all-append ys [] = sym (append-nil ys)
place_all-append ys (z ∷ zs) = place_all-append (ys ++ z ∷ []) zs ∙ append_assoc ys (z ∷ []) zs

values-reverse_aux :
    {V : Type 0} (zs ws : Cells V)
    → values (reverse_aux zs ws) ≡ reverse_aux (values zs) (values ws)
values-reverse_aux [] ws = refl
values-reverse_aux (z ∷ zs) ws = values-reverse_aux zs (z ∷ ws)

has-reverse_aux :
    {V : Type 0} (a : Ptr) (zs ws : Cells V)
    → has a (reverse_aux zs ws) ≡ true
    → (has a zs || has a ws) ≡ true
has-reverse_aux a [] ws on = on
has-reverse_aux a ((b, v) ∷ zs) ws on = ground (arith, has-reverse_aux a zs ((b, v) ∷ ws) on)

IsChain_keep :
    {V : Type 0} {h g : Heap V} {p stop : Ptr} {xs : Cells V}
    → IsChain h p xs stop
    → Keeps h g
    → IsChain g p xs stop
IsChain_keep (end e) keeps = end e
IsChain_keep (link e ne out at c) keeps = link e ne out (keeps _ _ at) (IsChain_keep c keeps)

module _ {V : Type 0} (k : ℕ) {h : Heap V} {malloc : ℕ → Ptr} {s : Stack} {xs : Cells V}
    (supply : IsSupply h malloc) (is : IsStack h s xs) (fuel : length xs < k) where
  Keeps-IsStack : {g : Heap V} → Keeps h g → IsStack g s xs
  Keeps-IsStack keeps = record {
    chain = IsChain_keep is.chain keeps;
    back = is.back;
    length = is.length;
  }

  -- `stack_dup` returns on every stack, given more rounds than it has nodes, and builds a stack
  -- of other nodes with the same values in the same order. Every node that was in use keeps its
  -- contents, so the old stack stands. The allocator gives distinct blocks that are not in use.
  pub dup-values :
      Returns
        (λ s' g.
          (ys : Cells V) × IsStack g s' ys
          × (values ys ≡ values xs)
          × Disjoint ys xs
          × IsStack g s xs
          × Keeps h g)
        (dup k malloc s h)
  unfolding dup walk dup_iter
  dup-values =
      Returns-bind
        (copy_loop append-IsAdd malloc k 0 xs supply (λ j le. supply.unused j) is.chain
          empty_IsStack (λ a i. refl) fuel)
        λ (s', i') g (zs, is', vals, fresh, keeps). returns (
          zs,
          subst (IsStack g s') (place_all-append [] zs) is',
          vals,
          (λ a on. not-has_of_none a is.chain (fresh a on)),
          Keeps-IsStack (λ a n at. keeps a n at refl),
          λ a n at. keeps a n at refl,
        )

  -- `stack_rdup` returns on every stack, given more rounds than it has nodes, and builds a stack
  -- of other nodes with the same values in the opposite order. Every node that was in use keeps
  -- its contents, so the old stack stands. The allocator gives distinct blocks that are not in
  -- use.
  pub rdup-values :
      Returns
        (λ s' g.
          (ys : Cells V) × IsStack g s' ys
          × (values ys ≡ List.reverse (values xs))
          × Disjoint ys xs
          × IsStack g s xs
          × Keeps h g)
        (rdup k malloc s h)
  unfolding rdup walk rdup_iter
  rdup-values =
      Returns-bind
        (copy_loop push-IsAdd malloc k 0 xs supply (λ j le. supply.unused j) is.chain empty_IsStack
          (λ a i. refl) fuel)
        λ (s', i') g (zs, is', vals, fresh, keeps). returns (
          reverse_aux zs [],
          subst (IsStack g s') (place_all-push [] zs) is',
          values-reverse_aux zs [] ∙ ap (λ ws. reverse_aux ws []) vals,
          (λ a on.
              not-has_of_none a is.chain (fresh a (ground (arith, has-reverse_aux a zs [] on)))),
          Keeps-IsStack (λ a n at. keeps a n at refl),
          λ a n at. keeps a n at refl,
        )
