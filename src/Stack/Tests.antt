-- ===== src/Stack/Tests.antt =====
-- Runs of the stacks of survival_kit/templates/stack.c, and the cases at which their theorems are
-- applied.
use c_survival_kit.Common.{
  ℕ, ◌+◌, ◌≡◌, refl, Bool, true, none, some, List, [], ◌∷◌, ◌++◌, ◌==◌, if◌then◌else◌, arith,
}
use c_survival_kit.Common.Int.{pos}
use c_survival_kit.Stack.Heap.{
  Ptr, null, node, Heap, Cmd, ok, pure, ◌>>=◌, load, Returns, set_next, fill, store,
}
use c_survival_kit.Stack.Core.{
  Stack, push, append, pop, walk, dup, dup_iter, copy_iter, rdup, reverse,
}
use c_survival_kit.Stack.Chain.{Cells, SameBut, Disjoint, end, link, IsStack, load-ok}
use c_survival_kit.Stack.Ends.{append-snoc, pop-cons}
use c_survival_kit.Stack.Walk.{fold_while, seen, through, from, Reads, walk-fold_while}
use c_survival_kit.Stack.Reverse.{reverse_lem}
use c_survival_kit.Stack.Copy.{IsSupply, Keeps, values, dup-values, rdup-values}

-- Three nodes on a stack, and a fourth one beside them.
abbrev heap : Heap ℕ
heap a =
    if a == 10
    then some (node 1 11)
    else if a == 11
    then some (node 2 12)
    else if a == 12
    then some (node 3 null)
    else if a == 20
    then some (node 4 11)
    else none

abbrev three : Stack
three = record { front = 10; back = 12; length = pos 3 }

abbrev cells : Cells ℕ
cells = (10, 1) ∷ (11, 2) ∷ (12, 3) ∷ []

three-IsStack : IsStack heap three cells
three-IsStack = record {
  chain =
      link refl (omega arith) refl refl
        (link refl (omega arith) refl refl (link refl (omega arith) refl refl (end refl)));
  back = refl;
  length = refl;
}

abbrev malloc : ℕ → Ptr
malloc i = 100 + i

malloc-IsSupply : IsSupply heap malloc
malloc-IsSupply = record {
  ne_null = λ i. omega arith;
  distinct = λ i j h. ground arith;
  unused = λ i. ground arith;
}

-- The values from a stack's front, and a predicate that gathers them until it sees a 2.
abbrev read : List ℕ → Ptr → Cmd ℕ (Bool × List ℕ)
read c p = do n ← load p; pure (true, n.val ∷ c)

abbrev values_of : Stack → Cmd ℕ (List ℕ)
values_of s = walk 9 s read [] null null

abbrev gather : List ℕ → Ptr → ℕ → Bool × List ℕ
gather c a v = (true, v ∷ c)

read-Reads : Reads heap gather read
read-Reads c a q v ne at = rw (load-ok heap ne at)

abbrev result : {A : Type 0} → A → Cmd ℕ A → Heap ℕ → A
result d m h = elim (m h) [ ok a g ↦ a | _ ↦ d ]

run_push : result [] (do s ← push three 20; values_of s) heap ≡ 3 ∷ 2 ∷ 1 ∷ 4 ∷ []
unfolding push walk load set_next fill store
run_push = refl

run_append : result [] (do s ← append three 20; values_of s) heap ≡ 4 ∷ 3 ∷ 2 ∷ 1 ∷ []
unfolding append walk load set_next fill store
run_append = refl

run_reverse : result [] (do s ← reverse 9 three; values_of s) heap ≡ 1 ∷ 2 ∷ 3 ∷ []
unfolding reverse walk load set_next fill store
run_reverse = refl

run_dup : result [] (do s ← dup 9 malloc three; values_of s) heap ≡ 3 ∷ 2 ∷ 1 ∷ []
unfolding dup dup_iter copy_iter append walk load set_next fill store
run_dup = refl

append-snoc_example :
    Returns
      (λ s' g. IsStack g s' (cells ++ (20, 4) ∷ []) × SameBut ((20, 4) ∷ cells) heap g)
      (append three 20 heap)
append-snoc_example = append-snoc 20 4 three-IsStack (omega arith) refl refl

run_pop :
    Returns
      (λ (r, s') g.
        (r ≡ 10)
        × (g 10 ≡ some (node 1 null))
        × IsStack g s' ((11, 2) ∷ (12, 3) ∷ [])
        × SameBut ((10, 1) ∷ []) heap g)
      (pop three heap)
run_pop = pop-cons 10 1 three-IsStack

reverse_lem_example :
    Returns
      (λ s' g. IsStack g s' ((12, 3) ∷ (11, 2) ∷ (10, 1) ∷ []) × SameBut cells heap g)
      (reverse 4 three heap)
reverse_lem_example = reverse_lem 4 three-IsStack (omega arith)

dup-values_example :
    Returns
      (λ s' g.
        (ys : Cells ℕ) × IsStack g s' ys
        × (values ys ≡ 1 ∷ 2 ∷ 3 ∷ [])
        × Disjoint ys cells
        × IsStack g three cells
        × Keeps heap g)
      (dup 4 malloc three heap)
dup-values_example = dup-values 4 malloc-IsSupply three-IsStack (omega arith)

rdup-values_example :
    Returns
      (λ s' g.
        (ys : Cells ℕ) × IsStack g s' ys
        × (values ys ≡ 3 ∷ 2 ∷ 1 ∷ [])
        × Disjoint ys cells
        × IsStack g three cells
        × Keeps heap g)
      (rdup 4 malloc three heap)
rdup-values_example = rdup-values 4 malloc-IsSupply three-IsStack (omega arith)

walk-fold_while_example : walk 4 three read [] 11 12 heap ≡ ok (3 ∷ 2 ∷ []) heap
unfolding fold_while seen through from
walk-fold_while_example = walk-fold_while read read-Reads 11 12 4 [] three-IsStack (omega arith)
