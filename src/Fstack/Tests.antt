-- ===== src/Fstack/Tests.antt =====
-- Runs of the free-list stacks of survival_kit/templates/fstack.c, and the cases at which their
-- theorems are applied.
use c_survival_kit.Common.{
  ℕ, ◌≡◌, refl, Bool, true, none, some, List, [], ◌∷◌, ◌==◌, if◌then◌else◌, arith,
}
use c_survival_kit.Common.Int.{pos}
use c_survival_kit.Stack.Heap.{Ptr, null, node, Heap, Cmd, ok, throws, pure, ◌>>=◌, load}
use c_survival_kit.Stack.Core.{empty_stack}
use c_survival_kit.Stack.Chain.{Cells, end, link, load-ok}
use c_survival_kit.Stack.Walk.{through, fold_while, seen, Reads}
use c_survival_kit.Fstack.Core.{Fstack, push, pop, alloc, walk}
use c_survival_kit.Fstack.Nodes.{
  IsFstack, Pushed, Popped, Allocated, push-Pushed, pop-Popped, alloc-Allocated,
}
use c_survival_kit.Fstack.Walk.{route, walk-route}
use c_survival_kit.Fstack.Order.{past, in_order, walk-seen}

-- Two used nodes and two unused ones.
abbrev heap : Heap ℕ
heap a =
    if a == 10
    then some (node 1 11)
    else if a == 11
    then some (node 2 null)
    else if a == 20
    then some (node 3 21)
    else if a == 21
    then some (node 4 null)
    else none

abbrev four : Fstack
four = record {
  used = record { front = 10; back = 11; length = pos 2 };
  unused = record { front = 20; back = 21; length = pos 2 };
}

abbrev used_cells : Cells ℕ
used_cells = (10, 1) ∷ (11, 2) ∷ []

abbrev unused_cells : Cells ℕ
unused_cells = (20, 3) ∷ (21, 4) ∷ []

four-IsFstack : IsFstack heap four used_cells unused_cells
four-IsFstack = record {
  used = record {
    chain = link refl (omega arith) refl refl (link refl (omega arith) refl refl (end refl));
    back = refl;
    length = refl;
  };
  unused = record {
    chain = link refl (omega arith) refl refl (link refl (omega arith) refl refl (end refl));
    back = refl;
    length = refl;
  };
  apart = λ a i. ground arith;
}

-- All of its nodes are in use.
abbrev full : Fstack
full = record { used = four.used; unused = empty_stack }

full-IsFstack : IsFstack heap full used_cells []
full-IsFstack = record {
  used = four-IsFstack.used;
  unused = record { chain = end refl; back = refl; length = refl };
  apart = λ a i. refl;
}

abbrev read : List ℕ → Ptr → Cmd ℕ (Bool × List ℕ)
read c p = do n ← load p; pure (true, n.val ∷ c)

abbrev gather : List ℕ → Ptr → ℕ → Bool × List ℕ
gather c a v = (true, v ∷ c)

read-Reads : Reads heap gather read
read-Reads c a q v ne at = rw (load-ok heap ne at)

push-Pushed_example : Pushed heap used_cells unused_cells (push four heap)
push-Pushed_example = push-Pushed unused_cells four-IsFstack

push_throws : push full heap ≡ throws heap
push_throws = push-Pushed [] full-IsFstack

pop-Popped_example : Popped heap used_cells unused_cells (pop four heap)
pop-Popped_example = pop-Popped used_cells four-IsFstack

alloc-Allocated_example : Allocated heap 30 9 used_cells [] (alloc full 30 (node 9 77) heap)
alloc-Allocated_example = alloc-Allocated 30 (node 9 77) [] full-IsFstack (omega arith) refl

-- A walk from the first unused node through the first used one.
walk-seen_example :
    walk 3 four read [] 20 10 heap
    ≡ ok (fold_while gather [] (seen 20 10 (in_order used_cells unused_cells))) heap
unfolding past
walk-seen_example =
    walk-seen read read-Reads 20 10 3 [] four-IsFstack (omega arith) (omega arith) refl refl

walk_runs : walk 3 four read [] 20 10 heap ≡ ok (1 ∷ 3 ∷ []) heap
unfolding fold_while through route
walk_runs = walk-route read read-Reads 20 10 3 [] four-IsFstack (omega arith) (omega arith)

-- A walk that is to start at the second used node begins with the first one.
walk_misses_start : walk 3 four read [] 11 null heap ≡ ok (2 ∷ 1 ∷ []) heap
unfolding fold_while through route
walk_misses_start =
    walk-route read read-Reads 11 null 3 [] four-IsFstack (omega arith) (omega arith)

-- A walk whose start is on neither stack passes all used nodes.
walk_without_start : walk 3 four read [] 99 null heap ≡ ok (2 ∷ 1 ∷ []) heap
unfolding fold_while through route
walk_without_start =
    walk-route read read-Reads 99 null 3 [] four-IsFstack (omega arith) (omega arith)

-- A walk from the first unused node, whose end comes before that, passes the rest of the nodes.
walk_past_end : walk 3 four read [] 20 21 heap ≡ ok (2 ∷ 1 ∷ 3 ∷ []) heap
unfolding fold_while through route
walk_past_end = walk-route read read-Reads 20 21 3 [] four-IsFstack (omega arith) (omega arith)
