-- ===== src/Stack/Walk.antt =====
-- `stack_walk` with a predicate that writes no node.
use c_survival_kit.Common.{
  ℕ, zero, suc, ◌<◌, ◌≡◌, ◌≢◌, ◌∙◌, Bool, true, false, some, [], ◌∷◌, ◌==◌, arith, if◌then◌else◌,
  length, Bool-cases, inl, inr,
}
use c_survival_kit.Stack.Heap.{Ptr, null, node, Heap, Cmd, ok}
use c_survival_kit.Stack.Core.{Stack, walk_loop, walk}
use c_survival_kit.Stack.Chain.{Cells, IsChain, end, link, IsStack, load-ok}

module _ {V : Type 0} where
  -- The nodes up to `stop`, itself included, and those from `start` on.
  unfoldable pub through : Ptr → Cells V → Cells V
  through stop [] = []
  through stop ((a, v) ∷ xs) =
      let rest = through stop xs in (a, v) ∷ (if a == stop then [] else rest)

  unfoldable pub from : Ptr → Cells V → Cells V
  from start [] = []
  from start ((a, v) ∷ xs) = let rest = from start xs in if a == start then (a, v) ∷ xs else rest

  -- A left fold that its function can end.
  unfoldable pub fold_while : {C : Type 0} → (C → Ptr → V → Bool × C) → C → Cells V → C
  fold_while f c [] = c
  fold_while f c ((a, v) ∷ xs) =
      let step = f c a v in let rest = fold_while f step.1 xs in if step.0 then rest else step.1

  -- What a walk sees: all nodes through `stop`, from `start` on unless that is null.
  unfoldable pub seen : Ptr → Ptr → Cells V → Cells V
  seen start stop xs = if start == null then through stop xs else from start (through stop xs)

-- The predicate computes `f` from a node's value, and changes nothing.
abbrev pub Reads :
    {V C : Type 0} → Heap V → (C → Ptr → V → Bool × C) → (C → Ptr → Cmd V (Bool × C)) → Type 0
Reads {V} {C} h f predicate =
    (c : C) (a q : Ptr) (v : V)
    → a ≢ null
    → h a ≡ some (node v q)
    → predicate c a h ≡ ok (f c a v) h

module _ {V C : Type 0} {h : Heap V} {f : C → Ptr → V → Bool × C}
    (predicate : C → Ptr → Cmd V (Bool × C)) (reads : Reads h f predicate) (start stop : Ptr) where
  walk_loop-reached :
      (k : ℕ) (c : C) {p : Ptr} {xs : Cells V}
      → IsChain h p xs null
      → length xs < k
      → walk_loop predicate start stop k true c p h ≡ ok (fold_while f c (through stop xs)) h
  unfolding walk_loop through fold_while
  walk_loop-reached zero c chain fuel = absurd (omega arith)
  walk_loop-reached (suc k) c (end e) fuel = rw e
  walk_loop-reached (suc k) c {p} (link {a} {q} {v} {xs} e ne out at chain) fuel =
      let ne_null : (a == null) ≡ false = ground arith in
      let rest = walk_loop-reached k (f c a v).1 chain (omega arith) in
      rw (e, ne_null, reads c a q v ne at)
        (elim (Bool-cases (f c a v).0) [
          | inl more ↦ elim (Bool-cases (a == stop)) [
            | inl last ↦ rw (more, last)
            | inr past ↦ rw (more, past, load-ok h ne at) rest
          ]
          | inr done ↦ rw done
        ])

  walk_loop-from :
      (k : ℕ) (c : C) {p : Ptr} {xs : Cells V}
      → IsChain h p xs null
      → length xs < k
      → walk_loop predicate start stop k false c p h
        ≡ ok (fold_while f c (from start (through stop xs))) h
  unfolding walk_loop through from fold_while
  walk_loop-from zero c chain fuel = absurd (omega arith)
  walk_loop-from (suc k) c (end e) fuel = rw e
  walk_loop-from (suc k) c {p} (link {a} {q} {v} {xs} e ne out at chain) fuel =
      let ne_null : (a == null) ≡ false = ground arith in
      elim (Bool-cases (a == start)) [
        | inl first ↦
            let same : walk_loop predicate start stop (suc k) false c p h
                ≡ walk_loop predicate start stop (suc k) true c p h =
              rw (e, first) in
            same ∙ walk_loop-reached (suc k) c (link e ne out at chain) fuel ∙ rw first
        | inr before ↦ elim (Bool-cases (a == stop)) [
          | inl last ↦ rw (e, ne_null, before, last)
          | inr past ↦
              rw (e, ne_null, before, past, load-ok h ne at)
                (walk_loop-from k c chain (omega arith))
        ]
      ]

  -- With a predicate that writes no node, `stack_walk` returns, given more rounds than the stack
  -- has nodes: it folds the predicate over the nodes from `start` on (from the front, if that is
  -- null) through `stop`, in order, until the predicate ends the walk, and leaves the heap as it
  -- is.
  pub walk-fold_while :
      (k : ℕ) (c : C) {s : Stack} {xs : Cells V}
      → IsStack h s xs
      → length xs < k
      → walk k s predicate c start stop h ≡ ok (fold_while f c (seen start stop xs)) h
  unfolding walk seen
  walk-fold_while k c is fuel = elim (Bool-cases (start == null)) [
    | inl all ↦ rw all (walk_loop-reached k c is.chain fuel)
    | inr some_node ↦ rw some_node (walk_loop-from k c is.chain fuel)
  ]
