-- ===== src/Fstack/Walk.antt =====
-- `fstack_walk` with a predicate that writes no node.
use mathlib.Core.Bool.{or-true, or-false}
use mathlib.Core.List
use mathlib.Core.List.{reverse_aux}
use c_survival_kit.Common.{
  ℕ, zero, suc, ◌<◌, ◌≡◌, ◌≢◌, refl, ap, ◌∙◌, Bool, true, false, not, ◌||◌, some, List, [], ◌∷◌,
  ◌++◌, ◌==◌, arith, if◌then◌else◌, length, map, Bool-cases, inl, inr,
}
use c_survival_kit.Stack.Heap.{Ptr, null, node, Heap, Cmd, ok}
use c_survival_kit.Stack.Core
use c_survival_kit.Stack.Core.{Stack}
use c_survival_kit.Stack.Chain.{
  Cells, has, IsChain, end, link, IsStack, load-ok, eq_of_end, IsChain_uncons, null_front-cons,
}
use c_survival_kit.Stack.Walk.{through, from, fold_while, seen, Reads, walk-fold_while}
use c_survival_kit.Fstack.Core.{Fstack, collect, replay, walk}
use c_survival_kit.Fstack.Nodes.{IsFstack}

module _ {V : Type 0} where
  abbrev pub addresses : Cells V → List Ptr
  addresses xs = map (λ z. z.0) xs

  -- Each node is in use with its value.
  abbrev AllHeld : Heap V → Cells V → Type 0
  AllHeld h [] = Unit
  AllHeld h ((a, v) ∷ xs) = (a ≢ null) × ((q : Ptr) × (h a ≡ some (node v q))) × AllHeld h xs

  collect-through :
      (k : ℕ) (start : Ptr) {h : Heap V} {p : Ptr} {xs : Cells V} (acc : Cells V) (reached : Bool)
      → IsChain h p xs null
      → AllHeld h acc
      → length xs < k
      → (collect k start p (addresses acc) reached h
          ≡ ok (addresses (reverse_aux (through start xs) acc), reached || has start xs) h)
        × AllHeld h (reverse_aux (through start xs) acc)
  unfolding collect through
  collect-through zero start acc reached chain held fuel = absurd (omega arith)
  collect-through (suc k) start acc reached (end e) held fuel = (rw (e, or-false), held)
  collect-through (suc k) start {h} acc reached (link {a} {q} {v} {xs} e ne out at chain) held
        fuel =
      let ne_null : (a == null) ≡ false = ground arith in
      let held' : AllHeld h ((a, v) ∷ acc) = (ne, (q, at), held) in
      elim (Bool-cases (a == start)) [
        | inl hit ↦
            let here : (start == a) ≡ true = ground arith in
            (rw (e, ne_null, hit, here, or-true), rw hit held')
        | inr miss ↦
            let away : (start == a) ≡ false = ground arith in
            let (runs, all) =
              collect-through k start ((a, v) ∷ acc) reached chain held' (omega arith) in
            (rw (e, ne_null, miss, away, load-ok h ne at) runs, rw miss all)
      ]

  -- A fold that also says whether it was ended, by its function or at `stop`.
  fold_end : {C : Type 0} → (C → Ptr → V → Bool × C) → Ptr → C → Cells V → Bool × C
  fold_end f stop c [] = (false, c)
  fold_end f stop c ((a, v) ∷ xs) =
      let step = f c a v in
      let rest = fold_end f stop step.1 xs in
      if not step.0 || (a == stop) then (true, step.1) else rest

  replay-fold_end :
      {C : Type 0} {h : Heap V} {f : C → Ptr → V → Bool × C}
      (predicate : C → Ptr → Cmd V (Bool × C))
      → Reads h f predicate
      → (stop : Ptr) (c : C) (xs : Cells V) → AllHeld h xs
      → replay predicate stop c (addresses xs) h ≡ ok (fold_end f stop c xs) h
  unfolding replay fold_end
  replay-fold_end predicate reads stop c [] held = refl
  replay-fold_end {f} predicate reads stop c ((a, v) ∷ xs) (ne, (q, at), held) =
      rw (reads c a q v ne at) (elim (Bool-cases (not (f c a v).0 || (a == stop))) [
        | inl ends ↦ rw ends
        | inr goes ↦ rw goes (replay-fold_end predicate reads stop (f c a v).1 xs held)
      ])

  fold_while-append :
      {C : Type 0} (f : C → Ptr → V → Bool × C) (stop : Ptr) (c : C) (xs ys : Cells V)
      → fold_while f c (through stop (xs ++ ys)) ≡ (
          if (fold_end f stop c xs).0
          then (fold_end f stop c xs).1
          else fold_while f (fold_end f stop c xs).1 (through stop ys))
  unfolding fold_while through fold_end
  fold_while-append f stop c [] ys = refl
  fold_while-append f stop c ((a, v) ∷ xs) ys = elim (Bool-cases (f c a v).0) [
    | inl more ↦ elim (Bool-cases (a == stop)) [
      | inl last ↦ rw (more, last)
      | inr past ↦ rw (more, past) (fold_while-append f stop (f c a v).1 xs ys)
    ]
    | inr done ↦ rw done
  ]

  -- What a walk from `start` passes, in order: the unused nodes from the last one, then the used ones.
  -- An unused `start` is where it begins, and a null one means the beginning; otherwise it begins
  -- with the used nodes.
  unfoldable pub route : Ptr → Cells V → Cells V → Cells V
  route start us ns =
      if (start == null) || has start ns then List.reverse (through start ns) ++ us else us

  seen_front :
      {h : Heap V} {s : Stack} (stop : Ptr) (us : Cells V)
      → IsStack h s us
      → seen s.front stop us ≡ through stop us
  unfolding seen through from
  seen_front {s} stop [] is = rw (eq_of_end is.chain)
  seen_front {s} stop ((a, v) ∷ us) is =
      let (e, ne, out, at) = IsChain_uncons is.chain in
      let ne_null : (s.front == null) ≡ false = null_front-cons is.chain in
      let here : (a == s.front) ≡ true = ground arith in rw (ne_null, here)

module _ {V C : Type 0} {h : Heap V} {s : Fstack} {us ns : Cells V} {f : C → Ptr → V → Bool × C}
    (predicate : C → Ptr → Cmd V (Bool × C)) (reads : Reads h f predicate) (start stop : Ptr)
    (k : ℕ) (c : C) (is : IsFstack h s us ns) (fuel_us : length us < k)
    (fuel_ns : length ns < k) where
  used_part :
      (d : C)
      → Core.walk k s.used predicate d s.used.front stop h ≡ ok (fold_while f d (through stop us)) h
  used_part d =
      walk-fold_while predicate reads s.used.front stop k d is.used fuel_us
      ∙ ap (λ xs. ok (fold_while f d xs) h) (seen_front stop us is.used)

  -- The fold is over the route through `stop`.
  pub walk-route :
      walk k s predicate c start stop h ≡ ok (fold_while f c (through stop (route start us ns))) h
  unfolding walk route
  walk-route =
      let (runs, held) = collect-through k start [] (start == null) is.unused.chain tt fuel_ns in
      elim (Bool-cases ((start == null) || has start ns)) [
        | inl begins ↦
            let ns' = List.reverse (through start ns) in
            let replayed = replay-fold_end predicate reads stop c ns' held in
            rw (runs, begins, replayed, fold_while-append f stop c ns' us)
              (elim (Bool-cases (fold_end f stop c ns').0) [
                | inl ended ↦ rw ended
                | inr on ↦ rw on (used_part (fold_end f stop c ns').1)
              ])
        | inr skips ↦
            let named : (start == null) ≡ false = ground arith in
            rw (runs, skips, named) (used_part c)
      ]
