-- ===== src/Fstack/Order.antt =====
-- `fstack_walk` (survival_kit/templates/fstack.c) against the order of the nodes that
-- survival_kit/templates/fstack.h describes.
use mathlib.Core.List
use mathlib.Core.List.{reverse_aux}
use c_survival_kit.Common.{
  ℕ, ◌<◌, ◌≡◌, refl, sym, ap, ◌∙◌, Bool, true, false, ◌||◌, [], ◌∷◌, ◌++◌, ◌==◌, arith,
  if◌then◌else◌, length, Bool-cases, inl, inr,
}
use c_survival_kit.Stack.Heap.{Ptr, null, Heap, Cmd, ok}
use c_survival_kit.Stack.Chain.{Cells, has, IsChain, end, link}
use c_survival_kit.Stack.Walk.{through, from, fold_while, seen, Reads}
use c_survival_kit.Fstack.Core.{Fstack, walk}
use c_survival_kit.Fstack.Nodes.{IsFstack}
use c_survival_kit.Fstack.Walk.{route, walk-route}

module _ {V : Type 0} where
  -- The nodes of a stack behind `start`.
  unfoldable pub past : Ptr → Cells V → Cells V
  past start [] = []
  past start ((a, v) ∷ xs) = let rest = past start xs in if a == start then xs else rest

  -- All nodes of a free-list stack, the first one first: the unused ones from their end on, and
  -- then the used ones.
  abbrev pub in_order : Cells V → Cells V → Cells V
  in_order us ns = List.reverse ns ++ us

  reverse_aux-append : (xs acc us : Cells V) → reverse_aux xs acc ++ us ≡ reverse_aux xs (acc ++ us)
  reverse_aux-append [] acc us = refl
  reverse_aux-append (x ∷ xs) acc us = reverse_aux-append xs (x ∷ acc) us

  reverse_aux-through :
      (start : Ptr) (ns us : Cells V)
      → reverse_aux ns us ≡ reverse_aux (past start ns) (reverse_aux (through start ns) us)
  unfolding past through
  reverse_aux-through start [] us = refl
  reverse_aux-through start ((a, v) ∷ ns) us = elim (Bool-cases (a == start)) [
    | inl hit ↦ rw hit
    | inr miss ↦ rw miss (reverse_aux-through start ns ((a, v) ∷ us))
  ]

  from-first :
      (start stop a : Ptr) (v : V) (us : Cells V)
      → (a == start) ≡ true
      → from start (through stop ((a, v) ∷ us)) ≡ through stop ((a, v) ∷ us)
  unfolding through from
  from-first start stop a v us hit = rw hit refl

  -- Backwards, the nodes up to `start` begin with it.
  front_through :
      (start stop : Ptr) (ns us : Cells V)
      → has start ns ≡ true
      → from start (through stop (reverse_aux (through start ns) us))
        ≡ through stop (reverse_aux (through start ns) us)
  unfolding through
  front_through start stop [] us e = cc
  front_through start stop ((a, v) ∷ ns) us e = elim (Bool-cases (a == start)) [
    | inl hit ↦ rw hit (from-first start stop a v us hit)
    | inr miss ↦ rw miss (front_through start stop ns ((a, v) ∷ us) (ground (arith, miss, e)))
  ]

  -- What stands in front of the start is not seen.
  skip_past :
      (start stop : Ptr) (ps zs : Cells V)
      → has start ps ≡ false
      → has stop ps ≡ false
      → from start (through stop (reverse_aux ps zs)) ≡ from start (through stop zs)
  unfolding through from
  skip_past start stop [] zs e f = refl
  skip_past start stop ((a, v) ∷ ps) zs e f =
      let not_start : (a == start) ≡ false = ground (arith, e) in
      let not_stop : (a == stop) ≡ false = ground (arith, f) in
      skip_past start stop ps ((a, v) ∷ zs) (ground (arith, e)) (ground (arith, f))
      ∙ rw (not_stop, not_start) refl

  past_fresh :
      {h : Heap V} {p : Ptr} {ns : Cells V} (start : Ptr)
      → IsChain h p ns null
      → has start (past start ns) ≡ false
  unfolding past
  past_fresh start (end e) = refl
  past_fresh start (link {a} {xs} e ne out at chain) = elim (Bool-cases (a == start)) [
    | inl hit ↦ let same : a ≡ start = ground arith in rw hit (ap (λ z. has z xs) (sym same) ∙ out)
    | inr miss ↦ rw miss (past_fresh start chain)
  ]

  through-null : {h : Heap V} {p : Ptr} {ns : Cells V} → IsChain h p ns null → through null ns ≡ ns
  unfolding through
  through-null (end e) = refl
  through-null (link {a} {v} e ne out at chain) =
      let ne_null : (a == null) ≡ false = ground arith in
      rw ne_null (ap (λ z. (a, v) ∷ z) (through-null chain))

  seen-in_order :
      {h : Heap V} {p : Ptr} {ns : Cells V} (start stop : Ptr) (us : Cells V)
      → IsChain h p ns null
      → ((start == null) || has start ns) ≡ true
      → has stop (past start ns) ≡ false
      → through stop (route start us ns) ≡ seen start stop (in_order us ns)
  unfolding route seen
  seen-in_order {ns} start stop us chain begins free = elim (Bool-cases (start == null)) [
    | inl whole ↦
        let same : start ≡ null = ground arith in
        rw (begins, whole)
          (ap (λ z. through stop (List.reverse z ++ us))
            (ap (λ z. through z ns) same ∙ through-null chain))
    | inr named ↦
        let there : has start ns ≡ true = ground (arith, begins, named) in
        rw (begins, named)
          (ap (through stop) (reverse_aux-append (through start ns) [] us)
            ∙ sym (front_through start stop ns us there)
            ∙ sym (
                skip_past start stop (past start ns) (reverse_aux (through start ns) us)
                  (past_fresh start chain) free)
            ∙ ap (λ z. from start (through stop z))
                (sym (reverse_aux-append ns [] us ∙ reverse_aux-through start ns us)))
  ]

-- With a predicate that writes no node, `fstack_walk` returns, given more rounds than either
-- stack has nodes: it folds the predicate over the nodes from `start` through `stop`, in the
-- order of the free-list stack, until the predicate ends the walk, and leaves the heap as it is.
-- The order is the unused nodes from the last to the first one, and then the used ones from their
-- front; a null `start` is the beginning, and with a `stop` that is null or on neither stack the
-- walk goes to the end. It holds where `start` is null or an unused node, and `stop` is no unused
-- node that comes before it.
pub walk-seen :
    {V C : Type 0} {h : Heap V} {s : Fstack} {us ns : Cells V} {f : C → Ptr → V → Bool × C}
    (predicate : C → Ptr → Cmd V (Bool × C))
    → Reads h f predicate
    → (start stop : Ptr) (k : ℕ) (c : C) → IsFstack h s us ns
    → length us < k
    → length ns < k
    → ((start == null) || has start ns) ≡ true
    → has stop (past start ns) ≡ false
    → walk k s predicate c start stop h ≡ ok (fold_while f c (seen start stop (in_order us ns))) h
walk-seen {h} {us} {f} predicate reads start stop k c is fuel_us fuel_ns begins free =
    walk-route predicate reads start stop k c is fuel_us fuel_ns
    ∙ ap (λ z. ok (fold_while f c z) h) (seen-in_order start stop us is.unused.chain begins free)
