-- ===== src/Fstack/Core.antt =====
-- The operations of survival_kit/templates/fstack.c, with the stack operations that they call.
use c_survival_kit.Common.{
  ℕ, zero, suc, Bool, true, false, not, ◌||◌, ◌==◌, if◌then◌else◌, List, [], ◌∷◌,
}
use c_survival_kit.Common.Int.{is_zero}
use c_survival_kit.Stack.Heap.{
  Ptr, null, Node, Cmd, out_of_fuel, pure, out_of_bounds, ◌>>=◌, ◌>>◌, load, fill,
}
use c_survival_kit.Stack.Core
use c_survival_kit.Stack.Core.{Stack, empty_stack}

pub record Fstack : Type 0 where
  pub unused : Stack
  pub used : Stack

-- `fstack_ctor`
abbrev pub empty_fstack : Fstack
empty_fstack = record { unused = empty_stack; used = empty_stack }

module _ {V : Type 0} where
  -- `fstack_grow`
  unfoldable pub grow : Fstack → Ptr → Cmd V Fstack
  grow s p = do unused ← Core.push s.unused p; pure (record s { unused = unused })

  -- `fstack_push`: the result is the address of the node whose value the caller may write.
  unfoldable pub push : Fstack → Cmd V (Ptr × Fstack)
  push s = if is_zero s.unused.length then out_of_bounds else do
    (result, unused) ← Core.pop s.unused
    used ← Core.push s.used result
    pure (result, record { unused = unused; used = used })

  -- `fstack_alloc`: `block` is what `allocate` returns, and holds `junk`.
  unfoldable pub alloc : Fstack → (block : Ptr) → (junk : Node V) → Cmd V (Ptr × Fstack)
  alloc s block junk =
      if is_zero s.unused.length
      then (do
        fill block junk
        used ← Core.push s.used block
        pure (block, record s { used = used }))
      else push s

  -- `fstack_pop`
  unfoldable pub pop : Fstack → Cmd V (Ptr × Fstack)
  pop s = do
    (result, used) ← Core.pop s.used
    unused ← Core.push s.unused result
    pure (result, record { unused = unused; used = used })

  -- The first loop of `fstack_walk`, on fuel: the reversing buffer, its last entry first, and
  -- whether the start has been reached.
  unfoldable pub collect : ℕ → (start cur : Ptr) → List Ptr → Bool → Cmd V (List Ptr × Bool)
  collect zero start cur buffer reached = λ _. out_of_fuel
  collect (suc k) start cur buffer reached =
      if cur == null
      then pure (buffer, reached)
      else if cur == start
      then pure (cur ∷ buffer, true)
      else do n ← load cur; collect k start n.next (cur ∷ buffer) reached

  -- The second loop: the buffer backwards. The result says whether the end was reached.
  unfoldable pub replay :
      {C : Type 0} → (C → Ptr → Cmd V (Bool × C)) → (stop : Ptr) → C → List Ptr → Cmd V (Bool × C)
  replay predicate stop c [] = pure (false, c)
  replay predicate stop c (p ∷ buffer) = do
    (more, c') ← predicate c p
    if not more || (p == stop) then pure (true, c') else replay predicate stop c' buffer

  -- `fstack_walk`
  unfoldable pub walk :
      {C : Type 0} → ℕ → Fstack → (C → Ptr → Cmd V (Bool × C)) → C → (start stop : Ptr) → Cmd V C
  walk k s predicate c start stop = do
    (buffer, reached) ← collect k start s.unused.front [] (start == null)
    (ended, c') ←
        (if reached || (start == null) then replay predicate stop c buffer else pure (false, c))
    if ended then pure c' else Core.walk k s.used predicate c' s.used.front stop
