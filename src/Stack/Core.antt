-- ===== src/Stack/Core.antt =====
-- The operations of survival_kit/templates/stack.c. The struct lives outside the heap of nodes, so
-- an operation that updates it returns its new value; a throw comes before the struct is written.
use c_survival_kit.Common.{ℕ, zero, suc, Bool, true, not, ◌||◌, ◌==◌, if◌then◌else◌}
use c_survival_kit.Common.Int.{ℤ, pos, ◌+ℤ◌, ◌-ℤ◌}
use c_survival_kit.Stack.Heap.{
  Ptr, null, Cmd, out_of_fuel, pure, out_of_bounds, ◌>>=◌, ◌>>◌, load, fill, set_next,
}

pub record Stack : Type 0 where
  pub front : Ptr
  pub back : Ptr
  pub length : ℤ

-- `stack_ctor`
abbrev pub empty_stack : Stack
empty_stack = record { front = null; back = null; length = pos 0 }

module _ {V : Type 0} where
  -- `stack_push`, onto the front
  unfoldable pub push : Stack → Ptr → Cmd V Stack
  push s p =
      if s.front == null
      then set_next p null >> pure (record s { front = p; back = p; length = s.length +ℤ pos 1 })
      else set_next p s.front >> pure (record s { front = p; length = s.length +ℤ pos 1 })

  -- `stack_append`, onto the back
  unfoldable pub append : Stack → Ptr → Cmd V Stack
  append s p =
      if s.back == null
      then set_next p null >> pure (record s { front = p; back = p; length = s.length +ℤ pos 1 })
      else set_next p null
        >> set_next s.back p
        >> pure (record s { back = p; length = s.length +ℤ pos 1 })

  -- `stack_pop`
  unfoldable pub pop : Stack → Cmd V (Ptr × Stack)
  pop s = if s.front == null then out_of_bounds else do
    result ← load s.front
    set_next s.front null
    let back = if result.next == null then null else s.back
    pure (s.front, record { front = result.next; back = back; length = s.length -ℤ pos 1 })

  -- The loop of `stack_walk` on fuel, from the node `cur`. A predicate gets the context and the node,
  -- and returns whether to go on and the new context.
  unfoldable pub walk_loop :
      {C : Type 0} → (C → Ptr → Cmd V (Bool × C)) → (start end : Ptr) → ℕ → Bool → C → Ptr → Cmd V C
  walk_loop predicate start end zero reached c cur = λ _. out_of_fuel
  walk_loop predicate start end (suc k) reached c cur = if cur == null then pure c else do
    let reached' = reached || (cur == start)
    (more, c') ← (if reached' then predicate c cur else pure (true, c))
    if not more || (cur == end)
        then pure c'
        else do n ← load cur; walk_loop predicate start end k reached' c' n.next

  -- `stack_walk`: the null pointer as `start` asks for the whole stack.
  unfoldable pub walk :
      {C : Type 0} → ℕ → Stack → (C → Ptr → Cmd V (Bool × C)) → C → (start end : Ptr) → Cmd V C
  unfolding walk_loop
  walk k s predicate c start end = walk_loop predicate start end k (start == null) c s.front

  -- What `stack_rdup_iter` and `stack_dup_iter` share: a copy of the node goes to the new stack. The
  -- context holds that stack and the number of blocks allocated, and `malloc i` is the address of
  -- block i.
  unfoldable pub copy_iter :
      (Stack → Ptr → Cmd V Stack) → (ℕ → Ptr) → Stack × ℕ → Ptr → Cmd V (Bool × (Stack × ℕ))
  copy_iter add malloc (s, i) p = do
    n ← load p
    fill (malloc i) n
    s' ← add s (malloc i)
    pure (true, (s', suc i))

  unfoldable pub rdup_iter : (ℕ → Ptr) → Stack × ℕ → Ptr → Cmd V (Bool × (Stack × ℕ))
  rdup_iter = copy_iter push

  unfoldable pub dup_iter : (ℕ → Ptr) → Stack × ℕ → Ptr → Cmd V (Bool × (Stack × ℕ))
  dup_iter = copy_iter append

  -- `stack_rdup`: a copy in reverse order
  unfoldable pub rdup : ℕ → (ℕ → Ptr) → Stack → Cmd V Stack
  rdup k malloc s = do (s', _) ← walk k s (rdup_iter malloc) (empty_stack, 0) null null; pure s'

  -- `stack_dup`: a copy in the same order
  unfoldable pub dup : ℕ → (ℕ → Ptr) → Stack → Cmd V Stack
  dup k malloc s = do (s', _) ← walk k s (dup_iter malloc) (empty_stack, 0) null null; pure s'

  -- The loop of `stack_reverse` on fuel: the node past `orig_front` moves to the front.
  unfoldable pub reverse_loop : ℕ → Ptr → Stack → Cmd V Stack
  reverse_loop zero orig_front s = λ _. out_of_fuel
  reverse_loop (suc k) orig_front s = do
    n ← load orig_front
    if n.next == null then pure (record s { back = orig_front }) else do
      tmp ← load n.next
      set_next orig_front tmp.next
      set_next n.next s.front
      reverse_loop k orig_front (record s { front = n.next })

  -- `stack_reverse`
  unfoldable pub reverse : ℕ → Stack → Cmd V Stack
  unfolding reverse_loop
  reverse k s = if s.front == null then pure s else reverse_loop k s.front s
