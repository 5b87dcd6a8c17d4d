-- ===== src/Stack/Heap.antt =====
-- The nodes of survival_kit/templates/stack.h at their addresses, and the commands that read and
-- write them.
use c_survival_kit.Common.{ℕ, Option, none, some, ◌==◌, if◌then◌else◌}

abbrev pub Ptr : Type 0
Ptr = ℕ

abbrev pub null : Ptr
null = 0

-- `SKIT_T(stnode)`, with values of any type.
pub record Node (V : Type 0) : Type 0 where
  pub val : V
  pub next : Ptr

abbrev pub node : {V : Type 0} → V → Ptr → Node V
node v q = record { val = v; next = q }

-- The nodes in use.
abbrev pub Heap : Type 0 → Type 0
Heap V = Ptr → Option (Node V)

-- `throws` is `skit_throw_exception_no_ctx` with SKIT_OUT_OF_BOUNDS, and carries the heap that the
-- handler finds; `fault` is a read or a write through a null or a dangling pointer.
pub data Run (V A : Type 0) : Type 0 where
  ok : A → Heap V → Run V A
  throws : Heap V → Run V A
  fault : Run V A
  out_of_fuel : Run V A

abbrev pub Cmd : Type 0 → Type 0 → Type 0
Cmd V A = Heap V → Run V A

abbrev pub pure : {V A : Type 0} → A → Cmd V A
pure = ok

abbrev pub out_of_bounds : {V A : Type 0} → Cmd V A
out_of_bounds = throws

module _ {V A B : Type 0} where
  abbrev pub and_then : Run V A → (A → Cmd V B) → Run V B
  and_then (ok a h) k = k a h
  and_then (throws h) k = throws h
  and_then fault k = fault
  and_then out_of_fuel k = out_of_fuel

  infixl 5 ◌>>=◌ ◌>>◌
  abbrev pub ◌>>=◌ : Cmd V A → (A → Cmd V B) → Cmd V B
  m >>= k = λ h. and_then (m h) k

  abbrev pub ◌>>◌ : Cmd V A → Cmd V B → Cmd V B
  m >> k = m >>= λ _. k

module _ {V : Type 0} where
  unfoldable pub store : Heap V → Ptr → Node V → Heap V
  store h p n a = if a == p then some n else h a

  -- `*p`
  unfoldable pub load : Ptr → Cmd V (Node V)
  load p h = if p == null then fault else elim (h p) [ none ↦ fault | some n ↦ ok n h ]

  -- `memcpy` into a block that the allocator has just returned
  unfoldable pub fill : Ptr → Node V → Cmd V (Unit {0})
  fill p n h = ok tt (store h p n)

  -- `p->next = q`
  unfoldable pub set_next : Ptr → Ptr → Cmd V (Unit {0})
  set_next p q = do n ← load p; fill p (record n { next = q })

-- A run that succeeds, with what holds of its result and of the heap it leaves.
pub data Returns {V A : Type 0} (P : A → Heap V → Type 0) : Run V A → Type 0 where
  returns : {a : A} {h : Heap V} → P a h → Returns P (ok a h)

module _ {V A : Type 0} {P : A → Heap V → Type 0} where
  pub Returns-bind :
      {B : Type 0} {Q : B → Heap V → Type 0} {r : Run V A} {k : A → Cmd V B}
      → Returns P r
      → ((a : A) (h : Heap V) → P a h → Returns Q (k a h))
      → Returns Q (and_then r k)
  Returns-bind (returns p) next = next _ _ p

  pub Returns-mono :
      {Q : A → Heap V → Type 0} {r : Run V A}
      → Returns P r
      → ((a : A) (h : Heap V) → P a h → Q a h)
      → Returns Q r
  Returns-mono (returns p) weaken = returns (weaken _ _ p)
