-- ===== src/InheritanceTable/Register.antt =====
-- The definitions of survival_kit/inheritance_table.c. An id is a variable of the caller that the
-- table refers to by address; `Memory` gives the value of each, which may be anything before the
-- first call. The arrays of the table are lists, where NULL is the empty list.
use c_survival_kit.Common.{
  ℕ, zero, suc, Bool, true, false, not, ◌&&◌, Option, none, some, List, [], ◌∷◌, ◌++◌, leb, ◌==◌,
  if◌then◌else◌, get_or, set, length,
}
use c_survival_kit.Common.Int.{ℤ, pos, negsuc}

-- `ssize_t *` and the variables behind such pointers.
abbrev pub Address : Type 0
Address = ℕ

abbrev pub Memory : Type 0
Memory = Address → ℤ

abbrev pub store : Memory → Address → ℤ → Memory
store m a v b = if b == a then v else m b

-- `skit_inheritance_table`; `table_size` is the length of both arrays.
pub record InheritanceTable : Type 0 where
  pub table : List ℤ
  pub initialized_ptrs : List Address

abbrev pub table_ctor : InheritanceTable
table_ctor = record { table = []; initialized_ptrs = [] }

abbrev pub table_size : InheritanceTable → ℕ
table_size t = length t.table

-- `skit_inher_id_is_initialized`
abbrev pub in_table : InheritanceTable → Address → ℤ → Bool
in_table t id (negsuc n) = false
in_table t id (pos n) = if leb (table_size t) n then false else get_or t.initialized_ptrs n 0 == id

unfoldable pub id_is_initialized : InheritanceTable → Memory → Address → Bool
id_is_initialized t m id = in_table t id (m id)

-- A write to `table->table[i]`.
abbrev pub assign : InheritanceTable → ℤ → ℤ → InheritanceTable
assign t (negsuc n) v = t
assign t (pos n) v = record { table = set t.table n v; initialized_ptrs = t.initialized_ptrs }

-- `skit_register_parent_child_rel` from the test of the child on.
unfoldable pub register_child :
    InheritanceTable → Memory → Address → Address → InheritanceTable × Memory
register_child t m child parent =
    if id_is_initialized t m child
    then (assign t (m child) (m parent), m)
    else let m' = store m child (pos (table_size t)) in
      (
        record {
          table = t.table ++ (m' parent ∷ []);
          initialized_ptrs = t.initialized_ptrs ++ (child ∷ []);
        },
        m',
      )

-- `skit_register_parent_child_rel`; its call of itself makes the parent a root.
unfoldable pub register_parent_child_rel :
    InheritanceTable → Memory → Address → Address → InheritanceTable × Memory
register_parent_child_rel t m child parent =
    if not (child == parent) && not (id_is_initialized t m parent)
    then (let (t', m') = register_child t m parent parent in register_child t' m' child parent)
    else register_child t m child parent

abbrev pub same : ℤ → ℤ → Bool
same (pos a) (pos b) = a == b
same (negsuc a) (negsuc b) = a == b
same _ _ = false

-- The loop of `skit_is_a`; `none` is an assertion that fails, or fuel that runs out.
unfoldable pub is_a_loop : ℕ → List ℤ → (parent_index child_index last_parent : ℤ) → Option Bool
is_a_loop zero table parent_index child_index last_parent = none
is_a_loop (suc fuel) table (negsuc p) child_index last_parent = none
is_a_loop (suc fuel) table (pos p) child_index last_parent =
    let rest = is_a_loop fuel table (get_or table p (negsuc 0)) child_index (pos p) in
    if leb (length table) p
    then none
    else if same child_index (pos p)
    then some true
    else if same last_parent (pos p)
    then some false
    else rest

-- `skit_is_a`
unfoldable pub is_a : ℕ → InheritanceTable → ℤ → ℤ → Option Bool
unfolding is_a_loop
is_a fuel t index1 index2 = is_a_loop fuel t.table index1 index2 (pos 0)
