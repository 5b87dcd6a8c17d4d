-- ===== src/InheritanceTable/Tests.antt =====
-- Runs of survival_kit/inheritance_table.c, and the cases at which its theorems are applied.
use c_survival_kit.Common.{
  ℕ, zero, suc, ◌<◌, ◌≡◌, refl, ◌⊎◌, inl, inr, false, some, [], ◌∷◌, arith, get_or,
}
use c_survival_kit.Common.Int.{pos}
use c_survival_kit.InheritanceTable.Register.{
  Memory, InheritanceTable, table_ctor, register_parent_child_rel, register_child,
  id_is_initialized, is_a,
}
use c_survival_kit.InheritanceTable.Ancestry.{IsRanked, IsAnswer, is_a-IsAnswer, parent_of}
use c_survival_kit.InheritanceTable.Invariant.{IsConsistent, IsRelated}
use c_survival_kit.InheritanceTable.Related.{register_parent_child_rel-IsRelated}

-- Before the first call the ids hold anything.
abbrev fresh_memory : Memory
fresh_memory a = pos 1076

table_ctor-IsConsistent : IsConsistent table_ctor fresh_memory
table_ctor-IsConsistent = record {
  same_size = refl;
  closed = λ i h. absurd (omega arith);
  holds = λ i h. absurd (omega arith);
}

-- The child is registered before its parent, which becomes a root.
out_of_order :
    (register_parent_child_rel table_ctor fresh_memory 10 20).0.table ≡ pos 0 ∷ pos 0 ∷ []
unfolding register_parent_child_rel register_child id_is_initialized
out_of_order = refl

register_parent_child_rel-IsRelated_example :
    IsRelated 10 20 (register_parent_child_rel table_ctor fresh_memory 10 20)
register_parent_child_rel-IsRelated_example =
    register_parent_child_rel-IsRelated table_ctor fresh_memory 10 20 table_ctor-IsConsistent

-- 0 is a root, 1 is a child of 0, and 2 is a child of 1.
abbrev chain : InheritanceTable
chain = record { table = pos 0 ∷ pos 0 ∷ pos 1 ∷ []; initialized_ptrs = 10 ∷ 20 ∷ 30 ∷ [] }

-- 0 is a child of 1, which is a root.
abbrev turned : InheritanceTable
turned = record { table = pos 1 ∷ pos 1 ∷ []; initialized_ptrs = 10 ∷ 20 ∷ [] }

-- The loop stops at once at index 0, whatever its parent.
is_a-turned : is_a 5 turned (pos 0) (pos 1) ≡ some false
unfolding is_a
is_a-turned = refl

chain-IsRanked : IsRanked chain.table (λ i. i)
chain-IsRanked = record {
  parent = λ i. get_or (0 ∷ 0 ∷ 1 ∷ []) i 0;
  has_parent = has_parent;
  parent_within = parent_within;
  descends = descends;
}
  where
    has_parent : (i : ℕ) → i < 3 → parent_of chain.table i ≡ pos (get_or (0 ∷ 0 ∷ 1 ∷ []) i 0)
    has_parent zero h = refl
    has_parent (suc zero) h = refl
    has_parent (suc (suc zero)) h = refl
    has_parent (suc (suc (suc i))) h = absurd (omega arith)

    parent_within : (i : ℕ) → i < 3 → get_or (0 ∷ 0 ∷ 1 ∷ []) i 0 < 3
    parent_within zero h = omega arith
    parent_within (suc zero) h = omega arith
    parent_within (suc (suc zero)) h = omega arith
    parent_within (suc (suc (suc i))) h = absurd (omega arith)

    descends :
        (i : ℕ) → i < 3 → (get_or (0 ∷ 0 ∷ 1 ∷ []) i 0 ≡ i) ⊎ (get_or (0 ∷ 0 ∷ 1 ∷ []) i 0 < i)
    descends zero h = inl refl
    descends (suc zero) h = inr (omega arith)
    descends (suc (suc zero)) h = inr (omega arith)
    descends (suc (suc (suc i))) h = absurd (omega arith)

is_a-IsAnswer_example : IsAnswer chain.table 2 0 (is_a 4 chain (pos 2) (pos 0))
is_a-IsAnswer_example =
    is_a-IsAnswer chain (λ i. i) 4 2 0 chain-IsRanked (omega arith) (λ e. refl) (omega arith)
