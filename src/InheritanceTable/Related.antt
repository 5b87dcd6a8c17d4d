-- ===== src/InheritanceTable/Related.antt =====
-- `skit_register_parent_child_rel` of survival_kit/inheritance_table.c as a whole.
use mathlib.Core.Path.{subst}
use c_survival_kit.Common.{
  ◌≡◌, refl, sym, ap, ◌∙◌, ◌⊎◌, inl, inr, false, [], ◌∷◌, ◌++◌, ◌==◌, arith, get_or, length,
  Bool-cases,
}
use c_survival_kit.Common.Int.{ℤ, pos, negsuc}
use c_survival_kit.InheritanceTable.Register.{
  Address, Memory, InheritanceTable, id_is_initialized, register_child, register_parent_child_rel,
}
use c_survival_kit.InheritanceTable.Invariant.{
  IsConsistent, IsRegistered, IsRelated, registered, reassigned, m', grown, m'-child, m'-other,
  registered_ne, added, child-registered, child-index, old-registered, get_or-append,
}

-- A child of itself, or of an id of the table.
register_child-IsRelated :
    (t : InheritanceTable) (m : Memory) (child parent : Address)
    → IsConsistent t m
    → (parent ≡ child) ⊎ IsRegistered t m parent
    → IsRelated child parent (register_child t m child parent)
unfolding register_child m' grown
register_child-IsRelated t m child parent w p = elim (Bool-cases (id_is_initialized t m child)) [
  | inl old ↦
      let c = registered t m child old in
      rw (old, register_child) (reassigned t m child parent w c (as_parent p c))
  | inr new ↦ rw (new, register_child) (by_parent new p)
]
  where
    as_parent :
        (parent ≡ child) ⊎ IsRegistered t m parent
        → IsRegistered t m child
        → IsRegistered t m parent
    as_parent (inl e) c = subst (IsRegistered t m) (sym e) c
    as_parent (inr q) c = q

    by_parent :
        (new : id_is_initialized t m child ≡ false)
        → (parent ≡ child) ⊎ IsRegistered t m parent
        → IsRelated child parent
            (grown t m child w new (m' t m child w new parent), m' t m child w new)
    by_parent new (inl e) =
        let v = m' t m child w new parent in
        let at : v ≡ pos (length t.table) = ap (m' t m child w new) e ∙ m'-child t m child w new in
        let c = child-registered t m child w new v in
        record {
          consistent = added t m child w new v (length t.table) at (omega arith);
          child_in = c;
          parent_in = subst (IsRegistered (grown t m child w new v) (m' t m child w new)) (sym e) c;
          related =
              ap (λ i. get_or (t.table ++ (v ∷ [])) i (negsuc 0)) (child-index t m child w new v)
              ∙ newest v;
        }
      where
        newest : (v : ℤ) → get_or (t.table ++ (v ∷ [])) (length t.table) (negsuc 0) ≡ v
        newest v = get_or-append t.table v (length t.table) (negsuc 0) ∙ ground arith
    by_parent new (inr q) =
        let v = m' t m child w new parent in
        let at : v ≡ pos q.index =
          m'-other t m child w new parent (registered_ne t m child w new parent q) ∙ q.has_index in
        record {
          consistent = added t m child w new v q.index at (omega (arith, q.in_range));
          child_in = child-registered t m child w new v;
          parent_in = old-registered t m child w new v parent q;
          related =
              ap (λ i. get_or (t.table ++ (v ∷ [])) i (negsuc 0)) (child-index t m child w new v)
              ∙ newest v;
        }
      where
        newest : (v : ℤ) → get_or (t.table ++ (v ∷ [])) (length t.table) (negsuc 0) ≡ v
        newest v = get_or-append t.table v (length t.table) (negsuc 0) ∙ ground arith

-- On a consistent table (arrays of one length, each entry an index of the table, each registered
-- id still holding its index) `skit_register_parent_child_rel` of any two ids, registered or not,
-- the same or not, leaves a consistent table in which both ids are registered and the entry of
-- the child is the index of the parent.
pub register_parent_child_rel-IsRelated :
    (t : InheritanceTable) (m : Memory) (child parent : Address)
    → IsConsistent t m
    → IsRelated child parent (register_parent_child_rel t m child parent)
unfolding register_parent_child_rel
register_parent_child_rel-IsRelated t m child parent w = elim (Bool-cases (child == parent)) [
  | inl itself ↦
      rw (itself, register_parent_child_rel)
        (register_child-IsRelated t m child parent w (inl (ground (arith, itself))))
  | inr apart ↦ elim (Bool-cases (id_is_initialized t m parent)) [
    | inl old ↦
        rw (apart, old, register_parent_child_rel)
          (register_child-IsRelated t m child parent w (inr (registered t m parent old)))
    | inr new ↦
        let root = register_child-IsRelated t m parent parent w (inl refl) in
        rw (apart, new, register_parent_child_rel)
          (register_child-IsRelated (register_child t m parent parent).0
            (register_child t m parent parent).1 child parent root.consistent (inr root.child_in))
  ]
]
