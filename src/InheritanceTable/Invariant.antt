-- ===== src/InheritanceTable/Invariant.antt =====
-- What `skit_register_parent_child_rel` of survival_kit/inheritance_table.c keeps true.
use mathlib.Core.Path.{subst}
use c_survival_kit.Common.{
  ℕ, zero, suc, ◌≤◌, ◌<◌, ◌≡◌, ◌≢◌, refl, sym, ap, ◌∙◌, inl, inr, true, false, List, [], ◌∷◌, ◌++◌,
  ◌==◌, if◌then◌else◌, arith, get_or, set, length, length-set, length-append, Bool-cases,
}
use c_survival_kit.Common.Int.{ℤ, pos, negsuc}
use c_survival_kit.InheritanceTable.Register.{
  Address, Memory, store, InheritanceTable, in_table, id_is_initialized, assign,
}
use c_survival_kit.InheritanceTable.Ancestry.{parent_of}

-- The arrays have one length; each entry is an index into the table; and the id that an index was
-- given to still holds that index.
pub record IsConsistent (t : InheritanceTable) (m : Memory) : Type 0 where
  pub same_size : length t.initialized_ptrs ≡ length t.table
  pub closed :
      (i : ℕ)
      → i < length t.table
      → (j : ℕ) × ((parent_of t.table i ≡ pos j) × (j < length t.table))
  pub holds : (i : ℕ) → i < length t.table → m (get_or t.initialized_ptrs i 0) ≡ pos i

-- The id has an index of the table.
pub record IsRegistered (t : InheritanceTable) (m : Memory) (id : Address) : Type 0 where
  pub index : ℕ
  pub has_index : m id ≡ pos index
  pub in_range : index < length t.table
  pub points_back : get_or t.initialized_ptrs index 0 ≡ id

pub registered :
    (t : InheritanceTable) (m : Memory) (id : Address)
    → id_is_initialized t m id ≡ true
    → IsRegistered t m id
unfolding id_is_initialized
registered t m id e = by_value (m id) refl e
  where
    by_value : (z : ℤ) → m id ≡ z → in_table t id z ≡ true → IsRegistered t m id
    by_value (negsuc n) q e = cc
    by_value (pos n) q e = record {
      index = n;
      has_index = q;
      in_range = ground (arith, e);
      points_back = ground (arith, e);
    }

pub get_or-append :
    {A : Type 0} (xs : List A) (x : A) (i : ℕ) (d : A)
    → get_or (xs ++ (x ∷ [])) i d ≡ (if i == length xs then x else get_or xs i d)
get_or-append [] x zero d = refl
get_or-append [] x (suc i) d = ground arith
get_or-append (y ∷ xs) x zero d = ground arith
get_or-append (y ∷ xs) x (suc i) d = ground (arith, get_or-append xs x i d)

get_or-set :
    (xs : List ℤ) (i j : ℕ) (v d : ℤ)
    → i < length xs
    → get_or (set xs i v) j d ≡ (if j == i then v else get_or xs j d)
get_or-set [] i j v d h = absurd (omega arith)
get_or-set (x ∷ xs) zero zero v d h = ground arith
get_or-set (x ∷ xs) zero (suc j) v d h = ground arith
get_or-set (x ∷ xs) (suc i) zero v d h = ground arith
get_or-set (x ∷ xs) (suc i) (suc j) v d h = ground (arith, get_or-set xs i j v d)

-- Both ids are in the table, and the child's entry is the parent's index.
pub record IsRelated (child parent : Address) (r : InheritanceTable × Memory) : Type 0 where
  pub consistent : IsConsistent r.0 r.1
  pub child_in : IsRegistered r.0 r.1 child
  pub parent_in : IsRegistered r.0 r.1 parent
  pub related : parent_of r.0.table child_in.index ≡ r.1 parent

module _ (t : InheritanceTable) (m : Memory) (child parent : Address) (w : IsConsistent t m) where
  -- A child that is there gets another parent.
  pub reassigned :
      IsRegistered t m child
      → IsRegistered t m parent
      → IsRelated child parent (assign t (m child) (m parent), m)
  reassigned c p =
      subst (λ z. IsRelated child parent (assign t z (m parent), m)) (sym c.has_index)
        (record {
          consistent = record {
            same_size = w.same_size ∙ sym (length-set t.table c.index (m parent));
            closed = λ i h. closed i (omega (arith, length-set t.table c.index (m parent)));
            holds = λ i h. w.holds i (omega (arith, length-set t.table c.index (m parent)));
          };
          child_in = record {
            index = c.index;
            has_index = c.has_index;
            in_range = omega (arith, c.in_range, length-set t.table c.index (m parent));
            points_back = c.points_back;
          };
          parent_in = record {
            index = p.index;
            has_index = p.has_index;
            in_range = omega (arith, p.in_range, length-set t.table c.index (m parent));
            points_back = p.points_back;
          };
          related =
              get_or-set t.table c.index c.index (m parent) (negsuc 0) c.in_range ∙ ground arith;
        })
    where
      closed :
          (i : ℕ)
          → i < length t.table
          → (j : ℕ) × ((parent_of (set t.table c.index (m parent)) i ≡ pos j)
              × (j < length (set t.table c.index (m parent))))
      closed i h = elim (Bool-cases (i == c.index)) [
        | inl here ↦ (
          p.index,
          (
            get_or-set t.table c.index i (m parent) (negsuc 0) c.in_range ∙ rw here p.has_index,
            omega (arith, p.in_range, length-set t.table c.index (m parent)),
          ),
        )
        | inr other ↦
            let (j, (e, less)) = w.closed i h in
            (
              j,
              (
                get_or-set t.table c.index i (m parent) (negsuc 0) c.in_range ∙ rw other e,
                omega (arith, less, length-set t.table c.index (m parent)),
              ),
            )
      ]

pub is_registered :
    (t : InheritanceTable) (m : Memory) (id : Address)
    → IsRegistered t m id
    → id_is_initialized t m id ≡ true
unfolding id_is_initialized
is_registered t m id r =
    subst (λ z. in_table t id z ≡ true) (sym r.has_index)
      (ground (arith, r.in_range, r.points_back))

module _ (t : InheritanceTable) (m : Memory) (child : Address) (w : IsConsistent t m)
    (new : id_is_initialized t m child ≡ false) where
  unfoldable pub m' : Memory
  m' = store m child (pos (length t.table))

  pub m'-child : m' child ≡ pos (length t.table)
  unfolding m'
  m'-child = ground arith

  pub m'-other : (a : Address) → a ≢ child → m' a ≡ m a
  unfolding m'
  m'-other a ne = elim (Bool-cases (a == child)) [
    | inl same ↦ absurd (ne (ground (arith, same)))
    | inr other ↦ rw other refl
  ]

  -- An id of the table is not the new one.
  pub registered_ne : (a : Address) → IsRegistered t m a → a ≢ child
  registered_ne a r e =
      let old = subst (λ z. id_is_initialized t m z ≡ true) e (is_registered t m a r) in
      ground (arith, old, new)

  ptr_ne : (i : ℕ) → i < length t.table → get_or t.initialized_ptrs i 0 ≢ child
  ptr_ne i h =
      registered_ne (get_or t.initialized_ptrs i 0)
        (record { index = i; has_index = w.holds i h; in_range = h; points_back = refl })

  module _ (v : ℤ) where
    unfoldable pub grown : InheritanceTable
    grown = record {
      table = t.table ++ (v ∷ []);
      initialized_ptrs = t.initialized_ptrs ++ (child ∷ []);
    }

    pub grown-length : length grown.table ≡ suc (length t.table)
    unfolding grown
    grown-length = omega (arith, length-append t.table (v ∷ []))

    pub child-registered : IsRegistered grown m' child
    unfolding grown
    child-registered = record {
      index = length t.table;
      has_index = m'-child;
      in_range = omega (arith, grown-length);
      points_back =
          get_or-append t.initialized_ptrs child (length t.table) 0 ∙ ground (arith, w.same_size);
    }

    pub child-index : child-registered.index ≡ length t.table
    unfolding child-registered
    child-index = refl

    pub old-registered : (a : Address) → IsRegistered t m a → IsRegistered grown m' a
    unfolding grown
    old-registered a r = record {
      index = r.index;
      has_index = m'-other a (registered_ne a r) ∙ r.has_index;
      in_range = omega (arith, grown-length, r.in_range);
      points_back =
          get_or-append t.initialized_ptrs child r.index 0
          ∙ ground (arith, w.same_size, r.in_range, r.points_back);
    }

    -- The new entry is an index of the table.
    pub added : (j : ℕ) → v ≡ pos j → j ≤ length t.table → IsConsistent grown m'
    unfolding grown
    added j e le = record {
      same_size =
          omega (arith, grown-length, length-append t.initialized_ptrs (child ∷ []), w.same_size);
      closed = closed;
      holds = holds;
    }
      where
        closed :
            (i : ℕ)
            → i < length grown.table
            → (k : ℕ) × ((parent_of grown.table i ≡ pos k) × (k < length grown.table))
        closed i h = elim (Bool-cases (i == length t.table)) [
          | inl last ↦
              (j, (get_or-append t.table v i (negsuc 0) ∙ rw last e, omega (arith, grown-length)))
          | inr old ↦
              let (k, (f, less)) = w.closed i (ground (arith, h, grown-length, old)) in
              (
                k,
                (
                  get_or-append t.table v i (negsuc 0) ∙ rw old f,
                  omega (arith, grown-length, less),
                ),
              )
        ]

        holds : (i : ℕ) → i < length grown.table → m' (get_or grown.initialized_ptrs i 0) ≡ pos i
        holds i h = elim (Bool-cases (i == length t.table)) [
          | inl last ↦
              let at : get_or grown.initialized_ptrs i 0 ≡ child =
                get_or-append t.initialized_ptrs child i 0 ∙ ground (arith, last, w.same_size) in
              ap m' at ∙ m'-child ∙ ap pos (ground (arith, last))
          | inr old ↦
              let within : i < length t.table = ground (arith, h, grown-length, old) in
              let at : get_or grown.initialized_ptrs i 0 ≡ get_or t.initialized_ptrs i 0 =
                get_or-append t.initialized_ptrs child i 0 ∙ ground (arith, old, w.same_size) in
              ap m' at
              ∙ m'-other (get_or t.initialized_ptrs i 0) (ptr_ne i within)
              ∙ w.holds i within
        ]
