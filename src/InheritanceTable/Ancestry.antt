-- ===== src/InheritanceTable/Ancestry.antt =====
-- `skit_is_a` of survival_kit/inheritance_table.c on a table in which every chain of parents ends at
-- a root.
use mathlib.Core.Path.{subst}
use c_survival_kit.Common.{
  ℕ, zero, suc, ◌<◌, ◌≡◌, ◌≢◌, refl, sym, ap, ◌∙◌, ◌⊎◌, inl, inr, Bool, true, false, Option, some,
  List, leb, arith, get_or, length, Bool-cases,
}
use c_survival_kit.Common.Int.{ℤ, pos, negsuc, pos_part}
use c_survival_kit.InheritanceTable.Register.{InheritanceTable, is_a, is_a_loop, same}

abbrev pub parent_of : List ℤ → ℕ → ℤ
parent_of table i = get_or table i (negsuc 0)

-- The index `k` is `i`, or the parent of `i`, or its parent, and so on.
pub data Ancestor (table : List ℤ) : ℕ → ℕ → Type 0 where
  self : {i : ℕ} → Ancestor table i i
  up : {i j k : ℕ} → parent_of table i ≡ pos j → Ancestor table j k → Ancestor table i k

-- Each index has a parent in the table: itself, or one of lower rank.
pub record IsRanked (table : List ℤ) (rank : ℕ → ℕ) : Type 0 where
  pub parent : ℕ → ℕ
  pub has_parent : (i : ℕ) → i < length table → parent_of table i ≡ pos (parent i)
  pub parent_within : (i : ℕ) → i < length table → parent i < length table
  pub descends : (i : ℕ) → i < length table → (parent i ≡ i) ⊎ (rank (parent i) < rank i)

-- An answer, and a right one.
pub data IsAnswer (table : List ℤ) (i k : ℕ) : Option Bool → Type 0 where
  positive : Ancestor table i k → IsAnswer table i k (some true)
  negative : (Ancestor table i k → ⊥) → IsAnswer table i k (some false)

root_alone : (table : List ℤ) {i k : ℕ} → parent_of table i ≡ pos i → Ancestor table i k → i ≡ k
root_alone table e self = refl
root_alone table {i} {k} e (up {j = j} p a) =
    let here : j ≡ i = ap pos_part (sym p ∙ e) in
    sym here ∙ root_alone table (subst (λ z. parent_of table z ≡ pos z) (sym here) e) a

same-eq : (a b : ℤ) → same a b ≡ true → a ≡ b
same-eq (pos a) (pos b) e = ap pos (ground arith)
same-eq (negsuc a) (negsuc b) e = ap negsuc (ground arith)
same-eq (pos a) (negsuc b) e = cc
same-eq (negsuc a) (pos b) e = cc

same_self : (a : ℕ) → same (pos a) (pos a) ≡ true
same_self a = ground arith

through_parent :
    (table : List ℤ) {p q k : ℕ}
    → parent_of table p ≡ pos q
    → p ≢ k
    → Ancestor table p k
    → Ancestor table q k
through_parent table e other self = absurd (other refl)
through_parent table {k = k} e other (up {j = j} f a) =
    subst (λ z. Ancestor table z k) {x = j} (ap pos_part (sym f ∙ e)) a

-- The answer at the parent is the answer at an index other than the one that is asked for.
from_parent :
    (table : List ℤ) {p q k : ℕ} {r : Option Bool}
    → parent_of table p ≡ pos q
    → p ≢ k
    → IsAnswer table q k r
    → IsAnswer table p k r
from_parent table e other (positive a) = positive (up e a)
from_parent table e other (negative n) = negative (λ a. n (through_parent table e other a))

module _ (table : List ℤ) (rank : ℕ → ℕ) (r : IsRanked table rank) (k : ℕ) where
  inside : {p : ℕ} → p < length table → leb (length table) p ≡ false
  inside h = ground arith

  next_enough :
      (p : ℕ) (last : ℤ) (fuel : ℕ)
      → p < length table
      → same last (pos p) ≡ false
      → ((last ≡ pos p) × (0 < suc fuel)) ⊎ (suc (rank p) < suc fuel)
      → ((pos p ≡ pos (r.parent p)) × (0 < fuel)) ⊎ (suc (rank (r.parent p)) < fuel)
  next_enough p last fuel h onward (inl (e, _)) = absurd (
      let again : same last (pos p) ≡ true = ap (λ z. same z (pos p)) e ∙ same_self p in
      ground (arith, again, onward))
  next_enough p last fuel h onward (inr enough) = elim (r.descends p h) [
    | inl stays ↦ inl (ap pos (sym stays), omega arith)
    | inr less ↦ inr (omega (arith, less))
  ]

  loop-IsAnswer :
      (fuel p : ℕ) (last : ℤ)
      → p < length table
      → (last ≡ pos p → parent_of table p ≡ pos p)
      → ((last ≡ pos p) × (0 < fuel)) ⊎ (suc (rank p) < fuel)
      → IsAnswer table p k (is_a_loop fuel table (pos p) (pos k) last)
  unfolding is_a_loop
  loop-IsAnswer zero p last h root (inl (_, none_left)) = absurd (omega arith)
  loop-IsAnswer zero p last h root (inr none_left) = absurd (omega arith)
  loop-IsAnswer (suc fuel) p last h root enough = elim (Bool-cases (same (pos k) (pos p))) [
    | inl found ↦
        let e : k ≡ p = ground (arith, found) in
        subst (IsAnswer table p k) (sym (rw (is_a_loop, inside h, found) refl))
          (positive (subst (λ z. Ancestor table p z) (sym e) self))
    | inr other ↦
        let apart : p ≢ k = λ e. ground (arith, other, e) in
        elim (Bool-cases (same last (pos p))) [
          | inl stuck ↦
              subst (IsAnswer table p k) (sym (rw (is_a_loop, inside h, other, stuck) refl))
                (negative (λ a. apart (root_alone table (root (same-eq last (pos p) stuck)) a)))
          | inr onward ↦
              let q = r.parent p in
              let e = r.has_parent p h in
              subst (IsAnswer table p k) (sym (rw (is_a_loop, inside h, other, onward, e) refl)) (
                from_parent table e apart (
                  loop-IsAnswer fuel q (pos p) (r.parent_within p h)
                    (λ f.
                      let g : p ≡ q = ap pos_part f in subst (λ z. parent_of table z ≡ pos q) g e)
                    (next_enough p last fuel h onward enough)))
        ]
  ]

-- On a table in which each index has a parent, itself or one of lower rank, `skit_is_a` from an
-- index of the table returns within as many rounds as its rank and two more, with no failed
-- assertion, and says yes exactly if the other index is the first, its parent, or its parent in
-- turn. If the first index is 0, it has to be its own parent.
pub is_a-IsAnswer :
    (t : InheritanceTable) (rank : ℕ → ℕ) (fuel index1 index2 : ℕ)
    → IsRanked t.table rank
    → index1 < length t.table
    → (index1 ≡ 0 → parent_of t.table 0 ≡ pos 0)
    → suc (rank index1) < fuel
    → IsAnswer t.table index1 index2 (is_a fuel t (pos index1) (pos index2))
unfolding is_a
is_a-IsAnswer t rank fuel index1 index2 r h root enough =
    loop-IsAnswer t.table rank r index2 fuel index1 (pos 0) h
      (λ e.
        let z : 0 ≡ index1 = ap pos_part e in
        subst (λ i. parent_of t.table i ≡ pos i) z (root (sym z)))
      (inr enough)
