-- ===== src/Slice/Partition.antt =====
-- `skit_slice_partition` and `skit_slice_take_head` of survival_kit/string.c.
use mathlib.Core.Path.{subst}
use c_survival_kit.Common.{
  ℕ, ◌+◌, ◌<◌, ◌≡◌, refl, sym, ap, ap₂, ◌∙◌, Bool, true, false, Option, none, some, List, [], ◌∷◌,
  ◌++◌, arith, ltb, take, drop, length, length-append, drop_all, take_all, drop_add,
}
use c_survival_kit.Slice.Core.{Slice, chars, find, partition, take_head}
use c_survival_kit.Slice.Bounds.{IsWithin, front-IsCut, back-IsCut, length-chars}
use c_survival_kit.Slice.Search.{Occurs, IsFirst, first, nowhere, find-IsFirst, drop-append}

-- The text is cut at the first delimiter, or it has none and is all head.
pub data IsSplit (text delimiter : List ℕ) : Bool × (Option Slice × Option Slice) → Type 0 where
  cut :
      (head tail : Slice)
      → IsWithin head
      → IsWithin tail
      → text ≡ chars head ++ (delimiter ++ chars tail)
      → ((j : ℕ) → j < length (chars head) → Occurs delimiter text j → ⊥)
      → IsSplit text delimiter (true, (some head, some tail))
  whole :
      (head tail : Slice)
      → IsWithin head
      → IsWithin tail
      → chars head ≡ text
      → chars tail ≡ []
      → ((j : ℕ) → j < length text → Occurs delimiter text j → ⊥)
      → IsSplit text delimiter (false, (some head, some tail))

take-append : (xs ys : List ℕ) → take (length xs) (xs ++ ys) ≡ xs
take-append [] ys = refl
take-append (x ∷ xs) ys = ap (λ zs. x ∷ zs) (take-append xs ys)

module _ (needle hay : List ℕ) (i : ℕ) (o : Occurs needle hay i) where
  -- The text around an occurrence.
  around-before : take i hay ≡ o.before
  around-before =
      subst (λ n. take n hay ≡ o.before) o.place
        (ap (take (length o.before)) o.spells ∙ take-append o.before (needle ++ o.after))

  around-after : drop (i + length needle) hay ≡ o.after
  around-after =
      drop_add i (length needle) (i + length needle) hay refl
      ∙ ap (drop (length needle)) (
          subst (λ n. drop n hay ≡ needle ++ o.after) o.place
            (ap (drop (length o.before)) o.spells ∙ drop-append o.before (needle ++ o.after)))
      ∙ drop-append needle o.after

  around-length : i + length needle + length o.after ≡ length hay
  around-length = omega (
    arith,
    ap length o.spells,
    length-append o.before (needle ++ o.after),
    length-append needle o.after,
    o.place,
  )

-- `skit_slice_partition` passes its assertions on a text and a delimiter that lie within blocks
-- of fewer than 2^28 characters. If it finds the delimiter, the text is the head, the delimiter
-- and the tail in this order, and the delimiter stands nowhere earlier than behind the head;
-- otherwise the head is the text, the tail is empty, and the delimiter stands at no place before
-- the end of the text.
pub partition-IsSplit :
    (text delimiter : Slice)
    → IsWithin text
    → IsWithin delimiter
    → IsSplit (chars text) (chars delimiter) (partition text delimiter)
unfolding partition
partition-IsSplit text delimiter wt wd =
    by_find (find text delimiter) refl (find-IsFirst text delimiter wt wd)
  where
    by_find :
        (r : Option ℕ)
        → find text delimiter ≡ r
        → IsFirst (chars delimiter) (chars text) r
        → IsSplit (chars text) (chars delimiter) (partition text delimiter)
    by_find (some i) e (first _ low o earlier) =
        let h = front-IsCut text i wt (omega (arith, length-chars text wt)) in
        let t = back-IsCut text (i + delimiter.length) wt (
          omega (
            arith,
            around-length (chars delimiter) (chars text) i o,
            length-chars text wt,
            length-chars delimiter wd,
          )) in
        let head_is : chars h.piece ≡ o.before =
          h.cut ∙ around-before (chars delimiter) (chars text) i o in
        let tail_is : chars t.piece ≡ o.after =
          t.cut
          ∙ ap (λ n. drop (i + n) (chars text)) (sym (length-chars delimiter wd))
          ∙ around-after (chars delimiter) (chars text) i o in
        rw (e, h.result, t.result, partition)
          (cut h.piece t.piece h.within t.within
            (o.spells ∙ ap₂ (λ a b. a ++ (chars delimiter ++ b)) (sym head_is) (sym tail_is))
            (λ j less. earlier j (omega (arith, ap length head_is, o.place))))
    by_find none e (nowhere never) =
        let h = front-IsCut text text.length wt (omega arith) in
        let t = back-IsCut text text.length wt (omega arith) in
        rw (e, h.result, t.result, partition)
          (whole h.piece t.piece h.within t.within
            (h.cut ∙ take_all text.length (chars text) (omega (arith, length-chars text wt)))
            (t.cut ∙ drop_all text.length (chars text) (omega (arith, length-chars text wt))) never)

-- What is left of the text after each call of `skit_slice_take_head`.
pub data IsTaken (text : Slice) : Bool × (Option Slice × Option Slice) → Type 0 where
  taken :
      (more : Bool) (head rest : Slice)
      → IsWithin rest
      → (more ≡ true → length (chars rest) < length (chars text))
      → IsTaken text (more, (some head, some rest))

-- `skit_slice_take_head` with a delimiter that is not empty passes its assertions and leaves a
-- text within its block, and whenever it says that there was text, what is left is shorter, so a
-- loop of such calls ends.
pub take_head-IsTaken :
    (text delimiter : Slice)
    → IsWithin text
    → IsWithin delimiter
    → 0 < delimiter.length
    → IsTaken text (take_head text delimiter)
unfolding take_head
take_head-IsTaken text delimiter wt wd some_chars =
    by_split (partition text delimiter) (partition-IsSplit text delimiter wt wd)
  where
    by_split :
        (r : Bool × (Option Slice × Option Slice))
        → IsSplit (chars text) (chars delimiter) r
        → IsTaken text (ltb 0 text.length, r.1)
    by_split _ (cut head tail wh wr spells earlier) =
        taken (ltb 0 text.length) head tail wr (λ more. omega (
          arith,
          ap length spells,
          length-append (chars head) (chars delimiter ++ chars tail),
          length-append (chars delimiter) (chars tail),
          length-chars delimiter wd,
        ))
    by_split _ (whole head tail wh wr same nothing never) =
        taken (ltb 0 text.length) head tail wr
          (λ more. ground (arith, more, ap length nothing, length-chars text wt))
