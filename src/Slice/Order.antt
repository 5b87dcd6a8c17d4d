-- ===== src/Slice/Order.antt =====
-- The order that `skit_slice_ascii_ccmp` of survival_kit/string.c puts on slices.
use mathlib.Core.Option.{some-injective}
use c_survival_kit.Common.{
  ℕ, ◌-◌, ◌≤◌, ◌≡◌, refl, sym, ap, ◌∙◌, inl, inr, Bool, true, false, ◌||◌, ◌&&◌, some, List, [],
  ◌∷◌, ◌==◌, if◌then◌else◌, arith, get_or, length, length-take, Bool-cases, ◌↔◌,
}
use c_survival_kit.Common.Int.{
  ℤ, pos, negsuc, sub_ℕ, is_zero, pos_part, neg_part, ◌-ℤ◌, -ℤ_parts, eq_of_parts,
}
use c_survival_kit.Ascii.{ccmp, is_zero-ccmp}
use c_survival_kit.Slice.Core.{Slice, chars}
use c_survival_kit.Slice.Bounds.{IsWithin, front-IsCut, length-chars}
use c_survival_kit.Slice.Compare.{common_length, common_cprefix, compare_behind, ascii_ccmp}

-- The lexicographic difference of two strings: of their first characters that differ, or else of
-- their lengths.
unfoldable pub difference : Bool → List ℕ → List ℕ → ℤ
difference cs [] b = sub_ℕ 0 (length b)
difference cs (x ∷ a) [] = pos (length (x ∷ a))
difference cs (x ∷ a) (y ∷ b) =
    let rest = difference cs a b in if is_zero (ccmp x y cs) then rest else ccmp x y cs

common_length-le :
    (cs : Bool) (a b : List ℕ)
    → (common_length cs a b ≤ length a) × (common_length cs a b ≤ length b)
unfolding common_length
common_length-le cs [] b = (omega arith, omega arith)
common_length-le cs (x ∷ a) [] = (omega arith, omega arith)
common_length-le cs (x ∷ a) (y ∷ b) = ground (arith, common_length-le cs a b)

-- The comparison behind the common prefix, on strings.
behind : Bool → List ℕ → List ℕ → ℕ → ℤ
behind cs a b at =
    if length a - at == length b - at
    then (if length a - at == 0 then pos 0 else ccmp (get_or a at 0) (get_or b at 0) cs)
    else if length a - at == 0 || length b - at == 0
    then sub_ℕ (length a - at) (length b - at)
    else ccmp (get_or a at 0) (get_or b at 0) cs

behind-difference :
    (cs : Bool) (a b : List ℕ) → behind cs a b (common_length cs a b) ≡ difference cs a b
unfolding behind common_length difference
behind-difference cs [] b = ground arith
behind-difference cs (x ∷ a) [] = ground arith
behind-difference cs (x ∷ a) (y ∷ b) = elim (Bool-cases (is_zero (ccmp x y cs))) [
  | inl same ↦ ground (arith, behind-difference cs a b, common_length-le cs a b)
  | inr other ↦ ground arith
]

compare_behind-eq :
    (s t : Slice) (cs : Bool) (at : ℕ)
    → IsWithin s
    → IsWithin t
    → compare_behind s t at cs ≡ behind cs (chars s) (chars t) at
unfolding compare_behind behind
compare_behind-eq s t cs at ws wt = rw (length-chars s ws, length-chars t wt, compare_behind) refl

-- On two slices within their blocks `skit_slice_ascii_ccmp` passes its assertions and returns the
-- lexicographic difference of their characters, with regard to case or without: that of the first
-- characters that compare as different, or else that of the lengths.
pub ascii_ccmp-difference :
    (s t : Slice) (cs : Bool)
    → IsWithin s
    → IsWithin t
    → ascii_ccmp (some s) (some t) cs ≡ some (difference cs (chars s) (chars t))
unfolding ascii_ccmp common_cprefix
ascii_ccmp-difference s t cs ws wt =
    let n = common_length cs (chars s) (chars t) in
    let le = common_length-le cs (chars s) (chars t) in
    let c = front-IsCut s n ws (omega (arith, le, length-chars s ws)) in
    let e : c.piece.length ≡ n =
      omega (arith, length-chars c.piece c.within, ap length c.cut, length-take n (chars s), le) in
    rw (ascii_ccmp, common_cprefix, c.result, e)
      (ap some (compare_behind-eq s t cs n ws wt ∙ behind-difference cs (chars s) (chars t)))

ccmp-flip :
    (x y : ℕ) (cs : Bool)
    → (pos_part (ccmp y x cs) ≡ neg_part (ccmp x y cs))
      × (neg_part (ccmp y x cs) ≡ pos_part (ccmp x y cs))
unfolding ccmp
ccmp-flip x y true = (ground arith, ground arith)
ccmp-flip x y false = (ground arith, ground arith)

is_zero_parts : (z : ℤ) → is_zero z ≡ (pos_part z == 0 && neg_part z == 0)
is_zero_parts (pos n) = ground arith
is_zero_parts (negsuc n) = ground arith

-- The difference of the strings the other way round is its negative.
pub difference-flip :
    (cs : Bool) (a b : List ℕ)
    → (pos_part (difference cs b a) ≡ neg_part (difference cs a b))
      × (neg_part (difference cs b a) ≡ pos_part (difference cs a b))
unfolding difference
difference-flip cs [] [] = ground arith
difference-flip cs [] (y ∷ b) = ground arith
difference-flip cs (x ∷ a) [] = ground arith
difference-flip cs (x ∷ a) (y ∷ b) = ground (
  arith,
  difference-flip cs a b,
  ccmp-flip x y cs,
  is_zero_parts (ccmp x y cs),
  is_zero_parts (ccmp y x cs),
)

-- With regard to case it is zero exactly at equal strings.
pub difference-zero : (a b : List ℕ) → is_zero (difference true a b) ≡ true → a ≡ b
unfolding difference
difference-zero [] [] e = refl
difference-zero [] (y ∷ b) e = absurd (ground arith)
difference-zero (x ∷ a) [] e = absurd (ground arith)
difference-zero (x ∷ a) (y ∷ b) e = ground (arith, difference-zero a b, is_zero-ccmp x y)

pub difference_self : (cs : Bool) (a : List ℕ) → difference cs a a ≡ pos 0
unfolding difference ccmp
difference_self cs [] = ground arith
difference_self true (x ∷ a) = ground (arith, difference_self true a)
difference_self false (x ∷ a) = ground (arith, difference_self false a)

is_zero-pos : (z : ℤ) → is_zero z ≡ true → z ≡ pos 0
is_zero-pos (pos n) e = ground arith
is_zero-pos (negsuc n) e = cc

-- On two slices within their blocks `skit_slice_ascii_cmp` returns 0 exactly if their characters
-- are equal.
pub ascii_cmp_equal :
    (s t : Slice)
    → IsWithin s
    → IsWithin t
    → (ascii_ccmp (some s) (some t) true ≡ some (pos 0)) ↔ (chars s ≡ chars t)
ascii_cmp_equal s t ws wt = (
  λ e.
      difference-zero (chars s) (chars t)
        (ap is_zero (some-injective _ _ (sym (ascii_ccmp-difference s t true ws wt) ∙ e))),
  λ e.
      ascii_ccmp-difference s t true ws wt
      ∙ ap some (ap (λ b. difference true (chars s) b) (sym e) ∙ difference_self true (chars s)),
)

-- On two slices within their blocks `skit_slice_ascii_ccmp` with its arguments swapped returns
-- the negative of what it returned.
pub ascii_ccmp-flip :
    (s t : Slice) (cs : Bool)
    → IsWithin s
    → IsWithin t
    → (z : ℤ) × ((ascii_ccmp (some s) (some t) cs ≡ some z)
        × (ascii_ccmp (some t) (some s) cs ≡ some (pos 0 -ℤ z)))
ascii_ccmp-flip s t cs ws wt =
    let z = difference cs (chars s) (chars t) in
    let flip = difference-flip cs (chars s) (chars t) in
    (
      z,
      (
        ascii_ccmp-difference s t cs ws wt,
        ascii_ccmp-difference t s cs wt ws
            ∙ ap some (
                eq_of_parts (difference cs (chars t) (chars s)) (pos 0 -ℤ z)
                  (omega (arith, flip, -ℤ_parts (pos 0) z))),
      ),
    )
