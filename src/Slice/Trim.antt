-- ===== src/Slice/Trim.antt =====
-- The trimming and truncating functions of survival_kit/string.c.
use mathlib.Core.Path.{subst}
use c_survival_kit.Common.{
  ℕ, zero, suc, ◌-◌, ◌≤◌, ◌≡◌, refl, sym, ap, ◌∙◌, inl, inr, Bool, Option, none, some, List, [],
  ◌∷◌, ◌++◌, ltb, if◌then◌else◌, arith, get_or, take, drop, length, drop_all, take-suc, take_all,
  Bool-cases,
}
use c_survival_kit.Common.Int.{pos}
use c_survival_kit.Ascii.{is_whitespace}
use c_survival_kit.Slice.Core.{
  Slice, chars, slice_of, is_in, is_in_signed, left_bound, right_bound, ltrimx, rtrimx, trimx,
  ltrim, rtrim, trim, ltruncate, rtruncate,
}
use c_survival_kit.Slice.Bounds.{
  IsWithin, IsCut, IsCut-trans, front-IsCut, back-IsCut, length-chars,
}

-- Without the characters at the front that pass the test, and without those at the end.
unfoldable pub drop_while : (ℕ → Bool) → List ℕ → List ℕ
drop_while p [] = []
drop_while p (c ∷ cs) = let rest = drop_while p cs in if p c then rest else c ∷ cs

abbrev cons_unless : Bool → ℕ → List ℕ → List ℕ
cons_unless t c [] = if t then [] else c ∷ []
cons_unless t c (d ∷ cs) = c ∷ d ∷ cs

unfoldable pub drop_while_end : (ℕ → Bool) → List ℕ → List ℕ
drop_while_end p [] = []
drop_while_end p (c ∷ cs) = cons_unless (p c) c (drop_while_end p cs)

left_bound-le : (p : ℕ → Bool) (cs : List ℕ) → left_bound p cs ≤ length cs
unfolding left_bound
left_bound-le p [] = omega arith
left_bound-le p (c ∷ cs) = ground (arith, left_bound-le p cs)

drop-left_bound : (p : ℕ → Bool) (cs : List ℕ) → drop (left_bound p cs) cs ≡ drop_while p cs
unfolding left_bound drop_while
drop-left_bound p [] = refl
drop-left_bound p (c ∷ cs) = elim (Bool-cases (p c)) [
  | inl yes' ↦ rw (yes', left_bound, drop_while) (drop-left_bound p cs)
  | inr no' ↦ rw (no', left_bound, drop_while) refl
]

right_bound-le : (p : ℕ → Bool) (cs : List ℕ) (n : ℕ) → right_bound p cs n ≤ n
unfolding right_bound
right_bound-le p cs zero = omega arith
right_bound-le p cs (suc n) = ground (arith, right_bound-le p cs n)

cons_unless-push :
    (t : Bool) (d : ℕ) (cs : List ℕ) (c : ℕ)
    → cons_unless t d (cs ++ (c ∷ [])) ≡ d ∷ (cs ++ (c ∷ []))
cons_unless-push t d [] c = refl
cons_unless-push t d (e ∷ cs) c = refl

drop_while_end-push :
    (p : ℕ → Bool) (cs : List ℕ) (c : ℕ)
    → drop_while_end p (cs ++ (c ∷ [])) ≡ (if p c then drop_while_end p cs else cs ++ (c ∷ []))
unfolding drop_while_end
drop_while_end-push p [] c = refl
drop_while_end-push p (d ∷ cs) c = elim (Bool-cases (p c)) [
  | inl yes' ↦ rw (drop_while_end-push p cs c, yes') refl
  | inr no' ↦ rw (drop_while_end-push p cs c, no') (cons_unless-push (p d) d cs c)
]

take-right_bound :
    (p : ℕ → Bool) (cs : List ℕ) (n : ℕ)
    → n ≤ length cs
    → take (right_bound p cs n) cs ≡ drop_while_end p (take n cs)
unfolding right_bound drop_while_end
take-right_bound p cs zero h = refl
take-right_bound p cs (suc n) h = elim (Bool-cases (p (get_or cs n 0))) [
  | inl yes' ↦
      rw (yes', right_bound, take-suc n cs 0 (omega arith), drop_while_end-push, yes')
        (take-right_bound p cs n (omega arith))
  | inr no' ↦ rw (no', right_bound, take-suc n cs 0 (omega arith), drop_while_end-push, no') refl
]

-- Cutting a slice at either bound.
left-IsCut :
    (p : ℕ → Bool) (s : Slice)
    → IsWithin s
    → IsCut s (drop_while p (chars s)) (slice_of s (pos (left_bound p (chars s))) (pos s.length))
left-IsCut p s w =
    subst (λ cs. IsCut s cs (slice_of s (pos (left_bound p (chars s))) (pos s.length)))
      (drop-left_bound p (chars s))
      (back-IsCut s (left_bound p (chars s)) w
        (omega (arith, left_bound-le p (chars s), length-chars s w)))

right-IsCut :
    (p : ℕ → Bool) (s : Slice)
    → IsWithin s
    → IsCut s
        (drop_while_end p (chars s))
        (slice_of s (pos 0) (pos (right_bound p (chars s) s.length)))
right-IsCut p s w =
    let len = length-chars s w in
    subst (λ cs. IsCut s cs (slice_of s (pos 0) (pos (right_bound p (chars s) s.length))))
      (take-right_bound p (chars s) s.length (omega arith)
        ∙ ap (drop_while_end p) (take_all s.length (chars s) (omega arith)))
      (front-IsCut s (right_bound p (chars s) s.length) w (right_bound-le p (chars s) s.length))

-- White space at the front goes, and only it.
pub ltrim-IsCut : (s : Slice) → IsWithin s → IsCut s (drop_while is_whitespace (chars s)) (ltrim s)
unfolding ltrim
ltrim-IsCut s w = left-IsCut is_whitespace s w

pub rtrim-IsCut :
    (s : Slice) → IsWithin s → IsCut s (drop_while_end is_whitespace (chars s)) (rtrim s)
unfolding rtrim
rtrim-IsCut s w = right-IsCut is_whitespace s w

then-IsCut :
    (f : Slice → Option Slice) (g : List ℕ → List ℕ) (s : Slice) (cs : List ℕ) {r : Option Slice}
    → ((q : Slice) → IsWithin q → IsCut q (g (chars q)) (f q))
    → IsCut s cs r
    → IsCut s (g cs) (elim r [ none ↦ none | some q ↦ f q ])
then-IsCut f g s cs step c =
    subst (λ x. IsCut s (g cs) (elim x [ none ↦ none | some q ↦ f q ])) (sym c.result)
      (subst (λ ds. IsCut s (g ds) (f c.piece)) c.cut (IsCut-trans c (step c.piece c.within)))

-- `skit_slice_trim` of a slice within its block passes its assertions and yields a slice of the
-- same block, within the given one, with its characters, less the white space at the end and then
-- at the front, and less nothing else.
pub trim-IsCut :
    (s : Slice)
    → IsWithin s
    → IsCut s (drop_while is_whitespace (drop_while_end is_whitespace (chars s))) (trim s)
unfolding trim
trim-IsCut s w = then-IsCut ltrim (drop_while is_whitespace) s _ ltrim-IsCut (rtrim-IsCut s w)

-- `skit_slice_trimx` of a slice within its block passes its assertions and yields a slice of the
-- same block, within the given one, with its characters, less those of the class at the front,
-- and less those of the class that are below 128 at the end.
pub trimx-IsCut :
    (s : Slice) (char_class : List ℕ)
    → IsWithin s
    → IsCut s
        (drop_while (is_in char_class) (drop_while_end (is_in_signed char_class) (chars s)))
        (trimx s char_class)
unfolding trimx ltrimx rtrimx
trimx-IsCut s char_class w =
    then-IsCut (λ q. ltrimx q char_class) (drop_while (is_in char_class)) s _
      (λ q v. left-IsCut (is_in char_class) q v) (right-IsCut (is_in_signed char_class) s w)

-- Truncation, by more characters than there are as well.
pub ltruncate-IsCut : (s : Slice) (n : ℕ) → IsWithin s → IsCut s (drop n (chars s)) (ltruncate s n)
unfolding ltruncate
ltruncate-IsCut s n w = elim (Bool-cases (ltb s.length n)) [
  | inl over ↦
      let none_left : drop n (chars s) ≡ drop s.length (chars s) =
        drop_all n (chars s) (ground (arith, length-chars s w))
        ∙ sym (drop_all s.length (chars s) (omega (arith, length-chars s w))) in
      rw (over, none_left, ltruncate) (back-IsCut s s.length w (omega arith))
  | inr under ↦ rw (under, ltruncate) (back-IsCut s n w (ground arith))
]

-- `skit_slice_rtruncate` of a slice within its block yields a slice of the same block, within the
-- given one, with all but its last `n` characters, and none if it has fewer than `n`.
pub rtruncate-IsCut :
    (s : Slice) (n : ℕ)
    → IsWithin s
    → IsCut s (take (length (chars s) - n) (chars s)) (rtruncate s n)
unfolding rtruncate
rtruncate-IsCut s n w =
    let len = length-chars s w in
    elim (Bool-cases (ltb s.length n)) [
      | inl over ↦
          let e : length (chars s) - n ≡ 0 = ground (arith, len) in
          rw (over, e, rtruncate) (front-IsCut s 0 w (omega arith))
      | inr under ↦ rw (under, len, rtruncate) (front-IsCut s (s.length - n) w (omega arith))
    ]
