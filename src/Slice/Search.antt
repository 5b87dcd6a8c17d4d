-- ===== src/Slice/Search.antt =====
-- `skit_slice_match` and `skit_slice_find` of survival_kit/string.c.
use c_survival_kit.Common.{
  ℕ, zero, suc, ◌+◌, ◌≤◌, ◌<◌, ◌≡◌, refl, sym, ap, ◌∙◌, inl, inr, true, false, Option, none, some,
  List, [], ◌∷◌, ◌++◌, ltb, ◌==◌, arith, take, drop, length, length-append, length-take,
  take-append-drop, Bool-cases, Option-cases,
}
use mathlib.Core.Path.{subst}
use c_survival_kit.Slice.Core.{Slice, chars, match_front, match, find_from, find}
use c_survival_kit.Slice.Bounds.{IsWithin, length-chars}

-- The needle stands in the text behind `at` characters.
pub record Occurs (needle hay : List ℕ) (at : ℕ) : Type 0 where
  pub before : List ℕ
  pub after : List ℕ
  pub place : length before ≡ at
  pub spells : hay ≡ before ++ (needle ++ after)

match_front_sound :
    (needle hay : List ℕ) → match_front needle hay ≡ true → hay ≡ needle ++ drop (length needle) hay
unfolding match_front
match_front_sound [] hay e = refl
match_front_sound (n ∷ needle) [] e = cc
match_front_sound (n ∷ needle) (h ∷ hay) e = ground (arith, match_front_sound needle hay)

match_front_complete : (needle after : List ℕ) → match_front needle (needle ++ after) ≡ true
unfolding match_front
match_front_complete [] after = refl
match_front_complete (n ∷ needle) after = ground (arith, match_front_complete needle after)

pub drop-append : (xs ys : List ℕ) → drop (length xs) (xs ++ ys) ≡ ys
drop-append [] ys = refl
drop-append (x ∷ xs) ys = drop-append xs ys

module _ (haystack needle : Slice) (wh : IsWithin haystack) (wn : IsWithin needle) where
  match_sound :
      (at : ℕ) → match haystack needle at ≡ true → Occurs (chars needle) (chars haystack) at
  unfolding match
  match_sound at e = elim (Bool-cases (ltb haystack.length (at + needle.length))) [
    | inl over ↦ absurd (ground (arith, over))
    | inr fits ↦ record {
      before = take at (chars haystack);
      after = drop (length (chars needle)) (drop at (chars haystack));
      place = ground (arith, length-take at (chars haystack), length-chars haystack wh);
      spells =
          sym (take-append-drop at (chars haystack))
          ∙ ap (λ r. take at (chars haystack) ++ r)
              (match_front_sound (chars needle) (drop at (chars haystack))
                (ground (arith, fits, e)));
    }
  ]

  match_complete :
      (at : ℕ) → Occurs (chars needle) (chars haystack) at → match haystack needle at ≡ true
  unfolding match
  match_complete at o =
      let total : length (chars haystack)
          ≡ length o.before + (length (chars needle) + length o.after) =
        ap length o.spells
        ∙ omega (
          arith,
          length-append o.before (chars needle ++ o.after),
          length-append (chars needle) o.after,
        ) in
      let behind : drop at (chars haystack) ≡ chars needle ++ o.after =
        subst (λ n. drop n (chars haystack) ≡ chars needle ++ o.after) o.place
          (ap (drop (length o.before)) o.spells ∙ drop-append o.before (chars needle ++ o.after)) in
      ground (
        arith,
        total,
        behind,
        length-chars haystack wh,
        length-chars needle wn,
        o.place,
        match_front_complete (chars needle) o.after,
      )

  no_earlier :
      (at i : ℕ)
      → match haystack needle at ≡ false
      → ((j : ℕ) → suc at ≤ j → j < i → match haystack needle j ≡ false)
      → (j : ℕ) → at ≤ j
      → j < i
      → match haystack needle j ≡ false
  no_earlier at i miss rest j low high = elim (Bool-cases (j == at)) [
    | inl same ↦ subst (λ k. match haystack needle k ≡ false) {x = at} (ground (arith, same)) miss
    | inr other ↦ rest j (ground (arith, other)) high
  ]

  find_from-some :
      (at left i : ℕ)
      → find_from haystack needle at left ≡ some i
      → (match haystack needle i ≡ true)
        × ((at ≤ i)
            × ((i < at + left) × ((j : ℕ) → at ≤ j → j < i → match haystack needle j ≡ false)))
  unfolding find_from
  find_from-some at zero i e = cc
  find_from-some at (suc left) i e = elim (Bool-cases (match haystack needle at)) [
    | inl hit ↦
        let here : at ≡ i = ground (arith, e, hit) in
        (
          subst (λ k. match haystack needle k ≡ true) here hit,
          (omega arith, (omega arith, λ j low high. absurd (omega arith))),
        )
    | inr miss ↦
        let later = find_from-some (suc at) left i (ground (arith, e, miss)) in
        (
          later.0,
          (
            omega (arith, later.1.0),
            (omega (arith, later.1.1.0), λ j low high. no_earlier at i miss later.1.1.1 j low high),
          ),
        )
  ]

  find_from-none :
      (at left : ℕ)
      → find_from haystack needle at left ≡ none
      → (j : ℕ) → at ≤ j
      → j < at + left
      → match haystack needle j ≡ false
  unfolding find_from
  find_from-none at zero e j low high = absurd (omega arith)
  find_from-none at (suc left) e j low high = elim (Bool-cases (match haystack needle at)) [
    | inl hit ↦ absurd (ground (arith, e, hit))
    | inr miss ↦
        no_earlier at (at + suc left) miss
          (λ k above below.
            find_from-none (suc at) left (ground (arith, e, miss)) k above (omega arith))
          j low high
  ]

-- The first place at which the needle stands, if it stands anywhere before the end of the text.
pub data IsFirst (needle hay : List ℕ) : Option ℕ → Type 0 where
  first :
      (i : ℕ)
      → i < length hay
      → Occurs needle hay i
      → ((j : ℕ) → j < i → Occurs needle hay j → ⊥)
      → IsFirst needle hay (some i)
  nowhere : ((j : ℕ) → j < length hay → Occurs needle hay j → ⊥) → IsFirst needle hay none

-- On two slices within their blocks `skit_slice_find` yields the first place before the end of
-- the text at which the needle stands, and fails only if there is none.
pub find-IsFirst :
    (haystack needle : Slice)
    → IsWithin haystack
    → IsWithin needle
    → IsFirst (chars needle) (chars haystack) (find haystack needle)
unfolding find
find-IsFirst haystack needle wh wn =
    elim (Option-cases (find_from haystack needle 0 haystack.length)) [
      | inl absent ↦ rw absent (
          nowhere (λ j low o.
            let hit = match_complete haystack needle wh wn j o in
            let miss =
              find_from-none haystack needle wh wn 0 haystack.length absent j (omega arith)
                (omega (arith, length-chars haystack wh)) in
            ground (arith, hit, miss)))
      | inr (i, found) ↦
          let r = find_from-some haystack needle wh wn 0 haystack.length i found in
          rw found (
            first i (omega (arith, r.1.1.0, length-chars haystack wh))
              (match_sound haystack needle wh wn i r.0)
              (λ j low o.
                let hit = match_complete haystack needle wh wn j o in
                let miss = r.1.1.1 j (omega arith) low in ground (arith, hit, miss)))
    ]
