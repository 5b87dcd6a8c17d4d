-- ===== src/Slice/Case.antt =====
-- `skit_slice_match_nl`, and the functions of survival_kit/string.c that change the case of a slice's
-- characters in place.
use c_survival_kit.Common.{
  ℕ, zero, suc, ◌+◌, ◌≤◌, ◌<◌, ◌≡◌, ◌&&◌, ◌||◌, Option, none, some, List, [], ◌∷◌, leb, ltb, ◌==◌,
  if◌then◌else◌, arith, get_or, set, take, drop, drop_add, length, length-set, length-drop, refl,
  sym, ap, ap₂, ◌∙◌, ◌-◌,
}
use c_survival_kit.Ascii.{to_lower, to_upper}
use c_survival_kit.Slice.Core.{Slice, chars}
use c_survival_kit.Slice.Bounds.{IsWithin, drop-take}

-- What `skit_slice_ptr` leads to at an index, in the slice or in the block behind it.
abbrev pub char_at : Slice → ℕ → ℕ
char_at s i = get_or s.block (s.offset + i) 0

-- `skit_slice_match_nl` at a position that is not negative; `none` is the assertion that fails.
unfoldable pub match_nl : Slice → ℕ → Option ℕ
match_nl text at =
    if leb text.length at
    then none
    else if char_at text at == b'\r'
    then (if ltb (at + 1) text.length && char_at text (at + 1) == b'\n' then some 2 else some 1)
    else if char_at text at == b'\n'
    then some 1
    else some 0

-- The loop over the `n` characters from `at` on.
unfoldable pub change_case : (ℕ → ℕ) → (n at : ℕ) → List ℕ → List ℕ
change_case f zero at block = block
change_case f (suc n) at block = change_case f n (suc at) (set block at (f (get_or block at 0)))

unfoldable pub ascii_to_lower : Slice → Slice
ascii_to_lower s = record {
  block = change_case to_lower s.length s.offset s.block;
  offset = s.offset;
  length = s.length;
}

unfoldable pub ascii_to_upper : Slice → Slice
ascii_to_upper s = record {
  block = change_case to_upper s.length s.offset s.block;
  offset = s.offset;
  length = s.length;
}

get_or-set_at :
    (xs : List ℕ) (i j v : ℕ)
    → i < length xs
    → get_or (set xs i v) j 0 ≡ (if j == i then v else get_or xs j 0)
get_or-set_at [] i j v h = absurd (omega arith)
get_or-set_at (x ∷ xs) zero zero v h = ground arith
get_or-set_at (x ∷ xs) zero (suc j) v h = ground arith
get_or-set_at (x ∷ xs) (suc i) zero v h = ground arith
get_or-set_at (x ∷ xs) (suc i) (suc j) v h = ground (arith, get_or-set_at xs i j v)

get_or-change_case :
    (f : ℕ → ℕ) (n at : ℕ) (block : List ℕ) (j : ℕ)
    → at + n ≤ length block
    → get_or (change_case f n at block) j 0
      ≡ (if leb at j && ltb j (at + n) then f (get_or block j 0) else get_or block j 0)
unfolding change_case
get_or-change_case f zero at block j h = ground arith
get_or-change_case f (suc n) at block j h = ground (
  arith,
  get_or-change_case f n (suc at) (set block at (f (get_or block at 0))) j,
  length-set block at (f (get_or block at 0)),
  get_or-set_at block at j (f (get_or block at 0)),
)

-- On a slice within its block `skit_slice_ascii_to_lower` and `skit_slice_ascii_to_upper` change
-- the characters of the slice, each to its lower or upper case, and no other character of the
-- block.
pub ascii_to_lower_lem :
    (s : Slice) (j : ℕ)
    → IsWithin s
    → (get_or (ascii_to_lower s).block j 0 ≡ (
        if leb s.offset j && ltb j (s.offset + s.length)
        then to_lower (get_or s.block j 0)
        else get_or s.block j 0))
      × (get_or (ascii_to_upper s).block j 0 ≡ (
          if leb s.offset j && ltb j (s.offset + s.length)
          then to_upper (get_or s.block j 0)
          else get_or s.block j 0))
unfolding ascii_to_lower ascii_to_upper
ascii_to_lower_lem s j w = (
  get_or-change_case to_lower s.length s.offset s.block j w.fits,
  get_or-change_case to_upper s.length s.offset s.block j w.fits,
)

-- The length of the newline sequence with which a text begins.
unfoldable pub newline_length : List ℕ → ℕ
newline_length [] = 0
newline_length (c ∷ []) = if c == b'\r' || c == b'\n' then 1 else 0
newline_length (c ∷ d ∷ cs) =
    if c == b'\r' && d == b'\n' then 2 else if c == b'\r' || c == b'\n' then 1 else 0

get_or-drop : (n i : ℕ) (xs : List ℕ) → get_or (drop n xs) i 0 ≡ get_or xs (n + i) 0
get_or-drop zero i xs = ap (λ k. get_or xs k 0) (omega arith)
get_or-drop (suc n) i [] = refl
get_or-drop (suc n) i (x ∷ xs) =
    get_or-drop n i xs ∙ ap (λ k. get_or (x ∷ xs) k 0) {x = suc (n + i)} (omega arith)

-- With the `suc m` characters of the text from the position on at the front of `xs`.
match_nl_front :
    (text : Slice) (at m : ℕ) (xs : List ℕ)
    → at + suc m ≡ text.length
    → suc m ≤ length xs
    → char_at text at ≡ get_or xs 0 0
    → char_at text (at + 1) ≡ get_or xs 1 0
    → match_nl text at ≡ some (newline_length (take (suc m) xs))
unfolding match_nl newline_length
match_nl_front text at m [] e h first second = absurd (omega arith)
match_nl_front text at zero (c ∷ xs) e h first second = ground arith
match_nl_front text at (suc m) (c ∷ []) e h first second = absurd (omega arith)
match_nl_front text at (suc m) (c ∷ d ∷ xs) e h first second = ground arith

-- At a position within a text that lies within its block, `skit_slice_match_nl` passes its
-- assertions and returns the length of the newline sequence with which the rest of the text
-- begins: 2 for a carriage return and a line feed, 1 for one of them alone, and 0 for neither. A
-- line feed behind the end of the text does not count.
pub match_nl-newline_length :
    (text : Slice) (at : ℕ)
    → IsWithin text
    → at < text.length
    → match_nl text at ≡ some (newline_length (drop at (chars text)))
match_nl-newline_length text at w h =
    let xs = drop (text.offset + at) text.block in
    let m = text.length - at - 1 in
    let left : text.length - at ≡ suc m = omega arith in
    let behind : drop at (chars text) ≡ take (suc m) xs =
      drop-take at text.length (drop text.offset text.block)
      ∙ ap₂ (λ n ys. take n ys) left
          (sym (drop_add text.offset at (text.offset + at) text.block refl)) in
    match_nl_front text at m xs (omega arith)
      (omega (arith, w.fits, length-drop (text.offset + at) text.block))
      (sym (
        get_or-drop (text.offset + at) 0 text.block
        ∙ ap (λ k. get_or text.block k 0) {y = text.offset + at} (omega arith)))
      (sym (
        get_or-drop (text.offset + at) 1 text.block
        ∙ ap (λ k. get_or text.block k 0) {y = text.offset + (at + 1)} (omega arith)))
    ∙ ap (λ ys. some (newline_length ys)) (sym behind)
