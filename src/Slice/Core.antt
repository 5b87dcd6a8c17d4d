-- ===== src/Slice/Core.antt =====
-- `skit_slice` of survival_kit/string.h and the functions of survival_kit/string.c that read slices
-- and make them from slices. A slice here is not NULL. Its `block` is what the handle leads to: the
-- characters of the loaf or of the C string from its start. `offset` and `length` are fields of 28
-- bits in `meta`.
use c_survival_kit.Common.{
  ℕ, zero, suc, ◌+◌, ◌-◌, ◌%◌, ◌^◌, Bool, true, false, Option, none, some, List, [], ◌∷◌, ltb, ◌==◌,
  if◌then◌else◌, take, drop, length, get_or,
}
use c_survival_kit.Common.Int.{ℤ, pos, negsuc, ◌+ℤ◌, ◌-ℤ◌, ltb_ℤ}
use c_survival_kit.Ascii.{is_whitespace}

pub record Slice : Type 0 where
  pub block : List ℕ
  pub offset : ℕ
  pub length : ℕ

-- The characters of a slice, from `skit_slice_ptr` on.
abbrev pub chars : Slice → List ℕ
chars s = take s.length (drop s.offset s.block)

-- An integer that is cast to an unsigned one and masked to 28 bits.
unfoldable pub mask : ℤ → ℕ
mask (pos n) = n % 2 ^ 28
mask (negsuc n) = 2 ^ 28 - 1 - n % 2 ^ 28

-- SKIT_EOT, which is INT_MAX.
abbrev pub end_of_text : ℤ
end_of_text = pos 0x7fffffff

abbrev pub is_end_of_text : ℤ → Bool
is_end_of_text (pos n) = n == 0x7fffffff
is_end_of_text (negsuc n) = false

-- An index from the end of the slice, if it is negative.
abbrev pub from_start : ℕ → ℤ → ℤ
from_start length (pos n) = pos n
from_start length (negsuc n) = pos length +ℤ negsuc n

-- `skit_slice_of`; `none` is the assertion that fails.
unfoldable pub slice_of : Slice → ℤ → ℤ → Option Slice
unfolding mask ◌+ℤ◌ ◌-ℤ◌
slice_of s index1 index2 =
    let a = from_start s.length index1 in
    let b = from_start s.length (if is_end_of_text index2 then pos s.length else index2) in
    if ltb_ℤ (b -ℤ a) (pos 0)
    then none
    else some
        (record { block = s.block; offset = mask (a +ℤ pos s.offset); length = mask (b -ℤ a) })

-- Whether a character stands in a set.
unfoldable pub is_in : List ℕ → ℕ → Bool
is_in [] c = false
is_in (m ∷ match_set) c = let rest = is_in match_set c in if c == m then true else rest

-- A `char` that holds the byte `c` and is compared with an unsigned byte: it is negative from 128 on,
-- and then equal to none.
unfoldable pub is_in_signed : List ℕ → ℕ → Bool
unfolding is_in
is_in_signed match_set c = if ltb c 128 then is_in match_set c else false

-- The number of characters at the front that pass the test.
unfoldable pub left_bound : (ℕ → Bool) → List ℕ → ℕ
left_bound p [] = 0
left_bound p (c ∷ cs) = let rest = left_bound p cs in if p c then suc rest else 0

-- The bound that is reached from `rbound` downwards while the character before it passes the test.
unfoldable pub right_bound : (ℕ → Bool) → List ℕ → ℕ → ℕ
right_bound p cs zero = 0
right_bound p cs (suc r) =
    let rest = right_bound p cs r in if p (get_or cs r 0) then rest else suc r

unfoldable pub ltrimx : Slice → List ℕ → Option Slice
unfolding left_bound is_in
ltrimx s char_class = slice_of s (pos (left_bound (is_in char_class) (chars s))) (pos s.length)

unfoldable pub rtrimx : Slice → List ℕ → Option Slice
unfolding right_bound is_in_signed
rtrimx s char_class =
    slice_of s (pos 0) (pos (right_bound (is_in_signed char_class) (chars s) s.length))

unfoldable pub trimx : Slice → List ℕ → Option Slice
unfolding ltrimx rtrimx
trimx s char_class = elim (rtrimx s char_class) [ none ↦ none | some r ↦ ltrimx r char_class ]

unfoldable pub ltrim : Slice → Option Slice
unfolding left_bound
ltrim s = slice_of s (pos (left_bound is_whitespace (chars s))) (pos s.length)

unfoldable pub rtrim : Slice → Option Slice
unfolding right_bound
rtrim s = slice_of s (pos 0) (pos (right_bound is_whitespace (chars s) s.length))

unfoldable pub trim : Slice → Option Slice
unfolding ltrim rtrim
trim s = elim (rtrim s) [ none ↦ none | some r ↦ ltrim r ]

unfoldable pub ltruncate : Slice → ℕ → Option Slice
ltruncate s nchars =
    if ltb s.length nchars
    then slice_of s (pos s.length) (pos s.length)
    else slice_of s (pos nchars) (pos s.length)

unfoldable pub rtruncate : Slice → ℕ → Option Slice
rtruncate s nchars =
    if ltb s.length nchars
    then slice_of s (pos 0) (pos 0)
    else slice_of s (pos 0) (pos (s.length - nchars))

-- The loop of `skit_slice_match`: whether the needle's characters stand at the front.
unfoldable pub match_front : List ℕ → List ℕ → Bool
match_front [] hay = true
match_front (n ∷ needle) [] = false
match_front (n ∷ needle) (h ∷ hay) =
    let rest = match_front needle hay in if h == n then rest else false

-- `skit_slice_match` at a position that is not negative, as its assertion asks.
unfoldable pub match : Slice → Slice → ℕ → Bool
unfolding match_front
match haystack needle at =
    if ltb haystack.length (at + needle.length)
    then false
    else match_front (chars needle) (drop at (chars haystack))

-- The loop of `skit_slice_find`, with `left` positions to go.
unfoldable pub find_from : Slice → Slice → (at left : ℕ) → Option ℕ
find_from haystack needle at zero = none
find_from haystack needle at (suc left) =
    let rest = find_from haystack needle (suc at) left in
    if match haystack needle at then some at else rest

-- `skit_slice_find`; `none` is the result 0 with the position -1.
unfoldable pub find : Slice → Slice → Option ℕ
find haystack needle = find_from haystack needle 0 haystack.length

-- `skit_slice_partition` with both outputs asked for.
unfoldable pub partition : Slice → Slice → Bool × (Option Slice × Option Slice)
partition text delimiter = elim (find text delimiter) [
  | none ↦ (
    false,
    (slice_of text (pos 0) (pos text.length), slice_of text (pos text.length) (pos text.length)),
  )
  | some head_end ↦ (
    true,
    (
      slice_of text (pos 0) (pos head_end),
      slice_of text (pos (head_end + delimiter.length)) (pos text.length),
    ),
  )
]

-- `skit_slice_take_head`: whether there was text, the head, and what the text becomes.
unfoldable pub take_head : Slice → Slice → Bool × (Option Slice × Option Slice)
take_head text delimiter = (ltb 0 text.length, (partition text delimiter).1)
