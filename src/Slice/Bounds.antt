-- ===== src/Slice/Bounds.antt =====
-- `skit_slice_of` of survival_kit/string.c at indices within the slice.
use mathlib.Core.Path.{subst}
use c_survival_kit.Common.{
  ℕ, zero, suc, ◌+◌, ◌-◌, ◌^◌, ◌≤◌, ◌<◌, ◌≡◌, refl, sym, ap, ◌∙◌, false, Option, some, List, [],
  ◌∷◌, arith, take, drop, length, length-take, length-drop, drop_add, take_all,
}
use c_survival_kit.Common.Int.{pos, ◌+ℤ◌, ◌-ℤ◌}
use c_survival_kit.Slice.Core.{Slice, chars, mask, slice_of, is_end_of_text}

-- The slice lies within its block, which is shorter than 28 bits can say.
pub record IsWithin (s : Slice) : Type 0 where
  pub fits : s.offset + s.length ≤ length s.block
  pub small : length s.block < 2 ^ 28

pub length-chars : (s : Slice) → IsWithin s → length (chars s) ≡ s.length
length-chars s w =
    omega
      (arith, w.fits, length-take s.length (drop s.offset s.block), length-drop s.offset s.block)

add_pos : (a b : ℕ) → pos a +ℤ pos b ≡ pos (a + b)
unfolding ◌+ℤ◌
add_pos a b = ground arith

sub_pos : (a b : ℕ) → a ≤ b → pos b -ℤ pos a ≡ pos (b - a)
unfolding ◌-ℤ◌
sub_pos a b h = ground arith

pub mask_small : (n : ℕ) → n < 2 ^ 28 → mask (pos n) ≡ n
unfolding mask
mask_small n h = ground arith

pub sub_slice : Slice → ℕ → ℕ → Slice
sub_slice s a b = record { block = s.block; offset = a + s.offset; length = b - a }

not_end : (b : ℕ) → b < 2 ^ 28 → is_end_of_text (pos b) ≡ false
not_end b h = ground arith

slice_of-eq :
    (s : Slice) (a b : ℕ)
    → IsWithin s
    → a ≤ b
    → b ≤ s.length
    → slice_of s (pos a) (pos b) ≡ some (sub_slice s a b)
unfolding slice_of sub_slice
slice_of-eq s a b w h g =
    rw
      (
        slice_of,
        not_end b (omega (arith, w.fits, w.small)),
        sub_pos a b h,
        add_pos a s.offset,
        mask_small (a + s.offset) (omega (arith, w.fits, w.small)),
        mask_small (b - a) (omega (arith, w.fits, w.small)),
      )
      (ground arith)

pub take-take : (m n : ℕ) (xs : List ℕ) → m ≤ n → take m (take n xs) ≡ take m xs
take-take zero n xs h = refl
take-take (suc m) zero xs h = absurd (omega arith)
take-take (suc m) (suc n) [] h = refl
take-take (suc m) (suc n) (x ∷ xs) h = ap (λ ys. x ∷ ys) (take-take m n xs (omega arith))

take_nil : (n : ℕ) → take {A = ℕ} n [] ≡ []
take_nil zero = refl
take_nil (suc n) = refl

pub drop-take : (a n : ℕ) (xs : List ℕ) → drop a (take n xs) ≡ take (n - a) (drop a xs)
drop-take zero n xs = ap (λ k. take k xs) (omega arith)
drop-take (suc a) zero xs = ap (λ k. take k (drop (suc a) xs)) {x = 0} (omega arith)
drop-take (suc a) (suc n) [] = sym (take_nil (suc n - suc a))
drop-take (suc a) (suc n) (x ∷ xs) = drop-take a n xs ∙ ap (λ k. take k (drop a xs)) (omega arith)

-- The call passes its assertion and yields a slice of the same block that lies within `s` and has
-- these characters.
pub record IsCut (s : Slice) (cs : List ℕ) (r : Option Slice) : Type 0 where
  pub piece : Slice
  pub result : r ≡ some piece
  pub same_block : piece.block ≡ s.block
  pub lower : s.offset ≤ piece.offset
  pub upper : piece.offset + piece.length ≤ s.offset + s.length
  pub within : IsWithin piece
  pub cut : chars piece ≡ cs

-- A slice of a slice of `s` is a slice of `s`.
pub IsCut-trans :
    {s : Slice} {cs ds : List ℕ} {r r' : Option Slice} (c : IsCut s cs r)
    → IsCut c.piece ds r'
    → IsCut s ds r'
IsCut-trans c d = record {
  piece = d.piece;
  result = d.result;
  same_block = d.same_block ∙ c.same_block;
  lower = omega (arith, c.lower, d.lower);
  upper = omega (arith, c.upper, d.upper);
  within = d.within;
  cut = d.cut;
}

-- `skit_slice_of` of a slice within its block of fewer than 2^28 characters, at indices `a` and
-- `b` with `a` not above `b` and `b` not above the length, passes its assertion and yields a
-- slice of the same block, within the given one, with its characters from `a` to `b`.
pub slice_of-IsCut :
    (s : Slice) (a b : ℕ)
    → IsWithin s
    → a ≤ b
    → b ≤ s.length
    → IsCut s (take (b - a) (drop a (chars s))) (slice_of s (pos a) (pos b))
unfolding sub_slice
slice_of-IsCut s a b w h g = record {
  piece = sub_slice s a b;
  result = slice_of-eq s a b w h g;
  same_block = refl;
  lower = omega arith;
  upper = omega arith;
  within = record { fits = omega (arith, w.fits); small = w.small };
  cut =
      ap (take (b - a)) (drop_add s.offset a (a + s.offset) s.block (omega arith))
      ∙ sym (take-take (b - a) (s.length - a) (drop a (drop s.offset s.block)) (omega arith))
      ∙ ap (take (b - a)) (sym (drop-take a s.length (drop s.offset s.block)));
}

pub front-IsCut :
    (s : Slice) (n : ℕ)
    → IsWithin s
    → n ≤ s.length
    → IsCut s (take n (chars s)) (slice_of s (pos 0) (pos n))
front-IsCut s n w h =
    subst (λ k. IsCut s (take k (chars s)) (slice_of s (pos 0) (pos n))) {x = n - 0} (omega arith)
      (slice_of-IsCut s 0 n w (omega arith) h)

pub back-IsCut :
    (s : Slice) (n : ℕ)
    → IsWithin s
    → n ≤ s.length
    → IsCut s (drop n (chars s)) (slice_of s (pos n) (pos s.length))
back-IsCut s n w h =
    let len = length-chars s w in
    subst (λ cs. IsCut s cs (slice_of s (pos n) (pos s.length)))
      (take_all (s.length - n) (drop n (chars s)) (omega (arith, length-drop n (chars s))))
      (slice_of-IsCut s n s.length w h (omega arith))
