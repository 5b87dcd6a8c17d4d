-- ===== src/Slice/Loaf.antt =====
-- The characters of a `skit_loaf` of survival_kit/string.h: resizing and writing.
use c_survival_kit.Common.{
  ℕ, suc, ◌+◌, ◌-◌, ◌≤◌, ◌≡◌, refl, ap, ◌∙◌, List, [], ◌∷◌, ◌++◌, arith, set, take, length,
  length-append, length-take, length-set, take-suc, take-set, get_or-set_self, append_assoc,
  append-nil,
}
use c_survival_kit.Common.Int.{pos}
use c_survival_kit.Slice.Core.{Slice, mask}

-- The block of characters to which a loaf leads after `skit_loaf_resize`. The allocator leaves
-- `fresh` where a larger block has no characters yet. The loaf's own length is `resized`'s.
unfoldable pub loaf_resize : List ℕ → List ℕ → ℕ → List ℕ
loaf_resize fresh buf n = take n (buf ++ take (n - length buf) fresh)

-- The loaf after `skit_loaf_resize`, as the slice of its characters: its length field takes the low
-- 28 bits of the new length.
unfoldable pub resized : (fresh block : List ℕ) → ℕ → Slice
resized fresh block n = record {
  block = loaf_resize fresh block n;
  offset = 0;
  length = mask (pos n);
}

pub length-loaf_resize :
    (fresh buf : List ℕ) (n : ℕ) → n ≤ length fresh → length (loaf_resize fresh buf n) ≡ n
unfolding loaf_resize
length-loaf_resize fresh buf n h = ground (
  arith,
  length-take n (buf ++ take (n - length buf) fresh),
  length-append buf (take (n - length buf) fresh),
  length-take (n - length buf) fresh,
)

-- Characters written one after the other.
unfoldable pub write : List ℕ → ℕ → List ℕ → List ℕ
write buf at [] = buf
write buf at (c ∷ cs) = write (set buf at c) (suc at) cs

pub length-write : (buf : List ℕ) (at : ℕ) (cs : List ℕ) → length (write buf at cs) ≡ length buf
unfolding write
length-write buf at [] = refl
length-write buf at (c ∷ cs) = length-write (set buf at c) (suc at) cs ∙ length-set buf at c

-- What has been written follows what stood in front of it.
pub take-write :
    (buf : List ℕ) (at : ℕ) (cs : List ℕ) (end : ℕ)
    → end ≡ at + length cs
    → end ≤ length buf
    → take end (write buf at cs) ≡ take at buf ++ cs
unfolding write
take-write buf at [] end e h = let e' : end ≡ at = omega arith in rw (e', append-nil) refl
take-write buf at (c ∷ cs) end e h =
    take-write (set buf at c) (suc at) cs end (omega arith) (omega (arith, length-set buf at c))
    ∙ ap (λ xs. xs ++ cs)
        (take-suc at (set buf at c) 0 (omega (arith, length-set buf at c))
          ∙ rw (take-set at buf c, get_or-set_self buf at c 0 (omega arith)) refl)
    ∙ append_assoc (take at buf) (c ∷ []) cs
