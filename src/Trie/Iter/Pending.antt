-- ===== src/Trie/Iter/Pending.antt =====
-- What an iterator of survival_kit/trie.c has left to list, and when its frames are sound.
use c_survival_kit.Common.{
  ℕ, zero, suc, ◌+◌, ◌≤◌, ◌<◌, ◌^◌, ◌≡◌, refl, sym, ap, ◌∙◌, ◌⊎◌, Bool, true, ◌&&◌, Option, none,
  some, List, [], ◌∷◌, ◌++◌, ltb, ◌==◌, if◌then◌else◌, length, take, arith, append-nil,
  append_assoc, set, take-set, ap₂,
}
use c_survival_kit.Slice.Loaf.{write, take-write}
use c_survival_kit.Trie.Node.{Node, node, value}
use c_survival_kit.Trie.Find.{accumulate_key}
use c_survival_kit.Trie.Valid.{IsValid}
use c_survival_kit.Trie.Iter.{Frame, Iter}
use c_survival_kit.Trie.Iter.Entries.{
  Entries, add_prefix, own, entries_from, work_from, height_from,
}

-- Whether a node is narrow with more than one character, so that its only edge has them all.
abbrev pub is_linear : Node → Bool
is_linear (node v nl cl cs ns) = (nl == 1) && ltb 1 cl

-- A frame within a buffer of `room` characters.
pub record IsFrame (room : ℕ) (f : Frame) : Type 0 where
  pub is_valid : IsValid f.node
  pub char_within : f.current_char ≤ 256
  pub fits : f.pos + height_from f.node f.current_char ≤ room
  pub phase : is_linear f.node ≡ true → (f.current_char ≡ 0) ⊎ (f.current_char ≡ 256)

-- Frames whose positions decrease from `top` down.
abbrev pub AreFrames : ℕ → ℕ → List Frame → Type 0
AreFrames room top [] = Unit
AreFrames room top (f ∷ fs) = (f.pos ≤ top) × IsFrame room f × AreFrames room f.pos fs

-- What the frames have left to list, and the passes that they have left.
unfoldable pub left_over : List ℕ → List Frame → Entries
left_over buf [] = []
left_over buf (f ∷ fs) =
    add_prefix (take f.pos buf) (entries_from f.node f.current_char) ++ left_over buf fs

unfoldable pub passes : List Frame → ℕ
passes [] = 0
passes (f ∷ fs) = work_from f.node f.current_char + passes fs

-- The entry of the current node, if it has just been entered.
abbrev pub own_entry : ℕ → List ℕ → Option ℕ → Entries
own_entry at buf none = []
own_entry at buf (some v) = (take at buf, v) ∷ []

abbrev pub entry_of : Bool → List ℕ → List Frame → Entries
entry_of entering buf [] = []
entry_of entering buf (f ∷ fs) = if entering then own_entry f.pos buf (value f.node) else []

abbrev pub pending : Iter → Entries
pending it =
    entry_of (ltb it.prev_depth (length it.frames)) it.key_buffer it.frames
    ++ left_over it.key_buffer it.frames

pub record IsIter (it : Iter) : Type 0 where
  pub short : length it.key_buffer < 2 ^ 32
  pub frames_good : AreFrames (length it.key_buffer) (length it.key_buffer) it.frames

take-take : (p m : ℕ) (xs ys : List ℕ) → p ≤ m → take m xs ≡ take m ys → take p xs ≡ take p ys
take-take zero m xs ys h e = refl
take-take (suc p) zero xs ys h e = absurd (omega arith)
take-take (suc p) (suc m) [] [] h e = refl
take-take (suc p) (suc m) [] (y ∷ ys) h e = cc
take-take (suc p) (suc m) (x ∷ xs) [] h e = cc
take-take (suc p) (suc m) (x ∷ xs) (y ∷ ys) h e = ground (arith, take-take p m xs ys)

accumulate_key-write :
    (buf : List ℕ) (at : ℕ) (cs : List ℕ) → accumulate_key buf at cs ≡ write buf at cs
unfolding accumulate_key write
accumulate_key-write buf at [] = refl
accumulate_key-write buf at (c ∷ cs) = accumulate_key-write (set buf at c) (suc at) cs

pub take-accumulate_key :
    (buf : List ℕ) (p at : ℕ) (cs : List ℕ)
    → p ≤ at
    → take p (accumulate_key buf at cs) ≡ take p buf
unfolding accumulate_key
take-accumulate_key buf p at [] h = refl
take-accumulate_key buf p at (c ∷ cs) h =
    take-accumulate_key (set buf at c) p (suc at) cs (omega arith)
    ∙ take-take p at (set buf at c) buf h (take-set at buf c)

-- The key that a label extends.
pub label_added :
    (buf : List ℕ) (at : ℕ) (cs : List ℕ)
    → at + length cs ≤ length buf
    → take (at + length cs) (accumulate_key buf at cs) ≡ take at buf ++ cs
label_added buf at cs h = rw accumulate_key-write (take-write buf at cs (at + length cs) refl h)

pub left_over_same :
    (room top : ℕ) (a b : List ℕ) (fs : List Frame)
    → AreFrames room top fs
    → take top a ≡ take top b
    → left_over a fs ≡ left_over b fs
unfolding left_over
left_over_same room top a b [] good e = refl
left_over_same room top a b (f ∷ fs) (le, good, rest) e =
    let same = take-take f.pos top a b le e in rw (same, left_over_same room f.pos a b fs rest same)

pub add_prefix-append :
    (p : List ℕ) (xs ys : Entries) → add_prefix p (xs ++ ys) ≡ add_prefix p xs ++ add_prefix p ys
unfolding add_prefix
add_prefix-append p [] ys = refl
add_prefix-append p ((k, v) ∷ xs) ys = ap (λ zs. (p ++ k, v) ∷ zs) (add_prefix-append p xs ys)

pub add_prefix-add_prefix :
    (p q : List ℕ) (xs : Entries) → add_prefix p (add_prefix q xs) ≡ add_prefix (p ++ q) xs
unfolding add_prefix
add_prefix-add_prefix p q [] = refl
add_prefix-add_prefix p q ((k, v) ∷ xs) =
    ap₂ (λ w zs. (w, v) ∷ zs) (sym (append_assoc p q k)) (add_prefix-add_prefix p q xs)

pub add_prefix-own :
    (at : ℕ) (buf : List ℕ) (o : Option ℕ) (es : Entries)
    → add_prefix (take at buf) (own o es) ≡ own_entry at buf o ++ add_prefix (take at buf) es
unfolding add_prefix
add_prefix-own at buf none es = refl
add_prefix-own at buf (some v) es = rw append-nil
