-- ===== src/Trie/Shared.antt =====
-- The characters that a node and a key have in common, and the key buffer that they are copied to:
-- lemmas on the loops of `skit_trie_next_node` in survival_kit/trie.c.
use c_survival_kit.Common.{
  ℕ, zero, suc, ◌+◌, ◌≤◌, ◌<◌, ◌≡◌, refl, ◌∙◌, true, none, some, List, [], ◌∷◌, leb, ◌==◌,
  if◌then◌else◌, arith, inl, inr, get_or, set, take, drop, length, drop-eq-cons, drop_all, take-suc,
  take-set, get_or-set_self, length-set, Bool-cases,
}
use c_survival_kit.Ascii.{is_zero-ccmp}
use c_survival_kit.Trie.Contents.{strip_prefix, position}
use c_survival_kit.Trie.Find.{match_chars, index_of, accumulate_key}

-- The length of the longest common prefix.
unfoldable pub shared : List ℕ → List ℕ → ℕ
shared [] rest = 0
shared (c ∷ cs) [] = 0
shared (c ∷ cs) (k ∷ rest) = let n = shared cs rest in if k == c then suc n else 0

pub shared-le : (cs rest : List ℕ) → (shared cs rest ≤ length cs) × (shared cs rest ≤ length rest)
unfolding shared
shared-le [] rest = omega arith
shared-le (c ∷ cs) [] = omega arith
shared-le (c ∷ cs) (k ∷ rest) = ground (arith, shared-le cs rest)

pub match_chars-shared :
    (key : List ℕ) (pos : ℕ) (cs : List ℕ) (i : ℕ)
    → match_chars true key pos cs i
      ≡ (leb (length cs) (shared cs (drop pos key)), i + shared cs (drop pos key))
unfolding match_chars shared
match_chars-shared key pos [] i = ground arith
match_chars-shared key pos (c ∷ cs) i = elim (Bool-cases (leb (length key) pos)) [
  | inl out ↦ ground (arith, drop_all pos key)
  | inr within ↦ ground (
    arith,
    drop-eq-cons pos key 0,
    is_zero-ccmp (get_or key pos 0) c,
    match_chars-shared key (suc pos) cs (suc i),
  )
]

pub strip_prefix-shared :
    (cs rest : List ℕ)
    → shared cs rest ≡ length cs
    → strip_prefix cs rest ≡ some (drop (length cs) rest)
unfolding strip_prefix shared
strip_prefix-shared [] rest e = refl
strip_prefix-shared (c ∷ cs) [] e = absurd (omega arith)
strip_prefix-shared (c ∷ cs) (k ∷ rest) e = ground (arith, strip_prefix-shared cs rest)

pub strip_prefix-none :
    (cs rest : List ℕ) → shared cs rest < length cs → strip_prefix cs rest ≡ none
unfolding strip_prefix shared
strip_prefix-none [] rest h = absurd (omega arith)
strip_prefix-none (c ∷ cs) [] h = refl
strip_prefix-none (c ∷ cs) (k ∷ rest) h = ground (arith, strip_prefix-none cs rest)

pub take-shared : (cs rest : List ℕ) → take (shared cs rest) cs ≡ take (shared cs rest) rest
unfolding shared
take-shared [] rest = refl
take-shared (c ∷ cs) [] = refl
take-shared (c ∷ cs) (k ∷ rest) = ground (arith, take-shared cs rest)

pub index_of-position : (c : ℕ) (cs : List ℕ) → index_of c cs ≡ position c cs
unfolding index_of position
index_of-position c [] = refl
index_of-position c (d ∷ cs) = ground (arith, is_zero-ccmp d c, index_of-position c cs)

pub get_or-position : (c : ℕ) (cs : List ℕ) {i : ℕ} → position c cs ≡ some i → get_or cs i 0 ≡ c
unfolding position
get_or-position c [] e = cc
get_or-position c (d ∷ cs) {i = zero} e = ground arith
get_or-position c (d ∷ cs) {i = suc i} e = ground (arith, get_or-position c cs {i = i})

pub position-lt : (c : ℕ) (cs : List ℕ) (i : ℕ) → position c cs ≡ some i → i < length cs
unfolding position
position-lt c [] i e = cc
position-lt c (d ∷ cs) zero e = omega arith
position-lt c (d ∷ cs) (suc i) e = ground (arith, position-lt c cs i)

pub length-accumulate_key :
    (buf : List ℕ) (pos : ℕ) (frag : List ℕ) → length (accumulate_key buf pos frag) ≡ length buf
unfolding accumulate_key
length-accumulate_key buf pos [] = refl
length-accumulate_key buf pos (c ∷ cs) =
    length-accumulate_key (set buf pos c) (suc pos) cs ∙ length-set buf pos c

-- The buffer spells the key up to a position; a fragment of the key is added to it.
pub accumulate_key-take :
    (key buf : List ℕ) (pos : ℕ) (frag : List ℕ) (end : ℕ)
    → end ≡ pos + length frag
    → end ≤ length buf
    → end ≤ length key
    → take pos buf ≡ take pos key
    → frag ≡ take (length frag) (drop pos key)
    → take end (accumulate_key buf pos frag) ≡ take end key
unfolding accumulate_key
accumulate_key-take key buf pos [] end e hb hk same f =
    let e' : end ≡ pos = omega arith in rw e' same
accumulate_key-take key buf pos (c ∷ cs) end e hb hk same f =
    accumulate_key-take key (set buf pos c) (suc pos) cs end (omega arith)
      (omega (arith, length-set buf pos c)) hk
      (ground (
        arith,
        drop-eq-cons pos key 0,
        take-suc pos (set buf pos c) 0,
        take-suc pos key 0,
        take-set pos buf c,
        get_or-set_self buf pos c 0,
        length-set buf pos c,
      ))
      (ground (arith, drop-eq-cons pos key 0))
