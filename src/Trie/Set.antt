-- ===== src/Trie/Set.antt =====
-- `skit_trie_set` of survival_kit/trie.c, in a case-sensitive search.
pub mod Stored
pub mod Branches
use mathlib.Core.Path.{subst}
use c_survival_kit.Common.{
  ℕ, ◌≤◌, ◌<◌, ◌^◌, ◌+◌, ◌%◌, ◌-◌, ◌≡◌, ◌≢◌, refl, sym, ◌∙◌, ap, inl, inr, Bool, true, false, not,
  ◌||◌, Option, none, some, List, [], ◌∷◌, arith, length, take, take_all, drop, ltb, ◌==◌,
  if◌then◌else◌, length-append, length-take, ◌++◌, Bool-cases, Option-cases,
}
use c_survival_kit.Common.Int.{ℤ, pos, ltb_ℤ}
use c_survival_kit.Trie.Node.{Node, node}
use c_survival_kit.Trie.Find.{Coords, exact_match}
use c_survival_kit.Trie.Contents.{contents}
use c_survival_kit.Trie.Valid.{Bytes, IsValid}
use c_survival_kit.Trie.NextNode.{Buffered}
use c_survival_kit.Trie.Lookup.{
  Lookup, present, absent, inside, find-Lookup, inside_none, EndsInside,
}
use c_survival_kit.Trie.Api
use c_survival_kit.Trie.Api.{
  Trie, Outcome, returned, thrown, died, Error, exception, set_key, set_first, set_found, set_new,
  set_existing, make_room, has_flag, create, overwrite, icase, enforce_valid_flags, allowed,
  set_key_return_buf,
}
use c_survival_kit.Slice.Loaf.{loaf_resize, length-loaf_resize}
use c_survival_kit.Trie.WellFormed.{contents_of, IsValidRoot, IsWellFormed, is_inside, outside_of}
use c_survival_kit.Trie.Get.{enforce_valid_flags-passes}
use Stored.{IsStored, IsRefused, for-IsStored, searched-IsWellFormed}
use Branches.{
  set_first-IsStored, set_new-IsStored, set_existing-IsStored, set_found-hit, set_found-miss,
}

make_room-IsWellFormed :
    (fresh : List ℕ) (t : Trie) (key : List ℕ)
    → length key ≤ length fresh
    → IsWellFormed t
    → IsWellFormed (make_room fresh t key)
make_room-IsWellFormed fresh t key h w =
    elim (Bool-cases (ltb (length t.key_return_buf) (length key))) [
      | inl grows ↦ rw grows (record {
        root_valid = w.root_valid;
        keys_fit = λ k {v} e. ground (
          arith,
          w.keys_fit k {v = v} e,
          length-loaf_resize fresh t.key_return_buf (length key) h,
        );
      })
      | inr fits ↦ rw fits w
    ]

make_room-fields :
    (fresh : List ℕ) (t : Trie) (key : List ℕ)
    → length key ≤ length fresh
    → ((make_room fresh t key).root ≡ t.root)
      × (((make_room fresh t key).length ≡ t.length)
          × (length key ≤ length (make_room fresh t key).key_return_buf))
make_room-fields fresh t key h =
    ground (arith, length-loaf_resize fresh t.key_return_buf (length key) h)

-- The checks of the call pass.
set_key-eq :
    (fresh : List ℕ) (t : Trie) (key : List ℕ) (v flags : ℕ)
    → ltb_ℤ (pos 0) t.iterator_count ≡ false
    → has_flag flags (create + overwrite) ≡ true
    → set_key fresh t key v flags ≡ (elim t.root [
      | none ↦ set_first (make_room fresh t key) key v flags
      | some root ↦ set_found (make_room fresh t key) root key v flags
    ])
unfolding set_key
set_key-eq fresh t key v flags idle mode =
    rw (set_key, idle, enforce_valid_flags-passes flags allowed, mode) refl

spelled :
    {key buf out : List ℕ} {pos : ℕ}
    → Buffered key 0 pos buf out
    → pos ≡ length key
    → length key ≤ length buf
    → take (length key) out ≡ key
spelled {key} {out} b e long =
    subst (λ n. take n out ≡ key) e (b.spells long refl ∙ take_all _ key (omega arith))

-- A trie that has a root and room for the key.
module _ (t : Trie) (key : List ℕ) (v flags : ℕ) (w : IsWellFormed t)
    (room : length key ≤ length t.key_return_buf) (sensitive : has_flag flags icase ≡ false)
    (root : Node) (rooted : t.root ≡ some root) (root_valid : IsValid root) where
  found-new :
      Bytes key
      → contents root key ≡ none
      → (EndsInside root key → ⊥)
      → has_flag flags create ≡ true
      → Lookup root key t.key_return_buf
      → IsStored t key v ((t.length + 1) % 2 ^ 64) (set_found t root key v flags)
  found-new bytes e outside mode (present r exact same holds walk ends b) = cc
  found-new bytes e outside mode (inside i) = absurd (outside i)
  found-new bytes e outside mode
        (absent base {p} {into} {out} r miss other nothing walk stop within b) =
      rw (set_found-miss t root key v flags sensitive r miss other) (
        for-IsStored (set_key_return_buf t out) t key v _ refl (
          set_new-IsStored (set_key_return_buf t out) key v flags
            (searched-IsWellFormed t out b.same_length w) bytes (omega (arith, b.same_length)) root
            rooted root_valid p base into walk stop within (b.spells room refl) mode))

  found-existing :
      {old : ℕ}
      → Bytes key
      → contents root key ≡ some old
      → has_flag flags overwrite ≡ true
      → Lookup root key t.key_return_buf
      → IsStored t key v t.length (set_found t root key v flags)
  found-existing bytes e mode (absent base r miss other nothing walk stop within b) = cc
  found-existing bytes e mode (inside i) = let none_there = inside_none root key i in cc
  found-existing bytes e mode
        (present {p} {place} {pos} {into} {stopped} {out} r exact same holds walk ends b) =
      rw (set_found-hit t root key v flags sensitive r exact) (
        for-IsStored (set_key_return_buf t out) t key v _ refl (
          set_existing-IsStored (set_key_return_buf t out) key v flags
            (searched-IsWellFormed t out b.same_length w) bytes (omega (arith, b.same_length)) root
            rooted root_valid p place pos into stopped walk (spelled b ends room) mode))

  found-missing :
      contents root key ≡ none
      → (EndsInside root key → ⊥)
      → has_flag flags create ≡ false
      → Lookup root key t.key_return_buf
      → IsRefused t exception (set_found t root key v flags)
  unfolding set_new
  found-missing e outside mode (present r exact same holds walk ends b) = cc
  found-missing e outside mode (inside i) = absurd (outside i)
  found-missing e outside mode
        (absent base {p} {into} {out} r miss other nothing walk stop within b) =
      rw (set_found-miss t root key v flags sensitive r miss other, set_new, mode)
        (record {
          throws = refl;
          same_root = refl;
          same_length = refl;
          stays = searched-IsWellFormed t out b.same_length w;
        })

  found-taken :
      {old : ℕ}
      → contents root key ≡ some old
      → has_flag flags overwrite ≡ false
      → Lookup root key t.key_return_buf
      → IsRefused t exception (set_found t root key v flags)
  unfolding set_existing
  found-taken e mode (absent base r miss other nothing walk stop within b) = cc
  found-taken e mode (inside i) = let none_there = inside_none root key i in cc
  found-taken e mode
        (present {p} {place} {pos} {into} {stopped} {out} r exact same holds walk ends b) =
      rw (set_found-hit t root key v flags sensitive r exact, set_existing, mode)
        (record {
          throws = refl;
          same_root = refl;
          same_length = refl;
          stays = searched-IsWellFormed t out b.same_length w;
        })

-- A call that passes its checks, on a trie that no iterator walks.
module _ (fresh : List ℕ) (t : Trie) (key : List ℕ) (v flags : ℕ) (w : IsWellFormed t)
    (enough : length key ≤ length fresh) (short : length key < 2 ^ 32)
    (sensitive : has_flag flags icase ≡ false) (idle : ltb_ℤ (pos 0) t.iterator_count ≡ false)
    (mode : has_flag flags (create + overwrite) ≡ true) where
  u : Trie
  u = make_room fresh t key

  u_well : IsWellFormed u
  unfolding u
  u_well = make_room-IsWellFormed fresh t key enough w

  u_same : (u.root ≡ t.root) × ((u.length ≡ t.length) × (length key ≤ length u.key_return_buf))
  unfolding u
  u_same = make_room-fields fresh t key enough

  on_first : t.root ≡ none → set_key fresh t key v flags ≡ set_first u key v flags
  unfolding u
  on_first unrooted =
      set_key-eq fresh t key v flags idle mode
      ∙ ap
          (λ (n : Option Node). elim n [
            | none ↦ set_first (make_room fresh t key) key v flags
            | some root' ↦ set_found (make_room fresh t key) root' key v flags
          ])
          unrooted

  on_found :
      (root : Node)
      → t.root ≡ some root
      → set_key fresh t key v flags ≡ set_found u root key v flags
  unfolding u
  on_found root rooted =
      set_key-eq fresh t key v flags idle mode
      ∙ ap
          (λ (n : Option Node). elim n [
            | none ↦ set_first (make_room fresh t key) key v flags
            | some root' ↦ set_found (make_room fresh t key) root' key v flags
          ])
          rooted

  as-IsStored :
      {r : Trie × Outcome (List ℕ)} (n : ℕ → ℕ)
      → set_key fresh t key v flags ≡ r
      → IsStored u key v (n u.length) r
      → IsStored t key v (n t.length) (set_key fresh t key v flags)
  as-IsStored {r} n e s =
      subst (IsStored t key v (n t.length)) (sym e)
        (subst (λ z. IsStored t key v z r) (ap n u_same.1.0) (for-IsStored u t key v _ u_same.0 s))

  as-IsRefused :
      {r : Trie × Outcome (List ℕ)} {x : Error}
      → set_key fresh t key v flags ≡ r
      → IsRefused u x r
      → IsRefused t x (set_key fresh t key v flags)
  as-IsRefused {x} e s = subst (IsRefused t x) (sym e) (record {
    throws = s.throws;
    same_root = s.same_root ∙ u_same.0;
    same_length = s.same_length ∙ u_same.1.0;
    stays = s.stays;
  })

  root-IsValid : (root : Node) → t.root ≡ some root → IsValid root
  root-IsValid root rooted = subst IsValidRoot rooted w.root_valid

  -- With the flag c, a case-sensitive `skit_trie_set` of a key of bytes that a well-formed trie
  -- does not hold, and that does not end inside a narrow node with a value, returns the key,
  -- stores the value under it, changes the value of no other key, counts one key more (modulo
  -- 2^64) and leaves the trie well formed. No iterator walks the trie, the key has fewer than
  -- 2^32 characters, and the allocator gives enough bytes.
  pub set-new :
      Bytes key
      → contents_of t.root key ≡ none
      → is_inside t.root key ≡ false
      → has_flag flags create ≡ true
      → IsStored t key v ((t.length + 1) % 2 ^ 64) (set_key fresh t key v flags)
  unfolding contents_of
  set-new bytes e outside c = elim (Option-cases t.root) [
    | inl unrooted ↦
        as-IsStored (λ n. (n + 1) % 2 ^ 64) (on_first unrooted)
          (set_first-IsStored u key v flags u_well bytes u_same.1.1 (u_same.0 ∙ unrooted) c)
    | inr (root, rooted) ↦
        as-IsStored (λ n. (n + 1) % 2 ^ 64) (on_found root rooted)
          (found-new u key v flags u_well u_same.1.1 sensitive root (u_same.0 ∙ rooted)
            (root-IsValid root rooted) bytes (subst (λ r. contents_of r key ≡ none) rooted e)
            (outside_of t.root root key rooted outside) c
            (find-Lookup root key u.key_return_buf short (root-IsValid root rooted)))
  ]

  -- With the flag o, a case-sensitive `skit_trie_set` of a key of bytes that a well-formed trie
  -- holds returns the key, replaces its value, changes the value of no other key nor the count,
  -- and leaves the trie well formed. No iterator walks the trie, the key has fewer than 2^32
  -- characters, and the allocator gives enough bytes.
  pub set-existing :
      {old : ℕ}
      → Bytes key
      → contents_of t.root key ≡ some old
      → has_flag flags overwrite ≡ true
      → IsStored t key v t.length (set_key fresh t key v flags)
  unfolding contents_of
  set-existing {old} bytes e o = elim (Option-cases t.root) [
    | inl unrooted ↦
        let impossible : none ≡ some old = subst (λ r. contents_of r key ≡ some old) unrooted e in
        cc
    | inr (root, rooted) ↦
        as-IsStored (λ n. n) (on_found root rooted)
          (found-existing u key v flags u_well u_same.1.1 sensitive root (u_same.0 ∙ rooted)
            (root-IsValid root rooted) bytes (subst (λ r. contents_of r key ≡ some old) rooted e) o
            (find-Lookup root key u.key_return_buf short (root-IsValid root rooted)))
  ]

  -- Without the flag c (but with o), a case-sensitive `skit_trie_set` of a key that a well-formed
  -- trie does not hold, and that does not end inside a narrow node with a value, throws
  -- SKIT_EXCEPTION and leaves the nodes and the count as they were and the trie well formed. No
  -- iterator walks the trie, the key has fewer than 2^32 characters, and the allocator gives
  -- enough bytes.
  pub set-missing :
      contents_of t.root key ≡ none
      → is_inside t.root key ≡ false
      → has_flag flags create ≡ false
      → IsRefused t exception (set_key fresh t key v flags)
  unfolding contents_of set_first
  set-missing e outside c = elim (Option-cases t.root) [
    | inl unrooted ↦ as-IsRefused (on_first unrooted) (
        rw (set_first, c)
          (record { throws = refl; same_root = refl; same_length = refl; stays = u_well }))
    | inr (root, rooted) ↦ as-IsRefused (on_found root rooted) (
        found-missing u key v flags u_well u_same.1.1 sensitive root (u_same.0 ∙ rooted)
          (root-IsValid root rooted) (subst (λ r. contents_of r key ≡ none) rooted e)
          (outside_of t.root root key rooted outside) c
          (find-Lookup root key u.key_return_buf short (root-IsValid root rooted)))
  ]

  -- Without the flag o (but with c), a case-sensitive `skit_trie_set` of a key that a well-formed
  -- trie holds throws SKIT_EXCEPTION and leaves the nodes and the count as they were and the trie
  -- well formed. No iterator walks the trie, the key has fewer than 2^32 characters, and the
  -- allocator gives enough bytes.
  pub set-taken :
      {old : ℕ}
      → contents_of t.root key ≡ some old
      → has_flag flags overwrite ≡ false
      → IsRefused t exception (set_key fresh t key v flags)
  unfolding contents_of
  set-taken {old} e o = elim (Option-cases t.root) [
    | inl unrooted ↦
        let impossible : none ≡ some old = subst (λ r. contents_of r key ≡ some old) unrooted e in
        cc
    | inr (root, rooted) ↦ as-IsRefused (on_found root rooted) (
        found-taken u key v flags u_well u_same.1.1 sensitive root (u_same.0 ∙ rooted)
          (root-IsValid root rooted) (subst (λ r. contents_of r key ≡ some old) rooted e) o
          (find-Lookup root key u.key_return_buf short (root-IsValid root rooted)))
  ]
