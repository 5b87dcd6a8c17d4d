-- ===== src/Trie/Set/Stored.antt =====
-- What `skit_trie_set` of survival_kit/trie.c does to a trie when it returns: it returns the key, and
-- the trie holds one value more, or another value for the key.
use c_survival_kit.Common.{
  ℕ, ◌≤◌, ◌≡◌, ◌≢◌, refl, sym, ◌∙◌, ap, inl, inr, some, List, [], ◌∷◌, arith, length, take,
  take_all, drop, length-drop, leb, Bool-cases,
}
use c_survival_kit.Common.Int.{ℤ}
use c_survival_kit.Trie.Node.{Node, node}
use c_survival_kit.Trie.Split.{set_value}
use c_survival_kit.Trie.Find.{accumulate_key}
use c_survival_kit.Trie.Contents.{contents}
use c_survival_kit.Trie.Valid.{IsValid, valid}
use c_survival_kit.Trie.Shared.{accumulate_key-take}
use c_survival_kit.Trie.Api.{Trie, Outcome, Error, returned, thrown, set_key_return_buf}
use c_survival_kit.Trie.WellFormed.{contents_of, IsWellFormed}

-- The call returns the key and has stored the value for it alone.
pub record IsStored (t : Trie) (key : List ℕ) (v count : ℕ) (r : Trie × Outcome (List ℕ))
    : Type 0 where
  pub returns : r.1 ≡ returned key
  pub stores : contents_of r.0.root key ≡ some v
  pub keeps : (other : List ℕ) → other ≢ key → contents_of r.0.root other ≡ contents_of t.root other
  pub counts : r.0.length ≡ count
  pub stays : IsWellFormed r.0

-- The call throws, and the trie holds what it held.
pub record IsRefused (t : Trie) (e : Error) (r : Trie × Outcome (List ℕ)) : Type 0 where
  pub throws : r.1 ≡ thrown e
  pub same_root : r.0.root ≡ t.root
  pub same_length : r.0.length ≡ t.length
  pub stays : IsWellFormed r.0

pub for-IsStored :
    (u t : Trie) (key : List ℕ) (v count : ℕ) {r : Trie × Outcome (List ℕ)}
    → u.root ≡ t.root
    → IsStored u key v count r
    → IsStored t key v count r
for-IsStored u t key v count e s = record {
  returns = s.returns;
  stores = s.stores;
  keeps = λ other ne. s.keeps other ne ∙ ap (λ n. contents_of n other) e;
  counts = s.counts;
  stays = s.stays;
}

-- The search changes the returned-key buffer only.
pub searched-IsWellFormed :
    (t : Trie) (buf : List ℕ)
    → length buf ≡ length t.key_return_buf
    → IsWellFormed t
    → IsWellFormed (set_key_return_buf t buf)
searched-IsWellFormed t buf same w = record {
  root_valid = w.root_valid;
  keys_fit = λ k {v} e. omega (arith, w.keys_fit k e);
}

-- A new tree that differs at the key alone.
pub stored :
    (t : Trie) (key : List ℕ) (v count : ℕ) (n : Node) (buf : List ℕ) (iters : ℤ)
    → IsWellFormed t
    → IsValid n
    → contents n key ≡ some v
    → ((other : List ℕ) → other ≢ key → contents n other ≡ contents_of t.root other)
    → length buf ≡ length t.key_return_buf
    → length key ≤ length buf
    → take (length key) buf ≡ key
    → IsStored t key v count (
      record { length = count; key_return_buf = buf; root = some n; iterator_count = iters },
      returned (take (length key) buf),
    )
unfolding contents_of
stored t key v count n buf iters w h adds keeps same long spelled = record {
  returns = ap returned spelled;
  stores = adds;
  keeps = keeps;
  counts = refl;
  stays = record { root_valid = h; keys_fit = fits };
}
  where
    fits : (k : List ℕ) {x : ℕ} → contents n k ≡ some x → length k ≤ length buf
    fits k {x} e = elim (Bool-cases (leb (length k) (length buf))) [
      | inl fit ↦ ground arith
      | inr longer ↦
          let other : k ≢ key = λ q. absurd (ground (arith, ap length q)) in
          let old : contents_of t.root k ≡ some x = sym (keeps k other) ∙ e in
          omega (arith, w.keys_fit k old)
    ]

-- The buffer that spells the key up to `pos` spells all of it once the rest is copied behind.
pub spelled_out :
    (key out : List ℕ) (pos : ℕ)
    → pos ≤ length key
    → length key ≤ length out
    → take pos out ≡ take pos key
    → take (length key) (accumulate_key out pos (drop pos key)) ≡ key
spelled_out key out pos h long same =
    accumulate_key-take key out pos (drop pos key) (length key) (omega (arith, length-drop pos key))
      long (omega arith) same (sym (take_all _ (drop pos key) (omega arith)))
    ∙ take_all _ key (omega arith)

pub set_value-IsValid : (n : Node) (v : ℕ) → IsValid n → IsValid (set_value n v)
set_value-IsValid (node w nl cl cs ns) v (valid s vs) = valid s vs

-- A node's own value is the value of the empty rest of a key, and of no other.
pub contents-set_value : (n : Node) (v : ℕ) → contents (set_value n v) [] ≡ some v
unfolding contents
contents-set_value (node w nl cl cs ns) v = refl

pub contents-set_value_ne :
    (n : Node) (v : ℕ) (s : List ℕ) → s ≢ [] → contents (set_value n v) s ≡ contents n s
unfolding contents
contents-set_value_ne (node w nl cl cs ns) v [] ne = absurd (ne refl)
contents-set_value_ne (node w nl cl cs ns) v (k ∷ s) ne = refl
