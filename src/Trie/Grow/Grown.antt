-- ===== src/Trie/Grow/Grown.antt =====
-- What an insertion of survival_kit/trie.c makes of a node: it returns, it keeps the node valid, and
-- it changes the value of one key.
use c_survival_kit.Common.{
  ℕ, suc, ◌≡◌, ◌≢◌, ap₂, ◌∙◌, inl, inr, Option, none, some, List, [], ◌∷◌, ◌==◌, if◌then◌else◌,
  drop, arith, Bool-cases,
}
use c_survival_kit.Trie.Node.{Node}
use c_survival_kit.Trie.Split.{empty_node, set_value, finish_tail}
use c_survival_kit.Trie.Contents.{contents}
use c_survival_kit.Trie.Valid.{IsValid, Bytes}
use c_survival_kit.Trie.Chain.{
  append_str-IsValid, append_str_adds, append_str_alone, leaf-IsValid, Bytes-drop,
}

pub record Grown (before : List ℕ → Option ℕ) (rest : List ℕ) (v : ℕ) (r : Option Node)
    : Type 0 where
  pub grown : Node
  pub result : r ≡ some grown
  pub grown_valid : IsValid grown
  pub adds : contents grown rest ≡ some v
  pub keeps : (s : List ℕ) → s ≢ rest → contents grown s ≡ before s

-- A branch that holds the value for the string `t` alone.
pub record Tail (t : List ℕ) (v : ℕ) (m : Node) : Type 0 where
  pub tail_valid : IsValid m
  pub holds : contents m t ≡ some v
  pub alone : (s : List ℕ) → s ≢ t → contents m s ≡ none

pub finish_tail-Tail :
    (key : List ℕ) (pos v : ℕ) → Bytes key → Tail (drop (suc pos) key) v (finish_tail key pos v)
unfolding finish_tail
finish_tail-Tail key pos v b = record {
  tail_valid =
      append_str-IsValid (set_value empty_node v) (drop (suc pos) key) (Bytes-drop (suc pos) key b)
        (leaf-IsValid v);
  holds = append_str_adds v (drop (suc pos) key);
  alone = append_str_alone v (drop (suc pos) key);
}

-- A node that has a new branch behind the character `c`, where there was none.
pub branch-Grown :
    (before : List ℕ → Option ℕ) (c : ℕ) (t : List ℕ) (v : ℕ) (branch m : Node) {r : Option Node}
    → Tail t v branch
    → r ≡ some m
    → IsValid m
    → contents m [] ≡ before []
    → ((k : ℕ) (s : List ℕ)
        → contents m (k ∷ s) ≡ (if k == c then contents branch s else before (k ∷ s)))
    → ((s : List ℕ) → before (c ∷ s) ≡ none)
    → Grown before (c ∷ t) v r
branch-Grown before c t v branch m tail e is_valid at_nil at_cons new = record {
  grown = m;
  result = e;
  grown_valid = is_valid;
  adds = ground (arith, at_cons c t, tail.holds);
  keeps = others;
}
  where
    others : (s : List ℕ) → s ≢ c ∷ t → contents m s ≡ before s
    others [] ne = at_nil
    others (k ∷ s) ne = elim (Bool-cases (k == c)) [
      | inl same ↦
          let e' : k ≡ c = ground arith in
          at_cons k s ∙ rw (same, e', new) (tail.alone s (λ q. ne (ap₂ ◌∷◌ e' q)))
      | inr other ↦ at_cons k s ∙ rw other
    ]
