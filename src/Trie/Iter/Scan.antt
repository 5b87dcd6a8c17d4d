-- ===== src/Trie/Iter/Scan.antt =====
-- How a pass of `skit_trie_iter_next` (survival_kit/trie.c) moves along the edges of a node.
use c_survival_kit.Common.{
  ℕ, zero, suc, ◌+◌, ◌-◌, ◌≤◌, ◌<◌, ◌≡◌, refl, sym, ap, ◌∙◌, ◌⊎◌, inl, inr, true, false, ◌&&◌,
  Option, none, some, List, [], ◌∷◌, ltb, leb, ◌==◌, if◌then◌else◌, length, arith, Bool-cases,
  Option-cases,
}
use c_survival_kit.Trie.Node.{Node, Nodes, node, child, node_prealloc}
use c_survival_kit.Trie.Shared.{position-lt}
use mathlib.Core.Path.{subst}
use c_survival_kit.Trie.Contents.{position}
use c_survival_kit.Trie.Valid.{Shape, leaf, narrow, multi, table, Distinct, Filled, Filled-child}
use c_survival_kit.Trie.Iter.{
  Frame, Iter, Pass, resumes, scan_chars, scan_table, descend, visit_linear, visit_multi,
  visit_table, visit,
}
use c_survival_kit.Trie.Iter.Entries.{slot, char_edges, edges}

-- The edges after a stretch of characters that have none.
char_edges_skip :
    (k : ℕ) (c m next : ℕ) (at : ℕ → Option ℕ)
    → c + k ≡ 256
    → c + m ≡ next
    → next ≤ 256
    → ((d : ℕ) → c ≤ d → d < next → at d ≡ none)
    → char_edges k c at ≡ char_edges (256 - next) next at
unfolding char_edges
char_edges_skip k c zero next at e f h gap_at =
    let same : c ≡ next = omega arith in
    let count : k ≡ 256 - next = omega arith in rw (count, same)
char_edges_skip zero c (suc m) next at e f h gap_at = absurd (omega arith)
char_edges_skip (suc k) c (suc m) next at e f h gap_at =
    rw (char_edges, gap_at c (omega arith) (omega arith))
      (char_edges_skip k (suc c) m next at (omega arith) (omega arith) h
        λ d lo hi. gap_at d (omega arith) hi)

module _ (at : ℕ → Option ℕ) (c next : ℕ) (lo : c < next) (hi : next ≤ 256)
    (free : (d : ℕ) → c < d → d < next → at d ≡ none) where
  behind : char_edges (255 - c) (suc c) at ≡ char_edges (256 - next) next at
  behind =
      char_edges_skip (255 - c) (suc c) (next - suc c) next at (omega arith) (omega arith) hi
        λ d l h. free d (omega arith) h

  char_edges-none : at c ≡ none → char_edges (256 - c) c at ≡ char_edges (256 - next) next at
  unfolding char_edges
  char_edges-none e =
      let count : 256 - c ≡ suc (255 - c) = omega arith in rw (count, char_edges, e) behind

  char_edges-some :
      {i : ℕ}
      → at c ≡ some i
      → char_edges (256 - c) c at ≡ (c ∷ [], i) ∷ char_edges (256 - next) next at
  unfolding char_edges
  char_edges-some {i} e =
      let count : 256 - c ≡ suc (255 - c) = omega arith in
      rw (count, char_edges, e) (ap (λ r. (c ∷ [], i) ∷ r) behind)

abbrev offset : ℕ → Option ℕ → Option ℕ → Option ℕ
offset i index none = index
offset i index (some j) = some (i + j)

-- The index that the scan finds is the character's position.
scan_chars-position :
    (cur : ℕ) (cs : List ℕ) (i : ℕ) (index : Option ℕ) (next : ℕ)
    → Distinct cs
    → (scan_chars cur cs i (index, next)).0 ≡ offset i index (position cur cs)
unfolding scan_chars position
scan_chars-position cur [] i index next d = refl
scan_chars-position cur (c ∷ cs) i index next d =
    let next' = if ltb cur c && ltb c next then c else next in
    elim (Bool-cases (c == cur)) [
      | inl hit ↦
          let same : c ≡ cur = ground arith in
          let gone : position cur cs ≡ none = rw (← same) d.0 in
          rw (scan_chars, hit)
            (scan_chars-position cur cs (suc i) (some i) next' d.1
              ∙ rw gone (ap some (omega arith)))
      | inr miss ↦
          let rest = scan_chars-position cur cs (suc i) index next' d.1 in
          elim (Option-cases (position cur cs)) [
            | inl gone ↦ rw (scan_chars, miss, gone) (rest ∙ rw gone)
            | inr (j, found) ↦
                rw (scan_chars, miss, found) (rest ∙ rw found (ap some (omega arith)))
          ]
    ]

scan_chars_next :
    (cur : ℕ) (cs : List ℕ) (i : ℕ) (index : Option ℕ) (next : ℕ)
    → cur < next
    → (cur < (scan_chars cur cs i (index, next)).1)
      × ((scan_chars cur cs i (index, next)).1 ≤ next)
      × ((d : ℕ) → cur < d → d < (scan_chars cur cs i (index, next)).1 → position d cs ≡ none)
unfolding scan_chars position
scan_chars_next cur [] i index next lo = (lo, omega arith, λ d l h. refl)
scan_chars_next cur (c ∷ cs) i index next lo =
    let next' = if ltb cur c && ltb c next then c else next in
    let index' : Option ℕ = if c == cur then some i else index in
    let lo' : cur < next' = ground arith in
    let (above, below, free) = scan_chars_next cur cs (suc i) index' next' lo' in
    let le : next' ≤ next = ground arith in
    let le_c : cur < c → next' ≤ c = λ l. ground arith in
    (
      above,
      omega arith,
      λ d l h. let miss : (c == d) ≡ false = ground (arith, le_c) in rw (miss, free d l h),
    )

scan_table_first :
    (k : ℕ) (ns : Nodes) (i : ℕ)
    → i + k ≡ 256
    → (i ≤ scan_table k ns i)
      × (scan_table k ns i ≤ 256)
      × ((d : ℕ) → i ≤ d → d < scan_table k ns i → child ns d ≡ none)
unfolding scan_table
scan_table_first zero ns i e = (omega arith, omega arith, λ d l h. absurd (omega arith))
scan_table_first (suc k) ns i e =
    let (from, within, free) = scan_table_first k ns (suc i) (omega arith) in
    elim (Option-cases (child ns i)) [
      | inl gone ↦
          rw (scan_table, gone)
            (
              omega arith,
              within,
              λ d l h. elim (Bool-cases (d == i)) [
                | inl hit ↦ let same : d ≡ i = ground arith in rw (same, gone)
                | inr miss ↦ free d (ground arith) h
              ],
            )
      | inr (m, got) ↦
          rw (scan_table, got) (omega arith, omega arith, λ d l h. absurd (omega arith))
    ]

Distinct-single : (cs : List ℕ) → length cs ≡ 1 → Distinct cs
unfolding position
Distinct-single [] e = absurd (omega arith)
Distinct-single (c ∷ []) e = (refl, tt)
Distinct-single (c ∷ d ∷ cs) e = absurd (omega arith)

-- A pass at a node either goes down its first edge from the current character on, or finds that no
-- edge has that character; in both cases the edges that are left begin at the next character.
pub data Visited (it : Iter) (f : Frame) (fs : List Frame) (nl cl : ℕ) (cs : List ℕ) (ns : Nodes)
    : Pass → Type 0 where
  stay :
      (next : ℕ)
      → f.current_char < next
      → next ≤ 256
      → ((((nl == 1) && ltb 1 cl) ≡ true) → ⊥)
      → edges nl cl cs ns f.current_char ≡ edges nl cl cs ns next
      → Visited it f fs nl cl cs ns
          (resumes (record it { frames = record f { current_char = next } ∷ fs }))
  down :
      (next : ℕ) (label : List ℕ) (i : ℕ) (m : Node)
      → f.current_char < next
      → next ≤ 256
      → ((((nl == 1) && ltb 1 cl) ≡ true) → next ≡ 256)
      → edges nl cl cs ns f.current_char ≡ (label, i) ∷ edges nl cl cs ns next
      → child ns i ≡ some m
      → 0 < length label
      → Visited it f fs nl cl cs ns (descend it f fs next (some m) label)

module _ (it : Iter) (f : Frame) (fs : List Frame) (v : Option ℕ) {nl cl : ℕ} {cs : List ℕ}
    {ns : Nodes} where
  -- Where characters are scanned one by one, the scan decides.
  Visited-slots :
      (next : ℕ)
      → ((nl == 1) && ltb 1 cl) ≡ false
      → f.current_char < next
      → next ≤ 256
      → ((d : ℕ) → f.current_char < d → d < next → slot cl cs ns d ≡ none)
      → ((slot cl cs ns f.current_char ≡ none)
          × (visit it f fs (node v nl cl cs ns)
              ≡ resumes (record it { frames = record f { current_char = next } ∷ fs })))
        ⊎ ((i : ℕ) × (m : Node) × (slot cl cs ns f.current_char ≡ some i)
            × (child ns i ≡ some m)
            × (visit it f fs (node v nl cl cs ns)
                ≡ descend it f fs next (some m) (f.current_char ∷ [])))
      → Visited it f fs nl cl cs ns (visit it f fs (node v nl cl cs ns))
  unfolding edges
  Visited-slots next many lo hi free (inl (none_here, e)) = rw e (
      stay next lo hi (λ linear. ground arith)
        (rw many (char_edges-none (slot cl cs ns) f.current_char next lo hi free none_here)))
  Visited-slots next many lo hi free (inr (i, m, here, kid, e)) = rw e (
      down next (f.current_char ∷ []) i m lo hi (λ linear. absurd (ground arith))
        (rw many (char_edges-some (slot cl cs ns) f.current_char next lo hi free here)) kid
        (omega arith))

  Visited-multi :
      nl ≡ cl
      → nl ≤ node_prealloc
      → ((nl == 1) && ltb 1 cl) ≡ false
      → length cs ≡ nl
      → Distinct cs
      → Filled nl ns
      → f.current_char < 256
      → Visited it f fs nl cl cs ns (visit it f fs (node v nl cl cs ns))
  unfolding visit visit_multi slot
  Visited-multi same few many len distinct filled lt =
      let next = (scan_chars f.current_char cs 0 (none, 256)).1 in
      let (lo, hi, free) = scan_chars_next f.current_char cs 0 none 256 lt in
      let found = scan_chars-position f.current_char cs 0 none 256 distinct in
      let not_ff : (cl == 0xff) ≡ false = ground arith in
      let eq : (nl == cl) ≡ true = ground arith in
      let small : leb nl node_prealloc ≡ true = ground arith in
      Visited-slots next many lo hi (λ d l h. rw not_ff (free d l h))
        (elim (Option-cases (position f.current_char cs)) [
          | inl gone ↦ inl (rw not_ff gone, rw (many, small, eq, found, gone))
          | inr (i, at) ↦
              let same_index : 0 + i ≡ i = omega arith in
              let below : i < nl = omega (arith, position-lt f.current_char cs i at) in
              let (m, kid) = Filled-child nl ns i filled below in
              inr (i, m, rw not_ff at, kid, rw (many, small, eq, found, at, same_index, kid))
        ])

  Visited-table :
      node_prealloc < nl
      → cl ≡ 0xff
      → f.current_char < 256
      → Visited it f fs nl cl cs ns (visit it f fs (node v nl cl cs ns))
  unfolding visit visit_table slot
  Visited-table many ff lt =
      let next = scan_table (255 - f.current_char) ns (suc f.current_char) in
      let (lo, hi, free) =
        scan_table_first (255 - f.current_char) ns (suc f.current_char) (omega arith) in
      let is_ff : (cl == 0xff) ≡ true = ground arith in
      let not_one : (nl == 1) ≡ false = ground arith in
      let large : leb nl node_prealloc ≡ false = ground arith in
      Visited-slots next (rw not_one) (omega arith) hi (λ d l h. rw (is_ff, free d (omega arith) h))
        (elim (Option-cases (child ns f.current_char)) [
          | inl gone ↦ inl (rw (is_ff, gone), rw (not_one, large, visit_table, gone))
          | inr (m, kid) ↦
              inr (f.current_char, m, rw (is_ff, kid), kid, rw (not_one, large, visit_table, kid))
        ])

  Visited-linear :
      ((nl == 1) && ltb 1 cl) ≡ true
      → 0 < length cs
      → Filled 1 ns
      → f.current_char ≡ 0
      → Visited it f fs nl cl cs ns (visit it f fs (node v nl cl cs ns))
  unfolding visit visit_linear edges
  Visited-linear linear some_chars filled start =
      let (m, kid) = Filled-child 1 ns 0 filled (omega arith) in
      let zero_char : (f.current_char == 0) ≡ true = ground arith in
      rw (linear, kid)
        (down 256 cs 0 m (omega arith) (omega arith) (λ l. refl) (rw (linear, zero_char)) kid
          some_chars)

  pub visit-Visited :
      Shape nl cl cs ns
      → f.current_char < 256
      → ((((nl == 1) && ltb 1 cl) ≡ true) → f.current_char ≡ 0)
      → Visited it f fs nl cl cs ns (visit it f fs (node v nl cl cs ns))
  visit-Visited (leaf z zc no_chars filled) lt start =
      Visited-multi (omega arith) (omega arith) (ground arith) (rw no_chars (omega arith))
        (rw no_chars tt) (subst (λ n. Filled n ns) (sym z) filled) lt
  visit-Visited (narrow one len some_chars few bytes filled) lt start =
      elim (Bool-cases ((nl == 1) && ltb 1 cl)) [
        | inl linear ↦ Visited-linear linear (omega arith) filled (start linear)
        | inr many ↦
            let single : cl ≡ 1 = ground arith in
            Visited-multi (omega arith) (omega arith) many (omega arith)
              (Distinct-single cs (omega arith)) (subst (λ n. Filled n ns) (sym one) filled) lt
      ]
  visit-Visited (multi more few same len distinct bytes filled) lt start =
      Visited-multi (omega arith) few (ground arith) len distinct filled lt
  visit-Visited (table many cl_ff sized occ) lt start = Visited-table many cl_ff lt
