-- ===== src/Trie/Grow/Table.antt =====
-- Nodes with a table of 256 pointers: `skit_trie_split_table_node` and
-- `skit_trie_split_multi_to_table` of survival_kit/trie.c.
use c_survival_kit.Common.{
  ℕ, zero, suc, ◌+◌, ◌≤◌, ◌<◌, ◌≡◌, ◌≢◌, refl, ap, ◌∙◌, sym, inl, inr, Option, none, some, List, [],
  ◌∷◌, ◌==◌, if◌then◌else◌, arith, get_or, drop, length, Option-cases, Bool-cases,
}
use c_survival_kit.Trie.Node.{Node, Nodes, node, nil, cons, gap, child, put, size, node_prealloc}
use c_survival_kit.Trie.Split.{
  finish_tail, split_table_node, split_multi_to_table, fill_table, null_table,
}
use c_survival_kit.Trie.Contents.{
  contents, contents_at, position, route_table, contents-nil, contents_at-child,
}
use c_survival_kit.Trie.Valid.{
  valid, AreValid, filled, empty, null, table, Bytes, Filled, Distinct, occupied, size-put,
  put-AreValid,
}
use c_survival_kit.Trie.Shared.{index_of-position}
use c_survival_kit.Trie.Grow.Grown.{Grown, branch-Grown, finish_tail-Tail}
use c_survival_kit.Trie.Grow.Branch.{contents-chars}

pub contents-table :
    (w : Option ℕ) (nl cl : ℕ) (cs : List ℕ) (ns : Nodes) (k : ℕ) (key : List ℕ)
    → node_prealloc < nl
    → cl ≡ 0xff
    → contents (node w nl cl cs ns) (k ∷ key) ≡ contents_at ns k key
unfolding contents
contents-table w nl cl cs ns k key many e = ground (arith, route_table nl cl cs k key)

contents_at-put :
    (ns : Nodes) (i : ℕ) (m : Node) (k : ℕ) (key : List ℕ)
    → i < size ns
    → contents_at (put ns i m) k key ≡ (if k == i then contents m key else contents_at ns k key)
unfolding contents put size
contents_at-put nil i m k key h = absurd (omega arith)
contents_at-put (cons n ns) zero m zero key h = refl
contents_at-put (cons n ns) zero m (suc k) key h = ground arith
contents_at-put (cons n ns) (suc i) m zero key h = ground arith
contents_at-put (cons n ns) (suc i) m (suc k) key h = ground (arith, contents_at-put ns i m k key)
contents_at-put (gap ns) zero m zero key h = refl
contents_at-put (gap ns) zero m (suc k) key h = ground arith
contents_at-put (gap ns) (suc i) m zero key h = ground arith
contents_at-put (gap ns) (suc i) m (suc k) key h = ground (arith, contents_at-put ns i m k key)

-- A pointer that was NULL is one more.
occupied-put_new :
    (ns : Nodes) (i : ℕ) (m : Node)
    → i < size ns
    → child ns i ≡ none
    → occupied (put ns i m) ≡ suc (occupied ns)
unfolding child put occupied size
occupied-put_new nil i m h e = absurd (omega arith)
occupied-put_new (cons n ns) zero m h e = cc
occupied-put_new (cons n ns) (suc i) m h e = ap suc (occupied-put_new ns i m (omega arith) e)
occupied-put_new (gap ns) zero m h e = refl
occupied-put_new (gap ns) (suc i) m h e = occupied-put_new ns i m (omega arith) e

child-put : (ns : Nodes) (i : ℕ) (m : Node) (k : ℕ) → k ≢ i → child (put ns i m) k ≡ child ns k
unfolding child put
child-put nil i m k h = refl
child-put (cons n ns) zero m zero h = absurd (h refl)
child-put (cons n ns) zero m (suc k) h = refl
child-put (cons n ns) (suc i) m zero h = refl
child-put (cons n ns) (suc i) m (suc k) h = child-put ns i m k (λ e. h (ap suc e))
child-put (gap ns) zero m zero h = absurd (h refl)
child-put (gap ns) zero m (suc k) h = refl
child-put (gap ns) (suc i) m zero h = refl
child-put (gap ns) (suc i) m (suc k) h = child-put ns i m k (λ e. h (ap suc e))

-- A NULL pointer holds no key.
no_contents_at :
    (ns : Nodes) (k : ℕ) (key : List ℕ) → child ns k ≡ none → contents_at ns k key ≡ none
no_contents_at ns k key e = contents_at-child ns k key ∙ rw e

contents-put_table :
    (w : Option ℕ) (nl cl : ℕ) (cs : List ℕ) (ns : Nodes) (c : ℕ) (m : Node) (k : ℕ) (key : List ℕ)
    → node_prealloc < nl
    → cl ≡ 0xff
    → c < size ns
    → contents (node w nl cl cs (put ns c m)) (k ∷ key)
      ≡ (if k == c then contents m key else contents_at ns k key)
contents-put_table w nl cl cs ns c m k key many e h =
    contents-table w nl cl cs (put ns c m) k key many e ∙ contents_at-put ns c m k key h

-- `skit_trie_split_table_node` fills a pointer that was NULL.
pub split_table_node-Grown :
    (w : Option ℕ) (nl cl : ℕ) (cs : List ℕ) (ns : Nodes) (key : List ℕ) (pos v : ℕ)
    → node_prealloc < nl
    → cl ≡ 0xff
    → size ns ≡ 256
    → occupied ns ≡ nl
    → AreValid ns
    → Bytes key
    → get_or key pos 0 < 256
    → child ns (get_or key pos 0) ≡ none
    → Grown
        (contents (node w nl cl cs ns))
        (get_or key pos 0 ∷ drop (suc pos) key)
        v
        (split_table_node (node w nl cl cs ns) key pos v)
unfolding split_table_node
split_table_node-Grown w nl cl cs ns key pos v many e s o vs b h new =
    let c = get_or key pos 0 in
    let tail = finish_tail-Tail key pos v b in
    let m = finish_tail key pos v in
    branch-Grown (contents (node w nl cl cs ns)) c (drop (suc pos) key) v m
      (node w (nl + 1) cl cs (put ns c m)) tail (ground arith)
      (valid
        (table (omega arith) e (size-put ns c m ∙ s)
          (omega (arith, occupied-put_new ns c m (omega arith) new)))
        (put-AreValid c vs tail.tail_valid))
      (contents-nil _ _ _ _ _ ∙ sym (contents-nil w nl cl cs ns))
      (λ k r.
        contents-put_table w (nl + 1) cl cs ns c m k r (omega arith) e (omega arith)
        ∙ rw (contents-table w nl cl cs ns k r many e))
      (λ r. contents-table w nl cl cs ns c r many e ∙ no_contents_at ns c r new)

-- The table that `skit_trie_split_multi_to_table` builds.
size-null_table : (n : ℕ) → size (null_table n) ≡ n
unfolding size null_table
size-null_table zero = refl
size-null_table (suc n) = ap suc (size-null_table n)

occupied-null_table : (n : ℕ) → occupied (null_table n) ≡ 0
unfolding occupied null_table
occupied-null_table zero = refl
occupied-null_table (suc n) = occupied-null_table n

child-null_table : (n k : ℕ) → child (null_table n) k ≡ none
unfolding child null_table
child-null_table zero k = refl
child-null_table (suc n) zero = refl
child-null_table (suc n) (suc k) = child-null_table n k

AreValid-null_table : (n : ℕ) → AreValid (null_table n)
unfolding null_table
AreValid-null_table zero = empty
AreValid-null_table (suc n) = null (AreValid-null_table n)

size-fill_table : (cs : List ℕ) (ns t : Nodes) → size (fill_table cs ns t) ≡ size t
unfolding fill_table
size-fill_table [] ns t = refl
size-fill_table (c ∷ cs) nil t = refl
size-fill_table (c ∷ cs) (gap ns) t = refl
size-fill_table (c ∷ cs) (cons n ns) t = size-fill_table cs ns (put t c n) ∙ size-put t c n

AreValid-fill_table :
    (cs : List ℕ) {ns t : Nodes} → AreValid ns → AreValid t → AreValid (fill_table cs ns t)
unfolding fill_table
AreValid-fill_table [] vs h = h
AreValid-fill_table (c ∷ cs) empty h = h
AreValid-fill_table (c ∷ cs) (null vs) h = h
AreValid-fill_table (c ∷ cs) (filled v vs) h = AreValid-fill_table cs vs (put-AreValid c h v)

-- A character that is not among the node's keeps its pointer.
child-fill_table :
    (cs : List ℕ) (ns t : Nodes) (k : ℕ)
    → position k cs ≡ none
    → child (fill_table cs ns t) k ≡ child t k
unfolding fill_table position
child-fill_table [] ns t k e = refl
child-fill_table (c ∷ cs) nil t k e = refl
child-fill_table (c ∷ cs) (gap ns) t k e = refl
child-fill_table (c ∷ cs) (cons n ns) t k e =
    child-fill_table cs ns (put t c n) k (ground arith) ∙ child-put t c n k (ground arith)

contents_at-fill_table :
    (cs : List ℕ) (ns t : Nodes) (k : ℕ) (key : List ℕ)
    → Filled (length cs) ns
    → Distinct cs
    → Bytes cs
    → size t ≡ 256
    → contents_at (fill_table cs ns t) k key
      ≡ (elim (position k cs) [ none ↦ contents_at t k key | some i ↦ contents_at ns i key ])
unfolding fill_table position contents
contents_at-fill_table [] ns t k key f u y s = refl
contents_at-fill_table (c ∷ cs) nil t k key f u y s = elim f [ ]
contents_at-fill_table (c ∷ cs) (gap ns) t k key f u y s = elim f [ ]
contents_at-fill_table (c ∷ cs) (cons n ns) t k key f u y s = elim (Bool-cases (c == k)) [
  | inl same ↦
      let e : c ≡ k = ground arith in
      let others = contents_at-fill_table cs ns (put t c n) k key f u.1 y.1 (size-put t c n ∙ s) in
      ground (arith, others, contents_at-put t c n k key, u.0)
  | inr other ↦ elim (Option-cases (position k cs)) [
    | inl at ↦ ground (
      arith,
      contents_at-fill_table cs ns (put t c n) k key f u.1 y.1 (size-put t c n ∙ s),
      contents_at-put t c n k key,
    )
    | inr (i, at) ↦
        ground
          (arith, contents_at-fill_table cs ns (put t c n) k key f u.1 y.1 (size-put t c n ∙ s))
  ]
]

occupied-fill_table :
    (cs : List ℕ) (ns t : Nodes)
    → Filled (length cs) ns
    → Distinct cs
    → Bytes cs
    → size t ≡ 256
    → ((k : ℕ) → position k cs ≢ none → child t k ≡ none)
    → occupied (fill_table cs ns t) ≡ occupied t + length cs
unfolding fill_table position
occupied-fill_table [] ns t f u y s new = omega arith
occupied-fill_table (c ∷ cs) nil t f u y s new = elim f [ ]
occupied-fill_table (c ∷ cs) (gap ns) t f u y s new = elim f [ ]
occupied-fill_table (c ∷ cs) (cons n ns) t f u y s new =
    let first : child t c ≡ none = new c (ground arith) in
    omega (
      arith,
      occupied-put_new t c n (omega arith) first,
      occupied-fill_table cs ns (put t c n) f u.1 y.1 (size-put t c n ∙ s) (λ k there.
          child-put t c n k (λ e. there (ap (λ z. position z cs) e ∙ u.0)) ∙ new k (ground arith)),
    )

-- The table keeps every branch of the multi node, and its characters.
module _ (cs : List ℕ) (ns : Nodes) (f : Filled (length cs) ns) (u : Distinct cs)
    (y : Bytes cs) where
  filled_table : Nodes
  filled_table = fill_table cs ns (null_table 256)

  filled_table-size : size filled_table ≡ 256
  unfolding filled_table
  filled_table-size = size-fill_table cs ns (null_table 256) ∙ size-null_table 256

  filled_table-occupied : occupied filled_table ≡ length cs
  unfolding filled_table
  filled_table-occupied =
      occupied-fill_table cs ns (null_table 256) f u y (size-null_table 256)
        (λ k _. child-null_table 256 k)
      ∙ omega (arith, occupied-null_table 256)

  filled_table-null : (c : ℕ) → position c cs ≡ none → child filled_table c ≡ none
  unfolding filled_table
  filled_table-null c new = child-fill_table cs ns (null_table 256) c new ∙ child-null_table 256 c

  filled_table-AreValid : AreValid ns → AreValid filled_table
  unfolding filled_table
  filled_table-AreValid vs = AreValid-fill_table cs vs (AreValid-null_table 256)

  filled_table-contents :
      (w : Option ℕ) (k : ℕ) (key : List ℕ)
      → length cs ≤ node_prealloc
      → contents_at filled_table k key ≡ contents (node w (length cs) (length cs) cs ns) (k ∷ key)
  unfolding filled_table
  filled_table-contents w k key few =
      contents_at-fill_table cs ns (null_table 256) k key f u y (size-null_table 256)
      ∙ absent
      ∙ sym (contents-chars w (length cs) (length cs) cs ns k key refl refl few)
    where
      absent :
          (elim (position k cs) [
            | none ↦ contents_at (null_table 256) k key
            | some i ↦ contents_at ns i key
          ])
          ≡ (elim (position k cs) [ none ↦ none | some i ↦ contents_at ns i key ])
      absent = ground (arith, no_contents_at (null_table 256) k key (child-null_table 256 k))

  split_multi_to_table-eq :
      (w : Option ℕ) (nl cl : ℕ) (key : List ℕ) (pos v : ℕ)
      → cl ≡ nl
      → nl ≡ node_prealloc
      → position (get_or key pos 0) cs ≡ none
      → split_multi_to_table (node w nl cl cs ns) key pos v
        ≡ some
            (node w (nl + 1) 0xff cs (put filled_table (get_or key pos 0) (finish_tail key pos v)))
  unfolding split_multi_to_table filled_table
  split_multi_to_table-eq w nl cl key pos v e full new =
      ground (arith, index_of-position (get_or key pos 0) cs)

  -- `skit_trie_split_multi_to_table` on a full multi node.
  pub split_multi_to_table-Grown :
      (w : Option ℕ) (nl cl : ℕ) (key : List ℕ) (pos v : ℕ)
      → cl ≡ nl
      → length cs ≡ nl
      → nl ≡ node_prealloc
      → AreValid ns
      → Bytes key
      → get_or key pos 0 < 256
      → position (get_or key pos 0) cs ≡ none
      → Grown
          (contents (node w nl cl cs ns))
          (get_or key pos 0 ∷ drop (suc pos) key)
          v
          (split_multi_to_table (node w nl cl cs ns) key pos v)
  split_multi_to_table-Grown w nl cl key pos v e l full vs b h new =
      let c = get_or key pos 0 in
      let tail = finish_tail-Tail key pos v b in
      let m = finish_tail key pos v in
      let in_range : c < size filled_table = omega (arith, filled_table-size) in
      branch-Grown (contents (node w nl cl cs ns)) c (drop (suc pos) key) v m
        (node w (nl + 1) 0xff cs (put filled_table c m)) tail
        (split_multi_to_table-eq w nl cl key pos v e full new)
        (valid
          (table (omega arith) refl (size-put filled_table c m ∙ filled_table-size) (
            omega (
              arith,
              occupied-put_new filled_table c m in_range (filled_table-null c new),
              filled_table-occupied,
            )))
          (put-AreValid c (filled_table-AreValid vs) tail.tail_valid))
        (contents-nil _ _ _ _ _ ∙ sym (contents-nil w nl cl cs ns))
        (λ k r.
          contents-put_table w (nl + 1) 0xff cs filled_table c m k r (omega arith) refl in_range
          ∙ ap (λ (z : Option ℕ). if k == c then contents m r else z) (old k r))
        (λ r. ground (arith, contents-chars w nl cl cs ns c r))
    where
      old :
          (k : ℕ) (r : List ℕ)
          → contents_at filled_table k r ≡ contents (node w nl cl cs ns) (k ∷ r)
      old k r =
          let e' : nl ≡ length cs = omega arith in
          let e'' : cl ≡ length cs = omega arith in
          rw (e', e'') (filled_table-contents w k r (omega arith))
