-- ===== src/Trie/Iter/Begin.antt =====
-- `skit_trie_iter_new` (survival_kit/trie.c) from the result of its search on.
use mathlib.Core.Path.{subst}
use c_survival_kit.Common.{
  ℕ, suc, ◌+◌, ◌≤◌, ◌<◌, ◌^◌, ◌≡◌, refl, sym, ap, ◌∙◌, inl, inr, Bool, true, false, ◌&&◌, Option,
  some, List, [], ◌∷◌, ◌++◌, ltb, ◌==◌, if◌then◌else◌, length, take, drop, arith, take_all,
  length-take, length-drop, length-append, Bool-cases,
}
use c_survival_kit.Trie.Node.{Node, Nodes, node, child, NodePath}
use c_survival_kit.Trie.Find.{no_match, target, accumulate_key}
use c_survival_kit.Trie.Contents.{node_at-Walk, Walk}
use c_survival_kit.Trie.Valid.{IsValid, Walk-IsValid}
use c_survival_kit.Trie.Shared.{shared, length-accumulate_key}
use c_survival_kit.Trie.NextNode.{Closed, at_leaf, in_narrow, at_end, no_char, no_slot, Buffered}
use c_survival_kit.Trie.Search.{Halt, at_value, closed, coords}
use c_survival_kit.Trie.Iter.{Iter, iter_push, iter_accumulate_key, first_frame, skip_node}
use c_survival_kit.Trie.Iter.Entries.{add_prefix, height, entries}
use c_survival_kit.Trie.Api.{Outcome, returned}
use c_survival_kit.Trie.Iter.Pending.{left_over, label_added, IsIter, pending}
use c_survival_kit.Trie.Iter.Passes.{uint32_small, IsValid-Shape}
use c_survival_kit.Trie.Iter.Order.{InOrder}
use c_survival_kit.Trie.Iter.Routes.{narrow-Shape}
use c_survival_kit.Trie.Iter.Listing.{
  IsListing, IsListing-none, IsListing-skip, IsListing-whole, Walk_skip, height-Walk,
}
use c_survival_kit.Trie.Iter.Start.{
  first_frame_skip, first_frame_whole, one_frame, one_frame-InOrder, one_frame-IsIter,
  pending-one_frame,
}

-- The iterator that is returned has the listing before it.
abbrev pub Begins : Node → List ℕ → Outcome Iter → Type 0
Begins root prefix r =
    (it : Iter) × (r ≡ returned it)
    × IsIter it
    × IsListing root prefix (pending it)
    × InOrder (pending it)

module _ (root : Node) (prefix buf fresh : List ℕ) (is : IsValid root) (short : length buf < 2 ^ 32)
    (fits : height root ≤ length buf) (room : length buf ≤ length fresh) where
  abbrev blank : Iter
  blank = record { frames = []; prev_depth = 0; key_buffer = take (length buf) fresh }

  abbrev keyed : ℕ → List ℕ → List ℕ
  keyed at out = accumulate_key (take (length buf) fresh) 0 (take at out)

  length-keyed : (at : ℕ) (out : List ℕ) → length (keyed at out) ≡ length buf
  length-keyed at out = omega (
    arith,
    length-accumulate_key (take (length buf) fresh) 0 (take at out),
    length-take (length buf) fresh,
  )

  -- The key buffer spells the prefix.
  take-keyed :
      (at : ℕ) (out : List ℕ)
      → at ≡ length prefix
      → at ≤ length buf
      → Buffered prefix 0 at buf out
      → take at (keyed at out) ≡ prefix
  take-keyed at out e le b =
      let same : take at out ≡ prefix =
        b.spells (omega arith) refl ∙ take_all at prefix (omega arith) in
      let count : 0 + length (take at out) ≡ at =
        omega (arith, length-take at out, b.same_length) in
      subst (λ n. take n (keyed at out) ≡ take at out) count
        (label_added (take (length buf) fresh) 0 (take at out)
          (omega (arith, length-take (length buf) fresh)))
      ∙ same

  Begins-whole :
      (m : Node) (p : NodePath) (at : ℕ) (out : List ℕ)
      → Walk root p prefix m []
      → at ≡ length prefix
      → Buffered prefix 0 at buf out
      → Begins root prefix (returned (iter_push (iter_accumulate_key blank 0 (take at out)) m at))
  unfolding iter_push iter_accumulate_key
  Begins-whole m p at out walk e b =
      let fit : at + height m ≤ length buf = omega (arith, height-Walk is walk) in
      let listing =
        subst (λ q. IsListing root prefix (add_prefix q (entries m)))
          (sym (take-keyed at out e (omega arith) b)) (IsListing-whole root m p prefix is walk) in
      (
        one_frame m at (keyed at out),
        rw (uint32_small at (omega arith)),
        one_frame-IsIter m at (keyed at out) (Walk-IsValid walk is)
            (omega (arith, length-keyed at out)) (omega (arith, length-keyed at out)),
        subst (IsListing root prefix) (sym (pending-one_frame m at (keyed at out))) listing,
        one_frame-InOrder m at (keyed at out) (Walk-IsValid walk is),
      )

  Begins-skip :
      (m : Node) (p : NodePath) (at : ℕ) (out : List ℕ) (w : Option ℕ) {nl cl : ℕ} {cs : List ℕ}
      {ns : Nodes} (k : ℕ) (r : List ℕ)
      → Walk root p prefix (node w nl cl cs ns) (k ∷ r)
      → nl ≡ 1
      → shared cs (k ∷ r) ≡ suc (length r)
      → child ns 0 ≡ some m
      → at ≡ length prefix
      → Buffered prefix 0 at buf out
      → Begins root prefix (
          returned (
            iter_push
              (iter_accumulate_key
                (iter_accumulate_key blank 0 (take at out))
                at
                (drop (suc (length r)) cs))
              m
              (at + length (drop (suc (length r)) cs))))
  unfolding iter_push iter_accumulate_key
  Begins-skip m p at out w {cs} k r walk one agree kid e b =
      let d = drop (suc (length r)) cs in
      let walk' = Walk_skip root m p prefix w k r is walk one agree kid in
      let fit : at + length d + height m ≤ length buf =
        omega (arith, height-Walk is walk', length-append prefix d) in
      let full = accumulate_key (keyed at out) at d in
      let size_full : length full ≡ length buf =
        length-accumulate_key (keyed at out) at d ∙ length-keyed at out in
      let spells : take (at + length d) full ≡ prefix ++ d =
        label_added (keyed at out) at d (omega (arith, length-keyed at out))
        ∙ ap (λ q. q ++ d) (take-keyed at out e (omega arith) b) in
      let listing =
        subst (λ q. IsListing root prefix (add_prefix q (entries m))) (sym spells)
          (IsListing-skip root m p prefix w k r is walk one agree kid) in
      (
        one_frame m (at + length d) full,
        rw (uint32_small (at + length d) (omega arith)),
        one_frame-IsIter m (at + length d) full (Walk-IsValid walk' is) (omega arith) (omega arith),
        subst (IsListing root prefix) (sym (pending-one_frame m (at + length d) full)) listing,
        one_frame-InOrder m (at + length d) full (Walk-IsValid walk' is),
      )

  Begins-none :
      (p : NodePath) (w : Option ℕ) {nl cl : ℕ} {cs : List ℕ} {ns : Nodes} (k : ℕ) (r : List ℕ)
      {n : ℕ}
      → Walk root p prefix (node w nl cl cs ns) (k ∷ r)
      → Closed w nl cl cs ns (k ∷ r) n
      → n < suc (length r)
      → Begins root prefix (returned blank)
  unfolding left_over
  Begins-none p w k r walk c less = (
    blank,
    refl,
    record { short = omega (arith, length-take (length buf) fresh); frames_good = tt },
    IsListing-none root p prefix w k r walk c less,
    tt,
  )

  -- `skit_trie_iter_new` from the result of the search on.
  abbrev pub begun : NodePath → ℕ → ℕ → Bool → List ℕ → Outcome Iter
  begun p at into stopped out =
      if no_match (coords p at into stopped) (length prefix)
      then returned blank
      else first_frame (iter_accumulate_key blank 0 (take at out)) root (coords p at into stopped)

  Begins-Closed :
      (p : NodePath) (base into : ℕ) (out : List ℕ) (w : Option ℕ) {nl cl : ℕ} {cs : List ℕ}
      {ns : Nodes} (rest : List ℕ)
      → Walk root p prefix (node w nl cl cs ns) rest
      → Closed w nl cl cs ns rest into
      → rest ≡ drop base prefix
      → base + into ≤ length prefix
      → Buffered prefix 0 (base + into) buf out
      → Begins root prefix (begun p (base + into) into true out)
  unfolding no_match first_frame skip_node target
  Begins-Closed p base into out w {nl} {cl} {cs} {ns} [] walk c e within b =
      let size_rest = ap length e ∙ length-drop base prefix in
      let all_used : ltb (base + into) (length prefix) ≡ false = ground arith in
      let nothing : into ≡ 0 = omega (arith, size_rest) in
      rw
        (
          all_used,
          first_frame_whole (iter_accumulate_key blank 0 (take (base + into) out)) root
              (node w nl cl cs ns) p (base + into) into true (node_at-Walk walk) nothing,
        )
        (Begins-whole (node w nl cl cs ns) p (base + into) out walk (omega (arith, size_rest)) b)
  Begins-Closed p base into out w {nl} {cl} {cs} {ns} (k ∷ r) walk c e within b =
      let size_rest = ap length e ∙ length-drop base prefix in
      elim (Bool-cases (ltb (base + into) (length prefix))) [
        | inl before ↦ rw before (Begins-none p w k r walk c (ground (arith, size_rest)))
        | inr used ↦
            let all_rest : into ≡ suc (length r) = ground (arith, size_rest) in
            let ends : base + into ≡ length prefix = ground (arith, size_rest) in
            rw used (inside c all_rest ends)
      ]
    where
      inside :
          Closed w nl cl cs ns (k ∷ r) into
          → into ≡ suc (length r)
          → base + into ≡ length prefix
          → Begins root prefix (
              first_frame
                (iter_accumulate_key blank 0 (take (base + into) out))
                root
                (coords p (base + into) into true))
      inside (at_leaf z m) all_rest ends = absurd (omega arith)
      inside (in_narrow one agree f) all_rest ends =
          let (len, (m, kid)) = narrow-Shape (IsValid-Shape (Walk-IsValid walk is)) one in
          let linear : ((nl == 1) && ltb 1 cl) ≡ true = ground arith in
          rw
            (
              first_frame_skip (iter_accumulate_key blank 0 (take (base + into) out)) root w m p
                  (base + into) into true (node_at-Walk walk) (omega arith) linear kid,
              all_rest,
            )
            (Begins-skip m p (base + suc (length r)) out w k r walk one (sym agree ∙ all_rest) kid
              (omega arith) (subst (λ z. Buffered prefix 0 (base + z) buf out) all_rest b))
      inside (at_end many m none_left) all_rest ends = absurd (omega arith)
      inside (no_char many few same m e' free) all_rest ends = absurd (omega arith)
      inside (no_slot many ff m e' free) all_rest ends = absurd (omega arith)

  pub Begins-Halt :
      (p : NodePath) (base into : ℕ) (stopped : Bool) (place : Node) (out : List ℕ)
      → Walk root p prefix place (drop base prefix)
      → Halt place (drop base prefix) into stopped
      → base + into ≤ length prefix
      → Buffered prefix 0 (base + into) buf out
      → Begins root prefix (begun p (base + into) into stopped out)
  unfolding no_match
  Begins-Halt p base into stopped place out walk (at_value nothing e found) within b =
      let size_rest = sym (length-drop base prefix) ∙ ap length e in
      rw
        (first_frame_whole (iter_accumulate_key blank 0 (take (base + into) out)) root place p
          (base + into) into false (node_at-Walk walk) nothing)
        (Begins-whole place p (base + into) out (subst (λ r. Walk root p prefix place r) e walk)
          (omega (arith, size_rest)) b)
  Begins-Halt p base into stopped place out walk (closed {v} c) within b =
      Begins-Closed p base into out v (drop base prefix) walk c refl within b
