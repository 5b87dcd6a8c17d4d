-- ===== src/Trie/Iter/Start.antt =====
-- The first frame of `skit_trie_iter_new` (survival_kit/trie.c).
use mathlib.Core.Path.{subst}
use c_survival_kit.Common.{
  ℕ, ◌+◌, ◌≤◌, ◌<◌, ◌^◌, ◌≡◌, refl, sym, ap, ◌∙◌, inl, Bool, true, false, ◌&&◌, Option, some, List,
  [], ◌∷◌, ◌++◌, ltb, ◌==◌, length, take, drop, arith, append-nil,
}
use c_survival_kit.Trie.Node.{Node, Nodes, node, child, NodePath, node_at, value}
use c_survival_kit.Trie.Find.{target}
use c_survival_kit.Trie.Valid.{IsValid}
use c_survival_kit.Trie.Search.{coords}
use c_survival_kit.Trie.Iter.{Iter, iter_push, iter_accumulate_key, first_frame, skip_node}
use c_survival_kit.Trie.Iter.Entries.{
  add_prefix, height, entries, entries_from, entries-own, height-from,
}
use c_survival_kit.Trie.Api.{returned}
use c_survival_kit.Trie.Iter.Pending.{left_over, own_entry, add_prefix-own, IsIter, pending}
use c_survival_kit.Trie.Iter.Order.{InOrder, InOrder-add_prefix, entries-InOrder}

abbrev pub one_frame : Node → ℕ → List ℕ → Iter
one_frame m at buf = record {
  frames = record { node = m; pos = at; current_char = 0 } ∷ [];
  prev_depth = 0;
  key_buffer = buf;
}

pub pending-one_frame :
    (m : Node) (at : ℕ) (buf : List ℕ)
    → pending (one_frame m at buf) ≡ add_prefix (take at buf) (entries m)
unfolding left_over
pending-one_frame m at buf =
    ap (λ z. own_entry at buf (value m) ++ z)
      (append-nil (add_prefix (take at buf) (entries_from m 0)))
    ∙ sym (add_prefix-own at buf (value m) (entries_from m 0))
    ∙ ap (add_prefix (take at buf)) (sym (entries-own m))

pub one_frame-IsIter :
    (m : Node) (at : ℕ) (buf : List ℕ)
    → IsValid m
    → at + height m ≤ length buf
    → length buf < 2 ^ 32
    → IsIter (one_frame m at buf)
one_frame-IsIter m at buf is fits short = record {
  short = short;
  frames_good = (
    omega arith,
    record {
      is_valid = is;
      char_within = omega arith;
      fits = omega (arith, height-from m);
      phase = λ l. inl refl;
    },
    tt,
  );
}

pub first_frame_whole :
    (it : Iter) (root m : Node) (p : NodePath) (at into : ℕ) (stopped : Bool)
    → node_at root p ≡ some m
    → into ≡ 0
    → first_frame it root (coords p at into stopped) ≡ returned (iter_push it m at)
unfolding first_frame target
first_frame_whole it root m p at into stopped there nothing =
    let whole : ltb 0 into ≡ false = ground arith in rw (first_frame, there, whole)

pub first_frame_skip :
    (it : Iter) (root : Node) (w : Option ℕ) {nl cl : ℕ} {cs : List ℕ} {ns : Nodes} (m : Node)
    (p : NodePath) (at into : ℕ) (stopped : Bool)
    → node_at root p ≡ some (node w nl cl cs ns)
    → 0 < into
    → ((nl == 1) && ltb 1 cl) ≡ true
    → child ns 0 ≡ some m
    → first_frame it root (coords p at into stopped)
      ≡ returned
          (iter_push (iter_accumulate_key it at (drop into cs)) m (at + length (drop into cs)))
unfolding first_frame target skip_node
first_frame_skip it root w m p at into stopped there inside linear kid =
    let part : ltb 0 into ≡ true = ground arith in
    rw (first_frame, there, part, skip_node, linear, kid)

pub one_frame-InOrder :
    (m : Node) (at : ℕ) (buf : List ℕ) → IsValid m → InOrder (pending (one_frame m at buf))
one_frame-InOrder m at buf is =
    subst InOrder (sym (pending-one_frame m at buf))
      (InOrder-add_prefix (take at buf) (entries m) (entries-InOrder m is))
