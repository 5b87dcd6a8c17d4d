-- ===== src/Trie/Search.antt =====
-- The case-sensitive `skit_trie_find` of survival_kit/trie.c on a valid tree: the fuel is enough, no
-- assertion fails, and the coordinates say how far the key leads.
use mathlib.Core.Path.{subst}
use mathlib.Core.Option.{some-injective}
use c_survival_kit.Common.{
  ap, Option-cases, ℕ, zero, suc, ◌+◌, ◌-◌, ◌≤◌, ◌<◌, ◌^◌, ◌≡◌, refl, ◌∙◌, inl, inr, Bool, true,
  false, ◌||◌, Option, some, List, [], ◌∷◌, ◌++◌, if◌then◌else◌, arith, drop, length, drop-eq-cons,
  drop_all, Bool-cases, append_assoc, append-nil,
}
use c_survival_kit.Trie.Node.{Node, Nodes, node, have_value, child, NodePath, node_at}
use c_survival_kit.Trie.Find.{
  Coords, stop_lookup, continue_lookup, Found, sensitive, next_node, exact_match, target, find_loop,
  find, uint32,
}
use c_survival_kit.Trie.Contents
use c_survival_kit.Trie.Contents.{Walk, here, next, node_at-Walk}
use c_survival_kit.Trie.Valid.{IsValid, valid, child-IsValid}
use c_survival_kit.Trie.NextNode.{Closed, Buffered, halts, moves, next_node-Next}

-- How a search ends at the node `m`, with `rest` of the key left and `n` characters of it matched
-- inside the node.
pub data Halt : Node → List ℕ → ℕ → Bool → Type 0 where
  at_value :
      {m : Node} {rest : List ℕ} {n : ℕ}
      → n ≡ 0
      → rest ≡ []
      → have_value m ≡ true
      → Halt m rest n false
  closed :
      {v : Option ℕ} {nl cl : ℕ} {cs : List ℕ} {ns : Nodes} {rest : List ℕ} {n : ℕ}
      → Closed v nl cl cs ns rest n
      → Halt (node v nl cl cs ns) rest n true

abbrev pub coords : NodePath → ℕ → ℕ → Bool → Coords
coords p pos n stopped = record {
  node = some p;
  pos = pos;
  n_chars_into_node = n;
  lookup_stopped = stopped;
}

-- From the node at `p`, where `base` characters are behind, the search has gone on along `path`.
pub record Ended (n : Node) (p : NodePath) (key : List ℕ) (start : ℕ) (buf : List ℕ) (r : Found)
    : Type 0 where
  pub path : NodePath
  pub place : Node
  pub base : ℕ
  pub into : ℕ
  pub stopped : Bool
  pub out : List ℕ
  pub result : r ≡ some (coords (p ++ path) (base + into) into stopped, out)
  pub walk : Walk n path (drop start key) place (drop base key)
  pub halt : Halt place (drop base key) into stopped
  pub forth : start ≤ base
  pub within : base + into ≤ length key
  pub buffered : Buffered key start (base + into) buf out

node_at-append :
    (root : Node) (p q : NodePath) {n : Node}
    → node_at root p ≡ some n
    → node_at root (p ++ q) ≡ node_at n q
unfolding node_at
node_at-append root [] q e = ap (λ m. node_at m q) (some-injective _ _ e)
node_at-append (node v nl cl cs ns) (i ∷ p) q {n} e = elim (Option-cases (child ns i)) [
  | inl absent ↦ ground arith
  | inr (kid, at) ↦ ground (arith, node_at-append kid p q {n = n})
]

one_down :
    (v : Option ℕ) (nl cl : ℕ) (cs : List ℕ) (ns : Nodes) (i : ℕ) {kid : Node}
    → child ns i ≡ some kid
    → node_at (node v nl cl cs ns) (i ∷ []) ≡ some kid
unfolding node_at
one_down v nl cl cs ns i c = rw (c, node_at)

pub Buffered-trans :
    {key buf buf' buf'' : List ℕ} {a b c : ℕ}
    → Buffered key a b buf buf'
    → Buffered key b c buf' buf''
    → Buffered key a c buf buf''
Buffered-trans f g = record {
  same_length = g.same_length ∙ f.same_length;
  spells = λ long s. g.spells (omega (arith, f.same_length)) (f.spells long s);
}

next-Walk :
    {v : Option ℕ} {nl cl : ℕ} {cs : List ℕ} {ns : Nodes} {i : ℕ} {kid m : Node} {p : NodePath}
    {rest : List ℕ} (key : List ℕ) (pos end : ℕ)
    → pos < end
    → end ≤ length key
    → Contents.route nl cl cs (drop pos key) ≡ some (i, drop end key)
    → child ns i ≡ some kid
    → Walk kid p (drop end key) m rest
    → Walk (node v nl cl cs ns) (i ∷ p) (drop pos key) m rest
next-Walk key pos end lt le r c w =
    let front = drop-eq-cons pos key 0 (omega arith) in rw front (next (rw front at r) c w)

uint32_small : (n : ℕ) → n < 2 ^ 32 → uint32 n ≡ n
unfolding uint32
uint32_small n h = ground arith

stop_lookup-coords :
    (p : NodePath) (pos n : ℕ) → pos < 2 ^ 32 → stop_lookup (some p) pos n ≡ coords p pos n true
stop_lookup-coords p pos n h = rw (uint32_small pos h) refl

continue_lookup-coords :
    (p : NodePath) (pos : ℕ) → pos < 2 ^ 32 → continue_lookup p pos ≡ coords p pos 0 false
continue_lookup-coords p pos h = rw (uint32_small pos h) refl

replaced : {r : Found} {a b : Coords} {out : List ℕ} → r ≡ some (a, out) → a ≡ b → r ≡ some (b, out)
replaced {out} e same = e ∙ ap (λ (c : Coords). some (c, out)) same

module _ (root : Node) (key : List ℕ) (short : length key < 2 ^ 32) where
  find_loop_step :
      (fuel : ℕ) (p : NodePath) (n : Node) (pos : ℕ) (buf : List ℕ) {buf' : List ℕ} {c : Coords}
      → node_at root p ≡ some n
      → next_node sensitive n p key pos buf ≡ some (c, buf')
      → find_loop (suc fuel) root key (coords p pos 0 false) buf ≡ (
          if c.lookup_stopped || exact_match root c (length key)
          then some (c, buf')
          else find_loop fuel root key c buf')
  unfolding find_loop
  find_loop_step fuel p n pos buf at step = rw (at, step, find_loop)

  -- An exact match at a child is a value there, with nothing left of the key.
  hit_value :
      (p : NodePath) (n : Node) (i : ℕ) (kid : Node) (end : ℕ)
      → node_at root p ≡ some n
      → node_at n (i ∷ []) ≡ some kid
      → exact_match root (coords (p ++ (i ∷ [])) end 0 false) (length key) ≡ true
      → Halt kid (drop end key) 0 false
  unfolding exact_match target
  hit_value p n i kid end at down hit =
      let there : node_at root (p ++ (i ∷ [])) ≡ some kid =
        node_at-append root p (i ∷ []) at ∙ down in
      at_value refl (drop_all end key (ground arith)) (ground (arith, there))

  find_loop-Ended :
      (fuel : ℕ) (p : NodePath) (n : Node) (pos : ℕ) (buf : List ℕ)
      → node_at root p ≡ some n
      → IsValid n
      → pos ≤ length key
      → length key - pos < fuel
      → Ended n p key pos buf (find_loop fuel root key (coords p pos 0 false) buf)
  find_loop-Ended zero p n pos buf at v h enough = absurd (omega arith)
  find_loop-Ended (suc fuel) p n pos buf at (valid {v} {nl} {cl} {cs} {ns} s vs) h enough =
      elim (next_node-Next key pos buf p v nl cl cs ns s h) [
        | halts into out e c le b ↦ record {
          path = [];
          place = node v nl cl cs ns;
          base = pos;
          into = into;
          stopped = true;
          out = out;
          result =
              find_loop_step fuel p (node v nl cl cs ns) pos buf at
                (replaced e (stop_lookup-coords p (pos + into) into (omega arith)))
              ∙ rw append-nil;
          walk = here;
          halt = closed c;
          forth = omega arith;
          within = le;
          buffered = b;
        }
        | moves i end kid out e r c lt le b ↦
            elim (Bool-cases (exact_match root (coords (p ++ (i ∷ [])) end 0 false) (length key))) [
              | inl hit ↦ record {
                path = i ∷ [];
                place = kid;
                base = end;
                into = 0;
                stopped = false;
                out = out;
                result =
                    find_loop_step fuel p (node v nl cl cs ns) pos buf at
                      (replaced e (continue_lookup-coords (p ++ (i ∷ [])) end (omega arith)))
                    ∙ rw hit (ground arith);
                walk = next-Walk key pos end lt le r c here;
                halt =
                    hit_value p (node v nl cl cs ns) i kid end at (one_down v nl cl cs ns i c) hit;
                forth = omega arith;
                within = omega arith;
                buffered = subst (λ z. Buffered key pos z buf out) (omega arith) b;
              }
              | inr miss ↦
                  let at_kid : node_at root (p ++ (i ∷ [])) ≡ some kid =
                    node_at-append root p (i ∷ []) at ∙ one_down v nl cl cs ns i c in
                  let later =
                    find_loop-Ended fuel (p ++ (i ∷ [])) kid end out at_kid (child-IsValid i vs c)
                      le (omega arith) in
                  record {
                    path = i ∷ later.path;
                    place = later.place;
                    base = later.base;
                    into = later.into;
                    stopped = later.stopped;
                    out = later.out;
                    result =
                        find_loop_step fuel p (node v nl cl cs ns) pos buf at
                          (replaced e (continue_lookup-coords (p ++ (i ∷ [])) end (omega arith)))
                        ∙ rw miss (later.result ∙ rw append_assoc);
                    walk = next-Walk key pos end lt le r c later.walk;
                    halt = later.halt;
                    forth = omega (arith, later.forth);
                    within = later.within;
                    buffered = Buffered-trans b later.buffered;
                  }
            ]
      ]

-- The case-sensitive `skit_trie_find` ends within its fuel on a valid tree and a key of fewer
-- than 2^32 characters, with no failed assertion and no dead pointer. The coordinates that it
-- returns are those of a node to which the key leads, either a node with a value at the end of
-- the key, or one at which the rest of the key leads no further; the returned-key buffer keeps
-- its length, and if it has room for the key it spells the key up to there.
pub find-Ended :
    (root : Node) (key buf : List ℕ)
    → length key < 2 ^ 32
    → IsValid root
    → Ended root [] key 0 buf (find (some root) key true buf)
unfolding find node_at uint32
find-Ended root key buf short v =
    find_loop-Ended root key short (length key + 2) [] root 0 buf refl v (omega arith) (omega arith)
