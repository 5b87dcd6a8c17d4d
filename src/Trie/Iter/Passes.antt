-- ===== src/Trie/Iter/Passes.antt =====
-- One pass of the loop in `skit_trie_iter_next` (survival_kit/trie.c).
use mathlib.Core.Path.{subst}
use c_survival_kit.Common.{
  ℕ, suc, ◌+◌, ◌≤◌, ◌<◌, ◌^◌, ◌≡◌, refl, sym, ap, ◌∙◌, inl, inr, true, false, Option, List, [], ◌∷◌,
  ◌++◌, ltb, length, take, arith, append_assoc, Bool-cases, Option-cases, ap₂,
}
use c_survival_kit.Trie.Node.{Node, Nodes, node, value}
use c_survival_kit.Trie.Find.{accumulate_key, uint32}
use c_survival_kit.Trie.Valid.{IsValid, AreValid, Shape, valid, child-IsValid}
use c_survival_kit.Trie.Shared.{length-accumulate_key}
use c_survival_kit.Trie.Iter.{
  Frame, Iter, Pass, yields, resumes, ends, iter_push, iter_pop, iter_accumulate_key, descend,
  leave_or_visit, enter, iter_pass,
}
use c_survival_kit.Trie.Iter.Entries.{
  Entries, add_prefix, edges, gather, entries, entries_at, entries_from, work_from, height,
  height_from, total, longest, work_at, height_at, entries_at-child, work_at-child, height_at-child,
  entries-own, work-from, height-from, char_edges,
}
use c_survival_kit.Trie.Iter.Scan.{Visited, stay, down, visit-Visited}
use c_survival_kit.Trie.Iter.Pending.{
  AreFrames, IsIter, add_prefix-add_prefix, add_prefix-append, add_prefix-own, entry_of, is_linear,
  label_added, left_over, left_over_same, own_entry, passes, pending, take-accumulate_key,
}

-- What a pass does to what is pending.
pub data Passed (it : Iter) : Pass → Type 0 where
  yielded :
      (it' : Iter) (key : List ℕ) (v : ℕ)
      → pending it ≡ (key, v) ∷ pending it'
      → IsIter it'
      → passes it'.frames ≡ passes it.frames
      → Passed it (yields it' key v)
  resumed :
      (it' : Iter)
      → pending it ≡ pending it'
      → IsIter it'
      → passes it'.frames < passes it.frames
      → Passed it (resumes it')
  ended : it.frames ≡ [] → Passed it (ends it)

abbrev pub iter_at : List Frame → ℕ → List ℕ → Iter
iter_at fs d buf = record { frames = fs; prev_depth = d; key_buffer = buf }

abbrev frame_at : Node → ℕ → ℕ → Frame
frame_at n at c = record { node = n; pos = at; current_char = c }

entry_of_left : (buf : List ℕ) (fs : List Frame) → entry_of false buf fs ≡ []
entry_of_left buf [] = refl
entry_of_left buf (f ∷ fs) = refl

AreFrames-raise :
    (room top top' : ℕ) (fs : List Frame)
    → top ≤ top'
    → AreFrames room top fs
    → AreFrames room top' fs
AreFrames-raise room top top' [] h good = tt
AreFrames-raise room top top' (f ∷ fs) h (le, good, rest) = (omega arith, good, rest)

entries_from_end : (n : Node) → entries_from n 256 ≡ []
unfolding entries_from edges gather char_edges
entries_from_end (node v nl cl cs ns) = elim (Bool-cases (is_linear (node v nl cl cs ns))) [
  | inl linear ↦ rw linear
  | inr many ↦ rw many
]

work_from_some : (n : Node) (c : ℕ) → c ≤ 256 → 0 < work_from n c
unfolding work_from
work_from_some (node v nl cl cs ns) c h = omega arith

pub kids_valid :
    {v : Option ℕ} {nl cl : ℕ} {cs : List ℕ} {ns : Nodes}
    → IsValid (node v nl cl cs ns)
    → AreValid ns
kids_valid (valid s ks) = ks

pub IsValid-Shape :
    {v : Option ℕ} {nl cl : ℕ} {cs : List ℕ} {ns : Nodes}
    → IsValid (node v nl cl cs ns)
    → Shape nl cl cs ns
IsValid-Shape (valid s ks) = s

pub uint32_small : (n : ℕ) → n < 2 ^ 32 → uint32 n ≡ n
unfolding uint32
uint32_small n h = omega arith

-- The entries in front of a step down, and those behind it.
down_pending :
    {own_part : Entries} (at : ℕ) (label buf : List ℕ) (fs : List Frame) (m : Node) {all : Entries}
    (rest_of : Entries) (room : ℕ)
    → all ≡ add_prefix label (entries m) ++ rest_of
    → at + length label ≤ length buf
    → AreFrames room at fs
    → own_part ≡ []
    → own_part ++ (add_prefix (take at buf) all ++ left_over buf fs)
      ≡ own_entry (at + length label) (accumulate_key buf at label) (value m)
        ++ (add_prefix (take (at + length label) (accumulate_key buf at label)) (entries_from m 0)
            ++ (add_prefix (take at (accumulate_key buf at label)) rest_of
                ++ left_over (accumulate_key buf at label) fs))
down_pending at label buf fs m rest_of room e fits good no_own =
    let buf' = accumulate_key buf at label in
    let p = at + length label in
    let lower : take at buf' ≡ take at buf = take-accumulate_key buf at at label (omega arith) in
    let child_part : own_entry p buf' (value m) ++ add_prefix (take p buf') (entries_from m 0)
        ≡ add_prefix (take at buf ++ label) (entries m) =
      sym (add_prefix-own p buf' (value m) (entries_from m 0))
      ∙ ap₂ add_prefix (label_added buf at label fits) (sym (entries-own m)) in
    rw
      (
        no_own,
        e,
        lower,
        left_over_same room at buf' buf fs good lower,
        add_prefix-append,
        add_prefix-add_prefix,
        ← child_part,
      )
      (append_assoc (own_entry p buf' (value m) ++ add_prefix (take p buf') (entries_from m 0))
          (add_prefix (take at buf) rest_of) (left_over buf fs)
        ∙ append_assoc (own_entry p buf' (value m)) (add_prefix (take p buf') (entries_from m 0))
            (add_prefix (take at buf) rest_of ++ left_over buf fs))

pop-Passed :
    (f : Frame) (fs : List Frame) (d : ℕ) (buf : List ℕ)
    → IsIter (iter_at (f ∷ fs) d buf)
    → entry_of (ltb d (length (f ∷ fs))) buf (f ∷ fs) ≡ []
    → f.current_char ≡ 256
    → Passed (iter_at (f ∷ fs) d buf) (resumes (iter_pop (iter_at (f ∷ fs) d buf)))
unfolding iter_pop left_over passes add_prefix
pop-Passed f fs d buf is no_entry done =
    let (le, good, rest) = is.frames_good in
    let gone : entries_from f.node f.current_char ≡ [] = rw done (entries_from_end f.node) in
    let left : ltb (suc (length fs)) (length fs) ≡ false = ground arith in
    resumed (iter_at fs (suc (length fs)) buf)
      (rw (no_entry, gone, left, entry_of_left buf fs, add_prefix))
      (record {
        short = is.short;
        frames_good = AreFrames-raise (length buf) f.pos (length buf) fs le rest;
      })
      (omega (arith, work_from_some f.node f.current_char good.char_within))

module _ (v : Option ℕ) {nl cl : ℕ} {cs : List ℕ} {ns : Nodes} (at cur d : ℕ) (buf : List ℕ)
    (fs : List Frame) where
  visit-Passed :
      IsIter (iter_at (frame_at (node v nl cl cs ns) at cur ∷ fs) d buf)
      → entry_of (ltb d (suc (length fs))) buf (frame_at (node v nl cl cs ns) at cur ∷ fs) ≡ []
      → {r : Pass}
      → Visited
          (iter_at (frame_at (node v nl cl cs ns) at cur ∷ fs) d buf)
          (frame_at (node v nl cl cs ns) at cur)
          fs
          nl
          cl
          cs
          ns
          r
      → Passed (iter_at (frame_at (node v nl cl cs ns) at cur ∷ fs) d buf) r
  unfolding left_over passes entries_from work_from height_from descend iter_push
      iter_accumulate_key gather total longest
  visit-Passed is no_entry (stay next lo hi linear same) =
      let (le, good, rest) = is.frames_good in
      resumed (iter_at (frame_at (node v nl cl cs ns) at next ∷ fs) d buf) (rw same)
        (record {
          short = is.short;
          frames_good = (
            le,
            record {
              is_valid = good.is_valid;
              char_within = hi;
              fits = omega (arith, good.fits, ap (longest (height_at ns)) same);
              phase = λ l. absurd (linear l);
            },
            rest,
          );
        })
        (omega (arith, ap (total (work_at ns)) same))
  visit-Passed is no_entry (down next label i m lo hi linear split kid long) =
      let (le, good, rest) = is.frames_good in
      let reach : at + (length label + height m) ≤ length buf =
        omega (arith, good.fits, ap (longest (height_at ns)) split, height_at-child ns i kid) in
      let reach_rest : at + longest (height_at ns) (edges nl cl cs ns next) ≤ length buf =
        omega (arith, good.fits, ap (longest (height_at ns)) split) in
      let pos_of : uint32 (at + length label) ≡ at + length label =
        uint32_small (at + length label) (omega (arith, is.short)) in
      let buf' = accumulate_key buf at label in
      let entering : ltb (suc (length fs)) (suc (suc (length fs))) ≡ true = ground arith in
      let room : length buf' ≡ length buf = length-accumulate_key buf at label in
      rw (descend, pos_of)
        (resumed
          (iter_at (frame_at m (at + length label) 0 ∷ frame_at (node v nl cl cs ns) at next ∷ fs)
            (suc (length fs)) buf')
          (rw entering (
            down_pending at label buf fs m (gather (entries_at ns) (edges nl cl cs ns next))
              (length buf)
              (ap (gather (entries_at ns)) split
                ∙ ap (λ es. add_prefix label es ++ gather (entries_at ns) (edges nl cl cs ns next))
                    (entries_at-child ns i kid))
              (omega arith) rest no_entry))
          (record {
            short = omega (arith, is.short);
            frames_good =
                subst
                  (λ r.
                    AreFrames r r (
                      frame_at m (at + length label) 0
                      ∷ frame_at (node v nl cl cs ns) at next
                      ∷ fs))
                  (sym room)
                  (
                    omega arith,
                    record {
                      is_valid = child-IsValid i (kids_valid good.is_valid) kid;
                      char_within = omega arith;
                      fits = omega (arith, height-from m);
                      phase = λ l. inl refl;
                    },
                    (
                      omega arith,
                      record {
                        is_valid = good.is_valid;
                        char_within = hi;
                        fits = reach_rest;
                        phase = λ l. inr (linear l);
                      },
                      rest,
                    ),
                  );
          })
          (omega (arith, ap (total (work_at ns)) split, work_at-child ns i kid, work-from m)))

leave_or_visit-Passed :
    (n : Node) (at cur d : ℕ) (buf : List ℕ) (fs : List Frame)
    → IsIter (iter_at (frame_at n at cur ∷ fs) d buf)
    → entry_of (ltb d (suc (length fs))) buf (frame_at n at cur ∷ fs) ≡ []
    → Passed
        (iter_at (frame_at n at cur ∷ fs) d buf)
        (leave_or_visit (iter_at (frame_at n at cur ∷ fs) d buf) (frame_at n at cur) fs)
unfolding leave_or_visit
leave_or_visit-Passed (node v nl cl cs ns) at cur d buf fs is no_entry =
    let (le, good, rest) = is.frames_good in
    elim (Bool-cases (ltb 255 cur)) [
      | inl exhausted ↦
          let within : cur ≤ 256 = good.char_within in
          rw exhausted
            (pop-Passed (frame_at (node v nl cl cs ns) at cur) fs d buf is no_entry (ground arith))
      | inr more ↦
          let start : is_linear (node v nl cl cs ns) ≡ true → cur ≡ 0 =
            λ linear. ground (arith, good.phase linear) in
          rw more (
            visit-Passed v at cur d buf fs is no_entry (
              visit-Visited (iter_at (frame_at (node v nl cl cs ns) at cur ∷ fs) d buf)
                (frame_at (node v nl cl cs ns) at cur) fs v (IsValid-Shape good.is_valid)
                (ground arith) start))
    ]

enter-Passed :
    (f : Frame) (d : ℕ) (buf : List ℕ) (fs : List Frame)
    → IsIter (iter_at (f ∷ fs) d buf)
    → Passed (iter_at (f ∷ fs) d buf) (enter (iter_at (f ∷ fs) d buf) f fs)
unfolding enter
enter-Passed f d buf fs is = elim (Bool-cases (ltb d (suc (length fs)))) [
  | inl entering ↦ elim (Option-cases (value f.node)) [
    | inl nothing ↦
        rw (entering, nothing)
          (leave_or_visit-Passed f.node f.pos f.current_char d buf fs is (rw (entering, nothing)))
    | inr (v, found) ↦
        let left : ltb (suc (length fs)) (suc (length fs)) ≡ false = ground arith in
        rw (entering, found)
          (yielded (iter_at (f ∷ fs) (suc (length fs)) buf) (take f.pos buf) v
            (rw (entering, found, left)) (record { short = is.short; frames_good = is.frames_good })
            refl)
  ]
  | inr again ↦ rw again (leave_or_visit-Passed f.node f.pos f.current_char d buf fs is (rw again))
]

pub iter_pass-Passed :
    (fs : List Frame) (d : ℕ) (buf : List ℕ)
    → IsIter (iter_at fs d buf)
    → Passed (iter_at fs d buf) (iter_pass (iter_at fs d buf))
unfolding iter_pass
iter_pass-Passed [] d buf is = ended refl
iter_pass-Passed (f ∷ fs) d buf is = enter-Passed f d buf fs is
