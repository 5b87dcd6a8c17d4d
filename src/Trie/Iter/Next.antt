-- ===== src/Trie/Iter/Next.antt =====
-- `skit_trie_iter_next` (survival_kit/trie.c) lists what is left, one entry at a time.
use mathlib.Core.Path.{subst}
use c_survival_kit.Common.{
  ℕ, zero, suc, ◌≤◌, ◌<◌, ◌≡◌, refl, sym, Option, none, some, List, [], ◌∷◌, length, arith,
}
use c_survival_kit.Trie.Iter.{Frame, Iter, Pass, iter_pass, iter_next}
use c_survival_kit.Trie.Iter.Entries.{Entries}
use c_survival_kit.Trie.Iter.Pending.{IsIter, left_over, passes, pending}
use c_survival_kit.Trie.Iter.Passes.{yielded, resumed, ended, Passed, iter_at, iter_pass-Passed}

-- A call that lists: the first pending entry and the rest, or the end.
abbrev pub Lists : ℕ → Entries → Option (Iter × Option (List ℕ × ℕ)) → Type 0
Lists bound [] r = (it : Iter) × (r ≡ some (it, none))
Lists bound (e ∷ es) r =
    (it : Iter) × (r ≡ some (it, some e))
    × IsIter it
    × (pending it ≡ es)
    × (passes it.frames ≤ bound)

Lists-raise :
    (a b : ℕ) (es : Entries) (r : Option (Iter × Option (List ℕ × ℕ)))
    → a ≤ b
    → Lists a es r
    → Lists b es r
Lists-raise a b [] r h l = l
Lists-raise a b (e ∷ es) r h (it, got, is, left, le) = (it, got, is, left, omega arith)

pending_none : (fs : List Frame) (d : ℕ) (buf : List ℕ) → fs ≡ [] → pending (iter_at fs d buf) ≡ []
unfolding left_over
pending_none [] d buf e = refl
pending_none (f ∷ fs) d buf e = cc

pub iter_next-Lists :
    (k : ℕ) (it : Iter)
    → IsIter it
    → passes it.frames < k
    → Lists (passes it.frames) (pending it) (iter_next k it)
unfolding iter_next
iter_next-Lists zero it is fuel = absurd (omega arith)
iter_next-Lists (suc k) it is fuel =
    after (λ it' is' less. iter_next-Lists k it' is' less) (iter_pass it) refl
      (iter_pass-Passed it.frames it.prev_depth it.key_buffer is)
  where
    after :
        ((it' : Iter)
          → IsIter it'
          → passes it'.frames < k
          → Lists (passes it'.frames) (pending it') (iter_next k it'))
        → (r : Pass) → iter_pass it ≡ r
        → Passed it r
        → Lists (passes it.frames) (pending it) (iter_next (suc k) it)
    after rec r e (yielded it' key v listed is' same) =
        subst (λ es. Lists (passes it.frames) es (iter_next (suc k) it)) (sym listed)
          (rw (iter_next, e) (it', refl, is', refl, omega arith))
    after rec r e (resumed it' listed is' less) =
        subst (λ es. Lists (passes it.frames) es (iter_next (suc k) it)) (sym listed)
          (rw (iter_next, e)
            (Lists-raise (passes it'.frames) (passes it.frames) (pending it') (iter_next k it')
              (omega arith) (rec it' is' (omega arith))))
    after rec r e (ended none_left) =
        let listed = pending_none it.frames it.prev_depth it.key_buffer none_left in
        subst (λ es. Lists (passes it.frames) es (iter_next (suc k) it)) (sym listed)
          (rw (iter_next, e) (it, refl))

-- A caller's loop `while ( skit_trie_iter_next(iter, &key, &value) )`, of `rounds` rounds at most.
unfoldable pub list_all : (rounds fuel : ℕ) → Iter → Option Entries
unfolding iter_next
list_all zero k it = none
list_all (suc r) k it = elim (iter_next k it) [
  | none ↦ none
  | some (it', none) ↦ some []
  | some (it', some e) ↦ elim (list_all r k it') [ none ↦ none | some es ↦ some (e ∷ es) ]
]

list_all-Lists :
    (r k : ℕ) (it : Iter) (es : Entries)
    → pending it ≡ es
    → IsIter it
    → passes it.frames < k
    → length es < r
    → list_all r k it ≡ some es
unfolding list_all
list_all-Lists zero k it es listed is fuel rounds = absurd (omega arith)
list_all-Lists (suc r) k it [] listed is fuel rounds =
    let (it', got) =
      subst (λ es. Lists (passes it.frames) es (iter_next k it)) listed
        (iter_next-Lists k it is fuel) in
    rw (list_all, got)
list_all-Lists (suc r) k it (e ∷ es) listed is fuel rounds =
    let (it', got, is', left, le) =
      subst (λ es. Lists (passes it.frames) es (iter_next k it)) listed
        (iter_next-Lists k it is fuel) in
    rw (list_all, got, list_all-Lists r k it' es left is' (omega arith) (omega arith))

-- A loop of `skit_trie_iter_next` from an iterator whose frames are valid and fit its key buffer
-- ends, with no failed assertion, and lists the pending entries in their order, given more calls
-- than there are entries and more passes for each call than the frames have left.
pub list_all-pending :
    (r k : ℕ) (it : Iter)
    → IsIter it
    → passes it.frames < k
    → length (pending it) < r
    → list_all r k it ≡ some (pending it)
list_all-pending r k it is fuel rounds = list_all-Lists r k it (pending it) refl is fuel rounds
