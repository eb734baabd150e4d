-- ===== src/Runtime/BinaryHeap/ListHeap.antt =====
-- A list that meets the interface of the heap, and runs: the last pushed of several earliest
-- entries is taken first.
use Prim.Native.Nat.{Ordering}
use rust_experiments.Prelude.{
  ℕ, ◌+◌, ◌≤◌, ◌<◌, ◌≡◌, ◌≢◌, leb, if◌then◌else◌, Option, none, some, arith, List, [], ◌∷◌, refl,
  Bool-cases, inl, inr,
}
use rust_experiments.Runtime.BinaryHeap.Defs.{TimestampedMaroonTask, cmp, same, BinaryHeap}

abbrev pub Entries : Type 0
Entries = List TimestampedMaroonTask

-- `found` is what the rest of the list gives.
choose :
    TimestampedMaroonTask
    → Entries
    → Option (TimestampedMaroonTask × Entries)
    → Option (TimestampedMaroonTask × Entries)
choose t ts none = some (t, [])
choose t ts (some (u, rest)) =
    if leb t.scheduled_timestamp u.scheduled_timestamp then some (t, ts) else some (u, t ∷ rest)

unfoldable pub pop_entry : Entries → Option (TimestampedMaroonTask × Entries)
unfolding choose
pop_entry [] = none
pop_entry (t ∷ ts) = choose t ts (pop_entry ts)

unfoldable pub peek_entry : Entries → Option TimestampedMaroonTask
unfolding pop_entry
peek_entry ts = elim (pop_entry ts) [ none ↦ none | some (t, rest) ↦ some t ]

unfoldable pub occurrences : TimestampedMaroonTask → Entries → ℕ
occurrences u [] = 0
occurrences u (t ∷ ts) = same u t + occurrences u ts

-- The two cases of `pop_entry`, with all that is said of the second.
pub data Popped (ts : Entries) (r : Option (TimestampedMaroonTask × Entries)) : Type 0 where
  nothing : ts ≡ [] → r ≡ none → Popped ts r
  first :
      (t : TimestampedMaroonTask) (rest : Entries)
      → r ≡ some (t, rest)
      → ((u : TimestampedMaroonTask) → occurrences u ts ≡ same u t + occurrences u rest)
      → ((u : TimestampedMaroonTask)
          → 0 < occurrences u ts
          → t.scheduled_timestamp ≤ u.scheduled_timestamp)
      → Popped ts r

same-time :
    (u t : TimestampedMaroonTask) → 0 < same u t → u.scheduled_timestamp ≡ t.scheduled_timestamp
same-time u t h = ground arith

choose-Popped :
    (t : TimestampedMaroonTask) (ts : Entries) (r : Option (TimestampedMaroonTask × Entries))
    → Popped ts r
    → Popped (t ∷ ts) (choose t ts r)
unfolding choose occurrences
choose-Popped t ts r (nothing e e') =
    rw (e, e') (first t [] refl (λ u. refl) (λ u pos. ground (arith, same-time u t)))
choose-Popped t ts r (first v rest e counts least) =
    rw e (elim (Bool-cases (leb t.scheduled_timestamp v.scheduled_timestamp)) [
      | inl before ↦
          rw before (first t ts refl (λ u. refl) (λ u pos. ground (arith, same-time u t, least u)))
      | inr after ↦ rw after (
          first v (t ∷ rest) refl (λ u. omega (arith, counts u))
            (λ u pos. ground (arith, same-time u t, least u)))
    ])

pub pop_entry-Popped : (ts : Entries) → Popped ts (pop_entry ts)
unfolding pop_entry
pop_entry-Popped [] = nothing refl refl
pop_entry-Popped (t ∷ ts) = choose-Popped t ts (pop_entry ts) (pop_entry-Popped ts)

module _ (ts : Entries) where
  pub peek_none_lem :
      (r : Option (TimestampedMaroonTask × Entries))
      → pop_entry ts ≡ r
      → Popped ts r
      → peek_entry ts ≡ none
      → (u : TimestampedMaroonTask) → occurrences u ts ≡ 0
  unfolding peek_entry occurrences
  peek_none_lem r popped (nothing e e') h u = rw e
  peek_none_lem r popped (first t rest e counts least) h u = ground arith

  pub peek_some_at :
      (t : TimestampedMaroonTask) (r : Option (TimestampedMaroonTask × Entries))
      → pop_entry ts ≡ r
      → peek_entry ts ≡ some t
      → (rest : Entries) × (pop_entry ts ≡ some (t, rest))
  unfolding peek_entry
  peek_some_at t none e h = absurd (ground arith)
  peek_some_at t (some (v, rest)) e h = (rest, ground arith)

  pub occurrences-pop :
      (rest : Entries) (t : TimestampedMaroonTask) (r : Option (TimestampedMaroonTask × Entries))
      → r ≡ some (t, rest)
      → Popped ts r
      → (u : TimestampedMaroonTask) → occurrences u ts ≡ same u t + occurrences u rest
  occurrences-pop rest t r h (nothing e e') u = cc
  occurrences-pop rest t r h (first v rest' e counts least) u = ground (arith, counts u)

  pub pop_greatest_lem :
      (rest : Entries) (t : TimestampedMaroonTask) (r : Option (TimestampedMaroonTask × Entries))
      → r ≡ some (t, rest)
      → Popped ts r
      → (u : TimestampedMaroonTask) → 0 < occurrences u ts
      → cmp u t ≢ Ordering.gt
  pop_greatest_lem rest t r h (nothing e e') u pos = cc
  pop_greatest_lem rest t r h (first v rest' e counts least) u pos = ground (arith, least u pos)

pub occurs_new_lem : (u : TimestampedMaroonTask) → occurrences u [] ≡ 0
unfolding occurrences
occurs_new_lem u = refl

pub occurs_push_lem :
    (ts : Entries) (t u : TimestampedMaroonTask)
    → occurrences u (t ∷ ts) ≡ same u t + occurrences u ts
unfolding occurrences
occurs_push_lem ts t u = refl

abbrev pub list_heap : BinaryHeap
list_heap = record {
  Heap = Entries;
  new = [];
  push = λ ts t. t ∷ ts;
  peek = peek_entry;
  pop = pop_entry;
  occurs = occurrences;
  occurs-new = occurs_new_lem;
  occurs-push = occurs_push_lem;
  peek-none = λ ts. peek_none_lem ts (pop_entry ts) refl (pop_entry-Popped ts);
  peek-some = λ ts t. peek_some_at ts t (pop_entry ts) refl;
  occurs-pop = λ ts rest t h. occurrences-pop ts rest t (pop_entry ts) h (pop_entry-Popped ts);
  pop-greatest = λ ts rest t h. pop_greatest_lem ts rest t (pop_entry ts) h (pop_entry-Popped ts);
}
