-- ===== src/Runtime/Rounds/Take.antt =====
-- Which operation a round takes.
use rust_experiments.Prelude.{
  ℕ, ◌≤◌, ◌<◌, ◌≡◌, List, [], ◌∷◌, All, All-map, none, some, arith, leb, Bool-cases, Option-cases,
  inl, inr,
}
use rust_experiments.Machine.{Build}
use rust_experiments.Runtime.BinaryHeap.{BinaryHeap, TimestampedMaroonTask, same, cmp-ne-gt}
use rust_experiments.Runtime.Defs.{App, take_due}
use rust_experiments.Runtime.Live.{Live, operation, operations, Tracks}

pub same_self : (t : TimestampedMaroonTask) → same t t ≡ 1
same_self t = ground arith

-- What holds of each operation that is counted holds of each task.
All-operations :
    {b : Build} (P : ℕ → Type 0) (ls : List (Live b))
    → ((u : TimestampedMaroonTask) → 0 < operations u ls → P u.scheduled_timestamp)
    → All (λ l. P l.time) ls
All-operations P [] h = tt
All-operations P (l ∷ ls) h = (
  h (operation l) (omega (arith, same_self (operation l))),
  All-operations P ls (λ u pos. h u (omega arith)),
)

module _ (H : BinaryHeap) {b : Build} (ls : List (Live b)) (app : App H)
    (tracks : Tracks H b ls app) where
  open H use {Heap, peek, pop, occurs}

  abbrev heap : Heap
  heap = app.fsm.pending_operations

  -- Nothing is due, or the earliest operation is.
  pub data Chosen (cutoff : ℕ) : Type 0 where
    idle : take_due H cutoff heap ≡ none → All (λ l. cutoff < l.time) ls → Chosen cutoff
    due :
        (t : TimestampedMaroonTask) (rest : Heap)
        → take_due H cutoff heap ≡ some (t, rest)
        → pop heap ≡ some (t, rest)
        → t.scheduled_timestamp ≤ cutoff
        → Chosen cutoff

  pub All-earliest :
      (t : TimestampedMaroonTask) (rest : Heap)
      → pop heap ≡ some (t, rest)
      → All (λ l. t.scheduled_timestamp ≤ l.time) ls
  All-earliest t rest popped =
      All-operations (λ time. t.scheduled_timestamp ≤ time) ls
        λ u pos.
          cmp-ne-gt u t (H.pop-greatest heap rest t popped u (omega (arith, tracks.pending u)))

  -- No operation at all.
  none-idle : (cutoff : ℕ) → peek heap ≡ none → Chosen cutoff
  unfolding take_due
  none-idle cutoff e = idle (rw (e, take_due)) (
      All-operations (λ time. cutoff < time) ls
        λ u pos. absurd (omega (arith, H.peek-none heap e u, tracks.pending u)))

  -- The earliest operation is `t`.
  some-Chosen : (cutoff : ℕ) (t : TimestampedMaroonTask) → peek heap ≡ some t → Chosen cutoff
  unfolding take_due
  some-Chosen cutoff t e =
      let (rest, popped) = H.peek-some heap t e in
      elim (Bool-cases (leb t.scheduled_timestamp cutoff)) [
        | inl now ↦ due t rest (rw (e, take_due, now) popped) popped (ground arith)
        | inr later ↦
            idle (rw (e, take_due, later))
              (All-map (λ l h. ground arith) ls (All-earliest t rest popped))
      ]

  pub take_due-Chosen : (cutoff : ℕ) → Chosen cutoff
  take_due-Chosen cutoff = elim (Option-cases (peek heap)) [
    | inl e ↦ none-idle cutoff e
    | inr (t, e) ↦ some-Chosen cutoff t e
  ]
