-- ===== src/Runtime/BinaryHeap/Defs.antt =====
-- step11_ws_state_machine/code/src/main.rs: the entries of the queue of pending operations and
-- their order, and what the program relies on of `std::collections::BinaryHeap`. That type leaves
-- open which of several greatest entries it takes first, and so does the interface.

use Prim.Native.Nat.{compare, Ordering}
use rust_experiments.Prelude.{
  ℕ, ◌+◌, ◌≤◌, ◌<◌, ◌≡◌, ◌≢◌, ◌&&◌, ◌==◌, if◌then◌else◌, Option, none, some, arith,
}
use rust_experiments.Maroon.Types.{LogicalTimeAbsoluteMs, MaroonTaskId}

pub record TimestampedMaroonTask : Type 0 where
  pub scheduled_timestamp : LogicalTimeAbsoluteMs
  pub task_id : MaroonTaskId

-- `impl Ord`: the timestamps, the other way round.
abbrev pub cmp : TimestampedMaroonTask → TimestampedMaroonTask → Ordering
cmp self other = compare other.scheduled_timestamp self.scheduled_timestamp

-- One if two entries are the same, in both fields, and zero if not.
abbrev pub same : TimestampedMaroonTask → TimestampedMaroonTask → ℕ
same t u = if t.scheduled_timestamp == u.scheduled_timestamp && t.task_id == u.task_id then 1 else 0

pub record BinaryHeap : Type 1 where
  pub Heap : Type 0
  pub new : Heap
  pub push : Heap → TimestampedMaroonTask → Heap
  pub peek : Heap → Option TimestampedMaroonTask
  pub pop : Heap → Option (TimestampedMaroonTask × Heap)
  -- How often the heap holds an entry.
  pub occurs : TimestampedMaroonTask → Heap → ℕ
  pub occurs-new : (u : TimestampedMaroonTask) → occurs u new ≡ 0
  pub occurs-push :
      (h : Heap) (t u : TimestampedMaroonTask) → occurs u (push h t) ≡ same u t + occurs u h
  pub peek-none : (h : Heap) → peek h ≡ none → (u : TimestampedMaroonTask) → occurs u h ≡ 0
  pub peek-some :
      (h : Heap) (t : TimestampedMaroonTask)
      → peek h ≡ some t
      → (rest : Heap) × (pop h ≡ some (t, rest))
  pub occurs-pop :
      (h rest : Heap) (t : TimestampedMaroonTask)
      → pop h ≡ some (t, rest)
      → (u : TimestampedMaroonTask) → occurs u h ≡ same u t + occurs u rest
  pub pop-greatest :
      (h rest : Heap) (t : TimestampedMaroonTask)
      → pop h ≡ some (t, rest)
      → (u : TimestampedMaroonTask) → 0 < occurs u h
      → cmp u t ≢ Ordering.gt

-- The greatest entry is the earliest.
pub cmp-ne-gt :
    (u t : TimestampedMaroonTask)
    → cmp u t ≢ Ordering.gt
    → t.scheduled_timestamp ≤ u.scheduled_timestamp
cmp-ne-gt u t h = ground arith
