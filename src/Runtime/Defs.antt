-- ===== src/Runtime/Defs.antt =====
-- step11_ws_state_machine/code/src/main.rs: the runtime's state, `schedule`, and
-- `execute_pending_operations_inner`. Each round of its loop holds the lock on the runtime, so a
-- round is one step of the whole program, as `schedule` is.
use rust_experiments.Prelude.{
  ℕ, zero, suc, List, [], ◌∷◌, ◌++◌, Option, none, some, String, leb, ◌==◌, if◌then◌else◌,
}
use rust_experiments.Machine.{Build, Outcome, ok, panic, ◌>>=◌, add64, task_not_found}
use rust_experiments.Maroon.Types.{LogicalTimeAbsoluteMs, MaroonTaskId}
use rust_experiments.Maroon.TaskStep.{MaroonTask, StepEffect, finished, rescheduled, task_step}
use rust_experiments.Maroon.Runs.{Line, line}
use rust_experiments.Runtime.BinaryHeap.{BinaryHeap, TimestampedMaroonTask}

pub record NextTaskIdGenerator : Type 0 where
  pub next_task_id : ℕ

abbrev pub new_generator : NextTaskIdGenerator
new_generator = record { next_task_id = 1 }

unfoldable pub take_task_id :
    Build → NextTaskIdGenerator → Outcome (MaroonTaskId × NextTaskIdGenerator)
take_task_id b generator = do
  let task_id = generator.next_task_id
  following ← add64 b generator.next_task_id 1
  ok (task_id, record { next_task_id = following })

-- The hash map of the active tasks: at most one entry for a key.
abbrev pub Tasks : Type 0
Tasks = List (MaroonTaskId × MaroonTask)

unfoldable pub remove : MaroonTaskId → Tasks → Option (MaroonTask × Tasks)
remove id [] = none
remove id ((k, task) ∷ tasks) =
    let further = elim (remove id tasks) as (λ _. Option (MaroonTask × Tasks)) [
      | none ↦ none
      | some (found, rest) ↦ some (found, (k, task) ∷ rest)
    ] in
    if k == id then some (task, tasks) else further

unfoldable pub discard : MaroonTaskId → Tasks → Tasks
discard id [] = []
discard id ((k, task) ∷ tasks) = if k == id then tasks else (k, task) ∷ discard id tasks

unfoldable pub insert : MaroonTaskId → MaroonTask → Tasks → Tasks
unfolding discard
insert id task tasks = (id, task) ∷ discard id tasks

-- What a writer was given.
pub record Written : Type 0 where
  pub writer : ℕ
  pub line : Line

pub record MaroonRuntime (Heap : Type 0) : Type 0 where
  pub task_id_generator : NextTaskIdGenerator
  pub pending_operations : Heap
  pub active_tasks : Tasks

-- The runtime, and what has been written, in order.
pub record AppState (Heap : Type 0) : Type 0 where
  pub fsm : MaroonRuntime Heap
  pub written : List Written

abbrev pub log : ℕ → LogicalTimeAbsoluteMs → Option String → List Written → List Written
log writer time none written = written
log writer time (some text) written =
    written ++ record { writer = writer; line = line time text } ∷ []

module _ (H : BinaryHeap) where
  open H use {Heap, new, push, peek, pop}

  abbrev pub App : Type 0
  App = AppState Heap

  abbrev pub new_app : App
  new_app = record {
    fsm = record { task_id_generator = new_generator; pending_operations = new; active_tasks = [] };
    written = [];
  }

  -- `peek`, `map`, `filter`, `and_then`: an operation, if one is due.
  unfoldable pub take_due : LogicalTimeAbsoluteMs → Heap → Option (TimestampedMaroonTask × Heap)
  take_due cutoff heap = elim (peek heap) [
    | none ↦ none
    | some t ↦ if leb t.scheduled_timestamp cutoff then pop heap else none
  ]

  -- The end of a round: the task is dropped, or goes back with its next operation.
  unfoldable pub give_back : TimestampedMaroonTask → Heap → Tasks → ℕ → App → StepEffect → App
  unfolding discard insert
  give_back t heap tasks writer app finished = record app {
    fsm = record app.fsm { pending_operations = heap; active_tasks = discard t.task_id tasks };
  }
  give_back t heap tasks writer app (rescheduled later text task) =
      let again : TimestampedMaroonTask = record {
        scheduled_timestamp = later;
        task_id = t.task_id;
      } in
      record {
        fsm = record app.fsm {
          pending_operations = push heap again;
          active_tasks = insert t.task_id task tasks;
        };
        written = log writer t.scheduled_timestamp text app.written;
      }

  module _ (b : Build) where
    unfoldable pub schedule : MaroonTask → LogicalTimeAbsoluteMs → App → Outcome App
    unfolding take_task_id insert
    schedule task scheduled_timestamp app = do
      let fsm = app.fsm
      (task_id, generator) ← take_task_id b fsm.task_id_generator
      let pending =
          push fsm.pending_operations
            (record { scheduled_timestamp = scheduled_timestamp; task_id = task_id })
      ok (record app {
        fsm = record {
          task_id_generator = generator;
          pending_operations = pending;
          active_tasks = insert task_id task fsm.active_tasks;
        };
      })

    -- A round with the operation that was taken from the queue.
    unfoldable pub run_operation : TimestampedMaroonTask → Heap → App → Outcome App
    run_operation t heap app = elim (remove t.task_id app.fsm.active_tasks) [
      | none ↦ panic task_not_found
      | some (task, tasks) ↦ do
        effect ← task_step b t.scheduled_timestamp task
        ok (give_back t heap tasks task.writer app effect)
    ]

    -- A round of the loop; `none` means that nothing is due.
    unfoldable pub execute_one : LogicalTimeAbsoluteMs → App → Outcome (Option App)
    execute_one cutoff app = elim (take_due cutoff app.fsm.pending_operations) [
      | none ↦ ok none
      | some (t, heap) ↦ do app' ← run_operation t heap app; ok (some app')
    ]

    -- The loop. `clock k` is what the timer says in round `k`; `none` means that the fuel ran out.
    unfoldable pub execute_pending_operations_inner :
        ℕ → (ℕ → LogicalTimeAbsoluteMs) → App → Option (Outcome App)
    execute_pending_operations_inner zero clock app = none
    execute_pending_operations_inner (suc fuel) clock app = elim (execute_one (clock 0) app) [
      | panic fault ↦ some (panic fault)
      | ok none ↦ some (ok app)
      | ok (some app') ↦ execute_pending_operations_inner fuel (λ k. clock (suc k)) app'
    ]
