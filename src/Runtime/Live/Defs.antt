-- ===== src/Runtime/Live/Defs.antt =====
-- The invariant: a list of the active tasks, each with what is left of its life.
use rust_experiments.Prelude.{ℕ, ◌+◌, ◌<◌, ◌≡◌, ◌≢◌, List, [], ◌∷◌, ◌++◌, All, ◌==◌, if◌then◌else◌}
use rust_experiments.Machine.{Build}
use rust_experiments.Maroon.Types.{MaroonTaskId}
use rust_experiments.Maroon.TaskStep.{MaroonTask}
use rust_experiments.Maroon.Runs.{Runs, Line}
use rust_experiments.Runtime.BinaryHeap.{BinaryHeap, TimestampedMaroonTask, same}
use rust_experiments.Runtime.Defs.{App, Written}

abbrev pub NotIn : ℕ → List ℕ → Type 0
NotIn k [] = Unit
NotIn k (x ∷ xs) = (k ≢ x) × NotIn k xs

abbrev pub Distinct : List ℕ → Type 0
Distinct [] = Unit
Distinct (x ∷ xs) = NotIn x xs × Distinct xs

-- An active task: the time of its operation, the time by which it ends, and the steps and the texts
-- that are left.
pub record Live (b : Build) : Type 0 where
  pub id : MaroonTaskId
  pub time : ℕ
  pub task : MaroonTask
  pub limit : ℕ
  pub steps_left : ℕ
  pub lines_left : List Line
  pub runs : Runs b limit steps_left time task lines_left

module _ {b : Build} where
  abbrev pub operation : Live b → TimestampedMaroonTask
  operation l = record { scheduled_timestamp = l.time; task_id = l.id }

  abbrev pub entry : Live b → MaroonTaskId × MaroonTask
  entry l = (l.id, l.task)

  abbrev pub keys : (Live b → ℕ) → List (Live b) → List ℕ
  keys f [] = []
  keys f (l ∷ ls) = f l ∷ keys f ls

  abbrev pub ids : List (Live b) → List ℕ
  ids = keys (λ l. l.id)

  -- The writers of the tasks.
  abbrev pub writers : List (Live b) → List ℕ
  writers = keys (λ l. l.task.writer)

  abbrev pub entries : List (Live b) → List (MaroonTaskId × MaroonTask)
  entries [] = []
  entries (l ∷ ls) = entry l ∷ entries ls

  abbrev pub operations : TimestampedMaroonTask → List (Live b) → ℕ
  operations u [] = 0
  operations u (l ∷ ls) = same u (operation l) + operations u ls

  -- All the steps that are left.
  abbrev pub work : List (Live b) → ℕ
  work [] = 0
  work (l ∷ ls) = l.steps_left + work ls

  -- What a writer is still to be given.
  abbrev pub lines_due : ℕ → List (Live b) → List Line
  lines_due w [] = []
  lines_due w (l ∷ ls) = (if l.task.writer == w then l.lines_left else []) ++ lines_due w ls

-- What a writer was given.
abbrev pub lines_of : ℕ → List Written → List Line
lines_of w [] = []
lines_of w (x ∷ xs) = (if x.writer == w then x.line ∷ [] else []) ++ lines_of w xs

-- The runtime holds the tasks of the list and no others, each with one pending operation.
pub record Tracks (H : BinaryHeap) (b : Build) (ls : List (Live b)) (app : App H) : Type 0 where
  pub active : app.fsm.active_tasks ≡ entries ls
  pub pending :
      (u : TimestampedMaroonTask) → H.occurs u app.fsm.pending_operations ≡ operations u ls
  pub distinct : Distinct (ids ls)
  pub fresh : All (λ l. l.id < app.fsm.task_id_generator.next_task_id) ls
