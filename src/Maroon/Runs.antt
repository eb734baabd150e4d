-- ===== src/Maroon/Runs.antt =====
-- The life of one task, when the time of each step is the time for which it was scheduled.
use rust_experiments.Prelude.{
  ℕ, suc, ◌≤◌, ◌≡◌, List, [], ◌∷◌, Option, none, some, String, arith, refl, ◌⊎◌, inl, inr,
}
use rust_experiments.Machine.{Build, ok}
use rust_experiments.Maroon.Types.{MaroonTaskHeap, state, completed}
use rust_experiments.Maroon.TaskStep.{MaroonTask, finished, rescheduled, task_step, on_stack}

-- A text, with the timestamp that the writer was given.
pub record Line : Type 0 where
  pub time : ℕ
  pub text : String

abbrev pub line : ℕ → String → Line
line time text = record { time = time; text = text }

abbrev pub emit : ℕ → Option String → List Line → List Line
emit time none lines = lines
emit time (some text) lines = line time text ∷ lines

-- `Runs b limit n time task lines`: scheduled for `time`, the task ends after `n` steps, at `limit`
-- at the latest. No step panics or goes back in time, and together they write `lines`.
pub data Runs (b : Build) (limit : ℕ) : ℕ → ℕ → MaroonTask → List Line → Type 0 where
  ends :
      {time : ℕ} {task : MaroonTask}
      → task_step b time task ≡ ok finished
      → time ≤ limit
      → Runs b limit 1 time task []
  steps :
      {n time later : ℕ} {task task' : MaroonTask} {text : Option String} {lines : List Line}
      → task_step b time task ≡ ok (rescheduled later text task')
      → time ≤ later
      → Runs b limit n later task' lines
      → Runs b limit (suc n) time task (emit time text lines)

pub completed_lem :
    (b : Build) (task : MaroonTask) (time : ℕ) (heap : MaroonTaskHeap)
    → task_step b time (on_stack task heap (state completed ∷ [])) ≡ ok finished
unfolding task_step
completed_lem b task time heap = ground arith

-- The next step of a task that runs.
pub record Continues (b : Build) (limit n time : ℕ) (task : MaroonTask) (lines : List Line)
    : Type 0 where
  pub later : ℕ
  pub text : Option String
  pub task' : MaroonTask
  pub lines' : List Line
  pub n' : ℕ
  pub steps_eq : n ≡ suc n'
  pub lines_eq : lines ≡ emit time text lines'
  pub step_eq : task_step b time task ≡ ok (rescheduled later text task')
  pub forward : time ≤ later
  pub runs : Runs b limit n' later task' lines'

pub Runs-cases :
    {b : Build} {limit n time : ℕ} {task : MaroonTask} {lines : List Line}
    → Runs b limit n time task lines
    → ((n ≡ 1) × (lines ≡ []) × (task_step b time task ≡ ok finished))
      ⊎ Continues b limit n time task lines
Runs-cases (ends e last) = inl (refl, refl, e)
Runs-cases (steps e le r) = inr (record {
  later = _;
  text = _;
  task' = _;
  lines' = _;
  n' = _;
  steps_eq = refl;
  lines_eq = refl;
  step_eq = e;
  forward = le;
  runs = r;
})

pub Runs-le_limit :
    {b : Build} {limit n time : ℕ} {task : MaroonTask} {lines : List Line}
    → Runs b limit n time task lines
    → time ≤ limit
Runs-le_limit (ends e last) = last
Runs-le_limit (steps e le r) = omega (arith, Runs-le_limit r)
