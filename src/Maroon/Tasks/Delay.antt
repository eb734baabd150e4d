-- ===== src/Maroon/Tasks/Delay.antt =====
-- The task of `delay_handler_ws`.
use rust_experiments.Prelude.{ℕ, ◌+◌, ◌<◌, ◌≡◌, [], ◌∷◌, String, ◌<>◌, none, some, arith}
use rust_experiments.Machine.{Build, ok, u64_modulus, add64-eq-ok}
use rust_experiments.Text.{to_decimal}
use rust_experiments.Maroon.Types.{
  MaroonTaskState, delayed_message_task_begin, delayed_message_task_execute, completed,
  delay_input_ms, delay_input_message, state, value, empty,
}
use rust_experiments.Maroon.Format.{format_delayed_message}
use rust_experiments.Maroon.TaskStep.{MaroonTask, rescheduled, task_step, of_vec, on_stack}
use rust_experiments.Maroon.Runs.{Runs, ends, steps, line, completed_lem}

unfoldable pub delay_task : ℕ → ℕ → String → MaroonTask
unfolding of_vec
delay_task writer t s = record {
  description = "Delayed by " <> (to_decimal t <> ("ms: `" <> (s <> "`.")));
  writer = writer;
  maroon_stack = of_vec (
      value (delay_input_ms t)
      ∷ value (delay_input_message s)
      ∷ state delayed_message_task_begin
      ∷ []);
  maroon_heap = empty;
}

module _ (b : Build) (task : MaroonTask) (time t : ℕ) (s : String) where
  abbrev at : MaroonTaskState → MaroonTask
  at st =
      on_stack task empty (state st ∷ value (delay_input_message s) ∷ value (delay_input_ms t) ∷ [])

  begin_lem :
      time + t < u64_modulus
      → task_step b time (at delayed_message_task_begin)
        ≡ ok (rescheduled (time + t) none (at delayed_message_task_execute))
  unfolding task_step
  begin_lem h = ground (arith, add64-eq-ok b time t)

  execute_lem :
      task_step b time (at delayed_message_task_execute)
      ≡ ok (
          rescheduled time
            (some (format_delayed_message b t s))
            (on_stack task empty (state completed ∷ [])))
  unfolding task_step
  execute_lem = ground arith

-- If the time of its end is below 2^64, the task of `delay_handler_ws` writes its message once, `t`
-- milliseconds after the start, writes nothing else, and ends after three steps, none of which
-- panics.
pub delay_task-Runs :
    (b : Build) (writer time t : ℕ) (s : String)
    → time + t < u64_modulus
    → Runs b
        (time + t)
        3
        time
        (delay_task writer t s)
        (line (time + t) (format_delayed_message b t s) ∷ [])
unfolding delay_task
delay_task-Runs b writer time t s h =
    let task = delay_task writer t s in
    steps (begin_lem b task time t s h) (omega arith) (
      steps (execute_lem b task (time + t) t s) (omega arith)
        (ends (completed_lem b task (time + t) empty) (omega arith)))
