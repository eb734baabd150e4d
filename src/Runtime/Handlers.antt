-- ===== src/Runtime/Handlers.antt =====
-- step11_ws_state_machine/code/src/main.rs: the handlers that schedule a task. The upgrade to a
-- websocket is the web framework's; what is left is the call of `schedule` with a fresh writer and
-- the timer's reading.
use rust_experiments.Prelude.{ℕ, suc, ◌+◌, ◌*◌, ◌<◌, List, [], ◌∷◌, String, ◌<>◌}
use rust_experiments.Machine.{Build, Outcome, u64_modulus}
use rust_experiments.Text.{to_decimal}
use rust_experiments.Maroon.Types.{LogicalTimeAbsoluteMs}
use rust_experiments.Maroon.Format.{format_delayed_message}
use rust_experiments.Maroon.TaskStep.{MaroonTask}
use rust_experiments.Maroon.Runs.{Runs, Line, line}
use rust_experiments.Maroon.Tasks.Delay.{delay_task, delay_task-Runs}
use rust_experiments.Maroon.Tasks.Divisors.{
  divisors_task, divisor_lines, divisor_sum, divisor_steps, divisors_task-Runs,
}
use rust_experiments.Maroon.Tasks.Fibonacci.{
  fibonacci_task, fib, fibonacci_lines, fibonacci_task_steps, fibonacci_task-Runs,
}
use rust_experiments.Maroon.Tasks.Factorial.{
  factorial_task, factorial, total_sleep, call_lines, call_steps, factorial_task-Runs,
}
use rust_experiments.Runtime.BinaryHeap.{BinaryHeap}
use rust_experiments.Runtime.Defs.{App, schedule}

module _ (H : BinaryHeap) (b : Build) (writer : ℕ) (ts : LogicalTimeAbsoluteMs) where
  unfoldable pub delay_handler_ws : ℕ → String → App H → Outcome (App H)
  unfolding delay_task schedule
  delay_handler_ws t s app = schedule H b (delay_task writer t s) ts app

  unfoldable pub divisors_handler_ws : ℕ → App H → Outcome (App H)
  unfolding divisors_task schedule
  divisors_handler_ws n app = schedule H b (divisors_task writer n) ts app

  unfoldable pub fibonacci_handler_ws : ℕ → App H → Outcome (App H)
  unfolding fibonacci_task schedule
  fibonacci_handler_ws n app = schedule H b (fibonacci_task writer n) ts app

  unfoldable pub factorial_handler_ws : ℕ → App H → Outcome (App H)
  unfolding factorial_task schedule
  factorial_handler_ws n app = schedule H b (factorial_task writer n) ts app

-- A request of one of the four kinds.
pub data Request : Type 0 where
  delay : ℕ → String → Request
  divisors : ℕ → Request
  fibonacci : ℕ → Request
  factorial_of : ℕ → Request

abbrev pub task_of : ℕ → Request → MaroonTask
task_of writer (delay t s) = delay_task writer t s
task_of writer (divisors n) = divisors_task writer n
task_of writer (fibonacci n) = fibonacci_task writer n
task_of writer (factorial_of n) = factorial_task writer n

-- The numbers of the computation, and the times of its operations, are below 2^64.
abbrev pub Fits : ℕ → Request → Type 0
Fits time (delay t s) = time + t < u64_modulus
Fits time (divisors n) = time + 10 * divisor_sum n n < u64_modulus
Fits time (fibonacci n) = (fib n < u64_modulus) × (time + 5 * (n * n) < u64_modulus)
Fits time (factorial_of n) = (time + total_sleep n < u64_modulus) × (factorial n < u64_modulus)

abbrev pub steps_of : Request → ℕ
steps_of (delay t s) = 3
steps_of (divisors n) = suc (divisor_steps n n)
steps_of (fibonacci n) = fibonacci_task_steps n
steps_of (factorial_of n) = suc (call_steps n 2)

-- The time by which the task of a request ends.
abbrev pub end_of : ℕ → Request → ℕ
end_of time (delay t s) = time + t
end_of time (divisors n) = time + 10 * divisor_sum n n
end_of time (fibonacci n) = time + 5 * (n * n)
end_of time (factorial_of n) = time + total_sleep n

-- What the request's writer is to be given.
abbrev pub reply : Build → ℕ → Request → List Line
reply b time (delay t s) = line (time + t) (format_delayed_message b t s) ∷ []
reply b time (divisors n) = divisor_lines b n time n
reply b time (fibonacci n) = fibonacci_lines b n time
reply b time (factorial_of n) =
    call_lines n time
      (line (time + total_sleep n) (to_decimal n <> ("!=" <> to_decimal (factorial n))) ∷ [])

pub Request-Runs :
    (b : Build) (writer time : ℕ) (r : Request)
    → Fits time r
    → Runs b (end_of time r) (steps_of r) time (task_of writer r) (reply b time r)
Request-Runs b writer time (delay t s) h = delay_task-Runs b writer time t s h
Request-Runs b writer time (divisors n) h = divisors_task-Runs b writer time n h
Request-Runs b writer time (fibonacci n) h = fibonacci_task-Runs b writer time n h.0 h.1
Request-Runs b writer time (factorial_of n) h = factorial_task-Runs b writer time n h.0 h.1

abbrev pub handle : (H : BinaryHeap) → Build → ℕ → ℕ → Request → App H → Outcome (App H)
handle H b writer ts (delay t s) = delay_handler_ws H b writer ts t s
handle H b writer ts (divisors n) = divisors_handler_ws H b writer ts n
handle H b writer ts (fibonacci n) = fibonacci_handler_ws H b writer ts n
handle H b writer ts (factorial_of n) = factorial_handler_ws H b writer ts n
