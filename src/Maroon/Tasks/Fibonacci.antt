-- ===== src/Maroon/Tasks/Fibonacci.antt =====
-- The task of `fibonacci_handler_ws`.
use rust_experiments.Prelude.{
  ℕ, zero, suc, ◌+◌, ◌*◌, ◌≤◌, ◌<◌, ◌≡◌, refl, ap, List, [], ◌∷◌, ◌<>◌, none, some, arith,
}
use rust_experiments.Machine.{Build, ok, u64_modulus, add64-eq-ok, mul64-eq-ok}
use rust_experiments.Text.{to_decimal}
use rust_experiments.Maroon.Types.{
  MaroonTaskState, fibonacci_task_begin, fibonacci_task_calculate, fibonacci_task_result,
  fibonacci_task_step, completed, state, fibonacci, MaroonTaskHeapFibonacci,
}
use rust_experiments.Maroon.Format.{format_fibonacci_step, format_fibonacci_result}
use rust_experiments.Maroon.TaskStep.{MaroonTask, rescheduled, task_step, of_vec, on_stack}
use rust_experiments.Maroon.Runs.{Runs, ends, steps, Line, line, completed_lem}

unfoldable pub fibonacci_task : ℕ → ℕ → MaroonTask
unfolding of_vec
fibonacci_task writer n = record {
  description = "Fibonacci number " <> to_decimal n;
  writer = writer;
  maroon_stack = of_vec (state fibonacci_task_begin ∷ []);
  maroon_heap = fibonacci (record { n = n; index = 0; a = 0; b = 0; delay_ms = 0 });
}

unfoldable pub fib : ℕ → ℕ
fib zero = 0
fib (suc zero) = 1
fib (suc (suc k)) = fib k + fib (suc k)

fib_mono : (k : ℕ) → fib k ≤ fib (suc k)
unfolding fib
fib_mono zero = omega arith
fib_mono (suc k) = omega arith

fib-le : (r k m : ℕ) → k + r ≡ m → fib k ≤ fib m
fib-le zero k m e = let same : k ≡ m = omega arith in rw same (omega arith)
fib-le (suc r) k m e = omega (arith, fib_mono k, fib-le r (suc k) m (omega arith))

-- The description: `rounds` more numbers, of which the last has the index `suc k + rounds`. An
-- intermediate number takes five times its index in milliseconds.
unfoldable pub fibonacci_lines_from : Build → ℕ → ℕ → ℕ → ℕ → List Line
fibonacci_lines_from b n zero k time = line time (format_fibonacci_result b n (fib n)) ∷ []
fibonacci_lines_from b n (suc rounds) k time =
    line time (format_fibonacci_step b n (suc k) (fib (suc k)) (fib k))
    ∷ fibonacci_lines_from b n rounds (suc k) (time + 5 * suc k)

unfoldable pub fibonacci_lines : Build → ℕ → ℕ → List Line
unfolding fibonacci_lines_from
fibonacci_lines b zero time = line time (format_fibonacci_result b 0 0) ∷ []
fibonacci_lines b (suc rounds) time = fibonacci_lines_from b (suc rounds) rounds 0 time

unfoldable pub fibonacci_steps : ℕ → ℕ
fibonacci_steps zero = 3
fibonacci_steps (suc rounds) = suc (suc (fibonacci_steps rounds))

module _ (b : Build) (task : MaroonTask) (n : ℕ) where
  -- The heap with the numbers at `k` and `suc k`.
  abbrev at : ℕ → ℕ → MaroonTaskState → MaroonTask
  at delay k st =
      on_stack task
        (fibonacci (record { n = n; index = suc k; a = fib k; b = fib (suc k); delay_ms = delay }))
        (state st ∷ [])

  calculate_more :
      (delay k time : ℕ)
      → suc k < n
      → 5 * suc k < u64_modulus
      → task_step b time (at delay k fibonacci_task_calculate)
        ≡ ok (
            rescheduled time
              (some (format_fibonacci_step b n (suc k) (fib (suc k)) (fib k)))
              (at (5 * suc k) k fibonacci_task_step))
  unfolding task_step
  calculate_more delay k time more bound = ground (arith, mul64-eq-ok b 5 (suc k))

  step_lem :
      (delay k time : ℕ)
      → suc k + 1 < u64_modulus
      → fib (suc (suc k)) < u64_modulus
      → time + delay < u64_modulus
      → task_step b time (at delay k fibonacci_task_step)
        ≡ ok (rescheduled (time + delay) none (at delay (suc k) fibonacci_task_calculate))
  unfolding task_step fib
  step_lem delay k time index_fits sum_fits time_fits = ground (
    arith,
    add64-eq-ok b (suc k) 1,
    add64-eq-ok b (fib k) (fib (suc k)),
    add64-eq-ok b time delay,
  )

  calculate_end :
      (delay k time : ℕ)
      → n ≤ suc k
      → task_step b time (at delay k fibonacci_task_calculate)
        ≡ ok (rescheduled time none (at delay k fibonacci_task_result))
  unfolding task_step
  calculate_end delay k time last = ground arith

  result_lem :
      (delay k time : ℕ)
      → task_step b time (at delay k fibonacci_task_result)
        ≡ ok (
            rescheduled time
              (some (format_fibonacci_result b n (fib (suc k))))
              (at delay k completed))
  unfolding task_step
  result_lem delay k time = ground arith

  calculate-Runs :
      (limit rounds delay k time : ℕ)
      → suc k + rounds ≡ n
      → n + 1 < u64_modulus
      → fib n < u64_modulus
      → time + 5 * (rounds * n) ≤ limit
      → limit < u64_modulus
      → Runs b limit
          (fibonacci_steps rounds)
          time
          (at delay k fibonacci_task_calculate)
          (fibonacci_lines_from b n rounds k time)
  unfolding fibonacci_steps fibonacci_lines_from
  calculate-Runs limit zero delay k time e index_fits sum_fits in_time time_fits =
      let last : n ≡ suc k = omega arith in
      rw (ap fib last) (
        steps (calculate_end delay k time (omega arith)) (omega arith) (
          steps (result_lem delay k time) (omega arith)
            (ends (completed_lem b task time _) (omega arith))))
  calculate-Runs limit (suc rounds) delay k time e index_fits sum_fits in_time time_fits =
      let wait = 5 * suc k in
      let short : wait ≤ 5 * n = omega arith in
      let total : 5 * (suc rounds * n) ≡ 5 * n + 5 * (rounds * n) = omega arith in
      steps (calculate_more delay k time (omega arith) (omega arith)) (omega arith) (
        steps
          (step_lem wait k time (omega arith)
            (omega (arith, fib-le rounds (suc (suc k)) n (omega arith))) (omega arith))
          (omega arith)
          (calculate-Runs limit rounds wait (suc k) (time + wait) (omega arith) index_fits sum_fits
            (omega arith) time_fits))

  begin_small :
      (time : ℕ)
      → n ≤ 1
      → (heap : MaroonTaskHeapFibonacci) → heap.n ≡ n
      → task_step b time (on_stack task (fibonacci heap) (state fibonacci_task_begin ∷ []))
        ≡ ok (
            rescheduled time
              (some (format_fibonacci_result b n n))
              (on_stack task (fibonacci heap) (state completed ∷ [])))
  unfolding task_step
  begin_small time small heap e = ground arith

  begin_large :
      (time : ℕ)
      → 1 < n
      → (heap : MaroonTaskHeapFibonacci) → heap.n ≡ n
      → task_step b time (on_stack task (fibonacci heap) (state fibonacci_task_begin ∷ []))
        ≡ ok (rescheduled time none (at heap.delay_ms 0 fibonacci_task_calculate))
  unfolding task_step fib
  begin_large time large heap e = ground arith

unfoldable pub fibonacci_task_steps : ℕ → ℕ
unfolding fibonacci_steps
fibonacci_task_steps zero = 2
fibonacci_task_steps (suc zero) = 2
fibonacci_task_steps (suc (suc r)) = suc (fibonacci_steps (suc r))

-- If the `n`-th Fibonacci number and the time `5 * n * n` milliseconds after the start are below
-- 2^64, the task of `fibonacci_handler_ws` writes the Fibonacci numbers from index 1 up to `n - 1`,
-- each followed by a sleep of five times its index in milliseconds, and then the one of index `n`
-- as its result; then it ends, after `fibonacci_task_steps n` steps, none of which panics.
pub fibonacci_task-Runs :
    (b : Build) (writer time n : ℕ)
    → fib n < u64_modulus
    → time + 5 * (n * n) < u64_modulus
    → Runs b
        (time + 5 * (n * n))
        (fibonacci_task_steps n)
        time
        (fibonacci_task writer n)
        (fibonacci_lines b n time)
unfolding fibonacci_task fibonacci_task_steps fibonacci_lines fib
fibonacci_task-Runs b writer time zero sum_fits time_fits =
    let task = fibonacci_task writer 0 in
    steps (begin_small b task 0 time (omega arith) _ refl) (omega arith)
      (ends (completed_lem b task time _) (omega arith))
fibonacci_task-Runs b writer time (suc zero) sum_fits time_fits =
    let task = fibonacci_task writer 1 in
    steps (begin_small b task 1 time (omega arith) _ refl) (omega arith)
      (ends (completed_lem b task time _) (omega arith))
fibonacci_task-Runs b writer time (suc (suc r)) sum_fits time_fits =
    let n = suc (suc r) in
    let task = fibonacci_task writer n in
    let square : n * n ≡ n + suc r * n = omega arith in
    steps (begin_large b task n time (omega arith) _ refl) (omega arith) (
      calculate-Runs b task n _ (suc r) 0 0 time (omega arith) (omega arith) sum_fits (omega arith)
        time_fits)
