-- ===== src/Maroon/Tasks/Divisors.antt =====
-- The task of `divisors_handler_ws`.
use rust_experiments.Prelude.{
  ℕ, zero, suc, ◌+◌, ◌*◌, ◌%◌, ◌≤◌, ◌<◌, ◌≡◌, refl, List, [], ◌∷◌, ◌<>◌, none, some, arith, ◌==◌,
  if◌then◌else◌, Bool-cases, inl, inr,
}
use rust_experiments.Machine.{Build, ok, u64_modulus, add64-eq-ok, mul64-eq-ok, sub64-eq-ok}
use rust_experiments.Text.{to_decimal}
use rust_experiments.Maroon.Types.{
  MaroonTaskState, divisors_task_begin, divisors_task_iteration, divisors_print_and_move_on,
  completed, state, divisors,
}
use rust_experiments.Maroon.Format.{format_divisor_found, format_divisors_done}
use rust_experiments.Maroon.GlobalStep.{divisor_from}
use rust_experiments.Maroon.TaskStep.{MaroonTask, rescheduled, task_step, of_vec, on_stack}
use rust_experiments.Maroon.Runs.{Runs, ends, steps, Line, line, completed_lem}

unfoldable pub divisors_task : ℕ → ℕ → MaroonTask
unfolding of_vec
divisors_task writer n = record {
  description = "Divisors of " <> to_decimal n;
  writer = writer;
  maroon_stack = of_vec (state divisors_task_begin ∷ []);
  maroon_heap = divisors (record { n = n; i = n });
}

-- The description: every `k` from `i` down to 1 is tried, and each divisor of `n` takes ten times
-- itself in milliseconds and is then written; at the end there is one more text.
unfoldable pub divisor_lines : Build → ℕ → ℕ → ℕ → List Line
divisor_lines b n time zero = line time (format_divisors_done b n) ∷ []
divisor_lines b n time (suc k) =
    let skip = divisor_lines b n time k in
    let later = time + suc k * 10 in
    let found = line later (format_divisor_found b n (suc k)) ∷ divisor_lines b n later k in
    if n % suc k == 0 then found else skip

-- The sum of the divisors of `n` up to `i`.
unfoldable pub divisor_sum : ℕ → ℕ → ℕ
divisor_sum n zero = 0
divisor_sum n (suc k) = (if n % suc k == 0 then suc k else 0) + divisor_sum n k

unfoldable pub divisor_steps : ℕ → ℕ → ℕ
divisor_steps n zero = 2
divisor_steps n (suc k) =
    let more = divisor_steps n k in if n % suc k == 0 then suc (suc more) else more

module _ (b : Build) (task : MaroonTask) (n : ℕ) where
  abbrev at : ℕ → MaroonTaskState → MaroonTask
  at i st = on_stack task (divisors (record { n = n; i = i })) (state st ∷ [])

  begin_lem :
      (i time : ℕ)
      → task_step b time (at i divisors_task_begin)
        ≡ ok (rescheduled time none (at n divisors_task_iteration))
  unfolding task_step
  begin_lem i time = ground arith

  iteration_done :
      (i time : ℕ)
      → divisor_from n i ≡ 0
      → task_step b time (at i divisors_task_iteration)
        ≡ ok (rescheduled time (some (format_divisors_done b n)) (at i completed))
  unfolding task_step
  iteration_done i time h = ground arith

  iteration_found :
      (i k time : ℕ)
      → divisor_from n i ≡ suc k
      → time + suc k * 10 < u64_modulus
      → task_step b time (at i divisors_task_iteration)
        ≡ ok (rescheduled (time + suc k * 10) none (at (suc k) divisors_print_and_move_on))
  unfolding task_step
  iteration_found i k time h bound =
      ground (arith, mul64-eq-ok b (suc k) 10, add64-eq-ok b time (suc k * 10))

  print_lem :
      (k time : ℕ)
      → task_step b time (at (suc k) divisors_print_and_move_on)
        ≡ ok (
            rescheduled time
              (some (format_divisor_found b n (suc k)))
              (at k divisors_task_iteration))
  unfolding task_step
  print_lem k time = ground (arith, sub64-eq-ok b (suc k) 1)

  -- The loop variable of the heap may be any from which the search ends where it ends from `j`.
  iteration-Runs :
      (limit j i time : ℕ)
      → divisor_from n i ≡ divisor_from n j
      → time + 10 * divisor_sum n j ≤ limit
      → limit < u64_modulus
      → Runs b limit
          (divisor_steps n j)
          time
          (at i divisors_task_iteration)
          (divisor_lines b n time j)
  unfolding divisor_from divisor_lines divisor_sum divisor_steps
  iteration-Runs limit zero i time e h fits =
      steps (iteration_done i time e) (omega arith)
        (ends (completed_lem b task time _) (omega arith))
  iteration-Runs limit (suc k) i time e h fits = elim (Bool-cases (n % suc k == 0)) [
    | inl divides ↦
        let later = time + suc k * 10 in
        let bound : later + 10 * divisor_sum n k ≤ limit = ground arith in
        rw divides (
          steps (iteration_found i k time (ground arith) (omega arith)) (omega arith) (
            steps (print_lem k later) (omega arith)
              (iteration-Runs limit k k later refl bound fits)))
    | inr other ↦ rw other (iteration-Runs limit k i time (ground arith) (ground arith) fits)
  ]

-- If the time of its end, ten times the sum of the divisors of `n` after its start, is below 2^64,
-- the task of `divisors_handler_ws` writes the divisors of `n` from the largest to the smallest,
-- each ten times its value in milliseconds after the text before it, and then that it is done; then
-- it ends, after `divisor_steps n n` and one more steps, none of which panics.
pub divisors_task-Runs :
    (b : Build) (writer time n : ℕ)
    → time + 10 * divisor_sum n n < u64_modulus
    → Runs b
        (time + 10 * divisor_sum n n)
        (suc (divisor_steps n n))
        time
        (divisors_task writer n)
        (divisor_lines b n time n)
unfolding divisors_task
divisors_task-Runs b writer time n h =
    let task = divisors_task writer n in
    steps (begin_lem b task n n time) (omega arith)
      (iteration-Runs b task n _ n n time refl (omega arith) h)
