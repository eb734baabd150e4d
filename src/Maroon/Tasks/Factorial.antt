-- ===== src/Maroon/Tasks/Factorial.antt =====
-- The task of `factorial_handler_ws`: recursion on the task's own stack.
use rust_experiments.Prelude.{
  ℕ, zero, suc, ◌+◌, ◌*◌, ◌≤◌, ◌<◌, ◌≡◌, refl, subst, List, [], ◌∷◌, String, ◌<>◌, none, some,
  arith,
}
use rust_experiments.Machine.{Build, ok, u64_modulus, add64-eq-ok, mul64-eq-ok, sub64-eq-ok}
use rust_experiments.Text.{to_decimal}
use rust_experiments.Maroon.Types.{
  MaroonTaskState, factorial_entry, factorial_recursive_call, factorial_recursion_post_write,
  factorial_recursion_post_sleep, factorial_recursion_post_recursive_call, factorial_done,
  completed, factorial_input, factorial_argument, factorial_return_value, MaroonTaskStackEntry,
  state, retrn, value, empty,
}
use rust_experiments.Maroon.TaskStep.{
  MaroonTask, rescheduled, task_step, of_vec, on_stack, validate_entries,
}
use rust_experiments.Maroon.Runs.{Runs, ends, steps, Line, line, completed_lem}

unfoldable pub factorial_task : ℕ → ℕ → MaroonTask
unfolding of_vec
factorial_task writer n = record {
  description = "Factorial of " <> to_decimal n;
  writer = writer;
  maroon_stack = of_vec (value (factorial_input n) ∷ state factorial_entry ∷ []);
  maroon_heap = empty;
}

unfoldable pub factorial : ℕ → ℕ
factorial zero = 1
factorial (suc n) = factorial n * suc n

-- The milliseconds that a call with the argument `n` sleeps, its recursive calls included.
unfoldable pub total_sleep : ℕ → ℕ
total_sleep zero = 0
total_sleep (suc n) = suc n * 50 + total_sleep n

abbrev pub call_text : ℕ → String
call_text n = "f(" <> (to_decimal n <> ")")

-- The description: the texts of a call with the argument `n`, and of its recursive calls, in front
-- of `rest`.
unfoldable pub call_lines : ℕ → ℕ → List Line → List Line
call_lines zero time rest = line time (call_text 0) ∷ rest
call_lines (suc zero) time rest = line time (call_text 1) ∷ rest
call_lines (suc (suc m)) time rest =
    line time (call_text (suc (suc m))) ∷ call_lines (suc m) (time + suc (suc m) * 50) rest

-- The steps of such a call, in front of `rest` more.
unfoldable pub call_steps : ℕ → ℕ → ℕ
call_steps zero rest = suc (suc (suc rest))
call_steps (suc zero) rest = suc (suc (suc rest))
call_steps (suc (suc m)) rest = suc (suc (suc (call_steps (suc m) (suc rest))))

-- A stack that `debug_validate_maroon_stack` accepts.
abbrev IsSound : List MaroonTaskStackEntry → Type 0
IsSound stk = validate_entries 0 stk ≡ ok tt

frame-IsSound :
    (n : ℕ) (e : MaroonTaskStackEntry) (stk : List MaroonTaskStackEntry)
    → IsSound (e ∷ stk)
    → IsSound
        (retrn factorial_recursion_post_recursive_call ∷ value (factorial_argument n) ∷ e ∷ stk)
unfolding validate_entries
frame-IsSound n e stk sound = ground arith

factor-lt : (x y bound : ℕ) → x * suc y < bound → x < bound
factor-lt x y bound h = omega arith

module _ (b : Build) (task : MaroonTask) where
  abbrev at : MaroonTaskState → ℕ → List MaroonTaskStackEntry → MaroonTask
  at st n stk = on_stack task empty (state st ∷ value (factorial_argument n) ∷ stk)

  abbrev returned : MaroonTaskState → ℕ → List MaroonTaskStackEntry → MaroonTask
  returned st r stk = on_stack task empty (state st ∷ value (factorial_return_value r) ∷ stk)

  module _ (n time : ℕ) (stk : List MaroonTaskStackEntry) (sound : IsSound stk) where
    call_lem :
        task_step b time (at factorial_recursive_call n stk)
        ≡ ok (rescheduled time (some (call_text n)) (at factorial_recursion_post_write n stk))
    unfolding task_step
    call_lem = ground arith

    post_write_lem :
        time + n * 50 < u64_modulus
        → task_step b time (at factorial_recursion_post_write n stk)
          ≡ ok (rescheduled (time + n * 50) none (at factorial_recursion_post_sleep n stk))
    unfolding task_step
    post_write_lem bound = ground (arith, mul64-eq-ok b n 50, add64-eq-ok b time (n * 50))

    post_sleep_more :
        1 < suc n
        → 0 < n
        → task_step b time (at factorial_recursion_post_sleep (suc n) stk)
          ≡ ok (
              rescheduled time none (
                at factorial_recursive_call n (
                  retrn factorial_recursion_post_recursive_call
                  ∷ value (factorial_argument (suc n))
                  ∷ stk)))
    unfolding task_step
    post_sleep_more more pos = ground (arith, sub64-eq-ok b (suc n) 1)

  -- The bottom of the recursion, which returns to `st`.
  post_sleep_base :
      (n time : ℕ) (st : MaroonTaskState) (stk : List MaroonTaskStackEntry)
      → n ≤ 1
      → IsSound (retrn st ∷ stk)
      → task_step b time (at factorial_recursion_post_sleep n (retrn st ∷ stk))
        ≡ ok (rescheduled time none (returned st 1 stk))
  unfolding task_step
  post_sleep_base n time st stk base sound = ground arith

  post_call_lem :
      (r n time : ℕ) (st : MaroonTaskState) (stk : List MaroonTaskStackEntry)
      → r * n < u64_modulus
      → IsSound (retrn st ∷ stk)
      → task_step b time (
          returned factorial_recursion_post_recursive_call r
            (value (factorial_argument n) ∷ retrn st ∷ stk))
        ≡ ok (rescheduled time none (returned st (r * n) stk))
  unfolding task_step
  post_call_lem r n time st stk bound sound = ground (arith, mul64-eq-ok b r n)

  at_time :
      {limit n time later : ℕ} {task' : MaroonTask} {lines : List Line}
      → time ≡ later
      → Runs b limit n time task' lines
      → Runs b limit n later task' lines
  at_time {limit} {n} {task' = t} {lines = ls} e = subst (λ k. Runs b limit n k t ls) e

  -- A call runs until it returns `factorial n` to the state on the stack, and writes its texts on
  -- the way.
  call-Runs :
      (limit n time later rest : ℕ) (st : MaroonTaskState) (stk : List MaroonTaskStackEntry)
      (lines : List Line)
      → IsSound (retrn st ∷ stk)
      → time + total_sleep n ≡ later
      → later < u64_modulus
      → factorial n < u64_modulus
      → Runs b limit rest later (returned st (factorial n) stk) lines
      → Runs b limit
          (call_steps n rest)
          time
          (at factorial_recursive_call n (retrn st ∷ stk))
          (call_lines n time lines)
  unfolding factorial total_sleep call_lines call_steps
  call-Runs limit zero time later rest st stk lines sound e time_fits fits after =
      steps (call_lem 0 time _ sound) (omega arith) (
        steps (post_write_lem 0 time _ sound (omega arith)) (omega arith) (
          steps (post_sleep_base 0 _ st stk (omega arith) sound) (omega arith)
            (at_time (omega arith) after)))
  call-Runs limit (suc zero) time later rest st stk lines sound e time_fits fits after =
      steps (call_lem 1 time _ sound) (omega arith) (
        steps (post_write_lem 1 time _ sound (omega arith)) (omega arith) (
          steps (post_sleep_base 1 _ st stk (omega arith) sound) (omega arith)
            (at_time (omega arith) after)))
  call-Runs limit (suc (suc m)) time later rest st stk lines sound e time_fits fits after =
      let n = suc (suc m) in
      let middle = time + n * 50 in
      steps (call_lem n time _ sound) (omega arith) (
        steps (post_write_lem n time _ sound (omega arith)) (omega arith) (
          steps (post_sleep_more (suc m) middle _ sound (omega arith) (omega arith)) (omega arith) (
            call-Runs limit (suc m) middle later (suc rest) factorial_recursion_post_recursive_call
              (value (factorial_argument n) ∷ retrn st ∷ stk) lines
              (frame-IsSound n (retrn st) stk sound) (omega arith) time_fits
              (factor-lt (factorial (suc m)) (suc m) u64_modulus fits)
              (steps (post_call_lem (factorial (suc m)) n later st stk fits sound) (omega arith)
                after))))

  entry_lem :
      (n time : ℕ)
      → task_step b time
          (on_stack task empty (state factorial_entry ∷ value (factorial_input n) ∷ []))
        ≡ ok (
            rescheduled time none (
              at factorial_recursive_call n
                (retrn factorial_done ∷ value (factorial_input n) ∷ [])))
  unfolding task_step
  entry_lem n time = ground arith

  done_lem :
      (r n time : ℕ)
      → task_step b time (returned factorial_done r (value (factorial_input n) ∷ []))
        ≡ ok (
            rescheduled time
              (some (to_decimal n <> ("!=" <> to_decimal r)))
              (on_stack task empty (state completed ∷ [])))
  unfolding task_step
  done_lem r n time = ground arith

bottom-IsSound : (n : ℕ) → IsSound (retrn factorial_done ∷ value (factorial_input n) ∷ [])
unfolding validate_entries
bottom-IsSound n = refl

-- If `factorial n` and the time of its end are below 2^64, the task of `factorial_handler_ws` writes
-- each call of the recursion, from `n` down, at the time when the call's sleep begins, and when all
-- have slept it writes `n!` with its value; then it ends, after `call_steps n 2` and one more steps,
-- none of which panics.
pub factorial_task-Runs :
    (b : Build) (writer time n : ℕ)
    → time + total_sleep n < u64_modulus
    → factorial n < u64_modulus
    → Runs b (time + total_sleep n) (suc (call_steps n 2)) time (factorial_task writer n) (
        call_lines n time
          (line (time + total_sleep n) (to_decimal n <> ("!=" <> to_decimal (factorial n))) ∷ []))
unfolding factorial_task
factorial_task-Runs b writer time n time_fits fits =
    let task = factorial_task writer n in
    let later = time + total_sleep n in
    steps (entry_lem b task n time) (omega arith) (
      call-Runs b task later n time later 2 factorial_done (value (factorial_input n) ∷ []) _
        (bottom-IsSound n) refl time_fits fits
        (steps (done_lem b task (factorial n) n later) (omega arith)
          (ends (completed_lem b task later empty) (omega arith))))
