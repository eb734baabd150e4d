-- ===== src/Maroon/GlobalStep.antt =====
-- step11_ws_state_machine/code/src/main.rs: `global_step`, an arm of its `match` to a function.
-- An arm takes the local variables, the last pushed first, or the heap, and returns the new heap.
use rust_experiments.Prelude.{ℕ, zero, suc, ◌%◌, List, [], ◌∷◌, ◌<>◌, leb, ltb, ◌==◌, if◌then◌else◌}
use rust_experiments.Machine.{
  Build, Outcome, ok, panic, ◌>>=◌, add64, sub64, mul64, unexpected_arguments, heap_type_mismatch,
}
use rust_experiments.Text.{to_decimal}
use rust_experiments.Maroon.Format.{
  format_delayed_message, format_divisor_found, format_divisors_done, format_fibonacci_step,
  format_fibonacci_result,
}
use rust_experiments.Maroon.Types.{
  MaroonTaskState, completed, delayed_message_task_begin, delayed_message_task_execute,
  divisors_task_begin, divisors_task_iteration, divisors_print_and_move_on, fibonacci_task_begin,
  fibonacci_task_calculate, fibonacci_task_result, fibonacci_task_step, factorial_entry,
  factorial_recursive_call, factorial_recursion_post_write, factorial_recursion_post_sleep,
  factorial_recursion_post_recursive_call, factorial_done, MaroonTaskStackEntryValue,
  delay_input_ms, delay_input_message, factorial_input, factorial_argument, factorial_return_value,
  state, retrn, value, MaroonTaskHeap, divisors, fibonacci, MaroonStepResult, done, next, sleep,
  write, return,
}

abbrev pub Vars : Type 0
Vars = List MaroonTaskStackEntryValue

unfoldable pub delay_begin_arm : Vars → Outcome MaroonStepResult
delay_begin_arm (delay_input_message msg ∷ delay_input_ms delay_ms ∷ _) = ok (
    sleep delay_ms (
      value (delay_input_ms delay_ms)
      ∷ value (delay_input_message msg)
      ∷ state delayed_message_task_execute
      ∷ []))
delay_begin_arm _ = panic unexpected_arguments

unfoldable pub delay_execute_arm : Build → Vars → Outcome MaroonStepResult
delay_execute_arm b (delay_input_message msg ∷ delay_input_ms delay_ms ∷ _) =
    ok (write (format_delayed_message b delay_ms msg) (state completed ∷ []))
delay_execute_arm b _ = panic unexpected_arguments

unfoldable pub divisors_begin_arm : MaroonTaskHeap → Outcome (MaroonStepResult × MaroonTaskHeap)
divisors_begin_arm (divisors d) =
    ok (next (state divisors_task_iteration ∷ []), divisors (record d { i = d.n }))
divisors_begin_arm _ = panic heap_type_mismatch

-- `while i > 0 && data.n % i != 0 { i -= 1; }`
unfoldable pub divisor_from : ℕ → ℕ → ℕ
divisor_from n zero = zero
divisor_from n (suc i) = let rest = divisor_from n i in if n % suc i == 0 then suc i else rest

unfoldable pub divisors_iteration_arm :
    Build → MaroonTaskHeap → Outcome (MaroonStepResult × MaroonTaskHeap)
divisors_iteration_arm b (divisors d) =
    let i = divisor_from d.n d.i in
    if i == 0
    then ok (write (format_divisors_done b d.n) (state completed ∷ []), divisors d)
    else do
      sleep_ms ← mul64 b i 10
      ok (sleep sleep_ms (state divisors_print_and_move_on ∷ []), divisors (record d { i = i }))
divisors_iteration_arm b _ = panic heap_type_mismatch

unfoldable pub divisors_print_arm :
    Build → MaroonTaskHeap → Outcome (MaroonStepResult × MaroonTaskHeap)
divisors_print_arm b (divisors d) = do
  let result = write (format_divisor_found b d.n d.i) (state divisors_task_iteration ∷ [])
  i ← sub64 b d.i 1
  ok (result, divisors (record d { i = i }))
divisors_print_arm b _ = panic heap_type_mismatch

unfoldable pub fibonacci_begin_arm :
    Build → MaroonTaskHeap → Outcome (MaroonStepResult × MaroonTaskHeap)
fibonacci_begin_arm b (fibonacci d) =
    if leb d.n 1
    then ok (write (format_fibonacci_result b d.n d.n) (state completed ∷ []), fibonacci d)
    else ok (
      next (state fibonacci_task_calculate ∷ []),
      fibonacci (record d { index = 1; a = 0; b = 1 }),
    )
fibonacci_begin_arm b _ = panic heap_type_mismatch

unfoldable pub fibonacci_calculate_arm :
    Build → MaroonTaskHeap → Outcome (MaroonStepResult × MaroonTaskHeap)
fibonacci_calculate_arm b (fibonacci d) =
    if leb d.n d.index then ok (next (state fibonacci_task_result ∷ []), fibonacci d) else do
      delay ← mul64 b 5 d.index
      ok (
        write (format_fibonacci_step b d.n d.index d.b d.a) (state fibonacci_task_step ∷ []),
        fibonacci (record d { delay_ms = delay }),
      )
fibonacci_calculate_arm b _ = panic heap_type_mismatch

unfoldable pub fibonacci_step_arm :
    Build → MaroonTaskHeap → Outcome (MaroonStepResult × MaroonTaskHeap)
fibonacci_step_arm b (fibonacci d) = do
  next_index ← add64 b d.index 1
  let next_a = d.b
  next_b ← add64 b d.a d.b
  ok (
    sleep d.delay_ms (state fibonacci_task_calculate ∷ []),
    fibonacci (record d { index = next_index; a = next_a; b = next_b }),
  )
fibonacci_step_arm b _ = panic heap_type_mismatch

unfoldable pub fibonacci_result_arm :
    Build → MaroonTaskHeap → Outcome (MaroonStepResult × MaroonTaskHeap)
fibonacci_result_arm b (fibonacci d) =
    ok (write (format_fibonacci_result b d.n d.b) (state completed ∷ []), fibonacci d)
fibonacci_result_arm b _ = panic heap_type_mismatch

unfoldable pub factorial_entry_arm : Vars → Outcome MaroonStepResult
factorial_entry_arm (factorial_input n ∷ _) = ok (
    next (
      value (factorial_input n)
      ∷ retrn factorial_done
      ∷ value (factorial_argument n)
      ∷ state factorial_recursive_call
      ∷ []))
factorial_entry_arm _ = panic unexpected_arguments

unfoldable pub factorial_call_arm : Vars → Outcome MaroonStepResult
factorial_call_arm (factorial_argument n ∷ _) = ok (
    write ("f(" <> (to_decimal n <> ")"))
      (value (factorial_argument n) ∷ state factorial_recursion_post_write ∷ []))
factorial_call_arm _ = panic unexpected_arguments

unfoldable pub factorial_post_write_arm : Build → Vars → Outcome MaroonStepResult
factorial_post_write_arm b (factorial_argument n ∷ _) = do
  sleep_ms ← mul64 b n 50
  ok (sleep sleep_ms (value (factorial_argument n) ∷ state factorial_recursion_post_sleep ∷ []))
factorial_post_write_arm b _ = panic unexpected_arguments

unfoldable pub factorial_post_sleep_arm : Build → Vars → Outcome MaroonStepResult
factorial_post_sleep_arm b (factorial_argument n ∷ _) =
    if ltb 1 n
    then (do
      below ← sub64 b n 1
      ok (
          next (
            value (factorial_argument n)
            ∷ retrn factorial_recursion_post_recursive_call
            ∷ value (factorial_argument below)
            ∷ state factorial_recursive_call
            ∷ [])))
    else ok (return (factorial_return_value 1))
factorial_post_sleep_arm b _ = panic unexpected_arguments

unfoldable pub factorial_post_call_arm : Build → Vars → Outcome MaroonStepResult
factorial_post_call_arm b (factorial_return_value a ∷ factorial_argument n ∷ _) = do
  product ← mul64 b a n
  ok (return (factorial_return_value product))
factorial_post_call_arm b _ = panic unexpected_arguments

unfoldable pub factorial_done_arm : Vars → Outcome MaroonStepResult
factorial_done_arm (factorial_return_value r ∷ factorial_input n ∷ _) =
    ok (write (to_decimal n <> ("!=" <> to_decimal r)) (state completed ∷ []))
factorial_done_arm _ = panic unexpected_arguments

-- An arm that does not touch the heap.
abbrev keep :
    MaroonTaskHeap → Outcome MaroonStepResult → Outcome (MaroonStepResult × MaroonTaskHeap)
keep heap m = do result ← m; ok (result, heap)

unfoldable pub global_step :
    Build → MaroonTaskState → Vars → MaroonTaskHeap → Outcome (MaroonStepResult × MaroonTaskHeap)
unfolding delay_begin_arm delay_execute_arm divisors_begin_arm divisors_iteration_arm
    divisors_print_arm fibonacci_begin_arm fibonacci_calculate_arm fibonacci_step_arm
    fibonacci_result_arm factorial_entry_arm factorial_call_arm factorial_post_write_arm
    factorial_post_sleep_arm factorial_post_call_arm factorial_done_arm
global_step b delayed_message_task_begin vars heap = keep heap (delay_begin_arm vars)
global_step b delayed_message_task_execute vars heap = keep heap (delay_execute_arm b vars)
global_step b divisors_task_begin vars heap = divisors_begin_arm heap
global_step b divisors_task_iteration vars heap = divisors_iteration_arm b heap
global_step b divisors_print_and_move_on vars heap = divisors_print_arm b heap
global_step b fibonacci_task_begin vars heap = fibonacci_begin_arm b heap
global_step b fibonacci_task_calculate vars heap = fibonacci_calculate_arm b heap
global_step b fibonacci_task_step vars heap = fibonacci_step_arm b heap
global_step b fibonacci_task_result vars heap = fibonacci_result_arm b heap
global_step b factorial_entry vars heap = keep heap (factorial_entry_arm vars)
global_step b factorial_recursive_call vars heap = keep heap (factorial_call_arm vars)
global_step b factorial_recursion_post_write vars heap = keep heap (factorial_post_write_arm b vars)
global_step b factorial_recursion_post_sleep vars heap = keep heap (factorial_post_sleep_arm b vars)
global_step b factorial_recursion_post_recursive_call vars heap =
    keep heap (factorial_post_call_arm b vars)
global_step b factorial_done vars heap = keep heap (factorial_done_arm vars)
global_step b completed vars heap = ok (done, heap)
