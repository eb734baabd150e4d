-- ===== src/Runtime/Scenarios.antt =====
-- step11_ws_state_machine/code/src/main.rs: the three tests of its `mod tests`, run by evaluation.
use text.Mathlib.Text.{◌==◌ as ◌===◌}
use rust_experiments.Prelude.{
  Bool, false, if◌then◌else◌, ℕ, ◌≡◌, refl, List, [], ◌∷◌, map, Option, none, some, String, ◌<>◌,
  true,
}
use rust_experiments.Machine.{Build, Outcome, ok, add64, mul64, sub64}
use rust_experiments.Text.{to_decimal}
use rust_experiments.Maroon.Format.{
  format_delayed_message, format_divisor_found, format_divisors_done, format_fibonacci_step,
  format_fibonacci_result,
}
use rust_experiments.Maroon.GlobalStep.{divisor_from}
use rust_experiments.Maroon.TaskStep.{MaroonTask, task_step}
use rust_experiments.Maroon.Tasks.Delay.{delay_task}
use rust_experiments.Maroon.Tasks.Divisors.{divisors_task}
use rust_experiments.Maroon.Tasks.Fibonacci.{fibonacci_task}
use rust_experiments.Maroon.Tasks.Factorial.{factorial_task}
use rust_experiments.Runtime.BinaryHeap.ListHeap.{list_heap, pop_entry, peek_entry}
use rust_experiments.Runtime.Defs.{
  App, new_app, Written, schedule, execute_pending_operations_inner, execute_one, take_due,
  run_operation, remove, give_back,
}

abbrev testing : Build
testing = record { test = true; overflow_checks = true }

-- The calls that the tests make, and what they assert of the texts that are written.
pub data Event : Type 0 where
  schedules : ℕ → MaroonTask → Event
  set_time : ℕ → Event
  executes : Event
  clear_outputs : Event
  asserts : String → Event

-- The application with its mock timer.
record Tested : Type 0 where
  app : App list_heap
  now : ℕ

-- `MockWriter`: the text with its time in front.
abbrev pub mock_text : Written → String
mock_text w = to_decimal w.line.time <> ("ms:" <> w.line.text)

abbrev pub join : List String → String
join [] = ""
join (s ∷ []) = s
join (s ∷ t ∷ ts) = s <> (";" <> join (t ∷ ts))

abbrev pub get_outputs_as_string : App list_heap → String
get_outputs_as_string app = join (map mock_text app.written)

-- `none` is a loop out of fuel, a panic, or an assertion that fails.
abbrev returned : ℕ → Option (Outcome (App list_heap)) → Option Tested
returned now (some (ok app)) = some (record { app = app; now = now })
returned now _ = none

handle : Event → Tested → Option Tested
unfolding schedule execute_pending_operations_inner execute_one take_due run_operation remove
    task_step give_back pop_entry peek_entry
handle (schedules time task) t = returned t.now (some (schedule list_heap testing task time t.app))
handle (set_time now) t = some (record t { now = now })
handle executes t =
    returned t.now (execute_pending_operations_inner list_heap testing 100 (λ _. t.now) t.app)
handle clear_outputs t = some (record t { app = record t.app { written = [] } })
handle (asserts expected) t = if get_outputs_as_string t.app === expected then some t else none

scenario : List Event → Tested → Bool
unfolding handle
scenario [] t = true
scenario (e ∷ es) t = elim (handle e t) [ none ↦ false | some t' ↦ scenario es t' ]

passes : List Event → Bool
unfolding scenario to_decimal delay_task divisors_task fibonacci_task factorial_task divisor_from
    add64 mul64 sub64 format_delayed_message format_divisor_found format_divisors_done
    format_fibonacci_step format_fibonacci_result
passes events = scenario events (record { app = new_app list_heap; now = 0 })

abbrev pub described : String → MaroonTask → MaroonTask
described text task = record task { description = text }

abbrev pub test_state_machine_and_execution : List Event
test_state_machine_and_execution =
    schedules 0 (described "Divisors of 12" (divisors_task 0 12))
    ∷ schedules 0 (described "Hello" (delay_task 0 225 "HI"))
    ∷ schedules 200 (described "Bye" (delay_task 0 75 "BYE"))
    ∷ set_time 225
    ∷ executes
    ∷ asserts (join ("120ms:12%12==0" ∷ "180ms:12%6==0" ∷ "220ms:12%4==0" ∷ "225ms:HI" ∷ []))
    ∷ set_time 1000
    ∷ executes
    ∷ asserts (
        join (
          "120ms:12%12==0" ∷ "180ms:12%6==0" ∷ "220ms:12%4==0" ∷ "225ms:HI" ∷ "250ms:12%3==0"
          ∷ "270ms:12%2==0" ∷ "275ms:BYE" ∷ "280ms:12%1==0" ∷ "280ms:12!" ∷ []))
    ∷ clear_outputs
    ∷ schedules 10_000 (described "" (divisors_task 0 8))
    ∷ schedules 10_001 (described "" (divisors_task 0 9))
    ∷ schedules 10_002 (described "" (divisors_task 0 3))
    ∷ set_time 20_000
    ∷ executes
    ∷ asserts (
        join (
          "10032ms:3%3==0" ∷ "10042ms:3%1==0" ∷ "10042ms:3!" ∷ "10080ms:8%8==0" ∷ "10091ms:9%9==0"
          ∷ "10120ms:8%4==0" ∷ "10121ms:9%3==0" ∷ "10131ms:9%1==0" ∷ "10131ms:9!" ∷ "10140ms:8%2==0"
          ∷ "10150ms:8%1==0" ∷ "10150ms:8!" ∷ []))
    ∷ []

abbrev pub test_fibonacci_task : List Event
test_fibonacci_task =
    schedules 0 (described "The fifth Fibonacci number" (fibonacci_task 0 5))
    ∷ set_time 4
    ∷ executes
    ∷ asserts "0ms:fib1[5]=1"
    ∷ set_time 10
    ∷ executes
    ∷ asserts "0ms:fib1[5]=1;5ms:fib2[5]=1"
    ∷ set_time 100
    ∷ executes
    ∷ asserts (
        join (
          "0ms:fib1[5]=1" ∷ "5ms:fib2[5]=1" ∷ "15ms:fib3[5]=2" ∷ "30ms:fib4[5]=3" ∷ "50ms:fib5=5"
          ∷ []))
    ∷ []

abbrev pub test_factorial_task : List Event
test_factorial_task =
    schedules 0 (described "Factorial of 5" (factorial_task 0 5))
    ∷ set_time 100
    ∷ executes
    ∷ asserts "0ms:f(5)"
    ∷ set_time 1000
    ∷ executes
    ∷ asserts "0ms:f(5);250ms:f(4);450ms:f(3);600ms:f(2);700ms:f(1);750ms:5!=120"
    ∷ []

state_machine_passes : passes test_state_machine_and_execution ≡ true
unfolding passes
state_machine_passes = refl

fibonacci_passes : passes test_fibonacci_task ≡ true
unfolding passes
fibonacci_passes = refl

factorial_passes : passes test_factorial_task ≡ true
unfolding passes
factorial_passes = refl
