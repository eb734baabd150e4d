-- ===== src/Runtime/Examples.antt =====
-- The theorems about the runtime at concrete requests, over the list as a heap.
use rust_experiments.Prelude.{
  suc, ◌+◌, ◌*◌, ◌≡◌, ◌≢◌, ◌<◌, List, [], ◌∷◌, some, none, true, false, arith, ◌<>◌, All, ◌⊎◌, ◌∙◌,
}
use rust_experiments.Machine.{Build, ok, panic, task_not_found}
use rust_experiments.Text.{to_decimal}
use rust_experiments.Maroon.Runs.{Runs, line}
use rust_experiments.Maroon.Format.{format_delayed_message}
use rust_experiments.Maroon.Tasks.Delay.{delay_task, delay_task-Runs}
use rust_experiments.Maroon.Tasks.Divisors.{
  divisors_task, divisor_sum, divisor_steps, divisor_lines, divisors_task-Runs,
}
use rust_experiments.Maroon.Tasks.Fibonacci.{
  fibonacci_task, fib, fibonacci_task_steps, fibonacci_lines, fibonacci_task-Runs,
}
use rust_experiments.Maroon.Tasks.Factorial.{
  factorial_task, factorial, total_sleep, call_steps, call_lines, factorial_task-Runs,
}
use rust_experiments.Runtime.BinaryHeap.ListHeap.{list_heap}
use rust_experiments.Runtime.Defs.{
  App, new_app, schedule, execute_one, execute_pending_operations_inner,
}
use rust_experiments.Runtime.Live.{Live, Tracks}
use rust_experiments.Runtime.Promises.{Advanced, execute_one-Advanced, Settled, loop-Settled}
use rust_experiments.Runtime.Handlers.{delay, divisors, fibonacci, factorial_of}
use rust_experiments.Runtime.System.{
  Reachable, starts, goes_on, arrives, handle-schedule, execute_one-ne-panic, schedule-Tracks,
  scheduled, new_app-Tracks,
}
use rust_experiments.Runtime.Arrivals.{Arrival}
use rust_experiments.Runtime.Serve.{serve, Served, serve-Served}

abbrev testing : Build
testing = record { test = true; overflow_checks = true }

abbrev released : Build
released = record { test = false; overflow_checks = false }

abbrev arrivals : List Arrival
arrivals =
    record { writer = 0; time = 0; request = divisors 12 }
    ∷ record { writer = 1; time = 0; request = delay 225 "HI" }
    ∷ record { writer = 2; time = 7; request = fibonacci 5 }
    ∷ record { writer = 3; time = 9; request = factorial_of 5 }
    ∷ []

serve-Served_example :
    (app : App list_heap) × (serve list_heap released 100 (λ k. 1000 + k) arrivals ≡ some (ok app))
    × Served list_heap released arrivals app
unfolding divisor_sum divisor_steps fib fibonacci_task_steps factorial total_sleep call_steps
serve-Served_example =
    serve-Served list_heap released arrivals 1000 100 (λ k. 1000 + k) (omega arith) (omega arith)
      (omega arith) (omega arith) (omega arith) (λ k. omega arith)

delay_task-Runs_example :
    Runs released 225 3 0
      (delay_task 1 225 "HI")
      (line 225 (format_delayed_message released 225 "HI") ∷ [])
delay_task-Runs_example = delay_task-Runs released 1 0 225 "HI" (omega arith)

divisors_task-Runs_example :
    Runs testing
      (10_000 + 10 * divisor_sum 9 9)
      (suc (divisor_steps 9 9))
      10_000
      (divisors_task 0 9)
      (divisor_lines testing 9 10_000 9)
unfolding divisor_sum
divisors_task-Runs_example = divisors_task-Runs testing 0 10_000 9 (omega arith)

fibonacci_task-Runs_example :
    Runs testing 125 (fibonacci_task_steps 5) 0 (fibonacci_task 0 5) (fibonacci_lines testing 5 0)
unfolding fib
fibonacci_task-Runs_example = fibonacci_task-Runs testing 0 0 5 (omega arith) (omega arith)

factorial_task-Runs_example :
    Runs released (9 + total_sleep 20) (suc (call_steps 20 2)) 9 (factorial_task 3 20) (
      call_lines 20 9
        (line (9 + total_sleep 20) (to_decimal 20 <> ("!=" <> to_decimal (factorial 20))) ∷ []))
unfolding factorial total_sleep
factorial_task-Runs_example = factorial_task-Runs released 3 9 20 (omega arith) (omega arith)

hello_Runs :
    Runs testing 225 3 0
      (delay_task 1 225 "HI")
      (line 225 (format_delayed_message testing 225 "HI") ∷ [])
hello_Runs = delay_task-Runs testing 1 0 225 "HI" (omega arith)

schedule-Tracks_example :
    (app' : App list_heap) × (schedule list_heap testing
        (delay_task 1 225 "HI")
        0
        (new_app list_heap)
      ≡ ok app')
    × Tracks list_heap testing
        (scheduled list_heap testing []
            (new_app list_heap)
            (new_app-Tracks list_heap testing)
            0
            225
            3
            (delay_task 1 225 "HI")
            _
            hello_Runs
          ∷ [])
        app'
    × (app'.written ≡ [])
    × (app'.fsm.task_id_generator.next_task_id ≡ 2)
schedule-Tracks_example =
    schedule-Tracks list_heap testing [] (new_app list_heap) (new_app-Tracks list_heap testing) 0
      225 3 (delay_task 1 225 "HI") _ hello_Runs (omega arith)

hello_scheduled :
    (app' : App list_heap) × (schedule list_heap testing
        (delay_task 1 225 "HI")
        0
        (new_app list_heap)
      ≡ ok app')
    × Tracks list_heap testing
        (scheduled list_heap testing []
            (new_app list_heap)
            (new_app-Tracks list_heap testing)
            0
            225
            3
            (delay_task 1 225 "HI")
            _
            hello_Runs
          ∷ [])
        app'
    × (app'.written ≡ [])
    × (app'.fsm.task_id_generator.next_task_id ≡ 2)
hello_scheduled =
    schedule-Tracks list_heap testing [] (new_app list_heap) (new_app-Tracks list_heap testing) 0
      225 3 (delay_task 1 225 "HI") _ hello_Runs (omega arith)

-- A task for the message "HI", scheduled for the time 0 in the empty runtime.
abbrev hello : Live testing
hello =
    scheduled list_heap testing [] (new_app list_heap) (new_app-Tracks list_heap testing) 0 225 3
      (delay_task 1 225 "HI") _ hello_Runs

abbrev hello_app : App list_heap
hello_app = hello_scheduled.0

hello-Tracks : Tracks list_heap testing (hello ∷ []) hello_app
hello-Tracks = hello_scheduled.2

execute_one-Advanced_example :
    ((execute_one list_heap testing 300 hello_app ≡ ok none) × All (λ l. 300 < l.time) (hello ∷ []))
    ⊎ ((app' : App list_heap) × (execute_one list_heap testing 300 hello_app ≡ ok (some app'))
        × Advanced list_heap 300 (hello ∷ []) hello_app app')
execute_one-Advanced_example =
    execute_one-Advanced list_heap 300 (hello ∷ []) hello_app hello-Tracks (tt, tt)

loop-Settled_example :
    (app' : App list_heap) × (execute_pending_operations_inner list_heap testing 9
        (λ k. 100 * k)
        hello_app
      ≡ some (ok app'))
    × Settled list_heap (λ k. 100 * k) 0 (hello ∷ []) hello_app app'
loop-Settled_example =
    loop-Settled list_heap 9 (λ k. 100 * k) 0 (hello ∷ []) hello_app hello-Tracks (tt, tt)
      (omega arith) (omega arith, tt)

hello-Reachable : Reachable list_heap testing hello_app
hello-Reachable = goes_on starts (
    arrives (delay 225 "HI") 1 0 (omega arith) (omega arith) (
      handle-schedule list_heap testing 1 0 (delay 225 "HI") (new_app list_heap)
      ∙ hello_scheduled.1))

execute_one-ne-panic_example : execute_one list_heap testing 300 hello_app ≢ panic task_not_found
execute_one-ne-panic_example =
    execute_one-ne-panic list_heap testing hello_app hello-Reachable 300 task_not_found
