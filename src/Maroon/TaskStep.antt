-- ===== src/Maroon/TaskStep.antt =====
-- step11_ws_state_machine/code/src/main.rs: one step of one task, the part of the loop of
-- `execute_pending_operations_inner` between taking a task and giving it back, and
-- `debug_validate_maroon_stack`, which a test build calls there.
pub mod Writer
mod Validation
mod Examples
use rust_experiments.Prelude.{
  ℕ, zero, suc, List, [], ◌∷◌, length, Option, none, some, String, leb, if◌then◌else◌,
}
use rust_experiments.Machine.{
  Build, Outcome, ok, panic, ◌>>=◌, ◌>>◌, assert, no_state_in_call_stack, not_a_state, not_a_value,
  nowhere_to_return, not_a_return_address, invalid_stack,
}
use rust_experiments.Maroon.Types.{
  LogicalTimeAbsoluteMs, add_delta, MaroonTaskState, maroon_task_state_local_vars_count,
  maroon_task_state_return_local_vars_count, MaroonTaskStackEntry, state, retrn, value,
  MaroonTaskStack, MaroonTaskHeap, MaroonStepResult, done, next, sleep, write, return,
}
use rust_experiments.Maroon.GlobalStep.{Vars, global_step}

-- A writer is known by a number.
pub record MaroonTask : Type 0 where
  pub description : String
  pub writer : ℕ
  pub maroon_stack : MaroonTaskStack
  pub maroon_heap : MaroonTaskHeap

abbrev entry_vars_count : MaroonTaskStackEntry → Outcome ℕ
entry_vars_count (state s) = ok (maroon_task_state_local_vars_count s)
entry_vars_count (retrn s) = ok (maroon_task_state_return_local_vars_count s)
entry_vars_count (value v) = panic invalid_stack

-- The loop of `debug_validate_maroon_stack`, `pending` values before the next state or return
-- address. The bottom entry is looked at only as a variable: the source's loop ends at `i == 0`.
unfoldable pub validate_entries : ℕ → List MaroonTaskStackEntry → Outcome (Unit {0})
unfolding maroon_task_state_local_vars_count maroon_task_state_return_local_vars_count
validate_entries zero [] = ok tt
validate_entries zero (e ∷ []) = ok tt
validate_entries zero (e ∷ e' ∷ stk) = do
  let rest = λ (n : ℕ). validate_entries n (e' ∷ stk)
  n ← entry_vars_count e
  assert (leb n (length (e' ∷ stk))) invalid_stack
  rest n
validate_entries (suc n) (value v ∷ stk) = validate_entries n stk
validate_entries (suc n) _ = panic invalid_stack

-- A build that is no test has an empty function of that name.
unfoldable pub debug_validate_maroon_stack : Build → List MaroonTaskStackEntry → Outcome (Unit {0})
unfolding validate_entries
debug_validate_maroon_stack b [] = if b.test then panic invalid_stack else ok tt
debug_validate_maroon_stack b (e ∷ stk) = if b.test then validate_entries zero (e ∷ stk) else ok tt

-- `for new_state in new_states_vec.into_iter() { ….push(new_state); }`
unfoldable pub push_all :
    List MaroonTaskStackEntry → List MaroonTaskStackEntry → List MaroonTaskStackEntry
push_all [] stk = stk
push_all (e ∷ new_states) stk = push_all new_states (e ∷ stk)

-- A stack from the source's vector.
unfoldable pub of_vec : List MaroonTaskStackEntry → MaroonTaskStack
unfolding push_all
of_vec entries = record { maroon_stack_entries = push_all entries [] }

unfoldable pub pop_state :
    List MaroonTaskStackEntry → Outcome (MaroonTaskState × List MaroonTaskStackEntry)
pop_state [] = panic no_state_in_call_stack
pop_state (state s ∷ stk) = ok (s, stk)
pop_state (e ∷ stk) = panic not_a_state

unfoldable pub pop_vars : ℕ → List MaroonTaskStackEntry → Outcome (Vars × List MaroonTaskStackEntry)
pop_vars zero stk = ok ([], stk)
pop_vars (suc n) (value v ∷ stk) = do (vars, rest) ← pop_vars n stk; ok (v ∷ vars, rest)
pop_vars (suc n) _ = panic not_a_value

unfoldable pub pop_return_address :
    List MaroonTaskStackEntry → Outcome (MaroonTaskState × List MaroonTaskStackEntry)
pop_return_address [] = panic nowhere_to_return
pop_return_address (retrn s ∷ stk) = ok (s, stk)
pop_return_address (e ∷ stk) = panic not_a_return_address

-- What a step does with its task: drop it, or write a text, if any, and schedule the task again.
pub data StepEffect : Type 0 where
  finished : StepEffect
  rescheduled : LogicalTimeAbsoluteMs → Option String → MaroonTask → StepEffect

-- A task with its heap and its stack given anew.
abbrev pub on_stack : MaroonTask → MaroonTaskHeap → List MaroonTaskStackEntry → MaroonTask
on_stack task heap entries = record task {
  maroon_stack = record { maroon_stack_entries = entries };
  maroon_heap = heap;
}

module _ (b : Build) (scheduled_timestamp : LogicalTimeAbsoluteMs) (maroon_task : MaroonTask) where
  -- The new states are pushed, and the stack is validated.
  unfoldable pub continue :
      MaroonTaskHeap → List MaroonTaskStackEntry → List MaroonTaskStackEntry → Outcome MaroonTask
  continue heap stk new_states = do
    let entries = push_all new_states stk
    debug_validate_maroon_stack b entries
    ok (on_stack maroon_task heap entries)

  -- The `match` on the result of `global_step`.
  unfoldable pub apply_result :
      MaroonTaskHeap → List MaroonTaskStackEntry → MaroonStepResult → Outcome StepEffect
  unfolding push_all debug_validate_maroon_stack pop_return_address continue
  apply_result heap stk done = ok finished
  apply_result heap stk (sleep sleep_ms new_states) = do
    task ← continue heap stk new_states
    time ← add_delta b scheduled_timestamp sleep_ms
    ok (rescheduled time none task)
  apply_result heap stk (write text new_states) = do
    task ← continue heap stk new_states
    ok (rescheduled scheduled_timestamp (some text) task)
  apply_result heap stk (next new_states) = do
    task ← continue heap stk new_states
    ok (rescheduled scheduled_timestamp none task)
  apply_result heap stk (return retval) = do
    (next_state, rest) ← pop_return_address stk
    let entries = state next_state ∷ value retval ∷ rest
    ok (rescheduled scheduled_timestamp none (on_stack maroon_task heap entries))

  unfoldable pub task_step : Outcome StepEffect
  unfolding global_step apply_result pop_vars pop_state maroon_task_state_local_vars_count
  task_step = do
    let entries = maroon_task.maroon_stack.maroon_stack_entries
    debug_validate_maroon_stack b entries
    (current_state, below) ← pop_state entries
    (vars, stk) ← pop_vars (maroon_task_state_local_vars_count current_state) below
    (result, heap) ← global_step b current_state vars maroon_task.maroon_heap
    apply_result heap stk result
