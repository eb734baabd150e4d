-- ===== src/Maroon/Types.antt =====
-- step11_ws_state_machine/code/src/main.rs: the data of the state machine.
-- `LogicalTimeAbsoluteMs`, `LogicalTimeDeltaMs` and `MaroonTaskId` wrap a `u64`, and are numbers.
use rust_experiments.Prelude.{ℕ, List, String}
use rust_experiments.Machine.{Build, Outcome, add64}

abbrev pub LogicalTimeAbsoluteMs : Type 0
LogicalTimeAbsoluteMs = ℕ

abbrev pub LogicalTimeDeltaMs : Type 0
LogicalTimeDeltaMs = ℕ

abbrev pub MaroonTaskId : Type 0
MaroonTaskId = ℕ

-- `LogicalTimeAbsoluteMs + LogicalTimeDeltaMs`
abbrev pub add_delta :
    Build → LogicalTimeAbsoluteMs → LogicalTimeDeltaMs → Outcome LogicalTimeAbsoluteMs
add_delta b time delta = add64 b time delta

pub data MaroonTaskState : Type 0 where
  completed : MaroonTaskState
  delayed_message_task_begin : MaroonTaskState
  delayed_message_task_execute : MaroonTaskState
  divisors_task_begin : MaroonTaskState
  divisors_task_iteration : MaroonTaskState
  divisors_print_and_move_on : MaroonTaskState
  fibonacci_task_begin : MaroonTaskState
  fibonacci_task_calculate : MaroonTaskState
  fibonacci_task_result : MaroonTaskState
  fibonacci_task_step : MaroonTaskState
  factorial_entry : MaroonTaskState
  factorial_recursive_call : MaroonTaskState
  factorial_recursion_post_write : MaroonTaskState
  factorial_recursion_post_sleep : MaroonTaskState
  factorial_recursion_post_recursive_call : MaroonTaskState
  factorial_done : MaroonTaskState

pub data MaroonTaskStackEntryValue : Type 0 where
  delay_input_ms : ℕ → MaroonTaskStackEntryValue
  delay_input_message : String → MaroonTaskStackEntryValue
  factorial_input : ℕ → MaroonTaskStackEntryValue
  factorial_argument : ℕ → MaroonTaskStackEntryValue
  factorial_return_value : ℕ → MaroonTaskStackEntryValue

-- How many entries under a `state` are its local variables.
unfoldable pub maroon_task_state_local_vars_count : MaroonTaskState → ℕ
maroon_task_state_local_vars_count factorial_entry = 1
maroon_task_state_local_vars_count factorial_recursive_call = 1
maroon_task_state_local_vars_count factorial_recursion_post_write = 1
maroon_task_state_local_vars_count factorial_recursion_post_sleep = 1
maroon_task_state_local_vars_count factorial_recursion_post_recursive_call = 2
maroon_task_state_local_vars_count factorial_done = 2
maroon_task_state_local_vars_count delayed_message_task_begin = 2
maroon_task_state_local_vars_count delayed_message_task_execute = 2
maroon_task_state_local_vars_count _ = 0

-- How many entries under a `retrn` belong to the frame that it returns to.
unfoldable pub maroon_task_state_return_local_vars_count : MaroonTaskState → ℕ
maroon_task_state_return_local_vars_count factorial_done = 1
maroon_task_state_return_local_vars_count factorial_recursion_post_recursive_call = 1
maroon_task_state_return_local_vars_count _ = 0

pub data MaroonTaskStackEntry : Type 0 where
  state : MaroonTaskState → MaroonTaskStackEntry
  retrn : MaroonTaskState → MaroonTaskStackEntry
  value : MaroonTaskStackEntryValue → MaroonTaskStackEntry

-- The entries, the last pushed first: the head of the list is the end of the source's vector.
pub record MaroonTaskStack : Type 0 where
  pub maroon_stack_entries : List MaroonTaskStackEntry

pub record MaroonTaskHeapDivisors : Type 0 where
  pub n : ℕ
  pub i : ℕ

pub record MaroonTaskHeapFibonacci : Type 0 where
  pub n : ℕ
  pub index : ℕ
  pub a : ℕ
  pub b : ℕ
  pub delay_ms : LogicalTimeDeltaMs

pub data MaroonTaskHeap : Type 0 where
  empty : MaroonTaskHeap
  divisors : MaroonTaskHeapDivisors → MaroonTaskHeap
  fibonacci : MaroonTaskHeapFibonacci → MaroonTaskHeap

-- The vectors stand in the source's order: their last entry is pushed last.
pub data MaroonStepResult : Type 0 where
  done : MaroonStepResult
  next : List MaroonTaskStackEntry → MaroonStepResult
  sleep : LogicalTimeDeltaMs → List MaroonTaskStackEntry → MaroonStepResult
  write : String → List MaroonTaskStackEntry → MaroonStepResult
  return : MaroonTaskStackEntryValue → MaroonStepResult
