-- ===== src/Maroon/TaskStep/Writer.antt =====
-- A step leaves a task with its writer.
use rust_experiments.Prelude.{ℕ, ◌≡◌, refl, sym, subst, List, Option, String, arith}
use rust_experiments.Machine.{Build, Outcome, ok, panic, ◌>>=◌, bind-returned, add64}
use rust_experiments.Maroon.Types.{
  MaroonTaskHeap, MaroonTaskStackEntry, MaroonStepResult, done, next, sleep, write, return,
  maroon_task_state_local_vars_count,
}
use rust_experiments.Maroon.GlobalStep.{global_step}
use rust_experiments.Maroon.TaskStep.{
  MaroonTask, StepEffect, rescheduled, continue, apply_result, task_step,
  debug_validate_maroon_stack, push_all, pop_return_address, pop_state, pop_vars,
}

module _ (task : MaroonTask) where
  abbrev KeepsWriter : Outcome StepEffect → Type 0
  KeepsWriter (ok (rescheduled later text task')) = task'.writer ≡ task.writer
  KeepsWriter _ = Unit

  bind-KeepsWriter :
      {A : Type 0} (m : Outcome A) (f : A → Outcome StepEffect)
      → ((a : A) → m ≡ ok a → KeepsWriter (f a))
      → KeepsWriter (m >>= f)
  bind-KeepsWriter (ok a) f h = h a refl
  bind-KeepsWriter (panic e) f h = tt

module _ (b : Build) (time : ℕ) (task : MaroonTask) where
  continue-writer :
      (heap : MaroonTaskHeap) (stk new_states : List MaroonTaskStackEntry) (task' : MaroonTask)
      → continue b time task heap stk new_states ≡ ok task'
      → task'.writer ≡ task.writer
  unfolding continue
  continue-writer heap stk new_states task' h =
      let (_, e) =
        bind-returned _ (debug_validate_maroon_stack b (push_all new_states stk)) (sym h) in
      ground arith

  apply_result-KeepsWriter :
      (heap : MaroonTaskHeap) (stk : List MaroonTaskStackEntry) (result : MaroonStepResult)
      → KeepsWriter task (apply_result b time task heap stk result)
  unfolding apply_result
  apply_result-KeepsWriter heap stk done = tt
  apply_result-KeepsWriter heap stk (sleep ms new_states) =
      bind-KeepsWriter task (continue b time task heap stk new_states) _ λ task' e.
        bind-KeepsWriter task (add64 b time ms) _ λ _ _. continue-writer heap stk new_states task' e
  apply_result-KeepsWriter heap stk (write text new_states) =
      bind-KeepsWriter task (continue b time task heap stk new_states) _
        (continue-writer heap stk new_states)
  apply_result-KeepsWriter heap stk (next new_states) =
      bind-KeepsWriter task (continue b time task heap stk new_states) _
        (continue-writer heap stk new_states)
  apply_result-KeepsWriter heap stk (return retval) =
      bind-KeepsWriter task (pop_return_address stk) _ λ _ _. refl

  task_step-KeepsWriter : KeepsWriter task (task_step b time task)
  unfolding task_step
  task_step-KeepsWriter =
      let entries = task.maroon_stack.maroon_stack_entries in
      bind-KeepsWriter task (debug_validate_maroon_stack b entries) _ λ _ _.
        bind-KeepsWriter task (pop_state entries) _ λ (s, below) _.
          bind-KeepsWriter task (pop_vars (maroon_task_state_local_vars_count s) below) _
            λ (vars, stk) _.
              bind-KeepsWriter task (global_step b s vars task.maroon_heap) _
                λ (result, heap) _. apply_result-KeepsWriter heap stk result

  pub task_step-writer :
      (later : ℕ) (text : Option String) (task' : MaroonTask)
      → task_step b time task ≡ ok (rescheduled later text task')
      → task'.writer ≡ task.writer
  task_step-writer later text task' e = subst (KeepsWriter task) e task_step-KeepsWriter
