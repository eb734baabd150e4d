-- ===== src/Maroon/TaskStep/Examples.antt =====
-- step11_ws_state_machine/code/src/main.rs: stacks for `debug_validate_maroon_stack`.
use rust_experiments.Prelude.{◌≡◌, ◌≢◌, ◌↔◌, refl, List, [], ◌∷◌, true}
use rust_experiments.Machine.{Build, ok, panic, invalid_stack}
use rust_experiments.Maroon.Types.{
  MaroonTaskStackEntry, state, retrn, value, factorial_entry, factorial_done, factorial_input,
  factorial_argument,
}
use rust_experiments.Maroon.TaskStep.{debug_validate_maroon_stack, validate_entries}
use rust_experiments.Maroon.TaskStep.Validation.{IsStack, debug_validate_maroon_stack-IsStack}

abbrev test_build : Build
test_build = record { test = true; overflow_checks = true }

-- A call, and the frame that it returns to.
abbrev calling : List MaroonTaskStackEntry
calling =
    state factorial_entry
    ∷ value (factorial_argument 4)
    ∷ retrn factorial_done
    ∷ value (factorial_input 5)
    ∷ []

debug_validate_maroon_stack-IsStack_example :
    (debug_validate_maroon_stack test_build calling ≡ ok tt)
    ↔ (test_build.test ≡ true → (calling ≢ []) × IsStack calling)
debug_validate_maroon_stack-IsStack_example = debug_validate_maroon_stack-IsStack test_build calling

calling_accepted : debug_validate_maroon_stack test_build calling ≡ ok tt
unfolding debug_validate_maroon_stack validate_entries
calling_accepted = refl

variable_missing :
    debug_validate_maroon_stack test_build (state factorial_entry ∷ retrn factorial_done ∷ [])
    ≡ panic invalid_stack
unfolding debug_validate_maroon_stack validate_entries
variable_missing = refl

-- The loop never looks at the kind of the bottom entry.
lone_value : debug_validate_maroon_stack test_build (value (factorial_input 5) ∷ []) ≡ ok tt
unfolding debug_validate_maroon_stack validate_entries
lone_value = refl

-- Nor does it miss the variable of a state there.
lone_state : debug_validate_maroon_stack test_build (state factorial_entry ∷ []) ≡ ok tt
unfolding debug_validate_maroon_stack validate_entries
lone_state = refl
