-- ===== src/Maroon/Format.antt =====
-- step11_ws_state_machine/code/src/main.rs: the texts that tasks write. Each function has two
-- definitions there, of which `cfg(test)` chooses one: `Plain` for the program, `Test` for tests.
mod Plain
mod Test
use rust_experiments.Prelude.{ℕ, String, if◌then◌else◌}
use rust_experiments.Machine.{Build}
use rust_experiments.Maroon.Types.{LogicalTimeAbsoluteMs}

unfoldable pub format_delayed_message : Build → LogicalTimeAbsoluteMs → String → String
unfolding Plain.format_delayed_message Test.format_delayed_message
format_delayed_message b sleep_ms message =
    if b.test
    then Test.format_delayed_message sleep_ms message
    else Plain.format_delayed_message sleep_ms message

unfoldable pub format_divisor_found : Build → ℕ → ℕ → String
unfolding Plain.format_divisor_found Test.format_divisor_found
format_divisor_found b n i =
    if b.test then Test.format_divisor_found n i else Plain.format_divisor_found n i

unfoldable pub format_divisors_done : Build → ℕ → String
unfolding Plain.format_divisors_done Test.format_divisors_done
format_divisors_done b n =
    if b.test then Test.format_divisors_done n else Plain.format_divisors_done n

unfoldable pub format_fibonacci_step : Build → ℕ → ℕ → ℕ → ℕ → String
unfolding Plain.format_fibonacci_step Test.format_fibonacci_step
format_fibonacci_step b n index a a' =
    if b.test
    then Test.format_fibonacci_step n index a a'
    else Plain.format_fibonacci_step n index a a'

unfoldable pub format_fibonacci_result : Build → ℕ → ℕ → String
unfolding Plain.format_fibonacci_result Test.format_fibonacci_result
format_fibonacci_result b n result =
    if b.test then Test.format_fibonacci_result n result else Plain.format_fibonacci_result n result
