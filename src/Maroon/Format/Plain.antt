-- ===== src/Maroon/Format/Plain.antt =====
-- step11_ws_state_machine/code/src/main.rs: the `cfg(not(test))` texts.
use rust_experiments.Prelude.{ℕ, String, ◌<>◌}
use rust_experiments.Text.{to_decimal}
use rust_experiments.Maroon.Types.{LogicalTimeAbsoluteMs}

unfoldable pub format_delayed_message : LogicalTimeAbsoluteMs → String → String
unfolding to_decimal
format_delayed_message sleep_ms message =
    "Delayed by " <> (to_decimal sleep_ms <> ("ms: `" <> (message <> "`.")))

unfoldable pub format_divisor_found : ℕ → ℕ → String
unfolding to_decimal
format_divisor_found n i = "A divisor of " <> (to_decimal n <> (" is " <> (to_decimal i <> ".")))

unfoldable pub format_divisors_done : ℕ → String
unfolding to_decimal
format_divisors_done n = "Done for " <> (to_decimal n <> "!")

unfoldable pub format_fibonacci_step : ℕ → ℕ → ℕ → ℕ → String
unfolding to_decimal
format_fibonacci_step n index a _ =
    "Fibonacci("
    <> (to_decimal n <> (") for " <> (to_decimal index <> (" : " <> (to_decimal a <> ".")))))

unfoldable pub format_fibonacci_result : ℕ → ℕ → String
unfolding to_decimal
format_fibonacci_result n result = "Fibonacci[" <> (to_decimal n <> ("] = " <> to_decimal result))
