-- ===== src/Maroon/Format/Test.antt =====
-- step11_ws_state_machine/code/src/main.rs: the `cfg(test)` texts.
use rust_experiments.Prelude.{ℕ, String, ◌<>◌}
use rust_experiments.Text.{to_decimal}
use rust_experiments.Maroon.Types.{LogicalTimeAbsoluteMs}

unfoldable pub format_delayed_message : LogicalTimeAbsoluteMs → String → String
format_delayed_message _ message = message

unfoldable pub format_divisor_found : ℕ → ℕ → String
unfolding to_decimal
format_divisor_found n i = to_decimal n <> ("%" <> (to_decimal i <> "==0"))

unfoldable pub format_divisors_done : ℕ → String
unfolding to_decimal
format_divisors_done n = to_decimal n <> "!"

unfoldable pub format_fibonacci_step : ℕ → ℕ → ℕ → ℕ → String
unfolding to_decimal
format_fibonacci_step n index a _ =
    "fib" <> (to_decimal index <> ("[" <> (to_decimal n <> ("]=" <> to_decimal a))))

unfoldable pub format_fibonacci_result : ℕ → ℕ → String
unfolding to_decimal
format_fibonacci_result n result = "fib" <> (to_decimal n <> ("=" <> to_decimal result))
