-- ===== src/Text.antt =====
-- The decimal text of a number, which `{}` writes in a format string.
pub mod Reading
pub mod Contains
use Prim.Native.Char.{Char}
use Prim.Native.String.{char_at}
use rust_experiments.Prelude.{ℕ, zero, suc, ◌+◌, ◌/◌, ◌%◌, ◌≡◌, refl, String, ◌==◌, if◌then◌else◌}

abbrev pub digit : ℕ → Char
digit d = char_at "0123456789" d

-- One more digit in front of `text` for each round, until the number runs out.
unfoldable pub to_decimal_from : ℕ → ℕ → String → String
to_decimal_from zero n text = text
to_decimal_from (suc fuel) n text =
    let longer = String.◌∷◌ (digit (n % 10)) text in
    let rest = to_decimal_from fuel (n / 10) longer in if n / 10 == 0 then longer else rest

-- A number has fewer digits than its successor has units.
unfoldable pub to_decimal : ℕ → String
unfolding to_decimal_from
to_decimal n = to_decimal_from (n + 1) n ""

to_decimal_runs : to_decimal 18_446_744_073_709_551_615 ≡ "18446744073709551615"
unfolding to_decimal
to_decimal_runs = refl

to_decimal_zero : to_decimal 0 ≡ "0"
unfolding to_decimal
to_decimal_zero = refl
