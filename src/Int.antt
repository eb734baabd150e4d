-- ===== src/Int.antt =====
-- Integers, their text, and the sum of `i32` in the two kinds of build.
use rust_experiments.Prelude.{
  String, ◌<>◌, ℕ, ◌+◌, ◌-◌, ◌^◌, Bool, false, leb, ltb, ◌==◌, if◌then◌else◌,
}
use rust_experiments.Text.{to_decimal}
use rust_experiments.Machine.{Build, Outcome, ok, panic, arithmetic_overflow}

-- `negsuc n` is the number `- (n + 1)`.
pub data ℤ : Type 0 where
  pos : ℕ → ℤ
  negsuc : ℕ → ℤ

-- `m - n`
abbrev pub difference : ℕ → ℕ → ℤ
difference m n = if leb n m then pos (m - n) else negsuc (n - m - 1)

infixl 65 ◌+ℤ◌
abbrev pub ◌+ℤ◌ : ℤ → ℤ → ℤ
pos m +ℤ pos n = pos (m + n)
pos m +ℤ negsuc n = difference m (n + 1)
negsuc m +ℤ pos n = difference n (m + 1)
negsuc m +ℤ negsuc n = negsuc (m + n + 1)

infix 50 ◌==ℤ◌
abbrev pub ◌==ℤ◌ : ℤ → ℤ → Bool
pos m ==ℤ pos n = m == n
negsuc m ==ℤ negsuc n = m == n
_ ==ℤ _ = false

abbrev pub is_i32 : ℤ → Bool
is_i32 (pos n) = ltb n (2 ^ 31)
is_i32 (negsuc n) = ltb n (2 ^ 31)

-- A sum of two `i32` that overflows is off by 2^32.
abbrev pub wrap32 : ℤ → ℤ
wrap32 (pos n) = negsuc (2 ^ 32 - 1 - n)
wrap32 (negsuc n) = pos (2 ^ 32 - 1 - n)

unfoldable pub add32 : Build → ℤ → ℤ → Outcome ℤ
add32 b x y =
    let exact = x +ℤ y in
    if is_i32 exact
    then ok exact
    else if b.overflow_checks
    then panic arithmetic_overflow
    else ok (wrap32 exact)

-- What `{}` writes for an integer in a format string.
abbrev pub int_text : ℤ → String
int_text (pos n) = to_decimal n
int_text (negsuc n) = "-" <> to_decimal (n + 1)
