-- ===== src/Ackermann/Defs.antt =====
-- step11_ws_state_machine/code/src/main.rs: `ackermann`, its reference implementation, and
-- `async_ack`, which writes what it computes. Its sleeps are left out, and that a
-- write fails, which ends the run with an error.
use rust_experiments.Prelude.{
  ℕ, zero, suc, ◌+◌, ◌-◌, ◌^◌, List, [], ◌∷◌, ◌++◌, String, ◌<>◌, ltb, if◌then◌else◌,
}
use rust_experiments.Machine.{Build, Outcome, Fault, ok, panic, arithmetic_overflow, ◌>>=◌, add64}
use rust_experiments.Int.{ℤ, pos, negsuc, int_text}

unfoldable pub ackermann : Build → ℕ → ℕ → Outcome ℕ
ackermann b zero n = add64 b n 1
ackermann b (suc m) zero = ackermann b m 1
ackermann b (suc m) (suc n) = do r ← ackermann b (suc m) n; ackermann b m r

-- `n + 1` of an `i64`
unfoldable pub increment : Build → ℤ → Outcome ℤ
increment b (pos n) =
    if ltb (n + 1) (2 ^ 63)
    then ok (pos (n + 1))
    else if b.overflow_checks
    then panic arithmetic_overflow
    else ok (negsuc (2 ^ 63 - 1))
increment b (negsuc zero) = ok (pos 0)
increment b (negsuc (suc n)) = ok (negsuc n)

-- `n - 1` of an `i64`
unfoldable pub decrement : Build → ℤ → Outcome ℤ
decrement b (pos zero) = ok (negsuc 0)
decrement b (pos (suc n)) = ok (pos n)
decrement b (negsuc n) =
    if ltb (n + 1) (2 ^ 63)
    then ok (negsuc (n + 1))
    else if b.overflow_checks
    then panic arithmetic_overflow
    else ok (pos (2 ^ 63 - 1))

abbrev pub spaces : ℕ → String
spaces zero = ""
spaces (suc n) = " " <> spaces n

abbrev pub ack_text : ℤ → ℤ → ℕ → String
ack_text m n indent = spaces indent <> ("ack(" <> (int_text m <> ("," <> (int_text n <> ")"))))

-- A run, with the texts that were written; on fuel, which bounds the depth of the recursion.
pub data Run : Type 0 where
  out_of_fuel : Run
  panicked : Fault → Run
  returned : ℤ → List String → Run

abbrev pub after_call : Run → (ℤ → List String → Run) → Run
after_call out_of_fuel further = out_of_fuel
after_call (panicked fault) further = panicked fault
after_call (returned r written) further = further r written

abbrev pub with_int : Outcome ℤ → (ℤ → Run) → Run
with_int (panic fault) further = panicked fault
with_int (ok r) further = further r

-- The `match` for an `m` that is not 0, over the function's own calls.
abbrev pub recursive_calls : Build → (ℤ → ℤ → ℕ → List String → Run) → ℤ → ℤ → ℕ → List String → Run
unfolding decrement
recursive_calls b self m (pos zero) indent written =
    with_int (decrement b m) λ m'. self m' (pos 1) (indent + 2) written
recursive_calls b self m n indent written = with_int (decrement b n) λ n'.
    after_call (self m n' (indent + 2) written) λ inner_result written'.
      with_int (decrement b m) λ m'. self m' inner_result (indent + 2) written'

abbrev pub finish : ℤ → ℤ → ℕ → Run → Run
finish m n indent run =
    after_call run
      λ r written. returned r (written ++ (ack_text m n indent <> (" = " <> int_text r)) ∷ [])

abbrev pub start : ℤ → ℤ → ℕ → List String → List String
start m n indent written = written ++ (ack_text m n indent <> " ...") ∷ []

unfoldable pub async_ack : Build → ℕ → ℤ → ℤ → ℕ → List String → Run
unfolding increment recursive_calls
async_ack b zero m n indent written = out_of_fuel
async_ack b (suc fuel) (pos zero) n indent written =
    finish (pos zero) n indent (with_int (increment b n) λ r. returned r written)
async_ack b (suc fuel) m n indent written =
    finish m n indent (recursive_calls b (async_ack b fuel) m n indent (start m n indent written))
