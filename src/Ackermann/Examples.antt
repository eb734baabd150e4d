-- ===== src/Ackermann/Examples.antt =====
-- The theorems about the Ackermann function at concrete numbers.
use rust_experiments.Prelude.{◌≡◌, refl, [], ◌∷◌, ◌++◌, false, arith}
use rust_experiments.Machine.{Build, ok}
use rust_experiments.Int.{pos, negsuc}
use rust_experiments.Text.{to_decimal}
use rust_experiments.Ackermann.Defs.{
  ackermann, returned, out_of_fuel, increment, decrement, async_ack,
}
use rust_experiments.Ackermann.Correct.{
  ack, ackermann-ack, ack_depth, ack_lines, async_ack-ack, async_ack-negative,
}

abbrev released : Build
released = record { test = false; overflow_checks = false }

ackermann-ack_example : ackermann released 2 3 ≡ ok (ack 2 3)
unfolding ack
ackermann-ack_example = ackermann-ack released 2 3 (omega arith)

async_ack-ack_example :
    async_ack released 60 (pos 2) (pos 1) 0 [] ≡ returned (pos (ack 2 1)) ([] ++ ack_lines 2 1 0)
unfolding ack ack_depth
async_ack-ack_example = async_ack-ack released 2 1 0 60 [] (omega arith) (omega arith)

async_ack-negative_example : async_ack released 1000 (negsuc 0) (pos 3) 0 [] ≡ out_of_fuel
async_ack-negative_example = async_ack-negative released 0 3 0 1000 [] (omega arith)

one_one_runs :
    async_ack released 9 (pos 1) (pos 1) 0 []
    ≡ returned (pos 3) (
        "ack(1,1) ..." ∷ "  ack(1,0) ..." ∷ "    ack(0,1) = 2" ∷ "  ack(1,0) = 2" ∷ "  ack(0,2) = 3"
        ∷ "ack(1,1) = 3" ∷ [])
unfolding async_ack increment decrement to_decimal
one_one_runs = refl
