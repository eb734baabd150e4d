-- ===== src/Ackermann/Correct.antt =====
-- step11_ws_state_machine/code/src/main.rs: both implementations compute the Ackermann function, and
-- `async_ack` writes its calls as they nest.
use rust_experiments.Prelude.{
  ℕ, zero, suc, ◌+◌, ◌≤◌, ◌<◌, ◌^◌, ◌≡◌, refl, ap, ◌∙◌, List, [], ◌∷◌, ◌++◌, append_assoc, String,
  ◌<>◌, arith,
}
use rust_experiments.Machine.{Build, ok, add64-eq-ok, u64_modulus}
use rust_experiments.Int.{pos, negsuc, int_text}
use rust_experiments.Ackermann.Defs.{
  ackermann, increment, decrement, ack_text, out_of_fuel, returned, start, async_ack,
}

unfoldable pub ack : ℕ → ℕ → ℕ
ack zero n = suc n
ack (suc m) zero = ack m 1
ack (suc m) (suc n) = ack m (ack (suc m) n)

ack-lt : (m n : ℕ) → n < ack m n
unfolding ack
ack-lt zero n = omega arith
ack-lt (suc m) zero = omega (arith, ack-lt m 1)
ack-lt (suc m) (suc n) = omega (arith, ack-lt (suc m) n, ack-lt m (ack (suc m) n))

-- If the value is below 2^64, `ackermann` returns it without a panic.
pub ackermann-ack : (b : Build) (m n : ℕ) → ack m n < u64_modulus → ackermann b m n ≡ ok (ack m n)
unfolding ackermann ack
ackermann-ack b zero n h = rw (add64-eq-ok b n 1 (omega arith)) (ap ok (omega arith))
ackermann-ack b (suc m) zero h = ackermann-ack b m 1 h
ackermann-ack b (suc m) (suc n) h =
    rw (ackermann-ack b (suc m) n (omega (arith, ack-lt m (ack (suc m) n))))
      (ackermann-ack b m (ack (suc m) n) h)

-- The depth of the recursion, at most.
unfoldable pub ack_depth : ℕ → ℕ → ℕ
unfolding ack
ack_depth zero n = 1
ack_depth (suc m) zero = suc (ack_depth m 1)
ack_depth (suc m) (suc n) = suc (ack_depth (suc m) n + ack_depth m (ack (suc m) n))

abbrev pub result_text : ℕ → ℕ → ℕ → ℕ → String
result_text m n indent r = ack_text (pos m) (pos n) indent <> (" = " <> int_text (pos r))

abbrev pub begin_text : ℕ → ℕ → ℕ → String
begin_text m n indent = ack_text (pos m) (pos n) indent <> " ..."

-- The description: each call in its lines, with the calls that it makes between them, two spaces
-- further in.
unfoldable pub ack_lines : ℕ → ℕ → ℕ → List String
unfolding ack
ack_lines zero n indent = result_text zero n indent (suc n) ∷ []
ack_lines (suc m) zero indent =
    begin_text (suc m) zero indent ∷ []
    ++ ack_lines m 1 (indent + 2)
    ++ result_text (suc m) zero indent (ack m 1) ∷ []
ack_lines (suc m) (suc n) indent =
    let r = ack (suc m) n in
    begin_text (suc m) (suc n) indent ∷ []
    ++ ack_lines (suc m) n (indent + 2)
    ++ ack_lines m r (indent + 2)
    ++ result_text (suc m) (suc n) indent (ack m r) ∷ []

ack_depth-pos : (m n : ℕ) → 1 ≤ ack_depth m n
unfolding ack_depth
ack_depth-pos zero n = omega arith
ack_depth-pos (suc m) zero = omega arith
ack_depth-pos (suc m) (suc n) = omega arith

increment-ok : (b : Build) (n : ℕ) → suc n < 2 ^ 63 → increment b (pos n) ≡ ok (pos (suc n))
unfolding increment
increment-ok b n h = ground arith

module _ (written : List String) (first last : String) (lines more : List String) where
  one_call : (written ++ first ∷ []) ++ lines ++ last ∷ [] ≡ written ++ first ∷ (lines ++ last ∷ [])
  one_call =
      append_assoc (written ++ first ∷ []) lines (last ∷ [])
      ∙ append_assoc written (first ∷ []) (lines ++ last ∷ [])

  two_calls :
      (written ++ first ∷ []) ++ lines ++ more ++ last ∷ []
      ≡ written ++ first ∷ (lines ++ more ++ last ∷ [])
  two_calls =
      ap (λ zs. zs ++ more ++ last ∷ []) (append_assoc written (first ∷ []) lines)
      ∙ ap (λ zs. zs ++ last ∷ []) (append_assoc written (first ∷ lines) more)
      ∙ append_assoc written (first ∷ (lines ++ more)) (last ∷ [])

-- If the value is below 2^63, the fuel is at least `ack_depth m n`, and neither number is negative,
-- `async_ack` returns the value without a panic, and writes the lines of the description.
pub async_ack-ack :
    (b : Build) (m n indent fuel : ℕ) (written : List String)
    → ack m n < 2 ^ 63
    → ack_depth m n ≤ fuel
    → async_ack b fuel (pos m) (pos n) indent written
      ≡ returned (pos (ack m n)) (written ++ ack_lines m n indent)
unfolding async_ack ack ack_depth ack_lines decrement
async_ack-ack b m n indent zero written h enough = absurd (omega (arith, ack_depth-pos m n))
async_ack-ack b zero n indent (suc fuel) written h enough = rw (increment-ok b n h)
async_ack-ack b (suc m) zero indent (suc fuel) written h enough =
    let begun = start (pos (suc m)) (pos 0) indent written in
    rw (async_ack-ack b m 1 (indent + 2) fuel begun h (omega arith)) (
      ap (returned (pos (ack m 1))) (
        one_call written (begin_text (suc m) 0 indent) (result_text (suc m) 0 indent (ack m 1))
          (ack_lines m 1 (indent + 2)) []))
async_ack-ack b (suc m) (suc n) indent (suc fuel) written h enough =
    let r = ack (suc m) n in
    let begun = start (pos (suc m)) (pos (suc n)) indent written in
    let lines = ack_lines (suc m) n (indent + 2) in
    rw
      (
        async_ack-ack b (suc m) n (indent + 2) fuel begun (omega (arith, ack-lt m r)) (omega arith),
        decrement,
      )
      (rw (async_ack-ack b m r (indent + 2) fuel (begun ++ lines) h (omega arith)) (
        ap (returned (pos (ack m r))) (
          two_calls written (begin_text (suc m) (suc n) indent)
            (result_text (suc m) (suc n) indent (ack m r)) lines (ack_lines m r (indent + 2)))))

decrement-ok : (b : Build) (m : ℕ) → suc m < 2 ^ 63 → decrement b (negsuc m) ≡ ok (negsuc (suc m))
unfolding decrement
decrement-ok b m h = ground arith

-- For a negative `m`, here `- (m + 1)`, and an `n` that is not negative, `async_ack` has no result at
-- any depth of its recursion that is below 2^63 - `m`.
pub async_ack-negative :
    (b : Build) (m n indent fuel : ℕ) (written : List String)
    → m + fuel < 2 ^ 63
    → async_ack b fuel (negsuc m) (pos n) indent written ≡ out_of_fuel
unfolding async_ack decrement
async_ack-negative b m n indent zero written h = refl
async_ack-negative b m zero indent (suc fuel) written h =
    let begun = start (negsuc m) (pos 0) indent written in
    rw (decrement-ok b m (omega arith))
      (rw (async_ack-negative b (suc m) 1 (indent + 2) fuel begun (omega arith)))
async_ack-negative b m (suc n) indent (suc fuel) written h =
    let begun = start (negsuc m) (pos (suc n)) indent written in
    rw (async_ack-negative b m n (indent + 2) fuel begun (omega arith))
