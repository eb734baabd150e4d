-- ===== src/Machine.antt =====
-- What the compiled program does where Rust's semantics decide: panics as values, and the
-- arithmetic of `u64` under the two kinds of build.
use rust_experiments.Prelude.{
  ℕ, ◌+◌, ◌-◌, ◌*◌, ◌%◌, ◌^◌, ◌≤◌, ◌<◌, ◌≡◌, refl, ◌⊎◌, inl, inr, Bool, arith, ltb, leb,
  if◌then◌else◌,
}

-- `cfg(test)` chooses between two texts of several functions; Cargo's profile decides whether an
-- overflow panics (`cargo test`) or wraps (`cargo build --release`, `cargo test --release`).
pub record Build : Type 0 where
  pub test : Bool
  pub overflow_checks : Bool

pub data Fault : Type 0 where
  arithmetic_overflow : Fault
  unexpected_arguments : Fault
  heap_type_mismatch : Fault
  task_not_found : Fault
  no_state_in_call_stack : Fault
  not_a_state : Fault
  not_a_value : Fault
  nowhere_to_return : Fault
  not_a_return_address : Fault
  invalid_stack : Fault
  already_borrowed : Fault
  no_char_boundary : Fault

pub data Outcome {ℓ} (A : Type ℓ) : Type ℓ where
  ok : A → Outcome A
  panic : Fault → Outcome A

infixl 5 ◌>>=◌
infixl 5 ◌>>◌
abbrev pub ◌>>=◌ {ℓ μ} : {A : Type ℓ} {C : Type μ} → Outcome A → (A → Outcome C) → Outcome C
panic fault >>= later = panic fault
ok got >>= later = later got

abbrev pub ◌>>◌ {μ} : {C : Type μ} → Outcome (Unit {0}) → Outcome C → Outcome C
now >> later = now >>= λ _. later

-- What comes after a part of a computation that returned is what returned the result.
pub bind-returned {ℓ κ} :
    {A : Type ℓ} {C : Type κ} {result : C} (later : A → Outcome C) (now : Outcome A)
    → ok result ≡ (now >>= later)
    → (got : A) × (later got ≡ ok result)
bind-returned later (panic fault) returned = cc
bind-returned later (ok got) returned = (got, cc)

pub Outcome-cases {ℓ} :
    {A : Type ℓ} (m : Outcome A)
    → ((fault : Fault) × (m ≡ panic fault)) ⊎ ((got : A) × (m ≡ ok got))
Outcome-cases (panic fault) = inl (fault, refl)
Outcome-cases (ok got) = inr (got, refl)

pub ok-injective {ℓ} : {A : Type ℓ} {a a' : A} → ok a ≡ ok a' → a ≡ a'
ok-injective e = cc

abbrev pub assert : Bool → Fault → Outcome (Unit {0})
assert test fault = if test then ok tt else panic fault

abbrev pub u64_modulus : ℕ
u64_modulus = 2 ^ 64

-- The result of an operator on `u64`, from its exact result.
abbrev pub checked : Build → ℕ → Outcome ℕ
checked b exact =
    if ltb exact u64_modulus
    then ok exact
    else if b.overflow_checks
    then panic arithmetic_overflow
    else ok (exact % u64_modulus)

unfoldable pub add64 : Build → ℕ → ℕ → Outcome ℕ
add64 b x y = checked b (x + y)

unfoldable pub mul64 : Build → ℕ → ℕ → Outcome ℕ
mul64 b x y = checked b (x * y)

unfoldable pub sub64 : Build → ℕ → ℕ → Outcome ℕ
sub64 b x y =
    if leb y x
    then ok (x - y)
    else if b.overflow_checks
    then panic arithmetic_overflow
    else ok (x + u64_modulus - y)

module _ (b : Build) (x y : ℕ) where
  pub add64-eq-ok : x + y < u64_modulus → add64 b x y ≡ ok (x + y)
  unfolding add64
  add64-eq-ok h = ground arith

  pub mul64-eq-ok : x * y < u64_modulus → mul64 b x y ≡ ok (x * y)
  unfolding mul64
  mul64-eq-ok h = ground arith

  pub sub64-eq-ok : y ≤ x → sub64 b x y ≡ ok (x - y)
  unfolding sub64
  sub64-eq-ok h = ground arith
