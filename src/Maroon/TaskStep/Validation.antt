-- ===== src/Maroon/TaskStep/Validation.antt =====
-- step11_ws_state_machine/code/src/main.rs: which stacks `debug_validate_maroon_stack` accepts.
use rust_experiments.Prelude.{
  ℕ, zero, suc, ◌<◌, ◌≤◌, ◌≡◌, ◌≢◌, ◌↔◌, refl, sym, ap, subst, ◌∙◌, List, [], ◌∷◌, ◌++◌, map,
  length, length-append, leb, true, arith, Bool-cases, inl, inr,
}
use rust_experiments.Machine.{Build, ok, Outcome-cases}
use rust_experiments.Maroon.Types.{
  MaroonTaskStackEntry, MaroonTaskStackEntryValue, state, retrn, value,
}
use rust_experiments.Maroon.TaskStep.{
  entry_vars_count, validate_entries, debug_validate_maroon_stack,
}

-- Frames, each a state or a return address on top of its variables; the bottom entry, which is left
-- over if there is no frame of it, can be anything.
pub data IsStack : List MaroonTaskStackEntry → Type 0 where
  ends : IsStack []
  bottom : (e : MaroonTaskStackEntry) → IsStack (e ∷ [])
  frame :
      (e : MaroonTaskStackEntry) (vars : List MaroonTaskStackEntryValue)
      (stk : List MaroonTaskStackEntry)
      → entry_vars_count e ≡ ok (length vars)
      → IsStack stk
      → IsStack (e ∷ map value vars ++ stk)

validate_entries-values :
    (vars : List MaroonTaskStackEntryValue) (stk : List MaroonTaskStackEntry)
    → validate_entries (length vars) (map value vars ++ stk) ≡ validate_entries zero stk
unfolding validate_entries
validate_entries-values [] stk = refl
validate_entries-values (v ∷ vars) stk = validate_entries-values vars stk

length-values :
    (vars : List MaroonTaskStackEntryValue) (stk : List MaroonTaskStackEntry)
    → length vars ≤ length (map value vars ++ stk)
length-values [] stk = omega arith
length-values (v ∷ vars) stk = omega (arith, length-values vars stk)

-- An entry on top of others.
validate_entries-top :
    (e : MaroonTaskStackEntry) (n : ℕ) (stk : List MaroonTaskStackEntry)
    → entry_vars_count e ≡ ok n
    → n ≤ length stk
    → validate_entries n stk ≡ ok tt
    → validate_entries zero (e ∷ stk) ≡ ok tt
unfolding validate_entries
validate_entries-top e n [] count room accepted = refl
validate_entries-top e n (e' ∷ stk) count room accepted =
    let enough : leb n (length (e' ∷ stk)) ≡ true = ground arith in rw (count) (rw enough accepted)

IsStack-accepted :
    (stk : List MaroonTaskStackEntry) → IsStack stk → validate_entries zero stk ≡ ok tt
unfolding validate_entries
IsStack-accepted stk ends = refl
IsStack-accepted stk (bottom e) = refl
IsStack-accepted stk (frame e vars rest count below) =
    validate_entries-top e (length vars) (map value vars ++ rest) count (length-values vars rest)
      (validate_entries-values vars rest ∙ IsStack-accepted rest below)

-- What is accepted as variables and a stack is that.
record Split (n : ℕ) (stk : List MaroonTaskStackEntry) : Type 0 where
  vars : List MaroonTaskStackEntryValue
  rest : List MaroonTaskStackEntry
  counted : length vars ≡ n
  parts : stk ≡ map value vars ++ rest
  accepted : validate_entries zero rest ≡ ok tt

accepted-Split :
    (n : ℕ) (stk : List MaroonTaskStackEntry) → validate_entries n stk ≡ ok tt → Split n stk
unfolding validate_entries
accepted-Split zero stk e = record {
  vars = [];
  rest = stk;
  counted = refl;
  parts = refl;
  accepted = e;
}
accepted-Split (suc n) [] e = cc
accepted-Split (suc n) (state s ∷ stk) e = cc
accepted-Split (suc n) (retrn s ∷ stk) e = cc
accepted-Split (suc n) (value v ∷ stk) e =
    let r = accepted-Split n stk e in
    record {
      vars = v ∷ r.vars;
      rest = r.rest;
      counted = ap suc r.counted;
      parts = ap (λ s. value v ∷ s) r.parts;
      accepted = r.accepted;
    }

accepted-IsStack :
    (bound : ℕ) (stk : List MaroonTaskStackEntry)
    → length stk < bound
    → validate_entries zero stk ≡ ok tt
    → IsStack stk
unfolding validate_entries
accepted-IsStack zero stk h e = absurd (omega arith)
accepted-IsStack (suc bound) [] h e = ends
accepted-IsStack (suc bound) (top ∷ []) h e = bottom top
accepted-IsStack (suc bound) (top ∷ below ∷ stk) h e = elim (Outcome-cases (entry_vars_count top)) [
  | inl (fault, f) ↦ absurd (cc (rw f at e))
  | inr (n, f) ↦ elim (Bool-cases (leb n (length (below ∷ stk)))) [
    | inl enough ↦
        let r = accepted-Split n (below ∷ stk) (rw enough at (rw f at e)) in
        let longer = length-values r.vars r.rest in
        let total : length (below ∷ stk) ≡ length (map value r.vars ++ r.rest) =
          ap length r.parts in
        subst IsStack (ap (λ s. top ∷ s) (sym r.parts)) (
          frame top r.vars r.rest (rw (r.counted) f) (
            accepted-IsStack bound r.rest
              (omega (arith, total, length-append (map value r.vars) r.rest)) r.accepted))
    | inr short ↦ absurd (cc (rw short at (rw f at e)))
  ]
]

-- A test build accepts a stack exactly if it is not empty and is made of frames, each a state or a return
-- address on top of as many values as its variables, but for the bottom entry, which can be
-- anything if no frame takes it. Any other build accepts every stack.
pub debug_validate_maroon_stack-IsStack :
    (b : Build) (stk : List MaroonTaskStackEntry)
    → (debug_validate_maroon_stack b stk ≡ ok tt) ↔ ((b.test ≡ true → (stk ≢ []) × IsStack stk))
unfolding debug_validate_maroon_stack
debug_validate_maroon_stack-IsStack b [] = (
  λ accepted t. absurd (cc (rw t at accepted)),
  λ h. elim (Bool-cases b.test) [ inl t ↦ absurd ((h t).0 refl) | inr f ↦ rw f ],
)
debug_validate_maroon_stack-IsStack b (e ∷ stk) = (
  λ accepted t. (
    λ empty. absurd (cc empty),
    accepted-IsStack (suc (length (e ∷ stk))) (e ∷ stk) (omega arith) (rw t at accepted),
  ),
  λ h. elim (Bool-cases b.test) [
    | inl t ↦ rw t (IsStack-accepted (e ∷ stk) (h t).1)
    | inr f ↦ rw f
  ],
)
