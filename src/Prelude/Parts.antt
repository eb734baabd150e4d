-- ===== src/Prelude/Parts.antt =====
-- Parts of lists, by native numbers.
use Prim.Native.Nat.{ℕ, zero, suc, ◌≤◌, ◌<◌}
use mathlib.Core.Path.{◌≡◌, refl, ap, subst}
use mathlib.Core.Logic.{◌⊎◌, inl, inr}
use mathlib.Core.Option.{Option, none, some, some-injective}
use mathlib.Core.List.{List, [], ◌∷◌, ◌++◌}
use native.Mathlib.Omega.{arith}
use rust_experiments.Prelude.Lists.{length, All}
use rust_experiments.Prelude.Tests.{◌==◌, if◌then◌else◌}

module _ {ℓ} {A : Type ℓ} where
  abbrev pub get_elem? : List A → ℕ → Option A
  get_elem? [] k = none
  get_elem? (x ∷ xs) zero = some x
  get_elem? (x ∷ xs) (suc k) = get_elem? xs k

  abbrev pub take : ℕ → List A → List A
  take zero xs = []
  take (suc n) [] = []
  take (suc n) (x ∷ xs) = x ∷ take n xs

  abbrev pub drop : ℕ → List A → List A
  drop zero xs = xs
  drop (suc n) [] = []
  drop (suc n) (x ∷ xs) = drop n xs

  pub get_elem?-last :
      (xs : List A) (x : A) (k : ℕ)
      → get_elem? (xs ++ x ∷ []) k ≡ (if k == length xs then some x else get_elem? xs k)
  get_elem?-last [] x zero = refl
  get_elem?-last [] x (suc k) = ground arith
  get_elem?-last (y ∷ xs) x zero = ground arith
  get_elem?-last (y ∷ xs) x (suc k) = ground (arith, get_elem?-last xs x k)

  pub get_elem?-lt : (xs : List A) (k : ℕ) (x : A) → get_elem? xs k ≡ some x → k < length xs
  get_elem?-lt [] k x e = cc
  get_elem?-lt (y ∷ xs) zero x e = omega arith
  get_elem?-lt (y ∷ xs) (suc k) x e = omega (arith, get_elem?-lt xs k x e)

  -- An element of a list with one more at its end.
  pub get_elem?-cases :
      (xs : List A) (x : A) (k : ℕ) (y : A)
      → get_elem? (xs ++ x ∷ []) k ≡ some y
      → ((k ≡ length xs) × (x ≡ y)) ⊎ (get_elem? xs k ≡ some y)
  get_elem?-cases [] x zero y e = inl (refl, some-injective x y e)
  get_elem?-cases [] x (suc k) y e = cc
  get_elem?-cases (z ∷ xs) x zero y e = inr e
  get_elem?-cases (z ∷ xs) x (suc k) y e = elim (get_elem?-cases xs x k y e) [
    | inl (here, same) ↦ inl (ap suc here, same)
    | inr before ↦ inr before
  ]

  pub get_elem?-none : (xs : List A) (k : ℕ) → get_elem? xs k ≡ none → length xs ≤ k
  get_elem?-none [] k e = omega arith
  get_elem?-none (x ∷ xs) zero e = cc
  get_elem?-none (x ∷ xs) (suc k) e = omega (arith, get_elem?-none xs k e)

  pub drop-none : (xs : List A) (k : ℕ) → get_elem? xs k ≡ none → drop k xs ≡ []
  drop-none [] zero e = refl
  drop-none [] (suc k) e = refl
  drop-none (x ∷ xs) zero e = cc
  drop-none (x ∷ xs) (suc k) e = drop-none xs k e

  pub drop-some :
      (xs : List A) (k : ℕ) (x : A) → get_elem? xs k ≡ some x → drop k xs ≡ x ∷ drop (suc k) xs
  drop-some [] k x e = cc
  drop-some (y ∷ xs) zero x e = cc
  drop-some (y ∷ xs) (suc k) x e = drop-some xs k x e

  pub drop-all : (xs : List A) (k : ℕ) → length xs ≤ k → drop k xs ≡ []
  drop-all [] zero h = refl
  drop-all [] (suc k) h = refl
  drop-all (x ∷ xs) zero h = absurd (omega arith)
  drop-all (x ∷ xs) (suc k) h = drop-all xs k (omega arith)

  pub get_elem?-at : (xs ys : List A) (y : A) → get_elem? (xs ++ y ∷ ys) (length xs) ≡ some y
  get_elem?-at [] ys y = refl
  get_elem?-at (x ∷ xs) ys y = get_elem?-at xs ys y

  pub get_elem?-left :
      (xs ys : List A) (k : ℕ) → k < length xs → get_elem? (xs ++ ys) k ≡ get_elem? xs k
  get_elem?-left [] ys k h = absurd (omega arith)
  get_elem?-left (x ∷ xs) ys zero h = refl
  get_elem?-left (x ∷ xs) ys (suc k) h = get_elem?-left xs ys k (omega arith)

  pub length-take : (n : ℕ) (xs : List A) → n ≤ length xs → length (take n xs) ≡ n
  length-take zero xs h = refl
  length-take (suc n) [] h = absurd (omega arith)
  length-take (suc n) (x ∷ xs) h = ap suc (length-take n xs (omega arith))

  abbrev pub remove_at : ℕ → List A → List A
  remove_at k [] = []
  remove_at zero (x ∷ xs) = xs
  remove_at (suc k) (x ∷ xs) = x ∷ remove_at k xs

  module _ {κ} (P : A → Type κ) where
    pub All-get_elem? : (xs : List A) (k : ℕ) (x : A) → get_elem? xs k ≡ some x → All P xs → P x
    All-get_elem? [] k x e h = absurd (cc e)
    All-get_elem? (y ∷ xs) zero x e h = subst P (some-injective y x e) h.0
    All-get_elem? (y ∷ xs) (suc k) x e h = All-get_elem? xs k x e h.1

    pub All-remove_at : (xs : List A) (k : ℕ) → All P xs → All P (remove_at k xs)
    All-remove_at [] k h = tt
    All-remove_at (x ∷ xs) zero h = h.1
    All-remove_at (x ∷ xs) (suc k) h = (h.0, All-remove_at xs k h.1)
