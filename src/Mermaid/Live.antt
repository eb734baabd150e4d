-- ===== src/Mermaid/Live.antt =====
-- The numbers of the participants that there are, from the last one down.
use rust_experiments.Prelude.{
  remove_at, ℕ, zero, suc, ◌<◌, ◌≤◌, ◌≡◌, refl, List, [], ◌∷◌, map, some, Bool-cases, inl, inr,
  true, ◌==◌, get_elem?, arith, eq→==, ne→==,
}
use mathlib.Core.Option.{some-injective}
use rust_experiments.Int.{ℤ, pos}
use rust_experiments.Mermaid.Diagram.{has, without}

-- Every number is below the one before, and the first below `bound`.
abbrev pub IsDescending : ℕ → List ℕ → Type 0
IsDescending bound [] = Unit
IsDescending bound (i ∷ is) = (i < bound) × IsDescending i is

weaken : (a b : ℕ) → a ≤ b → (is : List ℕ) → IsDescending a is → IsDescending b is
weaken a b h [] d = tt
weaken a b h (i ∷ is) d = let below = d.0 in (omega arith, d.1)

pub remove_at-IsDescending :
    (bound k : ℕ) (is : List ℕ) → IsDescending bound is → IsDescending bound (remove_at k is)
remove_at-IsDescending bound k [] d = tt
remove_at-IsDescending bound zero (i ∷ is) d =
    let below = d.0 in weaken i bound (omega arith) is d.1
remove_at-IsDescending bound (suc k) (i ∷ is) d = (d.0, remove_at-IsDescending i k is d.1)

get_elem?-below :
    (bound k i : ℕ) (is : List ℕ) → IsDescending bound is → get_elem? is k ≡ some i → i < bound
get_elem?-below bound k i [] d e = cc
get_elem?-below bound zero i (j ∷ is) d e = let below = d.0 in omega (arith, some-injective j i e)
get_elem?-below bound (suc k) i (j ∷ is) d e =
    let below = d.0 in omega (arith, get_elem?-below j k i is d.1 e)

pub get_elem?-has : (k i : ℕ) (is : List ℕ) → get_elem? is k ≡ some i → has i is ≡ true
get_elem?-has k i [] e = cc
get_elem?-has zero i (j ∷ is) e = rw (eq→== j i (some-injective j i e))
get_elem?-has (suc k) i (j ∷ is) e = elim (Bool-cases (j == i)) [
  | inl f ↦ rw f
  | inr f ↦ rw (f, get_elem?-has k i is e)
]

pub without-remove_at :
    (bound k i : ℕ) (is : List ℕ)
    → IsDescending bound is
    → get_elem? is k ≡ some i
    → without i is ≡ remove_at k is
without-remove_at bound k i [] d e = cc
without-remove_at bound zero i (j ∷ is) d e = rw (eq→== j i (some-injective j i e))
without-remove_at bound (suc k) i (j ∷ is) d e =
    let below = get_elem?-below j k i is d.1 e in
    rw (ne→== j i (omega arith), without-remove_at j k i is d.1 e)

module _ {A : Type 0} (number : A → ℤ) where
  pub remove_at-numbers :
      (k : ℕ) (live : List A) (is : List ℕ)
      → map number live ≡ map pos is
      → map number (remove_at k live) ≡ map pos (remove_at k is)
  remove_at-numbers k [] [] e = refl
  remove_at-numbers k [] (i ∷ is) e = cc
  remove_at-numbers k (p ∷ live) [] e = cc
  remove_at-numbers zero (p ∷ live) (i ∷ is) e = cc
  remove_at-numbers (suc k) (p ∷ live) (i ∷ is) e =
      let same : number p ≡ pos i = cc in rw (remove_at-numbers k live is cc, same)

  pub get_elem?-numbers :
      (k : ℕ) (live : List A) (is : List ℕ) (p : A)
      → map number live ≡ map pos is
      → get_elem? live k ≡ some p
      → (i : ℕ) × (get_elem? is k ≡ some i) × (number p ≡ pos i)
  get_elem?-numbers k [] is p e found = cc
  get_elem?-numbers k (q ∷ live) [] p e found = cc
  get_elem?-numbers zero (q ∷ live) (i ∷ is) p e found = (i, refl, cc)
  get_elem?-numbers (suc k) (q ∷ live) (i ∷ is) p e found = get_elem?-numbers k live is p (cc) found
