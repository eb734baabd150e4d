-- ===== src/Runtime/Live/Splits.antt =====
-- Taking one task out of the list.
use rust_experiments.Prelude.{
  ℕ, ◌+◌, ◌<◌, ◌≡◌, ◌≢◌, refl, sym, ap, ◌∙◌, List, [], ◌∷◌, ◌++◌, All, ◌==◌, arith, some,
  Bool-cases, inl, inr, ne→==, eq→==, ==→eq,
}
use rust_experiments.Machine.{Build}
use rust_experiments.Runtime.BinaryHeap.{TimestampedMaroonTask, same}
use rust_experiments.Runtime.Defs.{remove, discard}
use rust_experiments.Runtime.Live.Defs.{
  NotIn, Distinct, Live, operation, keys, ids, writers, entries, operations, work, lines_due,
}

-- `l` stands in `whole`, with `before` and `after` on its sides.
pub record Split {b : Build} (t : TimestampedMaroonTask) (whole : List (Live b)) : Type 0 where
  pub before : List (Live b)
  pub found : Live b
  pub after : List (Live b)
  pub parts : whole ≡ before ++ found ∷ after
  pub is_found : operation found ≡ t

same-eq : (t u : TimestampedMaroonTask) → 0 < same t u → u ≡ t
same-eq t u h = ground arith

module _ {b : Build} where
  pub operations-Split :
      (t : TimestampedMaroonTask) (ls : List (Live b)) → 0 < operations t ls → Split t ls
  operations-Split t [] h = absurd (omega arith)
  operations-Split t (l ∷ ls) h = elim (Bool-cases (same t (operation l) == 1)) [
    | inl here ↦ record {
      before = [];
      found = l;
      after = ls;
      parts = refl;
      is_found = same-eq t (operation l) (omega (arith, ==→eq _ _ here));
    }
    | inr there ↦
        let rest = operations-Split t ls (ground arith) in
        record {
          before = l ∷ rest.before;
          found = rest.found;
          after = rest.after;
          parts = ap (◌∷◌ l) rest.parts;
          is_found = rest.is_found;
        }
  ]

  operations-append :
      (u : TimestampedMaroonTask) (xs ys : List (Live b))
      → operations u (xs ++ ys) ≡ operations u xs + operations u ys
  operations-append u [] ys = omega arith
  operations-append u (x ∷ xs) ys = omega (arith, operations-append u xs ys)

  work-append : (xs ys : List (Live b)) → work (xs ++ ys) ≡ work xs + work ys
  work-append [] ys = omega arith
  work-append (x ∷ xs) ys = omega (arith, work-append xs ys)

  -- The place of an element does not matter to a sum.
  pub operations-middle :
      (u : TimestampedMaroonTask) (xs ys : List (Live b)) (l : Live b)
      → operations u (xs ++ l ∷ ys) ≡ same u (operation l) + operations u (xs ++ ys)
  operations-middle u xs ys l =
      omega (arith, operations-append u xs (l ∷ ys), operations-append u xs ys)

  pub work-middle :
      (xs ys : List (Live b)) (l : Live b) → work (xs ++ l ∷ ys) ≡ l.steps_left + work (xs ++ ys)
  work-middle xs ys l = omega (arith, work-append xs (l ∷ ys), work-append xs ys)

  pub All-middle {κ} :
      (P : Live b → Type κ) (xs ys : List (Live b)) (l : Live b)
      → All P (xs ++ l ∷ ys)
      → P l × All P (xs ++ ys)
  All-middle P [] ys l h = h
  All-middle P (x ∷ xs) ys l h =
      let (found, rest) = All-middle P xs ys l h.1 in (found, (h.0, rest))

module _ {b : Build} (f : Live b → ℕ) where
  NotIn-middle :
      (k : ℕ) (xs ys : List (Live b)) (l : Live b)
      → NotIn k (keys f (xs ++ l ∷ ys))
      → (k ≢ f l) × NotIn k (keys f (xs ++ ys))
  NotIn-middle k [] ys l h = h
  NotIn-middle k (x ∷ xs) ys l h =
      let (other, rest) = NotIn-middle k xs ys l h.1 in (other, (h.0, rest))

  pub Distinct-middle :
      (xs ys : List (Live b)) (l : Live b)
      → Distinct (keys f (xs ++ l ∷ ys))
      → NotIn (f l) (keys f (xs ++ ys)) × Distinct (keys f (xs ++ ys))
  Distinct-middle [] ys l h = h
  Distinct-middle (x ∷ xs) ys l h =
      let (other, absent) = NotIn-middle (f x) xs ys l h.0 in
      let (absent', distinct) = Distinct-middle xs ys l h.1 in
      (((λ e. other (sym e)), absent'), (absent, distinct))

module _ {b : Build} where
  pub remove-middle :
      (xs ys : List (Live b)) (l : Live b)
      → Distinct (ids (xs ++ l ∷ ys))
      → remove l.id (entries (xs ++ l ∷ ys)) ≡ some (l.task, entries (xs ++ ys))
  unfolding remove
  remove-middle [] ys l h = rw (eq→== l.id l.id refl)
  remove-middle (x ∷ xs) ys l h =
      let (other, _) = NotIn-middle (λ l. l.id) x.id xs ys l h.0 in
      rw (ne→== x.id l.id other, remove-middle xs ys l h.1)

  pub discard-absent :
      (k : ℕ) (ls : List (Live b)) → NotIn k (ids ls) → discard k (entries ls) ≡ entries ls
  unfolding discard
  discard-absent k [] h = refl
  discard-absent k (l ∷ ls) h = rw (ne→== l.id k (λ e. h.0 (sym e)), discard-absent k ls h.1)

  pub lines_due-middle :
      (w : ℕ) (xs ys : List (Live b)) (l : Live b)
      → Distinct (writers (xs ++ l ∷ ys))
      → lines_due w (xs ++ l ∷ ys) ≡ lines_due w (l ∷ (xs ++ ys))
  lines_due-middle w [] ys l h = refl
  lines_due-middle w (x ∷ xs) ys l h =
      let (other, _) = NotIn-middle (λ l. l.task.writer) x.task.writer xs ys l h.0 in
      let ih = lines_due-middle w xs ys l h.1 in
      elim (Bool-cases (x.task.writer == w)) [
        | inl mine ↦
            let same_writer : x.task.writer ≡ w = ==→eq _ _ mine in
            rw (mine, ih, ne→== l.task.writer w (λ e. other (same_writer ∙ sym e))) refl
        | inr others ↦ rw (others, ih) refl
      ]
