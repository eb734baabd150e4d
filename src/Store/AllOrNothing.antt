-- ===== src/Store/AllOrNothing.antt =====
-- A request that has its whole effect or none: the contract that the programs' requests keep.
use rust_experiments.Prelude.{◌≡◌, ◌∙◌, sym, ap, subst, refl, List, String, true, false}
use rust_experiments.Machine.{Fault, Outcome, ok, panic, ok-injective}
use rust_experiments.Store.Transaction.{
  DbError, storage_error, table_does_not_exist, has_table, Committed, Redb, Ended, Storage, ◌>>=◌,
}
use rust_experiments.Store.Atomic.{no_call, Fails, MayFail, Meets, Holds, bind-Meets, imply-Meets}

-- Why a request fails, in a run from `w₀`, that reads the tables `reads` before it could create them: a
-- call of this run, or a table that is not there.
abbrev pub Cause :
    {D : Type 0} (R : Redb D)
    → R.World
    → List String
    → Committed D
    → DbError R.Error
    → R.World
    → Type 0
Cause R w₀ reads c (storage_error e) w' = Fails R w₀ e w'
Cause R w₀ reads c (table_does_not_exist name) w' =
    (has_table name reads ≡ true) × (has_table name c.tables ≡ false)

-- The same, for the end of the run.
abbrev pub Interrupts : {D : Type 0} (R : Redb D) → R.World → DbError R.Error → R.World → Type 0
Interrupts R w₀ (storage_error e) w' = Fails R w₀ e w'
Interrupts R w₀ (table_does_not_exist name) w' = has_table name (R.committed w').tables ≡ false

module _ {D : Type 0} (R : Redb D) (w₀ : R.World) (reads : List String) (c : Committed D) where
  pub Cause-Interrupts :
      (e : DbError R.Error) (w' : R.World)
      → R.committed w' ≡ c
      → Cause R w₀ reads c e w'
      → Interrupts R w₀ e w'
  Cause-Interrupts (storage_error e) w' same cause = cause
  Cause-Interrupts (table_does_not_exist name) w' same cause = rw same cause.1

-- `intended` is the request on a storage that does not fail; it reads the tables `reads` before it
-- could create them.
module _ {D : Type 0} (R : Redb D) {A : Type 0} (intended : D → Outcome (A × D))
    (reads : List String) (w₀ : R.World) where
  module _ (c : Committed D) where
    abbrev pub Done : A → Committed D → Type 0
    Done a c' = intended c.db ≡ ok (a, c'.db)

    abbrev pub Unchanged : DbError R.Error → R.World → Type 0
    Unchanged e w' = (R.committed w' ≡ c) × Cause R w₀ reads c e w'

    abbrev pub Crashed : Fault → Committed D → Type 0
    Crashed fault c' = (c' ≡ c) × (intended c.db ≡ panic fault)

    abbrev pub Atomic : Storage R.World R.Error A → Type 0
    Atomic m = Meets R w₀ Done Unchanged Crashed m c

    pub may_fail : MayFail R w₀ Unchanged c
    may_fail e w' fails same = (same, fails)

  -- What a run of the request from `w₀` has come to.
  abbrev pub Effect : Ended R.Error A × R.World → Type 0
  Effect ended =
      Holds R w₀ (Done (R.committed w₀)) (Unchanged (R.committed w₀)) (Crashed (R.committed w₀))
        ended

  pub Atomic-Effect : (m : Storage R.World R.Error A) → Atomic (R.committed w₀) m → Effect (m w₀)
  Atomic-Effect m atomic = atomic.run w₀ no_call refl

-- A request that ends well on a storage that does not fail, as a part of a longer computation.
module _ {D : Type 0} (R : Redb D) {A B : Type 0} (intended : D → Outcome (A × D))
    (reads : List String) (w₀ : R.World) {good : B → Committed D → Type 0}
    {bad : DbError R.Error → R.World → Type 0} {crash : Fault → Committed D → Type 0} where
  pub request-Meets :
      (m : Storage R.World R.Error A) (k : A → Storage R.World R.Error B) (c : Committed D) (a : A)
      (db' : D)
      → Atomic R intended reads w₀ c m
      → intended c.db ≡ ok (a, db')
      → ((e : DbError R.Error) (w' : R.World)
          → R.committed w' ≡ c
          → Interrupts R w₀ e w'
          → bad e w')
      → ((c' : Committed D) → c'.db ≡ db' → Meets R w₀ good bad crash (k a) c')
      → Meets R w₀ good bad crash (m >>= k) c
  request-Meets m k c a db' atomic ends b h =
      bind-Meets (Done R intended reads w₀ c) m k c
        (imply-Meets (Done R intended reads w₀ c) (Unchanged R intended reads w₀ c)
          (Crashed R intended reads w₀ c) m c (λ a' c' held. held)
          (λ e w' held. b e w' held.0 (Cause-Interrupts R w₀ reads c e w' held.0 held.1))
          (λ fault c' held. absurd (cc (held.1, ends))) atomic)
        (λ a' c' held.
          let same = ok-injective (sym ends ∙ held) in
          subst (λ x. Meets R w₀ good bad crash (k x) c') (ap (λ p. p.0) same)
            (h c' (sym (ap (λ p. p.1) same))))
