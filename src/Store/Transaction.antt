-- ===== src/Store/Transaction.antt =====
-- Transactions of the redb database, which two of the programs use: what is not committed has no
-- effect, and every call of the database can fail, which ends the request by `?`. The database is a
-- parameter, with what it documents of its transactions.
use rust_experiments.Prelude.{
  ◌≡◌, List, [], ◌∷◌, Option, none, some, String, Bool, false, ◌||◌, if◌then◌else◌,
}
use text.Mathlib.Text.{◌==◌ as ◌===◌}
use rust_experiments.Machine.{Fault, Outcome, ok, panic}

pub data DbError (E : Type 0) : Type 0 where
  storage_error : E → DbError E
  table_does_not_exist : String → DbError E

abbrev pub has_table : String → List String → Bool
has_table name [] = false
has_table name (t ∷ tables) = t === name || has_table name tables

-- What is committed: the rows, and the names of the tables that there are.
pub record Committed (D : Type 0) : Type 0 where
  pub db : D
  pub tables : List String

-- The database. The state of the world decides which call fails; no call but a commit that succeeds
-- changes what is committed.
pub record Redb (D : Type 0) : Type 1 where
  pub Error : Type 0
  pub World : Type 0
  pub committed : World → Committed D
  -- A call that is not a commit.
  pub attempt : World → Option Error × World
  pub attempt_keeps : (w : World) → committed (attempt w).1 ≡ committed w
  pub commit : Committed D → World → Option Error × World
  pub commit_done :
      (txn : Committed D) (w : World) → (commit txn w).0 ≡ none → committed (commit txn w).1 ≡ txn
  pub commit_failed :
      (txn : Committed D) (w : World) (e : Error)
      → (commit txn w).0 ≡ some e
      → committed (commit txn w).1 ≡ committed w

-- How a request ends: with its response, with an error, or with a panic.
pub data Ended (E A : Type 0) : Type 0 where
  done : A → Ended E A
  failed : DbError E → Ended E A
  panicked : Fault → Ended E A

abbrev pub Storage : Type 0 → Type 0 → Type 0 → Type 0
Storage W E A = W → Ended E A × W

module _ {W E : Type 0} where
  abbrev pub then_run : {A B : Type 0} → (A → Storage W E B) → Ended E A × W → Ended E B × W
  then_run f (done a, w) = f a w
  then_run f (failed e, w) = (failed e, w)
  then_run f (panicked fault, w) = (panicked fault, w)

infixl 5 ◌>>=◌
infixl 5 ◌>>◌
abbrev pub ◌>>=◌ : {W E A B : Type 0} → Storage W E A → (A → Storage W E B) → Storage W E B
◌>>=◌ m f w = then_run f (m w)

abbrev pub ◌>>◌ : {W E A B : Type 0} → Storage W E A → Storage W E B → Storage W E B
m >> k = m >>= λ _. k

module _ {W E : Type 0} where
  abbrev pub pure : {A : Type 0} → A → Storage W E A
  pure a w = (done a, w)

  -- Arithmetic of the request.
  unfoldable pub compute : {A : Type 0} → Outcome A → Storage W E A
  compute (ok a) w = (done a, w)
  compute (panic fault) w = (panicked fault, w)

  abbrev pub unless_failed : {A : Type 0} → A → Option E × W → Ended E A × W
  unless_failed a (none, w) = (done a, w)
  unless_failed a (some e, w) = (failed (storage_error e), w)

module _ {D : Type 0} (R : Redb D) where
  -- A call of the database that gives `a` if it does not fail.
  unfoldable pub call : {A : Type 0} → A → Storage R.World R.Error A
  call a w = unless_failed a (R.attempt w)

  -- A transaction sees what is committed when it begins, and what it writes itself.
  unfoldable pub begin_transaction : Storage R.World R.Error (Committed D)
  unfolding call
  begin_transaction w = call (R.committed w) w

  -- In a transaction that writes, opening a table creates it.
  unfoldable pub open_table_mut : String → Committed D → Storage R.World R.Error (Committed D)
  unfolding call
  open_table_mut name txn = call (record txn { tables = name ∷ txn.tables })

  unfoldable pub open_table : String → Committed D → Storage R.World R.Error D
  unfolding call
  open_table name txn w =
      if has_table name txn.tables then call txn.db w else (failed (table_does_not_exist name), w)

  unfoldable pub commit : Committed D → Storage R.World R.Error Unit
  commit txn w = unless_failed tt (R.commit txn w)
