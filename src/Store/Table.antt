-- ===== src/Store/Table.antt =====
-- The interface of a table of the redb database, which two of the programs use: a map, as the
-- database's documentation says.
use rust_experiments.Prelude.{◌≡◌, ◌≢◌, Option, none, some}

pub record Table (K V : Type 0) : Type 1 where
  pub Rows : Type 0
  pub new : Rows
  pub get : Rows → K → Option V
  pub insert : Rows → K → V → Rows
  pub get-new : (k : K) → get new k ≡ none
  pub get-insert_same : (rows : Rows) (k : K) (v : V) → get (insert rows k v) k ≡ some v
  pub get-insert_other :
      (rows : Rows) (k : K) (v : V) (other : K)
      → other ≢ k
      → get (insert rows k v) other ≡ get rows other
