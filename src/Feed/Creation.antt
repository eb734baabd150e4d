-- ===== src/Feed/Creation.antt =====
-- step12_ws_feed/code/src/main.rs: the tables that `main` creates, over a storage that can fail.
use rust_experiments.Prelude.{ℕ, ◌≡◌, refl, Option, none, some, true}
use rust_experiments.Machine.{Build, Fault}
use rust_experiments.Store.Transaction.{
  DbError, has_table, Committed, Redb, ◌>>=◌, ◌>>◌, pure, call, begin_transaction, open_table_mut,
  commit,
}
use rust_experiments.Store.Atomic.{
  Meets, begin_transaction-Meets, open_table_mut-Meets, call-Meets, commit-Meets, pure-Meets,
  bind-Meets,
}
use rust_experiments.Feed.Services.{Services}
use rust_experiments.Feed.Defs.{Database}
use rust_experiments.Feed.Transactions.{Action}

module _ (S : Services) (R : Redb (Database S)) (b : Build) where
  -- `if trades_meta.get("total")?.is_none() { trades_meta.insert("total", 0u64)?; }`
  unfoldable pub insert_total : Option ℕ → Database S → Action S R b (Database S)
  unfolding call
  insert_total none db = do
    inserted ← call R (S.meta_table.insert db.trades_meta "total" 0)
    pure (record db { trades_meta = inserted })
  insert_total (some _) db = pure db

  unfoldable pub run_create : Action S R b Unit
  unfolding begin_transaction open_table_mut call insert_total commit
  run_create = do
    write_txn ← begin_transaction R
    with_trades ← open_table_mut R "trades" write_txn
    with_ids ← open_table_mut R "trade_ids" with_trades
    with_meta ← open_table_mut R "trades_meta" with_ids
    txn ← open_table_mut R "trades_meta" with_meta
    total ← call R (S.meta_table.get txn.db.trades_meta "total")
    db ← insert_total total txn.db
    commit R (record txn { db = db })
    pure tt

  -- What `main` intends with a database, new or not.
  abbrev pub created : Database S → Database S
  created db = elim (S.meta_table.get db.trades_meta "total") [
    | none ↦ record db { trades_meta = S.meta_table.insert db.trades_meta "total" 0 }
    | some _ ↦ db
  ]

  module _ (w₀ : R.World) (c : Committed (Database S)) where
    -- The three tables are there, with a total.
    abbrev pub Created : Unit {0} → Committed (Database S) → Type 0
    Created _ c' =
        (c'.db ≡ created c.db)
        × (has_table "trades" c'.tables ≡ true)
        × (has_table "trade_ids" c'.tables ≡ true)
        × (has_table "trades_meta" c'.tables ≡ true)

    abbrev pub NotCreated : DbError R.Error → R.World → Type 0
    NotCreated e w' = R.committed w' ≡ c

    abbrev pub NeverPanics : Fault → Committed (Database S) → Type 0
    NeverPanics fault c' = ⊥

    insert_total-Meets :
        (found : Option ℕ)
        → S.meta_table.get c.db.trades_meta "total" ≡ found
        → Meets R w₀
            (λ db c'. (db ≡ created c.db) × (c' ≡ c))
            NotCreated
            NeverPanics
            (insert_total found c.db)
            c
    unfolding insert_total
    insert_total-Meets none e =
        call-Meets _ _ c (λ e w' fails same. same) (pure-Meets _ _ (rw (created, e), refl))
    insert_total-Meets (some total) e = pure-Meets _ _ (rw (created, e), refl)

    -- If no call fails, there are the three tables with their rows and a total, which is 0 if there was
    -- none; if one fails, what is committed is what was committed before.
    pub run_create-Created : Meets R w₀ Created NotCreated NeverPanics run_create c
    unfolding run_create
    run_create-Created =
        begin_transaction-Meets _ c (λ e w' fails same. same)
          (open_table_mut-Meets "trades" c _ c (λ e w' fails same. same)
            (open_table_mut-Meets "trade_ids" _ _ c (λ e w' fails same. same)
              (open_table_mut-Meets "trades_meta" _ _ c (λ e w' fails same. same)
                (open_table_mut-Meets "trades_meta" _ _ c (λ e w' fails same. same)
                  (call-Meets _ _ c (λ e w' fails same. same)
                    (bind-Meets (λ db c'. (db ≡ created c.db) × (c' ≡ c)) _ _ c
                      (insert_total-Meets (S.meta_table.get c.db.trades_meta "total") refl)
                      (λ db c' (made, same). rw same (
                        commit-Meets _ _ c (λ e w' fails same. same)
                          (pure-Meets _ _ (made, refl, refl, refl))))))))))
