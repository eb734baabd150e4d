-- ===== src/Feed/Atomicity.antt =====
-- step12_ws_feed/code/src/main.rs: a request has its whole effect or none, whatever call fails.
use rust_experiments.Prelude.{
  ℕ, ◌+◌, ◌-◌, min, ◌≡◌, refl, sym, ap, List, String, Option-cases, Bool-cases, inl, inr, ◌==◌,
}
use rust_experiments.Machine.{Build, ok, add64}
use rust_experiments.Store.Transaction.{Committed, Redb}
use rust_experiments.Store.Atomic.{
  pure-Meets, call-Meets, begin_transaction-Meets, open_table_mut-Meets, open_table-Meets,
  commit-Meets, compute-Meets, bind-Meets, weaken-Meets,
}
use rust_experiments.Store.AllOrNothing.{Effect, Atomic, Atomic-Effect}
use rust_experiments.Feed.Services.{Trade, Services}
use rust_experiments.Feed.Defs.{
  Database, max_page_size, get_total_trades_count, get_next_trade_counter, check_id_exists,
  store_id_with_index, store_trade_batch, store_each, get_trades_by_range, get_recent_trades,
  read_range, read_recent,
}
use rust_experiments.Feed.Loops.{fails_of, insert_each-Gives, recent_of-Gives, range_of-Gives}
use rust_experiments.Feed.Transactions.{
  Request, store_trade_batch_request, get_total_trades_count_request, get_recent_trades_request,
  get_trades_by_range_request, get_next_trade_counter_request, check_id_exists_request,
  store_id_with_index_request, Response, tables_read, or_zero, is_some, Action,
  handle_store_trade_batch, handle_get_total_trades_count, handle_get_recent_trades,
  handle_get_trades_by_range, handle_get_next_trade_counter, handle_check_id_exists,
  handle_store_id_with_index, handle_request, ideal,
}

module _ (S : Services) where
  total_of :
      (db : Database S)
      → or_zero (S.meta_table.get db.trades_meta "total") ≡ get_total_trades_count S db
  unfolding get_total_trades_count
  total_of db = elim (Option-cases (S.meta_table.get db.trades_meta "total")) [
    | inl e ↦ rw (get_total_trades_count, e)
    | inr (n, e) ↦ rw (get_total_trades_count, e)
  ]

  exists_of :
      (id : String) (db : Database S)
      → is_some (S.ids_table.get db.trade_ids id) ≡ check_id_exists S id db
  unfolding check_id_exists
  exists_of id db = elim (Option-cases (S.ids_table.get db.trade_ids id)) [
    | inl e ↦ rw (check_id_exists, e)
    | inr (n, e) ↦ rw (check_id_exists, e)
  ]

module _ (S : Services) (R : Redb (Database S)) (b : Build) where
  abbrev pub AllOrNothing :
      (r : Request) → R.World → Committed (Database S) → Action S R b (Response r) → Type 0
  AllOrNothing r w₀ c m = Atomic R (ideal S b r) (tables_read r) w₀ c m

  module _ (w₀ : R.World) (c : Committed (Database S)) where
    handle_store_trade_batch-Atomic :
        (batch : List (Trade × ℕ))
        → AllOrNothing (store_trade_batch_request batch) w₀ c (handle_store_trade_batch S R b batch)
    unfolding ideal handle_store_trade_batch store_trade_batch
    handle_store_trade_batch-Atomic batch =
        let r = store_trade_batch_request batch in
        begin_transaction-Meets _ c (fails_of S R b w₀ c r) (
          open_table_mut-Meets "trades" c _ c (fails_of S R b w₀ c r) (
            open_table_mut-Meets "trade_ids" _ _ c (fails_of S R b w₀ c r) (
              bind-Meets (λ db c'. (db ≡ store_each S batch c.db) × (c' ≡ c)) _ _ c
                (insert_each-Gives S R b w₀ c r batch c.db)
                (λ db c' (stored, same).
                  rw (stored, same)
                    (commit-Meets _ _ c (fails_of S R b w₀ c r) (pure-Meets _ _ refl))))))

    handle_get_total_trades_count-Atomic :
        AllOrNothing get_total_trades_count_request w₀ c (handle_get_total_trades_count S R b)
    unfolding ideal handle_get_total_trades_count get_total_trades_count
    handle_get_total_trades_count-Atomic =
        let r = get_total_trades_count_request in
        begin_transaction-Meets _ c (fails_of S R b w₀ c r) (
          open_table-Meets "trades_meta" c _ c (fails_of S R b w₀ c r)
            (λ missing w' same. (same, (refl, missing)))
            (call-Meets _ _ c (fails_of S R b w₀ c r)
              (pure-Meets _ _ (ap (λ n. ok (n, c.db)) (sym (total_of S c.db))))))

    handle_check_id_exists-Atomic :
        (id : String)
        → AllOrNothing (check_id_exists_request id) w₀ c (handle_check_id_exists S R b id)
    unfolding ideal handle_check_id_exists
    handle_check_id_exists-Atomic id =
        let r = check_id_exists_request id in
        begin_transaction-Meets _ c (fails_of S R b w₀ c r) (
          open_table-Meets "trade_ids" c _ c (fails_of S R b w₀ c r)
            (λ missing w' same. (same, (refl, missing)))
            (call-Meets _ _ c (fails_of S R b w₀ c r)
              (pure-Meets _ _ (ap (λ x. ok (x, c.db)) (sym (exists_of S id c.db))))))

    handle_store_id_with_index-Atomic :
        (id : String) (index : ℕ)
        → AllOrNothing
            (store_id_with_index_request id index)
            w₀
            c
            (handle_store_id_with_index S R b id index)
    unfolding ideal handle_store_id_with_index store_id_with_index
    handle_store_id_with_index-Atomic id index =
        let r = store_id_with_index_request id index in
        begin_transaction-Meets _ c (fails_of S R b w₀ c r) (
          open_table_mut-Meets "trade_ids" c _ c (fails_of S R b w₀ c r) (
            call-Meets _ _ c (fails_of S R b w₀ c r)
              (commit-Meets _ _ c (fails_of S R b w₀ c r) (pure-Meets _ _ refl))))

    handle_get_trades_by_range-Atomic :
        (start_index limit : ℕ)
        → AllOrNothing
            (get_trades_by_range_request start_index limit)
            w₀
            c
            (handle_get_trades_by_range S R b start_index limit)
    unfolding ideal handle_get_trades_by_range get_trades_by_range
    handle_get_trades_by_range-Atomic start_index limit =
        let r = get_trades_by_range_request start_index limit in
        begin_transaction-Meets _ c (fails_of S R b w₀ c r) (
          open_table-Meets "trades" c _ c (fails_of S R b w₀ c r)
            (λ missing w' same. (same, (refl, missing)))
            (compute-Meets _ _ c
              (λ end_index e.
                let n = end_index - start_index in
                weaken-Meets (λ ts c'. (ts ≡ read_range S c.db n start_index) × (c' ≡ c)) _ c
                  (λ ts c' (read, same). rw (get_trades_by_range, e, read, same))
                  (range_of-Gives S R b w₀ c r n start_index))
              (λ fault e. (refl, rw (get_trades_by_range, e)))))

    handle_get_recent_trades-Atomic :
        (count : ℕ)
        → AllOrNothing (get_recent_trades_request count) w₀ c (handle_get_recent_trades S R b count)
    unfolding ideal handle_get_recent_trades get_recent_trades
    handle_get_recent_trades-Atomic count =
        let r = get_recent_trades_request count in
        let total = or_zero (S.meta_table.get c.db.trades_meta "total") in
        let n = min (min count total) max_page_size in
        begin_transaction-Meets _ c (fails_of S R b w₀ c r) (
          open_table-Meets "trades_meta" c _ c (fails_of S R b w₀ c r)
            (λ missing w' same. (same, (refl, missing)))
            (open_table-Meets "trades" c _ c (fails_of S R b w₀ c r)
              (λ missing w' same. (same, (refl, missing)))
              (call-Meets _ _ c (fails_of S R b w₀ c r) (elim (Bool-cases (n == 0)) [
                | inl empty ↦
                    rw empty (pure-Meets _ _ (rw (get_recent_trades, sym (total_of S c.db), empty)))
                | inr some_left ↦ rw some_left (
                    weaken-Meets (λ ts c'. (ts ≡ read_recent S c.db n (total - n + 1)) × (c' ≡ c)) _
                      c
                      (λ ts c' (read, same).
                        rw (get_recent_trades, sym (total_of S c.db), some_left, read, same))
                      (recent_of-Gives S R b w₀ c r n (total - n + 1)))
              ]))))

    counted :
        (new_total : ℕ)
        → add64 b (or_zero (S.meta_table.get c.db.trades_meta "total")) 1 ≡ ok new_total
        → ideal S b get_next_trade_counter_request c.db
          ≡ ok (
            new_total,
            record c.db { trades_meta = S.meta_table.insert c.db.trades_meta "total" new_total },
          )
    unfolding ideal get_next_trade_counter
    counted new_total e = rw (get_next_trade_counter, sym (total_of S c.db), e)

    handle_get_next_trade_counter-Atomic :
        AllOrNothing get_next_trade_counter_request w₀ c (handle_get_next_trade_counter S R b)
    unfolding ideal handle_get_next_trade_counter get_next_trade_counter
    handle_get_next_trade_counter-Atomic =
        let r = get_next_trade_counter_request in
        begin_transaction-Meets _ c (fails_of S R b w₀ c r) (
          open_table-Meets "trades_meta" c _ c (fails_of S R b w₀ c r)
            (λ missing w' same. (same, (refl, missing)))
            (call-Meets _ _ c (fails_of S R b w₀ c r) (
              compute-Meets _ _ c
                (λ new_total e. begin_transaction-Meets _ c (fails_of S R b w₀ c r) (
                  open_table_mut-Meets "trades_meta" c _ c (fails_of S R b w₀ c r) (
                    call-Meets _ _ c (fails_of S R b w₀ c r) (
                      commit-Meets _ _ c (fails_of S R b w₀ c r)
                        (pure-Meets new_total _ (counted new_total e))))))
                (λ fault e. (refl, rw (get_next_trade_counter, sym (total_of S c.db), e))))))

  pub handle_request-AllOrNothing :
      (r : Request) (w₀ : R.World) (c : Committed (Database S))
      → AllOrNothing r w₀ c (handle_request S R b r)
  unfolding handle_request
  handle_request-AllOrNothing (store_trade_batch_request batch) w₀ c =
      handle_store_trade_batch-Atomic w₀ c batch
  handle_request-AllOrNothing get_total_trades_count_request w₀ c =
      handle_get_total_trades_count-Atomic w₀ c
  handle_request-AllOrNothing (get_recent_trades_request count) w₀ c =
      handle_get_recent_trades-Atomic w₀ c count
  handle_request-AllOrNothing (get_trades_by_range_request start_index limit) w₀ c =
      handle_get_trades_by_range-Atomic w₀ c start_index limit
  handle_request-AllOrNothing get_next_trade_counter_request w₀ c =
      handle_get_next_trade_counter-Atomic w₀ c
  handle_request-AllOrNothing (check_id_exists_request id) w₀ c =
      handle_check_id_exists-Atomic w₀ c id
  handle_request-AllOrNothing (store_id_with_index_request id index) w₀ c =
      handle_store_id_with_index-Atomic w₀ c id index

  -- Whatever calls of the database fail, every request has its whole effect or none: a response is that
  -- of the request on a storage that does not fail, and what is committed then is what that request
  -- leaves; after an error, and after a panic of the request's arithmetic, what is committed is what
  -- was committed before. There is an error only if a call of this run has failed, the first one that
  -- has, and then with its error, or if a table
  -- that the request reads has never been created.
  pub handle_request-Effect :
      (r : Request) (w : R.World)
      → Effect R (ideal S b r) (tables_read r) w (handle_request S R b r w)
  handle_request-Effect r w =
      Atomic-Effect R (ideal S b r) (tables_read r) w (handle_request S R b r)
        (handle_request-AllOrNothing r w (R.committed w))
