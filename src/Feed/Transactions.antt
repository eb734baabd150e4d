-- ===== src/Feed/Transactions.antt =====
-- step12_ws_feed/code/src/main.rs: the requests to the database, call by call, where any call can
-- fail.
use rust_experiments.Prelude.{
  ℕ, zero, suc, ◌+◌, ◌-◌, List, [], ◌∷◌, Option, none, some, String, Bool, true, false, min, ◌==◌,
  if◌then◌else◌, length,
}
use rust_experiments.Machine.{Build, Outcome, ok, panic, add64}
use rust_experiments.Store.Transaction.{
  Redb, Storage, ◌>>=◌, ◌>>◌, pure, compute, call, begin_transaction, open_table, open_table_mut,
  commit,
}
use rust_experiments.Feed.Services.{Trade, Services}
use rust_experiments.Feed.Defs.{
  Database, max_page_size, get_total_trades_count, get_next_trade_counter, check_id_exists,
  store_id_with_index, store_trade_batch, get_trades_by_range, get_recent_trades,
}

-- The types that are requests.
pub data Request : Type 0 where
  store_trade_batch_request : List (Trade × ℕ) → Request
  get_total_trades_count_request : Request
  get_recent_trades_request : ℕ → Request
  get_trades_by_range_request : ℕ → ℕ → Request
  get_next_trade_counter_request : Request
  check_id_exists_request : String → Request
  store_id_with_index_request : String → ℕ → Request

abbrev pub Response : Request → Type 0
Response (store_trade_batch_request _) = ℕ
Response get_total_trades_count_request = ℕ
Response (get_recent_trades_request _) = List Trade
Response (get_trades_by_range_request _ _) = List Trade
Response get_next_trade_counter_request = ℕ
Response (check_id_exists_request _) = Bool
Response (store_id_with_index_request _ _) = Unit

-- The tables that a request reads before it could create them.
abbrev pub tables_read : Request → List String
tables_read get_total_trades_count_request = "trades_meta" ∷ []
tables_read (get_recent_trades_request _) = "trades_meta" ∷ "trades" ∷ []
tables_read (get_trades_by_range_request _ _) = "trades" ∷ []
tables_read get_next_trade_counter_request = "trades_meta" ∷ []
tables_read (check_id_exists_request _) = "trade_ids" ∷ []
tables_read _ = []

abbrev pub is_some : {A : Type 0} → Option A → Bool
is_some none = false
is_some (some _) = true

abbrev pub or_zero : Option ℕ → ℕ
or_zero none = 0
or_zero (some n) = n

module _ (S : Services) (R : Redb (Database S)) (b : Build) where
  abbrev pub Action : Type 0 → Type 0
  Action A = Storage R.World R.Error A

  -- The loop of `StoreTradeBatchRequest`.
  unfoldable pub insert_each : List (Trade × ℕ) → Database S → Action (Database S)
  unfolding call
  insert_each [] db = pure db
  insert_each ((trade, index) ∷ batch) db = do
    rows ← call R (S.trades_table.insert db.trades index (S.to_vec trade))
    ids ← call R (S.ids_table.insert db.trade_ids trade.id index)
    insert_each batch (record db { trades = rows; trade_ids = ids })

  unfoldable pub handle_store_trade_batch : List (Trade × ℕ) → Action ℕ
  unfolding begin_transaction open_table_mut insert_each commit
  handle_store_trade_batch batch = do
    write_txn ← begin_transaction R
    with_trades ← open_table_mut R "trades" write_txn
    txn ← open_table_mut R "trade_ids" with_trades
    db ← insert_each batch txn.db
    let stored_count = length batch
    commit R (record txn { db = db })
    pure stored_count

  unfoldable pub handle_get_total_trades_count : Action ℕ
  unfolding begin_transaction open_table call
  handle_get_total_trades_count = do
    read_txn ← begin_transaction R
    trades_meta ← open_table R "trades_meta" read_txn
    total ← call R (S.meta_table.get trades_meta.trades_meta "total")
    pure (or_zero total)

  abbrev pub push_trade : S.Bytes → List Trade → List Trade
  push_trade bytes rest = elim (S.from_slice bytes) [ none ↦ rest | some trade ↦ trade ∷ rest ]

  abbrev pub push_found : Option S.Bytes → List Trade → List Trade
  push_found none rest = rest
  push_found (some bytes) rest = push_trade bytes rest

  -- The loop of `GetRecentTradesRequest`.
  unfoldable pub recent_of : S.trades_table.Rows → ℕ → ℕ → Action (List Trade)
  unfolding call
  recent_of trades zero i = pure []
  recent_of trades (suc n) i = do
    bytes ← call R (S.trades_table.get trades i)
    rest ← recent_of trades n (suc i)
    pure (push_found bytes rest)

  unfoldable pub handle_get_recent_trades : ℕ → Action (List Trade)
  unfolding begin_transaction open_table call recent_of
  handle_get_recent_trades count = do
    read_txn ← begin_transaction R
    trades_meta ← open_table R "trades_meta" read_txn
    trades ← open_table R "trades" read_txn
    found ← call R (S.meta_table.get trades_meta.trades_meta "total")
    let total = or_zero found
    let n = min (min count total) max_page_size
    if n == 0 then pure [] else recent_of trades.trades n (total - n + 1)

  -- The loop of `GetTradesByRangeRequest`, which ends at the first index with no trade.
  unfoldable pub range_of : S.trades_table.Rows → ℕ → ℕ → Action (List Trade)
  unfolding call
  range_of trades zero i = pure []
  range_of trades (suc n) i = do
    found ← call R (S.trades_table.get trades i)
    elim found [
      | none ↦ pure []
      | some bytes ↦ (do rest ← range_of trades n (suc i); pure (push_trade bytes rest))
    ]

  unfoldable pub handle_get_trades_by_range : ℕ → ℕ → Action (List Trade)
  unfolding begin_transaction open_table compute range_of
  handle_get_trades_by_range start_index limit = do
    read_txn ← begin_transaction R
    trades ← open_table R "trades" read_txn
    end_index ← compute (add64 b start_index limit)
    range_of trades.trades (end_index - start_index) start_index

  unfoldable pub handle_get_next_trade_counter : Action ℕ
  unfolding begin_transaction open_table open_table_mut call compute commit
  handle_get_next_trade_counter = do
    read_txn ← begin_transaction R
    trades_meta ← open_table R "trades_meta" read_txn
    found ← call R (S.meta_table.get trades_meta.trades_meta "total")
    let current_total = or_zero found
    new_total ← compute (add64 b current_total 1)
    write_txn ← begin_transaction R
    txn ← open_table_mut R "trades_meta" write_txn
    inserted ← call R (S.meta_table.insert txn.db.trades_meta "total" new_total)
    commit R (record txn { db = record txn.db { trades_meta = inserted } })
    pure new_total

  unfoldable pub handle_check_id_exists : String → Action Bool
  unfolding begin_transaction open_table call
  handle_check_id_exists id = do
    read_txn ← begin_transaction R
    trade_ids ← open_table R "trade_ids" read_txn
    found ← call R (S.ids_table.get trade_ids.trade_ids id)
    pure (is_some found)

  unfoldable pub handle_store_id_with_index : String → ℕ → Action Unit
  unfolding begin_transaction open_table_mut call commit
  handle_store_id_with_index id index = do
    write_txn ← begin_transaction R
    txn ← open_table_mut R "trade_ids" write_txn
    inserted ← call R (S.ids_table.insert txn.db.trade_ids id index)
    commit R (record txn { db = record txn.db { trade_ids = inserted } })
    pure tt

  unfoldable pub handle_request : (r : Request) → Action (Response r)
  unfolding handle_store_trade_batch handle_get_total_trades_count handle_get_recent_trades
      handle_get_trades_by_range handle_get_next_trade_counter handle_check_id_exists
      handle_store_id_with_index
  handle_request (store_trade_batch_request batch) = handle_store_trade_batch batch
  handle_request get_total_trades_count_request = handle_get_total_trades_count
  handle_request (get_recent_trades_request count) = handle_get_recent_trades count
  handle_request (get_trades_by_range_request start_index limit) =
      handle_get_trades_by_range start_index limit
  handle_request get_next_trade_counter_request = handle_get_next_trade_counter
  handle_request (check_id_exists_request id) = handle_check_id_exists id
  handle_request (store_id_with_index_request id index) = handle_store_id_with_index id index

module _ (S : Services) (b : Build) where
  abbrev pub reading : {A : Type 0} → Database S → Outcome A → Outcome (A × Database S)
  reading db (ok a) = ok (a, db)
  reading db (panic fault) = panic fault

  -- The request on a storage that does not fail.
  unfoldable pub ideal : (r : Request) → Database S → Outcome (Response r × Database S)
  unfolding store_trade_batch get_total_trades_count get_recent_trades get_trades_by_range
      get_next_trade_counter check_id_exists store_id_with_index
  ideal (store_trade_batch_request batch) db = ok (store_trade_batch S batch db)
  ideal get_total_trades_count_request db = ok (get_total_trades_count S db, db)
  ideal (get_recent_trades_request count) db = ok (get_recent_trades S count db, db)
  ideal (get_trades_by_range_request start_index limit) db =
      reading db (get_trades_by_range S b start_index limit db)
  ideal get_next_trade_counter_request db = get_next_trade_counter S b db
  ideal (check_id_exists_request id) db = ok (check_id_exists S id db, db)
  ideal (store_id_with_index_request id index) db = ok (tt, store_id_with_index S id index db)
