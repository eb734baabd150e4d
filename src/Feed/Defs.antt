-- ===== src/Feed/Defs.antt =====
-- step12_ws_feed/code/src/main.rs: the requests to the database, and the part of
-- `handle_ws_message` that stores the trades of a message. The storage does not fail here, and the
-- publication through Redis is left out.
use text.Mathlib.Text.{◌==◌ as ◌===◌}
use rust_experiments.Prelude.{
  ℕ, zero, suc, ◌+◌, ◌-◌, List, [], ◌∷◌, Option, none, some, String, ◌<>◌, Bool, true, false, min,
  ◌==◌, if◌then◌else◌, length,
}
use rust_experiments.Machine.{Build, Outcome, ok, ◌>>=◌, add64}
use rust_experiments.Text.{to_decimal}
use rust_experiments.Feed.Services.{Trade, Services}

abbrev pub max_page_size : ℕ
max_page_size = 100

-- `format!("{}-{}", index, price)`
abbrev pub trade_id : ℕ → String → String
trade_id index price = to_decimal index <> ("-" <> price)

module _ (S : Services) where
  pub data JsonValue : Type 0 where
    string : String → JsonValue
    number : S.F64 → JsonValue
    boolean : Bool → JsonValue
    null : JsonValue
    array : JsonValue
    object : JsonValue

  unfoldable pub to_string : JsonValue → String
  to_string (string s) = s
  to_string (number n) = S.f64_to_string n
  to_string (boolean true) = "true"
  to_string (boolean false) = "false"
  to_string null = "null"
  to_string array = "[array]"
  to_string object = "{object}"

  pub record KrakenTradeMessage : Type 0 where
    pub channel_id : ℕ
    pub trades_data : List (List JsonValue)
    pub channel_name : String
    pub pair : String

  -- The three tables.
  pub record Database : Type 0 where
    pub trades : S.trades_table.Rows
    pub trade_ids : S.ids_table.Rows
    pub trades_meta : S.meta_table.Rows

  -- `trades_meta.get("total")?.map(|v| v.value()).unwrap_or(0)`
  unfoldable pub get_total_trades_count : Database → ℕ
  get_total_trades_count db = elim (S.meta_table.get db.trades_meta "total") [
    | none ↦ 0
    | some total ↦ total
  ]

  -- What `main` does with a new database.
  unfoldable pub create : Database
  create = record {
    trades = S.trades_table.new;
    trade_ids = S.ids_table.new;
    trades_meta = S.meta_table.insert S.meta_table.new "total" 0;
  }

  unfoldable pub get_next_trade_counter : Build → Database → Outcome (ℕ × Database)
  unfolding get_total_trades_count
  get_next_trade_counter b db = do
    new_total ← add64 b (get_total_trades_count db) 1
    ok (new_total, record db { trades_meta = S.meta_table.insert db.trades_meta "total" new_total })

  unfoldable pub check_id_exists : String → Database → Bool
  check_id_exists id db = elim (S.ids_table.get db.trade_ids id) [ none ↦ false | some _ ↦ true ]

  unfoldable pub store_id_with_index : String → ℕ → Database → Database
  store_id_with_index id index db = record db {
    trade_ids = S.ids_table.insert db.trade_ids id index;
  }

  -- The loop of `StoreTradeBatchRequest`.
  unfoldable pub store_each : List (Trade × ℕ) → Database → Database
  store_each [] db = db
  store_each ((trade, index) ∷ batch) db = store_each batch (record db {
    trades = S.trades_table.insert db.trades index (S.to_vec trade);
    trade_ids = S.ids_table.insert db.trade_ids trade.id index;
  })

  unfoldable pub store_trade_batch : List (Trade × ℕ) → Database → ℕ × Database
  unfolding store_each
  store_trade_batch batch db = (length batch, store_each batch db)

  -- The loop of `GetTradesByRangeRequest`: `n` more indices from `i` on.
  unfoldable pub read_range : Database → ℕ → ℕ → List Trade
  read_range db zero i = []
  read_range db (suc n) i =
      let rest = read_range db n (suc i) in
      elim (S.trades_table.get db.trades i) [
        | none ↦ []
        | some bytes ↦ elim (S.from_slice bytes) [ none ↦ rest | some trade ↦ trade ∷ rest ]
      ]

  unfoldable pub get_trades_by_range : Build → ℕ → ℕ → Database → Outcome (List Trade)
  unfolding read_range
  get_trades_by_range b start_index limit db = do
    end_index ← add64 b start_index limit
    ok (read_range db (end_index - start_index) start_index)

  -- The loop of `GetRecentTradesRequest`, which goes on after an index with no trade.
  unfoldable pub read_recent : Database → ℕ → ℕ → List Trade
  read_recent db zero i = []
  read_recent db (suc n) i =
      let rest = read_recent db n (suc i) in
      elim (S.trades_table.get db.trades i) [
        | none ↦ rest
        | some bytes ↦ elim (S.from_slice bytes) [ none ↦ rest | some trade ↦ trade ∷ rest ]
      ]

  unfoldable pub get_recent_trades : ℕ → Database → List Trade
  unfolding read_recent get_total_trades_count
  get_recent_trades count db =
      let total = get_total_trades_count db in
      let n = min (min count total) max_page_size in
      if n == 0 then [] else read_recent db n (total - n + 1)

  -- `get_trades`, up to the printing of its result.
  unfoldable pub get_trades : Build → Option ℕ → Option ℕ → Database → Outcome (List Trade)
  unfolding get_trades_by_range
  get_trades b start_index limit db =
      let start = elim start_index as (λ _. ℕ) [ none ↦ 1 | some i ↦ i ] in
      let requested_limit = elim limit as (λ _. ℕ) [ none ↦ 100 | some n ↦ n ] in
      get_trades_by_range b start (min requested_limit 1000) db

  abbrev pub misc_of : List JsonValue → String
  unfolding to_string
  misc_of [] = ""
  misc_of (v ∷ _) = to_string v

  -- A round of the loop over the trades of a message: what it adds to the batch, if anything.
  unfoldable pub store_trade :
      Build → String → List JsonValue → Database → Outcome (Option (Trade × ℕ) × Database)
  unfolding to_string get_next_trade_counter check_id_exists store_id_with_index
  store_trade b pair (price ∷ volume ∷ timestamp ∷ side ∷ order_type ∷ more) db = do
    (index, counted) ← get_next_trade_counter b db
    let id = trade_id index (to_string price)
    let trade : Trade = record {
      id = id;
      price = to_string price;
      volume = to_string volume;
      timestamp = to_string timestamp;
      side = to_string side;
      order_type = to_string order_type;
      misc = misc_of more;
      pair = pair;
    }
    ok (
        if check_id_exists id counted
        then (none, counted)
        else (some (trade, index), store_id_with_index id index counted))
  store_trade b pair _ db = ok (none, db)

  abbrev pub add_to : Option (Trade × ℕ) → List (Trade × ℕ) → List (Trade × ℕ)
  add_to none batch = batch
  add_to (some entry) batch = entry ∷ batch

  unfoldable pub store_trades :
      Build → String → List (List JsonValue) → Database → Outcome (List (Trade × ℕ) × Database)
  unfolding store_trade
  store_trades b pair [] db = ok ([], db)
  store_trades b pair (trade_data ∷ trades_data) db = do
    (stored, db₁) ← store_trade b pair trade_data db
    (batch, db₂) ← store_trades b pair trades_data db₁
    ok (add_to stored batch, db₂)

  abbrev pub store_batch : List (Trade × ℕ) → Database → Database
  unfolding store_trade_batch
  store_batch [] db = db
  store_batch (entry ∷ batch) db = (store_trade_batch (entry ∷ batch) db).1

  unfoldable pub handle_trade_message : Build → KrakenTradeMessage → Database → Outcome Database
  unfolding store_trades
  handle_trade_message b message db =
      if message.channel_name === "trade"
      then (do
        (batch, stored) ← store_trades b message.pair message.trades_data db
        ok (store_batch batch stored))
      else ok db
