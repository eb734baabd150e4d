-- ===== src/Feed/Unreliable.antt =====
-- step12_ws_feed/code/src/main.rs: a message of trades over a storage that can fail, up to the
-- publication.
use text.Mathlib.Text.{◌==◌ as ◌===◌}
use rust_experiments.Prelude.{ℕ, List, [], ◌∷◌, Option, none, some, String, if◌then◌else◌}
use rust_experiments.Machine.{Build}
use rust_experiments.Store.Transaction.{Redb, ◌>>=◌, ◌>>◌, pure}
use rust_experiments.Feed.Services.{Trade, Services}
use rust_experiments.Feed.Defs.{
  JsonValue, to_string, KrakenTradeMessage, Database, misc_of, trade_id, add_to,
}
use rust_experiments.Feed.Transactions.{
  Action, handle_get_next_trade_counter, handle_check_id_exists, handle_store_id_with_index,
  handle_store_trade_batch,
}

module _ (S : Services) (R : Redb (Database S)) (b : Build) where
  -- A round of the loop over the trades of a message, whose requests end the message by `?`.
  unfoldable pub run_trade : String → List (JsonValue S) → Action S R b (Option (Trade × ℕ))
  unfolding to_string handle_get_next_trade_counter handle_check_id_exists
      handle_store_id_with_index
  run_trade pair (price ∷ volume ∷ timestamp ∷ side ∷ order_type ∷ more) = do
    index ← handle_get_next_trade_counter S R b
    let id = trade_id index (to_string S price)
    id_exists ← handle_check_id_exists S R b id
    let trade : Trade = record {
      id = id;
      price = to_string S price;
      volume = to_string S volume;
      timestamp = to_string S timestamp;
      side = to_string S side;
      order_type = to_string S order_type;
      misc = misc_of S more;
      pair = pair;
    }
    if id_exists
        then pure none
        else handle_store_id_with_index S R b id index >> pure (some (trade, index))
  run_trade pair _ = pure none

  unfoldable pub run_trades : String → List (List (JsonValue S)) → Action S R b (List (Trade × ℕ))
  unfolding run_trade
  run_trades pair [] = pure []
  run_trades pair (trade_data ∷ trades_data) = do
    stored ← run_trade pair trade_data
    batch ← run_trades pair trades_data
    pure (add_to S stored batch)

  unfoldable pub run_batch : List (Trade × ℕ) → Action S R b Unit
  unfolding handle_store_trade_batch
  run_batch [] = pure tt
  run_batch (entry ∷ batch) = handle_store_trade_batch S R b (entry ∷ batch) >> pure tt

  unfoldable pub run_trade_message : KrakenTradeMessage S → Action S R b Unit
  unfolding run_trades run_batch
  run_trade_message message =
      if message.channel_name === "trade"
      then run_trades message.pair message.trades_data >>= run_batch
      else pure tt

  -- The messages of a connection, one after the other: the loop goes on after a message that fails.
  unfoldable pub run_messages : List (KrakenTradeMessage S) → R.World → R.World
  unfolding run_trade_message
  run_messages [] w = w
  run_messages (message ∷ messages) w = run_messages messages (run_trade_message message w).1
