-- ===== src/Feed/Examples.antt =====
-- The theorems about the store of trades at concrete messages, over lists as tables.
use text.Mathlib.Text.{◌==◌ as ◌===◌}
use text.Mathlib.TextEquality.{eq_iff}
use text.Mathlib.TextPositions.{eq_refl}
use rust_experiments.Prelude.{
  ℕ, drop, ◌-◌, ◌≡◌, refl, List, [], ◌∷◌, none, some, true, false, length, min, arith, ◌==◌, ==→eq,
  eq→==,
}
use rust_experiments.Machine.{Build, ok}
use rust_experiments.Text.{to_decimal}
use rust_experiments.Store.ListTable.{list_table}
use rust_experiments.Feed.Services.{Trade, Services}
use rust_experiments.Feed.Defs.{
  string, number, KrakenTradeMessage, Database, create, get_recent_trades, get_trades,
  handle_trade_message, max_page_size,
}
use rust_experiments.Feed.Spec.{listed, Represents}
use rust_experiments.Feed.Messages.{create-Represents, handle_trade_message-Represents}
use rust_experiments.Feed.Paging.{page, get_trades-page, get_recent_trades-drop}

abbrev pub services : Services
services = record {
  Bytes = Trade;
  to_vec = λ trade. trade;
  from_slice = some;
  from_slice-to_vec = λ trade. refl;
  trades_table = list_table (λ j k. j == k) ==→eq (λ k. eq→== k k refl);
  ids_table = list_table (λ j k. j === k) (λ j k e. (eq_iff j k).0 e) eq_refl;
  meta_table = list_table (λ j k. j === k) (λ j k e. (eq_iff j k).0 e) eq_refl;
  F64 = ℕ;
  f64_to_string = to_decimal;
}

abbrev pub checked_build : Build
checked_build = record { test = false; overflow_checks = true }

-- Two trades at one price, and one with too few fields.
abbrev pub message : KrakenTradeMessage services
message = record {
  channel_id = 337;
  trades_data =
      (string "5541.2" ∷ string "0.15" ∷ string "1534614057.32" ∷ string "s" ∷ string "l" ∷ [])
      ∷ (string "5541.2" ∷ [])
      ∷ (string "5541.2"
          ∷ number 1
          ∷ string "1534614057.33"
          ∷ string "b"
          ∷ string "m"
          ∷ string "x"
          ∷ [])
      ∷ [];
  channel_name = "trade";
  pair = "XBT/USD";
}

handle_trade_message-Represents_example :
    (after : Database services) × (handle_trade_message services checked_build message
        (create services)
      ≡ ok after)
    × Represents services after (listed services "XBT/USD" 0 message.trades_data)
handle_trade_message-Represents_example =
    handle_trade_message-Represents services checked_build message (create services) []
      (create-Represents services) refl (omega arith)

abbrev stored : List Trade
stored = listed services "XBT/USD" 0 message.trades_data

message_stored :
    (after : Database services) × (handle_trade_message services checked_build message
        (create services)
      ≡ ok after)
    × Represents services after stored
message_stored =
    handle_trade_message-Represents services checked_build message (create services) []
      (create-Represents services) refl (omega arith)

get_trades-page_example :
    get_trades services checked_build (some 2) none message_stored.0
    ≡ ok (page (some 2) none stored)
get_trades-page_example =
    get_trades-page services message_stored.0 stored message_stored.2 checked_build (some 2) none
      (omega arith)

get_recent_trades-drop_example :
    get_recent_trades services 1 message_stored.0
    ≡ drop (length stored - min (min 1 (length stored)) max_page_size) stored
get_recent_trades-drop_example =
    get_recent_trades-drop services message_stored.0 stored message_stored.2 1
