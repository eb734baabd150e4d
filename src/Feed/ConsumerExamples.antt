-- ===== src/Feed/ConsumerExamples.antt =====
-- step12_ws_feed/code/src/main.rs: the loop that reads the messages, with a connection to Redis that
-- fails after a number of texts.
use text.Mathlib.Text.{◌==◌ as ◌===◌}
use rust_experiments.Prelude.{
  All, false, ℕ, zero, suc, ◌≡◌, refl, List, [], ◌∷◌, Option, none, some, String, ◌<>◌, true,
  if◌then◌else◌, arith,
}
use rust_experiments.Machine.{ok, panic, no_char_boundary}
use rust_experiments.Feed.Defs.{Database, create, store_batch}
use rust_experiments.Feed.Spec.{listed, indexed, trade_from, Represents}
use rust_experiments.Feed.Messages.{create-Represents, Stored, store_trades-Stored}
use rust_experiments.Feed.Consumer.{
  success, failure, trade_message, event_message, heartbeat, Remote, log_message_format, Received,
  text_message, ping, close, continues, Consumer, read_loop, receive_one,
}
use rust_experiments.Feed.Handling.{CanBeLogged}
use rust_experiments.Feed.Connections.{Subscribing, subscription_of, Attempt, ws_task}
use rust_experiments.Feed.Reconnecting.{after_connections, ws_task-after_connections}
use rust_experiments.Feed.Reading.{after_all, read_loop-after_all}
use rust_experiments.Feed.Redis.{Publishes, goes_on, stops, receive_one-Publishes}
use rust_experiments.Feed.Examples.{services, checked_build, message}

-- As many texts as the number of the connection can be published.
abbrev publish : ℕ → String → Option String × ℕ
publish zero json = (some "broken pipe (os error 32)", zero)
publish (suc n) json = (none, n)

abbrev remote : Remote services
remote = record {
  from_str = λ s.
      if s === "trades"
      then success (trade_message message)
      else if s === "heartbeat"
      then success (event_message heartbeat)
      else failure "expected value";
  trade_json = λ trade. success trade.id;
  Connection = ℕ;
  publish = publish;
}

-- Redis is not there for the first message, and fails within the second one.
abbrev received : List (Option ℕ × Received)
received =
    (none, text_message "trades")
    ∷ (some 1, text_message "trades")
    ∷ (none, ping true)
    ∷ (none, close)
    ∷ (none, text_message "trades")
    ∷ []

abbrev started : Consumer services remote
started = record { db = create services; redis_connection = none }

received_logged : All (λ m. CanBeLogged m.1) received
received_logged = (
  (λ h. absurd (omega arith)),
  ((λ h. absurd (omega arith)), (tt, (tt, ((λ h. absurd (omega arith)), tt)))),
)

read_loop-after_all_example :
    (after : Consumer services remote) × (read_loop services remote checked_build received started
      ≡ ok after)
    × Represents services after.db (after_all services remote [] received)
read_loop-after_all_example =
    read_loop-after_all services remote checked_build received started []
      (create-Represents services) received_logged (omega arith)

abbrev stored_trades :
    Stored services checked_build "XBT/USD" message.trades_data (create services) 0
stored_trades =
    store_trades-Stored services checked_build "XBT/USD" message.trades_data (create services) 0
      (create-Represents services).counted (omega arith)

first_trade_published :
    Publishes services remote
      (indexed 0 (listed services "XBT/USD" 0 message.trades_data))
      1
      (some "broken pipe (os error 32)")
      0
unfolding listed trade_from
first_trade_published = goes_on refl refl (stops refl refl)

receive_one-Publishes_example :
    receive_one services remote checked_build (some 1) (text_message "trades") started
    ≡ ok (
      continues,
      record {
        db =
            store_batch services
              (indexed 0 (listed services "XBT/USD" 0 message.trades_data))
              stored_trades.result;
        redis_connection = none;
      },
    )
receive_one-Publishes_example =
    receive_one-Publishes services remote checked_build (some 1) started "trades" message
      (indexed 0 (listed services "XBT/USD" 0 message.trades_data)) stored_trades.result 1 0
      (some "broken pipe (os error 32)") refl refl stored_trades.ran refl first_trade_published

abbrev many : ℕ → String → String
many zero s = ""
many (suc n) s = s <> many n s

-- A long message with a character across the byte 500 ends the task that reads the messages.
cut_character : log_message_format "Array" ("a" <> many 250 "é") ≡ panic no_char_boundary
unfolding log_message_format
cut_character = refl

-- A command that is one `KrakenSubscribeMessage`.
abbrev subscribing : Subscribing
subscribing = record {
  SubscribeMessage = Unit;
  from_str = λ s. if s === "subscribe" then some tt else none;
  to_string = λ _. some "subscribe";
  value_to_string = λ _. none;
}

abbrev connection : List (Option ℕ × Received) → Attempt services remote
connection messages = record {
  url_parses = true;
  redis_client_opens = true;
  redis_connects = some 1;
  ws_connects = true;
  subscription_is_sent = λ s. s === "subscribe";
  messages = messages;
}

-- The second time the feed is not there.
abbrev attempts : List (Attempt services remote)
attempts =
    connection received
    ∷ record (connection received) { ws_connects = false }
    ∷ connection ((none, text_message "trades") ∷ [])
    ∷ []

ws_task-after_connections_example :
    (db' : Database services) × (ws_task services remote checked_build subscribing "subscribe"
        attempts
        (create services)
      ≡ ok db')
    × Represents services db'
        (after_connections services remote (subscription_of subscribing "subscribe") [] attempts)
ws_task-after_connections_example =
    ws_task-after_connections services remote checked_build subscribing "subscribe" attempts
      (create services) [] (create-Represents services)
      (received_logged, (received_logged, (((λ h. absurd (omega arith)), tt), tt))) (omega arith)
