-- ===== src/Feed/Consumer.antt =====
-- step12_ws_feed/code/src/main.rs: `handle_ws_message` whole, and the loop of `main` that reads the
-- messages of one connection. What they only print is left out.
use Prim.Native.String.{len}
use text.Mathlib.Text.{◌==◌ as ◌===◌, is_char_boundary}
use rust_experiments.Prelude.{
  ℕ, List, [], ◌∷◌, Option, none, some, String, ◌<>◌, Bool, true, ltb, ◌||◌, if◌then◌else◌,
}
use rust_experiments.Machine.{Build, Outcome, ok, panic, no_char_boundary, ◌>>=◌, ◌>>◌}
use rust_experiments.Text.Contains.{contains}
use rust_experiments.Feed.Services.{Trade, Services}
use rust_experiments.Feed.Defs.{KrakenTradeMessage, Database, store_trades, store_batch}

abbrev pub debug_ws_messages : Bool
debug_ws_messages = true

-- An error is known by its text, which is all that the code looks at.
pub data Result (A : Type 0) : Type 0 where
  success : A → Result A
  failure : String → Result A

-- What the code only prints of an event is left out, and of a JSON value what kind of value it is.
pub data KrakenEventMessage : Type 0 where
  system_status : KrakenEventMessage
  subscription_status : KrakenEventMessage
  heartbeat : KrakenEventMessage
  unknown : KrakenEventMessage

pub data Value : Type 0 where
  an_array : Value
  an_object : Value
  other_value : Value

pub data KrakenMessage (S : Services) : Type 0 where
  trade_message : KrakenTradeMessage S → KrakenMessage S
  event_message : KrakenEventMessage → KrakenMessage S
  generic : Value → KrakenMessage S

-- The JSON library, and the client of Redis. `publish` has the text of its error, if it fails, and
-- the connection that it leaves.
pub record Remote (S : Services) : Type 1 where
  pub from_str : String → Result (KrakenMessage S)
  pub trade_json : Trade → Result String
  pub Connection : Type 0
  pub publish : Connection → String → Option String × Connection

-- `&text[..500]` panics within a character.
unfoldable pub log_message_format : String → String → Outcome (Unit {0})
log_message_format _ text =
    if debug_ws_messages
    then if ltb 500 (len text)
      then if is_char_boundary text 500 then ok tt else panic no_char_boundary
      else ok tt
    else ok tt

abbrev pub is_connection_error : String → Bool
is_connection_error e =
    contains e "connection"
    || contains e "closed"
    || contains e "refused"
    || contains e "broken pipe"

abbrev pub publish_error : String → String
publish_error e = if is_connection_error e then "Redis connection lost: " <> e else e

abbrev pub is_lost : String → Bool
is_lost e = contains e "Redis connection lost" || contains e "redis" || contains e "broken pipe"

unfoldable pub handle_event_message : KrakenEventMessage → String → Outcome (Unit {0})
unfolding log_message_format
handle_event_message unknown text = log_message_format "Unknown event" text
handle_event_message _ text = ok tt

unfoldable pub handle_generic : Value → String → Outcome (Unit {0})
unfolding log_message_format
handle_generic an_array text = log_message_format "Array" text
handle_generic an_object text = log_message_format "Object" text
handle_generic other_value text = ok tt

-- A message of the socket; that of a ping with whether the pong can be sent.
pub data Received : Type 0 where
  text_message : String → Received
  binary : Received
  ping : Bool → Received
  close : Received
  other : Received
  read_error : Received

pub data Flow : Type 0 where
  continues : Flow
  breaks : Flow

module _ (S : Services) (R : Remote S) where
  unfoldable pub publish_each : List (Trade × ℕ) → R.Connection → Result (Unit {0}) × R.Connection
  publish_each [] connection = (success tt, connection)
  publish_each ((trade, _) ∷ batch) connection = elim (R.trade_json trade) [
    | failure e ↦ (failure e, connection)
    | success json ↦
        let (error, connection') = R.publish connection json in
        elim error [
          | none ↦ publish_each batch connection'
          | some e ↦ (failure (publish_error e), connection')
        ]
  ]

  abbrev pub publish_batch :
      List (Trade × ℕ) → Option R.Connection → Result (Unit {0}) × Option R.Connection
  unfolding publish_each
  publish_batch batch none = (success tt, none)
  publish_batch batch (some connection) =
      let (result, connection') = publish_each batch connection in (result, some connection')

  unfoldable pub handle_trades :
      Build
      → KrakenTradeMessage S
      → Database S
      → Option R.Connection
      → Outcome (Result (Unit {0}) × (Database S × Option R.Connection))
  unfolding store_trades publish_each
  handle_trades b message db redis_connection =
      if message.channel_name === "trade"
      then (do
        (batch, stored) ← store_trades S b message.pair message.trades_data db
        let (result, redis_connection') = publish_batch batch redis_connection
        ok (result, (store_batch S batch stored, redis_connection')))
      else ok (success tt, (db, redis_connection))

  unfoldable pub handle_ws_message :
      Build
      → String
      → Database S
      → Option R.Connection
      → Outcome (Result (Unit {0}) × (Database S × Option R.Connection))
  unfolding handle_trades handle_event_message handle_generic log_message_format
  handle_ws_message b s db redis_connection = elim (R.from_str s) [
    | success (trade_message message) ↦ handle_trades b message db redis_connection
    | success (event_message event) ↦
        handle_event_message event s >> ok (success tt, (db, redis_connection))
    | success (generic value) ↦ handle_generic value s >> ok (success tt, (db, redis_connection))
    | failure e ↦
        log_message_format "Unparseable" s
        >> ok (failure ("Invalid WebSocket message format: " <> e), (db, redis_connection))
  ]

  pub record Consumer : Type 0 where
    pub db : Database S
    pub redis_connection : Option R.Connection

  -- `attempt` is what an attempt to connect would come to.
  abbrev pub reconnect : Option R.Connection → Option R.Connection → Option R.Connection
  reconnect attempt none = attempt
  reconnect attempt (some connection) = some connection

  abbrev pub keep_connection : Result (Unit {0}) → Option R.Connection → Option R.Connection
  keep_connection (success _) redis_connection = redis_connection
  keep_connection (failure e) redis_connection = if is_lost e then none else redis_connection

  abbrev pub after_text : Result (Unit {0}) × (Database S × Option R.Connection) → Flow × Consumer
  after_text (result, (db, redis_connection)) =
      (continues, record { db = db; redis_connection = keep_connection result redis_connection })

  -- A round of `while let Some(message_result) = read.next().await`.
  unfoldable pub receive_one :
      Build → Option R.Connection → Received → Consumer → Outcome (Flow × Consumer)
  unfolding handle_ws_message
  receive_one b attempt received s =
      let redis_connection = reconnect attempt s.redis_connection in
      let connected : Consumer = record s { redis_connection = redis_connection } in
      elim received as (λ _. Outcome (Flow × Consumer)) [
        | text_message message ↦ do
          outcome ← handle_ws_message b message s.db redis_connection
          ok (after_text outcome)
        | binary ↦ ok (continues, connected)
        | ping pong_sent ↦ ok (if pong_sent then continues else breaks, connected)
        | close ↦ ok (breaks, connected)
        | other ↦ ok (continues, connected)
        | read_error ↦ ok (breaks, connected)
      ]

  -- The loop, until the stream ends or a round leaves it.
  unfoldable pub read_loop :
      Build → List (Option R.Connection × Received) → Consumer → Outcome Consumer
  unfolding receive_one
  read_loop b [] s = ok s
  read_loop b ((attempt, received) ∷ more) s =
      elim (receive_one b attempt received s) as (λ _. Outcome Consumer) [
        | panic fault ↦ panic fault
        | ok (breaks, s') ↦ ok s'
        | ok (continues, s') ↦ read_loop b more s'
      ]
