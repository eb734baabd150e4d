-- ===== src/Feed/Handling.antt =====
-- step12_ws_feed/code/src/main.rs: one message of the socket, and the trades that are stored after it
-- whatever Redis does.
use Prim.Native.String.{len}
use text.Mathlib.Text.{◌==◌ as ◌===◌, is_char_boundary}
use text.Mathlib.TextEquality.{eq_iff}
use rust_experiments.Prelude.{
  ℕ, suc, ◌+◌, ◌<◌, ◌≤◌, ◌≡◌, refl, ap, List, [], ◌∷◌, ◌++◌, Option, String, ◌<>◌, Bool, true,
  false, if◌then◌else◌, length, length-append, arith, Bool-cases, Option-cases, inl, inr, ltb,
  ltb→lt,
}
use rust_experiments.Machine.{Build, ok, ok-injective, Outcome-cases, u64_modulus}
use rust_experiments.Feed.Services.{Trade, Services}
use rust_experiments.Feed.Defs.{
  KrakenTradeMessage, Database, JsonValue, store_trades, store_batch, handle_trade_message,
}
use rust_experiments.Feed.Consumer.{
  Result, success, failure, system_status, subscription_status, heartbeat, unknown, an_array,
  an_object, other_value, KrakenMessage, trade_message, event_message, generic, Remote,
  log_message_format, handle_event_message, handle_generic, Received, text_message, binary, ping,
  close, other, read_error, Flow, continues, breaks, publish_batch, handle_trades,
  handle_ws_message, Consumer, reconnect, after_text, receive_one,
}
use rust_experiments.Feed.Spec.{listed, trade_from, Represents}
use rust_experiments.Feed.Messages.{handle_trade_message-Represents}

-- A text that can be cut at 500 bytes, if it is longer.
abbrev pub CanBeLogged : Received → Type 0
CanBeLogged (text_message s) = 500 < len s → is_char_boundary s 500 ≡ true
CanBeLogged _ = Unit

log_message_format-ok :
    (kind s : String)
    → (500 < len s → is_char_boundary s 500 ≡ true)
    → log_message_format kind s ≡ ok tt
unfolding log_message_format
log_message_format-ok kind s h = elim (Bool-cases (ltb 500 (len s))) [
  | inl long ↦ rw (long, h (ltb→lt 500 (len s) long))
  | inr short ↦ rw short
]

-- The loop goes on after the message.
abbrev pub goes_on : Received → Bool
goes_on (ping pong_sent) = pong_sent
goes_on close = false
goes_on read_error = false
goes_on _ = true

abbrev flow : Bool → Flow
flow on = if on then continues else breaks

module _ (S : Services) where
  pub length-listed :
      (pair : String) (n : ℕ) (trades_data : List (List (JsonValue S)))
      → length (listed S pair n trades_data) ≤ length trades_data
  unfolding listed
  length-listed pair n [] = omega arith
  length-listed pair n (fields ∷ trades_data) =
      elim (Option-cases (trade_from S pair (suc n) fields)) [
        | inl e ↦ rw (listed, e) (omega (arith, length-listed pair n trades_data))
        | inr (t, e) ↦ rw (listed, e) (omega (arith, length-listed pair (suc n) trades_data))
      ]

  -- The trades that there are after a message of trades.
  abbrev pub after_trades : List Trade → KrakenTradeMessage S → List Trade
  after_trades ts message =
      if message.channel_name === "trade"
      then ts ++ listed S message.pair (length ts) message.trades_data
      else ts

  handle_trade_message-after_trades :
      (b : Build) (message : KrakenTradeMessage S) (db : Database S) (ts : List Trade)
      → Represents S db ts
      → length ts + length message.trades_data < u64_modulus
      → (after : Database S) × (handle_trade_message S b message db ≡ ok after)
        × Represents S after (after_trades ts message)
  unfolding handle_trade_message
  handle_trade_message-after_trades b message db ts r room =
      elim (Bool-cases (message.channel_name === "trade")) [
        | inl e ↦
            let (after, ran, stored) =
              handle_trade_message-Represents S b message db ts r
                ((eq_iff message.channel_name "trade").0 e) room in
            (after, rw e (rw e at ran), rw e stored)
        | inr e ↦ (db, rw e, rw e r)
      ]

  module _ (R : Remote S) where
    -- What Redis does is seen in the result and the connection only.
    handle_trades-stored :
        (b : Build) (message : KrakenTradeMessage S) (db after : Database S)
        (c : Option R.Connection)
        → handle_trade_message S b message db ≡ ok after
        → (result : Result (Unit {0})) × (c' : Option R.Connection) × (handle_trades S R b message
              db c
            ≡ ok (result, (after, c')))
    unfolding handle_trade_message handle_trades
    handle_trades-stored b message db after c e =
        elim (Bool-cases (message.channel_name === "trade")) [
          | inl channel ↦
              elim (Outcome-cases (store_trades S b message.pair message.trades_data db)) [
                | inl (fault, f) ↦ absurd (cc (rw (channel, f) at e))
                | inr ((batch, stored), f) ↦
                    let (result, c') = publish_batch S R batch c in
                    let same : store_batch S batch stored ≡ after =
                      ok-injective (rw (channel, f) at e) in
                    (result, c', rw (channel, f) (ap (λ d. ok (result, (d, c'))) same))
              ]
          | inr channel ↦
              let same : db ≡ after = ok-injective (rw channel at e) in
              (success tt, c, rw channel (ap (λ d. ok (success tt, (d, c))) same))
        ]

    abbrev after_message : List Trade → Result (KrakenMessage S) → List Trade
    after_message ts (success (trade_message message)) = after_trades ts message
    after_message ts _ = ts

    abbrev trades_of : Result (KrakenMessage S) → ℕ
    trades_of (success (trade_message message)) = length message.trades_data
    trades_of _ = 0

    -- The trades that there are after a message of the socket.
    abbrev pub after_received : List Trade → Received → List Trade
    after_received ts (text_message s) = after_message ts (R.from_str s)
    after_received ts _ = ts

    -- The most trades that a message can have.
    abbrev pub trades_in : Received → ℕ
    trades_in (text_message s) = trades_of (R.from_str s)
    trades_in _ = 0

    handle_ws_message-stored :
        (b : Build) (s : String) (db : Database S) (c : Option R.Connection) (ts : List Trade)
        (m : Result (KrakenMessage S))
        → R.from_str s ≡ m
        → Represents S db ts
        → CanBeLogged (text_message s)
        → length ts + trades_of m < u64_modulus
        → (result : Result (Unit {0})) × (after : Database S) × (c' : Option R.Connection)
          × (handle_ws_message S R b s db c ≡ ok (result, (after, c')))
          × Represents S after (after_message ts m)
    unfolding handle_ws_message handle_event_message handle_generic
    handle_ws_message-stored b s db c ts (success (trade_message message)) e r logged room =
        let (after, ran, stored) = handle_trade_message-after_trades b message db ts r room in
        let (result, c', handled) = handle_trades-stored b message db after c ran in
        (result, after, c', rw (handle_ws_message, e) handled, stored)
    handle_ws_message-stored b s db c ts (success (event_message system_status)) e r logged room =
        (success tt, db, c, rw (handle_ws_message, e), r)
    handle_ws_message-stored b s db c ts (success (event_message subscription_status)) e r logged
          room =
        (success tt, db, c, rw (handle_ws_message, e), r)
    handle_ws_message-stored b s db c ts (success (event_message heartbeat)) e r logged room =
        (success tt, db, c, rw (handle_ws_message, e), r)
    handle_ws_message-stored b s db c ts (success (event_message unknown)) e r logged room = (
      success tt,
      db,
      c,
      rw (handle_ws_message, e, log_message_format-ok "Unknown event" s logged),
      r,
    )
    handle_ws_message-stored b s db c ts (success (generic an_array)) e r logged room =
        (success tt, db, c, rw (handle_ws_message, e, log_message_format-ok "Array" s logged), r)
    handle_ws_message-stored b s db c ts (success (generic an_object)) e r logged room =
        (success tt, db, c, rw (handle_ws_message, e, log_message_format-ok "Object" s logged), r)
    handle_ws_message-stored b s db c ts (success (generic other_value)) e r logged room =
        (success tt, db, c, rw (handle_ws_message, e), r)
    handle_ws_message-stored b s db c ts (failure error) e r logged room = (
      failure ("Invalid WebSocket message format: " <> error),
      db,
      c,
      rw (handle_ws_message, e, log_message_format-ok "Unparseable" s logged),
      r,
    )

    pub receive_one-stored :
        (b : Build) (attempt : Option R.Connection) (m : Received) (s : Consumer S R)
        (ts : List Trade)
        → Represents S s.db ts
        → CanBeLogged m
        → length ts + trades_in m < u64_modulus
        → (after : Consumer S R) × (receive_one S R b attempt m s ≡ ok (flow (goes_on m), after))
          × Represents S after.db (after_received ts m)
    unfolding receive_one
    receive_one-stored b attempt (text_message s) state ts r logged room =
        let (result, db, c, ran, stored) =
          handle_ws_message-stored b s state.db (reconnect S R attempt state.redis_connection) ts
            (R.from_str s) refl r logged room in
        ((after_text S R (result, (db, c))).1, rw ran, stored)
    receive_one-stored b attempt binary s ts r logged room = (_, refl, r)
    receive_one-stored b attempt (ping pong_sent) s ts r logged room = (_, refl, r)
    receive_one-stored b attempt close s ts r logged room = (_, refl, r)
    receive_one-stored b attempt other s ts r logged room = (_, refl, r)
    receive_one-stored b attempt read_error s ts r logged room = (_, refl, r)

    length-after_message :
        (ts : List Trade) (m : Result (KrakenMessage S))
        → length (after_message ts m) ≤ length ts + trades_of m
    length-after_message ts (success (trade_message message)) =
        let fields = message.trades_data in
        elim (Bool-cases (message.channel_name === "trade")) [
          | inl e ↦ rw e (
              omega (
                arith,
                length-append ts (listed S message.pair (length ts) fields),
                length-listed message.pair (length ts) fields,
              ))
          | inr e ↦ rw e (omega arith)
        ]
    length-after_message ts (success (event_message _)) = omega arith
    length-after_message ts (success (generic _)) = omega arith
    length-after_message ts (failure _) = omega arith

    pub length-after_received :
        (ts : List Trade) (m : Received) → length (after_received ts m) ≤ length ts + trades_in m
    length-after_received ts (text_message s) = length-after_message ts (R.from_str s)
    length-after_received ts _ = omega arith
