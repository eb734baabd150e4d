-- ===== src/Feed/Redis.antt =====
-- step12_ws_feed/code/src/main.rs: the publication of the trades of a message through Redis.
use text.Mathlib.TextLemmas.{append_assoc}
use rust_experiments.Prelude.{
  ℕ, ◌≡◌, refl, ap, ◌∙◌, List, [], ◌∷◌, Option, none, some, String, ◌<>◌, Bool, true, ◌||◌,
  if◌then◌else◌, Bool-cases, inl, inr,
}
use rust_experiments.Machine.{Build, Outcome, ok}
use rust_experiments.Text.Contains.{contains, contains-append}
use rust_experiments.Feed.Services.{Trade, Services}
use rust_experiments.Feed.Defs.{KrakenTradeMessage, Database, store_trades, store_batch}
use rust_experiments.Feed.Consumer.{
  Result, success, failure, trade_message, Remote, is_connection_error, publish_error, is_lost,
  text_message, Flow, continues, publish_each, handle_trades, handle_ws_message, Consumer,
  reconnect, keep_connection, receive_one,
}

-- The texts of errors by which the code takes the connection for lost.
abbrev pub loses_connection : String → Bool
loses_connection e = is_connection_error e || is_lost e

lost_text : (e : String) → is_lost ("Redis connection lost: " <> e) ≡ true
lost_text e =
    let found : contains ("Redis connection lost: " <> e) "Redis connection lost" ≡ true =
      ap (λ s. contains s "Redis connection lost") (append_assoc "Redis connection lost" ": " e)
      ∙ contains-append "Redis connection lost" (": " <> e) in
    rw found

is_lost-publish_error : (e : String) → is_lost (publish_error e) ≡ loses_connection e
is_lost-publish_error e = elim (Bool-cases (is_connection_error e)) [
  | inl h ↦ rw h (lost_text e)
  | inr h ↦ rw h
]

module _ (S : Services) (R : Remote S) where
  -- The trades of a batch are published in order: all of them, or up to one that fails with an error.
  pub data Publishes : List (Trade × ℕ) → R.Connection → Option String → R.Connection → Type 0 where
    all_done : {c : R.Connection} → Publishes [] c none c
    goes_on :
        {trade : Trade} {i : ℕ} {json : String} {batch : List (Trade × ℕ)} {c c' c'' : R.Connection}
        {error : Option String}
        → R.trade_json trade ≡ success json
        → R.publish c json ≡ (none, c')
        → Publishes batch c' error c''
        → Publishes ((trade, i) ∷ batch) c error c''
    stops :
        {trade : Trade} {i : ℕ} {json : String} {batch : List (Trade × ℕ)} {c c' : R.Connection}
        {e : String}
        → R.trade_json trade ≡ success json
        → R.publish c json ≡ (some e, c')
        → Publishes ((trade, i) ∷ batch) c (some e) c'

  abbrev publish_result : Option String → Result (Unit {0})
  publish_result none = success tt
  publish_result (some e) = failure (publish_error e)

  abbrev after_publish :
      List (Trade × ℕ) → Option String × R.Connection → Result (Unit {0}) × R.Connection
  after_publish batch (none, c) = publish_each S R batch c
  after_publish batch (some e, c) = (failure (publish_error e), c)

  after_publish-split :
      (batch : List (Trade × ℕ)) (p : Option String × R.Connection)
      → elim p.0 as (λ _. Result (Unit {0}) × R.Connection) [
        | none ↦ publish_each S R batch p.1
        | some e ↦ (failure (publish_error e), p.1)
      ]
        ≡ after_publish batch p
  after_publish-split batch (none, c) = refl
  after_publish-split batch (some e, c) = refl

  publish_each-step :
      (trade : Trade) (i : ℕ) (json : String) (batch : List (Trade × ℕ)) (c : R.Connection)
      (p : Option String × R.Connection)
      → R.trade_json trade ≡ success json
      → R.publish c json ≡ p
      → publish_each S R ((trade, i) ∷ batch) c ≡ after_publish batch p
  unfolding publish_each
  publish_each-step trade i json batch c p written sent =
      rw (publish_each, written)
        (after_publish-split batch (R.publish c json) ∙ ap (after_publish batch) sent)

  publish_each-Publishes :
      (batch : List (Trade × ℕ)) (c c' : R.Connection) (error : Option String)
      → Publishes batch c error c'
      → publish_each S R batch c ≡ (publish_result error, c')
  unfolding publish_each
  publish_each-Publishes batch c c' error all_done = refl
  publish_each-Publishes batch c c' error
        (goes_on {trade = t} {i = i} {json = json} {batch = rest} {c' = c₁} written sent further) =
      publish_each-step t i json rest c (none, c₁) written sent
      ∙ publish_each-Publishes rest c₁ c' error further
  publish_each-Publishes batch c c' error
        (stops {trade = t} {i = i} {json = json} {batch = rest} {e = e} written failed) =
      publish_each-step t i json rest c (some e, c') written failed

  -- The connection that the loop goes on with; without one it connects again at the next message.
  abbrev pub connection_after : Option String → R.Connection → Option R.Connection
  connection_after none c = some c
  connection_after (some e) c = if loses_connection e then none else some c

  keep_connection-publish_result :
      (error : Option String) (c : R.Connection)
      → keep_connection S R (publish_result error) (some c) ≡ connection_after error c
  keep_connection-publish_result none c = refl
  keep_connection-publish_result (some e) c =
      ap (λ lost. if lost then none else some c) (is_lost-publish_error e)

  -- For a message of trades, with a connection to Redis, from before or new: the trades are published in
  -- order, and at the first that fails the rest of the message is not published. The database has
  -- all of them either way, and the loop goes on. It goes on without the connection exactly if the
  -- text of the error contains one of six words that the code takes for a lost connection.
  pub receive_one-Publishes :
      (b : Build) (attempt : Option R.Connection) (s : Consumer S R) (text : String)
      (message : KrakenTradeMessage S) (batch : List (Trade × ℕ)) (stored : Database S)
      (c c' : R.Connection) (error : Option String)
      → R.from_str text ≡ success (trade_message message)
      → message.channel_name ≡ "trade"
      → store_trades S b message.pair message.trades_data s.db ≡ ok (batch, stored)
      → reconnect S R attempt s.redis_connection ≡ some c
      → Publishes batch c error c'
      → receive_one S R b attempt (text_message text) s
        ≡ ok (
          continues,
          record { db = store_batch S batch stored; redis_connection = connection_after error c' },
        )
  unfolding receive_one handle_ws_message handle_trades
  receive_one-Publishes b attempt s text message batch stored c c' error parsed channel ran
        connected published =
      let kept : ◌≡◌ {A = Outcome (Flow × Consumer S R)}
          (ok (
            continues,
            record {
              db = store_batch S batch stored;
              redis_connection = keep_connection S R (publish_result error) (some c');
            },
          ))
          (ok (
            continues,
            record {
              db = store_batch S batch stored;
              redis_connection = connection_after error c';
            },
          )) =
        ap (λ k. ok (continues, record { db = store_batch S batch stored; redis_connection = k }))
          (keep_connection-publish_result error c') in
      rw
        (
          receive_one,
          handle_ws_message,
          parsed,
          handle_trades,
          channel,
          connected,
          ran,
          publish_each-Publishes batch c c' error published,
        )
        kept
