-- ===== src/Feed/Reconnecting.antt =====
-- step12_ws_feed/code/src/main.rs: the trades that are stored over any number of connections.
use rust_experiments.Prelude.{
  ℕ, ◌+◌, ◌<◌, ◌≤◌, ◌≡◌, refl, List, [], ◌∷◌, Option, String, Bool, true, false, ◌&&◌,
  if◌then◌else◌, All, length, arith, Bool-cases, inl, inr,
}
use rust_experiments.Machine.{Build, Outcome, ok, u64_modulus}
use rust_experiments.Feed.Services.{Trade, Services}
use rust_experiments.Feed.Defs.{Database}
use rust_experiments.Feed.Spec.{Represents}
use rust_experiments.Feed.Consumer.{Remote, Received}
use rust_experiments.Feed.Handling.{CanBeLogged, goes_on, after_received, length-after_received}
use rust_experiments.Feed.Reading.{after_all, trades_in_all, read_loop-after_all}
use rust_experiments.Feed.Connections.{
  Subscribing, Subscription, sends, cannot_serialize, cannot_parse, subscription_of, Attempt,
  read_messages, subscribe, connect_once, ws_task,
}

module _ (S : Services) (R : Remote S) where
  length-after_all :
      (ts : List Trade) (messages : List (Option R.Connection × Received))
      → length (after_all S R ts messages) ≤ length ts + trades_in_all S R messages
  length-after_all ts [] = omega arith
  length-after_all ts ((attempt, m) ∷ more) = elim (Bool-cases (goes_on m)) [
    | inl on ↦ rw on (
        omega
          (arith, length-after_all (after_received S R ts m) more, length-after_received S R ts m))
    | inr off ↦ rw off (omega (arith, length-after_received S R ts m))
  ]

  -- The subscription can be sent.
  abbrev pub subscribes : Subscription → Attempt S R → Bool
  subscribes (sends json_string) attempt = attempt.subscription_is_sent json_string
  subscribes _ attempt = false

  -- The round comes to the messages of a connection.
  abbrev pub connects : Subscription → Attempt S R → Bool
  connects subscription attempt =
      attempt.url_parses
      && (attempt.redis_client_opens && (attempt.ws_connects && subscribes subscription attempt))

  -- The trades that there are after some rounds: those of all messages of the connections.
  abbrev pub after_connections : Subscription → List Trade → List (Attempt S R) → List Trade
  after_connections subscription ts [] = ts
  after_connections subscription ts (attempt ∷ attempts) =
      after_connections subscription
        (if connects subscription attempt then after_all S R ts attempt.messages else ts) attempts

  abbrev pub trades_in_attempts : List (Attempt S R) → ℕ
  trades_in_attempts [] = 0
  trades_in_attempts (attempt ∷ attempts) =
      trades_in_all S R attempt.messages + trades_in_attempts attempts

  module _ (b : Build) (J : Subscribing) (ws_subscribe_cmd : String) where
    abbrev after_round : List Trade → Attempt S R → List Trade
    after_round ts attempt =
        if connects (subscription_of J ws_subscribe_cmd) attempt
        then after_all S R ts attempt.messages
        else ts

    abbrev Rounds : Outcome (Bool × Database S) → List Trade → Type 0
    Rounds m ts =
        (paused : Bool) × (db' : Database S) × (m ≡ ok (paused, db')) × Represents S db' ts

    module _ (attempt : Attempt S R) (db : Database S) (ts : List Trade) (r : Represents S db ts)
        (logged : All (λ m. CanBeLogged m.1) attempt.messages)
        (room : length ts + trades_in_all S R attempt.messages < u64_modulus) where
      read_messages-Rounds :
          Rounds (read_messages S R b attempt db) (after_all S R ts attempt.messages)
      unfolding read_messages
      read_messages-Rounds =
          let (s, ran, stored) =
            read_loop-after_all S R b attempt.messages
              (record { db = db; redis_connection = attempt.redis_connects }) ts r logged room in
          (true, s.db, rw ran, stored)

      subscribe-Rounds :
          (subscription : Subscription)
          → Rounds
              (subscribe S R b subscription attempt db)
              (if subscribes subscription attempt then after_all S R ts attempt.messages else ts)
      unfolding subscribe
      subscribe-Rounds cannot_parse = (true, db, refl, r)
      subscribe-Rounds cannot_serialize = (false, db, refl, r)
      subscribe-Rounds (sends json_string) =
          elim (Bool-cases (attempt.subscription_is_sent json_string)) [
            | inl sent ↦ rw sent read_messages-Rounds
            | inr lost ↦ rw lost (false, db, refl, r)
          ]

      connect_once-Rounds :
          Rounds (connect_once S R b J ws_subscribe_cmd attempt db) (after_round ts attempt)
      unfolding connect_once
      connect_once-Rounds = elim (Bool-cases attempt.url_parses) [
        | inr no_url ↦ simp no_url (true, db, refl, r)
        | inl url ↦ elim (Bool-cases attempt.redis_client_opens) [
          | inr closed ↦ simp (url, closed) (true, db, refl, r)
          | inl opens ↦ elim (Bool-cases attempt.ws_connects) [
            | inr alone ↦ simp (url, opens, alone) (true, db, refl, r)
            | inl connected ↦
                simp (url, opens, connected) (subscribe-Rounds (subscription_of J ws_subscribe_cmd))
          ]
        ]
      ]

    length-after_round :
        (ts : List Trade) (attempt : Attempt S R)
        → length (after_round ts attempt) ≤ length ts + trades_in_all S R attempt.messages
    length-after_round ts attempt =
        elim (Bool-cases (connects (subscription_of J ws_subscribe_cmd) attempt)) [
          | inl yes_connects ↦ rw yes_connects (length-after_all ts attempt.messages)
          | inr no_connection ↦ rw no_connection (omega arith)
        ]

    -- Let the database hold the trades `ts`, and let the trades of all messages have indices below 2^64, and no
    -- message be longer than 500 bytes with a character across the byte 500. Then any number of rounds
    -- of the task, whatever fails in them but the storage, do not panic, and have stored the trades of all messages of
    -- all connections, in order.
    pub ws_task-after_connections :
        (attempts : List (Attempt S R)) (db : Database S) (ts : List Trade)
        → Represents S db ts
        → All (λ attempt. All (λ m. CanBeLogged m.1) attempt.messages) attempts
        → length ts + trades_in_attempts attempts < u64_modulus
        → (db' : Database S) × (ws_task S R b J ws_subscribe_cmd attempts db ≡ ok db')
          × Represents S db' (after_connections (subscription_of J ws_subscribe_cmd) ts attempts)
    unfolding ws_task
    ws_task-after_connections [] db ts r logged room = (db, refl, r)
    ws_task-after_connections (attempt ∷ attempts) db ts r logged room =
        let (paused, db₁, ran, stored) =
          connect_once-Rounds attempt db ts r logged.0 (omega arith) in
        let (db₂, further, all) =
          ws_task-after_connections attempts db₁ (after_round ts attempt) stored logged.1
            (omega (arith, length-after_round ts attempt)) in
        (db₂, rw (ws_task, ran) further, all)
