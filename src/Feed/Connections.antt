-- ===== src/Feed/Connections.antt =====
-- step12_ws_feed/code/src/main.rs: the task of `main` that connects to the feed, again and again. What a
-- round finds of the world outside is its input; what it only prints is left out.
use rust_experiments.Prelude.{
  List, [], ◌∷◌, Option, none, some, String, Bool, true, false, not, if◌then◌else◌,
}
use rust_experiments.Machine.{Build, Outcome, ok, ◌>>=◌}
use rust_experiments.Feed.Services.{Services}
use rust_experiments.Feed.Defs.{Database}
use rust_experiments.Feed.Consumer.{Remote, Received, read_loop}

-- How the JSON library reads the command for the subscription: as a `KrakenSubscribeMessage`, which it
-- writes again, or as any value, with its text.
pub record Subscribing : Type 1 where
  pub SubscribeMessage : Type 0
  pub from_str : String → Option SubscribeMessage
  pub to_string : SubscribeMessage → Option String
  pub value_to_string : String → Option String

pub data Subscription : Type 0 where
  sends : String → Subscription
  cannot_serialize : Subscription
  cannot_parse : Subscription

abbrev pub written : Option String → Subscription
written none = cannot_serialize
written (some json_string) = sends json_string

abbrev pub generic_subscription : Option String → Subscription
generic_subscription none = cannot_parse
generic_subscription (some json_string) = sends json_string

-- `match serde_json::from_str::<KrakenSubscribeMessage>(&ws_subscribe_cmd)`, up to the sending.
unfoldable pub subscription_of : Subscribing → String → Subscription
subscription_of J ws_subscribe_cmd = elim (J.from_str ws_subscribe_cmd) [
  | some subscription_message ↦ written (J.to_string subscription_message)
  | none ↦ generic_subscription (J.value_to_string ws_subscribe_cmd)
]

module _ (S : Services) (R : Remote S) where
  -- The world outside, as a round finds it.
  pub record Attempt : Type 0 where
    pub url_parses : Bool
    pub redis_client_opens : Bool
    pub redis_connects : Option R.Connection
    pub ws_connects : Bool
    pub subscription_is_sent : String → Bool
    pub messages : List (Option R.Connection × Received)

  -- After the subscription was sent; with whether the round ends with a pause.
  unfoldable pub read_messages : Build → Attempt → Database S → Outcome (Bool × Database S)
  unfolding read_loop
  read_messages b attempt db = do
    s ←
        read_loop S R b attempt.messages
          (record { db = db; redis_connection = attempt.redis_connects })
    ok (true, s.db)

  unfoldable pub subscribe :
      Build → Subscription → Attempt → Database S → Outcome (Bool × Database S)
  unfolding read_messages
  subscribe b cannot_parse attempt db = ok (true, db)
  subscribe b cannot_serialize attempt db = ok (false, db)
  subscribe b (sends json_string) attempt db =
      if attempt.subscription_is_sent json_string
      then read_messages b attempt db
      else ok (false, db)

  -- A round of the task's loop.
  unfoldable pub connect_once :
      Build → Subscribing → String → Attempt → Database S → Outcome (Bool × Database S)
  unfolding subscription_of subscribe
  connect_once b J ws_subscribe_cmd attempt db =
      if not attempt.url_parses
      then ok (true, db)
      else if not attempt.redis_client_opens
      then ok (true, db)
      else if not attempt.ws_connects
      then ok (true, db)
      else subscribe b (subscription_of J ws_subscribe_cmd) attempt db

  -- Some rounds of the task, which does not end by itself.
  unfoldable pub ws_task :
      Build → Subscribing → String → List Attempt → Database S → Outcome (Database S)
  unfolding connect_once
  ws_task b J ws_subscribe_cmd [] db = ok db
  ws_task b J ws_subscribe_cmd (attempt ∷ attempts) db = do
    (_, db') ← connect_once b J ws_subscribe_cmd attempt db
    ws_task b J ws_subscribe_cmd attempts db'
