-- ===== src/Feed/FailureExamples.antt =====
-- The theorems about failures of the storage at concrete messages, over lists as tables.
use rust_experiments.Prelude.{
  ℕ, zero, suc, ◌≤◌, ◌≡◌, refl, List, [], ◌∷◌, ◌++◌, Option, none, some, String, arith,
}
use rust_experiments.Machine.{ok, panic, add64}
use rust_experiments.Text.{to_decimal}
use rust_experiments.Store.Transaction.{Committed, Redb}
use rust_experiments.Store.ListTable.{find}
use rust_experiments.Store.FaultList.{FaultWorld, fault_list}
use rust_experiments.Store.AllOrNothing.{Effect}
use rust_experiments.Feed.Services.{Trade}
use rust_experiments.Feed.Defs.{
  string, KrakenTradeMessage, Database, create, get_trades, get_recent_trades,
}
use rust_experiments.Feed.Spec.{listed}
use rust_experiments.Feed.Messages.{create-Represents}
use rust_experiments.Feed.Examples.{services, checked_build, message}
use rust_experiments.Feed.Transactions.{
  get_next_trade_counter_request, handle_request, ideal, tables_read,
}
use rust_experiments.Feed.Atomicity.{handle_request-Effect}
use rust_experiments.Feed.Unreliable.{run_trade_message, run_messages}
use rust_experiments.Feed.Slots.{gaps, filled, SlotsAre, HasSlots}
use rust_experiments.Feed.Routes.{Answers, get_trades_route, get_trades_route-Answers}
use rust_experiments.Feed.Following.{Follows, run_messages-Follows}
use rust_experiments.Feed.Gaps.{run_trade_message-Leaves}

abbrev redb : Redb (Database services)
redb = fault_list (Database services)

abbrev created : Committed (Database services)
created = record { db = create services; tables = "trades" ∷ "trade_ids" ∷ "trades_meta" ∷ [] }

created-SlotsAre : SlotsAre services (create services) []
created-SlotsAre zero = (create-Represents services).rows zero
created-SlotsAre (suc k) = (create-Represents services).rows (suc k)

abbrev created-HasSlots : HasSlots services (create services) []
created-HasSlots = record {
  counted = (create-Represents services).counted;
  rows = created-SlotsAre;
}

handle_request-Effect_example :
    Effect redb
      (ideal services checked_build get_next_trade_counter_request)
      (tables_read get_next_trade_counter_request)
      (record { committed = created; faults = none ∷ none ∷ some "disk" ∷ [] })
      (handle_request services redb checked_build get_next_trade_counter_request
        (record { committed = created; faults = none ∷ none ∷ some "disk" ∷ [] }))
handle_request-Effect_example =
    handle_request-Effect services redb checked_build get_next_trade_counter_request
      (record { committed = created; faults = none ∷ none ∷ some "disk" ∷ [] })

-- A message of one trade takes twenty calls; the storage fails in the second message, when its index
-- is taken.
abbrev quiet : ℕ → List (Option String) → List (Option String)
quiet zero faults = faults
quiet (suc n) faults = none ∷ quiet n faults

abbrev trade_of : String → KrakenTradeMessage services
trade_of price = record {
  channel_id = 337;
  trades_data = (string price ∷ string "1" ∷ string "0" ∷ string "s" ∷ string "l" ∷ []) ∷ [];
  channel_name = "trade";
  pair = "XBT/USD";
}

-- The trades of a message, stored, and then an index that is lost.
abbrev first_run : FaultWorld (Database services)
unfolding run_trade_message
first_run =
    (run_trade_message services redb checked_build message
      (record { committed = created; faults = [] })).1

abbrev first_slots : List (Option Trade)
first_slots = [] ++ filled (listed services "XBT/USD" 0 message.trades_data)

first_run-HasSlots : HasSlots services first_run.committed.db first_slots
unfolding run_trade_message find add64 create to_decimal
first_run-HasSlots =
    (run_trade_message-Leaves services redb checked_build message []
      (record { committed = created; faults = [] }) created-HasSlots refl (omega arith)).1

abbrev second_run : FaultWorld (Database services)
unfolding run_trade_message
second_run =
    (run_trade_message services redb checked_build (trade_of "2")
      (record { committed = first_run.committed; faults = quiet 7 (some "disk" ∷ []) })).1

second_run-HasSlots :
    (lost : ℕ) × (lost ≤ 1) × HasSlots services second_run.committed.db (first_slots ++ gaps lost)
unfolding run_trade_message find add64 create listed to_decimal
second_run-HasSlots =
    let (lost, few, left, _) =
      run_trade_message-Leaves services redb checked_build (trade_of "2") first_slots
        (record { committed = first_run.committed; faults = quiet 7 (some "disk" ∷ []) })
        first_run-HasSlots refl (omega arith) in
    (lost, few, left)

abbrev to_json : List Trade → Option String
to_json [] = some "[]"
to_json (t ∷ ts) = some t.id

get_trades_route-Answers_example :
    Answers services redb checked_build
      (λ e. "error")
      to_json
      "error"
      (some 2)
      none
      (first_slots ++ gaps second_run-HasSlots.0)
      second_run
      (get_trades_route services redb checked_build
        (λ e. "error")
        to_json
        "error"
        (some 2)
        none
        second_run)
get_trades_route-Answers_example =
    get_trades_route-Answers services redb checked_build (λ e. "error") to_json "error"
      (first_slots ++ gaps second_run-HasSlots.0) (some 2) none second_run second_run-HasSlots.2
      (omega arith)

abbrev failing_world : FaultWorld (Database services)
failing_world = record { committed = created; faults = quiet 27 (some "disk" ∷ []) }

abbrev after_failure : Database services
unfolding run_messages
after_failure =
    (run_messages services redb checked_build (trade_of "1" ∷ trade_of "2" ∷ trade_of "3" ∷ [])
      failing_world).committed.db

run_messages-Follows_example :
    (after : List (Option Trade)) × Follows services redb checked_build
      (trade_of "1" ∷ trade_of "2" ∷ trade_of "3" ∷ [])
      failing_world
      []
      (run_messages services redb checked_build
        (trade_of "1" ∷ trade_of "2" ∷ trade_of "3" ∷ [])
        failing_world)
      after
    × HasSlots services
        (run_messages services redb checked_build
          (trade_of "1" ∷ trade_of "2" ∷ trade_of "3" ∷ [])
          failing_world).committed.db
        after
run_messages-Follows_example =
    run_messages-Follows services redb checked_build
      (trade_of "1" ∷ trade_of "2" ∷ trade_of "3" ∷ []) failing_world [] created-HasSlots
      (omega arith)

abbrev ids : List Trade → List String
ids [] = []
ids (t ∷ ts) = t.id ∷ ids ts

-- The third trade is stored, and the page from the start on ends before the index that is lost.
recent_ids : ids (get_recent_trades services 10 after_failure) ≡ "1-1" ∷ "3-3" ∷ []
unfolding run_messages get_recent_trades find add64 create to_decimal
recent_ids = refl

page_ids :
    elim (get_trades services checked_build (some 1) (some 10) after_failure)
      as (λ _. List String) [ panic _ ↦ [] | ok ts ↦ ids ts ]
    ≡ "1-1" ∷ []
unfolding run_messages get_trades find add64 create to_decimal
page_ids = refl
