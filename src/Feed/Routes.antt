-- ===== src/Feed/Routes.antt =====
-- step12_ws_feed/code/src/main.rs: the two routes that read trades, over a storage that can fail.
use rust_experiments.Prelude.{
  ℕ, ◌≡◌, refl, List, [], ◌∷◌, Option, none, some, String, ◌<>◌, min, inl, inr, ◌⊎◌, sym, ap, ◌+◌,
  ◌<◌,
}
use rust_experiments.Machine.{Build, Outcome, ok, panic, ok-injective, u64_modulus}
use rust_experiments.Text.{to_decimal}
use rust_experiments.Store.Transaction.{DbError, Redb, Ended, done, failed, panicked}
use rust_experiments.Feed.Services.{Trade, Services}
use rust_experiments.Store.AllOrNothing.{Effect, Cause}
use rust_experiments.Feed.Defs.{Database, get_trades_by_range, get_trades}
use rust_experiments.Feed.Paging.{start_of, limit_of}
use rust_experiments.Feed.Slots.{HasSlots}
use rust_experiments.Feed.GapReading.{gap_page_from, get_trades-until_gap}
use rust_experiments.Feed.Atomicity.{handle_request-Effect}
use rust_experiments.Feed.Transactions.{
  get_trades_by_range_request, ideal, tables_read, handle_request, handle_get_total_trades_count,
  handle_get_trades_by_range,
}

pub data StatusCode : Type 0 where
  ok_status : StatusCode
  internal_server_error : StatusCode

module _ (S : Services) (R : Redb (Database S)) (b : Build) where
  -- How an error prints is a parameter, and so is the list of trades as JSON, or an error.
  module _ (display : DbError R.Error → String) (to_json : List Trade → Option String)
      (json_error : String) where
    abbrev pub count_reply : Ended R.Error ℕ × R.World → Outcome ((StatusCode × String) × R.World)
    count_reply (done count, w) = ok ((ok_status, to_decimal count), w)
    count_reply (failed e, w) = ok ((internal_server_error, "Error: " <> display e), w)
    count_reply (panicked fault, w) = panic fault

    unfoldable pub get_trades_count_route : R.World → Outcome ((StatusCode × String) × R.World)
    unfolding handle_get_total_trades_count
    get_trades_count_route w = count_reply (handle_get_total_trades_count S R b w)

    abbrev pub serialized_reply : Option String → StatusCode × String
    serialized_reply (some json) = (ok_status, json)
    serialized_reply none = (internal_server_error, "Error serializing response: " <> json_error)

    abbrev pub trades_reply :
        Ended R.Error (List Trade) × R.World → Outcome ((StatusCode × String) × R.World)
    trades_reply (done trades, w) = ok (serialized_reply (to_json trades), w)
    trades_reply (failed e, w) = ok ((internal_server_error, "Database error: " <> display e), w)
    trades_reply (panicked fault, w) = panic fault

    unfoldable pub get_trades_route :
        Option ℕ → Option ℕ → R.World → Outcome ((StatusCode × String) × R.World)
    unfolding handle_get_trades_by_range
    get_trades_route start_index limit w =
        let start = elim start_index as (λ _. ℕ) [ none ↦ 1 | some i ↦ i ] in
        let requested_limit = elim limit as (λ _. ℕ) [ none ↦ 100 | some n ↦ n ] in
        trades_reply (handle_get_trades_by_range S R b start (min requested_limit 1000) w)

    -- What the route answers in a run from `w`, in which it changes no data: the page, or an error of the
    -- database.
    abbrev pub Answers :
        Option ℕ
        → Option ℕ
        → List (Option Trade)
        → R.World
        → Outcome ((StatusCode × String) × R.World)
        → Type 0
    Answers start_index limit slots w answered =
        (reply : StatusCode × String) × (w' : R.World) × (answered ≡ ok (reply, w'))
        × ((R.committed w').db ≡ (R.committed w).db)
        × ((reply
              ≡ serialized_reply
                  (to_json (gap_page_from (start_of start_index) (limit_of limit) slots)))
            ⊎ ((e : DbError R.Error) × (reply
                  ≡ (internal_server_error, "Database error: " <> display e))
                × Cause R w ("trades" ∷ []) (R.committed w) e w'))

    answer-Answers :
        (start limit : ℕ) (w : R.World) (slots : List (Option Trade))
        (start_index limit_of_query : Option ℕ) (ended : Ended R.Error (List Trade) × R.World)
        → get_trades_by_range S b start limit (R.committed w).db
          ≡ ok (gap_page_from (start_of start_index) (limit_of limit_of_query) slots)
        → Effect R
            (ideal S b (get_trades_by_range_request start limit))
            (tables_read (get_trades_by_range_request start limit))
            w
            ended
        → Answers start_index limit_of_query slots w (trades_reply ended)
    unfolding ideal
    answer-Answers start limit w slots i l (done ts, w') page held =
        let same = ok-injective (rw page at held.1) in
        (
          serialized_reply (to_json ts),
          w',
          refl,
          sym (ap (λ p. p.1) same),
          inl (ap (λ p. serialized_reply (to_json p.0)) (sym same)),
        )
    answer-Answers start limit w slots i l (failed e, w') page held = (
      (internal_server_error, "Database error: " <> display e),
      w',
      refl,
      ap (λ c. c.db) held.0,
      inr (e, refl, held.1),
    )
    answer-Answers start limit w slots i l (panicked fault, w') page held =
        absurd (cc (rw page at held.1))

    route-Answers :
        (start limit : ℕ) (slots : List (Option Trade)) (start_index limit_of_query : Option ℕ)
        (w : R.World)
        → get_trades_by_range S b start limit (R.committed w).db
          ≡ ok (gap_page_from (start_of start_index) (limit_of limit_of_query) slots)
        → Answers start_index limit_of_query slots w
            (trades_reply (handle_get_trades_by_range S R b start limit w))
    unfolding handle_request
    route-Answers start limit slots i l w page =
        answer-Answers start limit w slots i l (handle_get_trades_by_range S R b start limit w) page
          (handle_request-Effect S R b (get_trades_by_range_request start limit) w)

    -- For a database whose taken indices have the slots `slots`, and a query whose start and limit have
    -- a sum below 2^64: whatever calls of the storage fail, the route of `get_trades` answers, and all
    -- tables keep their rows. The answer is the JSON of the trades from the start on up to the first index
    -- that has none, as many as the limit of the query allows, or, if this list cannot be written as
    -- JSON, the error of that; or it is an error of the database, and then the first call of this run
    -- that has failed has failed with it, or the table of the trades was never created.
    pub get_trades_route-Answers :
        (slots : List (Option Trade)) (start_index limit : Option ℕ) (w : R.World)
        → HasSlots S (R.committed w).db slots
        → start_of start_index + limit_of limit < u64_modulus
        → Answers start_index limit slots w (get_trades_route start_index limit w)
    unfolding get_trades_route get_trades
    get_trades_route-Answers slots none none w h room =
        route-Answers 1 100 slots none none w
          (get_trades-until_gap S (R.committed w).db slots h b none none room)
    get_trades_route-Answers slots none (some n) w h room =
        route-Answers 1 (min n 1000) slots none (some n) w
          (get_trades-until_gap S (R.committed w).db slots h b none (some n) room)
    get_trades_route-Answers slots (some i) none w h room =
        route-Answers i 100 slots (some i) none w
          (get_trades-until_gap S (R.committed w).db slots h b (some i) none room)
    get_trades_route-Answers slots (some i) (some n) w h room =
        route-Answers i (min n 1000) slots (some i) (some n) w
          (get_trades-until_gap S (R.committed w).db slots h b (some i) (some n) room)
