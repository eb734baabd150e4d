-- ===== src/Sums/Unreliable.antt =====
-- step07_redb/code/src/main.rs: `sums_handler` over a storage that can fail.
use text.Mathlib.Text.{◌==◌ as ◌===◌}
use rust_experiments.Prelude.{ℕ, List, [], ◌∷◌, Option, none, some, if◌then◌else◌, Bool, true}
use rust_experiments.Machine.{Build, Outcome, ok, panic, ◌>>=◌}
use rust_experiments.Int.{◌==ℤ◌, add32}
use rust_experiments.Store.Transaction.{DbError, Redb, Ended, done, failed, panicked}
use rust_experiments.Sums.Defs.{
  SumRequest, JournalEntry, Services, CheckAndStoreIdResponse, unique, duplicate, SumsReply,
  accepted, empty_id, wrong_sum, duplicate_id, invalid_json, crashed, Database,
}
use rust_experiments.Sums.Transactions.{
  Action, run_inc_counter, run_check_and_store_id, run_add_to_journal,
}

pub data Reply (E : Type 0) : Type 0 where
  replied : SumsReply → Reply E
  internal_server_error : DbError E → Reply E

module _ (S : Services) (R : Redb (Database S)) (b : Build) where
  -- `CounterType::LAUNCH`
  abbrev pub launch_counter : Bool
  launch_counter = true

  -- What `main` does before it serves: it counts this run, and ends if that fails.
  unfoldable pub launch : Action S R b ℕ
  unfolding run_inc_counter
  launch = run_inc_counter S R b launch_counter

  -- `let _ = state.redb.run(AddToJournalRequest(..)).await; Ok("OK\n")`
  abbrev pub accept : Ended R.Error Unit × R.World → Outcome (Reply R.Error × R.World)
  accept (done _, w) = ok (replied accepted, w)
  accept (failed e, w) = ok (replied accepted, w)
  accept (panicked fault, w) = panic fault

  unfoldable pub check_sum_of : ℕ → SumRequest → R.World → Outcome (Reply R.Error × R.World)
  unfolding run_add_to_journal
  check_sum_of now req w = elim (add32 b req.a req.b) [
    | panic fault ↦ ok (replied (crashed fault), w)
    | ok sum ↦
        if req.c ==ℤ sum
        then (let entry : JournalEntry = record {
          id = req.id;
          a = req.a;
          b = req.b;
          c = req.c;
          timestamp_us = now;
        } in
            accept (run_add_to_journal S R b entry w))
        else ok (replied wrong_sum, w)
  ]

  abbrev pub answer_checked :
      ℕ
      → SumRequest
      → Ended R.Error CheckAndStoreIdResponse × R.World
      → Outcome (Reply R.Error × R.World)
  unfolding check_sum_of
  answer_checked now req (done unique, w) = check_sum_of now req w
  answer_checked now req (done duplicate, w) = ok (replied duplicate_id, w)
  answer_checked now req (failed e, w) = ok (internal_server_error e, w)
  answer_checked now req (panicked fault, w) = panic fault

  unfoldable pub serve_sums : ℕ → Option SumRequest → R.World → Outcome (Reply R.Error × R.World)
  unfolding run_check_and_store_id check_sum_of
  serve_sums now none w = ok (replied invalid_json, w)
  serve_sums now (some req) w =
      if req.id === ""
      then ok (replied empty_id, w)
      else answer_checked now req (run_check_and_store_id S R b req.id w)

  -- Any number of requests, one after the other, each with its time.
  unfoldable pub serve_all_sums :
      List (ℕ × Option SumRequest) → R.World → Outcome (List (Reply R.Error) × R.World)
  unfolding serve_sums
  serve_all_sums [] w = ok ([], w)
  serve_all_sums ((now, req) ∷ reqs) w = do
    (reply, w₁) ← serve_sums now req w
    (replies, w₂) ← serve_all_sums reqs w₁
    ok (reply ∷ replies, w₂)
