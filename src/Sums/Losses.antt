-- ===== src/Sums/Losses.antt =====
-- step07_redb/code/src/main.rs: what `sums_handler` does to the journal when the storage fails.
use text.Mathlib.Text.{◌==◌ as ◌===◌}
use rust_experiments.Prelude.{ℕ, ◌+◌, ◌<◌, ◌≤◌, ◌≡◌, ◌≢◌, List, [], ◌∷◌, ◌++◌, Option, some, length}
use rust_experiments.Machine.{Build, Outcome, ok, u64_modulus}
use rust_experiments.Store.Transaction.{storage_error, Redb, done, failed}
use rust_experiments.Store.Atomic.{Fails}
use rust_experiments.Sums.Defs.{
  SumRequest, JournalEntry, Services, unique, SumsReply, accepted, Database,
}
use rust_experiments.Sums.Journal.{IsJournal}
use rust_experiments.Sums.Handler.{entry_of}
use rust_experiments.Sums.Transactions.{run_check_and_store_id, run_add_to_journal}
use rust_experiments.Sums.Unreliable.{Reply, replied, internal_server_error, serve_sums}

module _ (S : Services) (R : Redb (Database S)) (b : Build) where
  abbrev pub IsJournalIn : R.World → List JournalEntry → Type 0
  IsJournalIn w es = IsJournal S b (R.committed w).db es

  -- The entries that requests with these replies have added to the journal, one run of the handler after
  -- the other, from this world to that one.
  pub data Journaled
      : R.World
        → List (ℕ × Option SumRequest)
        → List (Reply R.Error)
        → R.World
        → List JournalEntry
        → Type 0 where
    nothing : {w : R.World} → Journaled w [] [] w []
    kept :
        (now : ℕ) (r : SumRequest) {w w₁ w' : R.World} {reqs : List (ℕ × Option SumRequest)}
        {replies : List (Reply R.Error)} {new : List JournalEntry}
        → serve_sums S R b now (some r) w ≡ ok (replied accepted, w₁)
        → Journaled w₁ reqs replies w' new
        → Journaled w ((now, some r) ∷ reqs) (replied accepted ∷ replies) w' (entry_of now r ∷ new)
    lost :
        (now : ℕ) (r : SumRequest) (e : R.Error) {w v w₁ w' : R.World}
        {reqs : List (ℕ × Option SumRequest)} {replies : List (Reply R.Error)}
        {new : List JournalEntry}
        → serve_sums S R b now (some r) w ≡ ok (replied accepted, w₁)
        → run_check_and_store_id S R b r.id w ≡ (done unique, v)
        → run_add_to_journal S R b (entry_of now r) v ≡ (failed (storage_error e), w₁)
        → Fails R v e w₁
        → Journaled w₁ reqs replies w' new
        → Journaled w ((now, some r) ∷ reqs) (replied accepted ∷ replies) w' new
    refused :
        (now : ℕ) (req : Option SumRequest) (reply : SumsReply) {w w₁ w' : R.World}
        {reqs : List (ℕ × Option SumRequest)} {replies : List (Reply R.Error)}
        {new : List JournalEntry}
        → serve_sums S R b now req w ≡ ok (replied reply, w₁)
        → reply ≢ accepted
        → Journaled w₁ reqs replies w' new
        → Journaled w ((now, req) ∷ reqs) (replied reply ∷ replies) w' new
    errored :
        (now : ℕ) (r : SumRequest) (e : R.Error) {w w₁ w' : R.World}
        {reqs : List (ℕ × Option SumRequest)} {replies : List (Reply R.Error)}
        {new : List JournalEntry}
        → serve_sums S R b now (some r) w ≡ ok (internal_server_error (storage_error e), w₁)
        → run_check_and_store_id S R b r.id w ≡ (failed (storage_error e), w₁)
        → Fails R w e w₁
        → Journaled w₁ reqs replies w' new
        → Journaled w
            ((now, some r) ∷ reqs)
            (internal_server_error (storage_error e) ∷ replies)
            w'
            new

  module _ (now : ℕ) (es : List JournalEntry) (room : length es + 1 < u64_modulus) where
    -- A request before others.
    abbrev pub Precedes :
        R.World → Option SumRequest → Reply R.Error → R.World → List JournalEntry → Type 0
    Precedes w req reply w₁ first =
        (reqs : List (ℕ × Option SumRequest)) (replies : List (Reply R.Error)) (w' : R.World)
        (new : List JournalEntry)
        → Journaled w₁ reqs replies w' new
        → Journaled w ((now, req) ∷ reqs) (reply ∷ replies) w' (first ++ new)

    -- What one request has come to.
    abbrev pub Serves : R.World → Option SumRequest → Outcome (Reply R.Error × R.World) → Type 0
    Serves w req served =
        (reply : Reply R.Error) × (w₁ : R.World) × (first : List JournalEntry) × (served
          ≡ ok (reply, w₁))
        × Precedes w req reply w₁ first
        × (length first ≤ 1)
        × IsJournalIn w₁ (es ++ first)
