-- ===== src/Sums/Halves.antt =====
-- step07_redb/code/src/main.rs: `sums_handler` on the two sides of its second wait for the database,
-- between which other requests are handled.
use text.Mathlib.Text.{◌==◌ as ◌===◌}
use rust_experiments.Prelude.{
  ℕ, ◌≡◌, refl, sym, ap, Option, none, some, if◌then◌else◌, Bool-cases, inl, inr,
}
use rust_experiments.Machine.{Build, Outcome, ok, panic, ◌>>=◌, Outcome-cases}
use rust_experiments.Int.{◌==ℤ◌, add32}
use rust_experiments.Sums.Defs.{
  SumRequest, JournalEntry, Services, after_check, SumsReply, accepted, empty_id, wrong_sum,
  duplicate_id, invalid_json, crashed, Database, unique, duplicate, CheckAndStoreIdResponse,
  check_and_store_id, add_to_journal, check_sum, sums_handler,
}
use rust_experiments.Sums.Handler.{entry_of}

-- The request is answered, or goes on to `AddToJournalRequest`.
pub data Begun : Type 0 where
  replied : SumsReply → Begun
  adds : JournalEntry → Begun

module _ (S : Services) (b : Build) where
  abbrev pub begin_sum : ℕ → SumRequest → Begun
  begin_sum now req = elim (add32 b req.a req.b) [
    | panic fault ↦ replied (crashed fault)
    | ok sum ↦ if req.c ==ℤ sum then adds (entry_of now req) else replied wrong_sum
  ]

  abbrev pub begin_checked :
      ℕ → SumRequest → CheckAndStoreIdResponse × Database S → Begun × Database S
  begin_checked now req (unique, db) = (begin_sum now req, db)
  begin_checked now req (duplicate, db) = (replied duplicate_id, db)

  unfoldable pub begin_sums : ℕ → Option SumRequest → Database S → Begun × Database S
  unfolding check_and_store_id
  begin_sums now none db = (replied invalid_json, db)
  begin_sums now (some req) db =
      if req.id === ""
      then (replied empty_id, db)
      else begin_checked now req (check_and_store_id S req.id db)

  unfoldable pub finish_sums : Begun × Database S → Outcome (SumsReply × Database S)
  unfolding add_to_journal
  finish_sums (replied reply, db) = ok (reply, db)
  finish_sums (adds entry, db) = do db' ← add_to_journal S b entry db; ok (accepted, db')

  finish_sums-checked :
      (now : ℕ) (req : SumRequest) (db : Database S)
      → check_sum S b now req db ≡ finish_sums (begin_sum now req, db)
  unfolding check_sum finish_sums
  finish_sums-checked now req db = elim (Outcome-cases (add32 b req.a req.b)) [
    | inl (fault, e) ↦
        let begun : begin_sum now req ≡ replied (crashed fault) = rw (begin_sum, e) in
        rw (check_sum, e) (ap (λ x. finish_sums (x, db)) (sym begun))
    | inr (sum, e) ↦ elim (Bool-cases (req.c ==ℤ sum)) [
      | inl right ↦
          let begun : begin_sum now req ≡ adds (entry_of now req) = rw (begin_sum, e) (rw right) in
          rw (check_sum, e) (rw right (ap (λ x. finish_sums (x, db)) (sym begun)))
      | inr wrong ↦
          let begun : begin_sum now req ≡ replied wrong_sum = rw (begin_sum, e) (rw wrong) in
          rw (check_sum, e) (rw wrong (ap (λ x. finish_sums (x, db)) (sym begun)))
    ]
  ]

  after_check-finish_sums :
      (now : ℕ) (req : SumRequest) (p : CheckAndStoreIdResponse × Database S)
      → after_check S b now req p ≡ finish_sums (begin_checked now req p)
  unfolding finish_sums check_sum
  after_check-finish_sums now req (unique, db) = finish_sums-checked now req db
  after_check-finish_sums now req (duplicate, db) = refl

  -- With nothing between them, the two halves are the handler.
  pub sums_handler-finish_sums :
      (now : ℕ) (req : Option SumRequest) (db : Database S)
      → sums_handler S b now req db ≡ finish_sums (begin_sums now req db)
  unfolding sums_handler begin_sums finish_sums
  sums_handler-finish_sums now none db = refl
  sums_handler-finish_sums now (some req) db = elim (Bool-cases (req.id === "")) [
    | inl e ↦ rw (sums_handler, e)
    | inr e ↦
        rw (sums_handler, e) (after_check-finish_sums now req (check_and_store_id S req.id db))
  ]
