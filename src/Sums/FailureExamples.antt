-- ===== src/Sums/FailureExamples.antt =====
-- The theorems about failures of the storage at concrete requests, over lists as tables.
use rust_experiments.Prelude.{ℕ, ◌≡◌, refl, List, [], ◌∷◌, Option, none, some, String}
use rust_experiments.Machine.{ok, panic, add64}
use rust_experiments.Int.{pos, add32}
use rust_experiments.Store.Transaction.{
  storage_error, table_does_not_exist, Committed, Redb, failed,
}
use rust_experiments.Store.ListTable.{find}
use rust_experiments.Store.FaultList.{FaultWorld, fault_list}
use rust_experiments.Store.AllOrNothing.{Effect}
use rust_experiments.Sums.Defs.{
  SumRequest, accepted, duplicate_id, JournalEntry, Database, new_database, get_journal,
}
use rust_experiments.Sums.Tables.{services, checked_build}
use rust_experiments.Sums.Transactions.{
  check_and_store_id_request, get_journal_request, handle, ideal, tables_read,
}
use rust_experiments.Sums.Atomicity.{handle-Effect}
use rust_experiments.Sums.Unreliable.{Reply, replied, internal_server_error, serve_all_sums}

abbrev empty_store : Committed (Database services)
empty_store = record { db = new_database services; tables = [] }

abbrev redb : Redb (Database services)
redb = fault_list (Database services)

-- The fourth call fails, in the first request; the eleventh, in the second.
abbrev failing_world : FaultWorld (Database services)
failing_world = record {
  committed = empty_store;
  faults = none ∷ none ∷ none ∷ some "disk" ∷ none ∷ none ∷ none ∷ none ∷ none ∷ some "disk" ∷ [];
}

handle-Effect_example :
    Effect redb
      (ideal services checked_build (check_and_store_id_request "x"))
      (tables_read (check_and_store_id_request "x"))
      failing_world
      (handle services redb checked_build (check_and_store_id_request "x") failing_world)
handle-Effect_example =
    handle-Effect services redb checked_build (check_and_store_id_request "x") failing_world

abbrev sums : List (ℕ × Option SumRequest)
sums =
    (1, some (record { id = "x"; a = pos 1; b = pos 1; c = pos 2 }))
    ∷ (2, some (record { id = "x"; a = pos 1; b = pos 1; c = pos 2 }))
    ∷ (3, some (record { id = "x"; a = pos 1; b = pos 1; c = pos 2 }))
    ∷ (4, some (record { id = "y"; a = pos 1; b = pos 1; c = pos 2 }))
    ∷ []

-- The second request is accepted, and its sum is not in the journal; sent again, it is a duplicate.
abbrev run_sums : List (Reply String) × List JournalEntry
unfolding serve_all_sums get_journal
run_sums = elim (serve_all_sums services redb checked_build sums failing_world) [
  | panic _ ↦ ([], [])
  | ok (replies, w') ↦ (replies, get_journal services 10 w'.committed.db)
]

sums_lost : run_sums ≡ (
  internal_server_error (storage_error "disk")
      ∷ replied accepted
      ∷ replied duplicate_id
      ∷ replied accepted
      ∷ [],
  record { id = "y"; a = pos 1; b = pos 1; c = pos 2; timestamp_us = 4 } ∷ [],
)
unfolding serve_all_sums get_journal find add32 add64
sums_lost = refl

-- A journal that has never been written to cannot be read.
journal_missing :
    (handle services redb checked_build
      (get_journal_request 3)
      (record { committed = empty_store; faults = [] })).0
    ≡ failed (table_does_not_exist "journal_meta")
unfolding handle
journal_missing = refl
