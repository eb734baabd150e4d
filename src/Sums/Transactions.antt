-- ===== src/Sums/Transactions.antt =====
-- step07_redb/code/src/main.rs: the requests to the database, call by call, where any call can fail.
use rust_experiments.Prelude.{
  ℕ, zero, suc, ◌-◌, min, List, [], ◌∷◌, Option, none, some, String, ◌<>◌, Bool, true,
}
use rust_experiments.Machine.{Build, Outcome, ok, panic, add64}
use rust_experiments.Store.Transaction.{
  Committed, Redb, Storage, ◌>>=◌, ◌>>◌, pure, compute, call, begin_transaction, open_table,
  open_table_mut, commit,
}
use rust_experiments.Sums.Defs.{
  JournalEntry, Services, CheckAndStoreIdResponse, unique, duplicate, Database, or_zero, or_empty,
  max_request_size, inc_counter, inc_string, check_and_store_id, add_to_journal, get_journal,
}

-- The types that are requests.
pub data Request : Type 0 where
  inc_counter_request : Bool → Request
  inc_string_request : ℕ → Request
  check_and_store_id_request : String → Request
  add_to_journal_request : JournalEntry → Request
  get_journal_request : ℕ → Request

abbrev pub Response : Request → Type 0
Response (inc_counter_request _) = ℕ
Response (inc_string_request _) = String
Response (check_and_store_id_request _) = CheckAndStoreIdResponse
Response (add_to_journal_request _) = Unit
Response (get_journal_request _) = List JournalEntry

-- The tables that a request only reads: it does not create them.
abbrev pub tables_read : Request → List String
tables_read (get_journal_request _) = "journal_meta" ∷ "sums_journal" ∷ []
tables_read _ = []

module _ (S : Services) (R : Redb (Database S)) (b : Build) where
  abbrev pub Action : Type 0 → Type 0
  Action A = Storage R.World R.Error A

  unfoldable pub run_inc_counter : Bool → Action ℕ
  unfolding begin_transaction open_table_mut call compute commit
  run_inc_counter counter_type = do
    write_txn ← begin_transaction R
    txn ← open_table_mut R "counters" write_txn
    found ← call R (S.counters_table.get txn.db.counters counter_type)
    new_value ← compute (add64 b (or_zero S found) 1)
    inserted ← call R (S.counters_table.insert txn.db.counters counter_type new_value)
    commit R (record txn { db = record txn.db { counters = inserted } })
    pure new_value

  unfoldable pub run_inc_string : ℕ → Action String
  unfolding begin_transaction open_table_mut call commit
  run_inc_string idx = do
    write_txn ← begin_transaction R
    txn ← open_table_mut R "strings" write_txn
    found ← call R (S.strings_table.get txn.db.strings idx)
    let new_value = or_empty S found <> "."
    inserted ← call R (S.strings_table.insert txn.db.strings idx new_value)
    commit R (record txn { db = record txn.db { strings = inserted } })
    pure new_value

  -- A known id ends the request before the commit.
  unfoldable pub store_unknown_id :
      String → Committed (Database S) → Option Bool → Action CheckAndStoreIdResponse
  unfolding call commit
  store_unknown_id id txn (some _) = pure duplicate
  store_unknown_id id txn none = do
    inserted ← call R (S.ids_table.insert txn.db.processed_ids id true)
    commit R (record txn { db = record txn.db { processed_ids = inserted } })
    pure unique

  unfoldable pub run_check_and_store_id : String → Action CheckAndStoreIdResponse
  unfolding begin_transaction open_table_mut call store_unknown_id
  run_check_and_store_id id = do
    write_txn ← begin_transaction R
    txn ← open_table_mut R "processed_ids" write_txn
    found ← call R (S.ids_table.get txn.db.processed_ids id)
    store_unknown_id id txn found

  unfoldable pub run_add_to_journal : JournalEntry → Action Unit
  unfolding begin_transaction open_table_mut call compute commit
  run_add_to_journal entry = do
    let serialized = S.to_vec entry
    write_txn ← begin_transaction R
    with_meta ← open_table_mut R "journal_meta" write_txn
    txn ← open_table_mut R "sums_journal" with_meta
    found ← call R (S.meta_table.get txn.db.journal_meta "idx")
    let idx = or_zero S found
    journal ← call R (S.journal_table.insert txn.db.sums_journal idx serialized)
    following ← compute (add64 b idx 1)
    meta ← call R (S.meta_table.insert txn.db.journal_meta "idx" following)
    commit R (record txn { db = record txn.db { sums_journal = journal; journal_meta = meta } })
    pure tt

  abbrev pub push_entry : Option S.Bytes → List JournalEntry → List JournalEntry
  push_entry none rest = rest
  push_entry (some bytes) rest = elim (S.from_slice bytes) [
    | none ↦ rest
    | some entry ↦ entry ∷ rest
  ]

  unfoldable pub run_reading : S.journal_table.Rows → ℕ → ℕ → Action (List JournalEntry)
  unfolding call
  run_reading journal zero i = pure []
  run_reading journal (suc n) i = do
    bytes ← call R (S.journal_table.get journal i)
    rest ← run_reading journal n (suc i)
    pure (push_entry bytes rest)

  unfoldable pub run_get_journal : ℕ → Action (List JournalEntry)
  unfolding begin_transaction open_table call run_reading
  run_get_journal count = do
    read_txn ← begin_transaction R
    meta ← open_table R "journal_meta" read_txn
    journal ← open_table R "sums_journal" read_txn
    found ← call R (S.meta_table.get meta.journal_meta "idx")
    let idx = or_zero S found
    let n = min (min count idx) max_request_size
    run_reading journal.sums_journal n (idx - n)

  unfoldable pub handle : (r : Request) → Action (Response r)
  unfolding run_inc_counter run_inc_string run_check_and_store_id run_add_to_journal run_get_journal
  handle (inc_counter_request counter_type) = run_inc_counter counter_type
  handle (inc_string_request idx) = run_inc_string idx
  handle (check_and_store_id_request id) = run_check_and_store_id id
  handle (add_to_journal_request entry) = run_add_to_journal entry
  handle (get_journal_request count) = run_get_journal count

module _ (S : Services) (b : Build) where
  abbrev pub stored : Outcome (Database S) → Outcome (Unit {0} × Database S)
  stored (ok db) = ok (tt, db)
  stored (panic fault) = panic fault

  -- The request on a storage that does not fail.
  unfoldable pub ideal : (r : Request) → Database S → Outcome (Response r × Database S)
  unfolding inc_counter inc_string check_and_store_id add_to_journal get_journal
  ideal (inc_counter_request counter_type) db = inc_counter S b counter_type db
  ideal (inc_string_request idx) db = ok (inc_string S idx db)
  ideal (check_and_store_id_request id) db = ok (check_and_store_id S id db)
  ideal (add_to_journal_request entry) db = stored (add_to_journal S b entry db)
  ideal (get_journal_request count) db = ok (get_journal S count db, db)
