-- ===== src/Sums/Defs.antt =====
-- step07_redb/code/src/main.rs: the requests to the database, and `sums_handler`. The storage
-- does not fail here.
use text.Mathlib.Text.{◌==◌ as ◌===◌}
use rust_experiments.Prelude.{
  ℕ, min, zero, suc, ◌-◌, List, [], ◌∷◌, Option, none, some, String, ◌<>◌, Bool, true, ◌≡◌,
  if◌then◌else◌,
}
use rust_experiments.Machine.{Build, Outcome, Fault, ok, panic, ◌>>=◌, add64}
use rust_experiments.Store.Table.{Table}
use rust_experiments.Int.{ℤ, ◌==ℤ◌, add32}

abbrev pub default_request_size : ℕ
default_request_size = 10

abbrev pub max_request_size : ℕ
max_request_size = 100

pub record SumRequest : Type 0 where
  pub id : String
  pub a : ℤ
  pub b : ℤ
  pub c : ℤ

pub record JournalEntry : Type 0 where
  pub id : String
  pub a : ℤ
  pub b : ℤ
  pub c : ℤ
  pub timestamp_us : ℕ

-- What the program takes from its libraries. The JSON library reads back what it wrote.
pub record Services : Type 1 where
  pub Bytes : Type 0
  pub to_vec : JournalEntry → Bytes
  pub from_slice : Bytes → Option JournalEntry
  pub from_slice-to_vec : (entry : JournalEntry) → from_slice (to_vec entry) ≡ some entry
  pub counters_table : Table Bool ℕ
  pub strings_table : Table ℕ String
  pub ids_table : Table String Bool
  pub journal_table : Table ℕ Bytes
  pub meta_table : Table String ℕ

pub data CheckAndStoreIdResponse : Type 0 where
  unique : CheckAndStoreIdResponse
  duplicate : CheckAndStoreIdResponse

-- The replies of `sums_handler`; a panic in the handler ends its request only.
pub data SumsReply : Type 0 where
  accepted : SumsReply
  empty_id : SumsReply
  wrong_sum : SumsReply
  duplicate_id : SumsReply
  invalid_json : SumsReply
  crashed : Fault → SumsReply

module _ (S : Services) where
  pub record Database : Type 0 where
    pub counters : S.counters_table.Rows
    pub strings : S.strings_table.Rows
    pub processed_ids : S.ids_table.Rows
    pub sums_journal : S.journal_table.Rows
    pub journal_meta : S.meta_table.Rows

  abbrev pub new_database : Database
  new_database = record {
    counters = S.counters_table.new;
    strings = S.strings_table.new;
    processed_ids = S.ids_table.new;
    sums_journal = S.journal_table.new;
    journal_meta = S.meta_table.new;
  }

  abbrev pub or_zero : Option ℕ → ℕ
  or_zero none = 0
  or_zero (some n) = n

  abbrev pub or_empty : Option String → String
  or_empty none = ""
  or_empty (some s) = s

  unfoldable pub inc_counter : Build → Bool → Database → Outcome (ℕ × Database)
  inc_counter b counter_type db = do
    new_value ← add64 b (or_zero (S.counters_table.get db.counters counter_type)) 1
    ok (
      new_value,
      record db { counters = S.counters_table.insert db.counters counter_type new_value },
    )

  unfoldable pub inc_string : ℕ → Database → String × Database
  inc_string idx db =
      let new_value = or_empty (S.strings_table.get db.strings idx) <> "." in
      (new_value, record db { strings = S.strings_table.insert db.strings idx new_value })

  unfoldable pub check_and_store_id : String → Database → CheckAndStoreIdResponse × Database
  check_and_store_id id db = elim (S.ids_table.get db.processed_ids id) [
    | some _ ↦ (duplicate, db)
    | none ↦ (unique, record db { processed_ids = S.ids_table.insert db.processed_ids id true })
  ]

  -- `journal_meta.get("idx")?.map(|v| v.value()).unwrap_or(0)`
  abbrev pub journal_idx : Database → ℕ
  journal_idx db = or_zero (S.meta_table.get db.journal_meta "idx")

  unfoldable pub add_to_journal : Build → JournalEntry → Database → Outcome Database
  add_to_journal b entry db = do
    let idx = journal_idx db
    following ← add64 b idx 1
    ok (record db {
      sums_journal = S.journal_table.insert db.sums_journal idx (S.to_vec entry);
      journal_meta = S.meta_table.insert db.journal_meta "idx" following;
    })

  -- The loop of `GetJournalRequest`: `n` more entries from `i` on.
  unfoldable pub read_journal : Database → ℕ → ℕ → List JournalEntry
  read_journal db zero i = []
  read_journal db (suc n) i =
      let rest = read_journal db n (suc i) in
      elim (S.journal_table.get db.sums_journal i) [
        | none ↦ rest
        | some bytes ↦ elim (S.from_slice bytes) [ none ↦ rest | some entry ↦ entry ∷ rest ]
      ]

  unfoldable pub get_journal : ℕ → Database → List JournalEntry
  unfolding read_journal
  get_journal count db =
      let idx = journal_idx db in
      let n = min (min count idx) max_request_size in read_journal db n (idx - n)

  -- The request of `journal_handler`, for the query's `n`.
  unfoldable pub journal_handler : Option ℕ → Database → List JournalEntry
  unfolding get_journal
  journal_handler none db = get_journal default_request_size db
  journal_handler (some n) db = get_journal n db

  -- What `sums_handler` does with a request whose id was not known.
  unfoldable pub check_sum : Build → ℕ → SumRequest → Database → Outcome (SumsReply × Database)
  unfolding add_to_journal
  check_sum b now req db = elim (add32 b req.a req.b) [
    | panic fault ↦ ok (crashed fault, db)
    | ok sum ↦
        if req.c ==ℤ sum
        then (do
          let entry : JournalEntry = record {
            id = req.id;
            a = req.a;
            b = req.b;
            c = req.c;
            timestamp_us = now;
          }
          db' ← add_to_journal b entry db
          ok (accepted, db'))
        else ok (wrong_sum, db)
  ]

  abbrev pub after_check :
      Build → ℕ → SumRequest → CheckAndStoreIdResponse × Database → Outcome (SumsReply × Database)
  unfolding check_sum
  after_check b now req (unique, db) = check_sum b now req db
  after_check b now req (duplicate, db) = ok (duplicate_id, db)

  -- `none` is a body that the JSON library does not read. A panic in the thread of the database is a
  -- panic of the whole.
  unfoldable pub sums_handler :
      Build → ℕ → Option SumRequest → Database → Outcome (SumsReply × Database)
  unfolding check_and_store_id check_sum
  sums_handler b now none db = ok (invalid_json, db)
  sums_handler b now (some req) db =
      if req.id === ""
      then ok (empty_id, db)
      else after_check b now req (check_and_store_id req.id db)
