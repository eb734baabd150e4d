-- ===== src/Sums/Requests.antt =====
-- step07_redb/code/src/main.rs: its requests as those of the queue of `AsyncRedb`, each with the type
-- of its response.
use native.Mathlib.Decide.{ℕ_discrete}
use rust_experiments.Prelude.{
  ℕ, zero, suc, ◌+◌, ◌<◌, ◌≡◌, refl, ap, ◌∙◌, List, [], ◌∷◌, some, String, Bool, get_elem?, take,
  length, arith, length-take,
}
use rust_experiments.Machine.{Build, Outcome, ok, u64_modulus, add64-eq-ok, ◌>>=◌}
use rust_experiments.Async.Channel.{Channel}
use rust_experiments.Async.Defs.{
  Types, AsyncDbResult, success, DbRequestHandler, GenericRequest, AsyncRedb, receive,
}
use rust_experiments.Async.Serial.{reply_after}
use rust_experiments.Async.Answers.{Reachable, drain, drain-answers}
use rust_experiments.Sums.Defs.{
  JournalEntry, Services, CheckAndStoreIdResponse, Database, inc_counter, inc_string,
  check_and_store_id, add_to_journal, get_journal, or_zero,
}

-- The types of the responses, by number.
abbrev pub ResponseType : ℕ → Type 0
ResponseType zero = ℕ
ResponseType (suc zero) = String
ResponseType (suc (suc zero)) = CheckAndStoreIdResponse
ResponseType (suc (suc (suc zero))) = Unit
ResponseType _ = List JournalEntry

module _ (S : Services) where
  -- No request fails, since no storage does.
  abbrev pub types : Types
  types = record {
    Database = Database S;
    Failure = ⊥;
    TypeId = ℕ;
    same_type = ℕ_discrete;
    Response = ResponseType;
  }

  module _ (b : Build) where
    unfoldable pub handle_inc_counter :
        Bool → Database S → Outcome (AsyncDbResult types (ResponseType 0) × Database S)
    unfolding inc_counter
    handle_inc_counter counter_type db = do
      (value, db') ← inc_counter S b counter_type db
      ok (success value, db')

    abbrev pub inc_counter_request : Bool → DbRequestHandler types
    inc_counter_request counter_type = record {
      type_id = 0;
      handle = handle_inc_counter counter_type;
    }

    unfoldable pub handle_inc_string :
        ℕ → Database S → Outcome (AsyncDbResult types (ResponseType 1) × Database S)
    unfolding inc_string
    handle_inc_string idx db = let (value, db') = inc_string S idx db in ok (success value, db')

    abbrev pub inc_string_request : ℕ → DbRequestHandler types
    inc_string_request idx = record { type_id = 1; handle = handle_inc_string idx }

    unfoldable pub handle_check_and_store_id :
        String → Database S → Outcome (AsyncDbResult types (ResponseType 2) × Database S)
    unfolding check_and_store_id
    handle_check_and_store_id id db =
        let (response, db') = check_and_store_id S id db in ok (success response, db')

    abbrev pub check_and_store_id_request : String → DbRequestHandler types
    check_and_store_id_request id = record { type_id = 2; handle = handle_check_and_store_id id }

    unfoldable pub handle_add_to_journal :
        JournalEntry → Database S → Outcome (AsyncDbResult types (ResponseType 3) × Database S)
    unfolding add_to_journal
    handle_add_to_journal entry db = do db' ← add_to_journal S b entry db; ok (success tt, db')

    abbrev pub add_to_journal_request : JournalEntry → DbRequestHandler types
    add_to_journal_request entry = record { type_id = 3; handle = handle_add_to_journal entry }

    unfoldable pub handle_get_journal :
        ℕ → Database S → Outcome (AsyncDbResult types (ResponseType 4) × Database S)
    unfolding get_journal
    handle_get_journal count db = ok (success (get_journal S count db), db)

    abbrev pub get_journal_request : ℕ → DbRequestHandler types
    get_journal_request count = record { type_id = 4; handle = handle_get_journal count }

    -- The value of a counter.
    abbrev pub counter : Bool → Database S → ℕ
    counter c db = or_zero S (S.counters_table.get db.counters c)

    -- Requests for one counter, by the numbers of their receivers.
    abbrev pub inc_requests : Bool → List ℕ → List (GenericRequest types)
    inc_requests c [] = []
    inc_requests c (t ∷ ts) =
        record { request = inc_counter_request c; response_tx = t } ∷ inc_requests c ts

    take-inc_requests :
        (c : Bool) (k : ℕ) (ts : List ℕ) → take k (inc_requests c ts) ≡ inc_requests c (take k ts)
    take-inc_requests c zero ts = refl
    take-inc_requests c (suc k) [] = refl
    take-inc_requests c (suc k) (t ∷ ts) =
        ap (◌∷◌ (record { request = inc_counter_request c; response_tx = t }))
          (take-inc_requests c k ts)

    get_elem?-inc_requests :
        (c : Bool) (k : ℕ) (ts : List ℕ)
        → k < length ts
        → (t : ℕ) × (get_elem? (inc_requests c ts) k
            ≡ some (record { request = inc_counter_request c; response_tx = t }))
    get_elem?-inc_requests c k [] h = absurd (omega arith)
    get_elem?-inc_requests c zero (t ∷ ts) h = (t, refl)
    get_elem?-inc_requests c (suc k) (t ∷ ts) h = get_elem?-inc_requests c k ts (omega arith)

    abbrev incremented : Bool → Database S → Database S
    incremented c db = record db {
      counters = S.counters_table.insert db.counters c (counter c db + 1);
    }

    handle_inc_counter-ok :
        (c : Bool) (db : Database S)
        → counter c db + 1 < u64_modulus
        → handle_inc_counter c db ≡ ok (success (counter c db + 1), incremented c db)
    unfolding handle_inc_counter inc_counter
    handle_inc_counter-ok c db h = rw (add64-eq-ok b (counter c db) 1 h)

    reply_after-inc_requests :
        (c : Bool) (ts : List ℕ) (db : Database S)
        → counter c db + suc (length ts) < u64_modulus
        → reply_after types (inc_requests c ts) (inc_counter_request c) db
          ≡ success (counter c db + suc (length ts))
    unfolding reply_after
    reply_after-inc_requests c [] db h = rw (handle_inc_counter-ok c db h)
    reply_after-inc_requests c (t ∷ ts) db h =
        let next = counter c db + 1 in
        let now : counter c (incremented c db) ≡ next =
          ap (or_zero S) (S.counters_table.get-insert_same db.counters c next) in
        rw (reply_after, handle_inc_counter-ok c db (omega arith))
          (reply_after-inc_requests c ts (incremented c db) (omega (arith, now))
            ∙ ap success (omega (arith, now)))

  -- From a database and a queue of `n`, let any number of `IncCounterRequest`s for one counter be sent,
  -- interleaved in any way with the thread's rounds, so many that the counter stays below 2^64. After
  -- as many further rounds as requests wait, the `k`-th, counted from 0, has got `k + 1` more than the
  -- counter had at the start: no two get the same value, and no value is left out.
  pub inc_counter-answers :
      (b : Build) (C : Channel (GenericRequest types)) (db : Database S) (n : ℕ) (c : Bool)
      (ts : List ℕ) (s : AsyncRedb types C) (k : ℕ)
      → Reachable types C db n (inc_requests b c ts) s
      → k < length ts
      → counter b c db + length ts < u64_modulus
      → receive types C 0 k (drain types C db n (length (C.waiting s.request_rx)) s)
        ≡ some (success (counter b c db + suc k))
  inc_counter-answers b C db n c ts s k reachable h room =
      let (t, found) = get_elem?-inc_requests b c k ts h in
      let shorter : length (take k ts) ≡ k = length-take k ts (omega arith) in
      drain-answers types C db n (inc_requests b c ts) s k _ reachable found
      ∙ ap (λ zs. some (reply_after types zs (inc_counter_request b c) db))
          (take-inc_requests b c k ts)
      ∙ ap some (
          reply_after-inc_requests b c (take k ts) db (omega (arith, shorter))
          ∙ ap success (omega (arith, shorter)))
