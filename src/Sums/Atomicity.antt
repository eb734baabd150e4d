-- ===== src/Sums/Atomicity.antt =====
-- step07_redb/code/src/main.rs: a request has its whole effect or none, whatever call fails.
use rust_experiments.Prelude.{
  ℕ, zero, suc, ◌-◌, min, ◌≡◌, ◌∙◌, refl, sym, ap, String, Bool, Option-cases, inl, inr,
}
use rust_experiments.Machine.{Build, ok, add64}
use rust_experiments.Store.Transaction.{Committed, Redb}
use rust_experiments.Store.Atomic.{
  MayFail, Meets, pure-Meets, call-Meets, begin_transaction-Meets, open_table_mut-Meets,
  open_table-Meets, commit-Meets, compute-Meets, bind-Meets, weaken-Meets,
}
use rust_experiments.Store.AllOrNothing.{
  Effect, Atomic, Atomic-Effect, Unchanged, Crashed, may_fail,
}
use rust_experiments.Sums.Defs.{
  JournalEntry, Services, Database, or_zero, max_request_size, inc_counter, inc_string,
  check_and_store_id, add_to_journal, get_journal, read_journal, journal_idx,
}
use rust_experiments.Sums.Transactions.{
  Request, inc_counter_request, inc_string_request, check_and_store_id_request,
  add_to_journal_request, get_journal_request, Response, tables_read, Action, store_unknown_id,
  run_inc_counter, run_inc_string, run_check_and_store_id, run_add_to_journal, run_reading,
  run_get_journal, handle, ideal,
}

module _ (S : Services) (R : Redb (Database S)) (b : Build) where
  abbrev pub AllOrNothing :
      (r : Request) → R.World → Committed (Database S) → Action S R b (Response r) → Type 0
  AllOrNothing r w₀ c m = Atomic R (ideal S b r) (tables_read r) w₀ c m

  fails_of :
      (r : Request) (w₀ : R.World) (c : Committed (Database S))
      → MayFail R w₀ (Unchanged R (ideal S b r) (tables_read r) w₀ c) c
  fails_of r w₀ c = may_fail R (ideal S b r) (tables_read r) w₀ c

  module _ (w₀ : R.World) (c : Committed (Database S)) where
    counted :
        (counter_type : Bool) (new_value : ℕ)
        → add64 b (or_zero S (S.counters_table.get c.db.counters counter_type)) 1 ≡ ok new_value
        → ideal S b (inc_counter_request counter_type) c.db
          ≡ ok (
            new_value,
            record c.db { counters = S.counters_table.insert c.db.counters counter_type new_value },
          )
    unfolding ideal inc_counter
    counted counter_type new_value e = rw (inc_counter, e)

    run_inc_counter-Atomic :
        (counter_type : Bool)
        → AllOrNothing (inc_counter_request counter_type) w₀ c (run_inc_counter S R b counter_type)
    unfolding ideal run_inc_counter inc_counter
    run_inc_counter-Atomic counter_type =
        let fails = fails_of (inc_counter_request counter_type) w₀ c in
        begin_transaction-Meets _ c fails (
          open_table_mut-Meets "counters" c _ c fails (
            call-Meets _ _ c fails (
              compute-Meets _ _ c
                (λ new_value e. call-Meets _ _ c fails (
                  commit-Meets _ _ c fails
                    (pure-Meets new_value _ (counted counter_type new_value e))))
                (λ fault e. (refl, rw (inc_counter, e))))))

    run_inc_string-Atomic :
        (idx : ℕ) → AllOrNothing (inc_string_request idx) w₀ c (run_inc_string S R b idx)
    unfolding ideal run_inc_string inc_string
    run_inc_string-Atomic idx =
        let fails = fails_of (inc_string_request idx) w₀ c in
        begin_transaction-Meets _ c fails (
          open_table_mut-Meets "strings" c _ c fails (
            call-Meets _ _ c fails
              (call-Meets _ _ c fails (commit-Meets _ _ c fails (pure-Meets _ _ refl)))))

    run_check_and_store_id-Atomic :
        (id : String)
        → AllOrNothing (check_and_store_id_request id) w₀ c (run_check_and_store_id S R b id)
    unfolding ideal run_check_and_store_id store_unknown_id check_and_store_id
    run_check_and_store_id-Atomic id =
        let fails = fails_of (check_and_store_id_request id) w₀ c in
        begin_transaction-Meets _ c fails (
          open_table_mut-Meets "processed_ids" c _ c fails (
            call-Meets _ _ c fails (elim (Option-cases (S.ids_table.get c.db.processed_ids id)) [
              | inl absent ↦ rw absent (
                  call-Meets _ _ c fails
                    (commit-Meets _ _ c fails (pure-Meets _ _ (rw (check_and_store_id, absent)))))
              | inr (known, found) ↦ rw found (pure-Meets _ _ (rw (check_and_store_id, found)))
            ])))

    added :
        (entry : JournalEntry) (following : ℕ)
        → add64 b (journal_idx S c.db) 1 ≡ ok following
        → ideal S b (add_to_journal_request entry) c.db
          ≡ ok (
            tt,
            record c.db {
              sums_journal =
                  S.journal_table.insert c.db.sums_journal (journal_idx S c.db) (S.to_vec entry);
              journal_meta = S.meta_table.insert c.db.journal_meta "idx" following;
            },
          )
    unfolding ideal add_to_journal
    added entry following e = rw (add_to_journal, e)

    run_add_to_journal-Atomic :
        (entry : JournalEntry)
        → AllOrNothing (add_to_journal_request entry) w₀ c (run_add_to_journal S R b entry)
    unfolding ideal run_add_to_journal add_to_journal
    run_add_to_journal-Atomic entry =
        let fails = fails_of (add_to_journal_request entry) w₀ c in
        begin_transaction-Meets _ c fails (
          open_table_mut-Meets "journal_meta" c _ c fails (
            open_table_mut-Meets "sums_journal" _ _ c fails (
              call-Meets _ _ c fails (
                call-Meets _ _ c fails (
                  compute-Meets _ _ c
                    (λ following e.
                      call-Meets _ _ c fails
                        (commit-Meets _ _ c fails (pure-Meets tt _ (added entry following e))))
                    (λ fault e. (refl, rw (add_to_journal, e))))))))

    -- The loop of the reading request.
    run_reading-Meets :
        (r : Request) (n i : ℕ)
        → Meets R w₀
            (λ es c'. (es ≡ read_journal S c.db n i) × (c' ≡ c))
            (Unchanged R (ideal S b r) (tables_read r) w₀ c)
            (Crashed R (ideal S b r) (tables_read r) w₀ c)
            (run_reading S R b c.db.sums_journal n i)
            c
    unfolding run_reading read_journal
    run_reading-Meets r zero i = pure-Meets _ _ (refl, refl)
    run_reading-Meets r (suc n) i = call-Meets _ _ c (fails_of r w₀ c) (
        bind-Meets (λ es c'. (es ≡ read_journal S c.db n (suc i)) × (c' ≡ c)) _ _ c
          (run_reading-Meets r n (suc i))
          (λ rest c' (e, same).
            pure-Meets _ _ (elim (Option-cases (S.journal_table.get c.db.sums_journal i)) [
              | inl missing ↦ (rw (missing, read_journal) e, same)
              | inr (bytes, found) ↦ (rw (found, read_journal, e) refl, same)
            ])))

    run_get_journal-Atomic :
        (count : ℕ) → AllOrNothing (get_journal_request count) w₀ c (run_get_journal S R b count)
    unfolding ideal run_get_journal get_journal
    run_get_journal-Atomic count =
        let r = get_journal_request count in
        let fails = fails_of r w₀ c in
        begin_transaction-Meets _ c fails (
          open_table-Meets "journal_meta" c _ c fails (λ missing w' same. (same, (refl, missing)))
            (open_table-Meets "sums_journal" c _ c fails
              (λ missing w' same. (same, (refl, missing)))
              (call-Meets _ _ c fails (
                let n = min (min count (journal_idx S c.db)) max_request_size in
                let i = journal_idx S c.db - n in
                weaken-Meets (λ es c'. (es ≡ read_journal S c.db n i) × (c' ≡ c)) _ c
                  (λ es c' (e, same).
                    ap ok (ap (λ es. (es, c.db)) (sym e) ∙ ap (λ d. (es, d.db)) (sym same)))
                  (run_reading-Meets r n i)))))

  pub handle-Atomic :
      (r : Request) (w₀ : R.World) (c : Committed (Database S))
      → AllOrNothing r w₀ c (handle S R b r)
  unfolding handle
  handle-Atomic (inc_counter_request counter_type) w₀ c = run_inc_counter-Atomic w₀ c counter_type
  handle-Atomic (inc_string_request idx) w₀ c = run_inc_string-Atomic w₀ c idx
  handle-Atomic (check_and_store_id_request id) w₀ c = run_check_and_store_id-Atomic w₀ c id
  handle-Atomic (add_to_journal_request entry) w₀ c = run_add_to_journal-Atomic w₀ c entry
  handle-Atomic (get_journal_request count) w₀ c = run_get_journal-Atomic w₀ c count

  -- Whatever calls of the database fail, every request has its whole effect or none: a response is that
  -- of the request on a storage that does not fail, and what is committed then is what that request
  -- leaves; after an error, and after a panic of the request's arithmetic, what is committed is what
  -- was committed before. There is an error only if a call of this run has failed, the first one that
  -- has, and then with its error, or if a table
  -- that the request only reads has never been created.
  pub handle-Effect :
      (r : Request) (w : R.World) → Effect R (ideal S b r) (tables_read r) w (handle S R b r w)
  handle-Effect r w =
      Atomic-Effect R (ideal S b r) (tables_read r) w (handle S R b r)
        (handle-Atomic r w (R.committed w))
