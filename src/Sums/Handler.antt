-- ===== src/Sums/Handler.antt =====
-- step07_redb/code/src/main.rs: `sums_handler` on every branch, and any number of its requests.
use text.Mathlib.Text.{◌==◌ as ◌===◌}
use rust_experiments.Prelude.{
  ℕ, suc, ◌+◌, ◌<◌, ◌≡◌, ◌≢◌, refl, sym, ap, subst, append-nil, append_assoc, ◌∙◌, List, [], ◌∷◌,
  ◌++◌, Option, none, some, true, length, length-append, arith, Bool-cases, Option-cases, inl, inr,
}
use rust_experiments.Machine.{Build, Outcome, ok, Outcome-cases, ◌>>=◌, u64_modulus}
use rust_experiments.Int.{◌==ℤ◌, add32}
use rust_experiments.Sums.Defs.{
  SumRequest, JournalEntry, Services, SumsReply, accepted, empty_id, wrong_sum, duplicate_id,
  invalid_json, crashed, Database, check_and_store_id, check_sum, sums_handler,
}
use rust_experiments.Sums.Journal.{
  eq_int, IsJournal, marked, marked-IsJournal, other_ids, add_to_journal-IsJournal,
}

-- The entry of an accepted request.
abbrev pub entry_of : ℕ → SumRequest → JournalEntry
entry_of now r = record { id = r.id; a = r.a; b = r.b; c = r.c; timestamp_us = now }

module _ (S : Services) (b : Build) where
  -- What a request has done to the journal `es`.
  pub data Handled (now : ℕ) (req : Option SumRequest) (es : List JournalEntry) (db' : Database S)
      : SumsReply → Type 0 where
    appended :
        (r : SumRequest)
        → req ≡ some r
        → IsJournal S b db' (es ++ entry_of now r ∷ [])
        → Handled now req es db' accepted
    refused :
        (reply : SumsReply) → reply ≢ accepted → IsJournal S b db' es → Handled now req es db' reply

  abbrev pub Handles : ℕ → Option SumRequest → Database S → List JournalEntry → Type 0
  Handles now req db es =
      (reply : SumsReply) × (db' : Database S) × (sums_handler S b now req db ≡ ok (reply, db'))
      × Handled now req es db' reply

  module _ (now : ℕ) (db : Database S) (es : List JournalEntry) (h : IsJournal S b db es)
      (room : length es + 1 < u64_modulus) where
    abbrev Checks : SumRequest → Database S → Type 0
    Checks r db₁ =
        (reply : SumsReply) × (db' : Database S) × (check_sum S b now r db₁ ≡ ok (reply, db'))
        × Handled now (some r) es db' reply

    check_sum-Handled :
        (r : SumRequest) (absent : S.ids_table.get db.processed_ids r.id ≡ none)
        → Checks r (marked S b db es h r.id absent)
    unfolding check_sum
    check_sum-Handled r absent =
        let db₁ = marked S b db es h r.id absent in
        let h₁ = marked-IsJournal S b db es h r.id absent in
        elim (Outcome-cases (add32 b r.a r.b)) [
          | inl (fault, e) ↦
              (crashed fault, db₁, rw (check_sum, e), refused (crashed fault) (λ e. cc) h₁)
          | inr (sum, e) ↦ elim (Bool-cases (r.c ==ℤ sum)) [
            | inl right ↦
                let (db', ran, h') =
                  add_to_journal-IsJournal S b db₁ es h₁ (entry_of now r) room
                    (S.ids_table.get-insert_same db.processed_ids r.id true)
                    (other_ids S b db es h r.id absent) (e ∙ ap ok (sym (eq_int r.c sum right))) in
                (accepted, db', rw (check_sum, e) (rw (right, ran)), appended r refl h')
            | inr wrong ↦
                (wrong_sum, db₁, rw (check_sum, e) (rw wrong), refused wrong_sum (λ e. cc) h₁)
          ]
        ]

    -- For a database that holds the journal `es`, with room for one more index below 2^64:
    -- `sums_handler` answers every request without a panic of the database's thread. It accepts a
    -- request and appends its entry to the journal, or refuses it and leaves the journal as it was;
    -- the journal's ids stay distinct and its sums right.
    pub sums_handler-Handled : (req : Option SumRequest) → Handles now req db es
    unfolding sums_handler check_and_store_id
    sums_handler-Handled none = (invalid_json, db, refl, refused invalid_json (λ e. cc) h)
    sums_handler-Handled (some r) = elim (Bool-cases (r.id === "")) [
      | inl e ↦ (empty_id, db, rw (sums_handler, e), refused empty_id (λ e. cc) h)
      | inr e ↦ elim (Option-cases (S.ids_table.get db.processed_ids r.id)) [
        | inl absent ↦
            let (reply, db', ran, handled) = check_sum-Handled r absent in
            (reply, db', rw (sums_handler, e, check_and_store_id, absent) ran, handled)
        | inr (known, found) ↦ (
          duplicate_id,
          db,
          rw (sums_handler, e, check_and_store_id, found),
          refused duplicate_id (λ e. cc) h,
        )
      ]
    ]

  -- Any number of requests, one after the other, each with its time.
  unfoldable pub handle_all :
      List (ℕ × Option SumRequest) → Database S → Outcome (List SumsReply × Database S)
  unfolding sums_handler
  handle_all [] db = ok ([], db)
  handle_all ((now, req) ∷ reqs) db = do
    (reply, db₁) ← sums_handler S b now req db
    (replies, db₂) ← handle_all reqs db₁
    ok (reply ∷ replies, db₂)

  -- The accepted requests, as the entries that they make.
  abbrev pub entries_of : List (ℕ × Option SumRequest) → List SumsReply → List JournalEntry
  entries_of ((now, some r) ∷ reqs) (accepted ∷ replies) = entry_of now r ∷ entries_of reqs replies
  entries_of (_ ∷ reqs) (_ ∷ replies) = entries_of reqs replies
  entries_of _ _ = []

  entries_of-refused :
      (now : ℕ) (req : Option SumRequest) (reqs : List (ℕ × Option SumRequest)) (reply : SumsReply)
      (replies : List SumsReply)
      → reply ≢ accepted
      → entries_of ((now, req) ∷ reqs) (reply ∷ replies) ≡ entries_of reqs replies
  entries_of-refused now none reqs reply replies ne = refl
  entries_of-refused now (some r) reqs accepted replies ne = absurd (ne refl)
  entries_of-refused now (some r) reqs empty_id replies ne = refl
  entries_of-refused now (some r) reqs wrong_sum replies ne = refl
  entries_of-refused now (some r) reqs duplicate_id replies ne = refl
  entries_of-refused now (some r) reqs invalid_json replies ne = refl
  entries_of-refused now (some r) reqs (crashed fault) replies ne = refl

  abbrev HandlesAll : List (ℕ × Option SumRequest) → Database S → List JournalEntry → Type 0
  HandlesAll reqs db es =
      (replies : List SumsReply) × (db' : Database S) × (handle_all reqs db ≡ ok (replies, db'))
      × IsJournal S b db' (es ++ entries_of reqs replies)

  module _ (now : ℕ) (reqs : List (ℕ × Option SumRequest)) (db db₁ : Database S)
      (es : List JournalEntry)
      (further : (es' : List JournalEntry)
        → IsJournal S b db₁ es'
        → length es' + length reqs < u64_modulus
        → HandlesAll reqs db₁ es')
      (room : length es + suc (length reqs) < u64_modulus) where
    continue-HandlesAll :
        (req : Option SumRequest) (reply : SumsReply)
        → sums_handler S b now req db ≡ ok (reply, db₁)
        → Handled now req es db₁ reply
        → HandlesAll ((now, req) ∷ reqs) db es
    unfolding handle_all
    continue-HandlesAll req accepted ran (appended r e h) =
        let entry = entry_of now r in
        let (replies, db₂, rest, h') =
          further (es ++ entry ∷ []) h (omega (arith, length-append es (entry ∷ []))) in
        (
          accepted ∷ replies,
          db₂,
          rw (handle_all, ran) (rw rest),
          rw e (subst (IsJournal S b db₂) (append_assoc es (entry ∷ []) _) h'),
        )
    continue-HandlesAll req _ ran (refused reply ne h) =
        let (replies, db₂, rest, h') = further es h (omega arith) in
        (
          reply ∷ replies,
          db₂,
          rw (handle_all, ran) (rw rest),
          subst (λ ds. IsJournal S b db₂ (es ++ ds))
              (sym (entries_of-refused now req reqs reply replies ne)) h',
        )

  pub handle_all-IsJournal :
      (reqs : List (ℕ × Option SumRequest)) (db : Database S) (es : List JournalEntry)
      → IsJournal S b db es
      → length es + length reqs < u64_modulus
      → (replies : List SumsReply) × (db' : Database S) × (handle_all reqs db ≡ ok (replies, db'))
        × IsJournal S b db' (es ++ entries_of reqs replies)
  unfolding handle_all
  handle_all-IsJournal [] db es h room =
      ([], db, refl, subst (IsJournal S b db) (sym (append-nil es)) h)
  handle_all-IsJournal ((now, req) ∷ reqs) db es h room =
      let (reply, db₁, ran, handled) = sums_handler-Handled now db es h (omega arith) req in
      continue-HandlesAll now reqs db db₁ es (handle_all-IsJournal reqs db₁) room req reply ran
        handled
