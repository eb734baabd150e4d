-- ===== src/Sums/Interleaved.antt =====
-- step07_redb/code/src/main.rs: requests to `sums_handler` that are handled at the same time.
use text.Mathlib.Text.{◌==◌ as ◌===◌}
use rust_experiments.Prelude.{
  ℕ, zero, suc, ◌+◌, ◌<◌, ◌≡◌, ◌≢◌, refl, sym, ap, subst, ◌∙◌, List, [], ◌∷◌, ◌++◌, Option, none,
  some, true, String, All, All-map, All-get_elem?, All-remove_at, remove_at, get_elem?, length,
  length-append, arith, Bool-cases, Option-cases, inl, inr,
}
use rust_experiments.Machine.{Build, ok, Outcome-cases, ok-injective, add64, u64_modulus}
use mathlib.Core.Option.{some-injective}
use rust_experiments.Int.{◌==ℤ◌, add32}
use rust_experiments.Sums.Defs.{
  SumRequest, JournalEntry, Services, SumsReply, accepted, Database, new_database,
  check_and_store_id, add_to_journal, journal_idx,
}
use rust_experiments.Sums.Journal.{
  eq_int, DistinctIds, All-last, IsJournal, new_database-IsJournal, marked, known-ne,
  marked-IsJournal, other_ids, add_to_journal-IsJournal,
}
use rust_experiments.Sums.Handler.{entry_of}
use rust_experiments.Sums.Halves.{Begun, replied, adds, begin_sum, begin_sums, finish_sums}

-- The ids that remain are not that of the entry that goes.
remove_at-other_ids :
    (flight : List JournalEntry) (k : ℕ) (e : JournalEntry)
    → get_elem? flight k ≡ some e
    → DistinctIds flight
    → All (λ d. e.id ≢ d.id) (remove_at k flight)
remove_at-other_ids [] k e found distinct = tt
remove_at-other_ids (d ∷ flight) zero e found distinct =
    let same : d ≡ e = some-injective d e found in
    All-map (λ x ne eq. ne (sym eq ∙ sym (ap (λ y. y.id) same))) flight distinct.0
remove_at-other_ids (d ∷ flight) (suc k) e found distinct = (
  All-get_elem? (λ x. x.id ≢ d.id) flight k e found distinct.0,
  remove_at-other_ids flight k e found distinct.1,
)

remove_at-DistinctIds :
    (flight : List JournalEntry) (k : ℕ) → DistinctIds flight → DistinctIds (remove_at k flight)
remove_at-DistinctIds [] k distinct = tt
remove_at-DistinctIds (d ∷ flight) zero distinct = distinct.1
remove_at-DistinctIds (d ∷ flight) (suc k) distinct = (
  All-remove_at (λ x. x.id ≢ d.id) flight k distinct.0,
  remove_at-DistinctIds flight k distinct.1,
)

All-both {ℓ κ μ ν} :
    {A : Type ℓ} {P : A → Type κ} {Q : A → Type μ} {R : A → Type ν}
    → ((x : A) → P x → Q x → R x)
    → (xs : List A) → All P xs
    → All Q xs
    → All R xs
All-both f [] p q = tt
All-both f (x ∷ xs) p q = (f x p.0 q.0, All-both f xs p.1 q.1)

abbrev flight_after : List JournalEntry → Begun → List JournalEntry
flight_after flight (replied reply) = flight
flight_after flight (adds e) = e ∷ flight

module _ (S : Services) (b : Build) where
  -- The database, the entries that wait to be added, and those that were added, in order. Requests arrive
  -- and the two halves of the handler run in any order.
  pub data Interleaves : Database S → List JournalEntry → List JournalEntry → Type 0 where
    starts : Interleaves (new_database S) [] []
    answers :
        {db db' : Database S} {flight es : List JournalEntry} {reply : SumsReply}
        → Interleaves db flight es
        → (now : ℕ) (req : Option SumRequest) → begin_sums S b now req db ≡ (replied reply, db')
        → Interleaves db' flight es
    begins :
        {db db' : Database S} {flight es : List JournalEntry} {e : JournalEntry}
        → Interleaves db flight es
        → (now : ℕ) (req : Option SumRequest) → begin_sums S b now req db ≡ (adds e, db')
        → Interleaves db' (e ∷ flight) es
    finishes :
        {db db' : Database S} {flight es : List JournalEntry} {e : JournalEntry} {reply : SumsReply}
        → Interleaves db flight es
        → (k : ℕ) → get_elem? flight k ≡ some e
        → finish_sums S b (adds e, db) ≡ ok (reply, db')
        → Interleaves db' (remove_at k flight) (es ++ e ∷ [])

  pub record InFlight (db : Database S) (flight es : List JournalEntry) : Type 0 where
    pub journal : IsJournal S b db es
    pub known : All (λ e. S.ids_table.get db.processed_ids e.id ≡ some true) flight
    pub right : All (λ e. add32 b e.a e.b ≡ ok e.c) flight
    pub apart : All (λ e. All (λ d. d.id ≢ e.id) es) flight
    pub distinct : DistinctIds flight

  module _ (db : Database S) (flight es : List JournalEntry) (h : InFlight db flight es) where
    module _ (id : String) (absent : S.ids_table.get db.processed_ids id ≡ none) where
      abbrev db₁ : Database S
      db₁ = marked S b db es h.journal id absent

      flight_ids : All (λ e. e.id ≢ id) flight
      flight_ids = All-map (known-ne S b db es h.journal id absent) flight h.known

      marked-InFlight : InFlight db₁ flight es
      marked-InFlight = record {
        journal = marked-IsJournal S b db es h.journal id absent;
        known =
            All-both
              (λ e known ne. S.ids_table.get-insert_other db.processed_ids id true e.id ne ∙ known)
              flight h.known flight_ids;
        right = h.right;
        apart = h.apart;
        distinct = h.distinct;
      }

      begun-InFlight :
          (e : JournalEntry) → e.id ≡ id → add32 b e.a e.b ≡ ok e.c → InFlight db₁ (e ∷ flight) es
      begun-InFlight e named right =
          let f = marked-InFlight in
          record {
            journal = f.journal;
            known = (rw named (S.ids_table.get-insert_same db.processed_ids id true), f.known);
            right = (right, f.right);
            apart = (rw named (other_ids S b db es h.journal id absent), f.apart);
            distinct = (rw named flight_ids, f.distinct);
          }

    begin_sum-InFlight :
        (now : ℕ) (req : SumRequest) (absent : S.ids_table.get db.processed_ids req.id ≡ none)
        → InFlight (db₁ req.id absent) (flight_after flight (begin_sum S b now req)) es
    begin_sum-InFlight now req absent = elim (Outcome-cases (add32 b req.a req.b)) [
      | inl (fault, e) ↦ rw (begin_sum, e) (marked-InFlight req.id absent)
      | inr (sum, e) ↦ elim (Bool-cases (req.c ==ℤ sum)) [
        | inl equal ↦
            rw (begin_sum, e)
              (rw equal (
                begun-InFlight req.id absent (entry_of now req) refl
                  (e ∙ ap ok (sym (eq_int req.c sum equal)))))
        | inr wrong ↦ rw (begin_sum, e) (rw wrong (marked-InFlight req.id absent))
      ]
    ]

    begin_sums-InFlight :
        (now : ℕ) (req : Option SumRequest)
        → InFlight
            (begin_sums S b now req db).1
            (flight_after flight (begin_sums S b now req db).0)
            es
    unfolding begin_sums check_and_store_id
    begin_sums-InFlight now none = h
    begin_sums-InFlight now (some req) = elim (Bool-cases (req.id === "")) [
      | inl e ↦ rw (begin_sums, e) h
      | inr e ↦ elim (Option-cases (S.ids_table.get db.processed_ids req.id)) [
        | inl absent ↦
            rw (begin_sums, e) (rw (check_and_store_id, absent) (begin_sum-InFlight now req absent))
        | inr (known, found) ↦ rw (begin_sums, e) (rw (check_and_store_id, found) h)
      ]
    ]

    add_to_journal-ids :
        (e : JournalEntry) (db' : Database S)
        → add_to_journal S b e db ≡ ok db'
        → db'.processed_ids ≡ db.processed_ids
    unfolding add_to_journal
    add_to_journal-ids e db' ran = elim (Outcome-cases (add64 b (journal_idx S db) 1)) [
      | inl (fault, f) ↦ absurd (cc (rw (add_to_journal, f) at ran))
      | inr (n, f) ↦ sym (ap (λ d. d.processed_ids) (ok-injective (rw (add_to_journal, f) at ran)))
    ]

    module _ (k : ℕ) (e : JournalEntry) (found : get_elem? flight k ≡ some e)
        (room : length es + 1 < u64_modulus) where
      added :
          (db' : Database S) × (add_to_journal S b e db ≡ ok db') × IsJournal S b db' (es ++ e ∷ [])
      added =
          add_to_journal-IsJournal S b db es h.journal e room
            (All-get_elem? (λ d. S.ids_table.get db.processed_ids d.id ≡ some true) flight k e found
              h.known)
            (All-get_elem? (λ d. All (λ c. c.id ≢ d.id) es) flight k e found h.apart)
            (All-get_elem? (λ d. add32 b d.a d.b ≡ ok d.c) flight k e found h.right)

      added-InFlight :
          (db' : Database S)
          → add_to_journal S b e db ≡ ok db'
          → InFlight db' (remove_at k flight) (es ++ e ∷ [])
      added-InFlight db' ran =
          let (db'', ran', journal) = added in
          let same : db'' ≡ db' = ok-injective (sym ran' ∙ ran) in
          record {
            journal = subst (λ d. IsJournal S b d (es ++ e ∷ [])) same journal;
            known =
                subst (λ ids. All (λ d. S.ids_table.get ids d.id ≡ some true) (remove_at k flight))
                  (sym (add_to_journal-ids e db' ran))
                  (All-remove_at (λ d. S.ids_table.get db.processed_ids d.id ≡ some true) flight k
                    h.known);
            right = All-remove_at (λ d. add32 b d.a d.b ≡ ok d.c) flight k h.right;
            apart =
                All-both (λ d old ne. All-last (λ c. c.id ≢ d.id) es e old ne) (remove_at k flight)
                  (All-remove_at (λ d. All (λ c. c.id ≢ d.id) es) flight k h.apart)
                  (remove_at-other_ids flight k e found h.distinct);
            distinct = remove_at-DistinctIds flight k h.distinct;
          }

  finish_sums-added :
      (e : JournalEntry) (db db' : Database S) (reply : SumsReply)
      → finish_sums S b (adds e, db) ≡ ok (reply, db')
      → add_to_journal S b e db ≡ ok db'
  unfolding finish_sums
  finish_sums-added e db db' reply ran = elim (Outcome-cases (add_to_journal S b e db)) [
    | inl (fault, f) ↦ absurd (cc (rw (finish_sums, f) at ran))
    | inr (db₂, f) ↦ f ∙ ap ok (ap (λ p. p.1) (ok-injective (rw (finish_sums, f) at ran)))
  ]

  Interleaves-InFlight :
      (db : Database S) (flight es : List JournalEntry)
      → Interleaves db flight es
      → length es < u64_modulus
      → InFlight db flight es
  unfolding finish_sums
  Interleaves-InFlight db flight es starts room = record {
    journal = new_database-IsJournal S b;
    known = tt;
    right = tt;
    apart = tt;
    distinct = tt;
  }
  Interleaves-InFlight db flight es (answers {db = db₀} before now req begun) room =
      let h = Interleaves-InFlight db₀ flight es before room in
      subst (λ p. InFlight p.1 (flight_after flight p.0) es) begun
        (begin_sums-InFlight db₀ flight es h now req)
  Interleaves-InFlight db flight es (begins {db = db₀} {flight = rest} before now req begun) room =
      let h = Interleaves-InFlight db₀ rest es before room in
      subst (λ p. InFlight p.1 (flight_after rest p.0) es) begun
        (begin_sums-InFlight db₀ rest es h now req)
  Interleaves-InFlight db flight es
        (finishes {db = db₀} {flight = all} {es = old} {e = e} {reply = reply} before k found ran)
        room =
      let longer = length-append old (e ∷ []) in
      let h = Interleaves-InFlight db₀ all old before (omega (arith, longer)) in
      added-InFlight db₀ all old h k e found (omega (arith, longer)) db
        (finish_sums-added e db₀ db reply ran)

  -- Let requests come to `sums_handler` of a new database in any number, each with its time, and let
  -- their handlers, which wait for the database between `CheckAndStoreIdRequest` and
  -- `AddToJournalRequest`, run in any order; and let fewer than 2^64 entries be added. Then the journal
  -- holds the entries that were added, in that order: their ids are distinct and stored, and in each
  -- `c` is the sum of `a` and `b` as the build adds. The ids of the entries that wait to be added differ from
  -- these and from each other.
  pub Interleaves-IsJournal :
      (db : Database S) (flight es : List JournalEntry)
      → Interleaves db flight es
      → length es < u64_modulus
      → IsJournal S b db es × (DistinctIds flight × All (λ e. All (λ d. d.id ≢ e.id) es) flight)
  Interleaves-IsJournal db flight es reached room =
      let h = Interleaves-InFlight db flight es reached room in (h.journal, (h.distinct, h.apart))

  -- In the same states, while the journal has room for one more entry: each request that waits to add its
  -- entry can go on, without a panic, and is answered as accepted.
  pub finish_sums-accepted :
      (db : Database S) (flight es : List JournalEntry) (k : ℕ) (e : JournalEntry)
      → Interleaves db flight es
      → length es + 1 < u64_modulus
      → get_elem? flight k ≡ some e
      → (db' : Database S) × (finish_sums S b (adds e, db) ≡ ok (accepted, db'))
        × IsJournal S b db' (es ++ e ∷ [])
  unfolding finish_sums
  finish_sums-accepted db flight es k e reached room found =
      let h = Interleaves-InFlight db flight es reached (omega arith) in
      let (db', ran, journal) = added db flight es h k e found room in
      (db', rw (finish_sums, ran), journal)
