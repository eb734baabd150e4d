-- ===== src/Sums/Journal.antt =====
-- step07_redb/code/src/main.rs: the journal holds each accepted request once, and reads back.
use rust_experiments.Prelude.{
  ℕ, zero, suc, ◌+◌, ◌-◌, ◌≤◌, ◌<◌, ◌≡◌, ◌≢◌, sym, ap, ◌∙◌, List, [], ◌∷◌, ◌++◌, Option, none, some,
  String, true, All, All-map, length, length-append, min, arith, Bool-cases, Option-cases, inl, inr,
  get_elem?, drop, get_elem?-last, get_elem?-none, drop-some, drop-all, ◌==◌, ==→eq, ==→ne,
  if◌then◌else◌,
}
use rust_experiments.Machine.{Build, ok, add64-eq-ok, u64_modulus}
use rust_experiments.Int.{ℤ, pos, negsuc, ◌==ℤ◌, add32}
use rust_experiments.Sums.Defs.{
  JournalEntry, Services, Database, new_database, journal_idx, add_to_journal, read_journal,
  get_journal, max_request_size,
}

pub eq_int : (x y : ℤ) → (x ==ℤ y) ≡ true → x ≡ y
eq_int (pos m) (pos n) e = ap pos (==→eq m n e)
eq_int (pos m) (negsuc n) e = cc
eq_int (negsuc m) (pos n) e = cc
eq_int (negsuc m) (negsuc n) e = ap negsuc (==→eq m n e)

pub All-last :
    (P : JournalEntry → Type 0) (es : List JournalEntry) (e : JournalEntry)
    → All P es
    → P e
    → All P (es ++ e ∷ [])
All-last P [] e all last = (last, tt)
All-last P (d ∷ es) e all last = (all.0, All-last P es e all.1 last)

abbrev pub DistinctIds : List JournalEntry → Type 0
DistinctIds [] = Unit
DistinctIds (e ∷ es) = All (λ d. d.id ≢ e.id) es × DistinctIds es

DistinctIds-last :
    (es : List JournalEntry) (e : JournalEntry)
    → DistinctIds es
    → All (λ d. d.id ≢ e.id) es
    → DistinctIds (es ++ e ∷ [])
DistinctIds-last [] e distinct new = (tt, tt)
DistinctIds-last (d ∷ es) e distinct new = (
  All-last (λ c. c.id ≢ d.id) es e distinct.0 (λ same. new.0 (sym same)),
  DistinctIds-last es e distinct.1 new.1,
)

module _ (S : Services) where
  least_le : (count total bound : ℕ) → min (min count total) bound ≤ total
  least_le count total bound = ground arith

  abbrev stored_as : Option JournalEntry → Option S.Bytes
  stored_as none = none
  stored_as (some entry) = some (S.to_vec entry)

  -- The journal holds these entries: their ids are distinct and known, and their sums are right.
  pub record IsJournal (b : Build) (db : Database S) (es : List JournalEntry) : Type 0 where
    pub counted : journal_idx S db ≡ length es
    pub rows : (i : ℕ) → S.journal_table.get db.sums_journal i ≡ stored_as (get_elem? es i)
    pub processed : All (λ e. S.ids_table.get db.processed_ids e.id ≡ some true) es
    pub distinct : DistinctIds es
    pub correct : All (λ e. add32 b e.a e.b ≡ ok e.c) es

  no_rows : (i : ℕ) → S.journal_table.get S.journal_table.new i ≡ stored_as (get_elem? [] i)
  no_rows i = S.journal_table.get-new i

  pub new_database-IsJournal : (b : Build) → IsJournal b (new_database S) []
  new_database-IsJournal b = record {
    counted = rw (S.meta_table.get-new "idx");
    rows = no_rows;
    processed = tt;
    distinct = tt;
    correct = tt;
  }

  module _ (b : Build) (db : Database S) (es : List JournalEntry) (h : IsJournal b db es) where
    -- An id that is stored does not disturb the journal.
    module _ (id : String) (absent : S.ids_table.get db.processed_ids id ≡ none) where
      abbrev pub marked : Database S
      marked = record db { processed_ids = S.ids_table.insert db.processed_ids id true }

      pub known-ne :
          (e : JournalEntry) → S.ids_table.get db.processed_ids e.id ≡ some true → e.id ≢ id
      known-ne e known same =
          absurd (cc (known, absent, ap (S.ids_table.get db.processed_ids) same))

      pub other_ids : All (λ e. e.id ≢ id) es
      other_ids = All-map known-ne es h.processed

      pub marked-IsJournal : IsJournal b marked es
      marked-IsJournal = record {
        counted = h.counted;
        rows = h.rows;
        processed =
            All-map
              (λ e known.
                S.ids_table.get-insert_other db.processed_ids id true e.id (known-ne e known)
                ∙ known)
              es h.processed;
        distinct = h.distinct;
        correct = h.correct;
      }

    abbrev appended : JournalEntry → Database S
    appended e = record db {
      sums_journal = S.journal_table.insert db.sums_journal (length es) (S.to_vec e);
      journal_meta = S.meta_table.insert db.journal_meta "idx" (length es + 1);
    }

    appended_rows :
        (e : JournalEntry) (i : ℕ)
        → S.journal_table.get (appended e).sums_journal i ≡ stored_as (get_elem? (es ++ e ∷ []) i)
    appended_rows e i = elim (Bool-cases (i == length es)) [
      | inl same ↦
          ap (S.journal_table.get _) (==→eq i (length es) same)
          ∙ S.journal_table.get-insert_same db.sums_journal (length es) (S.to_vec e)
          ∙ ap stored_as
              (sym (get_elem?-last es e i ∙ ap (λ c. if c then some e else get_elem? es i) same))
      | inr other ↦
          S.journal_table.get-insert_other db.sums_journal (length es) (S.to_vec e) i
            (==→ne i (length es) other)
          ∙ h.rows i
          ∙ ap stored_as
              (sym (get_elem?-last es e i ∙ ap (λ c. if c then some e else get_elem? es i) other))
    ]

    pub add_to_journal-IsJournal :
        (e : JournalEntry)
        → length es + 1 < u64_modulus
        → S.ids_table.get db.processed_ids e.id ≡ some true
        → All (λ d. d.id ≢ e.id) es
        → add32 b e.a e.b ≡ ok e.c
        → (db' : Database S) × (add_to_journal S b e db ≡ ok db') × IsJournal b db' (es ++ e ∷ [])
    unfolding add_to_journal
    add_to_journal-IsJournal e room known new right = (
      appended e,
      rw (add_to_journal, h.counted, add64-eq-ok b (length es) 1 room),
      record {
        counted =
            rw (S.meta_table.get-insert_same db.journal_meta "idx" (length es + 1))
              (sym (length-append es (e ∷ [])));
        rows = appended_rows e;
        processed =
            All-last (λ d. S.ids_table.get db.processed_ids d.id ≡ some true) es e h.processed
              known;
        distinct = DistinctIds-last es e h.distinct new;
        correct = All-last (λ d. add32 b d.a d.b ≡ ok d.c) es e h.correct right;
      },
    )

    -- The loop of the reading request, up to the end of the journal.
    read_journal-drop : (n k : ℕ) → k + n ≡ length es → read_journal S db n k ≡ drop k es
    unfolding read_journal
    read_journal-drop zero k e = sym (drop-all es k (omega arith))
    read_journal-drop (suc n) k e = elim (Option-cases (get_elem? es k)) [
      | inl gone ↦ absurd (omega (arith, get_elem?-none es k gone))
      | inr (entry, found) ↦
          rw (read_journal, h.rows k, found)
            (rw (S.from_slice-to_vec entry, drop-some es k entry found)
              (ap (λ ds. entry ∷ ds) (read_journal-drop n (suc k) (omega arith))))
    ]

    -- For a database with the journal `es`: `GetJournalRequest` answers with the last entries, as many
    -- as it asks for, but 100 at most, and all if there are fewer.
    pub get_journal-drop :
        (count : ℕ)
        → get_journal S count db
          ≡ drop (length es - min (min count (length es)) max_request_size) es
    unfolding get_journal
    get_journal-drop count =
        rw (get_journal, h.counted)
          (read_journal-drop (min (min count (length es)) max_request_size)
            (length es - min (min count (length es)) max_request_size)
            (omega (arith, least_le count (length es) max_request_size)))
