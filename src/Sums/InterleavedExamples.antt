-- ===== src/Sums/InterleavedExamples.antt =====
-- Two requests to `sums_handler` at the same time, of which the second is the first to be journaled, and
-- a third with the id of the first one.
use rust_experiments.Prelude.{◌≡◌, ◌≢◌, refl, [], ◌∷◌, some, true, All, arith}
use rust_experiments.Machine.{ok, add64}
use rust_experiments.Store.ListTable.{find}
use rust_experiments.Int.{pos, add32}
use rust_experiments.Sums.Tables.{services, checked_build}
use rust_experiments.Sums.Defs.{
  SumRequest, accepted, Database, new_database, check_and_store_id, add_to_journal,
}
use rust_experiments.Sums.Journal.{IsJournal, DistinctIds}
use rust_experiments.Sums.Handler.{entry_of}
use rust_experiments.Sums.Halves.{adds, begin_sums, finish_sums}
use rust_experiments.Sums.Interleaved.{
  Interleaves, starts, begins, answers, finishes, Interleaves-IsJournal, finish_sums-accepted,
}

abbrev first : SumRequest
first = record { id = "x"; a = pos 2; b = pos 2; c = pos 4 }

abbrev second : SumRequest
second = record { id = "y"; a = pos 1; b = pos 2; c = pos 3 }

abbrev empty : Database services
empty = new_database services

abbrev first_checked : Database services
first_checked = record empty { processed_ids = ("x", true) ∷ [] }

abbrev both_checked : Database services
both_checked = record empty { processed_ids = ("y", true) ∷ ("x", true) ∷ [] }

abbrev second_added : Database services
second_added = record both_checked {
  sums_journal = (0, entry_of 2 second) ∷ [];
  journal_meta = ("idx", 1) ∷ [];
}

second_added-Interleaves :
    Interleaves services checked_build second_added (entry_of 1 first ∷ []) (entry_of 2 second ∷ [])
unfolding begin_sums check_and_store_id finish_sums add_to_journal add32 add64 find
second_added-Interleaves =
    answers {db = second_added}
      (finishes {db = both_checked} {flight = entry_of 2 second ∷ entry_of 1 first ∷ []} {es = []}
        {e = entry_of 2 second} {reply = accepted}
        (begins {db = first_checked} {e = entry_of 2 second}
          (begins {db = empty} {e = entry_of 1 first} starts 1 (some first) refl) 2 (some second)
          refl)
        0 refl refl)
      3 (some first) refl

Interleaves-IsJournal_example :
    IsJournal services checked_build second_added (entry_of 2 second ∷ [])
    × (DistinctIds (entry_of 1 first ∷ [])
        × All (λ e. All (λ d. d.id ≢ e.id) (entry_of 2 second ∷ [])) (entry_of 1 first ∷ []))
Interleaves-IsJournal_example =
    Interleaves-IsJournal services checked_build second_added (entry_of 1 first ∷ [])
      (entry_of 2 second ∷ []) second_added-Interleaves (omega arith)

finish_sums-accepted_example :
    (db' : Database services) × (finish_sums services checked_build
        (adds (entry_of 1 first), second_added)
      ≡ ok (accepted, db'))
    × IsJournal services checked_build db' (entry_of 2 second ∷ entry_of 1 first ∷ [])
finish_sums-accepted_example =
    finish_sums-accepted services checked_build second_added (entry_of 1 first ∷ [])
      (entry_of 2 second ∷ []) 0 (entry_of 1 first) second_added-Interleaves (omega arith) refl
