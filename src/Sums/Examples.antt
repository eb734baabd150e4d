-- ===== src/Sums/Examples.antt =====
-- The theorems about the store of checked sums at concrete requests, over lists as tables.
use rust_experiments.Sums.Tables.{services, checked_build}
use rust_experiments.Prelude.{
  ℕ, ◌-◌, ◌≡◌, List, [], ◌∷◌, Option, none, some, length, min, drop, arith,
}
use rust_experiments.Machine.{ok}
use rust_experiments.Int.{pos, negsuc}
use rust_experiments.Sums.Defs.{
  SumRequest, SumsReply, Database, new_database, get_journal, max_request_size,
}
use rust_experiments.Sums.Journal.{IsJournal, new_database-IsJournal, get_journal-drop}
use rust_experiments.Sums.Handler.{handle_all, entries_of, handle_all-IsJournal}

-- Two right sums, one of them sent twice, a wrong one, one that overflows, and no JSON.
abbrev requests : List (ℕ × Option SumRequest)
requests =
    (1, some (record { id = "x"; a = pos 2; b = negsuc 4; c = negsuc 2 }))
    ∷ (2, some (record { id = "x"; a = pos 2; b = negsuc 4; c = negsuc 2 }))
    ∷ (3, some (record { id = "y"; a = pos 2; b = pos 2; c = pos 5 }))
    ∷ (4, some (record { id = "z"; a = pos 2_147_483_647; b = pos 1; c = pos 0 }))
    ∷ (5, none)
    ∷ (6, some (record { id = "w"; a = pos 2; b = pos 2; c = pos 4 }))
    ∷ []

-- The requests, handled.
all_handled :
    (replies : List SumsReply) × (db' : Database services) × (handle_all services checked_build
        requests
        (new_database services)
      ≡ ok (replies, db'))
    × IsJournal services checked_build db' (entries_of services checked_build requests replies)
all_handled =
    handle_all-IsJournal services checked_build requests (new_database services) []
      (new_database-IsJournal services checked_build) (omega arith)

get_journal-drop_example :
    get_journal services 1 all_handled.1
    ≡ drop
        (length (entries_of services checked_build requests all_handled.0)
          - min
              (min 1 (length (entries_of services checked_build requests all_handled.0)))
              max_request_size)
        (entries_of services checked_build requests all_handled.0)
get_journal-drop_example =
    get_journal-drop services checked_build all_handled.1
      (entries_of services checked_build requests all_handled.0) all_handled.3 1
