-- ===== src/Store/FaultList.antt =====
-- A database for the examples whose calls fail as a list says; when the list is at its end no call
-- does.
use rust_experiments.Prelude.{◌≡◌, ◌∙◌, refl, List, [], ◌∷◌, Option, none, some, String}
use rust_experiments.Store.Transaction.{Committed, Redb}

module _ (D : Type 0) where
  pub record FaultWorld : Type 0 where
    pub committed : Committed D
    pub faults : List (Option String)

  abbrev pub next_call : Committed D → List (Option String) → Option String × FaultWorld
  next_call c [] = (none, record { committed = c; faults = [] })
  next_call c (fault ∷ faults) = (fault, record { committed = c; faults = faults })

  abbrev pub attempt : FaultWorld → Option String × FaultWorld
  attempt w = next_call w.committed w.faults

  next_call-committed :
      (c : Committed D) (faults : List (Option String)) → (next_call c faults).1.committed ≡ c
  next_call-committed c [] = refl
  next_call-committed c (fault ∷ faults) = refl

  pub attempt-committed : (w : FaultWorld) → (attempt w).1.committed ≡ w.committed
  attempt-committed w = next_call-committed w.committed w.faults

  abbrev pub finish : Committed D → Option String × FaultWorld → Option String × FaultWorld
  finish txn (none, w) = (none, record w { committed = txn })
  finish txn (some e, w) = (some e, w)

  abbrev pub commit_to : Committed D → FaultWorld → Option String × FaultWorld
  commit_to txn w = finish txn (attempt w)

  pub finish-committed :
      (txn : Committed D) (r : Option String × FaultWorld)
      → (finish txn r).0 ≡ none
      → (finish txn r).1.committed ≡ txn
  finish-committed txn (none, w) e = refl
  finish-committed txn (some err, w) e = absurd (cc e)

  pub finish-failed :
      (txn : Committed D) (r : Option String × FaultWorld) (err : String)
      → (finish txn r).0 ≡ some err
      → (finish txn r).1.committed ≡ r.1.committed
  finish-failed txn (none, w) err e = absurd (cc e)
  finish-failed txn (some _, w) err e = refl

  abbrev pub fault_list : Redb D
  fault_list = record {
    Error = String;
    World = FaultWorld;
    committed = λ w. w.committed;
    attempt = attempt;
    attempt_keeps = attempt-committed;
    commit = commit_to;
    commit_done = λ txn w e. finish-committed txn (attempt w) e;
    commit_failed = λ txn w err e. finish-failed txn (attempt w) err e ∙ attempt-committed w;
  }
