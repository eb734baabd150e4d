-- ===== src/Store/Atomic.antt =====
-- Rules for requests in transactions: what holds of the committed data however a request ends.
use rust_experiments.Prelude.{
  ◌≡◌, ◌∙◌, refl, sym, subst, ◌∷◌, Option, none, some, String, false, Bool-cases, inl, inr,
}
use rust_experiments.Machine.{Fault, Outcome, ok, panic}
use rust_experiments.Store.Transaction.{
  DbError, storage_error, table_does_not_exist, has_table, Committed, Redb, Ended, done, failed,
  panicked, Storage, ◌>>=◌, then_run, unless_failed, call, compute, pure, begin_transaction,
  open_table_mut, open_table, commit,
}

module _ {D : Type 0} (R : Redb D) (w₀ : R.World) where
  -- From `w₀` calls of the database have led to this world, and none of them has failed.
  pub data Calls : R.World → Type 0 where
    no_call : Calls w₀
    attempt_done : {w : R.World} → Calls w → (R.attempt w).0 ≡ none → Calls (R.attempt w).1
    commit_done :
        {w : R.World}
        → Calls w
        → (txn : Committed D) → (R.commit txn w).0 ≡ none
        → Calls (R.commit txn w).1

  -- The first call after those of a run from `w₀` that has failed: with this error, and it has left
  -- this world.
  pub data Fails (e : R.Error) : R.World → Type 0 where
    attempting : {w : R.World} → Calls w → (R.attempt w).0 ≡ some e → Fails e (R.attempt w).1
    committing :
        {w : R.World}
        → Calls w
        → (txn : Committed D) → (R.commit txn w).0 ≡ some e
        → Fails e (R.commit txn w).1

  module _ {A : Type 0} (good : A → Committed D → Type 0) (bad : DbError R.Error → R.World → Type 0)
      (crash : Fault → Committed D → Type 0) where
    abbrev pub Holds : Ended R.Error A × R.World → Type 0
    Holds (done a, w) = Calls w × good a (R.committed w)
    Holds (failed e, w) = bad e w
    Holds (panicked fault, w) = crash fault (R.committed w)

    -- In every world with these data to which the run has come, however its calls fail.
    pub record Meets (m : Storage R.World R.Error A) (c : Committed D) : Type 0 where
      pub run : (w : R.World) → Calls w → R.committed w ≡ c → Holds (m w)

  -- A call of the run may fail while these data are committed.
  abbrev pub MayFail : (DbError R.Error → R.World → Type 0) → Committed D → Type 0
  MayFail bad c =
      (e : R.Error) (w' : R.World) → Fails e w' → R.committed w' ≡ c → bad (storage_error e) w'

module _ {D : Type 0} (R : Redb D) (w₀ : R.World) {A : Type 0} (good : A → Committed D → Type 0)
    (bad : DbError R.Error → R.World → Type 0) (crash : Fault → Committed D → Type 0) where
  -- What a call has come to.
  unless_failed-Holds :
      {B : Type 0} (a : B) (k : B → Storage R.World R.Error A) (r : Option R.Error × R.World)
      → (r.0 ≡ none → Holds R w₀ good bad crash (k a r.1))
      → ((e : R.Error) → r.0 ≡ some e → bad (storage_error e) r.1)
      → Holds R w₀ good bad crash (then_run k (unless_failed a r))
  unless_failed-Holds a k (none, w) h b = h refl
  unless_failed-Holds a k (some e, w) h b = b e refl

  then_run-Holds :
      {B : Type 0} (mid : B → Committed D → Type 0) (k : B → Storage R.World R.Error A)
      (r : Ended R.Error B × R.World)
      → Holds R w₀ mid bad crash r
      → ((a : B) (c : Committed D) → mid a c → Meets R w₀ good bad crash (k a) c)
      → Holds R w₀ good bad crash (then_run k r)
  then_run-Holds mid k (done a, w) h rest = (rest a (R.committed w) h.1).run w h.0 refl
  then_run-Holds mid k (failed e, w) h rest = h
  then_run-Holds mid k (panicked fault, w) h rest = h

  imply-Holds :
      (mid : A → Committed D → Type 0) (bad' : DbError R.Error → R.World → Type 0)
      (crash' : Fault → Committed D → Type 0) (r : Ended R.Error A × R.World)
      → ((a : A) (c : Committed D) → mid a c → good a c)
      → ((e : DbError R.Error) (w : R.World) → bad' e w → bad e w)
      → ((fault : Fault) (c : Committed D) → crash' fault c → crash fault c)
      → Holds R w₀ mid bad' crash' r
      → Holds R w₀ good bad crash r
  imply-Holds mid bad' crash' (done a, w) f g k h = (h.0, f a (R.committed w) h.1)
  imply-Holds mid bad' crash' (failed e, w) f g k h = g e w h
  imply-Holds mid bad' crash' (panicked fault, w) f g k h = k fault (R.committed w) h

module _ {D : Type 0} {R : Redb D} {w₀ : R.World} {A : Type 0} {good : A → Committed D → Type 0}
    {bad : DbError R.Error → R.World → Type 0} {crash : Fault → Committed D → Type 0} where
  pub pure-Meets : (a : A) (c : Committed D) → good a c → Meets R w₀ good bad crash (pure a) c
  pure-Meets a c h = record { run = λ w before e. (before, subst (good a) (sym e) h) }

  pub call-Meets :
      {B : Type 0} (a : B) (k : B → Storage R.World R.Error A) (c : Committed D)
      → MayFail R w₀ bad c
      → Meets R w₀ good bad crash (k a) c
      → Meets R w₀ good bad crash (call R a >>= k) c
  unfolding call
  call-Meets a k c b h = record {
    run = λ w before e.
        let same = R.attempt_keeps w ∙ e in
        unless_failed-Holds R w₀ good bad crash a k (R.attempt w)
          (λ ran. h.run (R.attempt w).1 (attempt_done before ran) same)
          (λ err at. b err (R.attempt w).1 (attempting before at) same);
  }

  pub begin_transaction-Meets :
      (k : Committed D → Storage R.World R.Error A) (c : Committed D)
      → MayFail R w₀ bad c
      → Meets R w₀ good bad crash (k c) c
      → Meets R w₀ good bad crash (begin_transaction R >>= k) c
  unfolding begin_transaction
  begin_transaction-Meets k c b h = record {
    run = λ w before e.
        subst (λ d. Holds R w₀ good bad crash (then_run k (call R d w))) (sym e)
          ((call-Meets c k c b h).run w before e);
  }

  pub open_table_mut-Meets :
      (name : String) (txn : Committed D) (k : Committed D → Storage R.World R.Error A)
      (c : Committed D)
      → MayFail R w₀ bad c
      → Meets R w₀ good bad crash (k (record txn { tables = name ∷ txn.tables })) c
      → Meets R w₀ good bad crash (open_table_mut R name txn >>= k) c
  unfolding open_table_mut
  open_table_mut-Meets name txn k c b h =
      call-Meets (record txn { tables = name ∷ txn.tables }) k c b h

  pub open_table-Meets :
      (name : String) (txn : Committed D) (k : D → Storage R.World R.Error A) (c : Committed D)
      → MayFail R w₀ bad c
      → (has_table name txn.tables ≡ false
          → (w' : R.World) → R.committed w' ≡ c
          → bad (table_does_not_exist name) w')
      → Meets R w₀ good bad crash (k txn.db) c
      → Meets R w₀ good bad crash (open_table R name txn >>= k) c
  unfolding open_table
  open_table-Meets name txn k c b absent h = record {
    run = λ w before e. elim (Bool-cases (has_table name txn.tables)) [
      | inl there ↦ rw there ((call-Meets txn.db k c b h).run w before e)
      | inr missing ↦ rw missing (absent missing w e)
    ];
  }

  pub commit-Meets :
      (txn : Committed D) (k : Unit {0} → Storage R.World R.Error A) (c : Committed D)
      → MayFail R w₀ bad c
      → Meets R w₀ good bad crash (k tt) txn
      → Meets R w₀ good bad crash (commit R txn >>= k) c
  unfolding commit
  commit-Meets txn k c b h = record {
    run = λ w before e.
        unless_failed-Holds R w₀ good bad crash tt k (R.commit txn w)
          (λ ran. h.run (R.commit txn w).1 (commit_done before txn ran) (R.commit_done txn w ran))
          (λ err at.
            b err (R.commit txn w).1 (committing before txn at) (R.commit_failed txn w err at ∙ e));
  }

  pub compute-Meets :
      {B : Type 0} (m : Outcome B) (k : B → Storage R.World R.Error A) (c : Committed D)
      → ((a : B) → m ≡ ok a → Meets R w₀ good bad crash (k a) c)
      → ((fault : Fault) → m ≡ panic fault → crash fault c)
      → Meets R w₀ good bad crash (compute m >>= k) c
  unfolding compute
  compute-Meets (ok a) k c h p = record { run = λ w before e. (h a refl).run w before e }
  compute-Meets (panic fault) k c h p = record {
    run = λ w before e. subst (crash fault) (sym e) (p fault refl);
  }

  pub bind-Meets :
      {B : Type 0} (mid : B → Committed D → Type 0) (m : Storage R.World R.Error B)
      (k : B → Storage R.World R.Error A) (c : Committed D)
      → Meets R w₀ mid bad crash m c
      → ((a : B) (c' : Committed D) → mid a c' → Meets R w₀ good bad crash (k a) c')
      → Meets R w₀ good bad crash (m >>= k) c
  bind-Meets mid m k c h rest = record {
    run = λ w before e. then_run-Holds R w₀ good bad crash mid k (m w) (h.run w before e) rest;
  }

  pub imply-Meets :
      (mid : A → Committed D → Type 0) (bad' : DbError R.Error → R.World → Type 0)
      (crash' : Fault → Committed D → Type 0) (m : Storage R.World R.Error A) (c : Committed D)
      → ((a : A) (c' : Committed D) → mid a c' → good a c')
      → ((e : DbError R.Error) (w' : R.World) → bad' e w' → bad e w')
      → ((fault : Fault) (c' : Committed D) → crash' fault c' → crash fault c')
      → Meets R w₀ mid bad' crash' m c
      → Meets R w₀ good bad crash m c
  imply-Meets mid bad' crash' m c f g k h = record {
    run = λ w before e.
        imply-Holds R w₀ good bad crash mid bad' crash' (m w) f g k (h.run w before e);
  }

  pub weaken-Meets :
      (mid : A → Committed D → Type 0) (m : Storage R.World R.Error A) (c : Committed D)
      → ((a : A) (c' : Committed D) → mid a c' → good a c')
      → Meets R w₀ mid bad crash m c
      → Meets R w₀ good bad crash m c
  weaken-Meets mid m c implies =
      imply-Meets mid bad crash m c implies (λ e w' h. h) (λ fault c' h. h)
