-- ===== src/Feed/Loops.antt =====
-- step12_ws_feed/code/src/main.rs: the loops of the requests, whatever call fails.
use rust_experiments.Prelude.{ℕ, zero, suc, ◌≡◌, refl, List, [], ◌∷◌, Option-cases, inl, inr}
use rust_experiments.Machine.{Build}
use rust_experiments.Store.Transaction.{Committed, Redb}
use rust_experiments.Store.Atomic.{MayFail, Meets, pure-Meets, call-Meets, bind-Meets}
use rust_experiments.Store.AllOrNothing.{Unchanged, Crashed, may_fail}
use rust_experiments.Feed.Services.{Trade, Services}
use rust_experiments.Feed.Defs.{Database, store_each, read_range, read_recent}
use rust_experiments.Feed.Transactions.{
  Request, tables_read, Action, insert_each, recent_of, range_of, ideal,
}

module _ (S : Services) (R : Redb (Database S)) (b : Build) (w₀ : R.World)
    (c : Committed (Database S)) where
  pub fails_of : (r : Request) → MayFail R w₀ (Unchanged R (ideal S b r) (tables_read r) w₀ c) c
  fails_of r = may_fail R (ideal S b r) (tables_read r) w₀ c

  -- A part of the request `r` that changes nothing and gives `a`.
  abbrev pub Gives : (r : Request) {A : Type 0} → A → Action S R b A → Type 0
  Gives r a m =
      Meets R w₀ (λ a' c'. (a' ≡ a) × (c' ≡ c)) (Unchanged R (ideal S b r) (tables_read r) w₀ c)
        (Crashed R (ideal S b r) (tables_read r) w₀ c) m c

  pub insert_each-Gives :
      (r : Request) (batch : List (Trade × ℕ)) (db : Database S)
      → Gives r (store_each S batch db) (insert_each S R b batch db)
  unfolding insert_each store_each
  insert_each-Gives r [] db = pure-Meets _ _ (refl, refl)
  insert_each-Gives r ((trade, index) ∷ batch) db =
      call-Meets _ _ c (fails_of r) (call-Meets _ _ c (fails_of r) (insert_each-Gives r batch _))

  pub recent_of-Gives :
      (r : Request) (n i : ℕ) → Gives r (read_recent S c.db n i) (recent_of S R b c.db.trades n i)
  unfolding recent_of read_recent
  recent_of-Gives r zero i = pure-Meets _ _ (refl, refl)
  recent_of-Gives r (suc n) i = call-Meets _ _ c (fails_of r) (
      bind-Meets (λ ts c'. (ts ≡ read_recent S c.db n (suc i)) × (c' ≡ c)) _ _ c
        (recent_of-Gives r n (suc i))
        (λ rest c' (e, same).
          pure-Meets _ _ (elim (Option-cases (S.trades_table.get c.db.trades i)) [
            | inl missing ↦ (rw (missing, read_recent) e, same)
            | inr (bytes, found) ↦ (rw (found, read_recent, e) refl, same)
          ])))

  pub range_of-Gives :
      (r : Request) (n i : ℕ) → Gives r (read_range S c.db n i) (range_of S R b c.db.trades n i)
  unfolding range_of read_range
  range_of-Gives r zero i = pure-Meets _ _ (refl, refl)
  range_of-Gives r (suc n) i =
      call-Meets _ _ c (fails_of r) (elim (Option-cases (S.trades_table.get c.db.trades i)) [
        | inl missing ↦ rw missing (pure-Meets _ _ (rw (read_range, missing), refl))
        | inr (bytes, found) ↦ rw found (
            bind-Meets (λ ts c'. (ts ≡ read_range S c.db n (suc i)) × (c' ≡ c)) _ _ c
              (range_of-Gives r n (suc i))
              (λ rest c' (e, same). pure-Meets _ _ (rw (read_range, found, e), same)))
      ])
