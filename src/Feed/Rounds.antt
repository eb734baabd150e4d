-- ===== src/Feed/Rounds.antt =====
-- step12_ws_feed/code/src/main.rs: the loop over the trades of a message, whatever call of the
-- storage fails.
use rust_experiments.Prelude.{
  ℕ, suc, ◌+◌, ◌≤◌, ◌<◌, ◌≡◌, refl, sym, ap, subst, ◌∙◌, List, [], ◌∷◌, none, some, String, false,
  length, arith,
}
use rust_experiments.Machine.{Build, Fault, ok, u64_modulus}
use rust_experiments.Store.Transaction.{DbError, Committed, Redb, ◌>>=◌, pure}
use rust_experiments.Store.Atomic.{Meets, pure-Meets, bind-Meets}
use rust_experiments.Store.AllOrNothing.{Interrupts, request-Meets}
use rust_experiments.Feed.Services.{Trade, Services}
use rust_experiments.Feed.Defs.{
  JsonValue, to_string, Database, check_id_exists, store_id_with_index, trade_id, add_to,
}
use rust_experiments.Feed.Spec.{indexed, trade_from, listed, Counted}
use rust_experiments.Feed.Messages.{
  fresh_id, count_one, get_next_trade_counter-ok, count_one-Counted, trade, after, after-Counted,
}
use rust_experiments.Feed.Transactions.{
  get_next_trade_counter_request, check_id_exists_request, store_id_with_index_request, tables_read,
  Action, handle_get_next_trade_counter, handle_check_id_exists, handle_store_id_with_index,
  handle_request, ideal,
}
use rust_experiments.Feed.Atomicity.{handle_request-AllOrNothing}
use rust_experiments.Feed.Unreliable.{run_trade, run_trades}

module _ (S : Services) (R : Redb (Database S)) (b : Build) (w₀ : R.World) (pair : String) where
  -- Some indices from `lo` on are taken, up to `hi` at most, and the rows are as they were.
  pub record Between (lo hi : ℕ) (rows : S.trades_table.Rows) (db : Database S) : Type 0 where
    pub taken : ℕ
    pub from_lo : lo ≤ taken
    pub up_to_hi : taken ≤ hi
    pub counted : Counted S db taken
    pub same_rows : db.trades ≡ rows

  abbrev pub Interrupted : ℕ → ℕ → S.trades_table.Rows → DbError R.Error → R.World → Type 0
  Interrupted lo hi rows e w' = Between lo hi rows (R.committed w').db × Interrupts R w₀ e w'

  abbrev pub NeverPanics : Fault → Committed (Database S) → Type 0
  NeverPanics fault c = ⊥

  module _ (lo hi : ℕ) (rows : S.trades_table.Rows) where
    -- A trade of at least five fields.
    module _ (price volume timestamp side order_type : JsonValue S) (more : List (JsonValue S))
        (c : Committed (Database S)) (n : ℕ) (counted : Counted S c.db n)
        (room : suc n < u64_modulus) (from_lo : lo ≤ n) (up_to_hi : suc n ≤ hi)
        (same_rows : c.db.trades ≡ rows) where
      abbrev IsCounted : Committed (Database S) → Type 0
      IsCounted c₁ = c₁.db ≡ count_one S b pair c.db n

      between : (c₁ : Committed (Database S)) → IsCounted c₁ → Between lo hi rows c₁.db
      between c₁ e = record {
        taken = suc n;
        from_lo = omega arith;
        up_to_hi = up_to_hi;
        counted =
            subst (λ db. Counted S db (suc n)) (sym e) (count_one-Counted S b pair c.db n counted);
        same_rows = ap (λ db. db.trades) e ∙ same_rows;
      }

      absent :
          (c₁ : Committed (Database S))
          → IsCounted c₁
          → ideal S b (check_id_exists_request (trade_id (suc n) (to_string S price))) c₁.db
            ≡ ok (false, c₁.db)
      unfolding ideal check_id_exists
      absent c₁ e =
          subst
            (λ db.
              ideal S b (check_id_exists_request (trade_id (suc n) (to_string S price))) db
              ≡ ok (false, db))
            (sym e) (rw (check_id_exists, fresh_id S b pair c.db n (to_string S price) counted))

      after_rows :
          (after S b pair price volume timestamp side order_type more c.db n counted room).trades
          ≡ rows
      unfolding store_id_with_index
      after_rows = same_rows

      run_trade-Meets :
          Meets R w₀
            (λ stored c'.
              (stored
                ≡ some (
                  trade S b pair price volume timestamp side order_type more c.db n counted room,
                  suc n,
                ))
              × (c'.db
                  ≡ after S b pair price volume timestamp side order_type more c.db n counted room))
            (Interrupted lo hi rows)
            NeverPanics
            (run_trade S R b pair (price ∷ volume ∷ timestamp ∷ side ∷ order_type ∷ more))
            c
      unfolding run_trade ideal handle_request
      run_trade-Meets =
          let id = trade_id (suc n) (to_string S price) in
          request-Meets R (ideal S b get_next_trade_counter_request)
            (tables_read get_next_trade_counter_request) w₀ (handle_get_next_trade_counter S R b) _
            c (suc n) (count_one S b pair c.db n)
            (handle_request-AllOrNothing S R b get_next_trade_counter_request w₀ c)
            (get_next_trade_counter-ok S b pair c.db n counted room)
            (λ e w' same interrupts. (
              rw same (record {
                taken = n;
                from_lo = from_lo;
                up_to_hi = omega arith;
                counted = counted;
                same_rows = same_rows;
              }),
              interrupts,
            ))
            (λ c₁ e₁.
              request-Meets R (ideal S b (check_id_exists_request id))
                (tables_read (check_id_exists_request id)) w₀ (handle_check_id_exists S R b id) _ c₁
                false c₁.db (handle_request-AllOrNothing S R b (check_id_exists_request id) w₀ c₁)
                (absent c₁ e₁) (λ e w' same interrupts. (rw same (between c₁ e₁), interrupts))
                (λ c₂ e₂.
                  request-Meets R (ideal S b (store_id_with_index_request id (suc n)))
                    (tables_read (store_id_with_index_request id (suc n))) w₀
                    (handle_store_id_with_index S R b id (suc n)) _ c₂ tt
                    (after S b pair price volume timestamp side order_type more c.db n counted room)
                    (handle_request-AllOrNothing S R b (store_id_with_index_request id (suc n)) w₀
                      c₂)
                    (ap (λ db. ok (tt, store_id_with_index S id (suc n) db)) (e₂ ∙ e₁))
                    (λ e w' same interrupts. (rw same (between c₂ (e₂ ∙ e₁)), interrupts))
                    (λ c₃ e₃. pure-Meets _ _ (refl, e₃))))

    -- The batch of these trades, of which the first gets the index that follows `n`.
    abbrev pub Batched :
        List (List (JsonValue S)) → ℕ → List (Trade × ℕ) → Committed (Database S) → Type 0
    Batched trades_data n batch c' =
        (batch ≡ indexed n (listed S pair n trades_data))
        × Counted S c'.db (n + length (listed S pair n trades_data))
        × (c'.db.trades ≡ rows)

    abbrev pub Runs :
        List (List (JsonValue S))
        → ℕ
        → Action S R b (List (Trade × ℕ))
        → Committed (Database S)
        → Type 0
    Runs trades_data n m c =
        Meets R w₀ (Batched trades_data n) (Interrupted lo hi rows) NeverPanics m c

    -- Fields that make no trade take no index.
    skip-Runs :
        (fields : List (JsonValue S)) (rest : List (List (JsonValue S)))
        (c : Committed (Database S)) (n : ℕ)
        → trade_from S pair (suc n) fields ≡ none
        → Runs rest n (run_trades S R b pair rest) c
        → Runs (fields ∷ rest) n (run_trades S R b pair rest >>= pure) c
    unfolding listed
    skip-Runs fields rest c n none_made h =
        let same : listed S pair n (fields ∷ rest) ≡ listed S pair n rest =
          rw (listed, none_made) in
        bind-Meets (Batched rest n) _ _ c h
          (λ batch c' (e, counts, rows_same). pure-Meets batch c' (rw same (e, counts, rows_same)))

    pub run_trades-Runs :
        (trades_data : List (List (JsonValue S))) (c : Committed (Database S)) (n : ℕ)
        → Counted S c.db n
        → n + length trades_data < u64_modulus
        → lo ≤ n
        → n + length trades_data ≤ hi
        → c.db.trades ≡ rows
        → Runs trades_data n (run_trades S R b pair trades_data) c
    unfolding run_trades run_trade trade_from listed
    run_trades-Runs [] c n counted room from_lo up_to_hi same =
        pure-Meets [] c (refl, subst (Counted S c.db) (omega arith) counted, same)
    run_trades-Runs ([] ∷ rest) c n counted room from_lo up_to_hi same =
        skip-Runs [] rest c n refl
          (run_trades-Runs rest c n counted (omega arith) from_lo (omega arith) same)
    run_trades-Runs ((f₁ ∷ []) ∷ rest) c n counted room from_lo up_to_hi same =
        skip-Runs (f₁ ∷ []) rest c n refl
          (run_trades-Runs rest c n counted (omega arith) from_lo (omega arith) same)
    run_trades-Runs ((f₁ ∷ f₂ ∷ []) ∷ rest) c n counted room from_lo up_to_hi same =
        skip-Runs (f₁ ∷ f₂ ∷ []) rest c n refl
          (run_trades-Runs rest c n counted (omega arith) from_lo (omega arith) same)
    run_trades-Runs ((f₁ ∷ f₂ ∷ f₃ ∷ []) ∷ rest) c n counted room from_lo up_to_hi same =
        skip-Runs (f₁ ∷ f₂ ∷ f₃ ∷ []) rest c n refl
          (run_trades-Runs rest c n counted (omega arith) from_lo (omega arith) same)
    run_trades-Runs ((f₁ ∷ f₂ ∷ f₃ ∷ f₄ ∷ []) ∷ rest) c n counted room from_lo up_to_hi same =
        skip-Runs (f₁ ∷ f₂ ∷ f₃ ∷ f₄ ∷ []) rest c n refl
          (run_trades-Runs rest c n counted (omega arith) from_lo (omega arith) same)
    run_trades-Runs ((f₁ ∷ f₂ ∷ f₃ ∷ f₄ ∷ f₅ ∷ more) ∷ rest) c n counted room from_lo up_to_hi
          same =
        let further : suc n < u64_modulus = omega arith in
        bind-Meets
          (λ stored c'.
            (stored ≡ some (trade S b pair f₁ f₂ f₃ f₄ f₅ more c.db n counted further, suc n))
            × (c'.db ≡ after S b pair f₁ f₂ f₃ f₄ f₅ more c.db n counted further))
          (run_trade S R b pair (f₁ ∷ f₂ ∷ f₃ ∷ f₄ ∷ f₅ ∷ more)) _ c
          (run_trade-Meets f₁ f₂ f₃ f₄ f₅ more c n counted further from_lo (omega arith) same)
          (λ stored c₁ (one, at).
            bind-Meets (Batched rest (suc n)) (run_trades S R b pair rest) _ c₁
              (run_trades-Runs rest c₁ (suc n)
                (subst (λ db. Counted S db (suc n)) (sym at)
                  (after-Counted S b pair f₁ f₂ f₃ f₄ f₅ more c.db n counted further))
                (omega arith) (omega arith) (omega arith)
                (ap (λ db. db.trades) at
                  ∙ after_rows f₁ f₂ f₃ f₄ f₅ more c n counted further from_lo (omega arith) same))
              (λ batch c₂ (e, counts, rows_same). pure-Meets (add_to S stored batch) c₂ (
                ap (λ s. add_to S s batch) one
                    ∙ ap
                        (λ bs.
                          (trade S b pair f₁ f₂ f₃ f₄ f₅ more c.db n counted further, suc n) ∷ bs)
                        e,
                subst (Counted S c₂.db) (omega arith) counts,
                rows_same,
              )))
