-- ===== src/Feed/Gaps.antt =====
-- step12_ws_feed/code/src/main.rs: the trades of a message are stored all or none, whatever call of
-- the storage fails; the indices that were taken stay taken.
use rust_experiments.Prelude.{
  ℕ, ◌+◌, ◌-◌, ◌≤◌, ◌<◌, ◌≡◌, refl, sym, ap, subst, ◌∙◌, List, [], ◌∷◌, ◌++◌, Option, String,
  length, length-append, arith,
}
use rust_experiments.Machine.{Build, Fault, u64_modulus}
use rust_experiments.Store.Transaction.{DbError, Ended, Committed, Redb}
use rust_experiments.Store.Atomic.{no_call, Meets, Holds, pure-Meets, bind-Meets, imply-Meets}
use rust_experiments.Store.AllOrNothing.{Interrupts, request-Meets}
use rust_experiments.Feed.Services.{Trade, Services}
use rust_experiments.Feed.Defs.{
  JsonValue, KrakenTradeMessage, Database, store_each, store_trade_batch,
}
use rust_experiments.Feed.Spec.{indexed, Labelled, listed, stored_as, Counted}
use rust_experiments.Feed.Messages.{store_trades-Stored}
use rust_experiments.Feed.Handling.{length-listed}
use rust_experiments.Feed.Transactions.{
  store_trade_batch_request, tables_read, Action, handle_store_trade_batch, handle_request, ideal,
}
use rust_experiments.Feed.Atomicity.{handle_request-AllOrNothing}
use rust_experiments.Feed.Unreliable.{run_trades, run_batch, run_trade_message}
use rust_experiments.Feed.Slots.{
  gaps, filled, slot-append_gaps, length-gaps, length-filled, HasSlots, store_each-SlotsAre,
}
use rust_experiments.Feed.Rounds.{Batched, run_trades-Runs, Between, Interrupted, NeverPanics}

module _ (S : Services) (R : Redb (Database S)) (b : Build) where
  module _ (w₀ : R.World) (pair : String) (slots : List (Option Trade))
      (trades_data : List (List (JsonValue S))) (rows : S.trades_table.Rows) where
    abbrev new : List Trade
    new = listed S pair (length slots) trades_data

    abbrev Ends : Action S R b Unit → Committed (Database S) → Type 0
    Ends m c =
        Meets R w₀ (λ _ c'. HasSlots S c'.db (slots ++ filled new))
          (Interrupted S R b w₀ pair (length slots) (length slots + length trades_data) rows)
          (NeverPanics S R b w₀ pair) m c

    run_batch-Ends :
        (batch : List (Trade × ℕ)) (c : Committed (Database S))
        → HasSlots S (store_each S batch c.db) (slots ++ filled new)
        → Between S R b w₀ pair (length slots) (length slots + length trades_data) rows c.db
        → Ends (run_batch S R b batch) c
    unfolding run_batch store_each handle_request ideal store_trade_batch
    run_batch-Ends [] c stored between = pure-Meets tt c stored
    run_batch-Ends (entry ∷ batch) c stored between =
        let r = store_trade_batch_request (entry ∷ batch) in
        request-Meets R (ideal S b r) (tables_read r) w₀
          (handle_store_trade_batch S R b (entry ∷ batch)) _ c (length (entry ∷ batch))
          (store_each S (entry ∷ batch) c.db) (handle_request-AllOrNothing S R b r w₀ c) refl
          (λ e w' same interrupts. (rw same between, interrupts))
          (λ c' e.
            pure-Meets tt c' (subst (λ db. HasSlots S db (slots ++ filled new)) (sym e) stored))

  -- A batch that is stored follows the slots that there are.
  stored_batch :
      (slots : List (Option Trade)) (new : List Trade) (batch : List (Trade × ℕ))
      (db₀ db : Database S)
      → HasSlots S db₀ slots
      → batch ≡ indexed (length slots) new
      → Counted S db (length slots + length new)
      → db.trades ≡ db₀.trades
      → Labelled (length slots) new
      → HasSlots S (store_each S batch db) (slots ++ filled new)
  stored_batch slots new batch db₀ db h e counts same named =
      let (rows, counts') =
        store_each-SlotsAre S new db slots (length slots + length new)
          (λ i. ap (λ t. S.trades_table.get t i) same ∙ h.rows i) counts (omega arith) named in
      subst (λ bs. HasSlots S (store_each S bs db) (slots ++ filled new)) (sym e)
        (record {
          counted =
              subst (Counted S _)
                (omega (arith, length-append slots (filled new), length-filled new)) counts';
          rows = rows;
        })

  -- What a message leaves that does not come to its end.
  left_gaps :
      (w₀ : R.World) (pair : String) (slots : List (Option Trade)) (db₀ db : Database S) (most : ℕ)
      → HasSlots S db₀ slots
      → Between S R b w₀ pair (length slots) (length slots + most) db₀.trades db
      → (lost : ℕ) × (lost ≤ most) × HasSlots S db (slots ++ gaps lost)
  left_gaps w₀ pair slots db₀ db most h between =
      let lost = between.taken - length slots in
      (
        lost,
        omega (arith, between.up_to_hi),
        record {
          counted =
              subst (Counted S db)
                (omega (arith, between.from_lo, length-append slots (gaps lost), length-gaps lost))
                between.counted;
          rows = λ i.
              ap (λ t. S.trades_table.get t i) between.same_rows
              ∙ h.rows i
              ∙ ap (stored_as S) (sym (slot-append_gaps slots lost i));
        },
      )

  module _ (w₀ : R.World) (message : KrakenTradeMessage S) (slots : List (Option Trade)) where
    -- All trades of the message have slots.
    abbrev pub Finished : Unit {0} → Committed (Database S) → Type 0
    Finished _ c' =
        HasSlots S c'.db
          (slots ++ filled (listed S message.pair (length slots) message.trades_data))

    -- Some indices are lost, and no trade of the message is there: a call of this run has failed, or a
    -- table is not there.
    abbrev pub Lost : DbError R.Error → R.World → Type 0
    Lost e w' =
        (lost : ℕ) × (lost ≤ length message.trades_data)
        × HasSlots S (R.committed w').db (slots ++ gaps lost)
        × Interrupts R w₀ e w'

    abbrev pub Never : Fault → Committed (Database S) → Type 0
    Never fault c' = ⊥

    -- What a run of the message's requests leaves.
    abbrev pub Leaves : Ended R.Error Unit × R.World → Type 0
    Leaves ended = Holds R w₀ Finished Lost Never ended

  run_trade_message-Meets :
      (w₀ : R.World) (message : KrakenTradeMessage S) (c : Committed (Database S))
      (slots : List (Option Trade))
      → HasSlots S c.db slots
      → message.channel_name ≡ "trade"
      → length slots + length message.trades_data < u64_modulus
      → Meets R w₀
          (Finished w₀ message slots)
          (Lost w₀ message slots)
          (Never w₀ message slots)
          (run_trade_message S R b message)
          c
  unfolding run_trade_message
  run_trade_message-Meets w₀ message c slots h channel room =
      let pair = message.pair in
      let fields = message.trades_data in
      let n = length slots in
      rw (run_trade_message, channel)
        (imply-Meets _ (Interrupted S R b w₀ pair n (n + length fields) c.db.trades)
          (NeverPanics S R b w₀ pair) _ c (λ _ c' stored. stored)
          (λ e w' (between, interrupts).
            let (lost, few, left) =
              left_gaps w₀ pair slots c.db (R.committed w').db (length fields) h between in
            (lost, few, left, interrupts))
          (λ fault c' never. never)
          (bind-Meets (Batched S R b w₀ pair n (n + length fields) c.db.trades fields n)
            (run_trades S R b pair fields) (run_batch S R b) c
            (run_trades-Runs S R b w₀ pair n (n + length fields) c.db.trades fields c n h.counted
              room (omega arith) (omega arith) refl)
            (λ batch c₁ (e, counts, same).
              run_batch-Ends w₀ pair slots fields c.db.trades batch c₁
                (stored_batch slots (listed S pair n fields) batch c.db c₁.db h e counts same
                  (store_trades-Stored S b pair fields c.db n h.counted room).named)
                (record {
                  taken = n + length (listed S pair n fields);
                  from_lo = omega arith;
                  up_to_hi = omega (arith, length-listed S pair n fields);
                  counted = counts;
                  same_rows = same;
                }))))

  -- For a database whose taken indices have the slots `slots`, and a message of the channel "trade"
  -- whose trades still have indices below 2^64: whatever calls of the storage fail, the message's
  -- trades are stored all or none. If its requests come to their end, every trade of at least five
  -- fields is stored, in order, under the indices that follow; if one of them fails, the rows are as
  -- they were, and the indices that the message has taken, one for each of its trades at most, stay
  -- taken with no trade. The requests do not panic.
  pub run_trade_message-Leaves :
      (message : KrakenTradeMessage S) (slots : List (Option Trade)) (w : R.World)
      → HasSlots S (R.committed w).db slots
      → message.channel_name ≡ "trade"
      → length slots + length message.trades_data < u64_modulus
      → Leaves w message slots (run_trade_message S R b message w)
  run_trade_message-Leaves message slots w h channel room =
      (run_trade_message-Meets w message (R.committed w) slots h channel room).run w no_call refl
