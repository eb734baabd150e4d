-- ===== src/Feed/Following.antt =====
-- step12_ws_feed/code/src/main.rs: any number of messages of trades, whatever calls of the storage
-- fail.
use text.Mathlib.Text.{◌==◌ as ◌===◌}
use text.Mathlib.TextEquality.{eq_iff}
use rust_experiments.Prelude.{
  ℕ, ◌+◌, ◌≤◌, ◌<◌, ◌≡◌, refl, sym, ap, subst, List, [], ◌∷◌, ◌++◌, Option, length, length-append,
  arith, false, Bool-cases, inl, inr,
}
use rust_experiments.Machine.{Build, u64_modulus}
use rust_experiments.Store.Transaction.{DbError, Redb, Ended, done, failed, panicked}
use rust_experiments.Store.AllOrNothing.{Interrupts}
use rust_experiments.Feed.Services.{Trade, Services}
use rust_experiments.Feed.Defs.{KrakenTradeMessage, Database}
use rust_experiments.Feed.Spec.{listed}
use rust_experiments.Feed.Handling.{length-listed}
use rust_experiments.Feed.Unreliable.{run_trade_message, run_messages}
use rust_experiments.Feed.Slots.{gaps, filled, length-gaps, length-filled, HasSlots}
use rust_experiments.Feed.Gaps.{Leaves, run_trade_message-Leaves}

-- The trades of messages.
abbrev pub total_trades : {S : Services} → List (KrakenTradeMessage S) → ℕ
total_trades [] = 0
total_trades (message ∷ messages) = length message.trades_data + total_trades messages

module _ (S : Services) (R : Redb (Database S)) (b : Build) where
  -- The runs of these messages, one after the other, have led from this world and these slots to that
  -- world and those slots: a message of trades whose run has come to its end has added its trades, and
  -- one whose run was interrupted only gaps, one for each of its trades at most.
  pub data Follows
      : List (KrakenTradeMessage S)
        → R.World
        → List (Option Trade)
        → R.World
        → List (Option Trade)
        → Type 0 where
    no_more : {w : R.World} {slots : List (Option Trade)} → Follows [] w slots w slots
    stored :
        {message : KrakenTradeMessage S} {messages : List (KrakenTradeMessage S)}
        {w w₁ w' : R.World} {slots after : List (Option Trade)}
        → message.channel_name ≡ "trade"
        → run_trade_message S R b message w ≡ (done tt, w₁)
        → Follows messages w₁
            (slots ++ filled (listed S message.pair (length slots) message.trades_data))
            w'
            after
        → Follows (message ∷ messages) w slots w' after
    lost :
        {message : KrakenTradeMessage S} {messages : List (KrakenTradeMessage S)}
        {w w₁ w' : R.World} {slots after : List (Option Trade)} (e : DbError R.Error) (n : ℕ)
        → message.channel_name ≡ "trade"
        → run_trade_message S R b message w ≡ (failed e, w₁)
        → Interrupts R w e w₁
        → n ≤ length message.trades_data
        → Follows messages w₁ (slots ++ gaps n) w' after
        → Follows (message ∷ messages) w slots w' after
    skipped :
        {message : KrakenTradeMessage S} {messages : List (KrakenTradeMessage S)} {w w' : R.World}
        {slots after : List (Option Trade)}
        → (message.channel_name === "trade") ≡ false
        → run_trade_message S R b message w ≡ (done tt, w)
        → Follows messages w slots w' after
        → Follows (message ∷ messages) w slots w' after

  abbrev pub Leads : List (KrakenTradeMessage S) → R.World → List (Option Trade) → R.World → Type 0
  Leads messages w slots w' =
      (after : List (Option Trade)) × Follows messages w slots w' after
      × HasSlots S (R.committed w').db after

  module _ (message : KrakenTradeMessage S) (messages : List (KrakenTradeMessage S)) (w₀ : R.World)
      (slots : List (Option Trade))
      (further : (w : R.World) (slots' : List (Option Trade))
        → HasSlots S (R.committed w).db slots'
        → length slots' + total_trades messages < u64_modulus
        → Leads messages w slots' (run_messages S R b messages w))
      (room : length slots + (length message.trades_data + total_trades messages)
        < u64_modulus) where
    after_one :
        (ended : Ended R.Error Unit × R.World)
        → message.channel_name ≡ "trade"
        → run_trade_message S R b message w₀ ≡ ended
        → Leaves S R b w₀ message slots ended
        → Leads (message ∷ messages) w₀ slots (run_messages S R b messages ended.1)
    after_one (done _, w) channel ran left =
        let new = listed S message.pair (length slots) message.trades_data in
        let (after, follows, there) = further w (slots ++ filled new) left.1 (
          omega (
            arith,
            length-append slots (filled new),
            length-filled new,
            length-listed S message.pair (length slots) message.trades_data,
          )) in
        (after, stored channel ran follows, there)
    after_one (failed e, w) channel ran (n, few, left, interrupts) =
        let (after, follows, there) =
          further w (slots ++ gaps n) left
            (omega (arith, length-append slots (gaps n), length-gaps n)) in
        (after, lost e n channel ran interrupts few follows, there)
    after_one (panicked fault, w) channel ran left = absurd left

  other_channel :
      (message : KrakenTradeMessage S) (w : R.World)
      → (message.channel_name === "trade") ≡ false
      → run_trade_message S R b message w ≡ (done tt, w)
  unfolding run_trade_message
  other_channel message w e = rw (run_trade_message, e)

  -- For a database whose taken indices have the slots `slots`, and any messages whose trades still have
  -- indices below 2^64: whatever calls of the storage fail, after the messages the taken indices are
  -- those slots followed, for each message of the channel "trade" in order, by all of its trades of
  -- at least five fields if its run has come to its end; or by none of them and at most as many
  -- indices with no trade as the message has trades, if its run has ended with an error: that of the
  -- first call of this run that has failed, or of a table that is not there. Messages of other
  -- channels make no call and add nothing. No run panics.
  pub run_messages-Follows :
      (messages : List (KrakenTradeMessage S)) (w : R.World) (slots : List (Option Trade))
      → HasSlots S (R.committed w).db slots
      → length slots + total_trades messages < u64_modulus
      → (after : List (Option Trade)) × Follows messages w slots
          (run_messages S R b messages w)
          after
        × HasSlots S (R.committed (run_messages S R b messages w)).db after
  unfolding run_messages run_trade_message
  run_messages-Follows [] w slots h room = (slots, no_more, h)
  run_messages-Follows (message ∷ messages) w slots h room =
      elim (Bool-cases (message.channel_name === "trade")) [
        | inl is_trade ↦
            let channel = (eq_iff message.channel_name "trade").0 is_trade in
            after_one message messages w slots (run_messages-Follows messages) room
              (run_trade_message S R b message w) channel refl
              (run_trade_message-Leaves S R b message slots w h channel (omega arith))
        | inr other ↦
            let (after, follows, there) = run_messages-Follows messages w slots h (omega arith) in
            let ran = other_channel message w other in
            subst (Leads (message ∷ messages) w slots)
              (ap (λ r. run_messages S R b messages r.1) (sym ran))
              (after, skipped other ran follows, there)
      ]
