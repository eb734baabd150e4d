-- ===== src/Feed/Reading.antt =====
-- step12_ws_feed/code/src/main.rs: the messages of a connection, and the trades that are stored after
-- them whatever Redis does.
use rust_experiments.Prelude.{
  ℕ, ◌+◌, ◌<◌, ◌≡◌, refl, List, [], ◌∷◌, Option, if◌then◌else◌, All, length, arith, Bool-cases, inl,
  inr,
}
use rust_experiments.Machine.{Build, ok, u64_modulus}
use rust_experiments.Feed.Services.{Trade, Services}
use rust_experiments.Feed.Consumer.{Remote, Received, Consumer, read_loop}
use rust_experiments.Feed.Spec.{Represents}
use rust_experiments.Feed.Handling.{
  CanBeLogged, goes_on, after_received, trades_in, receive_one-stored, length-after_received,
}

module _ (S : Services) (R : Remote S) where
  -- The trades that there are when the loop has ended, which some messages do.
  abbrev pub after_all : List Trade → List (Option R.Connection × Received) → List Trade
  after_all ts [] = ts
  after_all ts ((_, m) ∷ more) =
      let further = after_all (after_received S R ts m) more in
      if goes_on m then further else after_received S R ts m

  abbrev pub trades_in_all : List (Option R.Connection × Received) → ℕ
  trades_in_all [] = 0
  trades_in_all ((_, m) ∷ more) = trades_in S R m + trades_in_all more

  -- Let the database hold the trades `ts`, and all the trades that the messages of a connection can
  -- have still get indices below 2^64; and let no message be longer than 500 bytes with a character
  -- across the byte 500. Then the loop that reads the messages ends without a panic, and has stored the
  -- trades of all messages that it has read, in order, whatever Redis did: whether it was there,
  -- failed in the middle of a message, or came back.
  pub read_loop-after_all :
      (b : Build) (messages : List (Option R.Connection × Received)) (s : Consumer S R)
      (ts : List Trade)
      → Represents S s.db ts
      → All (λ m. CanBeLogged m.1) messages
      → length ts + trades_in_all messages < u64_modulus
      → (after : Consumer S R) × (read_loop S R b messages s ≡ ok after)
        × Represents S after.db (after_all ts messages)
  unfolding read_loop
  read_loop-after_all b [] s ts r logged room = (s, refl, r)
  read_loop-after_all b ((attempt, m) ∷ more) s ts r logged room =
      let (next, ran, stored) = receive_one-stored S R b attempt m s ts r logged.0 (omega arith) in
      elim (Bool-cases (goes_on m)) [
        | inl on ↦
            let (after, rest, all) =
              read_loop-after_all b more next (after_received S R ts m) stored logged.1
                (omega (arith, length-after_received S R ts m)) in
            (after, rw (read_loop, ran) (rw on rest), rw on all)
        | inr off ↦ (next, rw (read_loop, ran) (rw off), rw off stored)
      ]
