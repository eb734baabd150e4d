-- ===== src/Async/Channel.antt =====
-- The interface of a bounded channel of the async runtime, between tasks and the thread of the
-- database: messages come out in the order in which they were sent, and a full channel takes none.
use rust_experiments.Prelude.{ℕ, ◌≤◌, ◌<◌, ◌≡◌, List, [], ◌∷◌, ◌++◌, Option, none, some, length}

pub record Channel (A : Type 0) : Type 1 where
  pub Queue : Type 0
  pub channel : ℕ → Queue
  -- `none` means that the sender waits.
  pub try_send : Queue → A → Option Queue
  -- `none` means that the receiver waits.
  pub try_recv : Queue → Option (A × Queue)
  pub capacity : Queue → ℕ
  -- The messages that wait, the oldest first.
  pub waiting : Queue → List A
  pub waiting-channel : (n : ℕ) → waiting (channel n) ≡ []
  pub capacity-channel : (n : ℕ) → capacity (channel n) ≡ n
  pub send_room :
      (q : Queue) (a : A)
      → length (waiting q) < capacity q
      → (q' : Queue) × (try_send q a ≡ some q')
        × (waiting q' ≡ waiting q ++ a ∷ [])
        × (capacity q' ≡ capacity q)
  pub send_full : (q : Queue) (a : A) → capacity q ≤ length (waiting q) → try_send q a ≡ none
  pub recv_empty : (q : Queue) → waiting q ≡ [] → try_recv q ≡ none
  pub recv_first :
      (q : Queue) (a : A) (as_ : List A)
      → waiting q ≡ a ∷ as_
      → (q' : Queue) × (try_recv q ≡ some (a, q')) × (waiting q' ≡ as_) × (capacity q' ≡ capacity q)
