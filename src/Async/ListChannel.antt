-- ===== src/Async/ListChannel.antt =====
-- A list that meets the interface of a channel, and runs.
use rust_experiments.Prelude.{
  ℕ, ◌≤◌, ◌<◌, ◌≡◌, refl, List, [], ◌∷◌, ◌++◌, Option, none, some, length, ltb, lt→ltb,
  if◌then◌else◌, arith,
}
use rust_experiments.Async.Channel.{Channel}

module _ (A : Type 0) where
  pub record Fifo : Type 0 where
    pub room : ℕ
    pub messages : List A

  unfoldable pub push_back : Fifo → A → Option Fifo
  push_back q a =
      if ltb (length q.messages) q.room
      then some (record q { messages = q.messages ++ a ∷ [] })
      else none

  unfoldable pub pop_front : Fifo → Option (A × Fifo)
  pop_front q = elim q.messages [ [] ↦ none | a ∷ rest ↦ some (a, record q { messages = rest }) ]

  pub push_back-room :
      (q : Fifo) (a : A)
      → length q.messages < q.room
      → (q' : Fifo) × (push_back q a ≡ some q')
        × (q'.messages ≡ q.messages ++ a ∷ [])
        × (q'.room ≡ q.room)
  unfolding push_back
  push_back-room q a h =
      (record q { messages = q.messages ++ a ∷ [] }, rw (push_back, lt→ltb _ _ h), refl, refl)

  pub push_back-full : (q : Fifo) (a : A) → q.room ≤ length q.messages → push_back q a ≡ none
  unfolding push_back
  push_back-full q a h = ground arith

  pub pop_front-empty : (q : Fifo) → q.messages ≡ [] → pop_front q ≡ none
  unfolding pop_front
  pop_front-empty q e = rw (pop_front, e)

  pub pop_front-first :
      (q : Fifo) (a : A) (rest : List A)
      → q.messages ≡ a ∷ rest
      → (q' : Fifo) × (pop_front q ≡ some (a, q')) × (q'.messages ≡ rest) × (q'.room ≡ q.room)
  unfolding pop_front
  pop_front-first q a rest e = (record q { messages = rest }, rw (pop_front, e), refl, refl)

abbrev pub list_channel : (A : Type 0) → Channel A
list_channel A = record {
  Queue = Fifo A;
  channel = λ n. record { room = n; messages = [] };
  try_send = push_back A;
  try_recv = pop_front A;
  capacity = λ q. q.room;
  waiting = λ q. q.messages;
  waiting-channel = λ n. refl;
  capacity-channel = λ n. refl;
  send_room = push_back-room A;
  send_full = push_back-full A;
  recv_empty = pop_front-empty A;
  recv_first = pop_front-first A;
}
