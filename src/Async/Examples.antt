-- ===== src/Async/Examples.antt =====
-- The queue at concrete requests to a number, over lists as channels.
use native.Mathlib.Decide.{ℕ_discrete}
use rust_experiments.Prelude.{
  ℕ, ◌+◌, ◌<◌, ◌≡◌, refl, List, [], ◌∷◌, none, some, true, ◌⊎◌, take, length,
}
use rust_experiments.Machine.{ok, panic, arithmetic_overflow}
use rust_experiments.Async.ListChannel.{list_channel, push_back, pop_front}
use rust_experiments.Async.Defs.{
  Types, success, failure, recv_error, DbRequestHandler, GenericRequest, AsyncRedb, with_queue_size,
  send_request, serve_one, answer, handle_generic_request, receive,
}
use rust_experiments.Async.Serial.{reply_after}
use rust_experiments.Async.Answers.{
  Reachable, starts, sends, handles, receive-serial, drain, drain-answers,
}

abbrev types : Types
types = record { Database = ℕ; Failure = ⊥; TypeId = ℕ; same_type = ℕ_discrete; Response = λ _. ℕ }

-- Adds to the number, and answers with the sum.
abbrev adds : ℕ → DbRequestHandler types
adds k = record { type_id = 7; handle = λ db. ok (success (db + k), db + k) }

abbrev crashes : DbRequestHandler types
crashes = record { type_id = 8; handle = λ db. panic arithmetic_overflow }

abbrev State : Type 0
State = AsyncRedb types (list_channel (GenericRequest types))

abbrev numbered : DbRequestHandler types → ℕ → GenericRequest types
numbered request k = record { request = request; response_tx = k }

abbrev started : State
started = record {
  db = 10;
  is_running = true;
  request_rx = record { room = 2; messages = [] };
  responses = [];
  next_tx = 0;
}

abbrev one_sent : State
one_sent = record started {
  request_rx = record { room = 2; messages = numbered (adds 5) 0 ∷ [] };
  next_tx = 1;
}

abbrev two_sent : State
two_sent = record started {
  request_rx = record { room = 2; messages = numbered (adds 5) 0 ∷ numbered crashes 1 ∷ [] };
  next_tx = 2;
}

abbrev one_handled : State
one_handled = record two_sent {
  db = 15;
  request_rx = record { room = 2; messages = numbered crashes 1 ∷ [] };
  responses = (0, success (7, 15)) ∷ [];
}

abbrev history : List (GenericRequest types)
history = numbered (adds 5) 0 ∷ numbered crashes 1 ∷ []

two_sent-Reachable : Reachable types (list_channel (GenericRequest types)) 10 2 history two_sent
unfolding with_queue_size send_request push_back
two_sent-Reachable =
    sends {s = one_sent} (sends {s = started} (starts refl) (adds 5) refl refl) crashes refl refl

one_handled-Reachable :
    Reachable types (list_channel (GenericRequest types)) 10 2 history one_handled
unfolding serve_one answer handle_generic_request pop_front
one_handled-Reachable = handles {s = two_sent} two_sent-Reachable refl

receive-serial_example :
    ((receive types (list_channel (GenericRequest types)) 8 1 one_handled ≡ none)
      × (one_handled.is_running ≡ true)
      × (0 < length one_handled.request_rx.messages))
    ⊎ (receive types (list_channel (GenericRequest types)) 8 1 one_handled
        ≡ some (reply_after types (take 1 history) crashes 10))
receive-serial_example =
    receive-serial types (list_channel (GenericRequest types)) 10 2 history one_handled 1
      (numbered crashes 1) one_handled-Reachable refl

drain-answers_example :
    receive types (list_channel (GenericRequest types)) 7 0 (
      drain types
        (list_channel (GenericRequest types))
        10
        2
        (length two_sent.request_rx.messages)
        two_sent)
    ≡ some (reply_after types (take 0 history) (adds 5) 10)
drain-answers_example =
    drain-answers types (list_channel (GenericRequest types)) 10 2 history two_sent 0
      (numbered (adds 5) 0) two_sent-Reachable refl

-- The second request panics: its sender and all later ones get an error.
crash_is_seen :
    receive types
      (list_channel (GenericRequest types))
      8
      1
      (drain types (list_channel (GenericRequest types)) 10 2 5 two_sent)
    ≡ some (failure recv_error)
unfolding receive drain serve_one answer handle_generic_request pop_front
crash_is_seen = refl
