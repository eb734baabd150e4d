-- ===== src/Async/Defs.antt =====
-- step07_redb/code/src/db.rs, and the same code in step12_ws_feed/code/src/main.rs: `AsyncRedb`, the
-- thread that owns the database and the queue of requests to it.
use mathlib.Core.HLevel.{Discrete}
use rust_experiments.Prelude.{
  ℕ, suc, ◌≡◌, subst, List, [], ◌∷◌, Option, none, some, Bool, true, false, ◌==◌, if◌then◌else◌,
}
use rust_experiments.Machine.{Outcome, ok, panic}
use rust_experiments.Async.Channel.{Channel}

abbrev pub default_request_queue_size : ℕ
default_request_queue_size = 32

-- What the queue is generic in: the database, the errors of its requests, and the types of their
-- responses, each known by a `TypeId`.
pub record Types : Type 1 where
  pub Database : Type 0
  pub Failure : Type 0
  pub TypeId : Type 0
  pub same_type : Discrete TypeId
  pub Response : TypeId → Type 0

module _ (T : Types) where
  -- `Box<dyn Error>`, from a request or from the queue.
  pub data AsyncDbError : Type 0 where
    request_failed : T.Failure → AsyncDbError
    send_error : AsyncDbError
    recv_error : AsyncDbError
    type_mismatch : AsyncDbError

  pub data AsyncDbResult (A : Type 0) : Type 0 where
    success : A → AsyncDbResult A
    failure : AsyncDbError → AsyncDbResult A

  -- A request, and its `handle` with the database that it leaves.
  pub record DbRequestHandler : Type 0 where
    pub type_id : T.TypeId
    pub handle : T.Database → Outcome (AsyncDbResult (T.Response type_id) × T.Database)

  -- `Box<dyn Any + Send>`
  abbrev pub Boxed : Type 0
  Boxed = (t : T.TypeId) × T.Response t

  abbrev pub boxed : (t : T.TypeId) → AsyncDbResult (T.Response t) → AsyncDbResult Boxed
  boxed t (success v) = success (t, v)
  boxed t (failure e) = failure e

  unfoldable pub handle_generic_request :
      DbRequestHandler → T.Database → Outcome (AsyncDbResult Boxed × T.Database)
  handle_generic_request request db = elim (request.handle db) [
    | panic fault ↦ panic fault
    | ok (result, db') ↦ ok (boxed request.type_id result, db')
  ]

  -- The sender of a response is known by a number, and its receiver by the same.
  pub record GenericRequest : Type 0 where
    pub request : DbRequestHandler
    pub response_tx : ℕ

  abbrev pub cast : (t u : T.TypeId) → Dec (t ≡ u) → T.Response t → AsyncDbResult (T.Response u)
  cast t u (yes e) v = success (subst T.Response e v)
  cast t u (no _) v = failure type_mismatch

  -- `??` and `downcast`
  unfoldable pub downcast : (t : T.TypeId) → AsyncDbResult Boxed → AsyncDbResult (T.Response t)
  downcast t (failure e) = failure e
  downcast t (success (u, v)) = cast u t (T.same_type u t) v

  abbrev pub find_response : ℕ → List (ℕ × AsyncDbResult Boxed) → Option (AsyncDbResult Boxed)
  find_response n [] = none
  find_response n ((k, result) ∷ responses) =
      let further = find_response n responses in if k == n then some result else further

  module _ (C : Channel GenericRequest) where
    open C use {Queue, channel, try_send, try_recv}

    -- A panic of a request ends the thread: it drops the database, the queue and the requests there.
    pub record AsyncRedb : Type 0 where
      pub db : T.Database
      pub is_running : Bool
      pub request_rx : Queue
      pub responses : List (ℕ × AsyncDbResult Boxed)
      pub next_tx : ℕ

    unfoldable pub with_queue_size : T.Database → ℕ → AsyncRedb
    with_queue_size db queue_size = record {
      db = db;
      is_running = true;
      request_rx = channel queue_size;
      responses = [];
      next_tx = 0;
    }

    unfoldable pub new : T.Database → AsyncRedb
    unfolding with_queue_size
    new db = with_queue_size db default_request_queue_size

    -- What the sending of `run` comes to; the state of a request that was sent has its number.
    pub data Sent : Type 0 where
      sent : AsyncRedb → Sent
      waits : Sent
      closed : AsyncDbError → Sent

    -- `run` up to `self.request_tx.send(request).await?`
    unfoldable pub send_request : DbRequestHandler → AsyncRedb → Sent
    send_request request s =
        if s.is_running
        then elim (try_send s.request_rx (record { request = request; response_tx = s.next_tx })) [
          | none ↦ waits
          | some queue ↦ sent (record s { request_rx = queue; next_tx = suc s.next_tx })
        ]
        else closed send_error

    -- A round of the thread's loop with the request that it has taken.
    unfoldable pub answer : GenericRequest → Queue → AsyncRedb → AsyncRedb
    unfolding handle_generic_request
    answer r queue s = elim (handle_generic_request r.request s.db) [
      | panic fault ↦ record s { is_running = false; request_rx = queue }
      | ok (result, db') ↦ record s {
        db = db';
        request_rx = queue;
        responses = (r.response_tx, result) ∷ s.responses;
      }
    ]

    -- A round of the thread's loop; `none` means that there is no thread, or that it waits.
    unfoldable pub serve_one : AsyncRedb → Option AsyncRedb
    unfolding answer
    serve_one s =
        if s.is_running
        then elim (try_recv s.request_rx) as (λ _. Option AsyncRedb) [
          | none ↦ none
          | some (r, queue) ↦ some (answer r queue s)
        ]
        else none

    -- The rest of `run`, for the receiver `n`; `none` means that it waits.
    unfoldable pub receive : (t : T.TypeId) → ℕ → AsyncRedb → Option (AsyncDbResult (T.Response t))
    unfolding downcast
    receive t n s =
        elim (find_response n s.responses) as (λ _. Option (AsyncDbResult (T.Response t))) [
          | some result ↦ some (downcast t result)
          | none ↦ if s.is_running then none else some (failure recv_error)
        ]
