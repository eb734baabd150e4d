-- ===== src/Async/Invariant.antt =====
-- What holds in every state of the queue, however the senders and the thread interleave.
use mathlib.Core.Option.{some-injective}
use rust_experiments.Prelude.{
  ℕ, suc, ◌≤◌, ◌≡◌, refl, sym, ap, subst, ◌∙◌, List, [], ◌∷◌, ◌++◌, append_assoc, none, some, true,
  false, inl, inr, take, get_elem?, length, length-append, Bool-cases, Option-cases, arith,
  get_elem?-cases, ltb, ltb→lt,
}
use rust_experiments.Machine.{Fault, panic}
use rust_experiments.Async.Channel.{Channel}
use rust_experiments.Async.Defs.{
  Types, boxed, DbRequestHandler, GenericRequest, AsyncRedb, with_queue_size, sent, send_request,
  find_response,
}
use rust_experiments.Async.Serial.{serial, reply_after}

pub ltb-false : (a b : ℕ) → ltb a b ≡ false → b ≤ a
ltb-false a b e = ground arith

module _ (T : Types) (C : Channel (GenericRequest T)) (db₀ : T.Database) (n : ℕ) where
  sent-injective : {s s' : AsyncRedb T C} → sent s ≡ sent s' → s ≡ s'
  sent-injective e = cc

  abbrev pub History : Type 0
  History = List (GenericRequest T)

  -- The thread runs, and what it has not handled waits; or a request that panicked has ended it.
  pub data Thread (s : AsyncRedb T C) (handled rest : History) : Type 0 where
    runs :
        s.is_running ≡ true
        → C.waiting s.request_rx ≡ rest
        → serial T handled db₀ ≡ some s.db
        → Thread s handled rest
    ended :
        s.is_running ≡ false
        → (r : GenericRequest T) (more : History) (db : T.Database) (fault : Fault)
        → rest ≡ r ∷ more
        → serial T handled db₀ ≡ some db
        → r.request.handle db ≡ panic fault
        → Thread s handled rest

  -- The answers to the requests that were handled are those of the serial order.
  abbrev pub Answers : History → AsyncRedb T C → Type 0
  Answers handled s =
      (k : ℕ) (r : GenericRequest T)
      → get_elem? handled k ≡ some r
      → find_response T k s.responses
        ≡ some (boxed T r.request.type_id (reply_after T (take k handled) r.request db₀))

  -- The numbers of the requests count them.
  abbrev pub Numbered : History → Type 0
  Numbered history =
      (k : ℕ) (r : GenericRequest T) → get_elem? history k ≡ some r → r.response_tx ≡ k

  pub record Consistent (history : History) (s : AsyncRedb T C) : Type 0 where
    pub handled : History
    pub rest : History
    pub splits : history ≡ handled ++ rest
    pub thread : Thread s handled rest
    pub answers : Answers handled s
    pub unanswered : (k : ℕ) → length handled ≤ k → find_response T k s.responses ≡ none
    pub numbered : Numbered history
    pub next : s.next_tx ≡ length history
    pub keeps_capacity : C.capacity s.request_rx ≡ n
    pub in_capacity : length (C.waiting s.request_rx) ≤ n

  pub with_queue_size-Consistent : Consistent [] (with_queue_size T C db₀ n)
  unfolding with_queue_size serial
  with_queue_size-Consistent = record {
    handled = [];
    rest = [];
    splits = refl;
    thread = runs refl (C.waiting-channel n) refl;
    answers = λ k r e. cc;
    unanswered = λ k le. refl;
    numbered = λ k r e. cc;
    next = refl;
    keeps_capacity = C.capacity-channel n;
    in_capacity = omega (arith, ap length (C.waiting-channel n));
  }

  module _ (history : History) (s : AsyncRedb T C) (h : Consistent history s) where
    abbrev pub request_of : DbRequestHandler T → GenericRequest T
    request_of request = record { request = request; response_tx = s.next_tx }

    request_of-Numbered :
        (request : DbRequestHandler T) → Numbered (history ++ request_of request ∷ [])
    request_of-Numbered request k r e = elim (get_elem?-cases history (request_of request) k r e) [
      | inl (here, same) ↦ ap (λ q. q.response_tx) (sym same) ∙ h.next ∙ sym here
      | inr before ↦ h.numbered k r before
    ]

    -- The queue has room, if it takes a request.
    taken :
        (r : GenericRequest T) (q : C.Queue)
        → C.try_send s.request_rx r ≡ some q
        → (C.waiting q ≡ C.waiting s.request_rx ++ r ∷ [])
          × (C.capacity q ≡ n)
          × (length (C.waiting q) ≤ n)
    taken r q e =
        elim (Bool-cases (ltb (length (C.waiting s.request_rx)) (C.capacity s.request_rx))) [
          | inl room ↦
              let (q', e', waits', cap) = C.send_room s.request_rx r (ltb→lt _ _ room) in
              let same : q' ≡ q = some-injective q' q (sym e' ∙ e) in
              let longer : C.waiting q ≡ C.waiting s.request_rx ++ r ∷ [] =
                ap C.waiting (sym same) ∙ waits' in
              (
                longer,
                ap C.capacity (sym same) ∙ cap ∙ h.keeps_capacity,
                omega (
                  arith,
                  ltb→lt _ _ room,
                  h.keeps_capacity,
                  ap length longer,
                  length-append (C.waiting s.request_rx) (r ∷ []),
                ),
              )
          | inr full ↦ absurd (cc (C.send_full s.request_rx r (ltb-false _ _ full), e))
        ]

    abbrev pub after_send : DbRequestHandler T → C.Queue → AsyncRedb T C
    after_send request q = record s { request_rx = q; next_tx = suc s.next_tx }

    after_send-Thread :
        (request : DbRequestHandler T) (q : C.Queue) (handled rest : History)
        → C.waiting q ≡ C.waiting s.request_rx ++ request_of request ∷ []
        → Thread s handled rest
        → Thread (after_send request q) handled (rest ++ request_of request ∷ [])
    after_send-Thread request q handled rest longer (runs running order ser) =
        runs running (longer ∙ ap (λ zs. zs ++ request_of request ∷ []) order) ser
    after_send-Thread request q handled rest longer (ended e r more db fault split ser crash) =
        ended e r (more ++ request_of request ∷ []) db fault
          (ap (λ zs. zs ++ request_of request ∷ []) split) ser crash

    after_send-Consistent :
        (request : DbRequestHandler T) (q : C.Queue)
        → C.try_send s.request_rx (request_of request) ≡ some q
        → Consistent (history ++ request_of request ∷ []) (after_send request q)
    after_send-Consistent request q e =
        let (longer, cap, bound) = taken (request_of request) q e in
        record {
          handled = h.handled;
          rest = h.rest ++ request_of request ∷ [];
          splits =
              ap (λ zs. zs ++ request_of request ∷ []) h.splits
              ∙ append_assoc h.handled h.rest (request_of request ∷ []);
          thread = after_send-Thread request q h.handled h.rest longer h.thread;
          answers = h.answers;
          unanswered = h.unanswered;
          numbered = request_of-Numbered request;
          next = ap suc h.next ∙ omega (arith, length-append history (request_of request ∷ []));
          keeps_capacity = cap;
          in_capacity = bound;
        }

    pub send_request-Consistent :
        (request : DbRequestHandler T) (s' : AsyncRedb T C)
        → send_request T C request s ≡ sent s'
        → Consistent (history ++ request_of request ∷ []) s'
    unfolding send_request
    send_request-Consistent request s' e = elim (Bool-cases s.is_running) [
      | inl on ↦ elim (Option-cases (C.try_send s.request_rx (request_of request))) [
        | inl full ↦ absurd (cc (rw (send_request, on, full) at e))
        | inr (q, f) ↦
            let same : after_send request q ≡ s' = sent-injective (rw (send_request, on, f) at e) in
            subst (Consistent (history ++ request_of request ∷ [])) same
              (after_send-Consistent request q f)
      ]
      | inr off ↦ absurd (cc (rw (send_request, off) at e))
    ]
