-- ===== src/Async/Answers.antt =====
-- What `run` gives to a sender, however the senders and the thread interleave.
use mathlib.Core.Option.{some-injective}
use rust_experiments.Prelude.{
  ℕ, zero, suc, ◌+◌, ◌≤◌, ◌<◌, ◌≡◌, refl, sym, ap, subst, ◌∙◌, List, [], ◌∷◌, ◌++◌, Option, none,
  some, true, false, ◌⊎◌, inl, inr, take, get_elem?, length, arith, get_elem?-left, get_elem?-at,
  Bool-cases, ◌==◌, ==→ne, ==→eq, ltb, ltb→lt, get_elem?-lt, length-append,
}
use rust_experiments.Machine.{Fault, panic}
use rust_experiments.Async.Channel.{Channel}
use rust_experiments.Async.Defs.{
  Types, AsyncDbResult, failure, recv_error, DbRequestHandler, GenericRequest, AsyncRedb,
  with_queue_size, sent, send_request, serve_one, receive, waits,
}
use rust_experiments.Async.Downcast.{downcast-boxed}
use rust_experiments.Async.Serial.{
  take-append, take-past, serial, reply_after, reply_after-panic, reply_after-serial, result_of,
  take-length,
}
use rust_experiments.Async.Invariant.{
  Thread, runs, ended, Consistent, with_queue_size-Consistent, send_request-Consistent, ltb-false,
  after_send,
}
use rust_experiments.Async.Serving.{stays, serves, round_lem}

empty_list {ℓ} : {A : Type ℓ} (xs : List A) → length xs ≤ 0 → xs ≡ []
empty_list [] h = refl
empty_list (x ∷ xs) h = absurd (omega arith)

module _ (T : Types) (C : Channel (GenericRequest T)) (db₀ : T.Database) (n : ℕ) where
  -- The states that senders and the thread reach, in any interleaving, with the requests that were
  -- sent, in the order of sending.
  pub data Reachable : List (GenericRequest T) → AsyncRedb T C → Type 0 where
    starts : {s : AsyncRedb T C} → s ≡ with_queue_size T C db₀ n → Reachable [] s
    sends :
        {history history' : List (GenericRequest T)} {s s' : AsyncRedb T C}
        → Reachable history s
        → (request : DbRequestHandler T) → send_request T C request s ≡ sent s'
        → history' ≡ history ++ record { request = request; response_tx = s.next_tx } ∷ []
        → Reachable history' s'
    handles :
        {history : List (GenericRequest T)} {s s' : AsyncRedb T C}
        → Reachable history s
        → serve_one T C s ≡ some s'
        → Reachable history s'

  abbrev Kept : List (GenericRequest T) → AsyncRedb T C → Type 0
  Kept = Consistent T C db₀ n

  serve_one-Kept :
      (history : List (GenericRequest T)) (s s' : AsyncRedb T C)
      → Kept history s
      → serve_one T C s ≡ some s'
      → Kept history s'
  serve_one-Kept history s s' h e = elim (round_lem T C db₀ n history s h) [
    | stays e' why ↦ absurd (cc (e, e'))
    | serves s'' r more e' order left kept ↦
        subst (Kept history) (some-injective s'' s' (sym e' ∙ e)) kept
  ]

  Reachable-Kept :
      {history : List (GenericRequest T)} {s : AsyncRedb T C} → Reachable history s → Kept history s
  Reachable-Kept (starts e) = subst (Kept []) (sym e) (with_queue_size-Consistent T C db₀ n)
  Reachable-Kept (sends {history} {history'} {s} {s'} r request e e') =
      subst (λ zs. Kept zs s') (sym e')
        (send_request-Consistent T C db₀ n history s (Reachable-Kept r) request s' e)
  Reachable-Kept (handles {history} {s} {s'} r e) = serve_one-Kept history s s' (Reachable-Kept r) e

  -- What is stated of a request `r` that was sent as the `k`-th.
  module _ (history : List (GenericRequest T)) (s : AsyncRedb T C) (h : Kept history s) (k : ℕ)
      (r : GenericRequest T) (found : get_elem? history k ≡ some r) where
    abbrev serial_reply : AsyncDbResult T (T.Response r.request.type_id)
    serial_reply = reply_after T (take k history) r.request db₀

    abbrev received : Option (AsyncDbResult T (T.Response r.request.type_id))
    received = receive T C r.request.type_id k s

    received-handled : k < length h.handled → received ≡ some serial_reply
    unfolding receive
    received-handled lt =
        let here : get_elem? h.handled k ≡ some r =
          sym (get_elem?-left h.handled h.rest k lt)
          ∙ ap (λ zs. get_elem? zs k) (sym h.splits)
          ∙ found in
        let same : take k history ≡ take k h.handled =
          ap (take k) h.splits ∙ take-append h.handled h.rest k (omega arith) in
        rw (receive, h.answers k r here)
          (ap some (
            downcast-boxed T r.request.type_id _
            ∙ ap (λ zs. reply_after T zs r.request db₀) (sym same)))

    -- After a panic.
    serial_reply-ended :
        (q : GenericRequest T) (more : List (GenericRequest T)) (db : T.Database) (fault : Fault)
        → history ≡ h.handled ++ q ∷ more
        → serial T h.handled db₀ ≡ some db
        → q.request.handle db ≡ panic fault
        → length h.handled ≤ k
        → serial_reply ≡ failure recv_error
    serial_reply-ended q more db fault split ser crash le =
        elim (Bool-cases (length h.handled == k)) [
          | inl last ↦
              let here = ==→eq (length h.handled) k last in
              let same : q ≡ r = some-injective q r (
                sym (get_elem?-at h.handled more q)
                ∙ ap (λ zs. get_elem? zs (length h.handled)) (sym split)
                ∙ ap (get_elem? history) here
                ∙ found) in
              let before : take k history ≡ h.handled =
                ap (λ j. take j history) (sym here)
                ∙ ap (take (length h.handled)) split
                ∙ take-append h.handled (q ∷ more) (length h.handled) (omega arith)
                ∙ take-length h.handled in
              ap (λ zs. reply_after T zs r.request db₀) before
              ∙ reply_after-serial T h.handled r.request db₀ db ser
              ∙ subst (λ p. result_of T (p.request.handle db) ≡ failure recv_error) same
                  (ap (λ outcome. result_of T outcome) crash)
          | inr past ↦
              let (zs, e) = take-past h.handled more q k (omega (arith, ==→ne _ _ past)) in
              ap (λ before. reply_after T before r.request db₀) (ap (take k) split ∙ e)
              ∙ reply_after-panic T h.handled zs q r.request db₀ db fault ser crash
        ]

    -- The receiver waits, while the thread runs and requests wait; or it has its answer.
    abbrev pub IsAnswered : Type 0
    IsAnswered =
        ((received ≡ none) × (s.is_running ≡ true) × (0 < length (C.waiting s.request_rx)))
        ⊎ (received ≡ some serial_reply)

    received-unanswered :
        (rest : List (GenericRequest T))
        → h.rest ≡ rest
        → Thread T C db₀ n s h.handled rest
        → length h.handled ≤ k
        → IsAnswered
    unfolding receive
    received-unanswered rest same (runs running order ser) le =
        let longer : length history ≡ length h.handled + length rest =
          ap length (h.splits ∙ ap (λ zs. h.handled ++ zs) same) ∙ length-append h.handled rest in
        inl (
          rw (receive, h.unanswered k le, running),
          running,
          omega (arith, longer, get_elem?-lt history k r found, le, ap length order),
        )
    received-unanswered rest same (ended off q more db fault split ser crash) le =
        let whole = h.splits ∙ ap (λ zs. h.handled ++ zs) (same ∙ split) in
        inr (
          rw (receive, h.unanswered k le, off)
            (ap some (sym (serial_reply-ended q more db fault whole ser crash le))))

    received-IsAnswered : IsAnswered
    received-IsAnswered = elim (Bool-cases (ltb k (length h.handled))) [
      | inl early ↦ inr (received-handled (ltb→lt _ _ early))
      | inr late ↦ received-unanswered h.rest refl h.thread (ltb-false _ _ late)
    ]

  -- In every state that senders and the thread reach from a database with a queue of `n`, in any
  -- interleaving: the `k`-th request that was sent has either got the answer that it gets if the
  -- requests before it, and then it, are handled one after the other with no queue, a panic among
  -- them being an error for it and for all later ones; or its receiver waits, while the thread runs
  -- and requests are in the queue.
  pub receive-serial :
      (history : List (GenericRequest T)) (s : AsyncRedb T C) (k : ℕ) (r : GenericRequest T)
      → Reachable history s
      → get_elem? history k ≡ some r
      → ((receive T C r.request.type_id k s ≡ none)
          × (s.is_running ≡ true)
          × (0 < length (C.waiting s.request_rx)))
        ⊎ (receive T C r.request.type_id k s ≡ some (reply_after T (take k history) r.request db₀))
  receive-serial history s k r reachable found =
      received-IsAnswered history s (Reachable-Kept reachable) k r found

  -- Rounds of the thread, up to `m`, with no new request.
  unfoldable pub drain : ℕ → AsyncRedb T C → AsyncRedb T C
  drain zero s = s
  drain (suc m) s = elim (serve_one T C s) as (λ _. AsyncRedb T C) [
    | none ↦ s
    | some s' ↦ drain m s'
  ]

  drain-Kept :
      (m : ℕ) (history : List (GenericRequest T)) (s : AsyncRedb T C)
      → Kept history s
      → length (C.waiting s.request_rx) ≤ m
      → Kept history (drain m s)
        × (((drain m s).is_running ≡ false) ⊎ (C.waiting (drain m s).request_rx ≡ []))
  unfolding drain
  drain-Kept zero history s h le = (h, inr (empty_list (C.waiting s.request_rx) le))
  drain-Kept (suc m) history s h le = elim (round_lem T C db₀ n history s h) [
    | stays e why ↦ rw (drain, e) (h, why)
    | serves s' r more e order left kept ↦
        rw (drain, e)
          (drain-Kept m history s' kept (omega (arith, ap length order, ap length left, le)))
  ]

  -- In every such state, as many rounds of the thread as there are requests in the queue give every
  -- request that was sent its answer, and it is the one of the serial order: no sender waits for
  -- ever, whether or not a request panics.
  pub drain-answers :
      (history : List (GenericRequest T)) (s : AsyncRedb T C) (k : ℕ) (r : GenericRequest T)
      → Reachable history s
      → get_elem? history k ≡ some r
      → receive T C r.request.type_id k (drain (length (C.waiting s.request_rx)) s)
        ≡ some (reply_after T (take k history) r.request db₀)
  drain-answers history s k r reachable found =
      let m = length (C.waiting s.request_rx) in
      let (kept, done) = drain-Kept m history s (Reachable-Kept reachable) (omega arith) in
      elim (received-IsAnswered history (drain m s) kept k r found) [
        | inr answered ↦ answered
        | inl (nothing, running, waiting) ↦ elim done [
          | inl off ↦ absurd (cc (running, off))
          | inr empty ↦ absurd (omega (arith, waiting, ap length empty))
        ]
      ]

  -- In every such state in which the thread runs: the queue holds `n` requests, and the sender of one
  -- more waits; or it holds fewer, and one more is sent.
  pub send_request-room :
      (history : List (GenericRequest T)) (s : AsyncRedb T C) (request : DbRequestHandler T)
      → Reachable history s
      → s.is_running ≡ true
      → ((length (C.waiting s.request_rx) ≡ n) × (send_request T C request s ≡ waits))
        ⊎ ((length (C.waiting s.request_rx) < n)
            × (s' : AsyncRedb T C) × (send_request T C request s ≡ sent s'))
  unfolding send_request
  send_request-room history s request reachable running =
      let h = Reachable-Kept reachable in
      let r : GenericRequest T = record { request = request; response_tx = s.next_tx } in
      let m = length (C.waiting s.request_rx) in
      elim (Bool-cases (ltb m n)) [
        | inl room ↦
            let (q, e, _, _) =
              C.send_room s.request_rx r (omega (arith, ltb→lt m n room, h.keeps_capacity)) in
            inr (
              ltb→lt m n room,
              after_send T C db₀ n history s h request q,
              simp (send_request, running, e),
            )
        | inr full ↦
            let le = ltb-false m n full in
            let none_taken = C.send_full s.request_rx r (omega (arith, le, h.keeps_capacity)) in
            inl (omega (arith, le, h.in_capacity), rw (send_request, running, none_taken))
      ]
