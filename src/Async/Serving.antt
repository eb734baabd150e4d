-- ===== src/Async/Serving.antt =====
-- A round of the database's thread keeps what holds of the queue.
use rust_experiments.Prelude.{
  ℕ, ◌≤◌, ◌<◌, ◌≡◌, refl, sym, ap, subst, ◌∙◌, List, [], ◌∷◌, ◌++◌, append_assoc, none, some, true,
  false, ◌⊎◌, inl, inr, take, get_elem?, get_elem?-cases, get_elem?-lt, get_elem?-at, length,
  length-append, eq→==, ne→==, arith,
}
use rust_experiments.Machine.{Fault, ok, panic, Outcome-cases}
use rust_experiments.Async.Channel.{Channel}
use rust_experiments.Async.Defs.{
  Types, AsyncDbResult, boxed, GenericRequest, handle_generic_request, AsyncRedb, answer, serve_one,
  find_response,
}
use rust_experiments.Async.Serial.{
  take-append, take-length, result_of, serial, serial-last, reply_after, reply_after-serial,
}
use rust_experiments.Async.Invariant.{History, Thread, runs, ended, Answers, Consistent}

module _ (T : Types) (C : Channel (GenericRequest T)) (db₀ : T.Database) (n : ℕ)
    (history : History T C db₀ n) (s : AsyncRedb T C) (h : Consistent T C db₀ n history s) where
  abbrev Kept : AsyncRedb T C → Type 0
  Kept s' = Consistent T C db₀ n history s'

  -- A round with the first request that waits.
  module _ (r : GenericRequest T) (more : List (GenericRequest T)) (split : h.rest ≡ r ∷ more)
      (ser : serial T h.handled db₀ ≡ some s.db) (q : C.Queue) (left : C.waiting q ≡ more)
      (cap : C.capacity q ≡ C.capacity s.request_rx) (within : length more ≤ n)
      (running : s.is_running ≡ true) where
    number_of : r.response_tx ≡ length h.handled
    number_of = h.numbered (length h.handled) r (
        ap (λ zs. get_elem? zs (length h.handled)) (h.splits ∙ ap (λ zs. h.handled ++ zs) split)
        ∙ get_elem?-at h.handled more r)

    crashed-Consistent :
        (fault : Fault)
        → r.request.handle s.db ≡ panic fault
        → Kept (record s { is_running = false; request_rx = q })
    crashed-Consistent fault e = record {
      handled = h.handled;
      rest = h.rest;
      splits = h.splits;
      thread = ended refl r more s.db fault split ser e;
      answers = h.answers;
      unanswered = h.unanswered;
      numbered = h.numbered;
      next = h.next;
      keeps_capacity = cap ∙ h.keeps_capacity;
      in_capacity = omega (arith, ap length left);
    }

    module _ (result : AsyncDbResult T (T.Response r.request.type_id)) (db' : T.Database)
        (e : r.request.handle s.db ≡ ok (result, db')) where
      abbrev answered : AsyncRedb T C
      answered = record s {
        db = db';
        request_rx = q;
        responses = (r.response_tx, boxed T r.request.type_id result) ∷ s.responses;
      }

      reply_is :
          reply_after T (take (length h.handled) (h.handled ++ r ∷ [])) r.request db₀ ≡ result
      reply_is =
          ap (λ before. reply_after T before r.request db₀)
            (take-append h.handled (r ∷ []) (length h.handled) (omega arith)
              ∙ take-length h.handled)
          ∙ reply_after-serial T h.handled r.request db₀ s.db ser
          ∙ ap (λ outcome. result_of T outcome) e

      -- The answer to `p` in place `k`.
      abbrev Answered : ℕ → GenericRequest T → Type 0
      Answered k p =
          find_response T k answered.responses
          ≡ some (
              boxed T p.request.type_id
                (reply_after T (take k (h.handled ++ r ∷ [])) p.request db₀))

      Answered-here : Answered (length h.handled) r
      Answered-here =
          rw (eq→== r.response_tx (length h.handled) number_of)
            (ap (λ x. some (boxed T r.request.type_id x)) (sym reply_is))

      Answered-before :
          (k : ℕ) (p : GenericRequest T) → get_elem? h.handled k ≡ some p → Answered k p
      Answered-before k p found =
          let before : k < length h.handled = get_elem?-lt h.handled k p found in
          rw (ne→== r.response_tx k (λ same. omega (arith, before, number_of))) (
            h.answers k p found
            ∙ ap (λ zs. some (boxed T p.request.type_id (reply_after T zs p.request db₀)))
                (sym (take-append h.handled (r ∷ []) k (omega arith))))

      answered-Answers : Answers T C db₀ n (h.handled ++ r ∷ []) answered
      answered-Answers k p found = elim (get_elem?-cases h.handled r k p found) [
        | inl (here, same) ↦
            subst (Answered k) same (subst (λ j. Answered j r) (sym here) Answered-here)
        | inr before ↦ Answered-before k p before
      ]

      answered-Consistent : Kept answered
      answered-Consistent = record {
        handled = h.handled ++ r ∷ [];
        rest = more;
        splits =
            h.splits
            ∙ ap (λ zs. h.handled ++ zs) split
            ∙ sym (append_assoc h.handled (r ∷ []) more);
        thread = runs running left (serial-last T h.handled r db₀ s.db db' result ser e);
        answers = answered-Answers;
        unanswered = λ k le.
            let longer = length-append h.handled (r ∷ []) in
            rw (ne→== r.response_tx k (λ same. omega (arith, longer, le, number_of)))
              (h.unanswered k (omega (arith, longer)));
        numbered = h.numbered;
        next = h.next;
        keeps_capacity = cap ∙ h.keeps_capacity;
        in_capacity = omega (arith, ap length left);
      }

    -- What a round leaves: the request has been taken from the queue.
    abbrev Served : AsyncRedb T C → Type 0
    Served s' = Kept s' × (C.waiting s'.request_rx ≡ more)

    answer-Served : Served (answer T C r q s)
    unfolding answer handle_generic_request
    answer-Served = elim (Outcome-cases (r.request.handle s.db)) [
      | inl (fault, e) ↦ rw (answer, handle_generic_request, e) (crashed-Consistent fault e, left)
      | inr ((result, db'), e) ↦
          rw (answer, handle_generic_request, e) (answered-Consistent result db' e, left)
    ]

  -- A round that is made takes the first request; where none is made, the thread waits or has ended.
  pub data Round : Type 0 where
    stays : serve_one T C s ≡ none → (s.is_running ≡ false) ⊎ (C.waiting s.request_rx ≡ []) → Round
    serves :
        (s' : AsyncRedb T C) (r : GenericRequest T) (more : List (GenericRequest T))
        → serve_one T C s ≡ some s'
        → C.waiting s.request_rx ≡ r ∷ more
        → C.waiting s'.request_rx ≡ more
        → Kept s'
        → Round

  round_runs :
      (waiting rest : List (GenericRequest T))
      → C.waiting s.request_rx ≡ waiting
      → h.rest ≡ waiting
      → s.is_running ≡ true
      → serial T h.handled db₀ ≡ some s.db
      → Round
  unfolding serve_one
  round_runs [] rest order same running ser =
      stays (rw (serve_one, running, C.recv_empty s.request_rx order)) (inr order)
  round_runs (r ∷ more) rest order same running ser =
      let (q, got, left, cap) = C.recv_first s.request_rx r more order in
      let within : length more ≤ n = omega (arith, h.in_capacity, ap length order) in
      let (kept, after) = answer-Served r more same ser q left cap within running in
      serves (answer T C r q s) r more (simp (serve_one, running, got)) order after kept

  round_thread :
      (rest : List (GenericRequest T)) → h.rest ≡ rest → Thread T C db₀ n s h.handled rest → Round
  unfolding serve_one
  round_thread rest same (runs running order ser) = round_runs rest rest order same running ser
  round_thread rest same (ended off r more db fault split ser crash) =
      stays (rw (serve_one, off)) (inl off)

  pub round_lem : Round
  round_lem = round_thread h.rest refl h.thread
