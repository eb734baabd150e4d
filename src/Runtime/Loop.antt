-- ===== src/Runtime/Loop.antt =====
-- The loop of `execute_pending_operations_inner`, under the invariant.
use rust_experiments.Prelude.{
  ℕ, zero, suc, ◌+◌, ◌≤◌, ◌<◌, ◌≡◌, refl, sym, ap, subst, ◌∙◌, List, [], ◌∷◌, ◌++◌, All, some, none,
  ◌⊎◌, inl, inr, arith, append_assoc, append-nil,
}
use rust_experiments.Machine.{Build, ok}
use rust_experiments.Runtime.BinaryHeap.{BinaryHeap, TimestampedMaroonTask}
use rust_experiments.Runtime.Defs.{
  App, Written, run_operation, execute_one, execute_pending_operations_inner,
}
use rust_experiments.Runtime.Live.{
  Distinct, Live, operation, writers, work, lines_due, lines_of, Tracks, operations-Split,
}
use rust_experiments.Runtime.Rounds.{
  idle, due, take_due-Chosen, All-earliest, same_self, Round, round_lem,
}

-- The timestamps never fall, from `start` on.
abbrev pub IsChronological : ℕ → List Written → Type 0
IsChronological start [] = Unit
IsChronological start (w ∷ ws) = (start ≤ w.line.time) × IsChronological w.line.time ws

IsChronological-append :
    (start now : ℕ) (new rest : List Written)
    → start ≤ now
    → All (λ w. w.line.time ≡ now) new
    → IsChronological now rest
    → IsChronological start (new ++ rest)
IsChronological-append start now [] [] le stamped h = tt
IsChronological-append start now [] (w ∷ ws) le stamped h = (omega arith, h.1)
IsChronological-append start now (w ∷ ws) rest le stamped h =
    (omega arith, IsChronological-append w.line.time now ws rest (omega arith) stamped.1 h)

module _ (H : BinaryHeap) {b : Build} where
  module _ (ls : List (Live b)) (app : App H) (tracks : Tracks H b ls app) (cutoff : ℕ) where
    abbrev RunsOperation : TimestampedMaroonTask → H.Heap → List (Live b) → Type 0
    RunsOperation t rest ls =
        (app' : App H) × (run_operation H b t rest app ≡ ok app') × Round H cutoff ls app app'

    -- The operation that was taken belongs to one of the tasks.
    due_round :
        (t : TimestampedMaroonTask) (rest : H.Heap)
        → H.pop app.fsm.pending_operations ≡ some (t, rest)
        → t.scheduled_timestamp ≤ cutoff
        → RunsOperation t rest ls
    due_round t rest popped now =
        let counted = H.occurs-pop _ rest t popped t in
        let split = operations-Split t ls (omega (arith, counted, tracks.pending t, same_self t)) in
        let l = split.found in
        let whole = split.before ++ l ∷ split.after in
        let tracks' : Tracks H b whole app = subst (λ zs. Tracks H b zs app) split.parts tracks in
        let popped' : H.pop app.fsm.pending_operations ≡ some (operation l, rest) =
          rw split.is_found popped in
        let in_time : l.time ≤ cutoff =
          omega (arith, ap (λ u. u.scheduled_timestamp) split.is_found) in
        subst (λ u. RunsOperation u rest ls) split.is_found
          (subst (RunsOperation (operation l) rest) (sym split.parts) (
            round_lem H app rest split.before split.after l tracks' popped' cutoff in_time
              (All-earliest H whole app tracks' (operation l) rest popped')))

    abbrev pub RoundResult : Type 0
    RoundResult =
        ((execute_one H b cutoff app ≡ ok none) × All (λ l. cutoff < l.time) ls)
        ⊎ ((app' : App H) × (execute_one H b cutoff app ≡ ok (some app'))
            × Round H cutoff ls app app')

    -- A round never panics: nothing is due, or one task takes one of the steps that it has left.
    pub execute_one_lem : RoundResult
    unfolding execute_one
    execute_one_lem = elim (take_due-Chosen H ls app tracks cutoff) [
      | idle e later ↦ inl (rw (e, execute_one), later)
      | due t rest e popped now ↦
          let (app', ran, round) = due_round t rest popped now in
          inr (app', rw (e, execute_one, ran), round)
    ]

  -- What the loop leaves when it returns. Each round but the one that ends it makes one step, so that it
  -- ends in the round `last`, counted from 0, if it has made `last` steps.
  pub record Returned (clock : ℕ → ℕ) (start : ℕ) (ls : List (Live b)) (app app' : App H)
      : Type 0 where
    pub live : List (Live b)
    pub tracks : Tracks H b live app'
    pub last : ℕ
    pub rounds : work ls ≡ last + work live
    pub nothing_due : All (λ l. clock last < l.time) live
    pub fresh_lines : List Written
    pub written : app'.written ≡ app.written ++ fresh_lines
    pub chronological : IsChronological start fresh_lines
    pub limits_kept : (c : ℕ) → All (λ l. l.limit ≤ c) ls → All (λ l. l.limit ≤ c) live
    pub writers_kept : Distinct (writers ls) → Distinct (writers live)
    pub promised :
        Distinct (writers ls)
        → (w : ℕ)
        → lines_of w app'.written ++ lines_due w live ≡ lines_of w app.written ++ lines_due w ls

  abbrev pub Returns : ℕ → (ℕ → ℕ) → ℕ → List (Live b) → App H → Type 0
  Returns fuel clock start ls app =
      (app' : App H) × (execute_pending_operations_inner H b fuel clock app ≡ some (ok app'))
      × Returned clock start ls app app'

  idle-Returned :
      (clock : ℕ → ℕ) (start : ℕ) (ls : List (Live b)) (app : App H)
      → Tracks H b ls app
      → All (λ l. clock 0 < l.time) ls
      → Returned clock start ls app app
  idle-Returned clock start ls app tracks later = record {
    live = ls;
    tracks = tracks;
    last = 0;
    rounds = omega arith;
    nothing_due = later;
    fresh_lines = [];
    written = sym (append-nil app.written);
    chronological = tt;
    limits_kept = λ c h. h;
    writers_kept = λ d. d;
    promised = λ d w. refl;
  }

  Round-Returned :
      (clock : ℕ → ℕ) (start : ℕ) (ls : List (Live b)) (app app' app'' : App H)
      (r : Round H (clock 0) ls app app')
      → start ≤ r.now
      → Returned (λ k. clock (suc k)) r.now r.live app' app''
      → Returned clock start ls app app''
  Round-Returned clock start ls app app' app'' r le q = record {
    live = q.live;
    tracks = q.tracks;
    last = suc q.last;
    rounds = omega (arith, r.less, q.rounds);
    nothing_due = q.nothing_due;
    fresh_lines = r.fresh_lines ++ q.fresh_lines;
    written = q.written ∙ ap (λ ws. ws ++ q.fresh_lines) r.written ∙ append_assoc app.written _ _;
    chronological = IsChronological-append start r.now r.fresh_lines _ le r.stamped q.chronological;
    limits_kept = λ c h. q.limits_kept c (r.limits_kept c h);
    writers_kept = λ d. q.writers_kept (r.writers_kept d);
    promised = λ d w. q.promised (r.writers_kept d) w ∙ r.promised d w;
  }

  -- With more fuel than there is work left the loop returns.
  pub loop-Returns :
      (fuel : ℕ) (clock : ℕ → ℕ) (start : ℕ) (ls : List (Live b)) (app : App H)
      → Tracks H b ls app
      → work ls < fuel
      → All (λ l. start ≤ l.time) ls
      → Returns fuel clock start ls app
  unfolding execute_pending_operations_inner
  loop-Returns zero clock start ls app tracks enough early = absurd (omega arith)
  loop-Returns (suc fuel) clock start ls app tracks enough early =
      elim (execute_one_lem ls app tracks (clock 0)) [
        | inl (e, later) ↦ (
          app,
          rw (e, execute_pending_operations_inner),
          idle-Returned clock start ls app tracks later,
        )
        | inr (app', e, r) ↦
            let (app'', ran, q) =
              loop-Returns fuel (λ k. clock (suc k)) r.now r.live app' r.tracks
                (omega (arith, r.less)) r.not_before in
            (
              app'',
              rw (e, execute_pending_operations_inner) ran,
              Round-Returned clock start ls app app' app'' r (r.begins start early) q,
            )
      ]
