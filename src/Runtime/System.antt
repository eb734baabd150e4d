-- ===== src/Runtime/System.antt =====
-- The whole program as interleaved steps: requests that arrive, and rounds of the loop. The lock on
-- the runtime makes each of them one step.
use rust_experiments.Prelude.{
  ℕ, ◌+◌, ◌≤◌, ◌<◌, ◌≡◌, ◌≢◌, refl, sym, ap, subst, ◌∙◌, List, [], ◌∷◌, All, All-map, some, inl,
  inr, arith,
}
use rust_experiments.Machine.{Build, ok-injective, Fault, ok, panic, u64_modulus, add64-eq-ok}
use rust_experiments.Maroon.TaskStep.{MaroonTask}
use rust_experiments.Maroon.Runs.{Runs, Line}
use rust_experiments.Runtime.BinaryHeap.{BinaryHeap}
use rust_experiments.Runtime.Defs.{
  App, new_app, schedule, insert, execute_one, execute_pending_operations_inner,
}
use rust_experiments.Runtime.Handlers.{
  Request, delay, divisors, fibonacci, factorial_of, task_of, Fits, Request-Runs, handle,
  delay_handler_ws, divisors_handler_ws, fibonacci_handler_ws, factorial_handler_ws,
}
use rust_experiments.Runtime.Live.{NotIn, Live, operation, ids, work, Tracks, discard-absent}
use rust_experiments.Runtime.Loop.{execute_one_lem, loop-Returns}

NotIn-fresh : {b : Build} (k : ℕ) (ls : List (Live b)) → All (λ l. l.id < k) ls → NotIn k (ids ls)
NotIn-fresh k [] h = tt
NotIn-fresh k (l ∷ ls) h = ((λ e. omega arith), NotIn-fresh k ls h.1)

pub All-zero : {b : Build} (ls : List (Live b)) → All (λ l. 0 ≤ l.time) ls
All-zero [] = tt
All-zero (l ∷ ls) = (omega arith, All-zero ls)

module _ (H : BinaryHeap) (b : Build) where
  pub new_app-Tracks : Tracks H b [] (new_app H)
  new_app-Tracks = record { active = refl; pending = H.occurs-new; distinct = tt; fresh = tt }

  module _ (ls : List (Live b)) (app : App H) (tracks : Tracks H b ls app) (time limit n : ℕ)
      (task : MaroonTask) (lines : List Line) (runs : Runs b limit n time task lines) where
    abbrev pub scheduled : Live b
    scheduled = record {
      id = app.fsm.task_id_generator.next_task_id;
      time = time;
      task = task;
      limit = limit;
      steps_left = n;
      lines_left = lines;
      runs = runs;
    }

    abbrev after_schedule : App H
    after_schedule =
        let id = app.fsm.task_id_generator.next_task_id in
        record app {
          fsm = record {
            task_id_generator = record { next_task_id = id + 1 };
            pending_operations = H.push app.fsm.pending_operations (operation scheduled);
            active_tasks = insert id task app.fsm.active_tasks;
          };
        }

    -- For a runtime that holds the tasks of `ls`, each with one pending operation, and a task that
    -- runs from `time` on: while the next task id and its successor are below 2^64, `schedule`
    -- succeeds; the runtime then holds the new task too, under the id that was next, with its
    -- operation at `time`; the next id is one more, and nothing is written.
    pub schedule-Tracks :
        app.fsm.task_id_generator.next_task_id + 1 < u64_modulus
        → (app' : App H) × (schedule H b task time app ≡ ok app')
          × Tracks H b (scheduled ∷ ls) app'
          × (app'.written ≡ app.written)
          × (app'.fsm.task_id_generator.next_task_id ≡ app.fsm.task_id_generator.next_task_id + 1)
    unfolding schedule
    schedule-Tracks room =
        let id = app.fsm.task_id_generator.next_task_id in
        let absent = NotIn-fresh id ls tracks.fresh in
        (
          after_schedule,
          rw (add64-eq-ok b id 1 room),
          record {
            active = rw tracks.active (ap (λ m. (id, task) ∷ m) (discard-absent id ls absent));
            pending = λ u. omega (
              arith,
              H.occurs-push app.fsm.pending_operations (operation scheduled) u,
              tracks.pending u,
            );
            distinct = (absent, tracks.distinct);
            fresh = (omega arith, All-map (λ l h. omega arith) ls tracks.fresh);
          },
          refl,
          refl,
        )

  -- One step of the program. A request arrives at any time, with any writer.
  pub data SystemStep (app app' : App H) : Type 0 where
    arrives :
        (r : Request) (writer time : ℕ)
        → Fits time r
        → app.fsm.task_id_generator.next_task_id + 1 < u64_modulus
        → handle H b writer time r app ≡ ok app'
        → SystemStep app app'
    executes : (cutoff : ℕ) → execute_one H b cutoff app ≡ ok (some app') → SystemStep app app'

  pub data Reachable : App H → Type 0 where
    starts : Reachable (new_app H)
    goes_on : {app app' : App H} → Reachable app → SystemStep app app' → Reachable app'

  pub handle-schedule :
      (writer time : ℕ) (r : Request) (app : App H)
      → handle H b writer time r app ≡ schedule H b (task_of writer r) time app
  unfolding delay_handler_ws divisors_handler_ws fibonacci_handler_ws factorial_handler_ws
  handle-schedule writer time (delay t s) app = refl
  handle-schedule writer time (divisors n) app = refl
  handle-schedule writer time (fibonacci n) app = refl
  handle-schedule writer time (factorial_of n) app = refl

  abbrev pub IsTracked : App H → Type 0
  IsTracked app = (ls : List (Live b)) × Tracks H b ls app

  step-IsTracked : {app app' : App H} → SystemStep app app' → IsTracked app → IsTracked app'
  step-IsTracked {app} {app'} (arrives r writer time fits room e) (ls, tracks) =
      let runs = Request-Runs b writer time r fits in
      let (after, ran, tracks', _, _) = schedule-Tracks ls app tracks time _ _ _ _ runs room in
      let same_app : after ≡ app' =
        ok-injective (sym ran ∙ sym (handle-schedule writer time r app) ∙ e) in
      (_, subst (Tracks H b _) same_app tracks')
  step-IsTracked {app} {app'} (executes cutoff e) (ls, tracks) =
      elim (execute_one_lem H ls app tracks cutoff) [
        | inl (idle, _) ↦ absurd (cc)
        | inr (after, ran, round) ↦
            let same_app : after ≡ app' = cc in
            (round.live, subst (Tracks H b round.live) same_app round.tracks)
      ]

  -- Whatever has arrived and been executed, every task has its one operation and a known life.
  pub Reachable-IsTracked : {app : App H} → Reachable app → IsTracked app
  Reachable-IsTracked starts = ([], new_app-Tracks)
  Reachable-IsTracked (goes_on r step) = step-IsTracked step (Reachable-IsTracked r)

  -- In every state that the program reaches from its start by requests that fit in 64 bits (in
  -- the numbers of their computation and the times of their operations) and by rounds of the loop,
  -- in any order and at any times, a round of the loop does not panic, whatever the timer says.
  pub execute_one-ne-panic :
      (app : App H)
      → Reachable app
      → (cutoff : ℕ) (fault : Fault) → execute_one H b cutoff app ≢ panic fault
  execute_one-ne-panic app r cutoff fault e =
      let (ls, tracks) = Reachable-IsTracked r in
      elim (execute_one_lem H ls app tracks cutoff) [
        | inl (idle, _) ↦ cc
        | inr (after, ran, round) ↦ cc
      ]

  -- In every reachable state the loop returns, for every timer, if it has fuel for the work that
  -- is left.
  pub loop_returns :
      (app : App H)
      → Reachable app
      → (bound : ℕ) × ((fuel : ℕ) (clock : ℕ → ℕ)
          → bound < fuel
          → (app' : App H) × (execute_pending_operations_inner H b fuel clock app ≡ some (ok app')))
  loop_returns app r =
      let (ls, tracks) = Reachable-IsTracked r in
      (
        work ls,
        λ fuel clock enough.
            let (app', ran, _) = loop-Returns H fuel clock 0 ls app tracks enough (All-zero ls) in
            (app', ran),
      )
