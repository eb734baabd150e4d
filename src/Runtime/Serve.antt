-- ===== src/Runtime/Serve.antt =====
-- From the arrival of requests to their replies: the handlers and the loop, put together.
use rust_experiments.Prelude.{
  ℕ, ◌+◌, ◌≤◌, ◌<◌, ◌≡◌, refl, sym, ap, ◌∙◌, List, [], ◌∷◌, ◌++◌, All, Option, some, arith, length,
  append-nil,
}
use rust_experiments.Machine.{Build, Outcome, ok, panic, u64_modulus}
use rust_experiments.Maroon.Runs.{Runs-le_limit}
use rust_experiments.Runtime.BinaryHeap.{BinaryHeap, TimestampedMaroonTask}
use rust_experiments.Runtime.Defs.{App, new_app, Written, execute_pending_operations_inner}
use rust_experiments.Runtime.Handlers.{Fits, end_of, reply}
use rust_experiments.Runtime.Live.{
  Distinct, Live, writers, entries, operations, work, lines_due, lines_of, Tracks,
}
use rust_experiments.Runtime.Loop.{IsChronological, Returned, loop-Returns}
use rust_experiments.Runtime.System.{All-zero, new_app-Tracks}
use rust_experiments.Runtime.Arrivals.{
  Arrival, arrival_writers, total_steps, arrive_all, arrive_all-Arrived, NotIn-nil,
}

nothing_left :
    {b : Build} (c now : ℕ) (ls : List (Live b))
    → c ≤ now
    → All (λ l. now < l.time) ls
    → All (λ l. l.limit ≤ c) ls
    → ls ≡ []
nothing_left c now [] le later limits = refl
nothing_left c now (l ∷ ls) le later limits = absurd (omega (arith, Runs-le_limit l.runs))

module _ (H : BinaryHeap) (b : Build) where
  -- The loop with a timer that has passed the end of every task: it returns with no task left, and
  -- every writer has got what it was to be given.
  module _ (ls : List (Live b)) (app : App H) (tracks : Tracks H b ls app) (c fuel : ℕ)
      (clock : ℕ → ℕ) where
    pub record Completed (app' : App H) : Type 0 where
      pub no_tasks : app'.fsm.active_tasks ≡ []
      pub no_operations : (u : TimestampedMaroonTask) → H.occurs u app'.fsm.pending_operations ≡ 0
      pub fresh_lines : List Written
      pub written : app'.written ≡ app.written ++ fresh_lines
      pub chronological : IsChronological 0 fresh_lines
      pub delivered :
          Distinct (writers ls)
          → (w : ℕ) → lines_of w app'.written ≡ lines_of w app.written ++ lines_due w ls

    Returned-Completed :
        (app' : App H)
        → All (λ l. l.limit ≤ c) ls
        → ((k : ℕ) → c ≤ clock k)
        → Returned H clock 0 ls app app'
        → Completed app'
    Returned-Completed app' limits late r =
        let empty : r.live ≡ [] =
          nothing_left c (clock r.last) r.live (late r.last) r.nothing_due
            (r.limits_kept c limits) in
        record {
          no_tasks = r.tracks.active ∙ ap entries empty;
          no_operations = λ u. r.tracks.pending u ∙ ap (operations u) empty;
          fresh_lines = r.fresh_lines;
          written = r.written;
          chronological = r.chronological;
          delivered = λ d w.
              sym (append-nil _)
              ∙ ap (λ zs. lines_of w app'.written ++ lines_due w zs) (sym empty)
              ∙ r.promised d w;
        }

    pub loop-Completed :
        work ls < fuel
        → All (λ l. l.limit ≤ c) ls
        → ((k : ℕ) → c ≤ clock k)
        → (app' : App H) × (execute_pending_operations_inner H b fuel clock app ≡ some (ok app'))
          × Completed app'
    loop-Completed enough limits late =
        let (app', ran, r) = loop-Returns H fuel clock 0 ls app tracks enough (All-zero ls) in
        (app', ran, Returned-Completed app' limits late r)

-- All requests arrive, and then the loop runs.
unfoldable pub serve :
    (H : BinaryHeap) → Build → ℕ → (ℕ → ℕ) → List Arrival → Option (Outcome (App H))
unfolding arrive_all execute_pending_operations_inner
serve H b fuel clock arrivals = elim (arrive_all H b arrivals (new_app H)) [
  | panic fault ↦ some (panic fault)
  | ok app ↦ execute_pending_operations_inner H b fuel clock app
]

-- The loop has returned: each writer has got its reply and nothing else, in the order of time, and
-- nothing is left to do.
pub record Served (H : BinaryHeap) (b : Build) (arrivals : List Arrival) (app : App H)
    : Type 0 where
  pub replied : All (λ a. lines_of a.writer app.written ≡ reply b a.time a.request) arrivals
  pub chronological : IsChronological 0 app.written
  pub no_tasks : app.fsm.active_tasks ≡ []
  pub no_operations : (u : TimestampedMaroonTask) → H.occurs u app.fsm.pending_operations ≡ 0

module _ (H : BinaryHeap) (b : Build) (arrivals : List Arrival) (c fuel : ℕ) (clock : ℕ → ℕ) where
  replied-All :
      (as_ : List Arrival) (ls : List (Live b)) (app : App H)
      → ((w : ℕ) → lines_of w app.written ≡ lines_due w ls)
      → All (λ a. lines_due a.writer ls ≡ reply b a.time a.request) as_
      → All (λ a. lines_of a.writer app.written ≡ reply b a.time a.request) as_
  replied-All [] ls app h r = tt
  replied-All (a ∷ as_) ls app h r = (h a.writer ∙ r.0, replied-All as_ ls app h r.1)

  -- From the empty runtime, let requests arrive, each with a writer of its own, fitting in 64 bits in
  -- the numbers of their computation and the times of their operations, and fewer than 2^64 - 1; let
  -- the timer say in every round that the end `c` of all of them has passed. With more fuel than
  -- their steps in all, the handlers and the loop return without a panic; each writer has been given
  -- its request's reply and no other text, all texts stand in the order of their timestamps, and no
  -- task and no operation is left.
  pub serve-Served :
      All (λ a. Fits a.time a.request) arrivals
      → All (λ a. end_of a.time a.request ≤ c) arrivals
      → Distinct (arrival_writers arrivals)
      → 1 + length arrivals < u64_modulus
      → total_steps arrivals < fuel
      → ((k : ℕ) → c ≤ clock k)
      → (app : App H) × (serve H b fuel clock arrivals ≡ some (ok app)) × Served H b arrivals app
  unfolding serve
  serve-Served fits ends distinct room enough late =
      let (app₁, arrived, r) =
        arrive_all-Arrived H b c arrivals [] (new_app H) (new_app-Tracks H b) tt tt fits ends
          distinct (NotIn-nil arrivals) room in
      let (app₂, ran, done) =
        loop-Completed H b r.live app₁ r.tracks c fuel clock (omega (arith, r.work_eq)) r.limits
          late in
      let all_lines : (w : ℕ) → lines_of w app₂.written ≡ lines_due w r.live = λ w.
        done.delivered r.distinct w ∙ ap (λ ws. lines_of w ws ++ lines_due w r.live) r.unwritten in
      let whole : app₂.written ≡ done.fresh_lines =
        done.written ∙ ap (λ ws. ws ++ done.fresh_lines) r.unwritten in
      (
        app₂,
        rw (arrived, serve) ran,
        record {
          replied = replied-All arrivals r.live app₂ all_lines r.replies;
          chronological = rw whole done.chronological;
          no_tasks = done.no_tasks;
          no_operations = done.no_operations;
        },
      )
