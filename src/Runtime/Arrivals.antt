-- ===== src/Runtime/Arrivals.antt =====
-- The arrival of requests: the calls of the handlers, one after another.
use rust_experiments.Prelude.{
  ℕ, ◌+◌, ◌≤◌, ◌<◌, ◌≡◌, ◌≢◌, refl, sym, ◌∙◌, List, [], ◌∷◌, All, arith, ne→==, eq→==, length,
  append-nil,
}
use rust_experiments.Machine.{Build, Outcome, ok, ◌>>=◌, u64_modulus}
use rust_experiments.Maroon.Tasks.Delay.{delay_task}
use rust_experiments.Maroon.Tasks.Divisors.{divisors_task}
use rust_experiments.Maroon.Tasks.Fibonacci.{fibonacci_task}
use rust_experiments.Maroon.Tasks.Factorial.{factorial_task}
use rust_experiments.Runtime.BinaryHeap.{BinaryHeap}
use rust_experiments.Runtime.Defs.{App}
use rust_experiments.Runtime.Handlers.{
  Request, delay, divisors, fibonacci, factorial_of, task_of, Fits, steps_of, end_of, reply,
  Request-Runs, handle,
}
use rust_experiments.Runtime.Live.{NotIn, Distinct, Live, writers, work, lines_due, Tracks}
use rust_experiments.Runtime.System.{handle-schedule, schedule-Tracks}

-- A request, with the writer of its socket and the timer's reading at its arrival.
pub record Arrival : Type 0 where
  pub writer : ℕ
  pub time : ℕ
  pub request : Request

abbrev pub arrival_writers : List Arrival → List ℕ
arrival_writers [] = []
arrival_writers (a ∷ as_) = a.writer ∷ arrival_writers as_

abbrev pub total_steps : List Arrival → ℕ
total_steps [] = 0
total_steps (a ∷ as_) = steps_of a.request + total_steps as_

unfoldable pub arrive_all : (H : BinaryHeap) → Build → List Arrival → App H → Outcome (App H)
arrive_all H b [] app = ok app
arrive_all H b (a ∷ as_) app = do
  app' ← handle H b a.writer a.time a.request app
  arrive_all H b as_ app'

lines_due-absent :
    {b : Build} (w : ℕ) (ls : List (Live b)) → NotIn w (writers ls) → lines_due w ls ≡ []
lines_due-absent w [] h = refl
lines_due-absent w (l ∷ ls) h =
    rw (ne→== l.task.writer w (λ e. h.0 (sym e))) (lines_due-absent w ls h.1)

task_of-writer : (writer : ℕ) (r : Request) → (task_of writer r).writer ≡ writer
unfolding delay_task divisors_task fibonacci_task factorial_task
task_of-writer writer (delay t s) = refl
task_of-writer writer (divisors n) = refl
task_of-writer writer (fibonacci n) = refl
task_of-writer writer (factorial_of n) = refl

All-both :
    (P Q : Arrival → Type 0) (as_ : List Arrival) → All P as_ → All Q as_ → All (λ a. P a × Q a) as_
All-both P Q [] p q = tt
All-both P Q (a ∷ as_) p q = ((p.0, q.0), All-both P Q as_ p.1 q.1)

NotIn-All :
    (k : ℕ) (as_ : List Arrival) → NotIn k (arrival_writers as_) → All (λ a. a.writer ≢ k) as_
NotIn-All k [] h = tt
NotIn-All k (a ∷ as_) h = ((λ e. h.0 (sym e)), NotIn-All k as_ h.1)

module _ (H : BinaryHeap) (b : Build) where
  -- The state after some arrivals, before a round of the loop.
  pub record Arrived (c : ℕ) (ls : List (Live b)) (app : App H) (as_ : List Arrival) (app' : App H)
      : Type 0 where
    pub live : List (Live b)
    pub tracks : Tracks H b live app'
    pub unwritten : app'.written ≡ app.written
    pub distinct : Distinct (writers live)
    pub limits : All (λ l. l.limit ≤ c) live
    pub work_eq : work live ≡ work ls + total_steps as_
    pub others : (w : ℕ) → NotIn w (arrival_writers as_) → lines_due w live ≡ lines_due w ls
    pub replies : All (λ a. lines_due a.writer live ≡ reply b a.time a.request) as_

  pub arrive_all-Arrived :
      (c : ℕ) (as_ : List Arrival) (ls : List (Live b)) (app : App H)
      → Tracks H b ls app
      → Distinct (writers ls)
      → All (λ l. l.limit ≤ c) ls
      → All (λ a. Fits a.time a.request) as_
      → All (λ a. end_of a.time a.request ≤ c) as_
      → Distinct (arrival_writers as_)
      → All (λ a. NotIn a.writer (writers ls)) as_
      → app.fsm.task_id_generator.next_task_id + length as_ < u64_modulus
      → (app' : App H) × (arrive_all H b as_ app ≡ ok app') × Arrived c ls app as_ app'
  unfolding arrive_all
  arrive_all-Arrived c [] ls app tracks distinct limits fits ends distinct' absent room = (
    app,
    refl,
    record {
      live = ls;
      tracks = tracks;
      unwritten = refl;
      distinct = distinct;
      limits = limits;
      work_eq = omega arith;
      others = λ w h. refl;
      replies = tt;
    },
  )
  arrive_all-Arrived c (a ∷ as_) ls app tracks distinct limits fits ends distinct' absent room =
      let runs = Request-Runs b a.writer a.time a.request fits.0 in
      let named = task_of-writer a.writer a.request in
      let (app₁, ran, tracks₁, same_written, next) =
        schedule-Tracks H b ls app tracks a.time _ _ _ _ runs (omega arith) in
      let (app₂, ran', r) =
        arrive_all-Arrived c as_ _ app₁ tracks₁ (rw named (absent.0, distinct)) (ends.0, limits)
          fits.1 ends.1 distinct'.1
          (rw named (All-both _ _ as_ (NotIn-All a.writer as_ distinct'.0) absent.1))
          (omega (arith, next)) in
      (
        app₂,
        rw (handle-schedule H b a.writer a.time a.request app, ran) ran',
        record {
          live = r.live;
          tracks = r.tracks;
          unwritten = r.unwritten ∙ same_written;
          distinct = r.distinct;
          limits = r.limits;
          work_eq = omega (arith, r.work_eq);
          others = λ w h. r.others w h.1 ∙ rw (named, ne→== a.writer w (λ e. h.0 (sym e)));
          replies = (
            r.others a.writer distinct'.0
                ∙ rw (named, eq→== a.writer a.writer refl, lines_due-absent a.writer ls absent.0)
                    (append-nil _),
            r.replies,
          );
        },
      )

pub NotIn-nil : (as_ : List Arrival) → All (λ a. NotIn a.writer []) as_
NotIn-nil [] = tt
NotIn-nil (a ∷ as_) = (tt, NotIn-nil as_)
