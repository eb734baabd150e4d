-- ===== src/Runtime/Rounds/Step.antt =====
-- What a round with a due operation does.
use rust_experiments.Prelude.{
  ℕ, suc, ◌≤◌, ◌≡◌, refl, sym, ap, ◌∙◌, List, [], ◌∷◌, ◌++◌, All, Option, none, some, String, arith,
  ◌==◌, if◌then◌else◌, Bool-cases, inl, inr, append_assoc, append-nil,
}
use rust_experiments.Machine.{Build, ok}
use rust_experiments.Maroon.TaskStep.{MaroonTask, finished, rescheduled, task_step}
use rust_experiments.Maroon.TaskStep.Writer.{task_step-writer}
use rust_experiments.Maroon.Runs.{Runs, Runs-cases, Continues, Line, emit}
use rust_experiments.Runtime.BinaryHeap.{BinaryHeap, TimestampedMaroonTask}
use rust_experiments.Runtime.Defs.{App, Written, remove, insert, log, give_back, run_operation}
use rust_experiments.Runtime.Live.{
  NotIn, Distinct, Live, operation, ids, writers, entries, operations, work, lines_due, lines_of,
  Tracks, operations-middle, work-middle, All-middle, Distinct-middle, remove-middle,
  discard-absent, lines_due-middle,
}

lines_of-append :
    (w : ℕ) (xs ys : List Written) → lines_of w (xs ++ ys) ≡ lines_of w xs ++ lines_of w ys
lines_of-append w [] ys = refl
lines_of-append w (x ∷ xs) ys = simp (lines_of-append w xs ys, append_assoc)

-- The texts of one step.
abbrev pub step_log : ℕ → ℕ → Option String → List Written
step_log writer time text = log writer time text []

log-append :
    (writer time : ℕ) (text : Option String) (written : List Written)
    → log writer time text written ≡ written ++ step_log writer time text
log-append writer time none written = sym (append-nil written)
log-append writer time (some text) written = refl

-- What a step writes is what its task had to write.
lines_of-step_log :
    (w writer time : ℕ) (text : Option String) (lines : List Line)
    → lines_of w (step_log writer time text) ++ (if writer == w then lines else [])
      ≡ (if writer == w then emit time text lines else [])
lines_of-step_log w writer time none lines = refl
lines_of-step_log w writer time (some text) lines = elim (Bool-cases (writer == w)) [
  | inl mine ↦ rw mine
  | inr others ↦ rw others
]

promised_lem :
    (w writer time : ℕ) (text : Option String) (lines due : List Line) (written : List Written)
    → lines_of w (log writer time text written) ++ ((if writer == w then lines else []) ++ due)
      ≡ lines_of w written ++ ((if writer == w then emit time text lines else []) ++ due)
promised_lem w writer time text lines due written =
    let new = lines_of w (step_log writer time text) in
    rw
      (
        log-append writer time text written,
        lines_of-append w written _,
        append_assoc (lines_of w written) new _,
        ← append_assoc new (if writer == w then lines else []) due,
        lines_of-step_log w writer time text lines,
      )
      refl

stamped_log :
    (writer time : ℕ) (text : Option String)
    → All (λ w. w.line.time ≡ time) (step_log writer time text)
stamped_log writer time none = tt
stamped_log writer time (some text) = (refl, tt)

module _ (H : BinaryHeap) {b : Build} where
  -- What a round leads to, from a runtime that holds the tasks `ls`.
  pub record Round (cutoff : ℕ) (ls : List (Live b)) (app : App H) (result : App H) : Type 0 where
    pub live : List (Live b)
    pub tracks : Tracks H b live result
    pub less : work ls ≡ suc (work live)
    pub now : ℕ
    pub in_time : now ≤ cutoff
    pub begins : (start : ℕ) → All (λ l. start ≤ l.time) ls → start ≤ now
    pub earliest : All (λ l. now ≤ l.time) ls
    pub not_before : All (λ l. now ≤ l.time) live
    pub fresh_lines : List Written
    pub written : result.written ≡ app.written ++ fresh_lines
    pub stamped : All (λ w. w.line.time ≡ now) fresh_lines
    pub limits_kept : (c : ℕ) → All (λ l. l.limit ≤ c) ls → All (λ l. l.limit ≤ c) live
    pub writers_kept : Distinct (writers ls) → Distinct (writers live)
    pub promised :
        Distinct (writers ls)
        → (w : ℕ)
        → lines_of w result.written ++ lines_due w live ≡ lines_of w app.written ++ lines_due w ls

  module _ (app : App H) (rest : H.Heap) (xs ys : List (Live b)) (l : Live b)
      (tracks : Tracks H b (xs ++ l ∷ ys) app)
      (popped : H.pop app.fsm.pending_operations ≡ some (operation l, rest)) where
    abbrev others : List (Live b)
    others = xs ++ ys

    removed : remove l.id app.fsm.active_tasks ≡ some (l.task, entries others)
    removed = rw tracks.active (remove-middle xs ys l tracks.distinct)

    absent : NotIn l.id (ids others) × Distinct (ids others)
    absent = Distinct-middle (λ l. l.id) xs ys l tracks.distinct

    left : (u : TimestampedMaroonTask) → H.occurs u rest ≡ operations u others
    left u = omega (
      arith,
      H.occurs-pop _ rest (operation l) popped u,
      tracks.pending u,
      operations-middle u xs ys l,
    )

    abbrev after_end : App H
    after_end = give_back H (operation l) rest (entries others) l.task.writer app finished

    end_tracks : Tracks H b others after_end
    unfolding give_back
    end_tracks = record {
      active = discard-absent l.id others absent.0;
      pending = left;
      distinct = absent.1;
      fresh = (All-middle _ xs ys l tracks.fresh).1;
    }

    module _ (later n : ℕ) (text : Option String) (task : MaroonTask) (lines : List Line)
        (runs : Runs b l.limit n later task lines) where
      abbrev again : Live b
      again = record {
        id = l.id;
        time = later;
        task = task;
        limit = l.limit;
        steps_left = n;
        lines_left = lines;
        runs = runs;
      }

      abbrev after_step : App H
      after_step =
          give_back H (operation l) rest (entries others) l.task.writer app
            (rescheduled later text task)

      step_tracks : Tracks H b (again ∷ others) after_step
      unfolding give_back insert
      step_tracks = record {
        active = ap (λ m. (l.id, task) ∷ m) (discard-absent l.id others absent.0);
        pending = λ u. omega (arith, H.occurs-push rest (operation again) u, left u);
        distinct = absent;
        fresh = All-middle _ xs ys l tracks.fresh;
      }

    module _ (cutoff : ℕ) (in_time : l.time ≤ cutoff)
        (earliest : All (λ k. l.time ≤ k.time) (xs ++ l ∷ ys)) where
      abbrev whole : List (Live b)
      whole = xs ++ l ∷ ys

      abbrev Result : Type 0
      Result =
          (app' : App H) × (run_operation H b (operation l) rest app ≡ ok app')
          × Round cutoff whole app app'

      due_eq :
          (w : ℕ) (lines : List Line)
          → Distinct (writers whole)
          → l.lines_left ≡ lines
          → lines_due w whole ≡ (if l.task.writer == w then lines else []) ++ lines_due w others
      due_eq w lines d e = lines_due-middle w xs ys l d ∙ rw e

      due_end :
          (w : ℕ)
          → Distinct (writers whole)
          → l.lines_left ≡ []
          → lines_due w whole ≡ lines_due w others
      due_end w d e =
          due_eq w [] d e
          ∙ elim (Bool-cases (l.task.writer == w)) [ inl mine ↦ rw mine | inr other ↦ rw other ]

      end_round :
          l.steps_left ≡ 1 → l.lines_left ≡ [] → task_step b l.time l.task ≡ ok finished → Result
      unfolding run_operation give_back
      end_round one none_left e = (
        after_end,
        rw (removed, run_operation, e),
        record {
          live = others;
          tracks = end_tracks;
          less = omega (arith, work-middle xs ys l);
          now = l.time;
          in_time = in_time;
          begins = λ start h. (All-middle _ xs ys l h).0;
          earliest = earliest;
          not_before = (All-middle _ xs ys l earliest).1;
          fresh_lines = [];
          written = sym (append-nil _);
          stamped = tt;
          limits_kept = λ c h. (All-middle _ xs ys l h).1;
          writers_kept = λ d. (Distinct-middle (λ k. k.task.writer) xs ys l d).1;
          promised = λ d w. ap (λ ls. lines_of w app.written ++ ls) (sym (due_end w d none_left));
        },
      )

      step_round : Continues b l.limit l.steps_left l.time l.task l.lines_left → Result
      unfolding run_operation give_back
      step_round c = (
        after_step c.later c.n' c.text c.task' c.lines' c.runs,
        rw (removed, run_operation, c.step_eq),
        record {
          live = again c.later c.n' c.text c.task' c.lines' c.runs ∷ others;
          tracks = step_tracks c.later c.n' c.text c.task' c.lines' c.runs;
          less = omega (arith, work-middle xs ys l, c.steps_eq);
          now = l.time;
          in_time = in_time;
          begins = λ start h. (All-middle _ xs ys l h).0;
          earliest = earliest;
          not_before = (c.forward, (All-middle _ xs ys l earliest).1);
          fresh_lines = step_log l.task.writer l.time c.text;
          written = log-append l.task.writer l.time c.text app.written;
          stamped = stamped_log l.task.writer l.time c.text;
          limits_kept = λ c h. All-middle _ xs ys l h;
          writers_kept = λ d.
              rw (task_step-writer b l.time l.task c.later c.text c.task' c.step_eq)
                (Distinct-middle (λ k. k.task.writer) xs ys l d);
          promised = λ d w. rw (task_step-writer b l.time l.task c.later c.text c.task' c.step_eq) (
              promised_lem w l.task.writer l.time c.text c.lines' (lines_due w others) app.written
              ∙ ap (λ ls. lines_of w app.written ++ ls) (sym (due_eq w _ d c.lines_eq)));
        },
      )

      pub round_lem : Result
      round_lem = elim (Runs-cases l.runs) [
        | inl (one, none_left, e) ↦ end_round one none_left e
        | inr c ↦ step_round c
      ]
