-- ===== src/Runtime/Promises.antt =====
-- step11_ws_state_machine/code/src/main.rs: what a round, and the loop, of
-- `execute_pending_operations_inner` do for tasks that have writers of their own.
use rust_experiments.Prelude.{
  ℕ, suc, ◌+◌, ◌≤◌, ◌<◌, ◌≡◌, List, ◌++◌, All, some, none, ◌⊎◌, inl, inr,
}
use rust_experiments.Machine.{Build, ok}
use rust_experiments.Runtime.BinaryHeap.{BinaryHeap}
use rust_experiments.Runtime.Defs.{App, Written, execute_one, execute_pending_operations_inner}
use rust_experiments.Runtime.Live.{Distinct, Live, writers, work, lines_due, lines_of, Tracks}
use rust_experiments.Runtime.Loop.{IsChronological, execute_one_lem, loop-Returns}

module _ (H : BinaryHeap) {b : Build} where
  -- A round at `now`: what is written, and what is still to be written, is what was to be written.
  pub record Advanced (cutoff : ℕ) (ls : List (Live b)) (app app' : App H) : Type 0 where
    pub live : List (Live b)
    pub tracks : Tracks H b live app'
    pub less : work ls ≡ suc (work live)
    pub now : ℕ
    pub in_time : now ≤ cutoff
    pub earliest : All (λ l. now ≤ l.time) ls
    pub not_before : All (λ l. now ≤ l.time) live
    pub fresh_lines : List Written
    pub written : app'.written ≡ app.written ++ fresh_lines
    pub stamped : All (λ w. w.line.time ≡ now) fresh_lines
    pub promised :
        (w : ℕ)
        → lines_of w app'.written ++ lines_due w live ≡ lines_of w app.written ++ lines_due w ls

  -- The loop has returned in the round `last`, counted from 0, after one step in each round before it:
  -- no task is due in that round, and no text is lost, added, or out of order.
  pub record Settled (clock : ℕ → ℕ) (start : ℕ) (ls : List (Live b)) (app app' : App H)
      : Type 0 where
    pub live : List (Live b)
    pub tracks : Tracks H b live app'
    pub last : ℕ
    pub rounds : work ls ≡ last + work live
    pub nothing_due : All (λ l. clock last < l.time) live
    pub fresh_lines : List Written
    pub written : app'.written ≡ app.written ++ fresh_lines
    pub chronological : IsChronological start fresh_lines
    pub promised :
        (w : ℕ)
        → lines_of w app'.written ++ lines_due w live ≡ lines_of w app.written ++ lines_due w ls

  -- For a runtime that holds the tasks of `ls`, each with one pending operation, and tasks with
  -- writers of their own: a round of the loop finds that every operation is later than the cutoff
  -- and changes nothing, or it makes one step of a task whose operation is the earliest. It does not
  -- panic; each task has one pending operation again, none earlier than the one taken; one step
  -- less is left; and each writer has been given, and is still to be given, what it was before.
  pub execute_one-Advanced :
      (cutoff : ℕ) (ls : List (Live b)) (app : App H)
      → Tracks H b ls app
      → Distinct (writers ls)
      → ((execute_one H b cutoff app ≡ ok none) × All (λ l. cutoff < l.time) ls)
        ⊎ ((app' : App H) × (execute_one H b cutoff app ≡ ok (some app'))
            × Advanced cutoff ls app app')
  execute_one-Advanced cutoff ls app tracks distinct =
      elim (execute_one_lem H ls app tracks cutoff) [
        | inl idle ↦ inl idle
        | inr (app', ran, r) ↦ inr (
          app',
          ran,
          record {
            live = r.live;
            tracks = r.tracks;
            less = r.less;
            now = r.now;
            in_time = r.in_time;
            earliest = r.earliest;
            not_before = r.not_before;
            fresh_lines = r.fresh_lines;
            written = r.written;
            stamped = r.stamped;
            promised = r.promised distinct;
          },
        )
      ]

  -- For a runtime that holds the tasks of `ls`, each with one pending operation and a writer of its
  -- own, none of them due before `start`: with more fuel than there are steps left, and whatever the
  -- timer says in each round, the loop returns without a panic. Then as many steps have been made as
  -- there were rounds before the last one, every operation left is later than the timer's reading in
  -- the last round, what was written stands in the order of its timestamps, and each
  -- writer has been given, and is still to be given, what it was before.
  pub loop-Settled :
      (fuel : ℕ) (clock : ℕ → ℕ) (start : ℕ) (ls : List (Live b)) (app : App H)
      → Tracks H b ls app
      → Distinct (writers ls)
      → work ls < fuel
      → All (λ l. start ≤ l.time) ls
      → (app' : App H) × (execute_pending_operations_inner H b fuel clock app ≡ some (ok app'))
        × Settled clock start ls app app'
  loop-Settled fuel clock start ls app tracks distinct enough early =
      let (app', ran, r) = loop-Returns H fuel clock start ls app tracks enough early in
      (
        app',
        ran,
        record {
          live = r.live;
          tracks = r.tracks;
          last = r.last;
          rounds = r.rounds;
          nothing_due = r.nothing_due;
          fresh_lines = r.fresh_lines;
          written = r.written;
          chronological = r.chronological;
          promised = r.promised distinct;
        },
      )
