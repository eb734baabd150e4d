-- ===== src/Mermaid/Drawings.antt =====
-- step03_mermaid/code/src/main.rs: what a canvas shows after any use of it, and that no use panics.
use rust_experiments.Prelude.{ℕ, suc, ◌<◌, ◌^◌, ◌≡◌, ap, List, map, String, some, arith}
use rust_experiments.Machine.{Build, ok}
use rust_experiments.Int.{pos}
use rust_experiments.Mermaid.Defs.{
  Canvas, Participant, new_participant, add_arrow_to, drop, display, arrow_text, destroy_text,
}
use rust_experiments.Mermaid.Diagram.{Event, diagram, replay}
use rust_experiments.Mermaid.Clients.{
  Call, TellsAll, Reachable, append-ok, new_participant-ok, Reachable-Draws,
}

module _ (b : Build) (n : ℕ) (c : Canvas) (live : List Participant) (calls : List Call) where
  -- Let a canvas have created `n < 2^31` participants, by any calls of its operations whose arrows join
  -- participants of this canvas. It displays the diagram of the events of the calls, one for each in
  -- their order: each participant is created under the next number, an arrow joins two that are
  -- there, each is destroyed at most once, and in the end those that are not dropped, and only those,
  -- are not destroyed.
  pub display-diagram :
      n < 2 ^ 31
      → Reachable b n c live calls
      → (numbers : List ℕ) × (events : List Event) × (display c ≡ ok (diagram events))
        × TellsAll calls events
        × (map (λ p. p.i) live ≡ map pos numbers)
        × (replay events ≡ some (record { count = n; alive = numbers }))
  unfolding display
  display-diagram h reachable =
      let d = Reachable-Draws b n c live calls h reachable in
      (d.numbers, d.events, rw (d.free) (ap ok d.drawn), d.told, d.numbered, d.replayed)

  -- While a canvas can count one more participant below 2^31, none of its operations panics: the
  -- borrow of its data by one operation has ended when the next one takes it.
  pub new_participant-ne-panic :
      suc n < 2 ^ 31
      → Reachable b n c live calls
      → ((s : String) → (p : Participant) × (c' : Canvas) × (new_participant b s c ≡ ok (p, c')))
        × ((p rhs : Participant) (text : String)
            → (c' : Canvas) × (add_arrow_to p rhs text c ≡ ok c'))
        × ((p : Participant) → (c' : Canvas) × (drop p c ≡ ok c'))
        × ((text : String) × (display c ≡ ok text))
  unfolding add_arrow_to drop display
  new_participant-ne-panic h reachable =
      let d = Reachable-Draws b n c live calls (omega arith) reachable in
      (
        λ s. (_, _, new_participant-ok b n s c d.free d.counted h),
        λ p rhs text. (_, append-ok (arrow_text p.i rhs.i text) c d.free),
        λ p. (_, append-ok (destroy_text p.i) c d.free),
        (c.contents, rw (d.free)),
      )
