-- ===== src/Mermaid/Diagram.antt =====
-- step03_mermaid/code/src/main.rs: what a sequence diagram is, apart from its text.
use text.Mathlib.TextLemmas.{append-nil, nil-append, append_assoc}
use rust_experiments.Prelude.{
  ℕ, suc, ◌≡◌, refl, sym, ap, ◌∙◌, List, [], ◌∷◌, ◌++◌, String, ◌<>◌, Option, none, some, Bool,
  false, ◌&&◌, ◌||◌, ◌==◌, if◌then◌else◌,
}
use rust_experiments.Int.{pos}
use rust_experiments.Mermaid.Defs.{header, create_text, arrow_text, destroy_text}

-- The participants are known by their numbers.
pub data Event : Type 0 where
  create : ℕ → String → Event
  arrow : ℕ → ℕ → String → Event
  destroy : ℕ → Event

abbrev pub event_text : Event → String
event_text (create i name) = create_text (pos i) name
event_text (arrow i j text) = arrow_text (pos i) (pos j) text
event_text (destroy i) = destroy_text (pos i)

abbrev pub events_text : List Event → String
events_text [] = ""
events_text (event ∷ events) = event_text event <> events_text events

abbrev pub diagram : List Event → String
diagram events = header <> events_text events

abbrev pub has : ℕ → List ℕ → Bool
has i [] = false
has i (j ∷ numbers) = (j == i) || has i numbers

abbrev pub without : ℕ → List ℕ → List ℕ
without i [] = []
without i (j ∷ numbers) = let rest = without i numbers in if j == i then numbers else j ∷ rest

-- How many participants there have been, and the numbers of those there are, the last one first.
pub record Lifelines : Type 0 where
  pub count : ℕ
  pub alive : List ℕ

abbrev pub allow : Bool → Lifelines → Option Lifelines
allow allowed lifelines = if allowed then some lifelines else none

-- A participant gets the next number, and nothing refers to one that does not exist, or not any more.
abbrev pub follow : Event → Lifelines → Option Lifelines
follow (create i name) l =
    allow (i == suc l.count) (record { count = suc l.count; alive = i ∷ l.alive })
follow (arrow i j text) l = allow (has i l.alive && has j l.alive) l
follow (destroy i) l = allow (has i l.alive) (record l { alive = without i l.alive })

abbrev pub follow_from : Option Lifelines → Event → Option Lifelines
follow_from none event = none
follow_from (some l) event = follow event l

abbrev pub replay_from : Option Lifelines → List Event → Option Lifelines
replay_from o [] = o
replay_from o (event ∷ events) = replay_from (follow_from o event) events

abbrev pub replay : List Event → Option Lifelines
replay = replay_from (some (record { count = 0; alive = [] }))

pub replay_from-last :
    (o : Option Lifelines) (events : List Event) (event : Event)
    → replay_from o (events ++ event ∷ []) ≡ follow_from (replay_from o events) event
replay_from-last o [] event = refl
replay_from-last o (first ∷ events) event = replay_from-last (follow_from o first) events event

events_text-last :
    (events : List Event) (event : Event)
    → events_text (events ++ event ∷ []) ≡ events_text events <> event_text event
events_text-last [] event = append-nil (event_text event) ∙ sym (nil-append (event_text event))
events_text-last (first ∷ events) event =
    ap (λ text. event_text first <> text) (events_text-last events event)
    ∙ sym (append_assoc (event_text first) (events_text events) (event_text event))

pub diagram-last :
    (events : List Event) (event : Event)
    → diagram (events ++ event ∷ []) ≡ diagram events <> event_text event
diagram-last events event =
    ap (λ text. header <> text) (events_text-last events event)
    ∙ sym (append_assoc header (events_text events) (event_text event))
