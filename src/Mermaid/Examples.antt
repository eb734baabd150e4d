-- ===== src/Mermaid/Examples.antt =====
-- step03_mermaid/code/src/main.rs: a canvas in the course of `main`, and what `main` prints.
use rust_experiments.Prelude.{
  ℕ, ◌≡◌, refl, List, [], ◌∷◌, map, String, ◌<>◌, some, arith, true, false,
}
use rust_experiments.Machine.{Build, ok, panic, arithmetic_overflow}
use rust_experiments.Int.{pos, add32}
use rust_experiments.Text.{to_decimal}
use rust_experiments.Mermaid.Defs.{
  header, Canvas, Participant, new, append, new_participant, add_arrow_to, drop, display, main,
  create_text, arrow_text, destroy_text,
}
use rust_experiments.Mermaid.Diagram.{Event, diagram, replay}
use rust_experiments.Mermaid.Clients.{
  Call, created, joined, dropped, TellsAll, Reachable, starts, creates, arrows, drops,
}
use rust_experiments.Mermaid.Drawings.{display-diagram, new_participant-ne-panic}

abbrev build : Build
build = record { test = true; overflow_checks = true }

abbrev foo : Participant
foo = record { i = pos 1; name = "foo" }

abbrev bar : Participant
bar = record { i = pos 2; name = "bar" }

abbrev baz : Participant
baz = record { i = pos 3; name = "baz" }

abbrev canvas : String → ℕ → Canvas
canvas text count = record { contents = text; i = pos count; is_borrowed = false }

abbrev with_foo : String
with_foo = header <> create_text (pos 1) "foo"

abbrev without_foo : String
without_foo = with_foo <> destroy_text (pos 1)

abbrev with_bar : String
with_bar = without_foo <> create_text (pos 2) "bar"

abbrev with_baz : String
with_baz = with_bar <> create_text (pos 3) "baz"

abbrev said_hello : String
said_hello = with_baz <> arrow_text (pos 2) (pos 3) "Hello!"

abbrev said_hello_calls : List Call
said_hello_calls =
    created foo "foo"
    ∷ dropped foo
    ∷ created bar "bar"
    ∷ created baz "baz"
    ∷ joined bar baz "Hello!"
    ∷ []

said_hello-Reachable : Reachable build 3 (canvas said_hello 3) (baz ∷ bar ∷ []) said_hello_calls
unfolding new_participant add_arrow_to drop append add32
said_hello-Reachable =
    arrows {c = canvas with_baz 3} {p = bar} {rhs = baz}
      (creates {c = canvas with_bar 2}
        (creates {c = canvas without_foo 1}
          (drops {c = canvas with_foo 1} {p = foo} (creates {c = new} starts "foo" refl) 0 refl
            refl)
          "bar" refl)
        "baz" refl)
      1 0 "Hello!" refl refl refl

display-diagram_example :
    (numbers : List ℕ) × (events : List Event) × (display (canvas said_hello 3)
      ≡ ok (diagram events))
    × TellsAll said_hello_calls events
    × (map (λ p. p.i) (baz ∷ bar ∷ []) ≡ map pos numbers)
    × (replay events ≡ some (record { count = 3; alive = numbers }))
display-diagram_example =
    display-diagram build 3 (canvas said_hello 3) (baz ∷ bar ∷ []) said_hello_calls (omega arith)
      said_hello-Reachable

new_participant-ne-panic_example :
    ((s : String)
      → (p : Participant) × (c' : Canvas) × (new_participant build s (canvas said_hello 3)
          ≡ ok (p, c')))
    × ((p rhs : Participant) (text : String)
        → (c' : Canvas) × (add_arrow_to p rhs text (canvas said_hello 3) ≡ ok c'))
    × ((p : Participant) → (c' : Canvas) × (drop p (canvas said_hello 3) ≡ ok c'))
    × ((text : String) × (display (canvas said_hello 3) ≡ ok text))
new_participant-ne-panic_example =
    new_participant-ne-panic build 3 (canvas said_hello 3) (baz ∷ bar ∷ []) said_hello_calls
      (omega arith) said_hello-Reachable

-- The number is an `i32`.
one_too_many :
    new_participant build "last" (canvas header 2_147_483_647) ≡ panic arithmetic_overflow
unfolding new_participant append add32
one_too_many = refl

main_text :
    main build
    ≡ ok (
        "sequenceDiagram\n    create participant I0 as root\n    autonumber\n"
        <> ("    create participant I1 as foo\n    I0-->>I1: create\n"
            <> ("    destroy I1\n    I1-->>I0: destroy\n"
                <> ("    create participant I2 as bar\n    I0-->>I2: create\n"
                    <> ("    create participant I3 as baz\n    I0-->>I3: create\n"
                        <> ("    I2->>I3: Hello!\n"
                            <> ("    destroy I3\n    I3-->>I0: destroy\n"
                                <> ("    destroy I2\n    I2-->>I0: destroy\n"
                                    <> ("    create participant I4 as meh\n    I0-->>I4: create\n"
                                        <> ("    create participant I5 as blah\n    I0-->>I5: create\n"
                                            <> ("    I5->>I4: Whoa!\n"
                                                <> ("    destroy I5\n    I5-->>I0: destroy\n"
                                                    <> "    destroy I4\n    I4-->>I0: destroy\n"))))))))))))
unfolding main new_participant add_arrow_to drop display append add32 to_decimal
main_text = refl
