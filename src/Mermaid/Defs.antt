-- ===== src/Mermaid/Defs.antt =====
-- step03_mermaid/code/src/main.rs: the canvas, its participants, and `main`. A format string is the
-- concatenation of its parts.
use rust_experiments.Prelude.{String, ◌<>◌, Bool, true, false, if◌then◌else◌}
use rust_experiments.Machine.{Build, Outcome, ok, panic, already_borrowed, ◌>>=◌}
use rust_experiments.Int.{ℤ, pos, add32, int_text}

-- The `RefCell` of `Data`, with whether it is mutably borrowed.
pub record Canvas : Type 0 where
  pub contents : String
  pub i : ℤ
  pub is_borrowed : Bool

pub record Participant : Type 0 where
  pub i : ℤ
  pub name : String

abbrev pub header : String
header = "sequenceDiagram\n    create participant I0 as root\n    autonumber\n"

abbrev pub new : Canvas
new = record { contents = header; i = pos 0; is_borrowed = false }

-- `RefCell::borrow_mut`
abbrev pub borrow_mut : Canvas → Outcome Canvas
borrow_mut canvas =
    if canvas.is_borrowed then panic already_borrowed else ok (record canvas { is_borrowed = true })

-- The end of the borrow.
abbrev pub release : Canvas → Canvas
release canvas = record canvas { is_borrowed = false }

unfoldable pub append : String → Canvas → Outcome Canvas
append s canvas = do
  held ← borrow_mut canvas
  ok (release (record held { contents = held.contents <> s }))

abbrev pub create_text : ℤ → String → String
create_text i s =
    "    create participant I"
    <> (int_text i <> (" as " <> (s <> ("\n    I0-->>I" <> (int_text i <> ": create\n")))))

abbrev pub arrow_text : ℤ → ℤ → String → String
arrow_text i j text =
    "    I" <> (int_text i <> ("->>I" <> (int_text j <> (": " <> (text <> "\n")))))

abbrev pub destroy_text : ℤ → String
destroy_text i =
    "    destroy I" <> (int_text i <> ("\n    I" <> (int_text i <> "-->>I0: destroy\n")))

unfoldable pub new_participant : Build → String → Canvas → Outcome (Participant × Canvas)
unfolding append add32
new_participant b s canvas = do
  held ← borrow_mut canvas
  i ← add32 b held.i (pos 1)
  canvas' ← append (create_text i s) (release (record held { i = i }))
  ok (record { i = i; name = s }, canvas')

-- `Display for Canvas`
unfoldable pub display : Canvas → Outcome String
display canvas = if canvas.is_borrowed then panic already_borrowed else ok canvas.contents

unfoldable pub add_arrow_to : Participant → Participant → String → Canvas → Outcome Canvas
unfolding append
add_arrow_to p rhs text canvas = append (arrow_text p.i rhs.i text) canvas

-- `Drop for Participant`
unfoldable pub drop : Participant → Canvas → Outcome Canvas
unfolding append
drop p canvas = append (destroy_text p.i) canvas

-- What `main` prints. A participant is dropped at the end of its block, and one with no name at the
-- end of its statement.
unfoldable pub main : Build → Outcome String
unfolding new_participant add_arrow_to drop display
main b = do
  (foo, c1) ← new_participant b "foo" new
  c2 ← drop foo c1
  (bar, c3) ← new_participant b "bar" c2
  (baz, c4) ← new_participant b "baz" c3
  c5 ← add_arrow_to bar baz "Hello!" c4
  c6 ← drop baz c5
  c7 ← drop bar c6
  (meh, c8) ← new_participant b "meh" c7
  (blah, c9) ← new_participant b "blah" c8
  c10 ← add_arrow_to blah meh "Whoa!" c9
  c11 ← drop blah c10
  c12 ← drop meh c11
  display c12
