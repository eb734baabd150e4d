-- ===== src/Mermaid/Clients.antt =====
-- step03_mermaid/code/src/main.rs: any use of a canvas, and the diagram that it comes to.
use rust_experiments.Prelude.{
  remove_at, ℕ, suc, ◌+◌, ◌^◌, ◌<◌, ◌≡◌, refl, sym, ap, ◌∙◌, List, [], ◌∷◌, ◌++◌, map, String, ◌<>◌,
  some, false, get_elem?, arith, eq→==, lt→ltb,
}
use rust_experiments.Machine.{Build, ok, ok-injective}
use rust_experiments.Int.{pos, add32}
use text.Mathlib.TextLemmas.{append-nil}
use rust_experiments.Mermaid.Defs.{
  header, Canvas, Participant, new, append, new_participant, add_arrow_to, drop, create_text,
  arrow_text, destroy_text,
}
use rust_experiments.Mermaid.Diagram.{
  Event, create, arrow, destroy, event_text, diagram, Lifelines, follow, replay, replay_from-last,
  diagram-last,
}
use rust_experiments.Mermaid.Live.{
  IsDescending, remove_at-IsDescending, get_elem?-has, without-remove_at, remove_at-numbers,
  get_elem?-numbers,
}

-- The calls that a program has made.
pub data Call : Type 0 where
  created : Participant → String → Call
  joined : Participant → Participant → String → Call
  dropped : Participant → Call

-- A canvas after calls of the code, with the number of participants that it has created, those that
-- are not dropped, the last one first, and the calls, the last one last. Only the participants of this
-- canvas are the ends of an arrow here; the program owns a participant until its drop.
pub data Reachable (b : Build) : ℕ → Canvas → List Participant → List Call → Type 0 where
  starts : Reachable b 0 new [] []
  creates :
      {n : ℕ} {c c' : Canvas} {live : List Participant} {calls : List Call} {p : Participant}
      → Reachable b n c live calls
      → (s : String) → new_participant b s c ≡ ok (p, c')
      → Reachable b (suc n) c' (p ∷ live) (calls ++ created p s ∷ [])
  arrows :
      {n : ℕ} {c c' : Canvas} {live : List Participant} {calls : List Call} {p rhs : Participant}
      → Reachable b n c live calls
      → (j k : ℕ) (text : String) → get_elem? live j ≡ some p
      → get_elem? live k ≡ some rhs
      → add_arrow_to p rhs text c ≡ ok c'
      → Reachable b n c' live (calls ++ joined p rhs text ∷ [])
  drops :
      {n : ℕ} {c c' : Canvas} {live : List Participant} {calls : List Call} {p : Participant}
      → Reachable b n c live calls
      → (k : ℕ) → get_elem? live k ≡ some p
      → drop p c ≡ ok c'
      → Reachable b n c' (remove_at k live) (calls ++ dropped p ∷ [])

-- The event of a call.
abbrev pub Tells : Call → Event → Type 0
Tells (created p s) (create i name) = (p.i ≡ pos i) × (s ≡ name)
Tells (joined p rhs text) (arrow i j shown) = (p.i ≡ pos i) × (rhs.i ≡ pos j) × (text ≡ shown)
Tells (dropped p) (destroy i) = p.i ≡ pos i
Tells _ _ = ⊥

-- These events, and no others, in the order of the calls.
abbrev pub TellsAll : List Call → List Event → Type 0
TellsAll [] [] = Unit
TellsAll (call ∷ calls) (event ∷ events) = Tells call event × TellsAll calls events
TellsAll _ _ = ⊥

TellsAll-last :
    (calls : List Call) (events : List Event) (call : Call) (event : Event)
    → TellsAll calls events
    → Tells call event
    → TellsAll (calls ++ call ∷ []) (events ++ event ∷ [])
TellsAll-last [] [] call event told tells = (tells, tt)
TellsAll-last (c ∷ calls) (e ∷ events) call event told tells =
    (told.0, TellsAll-last calls events call event told.1 tells)
TellsAll-last [] (e ∷ events) call event told tells = absurd told
TellsAll-last (c ∷ calls) [] call event told tells = absurd told

-- The canvas holds the text of a diagram of the calls, and of the participants that there are.
pub record Draws (n : ℕ) (c : Canvas) (live : List Participant) (calls : List Call) : Type 0 where
  pub free : c.is_borrowed ≡ false
  pub counted : c.i ≡ pos n
  pub numbers : List ℕ
  pub numbered : map (λ p. p.i) live ≡ map pos numbers
  pub descending : IsDescending (suc n) numbers
  pub events : List Event
  pub told : TellsAll calls events
  pub drawn : c.contents ≡ diagram events
  pub replayed : replay events ≡ some (record { count = n; alive = numbers })

add_one : (n : ℕ) → n + 1 ≡ suc n
add_one n = omega arith

pub append-ok :
    (s : String) (c : Canvas)
    → c.is_borrowed ≡ false
    → append s c ≡ ok (record { contents = c.contents <> s; i = c.i; is_borrowed = false })
unfolding append
append-ok s c free = rw free

pub new_participant-ok :
    (b : Build) (n : ℕ) (s : String) (c : Canvas)
    → c.is_borrowed ≡ false
    → c.i ≡ pos n
    → suc n < 2 ^ 31
    → new_participant b s c
      ≡ ok (
        record { i = pos (suc n); name = s },
        record {
          contents = c.contents <> create_text (pos (suc n)) s;
          i = pos (suc n);
          is_borrowed = false;
        },
      )
unfolding new_participant append add32
new_participant-ok b n s c free counted h =
    simp (free, counted, lt→ltb (suc n) (2 ^ 31) h, add_one n)

-- One more event, that the lifelines allow.
draws_last :
    (events : List Event) (event : Event) (c : Canvas) (text : String) (before after : Lifelines)
    → c.contents ≡ diagram events
    → replay events ≡ some before
    → event_text event ≡ text
    → follow event before ≡ some after
    → (c.contents <> text ≡ diagram (events ++ event ∷ []))
      × (replay (events ++ event ∷ []) ≡ some after)
draws_last events event c text before after drawn replayed shown allowed = (
  rw (drawn, sym shown) (sym (diagram-last events event)),
  replay_from-last (some (record { count = 0; alive = [] })) events event ∙ rw (replayed, allowed),
)

creates-Draws :
    (b : Build) (n : ℕ) (c c' : Canvas) (live : List Participant) (calls : List Call)
    (p : Participant) (s : String)
    → suc n < 2 ^ 31
    → Draws n c live calls
    → new_participant b s c ≡ ok (p, c')
    → Draws (suc n) c' (p ∷ live) (calls ++ created p s ∷ [])
creates-Draws b n c c' live calls p s h d e =
    let made = ok-injective (sym (new_participant-ok b n s c d.free d.counted h) ∙ e) in
    let is_p : record { i = pos (suc n); name = s } ≡ p = ap (λ x. x.0) made in
    let is_c : record {
      contents = c.contents <> create_text (pos (suc n)) s;
      i = pos (suc n);
      is_borrowed = false;
    }
        ≡ c' =
      ap (λ x. x.1) made in
    let last =
      draws_last d.events (create (suc n) s) c (create_text (pos (suc n)) s)
        (record { count = n; alive = d.numbers })
        (record { count = suc n; alive = suc n ∷ d.numbers }) d.drawn d.replayed refl
        (rw (eq→== (suc n) (suc n) refl)) in
    record {
      free = sym (ap (λ x. x.is_borrowed) is_c);
      counted = sym (ap (λ x. x.i) is_c);
      numbers = suc n ∷ d.numbers;
      numbered = rw (sym (ap (λ x. x.i) is_p), d.numbered);
      descending = (omega arith, d.descending);
      events = d.events ++ create (suc n) s ∷ [];
      told =
          TellsAll-last calls d.events (created p s) (create (suc n) s) d.told
            (sym (ap (λ x. x.i) is_p), refl);
      drawn = sym (ap (λ x. x.contents) is_c) ∙ last.0;
      replayed = last.1;
    }

arrows-Draws :
    (n : ℕ) (c c' : Canvas) (live : List Participant) (calls : List Call) (p rhs : Participant)
    (j k : ℕ) (text : String)
    → Draws n c live calls
    → get_elem? live j ≡ some p
    → get_elem? live k ≡ some rhs
    → add_arrow_to p rhs text c ≡ ok c'
    → Draws n c' live (calls ++ joined p rhs text ∷ [])
unfolding add_arrow_to
arrows-Draws n c c' live calls p rhs j k text d at_j at_k e =
    let (from, from_at, is_from) =
      get_elem?-numbers (λ q. q.i) j live d.numbers p d.numbered at_j in
    let (to, to_at, is_to) = get_elem?-numbers (λ q. q.i) k live d.numbers rhs d.numbered at_k in
    let is_c = ok-injective (sym (append-ok (arrow_text p.i rhs.i text) c d.free) ∙ e) in
    let last =
      draws_last d.events (arrow from to text) c (arrow_text p.i rhs.i text)
        (record { count = n; alive = d.numbers }) (record { count = n; alive = d.numbers }) d.drawn
        d.replayed (rw (is_from, is_to))
        (rw (get_elem?-has j from d.numbers from_at, get_elem?-has k to d.numbers to_at)) in
    record {
      free = sym (ap (λ x. x.is_borrowed) is_c);
      counted = sym (ap (λ x. x.i) is_c) ∙ d.counted;
      numbers = d.numbers;
      numbered = d.numbered;
      descending = d.descending;
      events = d.events ++ arrow from to text ∷ [];
      told =
          TellsAll-last calls d.events (joined p rhs text) (arrow from to text) d.told
            (is_from, is_to, refl);
      drawn = sym (ap (λ x. x.contents) is_c) ∙ last.0;
      replayed = last.1;
    }

drops-Draws :
    (n : ℕ) (c c' : Canvas) (live : List Participant) (calls : List Call) (p : Participant) (k : ℕ)
    → Draws n c live calls
    → get_elem? live k ≡ some p
    → drop p c ≡ ok c'
    → Draws n c' (remove_at k live) (calls ++ dropped p ∷ [])
unfolding drop
drops-Draws n c c' live calls p k d at_k e =
    let (number, number_at, is_number) =
      get_elem?-numbers (λ q. q.i) k live d.numbers p d.numbered at_k in
    let is_c = ok-injective (sym (append-ok (destroy_text p.i) c d.free) ∙ e) in
    let last =
      draws_last d.events (destroy number) c (destroy_text p.i)
        (record { count = n; alive = d.numbers })
        (record { count = n; alive = remove_at k d.numbers }) d.drawn d.replayed (rw is_number)
        (rw (
          get_elem?-has k number d.numbers number_at,
          without-remove_at (suc n) k number d.numbers d.descending number_at,
        )) in
    record {
      free = sym (ap (λ x. x.is_borrowed) is_c);
      counted = sym (ap (λ x. x.i) is_c) ∙ d.counted;
      numbers = remove_at k d.numbers;
      numbered = remove_at-numbers (λ q. q.i) k live d.numbers d.numbered;
      descending = remove_at-IsDescending (suc n) k d.numbers d.descending;
      events = d.events ++ destroy number ∷ [];
      told = TellsAll-last calls d.events (dropped p) (destroy number) d.told is_number;
      drawn = sym (ap (λ x. x.contents) is_c) ∙ last.0;
      replayed = last.1;
    }

pub Reachable-Draws :
    (b : Build) (n : ℕ) (c : Canvas) (live : List Participant) (calls : List Call)
    → n < 2 ^ 31
    → Reachable b n c live calls
    → Draws n c live calls
Reachable-Draws b n c live calls h starts = record {
  free = refl;
  counted = refl;
  numbers = [];
  numbered = refl;
  descending = tt;
  events = [];
  told = tt;
  drawn = sym (append-nil header);
  replayed = refl;
}
Reachable-Draws b n c live calls h
      (creates {n = m} {c = c0} {live = live0} {calls = calls0} {p = p} before s e) =
    creates-Draws b m c0 c live0 calls0 p s h
      (Reachable-Draws b m c0 live0 calls0 (omega arith) before) e
Reachable-Draws b n c live calls h
      (arrows {c = c0} {calls = calls0} {p = p} {rhs = rhs} before j k text at_j at_k e) =
    arrows-Draws n c0 c live calls0 p rhs j k text (Reachable-Draws b n c0 live calls0 h before)
      at_j at_k e
Reachable-Draws b n c live calls h
      (drops {c = c0} {live = live0} {calls = calls0} {p = p} before k at_k e) =
    drops-Draws n c0 c live0 calls0 p k (Reachable-Draws b n c0 live0 calls0 h before) at_k e
