-- ===== src/Outline/Lines.antt =====
-- step04_pest/code/src/main.rs: what `traverse` prints, read back line by line.
use Prim.Native.Char.{Char, code}
use Prim.Native.String.{char_at}
use text.Mathlib.TextLemmas.{nil-append, cons-append, append_assoc as append-assoc}
use rust_experiments.Prelude.{
  ℕ, zero, suc, ◌≡◌, refl, ap, ◌∙◌, List, [], ◌∷◌, map, String, ◌<>◌, Bool, true, false, ◌==◌, ◌||◌,
  not, if◌then◌else◌, All, Bool-cases, inl, inr,
}
use rust_experiments.Outline.Defs.{Line, repeat, print, println}

abbrev pub has_code : ℕ → String → Bool
has_code sep String.[] = false
has_code sep (String.◌∷◌ c s) = code c == sep || has_code sep s

-- A name is not empty and has no blank.
abbrev pub is_name : String → Bool
is_name String.[] = false
is_name (String.◌∷◌ c s) = not (has_code 32 (String.◌∷◌ c s))

-- The text up to the first blank, and the text after it.
unfoldable pub first_word : String → String × String
first_word String.[] = ("", "")
first_word (String.◌∷◌ c s) =
    let rest = first_word s in if code c == 32 then ("", s) else (String.◌∷◌ c rest.0, rest.1)

-- The number of blanks in front of a text, and the text after them.
unfoldable pub blanks : String → ℕ × String
blanks String.[] = (0, "")
blanks (String.◌∷◌ c s) =
    let rest = blanks s in if code c == 32 then (suc rest.0, rest.1) else (0, String.◌∷◌ c s)

abbrev pub prepend : Char → List String → List String
prepend c [] = String.◌∷◌ c "" ∷ []
prepend c (line ∷ lines) = String.◌∷◌ c line ∷ lines

-- The lines of a text, without their ends.
unfoldable pub lines_of : String → List String
lines_of String.[] = []
lines_of (String.◌∷◌ c s) =
    let rest = lines_of s in if code c == 10 then "" ∷ rest else prepend c rest

neither : (x y : Bool) → (x || y) ≡ false → (x ≡ false) × (y ≡ false)
neither false y h = (refl, h)
neither true y h = cc

first_word-blank :
    (name text : String)
    → has_code 32 name ≡ false
    → first_word (name <> (" " <> text)) ≡ (name, text)
unfolding first_word
first_word-blank String.[] text h =
    ap first_word (nil-append (" " <> text) ∙ cons-append (char_at " " 0) "" text)
    ∙ ap (λ t. ("", t)) (nil-append text)
first_word-blank (String.◌∷◌ c s) text h =
    let (here, there) = neither (code c == 32) (has_code 32 s) h in
    ap first_word (cons-append c s (" " <> text)) ∙ rw (here, first_word-blank s text there)

lines_of-end :
    (line text : String)
    → has_code 10 line ≡ false
    → lines_of (line <> ("\n" <> text)) ≡ line ∷ lines_of text
unfolding lines_of
lines_of-end String.[] text h =
    ap lines_of (nil-append ("\n" <> text) ∙ cons-append (char_at "\n" 0) "" text)
    ∙ ap (λ t. "" ∷ lines_of t) (nil-append text)
lines_of-end (String.◌∷◌ c s) text h =
    let (here, there) = neither (code c == 10) (has_code 10 s) h in
    ap lines_of (cons-append c s ("\n" <> text)) ∙ rw (here, lines_of-end s text there)

blanks-name : (name text : String) → is_name name ≡ true → blanks (name <> text) ≡ (0, name <> text)
unfolding blanks
blanks-name String.[] text h = cc
blanks-name (String.◌∷◌ c s) text h = elim (Bool-cases (code c == 32)) [
  | inl blank ↦ absurd (cc (rw blank at h))
  | inr solid ↦ rw (cons-append c s text, solid)
]

blanks-repeat :
    (Rule : Type 0) (n : ℕ) (name text : String)
    → is_name name ≡ true
    → blanks (repeat Rule n <> (name <> text)) ≡ (n, name <> text)
unfolding blanks
blanks-repeat Rule zero name text h =
    ap blanks (nil-append (name <> text)) ∙ blanks-name name text h
blanks-repeat Rule (suc n) name text h =
    let more = repeat Rule n <> (name <> text) in
    ap blanks (
      append-assoc " " (repeat Rule n) (name <> text)
      ∙ cons-append (char_at " " 0) "" more
      ∙ ap (String.◌∷◌ (char_at " " 0)) (nil-append more))
    ∙ ap (λ r. (suc r.0, r.1)) (blanks-repeat Rule n name text h)

is_name-blank : (name : String) → is_name name ≡ true → has_code 32 name ≡ false
is_name-blank String.[] h = cc
is_name-blank (String.◌∷◌ c s) h = elim (Bool-cases (has_code 32 (String.◌∷◌ c s))) [
  | inl blank ↦ absurd (cc (rw blank at h))
  | inr none ↦ none
]

module _ (Rule : Type 0) (debug : Rule → String) (rule_named : String → Rule) where
  unfoldable pub read_line : String → Line Rule
  unfolding first_word blanks
  read_line s =
      let (indent, rest) = blanks s in
      let (name, text) = first_word rest in
      record { indent = indent; rule = rule_named name; text = text }

  module _ (names : (r : Rule) → is_name (debug r) ≡ true)
      (known : (r : Rule) → rule_named (debug r) ≡ r) where
    read_line-print : (line : Line Rule) → read_line (print Rule debug line) ≡ line
    unfolding read_line
    read_line-print line =
        let name = debug line.rule in
        rw (
          blanks-repeat Rule line.indent name (" " <> line.text) (names line.rule),
          first_word-blank name line.text (is_name-blank name (names line.rule)),
          known line.rule,
        )

    pub read_line-println :
        (lines : List (Line Rule))
        → All (λ line. has_code 10 (print Rule debug line) ≡ false) lines
        → map read_line (lines_of (println Rule (map (print Rule debug) lines))) ≡ lines
    unfolding lines_of
    read_line-println [] h = refl
    read_line-println (line ∷ lines) h =
        let rest = println Rule (map (print Rule debug) lines) in
        ap (map read_line) (lines_of-end (print Rule debug line) rest h.0)
        ∙ rw (read_line-print line, read_line-println lines h.1)
