-- ===== src/Outline/Defs.antt =====
-- step04_pest/code/src/main.rs: `traverse`, over the pairs of the parser, whose rules are a parameter.
use rust_experiments.Prelude.{ℕ, zero, suc, ◌+◌, List, [], ◌∷◌, ◌++◌, String, ◌<>◌, map}

module _ (Rule : Type 0) where
  -- A pair of the parser, with its rule and its part of the text, and what is in it.
  mutual
    pub data Pair : Type 0 where
      pair : Rule → String → Pairs → Pair

    pub data Pairs : Type 0 where
      no_more : Pairs
      next_to : Pair → Pairs → Pairs

  -- What a line shows.
  pub record Line : Type 0 where
    pub indent : ℕ
    pub rule : Rule
    pub text : String

  unfoldable mutual
    pub traverse : Pair → ℕ → List Line
    traverse (pair rule text inner) indent =
        record { indent = indent; rule = rule; text = text } ∷ traverse_each inner (indent + 2)

    -- `for_each(|e| traverse(e, indent))`
    pub traverse_each : Pairs → ℕ → List Line
    traverse_each no_more indent = []
    traverse_each (next_to p pairs) indent = traverse p indent ++ traverse_each pairs indent

  abbrev pub repeat : ℕ → String
  repeat zero = ""
  repeat (suc n) = " " <> repeat n

  -- `println!("{}{:?} {}", " ".repeat(indent), token.as_rule(), token.as_str())`
  abbrev pub print : (Rule → String) → Line → String
  print debug line = repeat line.indent <> (debug line.rule <> (" " <> line.text))

  -- All lines, each with its end.
  abbrev pub println : List String → String
  println [] = ""
  println (line ∷ lines) = line <> ("\n" <> println lines)

  -- What the pairs of a text print, one after the other.
  unfoldable pub outline : (Rule → String) → Pairs → String
  unfolding traverse_each
  outline debug pairs = println (map (print debug) (traverse_each pairs 0))
