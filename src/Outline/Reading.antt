-- ===== src/Outline/Reading.antt =====
-- step04_pest/code/src/main.rs: what is printed shows the whole tree, since it can be read back.
use rust_experiments.Prelude.{
  length, length-append, ℕ, zero, suc, ◌+◌, ◌<◌, ◌≤◌, ◌≡◌, refl, sym, ap, ◌∙◌, List, [], ◌∷◌, ◌++◌,
  append_assoc, append-nil, String, map, All, true, false, ◌==◌, if◌then◌else◌, eq→==, ne→==, arith,
}
use rust_experiments.Outline.Defs.{
  Pair, pair, Pairs, no_more, next_to, Line, traverse, traverse_each, print, outline,
}
use rust_experiments.Outline.Lines.{has_code, is_name, lines_of, read_line, read_line-println}

module _ (Rule : Type 0) where
  abbrev mutual
    pub size : Pair Rule → ℕ
    size (pair rule text inner) = suc (size_each inner)

    pub size_each : Pairs Rule → ℕ
    size_each no_more = 0
    size_each (next_to p pairs) = size p + size_each pairs

  abbrev put :
      Rule
      → String
      → (Pairs Rule × List (Line Rule))
      → (Pairs Rule × List (Line Rule))
      → Pairs Rule × List (Line Rule)
  put rule text (inner, _) (others, rest) = (next_to (pair rule text inner) others, rest)

  -- The pairs whose lines stand first, each at this indent, and the lines that follow.
  unfoldable pub read_each : ℕ → ℕ → List (Line Rule) → Pairs Rule × List (Line Rule)
  read_each zero indent lines = (no_more, lines)
  read_each (suc fuel) indent [] = (no_more, [])
  read_each (suc fuel) indent (line ∷ lines) =
      let inner = read_each fuel (indent + 2) lines in
      let others = read_each fuel indent inner.1 in
      if line.indent == indent
      then put line.rule line.text inner others
      else (no_more, line ∷ lines)

  -- The lines that follow belong further out.
  abbrev Outside : ℕ → List (Line Rule) → Type 0
  Outside indent [] = Unit
  Outside indent (line ∷ lines) = line.indent < indent

  Outside-more :
      (indent : ℕ) (lines : List (Line Rule)) → Outside indent lines → Outside (indent + 2) lines
  Outside-more indent [] h = tt
  Outside-more indent (line ∷ lines) h = omega arith

  Outside-next :
      (pairs : Pairs Rule) (indent : ℕ) (rest : List (Line Rule))
      → Outside indent rest
      → Outside (indent + 2) (traverse_each Rule pairs indent ++ rest)
  unfolding traverse_each
  Outside-next no_more indent rest h = Outside-more indent rest h
  Outside-next (next_to (pair rule text inner) pairs) indent rest h = omega arith

  read_each-Outside :
      (fuel indent : ℕ) (rest : List (Line Rule))
      → Outside indent rest
      → read_each fuel indent rest ≡ (no_more, rest)
  unfolding read_each
  read_each-Outside zero indent rest h = refl
  read_each-Outside (suc fuel) indent [] h = refl
  read_each-Outside (suc fuel) indent (line ∷ lines) h =
      rw (ne→== line.indent indent (λ e. absurd (omega arith)))

  read_each-rest :
      (fuel : ℕ) (pairs : Pairs Rule) (indent : ℕ) (rest : List (Line Rule))
      → size_each pairs ≤ fuel
      → Outside indent rest
      → read_each fuel indent (traverse_each Rule pairs indent ++ rest) ≡ (pairs, rest)
  unfolding read_each traverse_each
  read_each-rest fuel no_more indent rest h out = read_each-Outside fuel indent rest out
  read_each-rest zero (next_to (pair rule text inner) pairs) indent rest h out =
      absurd (omega arith)
  read_each-rest (suc fuel) (next_to (pair rule text inner) pairs) indent rest h out =
      let assoc =
        append_assoc (traverse_each Rule inner (indent + 2)) (traverse_each Rule pairs indent)
          rest in
      let first =
        ap (read_each fuel (indent + 2)) assoc
        ∙ read_each-rest fuel inner (indent + 2) (traverse_each Rule pairs indent ++ rest)
            (omega arith) (Outside-next pairs indent rest out) in
      let others = read_each-rest fuel pairs indent rest (omega arith) out in
      rw (eq→== indent indent refl) (
        ap (λ p. put rule text p (read_each fuel indent p.1)) first
        ∙ ap (put rule text (inner, traverse_each Rule pairs indent ++ rest)) others)

  mutual
    unfolding traverse traverse_each

    length-traverse : (p : Pair Rule) (indent : ℕ) → length (traverse Rule p indent) ≡ size p
    length-traverse (pair rule text inner) indent = ap suc (length-traverse_each inner (indent + 2))

    length-traverse_each :
        (pairs : Pairs Rule) (indent : ℕ)
        → length (traverse_each Rule pairs indent) ≡ size_each pairs
    length-traverse_each no_more indent = refl
    length-traverse_each (next_to p pairs) indent = omega (
      arith,
      length-append (traverse Rule p indent) (traverse_each Rule pairs indent),
      length-traverse p indent,
      length-traverse_each pairs indent,
    )

  unfoldable pub read_outline : List (Line Rule) → Pairs Rule
  unfolding read_each
  read_outline lines = (read_each (length lines) 0 lines).0

  read_outline-traverse_each :
      (pairs : Pairs Rule) → read_outline (traverse_each Rule pairs 0) ≡ pairs
  unfolding read_outline
  read_outline-traverse_each pairs =
      let lines = traverse_each Rule pairs 0 in
      let fuel = length lines in
      ap (λ ls. (read_each fuel 0 ls).0) (sym (append-nil lines))
      ∙ ap (λ p. p.0)
          (read_each-rest fuel pairs 0 [] (omega (arith, length-traverse_each pairs 0)) tt)

  -- Let each rule print as a name with no blank, by which it is known, and let no printed line have a
  -- newline within it. From the text that `traverse` prints for the pairs of a parsed text, each of them from
  -- indent 0, the pairs are read back, with their rules, their texts and all that is in them: the blanks in
  -- front of the lines alone show the tree.
  pub read_outline-outline :
      (debug : Rule → String) (rule_named : String → Rule) (pairs : Pairs Rule)
      → ((r : Rule) → is_name (debug r) ≡ true)
      → ((r : Rule) → rule_named (debug r) ≡ r)
      → All (λ line. has_code 10 (print Rule debug line) ≡ false) (traverse_each Rule pairs 0)
      → read_outline (map (read_line Rule debug rule_named) (lines_of (outline Rule debug pairs)))
        ≡ pairs
  unfolding outline
  read_outline-outline debug rule_named pairs names known one_line =
      ap read_outline
        (read_line-println Rule debug rule_named names known (traverse_each Rule pairs 0) one_line)
      ∙ read_outline-traverse_each pairs
