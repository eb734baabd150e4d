-- ===== src/Outline/Examples.antt =====
-- step04_pest/code/src/main.rs: an outline, printed and read back.
use text.Mathlib.Text.{◌==◌ as ◌===◌}
use rust_experiments.Prelude.{◌≡◌, refl, String, map, if◌then◌else◌, true}
use rust_experiments.Outline.Defs.{pair, Pairs, no_more, next_to, outline, traverse_each}
use rust_experiments.Outline.Lines.{lines_of, read_line, is_name}
use rust_experiments.Outline.Reading.{read_outline, read_outline-outline}

-- Some rules of the grammar.
data Rule : Type 0 where
  camel_back : Rule
  camel_case : Rule
  lo : Rule
  up : Rule
  end_of_input : Rule

abbrev debug : Rule → String
debug camel_back = "camel_back"
debug camel_case = "camel_case"
debug lo = "lo"
debug up = "up"
debug end_of_input = "EOI"

abbrev rule_named : String → Rule
rule_named name =
    if name === "camel_back"
    then camel_back
    else if name === "camel_case"
    then camel_case
    else if name === "lo"
    then lo
    else if name === "up"
    then up
    else end_of_input

debug-is_name : (r : Rule) → is_name (debug r) ≡ true
debug-is_name camel_back = refl
debug-is_name camel_case = refl
debug-is_name lo = refl
debug-is_name up = refl
debug-is_name end_of_input = refl

rule_named-debug : (r : Rule) → rule_named (debug r) ≡ r
rule_named-debug camel_back = refl
rule_named-debug camel_case = refl
rule_named-debug lo = refl
rule_named-debug up = refl
rule_named-debug end_of_input = refl

-- Of "aB1", with the characters of its parts.
abbrev parsed : Pairs Rule
parsed =
    next_to
      (pair camel_back "aB1" (
        next_to (pair lo "a" no_more)
          (next_to (pair camel_case "B1" (next_to (pair up "B" no_more) no_more)) no_more)))
      (next_to (pair end_of_input "" no_more) no_more)

read_outline-outline_example :
    read_outline Rule (map (read_line Rule debug rule_named) (lines_of (outline Rule debug parsed)))
    ≡ parsed
unfolding traverse_each
read_outline-outline_example =
    read_outline-outline Rule debug rule_named parsed debug-is_name rule_named-debug
      (refl, (refl, (refl, (refl, (refl, tt)))))

printed : outline Rule debug parsed ≡ "camel_back aB1\n  lo a\n  camel_case B1\n    up B\nEOI \n"
unfolding outline
printed = refl
