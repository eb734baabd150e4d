-- ===== src/Text/Contains.antt =====
-- Rust's `contains` on texts.
use Prim.Native.Char.{code}
use Prim.Native.String.append
use Prim.Native.String.find
use Prim.Native.String.{find, len, begins}
use text.Mathlib.TextPositions.{compare_self}
use rust_experiments.Prelude.{ℕ, ◌≡◌, ◌∙◌, ap, String, ◌<>◌, Bool, true, leb, arith}

abbrev pub contains : String → String → Bool
contains s t = leb (find s t) (len s)

begins-append : (t v : String) (y n : ℕ) → begins (t <> v) t y n ≡ y
begins-append String.[] v y n = ap (λ s. begins s String.[] y n) (append.nil v)
begins-append (String.◌∷◌ d t) v y n =
    rw (append.cons d t v, compare_self (code d)) (begins-append t v y n)

find-begins : (s t : String) → ((n : ℕ) → begins s t 0 n ≡ 0) → find s t ≡ 0
find-begins String.[] t h = find.nil t ∙ h 1
find-begins (String.◌∷◌ c s) t h = find.cons c s t ∙ h _

-- A text contains what it begins with.
pub contains-append : (t v : String) → contains (t <> v) t ≡ true
contains-append t v =
    let here = find-begins (t <> v) t (begins-append t v 0) in ground (arith, here)
