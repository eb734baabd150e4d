-- ===== src/Http/Str.antt =====
-- The operations of Rust's `str` that lib/http.rs uses, on the code points of a text.
use Prim.Native.Char.{code}
use Prim.Native.String.{String}
use rust_experiments.Prelude.{
  ℕ, ◌+◌, List, [], ◌∷◌, Bool, true, false, ◌&&◌, ◌||◌, leb, ◌==◌, if◌then◌else◌,
}

abbrev pub Text : Type 0
Text = List ℕ

abbrev pub codes : String → Text
codes String.[] = []
codes (String.◌∷◌ c s) = code c ∷ codes s

-- `c ∷` in front of the first part.
abbrev pub prepend : ℕ → List Text → List Text
prepend c [] = (c ∷ []) ∷ []
prepend c (part ∷ parts) = (c ∷ part) ∷ parts

unfoldable pub split : ℕ → Text → List Text
split sep [] = [] ∷ []
split sep (c ∷ s) = let parts = split sep s in if c == sep then [] ∷ parts else prepend c parts

-- `.next().unwrap_or("")`
abbrev pub first_or_empty : List Text → Text
first_or_empty [] = []
first_or_empty (part ∷ parts) = part

-- `char::is_whitespace`: the property `White_Space` of Unicode.
unfoldable pub is_whitespace : ℕ → Bool
is_whitespace c =
    (leb 9 c && leb c 13)
    || c == 32
    || c == 133
    || c == 160
    || c == 5760
    || (leb 8192 c && leb c 8202)
    || c == 8232
    || c == 8233
    || c == 8239
    || c == 8287
    || c == 12_288

unfoldable pub trim_start : Text → Text
trim_start [] = []
trim_start (c ∷ s) = let rest = trim_start s in if is_whitespace c then rest else c ∷ s

-- `rest` is what is left of the text after `c`.
abbrev pub keep_before : ℕ → Text → Text
keep_before c [] = if is_whitespace c then [] else c ∷ []
keep_before c (d ∷ rest) = c ∷ d ∷ rest

unfoldable pub trim_end : Text → Text
trim_end [] = []
trim_end (c ∷ s) = keep_before c (trim_end s)

unfoldable pub trim : Text → Text
unfolding trim_start trim_end
trim s = trim_end (trim_start s)

unfoldable pub to_ascii_lowercase : ℕ → ℕ
to_ascii_lowercase c = if leb 65 c && leb c 90 then c + 32 else c

unfoldable pub eq_ignore_ascii_case : Text → Text → Bool
unfolding to_ascii_lowercase
eq_ignore_ascii_case [] [] = true
eq_ignore_ascii_case (c ∷ s) (d ∷ t) =
    to_ascii_lowercase c == to_ascii_lowercase d && eq_ignore_ascii_case s t
eq_ignore_ascii_case _ _ = false
