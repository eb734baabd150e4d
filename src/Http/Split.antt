-- ===== src/Http/Split.antt =====
-- Texts that are split, trimmed and compared, each with what it was put together from.
use rust_experiments.Prelude.{
  ℕ, ◌≡◌, refl, sym, ap, ◌∙◌, List, [], ◌∷◌, ◌++◌, map, true, false, ◌==◌, All, eq→==, ==→eq,
  Bool-cases, inl, inr, append-nil,
}
use rust_experiments.Http.Str.{
  Text, split, is_whitespace, trim_start, trim_end, keep_before, trim, to_ascii_lowercase,
  eq_ignore_ascii_case,
}

abbrev pub Without : ℕ → Text → Type 0
Without sep = All (λ c. (c == sep) ≡ false)

abbrev pub IsBlank : Text → Type 0
IsBlank = All (λ c. is_whitespace c ≡ true)

abbrev pub IsSolid : Text → Type 0
IsSolid = All (λ c. is_whitespace c ≡ false)

-- The parts with `sep` between them.
abbrev pub join : ℕ → List Text → Text
join sep [] = []
join sep (s ∷ []) = s
join sep (s ∷ t ∷ parts) = s ++ sep ∷ join sep (t ∷ parts)

module _ (sep : ℕ) where
  pub split-first :
      (s rest : Text) → Without sep s → split sep (s ++ sep ∷ rest) ≡ s ∷ split sep rest
  unfolding split
  split-first [] rest h = rw (eq→== sep sep refl)
  split-first (c ∷ s) rest h = rw (h.0, split-first s rest h.1)

  pub split-whole : (s : Text) → Without sep s → split sep s ≡ s ∷ []
  unfolding split
  split-whole [] h = refl
  split-whole (c ∷ s) h = rw (h.0, split-whole s h.1)

  pub split-join :
      (s : Text) (parts : List Text)
      → All (Without sep) (s ∷ parts)
      → split sep (join sep (s ∷ parts)) ≡ s ∷ parts
  split-join s [] h = split-whole s h.0
  split-join s (t ∷ parts) h =
      split-first s (join sep (t ∷ parts)) h.0 ∙ ap (λ x. s ∷ x) (split-join t parts h.1)

trim_start-blank : (b s : Text) → IsBlank b → trim_start (b ++ s) ≡ trim_start s
unfolding trim_start
trim_start-blank [] s h = refl
trim_start-blank (c ∷ b) s h = rw (h.0, trim_start-blank b s h.1)

keep_before-solid : (c : ℕ) (s : Text) → is_whitespace c ≡ false → keep_before c s ≡ c ∷ s
keep_before-solid c [] h = rw h
keep_before-solid c (d ∷ s) h = refl

trim_end-blank : (b : Text) → IsBlank b → trim_end b ≡ []
unfolding trim_end
trim_end-blank [] h = refl
trim_end-blank (c ∷ b) h = rw (trim_end-blank b h.1, h.0)

trim_end-solid : (s b : Text) → IsSolid s → IsBlank b → trim_end (s ++ b) ≡ s
unfolding trim_end
trim_end-solid [] b hs hb = trim_end-blank b hb
trim_end-solid (c ∷ s) b hs hb =
    ap (keep_before c) (trim_end-solid s b hs.1 hb) ∙ keep_before-solid c s hs.0

trim_start-solid : (s b : Text) → IsSolid s → IsBlank b → trim_end (trim_start (s ++ b)) ≡ s
unfolding trim_start trim_end
trim_start-solid [] b hs hb = rw (sym (append-nil b), trim_start-blank b [] hb)
trim_start-solid (c ∷ s) b hs hb = rw (hs.0, trim_end-solid s b hs.1 hb, keep_before-solid c s hs.0)

pub trim-solid :
    (before s after : Text)
    → IsBlank before
    → IsSolid s
    → IsBlank after
    → trim (before ++ (s ++ after)) ≡ s
unfolding trim
trim-solid before s after hb hs ha =
    ap trim_end (trim_start-blank before (s ++ after) hb) ∙ trim_start-solid s after hs ha

pub lowercase→eq :
    (s t : Text)
    → map to_ascii_lowercase s ≡ map to_ascii_lowercase t
    → eq_ignore_ascii_case s t ≡ true
unfolding eq_ignore_ascii_case
lowercase→eq [] [] e = refl
lowercase→eq [] (d ∷ t) e = cc
lowercase→eq (c ∷ s) [] e = cc
lowercase→eq (c ∷ s) (d ∷ t) e =
    rw (eq→== (to_ascii_lowercase c) (to_ascii_lowercase d) cc, lowercase→eq s t cc)

pub eq→lowercase :
    (s t : Text)
    → eq_ignore_ascii_case s t ≡ true
    → map to_ascii_lowercase s ≡ map to_ascii_lowercase t
unfolding eq_ignore_ascii_case
eq→lowercase [] [] e = refl
eq→lowercase [] (d ∷ t) e = cc
eq→lowercase (c ∷ s) [] e = cc
eq→lowercase (c ∷ s) (d ∷ t) e = elim (Bool-cases (to_ascii_lowercase c == to_ascii_lowercase d)) [
  | inl f ↦ rw (==→eq _ _ f, eq→lowercase s t (rw f at e))
  | inr f ↦ absurd (cc (rw f at e))
]
