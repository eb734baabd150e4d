-- ===== src/Http/Ranges.antt =====
-- The header `Accept` of lib/http.rs as it is written: media ranges between commas.
use rust_experiments.Prelude.{
  ℕ, ◌≡◌, refl, ap, ◌∙◌, List, [], ◌∷◌, ◌++◌, map, Option, none, some, false, All, append-nil,
  ne→==,
}
use rust_experiments.Http.Str.{Text, split, first_or_empty, is_whitespace}
use rust_experiments.Http.Defs.{media_type}
use rust_experiments.Http.Split.{
  Without, IsBlank, IsSolid, join, split-first, split-whole, split-join, trim-solid,
}

-- A range: the name of the type between blanks, and the text of its parameters after a `;`.
pub record MediaRange : Type 0 where
  pub before : Text
  pub name : Text
  pub after : Text
  pub parameters : Option Text

abbrev show_parameters : Option Text → Text
show_parameters none = []
show_parameters (some text) = b';' ∷ text

abbrev pub show : MediaRange → Text
show r = (r.before ++ (r.name ++ r.after)) ++ show_parameters r.parameters

abbrev IsParameters : Option Text → Type 0
IsParameters none = Unit
IsParameters (some text) = Without b',' text

pub record IsRange (r : MediaRange) : Type 0 where
  pub before_blank : IsBlank r.before
  pub after_blank : IsBlank r.after
  pub solid : IsSolid r.name
  pub no_comma : Without b',' r.name
  pub no_semicolon : Without b';' r.name
  pub parameters_no_comma : IsParameters r.parameters

-- A value of the header.
abbrev pub show_ranges : List MediaRange → Text
show_ranges ranges = join b',' (map show ranges)

blank_not : (sep : ℕ) → is_whitespace sep ≡ false → (b : Text) → IsBlank b → Without sep b
unfolding is_whitespace
blank_not sep h [] hb = tt
blank_not sep h (c ∷ b) hb =
    (ne→== c sep (λ e. absurd (cc (hb.0, h, ap is_whitespace e))), blank_not sep h b hb.1)

Without-append : (sep : ℕ) (s t : Text) → Without sep s → Without sep t → Without sep (s ++ t)
Without-append sep [] t hs ht = ht
Without-append sep (c ∷ s) t hs ht = (hs.0, Without-append sep s t hs.1 ht)

name_Without :
    (sep : ℕ)
    → is_whitespace sep ≡ false
    → (r : MediaRange) → IsRange r
    → Without sep r.name
    → Without sep (r.before ++ (r.name ++ r.after))
name_Without sep h r hr hn =
    Without-append sep r.before (r.name ++ r.after) (blank_not sep h r.before hr.before_blank)
      (Without-append sep r.name r.after hn (blank_not sep h r.after hr.after_blank))

parameters_Without : (o : Option Text) → IsParameters o → Without b',' (show_parameters o)
parameters_Without none h = tt
parameters_Without (some text) h = (refl, h)

show-Without : (r : MediaRange) → IsRange r → Without b',' (show r)
unfolding is_whitespace
show-Without r h =
    Without-append b',' (r.before ++ (r.name ++ r.after)) (show_parameters r.parameters)
      (name_Without b',' refl r h h.no_comma)
      (parameters_Without r.parameters h.parameters_no_comma)

first_part :
    (s : Text) (o : Option Text)
    → Without b';' s
    → first_or_empty (split b';' (s ++ show_parameters o)) ≡ s
first_part s none h = rw (append-nil s, split-whole b';' s h)
first_part s (some text) h = rw (split-first b';' s text h)

pub media_type-show : (r : MediaRange) → IsRange r → media_type (show r) ≡ r.name
unfolding is_whitespace
media_type-show r h =
    rw
      (first_part (r.before ++ (r.name ++ r.after)) r.parameters
        (name_Without b';' refl r h h.no_semicolon))
      (trim-solid r.before r.name r.after h.before_blank h.solid h.after_blank)

pub media_types-show :
    (ranges : List MediaRange)
    → All IsRange ranges
    → map media_type (map show ranges) ≡ map (λ r. r.name) ranges
media_types-show [] h = refl
media_types-show (r ∷ ranges) h = rw (media_type-show r h.0, media_types-show ranges h.1)

shown : (rs : List MediaRange) → All IsRange rs → All (Without b',') (map show rs)
shown [] h = tt
shown (r ∷ rs) h = (show-Without r h.0, shown rs h.1)

-- The media types that the code reads in the values of the header.
pub media_types-show_ranges :
    (r : MediaRange) (ranges : List MediaRange)
    → All IsRange (r ∷ ranges)
    → map media_type (split b',' (show_ranges (r ∷ ranges))) ≡ map (λ q. q.name) (r ∷ ranges)
media_types-show_ranges r ranges h =
    ap (map media_type)
      (split-join b',' (show r) (map show ranges) (show-Without r h.0, shown ranges h.1))
    ∙ media_types-show (r ∷ ranges) h
