-- ===== src/Http/Examples.antt =====
-- lib/http.rs at concrete headers: the cases of its test, and two values of one header.
use rust_experiments.Prelude.{
  ℕ, inl, inr, if◌then◌else◌, Bool-cases, Bool, All, ◌==◌, ◌≡◌, refl, ◌⊎◌, ◌↔◌, List, [], ◌∷◌, ◌++◌,
  none, some, true, false,
}
use rust_experiments.Http.Str.{
  Text, codes, split, is_whitespace, trim, trim_start, trim_end, eq_ignore_ascii_case,
  to_ascii_lowercase,
}
use rust_experiments.Http.Defs.{
  Web, page, ok_response, accept_header_contains_text_html, json_or_html, markdown_or_html,
}
use rust_experiments.Http.Ranges.{MediaRange, IsRange}
use rust_experiments.Http.Accept.{
  AsksForHtml, accept_header_contains_text_html-show_ranges, markdown_or_html-show_ranges,
}

-- The header map is the values of `Accept`; a page is its text between tags.
abbrev pub web : Web
web = record {
  HeaderMap = List Text;
  HeaderValue = Text;
  get_all_accept = λ headers. headers;
  to_str = λ value. some value;
  render_json_page = λ text. some (codes "<pre>" ++ text);
  render_markdown_page = λ text. none;
  markdown_to_html = λ text. codes "<p>" ++ text;
  clean = λ text. text;
}

abbrev json_range : MediaRange
json_range = record { before = []; name = codes "application/json"; after = []; parameters = none }

abbrev html_range : MediaRange
html_range = record {
  before = codes " ";
  name = codes "Text/Html";
  after = [];
  parameters = some (codes " q=0.5");
}

abbrev pub values : List (List MediaRange)
values = (json_range ∷ html_range ∷ []) ∷ []

abbrev pub headers : List Text
headers = codes "application/json, Text/Html; q=0.5" ∷ []

abbrev none_of : (ℕ → Bool) → Text → Bool
none_of p [] = true
none_of p (c ∷ s) = if p c then false else none_of p s

none_of→All : (p : ℕ → Bool) (s : Text) → none_of p s ≡ true → All (λ c. p c ≡ false) s
none_of→All p [] h = tt
none_of→All p (c ∷ s) h = elim (Bool-cases (p c)) [
  | inl e ↦ absurd (cc (rw e at h))
  | inr e ↦ (e, none_of→All p s (rw e at h))
]

json_range-IsRange : IsRange json_range
unfolding is_whitespace
json_range-IsRange = record {
  before_blank = tt;
  after_blank = tt;
  solid = none_of→All is_whitespace json_range.name refl;
  no_comma = none_of→All (λ c. c == b',') json_range.name refl;
  no_semicolon = none_of→All (λ c. c == b';') json_range.name refl;
  parameters_no_comma = tt;
}

html_range-IsRange : IsRange html_range
unfolding is_whitespace
html_range-IsRange = record {
  before_blank = (refl, tt);
  after_blank = tt;
  solid = none_of→All is_whitespace html_range.name refl;
  no_comma = none_of→All (λ c. c == b',') html_range.name refl;
  no_semicolon = none_of→All (λ c. c == b';') html_range.name refl;
  parameters_no_comma = none_of→All (λ c. c == b',') (codes " q=0.5") refl;
}

pub values-IsRange : All (All IsRange) values
values-IsRange = ((json_range-IsRange, (html_range-IsRange, tt)), tt)

accept_header_contains_text_html-show_ranges_example :
    (accept_header_contains_text_html web headers ≡ true) ↔ AsksForHtml values
accept_header_contains_text_html-show_ranges_example =
    accept_header_contains_text_html-show_ranges web headers values values-IsRange refl

markdown_or_html-show_ranges_example :
    (AsksForHtml values
      × (json_or_html web headers (codes "{}") ≡ page web (some (codes "<pre>{}")))
      × (markdown_or_html web headers (codes "{}") ≡ page web none))
    ⊎ ((¬ AsksForHtml values)
        × (json_or_html web headers (codes "{}")
            ≡ ok_response (codes "application/json") (codes "{}"))
        × (markdown_or_html web headers (codes "{}")
            ≡ ok_response (codes "text/markdown") (codes "{}")))
markdown_or_html-show_ranges_example =
    markdown_or_html-show_ranges web headers values (codes "{}") values-IsRange refl

one_type : accept_header_contains_text_html web (codes "text/html" ∷ []) ≡ true
unfolding accept_header_contains_text_html split is_whitespace trim trim_start trim_end
    eq_ignore_ascii_case to_ascii_lowercase
one_type = refl

with_weight : accept_header_contains_text_html web headers ≡ true
unfolding accept_header_contains_text_html split is_whitespace trim trim_start trim_end
    eq_ignore_ascii_case to_ascii_lowercase
with_weight = refl

other_type : accept_header_contains_text_html web (codes "application/xml" ∷ []) ≡ false
unfolding accept_header_contains_text_html split is_whitespace trim trim_start trim_end
    eq_ignore_ascii_case to_ascii_lowercase
other_type = refl

-- A weight of 0, by which a client refuses a type, is not read.
refused_type :
    accept_header_contains_text_html web (codes "text/html;q=0, application/json" ∷ []) ≡ true
unfolding accept_header_contains_text_html split is_whitespace trim trim_start trim_end
    eq_ignore_ascii_case to_ascii_lowercase
refused_type = refl
