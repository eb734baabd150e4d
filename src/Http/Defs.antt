-- ===== src/Http/Defs.antt =====
-- lib/http.rs: the choice between HTML and the raw data by the headers of a request.
use rust_experiments.Prelude.{
  List, [], ◌∷◌, ◌++◌, Option, none, some, Bool, false, ◌||◌, map, if◌then◌else◌,
}
use rust_experiments.Http.Str.{Text, codes, split, first_or_empty, trim, eq_ignore_ascii_case}

module _ {ℓ} {A : Type ℓ} where
  abbrev pub any : (A → Bool) → List A → Bool
  any p [] = false
  any p (x ∷ xs) = p x || any p xs

  abbrev pub flat_map {κ} : {B : Type κ} → (A → List B) → List A → List B
  flat_map f [] = []
  flat_map f (x ∷ xs) = f x ++ flat_map f xs

  abbrev pub filter_map {κ} : {B : Type κ} → (A → Option B) → List A → List B
  filter_map f [] = []
  filter_map f (x ∷ xs) = elim (f x) [ none ↦ filter_map f xs | some y ↦ y ∷ filter_map f xs ]

-- What the program takes from its libraries: the values of the header `Accept`, and `to_str`, the
-- templates of the two pages, and the rendering of Markdown and its cleaning.
pub record Web : Type 1 where
  pub HeaderMap : Type 0
  pub HeaderValue : Type 0
  pub get_all_accept : HeaderMap → List HeaderValue
  pub to_str : HeaderValue → Option Text
  pub render_json_page : Text → Option Text
  pub render_markdown_page : Text → Option Text
  pub markdown_to_html : Text → Text
  pub clean : Text → Text

pub data Response : Type 0 where
  html : Text → Response
  -- Status 200, with its content type and its body.
  ok_response : Text → Text → Response
  internal_server_error : Response

-- `.map(|s| s.split(';').next().unwrap_or("").trim())`
abbrev pub media_type : Text → Text
media_type s = trim (first_or_empty (split b';' s))

module _ (W : Web) where
  unfoldable pub accept_header_contains_text_html : W.HeaderMap → Bool
  unfolding trim split eq_ignore_ascii_case
  accept_header_contains_text_html headers =
      any (λ s. eq_ignore_ascii_case s (codes "text/html"))
        (map media_type (flat_map (split b',') (filter_map W.to_str (W.get_all_accept headers))))

  -- `match template.render()`
  abbrev pub page : Option Text → Response
  page none = internal_server_error
  page (some text) = html text

  unfoldable pub json_or_html : W.HeaderMap → Text → Response
  unfolding accept_header_contains_text_html
  json_or_html headers raw_json =
      if accept_header_contains_text_html headers
      then page (W.render_json_page raw_json)
      else ok_response (codes "application/json") raw_json

  unfoldable pub render_markdown : Text → Text
  render_markdown input = W.clean (W.markdown_to_html input)

  unfoldable pub markdown_or_html : W.HeaderMap → Text → Response
  unfolding accept_header_contains_text_html render_markdown
  markdown_or_html headers raw_markdown =
      if accept_header_contains_text_html headers
      then page (W.render_markdown_page (render_markdown raw_markdown))
      else ok_response (codes "text/markdown") raw_markdown
