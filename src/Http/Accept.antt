-- ===== src/Http/Accept.antt =====
-- lib/http.rs: the choice between HTML and the raw data, by the media ranges of the header `Accept`.
use rust_experiments.Prelude.{
  ◌≡◌, refl, sym, ap, ◌∙◌, ◌⊎◌, inl, inr, ◌↔◌, List, [], ◌∷◌, ◌++◌, map, Bool, true, ◌||◌, All,
  map-append, Bool-cases,
}
use rust_experiments.Http.Str.{
  Text, codes, split, is_whitespace, trim_start, trim_end, trim, eq_ignore_ascii_case,
  to_ascii_lowercase,
}
use rust_experiments.Http.Defs.{
  any, flat_map, filter_map, media_type, Web, page, ok_response, accept_header_contains_text_html,
  json_or_html, markdown_or_html, render_markdown,
}
use rust_experiments.Http.Split.{lowercase→eq, eq→lowercase}
use rust_experiments.Http.Ranges.{MediaRange, IsRange, show_ranges, media_types-show_ranges}

abbrev pub Any {ℓ} : {A : Type ℓ} → (A → Type 0) → List A → Type 0
Any P [] = ⊥
Any P (x ∷ xs) = P x ⊎ Any P xs

module _ {ℓ} {A : Type ℓ} where
  any-append : (p : A → Bool) (xs ys : List A) → any p (xs ++ ys) ≡ (any p xs || any p ys)
  any-append p [] ys = refl
  any-append p (x ∷ xs) ys = elim (Bool-cases (p x)) [
    | inl e ↦ rw e
    | inr e ↦ rw (e, any-append p xs ys)
  ]

  any→Any :
      {P : A → Type 0} (p : A → Bool)
      → ((x : A) → p x ≡ true → P x)
      → (xs : List A) → any p xs ≡ true
      → Any P xs
  any→Any p f [] e = cc
  any→Any p f (x ∷ xs) e = elim (Bool-cases (p x)) [
    | inl h ↦ inl (f x h)
    | inr h ↦ inr (any→Any p f xs (rw h at e))
  ]

  Any→any :
      {P : A → Type 0} (p : A → Bool)
      → ((x : A) → P x → p x ≡ true)
      → (xs : List A) → Any P xs
      → any p xs ≡ true
  Any→any p f [] h = absurd h
  Any→any p f (x ∷ xs) (inl h) = rw (f x h)
  Any→any p f (x ∷ xs) (inr h) = elim (Bool-cases (p x)) [
    | inl e ↦ rw e
    | inr e ↦ rw (e, Any→any p f xs h)
  ]

-- The range is for `text/html`, in any case of its letters.
abbrev pub NamesTextHtml : MediaRange → Type 0
NamesTextHtml r = map to_ascii_lowercase r.name ≡ codes "text/html"

abbrev pub AsksForHtml : List (List MediaRange) → Type 0
AsksForHtml = Any (Any NamesTextHtml)

abbrev is_html : Text → Bool
is_html s = eq_ignore_ascii_case s (codes "text/html")

abbrev range_is_html : MediaRange → Bool
range_is_html r = is_html r.name

any-map {ℓ} :
    {A : Type ℓ} (p : Text → Bool) (f : A → Text) (xs : List A)
    → any p (map f xs) ≡ any (λ x. p (f x)) xs
any-map p f [] = refl
any-map p f (x ∷ xs) = rw (any-map p f xs)

any_value :
    (ranges : List MediaRange)
    → All IsRange ranges
    → any is_html (map media_type (split b',' (show_ranges ranges))) ≡ any range_is_html ranges
unfolding split is_whitespace trim trim_start trim_end eq_ignore_ascii_case
any_value [] h = refl
any_value (r ∷ ranges) h =
    ap (any is_html) (media_types-show_ranges r ranges h)
    ∙ any-map is_html (λ q. q.name) (r ∷ ranges)

any_values :
    (values : List (List MediaRange))
    → All (All IsRange) values
    → any is_html (map media_type (flat_map (split b',') (map show_ranges values)))
      ≡ any (any range_is_html) values
any_values [] h = refl
any_values (ranges ∷ values) h = rw (
  map-append media_type (split b',' (show_ranges ranges))
      (flat_map (split b',') (map show_ranges values)),
  any-append is_html (map media_type (split b',' (show_ranges ranges)))
      (map media_type (flat_map (split b',') (map show_ranges values))),
  any_value ranges h.0,
  any_values values h.1,
)

range→html : (r : MediaRange) → range_is_html r ≡ true → NamesTextHtml r
unfolding to_ascii_lowercase
range→html r e = eq→lowercase r.name (codes "text/html") e

html→range : (r : MediaRange) → NamesTextHtml r → range_is_html r ≡ true
unfolding to_ascii_lowercase
html→range r e = lowercase→eq r.name (codes "text/html") e

module _ (W : Web) (headers : W.HeaderMap) (values : List (List MediaRange)) where
  accept_header_contains_text_html-any :
      All (All IsRange) values
      → filter_map W.to_str (W.get_all_accept headers) ≡ map show_ranges values
      → accept_header_contains_text_html W headers ≡ any (any range_is_html) values
  unfolding accept_header_contains_text_html
  accept_header_contains_text_html-any h e =
      ap (λ v. any is_html (map media_type (flat_map (split b',') v))) e ∙ any_values values h

  -- Let the readable values of the header `Accept` be media ranges between commas, each a name
  -- between blanks and perhaps a `;` and parameters without a comma. The code finds `text/html` there
  -- exactly if a range of one of the values has that name, in any case of its letters.
  pub accept_header_contains_text_html-show_ranges :
      All (All IsRange) values
      → filter_map W.to_str (W.get_all_accept headers) ≡ map show_ranges values
      → (accept_header_contains_text_html W headers ≡ true) ↔ AsksForHtml values
  accept_header_contains_text_html-show_ranges h e = (
    λ asks.
        any→Any (any range_is_html) (any→Any range_is_html range→html) values
          (sym (accept_header_contains_text_html-any h e) ∙ asks),
    λ asks.
        accept_header_contains_text_html-any h e
        ∙ Any→any (any range_is_html) (Any→any range_is_html html→range) values asks,
  )

  -- Under the same conditions: a request that asks for `text/html` gets the page of the template, or
  -- status 500 where that fails, and any other request gets the raw text with its own content type.
  pub markdown_or_html-show_ranges :
      (raw : Text)
      → All (All IsRange) values
      → filter_map W.to_str (W.get_all_accept headers) ≡ map show_ranges values
      → (AsksForHtml values
          × (json_or_html W headers raw ≡ page W (W.render_json_page raw))
          × (markdown_or_html W headers raw
              ≡ page W (W.render_markdown_page (W.clean (W.markdown_to_html raw)))))
        ⊎ ((¬ AsksForHtml values)
            × (json_or_html W headers raw ≡ ok_response (codes "application/json") raw)
            × (markdown_or_html W headers raw ≡ ok_response (codes "text/markdown") raw))
  unfolding json_or_html markdown_or_html render_markdown
  markdown_or_html-show_ranges raw h e =
      elim (Bool-cases (accept_header_contains_text_html W headers)) [
        | inl yes_html ↦ inl (
          (accept_header_contains_text_html-show_ranges h e).0 yes_html,
          rw yes_html,
          rw yes_html,
        )
        | inr no_html ↦ inr (
          λ asks. absurd (cc (no_html, (accept_header_contains_text_html-show_ranges h e).1 asks)),
          rw no_html,
          rw no_html,
        )
      ]
