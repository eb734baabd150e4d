-- ===== src/Sums/Pages.antt =====
-- step07_redb/code/src/main.rs: the handlers that answer with JSON or a page, from what `run` gives
-- them on.
use rust_experiments.Prelude.{
  ℕ, suc, ◌+◌, ◌<◌, ◌≡◌, ap, ◌∙◌, ◌⊎◌, inl, inr, List, [], Option, none, some, String, Bool, All,
  length, map,
}
use rust_experiments.Machine.{Build, u64_modulus}
use rust_experiments.Int.{ℤ}
use rust_experiments.Async.Channel.{Channel}
use rust_experiments.Async.Defs.{
  AsyncDbResult, success, failure, GenericRequest, AsyncRedb, receive,
}
use rust_experiments.Async.Answers.{Reachable, drain}
use rust_experiments.Http.Str.{Text, codes}
use rust_experiments.Http.Defs.{Web, Response, ok_response, page, json_or_html, filter_map}
use rust_experiments.Http.Ranges.{MediaRange, IsRange, show_ranges}
use rust_experiments.Http.Accept.{AsksForHtml, markdown_or_html-show_ranges}
use rust_experiments.Sums.Defs.{JournalEntry, Services, Database}
use rust_experiments.Sums.Requests.{types, ResponseType, counter, inc_requests, inc_counter-answers}

pub data JsonResponse : Type 0 where
  point : ℤ → ℤ → JsonResponse
  message : String → JsonResponse
  counters : ℕ → ℕ → JsonResponse
  string_counter : String → JsonResponse
  journal : List JournalEntry → JsonResponse

module _ (S : Services) (W : Web) (to_string : JsonResponse → Text) where
  abbrev pub unwrap_or : {A : Type 0} → A → AsyncDbResult (types S) A → A
  unwrap_or default (success v) = v
  unwrap_or default (failure _) = default

  unfoldable pub json_reply : ℕ → W.HeaderMap → AsyncDbResult (types S) (ResponseType 0) → Response
  unfolding json_or_html
  json_reply counter_runs headers result =
      json_or_html W headers (to_string (counters counter_runs (unwrap_or 0 result)))

  unfoldable pub string_reply : W.HeaderMap → AsyncDbResult (types S) (ResponseType 1) → Response
  unfolding json_or_html
  string_reply headers result =
      json_or_html W headers (to_string (string_counter (unwrap_or "" result)))

  unfoldable pub journal_reply : W.HeaderMap → AsyncDbResult (types S) (ResponseType 4) → Response
  unfolding json_or_html
  journal_reply headers result = json_or_html W headers (to_string (journal (unwrap_or [] result)))

  abbrev pub reply_to :
      ℕ → W.HeaderMap → Option (AsyncDbResult (types S) (ResponseType 0)) → Option Response
  unfolding json_reply
  reply_to counter_runs headers none = none
  reply_to counter_runs headers (some result) = some (json_reply counter_runs headers result)

  -- Requests to `/json`, each of which asks the queue for the next number of a counter, in any
  -- interleaving with the thread of the database, and so many that the counter stays below 2^64. After as
  -- many further rounds as requests wait, the `k`-th has a reply with `k + 1` more than the counter had at the
  -- start: as a page if the media ranges of its header ask for `text/html`, and as JSON if not.
  pub json_reply-answers :
      (b : Build) (C : Channel (GenericRequest (types S))) (db : Database S) (n : ℕ) (c : Bool)
      (ts : List ℕ) (s : AsyncRedb (types S) C) (k counter_runs : ℕ) (headers : W.HeaderMap)
      (values : List (List MediaRange))
      → Reachable (types S) C db n (inc_requests S b c ts) s
      → k < length ts
      → counter S b c db + length ts < u64_modulus
      → All (All IsRange) values
      → filter_map W.to_str (W.get_all_accept headers) ≡ map show_ranges values
      → (AsksForHtml values
          × (reply_to counter_runs headers (
                receive
                  (types S)
                  C
                  0
                  k
                  (drain (types S) C db n (length (C.waiting s.request_rx)) s))
              ≡ some (
                  page W (
                    W.render_json_page
                      (to_string (counters counter_runs (counter S b c db + suc k)))))))
        ⊎ ((¬ AsksForHtml values)
            × (reply_to counter_runs headers (
                  receive
                    (types S)
                    C
                    0
                    k
                    (drain (types S) C db n (length (C.waiting s.request_rx)) s))
                ≡ some (
                    ok_response
                      (codes "application/json")
                      (to_string (counters counter_runs (counter S b c db + suc k))))))
  unfolding json_reply
  json_reply-answers b C db n c ts s k counter_runs headers values reached h room ranges shown =
      let text = to_string (counters counter_runs (counter S b c db + suc k)) in
      let answered =
        ap (reply_to counter_runs headers)
          (inc_counter-answers S b C db n c ts s k reached h room) in
      elim (markdown_or_html-show_ranges W headers values text ranges shown) [
        | inl (asks, html_page, _) ↦ inl (asks, answered ∙ ap some html_page)
        | inr (not_asked, raw, _) ↦ inr (not_asked, answered ∙ ap some raw)
      ]
