-- ===== src/Sums/QueueExamples.antt =====
-- Requests for a counter, through the queue.
use rust_experiments.Store.ListTable.{find}
use rust_experiments.Prelude.{Option, ◌⊎◌, ℕ, ◌+◌, ◌≡◌, refl, List, [], ◌∷◌, some, true, arith}
use rust_experiments.Async.ListChannel.{list_channel, push_back}
use rust_experiments.Async.Defs.{
  AsyncDbResult, success, GenericRequest, AsyncRedb, with_queue_size, send_request, receive,
}
use rust_experiments.Async.Answers.{Reachable, starts, sends, drain}
use rust_experiments.Sums.Defs.{new_database}
use rust_experiments.Sums.Requests.{
  types, inc_counter_request, inc_requests, counter, inc_counter-answers,
}
use rust_experiments.Http.Str.{Text, codes}
use rust_experiments.Http.Defs.{page, ok_response}
use rust_experiments.Http.Accept.{AsksForHtml}
use rust_experiments.Http.Examples.{web, values, headers, values-IsRange}
use rust_experiments.Sums.Pages.{JsonResponse, counters, reply_to, json_reply-answers}
use rust_experiments.Sums.Tables.{services, checked_build}

abbrev Message : Type 0
Message = GenericRequest (types services)

abbrev State : Type 0
State = AsyncRedb (types services) (list_channel Message)

abbrev queued : List Message → ℕ → State
queued messages next = record {
  db = new_database services;
  is_running = true;
  request_rx = record { room = 32; messages = messages };
  responses = [];
  next_tx = next;
}

two_sent-Reachable :
    Reachable
      (types services)
      (list_channel Message)
      (new_database services)
      32
      (inc_requests services checked_build true (0 ∷ 1 ∷ []))
      (queued (inc_requests services checked_build true (0 ∷ 1 ∷ [])) 2)
unfolding with_queue_size send_request push_back
two_sent-Reachable =
    sends {s = queued (inc_requests services checked_build true (0 ∷ [])) 1}
      (sends {s = queued [] 0} (starts refl) (inc_counter_request services checked_build true) refl
        refl)
      (inc_counter_request services checked_build true) refl refl

abbrev second_received : Option (AsyncDbResult (types services) ℕ)
second_received = receive (types services) (list_channel Message) 0 1 (
    drain (types services) (list_channel Message) (new_database services) 32 2
      (queued (inc_requests services checked_build true (0 ∷ 1 ∷ [])) 2))

inc_counter-answers_example :
    second_received
    ≡ some (success (counter services checked_build true (new_database services) + 2))
unfolding find
inc_counter-answers_example =
    inc_counter-answers services checked_build (list_channel Message) (new_database services) 32
      true (0 ∷ 1 ∷ []) (queued (inc_requests services checked_build true (0 ∷ 1 ∷ [])) 2) 1
      two_sent-Reachable (omega arith) (omega arith)

-- As JSON, with the number of runs and the number of requests.
abbrev counters_text : JsonResponse → Text
counters_text (counters runs requests) = runs ∷ requests ∷ []
counters_text _ = []

json_reply-answers_example :
    (AsksForHtml values
      × (reply_to services web counters_text 3 headers second_received
          ≡ some (page web (web.render_json_page (3 ∷ 2 ∷ [])))))
    ⊎ ((¬ AsksForHtml values)
        × (reply_to services web counters_text 3 headers second_received
            ≡ some (ok_response (codes "application/json") (3 ∷ 2 ∷ []))))
unfolding find
json_reply-answers_example =
    json_reply-answers services web counters_text checked_build (list_channel Message)
      (new_database services) 32 true (0 ∷ 1 ∷ [])
      (queued (inc_requests services checked_build true (0 ∷ 1 ∷ [])) 2) 1 3 headers values
      two_sent-Reachable (omega arith) (omega arith) values-IsRange refl
