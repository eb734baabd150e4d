-- ===== src/Broadcast/Examples.antt =====
-- step10_websocket/code/src/main.rs: a websocket that gets one value twice.
use rust_experiments.Prelude.{ℕ, suc, ◌≡◌, refl, List, [], ◌∷◌, Option, none, some, String, true}
use rust_experiments.Broadcast.Defs.{Watch, Handler, ws_handler, tick, ws_handler_step}
use rust_experiments.Broadcast.Order.{
  Reaches, subscribes, ticks, steps, Ordered, Shows, Reaches-Ordered,
}

-- A value and its version.
abbrev watch : Watch
watch = record {
  Sender = String × ℕ;
  channel = λ text. (text, 0);
  send = λ text tx. (text, suc tx.1);
  value = λ tx. tx.0;
  version = λ tx. tx.1;
  value_send = λ text tx. refl;
  version_send = λ text tx. refl;
}

abbrev start : watch.Sender
start = watch.channel "ws starting up ..."

abbrev or_stay : Handler watch → Option (Handler watch) → Handler watch
or_stay h none = h
or_stay h (some h') = h'

abbrev step : Handler watch → Handler watch
unfolding ws_handler_step
step h = or_stay h (ws_handler_step watch true h)

-- A second value comes between `changed()` and `borrow()`.
abbrev noticed : Handler watch
unfolding ws_handler tick
noticed = step (tick watch "12:00:00" (ws_handler watch start))

abbrev overtaken : Handler watch
unfolding tick
overtaken = tick watch "12:00:01" noticed

abbrev sent_twice : Handler watch
sent_twice = step (step (step (step (step overtaken))))

noticed_Reaches : Reaches watch start ("12:00:00" ∷ []) noticed
unfolding ws_handler tick ws_handler_step
noticed_Reaches = steps true _ _ _ (ticks "12:00:00" [] _ subscribes) refl

sent_twice_Reaches : Reaches watch start ("12:00:00" ∷ "12:00:01" ∷ []) sent_twice
unfolding ws_handler tick ws_handler_step
sent_twice_Reaches =
    steps true _ _ _
      (steps true _ _ _
        (steps true _ _ _
          (steps true _ _ _ (steps true _ overtaken _ (ticks "12:00:01" _ _ noticed_Reaches) refl)
            refl)
          refl)
        refl)
      refl

sent_twice_texts : sent_twice.received ≡ "12:00:01" ∷ "12:00:01" ∷ []
unfolding ws_handler tick ws_handler_step
sent_twice_texts = refl

Reaches-Ordered_example :
    (versions : List ℕ) × Ordered versions
    × Shows ("12:00:00" ∷ "12:00:01" ∷ []) versions sent_twice.received
Reaches-Ordered_example =
    Reaches-Ordered watch start ("12:00:00" ∷ "12:00:01" ∷ []) sent_twice sent_twice_Reaches
