-- ===== src/Broadcast/Defs.antt =====
-- step10_websocket/code/src/main.rs: `ws_handler_impl_safe`, which sends the value of a watch channel to
-- a websocket, and the task that gives the channel a new value.
use rust_experiments.Prelude.{
  ℕ, suc, ◌≡◌, List, [], ◌∷◌, Option, none, some, String, Bool, if◌then◌else◌, ltb,
}

-- The watch channel of the async runtime: it keeps the last value, and counts its values.
pub record Watch : Type 1 where
  pub Sender : Type 0
  pub channel : String → Sender
  pub send : String → Sender → Sender
  pub value : Sender → String
  pub version : Sender → ℕ
  pub value_send : (text : String) (tx : Sender) → value (send text tx) ≡ text
  pub version_send : (text : String) (tx : Sender) → version (send text tx) ≡ suc (version tx)

-- Where the handler stands: before `rx.changed()` returns, having seen a version; between that and
-- `rx.borrow()`, which marks nothing as seen; before `socket.send(..)` returns; or at its end.
pub data Phase : Type 0 where
  waits : ℕ → Phase
  changed : ℕ → Phase
  sends : ℕ → String → Phase
  ended : Phase

module _ (W : Watch) where
  -- `received` is what the socket has got, the last text first.
  pub record Handler : Type 0 where
    pub tx : W.Sender
    pub phase : Phase
    pub received : List String

  -- `tx.subscribe()`: the value of the channel counts as seen.
  unfoldable pub ws_handler : W.Sender → Handler
  ws_handler tx = record { tx = tx; phase = waits (W.version tx); received = [] }

  -- `let _ = tx.send(now);`
  unfoldable pub tick : String → Handler → Handler
  tick now h = record h { tx = W.send now h.tx }

  -- A step of the loop of `ws_handler_impl_safe`, for a `socket.send(..)` that succeeds or not; `none`
  -- is a handler that waits, or that has ended.
  unfoldable pub ws_handler_step : Bool → Handler → Option Handler
  ws_handler_step sent h = elim h.phase [
    | waits seen ↦
        if ltb seen (W.version h.tx)
        then some (record h { phase = changed (W.version h.tx) })
        else none
    | changed seen ↦ some (record h { phase = sends seen (W.value h.tx) })
    | sends seen text ↦
        if sent
        then some (record h { phase = waits seen; received = text ∷ h.received })
        else some (record h { phase = ended })
    | ended ↦ none
  ]
