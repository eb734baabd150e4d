-- ===== src/Broadcast/Order.antt =====
-- step10_websocket/code/src/main.rs: in which order a websocket gets the values of the channel.
use rust_experiments.Prelude.{
  ℕ, ◌+◌, ◌-◌, ◌≤◌, ◌<◌, ◌≡◌, refl, sym, ap, subst, ◌∙◌, List, [], ◌∷◌, ◌++◌, Option, some, String,
  Bool, true, false, length, length-append, arith, Bool-cases, inl, inr, ltb, ltb→lt, get_elem?,
  get_elem?-last, get_elem?-lt, if◌then◌else◌, ne→==, eq→==,
}
use mathlib.Core.Option.{some-injective}
use rust_experiments.Broadcast.Defs.{
  Watch, waits, changed, sends, ended, Phase, Handler, ws_handler, tick, ws_handler_step,
}

-- Versions in the order in which they were sent, the last one first: they never go back, and no version
-- comes three times.
abbrev pub Ordered : List ℕ → Type 0
Ordered [] = Unit
Ordered (v ∷ []) = Unit
Ordered (v ∷ u ∷ []) = u ≤ v
Ordered (v ∷ u ∷ t ∷ vs) = (u ≤ v) × (t < v) × Ordered (u ∷ t ∷ vs)

-- The texts of versions that are numbered from 1 on.
abbrev pub text_of : List String → ℕ → Option String
text_of texts v = get_elem? texts (v - 1)

-- What the socket has got are the texts of these versions, which count from 1.
abbrev pub Shows : List String → List ℕ → List String → Type 0
Shows texts [] [] = Unit
Shows texts (v ∷ vs) (r ∷ rs) = (1 ≤ v) × (text_of texts v ≡ some r) × Shows texts vs rs
Shows texts _ _ = ⊥

-- The last version that was sent is at least the one seen, and the one before it at most.
abbrev AfterSending : List ℕ → ℕ → Type 0
AfterSending [] k = Unit
AfterSending (v ∷ []) k = k ≤ v
AfterSending (v ∷ u ∷ vs) k = (k ≤ v) × (u ≤ k)

-- A version is seen that is not older than the last one that was sent, and newer than the one before it.
abbrev AfterChange : List ℕ → ℕ → Type 0
AfterChange [] k = Unit
AfterChange (v ∷ []) k = v ≤ k
AfterChange (v ∷ u ∷ vs) k = (v ≤ k) × (u < k)

abbrev Below : List ℕ → ℕ → Type 0
Below [] n = Unit
Below (v ∷ vs) n = v ≤ n

module _ (W : Watch) (tx₀ : W.Sender) where
  -- The handlers that steps and new values reach, in any order: `texts` are the values since the
  -- handler has subscribed.
  pub data Reaches : List String → Handler W → Type 0 where
    subscribes : Reaches [] (ws_handler W tx₀)
    ticks :
        (now : String) (texts : List String) (h : Handler W)
        → Reaches texts h
        → Reaches (texts ++ now ∷ []) (tick W now h)
    steps :
        (sent : Bool) (texts : List String) (h h' : Handler W)
        → Reaches texts h
        → ws_handler_step W sent h ≡ some h'
        → Reaches texts h'

  abbrev n : ℕ
  n = W.version tx₀

  abbrev Stands : List String → List ℕ → Phase → Type 0
  Stands texts vs (waits seen) = (k : ℕ) × (seen ≡ n + k) × (k ≤ length texts) × AfterSending vs k
  Stands texts vs (changed seen) =
      (k : ℕ) × (seen ≡ n + k) × (k ≤ length texts) × (1 ≤ k) × AfterChange vs k
  Stands texts vs (sends seen text) =
      (k : ℕ) × (v : ℕ) × (seen ≡ n + k)
      × (k ≤ v)
      × (v ≤ length texts)
      × (1 ≤ v)
      × (text_of texts v ≡ some text)
      × AfterChange vs k
  Stands texts vs ended = Unit

  record Inv (texts : List String) (h : Handler W) : Type 0 where
    counted : W.version h.tx ≡ n + length texts
    latest : 1 ≤ length texts → text_of texts (length texts) ≡ some (W.value h.tx)
    versions : List ℕ
    ordered : Ordered versions
    shown : Shows texts versions h.received
    below : Below versions (length texts)
    stands : Stands texts versions h.phase

  start-Inv : Inv [] (ws_handler W tx₀)
  unfolding ws_handler
  start-Inv = record {
    counted = omega arith;
    latest = λ e. absurd (omega (arith, e));
    versions = [];
    ordered = tt;
    shown = tt;
    below = tt;
    stands = (0, omega arith, omega arith, tt);
  }

  text_of-append :
      (texts : List String) (now : String) (v : ℕ) (r : String)
      → text_of texts v ≡ some r
      → text_of (texts ++ now ∷ []) v ≡ some r
  text_of-append texts now v r e =
      get_elem?-last texts now (v - 1)
      ∙ ap (λ c. if c then some now else get_elem? texts (v - 1))
          (ne→== (v - 1) (length texts) (λ p. omega (arith, p, get_elem?-lt texts (v - 1) r e)))
      ∙ e

  Shows-append :
      (texts : List String) (now : String) (vs : List ℕ) (rs : List String)
      → Shows texts vs rs
      → Shows (texts ++ now ∷ []) vs rs
  Shows-append texts now [] [] h = tt
  Shows-append texts now (v ∷ vs) (r ∷ rs) h =
      (h.0, text_of-append texts now v r h.1, Shows-append texts now vs rs h.2)
  Shows-append texts now [] (r ∷ rs) h = h
  Shows-append texts now (v ∷ vs) [] h = h

  Stands-append :
      (texts : List String) (now : String) (vs : List ℕ) (p : Phase)
      → Stands texts vs p
      → Stands (texts ++ now ∷ []) vs p
  Stands-append texts now vs (waits seen) (k, e, le, after) =
      (k, e, omega (arith, length-append texts (now ∷ [])), after)
  Stands-append texts now vs (changed seen) (k, e, le, some_seen, after) =
      (k, e, omega (arith, length-append texts (now ∷ [])), some_seen, after)
  Stands-append texts now vs (sends seen text) (k, v, e, le, le', one, found, after) = (
    k,
    v,
    e,
    le,
    omega (arith, length-append texts (now ∷ [])),
    one,
    text_of-append texts now v text found,
    after,
  )
  Stands-append texts now vs ended s = tt

  Below-le : (vs : List ℕ) (m m' : ℕ) → m ≤ m' → Below vs m → Below vs m'
  Below-le [] m m' le h = tt
  Below-le (v ∷ vs) m m' le h = omega arith

  latest_text :
      (texts : List String) (now : String)
      → text_of (texts ++ now ∷ []) (length (texts ++ now ∷ [])) ≡ some now
  latest_text texts now =
      let here : length (texts ++ now ∷ []) - 1 ≡ length texts =
        omega (arith, length-append texts (now ∷ [])) in
      ap (get_elem? (texts ++ now ∷ [])) here
      ∙ get_elem?-last texts now (length texts)
      ∙ ap (λ c. if c then some now else get_elem? texts (length texts))
          (eq→== (length texts) (length texts) refl)

  tick-Inv :
      (now : String) (texts : List String) (h : Handler W)
      → Inv texts h
      → Inv (texts ++ now ∷ []) (tick W now h)
  unfolding tick
  tick-Inv now texts h i =
      let longer = length-append texts (now ∷ []) in
      record {
        counted = omega (arith, W.version_send now h.tx, i.counted, longer);
        latest = λ one. latest_text texts now ∙ ap some (sym (W.value_send now h.tx));
        versions = i.versions;
        ordered = i.ordered;
        shown = Shows-append texts now i.versions h.received i.shown;
        below =
            Below-le i.versions (length texts) (length (texts ++ now ∷ [])) (omega (arith, longer))
              i.below;
        stands = Stands-append texts now i.versions h.phase i.stands;
      }

  changes : (vs : List ℕ) (k k' : ℕ) → k < k' → Below vs k' → AfterSending vs k → AfterChange vs k'
  changes [] k k' lt below after = tt
  changes (v ∷ []) k k' lt below after = below
  changes (v ∷ u ∷ vs) k k' lt below after = (below, omega (arith, after.1))

  has_sent :
      (vs : List ℕ) (k v : ℕ)
      → k ≤ v
      → Ordered vs
      → AfterChange vs k
      → Ordered (v ∷ vs) × AfterSending (v ∷ vs) k
  has_sent [] k v le ordered after = (tt, le)
  has_sent (u ∷ []) k v le ordered after = (omega arith, (le, after))
  has_sent (u ∷ t ∷ vs) k v le ordered after =
      ((omega (arith, after.0), omega (arith, after.1), ordered), (le, after.0))

  step-Inv :
      (sent : Bool) (texts : List String) (tx : W.Sender) (p : Phase) (received : List String)
      (h' : Handler W)
      → Inv texts (record { tx = tx; phase = p; received = received })
      → ws_handler_step W sent (record { tx = tx; phase = p; received = received }) ≡ some h'
      → Inv texts h'
  unfolding ws_handler_step
  step-Inv sent texts tx (waits seen) received h' i e =
      elim (Bool-cases (ltb seen (W.version tx))) [
        | inl newer ↦
            let (k, at, le, after) = i.stands in
            let m = length texts in
            let room : k < m = omega (arith, ltb→lt seen (W.version tx) newer, i.counted) in
            subst (Inv texts) (some-injective _ _ (rw newer at e)) (record {
              counted = i.counted;
              latest = i.latest;
              versions = i.versions;
              ordered = i.ordered;
              shown = i.shown;
              below = i.below;
              stands = (
                m,
                i.counted,
                omega arith,
                omega arith,
                changes i.versions k m room i.below after,
              );
            })
        | inr old ↦ absurd (cc (rw old at e))
      ]
  step-Inv sent texts tx (changed seen) received h' i e =
      let (k, at, le, one, after) = i.stands in
      subst (Inv texts) (some-injective _ _ e) (record {
        counted = i.counted;
        latest = i.latest;
        versions = i.versions;
        ordered = i.ordered;
        shown = i.shown;
        below = i.below;
        stands = (k, length texts, at, le, omega arith, omega arith, i.latest (omega arith), after);
      })
  step-Inv true texts tx (sends seen text) received h' i e =
      let (k, v, at, le, le', one, found, after) = i.stands in
      let (ordered, after') = has_sent i.versions k v le i.ordered after in
      subst (Inv texts) (some-injective _ _ e) (record {
        counted = i.counted;
        latest = i.latest;
        versions = v ∷ i.versions;
        ordered = ordered;
        shown = (one, found, i.shown);
        below = le';
        stands = (k, at, omega arith, after');
      })
  step-Inv false texts tx (sends seen text) received h' i e =
      subst (Inv texts) (some-injective _ _ e) (record {
        counted = i.counted;
        latest = i.latest;
        versions = i.versions;
        ordered = i.ordered;
        shown = i.shown;
        below = i.below;
        stands = tt;
      })
  step-Inv sent texts tx ended received h' i e = absurd (cc e)

  Reaches-Inv : (texts : List String) (h : Handler W) → Reaches texts h → Inv texts h
  Reaches-Inv _ _ subscribes = start-Inv
  Reaches-Inv _ _ (ticks now texts h r) = tick-Inv now texts h (Reaches-Inv texts h r)
  Reaches-Inv _ _ (steps sent texts h h' r e) =
      step-Inv sent texts h.tx h.phase h.received h' (Reaches-Inv texts h r) e

  -- However the steps of a handler and the values of the channel that follow its subscription interleave,
  -- what its websocket has got are the texts of some of these values, in their order: it never goes
  -- back to an older value, and gets none three times. The versions of these values count from 1.
  pub Reaches-Ordered :
      (texts : List String) (h : Handler W)
      → Reaches texts h
      → (versions : List ℕ) × Ordered versions × Shows texts versions h.received
  Reaches-Ordered texts h r = let i = Reaches-Inv texts h r in (i.versions, i.ordered, i.shown)
