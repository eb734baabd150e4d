-- ===== src/Async/Serial.antt =====
-- The specification of the queue: the requests one after the other, with no queue and no thread.
use mathlib.Core.Option.{some-injective}
use rust_experiments.Prelude.{
  ℕ, zero, suc, ◌≤◌, ◌<◌, ◌≡◌, refl, ap, ◌∙◌, inl, inr, List, [], ◌∷◌, ◌++◌, Option, none, some,
  take, length, arith,
}
use rust_experiments.Machine.{Outcome, Fault, ok, panic, Outcome-cases}
use rust_experiments.Async.Defs.{
  Types, AsyncDbResult, failure, recv_error, DbRequestHandler, GenericRequest,
}

module _ {ℓ} {A : Type ℓ} where
  pub take-append : (xs ys : List A) (k : ℕ) → k ≤ length xs → take k (xs ++ ys) ≡ take k xs
  take-append [] [] zero h = refl
  take-append [] (y ∷ ys) zero h = refl
  take-append [] ys (suc k) h = absurd (omega arith)
  take-append (x ∷ xs) ys zero h = refl
  take-append (x ∷ xs) ys (suc k) h = ap (◌∷◌ x) (take-append xs ys k (omega arith))

  pub take-length : (xs : List A) → take (length xs) xs ≡ xs
  take-length [] = refl
  take-length (x ∷ xs) = ap (◌∷◌ x) (take-length xs)

  pub take-past :
      (xs ys : List A) (y : A) (k : ℕ)
      → length xs < k
      → (zs : List A) × (take k (xs ++ y ∷ ys) ≡ xs ++ y ∷ zs)
  take-past [] ys y zero h = absurd (omega arith)
  take-past [] ys y (suc k) h = (take k ys, refl)
  take-past (x ∷ xs) ys y zero h = absurd (omega arith)
  take-past (x ∷ xs) ys y (suc k) h =
      let (zs, e) = take-past xs ys y k (omega arith) in (zs, ap (◌∷◌ x) e)

module _ (T : Types) where
  -- What one request answers; a panic loses the answer.
  abbrev pub result_of :
      {t : T.TypeId}
      → Outcome (AsyncDbResult T (T.Response t) × T.Database)
      → AsyncDbResult T (T.Response t)
  result_of (panic fault) = failure recv_error
  result_of (ok (result, db)) = result

  -- The database after the requests; `none` if one panics.
  unfoldable pub serial : List (GenericRequest T) → T.Database → Option T.Database
  serial [] db = some db
  serial (r ∷ rs) db = elim (r.request.handle db) [
    | panic fault ↦ none
    | ok (result, db') ↦ serial rs db'
  ]

  -- What a request answers after the requests before it; after a panic there is no answer.
  unfoldable pub reply_after :
      List (GenericRequest T)
      → (r : DbRequestHandler T) → T.Database
      → AsyncDbResult T (T.Response r.type_id)
  reply_after [] r db = result_of (r.handle db)
  reply_after (q ∷ before) r db =
      elim (q.request.handle db) as (λ _. AsyncDbResult T (T.Response r.type_id)) [
        | panic fault ↦ failure recv_error
        | ok (result, db') ↦ reply_after before r db'
      ]

  pub reply_after-serial :
      (before : List (GenericRequest T)) (r : DbRequestHandler T) (db₀ db : T.Database)
      → serial before db₀ ≡ some db
      → reply_after before r db₀ ≡ result_of (r.handle db)
  unfolding serial reply_after
  reply_after-serial [] r db₀ db h = ap (λ d. result_of (r.handle d)) (some-injective _ _ h)
  reply_after-serial (q ∷ before) r db₀ db h = elim (Outcome-cases (q.request.handle db₀)) [
    | inl (fault, e) ↦ absurd (cc (rw (serial, e) at h))
    | inr ((result, db₁), e) ↦
        rw (reply_after, e) (reply_after-serial before r db₁ db (rw (serial, e) at h))
  ]

  pub reply_after-panic :
      (before more : List (GenericRequest T)) (q : GenericRequest T) (r : DbRequestHandler T)
      (db₀ db : T.Database) (fault : Fault)
      → serial before db₀ ≡ some db
      → q.request.handle db ≡ panic fault
      → reply_after (before ++ q ∷ more) r db₀ ≡ failure recv_error
  unfolding serial reply_after
  reply_after-panic [] more q r db₀ db fault h e =
      let e' : q.request.handle db₀ ≡ panic fault =
        ap q.request.handle (some-injective _ _ h) ∙ e in
      rw (reply_after, e')
  reply_after-panic (p ∷ before) more q r db₀ db fault h e =
      elim (Outcome-cases (p.request.handle db₀)) [
        | inl (other, f) ↦ absurd (cc (rw (serial, f) at h))
        | inr ((result, db₁), f) ↦
            rw (reply_after, f)
              (reply_after-panic before more q r db₁ db fault (rw (serial, f) at h) e)
      ]

  pub serial-last :
      (before : List (GenericRequest T)) (r : GenericRequest T) (db₀ db db' : T.Database)
      (result : AsyncDbResult T (T.Response r.request.type_id))
      → serial before db₀ ≡ some db
      → r.request.handle db ≡ ok (result, db')
      → serial (before ++ r ∷ []) db₀ ≡ some db'
  unfolding serial
  serial-last [] r db₀ db db' result h e =
      let e' : r.request.handle db₀ ≡ ok (result, db') =
        ap r.request.handle (some-injective _ _ h) ∙ e in
      rw (serial, e')
  serial-last (q ∷ before) r db₀ db db' result h e = elim (Outcome-cases (q.request.handle db₀)) [
    | inl (fault, f) ↦ absurd (cc (rw (serial, f) at h))
    | inr ((other, db₁), f) ↦
        rw (serial, f) (serial-last before r db₁ db db' result (rw (serial, f) at h) e)
  ]
