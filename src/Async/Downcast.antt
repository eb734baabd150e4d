-- ===== src/Async/Downcast.antt =====
-- step07_redb/code/src/db.rs: a response in its box, and out of it.
use mathlib.Core.Path.{subst_refl}
use mathlib.Core.HLevel.{hedberg}
use rust_experiments.Prelude.{◌≡◌, refl, ap, subst, ◌∙◌}
use rust_experiments.Async.Defs.{Types, AsyncDbResult, success, failure, boxed, cast, downcast}

module _ (T : Types) where
  cast_same : (t : T.TypeId) (d : Dec (t ≡ t)) (v : T.Response t) → cast T t t d v ≡ success v
  cast_same t (yes e) v =
      ap success
        (ap (λ p. subst T.Response p v) (hedberg T.same_type t t e refl) ∙ subst_refl T.Response v)
  cast_same t (no ne) v = absurd (ne refl)

  -- What a request answers comes out of its box as it went in, if it is taken out with the type of the
  -- request's response, as `run` does.
  pub downcast-boxed :
      (t : T.TypeId) (result : AsyncDbResult T (T.Response t))
      → downcast T t (boxed T t result) ≡ result
  unfolding downcast
  downcast-boxed t (success w) = cast_same t (T.same_type t t) w
  downcast-boxed t (failure e) = refl
