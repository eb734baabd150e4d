-- ===== src/Store/ListTable.antt =====
-- A list that meets the interface of a table, and runs.
use rust_experiments.Prelude.{
  ◌≡◌, ◌≢◌, refl, sym, List, [], ◌∷◌, Option, none, some, Bool, true, Bool-cases, inl, inr,
  if◌then◌else◌,
}
use rust_experiments.Store.Table.{Table}

module _ {K V : Type 0} (test : K → K → Bool) where
  unfoldable pub find : List (K × V) → K → Option V
  find [] k = none
  find ((j, v) ∷ rows) k = let rest = find rows k in if test j k then some v else rest

  pub find-new : (k : K) → find [] k ≡ none
  unfolding find
  find-new k = refl

  pub find_same :
      (complete : (k : K) → test k k ≡ true) (rows : List (K × V)) (k : K) (v : V)
      → find ((k, v) ∷ rows) k ≡ some v
  unfolding find
  find_same complete rows k v = rw (complete k)

  pub find_other :
      (sound : (j k : K) → test j k ≡ true → j ≡ k) (rows : List (K × V)) (k : K) (v : V)
      (other : K)
      → other ≢ k
      → find ((k, v) ∷ rows) other ≡ find rows other
  unfolding find
  find_other sound rows k v other ne = elim (Bool-cases (test k other)) [
    | inl e ↦ absurd (ne (sym (sound k other e)))
    | inr e ↦ rw e
  ]

  abbrev pub list_table :
      ((j k : K) → test j k ≡ true → j ≡ k) → ((k : K) → test k k ≡ true) → Table K V
  list_table sound complete = record {
    Rows = List (K × V);
    new = [];
    get = find;
    insert = λ rows k v. (k, v) ∷ rows;
    get-new = find-new;
    get-insert_same = find_same complete;
    get-insert_other = find_other sound;
  }
