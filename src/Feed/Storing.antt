-- ===== src/Feed/Storing.antt =====
-- step12_ws_feed/code/src/main.rs: a message's trades are stored under the indices that follow.
use text.Mathlib.Text.{◌==◌ as ◌===◌}
use text.Mathlib.TextEquality.{eq_iff}
use mathlib.Core.Option.{some-injective}
use rust_experiments.Prelude.{
  ℕ, ◌<◌, get_elem?, get_elem?-last, get_elem?-lt, get_elem?-cases, zero, suc, ◌+◌, ◌≤◌, ◌≡◌, ◌≢◌,
  sym, ap, subst, ◌∙◌, List, [], ◌∷◌, ◌++◌, some, String, length, length-append, arith, Bool-cases,
  inl, inr, ◌⊎◌, ◌==◌, if◌then◌else◌, ==→eq, ==→ne, append_assoc, append-nil,
}
use rust_experiments.Text.Reading.{to_decimal-injective}
use rust_experiments.Feed.Services.{Trade, Services}
use rust_experiments.Feed.Defs.{
  Database, get_total_trades_count, store_id_with_index, store_each, trade_id,
}
use rust_experiments.Feed.Spec.{indexed, Labelled, stored_as, RowsAre, IdsAre, Counted}

same_text : (s t : String) → (s ≡ t) ⊎ (s ≢ t)
same_text s t = elim (Bool-cases (s === t)) [
  | inl e ↦ inl ((eq_iff s t).0 e)
  | inr e ↦ inr (λ p. absurd (cc (e, (eq_iff s t).1 p)))
]

module _ (S : Services) where
  abbrev with_row : Database S → Trade → ℕ → Database S
  with_row db trade index = record db {
    trades = S.trades_table.insert db.trades index (S.to_vec trade);
    trade_ids = S.ids_table.insert db.trade_ids trade.id index;
  }

  with_row-RowsAre :
      (db : Database S) (ts : List Trade) (t : Trade)
      → RowsAre S db ts
      → RowsAre S (with_row db t (suc (length ts))) (ts ++ t ∷ [])
  with_row-RowsAre db ts t rows zero =
      S.trades_table.get-insert_other db.trades (suc (length ts)) (S.to_vec t) zero
        (λ e. omega arith)
      ∙ rows zero
  with_row-RowsAre db ts t rows (suc k) = elim (Bool-cases (k == length ts)) [
    | inl e ↦
        ap (S.trades_table.get _) (ap suc (==→eq k (length ts) e))
        ∙ S.trades_table.get-insert_same db.trades (suc (length ts)) (S.to_vec t)
        ∙ ap (stored_as S)
            (sym (get_elem?-last ts t k ∙ ap (λ c. if c then some t else get_elem? ts k) e))
    | inr e ↦
        S.trades_table.get-insert_other db.trades (suc (length ts)) (S.to_vec t) (suc k)
          (λ p. ==→ne k (length ts) e (omega (arith, p)))
        ∙ rows (suc k)
        ∙ ap (stored_as S)
            (sym (get_elem?-last ts t k ∙ ap (λ c. if c then some t else get_elem? ts k) e))
  ]

  pub Counted-insert :
      (db : Database S) (n index : ℕ) (id price : String)
      → Counted S db n
      → index ≤ n
      → id ≡ trade_id index price
      → Counted S (store_id_with_index S id index db) n
  unfolding store_id_with_index get_total_trades_count
  Counted-insert db n index id price counted le named = record {
    total = counted.total;
    known = λ other i found. elim (same_text other id) [
      | inl same ↦
          let here : index ≡ i = some-injective _ _ (
            sym (S.ids_table.get-insert_same db.trade_ids id index)
            ∙ ap (S.ids_table.get _) (sym same)
            ∙ found) in
          subst (λ j. (j ≤ n) × (q : String) × (other ≡ trade_id j q)) here
            (le, price, same ∙ named)
      | inr different ↦
          counted.known other i
            (sym (S.ids_table.get-insert_other db.trade_ids id index other different) ∙ found)
    ];
  }

  -- An id of a later index is no id of these trades.
  pub IdsAre-insert :
      (db : Database S) (ts : List Trade) (n index : ℕ) (id price : String)
      → Counted S db n
      → IdsAre S db ts
      → length ts < index
      → id ≡ trade_id index price
      → IdsAre S (store_id_with_index S id index db) ts
  unfolding store_id_with_index
  IdsAre-insert db ts n index id price counted ids later named k t at = elim (same_text t.id id) [
    | inl same ↦
        let (le, q, as_known) = counted.known t.id (suc k) (ids k t at) in
        absurd (
          omega (
            arith,
            get_elem?-lt ts k t at,
            to_decimal-injective (suc k) index q price (sym as_known ∙ same ∙ named),
          ))
    | inr different ↦ S.ids_table.get-insert_other db.trade_ids id index t.id different ∙ ids k t at
  ]

  with_row-IdsAre :
      (db : Database S) (ts : List Trade) (t : Trade) (n : ℕ)
      → Counted S db n
      → IdsAre S db ts
      → t.id ≡ trade_id (suc (length ts)) t.price
      → IdsAre S (with_row db t (suc (length ts))) (ts ++ t ∷ [])
  unfolding store_id_with_index
  with_row-IdsAre db ts t n counted ids named k u at = elim (get_elem?-cases ts t k u at) [
    | inl (here, same) ↦
        subst (λ v. S.ids_table.get (with_row db t (suc (length ts))).trade_ids v.id ≡ some (suc k))
          same
          (S.ids_table.get-insert_same db.trade_ids t.id (suc (length ts))
            ∙ ap some (ap suc (sym here)))
    | inr before ↦
        IdsAre-insert db ts n (suc (length ts)) t.id t.price counted ids (omega arith) named k u
          before
  ]

  -- The rows and the ids of a batch follow those that are there.
  pub store_each-Represents :
      (new : List Trade) (db : Database S) (ts : List Trade) (n : ℕ)
      → RowsAre S db ts
      → IdsAre S db ts
      → Counted S db n
      → length ts + length new ≤ n
      → Labelled (length ts) new
      → RowsAre S (store_each S (indexed (length ts) new) db) (ts ++ new)
        × IdsAre S (store_each S (indexed (length ts) new) db) (ts ++ new)
        × Counted S (store_each S (indexed (length ts) new) db) n
  unfolding store_each store_id_with_index get_total_trades_count
  store_each-Represents [] db ts n rows ids counted le named = (
    subst (RowsAre S db) (sym (append-nil ts)) rows,
    subst (IdsAre S db) (sym (append-nil ts)) ids,
    counted,
  )
  store_each-Represents (t ∷ new) db ts n rows ids counted le named =
      let db' = with_row db t (suc (length ts)) in
      let rows' = with_row-RowsAre db ts t rows in
      let ids' = with_row-IdsAre db ts t n counted ids named.0 in
      let stored =
        Counted-insert db n (suc (length ts)) t.id t.price counted (omega arith) named.0 in
      let counted' : Counted S db' n = record { total = stored.total; known = stored.known } in
      let longer : length (ts ++ t ∷ []) ≡ suc (length ts) =
        omega (arith, length-append ts (t ∷ [])) in
      let held =
        store_each-Represents new db' (ts ++ t ∷ []) n rows' ids' counted' (omega (arith, longer))
          (subst (λ k. Labelled k new) (sym longer) named.1) in
      subst
        (λ k.
          RowsAre S (store_each S (indexed k new) db') (ts ++ t ∷ new)
          × IdsAre S (store_each S (indexed k new) db') (ts ++ t ∷ new)
          × Counted S (store_each S (indexed k new) db') n)
        longer
        (subst
          (λ us.
            RowsAre S (store_each S (indexed (length (ts ++ t ∷ [])) new) db') us
            × IdsAre S (store_each S (indexed (length (ts ++ t ∷ [])) new) db') us
            × Counted S (store_each S (indexed (length (ts ++ t ∷ [])) new) db') n)
          (append_assoc ts (t ∷ []) new) held)
