-- ===== src/Feed/Slots.antt =====
-- step12_ws_feed/code/src/main.rs: the abstract view of the database when the storage can fail: each
-- index that has been taken has a trade or none.
use rust_experiments.Prelude.{
  ℕ, zero, suc, ◌+◌, ◌≤◌, ◌≡◌, refl, sym, ap, subst, ◌∙◌, List, [], ◌∷◌, ◌++◌, Option, none, some,
  length, length-append, arith, Bool-cases, inl, inr, ◌==◌, if◌then◌else◌, ==→eq, ==→ne,
  append_assoc, append-nil,
}
use rust_experiments.Feed.Services.{Trade, Services}
use rust_experiments.Feed.Defs.{Database, get_total_trades_count, store_id_with_index, store_each}
use rust_experiments.Feed.Spec.{indexed, Labelled, stored_as, Counted}
use rust_experiments.Feed.Storing.{Counted-insert}

abbrev pub trade_at : List (Option Trade) → ℕ → Option Trade
trade_at [] k = none
trade_at (s ∷ slots) zero = s
trade_at (s ∷ slots) (suc k) = trade_at slots k

-- Indices start from 1.
abbrev pub slot : List (Option Trade) → ℕ → Option Trade
slot slots zero = none
slot slots (suc k) = trade_at slots k

abbrev pub gaps : ℕ → List (Option Trade)
gaps zero = []
gaps (suc n) = none ∷ gaps n

abbrev pub filled : List Trade → List (Option Trade)
filled [] = []
filled (t ∷ ts) = some t ∷ filled ts

pub length-gaps : (n : ℕ) → length (gaps n) ≡ n
length-gaps zero = refl
length-gaps (suc n) = omega (arith, length-gaps n)

pub length-filled : (ts : List Trade) → length (filled ts) ≡ length ts
length-filled [] = refl
length-filled (t ∷ ts) = omega (arith, length-filled ts)

trade_at-gaps : (n k : ℕ) → trade_at (gaps n) k ≡ none
trade_at-gaps zero k = refl
trade_at-gaps (suc n) zero = refl
trade_at-gaps (suc n) (suc k) = trade_at-gaps n k

-- Gaps at the end hold no trade.
trade_at-append_gaps :
    (slots : List (Option Trade)) (n k : ℕ) → trade_at (slots ++ gaps n) k ≡ trade_at slots k
trade_at-append_gaps [] n k = trade_at-gaps n k
trade_at-append_gaps (s ∷ slots) n zero = refl
trade_at-append_gaps (s ∷ slots) n (suc k) = trade_at-append_gaps slots n k

pub slot-append_gaps :
    (slots : List (Option Trade)) (n i : ℕ) → slot (slots ++ gaps n) i ≡ slot slots i
slot-append_gaps slots n zero = refl
slot-append_gaps slots n (suc k) = trade_at-append_gaps slots n k

trade_at-last :
    (slots : List (Option Trade)) (t : Trade) (k : ℕ)
    → trade_at (slots ++ some t ∷ []) k ≡ (if k == length slots then some t else trade_at slots k)
trade_at-last [] t zero = ground arith
trade_at-last [] t (suc k) = ground arith
trade_at-last (s ∷ slots) t zero = ground arith
trade_at-last (s ∷ slots) t (suc k) = ground (arith, trade_at-last slots t k)

module _ (S : Services) where
  abbrev pub SlotsAre : Database S → List (Option Trade) → Type 0
  SlotsAre db slots = (i : ℕ) → S.trades_table.get db.trades i ≡ stored_as S (slot slots i)

  -- These indices are taken, and those of them that have a trade hold it.
  pub record HasSlots (db : Database S) (slots : List (Option Trade)) : Type 0 where
    pub counted : Counted S db (length slots)
    pub rows : SlotsAre db slots

  abbrev with_row : Database S → Trade → ℕ → Database S
  with_row db trade index = record db {
    trades = S.trades_table.insert db.trades index (S.to_vec trade);
    trade_ids = S.ids_table.insert db.trade_ids trade.id index;
  }

  with_row-SlotsAre :
      (db : Database S) (slots : List (Option Trade)) (t : Trade)
      → SlotsAre db slots
      → SlotsAre (with_row db t (suc (length slots))) (slots ++ some t ∷ [])
  with_row-SlotsAre db slots t rows zero =
      S.trades_table.get-insert_other db.trades (suc (length slots)) (S.to_vec t) zero
        (λ e. omega arith)
      ∙ rows zero
  with_row-SlotsAre db slots t rows (suc k) = elim (Bool-cases (k == length slots)) [
    | inl e ↦
        ap (S.trades_table.get _) (ap suc (==→eq k (length slots) e))
        ∙ S.trades_table.get-insert_same db.trades (suc (length slots)) (S.to_vec t)
        ∙ ap (stored_as S)
            (sym (trade_at-last slots t k ∙ ap (λ c. if c then some t else trade_at slots k) e))
    | inr e ↦
        S.trades_table.get-insert_other db.trades (suc (length slots)) (S.to_vec t) (suc k)
          (λ p. ==→ne k (length slots) e (omega (arith, p)))
        ∙ rows (suc k)
        ∙ ap (stored_as S)
            (sym (trade_at-last slots t k ∙ ap (λ c. if c then some t else trade_at slots k) e))
  ]

  -- The rows of a batch follow the slots that there are.
  pub store_each-SlotsAre :
      (new : List Trade) (db : Database S) (slots : List (Option Trade)) (n : ℕ)
      → SlotsAre db slots
      → Counted S db n
      → length slots + length new ≤ n
      → Labelled (length slots) new
      → SlotsAre (store_each S (indexed (length slots) new) db) (slots ++ filled new)
        × Counted S (store_each S (indexed (length slots) new) db) n
  unfolding store_each store_id_with_index get_total_trades_count
  store_each-SlotsAre [] db slots n rows counted le named =
      (subst (SlotsAre db) (sym (append-nil slots)) rows, counted)
  store_each-SlotsAre (t ∷ new) db slots n rows counted le named =
      let db' = with_row db t (suc (length slots)) in
      let stored =
        Counted-insert S db n (suc (length slots)) t.id t.price counted (omega arith) named.0 in
      let counted' : Counted S db' n = record { total = stored.total; known = stored.known } in
      let longer : length (slots ++ some t ∷ []) ≡ suc (length slots) =
        omega (arith, length-append slots (some t ∷ [])) in
      let (after, counts) =
        store_each-SlotsAre new db' (slots ++ some t ∷ []) n (with_row-SlotsAre db slots t rows)
          counted' (omega (arith, longer)) (subst (λ k. Labelled k new) (sym longer) named.1) in
      subst
        (λ k.
          SlotsAre (store_each S (indexed k new) db') (slots ++ some t ∷ filled new)
          × Counted S (store_each S (indexed k new) db') n)
        longer
        (
          subst (SlotsAre (store_each S (indexed (length (slots ++ some t ∷ [])) new) db'))
              (append_assoc slots (some t ∷ []) (filled new)) after,
          counts,
        )
