-- ===== src/Feed/Spec.antt =====
-- step12_ws_feed/code/src/main.rs: the abstract view of the database, the list of all trades in the
-- order in which they came.
use rust_experiments.Prelude.{
  ℕ, get_elem?, zero, suc, ◌≤◌, ◌≡◌, List, [], ◌∷◌, Option, none, some, String, length,
}
use rust_experiments.Feed.Services.{Trade, Services}
use rust_experiments.Feed.Defs.{
  JsonValue, to_string, Database, get_total_trades_count, misc_of, trade_id,
}

-- Indices start from 1.
abbrev pub row : List Trade → ℕ → Option Trade
row ts zero = none
row ts (suc k) = get_elem? ts k

-- Trades with the indices that follow `n`.
abbrev pub indexed : ℕ → List Trade → List (Trade × ℕ)
indexed n [] = []
indexed n (t ∷ ts) = (t, suc n) ∷ indexed (suc n) ts

-- The ids of trades with the indices that follow `n`.
abbrev pub Labelled : ℕ → List Trade → Type 0
Labelled n [] = Unit
Labelled n (t ∷ ts) = (t.id ≡ trade_id (suc n) t.price) × Labelled (suc n) ts

module _ (S : Services) where
  -- The trade of the fields of a message, which are at least five.
  unfoldable pub trade_from : String → ℕ → List (JsonValue S) → Option Trade
  unfolding to_string
  trade_from pair index (price ∷ volume ∷ timestamp ∷ side ∷ order_type ∷ more) = some (record {
    id = trade_id index (to_string S price);
    price = to_string S price;
    volume = to_string S volume;
    timestamp = to_string S timestamp;
    side = to_string S side;
    order_type = to_string S order_type;
    misc = misc_of S more;
    pair = pair;
  })
  trade_from pair index _ = none

  -- The trades of a message, of which the first gets the index that follows `n`.
  unfoldable pub listed : String → ℕ → List (List (JsonValue S)) → List Trade
  unfolding trade_from
  listed pair n [] = []
  listed pair n (fields ∷ trades_data) =
      let skipped = listed pair n trades_data in
      let further = listed pair (suc n) trades_data in
      elim (trade_from pair (suc n) fields) [ none ↦ skipped | some trade ↦ trade ∷ further ]

  abbrev pub stored_as : Option Trade → Option S.Bytes
  stored_as none = none
  stored_as (some trade) = some (S.to_vec trade)

  abbrev pub RowsAre : Database S → List Trade → Type 0
  RowsAre db ts = (i : ℕ) → S.trades_table.get db.trades i ≡ stored_as (row ts i)

  -- Each trade's id is known with the trade's index.
  abbrev pub IdsAre : Database S → List Trade → Type 0
  IdsAre db ts =
      (k : ℕ) (t : Trade)
      → get_elem? ts k ≡ some t
      → S.ids_table.get db.trade_ids t.id ≡ some (suc k)

  -- `n` indices are taken, and each id has one of them.
  pub record Counted (db : Database S) (n : ℕ) : Type 0 where
    pub total : get_total_trades_count S db ≡ n
    pub known :
        (id : String) (i : ℕ)
        → S.ids_table.get db.trade_ids id ≡ some i
        → (i ≤ n) × (price : String) × (id ≡ trade_id i price)

  -- The database holds these trades, with the indices from 1 on and no gap: their rows, their ids, and
  -- as the total their number.
  pub record Represents (db : Database S) (ts : List Trade) : Type 0 where
    pub counted : Counted db (length ts)
    pub rows : RowsAre db ts
    pub ids : IdsAre db ts
