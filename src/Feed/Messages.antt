-- ===== src/Feed/Messages.antt =====
-- step12_ws_feed/code/src/main.rs: what `handle_ws_message` does with a message of trades.
use rust_experiments.Prelude.{
  ℕ, zero, suc, ◌+◌, ◌<◌, ◌≤◌, ◌≡◌, refl, sym, ap, subst, ◌∙◌, List, [], ◌∷◌, ◌++◌, none, some,
  String, length, length-append, arith, Option-cases, inl, inr,
}
use rust_experiments.Machine.{Build, ok, add64-eq-ok, u64_modulus}
use rust_experiments.Text.Reading.{to_decimal-injective}
use rust_experiments.Feed.Services.{Trade, Services}
use rust_experiments.Feed.Defs.{
  JsonValue, to_string, KrakenTradeMessage, Database, get_total_trades_count, create,
  get_next_trade_counter, check_id_exists, store_id_with_index, store_each, store_trade_batch,
  store_trade, store_trades, store_batch, handle_trade_message, misc_of, trade_id,
}
use rust_experiments.Feed.Spec.{
  indexed, Labelled, trade_from, listed, RowsAre, IdsAre, Counted, Represents,
}
use rust_experiments.Feed.Storing.{Counted-insert, IdsAre-insert, store_each-Represents}

module _ (S : Services) (b : Build) (pair : String) where
  -- The id of the next trade is new.
  pub fresh_id :
      (db : Database S) (n : ℕ) (price : String)
      → Counted S db n
      → S.ids_table.get db.trade_ids (trade_id (suc n) price) ≡ none
  fresh_id db n price counted =
      elim (Option-cases (S.ids_table.get db.trade_ids (trade_id (suc n) price))) [
        | inl absent ↦ absent
        | inr (i, found) ↦
            let (le, q, e) = counted.known _ i found in
            absurd (omega (arith, to_decimal-injective (suc n) i price q e))
      ]

  abbrev pub count_one : Database S → ℕ → Database S
  count_one db n = record db { trades_meta = S.meta_table.insert db.trades_meta "total" (suc n) }

  pub get_next_trade_counter-ok :
      (db : Database S) (n : ℕ)
      → Counted S db n
      → suc n < u64_modulus
      → get_next_trade_counter S b db ≡ ok (suc n, count_one db n)
  unfolding get_next_trade_counter
  get_next_trade_counter-ok db n counted room =
      let next : get_total_trades_count S db + 1 ≡ suc n = omega (arith, counted.total) in
      rw (add64-eq-ok b (get_total_trades_count S db) 1 (omega (arith, next)), next)

  pub count_one-Counted :
      (db : Database S) (n : ℕ) → Counted S db n → Counted S (count_one db n) (suc n)
  unfolding get_total_trades_count
  count_one-Counted db n counted = record {
    total =
        rw (get_total_trades_count, S.meta_table.get-insert_same db.trades_meta "total" (suc n));
    known = λ id i found.
        let (le, price, named) = counted.known id i found in (omega arith, price, named);
  }

  -- A trade of at least five fields.
  module _ (price volume timestamp side order_type : JsonValue S) (more : List (JsonValue S))
      (db : Database S) (n : ℕ) (counted : Counted S db n) (room : suc n < u64_modulus) where
    abbrev pub fields : List (JsonValue S)
    fields = price ∷ volume ∷ timestamp ∷ side ∷ order_type ∷ more

    abbrev pub id : String
    id = trade_id (suc n) (to_string S price)

    abbrev pub trade : Trade
    trade = record {
      id = id;
      price = to_string S price;
      volume = to_string S volume;
      timestamp = to_string S timestamp;
      side = to_string S side;
      order_type = to_string S order_type;
      misc = misc_of S more;
      pair = pair;
    }

    abbrev pub after : Database S
    after = store_id_with_index S id (suc n) (count_one db n)

    store_trade-ok : store_trade S b pair fields db ≡ ok (some (trade, suc n), after)
    unfolding store_trade check_id_exists
    store_trade-ok =
        rw (get_next_trade_counter-ok db n counted room)
          (rw (check_id_exists, fresh_id db n (to_string S price) counted))

    pub after-Counted : Counted S after (suc n)
    after-Counted =
        Counted-insert S (count_one db n) (suc n) (suc n) id (to_string S price)
          (count_one-Counted db n counted) (omega arith) refl

    after_ids : (ts : List Trade) → length ts ≤ n → IdsAre S db ts → IdsAre S after ts
    after_ids ts few ids =
        IdsAre-insert S (count_one db n) ts (suc n) (suc n) id (to_string S price)
          (count_one-Counted db n counted) ids (omega arith) refl

  pub record Stored (trades_data : List (List (JsonValue S))) (db : Database S) (n : ℕ)
      : Type 0 where
    pub result : Database S
    pub ran :
        store_trades S b pair trades_data db ≡ ok (indexed n (listed S pair n trades_data), result)
    pub counts : Counted S result (n + length (listed S pair n trades_data))
    pub same_rows : result.trades ≡ db.trades
    pub same_ids : (ts : List Trade) → length ts ≤ n → IdsAre S db ts → IdsAre S result ts
    pub named : Labelled n (listed S pair n trades_data)

  -- Fields that make no trade take no index.
  Stored-skip :
      (fields : List (JsonValue S)) (trades_data : List (List (JsonValue S))) (db : Database S)
      (n : ℕ)
      → store_trade S b pair fields db ≡ ok (none, db)
      → trade_from S pair (suc n) fields ≡ none
      → Stored trades_data db n
      → Stored (fields ∷ trades_data) db n
  unfolding store_trades listed
  Stored-skip fields trades_data db n skipped none_made r =
      let same : listed S pair n (fields ∷ trades_data) ≡ listed S pair n trades_data =
        rw (listed, none_made) in
      record {
        result = r.result;
        ran = rw (store_trades, skipped) (rw (r.ran, same));
        counts = rw same r.counts;
        same_rows = r.same_rows;
        same_ids = r.same_ids;
        named = rw same r.named;
      }

  pub store_trades-Stored :
      (trades_data : List (List (JsonValue S))) (db : Database S) (n : ℕ)
      → Counted S db n
      → n + length trades_data < u64_modulus
      → Stored trades_data db n
  unfolding store_trades store_trade trade_from listed
  store_trades-Stored [] db n counted room = record {
    result = db;
    ran = refl;
    counts = subst (Counted S db) (omega arith) counted;
    same_rows = refl;
    same_ids = λ ts few ids. ids;
    named = tt;
  }
  store_trades-Stored ([] ∷ rest) db n counted room =
      Stored-skip [] rest db n refl refl (store_trades-Stored rest db n counted (omega arith))
  store_trades-Stored ((f₁ ∷ []) ∷ rest) db n counted room =
      Stored-skip _ rest db n refl refl (store_trades-Stored rest db n counted (omega arith))
  store_trades-Stored ((f₁ ∷ f₂ ∷ []) ∷ rest) db n counted room =
      Stored-skip _ rest db n refl refl (store_trades-Stored rest db n counted (omega arith))
  store_trades-Stored ((f₁ ∷ f₂ ∷ f₃ ∷ []) ∷ rest) db n counted room =
      Stored-skip _ rest db n refl refl (store_trades-Stored rest db n counted (omega arith))
  store_trades-Stored ((f₁ ∷ f₂ ∷ f₃ ∷ f₄ ∷ []) ∷ rest) db n counted room =
      Stored-skip _ rest db n refl refl (store_trades-Stored rest db n counted (omega arith))
  store_trades-Stored ((f₁ ∷ f₂ ∷ f₃ ∷ f₄ ∷ f₅ ∷ more) ∷ rest) db n counted room =
      let here = suc n in
      let stored = store_trade-ok f₁ f₂ f₃ f₄ f₅ more db n counted (omega arith) in
      let counted' = after-Counted f₁ f₂ f₃ f₄ f₅ more db n counted (omega arith) in
      let r =
        store_trades-Stored rest (after f₁ f₂ f₃ f₄ f₅ more db n counted (omega arith)) here
          counted' (omega arith) in
      record {
        result = r.result;
        ran = rw (store_trades, stored) (rw r.ran);
        counts = subst (Counted S r.result) (omega arith) r.counts;
        same_rows = r.same_rows;
        same_ids = λ ts few ids.
            r.same_ids ts (omega arith)
              (after_ids f₁ f₂ f₃ f₄ f₅ more db n counted (omega arith) ts few ids);
        named = (refl, r.named);
      }

module _ (S : Services) where
  store_batch-store_each :
      (batch : List (Trade × ℕ)) (db : Database S) → store_batch S batch db ≡ store_each S batch db
  unfolding store_trade_batch store_each
  store_batch-store_each [] db = refl
  store_batch-store_each (entry ∷ batch) db = refl

  no_rows : RowsAre S (create S) []
  unfolding create
  no_rows zero = S.trades_table.get-new zero
  no_rows (suc k) = S.trades_table.get-new (suc k)

  pub create-Represents : Represents S (create S) []
  unfolding create get_total_trades_count
  create-Represents = record {
    counted = record {
      total = rw (get_total_trades_count, S.meta_table.get-insert_same S.meta_table.new "total" 0);
      known = λ id i found. absurd (cc (S.ids_table.get-new id, found));
    };
    rows = no_rows;
    ids = λ k t at. absurd (cc at);
  }

  -- For a database that holds the trades `ts`, and a message of the channel "trade" whose trades
  -- still have indices below 2^64: `handle_ws_message` does not panic, and stores every trade of the
  -- message that has at least five fields, in order, under the indices that follow, and no other.
  -- No trade is taken for a duplicate.
  pub handle_trade_message-Represents :
      (b : Build) (message : KrakenTradeMessage S) (db : Database S) (ts : List Trade)
      → Represents S db ts
      → message.channel_name ≡ "trade"
      → length ts + length message.trades_data < u64_modulus
      → (after : Database S) × (handle_trade_message S b message db ≡ ok after)
        × Represents S after (ts ++ listed S message.pair (length ts) message.trades_data)
  unfolding handle_trade_message
  handle_trade_message-Represents b message db ts r trade_channel room =
      let n = length ts in
      let new = listed S message.pair n message.trades_data in
      let s = store_trades-Stored S b message.pair message.trades_data db n r.counted room in
      let rows : RowsAre S s.result ts =
        λ i. ap (λ t. S.trades_table.get t i) s.same_rows ∙ r.rows i in
      let (rows', ids', counts') =
        store_each-Represents S new s.result ts (n + length new) rows
          (s.same_ids ts (omega arith) r.ids) s.counts (omega arith) s.named in
      (
        store_each S (indexed n new) s.result,
        rw (handle_trade_message, trade_channel) (rw s.ran (ap ok (store_batch-store_each _ _))),
        record {
          counted = subst (Counted S _) (sym (length-append ts new)) counts';
          rows = rows';
          ids = ids';
        },
      )
