-- ===== src/Feed/GapReading.antt =====
-- step12_ws_feed/code/src/main.rs: what the requests that read trades answer when some indices have no
-- trade.
use rust_experiments.Prelude.{
  ℕ, get_elem?, take, drop, get_elem?-none, drop-none, drop-some, drop-all, zero, suc, ◌+◌, ◌-◌,
  ◌≤◌, ◌<◌, ◌≡◌, refl, ap, ◌∙◌, List, [], ◌∷◌, Option, none, some, length, min, arith, Option-cases,
  Bool-cases, inl, inr, ◌==◌, if◌then◌else◌, ==→eq,
}
use rust_experiments.Machine.{Build, ok, add64-eq-ok, u64_modulus}
use rust_experiments.Feed.Services.{Trade, Services}
use rust_experiments.Feed.Spec.{stored_as}
use rust_experiments.Feed.Defs.{
  Database, max_page_size, read_range, get_trades_by_range, read_recent, get_recent_trades,
  get_trades,
}
use rust_experiments.Feed.Paging.{start_of, limit_of, least_le}
use rust_experiments.Feed.Slots.{trade_at, SlotsAre, HasSlots}

-- The trades up to the first index that has none.
abbrev pub until_gap : List (Option Trade) → List Trade
until_gap [] = []
until_gap (none ∷ slots) = []
until_gap (some t ∷ slots) = t ∷ until_gap slots

-- The trades of the indices that have one.
abbrev pub present : List (Option Trade) → List Trade
present [] = []
present (none ∷ slots) = present slots
present (some t ∷ slots) = t ∷ present slots

abbrev pub gap_page_from : ℕ → ℕ → List (Option Trade) → List Trade
gap_page_from zero limit slots = []
gap_page_from (suc k) limit slots = until_gap (take limit (drop k slots))

trade_at-none :
    (slots : List (Option Trade)) (k : ℕ) → get_elem? slots k ≡ none → trade_at slots k ≡ none
trade_at-none [] k e = refl
trade_at-none (s ∷ slots) zero e = cc
trade_at-none (s ∷ slots) (suc k) e = trade_at-none slots k e

trade_at-some :
    (slots : List (Option Trade)) (k : ℕ) (s : Option Trade)
    → get_elem? slots k ≡ some s
    → trade_at slots k ≡ s
trade_at-some [] k s e = cc
trade_at-some (s' ∷ slots) zero s e = cc
trade_at-some (s' ∷ slots) (suc k) s e = trade_at-some slots k s e

module _ (S : Services) (db : Database S) (slots : List (Option Trade))
    (rows : SlotsAre S db slots) where
  row_none : (k : ℕ) → get_elem? slots k ≡ none → S.trades_table.get db.trades (suc k) ≡ none
  row_none k e = rows (suc k) ∙ ap (stored_as S) (trade_at-none slots k e)

  row_some :
      (k : ℕ) (s : Option Trade)
      → get_elem? slots k ≡ some s
      → S.trades_table.get db.trades (suc k) ≡ stored_as S s
  row_some k s e = rows (suc k) ∙ ap (stored_as S) (trade_at-some slots k s e)

  read_range-gap_page_from : (n i : ℕ) → read_range S db n i ≡ gap_page_from i n slots
  unfolding read_range
  read_range-gap_page_from zero zero = refl
  read_range-gap_page_from zero (suc k) = refl
  read_range-gap_page_from (suc n) zero = rw (read_range, rows zero)
  read_range-gap_page_from (suc n) (suc k) = elim (Option-cases (get_elem? slots k)) [
    | inl e ↦ rw (read_range, row_none k e, drop-none slots k e)
    | inr (none, e) ↦ rw (read_range, row_some k none e, drop-some slots k none e)
    | inr (some t, e) ↦
        rw (read_range, row_some k (some t) e)
          (rw (S.from_slice-to_vec t, drop-some slots k (some t) e)
            (ap (λ us. t ∷ us) (read_range-gap_page_from n (suc (suc k)))))
  ]

  read_recent-present :
      (n k : ℕ) → k + n ≡ length slots → read_recent S db n (suc k) ≡ present (drop k slots)
  unfolding read_recent
  read_recent-present zero k e = rw (drop-all slots k (omega arith))
  read_recent-present (suc n) k h = elim (Option-cases (get_elem? slots k)) [
    | inl e ↦ absurd (omega (arith, get_elem?-none slots k e))
    | inr (none, e) ↦
        rw (read_recent, row_some k none e)
          (rw (drop-some slots k none e) (read_recent-present n (suc k) (omega arith)))
    | inr (some t, e) ↦
        rw (read_recent, row_some k (some t) e)
          (rw (S.from_slice-to_vec t, drop-some slots k (some t) e)
            (ap (λ us. t ∷ us) (read_recent-present n (suc k) (omega arith))))
  ]

  last_slots :
      (n : ℕ)
      → n ≤ length slots
      → (if n == 0 then [] else read_recent S db n (length slots - n + 1))
        ≡ present (drop (length slots - n) slots)
  last_slots n le = elim (Bool-cases (n == 0)) [
    | inl e ↦ rw e (rw (drop-all slots (length slots - n) (omega (arith, ==→eq n 0 e))))
    | inr e ↦
        let next : length slots - n + 1 ≡ suc (length slots - n) = omega arith in
        rw e (rw next (read_recent-present n (length slots - n) (omega arith)))
  ]

module _ (S : Services) (db : Database S) (slots : List (Option Trade))
    (h : HasSlots S db slots) where
  range_gap_page :
      (b : Build) (start n : ℕ)
      → start + n < u64_modulus
      → get_trades_by_range S b start n db ≡ ok (gap_page_from start n slots)
  unfolding get_trades_by_range
  range_gap_page b start n room =
      let gap : start + n - start ≡ n = omega arith in
      rw (get_trades_by_range, add64-eq-ok b start n room)
        (rw gap (ap ok (read_range-gap_page_from S db slots h.rows n start)))

  -- For a database whose taken indices have the slots `slots`, and a query whose start and limit have
  -- a sum below 2^64: `get_trades` answers with the trades from the start on up to the first index
  -- that has none, as many as the limit of the query allows; from the start 0 there are none. It never
  -- answers with a trade that comes after such an index.
  pub get_trades-until_gap :
      (b : Build) (start_index limit : Option ℕ)
      → start_of start_index + limit_of limit < u64_modulus
      → get_trades S b start_index limit db
        ≡ ok (gap_page_from (start_of start_index) (limit_of limit) slots)
  unfolding get_trades
  get_trades-until_gap b none none room = range_gap_page b 1 100 room
  get_trades-until_gap b none (some n) room = range_gap_page b 1 (min n 1000) room
  get_trades-until_gap b (some i) none room = range_gap_page b i 100 room
  get_trades-until_gap b (some i) (some n) room = range_gap_page b i (min n 1000) room

  -- For such a database: a request for the recent trades is answered with the trades of the last
  -- indices, as many indices as it asks for, but 100 at most; those that have none are left out.
  pub get_recent_trades-present :
      (count : ℕ)
      → get_recent_trades S count db
        ≡ present (drop (length slots - min (min count (length slots)) max_page_size) slots)
  unfolding get_recent_trades
  get_recent_trades-present count =
      rw (get_recent_trades, h.counted.total)
        (last_slots S db slots h.rows (min (min count (length slots)) max_page_size)
          (least_le count (length slots) max_page_size))
