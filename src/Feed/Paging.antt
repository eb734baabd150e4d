-- ===== src/Feed/Paging.antt =====
-- step12_ws_feed/code/src/main.rs: the requests that read trades, as parts of the list of all trades.
use rust_experiments.Prelude.{
  ℕ, get_elem?, take, drop, get_elem?-none, drop-none, drop-some, drop-all, zero, suc, ◌+◌, ◌-◌,
  ◌≤◌, ◌<◌, ◌≡◌, refl, sym, ap, List, [], ◌∷◌, Option, none, some, length, min, arith, Option-cases,
  Bool-cases, inl, inr, ◌==◌, if◌then◌else◌, ==→eq,
}
use rust_experiments.Machine.{Build, ok, add64-eq-ok, u64_modulus}
use rust_experiments.Feed.Services.{Trade, Services}
use rust_experiments.Feed.Defs.{
  Database, max_page_size, read_range, get_trades_by_range, read_recent, get_recent_trades,
  get_trades,
}
use rust_experiments.Feed.Spec.{RowsAre, Represents}

-- `limit` trades from the index `start` on, or all that there are; there is no index 0.
abbrev pub page_from : ℕ → ℕ → List Trade → List Trade
page_from zero limit ts = []
page_from (suc k) limit ts = take limit (drop k ts)

-- What a query means: it starts with the first trade, if it does not say otherwise.
abbrev pub start_of : Option ℕ → ℕ
start_of none = 1
start_of (some i) = i

-- 100 trades, if the query does not say otherwise, and 1000 at most.
abbrev pub limit_of : Option ℕ → ℕ
limit_of none = 100
limit_of (some n) = min n 1000

abbrev pub page : Option ℕ → Option ℕ → List Trade → List Trade
page start_index limit ts = page_from (start_of start_index) (limit_of limit) ts

module _ (S : Services) (db : Database S) (ts : List Trade) (rows : RowsAre S db ts) where
  read_range-page_from : (n i : ℕ) → read_range S db n i ≡ page_from i n ts
  unfolding read_range
  read_range-page_from zero zero = refl
  read_range-page_from zero (suc k) = refl
  read_range-page_from (suc n) zero = rw (read_range, rows zero)
  read_range-page_from (suc n) (suc k) = elim (Option-cases (get_elem? ts k)) [
    | inl e ↦ rw (read_range, rows (suc k), e, drop-none ts k e)
    | inr (t, e) ↦
        rw (read_range, rows (suc k), e)
          (rw (S.from_slice-to_vec t, drop-some ts k t e)
            (ap (λ us. t ∷ us) (read_range-page_from n (suc (suc k)))))
  ]

  read_recent-drop : (n k : ℕ) → k + n ≡ length ts → read_recent S db n (suc k) ≡ drop k ts
  unfolding read_recent
  read_recent-drop zero k e = sym (drop-all ts k (omega arith))
  read_recent-drop (suc n) k h = elim (Option-cases (get_elem? ts k)) [
    | inl e ↦ absurd (omega (arith, get_elem?-none ts k e))
    | inr (t, e) ↦
        rw (read_recent, rows (suc k), e)
          (rw (S.from_slice-to_vec t, drop-some ts k t e)
            (ap (λ us. t ∷ us) (read_recent-drop n (suc k) (omega arith))))
  ]

  last_rows :
      (n : ℕ)
      → n ≤ length ts
      → (if n == 0 then [] else read_recent S db n (length ts - n + 1)) ≡ drop (length ts - n) ts
  last_rows n le = elim (Bool-cases (n == 0)) [
    | inl e ↦ rw e (sym (drop-all ts (length ts - n) (omega (arith, ==→eq n 0 e))))
    | inr e ↦
        let next : length ts - n + 1 ≡ suc (length ts - n) = omega arith in
        rw e (rw next (read_recent-drop n (length ts - n) (omega arith)))
  ]

pub least_le : (count total bound : ℕ) → min (min count total) bound ≤ total
least_le count total bound = ground arith

module _ (S : Services) (db : Database S) (ts : List Trade) (r : Represents S db ts) where
  range_page :
      (b : Build) (start n : ℕ)
      → start + n < u64_modulus
      → get_trades_by_range S b start n db ≡ ok (page_from start n ts)
  unfolding get_trades_by_range
  range_page b start n room =
      let gap : start + n - start ≡ n = omega arith in
      rw (get_trades_by_range, add64-eq-ok b start n room)
        (rw gap (ap ok (read_range-page_from S db ts r.rows n start)))

  -- For a database that holds the trades `ts`, and a query whose start and limit have a sum below
  -- 2^64: `get_trades` answers with the page of `ts` that the query asks for, from its start on, 100
  -- trades if no limit is given and 1000 at most, and fewer where `ts` ends; from the start 0 it is
  -- empty.
  pub get_trades-page :
      (b : Build) (start_index limit : Option ℕ)
      → start_of start_index + limit_of limit < u64_modulus
      → get_trades S b start_index limit db ≡ ok (page start_index limit ts)
  unfolding get_trades
  get_trades-page b none none room = range_page b 1 100 room
  get_trades-page b none (some n) room = range_page b 1 (min n 1000) room
  get_trades-page b (some i) none room = range_page b i 100 room
  get_trades-page b (some i) (some n) room = range_page b i (min n 1000) room

  -- For a database that holds the trades `ts`: a request for the recent trades is answered with the
  -- last ones, as many as it asks for, but 100 at most, and all if there are fewer.
  pub get_recent_trades-drop :
      (count : ℕ)
      → get_recent_trades S count db
        ≡ drop (length ts - min (min count (length ts)) max_page_size) ts
  unfolding get_recent_trades
  get_recent_trades-drop count =
      rw (get_recent_trades, r.counted.total)
        (last_rows S db ts r.rows (min (min count (length ts)) max_page_size)
          (least_le count (length ts) max_page_size))
