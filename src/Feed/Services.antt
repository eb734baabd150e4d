-- ===== src/Feed/Services.antt =====
-- step12_ws_feed/code/src/main.rs: what it takes from the libraries that it calls. The JSON library
-- reads back what it wrote.
use rust_experiments.Prelude.{ℕ, ◌≡◌, Option, some, String}
use rust_experiments.Store.Table.{Table}

pub record Trade : Type 0 where
  pub id : String
  pub price : String
  pub volume : String
  pub timestamp : String
  pub side : String
  pub order_type : String
  pub misc : String
  pub pair : String

pub record Services : Type 1 where
  pub Bytes : Type 0
  pub to_vec : Trade → Bytes
  pub from_slice : Bytes → Option Trade
  pub from_slice-to_vec : (trade : Trade) → from_slice (to_vec trade) ≡ some trade
  pub trades_table : Table ℕ Bytes
  pub ids_table : Table String ℕ
  pub meta_table : Table String ℕ
  -- The numbers of JSON, and how they print.
  pub F64 : Type 0
  pub f64_to_string : F64 → String
