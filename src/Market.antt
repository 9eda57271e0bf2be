-- ===== src/Market.antt =====
-- The market of kubegraph: the records that its parts pass around,
-- crates/kubegraph/api/src/market/price.rs and transaction.rs.
--
-- A `Uuid` is a number, a `DateTime` the number of ticks since the earliest one, and an `i64` an
-- integer; where the code computes with an `i64` the model wraps.
pub mod Solver
pub mod Database
pub mod Paging
pub mod Listing
pub mod Trade
pub mod Tables
pub mod Examples
use open_ark.Prelude.{ℕ, Bool, true, false}
use open_ark.Prelude.Int.{ℤ}

pub data Direction : Type 0 where
  pub_side sub_side : Direction

pub record PriceItem : Type 0 where
  pub id : ℕ
  pub timestamp : ℕ
  pub direction : Direction
  pub cost : ℤ
  pub count : ℤ

pub record TransactionTemplate : Type 0 where
  pub prod : ℕ
  pub pub_id : ℕ
  pub sub_id : ℕ
  pub cost : ℤ
  pub count : ℤ

-- `matches!(direction, Direction::Pub)`
abbrev pub is_pub : Direction → Bool
is_pub pub_side = true
is_pub sub_side = false

-- `matches!(direction, Direction::Sub)`
abbrev pub is_sub : Direction → Bool
is_sub pub_side = false
is_sub sub_side = true
