-- ===== src/Market/Tables.antt =====
-- The tables of the market under its operations, in any order: the statements of
-- crates/kubegraph/market/gateway/src/db.rs that change them, with any faults, drawn ids and times.
pub mod Rows
pub mod Consistent
use open_ark.Prelude.{ℕ, ◌≡◌, Option, PartialEq, ok}
use open_ark.Market.{Direction, TransactionTemplate}
use open_ark.Market.Database.{
  Db, Spec, insert_side, insert_product, find_product, remove_price, remove_product,
}
use open_ark.Market.Trade.{Faults, trade_on_db}

-- One operation that succeeds; a trade also where it fails.
module _ {V F : Type 0} ⦃e : PartialEq V⦄ (encode : F → Option V) (decode : V → Option F) where
  pub data Step : Db V → Db V → Type 0 where
    inserts_side :
        (side : Direction) (now prod_id : ℕ) (spec : Spec F) (id : ℕ) (db db' : Db V)
        → insert_side encode side now prod_id spec id db ≡ ok db'
        → Step db db'
    inserts_product :
        (spec : V) (id : ℕ) (db db' : Db V) → insert_product spec id db ≡ ok db' → Step db db'
    finds_product :
        (spec : V) (id found : ℕ) (db db' : Db V)
        → find_product spec id db ≡ ok (found, db')
        → Step db db'
    removes_price : (side : Direction) (id : ℕ) (db : Db V) → Step db (remove_price side id db)
    removes_product : (id : ℕ) (db : Db V) → Step db (remove_product id db)
    trades :
        (f : Faults) (now txn_id : ℕ) (t : TransactionTemplate) (db : Db V)
        → Step db (trade_on_db decode f now txn_id t db).1

  pub data Steps : Db V → Db V → Type 0 where
    stays : (db : Db V) → Steps db db
    moves : (db db' db'' : Db V) → Steps db db' → Step db' db'' → Steps db db''
