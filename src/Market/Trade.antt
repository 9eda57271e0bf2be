-- ===== src/Market/Trade.antt =====
-- Trading: `Database::trade_on_db` and `Database::trade` of
-- crates/kubegraph/market/gateway/src/db.rs, and `MarketAgent::trade` in a row,
-- crates/kubegraph/market/solver/src/agent.rs.
--
-- The database may fail at any statement, the begin and the commit of a transaction among them, as
-- `Faults` says; and it refuses what the tables of crates/kubegraph/market/migration/src do not allow.
-- As sea_orm documents, a transaction whose body ends in `DbErr` is rolled back, and one whose body
-- returns is committed.
pub mod Updates
pub mod Effect
pub mod Allowed
pub mod Guards
pub mod Agent
use open_ark.Prelude.{
  ℕ, Bool, true, false, not, ◌&&◌, ◌||◌, Option, none, some, List, [], ◌∷◌, ◌++◌, ltb, eqb,
  if◌then◌else◌, is_some, Result, ok, err,
}
use open_ark.Prelude.Int.{ℤ, pos, leb_ℤ, ltb_ℤ, sub_i64}
use open_ark.Market.{TransactionTemplate, is_pub, is_sub}
use open_ark.Market.Database.{
  Price, Spec, Db, Transaction, running, find_price, get_transaction, try_spec,
}

-- `TransactionError`; the message of a failed function is left out.
pub data TransactionError : Type 0 where
  empty_count function_failed_pub function_failed_sub out_of_pub out_of_sub : TransactionError
  transaction_failed : TransactionError

-- Which statements fail.
pub record Faults : Type 0 where
  pub begin : Bool
  pub read_pub : Bool
  pub read_sub : Bool
  pub update_pub : Bool
  pub update_sub : Bool
  pub insert : Bool
  pub commit : Bool

-- `item.direction != Direction::Pub || item.cost > cost || item.count >= count`
abbrev pub pub_passes : {V : Type 0} → TransactionTemplate → Price V → Bool
pub_passes t item =
    not (is_pub item.direction) || ltb_ℤ t.cost item.cost || leb_ℤ t.count item.count

-- `item.direction != Direction::Sub || item.cost < cost || item.count >= count`
abbrev pub sub_passes : {V : Type 0} → TransactionTemplate → Price V → Bool
sub_passes t item =
    not (is_sub item.direction) || ltb_ℤ item.cost t.cost || leb_ℤ t.count item.count

-- The template with the specs of its two sides.
pub record Deal (F : Type 0) : Type 0 where
  pub prod : ℕ
  pub pub_spec : Spec F
  pub sub_spec : Spec F
  pub cost : ℤ
  pub count : ℤ

-- `from_template`, with the time that the database fills in.
abbrev pub from_template : ℕ → ℕ → TransactionTemplate → Transaction
from_template now id t = record {
  id = id;
  prod_id = t.prod;
  pub_id = t.pub_id;
  sub_id = t.sub_id;
  created_at = now;
  cost = t.cost;
  count = t.count;
  pub_state = running;
  pub_updated_at = now;
  sub_state = running;
  sub_updated_at = now;
}

module _ {V : Type 0} where
  -- The row of an id, if the guard lets it pass.
  unfoldable pub take_side : (Price V → Bool) → ℕ → List (Price V) → Option (Price V)
  take_side passes id rows = elim (find_price id rows) [
    | none ↦ none
    | some item ↦ if passes item then some item else none
  ]

  -- `UPDATE` of the count of the row of an id, where the table allows it.
  unfoldable pub set_count : ℕ → ℤ → List (Price V) → List (Price V)
  set_count id count [] = []
  set_count id count (row ∷ rows) =
      let rest = set_count id count rows in
      if eqb row.id id then record row { count = count } ∷ rest else row ∷ rest

  -- `withdraw`: the count is that of the row as it was read. The check of the table refuses a
  -- negative one; `none` is `DbErr`.
  unfoldable pub withdraw : Bool → Price V → ℤ → List (Price V) → Option (List (Price V))
  withdraw fails price count rows =
      if fails || not (leb_ℤ (pos 0) (sub_i64 price.count count))
      then none
      else some (set_count price.id (sub_i64 price.count count) rows)

  -- What the table of the transactions asks of a row: the three rows of the prices that it refers to,
  -- one of them by the id of the product, and the checks of its numbers.
  abbrev pub is_valid_transaction : Transaction → List (Price V) → Bool
  is_valid_transaction row rows =
      is_some (find_price row.prod_id rows)
      && is_some (find_price row.pub_id rows)
      && is_some (find_price row.sub_id rows)
      && leb_ℤ (pos 0) row.cost
      && leb_ℤ (pos 0) row.count

  -- `insert` of a transaction; its primary key must be free.
  unfoldable pub insert_transaction : Bool → Transaction → Db V → Option (Db V)
  insert_transaction fails row db =
      if fails
        || is_some (get_transaction row.id db.transactions)
        || not (is_valid_transaction row db.prices)
      then none
      else some (record db { transactions = db.transactions ++ row ∷ [] })

  -- The statements that change the tables, in a row.
  unfoldable pub settle :
      Faults → ℕ → ℕ → TransactionTemplate → Price V → Price V → Db V → Option (Db V)
  settle f now txn_id t p s db = elim (withdraw f.update_pub p t.count db.prices) [
    | none ↦ none
    | some rows ↦ elim (withdraw f.update_sub s t.count rows) [
      | none ↦ none
      | some rows' ↦
          insert_transaction f.insert (from_template now txn_id t) (record db { prices = rows' })
    ]
  ]

module _ {V F : Type 0} (decode : V → Option F) where
  -- The body of the transaction; `none` is `DbErr`.
  unfoldable pub trade_body :
      Faults
      → ℕ
      → ℕ
      → TransactionTemplate
      → Db V
      → Option (Result TransactionError (ℕ × Deal F) × Db V)
  trade_body f now txn_id t db =
      if leb_ℤ t.count (pos 0)
      then some (err empty_count, db)
      else if f.read_pub
      then none
      else elim (take_side (pub_passes t) t.pub_id db.prices) [
        | none ↦ some (err out_of_pub, db)
        | some p ↦ if f.read_sub then none else elim (take_side (sub_passes t) t.sub_id db.prices) [
          | none ↦ some (err out_of_sub, db)
          | some s ↦ elim (try_spec decode p) [
            | none ↦ some (err out_of_pub, db)
            | some pub_spec ↦ elim (try_spec decode s) [
              | none ↦ some (err out_of_pub, db)
              | some sub_spec ↦ elim (settle f now txn_id t p s db) [
                | none ↦ none
                | some db' ↦ some (
                  ok (
                    txn_id,
                    record {
                      prod = t.prod;
                      pub_spec = pub_spec;
                      sub_spec = sub_spec;
                      cost = t.cost;
                      count = t.count;
                    },
                  ),
                  db',
                )
              ]
            ]
          ]
        ]
      ]

  -- `trade_on_db`
  unfoldable pub trade_on_db :
      Faults → ℕ → ℕ → TransactionTemplate → Db V → Result TransactionError (ℕ × Deal F) × Db V
  trade_on_db f now txn_id t db =
      if f.begin then (err transaction_failed, db) else elim (trade_body f now txn_id t db) [
        | none ↦ (err transaction_failed, db)
        | some (result, db') ↦ if f.commit then (err transaction_failed, db) else (result, db')
      ]

-- `TransactionReceipt`
pub record Receipt : Type 0 where
  pub id : ℕ
  pub template : TransactionTemplate

-- What the two functions that are called after the transaction do.
pub record Calls : Type 0 where
  pub pub_fails : Bool
  pub sub_fails : Bool
  pub pub_first : Bool

-- `try_join!`: the error that comes first, if any.
abbrev pub join_calls : Calls → Option TransactionError
join_calls c =
    if c.pub_fails && (c.pub_first || not c.sub_fails)
    then some function_failed_pub
    else if c.sub_fails
    then some function_failed_sub
    else none

-- `trade`
unfoldable pub trade :
    {V F : Type 0}
    → (V → Option F)
    → Faults
    → Calls
    → ℕ
    → ℕ
    → TransactionTemplate
    → Db V
    → Result TransactionError Receipt × Db V
trade decode f calls now txn_id t db =
    let (result, db') = trade_on_db decode f now txn_id t db in
    elim result [
      | err e ↦ (err e, db')
      | ok (id, deal) ↦ elim (join_calls calls) [
        | some e ↦ (err e, db')
        | none ↦ (ok (record { id = id; template = t }), db')
      ]
    ]
