-- ===== src/Market/Database.antt =====
-- The market's tables and the statements on them, crates/kubegraph/market/gateway/src/db.rs, with
-- the rows of crates/kubegraph/market/entity/src/price.rs, product.rs and transaction.rs, and what the
-- tables of crates/kubegraph/market/migration/src ask of their rows: the keys, the references of one
-- table to another, with the rows that a `DELETE` takes along, and the checks of costs and counts.
--
-- A table is the list of its rows in the order of their insertion; `V` is the type of the JSON
-- values, `F` that of the functions' specs. An id that the code draws, the time that the database
-- fills in, and the conversions of serde are arguments. A statement that does not reach the
-- database fails without an effect; only `Trade` says more of that.

pub mod Laws
use open_ark.Prelude.{
  ℕ, Bool, true, false, not, ◌&&◌, ◌||◌, Option, none, some, List, [], ◌∷◌, ◌++◌, leb, ltb, eqb,
  if◌then◌else◌, is_some, PartialEq, ◌==◌, Result, ok, err, take, map,
}
use open_ark.Prelude.Int.{ℤ, pos, leb_ℤ, ltb_ℤ}
use open_ark.Market.{Direction, pub_side, sub_side, PriceItem, is_pub, is_sub}
use open_ark.Sort.{filter_by, sort}

-- `entity::price::Model`
pub record Price (V : Type 0) : Type 0 where
  pub id : ℕ
  pub product_id : ℕ
  pub created_at : ℕ
  pub direction : Direction
  pub cost : ℤ
  pub count : ℤ
  pub spec : V

-- `entity::product::Model`
pub record Product (V : Type 0) : Type 0 where
  pub id : ℕ
  pub spec : V

pub data TaskState : Type 0 where
  running completed failed : TaskState

-- `entity::transaction::Model`
pub record Transaction : Type 0 where
  pub id : ℕ
  pub prod_id : ℕ
  pub pub_id : ℕ
  pub sub_id : ℕ
  pub created_at : ℕ
  pub cost : ℤ
  pub count : ℤ
  pub pub_state : TaskState
  pub pub_updated_at : ℕ
  pub sub_state : TaskState
  pub sub_updated_at : ℕ

pub record Db (V : Type 0) : Type 0 where
  pub products : List (Product V)
  pub prices : List (Price V)
  pub transactions : List Transaction

-- `PubSpec` and `SubSpec`
pub record Spec (F : Type 0) : Type 0 where
  pub cost : ℤ
  pub count : ℤ
  pub function : F

-- `Page`
pub record Page : Type 0 where
  pub start : Option ℕ
  pub limit : ℕ

-- The errors of the statements: the JSON does not convert, a primary key is taken, or a row refers to
-- another that is not there, or fails a check.
pub data StoreError : Type 0 where
  bad_spec taken_id violation : StoreError

-- The side that a filter asks for.
abbrev pub is_side : Direction → Direction → Bool
is_side pub_side d = is_pub d
is_side sub_side d = is_sub d

-- `col_id.gt(start)`, where there is a start.
abbrev pub is_after : Option ℕ → ℕ → Bool
is_after none id = true
is_after (some start) id = ltb start id

module _ {V : Type 0} where
  -- `entity::price::Entity::find_by_id`
  unfoldable pub find_price : ℕ → List (Price V) → Option (Price V)
  find_price id [] = none
  find_price id (row ∷ rows) =
      let rest = find_price id rows in if eqb row.id id then some row else rest

  -- `filter::default_price`
  abbrev pub default_price : Option Direction → Price V → Bool
  default_price none row = leb_ℤ (pos 0) row.cost && ltb_ℤ (pos 0) row.count
  default_price (some side) row =
      leb_ℤ (pos 0) row.cost && ltb_ℤ (pos 0) row.count && is_side side row.direction

  -- `order_by_asc(col_id)`
  abbrev pub id_le : Price V → Price V → Bool
  id_le a b = leb a.id b.id

  -- The rows of a page: those after its start that pass the filter, by their ids.
  unfoldable pub list_prices : Option Direction → Page → List (Price V) → List (Price V)
  list_prices side page rows = take page.limit (
      filter_by (λ row. is_after page.start row.id)
        (filter_by (default_price side) (sort id_le rows)))

  -- A row of the histogram.
  abbrev pub price_item : Price V → PriceItem
  price_item row = record {
    id = row.id;
    timestamp = row.created_at;
    direction = row.direction;
    cost = row.cost;
    count = row.count;
  }

  -- `list_price_histogram`: the product is not among the conditions.
  unfoldable pub list_price_histogram : ℕ → Page → Db V → List PriceItem
  list_price_histogram prod_id page db = map price_item (list_prices none page db.prices)

  -- `list_pub_ids` and `list_sub_ids`: nor here.
  unfoldable pub list_pub_ids : ℕ → Page → Db V → List ℕ
  list_pub_ids prod_id page db = map (λ row. row.id) (list_prices (some pub_side) page db.prices)

  unfoldable pub list_sub_ids : ℕ → Page → Db V → List ℕ
  list_sub_ids prod_id page db = map (λ row. row.id) (list_prices (some sub_side) page db.prices)

  -- A row of a side by its id, as `get_pub` and `get_sub` ask for it.
  unfoldable pub find_side : Direction → ℕ → List (Price V) → Option (Price V)
  find_side side id rows = elim (find_price id rows) [
    | none ↦ none
    | some row ↦ if default_price (some side) row then some row else none
  ]

  -- `DELETE` of the row of the id, if it passes the filter; its transactions go in `remove_price`.
  unfoldable pub remove_side : Direction → ℕ → List (Price V) → List (Price V)
  remove_side side id rows =
      filter_by (λ row. not (eqb row.id id && default_price (some side) row)) rows

  -- Whether a row of an id is among those that a `DELETE` takes.
  unfoldable pub is_gone : (Price V → Bool) → ℕ → List (Price V) → Bool
  is_gone gone id [] = false
  is_gone gone id (row ∷ rows) = gone row && eqb row.id id || is_gone gone id rows

  -- `ON DELETE CASCADE` of the transactions: a transaction goes with any of the three rows that it
  -- refers to.
  unfoldable pub cascade : (Price V → Bool) → List (Price V) → List Transaction → List Transaction
  cascade gone rows transactions =
      filter_by
        (λ (t : Transaction).
          not (
            is_gone gone t.prod_id rows
            || is_gone gone t.pub_id rows
            || is_gone gone t.sub_id rows))
        transactions

  -- `remove_pub` and `remove_sub`
  abbrev pub remove_price : Direction → ℕ → Db V → Db V
  remove_price side id db = record db {
    prices = remove_side side id db.prices;
    transactions =
        cascade (λ row. eqb row.id id && default_price (some side) row) db.prices db.transactions;
  }

  abbrev pub remove_pub : ℕ → Db V → Db V
  remove_pub pub_id db = remove_price pub_side pub_id db

  abbrev pub remove_sub : ℕ → Db V → Db V
  remove_sub sub_id db = remove_price sub_side sub_id db

  -- The ids of the products are the primary key.
  unfoldable pub has_product : ℕ → List (Product V) → Bool
  has_product id [] = false
  has_product id (row ∷ rows) = eqb row.id id || has_product id rows

  -- What the table of the prices asks of a row: its product, and the checks of its numbers.
  abbrev pub is_valid_price : Price V → Db V → Bool
  is_valid_price row db =
      has_product row.product_id db.products && leb_ℤ (pos 0) row.cost && leb_ℤ (pos 0) row.count

  -- `insert` of a row; its primary key must be free.
  unfoldable pub insert_price : Price V → Db V → Result StoreError (Db V)
  insert_price row db =
      if is_some (find_price row.id db.prices)
      then err taken_id
      else (if is_valid_price row db
          then ok (record db { prices = db.prices ++ row ∷ [] })
          else err violation)

  module _ {F : Type 0} (decode : V → Option F) where
    -- `TryFrom<Model>` for `PubSpec` and for `SubSpec`
    unfoldable pub try_spec : Price V → Option (Spec F)
    try_spec row = elim (decode row.spec) [
      | none ↦ none
      | some f ↦ some (record { cost = row.cost; count = row.count; function = f })
    ]

    -- `model.map(TryInto::try_into).transpose()`
    abbrev pub read_spec : Option (Price V) → Result StoreError (Option (Spec F))
    read_spec none = ok none
    read_spec (some row) = elim (try_spec row) [ none ↦ err bad_spec | some spec ↦ ok (some spec) ]

    -- `get_pub` and `get_sub`
    unfoldable pub get_side : Direction → ℕ → Db V → Result StoreError (Option (Spec F))
    get_side side id db = read_spec (find_side side id db.prices)

    abbrev pub get_pub : ℕ → Db V → Result StoreError (Option (Spec F))
    get_pub pub_id db = get_side pub_side pub_id db

    abbrev pub get_sub : ℕ → Db V → Result StoreError (Option (Spec F))
    get_sub sub_id db = get_side sub_side sub_id db

  -- `insert_pub` and `insert_sub`, with `from_pub_spec` and `from_sub_spec`; the id is the drawn one.
  unfoldable pub insert_side :
      {F : Type 0} (encode : F → Option V)
      → Direction
      → ℕ
      → ℕ
      → Spec F
      → ℕ
      → Db V
      → Result StoreError (Db V)
  insert_side encode side now prod_id spec id db = elim (encode spec.function) [
    | none ↦ err bad_spec
    | some value ↦
        insert_price
          (record {
            id = id;
            product_id = prod_id;
            created_at = now;
            direction = side;
            cost = spec.cost;
            count = spec.count;
            spec = value;
          })
          db
  ]

  abbrev pub insert_pub :
      {F : Type 0} (encode : F → Option V) → ℕ → ℕ → Spec F → ℕ → Db V → Result StoreError (Db V)
  insert_pub encode now prod_id spec pub_id db =
      insert_side encode pub_side now prod_id spec pub_id db

  abbrev pub insert_sub :
      {F : Type 0} (encode : F → Option V) → ℕ → ℕ → Spec F → ℕ → Db V → Result StoreError (Db V)
  insert_sub encode now prod_id spec sub_id db =
      insert_side encode sub_side now prod_id spec sub_id db

  -- `remove_product`, with its prices, and their transactions
  abbrev pub remove_product : ℕ → Db V → Db V
  remove_product prod_id db = record db {
    products = filter_by (λ row. not (eqb row.id prod_id)) db.products;
    prices = filter_by (λ row. not (eqb row.product_id prod_id)) db.prices;
    transactions = cascade (λ row. eqb row.product_id prod_id) db.prices db.transactions;
  }

  module _ ⦃e : PartialEq V⦄ where
    -- The product of a spec.
    unfoldable pub find_spec : V → List (Product V) → Option ℕ
    find_spec spec [] = none
    find_spec spec (row ∷ rows) =
        let rest = find_spec spec rows in if row.spec == spec then some row.id else rest

    -- `insert_product`, with the id that is drawn.
    unfoldable pub insert_product : V → ℕ → Db V → Result StoreError (Db V)
    insert_product spec id db =
        if has_product id db.products
        then err taken_id
        else ok (record db { products = db.products ++ record { id = id; spec = spec } ∷ [] })

    -- `find_product`: the product of the spec, which is inserted where there is none.
    unfoldable pub find_product : V → ℕ → Db V → Result StoreError (ℕ × Db V)
    find_product spec id db = elim (find_spec spec db.products) [
      | some found ↦ ok (found, db)
      | none ↦ elim (insert_product spec id db) [ err e ↦ err e | ok db' ↦ ok (id, db') ]
    ]

-- `get_transaction`, with the row for the spec that is made of it.
unfoldable pub get_transaction : ℕ → List Transaction → Option Transaction
get_transaction txn_id [] = none
get_transaction txn_id (row ∷ rows) =
    let rest = get_transaction txn_id rows in if eqb row.id txn_id then some row else rest
