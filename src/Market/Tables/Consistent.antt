-- ===== src/Market/Tables/Consistent.antt =====
-- Whatever the operations, the references between the tables hold, and no cost or count is negative.
use open_ark.Prelude.{
  ℕ, ◌≡◌, ◌∙◌, sym, ap, subst, true, ◌&&◌, inl, inr, Option, some, All-imp, All-append, eqb,
  Bool-cases, Option-cases, PartialEq, Result-cases, ok, ok-injective, arith,
}
use open_ark.Sort.{All-filter_by_and}
use open_ark.Market.{Direction}
use open_ark.Market.Database.{
  Price, Db, Spec, find_price, default_price, has_product, remove_side, remove_price,
  remove_product, is_valid_price, insert_price, insert_side, insert_product, find_spec,
  find_product,
}
use open_ark.Market.Trade.Effect.{Settled, trade_on_db_atomic, take_side-find}
use open_ark.Market.Trade.Updates.{find_price-set_count_listed}
use open_ark.Market.Tables.{
  Step, Steps, inserts_side, inserts_product, finds_product, removes_price, removes_product, trades,
  stays, moves,
}
use open_ark.Market.Tables.Rows.{
  IsConsistent, IsListed, IsListed-append, PriceOk, TransactionOk, TransactionOk-imp,
  cascade-TransactionOk, has_product-append, has_product-filter_by, set_count-PriceOk,
}

module _ {V : Type 0} where
  Settled-IsConsistent :
      {now txn_id : ℕ} {t : _} {db db' : Db V}
      → Settled now txn_id t db db'
      → IsConsistent db
      → IsConsistent db'
  Settled-IsConsistent {t = t} {db = db} done h = record {
    prices =
        rw (done.products, done.prices)
          (set_count-PriceOk db.products done.s.id _ _ done.sub_left
            (set_count-PriceOk db.products done.p.id _ db.prices done.pub_left h.prices));
    transactions =
        let keeps = λ (id : ℕ) (e : IsListed db.prices id).
          find_price-set_count_listed done.s.id id _ _
          ∙ find_price-set_count_listed done.p.id id _ db.prices
          ∙ e in
        rw (done.transactions, done.prices)
          (All-append (TransactionOk _) db.transactions _
            (All-imp (TransactionOk-imp _ _ keeps) db.transactions h.transactions)
            (
              (
                keeps t.prod done.prod_listed,
                keeps t.pub_id (rw ((take_side-find _ _ _ done.pub_taken).0)),
                keeps t.sub_id (rw ((take_side-find _ _ _ done.sub_taken).0)),
              ),
              tt,
            ));
  }

  price_valid : (row : Price V) (db : Db V) → is_valid_price row db ≡ true → PriceOk db.products row
  price_valid row db h = (ground arith, ground arith, ground arith)

  insert_price-IsConsistent :
      (row : Price V) (db db' : Db V)
      → insert_price row db ≡ ok db'
      → IsConsistent db
      → IsConsistent db'
  unfolding insert_price
  insert_price-IsConsistent row db db' e h = elim (Option-cases (find_price row.id db.prices)) [
    | inr (x, taken) ↦ absurd (cc (rw (insert_price, taken) at e))
    | inl free ↦ elim (Bool-cases (is_valid_price row db)) [
      | inr invalid ↦ absurd (cc (rw (insert_price, free, invalid) at e))
      | inl valid ↦
          subst IsConsistent (ok-injective _ _ (rw (insert_price, free, valid) at e)) (record {
            prices =
                All-append (PriceOk db.products) db.prices _ h.prices
                  (price_valid row db valid, tt);
            transactions =
                All-imp (TransactionOk-imp _ _ (λ id. IsListed-append id db.prices row))
                  db.transactions h.transactions;
          })
    ]
  ]

  remove_price-IsConsistent :
      (side : Direction) (id : ℕ) (db : Db V)
      → IsConsistent db
      → IsConsistent (remove_price side id db)
  unfolding remove_side
  remove_price-IsConsistent side id db h = record {
    prices =
        All-filter_by_and (PriceOk db.products) (PriceOk db.products) _ db.prices
          (λ row valid kept. valid) h.prices;
    transactions =
        cascade-TransactionOk (λ row. eqb row.id id && default_price (some side) row) db.prices
          db.transactions h.transactions;
  }

  remove_product-IsConsistent :
      (id : ℕ) (db : Db V) → IsConsistent db → IsConsistent (remove_product id db)
  remove_product-IsConsistent id db h = record {
    prices =
        All-filter_by_and (PriceOk db.products) (PriceOk _) _ db.prices
          (λ row valid kept. (
            has_product-filter_by row.product_id id db.products (ground arith) valid.0,
            valid.1,
            valid.2,
          ))
          h.prices;
    transactions =
        cascade-TransactionOk (λ row. eqb row.product_id id) db.prices db.transactions
          h.transactions;
  }

insert_product-IsConsistent :
    {V : Type 0} ⦃e : PartialEq V⦄ (spec : V) (id : ℕ) (db db' : Db V)
    → insert_product spec id db ≡ ok db'
    → IsConsistent db
    → IsConsistent db'
unfolding insert_product
insert_product-IsConsistent spec id db db' made h = elim (Bool-cases (has_product id db.products)) [
  | inl taken ↦ absurd (cc (rw (insert_product, taken) at made))
  | inr free ↦ subst IsConsistent (ok-injective _ _ (rw (insert_product, free) at made)) (record {
    prices =
        All-imp
          (λ row valid. (has_product-append row.product_id db.products _ valid.0, valid.1, valid.2))
          db.prices h.prices;
    transactions = h.transactions;
  })
]

module _ {V F : Type 0} ⦃e : PartialEq V⦄ (encode : F → Option V) (decode : V → Option F) where
  insert_side-IsConsistent :
      (side : Direction) (now prod_id : ℕ) (spec : Spec F) (id : ℕ) (db db' : Db V)
      → insert_side encode side now prod_id spec id db ≡ ok db'
      → IsConsistent db
      → IsConsistent db'
  unfolding insert_side
  insert_side-IsConsistent side now prod_id spec id db db' h k =
      elim (Option-cases (encode spec.function)) [
        | inl failed ↦ absurd (cc (rw (insert_side, failed) at h))
        | inr (v, made) ↦ insert_price-IsConsistent _ db db' (rw (insert_side, made) at h) k
      ]

  find_product-IsConsistent :
      (spec : V) (id found : ℕ) (db db' : Db V)
      → find_product spec id db ≡ ok (found, db')
      → IsConsistent db
      → IsConsistent db'
  unfolding find_product
  find_product-IsConsistent spec id found db db' h k =
      elim (Option-cases (find_spec spec db.products)) [
        | inr (x, there) ↦
            subst IsConsistent (ap (λ x. x.1) (ok-injective _ _ (rw (find_product, there) at h))) k
        | inl absent ↦ elim (Result-cases (insert_product spec id db)) [
          | inr (x, failed) ↦ absurd (cc (rw (find_product, absent, failed) at h))
          | inl (db'', made) ↦
              subst IsConsistent
                (ap (λ x. x.1) (ok-injective _ _ (rw (find_product, absent, made) at h)))
                (insert_product-IsConsistent spec id db db'' made k)
        ]
      ]

  Step-IsConsistent :
      {db db' : Db V} → Step encode decode db db' → IsConsistent db → IsConsistent db'
  Step-IsConsistent (inserts_side side now prod_id spec id db db' h) k =
      insert_side-IsConsistent side now prod_id spec id db db' h k
  Step-IsConsistent (inserts_product spec id db db' h) k =
      insert_product-IsConsistent spec id db db' h k
  Step-IsConsistent (finds_product spec id found db db' h) k =
      find_product-IsConsistent spec id found db db' h k
  Step-IsConsistent (removes_price side id db) k = remove_price-IsConsistent side id db k
  Step-IsConsistent (removes_product id db) k = remove_product-IsConsistent id db k
  Step-IsConsistent (trades f now txn_id t db) k =
      elim (trade_on_db_atomic decode f now txn_id t db) [
        | inl (x, is_err, same) ↦ subst IsConsistent (sym same) k
        | inr (deal, is_ok, done) ↦ Settled-IsConsistent done k
      ]

  -- Any row of insertions that succeed, removals and trades, which may fail, keeps the tables
  -- consistent: every price is of a product that is there, every transaction refers to prices that
  -- are there, and no cost or count of a price is negative.
  pub Steps-IsConsistent :
      (db db' : Db V) → IsConsistent db → Steps encode decode db db' → IsConsistent db'
  Steps-IsConsistent db db' k (stays same) = k
  Steps-IsConsistent db db' k (moves first middle last steps step) =
      Step-IsConsistent step (Steps-IsConsistent first middle k steps)
