-- ===== src/Market/Tables/Rows.antt =====
-- Which rows are consistent, and what an operation on one table does to the rows of another.
use open_ark.Prelude.{
  ℕ, ◌≡◌, refl, Bool, true, false, not, ◌||◌, inl, inr, is_some, List, [], ◌∷◌, ◌++◌, All, eqb,
  Bool-cases, arith,
}
use open_ark.Prelude.Int.{ℤ, pos, ◌≤ℤ◌}
use open_ark.Sort.{filter_by, All-filter_by_and}
use open_ark.Market.Database.{
  Price, Product, Transaction, Db, find_price, has_product, is_gone, cascade,
}
use open_ark.Market.Trade.{set_count}

not_gone : (a b c : Bool) → not (a || b || c) ≡ true → (a ≡ false) × (b ≡ false) × (c ≡ false)
not_gone a b c h = (ground arith, ground arith, ground arith)

module _ {V : Type 0} where
  -- What the tables ask of a row of the prices, and of one of the transactions.
  abbrev pub PriceOk : List (Product V) → Price V → Type 0
  PriceOk products row =
      (has_product row.product_id products ≡ true) × (pos 0 ≤ℤ row.cost) × (pos 0 ≤ℤ row.count)

  abbrev pub IsListed : List (Price V) → ℕ → Type 0
  IsListed prices id = is_some (find_price id prices) ≡ true

  abbrev pub TransactionOk : List (Price V) → Transaction → Type 0
  TransactionOk prices t =
      IsListed prices t.prod_id × IsListed prices t.pub_id × IsListed prices t.sub_id

  pub record IsConsistent (db : Db V) : Type 0 where
    pub prices : All (PriceOk db.products) db.prices
    pub transactions : All (TransactionOk db.prices) db.transactions

  -- A transaction keeps its rows where each of them stays listed.
  pub TransactionOk-imp :
      (rows rows' : List (Price V))
      → ((id : ℕ) → IsListed rows id → IsListed rows' id)
      → (t : Transaction) → TransactionOk rows t
      → TransactionOk rows' t
  TransactionOk-imp rows rows' keeps t (a, b, c) =
      (keeps t.prod_id a, keeps t.pub_id b, keeps t.sub_id c)

  pub IsListed-append :
      (id : ℕ) (rows : List (Price V)) (row : Price V)
      → IsListed rows id
      → IsListed (rows ++ row ∷ []) id
  unfolding find_price
  IsListed-append id [] row h = absurd (cc)
  IsListed-append id (x ∷ xs) row h = elim (Bool-cases (eqb x.id id)) [
    | inl e ↦ rw (find_price, e)
    | inr e ↦ rw (find_price, e) (IsListed-append id xs row (rw (e, find_price) at h))
  ]

  pub has_product-append :
      (id : ℕ) (products : List (Product V)) (row : Product V)
      → has_product id products ≡ true
      → has_product id (products ++ row ∷ []) ≡ true
  unfolding has_product
  has_product-append id [] row h = absurd (cc)
  has_product-append id (x ∷ xs) row h = elim (Bool-cases (eqb x.id id)) [
    | inl e ↦ rw (has_product, e)
    | inr e ↦ rw (has_product, e) (has_product-append id xs row (rw (e, has_product) at h))
  ]

  pub has_product-filter_by :
      (id gone : ℕ) (products : List (Product V))
      → eqb id gone ≡ false
      → has_product id products ≡ true
      → has_product id (filter_by (λ row. not (eqb row.id gone)) products) ≡ true
  unfolding has_product filter_by
  has_product-filter_by id gone [] other h = absurd (cc)
  has_product-filter_by id gone (x ∷ xs) other h = elim (Bool-cases (eqb x.id id)) [
    | inl e ↦
        let kept : eqb x.id gone ≡ false = ground arith in rw (filter_by, kept, has_product, e)
    | inr e ↦
        let rest = has_product-filter_by id gone xs other (rw (e, has_product) at h) in
        elim (Bool-cases (eqb x.id gone)) [
          | inl e' ↦ rw (filter_by, e') rest
          | inr e' ↦ rw (filter_by, e', has_product, e) rest
        ]
  ]

  -- An id of which no row goes stays listed.
  find_price-filter_by :
      (gone : Price V → Bool) (id : ℕ) (rows : List (Price V))
      → is_gone gone id rows ≡ false
      → find_price id (filter_by (λ row. not (gone row)) rows) ≡ find_price id rows
  unfolding find_price is_gone filter_by
  find_price-filter_by gone id [] h = refl
  find_price-filter_by gone id (x ∷ xs) h = elim (Bool-cases (gone x)) [
    | inl g ↦ elim (Bool-cases (eqb x.id id)) [
      | inl e ↦ absurd (cc (rw (g, e, is_gone) at h))
      | inr e ↦
          rw (filter_by, g, find_price, e)
            (find_price-filter_by gone id xs (rw (g, e, is_gone) at h))
    ]
    | inr g ↦ elim (Bool-cases (eqb x.id id)) [
      | inl e ↦ rw (filter_by, g, find_price, e)
      | inr e ↦
          rw (filter_by, g, find_price, e) (find_price-filter_by gone id xs (rw (g, is_gone) at h))
    ]
  ]

  -- What the cascade leaves refers to rows that stay.
  pub cascade-TransactionOk :
      (gone : Price V → Bool) (rows : List (Price V)) (transactions : List Transaction)
      → All (TransactionOk rows) transactions
      → All
          (TransactionOk (filter_by (λ row. not (gone row)) rows))
          (cascade gone rows transactions)
  unfolding cascade
  cascade-TransactionOk gone rows transactions h =
      All-filter_by_and (TransactionOk rows) _ _ transactions
        (λ t (a, b, c) kept.
          let (p, q, r) =
            not_gone (is_gone gone t.prod_id rows) (is_gone gone t.pub_id rows)
              (is_gone gone t.sub_id rows) kept in
          (
            rw (find_price-filter_by gone t.prod_id rows p) a,
            rw (find_price-filter_by gone t.pub_id rows q) b,
            rw (find_price-filter_by gone t.sub_id rows r) c,
          ))
        h

  pub set_count-PriceOk :
      (products : List (Product V)) (id : ℕ) (c : ℤ) (rows : List (Price V))
      → pos 0 ≤ℤ c
      → All (PriceOk products) rows
      → All (PriceOk products) (set_count id c rows)
  unfolding set_count
  set_count-PriceOk products id c [] lo h = tt
  set_count-PriceOk products id c (row ∷ rows) lo h = elim (Bool-cases (eqb row.id id)) [
    | inl e ↦ rw (set_count, e) ((h.0.0, h.0.1, lo), set_count-PriceOk products id c rows lo h.1)
    | inr e ↦ rw (set_count, e) (h.0, set_count-PriceOk products id c rows lo h.1)
  ]
