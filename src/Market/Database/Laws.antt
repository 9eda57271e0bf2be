-- ===== src/Market/Database/Laws.antt =====
-- The statements on prices and products, read together: what is inserted is found, what is removed
-- is not, and the rest stays.
use open_ark.Prelude.{
  ℕ, ◌≡◌, ◌≢◌, ◌∙◌, refl, sym, ap, Bool, ◌&&◌, inl, inr, Option, none, some, List, [], ◌∷◌, ◌++◌,
  if_rule, if◌then◌else◌, eqb, Bool-cases, Option-cases, PartialEq, ◌==◌, ok, ok-injective,
  Result-cases, arith,
}
use open_ark.Prelude.Int.{pos, leb_ℤ, ltb_ℤ}
use open_ark.Market.{Direction, pub_side, sub_side}
use open_ark.Sort.{filter_by}
use open_ark.Market.Database.{
  Price, is_side, read_spec, Product, Db, Spec, find_price, default_price, find_side, remove_side,
  is_valid_price, insert_price, try_spec, get_side, insert_side, find_spec, has_product,
  insert_product, find_product, Transaction, get_transaction,
}

own_side : (b c : Bool) (side : Direction) → b && c && is_side side side ≡ b && c
own_side b c pub_side = ground arith
own_side b c sub_side = ground arith

module _ {V : Type 0} where
  find_price-append :
      (id : ℕ) (rows : List (Price V)) (row : Price V)
      → find_price id rows ≡ none
      → row.id ≡ id
      → find_price id (rows ++ row ∷ []) ≡ some row
  unfolding find_price
  find_price-append id [] row h same = ground arith
  find_price-append id (x ∷ xs) row h same = elim (Bool-cases (eqb x.id id)) [
    | inl e ↦ absurd (cc (rw (e, find_price) at h))
    | inr e ↦ rw (find_price, e) (find_price-append id xs row (rw (e, find_price) at h) same)
  ]

  find_price-append_other :
      (id : ℕ) (rows : List (Price V)) (row : Price V)
      → row.id ≢ id
      → find_price id (rows ++ row ∷ []) ≡ find_price id rows
  unfolding find_price
  find_price-append_other id [] row differ = ground arith
  find_price-append_other id (x ∷ xs) row differ = elim (Bool-cases (eqb x.id id)) [
    | inl e ↦ rw (find_price, e)
    | inr e ↦ rw (find_price, e) (find_price-append_other id xs row differ)
  ]

  insert_price-ok :
      (row : Price V) (db db' : Db V)
      → insert_price row db ≡ ok db'
      → (find_price row.id db.prices ≡ none) × (db'.prices ≡ db.prices ++ row ∷ [])
  unfolding insert_price
  insert_price-ok row db db' h = elim (Option-cases (find_price row.id db.prices)) [
    | inl e ↦ elim (Bool-cases (is_valid_price row db)) [
      | inl valid ↦ (
        e,
        sym (ap (λ (d : Db V). d.prices) (ok-injective _ _ (rw (insert_price, e, valid) at h))),
      )
      | inr invalid ↦ absurd (cc (rw (insert_price, e, invalid) at h))
    ]
    | inr (x, e) ↦ absurd (cc (rw (insert_price, e) at h))
  ]

  module _ {F : Type 0} (encode : F → Option V) (decode : V → Option F)
      (reads : (f : F) (v : V) → encode f ≡ some v → decode v ≡ some f) where
    -- Where `insert_pub` or `insert_sub` succeeds, the getter of the same side then returns the spec
    -- under the drawn id if its cost is not negative and its count positive, and finds nothing
    -- otherwise; the conversion of a function to JSON is taken to be undone by the way back.
    pub insert_side-get_side :
        (side : Direction) (now prod_id : ℕ) (spec : Spec F) (id : ℕ) (db db' : Db V)
        → insert_side encode side now prod_id spec id db ≡ ok db'
        → get_side decode side id db' ≡ (
            if leb_ℤ (pos 0) spec.cost && ltb_ℤ (pos 0) spec.count then ok (some spec) else ok none)
    unfolding insert_side get_side find_side try_spec
    insert_side-get_side side now prod_id spec id db db' h =
        elim (Option-cases (encode spec.function)) [
          | inl e ↦ absurd (cc (rw (insert_side, e) at h))
          | inr (v, e) ↦
              let row : Price V = record {
                id = id;
                product_id = prod_id;
                created_at = now;
                direction = side;
                cost = spec.cost;
                count = spec.count;
                spec = v;
              } in
              let (free, prices) = insert_price-ok row db db' (rw (insert_side, e) at h) in
              let found = find_price-append id db.prices row free refl in
              let passes : default_price (some side) row
                  ≡ leb_ℤ (pos 0) spec.cost && ltb_ℤ (pos 0) spec.count =
                own_side (leb_ℤ (pos 0) spec.cost) (ltb_ℤ (pos 0) spec.count) side in
              rw (get_side, prices, find_side, found)
                (if_rule
                  (λ o. read_spec decode o ≡ (
                    if leb_ℤ (pos 0) spec.cost && ltb_ℤ (pos 0) spec.count
                    then ok (some spec)
                    else ok none))
                  (default_price (some side) row)
                  (λ stocked.
                    let read : try_spec decode row ≡ some spec =
                      rw (try_spec, reads spec.function v e) in
                    rw (sym passes ∙ stocked, read_spec, read))
                  (λ empty. rw (sym passes ∙ empty)))
        ]

  -- A removed pub or sub is not found any more.
  pub remove_side-find_side :
      (side : Direction) (id : ℕ) (rows : List (Price V))
      → find_side side id (remove_side side id rows) ≡ none
  unfolding remove_side find_side find_price filter_by
  remove_side-find_side side id [] = refl
  remove_side-find_side side id (x ∷ xs) = elim (Bool-cases (eqb x.id id)) [
    | inl e ↦ elim (Bool-cases (default_price (some side) x)) [
      | inl e' ↦ rw (remove_side, filter_by, e, e') (remove_side-find_side side id xs)
      | inr e' ↦ rw (remove_side, filter_by, e, e', find_side, find_price, e, e')
    ]
    | inr e ↦
        rw (remove_side, filter_by, e, find_side, find_price, e) (remove_side-find_side side id xs)
  ]

module _ {V : Type 0} ⦃eq : PartialEq V⦄ where
  find_spec-append :
      (spec : V) (id : ℕ) (rows : List (Product V))
      → find_spec spec rows ≡ none
      → find_spec spec (rows ++ record { id = id; spec = spec } ∷ []) ≡ some id
  unfolding find_spec
  find_spec-append spec id [] h = rw (((eq.equals_iff spec spec).1 refl))
  find_spec-append spec id (x ∷ xs) h = elim (Bool-cases (x.spec == spec)) [
    | inl e ↦ absurd (cc (rw (find_spec, e) at h))
    | inr e ↦ rw (find_spec, e) (find_spec-append spec id xs (rw (find_spec, e) at h))
  ]

  insert_product-ok :
      (spec : V) (id : ℕ) (db db' : Db V)
      → insert_product spec id db ≡ ok db'
      → db'.products ≡ db.products ++ record { id = id; spec = spec } ∷ []
  unfolding insert_product
  insert_product-ok spec id db db' h = elim (Bool-cases (has_product id db.products)) [
    | inl e ↦ absurd (cc (rw (insert_product, e) at h))
    | inr e ↦ sym (ap (λ (d : Db V). d.products) (ok-injective _ _ (rw (insert_product, e) at h)))
  ]

  find_product-found :
      (spec : V) (id found : ℕ) (db db' : Db V)
      → find_product spec id db ≡ ok (found, db')
      → find_spec spec db'.products ≡ some found
  unfolding find_product
  find_product-found spec id found db db' h = elim (Option-cases (find_spec spec db.products)) [
    | inl e ↦ elim (Result-cases (insert_product spec id db)) [
      | inl (db'', inserted) ↦
          let same = ok-injective _ _ (rw (find_product, e, inserted) at h) in
          let products =
            ap (λ (d : Db V). d.products) (sym (ap (λ x. x.1) same))
            ∙ insert_product-ok spec id db db'' inserted in
          rw products (find_spec-append spec id db.products e)
          ∙ ap (λ k. some k) (ap (λ x. x.0) same)
      | inr (x, failed) ↦ absurd (cc (rw (find_product, e, failed) at h))
    ]
    | inr (k, e) ↦
        let same = ok-injective _ _ (rw (find_product, e) at h) in
        ap (λ (d : Db V). find_spec spec d.products) (sym (ap (λ x. x.1) same))
        ∙ e
        ∙ ap (λ k. some k) (ap (λ x. x.0) same)
  ]

  -- The product that `find_product` returns is found again, under the same id and without another
  -- insertion, whatever id is drawn then.
  pub find_product-again :
      (spec : V) (id next found : ℕ) (db db' : Db V)
      → find_product spec id db ≡ ok (found, db')
      → find_product spec next db' ≡ ok (found, db')
  unfolding find_product
  find_product-again spec id next found db db' h =
      rw (find_product, find_product-found spec id found db db' h)

pub get_transaction-append_other :
    (id : ℕ) (rows : List Transaction) (row : Transaction)
    → row.id ≢ id
    → get_transaction id rows ≡ none
    → get_transaction id (rows ++ row ∷ []) ≡ none
unfolding get_transaction
get_transaction-append_other id [] row differ h = ground arith
get_transaction-append_other id (x ∷ xs) row differ h = elim (Bool-cases (eqb x.id id)) [
  | inl e ↦ absurd (cc (rw (e, get_transaction) at h))
  | inr e ↦
      rw (get_transaction, e)
        (get_transaction-append_other id xs row differ (rw (e, get_transaction) at h))
]
