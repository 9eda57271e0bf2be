-- ===== src/Market/Trade/Updates.antt =====
-- The statements of a trade on the rows of the prices, and the insertion of its transaction.
use mathlib.Core.Option.{some-injective}
use open_ark.Prelude.{
  ℕ, ◌≡◌, ◌≢◌, refl, sym, ap, subst, Bool, true, false, not, ◌||◌, is_some, inl, inr, Option, none,
  some, List, [], ◌∷◌, ◌++◌, eqb, Bool-cases, Option-cases, arith,
}
use open_ark.Prelude.Int.{ℤ, pos, ◌≤ℤ◌, sub_i64, leb_ℤ}
use open_ark.Market.{TransactionTemplate}
use open_ark.Market.Database.{Price, Db, Transaction, find_price, get_transaction}
use open_ark.Market.Trade.{
  set_count, withdraw, from_template, is_valid_transaction, insert_transaction,
}

module _ {V : Type 0} where
  pub find_price-id :
      (id : ℕ) (rows : List (Price V)) {p : Price V} → find_price id rows ≡ some p → p.id ≡ id
  unfolding find_price
  find_price-id id [] h = absurd (cc)
  find_price-id id (row ∷ rows) h = elim (Bool-cases (eqb row.id id)) [
    | inl e ↦
        subst (λ (r : Price V). r.id ≡ id) (some-injective _ _ (rw (e, find_price) at h))
          (ground arith)
    | inr e ↦ find_price-id id rows (rw (e, find_price) at h)
  ]

  pub find_price-set_count :
      (id : ℕ) (c : ℤ) (rows : List (Price V)) {p : Price V}
      → find_price id rows ≡ some p
      → find_price id (set_count id c rows) ≡ some (record p { count = c })
  unfolding find_price set_count
  find_price-set_count id c [] h = absurd (cc)
  find_price-set_count id c (row ∷ rows) h = elim (Bool-cases (eqb row.id id)) [
    | inl e ↦
        rw (set_count, e, find_price, e)
          (ap
            (λ (r : Option (Price V)). elim r [
              | none ↦ none
              | some x ↦ some (record x { count = c })
            ])
            (rw (e, find_price) at h))
    | inr e ↦
        rw (set_count, e, find_price, e) (find_price-set_count id c rows (rw (e, find_price) at h))
  ]

  pub find_price-set_count_other :
      (id other : ℕ) (c : ℤ) (rows : List (Price V))
      → other ≢ id
      → find_price other (set_count id c rows) ≡ find_price other rows
  unfolding find_price set_count
  find_price-set_count_other id other c [] h = refl
  find_price-set_count_other id other c (row ∷ rows) h = elim (Bool-cases (eqb row.id id)) [
    | inl e ↦
        let differs : eqb row.id other ≡ false = ground arith in
        rw (set_count, e, find_price, differs) (find_price-set_count_other id other c rows h)
    | inr e ↦ elim (Bool-cases (eqb row.id other)) [
      | inl e' ↦ rw (set_count, e, find_price, e')
      | inr e' ↦ rw (set_count, e, find_price, e') (find_price-set_count_other id other c rows h)
    ]
  ]

  -- An `UPDATE` of a count takes no row away.
  pub find_price-set_count_listed :
      (id other : ℕ) (c : ℤ) (rows : List (Price V))
      → is_some (find_price other (set_count id c rows)) ≡ is_some (find_price other rows)
  unfolding find_price set_count
  find_price-set_count_listed id other c [] = refl
  find_price-set_count_listed id other c (row ∷ rows) = elim (Bool-cases (eqb row.id id)) [
    | inl e ↦ elim (Bool-cases (eqb row.id other)) [
      | inl e' ↦ rw (set_count, e, find_price, e')
      | inr e' ↦ rw (set_count, e, find_price, e') (find_price-set_count_listed id other c rows)
    ]
    | inr e ↦ elim (Bool-cases (eqb row.id other)) [
      | inl e' ↦ rw (set_count, e, find_price, e')
      | inr e' ↦ rw (set_count, e, find_price, e') (find_price-set_count_listed id other c rows)
    ]
  ]

  pub withdraw-some :
      (fails : Bool) (p : Price V) (c : ℤ) (rows rows' : List (Price V))
      → withdraw fails p c rows ≡ some rows'
      → (pos 0 ≤ℤ sub_i64 p.count c) × (rows' ≡ set_count p.id (sub_i64 p.count c) rows)
  unfolding withdraw
  withdraw-some fails p c rows rows' h =
      elim (Bool-cases (fails || not (leb_ℤ (pos 0) (sub_i64 p.count c)))) [
        | inl e ↦ absurd (cc (rw (withdraw, e) at h))
        | inr e ↦ (ground arith, sym (some-injective _ _ (rw (withdraw, e) at h)))
      ]

  -- A transaction that is inserted was allowed.
  pub record Inserted (row : Transaction) (db db' : Db V) : Type 0 where
    pub fresh : get_transaction row.id db.transactions ≡ none
    pub valid : is_valid_transaction row db.prices ≡ true
    pub inserted : db' ≡ record db { transactions = db.transactions ++ row ∷ [] }

  pub insert_transaction-some :
      (fails : Bool) (row : Transaction) (db db' : Db V)
      → insert_transaction fails row db ≡ some db'
      → Inserted row db db'
  unfolding insert_transaction
  insert_transaction-some fails row db db' h = elim (Bool-cases fails) [
    | inl failed ↦ absurd (cc (rw (insert_transaction, failed) at h))
    | inr works ↦ elim (Option-cases (get_transaction row.id db.transactions)) [
      | inr (x, e) ↦ absurd (cc (rw (insert_transaction, works, e) at h))
      | inl e ↦ elim (Bool-cases (is_valid_transaction row db.prices)) [
        | inl valid ↦ record {
          fresh = e;
          valid = valid;
          inserted = sym (some-injective _ _ (rw (insert_transaction, works, e, valid) at h));
        }
        | inr invalid ↦ absurd (cc (rw (insert_transaction, works, e, invalid) at h))
      ]
    ]
  ]

  pub valid_parts :
      (now txn_id : ℕ) (t : TransactionTemplate) (rows : List (Price V))
      → is_valid_transaction (from_template now txn_id t) rows ≡ true
      → (pos 0 ≤ℤ t.cost) × (is_some (find_price t.prod rows) ≡ true)
  valid_parts now txn_id t rows h = (ground arith, ground arith)
