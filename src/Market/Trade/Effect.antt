-- ===== src/Market/Trade/Effect.antt =====
-- What a trade does to the tables: all of its changes, or none.
use mathlib.Core.Option.{some-injective}
use open_ark.Prelude.{
  ℕ, ◌≡◌, ◌≢◌, ◌∙◌, refl, sym, ap, subst, Bool, true, is_some, ◌⊎◌, inl, inr, Option, none, some,
  List, [], ◌∷◌, ◌++◌, if_rule, Bool-cases, Option-cases, Result, ok, err, arith,
}
use open_ark.Prelude.Int.{pos, ◌≤ℤ◌, sub_i64, leb_ℤ}
use open_ark.Market.{TransactionTemplate}
use open_ark.Market.Database.{Price, Db, find_price, get_transaction, try_spec}
use open_ark.Market.Trade.{
  Faults, TransactionError, Deal, pub_passes, sub_passes, take_side, set_count, withdraw,
  from_template, settle, trade_body, trade_on_db,
}
use open_ark.Market.Trade.Updates.{
  find_price-id, find_price-set_count, find_price-set_count_listed, find_price-set_count_other,
  insert_transaction-some, valid_parts, withdraw-some,
}

module _ {V : Type 0} where
  -- The tables after a trade.
  pub record Settled (now txn_id : ℕ) (t : TransactionTemplate) (db db' : Db V) : Type 0 where
    pub p : Price V
    pub s : Price V
    pub pub_taken : take_side (pub_passes t) t.pub_id db.prices ≡ some p
    pub sub_taken : take_side (sub_passes t) t.sub_id db.prices ≡ some s
    pub count_pos : pos 1 ≤ℤ t.count
    pub cost_nonneg : pos 0 ≤ℤ t.cost
    pub pub_left : pos 0 ≤ℤ sub_i64 p.count t.count
    pub sub_left : pos 0 ≤ℤ sub_i64 s.count t.count
    pub prod_listed : is_some (find_price t.prod db.prices) ≡ true
    pub fresh : get_transaction txn_id db.transactions ≡ none
    pub prices :
        db'.prices
        ≡ set_count s.id
            (sub_i64 s.count t.count)
            (set_count p.id (sub_i64 p.count t.count) db.prices)
    pub transactions : db'.transactions ≡ db.transactions ++ from_template now txn_id t ∷ []
    pub products : db'.products ≡ db.products

  module _ {F : Type 0} (decode : V → Option F) (f : Faults) (now txn_id : ℕ)
      (t : TransactionTemplate) (db : Db V) where
    abbrev BodyOk : Option (Result TransactionError (ℕ × Deal F) × Db V) → Type 0
    BodyOk none = Unit
    BodyOk (some (err e, db')) = db' ≡ db
    BodyOk (some (ok r, db')) = Settled now txn_id t db db'

    pub settle-Settled :
        (p s : Price V)
        → take_side (pub_passes t) t.pub_id db.prices ≡ some p
        → take_side (sub_passes t) t.sub_id db.prices ≡ some s
        → pos 1 ≤ℤ t.count
        → (db' : Db V) → settle f now txn_id t p s db ≡ some db'
        → Settled now txn_id t db db'
    unfolding settle
    settle-Settled p s hp hs lo db' h =
        elim (Option-cases (withdraw f.update_pub p t.count db.prices)) [
          | inl e ↦ absurd (cc (rw (settle, e) at h))
          | inr (rows, e) ↦ elim (Option-cases (withdraw f.update_sub s t.count rows)) [
            | inl e' ↦ absurd (cc (rw (settle, e, e') at h))
            | inr (rows', e') ↦
                let (pub_left, first) = withdraw-some _ p t.count db.prices rows e in
                let (sub_left, second) = withdraw-some _ s t.count rows rows' e' in
                let done =
                  insert_transaction-some f.insert (from_template now txn_id t) _ db'
                    (rw (settle, e, e') at h) in
                let (cost_nonneg, listed) = valid_parts now txn_id t rows' done.valid in
                record {
                  p = p;
                  s = s;
                  pub_taken = hp;
                  sub_taken = hs;
                  count_pos = lo;
                  cost_nonneg = cost_nonneg;
                  pub_left = pub_left;
                  sub_left = sub_left;
                  prod_listed =
                      sym (
                        rw (second, first)
                          (find_price-set_count_listed s.id t.prod _ _
                            ∙ find_price-set_count_listed p.id t.prod _ db.prices))
                      ∙ listed;
                  fresh = done.fresh;
                  prices = ap (λ (d : Db V). d.prices) done.inserted ∙ rw (second, first);
                  transactions = ap (λ (d : Db V). d.transactions) done.inserted;
                  products = ap (λ (d : Db V). d.products) done.inserted;
                }
          ]
        ]

    body-BodyOk : BodyOk (trade_body decode f now txn_id t db)
    unfolding trade_body
    body-BodyOk =
        if_rule BodyOk (leb_ℤ t.count (pos 0)) (λ _. refl)
          (λ more.
            let lo : pos 1 ≤ℤ t.count = ground arith in
            if_rule BodyOk f.read_pub (λ _. tt)
              (λ _. elim (Option-cases (take_side (pub_passes t) t.pub_id db.prices)) [
                | inl e ↦ rw e refl
                | inr (p, hp) ↦ rw hp (
                    if_rule BodyOk f.read_sub (λ _. tt)
                      (λ _. elim (Option-cases (take_side (sub_passes t) t.sub_id db.prices)) [
                        | inl e ↦ rw e refl
                        | inr (s, hs) ↦ rw hs (elim (Option-cases (try_spec decode p)) [
                          | inl e ↦ rw e refl
                          | inr (pub_spec, ep) ↦ rw ep (elim (Option-cases (try_spec decode s)) [
                            | inl e ↦ rw e refl
                            | inr (sub_spec, es) ↦
                                rw es (elim (Option-cases (settle f now txn_id t p s db)) [
                                  | inl e ↦ rw e tt
                                  | inr (db', e) ↦ rw e (settle-Settled p s hp hs lo db' e)
                                ])
                          ])
                        ])
                      ]))
              ]))

    trade_on_db-BodyOk : BodyOk (some (trade_on_db decode f now txn_id t db))
    unfolding trade_on_db
    trade_on_db-BodyOk =
        if_rule (λ r. BodyOk (some r)) f.begin (λ _. refl)
          (λ _. elim (Option-cases (trade_body decode f now txn_id t db)) [
            | inl e ↦ rw e refl
            | inr (r, e) ↦ rw e (
                if_rule (λ r. BodyOk (some r)) f.commit (λ _. refl)
                  (λ _. subst BodyOk e body-BodyOk))
          ])

    BodyOk-cases :
        (r : Result TransactionError (ℕ × Deal F)) (db' : Db V)
        → BodyOk (some (r, db'))
        → ((e : TransactionError) × (r ≡ err e) × (db' ≡ db))
          ⊎ ((deal : ℕ × Deal F) × (r ≡ ok deal) × Settled now txn_id t db db')
    BodyOk-cases (err e) db' h = inl (e, refl, h)
    BodyOk-cases (ok deal) db' h = inr (deal, refl, h)

    -- A trade either returns an error and leaves the tables as they are, whichever statement failed,
    -- or returns a deal and has made all of its changes, which the tables allow: both counts, each
    -- from the row as it was read and none below zero, and the transaction's row, with a new id and
    -- the id of a price for its product.
    pub trade_on_db_atomic :
        ((e : TransactionError) × ((trade_on_db decode f now txn_id t db).0 ≡ err e)
          × ((trade_on_db decode f now txn_id t db).1 ≡ db))
        ⊎ ((deal : ℕ × Deal F) × ((trade_on_db decode f now txn_id t db).0 ≡ ok deal)
            × Settled now txn_id t db (trade_on_db decode f now txn_id t db).1)
    trade_on_db_atomic = BodyOk-cases _ _ trade_on_db-BodyOk

  -- The row that the guard let pass is the row of the id.
  pub take_side-find :
      (passes : Price V → Bool) (id : ℕ) (rows : List (Price V)) {p : Price V}
      → take_side passes id rows ≡ some p
      → (find_price id rows ≡ some p) × (passes p ≡ true)
  unfolding take_side
  take_side-find passes id rows h = elim (Option-cases (find_price id rows)) [
    | inl e ↦ absurd (cc (rw (e, take_side) at h))
    | inr (q, e) ↦ elim (Bool-cases (passes q)) [
      | inl passed ↦
          let same = some-injective _ _ (rw (e, take_side, passed) at h) in
          (e ∙ ap (λ x. some x) same, subst (λ x. passes x ≡ true) same passed)
      | inr refused ↦ absurd (cc (rw (e, take_side, refused) at h))
    ]
  ]

  module _ {now txn_id : ℕ} {t : TransactionTemplate} {db db' : Db V}
      (done : Settled now txn_id t db db') where
    -- Of the prices, a trade between two different ids changes the two counts.
    pub settled_counts :
        t.pub_id ≢ t.sub_id
        → (find_price t.pub_id db'.prices
            ≡ some (record done.p { count = sub_i64 done.p.count t.count }))
          × (find_price t.sub_id db'.prices
              ≡ some (record done.s { count = sub_i64 done.s.count t.count }))
          × ((id : ℕ)
              → id ≢ t.pub_id
              → id ≢ t.sub_id
              → find_price id db'.prices ≡ find_price id db.prices)
    settled_counts differ =
        let (hp, _) = take_side-find _ t.pub_id db.prices done.pub_taken in
        let (hs, _) = take_side-find _ t.sub_id db.prices done.sub_taken in
        let ep = find_price-id t.pub_id db.prices hp in
        let es = find_price-id t.sub_id db.prices hs in
        let prices : db'.prices
            ≡ set_count t.sub_id (sub_i64 done.s.count t.count)
                (set_count t.pub_id (sub_i64 done.p.count t.count) db.prices) =
          rw (ep, es) at done.prices in
        rw prices (
          find_price-set_count_other t.sub_id t.pub_id _ _ differ
              ∙ find_price-set_count t.pub_id _ db.prices hp,
          find_price-set_count t.sub_id _ _
              (find_price-set_count_other t.pub_id t.sub_id _ db.prices (λ e. differ (sym e)) ∙ hs),
          λ id not_pub not_sub.
              find_price-set_count_other t.sub_id id _ _ not_sub
              ∙ find_price-set_count_other t.pub_id id _ db.prices not_pub,
        )
