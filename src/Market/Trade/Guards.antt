-- ===== src/Market/Trade/Guards.antt =====
-- When a trade goes through: the guards of the code, and what the tables refuse.
use mathlib.Core.Option.{some-injective}
use open_ark.Prelude.{
  ℕ, ◌≡◌, ◌↔◌, ◌∙◌, sym, subst, true, false, inl, inr, Option, none, some, is_some, All, if_rule,
  Bool-cases, Option-cases, Result, ok, err, arith,
}
use open_ark.Prelude.Int.{pos, leb_ℤ, ◌≤ℤ◌, IsI64, sub_i64}
use open_ark.Market.{TransactionTemplate}
use open_ark.Market.Database.{Price, Spec, Db, find_price, get_transaction, try_spec}
use open_ark.Market.Trade.{
  Faults, TransactionError, transaction_failed, Deal, pub_passes, sub_passes, take_side, settle,
  trade_body, trade_on_db,
}
use open_ark.Market.Trade.Effect.{Settled, settle-Settled, trade_on_db_atomic, take_side-find}
use open_ark.Market.Trade.Allowed.{
  HasCount, found-All, found-listed, no_faults, pub_passes-enough, settle_allowed, sub_i64-enough,
  sub_i64-nonneg, sub_passes-enough, take_side-passes,
}

module _ {V F : Type 0} (decode : V → Option F) where
  -- What the code asks of a trade: a count, two rows that the guards let pass, and their specs.
  pub record IsPassed (t : TransactionTemplate) (db : Db V) : Type 0 where
    pub count_pos : pos 1 ≤ℤ t.count
    pub p : Price V
    pub s : Price V
    pub pub_taken : take_side (pub_passes t) t.pub_id db.prices ≡ some p
    pub sub_taken : take_side (sub_passes t) t.sub_id db.prices ≡ some s
    pub pub_spec : Spec F
    pub sub_spec : Spec F
    pub pub_decodes : try_spec decode p ≡ some pub_spec
    pub sub_decodes : try_spec decode s ≡ some sub_spec

  -- What the code and the tables ask of it together.
  pub record IsServed (txn_id : ℕ) (t : TransactionTemplate) (db : Db V) : Type 0 where
    pub count_pos : pos 1 ≤ℤ t.count
    pub cost_nonneg : pos 0 ≤ℤ t.cost
    pub p : Price V
    pub s : Price V
    pub pub_found : find_price t.pub_id db.prices ≡ some p
    pub sub_found : find_price t.sub_id db.prices ≡ some s
    pub pub_enough : t.count ≤ℤ p.count
    pub sub_enough : t.count ≤ℤ s.count
    pub pub_spec : Spec F
    pub sub_spec : Spec F
    pub pub_decodes : try_spec decode p ≡ some pub_spec
    pub sub_decodes : try_spec decode s ≡ some sub_spec
    pub prod_listed : is_some (find_price t.prod db.prices) ≡ true
    pub fresh : get_transaction txn_id db.transactions ≡ none

  -- The rows hold enough, and so the guards let them pass.
  IsServed-taken :
      (txn_id : ℕ) (t : TransactionTemplate) (db : Db V) (h : IsServed txn_id t db)
      → (take_side (pub_passes t) t.pub_id db.prices ≡ some h.p)
        × (take_side (sub_passes t) t.sub_id db.prices ≡ some h.s)
  IsServed-taken txn_id t db h = (
    take_side-passes _ _ _ h.pub_found (pub_passes-enough t h.p h.pub_enough),
    take_side-passes _ _ _ h.sub_found (sub_passes-enough t h.s h.sub_enough),
  )

  module _ (now txn_id : ℕ) (t : TransactionTemplate) (db : Db V) where
    pub trade_on_db-IsServed :
        (h : IsServed txn_id t db)
        → IsI64 h.p.count
        → IsI64 h.s.count
        → (deal : ℕ × Deal F) × ((trade_on_db decode no_faults now txn_id t db).0 ≡ ok deal)
    unfolding trade_on_db trade_body
    trade_on_db-IsServed h range_p range_s =
        let (taken_p, taken_s) = IsServed-taken txn_id t db h in
        let some_count : leb_ℤ t.count (pos 0) ≡ false = ground (arith, h.count_pos) in
        let lo : pos 0 ≤ℤ t.count = omega (arith, h.count_pos) in
        let (db', settled) =
          settle_allowed now txn_id t h.p h.s db h.count_pos h.cost_nonneg
            (sub_i64-nonneg h.p.count t.count range_p lo h.pub_enough)
            (sub_i64-nonneg h.s.count t.count range_s lo h.sub_enough) h.prod_listed
            (found-listed t.pub_id db.prices h.pub_found)
            (found-listed t.sub_id db.prices h.sub_found) h.fresh in
        (
          (
            txn_id,
            record {
              prod = t.prod;
              pub_spec = h.pub_spec;
              sub_spec = h.sub_spec;
              cost = t.cost;
              count = t.count;
            },
          ),
          rw (
            trade_on_db, trade_body, some_count, taken_p, taken_s, h.pub_decodes, h.sub_decodes,
            settled,
          ),
        )

    -- Where the guards do not let it pass, a trade fails.
    abbrev Answers : Option (Result TransactionError (ℕ × Deal F) × Db V) → Type 0
    Answers none = Unit
    Answers (some (err e, db')) = Unit
    Answers (some (ok r, db')) = IsPassed t db

    body-Answers : Answers (trade_body decode no_faults now txn_id t db)
    unfolding trade_body
    body-Answers =
        if_rule Answers (leb_ℤ t.count (pos 0)) (λ _. tt)
          (λ more.
            let lo : pos 1 ≤ℤ t.count = ground arith in
            elim (Option-cases (take_side (pub_passes t) t.pub_id db.prices)) [
              | inl e ↦ rw e tt
              | inr (p, hp) ↦
                  rw hp (elim (Option-cases (take_side (sub_passes t) t.sub_id db.prices)) [
                    | inl e ↦ rw e tt
                    | inr (s, hs) ↦ rw hs (elim (Option-cases (try_spec decode p)) [
                      | inl e ↦ rw e tt
                      | inr (pub_spec, ep) ↦ rw ep (elim (Option-cases (try_spec decode s)) [
                        | inl e ↦ rw e tt
                        | inr (sub_spec, es) ↦
                            rw es (elim (Option-cases (settle no_faults now txn_id t p s db)) [
                              | inl e ↦ rw e tt
                              | inr (db', e) ↦ rw e (record {
                                count_pos = lo;
                                p = p;
                                s = s;
                                pub_taken = hp;
                                sub_taken = hs;
                                pub_spec = pub_spec;
                                sub_spec = sub_spec;
                                pub_decodes = ep;
                                sub_decodes = es;
                              })
                            ])
                      ])
                    ])
                  ])
            ])

    trade_on_db-Answers : Answers (some (trade_on_db decode no_faults now txn_id t db))
    unfolding trade_on_db
    trade_on_db-Answers = elim (Option-cases (trade_body decode no_faults now txn_id t db)) [
      | inl e ↦ rw e tt
      | inr (r, e) ↦ rw e (subst Answers e body-Answers)
    ]

    Answers-ok :
        (r : Result TransactionError (ℕ × Deal F)) (db' : Db V) (deal : ℕ × Deal F)
        → r ≡ ok deal
        → Answers (some (r, db'))
        → IsPassed t db
    Answers-ok (ok r) db' deal e h = h
    Answers-ok (err e) db' deal e' h = absurd (cc)

    -- What passed the guards and was settled is served.
    Settled-IsServed :
        {db' : Db V}
        → All HasCount db.prices
        → IsI64 t.count
        → IsPassed t db
        → Settled now txn_id t db db'
        → IsServed txn_id t db
    Settled-IsServed fits range h done =
        let (hp, _) = take_side-find _ t.pub_id db.prices h.pub_taken in
        let (hs, _) = take_side-find _ t.sub_id db.prices h.sub_taken in
        let same_p : done.p ≡ h.p = some-injective _ _ (sym done.pub_taken ∙ h.pub_taken) in
        let same_s : done.s ≡ h.s = some-injective _ _ (sym done.sub_taken ∙ h.sub_taken) in
        let (lo_p, range_p) = found-All HasCount t.pub_id db.prices hp fits in
        let (lo_s, range_s) = found-All HasCount t.sub_id db.prices hs fits in
        let lo : pos 0 ≤ℤ t.count = omega (arith, h.count_pos) in
        record {
          count_pos = h.count_pos;
          cost_nonneg = done.cost_nonneg;
          p = h.p;
          s = h.s;
          pub_found = hp;
          sub_found = hs;
          pub_enough =
              sub_i64-enough h.p.count t.count lo_p range_p lo range
                (subst (λ (x : Price V). pos 0 ≤ℤ sub_i64 x.count t.count) same_p done.pub_left);
          sub_enough =
              sub_i64-enough h.s.count t.count lo_s range_s lo range
                (subst (λ (x : Price V). pos 0 ≤ℤ sub_i64 x.count t.count) same_s done.sub_left);
          pub_spec = h.pub_spec;
          sub_spec = h.sub_spec;
          pub_decodes = h.pub_decodes;
          sub_decodes = h.sub_decodes;
          prod_listed = done.prod_listed;
          fresh = done.fresh;
        }

    -- A trade without a fault of the database returns a deal exactly where its count is positive and
    -- its cost not negative, both rows are there and hold the count, the specs of both convert, the
    -- id of its product is the id of a price, and the drawn id is new: if the counts of the prices
    -- are `i64`s and not negative, as their table checks, and the count of the trade is an `i64`.
    -- The side and the cost of a row do not matter.
    pub trade_on_db_iff :
        All HasCount db.prices
        → IsI64 t.count
        → ((deal : ℕ × Deal F) × ((trade_on_db decode no_faults now txn_id t db).0 ≡ ok deal))
          ↔ IsServed txn_id t db
    trade_on_db_iff fits range = (
      λ (deal, e). elim (trade_on_db_atomic decode no_faults now txn_id t db) [
        | inl (x, is_err, _) ↦ absurd (cc (is_err, e))
        | inr (_, _, done) ↦
            Settled-IsServed fits range (Answers-ok _ _ deal e trade_on_db-Answers) done
      ],
      λ h.
          trade_on_db-IsServed h (found-All HasCount t.pub_id db.prices h.pub_found fits).1
            (found-All HasCount t.sub_id db.prices h.sub_found fits).1,
    )

  -- A trade whose product is not the id of a price ends in `TransactionFailed` and leaves the tables
  -- as they are, whatever else fails, if it passes every guard of the code: its count is positive, both
  -- rows are there and let through, and the specs of both convert.
  pub trade_on_db_foreign :
      (f : Faults) (now txn_id : ℕ) (t : TransactionTemplate) (db : Db V)
      → IsPassed t db
      → find_price t.prod db.prices ≡ none
      → trade_on_db decode f now txn_id t db ≡ (err transaction_failed, db)
  unfolding trade_on_db trade_body
  trade_on_db_foreign f now txn_id t db h foreign =
      let some_count : leb_ℤ t.count (pos 0) ≡ false = ground (arith, h.count_pos) in
      let refused : settle f now txn_id t h.p h.s db ≡ none =
        elim (Option-cases (settle f now txn_id t h.p h.s db)) [
          | inl e ↦ e
          | inr (db', e) ↦
              let done =
                settle-Settled decode f now txn_id t db h.p h.s h.pub_taken h.sub_taken h.count_pos
                  db' e in
              absurd (cc (rw foreign at done.prod_listed))
        ] in
      elim (Bool-cases f.begin) [
        | inl e ↦ rw (trade_on_db, e)
        | inr e ↦ elim (Bool-cases f.read_pub) [
          | inl e' ↦ rw (trade_on_db, e, trade_body, some_count, e')
          | inr e' ↦ elim (Bool-cases f.read_sub) [
            | inl e'' ↦ rw (trade_on_db, e, trade_body, some_count, e', h.pub_taken, e'')
            | inr e'' ↦ rw (
              trade_on_db, e, trade_body, some_count, e', h.pub_taken, e'', h.sub_taken,
              h.pub_decodes, h.sub_decodes, refused,
            )
          ]
        ]
      ]
