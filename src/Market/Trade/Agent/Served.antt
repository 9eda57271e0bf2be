-- ===== src/Market/Trade/Agent/Served.antt =====
-- Trades whose rows hold enough are served, and leave the rows of the later trades with enough.
use mathlib.Core.Option.{some-injective}
use open_ark.Prelude.{
  ℕ, ◌≡◌, ◌≢◌, ◌∙◌, sym, ap, subst, inl, inr, Option, none, some, is_some, true, List, ◌∷◌, All, ok,
  arith,
}
use open_ark.Prelude.Int.{pos, ◌-ℤ◌, ◌≤ℤ◌, IsI64, +ℤ_parts, -ℤ_parts, canonical}
use open_ark.Market.{TransactionTemplate, pub_side, sub_side}
use open_ark.Market.Database.{Price, Db, find_price, get_transaction, try_spec}
use open_ark.Sort.{total}
use open_ark.Market.Trade.{Faults, Calls, Deal, Receipt, join_calls, trade, trade_on_db}
use open_ark.Market.Trade.Effect.{Settled, trade_on_db_atomic}
use open_ark.Market.Trade.Guards.{IsPassed, trade_on_db-IsServed}
use open_ark.Market.Trade.Allowed.{
  no_faults, take_side-passes, pub_passes-enough, sub_passes-enough,
}
use open_ark.Market.Trade.Agent.Stock.{drain, drain_nonneg, drains_nonneg, drain_own, Settled-row}

module _ {V F : Type 0} (decode : V → Option F) where
  -- The tables can serve a trade, and hold what the trades `rest` take from its two rows.
  pub record IsStocked (db : Db V) (rest : List TransactionTemplate) (t : TransactionTemplate)
      : Type 0 where
    pub count_pos : pos 1 ≤ℤ t.count
    pub cost_nonneg : pos 0 ≤ℤ t.cost
    pub p : Price V
    pub s : Price V
    pub pub_found : find_price t.pub_id db.prices ≡ some p
    pub sub_found : find_price t.sub_id db.prices ≡ some s
    pub pub_dir : p.direction ≡ pub_side
    pub sub_dir : s.direction ≡ sub_side
    pub pub_cost : p.cost ≤ℤ t.cost
    pub sub_cost : t.cost ≤ℤ s.cost
    pub pub_range : IsI64 p.count
    pub sub_range : IsI64 s.count
    pub pub_enough : total (drain t.pub_id) rest ≤ℤ p.count
    pub sub_enough : total (drain t.sub_id) rest ≤ℤ s.count
    pub pub_function : F
    pub sub_function : F
    pub pub_decodes : decode p.spec ≡ some pub_function
    pub sub_decodes : decode s.spec ≡ some sub_function

  pub IsStocked-differ :
      (db : Db V) (rest : List TransactionTemplate) (t : TransactionTemplate)
      → IsStocked db rest t
      → t.pub_id ≢ t.sub_id
  IsStocked-differ db rest t h same =
      let one : h.p ≡ h.s = some-injective _ _ (sym h.pub_found ∙ rw same h.sub_found) in
      cc (h.pub_dir, h.sub_dir, ap (λ (x : Price V). x.direction) one)

  -- The rows of the first of the trades hold what it takes.
  IsStocked-enough :
      (db : Db V) (rest : List TransactionTemplate) (t : TransactionTemplate)
      → All (λ u. pos 1 ≤ℤ u.count) rest
      → (h : IsStocked db (t ∷ rest) t) → (t.count ≤ℤ h.p.count) × (t.count ≤ℤ h.s.count)
  IsStocked-enough db rest t positive h =
      let own = drain_own t h.count_pos in
      (
        omega (
          arith,
          h.pub_enough,
          own.0,
          +ℤ_parts (drain t.pub_id t) (total (drain t.pub_id) rest),
          drains_nonneg t.pub_id rest positive,
        ),
        omega (
          arith,
          h.sub_enough,
          own.1,
          +ℤ_parts (drain t.sub_id t) (total (drain t.sub_id) rest),
          drains_nonneg t.sub_id rest positive,
        ),
      )

  -- The first of the trades passes the guards.
  pub IsStocked-IsPassed :
      (db : Db V) (rest : List TransactionTemplate) (t : TransactionTemplate)
      → All (λ u. pos 1 ≤ℤ u.count) rest
      → IsStocked db (t ∷ rest) t
      → IsPassed decode t db
  unfolding try_spec
  IsStocked-IsPassed db rest t positive h =
      let (enough_p, enough_s) = IsStocked-enough db rest t positive h in
      record {
        count_pos = h.count_pos;
        p = h.p;
        s = h.s;
        pub_taken = take_side-passes _ _ _ h.pub_found (pub_passes-enough t h.p enough_p);
        sub_taken = take_side-passes _ _ _ h.sub_found (sub_passes-enough t h.s enough_s);
        pub_spec = record { cost = h.p.cost; count = h.p.count; function = h.pub_function };
        sub_spec = record { cost = h.s.cost; count = h.s.count; function = h.sub_function };
        pub_decodes = rw (try_spec, h.pub_decodes);
        sub_decodes = rw (try_spec, h.sub_decodes);
      }

  -- It is served, if its product is the id of a price.
  stocked_deal :
      (now txn_id : ℕ) (db : Db V) (rest : List TransactionTemplate) (t : TransactionTemplate)
      → All (λ u. pos 1 ≤ℤ u.count) rest
      → IsStocked db (t ∷ rest) t
      → is_some (find_price t.prod db.prices) ≡ true
      → get_transaction txn_id db.transactions ≡ none
      → (deal : ℕ × Deal F) × ((trade_on_db decode no_faults now txn_id t db).0 ≡ ok deal)
  unfolding try_spec
  stocked_deal now txn_id db rest t positive h listed fresh =
      let (enough_p, enough_s) = IsStocked-enough db rest t positive h in
      trade_on_db-IsServed decode now txn_id t db
        (record {
          count_pos = h.count_pos;
          cost_nonneg = h.cost_nonneg;
          p = h.p;
          s = h.s;
          pub_found = h.pub_found;
          sub_found = h.sub_found;
          pub_enough = enough_p;
          sub_enough = enough_s;
          pub_spec = record { cost = h.p.cost; count = h.p.count; function = h.pub_function };
          sub_spec = record { cost = h.s.cost; count = h.s.count; function = h.sub_function };
          pub_decodes = rw (try_spec, h.pub_decodes);
          sub_decodes = rw (try_spec, h.sub_decodes);
          prod_listed = listed;
          fresh = fresh;
        })
        h.pub_range h.sub_range

  pub trade-IsStocked :
      (f : Faults) (calls : Calls) (now txn_id : ℕ) (db : Db V) (rest : List TransactionTemplate)
      → (t : TransactionTemplate) → f ≡ no_faults
      → join_calls calls ≡ none
      → All (λ u. pos 1 ≤ℤ u.count) rest
      → IsStocked db (t ∷ rest) t
      → is_some (find_price t.prod db.prices) ≡ true
      → get_transaction txn_id db.transactions ≡ none
      → (receipt : Receipt) × ((trade decode f calls now txn_id t db).0 ≡ ok receipt)
        × Settled now txn_id t db (trade decode f calls now txn_id t db).1
  unfolding trade
  trade-IsStocked f calls now txn_id db rest t quiet calm positive h listed fresh =
      let (deal', served') =
        subst (λ g. (deal : ℕ × Deal F) × ((trade_on_db decode g now txn_id t db).0 ≡ ok deal))
          (sym quiet) (stocked_deal now txn_id db rest t positive h listed fresh) in
      elim (trade_on_db_atomic decode f now txn_id t db) [
        | inl (e, is_err, _) ↦ absurd (cc (is_err, served'))
        | inr (deal, is_ok, done) ↦ (
          record { id = deal'.0; template = t },
          rw (trade, served', calm),
          rw (trade, served', calm) done,
        )
      ]

  -- A row after the first of the trades: it has given what the trade takes, and holds the rest.
  pub row_left :
      {now txn_id : ℕ} {t : TransactionTemplate} {db db' : Db V} (rest : List TransactionTemplate)
      → Settled now txn_id t db db'
      → t.pub_id ≢ t.sub_id
      → All (λ u. pos 1 ≤ℤ u.count) (t ∷ rest)
      → (id : ℕ) (r : Price V) → find_price id db.prices ≡ some r
      → IsI64 r.count
      → total (drain id) (t ∷ rest) ≤ℤ r.count
      → (find_price id db'.prices ≡ some (record r { count = r.count -ℤ drain id t }))
        × IsI64 (r.count -ℤ drain id t)
        × (total (drain id) rest ≤ℤ r.count -ℤ drain id t)
  row_left {t = t} rest done differ positive id r h range enough =
      let given = drain_nonneg id t positive.0 in
      let later = drains_nonneg id rest positive.1 in
      let parts = +ℤ_parts (drain id t) (total (drain id) rest) in
      let difference = -ℤ_parts r.count (drain id t) in
      (
        Settled-row done differ id r h range (omega (arith, parts)),
        omega (
          arith,
          parts,
          difference,
          canonical r.count,
          canonical (drain id t),
          canonical (r.count -ℤ drain id t),
        ),
        omega (arith, parts, difference),
      )

  pub IsStocked-left :
      {now txn_id : ℕ} {t : TransactionTemplate} {db db' : Db V} (rest : List TransactionTemplate)
      → Settled now txn_id t db db'
      → t.pub_id ≢ t.sub_id
      → All (λ u. pos 1 ≤ℤ u.count) (t ∷ rest)
      → (u : TransactionTemplate) → IsStocked db (t ∷ rest) u
      → IsStocked db' rest u
  IsStocked-left {t = t} rest done differ positive u h =
      let (found_p, range_p, enough_p) =
        row_left rest done differ positive u.pub_id h.p h.pub_found h.pub_range h.pub_enough in
      let (found_s, range_s, enough_s) =
        row_left rest done differ positive u.sub_id h.s h.sub_found h.sub_range h.sub_enough in
      record {
        count_pos = h.count_pos;
        cost_nonneg = h.cost_nonneg;
        p = record h.p { count = h.p.count -ℤ drain u.pub_id t };
        s = record h.s { count = h.s.count -ℤ drain u.sub_id t };
        pub_found = found_p;
        sub_found = found_s;
        pub_dir = h.pub_dir;
        sub_dir = h.sub_dir;
        pub_cost = h.pub_cost;
        sub_cost = h.sub_cost;
        pub_range = range_p;
        sub_range = range_s;
        pub_enough = enough_p;
        sub_enough = enough_s;
        pub_function = h.pub_function;
        sub_function = h.sub_function;
        pub_decodes = h.pub_decodes;
        sub_decodes = h.sub_decodes;
      }
