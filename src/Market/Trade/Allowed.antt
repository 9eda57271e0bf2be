-- ===== src/Market/Trade/Allowed.antt =====
-- A database without faults, and what its tables allow: the counts that may be taken.
use mathlib.Core.Option.{some-injective}
use open_ark.Prelude.{
  ℕ, ◌≡◌, ◌∙◌, sym, subst, Bool, true, false, inl, inr, none, some, is_some, List, [], ◌∷◌, ◌++◌,
  All, eqb, Bool-cases, arith,
}
use open_ark.Prelude.Int.{
  ℤ, pos, leb_ℤ, ◌≤ℤ◌, ◌-ℤ◌, IsI64, sub_i64, sub_i64_exact, sub_i64-le, -ℤ_parts, canonical,
}
use open_ark.Market.{TransactionTemplate}
use open_ark.Market.Database.{Price, Db, find_price, get_transaction}
use open_ark.Market.Trade.{
  Faults, pub_passes, sub_passes, take_side, set_count, withdraw, from_template,
  is_valid_transaction, insert_transaction, settle,
}
use open_ark.Market.Trade.Updates.{find_price-set_count_listed}

abbrev pub no_faults : Faults
no_faults = record {
  begin = false;
  read_pub = false;
  read_sub = false;
  update_pub = false;
  update_sub = false;
  insert = false;
  commit = false;
}

pub pub_passes-enough :
    {V : Type 0} (t : TransactionTemplate) (p : Price V)
    → t.count ≤ℤ p.count
    → pub_passes t p ≡ true
pub_passes-enough t p h = ground arith

pub sub_passes-enough :
    {V : Type 0} (t : TransactionTemplate) (s : Price V)
    → t.count ≤ℤ s.count
    → sub_passes t s ≡ true
sub_passes-enough t s h = ground arith

-- A count that the row of an `UPDATE` holds may be taken, and no other.
pub sub_i64-nonneg : (a b : ℤ) → IsI64 a → pos 0 ≤ℤ b → b ≤ℤ a → pos 0 ≤ℤ sub_i64 a b
sub_i64-nonneg a b range lo hi =
    subst (λ d. pos 0 ≤ℤ d) (sym (sub_i64-le a b range lo hi)) (omega (arith, -ℤ_parts a b))

pub sub_i64-enough :
    (a b : ℤ) → pos 0 ≤ℤ a → IsI64 a → pos 0 ≤ℤ b → IsI64 b → pos 0 ≤ℤ sub_i64 a b → b ≤ℤ a
sub_i64-enough a b lo range lo_b range_b left =
    let exact =
      sub_i64_exact a b
        (omega (arith, -ℤ_parts a b, canonical a, canonical b, canonical (a -ℤ b))) in
    let left' : pos 0 ≤ℤ a -ℤ b = subst (λ d. pos 0 ≤ℤ d) exact left in
    omega (arith, -ℤ_parts a b, left')

module _ {V : Type 0} where
  pub take_side-passes :
      (passes : Price V → Bool) (id : ℕ) (rows : List (Price V)) {p : Price V}
      → find_price id rows ≡ some p
      → passes p ≡ true
      → take_side passes id rows ≡ some p
  unfolding take_side
  take_side-passes passes id rows h e = rw (take_side, h, e)

  pub found-All :
      (P : Price V → Type 0) (id : ℕ) (rows : List (Price V)) {p : Price V}
      → find_price id rows ≡ some p
      → All P rows
      → P p
  unfolding find_price
  found-All P id [] h all = absurd (cc)
  found-All P id (row ∷ rows) h all = elim (Bool-cases (eqb row.id id)) [
    | inl e ↦ subst P (some-injective _ _ (rw (e, find_price) at h)) all.0
    | inr e ↦ found-All P id rows (rw (e, find_price) at h) all.1
  ]

  pub found-listed :
      (id : ℕ) (rows : List (Price V)) {p : Price V}
      → find_price id rows ≡ some p
      → is_some (find_price id rows) ≡ true
  found-listed id rows h = rw h

  -- What the checks of the table say of a row.
  abbrev pub HasCount : Price V → Type 0
  HasCount r = (pos 0 ≤ℤ r.count) × IsI64 r.count

  settle_valid :
      (now txn_id : ℕ) (t : TransactionTemplate) (rows : List (Price V))
      → pos 1 ≤ℤ t.count
      → pos 0 ≤ℤ t.cost
      → is_some (find_price t.prod rows) ≡ true
      → is_some (find_price t.pub_id rows) ≡ true
      → is_some (find_price t.sub_id rows) ≡ true
      → is_valid_transaction (from_template now txn_id t) rows ≡ true
  settle_valid now txn_id t rows lo cost a b c = rw (a, b, c) (ground arith)

  -- The statements that the tables allow are made.
  pub settle_allowed :
      (now txn_id : ℕ) (t : TransactionTemplate) (p s : Price V) (db : Db V)
      → pos 1 ≤ℤ t.count
      → pos 0 ≤ℤ t.cost
      → pos 0 ≤ℤ sub_i64 p.count t.count
      → pos 0 ≤ℤ sub_i64 s.count t.count
      → is_some (find_price t.prod db.prices) ≡ true
      → is_some (find_price t.pub_id db.prices) ≡ true
      → is_some (find_price t.sub_id db.prices) ≡ true
      → get_transaction txn_id db.transactions ≡ none
      → (db' : Db V) × (settle no_faults now txn_id t p s db ≡ some db')
  unfolding settle withdraw insert_transaction
  settle_allowed now txn_id t p s db lo cost left_p left_s prod listed_p listed_s fresh =
      let enough_p : leb_ℤ (pos 0) (sub_i64 p.count t.count) ≡ true = ground arith in
      let enough_s : leb_ℤ (pos 0) (sub_i64 s.count t.count) ≡ true = ground arith in
      let kept = λ (id : ℕ) (e : is_some (find_price id db.prices) ≡ true).
        find_price-set_count_listed s.id id (sub_i64 s.count t.count) _
        ∙ find_price-set_count_listed p.id id (sub_i64 p.count t.count) db.prices
        ∙ e in
      let valid =
        settle_valid now txn_id t _ lo cost (kept t.prod prod) (kept t.pub_id listed_p)
          (kept t.sub_id listed_s) in
      (
        record db {
          prices =
              set_count s.id (sub_i64 s.count t.count)
                (set_count p.id (sub_i64 p.count t.count) db.prices);
          transactions = db.transactions ++ from_template now txn_id t ∷ [];
        },
        rw (settle, withdraw, enough_p, enough_s, insert_transaction, fresh, valid),
      )
