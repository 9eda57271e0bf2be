-- ===== src/Market/Trade/Agent/Rows.antt =====
-- The items of the histogram are rows of the prices, and what the items of an id hold is what its
-- row holds.
use mathlib.Core.List.{Memᴰ}
use mathlib.Core.Option.{some-injective}
use open_ark.Prelude.{
  ℕ, ◌<◌, ◌≡◌, ◌≢◌, ◌∙◌, refl, sym, ap, subst, Bool, true, false, ◌⊎◌, inl, inr, none, some, List,
  [], ◌∷◌, All, All-imp, All-both, if_rule, if◌then◌else◌, eqb, Bool-cases, arith,
}
use open_ark.Prelude.Int.{ℤ, IsI64, pos, ◌+ℤ◌, ◌≤ℤ◌, +ℤ_parts, int_laws}
use open_ark.Market.{PriceItem, TransactionTemplate, Direction, pub_side, sub_side, is_pub, is_sub}
use open_ark.Market.Database.{Price, Db, find_price, default_price, price_item, id_le}
use open_ark.Market.Listing.{IsKeyed, whole_histogram, whole_histogram-IsOrdered, All-map}
use open_ark.Sort.{total, filter_by, IsOrdered, All-sort, All-filter_by_and}
use open_ark.Market.Solver.{active_pubs, active_subs, is_active, solve}
use open_ark.Market.Solver.Account.{held, sold, bought, solve_accounts}
use open_ark.Market.Trade.Agent.Stock.{drain}

pub All-at : {A : Type 0} (P : A → Type 0) (xs : List A) {x : A} → Memᴰ x xs → All P xs → P x
All-at P [] m h = elim m [ ]
All-at P (y ∷ ys) (Memᴰ.head e) h = subst P (sym e) h.0
All-at P (y ∷ ys) (Memᴰ.tail m) h = All-at P ys m h.1

module _ {V : Type 0} where
  -- The row of an item.
  pub record HasRow (rows : List (Price V)) (item : PriceItem) : Type 0 where
    pub row : Price V
    pub found : find_price item.id rows ≡ some row
    pub item_eq : price_item row ≡ item
    pub active : (pos 0 ≤ℤ item.cost) × (pos 1 ≤ℤ item.count)

  HasRow-count :
      {rows : List (Price V)} {id : ℕ} {r : Price V}
      → find_price id rows ≡ some r
      → (x : PriceItem) → HasRow rows x
      → x.id ≡ id
      → x.count ≡ r.count
  HasRow-count {r = r} found x row same =
      let one : row.row ≡ r = some-injective _ _ (sym row.found ∙ rw same found) in
      sym (ap (λ (i : PriceItem). i.count) row.item_eq) ∙ ap (λ (p : Price V). p.count) one

  -- Each row of a table with a key is found by its id.
  keyed_found :
      (rows : List (Price V)) → IsKeyed rows → All (λ row. find_price row.id rows ≡ some row) rows
  unfolding find_price
  keyed_found [] h = tt
  keyed_found (x ∷ xs) h = (
    ground arith,
    All-both (λ y. x.id ≢ y.id) (λ y. find_price y.id xs ≡ some y) _
        (λ y differ found.
          let other : eqb x.id y.id ≡ false = ground arith in rw (find_price, other) found)
        xs h.0 (keyed_found xs h.1),
  )

  pub whole_histogram-HasRow :
      (db : Db V) → IsKeyed db.prices → All (HasRow db.prices) (whole_histogram db)
  unfolding whole_histogram
  whole_histogram-HasRow db keyed = All-map price_item (HasRow db.prices) _ (
      All-filter_by_and (λ row. find_price row.id db.prices ≡ some row) _ (default_price none) _
        (λ row found passes. record {
          row = row;
          found = found;
          item_eq = refl;
          active = ground arith;
        })
        (All-sort _ id_le db.prices (keyed_found db.prices keyed)))

-- The items of an id that is not listed hold nothing; those of a listed one hold its count.
held_absent : (id : ℕ) (xs : List PriceItem) → All (λ x. id ≢ x.id) xs → total (held id) xs ≡ pos 0
held_absent id [] h = refl
held_absent id (x ∷ xs) h =
    let other : held id x ≡ pos 0 = ground arith in
    rw (other, held_absent id xs h.1) (omega int_laws)

held_le :
    (id : ℕ) (c : ℤ) (xs : List PriceItem)
    → pos 0 ≤ℤ c
    → IsOrdered (λ a b. a.id < b.id) xs
    → All (λ x. x.id ≡ id → x.count ≡ c) xs
    → total (held id) xs ≤ℤ c
held_le id c [] lo ordered h = lo
held_le id c (x ∷ xs) lo ordered h = elim (Bool-cases (eqb x.id id)) [
  | inl e ↦
      let same : x.id ≡ id = ground arith in
      let absent = held_absent id xs (All-imp (λ y lt k. omega arith) xs ordered.0) in
      rw (e, absent, h.0 same) (omega int_laws)
  | inr e ↦
      rw e (omega (arith, +ℤ_parts (pos 0) (total (held id) xs), held_le id c xs lo ordered.1 h.1))
]

-- An item of one side, that is active or not, adds to the queue of its side at most what it holds.
kept_le :
    (id : ℕ) (b : Bool) (x : PriceItem) (xs : List PriceItem)
    → pos 0 ≤ℤ x.count
    → total (held id) (if b then x ∷ xs else xs) ≤ℤ held id x +ℤ total (held id) xs
kept_le id b x xs h =
    if_rule (λ l. total (held id) l ≤ℤ held id x +ℤ total (held id) xs) b (λ _. omega arith)
      (λ _.
        if_rule (λ z. total (held id) xs ≤ℤ z +ℤ total (held id) xs) (eqb x.id id)
          (λ _. omega int_laws) (λ _. omega int_laws))

Direction-cases :
    (d : Direction)
    → ((is_pub d ≡ true) × (is_sub d ≡ false)) ⊎ ((is_pub d ≡ false) × (is_sub d ≡ true))
Direction-cases pub_side = inl (refl, refl)
Direction-cases sub_side = inr (refl, refl)

-- What the active pubs and the active subs hold is part of what all items hold.
sides_le :
    (id : ℕ) (xs : List PriceItem)
    → All (λ x. pos 0 ≤ℤ x.count) xs
    → total (held id) (active_pubs xs) +ℤ total (held id) (active_subs xs) ≤ℤ total (held id) xs
unfolding active_pubs active_subs filter_by
sides_le id [] h = omega int_laws
sides_le id (x ∷ xs) h =
    let rest = sides_le id xs h.1 in
    elim (Direction-cases x.direction) [
      | inl (is_p, not_s) ↦
          rw (active_pubs, active_subs, filter_by, is_p, not_s, filter_by)
            (omega (int_laws, kept_le id (is_active x) x (active_pubs xs) h.0))
      | inr (not_p, is_s) ↦
          rw (active_pubs, active_subs, filter_by, not_p, is_s, filter_by)
            (omega (int_laws, kept_le id (is_active x) x (active_subs xs) h.0))
    ]

drains_total :
    (id : ℕ) (txs : List TransactionTemplate)
    → total (drain id) txs ≡ total (sold id) txs +ℤ total (bought id) txs
drains_total id [] = omega int_laws
drains_total id (t ∷ txs) = rw (drains_total id txs) (omega int_laws)

module _ {V : Type 0} (db : Db V) (keyed : IsKeyed db.prices)
    (range : (x : PriceItem) → Memᴰ x (whole_histogram db) → IsI64 x.count) where
  -- What the solver's templates take from a row that is not empty, the row holds.
  pub solve_drains :
      (prod_id : ℕ) (txs : List TransactionTemplate)
      → solve prod_id (whole_histogram db) ≡ some txs
      → (id : ℕ) (r : Price V) → find_price id db.prices ≡ some r
      → pos 0 ≤ℤ r.count
      → total (drain id) txs ≤ℤ r.count
  solve_drains prod_id txs h id r found lo =
      let listed = whole_histogram-HasRow db keyed in
      let (sells, buys) = solve_accounts prod_id (whole_histogram db) range txs id h in
      let sides =
        sides_le id (whole_histogram db)
          (All-imp (λ x row. omega (arith, row.active.1)) _ listed) in
      let holds =
        held_le id r.count (whole_histogram db) lo (whole_histogram-IsOrdered db keyed)
          (All-imp (λ x row same. HasRow-count found x row same) _ listed) in
      rw (drains_total id txs) (omega (int_laws, sells, buys, sides, holds))
