-- ===== src/Market/Trade/Agent/Solved.antt =====
-- The agent can make every trade that the solver asks for.
use mathlib.Core.List.{Memᴰ}
use open_ark.Prelude.{
  ℕ, suc, ◌+◌, ◌≡◌, ◌∙◌, sym, ap, subst, refl, true, ◌⊎◌, inl, inr, Option, Option-cases, none,
  some, is_some, List, [], ◌∷◌, length, All, All-imp, ok, err, arith,
}
use open_ark.Prelude.Int.{pos, ◌-ℤ◌, ◌≤ℤ◌, IsI64, int_laws}
use open_ark.Market.{PriceItem, TransactionTemplate}
use open_ark.Market.Database.{Price, Db, find_price}
use open_ark.Market.Listing.{IsKeyed, whole_histogram}
use open_ark.Sort.{total}
use open_ark.Market.Solver.{solve}
use open_ark.Market.Solver.Round.{IsFair}
use open_ark.Market.Solver.Account.{solve-IsFair}
use open_ark.Market.Trade.{transaction_failed, trade}
use open_ark.Market.Trade.Guards.{trade_on_db_foreign}
use open_ark.Market.Trade.Agent.{Env, trade_all, refused}
use open_ark.Market.Trade.Agent.Rows.{All-at, HasRow, whole_histogram-HasRow, solve_drains}
use open_ark.Market.Trade.Agent.Stock.{drain, IsQuiet, IsFresh, Settled-listed, Settled-IsFresh}
use open_ark.Market.Trade.Agent.Served.{
  IsStocked, IsStocked-differ, IsStocked-IsPassed, IsStocked-left, row_left, trade-IsStocked,
}

module _ {V F : Type 0} (decode : V → Option F) (env : ℕ → Env) (quiet : IsQuiet env) where
  -- Stocked trades are all made, and each row has given what they take from it.
  trade_all-IsStocked :
      (n : ℕ) (txs : List TransactionTemplate) (db : Db V)
      → All (λ t. pos 1 ≤ℤ t.count) txs
      → All (λ t. is_some (find_price t.prod db.prices) ≡ true) txs
      → IsFresh env n db
      → All (IsStocked decode db txs) txs
      → ((trade_all decode env n txs db).0 ≡ ok (n + length txs))
        × ((id : ℕ) (r : Price V)
            → find_price id db.prices ≡ some r
            → IsI64 r.count
            → total (drain id) txs ≤ℤ r.count
            → find_price id (trade_all decode env n txs db).1.prices
              ≡ some (record r { count = r.count -ℤ total (drain id) txs }))
  unfolding trade_all
  trade_all-IsStocked n [] db positive listed fresh h = (
    ap (λ k. ok k) (omega arith),
    λ id r found range enough. found ∙ ap (λ z. some (record r { count = z })) (omega int_laws),
  )
  trade_all-IsStocked n (t ∷ txs) db positive listed fresh h =
      let differ = IsStocked-differ decode db _ t h.0 in
      let (receipt, is_ok, done) =
        trade-IsStocked decode (env n).faults (env n).calls (env n).now (env n).txn_id db txs t
          (quiet n).0 (quiet n).1 positive.1 h.0 listed.0 (fresh.0 n (omega arith)) in
      let (made, rows) =
        trade_all-IsStocked (suc n) txs _ positive.1
          (All-imp (λ u e. Settled-listed done u.prod e) txs listed.1)
          (Settled-IsFresh env n done fresh)
          (All-imp (IsStocked-left decode txs done differ positive) txs h.1) in
      (
        rw (trade_all, is_ok) (made ∙ ap (λ k. ok k) (omega arith)),
        λ id r found range enough.
            let (found', range', enough') =
              row_left decode txs done differ positive id r found range enough in
            rw (trade_all, is_ok)
              (rows id _ found' range' enough'
                ∙ ap (λ z. some (record r { count = z })) (omega int_laws)),
      )

module _ {V F : Type 0} (decode : V → Option F) (db : Db V) (keyed : IsKeyed db.prices)
    (range : (x : PriceItem) → Memᴰ x (whole_histogram db) → IsI64 x.count)
    (decodes : (v : V) → (function : F) × (decode v ≡ some function)) where
  -- The templates of the solver find their rows, which hold all that the templates take.
  solve-IsStocked :
      (prod_id : ℕ) (txs : List TransactionTemplate)
      → solve prod_id (whole_histogram db) ≡ some txs
      → (t : TransactionTemplate) → IsFair (whole_histogram db) prod_id t
      → IsStocked decode db txs t
  solve-IsStocked prod_id txs h t fair =
      let listed = whole_histogram-HasRow db keyed in
      let seller = All-at (HasRow db.prices) _ fair.seller_listed listed in
      let buyer = All-at (HasRow db.prices) _ fair.buyer_listed listed in
      let found_p : find_price t.pub_id db.prices ≡ some seller.row = rw fair.pub_eq seller.found in
      let found_s : find_price t.sub_id db.prices ≡ some buyer.row = rw fair.sub_eq buyer.found in
      let costs : t.cost ≡ buyer.row.cost =
        fair.cost_eq ∙ sym (ap (λ (i : PriceItem). i.cost) buyer.item_eq) in
      let p_count : fair.seller.count ≡ seller.row.count =
        sym (ap (λ (i : PriceItem). i.count) seller.item_eq) in
      let s_count : fair.buyer.count ≡ buyer.row.count =
        sym (ap (λ (i : PriceItem). i.count) buyer.item_eq) in
      record {
        count_pos = fair.count_pos;
        cost_nonneg = subst (λ c. pos 0 ≤ℤ c) (sym fair.cost_eq) buyer.active.0;
        p = seller.row;
        s = buyer.row;
        pub_found = found_p;
        sub_found = found_s;
        pub_dir = ap (λ (i : PriceItem). i.direction) seller.item_eq ∙ fair.seller_side;
        sub_dir = ap (λ (i : PriceItem). i.direction) buyer.item_eq ∙ fair.buyer_side;
        pub_cost =
            subst (λ c. c ≤ℤ t.cost) (sym (ap (λ (i : PriceItem). i.cost) seller.item_eq))
              fair.cost_covers;
        sub_cost = subst (λ c. t.cost ≤ℤ c) costs (omega arith);
        pub_range = subst IsI64 p_count (range fair.seller fair.seller_listed);
        sub_range = subst IsI64 s_count (range fair.buyer fair.buyer_listed);
        pub_enough =
            solve_drains db keyed range prod_id txs h t.pub_id seller.row found_p
              (subst (λ c. pos 0 ≤ℤ c) p_count (omega (arith, seller.active.1)));
        sub_enough =
            solve_drains db keyed range prod_id txs h t.sub_id buyer.row found_s
              (subst (λ c. pos 0 ≤ℤ c) s_count (omega (arith, buyer.active.1)));
        pub_function = (decodes seller.row.spec).0;
        sub_function = (decodes buyer.row.spec).0;
        pub_decodes = (decodes seller.row.spec).1;
        sub_decodes = (decodes buyer.row.spec).1;
      }

  -- The first trade of those that the solver asks for is refused, if the product is not a price.
  trade_all-refused :
      (env : ℕ → Env) (txs : List TransactionTemplate)
      → All (λ t. pos 1 ≤ℤ t.count) txs
      → All (λ t. find_price t.prod db.prices ≡ none) txs
      → All (IsStocked decode db txs) txs
      → trade_all decode env 0 txs db ≡ (refused txs, db)
  unfolding trade_all trade
  trade_all-refused env [] positive foreign stocked = refl
  trade_all-refused env (t ∷ txs) positive foreign stocked =
      let failed =
        trade_on_db_foreign decode (env 0).faults (env 0).now (env 0).txn_id t db
          (IsStocked-IsPassed decode db txs t positive.1 stocked.0) foreign.0 in
      let ended : trade decode (env 0).faults (env 0).calls (env 0).now (env 0).txn_id t db
          ≡ (err transaction_failed, db) =
        rw (trade, failed) (ap (λ r. (err transaction_failed, r.1)) failed) in
      rw (trade_all, ended) (ap (λ r. (err transaction_failed, r.1)) ended)

  -- The trades that the solver asks for of the client's histogram, in a row. If the id of the product
  -- is also the id of a price, as the table of the transactions asks, every one of them is made, and
  -- leaves each row that was not empty with its count less what the trades take from it, which is not
  -- negative. If it is not, the first trade ends in `TransactionFailed`, and the tables stay as they
  -- are. The ids are taken to be a key, the counts to be `i64`s, the specs to convert, the drawn ids
  -- to be new, and neither the database nor a function to fail.
  pub solved_trades :
      (env : ℕ → Env)
      → IsQuiet env
      → IsFresh env 0 db
      → (prod_id : ℕ) (txs : List TransactionTemplate)
      → solve prod_id (whole_histogram db) ≡ some txs
      → ((is_some (find_price prod_id db.prices) ≡ true)
          × ((trade_all decode env 0 txs db).0 ≡ ok (length txs))
          × ((id : ℕ) (r : Price V)
              → find_price id db.prices ≡ some r
              → pos 0 ≤ℤ r.count
              → IsI64 r.count
              → (find_price id (trade_all decode env 0 txs db).1.prices
                  ≡ some (record r { count = r.count -ℤ total (drain id) txs }))
                × (pos 0 ≤ℤ r.count -ℤ total (drain id) txs)))
        ⊎ ((find_price prod_id db.prices ≡ none)
            × (trade_all decode env 0 txs db ≡ (refused txs, db)))
  solved_trades env quiet fresh prod_id txs h =
      let fair = solve-IsFair prod_id (whole_histogram db) range txs h in
      let stocked = All-imp (solve-IsStocked prod_id txs h) txs fair in
      let positive = All-imp (λ t k. k.count_pos) txs fair in
      elim (Option-cases (find_price prod_id db.prices)) [
        | inl e ↦
            let foreign : All (λ t. find_price t.prod db.prices ≡ none) txs =
              All-imp (λ t k. rw (k.prod_eq) e) txs fair in
            inr (e, trade_all-refused env txs positive foreign stocked)
        | inr (row, e) ↦
            let listed : is_some (find_price prod_id db.prices) ≡ true = rw e in
            let (made, rows) =
              trade_all-IsStocked decode env quiet 0 txs db positive
                (All-imp (λ t k. rw (k.prod_eq) listed) txs fair) fresh stocked in
            inl (
              listed,
              made ∙ ap (λ k. ok k) (omega arith),
              λ id r found lo r_range.
                  let enough = solve_drains db keyed range prod_id txs h id r found lo in
                  (rows id r found r_range enough, omega (int_laws, enough)),
            )
      ]
