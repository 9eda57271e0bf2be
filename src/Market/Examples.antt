-- ===== src/Market/Examples.antt =====
-- The market on a small table of prices: runs, and the theorems at them. Specs are numbers. The product
-- of the table has the id of a price, as the table of the transactions asks.
use mathlib.Core.List.{Memᴰ}
use open_ark.Prelude.{
  ℕ, ◌≡◌, ◌≢◌, ◌↔◌, ◌⊎◌, refl, sym, true, false, is_some, Option, none, some, List, [], ◌∷◌, ◌++◌,
  take, All, nat_eq, ok, err, arith,
}
use open_ark.Prelude.Int.{ℤ, pos, ◌-ℤ◌, ◌≤ℤ◌, IsI64, sub_i64}
use open_ark.Sort.{filter_by, insert, sort, total}
use open_ark.Market.{PriceItem, TransactionTemplate, pub_side, sub_side}
use open_ark.Market.Database.{
  Db, Price, Spec, is_after, find_price, find_side, remove_side, insert_price, insert_side,
  get_side, try_spec, find_spec, has_product, get_transaction, remove_product, remove_sub, cascade,
  is_gone, insert_product, find_product, price_item,
}
use open_ark.Market.Database.Laws.{insert_side-get_side, remove_side-find_side, find_product-again}
use open_ark.Market.Paging.{closed, create_stream, create_stream_exact}
use open_ark.Market.Listing.{IsKeyed, whole_histogram, client_histogram, client_histogram_exact}
use open_ark.Market.Solver.{
  Book, withdraw, round_on, round, match_items, active_pubs, active_subs, open_book, last_book,
  solve,
}
use open_ark.Market.Solver.Round.{IsFair}
use open_ark.Market.Solver.Account.{held, sold, bought, solve-IsFair, solve_accounts}
use open_ark.Market.Solver.Ends.{IsExhausted, last_book-IsExhausted, solve_ends}
use open_ark.Market.Trade.{
  Deal, TransactionError, transaction_failed, trade_on_db, trade_body, settle, take_side, set_count,
  insert_transaction, trade,
}
use open_ark.Market.Trade.Effect.{Settled, trade_on_db_atomic, settled_counts}
use open_ark.Market.Trade.Guards.{IsServed, IsPassed, trade_on_db_iff, trade_on_db_foreign}
use open_ark.Market.Trade.Allowed.{no_faults}
use open_ark.Market.Tables.{removes_price, trades, stays, moves}
use open_ark.Market.Tables.Consistent.{Steps-IsConsistent}
use open_ark.Market.Tables.Rows.{IsConsistent}
use open_ark.Market.Trade.Agent.{Env, trade_all}
use open_ark.Market.Trade.Agent.Stock.{drain, IsFresh}
use open_ark.Market.Trade.Agent.Rows.{All-at}
use open_ark.Market.Trade.Agent.Solved.{solved_trades}

abbrev cheap : Price ℕ
cheap = record {
  id = 1;
  product_id = 1;
  created_at = 0;
  direction = pub_side;
  cost = pos 10;
  count = pos 3;
  spec = 100;
}

abbrev dear : Price ℕ
dear = record {
  id = 2;
  product_id = 1;
  created_at = 1;
  direction = pub_side;
  cost = pos 20;
  count = pos 5;
  spec = 101;
}

abbrev bid : Price ℕ
bid = record {
  id = 3;
  product_id = 1;
  created_at = 2;
  direction = sub_side;
  cost = pos 20;
  count = pos 4;
  spec = 102;
}

abbrev shop : Db ℕ
shop = record {
  products = record { id = 1; spec = 300 } ∷ [];
  prices = cheap ∷ dear ∷ bid ∷ [];
  transactions = [];
}

-- The conversions of specs.
abbrev decode : ℕ → Option ℕ
decode v = some v

abbrev hist : List PriceItem
hist = price_item cheap ∷ price_item dear ∷ price_item bid ∷ []

shop_histogram : whole_histogram shop ≡ hist
unfolding whole_histogram sort insert filter_by
shop_histogram = refl

abbrev txs : List TransactionTemplate
txs =
    record { prod = 1; pub_id = 1; sub_id = 3; cost = pos 20; count = pos 3 }
    ∷ record { prod = 1; pub_id = 2; sub_id = 3; cost = pos 20; count = pos 1 }
    ∷ []

solves : solve 1 hist ≡ some txs
unfolding solve last_book match_items round round_on open_book active_pubs active_subs sort insert
    filter_by withdraw sub_i64 ◌-ℤ◌
solves = refl

abbrev left : Book
left = record {
  pubs = record (price_item dear) { count = pos 4 } ∷ [];
  subs = [];
  transactions = txs;
}

leaves : last_book 1 hist ≡ some left
unfolding last_book match_items round round_on open_book active_pubs active_subs sort insert
    filter_by withdraw sub_i64 ◌-ℤ◌
leaves = refl

counts_fit : All (λ (x : PriceItem). IsI64 x.count) hist
counts_fit =
    ((omega arith, omega arith), ((omega arith, omega arith), ((omega arith, omega arith), tt)))

in_range : (x : PriceItem) → Memᴰ x hist → IsI64 x.count
in_range x m = All-at (λ (x : PriceItem). IsI64 x.count) hist m counts_fit

solve-IsFair_example : All (IsFair hist 1) txs
solve-IsFair_example = solve-IsFair 1 hist in_range txs solves

solve_accounts_example :
    (total (sold 2) txs ≤ℤ total (held 2) (active_pubs hist))
    × (total (bought 2) txs ≤ℤ total (held 2) (active_subs hist))
solve_accounts_example = solve_accounts 1 hist in_range txs 2 solves

last_book-IsExhausted_example : IsExhausted left
last_book-IsExhausted_example = last_book-IsExhausted 1 hist left leaves

solve_ends_example : (txs : List TransactionTemplate) × (solve 1 hist ≡ some txs)
solve_ends_example = solve_ends 1 hist in_range

-- The ids of the table are a key.
shop-IsKeyed : IsKeyed shop.prices
shop-IsKeyed = ((λ e. omega arith, (λ e. omega arith, tt)), ((λ e. omega arith, tt), (tt, tt)))

client_histogram_exact_example : client_histogram 4 8 shop ≡ (whole_histogram shop, closed)
client_histogram_exact_example =
    client_histogram_exact 4 8 shop shop-IsKeyed (rw shop_histogram (omega arith))

create_stream_exact_example :
    create_stream
      (λ page. some (take page.limit (filter_by (λ x. is_after page.start x) (1 ∷ 4 ∷ []))))
      (λ x. x)
      3
    ≡ (1 ∷ 4 ∷ [], closed)
create_stream_exact_example =
    create_stream_exact (λ (x : ℕ). x) (1 ∷ 4 ∷ []) ((omega arith, tt), (tt, tt))
      (λ page. some (take page.limit (filter_by (λ x. is_after page.start x) (1 ∷ 4 ∷ []))))
      (λ page. refl) 3 (omega arith)

abbrev sale : TransactionTemplate
sale = record { prod = 1; pub_id = 1; sub_id = 3; cost = pos 20; count = pos 3 }

trade_on_db_atomic_example :
    ((e : TransactionError) × ((trade_on_db decode no_faults 9 50 sale shop).0 ≡ err e)
      × ((trade_on_db decode no_faults 9 50 sale shop).1 ≡ shop))
    ⊎ ((deal : ℕ × Deal ℕ) × ((trade_on_db decode no_faults 9 50 sale shop).0 ≡ ok deal)
        × Settled 9 50 sale shop (trade_on_db decode no_faults 9 50 sale shop).1)
trade_on_db_atomic_example = trade_on_db_atomic decode no_faults 9 50 sale shop

shop_counts : All (λ (r : Price ℕ). (pos 0 ≤ℤ r.count) × IsI64 r.count) shop.prices
shop_counts = (
  (omega arith, (omega arith, omega arith)),
  ((omega arith, (omega arith, omega arith)), ((omega arith, (omega arith, omega arith)), tt)),
)

trade_on_db_iff_example :
    ((deal : ℕ × Deal ℕ) × ((trade_on_db decode no_faults 9 50 sale shop).0 ≡ ok deal))
    ↔ IsServed decode 50 sale shop
trade_on_db_iff_example =
    trade_on_db_iff decode 9 50 sale shop shop_counts (omega arith, omega arith)

-- The same prices under the product 7, which is not the id of a price: the sale is refused.
abbrev outlet : Db ℕ
outlet = record {
  products = record { id = 7; spec = 300 } ∷ [];
  prices = record cheap { product_id = 7 } ∷ record bid { product_id = 7 } ∷ [];
  transactions = [];
}

abbrev outlet_sale : TransactionTemplate
outlet_sale = record sale { prod = 7 }

outlet_sale-IsPassed : IsPassed decode outlet_sale outlet
unfolding take_side find_price try_spec
outlet_sale-IsPassed = record {
  count_pos = omega arith;
  p = record cheap { product_id = 7 };
  s = record bid { product_id = 7 };
  pub_taken = refl;
  sub_taken = refl;
  pub_spec = record { cost = pos 10; count = pos 3; function = 100 };
  sub_spec = record { cost = pos 20; count = pos 4; function = 102 };
  pub_decodes = refl;
  sub_decodes = refl;
}

trade_on_db_foreign_example :
    trade_on_db decode no_faults 9 50 outlet_sale outlet ≡ (err transaction_failed, outlet)
unfolding find_price
trade_on_db_foreign_example =
    trade_on_db_foreign decode no_faults 9 50 outlet_sale outlet outlet_sale-IsPassed refl

-- A sale that names a sub where the pub should stand, and a pub where the sub should, is served, if
-- the rows hold its count; where they do not, the table refuses it.
abbrev swapped : ℤ → TransactionTemplate
swapped count = record { prod = 1; pub_id = 3; sub_id = 1; cost = pos 20; count = count }

swapped_served :
    find_price 3 (trade_on_db decode no_faults 9 50 (swapped (pos 2)) shop).1.prices
    ≡ some (record bid { count = pos 2 })
unfolding trade_on_db trade_body settle open_ark.Market.Trade.withdraw set_count insert_transaction
    take_side find_price try_spec get_transaction sub_i64 ◌-ℤ◌
swapped_served = refl

swapped_refused :
    trade_on_db decode no_faults 9 50 (swapped (pos 9)) shop ≡ (err transaction_failed, shop)
unfolding trade_on_db trade_body settle open_ark.Market.Trade.withdraw set_count insert_transaction
    take_side find_price try_spec get_transaction sub_i64 ◌-ℤ◌
swapped_refused = refl

abbrev sold_shop : Db ℕ
sold_shop = (trade_on_db decode no_faults 9 50 sale shop).1

sale_settled : Settled 9 50 sale shop sold_shop
unfolding trade_on_db trade_body settle open_ark.Market.Trade.withdraw set_count insert_transaction
    take_side find_price try_spec get_transaction sub_i64 ◌-ℤ◌
sale_settled = record {
  p = cheap;
  s = bid;
  pub_taken = refl;
  sub_taken = refl;
  count_pos = omega arith;
  cost_nonneg = omega arith;
  pub_left = omega arith;
  sub_left = omega arith;
  prod_listed = refl;
  fresh = refl;
  prices = refl;
  transactions = refl;
  products = refl;
}

settled_counts_example :
    (find_price 1 sold_shop.prices ≡ some (record cheap { count = sub_i64 (pos 3) (pos 3) }))
    × (find_price 3 sold_shop.prices ≡ some (record bid { count = sub_i64 (pos 4) (pos 3) }))
    × ((id : ℕ) → id ≢ 1 → id ≢ 3 → find_price id sold_shop.prices ≡ find_price id shop.prices)
unfolding sale_settled
settled_counts_example = settled_counts sale_settled (λ e. omega arith)

abbrev calm : ℕ → Env
calm n = record {
  faults = no_faults;
  calls = record { pub_fails = false; sub_fails = false; pub_first = true };
  now = n;
  txn_id = n;
}

calm-IsFresh : IsFresh calm 0 shop
unfolding get_transaction
calm-IsFresh = (λ m after. refl, λ m k lt e. omega arith)

solved_trades_example :
    ((is_some (find_price 1 shop.prices) ≡ true)
      × ((trade_all decode calm 0 txs shop).0 ≡ ok 2)
      × ((id : ℕ) (r : Price ℕ)
          → find_price id shop.prices ≡ some r
          → pos 0 ≤ℤ r.count
          → IsI64 r.count
          → (find_price id (trade_all decode calm 0 txs shop).1.prices
              ≡ some (record r { count = r.count -ℤ total (drain id) txs }))
            × (pos 0 ≤ℤ r.count -ℤ total (drain id) txs)))
    ⊎ ((find_price 1 shop.prices ≡ none)
        × (trade_all decode calm 0 txs shop ≡ (err transaction_failed, shop)))
solved_trades_example =
    solved_trades decode shop shop-IsKeyed (λ x m. in_range x (rw shop_histogram at m))
      (λ v. (v, refl)) calm (λ n. (refl, refl)) calm-IsFresh 1 txs (rw shop_histogram solves)

-- Here the product is a price, and the trades are made.
txs_made : (trade_all decode calm 0 txs shop).0 ≡ ok 2
unfolding trade_all trade trade_on_db trade_body settle open_ark.Market.Trade.withdraw set_count
    insert_transaction take_side find_price try_spec get_transaction sub_i64 ◌-ℤ◌
txs_made = refl

abbrev offer : Spec ℕ
offer = record { cost = pos 5; count = pos 1; function = 200 }

abbrev offered : Db ℕ
offered = record shop {
  prices =
      shop.prices
      ++ record {
        id = 4;
        product_id = 1;
        created_at = 9;
        direction = pub_side;
        cost = pos 5;
        count = pos 1;
        spec = 200;
      }
        ∷ [];
}

insert_side-get_side_example : get_side decode pub_side 4 offered ≡ ok (some offer)
unfolding insert_side insert_price find_price has_product
insert_side-get_side_example =
    insert_side-get_side decode decode (λ f v e. sym e) pub_side 9 1 offer 4 shop offered refl

remove_side-find_side_example : find_side pub_side 1 (remove_side pub_side 1 shop.prices) ≡ none
remove_side-find_side_example = remove_side-find_side pub_side 1 shop.prices

abbrev stocked : Db ℕ
stocked = record shop { products = shop.products ++ record { id = 8; spec = 301 } ∷ [] }

find_product-again_example : find_product 301 9 stocked ≡ ok (8, stocked)
unfolding find_product find_spec insert_product has_product
find_product-again_example = find_product-again 301 8 9 8 shop stocked refl

-- A product goes with its prices, and a price with its transactions.
product_gone : remove_product 1 sold_shop ≡ record { products = []; prices = []; transactions = [] }
unfolding trade_on_db trade_body settle open_ark.Market.Trade.withdraw set_count insert_transaction
    take_side find_price try_spec get_transaction sub_i64 ◌-ℤ◌ cascade is_gone filter_by
product_gone = refl

price_gone : (remove_sub 3 sold_shop).transactions ≡ []
unfolding trade_on_db trade_body settle open_ark.Market.Trade.withdraw set_count insert_transaction
    take_side find_price try_spec get_transaction sub_i64 ◌-ℤ◌ cascade is_gone filter_by
price_gone = refl

shop-IsConsistent : IsConsistent shop
unfolding has_product
shop-IsConsistent = record {
  prices = (
    (refl, omega arith, omega arith),
    ((refl, omega arith, omega arith), ((refl, omega arith, omega arith), tt)),
  );
  transactions = tt;
}

-- A sale, after which its bid is removed.
Steps-IsConsistent_example : IsConsistent (remove_sub 3 sold_shop)
Steps-IsConsistent_example =
    Steps-IsConsistent decode decode shop (remove_sub 3 sold_shop) shop-IsConsistent (
      moves shop sold_shop (remove_sub 3 sold_shop)
        (moves shop shop sold_shop (stays shop) (trades no_faults 9 50 sale shop))
        (removes_price sub_side 3 sold_shop))
