-- ===== src/Market/Solver.antt =====
-- The trivial market solver, crates/kubegraph/market/solver/trivial/src/lib.rs: it matches the
-- cheapest offers (pubs) with the highest bids (subs).
--
-- `pubs` and the item taken from it are one list here: its head is the item, and the list is empty
-- where the item is `None`. The same holds of `subs`. A cost is compared, and negated where it is
-- not negative, so neither leaves the range of an `i64`; counts are subtracted as an `i64`.
pub mod Round
pub mod Account
pub mod Ends
use open_ark.Prelude.{
  ℕ, zero, suc, ◌+◌, Bool, ◌&&◌, ◌||◌, Option, none, some, List, [], ◌∷◌, ◌++◌, length, leb,
  if◌then◌else◌,
}
use open_ark.Prelude.Int.{ℤ, pos, leb_ℤ, ltb_ℤ, eqb_ℤ, neg_ℤ, min_ℤ, max_ℤ, sub_i64}
use open_ark.Market.{Direction, PriceItem, TransactionTemplate, is_pub, is_sub}
use open_ark.Sort.{filter_by, sort}

-- `item.cost >= 0 && item.count > 0`
abbrev pub is_active : PriceItem → Bool
is_active item = leb_ℤ (pos 0) item.cost && ltb_ℤ (pos 0) item.count

-- The order of the keys `(key, timestamp)`.
abbrev pub key_le : ℤ → ℕ → ℤ → ℕ → Bool
key_le a s b t = ltb_ℤ a b || eqb_ℤ a b && leb s t

-- `sorted_by_key(|item| (item.cost, item.timestamp))`
abbrev pub pub_le : PriceItem → PriceItem → Bool
pub_le a b = key_le a.cost a.timestamp b.cost b.timestamp

-- `sorted_by_key(|item| (-item.cost, item.timestamp))`
abbrev pub sub_le : PriceItem → PriceItem → Bool
sub_le a b = key_le (neg_ℤ a.cost) a.timestamp (neg_ℤ b.cost) b.timestamp

-- The items of one direction that can be traded.
unfoldable pub active_pubs : List PriceItem → List PriceItem
active_pubs histogram = filter_by is_active (filter_by (λ item. is_pub item.direction) histogram)

unfoldable pub active_subs : List PriceItem → List PriceItem
active_subs histogram = filter_by is_active (filter_by (λ item. is_sub item.direction) histogram)

-- The variables of the loop.
pub record Book : Type 0 where
  pub pubs : List PriceItem
  pub subs : List PriceItem
  pub transactions : List TransactionTemplate

-- `withdraw`: an item that is used up makes room for the next.
unfoldable pub withdraw : List PriceItem → ℤ → List PriceItem
withdraw [] count = []
withdraw (item ∷ queue) count =
    if eqb_ℤ item.count count
    then queue
    else record item { count = sub_i64 item.count count } ∷ queue

-- `(*pub_count).min(*sub_count).max(1)`
abbrev pub traded_count : PriceItem → PriceItem → ℤ
traded_count p s = max_ℤ (min_ℤ p.count s.count) (pos 1)

-- The template that a round pushes.
abbrev pub template : ℕ → PriceItem → PriceItem → TransactionTemplate
template prod_id p s = record {
  prod = prod_id;
  pub_id = p.id;
  sub_id = s.id;
  cost = s.cost;
  count = traded_count p s;
}

-- A round of the `while let` on the two heads; `none` is its end, by the pattern or by `break`.
unfoldable pub round_on :
    ℕ → List PriceItem → List PriceItem → List TransactionTemplate → Option Book
round_on prod_id [] subs txs = none
round_on prod_id (p ∷ ps) [] txs = none
round_on prod_id (p ∷ ps) (s ∷ ss) txs =
    if ltb_ℤ s.cost p.cost
    then none
    else some (record {
      pubs = withdraw (p ∷ ps) (traded_count p s);
      subs = withdraw (s ∷ ss) (traded_count p s);
      transactions = txs ++ template prod_id p s ∷ [];
    })

unfoldable pub round : ℕ → Book → Option Book
round prod_id b = round_on prod_id b.pubs b.subs b.transactions

-- The loop; `none` is no value of the code, and `Ends` rules it out.
unfoldable pub match_items : ℕ → ℕ → Book → Option Book
match_items prod_id zero b = elim (round prod_id b) [ none ↦ some b | some b' ↦ none ]
match_items prod_id (suc fuel) b = elim (round prod_id b) [
  | none ↦ some b
  | some b' ↦ match_items prod_id fuel b'
]

unfoldable pub open_book : List PriceItem → Book
open_book histogram = record {
  pubs = sort pub_le (active_pubs histogram);
  subs = sort sub_le (active_subs histogram);
  transactions = [];
}

-- The book in which the loop ends, and the fuel: each round uses up an item.
unfoldable pub last_book : ℕ → List PriceItem → Option Book
last_book prod_id histogram =
    let b = open_book histogram in match_items prod_id (length b.pubs + length b.subs) b

-- `MarketSolver::solve`
unfoldable pub solve : ℕ → List PriceItem → Option (List TransactionTemplate)
solve prod_id histogram = elim (last_book prod_id histogram) [
  | none ↦ none
  | some b ↦ some b.transactions
]
