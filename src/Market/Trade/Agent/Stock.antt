-- ===== src/Market/Trade/Agent/Stock.antt =====
-- What a row of trades takes from the rows of the prices.
use mathlib.Core.Option.{some-injective}
use open_ark.Prelude.{
  ℕ, suc, ◌≤◌, ◌<◌, is_some, ◌≡◌, ◌≢◌, ◌∙◌, sym, ap, subst, Bool, true, false, inl, inr, none, some,
  List, [], ◌∷◌, All, if_rule, if◌then◌else◌, eqb, Bool-cases, arith,
}
use open_ark.Prelude.Int.{ℤ, pos, ◌+ℤ◌, ◌-ℤ◌, ◌≤ℤ◌, IsI64, sub_i64, sub_i64-le, +ℤ_parts, int_laws}
use open_ark.Market.{TransactionTemplate}
use open_ark.Market.Database.{Price, Db, find_price, get_transaction}
use open_ark.Market.Database.Laws.{get_transaction-append_other}
use open_ark.Sort.{total}
use open_ark.Market.Solver.Account.{sold, bought}
use open_ark.Market.Trade.{join_calls}
use open_ark.Market.Trade.Effect.{Settled, take_side-find, settled_counts}
use open_ark.Market.Trade.Updates.{find_price-set_count_listed}
use open_ark.Market.Trade.Allowed.{no_faults}
use open_ark.Market.Trade.Agent.{Env}

-- What a trade takes from the row of an id.
abbrev pub drain : ℕ → TransactionTemplate → ℤ
drain id t = sold id t +ℤ bought id t

-- The ids that are drawn from the `n`th trade on are new, and no id is drawn twice.
abbrev pub IsFresh : {V : Type 0} → (ℕ → Env) → ℕ → Db V → Type 0
IsFresh env n db =
    ((m : ℕ) → n ≤ m → get_transaction (env m).txn_id db.transactions ≡ none)
    × ((m k : ℕ) → m < k → (env m).txn_id ≢ (env k).txn_id)

-- No statement and no function fails.
abbrev pub IsQuiet : (ℕ → Env) → Type 0
IsQuiet env = (n : ℕ) → ((env n).faults ≡ no_faults) × (join_calls (env n).calls ≡ none)

module _ {V : Type 0} where
  -- The row that gives `c` in the trade gives `c` exactly, if it holds as much.
  row_taken :
      (at id : ℕ) (rows rows' : List (Price V)) (x r : Price V) (c d : ℤ)
      → at ≡ id
      → find_price at rows ≡ some x
      → find_price id rows ≡ some r
      → find_price at rows' ≡ some (record x { count = sub_i64 x.count c })
      → IsI64 r.count
      → pos 0 ≤ℤ c
      → c ≤ℤ r.count
      → d ≡ c
      → find_price id rows' ≡ some (record r { count = r.count -ℤ d })
  row_taken at id rows rows' x r c d same hx hr found range lo hi exact =
      let one : x ≡ r = some-injective _ _ (sym hx ∙ rw same hr) in
      let there =
        subst (λ (y : Price V). find_price at rows' ≡ some (record y { count = sub_i64 y.count c }))
          one found in
      let value : sub_i64 r.count c ≡ r.count -ℤ d = rw exact (sub_i64-le r.count c range lo hi) in
      subst (λ (k : ℕ). find_price k rows' ≡ some (record r { count = r.count -ℤ d })) same
        (there ∙ ap (λ z. some (record r { count = z })) value)

  pub Settled-row :
      {now txn_id : ℕ} {t : TransactionTemplate} {db db' : Db V}
      → Settled now txn_id t db db'
      → t.pub_id ≢ t.sub_id
      → (id : ℕ) (r : Price V) → find_price id db.prices ≡ some r
      → IsI64 r.count
      → drain id t ≤ℤ r.count
      → find_price id db'.prices ≡ some (record r { count = r.count -ℤ drain id t })
  Settled-row {t = t} {db = db} {db' = db'} done differ id r h range le =
      let (at_pub, at_sub, at_other) = settled_counts done differ in
      elim (Bool-cases (eqb t.pub_id id)) [
        | inl e ↦
            let same : t.pub_id ≡ id = ground arith in
            let not_sub : eqb t.sub_id id ≡ false = ground arith in
            let exact : drain id t ≡ t.count = rw (e, not_sub) (omega int_laws) in
            row_taken t.pub_id id db.prices db'.prices done.p r t.count _ same
              (take_side-find _ _ _ done.pub_taken).0 h at_pub range (omega (arith, done.count_pos))
              (subst (λ d. d ≤ℤ r.count) exact le) exact
        | inr e ↦ elim (Bool-cases (eqb t.sub_id id)) [
          | inl e' ↦
              let same : t.sub_id ≡ id = ground arith in
              let exact : drain id t ≡ t.count = rw (e, e') (omega int_laws) in
              row_taken t.sub_id id db.prices db'.prices done.s r t.count _ same
                (take_side-find _ _ _ done.sub_taken).0 h at_sub range
                (omega (arith, done.count_pos)) (subst (λ d. d ≤ℤ r.count) exact le) exact
          | inr e' ↦
              let not_pub : id ≢ t.pub_id = λ k. ground arith in
              let not_sub : id ≢ t.sub_id = λ k. ground arith in
              let exact : r.count ≡ r.count -ℤ drain id t = rw (e, e') (omega int_laws) in
              at_other id not_pub not_sub ∙ h ∙ ap (λ z. some (record r { count = z })) exact
        ]
      ]

-- A trade takes no row away, and the later ids stay new.
pub Settled-listed :
    {V : Type 0} {now txn_id : ℕ} {t : TransactionTemplate} {db db' : Db V}
    → Settled now txn_id t db db'
    → (id : ℕ) → is_some (find_price id db.prices) ≡ true
    → is_some (find_price id db'.prices) ≡ true
Settled-listed {t = t} {db = db} done id h = rw (done.prices) (
    find_price-set_count_listed done.s.id id _ _
    ∙ find_price-set_count_listed done.p.id id _ db.prices
    ∙ h)

pub Settled-IsFresh :
    {V : Type 0} {t : TransactionTemplate} {db db' : Db V} (env : ℕ → Env) (n : ℕ)
    → Settled (env n).now (env n).txn_id t db db'
    → IsFresh env n db
    → IsFresh env (suc n) db'
Settled-IsFresh {db = db} env n done (fresh, differ) = (
  λ m after. rw (done.transactions) (
      get_transaction-append_other (env m).txn_id db.transactions _ (differ n m after)
        (fresh m (omega arith))),
  differ,
)

share_nonneg : (b : Bool) (c : ℤ) → pos 1 ≤ℤ c → pos 0 ≤ℤ (if b then c else pos 0)
share_nonneg b c h = if_rule (λ z. pos 0 ≤ℤ z) b (λ _. omega arith) (λ _. omega arith)

pub drain_nonneg : (id : ℕ) (t : TransactionTemplate) → pos 1 ≤ℤ t.count → pos 0 ≤ℤ drain id t
drain_nonneg id t h = omega (
  arith,
  +ℤ_parts (sold id t) (bought id t),
  share_nonneg (eqb t.pub_id id) t.count h,
  share_nonneg (eqb t.sub_id id) t.count h,
)

own_share : (k : ℕ) (c : ℤ) → (if eqb k k then c else pos 0) ≡ c
own_share k c = ground arith

-- A trade takes its count from either row.
pub drain_own :
    (t : TransactionTemplate)
    → pos 1 ≤ℤ t.count
    → (t.count ≤ℤ drain t.pub_id t) × (t.count ≤ℤ drain t.sub_id t)
drain_own t h = (
  rw (own_share t.pub_id t.count) (
      omega (
        arith,
        +ℤ_parts t.count (bought t.pub_id t),
        share_nonneg (eqb t.sub_id t.pub_id) t.count h,
      )),
  rw (own_share t.sub_id t.count) (
      omega (
        arith,
        +ℤ_parts (sold t.sub_id t) t.count,
        share_nonneg (eqb t.pub_id t.sub_id) t.count h,
      )),
)

pub drains_nonneg :
    (id : ℕ) (txs : List TransactionTemplate)
    → All (λ t. pos 1 ≤ℤ t.count) txs
    → pos 0 ≤ℤ total (drain id) txs
drains_nonneg id [] h = omega arith
drains_nonneg id (t ∷ txs) h = omega (
  arith,
  +ℤ_parts (drain id t) (total (drain id) txs),
  drain_nonneg id t h.0,
  drains_nonneg id txs h.1,
)
