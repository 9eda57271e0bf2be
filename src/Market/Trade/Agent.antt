-- ===== src/Market/Trade/Agent.antt =====
-- A row of trades, as `MarketAgent::try_loop_forever` of crates/kubegraph/market/solver/src/agent.rs
-- makes them of the solver's templates: the first error ends it.
pub mod Stock
pub mod Served
pub mod Rows
pub mod Solved
use open_ark.Prelude.{ℕ, suc, Option, List, [], ◌∷◌, Result, ok, err}
use open_ark.Market.{TransactionTemplate}
use open_ark.Market.Database.{Db}
use open_ark.Market.Trade.{Faults, Calls, TransactionError, transaction_failed, trade}

-- What a trade meets: the database's faults, the outcome of the functions, the time, the drawn id.
pub record Env : Type 0 where
  pub faults : Faults
  pub calls : Calls
  pub now : ℕ
  pub txn_id : ℕ

-- What a row of trades comes to where the first one is refused.
abbrev pub refused : List TransactionTemplate → Result TransactionError ℕ
refused [] = ok 0
refused (t ∷ templates) = err transaction_failed

-- The loop over `templates` from the `n`th trade on; it counts the trades made.
unfoldable pub trade_all :
    {V F : Type 0}
    → (V → Option F)
    → (ℕ → Env)
    → ℕ
    → List TransactionTemplate
    → Db V
    → Result TransactionError ℕ × Db V
trade_all decode env n [] db = (ok n, db)
trade_all decode env n (t ∷ templates) db =
    let (result, db') = trade decode (env n).faults (env n).calls (env n).now (env n).txn_id t db in
    let rest = trade_all decode env (suc n) templates db' in
    elim result [ err e ↦ (err e, db') | ok receipt ↦ rest ]
