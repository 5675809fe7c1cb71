-- ===== src/Processor/Market.antt =====
-- The calls of the order book that several handlers make (program/src/processor.rs).
use raydium_amm_fair.Common.{ℕ, Bool, List, [], ◌∷◌, ◌!=◌}
use raydium_amm_fair.Error.{invalid_market, invalid_owner, invalid_open_orders}
use raydium_amm_fair.Outcome.{Outcome, ok, err, panic, fail_if, ◌>>=◌, ◌>>◌}
use raydium_amm_fair.State.Accounts.{Pubkey, AmmInfo}
use raydium_amm_fair.Chain.{Bank}
use raydium_amm_fair.Dex.Types.{Market, MarketState, OpenOrders, CancelAccounts}

-- `r.unwrap()` on a `Result`.
abbrev pub unwrap_result {ℓ} : {A : Type ℓ} → Outcome A → Outcome A
unwrap_result (ok a) = ok a
unwrap_result (err _) = panic
unwrap_result panic = panic

unfoldable pub load_serum_market_order :
    Market → Bool → Pubkey → Pubkey → Pubkey → AmmInfo → Bank → Outcome (MarketState × OpenOrders)
load_serum_market_order mk allow_disabled market_acc open_orders_acc authority_acc amm bank = do
  market_state ← mk.load_market allow_disabled market_acc amm.market_program bank
  open_orders ← mk.load_open_orders open_orders_acc market_acc authority_acc amm.market_program bank
  fail_if (open_orders.market != market_acc) invalid_market
  fail_if (open_orders.owner != authority_acc) invalid_owner
  fail_if (open_orders_acc != amm.open_orders) invalid_open_orders
  ok (market_state, open_orders)

-- One cancel call for each batch of identifiers.
unfoldable pub cancel_batches : Market → CancelAccounts → List (List ℕ) → Bank → Outcome Bank
cancel_batches mk accounts [] bank = ok bank
cancel_batches mk accounts (ids ∷ rest) bank = do
  bank' ← mk.cancel_orders accounts ids bank
  cancel_batches mk accounts rest bank'
