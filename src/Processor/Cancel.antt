-- ===== src/Processor/Cancel.antt =====
-- The pool's orders on the market and their cancellation (`Processor::do_cancel_amm_orders` and the
-- calls that other handlers make alike, program/src/processor.rs).
use raydium_amm_fair.Common.{Bool, false, List, map}
use raydium_amm_fair.Outcome.{Outcome, ok, ◌>>=◌}
use raydium_amm_fair.State.Accounts.{AmmInfo}
use raydium_amm_fair.Chain.{Bank}
use raydium_amm_fair.Dex.Types.{Market, MarketState, OpenOrders, LeafNode, CancelAccounts}
use raydium_amm_fair.Dex.Orders.{get_amm_orders}
use raydium_amm_fair.Dex.Batches.{batches_of_both}
use raydium_amm_fair.Processor.Market.{load_serum_market_order, cancel_batches}

-- The open orders of the pool, with its bids and its asks on the book. Where the pool only cancels,
-- the market may be one that is disabled.
pub record OwnOrders : Type 0 where
  pub market_state : MarketState
  pub open_orders : OpenOrders
  pub bids : List LeafNode
  pub asks : List LeafNode

unfoldable pub load_own_orders : Market → Bool → CancelAccounts → AmmInfo → Bank → Outcome OwnOrders
load_own_orders mk allow_disabled a amm bank = do
  (market_state, open_orders) ←
      load_serum_market_order mk allow_disabled a.market a.open_orders a.authority amm bank
  bids_orders ← mk.load_bids market_state a.bids bank
  asks_orders ← mk.load_asks market_state a.asks bank
  (bids, asks) ← get_amm_orders open_orders bids_orders asks_orders
  ok (record { market_state = market_state; open_orders = open_orders; bids = bids; asks = asks })

-- All orders, in calls of eight.
unfoldable pub cancel_both :
    Market → CancelAccounts → List LeafNode → List LeafNode → Bank → Outcome Bank
cancel_both mk a bids asks bank = do
  batches ← batches_of_both (map (λ o. o.client_order_id) bids) (map (λ o. o.client_order_id) asks)
  cancel_batches mk a batches bank

unfoldable pub do_cancel_amm_orders : Market → CancelAccounts → AmmInfo → Bank → Outcome Bank
do_cancel_amm_orders mk a amm bank = do
  own ← load_own_orders mk false a amm bank
  cancel_both mk a own.bids own.asks bank
