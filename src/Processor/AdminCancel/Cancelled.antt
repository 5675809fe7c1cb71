-- ===== src/Processor/AdminCancel/Cancelled.antt =====
-- Who may have the orders cancelled by `process_admin_cancel_orders`, and what the market is called for
-- (program/src/processor.rs).
use mathlib.Core.List.{flatten}
use raydium_amm_fair.Dex.Batches.Both.{interleave, batches_of_both-partition}
use raydium_amm_fair.Dex.Batches.Filled.{IsFull}
use raydium_amm_fair.Common.{
  false, ℕ, ◌≡◌, ◌⊎◌, true, List, [], ◌∷◌, map, ◌+◌, ◌<◌, ◌++◌, replicate,
}
use raydium_amm_fair.Outcome.{ok, after_bind, ok-inj}
use raydium_amm_fair.Config.{amm_owner_id}
use raydium_amm_fair.State.Accounts.{AmmInfo, AmmConfig}
use raydium_amm_fair.Chain.{AccountData, Bank, Runtime}
use raydium_amm_fair.Dex.Types.{Market, CancelAccounts, MarketState, OpenOrders}
use raydium_amm_fair.Processor.Market.{load_serum_market_order, cancel_batches}
use raydium_amm_fair.Processor.Cancel.{
  load_own_orders, cancel_both, do_cancel_amm_orders, OwnOrders,
}
use raydium_amm_fair.Processor.AdminCancel.{AdminAccounts, admin_settle_accounts}

-- One call of the market after the other, a batch of identifiers each.
pub data Cancels (mk : Market) (a : CancelAccounts) : List (List ℕ) → Bank → Bank → Type 0 where
  nothing : (bank : Bank) → Cancels mk a [] bank bank
  call :
      (ids : List ℕ) (rest : List (List ℕ)) (bank mid bank' : Bank)
      → mk.cancel_orders a ids bank ≡ ok mid
      → Cancels mk a rest mid bank'
      → Cancels mk a (ids ∷ rest) bank bank'

cancel_batches-Cancels :
    (mk : Market) (a : CancelAccounts) (batches : List (List ℕ)) (bank : Bank) {bank' : Bank}
    → cancel_batches mk a batches bank ≡ ok bank'
    → Cancels mk a batches bank bank'
unfolding cancel_batches
cancel_batches-Cancels mk a [] bank h = rw (← ok-inj h) (Cancels.nothing bank)
cancel_batches-Cancels mk a (ids ∷ rest) bank {bank'} h =
    after_bind (mk.cancel_orders a ids bank) h
      λ mid e h1. Cancels.call ids rest bank mid bank' e (cancel_batches-Cancels mk a rest mid h1)

-- All orders that the pool has on the market are named in the calls, the bids and the asks in turns.
pub record IsAllCancelled (mk : Market) (a : CancelAccounts) (amm : AmmInfo) (bank cancelled : Bank)
    : Type 0 where
  pub own : OwnOrders
  pub loaded : load_own_orders mk false a amm bank ≡ ok own
  pub batches : List (List ℕ)
  pub full : IsFull batches
  pub zeros : ℕ
  pub few : zeros < 8
  pub all :
      flatten batches
      ≡ interleave (map (λ o. o.client_order_id) own.bids) (map (λ o. o.client_order_id) own.asks)
        ++ replicate zeros 0
  pub calls : Cancels mk a batches bank cancelled

pub do_cancel_amm_orders-IsAllCancelled :
    (mk : Market) (a : CancelAccounts) (amm : AmmInfo) (bank : Bank) {cancelled : Bank}
    → do_cancel_amm_orders mk a amm bank ≡ ok cancelled
    → IsAllCancelled mk a amm bank cancelled
unfolding do_cancel_amm_orders cancel_both
do_cancel_amm_orders-IsAllCancelled mk a amm bank h =
    after_bind (load_own_orders mk false a amm bank) h λ own e h1.
      let bids = map (λ o. o.client_order_id) own.bids in
      let asks = map (λ o. o.client_order_id) own.asks in
      let (batches, cut, full, n, few, all) = batches_of_both-partition bids asks in
      record {
        own = own;
        loaded = e;
        batches = batches;
        full = full;
        zeros = n;
        few = few;
        all = all;
        calls = cancel_batches-Cancels mk a batches bank (rw cut at h1);
      }

-- The signature of the program's owner, or of the owner of cancellation that the program's own
-- configuration names.
pub record IsSignedForCancel (rt : Runtime) (a : AdminAccounts) (bank : Bank) : Type 0 where
  pub signed : a.amm_owner.is_signer ≡ true
  pub config_key : a.amm_config.key ≡ rt.config_address
  pub signer :
      (a.amm_owner.key ≡ amm_owner_id)
      ⊎ ((config : AmmConfig) × ((bank a.amm_config.key).content ≡ AccountData.config_data config)
          × (a.amm_owner.key ≡ config.cancel_owner))

-- Where the open orders have nothing that is free the bank stays, and funds are settled otherwise.
pub record IsSettled (mk : Market) (a : AdminAccounts) (amm : AmmInfo) (cancelled bank' : Bank)
    : Type 0 where
  pub market_state : MarketState
  pub open_orders : OpenOrders
  pub loaded :
      load_serum_market_order mk true a.market.key a.amm_open_orders.key a.amm_authority.key amm
        cancelled
      ≡ ok (market_state, open_orders)
  pub settled :
      ((open_orders.native_coin_free ≡ 0) × (open_orders.native_pc_free ≡ 0) × (bank' ≡ cancelled))
      ⊎ ((0 < open_orders.native_coin_free + open_orders.native_pc_free)
          × (mk.settle_funds (admin_settle_accounts a) cancelled ≡ ok bank'))
