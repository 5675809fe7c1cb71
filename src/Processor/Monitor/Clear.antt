-- ===== src/Processor/Monitor/Clear.antt =====
-- `Processor::do_purge_orders` and `do_cancel_all_orders_state` (program/src/processor.rs): the two
-- states that take orders off the book.
use raydium_amm_fair.Common.{
  ℕ, zero, suc, Bool, none, some, List, [], ◌∷◌, ◌++◌, map, ◌&&◌, ◌||◌, ltb, leb, ◌==◌, ◌!=◌,
  if◌then◌else◌, length, is_empty,
}
use raydium_amm_fair.Outcome.{Outcome, ok, ◌>>=◌}
use raydium_amm_fair.State.Status.{
  state_into_u64, idle_state, reset_flag_into_u64, reset_yes, reset_no,
}
use raydium_amm_fair.State.Accounts.{AmmInfo, TargetOrders}
use raydium_amm_fair.Chain.{Bank}
use raydium_amm_fair.Dex.Types.{Market, LeafNode, CancelAccounts, SettleAccounts}
use raydium_amm_fair.Dex.Orders.{count_zeros}
use raydium_amm_fair.Dex.Batches.{batches_of}
use raydium_amm_fair.Processor.Market.{cancel_batches}
use raydium_amm_fair.Processor.Cancel.{OwnOrders, cancel_both}
use raydium_amm_fair.Processor.Monitor.Accounts.{MonitorAccounts}
use raydium_amm_fair.Processor.Monitor.Place.{MonitorResult}

unfoldable pub monitor_cancel_accounts : MonitorAccounts → CancelAccounts
monitor_cancel_accounts a = record {
  market_program = a.market_program.key;
  market = a.market.key;
  bids = a.market_bids.key;
  asks = a.market_asks.key;
  open_orders = a.amm_open_orders.key;
  authority = a.amm_authority.key;
  event_queue = a.market_event_queue.key;
}

unfoldable pub monitor_settle_accounts : MonitorAccounts → SettleAccounts
monitor_settle_accounts a = record {
  market_program = a.market_program.key;
  market = a.market.key;
  open_orders = a.amm_open_orders.key;
  authority = a.amm_authority.key;
  market_coin_vault = a.market_coin_vault.key;
  market_pc_vault = a.market_pc_vault.key;
  coin_vault = a.amm_coin_vault.key;
  pc_vault = a.amm_pc_vault.key;
  market_vault_signer = a.market_vault_signer.key;
  token_program = a.token_program.key;
  referrer_pc = elim a.referrer_pc [ none ↦ none | some account ↦ some account.key ];
}

-- `orders[n..]`
abbrev pub from_index {ℓ} : {A : Type ℓ} → ℕ → List A → List A
from_index zero orders = orders
from_index (suc n) [] = []
from_index (suc n) (order ∷ orders) = from_index n orders

-- The orders beyond the valid ones, bids first.
unfoldable pub purge_ids : TargetOrders → List LeafNode → List LeafNode → List ℕ
purge_ids target bids asks =
    map (λ o. o.client_order_id) (from_index target.valid_buy_order_num bids)
    ++ map (λ o. o.client_order_id) (from_index target.valid_sell_order_num asks)

unfoldable pub do_purge_orders :
    Market
    → MonitorAccounts
    → AmmInfo
    → TargetOrders
    → List LeafNode
    → List LeafNode
    → Bank
    → Outcome MonitorResult
unfolding monitor_cancel_accounts
do_purge_orders mk a amm target bids asks bank =
    if leb (length bids) target.valid_buy_order_num && leb (length asks) target.valid_sell_order_num
    then ok (record {
      amm = record amm { state = state_into_u64 idle_state };
      target = target;
      bank = bank;
    })
    else (do
      batches ← batches_of (purge_ids target bids asks)
      bank' ← cancel_batches mk (monitor_cancel_accounts a) batches bank
      ok (record { amm = amm; target = target; bank = bank' }))

-- Whether more than a hundred slots of the open orders are taken although the book has no order.
unfoldable pub waits_for_market : OwnOrders → Bool
waits_for_market own =
    ltb 100 (count_zeros own.open_orders.free_slot_bits) && is_empty own.bids && is_empty own.asks

-- `reset_flag` is put back, the state is idle, and planning starts anew.
unfoldable pub all_cancelled : AmmInfo → TargetOrders → Bank → MonitorResult
all_cancelled amm target bank = record {
  amm = record amm {
    reset_flag =
        if amm.reset_flag == reset_flag_into_u64 reset_yes
        then reset_flag_into_u64 reset_no
        else amm.reset_flag;
    state = state_into_u64 idle_state;
  };
  target = record target { plan_orders_cur = 0; place_orders_cur = 0 };
  bank = bank;
}

unfoldable pub do_cancel_all_orders_state :
    Market → MonitorAccounts → AmmInfo → TargetOrders → OwnOrders → Bank → Outcome MonitorResult
unfolding monitor_cancel_accounts monitor_settle_accounts
do_cancel_all_orders_state mk a amm target own bank =
    if waits_for_market own then ok (record { amm = amm; target = target; bank = bank }) else (do
      cancelled ← cancel_both mk (monitor_cancel_accounts a) own.bids own.asks bank
      settled ←
          if own.open_orders.native_coin_total != 0 || own.open_orders.native_pc_total != 0
          then mk.settle_funds (monitor_settle_accounts a) cancelled
          else ok cancelled
      ok (all_cancelled amm target settled))
