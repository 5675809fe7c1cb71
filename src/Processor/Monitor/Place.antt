-- ===== src/Processor/Monitor/Place.antt =====
-- `Processor::do_place_orders` (program/src/processor.rs): sends the planned orders to the market.
use raydium_amm_fair.Common.{
  ℕ, zero, suc, ◌+◌, ◌-◌, ◌%◌, Bool, true, false, List, map, ◌&&◌, ◌||◌, ltb, leb, ◌==◌, ◌!=◌,
  if◌then◌else◌,
}
use raydium_amm_fair.Error.{checked_empty_funds}
use raydium_amm_fair.Outcome.{Outcome, ok, unwrap, fail_if, read_at, write_at, ◌>>=◌, ◌>>◌}
use raydium_amm_fair.Word.{checked_add, checked_sub, checked_mul}
use raydium_amm_fair.State.Status.{
  state_into_u64, idle_state, cancel_all_orders_state, purge_order_state,
}
use raydium_amm_fair.State.Accounts.{AmmInfo, TargetOrders}
use raydium_amm_fair.Chain.{Bank, Runtime, unpack_token_account}
use raydium_amm_fair.Dex.Types.{Market, OpenOrders, LeafNode, bid, ask}
use raydium_amm_fair.Dex.Orders.{count_zeros}
use raydium_amm_fair.Math.Decimal.{
  normalize_decimal_v2, convert_price_out, convert_vol_out, convert_out_pc_lot_size,
}
use raydium_amm_fair.Processor.Monitor.Accounts.{MonitorAccounts}
use raydium_amm_fair.Processor.Monitor.Plan.{end_of_rounds}
use raydium_amm_fair.Processor.Monitor.Orders.{choose_id, retain_new, send_order}

-- The variables of the loop. `stopped` is set where the source returns from inside it.
pub record Placing : Type 0 where
  pub amm : AmmInfo
  pub target : TargetOrders
  pub bids_client_ids : List ℕ
  pub asks_client_ids : List ℕ
  pub pc_available : ℕ
  pub coin_available : ℕ
  pub bank : Bank
  pub stopped : Bool

-- The vault cannot pay the next order: all orders have to go.
unfoldable pub short_of_funds : Placing → Placing
short_of_funds p = record p {
  amm = record p.amm { state = state_into_u64 cancel_all_orders_state };
  stopped = true;
}

unfoldable pub send_bid : Market → MonitorAccounts → ℕ → ℕ → ℕ → Placing → Outcome Placing
send_bid mk a limit_price max_coin_qty max_pc_qty p = do
  chosen ← choose_id p.amm p.bids_client_ids p.target.valid_buy_order_num
  ids ← write_at p.target.replace_buy_client_id p.target.valid_buy_order_num chosen.id
  bank ← send_order mk a a.amm_pc_vault.key bid limit_price max_coin_qty max_pc_qty chosen p.bank
  num ← unwrap (checked_add 64 p.target.valid_buy_order_num 1)
  ok (record p {
    amm = chosen.amm;
    target = record p.target { replace_buy_client_id = ids; valid_buy_order_num = num };
    bids_client_ids = chosen.rest;
    bank = bank;
  })

unfoldable pub place_bid : Market → MonitorAccounts → ℕ → Placing → Outcome Placing
unfolding short_of_funds
place_bid mk a i p = do
  order ← read_at p.target.buy_orders i
  limit_price ← convert_price_out order.price p.amm.pc_lot_size
  max_coin_qty ←
      convert_vol_out order.vol p.amm.coin_decimals p.amm.coin_lot_size p.amm.sys_decimal_value
  out_pc_lot_size ←
      convert_out_pc_lot_size (p.amm.pc_decimals % 256) (p.amm.coin_decimals % 256)
        p.amm.pc_lot_size p.amm.coin_lot_size p.amm.sys_decimal_value
  product ← unwrap (checked_mul 64 max_coin_qty limit_price)
  max_pc_qty ← unwrap (checked_mul 64 product out_pc_lot_size)
  if ltb p.pc_available max_pc_qty
      then ok (short_of_funds p)
      else (if limit_price != 0 && max_coin_qty != 0
          then send_bid mk a limit_price max_coin_qty max_pc_qty p
          else ok p)

unfoldable pub send_ask : Market → MonitorAccounts → ℕ → ℕ → Placing → Outcome Placing
send_ask mk a limit_price max_coin_qty p = do
  chosen ← choose_id p.amm p.asks_client_ids p.target.valid_sell_order_num
  ids ← write_at p.target.replace_sell_client_id p.target.valid_sell_order_num chosen.id
  bank ← send_order mk a a.amm_coin_vault.key ask limit_price max_coin_qty 1 chosen p.bank
  num ← unwrap (checked_add 64 p.target.valid_sell_order_num 1)
  ok (record p {
    amm = chosen.amm;
    target = record p.target { replace_sell_client_id = ids; valid_sell_order_num = num };
    asks_client_ids = chosen.rest;
    bank = bank;
  })

unfoldable pub place_ask : Market → MonitorAccounts → ℕ → Placing → Outcome Placing
unfolding short_of_funds
place_ask mk a i p = do
  order ← read_at p.target.sell_orders i
  limit_price ← convert_price_out order.price p.amm.pc_lot_size
  max_coin_qty ←
      convert_vol_out order.vol p.amm.coin_decimals p.amm.coin_lot_size p.amm.sys_decimal_value
  coin_qty ← unwrap (checked_mul 64 max_coin_qty p.amm.coin_lot_size)
  if ltb p.coin_available coin_qty
      then ok (short_of_funds p)
      else (if limit_price != 0 && max_coin_qty != 0
          then send_ask mk a limit_price max_coin_qty p
          else ok p)

-- What a vault and the free funds of the open orders hold less the profit that is owed.
unfoldable pub available : ℕ → ℕ → ℕ → Outcome ℕ
available amount free owed = do
  sum ← unwrap (checked_add 64 amount free)
  unwrap (checked_sub sum owed)

-- The funds behind a round. The source reads the vault of pc for both tokens.
unfoldable pub reload_funds : Runtime → Market → MonitorAccounts → Placing → Outcome Placing
unfolding available
reload_funds rt mk a p = do
  open_orders ←
      mk.load_open_orders a.amm_open_orders.key a.market.key a.amm_authority.key
        p.amm.market_program p.bank
  pc_vault ← unpack_token_account rt a.amm_pc_vault.key p.bank
  coin_vault ← unpack_token_account rt a.amm_pc_vault.key p.bank
  pc_available ←
      available pc_vault.amount open_orders.native_pc_free p.amm.state_data.need_take_pnl_pc
  coin_available ←
      available coin_vault.amount open_orders.native_coin_free p.amm.state_data.need_take_pnl_coin
  ok (record p { pc_available = pc_available; coin_available = coin_available })

unfoldable pub end_round : Runtime → Market → MonitorAccounts → Placing → Outcome Placing
end_round rt mk a p = do
  cur ← unwrap (checked_add 64 p.target.place_orders_cur 1)
  reload_funds rt mk a (record p { target = record p.target { place_orders_cur = cur } })

-- One round: a bid and an ask.
unfoldable pub place_round : Runtime → Market → MonitorAccounts → ℕ → Placing → Outcome Placing
place_round rt mk a i p = do
  p1 ← place_bid mk a i p
  if p1.stopped
      then ok p1
      else (do p2 ← place_ask mk a i p1; if p2.stopped then ok p2 else end_round rt mk a p2)

unfoldable pub place_rounds : Runtime → Market → MonitorAccounts → ℕ → ℕ → Placing → Outcome Placing
place_rounds rt mk a zero i p = ok p
place_rounds rt mk a (suc left) i p = do
  p' ← place_round rt mk a i p
  let rest = place_rounds rt mk a left (i + 1) p'
  if p'.stopped then ok p' else rest

-- Behind the loop.
unfoldable pub end_of_placing : ℕ → ℕ → AmmInfo → TargetOrders → AmmInfo × TargetOrders
end_of_placing x y amm target =
    let target' =
      if target.place_orders_cur == amm.order_num
      then record target { placed_x = x; placed_y = y }
      else target in
    if leb amm.order_num target'.place_orders_cur
    then (record amm { state = state_into_u64 purge_order_state }, target')
    else (amm, target')

-- The record of the pool, the target orders and the bank behind the calls.
pub record MonitorResult : Type 0 where
  pub amm : AmmInfo
  pub target : TargetOrders
  pub bank : Bank

unfoldable pub place_from :
    Runtime
    → Market
    → MonitorAccounts
    → AmmInfo
    → TargetOrders
    → OpenOrders
    → List LeafNode
    → List LeafNode
    → ℕ
    → ℕ
    → ℕ
    → ℕ
    → ℕ
    → Bank
    → Outcome MonitorResult
unfolding available
place_from rt mk a amm target open_orders bids asks x y coin_amount pc_amount limit bank = do
  let cur = target.place_orders_cur
  place_orders_num ← end_of_rounds cur limit amm.order_num
  pc_available ← available pc_amount open_orders.native_pc_free amm.state_data.need_take_pnl_pc
  coin_available ←
      available coin_amount open_orders.native_coin_free amm.state_data.need_take_pnl_coin
  p ← place_rounds rt mk a (place_orders_num - cur) cur (record {
    amm = amm;
    target = target;
    bids_client_ids = retain_new target.replace_buy_client_id (map (λ o. o.client_order_id) bids);
    asks_client_ids = retain_new target.replace_sell_client_id (map (λ o. o.client_order_id) asks);
    pc_available = pc_available;
    coin_available = coin_available;
    bank = bank;
    stopped = false;
  })
  let (amm', target') = if p.stopped then (p.amm, p.target) else end_of_placing x y p.amm p.target
  ok (record { amm = amm'; target = target'; bank = p.bank })

unfoldable pub do_place_orders :
    Runtime
    → Market
    → MonitorAccounts
    → AmmInfo
    → TargetOrders
    → OpenOrders
    → List LeafNode
    → List LeafNode
    → ℕ
    → ℕ
    → ℕ
    → ℕ
    → ℕ
    → Bank
    → Outcome MonitorResult
do_place_orders rt mk a amm target open_orders bids asks total_pc total_coin coin_amount pc_amount
      limit bank =
    if ltb 100 (count_zeros open_orders.free_slot_bits)
    then ok (record {
      amm = record amm { state = state_into_u64 cancel_all_orders_state };
      target = target;
      bank = bank;
    })
    else (do
      x ← normalize_decimal_v2 total_pc amm.pc_decimals amm.sys_decimal_value
      y ← normalize_decimal_v2 total_coin amm.coin_decimals amm.sys_decimal_value
      fail_if (x == 0 || y == 0) checked_empty_funds
      if x != target.target_x || y != target.target_y
          then ok (record {
            amm = record amm { state = state_into_u64 idle_state };
            target = target;
            bank = bank;
          })
          else place_from rt mk a amm target open_orders bids asks x y coin_amount pc_amount limit
              bank)
