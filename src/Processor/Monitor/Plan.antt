-- ===== src/Processor/Monitor/Plan.antt =====
-- `Processor::do_plan_orderbook` (program/src/processor.rs): the grid of prices and volumes.
use raydium_amm_fair.Common.{
  ℕ, zero, suc, ◌+◌, ◌-◌, Bool, ◌||◌, ltb, ◌==◌, ◌!=◌, if◌then◌else◌, replicate, not,
}
use raydium_amm_fair.Error.{checked_empty_funds}
use raydium_amm_fair.Outcome.{Outcome, ok, unwrap, fail_if, read_at, write_at, ◌>>=◌, ◌>>◌}
use raydium_amm_fair.Word.{checked_add, checked_sub, checked_mul, checked_div, as_width}
use raydium_amm_fair.State.Status.{state_into_u64, idle_state, place_orders_state}
use raydium_amm_fair.State.Accounts.{AmmInfo, TargetOrders}
use raydium_amm_fair.Math.Decimal.{normalize_decimal_v2}
use raydium_amm_fair.Math.Sizes.{get_max_buy_size_at_price, get_max_sell_size_at_price}
use raydium_amm_fair.Processor.Monitor.Prices.{
  Grid, grid_of, buy_price_of, sell_price_of, cut_vol, lots_of_vol, pc_of_qty,
}

-- All orders are planned: the next state places them.
unfoldable pub all_planned : AmmInfo → TargetOrders → AmmInfo × TargetOrders
all_planned amm target = (
  record amm { state = state_into_u64 place_orders_state },
  record target {
    place_orders_cur = 0;
    replace_buy_client_id = replicate 10 0;
    replace_sell_client_id = replicate 10 0;
    placed_x = 0;
    placed_y = 0;
  },
)

-- The first planning step saves the totals that the plan is for.
unfoldable pub start_plan : TargetOrders → ℕ → ℕ → TargetOrders
start_plan target x y =
    if target.plan_orders_cur == 0
    then record target {
      target_x = x;
      target_y = y;
      plan_x_buy = x;
      plan_y_buy = y;
      plan_x_sell = x;
      plan_y_sell = y;
      valid_buy_order_num = 0;
      valid_sell_order_num = 0;
    }
    else target

unfoldable pub plan_buy : AmmInfo → Grid → ℕ → ℕ → TargetOrders → Outcome TargetOrders
plan_buy amm g i distance target = do
  buy_price ← buy_price_of amm target g i distance
  buy_vol ←
      if buy_price != 0
      then (do
        max_buy_vol ← get_max_buy_size_at_price buy_price target.plan_x_buy target.plan_y_buy amm
        cut_vol amm max_buy_vol)
      else ok 0
  max_buy_qty ← lots_of_vol amm buy_vol
  spent ← pc_of_qty amm max_buy_qty buy_price
  plan_x_buy ← unwrap (checked_sub target.plan_x_buy spent)
  plan_y_buy ← unwrap (checked_add 128 target.plan_y_buy max_buy_qty)
  buy_orders ← write_at target.buy_orders i (record { price = buy_price; vol = max_buy_qty })
  ok (record target { plan_x_buy = plan_x_buy; plan_y_buy = plan_y_buy; buy_orders = buy_orders })

unfoldable pub plan_sell : AmmInfo → Grid → ℕ → ℕ → TargetOrders → Outcome TargetOrders
plan_sell amm g i distance target = do
  sell_price ← sell_price_of amm target g i distance
  max_sell_vol ← get_max_sell_size_at_price sell_price target.plan_x_sell target.plan_y_sell amm
  sell_vol ← cut_vol amm max_sell_vol
  max_sell_qty ← lots_of_vol amm sell_vol
  plan_y_sell ← unwrap (checked_sub target.plan_y_sell max_sell_qty)
  earned ← pc_of_qty amm max_sell_qty sell_price
  plan_x_sell ← unwrap (checked_add 128 target.plan_x_sell earned)
  sell_orders ← write_at target.sell_orders i (record { price = sell_price; vol = max_sell_qty })
  ok (record target {
    plan_x_sell = plan_x_sell;
    plan_y_sell = plan_y_sell;
    sell_orders = sell_orders;
  })

-- One round: a buy order and a sell order.
unfoldable pub plan_round : AmmInfo → Grid → ℕ → TargetOrders → Outcome TargetOrders
plan_round amm g i target = do
  entry ← read_at g.fb i
  distance ← unwrap (checked_mul 64 g.grid entry)
  bought ← plan_buy amm g i distance target
  sold ← plan_sell amm g i distance bought
  cur ← unwrap (checked_add 64 sold.plan_orders_cur 1)
  ok (record sold { plan_orders_cur = cur })

-- The rounds that are left, and the next one.
unfoldable pub plan_rounds : AmmInfo → Grid → ℕ → ℕ → TargetOrders → Outcome TargetOrders
plan_rounds amm g zero i target = ok target
plan_rounds amm g (suc left) i target = do
  target' ← plan_round amm g i target
  plan_rounds amm g left (i + 1) target'

-- The rounds of one call end at the number of orders.
unfoldable pub end_of_rounds : ℕ → ℕ → ℕ → Outcome ℕ
end_of_rounds cur limit order_num = do
  end' ← unwrap (checked_add 64 cur limit)
  ok (if ltb order_num end' then order_num else end')

unfoldable pub plan_grid : AmmInfo → TargetOrders → ℕ → ℕ → Outcome (AmmInfo × TargetOrders)
plan_grid amm target cur_price limit = do
  g ← grid_of amm cur_price
  plan_orders_num ← end_of_rounds target.plan_orders_cur limit amm.order_num
  let cur = target.plan_orders_cur
  target' ← plan_rounds amm g (plan_orders_num - cur) cur target
  ok (if amm.order_num == target'.plan_orders_cur then all_planned amm target' else (amm, target'))

-- The current price, and whether it is within its bounds.
unfoldable pub price_in_bounds : AmmInfo → ℕ → ℕ → Outcome (ℕ × Bool)
price_in_bounds amm x y = do
  scaled ← unwrap (checked_mul 128 x amm.sys_decimal_value)
  price ← unwrap (checked_div scaled y)
  cur_price ← as_width 64 price
  max_cur_price ← unwrap (checked_mul 128 amm.pc_lot_size amm.max_price_multiplier)
  min_cur_price ← unwrap (checked_mul 128 amm.pc_lot_size amm.min_price_multiplier)
  ok (cur_price, not (ltb cur_price min_cur_price || ltb max_cur_price cur_price))

unfoldable pub plan_orders : AmmInfo → TargetOrders → ℕ → ℕ → ℕ → Outcome (AmmInfo × TargetOrders)
plan_orders amm target limit total_pc total_coin = do
  x ← normalize_decimal_v2 total_pc amm.pc_decimals amm.sys_decimal_value
  y ← normalize_decimal_v2 total_coin amm.coin_decimals amm.sys_decimal_value
  let started = start_plan target x y
  fail_if (x == 0 || y == 0) checked_empty_funds
  if x != started.target_x || y != started.target_y
      then ok (record amm { state = state_into_u64 idle_state }, started)
      else (do
        (cur_price, within) ← price_in_bounds amm x y
        if within
            then plan_grid amm started cur_price limit
            else ok (record amm { state = state_into_u64 idle_state }, started))

unfoldable pub do_plan_orderbook :
    AmmInfo → TargetOrders → ℕ → ℕ → ℕ → Outcome (AmmInfo × TargetOrders)
do_plan_orderbook amm target limit total_pc total_coin =
    if amm.order_num == target.plan_orders_cur
    then ok (all_planned amm target)
    else plan_orders amm target limit total_pc total_coin
