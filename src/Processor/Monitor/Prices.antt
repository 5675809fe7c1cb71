-- ===== src/Processor/Monitor/Prices.antt =====
-- The prices and volumes of `Processor::do_plan_orderbook` (program/src/processor.rs).
use raydium_amm_fair.Common.{ℕ, ◌-◌, Bool, List, ◌&&◌, ltb, ◌==◌, ◌!=◌, if◌then◌else◌}
use raydium_amm_fair.Error.{conversion_failure}
use raydium_amm_fair.Outcome.{Outcome, ok, unwrap, ok_or, read_at, ◌>>=◌}
use raydium_amm_fair.Word.{fits, checked_add, checked_sub, checked_mul, checked_div, as_width}
use raydium_amm_fair.State.Accounts.{AmmInfo, TargetOrders}
use raydium_amm_fair.Math.CeilDiv.{checked_ceil_div}
use raydium_amm_fair.Math.Decimal.{normalize_decimal, floor_lot, ceil_lot}
use raydium_amm_fair.Math.Fibonacci.{fibonacci}

-- The prices that a round starts from.
pub record Grid : Type 0 where
  pub cur_price : ℕ
  pub max_bid : ℕ
  pub min_ask : ℕ
  pub grid : ℕ
  pub fb : List ℕ

unfoldable pub grid_of : AmmInfo → ℕ → Outcome Grid
grid_of amm cur_price = do
  let denominator = amm.fees.trade_fee_denominator
  spread ← unwrap (checked_add 64 amm.fees.min_separate_numerator amm.fees.trade_fee_numerator)
  low ← unwrap (checked_sub denominator spread)
  bid_product ← unwrap (checked_mul 128 cur_price low)
  bid ← unwrap (checked_div bid_product denominator)
  max_bid ← as_width 64 bid
  high ← unwrap (checked_add 64 denominator spread)
  ask_product ← unwrap (checked_mul 128 cur_price high)
  (ask, _) ← unwrap (checked_ceil_div ask_product denominator)
  min_ask ← as_width 64 ask
  deep ← unwrap (checked_mul 64 cur_price amm.depth)
  percent ← unwrap (checked_div deep 100)
  step ← unwrap (checked_div percent amm.order_num)
  fb ← fibonacci amm.order_num
  ok (record {
    cur_price = cur_price;
    max_bid = max_bid;
    min_ask = min_ask;
    grid = if ltb step amm.pc_lot_size then amm.pc_lot_size else step;
    fb = fb;
  })

-- Whether round `i` is the last one and a distance is set for it.
unfoldable pub is_last_order : AmmInfo → TargetOrders → ℕ → Outcome Bool
is_last_order amm target i = do
  last ← unwrap (checked_sub amm.order_num 1)
  ok (i == last && target.last_order_denominator != 0 && target.last_order_numerator != 0)

-- Where the price is below a lot and the order two rounds before has a price that is not the grid's,
-- the last buy order is put at the grid's.
unfoldable pub raise_to_grid : AmmInfo → TargetOrders → Grid → ℕ → ℕ → Outcome ℕ
raise_to_grid amm target g i price =
    if ltb price amm.pc_lot_size
    then (do
      j ← unwrap (checked_sub i 2)
      order ← read_at target.buy_orders j
      ok (if order.price != 0 && order.price != g.grid then g.grid else price))
    else ok price

unfoldable pub buy_price_of : AmmInfo → TargetOrders → Grid → ℕ → ℕ → Outcome ℕ
unfolding is_last_order raise_to_grid
buy_price_of amm target g i distance = do
  let buy_price = g.max_bid - distance
  last ← is_last_order amm target i
  price ←
      if last
      then (do
        product ← unwrap (checked_mul 64 g.cur_price target.last_order_denominator)
        target_buy_price ← unwrap (checked_div product target.last_order_numerator)
        raise_to_grid amm target g i
            (if ltb target_buy_price buy_price then target_buy_price else buy_price))
      else ok buy_price
  floor_lot price amm.pc_lot_size

unfoldable pub sell_price_of : AmmInfo → TargetOrders → Grid → ℕ → ℕ → Outcome ℕ
unfolding is_last_order
sell_price_of amm target g i distance = do
  sell_price ← unwrap (checked_add 64 g.min_ask distance)
  last ← is_last_order amm target i
  price ←
      if last
      then (do
        product ← unwrap (checked_mul 64 g.cur_price target.last_order_numerator)
        target_sell_price ← unwrap (checked_div product target.last_order_denominator)
        ok (if ltb sell_price target_sell_price then target_sell_price else sell_price))
      else ok sell_price
  ceil_lot price amm.pc_lot_size

-- The volume less the part that `vol_max_cut_ratio` cuts off.
unfoldable pub cut_vol : AmmInfo → ℕ → Outcome ℕ
cut_vol amm max_vol = do
  product ← unwrap (checked_mul 128 amm.vol_max_cut_ratio max_vol)
  part ← unwrap (checked_div product 10000)
  cut ← ok_or (fits 64 part) conversion_failure
  unwrap (checked_sub max_vol cut)

-- A volume below the least is none, and any other is a number of lots.
unfoldable pub lots_of_vol : AmmInfo → ℕ → Outcome ℕ
lots_of_vol amm vol = do
  let vol' = if ltb vol amm.min_size then 0 else vol
  lot ← normalize_decimal amm.coin_lot_size amm.coin_decimals amm.sys_decimal_value
  floor_lot vol' lot

-- The pc that a quantity is worth at a price.
unfoldable pub pc_of_qty : AmmInfo → ℕ → ℕ → Outcome ℕ
pc_of_qty amm qty price = do
  product ← unwrap (checked_mul 128 qty price)
  unwrap (checked_div product amm.sys_decimal_value)
