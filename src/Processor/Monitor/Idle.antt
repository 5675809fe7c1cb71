-- ===== src/Processor/Monitor/Idle.antt =====
-- `Processor::do_idle_state` (program/src/processor.rs): compares the pool with what was placed last
-- and takes the profit.
use raydium_amm_fair.Common.{
  ℕ, Bool, List, ◌&&◌, ◌||◌, ltb, ◌==◌, ◌!=◌, if◌then◌else◌, length, is_empty,
}
use raydium_amm_fair.Error.{checked_empty_funds}
use raydium_amm_fair.Outcome.{Outcome, ok, unwrap, fail_if, ◌>>=◌, ◌>>◌}
use raydium_amm_fair.Word.{checked_sub, checked_mul, checked_div}
use raydium_amm_fair.State.Status.{
  state_into_u64, idle_state, plan_orders_state, cancel_all_orders_state,
}
use raydium_amm_fair.State.Accounts.{AmmInfo, TargetOrders}
use raydium_amm_fair.Dex.Types.{LeafNode}
use raydium_amm_fair.Math.Decimal.{normalize_decimal_v2}
use raydium_amm_fair.Processor.Pnl.{calc_take_pnl}

-- Whether the orders on the book are no longer those that were placed for these totals.
unfoldable pub must_plan : TargetOrders → List LeafNode → List LeafNode → ℕ → ℕ → Bool
must_plan target bids asks x y =
    ltb (length bids) target.valid_buy_order_num
    || ltb (length asks) target.valid_sell_order_num
    || (is_empty bids && is_empty asks)
    || x != target.placed_x
    || y != target.placed_y

unfoldable pub compare_placed :
    AmmInfo → TargetOrders → List LeafNode → List LeafNode → ℕ → ℕ → AmmInfo × TargetOrders
unfolding must_plan
compare_placed amm target bids asks x y =
    if must_plan target bids asks x y
    then (
      record amm { state = state_into_u64 plan_orders_state },
      record target { plan_orders_cur = 0 },
    )
    else (record amm { state = state_into_u64 idle_state }, target)

-- A price out of its bounds overrides the state: all orders, if there are any, have to go.
unfoldable pub check_price : AmmInfo → List LeafNode → List LeafNode → ℕ → ℕ → Outcome AmmInfo
check_price amm bids asks x y = do
  scaled ← unwrap (checked_mul 128 x amm.sys_decimal_value)
  cur_price ← unwrap (checked_div scaled y)
  max_cur_price ← unwrap (checked_mul 128 amm.pc_lot_size amm.max_price_multiplier)
  min_cur_price ← unwrap (checked_mul 128 amm.pc_lot_size amm.min_price_multiplier)
  ok (
      if ltb cur_price min_cur_price || ltb max_cur_price cur_price
      then (if is_empty bids && is_empty asks
          then record amm { state = state_into_u64 idle_state }
          else record amm { state = state_into_u64 cancel_all_orders_state })
      else amm)

-- A product below that of the last time overrides the state; otherwise the profit is taken.
unfoldable pub idle_pnl :
    (ℕ → ℕ) → AmmInfo → TargetOrders → ℕ → ℕ → ℕ → ℕ → Outcome (AmmInfo × TargetOrders)
idle_pnl integer_sqrt amm target total_pc total_coin x y = do
  product ← unwrap (checked_mul 128 x y)
  last ← unwrap (checked_mul 128 target.calc_pnl_x target.calc_pnl_y)
  if ltb product last
      then ok (record amm { state = state_into_u64 cancel_all_orders_state }, target)
      else (do
        p ← calc_take_pnl integer_sqrt target amm total_pc total_coin x y
        if p.delta_x != 0 && p.delta_y != 0
            then (do
              calc_pnl_x ← unwrap (checked_sub x p.delta_x)
              calc_pnl_y ← unwrap (checked_sub y p.delta_y)
              ok (p.amm, record target { calc_pnl_x = calc_pnl_x; calc_pnl_y = calc_pnl_y }))
            else ok (p.amm, target))

unfoldable pub do_idle_state :
    (ℕ → ℕ)
    → AmmInfo
    → TargetOrders
    → List LeafNode
    → List LeafNode
    → ℕ
    → ℕ
    → Outcome (AmmInfo × TargetOrders)
do_idle_state integer_sqrt amm target bids asks total_pc total_coin = do
  x ← normalize_decimal_v2 total_pc amm.pc_decimals amm.sys_decimal_value
  y ← normalize_decimal_v2 total_coin amm.coin_decimals amm.sys_decimal_value
  fail_if (x == 0 || y == 0) checked_empty_funds
  let (compared, target') = compare_placed amm target bids asks x y
  checked ← check_price compared bids asks x y
  idle_pnl integer_sqrt checked target' total_pc total_coin x y
