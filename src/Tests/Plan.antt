-- ===== src/Tests/Plan.antt =====
-- The plan of orders on the small chain.
use raydium_amm_fair.Common.{◌+◌, ◌≤◌, ◌≡◌, refl, inl, arith, replicate}
use raydium_amm_fair.Outcome.{Outcome, ok}
use raydium_amm_fair.State.Accounts.{AmmInfo, TargetOrder, TargetOrders}
use raydium_amm_fair.Math.Decimal.{
  normalize_decimal, normalize_decimal_v2, floor_lot, ceil_lot, to_u64,
}
use raydium_amm_fair.Math.CeilDiv.{checked_ceil_div}
use raydium_amm_fair.Math.Fibonacci.{fibonacci}
use raydium_amm_fair.Math.Sizes.{get_max_buy_size_at_price, get_max_sell_size_at_price}
use raydium_amm_fair.Processor.Monitor.Prices.{
  grid_of, is_last_order, raise_to_grid, buy_price_of, sell_price_of, cut_vol, lots_of_vol,
  pc_of_qty,
}
use raydium_amm_fair.Processor.Monitor.Plan.{
  all_planned, start_plan, plan_buy, plan_sell, plan_round, plan_rounds, end_of_rounds, plan_grid,
  price_in_bounds, plan_orders, do_plan_orderbook,
}
use raydium_amm_fair.Processor.Monitor.Planned.{IsPlanned}
use raydium_amm_fair.Processor.Monitor.Planning.{
  Progress, done, call, do_plan_orderbook-IsPlanned, PlanRun-length,
}
use raydium_amm_fair.Tests.World.{target}
use raydium_amm_fair.Tests.Book.{book_pool}

abbrev pub planner : AmmInfo
planner = record book_pool { state = 3 }

abbrev no_order : TargetOrder
no_order = record { price = 0; vol = 0 }

abbrev pub empty_plan : TargetOrders
empty_plan = record target {
  buy_orders = replicate 50 no_order;
  sell_orders = replicate 50 no_order;
}

abbrev orders_after : Outcome (AmmInfo × TargetOrders) → TargetOrders
orders_after (ok r) = r.1
orders_after _ = target

planned : TargetOrders
planned = orders_after (do_plan_orderbook planner empty_plan 3 100000 100000)

first_call : do_plan_orderbook planner empty_plan 3 100000 100000 ≡ ok (planner, planned)
unfolding planned do_plan_orderbook plan_orders normalize_decimal_v2 start_plan price_in_bounds
    plan_grid grid_of checked_ceil_div fibonacci end_of_rounds plan_rounds plan_round plan_buy
    buy_price_of is_last_order raise_to_grid floor_lot ceil_lot to_u64 get_max_buy_size_at_price
    cut_vol lots_of_vol normalize_decimal pc_of_qty plan_sell sell_price_of
    get_max_sell_size_at_price all_planned
first_call = refl

do_plan_orderbook-IsPlanned_example :
    IsPlanned planner planned × Progress planner empty_plan 3 planner planned
do_plan_orderbook-IsPlanned_example =
    do_plan_orderbook-IsPlanned planner empty_plan 3 100000 100000 (λ e. omega arith) (omega arith)
      (inl refl) first_call

PlanRun-length_example :
    (1 + empty_plan.plan_orders_cur ≤ planned.plan_orders_cur)
    × (planned.plan_orders_cur ≤ planner.order_num)
PlanRun-length_example =
    PlanRun-length planner empty_plan (λ e. omega arith) refl (omega arith) (inl refl)
      (call 3 100000 100000 (omega arith) first_call (done planned))
