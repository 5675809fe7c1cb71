-- ===== src/Processor/Params/Seperate.antt =====
-- The parameter `Seperate` and the plan of orders (program/src/processor.rs).
use raydium_amm_fair.Common.{ℕ, ◌+◌, ◌≤◌, ◌<◌, ◌≡◌, ◌≢◌, refl, ◌∙◌, true, some, arith, le→leb}
use raydium_amm_fair.Outcome.{ok, panic}
use raydium_amm_fair.State.Status.{AmmParams}
use raydium_amm_fair.State.Accounts.{AmmInfo, TargetOrders}
use raydium_amm_fair.Math.Decimal.{normalize_decimal_v2}
use raydium_amm_fair.Processor.Monitor.Prices.{grid_of}
use raydium_amm_fair.Processor.Monitor.Plan.{
  start_plan, price_in_bounds, plan_grid, plan_orders, do_plan_orderbook,
}
use raydium_amm_fair.Processor.Params.{set_value}

-- The pool with the value set.
abbrev separated : AmmInfo → ℕ → AmmInfo
separated amm value = record amm { fees = record amm.fees { min_separate_numerator = value } }

set_value-separated :
    (amm : AmmInfo) (value : ℕ)
    → value ≤ 10000
    → set_value AmmParams.seperate value amm ≡ ok (some (separated amm value))
unfolding set_value
set_value-separated amm value le = rw (le→leb value 10000 le)

grid_of-panics :
    (amm : AmmInfo) (value price : ℕ)
    → amm.fees.trade_fee_denominator < value + amm.fees.trade_fee_numerator
    → grid_of (separated amm value) price ≡ panic
unfolding grid_of
grid_of-panics amm value price h = ground arith

price_in_bounds-separated :
    (amm : AmmInfo) (value x y : ℕ)
    → price_in_bounds (separated amm value) x y ≡ price_in_bounds amm x y
unfolding price_in_bounds
price_in_bounds-separated amm value x y = refl

-- `Seperate` accepts every value up to ten thousand, without the check of the fees. Where the value
-- and the numerator of the trade fee together pass the denominator of the trade fee, planning orders
-- panics after that for every plan that is not complete and that comes to its grid of prices: the
-- totals are not zero, they are those that the plan is for, and their price is within its bounds.
pub seperate-panics :
    (amm : AmmInfo) (value : ℕ) (target : TargetOrders) (limit total_pc total_coin x y price : ℕ)
    → value ≤ 10000
    → amm.fees.trade_fee_denominator < value + amm.fees.trade_fee_numerator
    → amm.order_num ≢ target.plan_orders_cur
    → normalize_decimal_v2 total_pc amm.pc_decimals amm.sys_decimal_value ≡ ok x
    → normalize_decimal_v2 total_coin amm.coin_decimals amm.sys_decimal_value ≡ ok y
    → x ≢ 0
    → y ≢ 0
    → (start_plan target x y).target_x ≡ x
    → (start_plan target x y).target_y ≡ y
    → price_in_bounds amm x y ≡ ok (price, true)
    → (amm' : AmmInfo) × (set_value AmmParams.seperate value amm ≡ ok (some amm'))
      × (do_plan_orderbook amm' target limit total_pc total_coin ≡ panic)
unfolding do_plan_orderbook plan_orders plan_grid
seperate-panics amm value target limit tp tc x y price le high more ex ey nx ny same_x same_y
      bounds =
    let within = price_in_bounds-separated amm value x y ∙ bounds in
    let grid = grid_of-panics amm value price high in
    (
      separated amm value,
      set_value-separated amm value le,
      rw (ex, ey, within, grid) (ground arith),
    )
