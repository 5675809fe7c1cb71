-- ===== src/Tests/Math.antt =====
-- The arithmetic of swaps, lots, shares and profit on numbers.
use raydium_amm_fair.Common.{ℕ, ◌+◌, ◌-◌, ◌*◌, ◌/◌, ◌≤◌, ◌<◌, ◌≡◌, ◌↔◌, refl}
use raydium_amm_fair.Outcome.{ok}
use raydium_amm_fair.State.Fees.{initial_fees, Fees}
use raydium_amm_fair.Math.CeilDiv.{checked_ceil_div}
use raydium_amm_fair.Math.Decimal.{floor_lot, restore_decimal, calc_x_power}
use raydium_amm_fair.Math.Decimal.Bounds.{floor_lot_nearest}
use raydium_amm_fair.Math.Swap.{coin2pc, swap_token_amount_base_in, swap_token_amount_base_out}
use raydium_amm_fair.Math.Swap.Product.{product_after, base_in_product, base_out_least}
use raydium_amm_fair.Processor.Pnl.{Pnl, calc_take_pnl, take_pnl, pnl_share, record_pnl}
use raydium_amm_fair.Processor.Pnl.Totals.{IsPnl, calc_take_pnl-conserves}
use raydium_amm_fair.Tests.World.{pool, target}

base_in_100 : swap_token_amount_base_in 100 1000 500 coin2pc ≡ ok 166
unfolding swap_token_amount_base_in
base_in_100 = refl

base_out_100 : swap_token_amount_base_out 100 1000 500 coin2pc ≡ ok 56
unfolding swap_token_amount_base_out checked_ceil_div
base_out_100 = refl

base_in_product_example :
    (166 ≤ 1000)
    × (500 * 1000 ≤ product_after 500 1000 100 166)
    × ((o : ℕ) → 166 < o → o < 1000 → product_after 500 1000 100 o < 500 * 1000)
base_in_product_example = base_in_product 100 1000 500 coin2pc base_in_100

abbrev charged : ℕ
charged = 56

base_out_least_example :
    (100 < 1000)
    × (0 < 56 → 500 * 1000 ≤ product_after 500 1000 56 100)
    × ((k : ℕ) → k < 56 → product_after 500 1000 k 100 < 500 * 1000)
    × ((charged ≡ 0) ↔ (500 * 100 * 2 < 1000 - 100))
base_out_least_example = base_out_least 100 1000 500 coin2pc base_out_100

floor_lot_1234 : floor_lot 1234 100 ≡ ok 1200
unfolding floor_lot
floor_lot_1234 = refl

floor_lot_nearest_example : (1200 ≡ 1234 / 100 * 100) × (1200 ≤ 1234) × (1234 < 1200 + 100)
floor_lot_nearest_example = floor_lot_nearest 1234 100 floor_lot_1234

abbrev whole_fee : Fees
whole_fee = record initial_fees { trade_fee_numerator = 10000 }

abbrev root : ℕ → ℕ
root n = 100000

-- A pool that has grown from 100000 to 110000 of each token owes 12 percent of the growth.
abbrev grown : Pnl
grown = record {
  amm = record pool {
    state_data = record pool.state_data {
      total_pnl_pc = 10000;
      total_pnl_coin = 10000;
      need_take_pnl_pc = 1200;
      need_take_pnl_coin = 1200;
    };
  };
  total_pc = 108800;
  total_coin = 108800;
  delta_x = 1200;
  delta_y = 1200;
}

pnl_taken : calc_take_pnl root target pool 110000 110000 110000 110000 ≡ ok grown
unfolding calc_take_pnl restore_decimal take_pnl calc_x_power pnl_share record_pnl
pnl_taken = refl

calc_take_pnl-conserves_example :
    IsPnl pool 110000 110000 grown
    × (last_pc : ℕ) × (last_coin : ℕ) × (restore_decimal 100000 6 1000000 ≡ ok last_pc)
    × (restore_decimal 100000 6 1000000 ≡ ok last_coin)
    × (last_pc * last_coin ≤ 110000 * 110000)
calc_take_pnl-conserves_example =
    calc_take_pnl-conserves root target pool 110000 110000 110000 110000 pnl_taken
