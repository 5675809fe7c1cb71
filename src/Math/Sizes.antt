-- ===== src/Math/Sizes.antt =====
-- The largest orders at a price (`Calculator::get_max_buy_size_at_price` and
-- `get_max_sell_size_at_price`, program/src/math.rs).
use raydium_amm_fair.Common.{ℕ, ◌-◌}
use raydium_amm_fair.Outcome.{Outcome, ◌>>=◌, unwrap}
use raydium_amm_fair.Word.{checked_add, checked_mul, checked_div}
use raydium_amm_fair.State.Accounts.{AmmInfo}
use raydium_amm_fair.Math.Decimal.{to_u64}

-- `saturating_sub` is the subtraction of natural numbers.
unfoldable pub get_max_buy_size_at_price : ℕ → ℕ → ℕ → AmmInfo → Outcome ℕ
unfolding to_u64
get_max_buy_size_at_price price x y amm = do
  with_fee ← unwrap (checked_add 64 amm.fees.trade_fee_denominator amm.fees.trade_fee_numerator)
  scaled_price ← unwrap (checked_mul 128 price with_fee)
  price_with_fee ← unwrap (checked_div scaled_price amm.fees.trade_fee_denominator)
  scaled_x ← unwrap (checked_mul 128 x amm.sys_decimal_value)
  max_size ← unwrap (checked_div scaled_x price_with_fee)
  to_u64 (max_size - y)

unfoldable pub get_max_sell_size_at_price : ℕ → ℕ → ℕ → AmmInfo → Outcome ℕ
unfolding to_u64
get_max_sell_size_at_price price x y amm = do
  scaled_price ← unwrap (checked_mul 128 price amm.fees.trade_fee_denominator)
  with_fee ← unwrap (checked_add 64 amm.fees.trade_fee_denominator amm.fees.trade_fee_numerator)
  price_with_fee ← unwrap (checked_div scaled_price with_fee)
  scaled_x ← unwrap (checked_mul 128 x amm.sys_decimal_value)
  second_part ← unwrap (checked_div scaled_x price_with_fee)
  to_u64 (y - second_part)
