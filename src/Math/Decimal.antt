-- ===== src/Math/Decimal.antt =====
-- Decimals and lots (`Calculator`, program/src/math.rs).
pub mod Bounds
use raydium_amm_fair.Common.{ℕ, ◌*◌, ◌<◌, ltb, if◌then◌else◌}
use raydium_amm_fair.Error.{AmmError, conversion_failure}
use raydium_amm_fair.Outcome.{Outcome, ok, panic, ◌>>=◌, unwrap}
use raydium_amm_fair.Word.{fits, checked_mul, checked_div, checked_pow, as_width}
use raydium_amm_fair.Math.CeilDiv.{checked_ceil_div}

-- `Calculator::to_u64(val).unwrap()`
unfoldable pub to_u64 : ℕ → Outcome ℕ
to_u64 val = unwrap (fits 64 val)

unfoldable pub calc_x_power : ℕ → ℕ → ℕ → ℕ → Outcome ℕ
calc_x_power last_x last_y current_x current_y = do
  last_k ← unwrap (checked_mul 256 last_x last_y)
  scaled ← unwrap (checked_mul 256 last_k current_x)
  unwrap (checked_div scaled current_y)

unfoldable pub normalize_decimal_v2 : ℕ → ℕ → ℕ → Outcome ℕ
normalize_decimal_v2 val native_decimal sys_decimal_value = do
  ret_mut ← unwrap (checked_mul 128 val sys_decimal_value)
  scale ← unwrap (checked_pow 128 10 native_decimal)
  unwrap (checked_div ret_mut scale)

unfoldable pub normalize_decimal : ℕ → ℕ → ℕ → Outcome ℕ
unfolding to_u64
normalize_decimal val native_decimal sys_decimal_value = do
  ret_mut ← unwrap (checked_mul 128 val sys_decimal_value)
  scale ← unwrap (checked_pow 128 10 native_decimal)
  ret ← unwrap (checked_div ret_mut scale)
  to_u64 ret

unfoldable pub restore_decimal : ℕ → ℕ → ℕ → Outcome ℕ
restore_decimal val native_decimal sys_decimal_value = do
  scale ← unwrap (checked_pow 128 10 native_decimal)
  ret_mut ← unwrap (checked_mul 128 val scale)
  unwrap (checked_div ret_mut sys_decimal_value)

unfoldable pub floor_lot : ℕ → ℕ → Outcome ℕ
floor_lot val lot_size = do
  unit ← unwrap (checked_div val lot_size)
  unwrap (checked_mul 64 unit lot_size)

unfoldable pub ceil_lot : ℕ → ℕ → Outcome ℕ
unfolding to_u64
ceil_lot val lot_size = do
  (unit, _) ← unwrap (checked_ceil_div val lot_size)
  unit64 ← to_u64 unit
  unwrap (checked_mul 64 unit64 lot_size)

-- The plain `*` and `/` of `U128` panic on overflow and on a zero divisor.
unfoldable pub convert_out_pc_lot_size : ℕ → ℕ → ℕ → ℕ → ℕ → Outcome ℕ
unfolding to_u64
convert_out_pc_lot_size pc_decimals coin_decimals pc_lot_size coin_lot_size sys_decimal_value = do
  lots ← unwrap (checked_mul 128 pc_lot_size coin_lot_size)
  pc_scale ← unwrap (checked_pow 128 10 pc_decimals)
  numerator ← unwrap (checked_mul 128 lots pc_scale)
  coin_scale ← unwrap (checked_pow 128 10 coin_decimals)
  denominator ← unwrap (checked_mul 128 sys_decimal_value coin_scale)
  quotient ← unwrap (checked_div numerator denominator)
  to_u64 quotient

unfoldable pub convert_in_pc_lot_size : ℕ → ℕ → ℕ → ℕ → ℕ → Outcome ℕ
unfolding to_u64
convert_in_pc_lot_size pc_decimals coin_decimals pc_lot_size coin_lot_size sys_decimal_value = do
  scaled ← unwrap (checked_mul 128 pc_lot_size sys_decimal_value)
  coin_scale ← unwrap (checked_pow 128 10 coin_decimals)
  numerator ← unwrap (checked_mul 128 scaled coin_scale)
  pc_scale ← unwrap (checked_pow 128 10 pc_decimals)
  denominator ← unwrap (checked_mul 128 coin_lot_size pc_scale)
  quotient ← unwrap (checked_div numerator denominator)
  to_u64 quotient

convert_in_price : ℕ → ℕ → Outcome ℕ
convert_in_price val pc_lot_size = unwrap (checked_mul 64 val pc_lot_size)

unfoldable pub convert_price_out : ℕ → ℕ → Outcome ℕ
convert_price_out val pc_lot_size = unwrap (checked_div val pc_lot_size)

convert_in_vol : ℕ → ℕ → ℕ → ℕ → Outcome ℕ
unfolding to_u64
convert_in_vol val coin_decimal coin_lot_size sys_decimal_value = do
  lots ← unwrap (checked_mul 128 val coin_lot_size)
  scaled ← unwrap (checked_mul 128 lots sys_decimal_value)
  coin_scale ← unwrap (checked_pow 128 10 coin_decimal)
  volume ← unwrap (checked_div scaled coin_scale)
  to_u64 volume

unfoldable pub convert_vol_out : ℕ → ℕ → ℕ → ℕ → Outcome ℕ
unfolding to_u64
convert_vol_out val coin_decimal coin_lot_size sys_decimal_value = do
  coin_scale ← unwrap (checked_pow 128 10 coin_decimal)
  scaled ← unwrap (checked_mul 128 val coin_scale)
  lot ← unwrap (checked_mul 128 coin_lot_size sys_decimal_value)
  volume ← unwrap (checked_div scaled lot)
  to_u64 volume
