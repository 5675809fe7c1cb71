-- ===== src/State/Initialize.antt =====
-- `AmmInfo::initialize` (program/src/state.rs).
use raydium_amm_fair.Common.{ℕ, ◌^◌, ◌-◌, ltb, leb, if◌then◌else◌}
use raydium_amm_fair.Error.{conversion_failure}
use raydium_amm_fair.Outcome.{Outcome, ok, ok_or, ◌>>=◌, unwrap}
use raydium_amm_fair.Word.{fits, checked_mul, checked_div, checked_pow}
use raydium_amm_fair.Math.Decimal.{to_u64, convert_in_pc_lot_size}
use raydium_amm_fair.State.Status.{
  status_into_u64, uninitialized, state_into_u64, idle_state, reset_flag_into_u64, reset_no,
}
use raydium_amm_fair.State.Fees.{initial_fees}
use raydium_amm_fair.State.Accounts.{AmmInfo, initial_state_data}

-- The value that amounts are normalised to.
unfoldable pub sys_decimal : ℕ → ℕ → ℕ → ℕ → Outcome ℕ
unfolding to_u64
sys_decimal coin_decimals pc_decimals coin_lot_size pc_lot_size = do
  base ←
      unwrap
        (checked_pow 64 10 (if ltb coin_decimals pc_decimals then pc_decimals else coin_decimals))
  pc_scale ← unwrap (checked_pow 128 10 pc_decimals)
  temp_value_numerator ← unwrap (checked_mul 128 coin_lot_size pc_scale)
  coin_scale ← unwrap (checked_pow 128 10 coin_decimals)
  temp_value_denominator ← unwrap (checked_mul 128 pc_lot_size coin_scale)
  ratio ← unwrap (checked_div temp_value_numerator temp_value_denominator)
  if leb base ratio then to_u64 ratio else ok base

-- `min_size` is 0 where it does not fit; `process_monitor_step` refuses such a pool.
unfoldable pub min_size_of : ℕ → ℕ → ℕ → Outcome ℕ
min_size_of coin_decimals coin_lot_size sys_decimal_value = do
  product ← unwrap (checked_mul 128 coin_lot_size sys_decimal_value)
  scale ← unwrap (checked_pow 128 10 coin_decimals)
  min_size ← unwrap (checked_div product scale)
  if ltb min_size (2 ^ 64 - 1) then ok_or (fits 64 min_size) conversion_failure else ok 0

-- `recent_epoch` is what `get_recent_epoch` returns.
unfoldable pub initialize : ℕ → ℕ → ℕ → ℕ → ℕ → ℕ → ℕ → AmmInfo → Outcome AmmInfo
unfolding sys_decimal min_size_of convert_in_pc_lot_size
initialize nonce open_time coin_decimals pc_decimals coin_lot_size pc_lot_size epoch self = do
  sys_decimal_value ← sys_decimal coin_decimals pc_decimals coin_lot_size pc_lot_size
  min_size ← min_size_of coin_decimals coin_lot_size sys_decimal_value
  wave ← unwrap (checked_mul 64 sys_decimal_value 5)
  amount_wave ← unwrap (checked_div wave 1000)
  native_lot_size ←
      convert_in_pc_lot_size pc_decimals coin_decimals pc_lot_size coin_lot_size sys_decimal_value
  ok (record self {
    fees = initial_fees;
    state_data = initial_state_data open_time;
    status = status_into_u64 uninitialized;
    nonce = nonce;
    order_num = 7;
    depth = 3;
    coin_decimals = coin_decimals;
    pc_decimals = pc_decimals;
    state = state_into_u64 idle_state;
    reset_flag = reset_flag_into_u64 reset_no;
    sys_decimal_value = sys_decimal_value;
    min_size = min_size;
    vol_max_cut_ratio = 500;
    amount_wave = amount_wave;
    coin_lot_size = coin_lot_size;
    pc_lot_size = native_lot_size;
    min_price_multiplier = 1;
    max_price_multiplier = 1000000000;
    client_order_id = 0;
    recent_epoch = epoch;
  })
