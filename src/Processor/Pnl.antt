-- ===== src/Processor/Pnl.antt =====
-- `Processor::calc_take_pnl` (program/src/processor.rs). The square root of the crate `uint` is a
-- parameter.
pub mod Totals
use raydium_amm_fair.Common.{ℕ, ◌&&◌, leb, ◌!=◌, if◌then◌else◌}
use raydium_amm_fair.Error.{ProgramError, calc_pnl_error}
use raydium_amm_fair.Outcome.{Outcome, ok, err, unwrap, ◌>>=◌}
use raydium_amm_fair.Word.{checked_add, checked_sub, checked_mul, checked_div, as_width}
use raydium_amm_fair.State.Accounts.{AmmInfo, TargetOrders}
use raydium_amm_fair.Math.Decimal.{restore_decimal, calc_x_power}

-- The amounts and the pool's record behind the call: the source updates them through references.
pub record Pnl : Type 0 where
  pub amm : AmmInfo
  pub total_pc : ℕ
  pub total_coin : ℕ
  pub delta_x : ℕ
  pub delta_y : ℕ

-- `value * pnl_numerator / pnl_denominator`
unfoldable pub pnl_share : AmmInfo → ℕ → Outcome ℕ
pnl_share amm value = do
  product ← unwrap (checked_mul 128 value amm.fees.pnl_numerator)
  unwrap (checked_div product amm.fees.pnl_denominator)

-- The profit in both tokens moves from the totals to what is owed.
unfoldable pub record_pnl : AmmInfo → ℕ → ℕ → ℕ → ℕ → ℕ → ℕ → ℕ → ℕ → Outcome Pnl
record_pnl amm total_pc total_coin delta_x delta_y diff_pc diff_coin pc_pnl_amount coin_pnl_amount =
    do
      let data' = amm.state_data
      diff_pc' ← as_width 64 diff_pc
      total_pnl_pc ← unwrap (checked_add 64 data'.total_pnl_pc diff_pc')
      diff_coin' ← as_width 64 diff_coin
      total_pnl_coin ← unwrap (checked_add 64 data'.total_pnl_coin diff_coin')
      need_take_pnl_pc ← unwrap (checked_add 64 data'.need_take_pnl_pc pc_pnl_amount)
      need_take_pnl_coin ← unwrap (checked_add 64 data'.need_take_pnl_coin coin_pnl_amount)
      total_pc' ← unwrap (checked_sub total_pc pc_pnl_amount)
      total_coin' ← unwrap (checked_sub total_coin coin_pnl_amount)
      ok (record {
        amm = record amm {
          state_data = record data' {
            total_pnl_pc = total_pnl_pc;
            total_pnl_coin = total_pnl_coin;
            need_take_pnl_pc = need_take_pnl_pc;
            need_take_pnl_coin = need_take_pnl_coin;
          };
        };
        total_pc = total_pc';
        total_coin = total_coin';
        delta_x = delta_x;
        delta_y = delta_y;
      })

-- The profit of a pool whose product has not fallen.
unfoldable pub take_pnl : (ℕ → ℕ) → TargetOrders → AmmInfo → ℕ → ℕ → ℕ → ℕ → Outcome Pnl
take_pnl integer_sqrt target amm total_pc total_coin x1 y1 = do
  x2_power ← calc_x_power target.calc_pnl_x target.calc_pnl_y x1 y1
  let x2 = integer_sqrt x2_power
  scaled ← unwrap (checked_mul 256 x2 y1)
  y2 ← unwrap (checked_div scaled x1)
  diff_x256 ← unwrap (checked_sub x1 x2)
  diff_x ← as_width 128 diff_x256
  diff_y256 ← unwrap (checked_sub y1 y2)
  diff_y ← as_width 128 diff_y256
  delta_x ← pnl_share amm diff_x
  delta_y ← pnl_share amm diff_y
  diff_pc_pnl_amount ← restore_decimal diff_x amm.pc_decimals amm.sys_decimal_value
  diff_coin_pnl_amount ← restore_decimal diff_y amm.coin_decimals amm.sys_decimal_value
  pc_share ← pnl_share amm diff_pc_pnl_amount
  pc_pnl_amount ← as_width 64 pc_share
  coin_share ← pnl_share amm diff_coin_pnl_amount
  coin_pnl_amount ← as_width 64 coin_share
  if pc_pnl_amount != 0 && coin_pnl_amount != 0
      then record_pnl amm total_pc total_coin delta_x delta_y diff_pc_pnl_amount
          diff_coin_pnl_amount pc_pnl_amount coin_pnl_amount
      else ok (record {
        amm = amm;
        total_pc = total_pc;
        total_coin = total_coin;
        delta_x = 0;
        delta_y = 0;
      })

unfoldable pub calc_take_pnl : (ℕ → ℕ) → TargetOrders → AmmInfo → ℕ → ℕ → ℕ → ℕ → Outcome Pnl
calc_take_pnl integer_sqrt target amm total_pc total_coin x1 y1 = do
  calc_pc_amount ← restore_decimal target.calc_pnl_x amm.pc_decimals amm.sys_decimal_value
  calc_coin_amount ← restore_decimal target.calc_pnl_y amm.coin_decimals amm.sys_decimal_value
  pool_product ← unwrap (checked_mul 128 total_pc total_coin)
  calc_product ← unwrap (checked_mul 128 calc_pc_amount calc_coin_amount)
  if leb calc_product pool_product
      then take_pnl integer_sqrt target amm total_pc total_coin x1 y1
      else err (ProgramError.amm calc_pnl_error)
