-- ===== src/State/Accounts.antt =====
-- The account records of program/src/state.rs: `TargetOrders`, `StateData`, `AmmInfo`, `AmmConfig`,
-- `SequencerOrders`. A public key is the number of its 32 bytes. Padding is left out.
use raydium_amm_fair.Common.{
  ℕ, ◌+◌, ◌-◌, ◌%◌, ◌^◌, ◌<◌, ◌≡◌, List, ◌!=◌, ◌==◌, arith, if◌then◌else◌,
}
use raydium_amm_fair.Error.{already_in_use}
use raydium_amm_fair.Outcome.{Outcome, ok, fail_if, ◌>>◌}
use raydium_amm_fair.State.Fees.{Fees}

abbrev pub Pubkey : Type 0
Pubkey = ℕ

pub record TargetOrder : Type 0 where
  pub price : ℕ
  pub vol : ℕ

pub record TargetOrders : Type 0 where
  pub owner : Pubkey
  pub buy_orders : List TargetOrder
  pub target_x : ℕ
  pub target_y : ℕ
  pub plan_x_buy : ℕ
  pub plan_y_buy : ℕ
  pub plan_x_sell : ℕ
  pub plan_y_sell : ℕ
  pub placed_x : ℕ
  pub placed_y : ℕ
  pub calc_pnl_x : ℕ
  pub calc_pnl_y : ℕ
  pub sell_orders : List TargetOrder
  pub replace_buy_client_id : List ℕ
  pub replace_sell_client_id : List ℕ
  pub last_order_numerator : ℕ
  pub last_order_denominator : ℕ
  pub plan_orders_cur : ℕ
  pub place_orders_cur : ℕ
  pub valid_buy_order_num : ℕ
  pub valid_sell_order_num : ℕ
  pub free_slot_bits : ℕ

-- `Pubkey::default()` is all zeros.
unfoldable pub check_init : TargetOrders → ℕ → ℕ → Pubkey → Outcome TargetOrders
check_init self x y owner = do
  fail_if (self.owner != 0) already_in_use
  ok (record self {
    owner = owner;
    last_order_numerator = 0;
    last_order_denominator = 0;
    plan_orders_cur = 0;
    place_orders_cur = 0;
    valid_buy_order_num = 0;
    valid_sell_order_num = 0;
    target_x = 0;
    target_y = 0;
    plan_x_buy = 0;
    plan_y_buy = 0;
    plan_x_sell = 0;
    plan_y_sell = 0;
    placed_x = 0;
    placed_y = 0;
    calc_pnl_x = x;
    calc_pnl_y = y;
    free_slot_bits = 2 ^ 128 - 1;
  })

pub record StateData : Type 0 where
  pub need_take_pnl_coin : ℕ
  pub need_take_pnl_pc : ℕ
  pub total_pnl_pc : ℕ
  pub total_pnl_coin : ℕ
  pub pool_open_time : ℕ
  pub orderbook_to_init_time : ℕ
  pub swap_coin_in_amount : ℕ
  pub swap_pc_out_amount : ℕ
  pub swap_acc_pc_fee : ℕ
  pub swap_pc_in_amount : ℕ
  pub swap_coin_out_amount : ℕ
  pub swap_acc_coin_fee : ℕ

-- `StateData::initialize` sets every field.
abbrev pub initial_state_data : ℕ → StateData
initial_state_data open_time = record {
  need_take_pnl_coin = 0;
  need_take_pnl_pc = 0;
  total_pnl_pc = 0;
  total_pnl_coin = 0;
  pool_open_time = open_time;
  orderbook_to_init_time = 0;
  swap_coin_in_amount = 0;
  swap_pc_out_amount = 0;
  swap_acc_pc_fee = 0;
  swap_pc_in_amount = 0;
  swap_coin_out_amount = 0;
  swap_acc_coin_fee = 0;
}

pub record AmmInfo : Type 0 where
  pub status : ℕ
  pub nonce : ℕ
  pub order_num : ℕ
  pub depth : ℕ
  pub coin_decimals : ℕ
  pub pc_decimals : ℕ
  pub state : ℕ
  pub reset_flag : ℕ
  pub min_size : ℕ
  pub vol_max_cut_ratio : ℕ
  pub amount_wave : ℕ
  pub coin_lot_size : ℕ
  pub pc_lot_size : ℕ
  pub min_price_multiplier : ℕ
  pub max_price_multiplier : ℕ
  pub sys_decimal_value : ℕ
  pub fees : Fees
  pub state_data : StateData
  pub coin_vault : Pubkey
  pub pc_vault : Pubkey
  pub coin_vault_mint : Pubkey
  pub pc_vault_mint : Pubkey
  pub lp_mint : Pubkey
  pub open_orders : Pubkey
  pub market : Pubkey
  pub market_program : Pubkey
  pub target_orders : Pubkey
  pub amm_owner : Pubkey
  pub lp_amount : ℕ
  pub client_order_id : ℕ
  pub recent_epoch : ℕ

-- `wrapping_add(1)`, with 0 left out; the new identifier stands in the new record.
unfoldable pub incr_client_order_id : AmmInfo → AmmInfo
incr_client_order_id self =
    let next = (self.client_order_id + 1) % 2 ^ 64 in
    record self { client_order_id = if next == 0 then next + 1 else next }

pub record AmmConfig : Type 0 where
  pub pnl_owner : Pubkey
  pub cancel_owner : Pubkey
  pub create_pool_fee : ℕ

pub record SequencerOrders : Type 0 where
  pub orders_hash : ℕ
  pub next_index : ℕ

-- Where the client order identifier is a `u64`, the next one is a `u64`, is not 0, and is not the
-- one before it.
pub incr_client_order_id_fresh :
    (a : AmmInfo)
    → a.client_order_id < 2 ^ 64
    → let id = (incr_client_order_id a).client_order_id in
      (0 < id) × (id < 2 ^ 64) × ¬ (id ≡ a.client_order_id)
unfolding incr_client_order_id
incr_client_order_id_fresh a h = ground arith
