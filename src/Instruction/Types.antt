-- ===== src/Instruction/Types.antt =====
-- `AmmInstruction` and the records of its arguments (program/src/instruction.rs). A public key and
-- the hash of an order list are the numbers of their 32 bytes.
use raydium_amm_fair.Common.{ℕ, Option, none}
use raydium_amm_fair.State.Fees.{Fees}
use raydium_amm_fair.State.Accounts.{Pubkey}

pub record LastOrderDistance : Type 0 where
  pub last_order_numerator : ℕ
  pub last_order_denominator : ℕ

pub record InitializeInstruction : Type 0 where
  pub nonce : ℕ
  pub open_time : ℕ

pub record InitializeInstruction2 : Type 0 where
  pub nonce : ℕ
  pub open_time : ℕ
  pub init_pc_amount : ℕ
  pub init_coin_amount : ℕ

pub record MonitorStepInstruction : Type 0 where
  pub plan_order_limit : ℕ
  pub place_order_limit : ℕ
  pub cancel_order_limit : ℕ

pub record DepositInstruction : Type 0 where
  pub max_coin_amount : ℕ
  pub max_pc_amount : ℕ
  pub base_side : ℕ
  pub other_amount_min : Option ℕ

pub record WithdrawInstruction : Type 0 where
  pub amount : ℕ
  pub min_coin_amount : Option ℕ
  pub min_pc_amount : Option ℕ

pub record SetParamsInstruction : Type 0 where
  pub param : ℕ
  pub value : Option ℕ
  pub new_pubkey : Option Pubkey
  pub fees : Option Fees
  pub last_order_distance : Option LastOrderDistance

pub record SwapInstructionBaseIn : Type 0 where
  pub amount_in : ℕ
  pub minimum_amount_out : ℕ

pub record SwapInstructionBaseOut : Type 0 where
  pub max_amount_in : ℕ
  pub amount_out : ℕ

pub record SwapSequencedInstructionBaseIn : Type 0 where
  pub amount_in : ℕ
  pub minimum_amount_out : ℕ
  pub order_index : ℕ

pub record SwapSequencedInstructionBaseOut : Type 0 where
  pub max_amount_in : ℕ
  pub amount_out : ℕ
  pub order_index : ℕ

pub record SubmitSequencerOrdersInstruction : Type 0 where
  pub orders_hash : ℕ

pub record SimulateInstruction : Type 0 where
  pub param : ℕ
  pub swap_base_in_value : Option SwapInstructionBaseIn
  pub swap_base_out_value : Option SwapInstructionBaseOut

pub record ConfigArgs : Type 0 where
  pub param : ℕ
  pub owner : Option Pubkey
  pub create_pool_fee : Option ℕ

-- The records of one field (`PreInitializeInstruction`, `WithdrawSrmInstruction`,
-- `AdminCancelOrdersInstruction`) are that field.
pub data AmmInstruction : Type 0 where
  initialize : InitializeInstruction → AmmInstruction
  initialize2 : InitializeInstruction2 → AmmInstruction
  monitor_step : MonitorStepInstruction → AmmInstruction
  deposit : DepositInstruction → AmmInstruction
  withdraw : WithdrawInstruction → AmmInstruction
  migrate_to_open_book : AmmInstruction
  set_params : SetParamsInstruction → AmmInstruction
  withdraw_pnl : AmmInstruction
  withdraw_srm : ℕ → AmmInstruction
  swap_base_in : SwapInstructionBaseIn → AmmInstruction
  pre_initialize : ℕ → AmmInstruction
  swap_base_out : SwapInstructionBaseOut → AmmInstruction
  simulate_info : SimulateInstruction → AmmInstruction
  admin_cancel_orders : ℕ → AmmInstruction
  create_config_account : AmmInstruction
  update_config_account : ConfigArgs → AmmInstruction
  submit_sequencer_orders : SubmitSequencerOrdersInstruction → AmmInstruction
  swap_base_in_seq : SwapSequencedInstructionBaseIn → AmmInstruction
  swap_base_out_seq : SwapSequencedInstructionBaseOut → AmmInstruction

-- A parameter with no argument yet.
abbrev pub no_params : ℕ → SetParamsInstruction
no_params param = record {
  param = param;
  value = none;
  new_pubkey = none;
  fees = none;
  last_order_distance = none;
}
