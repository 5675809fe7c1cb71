-- ===== src/Error.antt =====
-- program/src/error.rs: the program's own errors, and the errors that an instruction returns.
-- Messages are left out.
use raydium_amm_fair.Common.{ℕ}

pub data AmmError : Type 0 where
  already_in_use invalid_program_address expected_mint expected_account invalid_coin_vault :
      AmmError
  invalid_pc_vault invalid_token_lp invalid_dest_token_coin invalid_dest_token_pc
        invalid_pool_mint :
      AmmError
  invalid_open_orders invalid_market invalid_market_program invalid_target_orders
        account_need_writeable :
      AmmError
  account_need_read_only invalid_coin_mint invalid_pc_mint invalid_owner invalid_supply : AmmError
  invalid_delegate invalid_sign_account invalid_status invalid_instruction wrong_accounts_number :
      AmmError
  invalid_target_account_owner invalid_target_owner invalid_amm_account_owner invalid_params_set
        invalid_input :
      AmmError
  exceeded_slippage calculation_ex_rate_failure checked_sub_overflow checked_add_overflow
        checked_mul_overflow :
      AmmError
  checked_div_overflow checked_empty_funds calc_pnl_error invalid_spl_token_program take_pnl_error :
      AmmError
  insufficient_funds conversion_failure invalid_user_token invalid_srm_mint invalid_srm_token :
      AmmError
  too_many_open_orders order_at_slot_is_placed invalid_sys_program_address invalid_fee
        repeat_create_amm :
      AmmError
  not_allow_zero_lp invalid_close_authority invalid_freeze_authority invalid_refer_pc_mint
        invalid_config_account :
      AmmError
  repeat_create_config_account market_lot_size_is_too_large init_lp_amount_too_less
        unknown_amm_error :
      AmmError

-- `ProgramError` as the program uses it: its own errors (`Custom`), the two errors of the
-- instruction data and of the account iterator, and whatever a called program returns.
pub data ProgramError : Type 0 where
  amm : AmmError → ProgramError
  invalid_instruction_data not_enough_account_keys : ProgramError
  external : ℕ → ProgramError
