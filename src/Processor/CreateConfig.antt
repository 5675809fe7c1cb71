-- ===== src/Processor/CreateConfig.antt =====
-- `process_create_config` (program/src/processor.rs).
use raydium_amm_fair.Common.{List, ◌||◌, not, ltb, ◌!=◌, if◌then◌else◌}
use raydium_amm_fair.Error.{
  invalid_sign_account, invalid_sys_program_address, invalid_config_account,
  repeat_create_config_account,
}
use raydium_amm_fair.Outcome.{Outcome, ok, fail_if, ◌>>=◌, ◌>>◌}
use raydium_amm_fair.Config.{amm_owner_id}
use raydium_amm_fair.Chain.{
  AccountInfo, AccountData, Bank, Runtime, next_account_info, load_config, write,
}
use raydium_amm_fair.Processor.Initialize.Programs.{System, amm_config_space}
use raydium_amm_fair.Processor.Initialize.Create.{required_lamports}

unfoldable pub process_create_config : Runtime → System → List AccountInfo → Bank → Outcome Bank
unfolding next_account_info required_lamports
process_create_config rt sys accounts bank = do
  (admin_info, r1) ← next_account_info accounts
  (amm_config_info, r2) ← next_account_info r1
  (pnl_owner_info, r3) ← next_account_info r2
  (system_program_info, r4) ← next_account_info r3
  (rent_sysvar_info, _) ← next_account_info r4
  fail_if (not admin_info.is_signer || amm_owner_id != admin_info.key) invalid_sign_account
  fail_if (system_program_info.key != sys.system_program_id) invalid_sys_program_address
  fail_if (rt.config_address != amm_config_info.key) invalid_config_account
  let key = amm_config_info.key
  fail_if ((bank key).owner != system_program_info.key) repeat_create_config_account
  minimum ← sys.minimum_balance rent_sysvar_info.key amm_config_space bank
  let required = required_lamports minimum (bank key).lamports
  paid ← if ltb 0 required then sys.pay admin_info.key key required bank else ok bank
  allocated ← sys.allocate key amm_config_space paid
  assigned ← sys.assign key rt.program_id allocated
  amm_config ← load_config rt key assigned
  ok (
      write key
        (AccountData.config_data
          (record amm_config { pnl_owner = pnl_owner_info.key; create_pool_fee = 0 }))
        assigned)
