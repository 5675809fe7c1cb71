-- ===== src/Processor/Initialize/Accounts.antt =====
-- The accounts of `process_initialize2` (program/src/processor.rs).
use raydium_amm_fair.Common.{List}
use raydium_amm_fair.Outcome.{Outcome, ok, ◌>>=◌}
use raydium_amm_fair.Chain.{AccountInfo, next_account_info}

pub record InitializeAccounts : Type 0 where
  pub token_program : AccountInfo
  pub ata_token_program : AccountInfo
  pub system_program : AccountInfo
  pub rent_sysvar : AccountInfo
  pub amm : AccountInfo
  pub amm_authority : AccountInfo
  pub amm_open_orders : AccountInfo
  pub amm_lp_mint : AccountInfo
  pub amm_coin_mint : AccountInfo
  pub amm_pc_mint : AccountInfo
  pub amm_coin_vault : AccountInfo
  pub amm_pc_vault : AccountInfo
  pub amm_target_orders : AccountInfo
  pub amm_config : AccountInfo
  pub create_fee_destination : AccountInfo
  pub market_program : AccountInfo
  pub market : AccountInfo
  pub user_wallet : AccountInfo
  pub user_token_coin : AccountInfo
  pub user_token_pc : AccountInfo
  pub user_token_lp : AccountInfo

unfoldable pub initialize_accounts : List AccountInfo → Outcome InitializeAccounts
unfolding next_account_info
initialize_accounts accounts = do
  (token_program, r1) ← next_account_info accounts
  (ata_token_program, r2) ← next_account_info r1
  (system_program, r3) ← next_account_info r2
  (rent_sysvar, r4) ← next_account_info r3
  (amm, r5) ← next_account_info r4
  (amm_authority, r6) ← next_account_info r5
  (amm_open_orders, r7) ← next_account_info r6
  (amm_lp_mint, r8) ← next_account_info r7
  (amm_coin_mint, r9) ← next_account_info r8
  (amm_pc_mint, r10) ← next_account_info r9
  (amm_coin_vault, r11) ← next_account_info r10
  (amm_pc_vault, r12) ← next_account_info r11
  (amm_target_orders, r13) ← next_account_info r12
  (amm_config, r14) ← next_account_info r13
  (create_fee_destination, r15) ← next_account_info r14
  (market_program, r16) ← next_account_info r15
  (market, r17) ← next_account_info r16
  (user_wallet, r18) ← next_account_info r17
  (user_token_coin, r19) ← next_account_info r18
  (user_token_pc, r20) ← next_account_info r19
  (user_token_lp, _) ← next_account_info r20
  ok (record {
    token_program = token_program;
    ata_token_program = ata_token_program;
    system_program = system_program;
    rent_sysvar = rent_sysvar;
    amm = amm;
    amm_authority = amm_authority;
    amm_open_orders = amm_open_orders;
    amm_lp_mint = amm_lp_mint;
    amm_coin_mint = amm_coin_mint;
    amm_pc_mint = amm_pc_mint;
    amm_coin_vault = amm_coin_vault;
    amm_pc_vault = amm_pc_vault;
    amm_target_orders = amm_target_orders;
    amm_config = amm_config;
    create_fee_destination = create_fee_destination;
    market_program = market_program;
    market = market;
    user_wallet = user_wallet;
    user_token_coin = user_token_coin;
    user_token_pc = user_token_pc;
    user_token_lp = user_token_lp;
  })
