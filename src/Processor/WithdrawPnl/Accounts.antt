-- ===== src/Processor/WithdrawPnl/Accounts.antt =====
-- The accounts of `process_withdrawpnl` (program/src/processor.rs): seventeen, one more with the
-- referrer's account, which is only checked.
use raydium_amm_fair.Common.{List, ◌&&◌, ◌==◌, ◌!=◌, length, if◌then◌else◌}
use raydium_amm_fair.Error.{wrong_accounts_number, invalid_owner}
use raydium_amm_fair.Outcome.{Outcome, ok, fail_if, ◌>>=◌, ◌>>◌}
use raydium_amm_fair.Config.{referrer_owner}
use raydium_amm_fair.Chain.{AccountInfo, Bank, next_account_info, token_account_of}

pub record WithdrawPnlAccounts : Type 0 where
  pub token_program : AccountInfo
  pub amm : AccountInfo
  pub amm_config : AccountInfo
  pub amm_authority : AccountInfo
  pub amm_open_orders : AccountInfo
  pub amm_coin_vault : AccountInfo
  pub amm_pc_vault : AccountInfo
  pub user_pnl_coin : AccountInfo
  pub user_pnl_pc : AccountInfo
  pub pnl_owner : AccountInfo
  pub amm_target_orders : AccountInfo
  pub market_program : AccountInfo
  pub market : AccountInfo
  pub market_event_queue : AccountInfo
  pub market_coin_vault : AccountInfo
  pub market_pc_vault : AccountInfo
  pub market_vault_signer : AccountInfo

-- The account behind the seventeen.
unfoldable pub check_pnl_referrer : AccountInfo → List AccountInfo → Bank → Outcome (Unit {0})
unfolding next_account_info token_account_of
check_pnl_referrer token_program rest bank = do
  (referrer, _) ← next_account_info rest
  token ← token_account_of token_program.key referrer.key bank
  fail_if (token.owner != referrer_owner) invalid_owner

unfoldable pub withdrawpnl_accounts : List AccountInfo → Bank → Outcome WithdrawPnlAccounts
unfolding next_account_info
withdrawpnl_accounts accounts bank = do
  fail_if (length accounts != 17 && length accounts != 18) wrong_accounts_number
  (token_program, r1) ← next_account_info accounts
  (amm, r2) ← next_account_info r1
  (amm_config, r3) ← next_account_info r2
  (amm_authority, r4) ← next_account_info r3
  (amm_open_orders, r5) ← next_account_info r4
  (amm_coin_vault, r6) ← next_account_info r5
  (amm_pc_vault, r7) ← next_account_info r6
  (user_pnl_coin, r8) ← next_account_info r7
  (user_pnl_pc, r9) ← next_account_info r8
  (pnl_owner, r10) ← next_account_info r9
  (amm_target_orders, r11) ← next_account_info r10
  (market_program, r12) ← next_account_info r11
  (market, r13) ← next_account_info r12
  (market_event_queue, r14) ← next_account_info r13
  (market_coin_vault, r15) ← next_account_info r14
  (market_pc_vault, r16) ← next_account_info r15
  (market_vault_signer, r17) ← next_account_info r16
  if length accounts == 18 then check_pnl_referrer token_program r17 bank else ok tt
  ok (record {
    token_program = token_program;
    amm = amm;
    amm_config = amm_config;
    amm_authority = amm_authority;
    amm_open_orders = amm_open_orders;
    amm_coin_vault = amm_coin_vault;
    amm_pc_vault = amm_pc_vault;
    user_pnl_coin = user_pnl_coin;
    user_pnl_pc = user_pnl_pc;
    pnl_owner = pnl_owner;
    amm_target_orders = amm_target_orders;
    market_program = market_program;
    market = market;
    market_event_queue = market_event_queue;
    market_coin_vault = market_coin_vault;
    market_pc_vault = market_pc_vault;
    market_vault_signer = market_vault_signer;
  })
