-- ===== src/Processor/Params/Accounts.antt =====
-- The accounts of `process_set_params` (program/src/processor.rs).
use raydium_amm_fair.Common.{List, none}
use raydium_amm_fair.Outcome.{Outcome, ok, ◌>>=◌}
use raydium_amm_fair.Chain.{AccountInfo, next_account_info}
use raydium_amm_fair.Dex.Types.{CancelAccounts, SettleAccounts}

-- `rest` is what the iterator has left: the new open orders of `UpdateOpenOrder`.
pub record ParamsAccounts : Type 0 where
  pub token_program : AccountInfo
  pub amm : AccountInfo
  pub amm_authority : AccountInfo
  pub amm_open_orders : AccountInfo
  pub amm_target_orders : AccountInfo
  pub amm_coin_vault : AccountInfo
  pub amm_pc_vault : AccountInfo
  pub market_program : AccountInfo
  pub market : AccountInfo
  pub market_coin_vault : AccountInfo
  pub market_pc_vault : AccountInfo
  pub market_vault_signer : AccountInfo
  pub market_event_queue : AccountInfo
  pub market_bids : AccountInfo
  pub market_asks : AccountInfo
  pub amm_owner : AccountInfo
  pub rest : List AccountInfo

unfoldable pub params_accounts : List AccountInfo → Outcome ParamsAccounts
unfolding next_account_info
params_accounts accounts = do
  (token_program, r1) ← next_account_info accounts
  (amm, r2) ← next_account_info r1
  (amm_authority, r3) ← next_account_info r2
  (amm_open_orders, r4) ← next_account_info r3
  (amm_target_orders, r5) ← next_account_info r4
  (amm_coin_vault, r6) ← next_account_info r5
  (amm_pc_vault, r7) ← next_account_info r6
  (market_program, r8) ← next_account_info r7
  (market, r9) ← next_account_info r8
  (market_coin_vault, r10) ← next_account_info r9
  (market_pc_vault, r11) ← next_account_info r10
  (market_vault_signer, r12) ← next_account_info r11
  (market_event_queue, r13) ← next_account_info r12
  (market_bids, r14) ← next_account_info r13
  (market_asks, r15) ← next_account_info r14
  (amm_owner, r16) ← next_account_info r15
  ok (record {
    token_program = token_program;
    amm = amm;
    amm_authority = amm_authority;
    amm_open_orders = amm_open_orders;
    amm_target_orders = amm_target_orders;
    amm_coin_vault = amm_coin_vault;
    amm_pc_vault = amm_pc_vault;
    market_program = market_program;
    market = market;
    market_coin_vault = market_coin_vault;
    market_pc_vault = market_pc_vault;
    market_vault_signer = market_vault_signer;
    market_event_queue = market_event_queue;
    market_bids = market_bids;
    market_asks = market_asks;
    amm_owner = amm_owner;
    rest = r16;
  })

unfoldable pub params_cancel_accounts : ParamsAccounts → CancelAccounts
params_cancel_accounts a = record {
  market_program = a.market_program.key;
  market = a.market.key;
  bids = a.market_bids.key;
  asks = a.market_asks.key;
  open_orders = a.amm_open_orders.key;
  authority = a.amm_authority.key;
  event_queue = a.market_event_queue.key;
}

unfoldable pub params_settle_accounts : ParamsAccounts → SettleAccounts
params_settle_accounts a = record {
  market_program = a.market_program.key;
  market = a.market.key;
  open_orders = a.amm_open_orders.key;
  authority = a.amm_authority.key;
  market_coin_vault = a.market_coin_vault.key;
  market_pc_vault = a.market_pc_vault.key;
  coin_vault = a.amm_coin_vault.key;
  pc_vault = a.amm_pc_vault.key;
  market_vault_signer = a.market_vault_signer.key;
  token_program = a.token_program.key;
  referrer_pc = none;
}
