-- ===== src/Processor/Withdraw/Accounts.antt =====
-- The accounts of `process_withdraw` (program/src/processor.rs): twenty, two more with padding, one
-- more with the account that receives the market's referrer rebate.
use raydium_amm_fair.Common.{ℕ, List, ◌&&◌, ◌||◌, ◌==◌, ◌!=◌, length, if◌then◌else◌}
use raydium_amm_fair.Error.{wrong_accounts_number, invalid_owner}
use raydium_amm_fair.Outcome.{Outcome, ok, fail_if, ◌>>=◌, ◌>>◌}
use raydium_amm_fair.Config.{referrer_owner}
use raydium_amm_fair.Chain.{AccountInfo, Bank, next_account_info, token_account_of}

pub record WithdrawAccounts : Type 0 where
  pub token_program : AccountInfo
  pub amm : AccountInfo
  pub amm_authority : AccountInfo
  pub amm_open_orders : AccountInfo
  pub amm_target_orders : AccountInfo
  pub amm_lp_mint : AccountInfo
  pub amm_coin_vault : AccountInfo
  pub amm_pc_vault : AccountInfo
  pub market_program : AccountInfo
  pub market : AccountInfo
  pub market_coin_vault : AccountInfo
  pub market_pc_vault : AccountInfo
  pub market_vault_signer : AccountInfo
  pub user_source_lp : AccountInfo
  pub user_dest_coin : AccountInfo
  pub user_dest_pc : AccountInfo
  pub source_lp_owner : AccountInfo
  pub market_event_queue : AccountInfo
  pub market_bids : AccountInfo
  pub market_asks : AccountInfo
  pub referrer_pc_wallet : AccountInfo

-- The account behind the others, if there is one, must belong to the referrer's owner, unless its
-- key is the default one; without it the pool's pc vault takes its place.
unfoldable pub referrer_of :
    ℕ → AccountInfo → AccountInfo → List AccountInfo → Bank → Outcome AccountInfo
unfolding next_account_info token_account_of
referrer_of count token_program amm_pc_vault rest bank =
    if count == 21 || count == 23
    then (do
      (referrer, _) ← next_account_info rest
      if referrer.key != 0
          then (do
            token ← token_account_of token_program.key referrer.key bank
            fail_if (token.owner != referrer_owner) invalid_owner
            ok referrer)
          else ok referrer)
    else ok amm_pc_vault

unfoldable pub withdraw_accounts : List AccountInfo → Bank → Outcome WithdrawAccounts
unfolding next_account_info
withdraw_accounts accounts bank = do
  fail_if
      (length accounts != 20
        && length accounts != 21
        && length accounts != 22
        && length accounts != 23)
      wrong_accounts_number
  (token_program, r1) ← next_account_info accounts
  (amm, r2) ← next_account_info r1
  (amm_authority, r3) ← next_account_info r2
  (amm_open_orders, r4) ← next_account_info r3
  (amm_target_orders, r5) ← next_account_info r4
  (amm_lp_mint, r6) ← next_account_info r5
  (amm_coin_vault, r7) ← next_account_info r6
  (amm_pc_vault, r8) ← next_account_info r7
  (_, pad1) ← next_account_info r8
  (_, pad2) ← next_account_info pad1
  let after = if length accounts == 22 || length accounts == 23 then pad2 else r8
  (market_program, r9) ← next_account_info after
  (market, r10) ← next_account_info r9
  (market_coin_vault, r11) ← next_account_info r10
  (market_pc_vault, r12) ← next_account_info r11
  (market_vault_signer, r13) ← next_account_info r12
  (user_source_lp, r14) ← next_account_info r13
  (user_dest_coin, r15) ← next_account_info r14
  (user_dest_pc, r16) ← next_account_info r15
  (source_lp_owner, r17) ← next_account_info r16
  (market_event_queue, r18) ← next_account_info r17
  (market_bids, r19) ← next_account_info r18
  (market_asks, r20) ← next_account_info r19
  referrer_pc_wallet ← referrer_of (length accounts) token_program amm_pc_vault r20 bank
  ok (record {
    token_program = token_program;
    amm = amm;
    amm_authority = amm_authority;
    amm_open_orders = amm_open_orders;
    amm_target_orders = amm_target_orders;
    amm_lp_mint = amm_lp_mint;
    amm_coin_vault = amm_coin_vault;
    amm_pc_vault = amm_pc_vault;
    market_program = market_program;
    market = market;
    market_coin_vault = market_coin_vault;
    market_pc_vault = market_pc_vault;
    market_vault_signer = market_vault_signer;
    user_source_lp = user_source_lp;
    user_dest_coin = user_dest_coin;
    user_dest_pc = user_dest_pc;
    source_lp_owner = source_lp_owner;
    market_event_queue = market_event_queue;
    market_bids = market_bids;
    market_asks = market_asks;
    referrer_pc_wallet = referrer_pc_wallet;
  })
