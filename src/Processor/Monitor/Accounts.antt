-- ===== src/Processor/Monitor/Accounts.antt =====
-- The accounts of `process_monitor_step` and `Processor::check_accounts` (program/src/processor.rs):
-- eighteen, one more with a token account of SRM or MSRM, one more with the referrer's account.
use raydium_amm_fair.Common.{◌%◌, Option, none, some, List, [], ◌∷◌, ◌&&◌, ◌==◌, ◌!=◌, length}
use raydium_amm_fair.Error.{
  wrong_accounts_number, invalid_owner, invalid_status, invalid_program_address,
  invalid_spl_token_program, invalid_market_program, invalid_market, invalid_open_orders,
  invalid_coin_vault, invalid_pc_vault, invalid_target_orders, invalid_srm_mint,
  invalid_refer_pc_mint,
}
use raydium_amm_fair.Outcome.{Outcome, ok, fail_if, ◌>>=◌, ◌>>◌}
use raydium_amm_fair.Config.{srm_token_id, msrm_token_id, referrer_owner}
use raydium_amm_fair.State.Status.{status_into_u64, uninitialized}
use raydium_amm_fair.State.Accounts.{AmmInfo}
use raydium_amm_fair.Chain.{
  AccountInfo, Bank, Runtime, next_account_info, authority_id, token_account_of,
}

pub record MonitorAccounts : Type 0 where
  pub token_program : AccountInfo
  pub rent : AccountInfo
  pub clock : AccountInfo
  pub amm : AccountInfo
  pub amm_authority : AccountInfo
  pub amm_open_orders : AccountInfo
  pub amm_target_orders : AccountInfo
  pub amm_coin_vault : AccountInfo
  pub amm_pc_vault : AccountInfo
  pub market_program : AccountInfo
  pub market : AccountInfo
  pub market_coin_vault : AccountInfo
  pub market_pc_vault : AccountInfo
  pub market_vault_signer : AccountInfo
  pub market_request_queue : AccountInfo
  pub market_event_queue : AccountInfo
  pub market_bids : AccountInfo
  pub market_asks : AccountInfo
  pub srm_token : Option AccountInfo
  pub referrer_pc : Option AccountInfo

-- What stands behind the eighteen accounts.
abbrev pub extra_accounts : List AccountInfo → Option AccountInfo × Option AccountInfo
extra_accounts (srm_token_acc ∷ []) = (some srm_token_acc, none)
extra_accounts (srm_token_acc ∷ referrer_pc_acc ∷ []) = (some srm_token_acc, some referrer_pc_acc)
extra_accounts _ = (none, none)

unfoldable pub monitor_accounts : List AccountInfo → Outcome MonitorAccounts
unfolding next_account_info
monitor_accounts accounts = do
  fail_if (length accounts != 18 && length accounts != 19 && length accounts != 20)
      wrong_accounts_number
  (token_program, r1) ← next_account_info accounts
  (rent, r2) ← next_account_info r1
  (clock, r3) ← next_account_info r2
  (amm, r4) ← next_account_info r3
  (amm_authority, r5) ← next_account_info r4
  (amm_open_orders, r6) ← next_account_info r5
  (amm_target_orders, r7) ← next_account_info r6
  (amm_coin_vault, r8) ← next_account_info r7
  (amm_pc_vault, r9) ← next_account_info r8
  (market_program, r10) ← next_account_info r9
  (market, r11) ← next_account_info r10
  (market_coin_vault, r12) ← next_account_info r11
  (market_pc_vault, r13) ← next_account_info r12
  (market_vault_signer, r14) ← next_account_info r13
  (market_request_queue, r15) ← next_account_info r14
  (market_event_queue, r16) ← next_account_info r15
  (market_bids, r17) ← next_account_info r16
  (market_asks, r18) ← next_account_info r17
  let (srm, referrer) = extra_accounts r18
  ok (record {
    token_program = token_program;
    rent = rent;
    clock = clock;
    amm = amm;
    amm_authority = amm_authority;
    amm_open_orders = amm_open_orders;
    amm_target_orders = amm_target_orders;
    amm_coin_vault = amm_coin_vault;
    amm_pc_vault = amm_pc_vault;
    market_program = market_program;
    market = market;
    market_coin_vault = market_coin_vault;
    market_pc_vault = market_pc_vault;
    market_vault_signer = market_vault_signer;
    market_request_queue = market_request_queue;
    market_event_queue = market_event_queue;
    market_bids = market_bids;
    market_asks = market_asks;
    srm_token = srm;
    referrer_pc = referrer;
  })

-- The SRM account, if there is one, belongs to the pool's authority.
unfoldable pub check_srm : MonitorAccounts → Option AccountInfo → Bank → Outcome (Unit {0})
unfolding token_account_of
check_srm a none bank = ok tt
check_srm a (some account) bank = do
  token ← token_account_of a.token_program.key account.key bank
  fail_if (token.owner != a.amm_authority.key) invalid_owner
  fail_if (token.mint != srm_token_id && token.mint != msrm_token_id) invalid_srm_mint

unfoldable pub check_referrer :
    MonitorAccounts → AmmInfo → Option AccountInfo → Bank → Outcome (Unit {0})
unfolding token_account_of
check_referrer a amm none bank = ok tt
check_referrer a amm (some account) bank = do
  token ← token_account_of a.token_program.key account.key bank
  fail_if (token.owner != referrer_owner) invalid_owner
  fail_if (token.mint != amm.pc_vault_mint) invalid_refer_pc_mint

unfoldable pub check_accounts : Runtime → MonitorAccounts → AmmInfo → Bank → Outcome (Unit {0})
unfolding check_srm check_referrer
check_accounts rt a amm bank = do
  fail_if (amm.status == status_into_u64 uninitialized) invalid_status
  authority ← authority_id rt (amm.nonce % 256)
  fail_if (a.amm_authority.key != authority) invalid_program_address
  fail_if ((bank a.amm.key).owner != rt.program_id) invalid_owner
  fail_if (a.token_program.key != rt.spl_token_id) invalid_spl_token_program
  fail_if (a.clock.key != rt.clock_id) invalid_program_address
  fail_if (a.market_program.key != amm.market_program) invalid_market_program
  fail_if (a.market.key != amm.market) invalid_market
  fail_if (a.amm_open_orders.key != amm.open_orders) invalid_open_orders
  fail_if (a.amm_coin_vault.key != amm.coin_vault) invalid_coin_vault
  fail_if (a.amm_pc_vault.key != amm.pc_vault) invalid_pc_vault
  fail_if (a.amm_target_orders.key != amm.target_orders) invalid_target_orders
  check_srm a a.srm_token bank
  check_referrer a amm a.referrer_pc bank
