-- ===== src/Processor/AdminCancel.antt =====
-- `process_admin_cancel_orders` (program/src/processor.rs).
pub mod Cancelled
use raydium_amm_fair.Common.{
  true, ◌%◌, Option, none, some, List, ◌&&◌, ◌||◌, not, ◌==◌, ◌!=◌, length, if◌then◌else◌,
}
use raydium_amm_fair.Error.{
  wrong_accounts_number, invalid_spl_token_program, invalid_program_address, invalid_owner,
  invalid_config_account, invalid_sign_account, invalid_status, invalid_market_program,
  invalid_market, invalid_open_orders, invalid_coin_vault, invalid_pc_vault, invalid_target_orders,
  invalid_srm_mint, invalid_refer_pc_mint,
}
use raydium_amm_fair.Outcome.{Outcome, ok, fail_if, ◌>>=◌, ◌>>◌}
use raydium_amm_fair.Config.{srm_token_id, msrm_token_id, amm_owner_id, referrer_owner}
use raydium_amm_fair.State.Status.{status_into_u64, uninitialized}
use raydium_amm_fair.State.Accounts.{AmmInfo}
use raydium_amm_fair.Chain.{
  AccountInfo, Bank, Runtime, next_account_info, authority_id, load_amm, load_config,
  unpack_token_account,
}
use raydium_amm_fair.Dex.Types.{Market, CancelAccounts, SettleAccounts}
use raydium_amm_fair.Processor.Market.{load_serum_market_order}
use raydium_amm_fair.Processor.Cancel.{do_cancel_amm_orders}
use raydium_amm_fair.Processor.Monitor.Accounts.{extra_accounts}

pub record AdminAccounts : Type 0 where
  pub token_program : AccountInfo
  pub amm : AccountInfo
  pub amm_authority : AccountInfo
  pub amm_open_orders : AccountInfo
  pub amm_target_orders : AccountInfo
  pub amm_coin_vault : AccountInfo
  pub amm_pc_vault : AccountInfo
  pub amm_owner : AccountInfo
  pub amm_config : AccountInfo
  pub market_program : AccountInfo
  pub market : AccountInfo
  pub market_coin_vault : AccountInfo
  pub market_pc_vault : AccountInfo
  pub market_vault_signer : AccountInfo
  pub market_event_queue : AccountInfo
  pub market_bids : AccountInfo
  pub market_asks : AccountInfo
  pub srm_token : Option AccountInfo
  pub referrer_pc : Option AccountInfo

-- Seventeen accounts, one more with a token account of SRM, one more with the referrer's.
unfoldable pub admin_accounts : List AccountInfo → Outcome AdminAccounts
unfolding next_account_info
admin_accounts accounts = do
  fail_if (length accounts != 17 && length accounts != 18 && length accounts != 19)
      wrong_accounts_number
  (token_program, r1) ← next_account_info accounts
  (amm, r2) ← next_account_info r1
  (amm_authority, r3) ← next_account_info r2
  (amm_open_orders, r4) ← next_account_info r3
  (amm_target_orders, r5) ← next_account_info r4
  (amm_coin_vault, r6) ← next_account_info r5
  (amm_pc_vault, r7) ← next_account_info r6
  (amm_owner, r8) ← next_account_info r7
  (amm_config, r9) ← next_account_info r8
  (market_program, r10) ← next_account_info r9
  (market, r11) ← next_account_info r10
  (market_coin_vault, r12) ← next_account_info r11
  (market_pc_vault, r13) ← next_account_info r12
  (market_vault_signer, r14) ← next_account_info r13
  (market_event_queue, r15) ← next_account_info r14
  (market_bids, r16) ← next_account_info r15
  (market_asks, r17) ← next_account_info r16
  let (srm, referrer) = extra_accounts r17
  ok (record {
    token_program = token_program;
    amm = amm;
    amm_authority = amm_authority;
    amm_open_orders = amm_open_orders;
    amm_target_orders = amm_target_orders;
    amm_coin_vault = amm_coin_vault;
    amm_pc_vault = amm_pc_vault;
    amm_owner = amm_owner;
    amm_config = amm_config;
    market_program = market_program;
    market = market;
    market_coin_vault = market_coin_vault;
    market_pc_vault = market_pc_vault;
    market_vault_signer = market_vault_signer;
    market_event_queue = market_event_queue;
    market_bids = market_bids;
    market_asks = market_asks;
    srm_token = srm;
    referrer_pc = referrer;
  })

unfoldable pub check_admin_keys : Runtime → AdminAccounts → AmmInfo → Outcome (Unit {0})
check_admin_keys rt a amm = do
  fail_if (amm.status == status_into_u64 uninitialized) invalid_status
  fail_if (a.market_program.key != amm.market_program) invalid_market_program
  fail_if (a.market.key != amm.market) invalid_market
  fail_if (a.amm_open_orders.key != amm.open_orders) invalid_open_orders
  fail_if (amm.coin_vault != a.amm_coin_vault.key) invalid_coin_vault
  fail_if (amm.pc_vault != a.amm_pc_vault.key) invalid_pc_vault
  fail_if (amm.target_orders != a.amm_target_orders.key) invalid_target_orders

unfoldable pub check_admin_srm :
    Runtime → AdminAccounts → Option AccountInfo → Bank → Outcome (Unit {0})
check_admin_srm rt a none bank = ok tt
check_admin_srm rt a (some srm_token_info) bank = do
  token ← unpack_token_account rt srm_token_info.key bank
  fail_if (a.amm_authority.key != token.owner) invalid_owner
  fail_if (token.mint != srm_token_id && token.mint != msrm_token_id) invalid_srm_mint

unfoldable pub check_admin_referrer :
    Runtime → AmmInfo → Option AccountInfo → Bank → Outcome (Unit {0})
check_admin_referrer rt amm none bank = ok tt
check_admin_referrer rt amm (some referrer_pc_info) bank = do
  token ← unpack_token_account rt referrer_pc_info.key bank
  fail_if (token.owner != referrer_owner) invalid_owner
  fail_if (token.mint != amm.pc_vault_mint) invalid_refer_pc_mint

-- The signature is that of the program's owner or of the owner of cancellation.
unfoldable pub check_cancel_owner : Runtime → AdminAccounts → Bank → Outcome (Unit {0})
check_cancel_owner rt a bank = do
  fail_if (rt.config_address != a.amm_config.key) invalid_config_account
  amm_config ← load_config rt a.amm_config.key bank
  fail_if
      (not a.amm_owner.is_signer
        || (a.amm_owner.key != amm_owner_id && a.amm_owner.key != amm_config.cancel_owner))
      invalid_sign_account

unfoldable pub check_admin : Runtime → AdminAccounts → AmmInfo → Bank → Outcome (Unit {0})
check_admin rt a amm bank = do
  authority ← authority_id rt (amm.nonce % 256)
  fail_if (a.amm_authority.key != authority) invalid_program_address
  fail_if ((bank a.amm.key).owner != rt.program_id) invalid_owner
  check_cancel_owner rt a bank
  check_admin_keys rt a amm
  check_admin_srm rt a a.srm_token bank
  check_admin_referrer rt amm a.referrer_pc bank

unfoldable pub admin_cancel_accounts : AdminAccounts → CancelAccounts
admin_cancel_accounts a = record {
  market_program = a.market_program.key;
  market = a.market.key;
  bids = a.market_bids.key;
  asks = a.market_asks.key;
  open_orders = a.amm_open_orders.key;
  authority = a.amm_authority.key;
  event_queue = a.market_event_queue.key;
}

unfoldable pub admin_settle_accounts : AdminAccounts → SettleAccounts
admin_settle_accounts a = record {
  market_program = a.market_program.key;
  market = a.market.key;
  open_orders = a.amm_open_orders.key;
  authority = a.amm_authority.key;
  market_coin_vault = a.market_coin_vault.key;
  market_pc_vault = a.market_pc_vault.key;
  coin_vault = a.amm_coin_vault.key;
  pc_vault = a.amm_pc_vault.key;
  market_vault_signer = a.market_vault_signer.key;
  token_program = a.token_program.key;
  referrer_pc = elim a.referrer_pc [ none ↦ none | some account ↦ some account.key ];
}

-- Funds are settled where the open orders have any that are free.
unfoldable pub process_admin_cancel_orders :
    Runtime → Market → List AccountInfo → Bank → Outcome Bank
process_admin_cancel_orders rt mk accounts bank = do
  a ← admin_accounts accounts
  fail_if (a.token_program.key != rt.spl_token_id) invalid_spl_token_program
  amm ← load_amm rt a.amm.key bank
  check_admin rt a amm bank
  cancelled ← do_cancel_amm_orders mk (admin_cancel_accounts a) amm bank
  (_, open_orders) ←
      load_serum_market_order mk true a.market.key a.amm_open_orders.key a.amm_authority.key amm
        cancelled
  if open_orders.native_coin_free == 0 && open_orders.native_pc_free == 0
      then ok cancelled
      else mk.settle_funds (admin_settle_accounts a) cancelled
