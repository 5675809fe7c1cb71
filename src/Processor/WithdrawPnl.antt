-- ===== src/Processor/WithdrawPnl.antt =====
-- `process_withdrawpnl` (program/src/processor.rs). Logs are left out.
pub mod Accounts
pub mod Facts
pub mod Paid
use raydium_amm_fair.Common.{
  ℕ, ◌%◌, Bool, true, false, List, ◌&&◌, ◌||◌, not, leb, ◌==◌, ◌!=◌, if◌then◌else◌,
}
use raydium_amm_fair.Error.{
  invalid_program_address, invalid_owner, invalid_config_account, invalid_sign_account,
  invalid_status, invalid_market, invalid_coin_vault, invalid_pc_vault, invalid_spl_token_program,
  invalid_market_program, invalid_open_orders, invalid_target_orders, invalid_coin_mint,
  invalid_pc_mint, take_pnl_error,
}
use raydium_amm_fair.Outcome.{Outcome, ok, unwrap, fail_if, ◌>>=◌, ◌>>◌}
use raydium_amm_fair.Word.{checked_sub}
use raydium_amm_fair.Config.{amm_owner_id}
use raydium_amm_fair.State.Status.{
  status_from_u64, status_into_u64, uninitialized, orderbook_permission,
}
use raydium_amm_fair.State.Accounts.{AmmInfo, AmmConfig, TargetOrders}
use raydium_amm_fair.Chain.{
  AccountData, TokenAccount, AccountInfo, Bank, Runtime, authority_id, load_amm, load_target,
  load_config, unpack_token_account, write,
}
use raydium_amm_fair.Dex.Types.{Market}
use raydium_amm_fair.Math.Decimal.{normalize_decimal_v2}
use raydium_amm_fair.Math.Totals.{
  calc_total_without_take_pnl, calc_total_without_take_pnl_no_orderbook,
}
use raydium_amm_fair.Processor.Market.{load_serum_market_order, unwrap_result}
use raydium_amm_fair.Processor.Pnl.{Pnl, calc_take_pnl}
use raydium_amm_fair.Processor.WithdrawPnl.Accounts.{WithdrawPnlAccounts, withdrawpnl_accounts}

-- The signature is that of the program's owner or of the owner of the profit.
unfoldable pub check_pnl_owner : Runtime → WithdrawPnlAccounts → Bank → Outcome (Unit {0})
check_pnl_owner rt a bank = do
  fail_if (rt.config_address != a.amm_config.key || (bank a.amm_config.key).owner != rt.program_id)
      invalid_config_account
  amm_config ← load_config rt a.amm_config.key bank
  fail_if
      (not a.pnl_owner.is_signer
        || (a.pnl_owner.key != amm_owner_id && a.pnl_owner.key != amm_config.pnl_owner))
      invalid_sign_account

unfoldable pub check_pnl_keys : Runtime → WithdrawPnlAccounts → AmmInfo → Outcome (Unit {0})
check_pnl_keys rt a amm = do
  fail_if (amm.status == status_into_u64 uninitialized) invalid_status
  fail_if (a.market.key != amm.market) invalid_market
  fail_if (a.amm_coin_vault.key != amm.coin_vault) invalid_coin_vault
  fail_if (a.amm_pc_vault.key != amm.pc_vault) invalid_pc_vault
  fail_if (a.token_program.key != rt.spl_token_id) invalid_spl_token_program
  fail_if (a.market_program.key != amm.market_program) invalid_market_program
  fail_if (a.amm_open_orders.key != amm.open_orders) invalid_open_orders
  fail_if (a.amm_target_orders.key != amm.target_orders) invalid_target_orders

-- The result is whether the order book is enabled.
unfoldable pub check_withdrawpnl : Runtime → WithdrawPnlAccounts → AmmInfo → Bank → Outcome Bool
check_withdrawpnl rt a amm bank = do
  authority ← authority_id rt (amm.nonce % 256)
  fail_if (a.amm_authority.key != authority) invalid_program_address
  fail_if ((bank a.amm.key).owner != rt.program_id) invalid_owner
  status ← status_from_u64 amm.status
  check_pnl_owner rt a bank
  check_pnl_keys rt a amm
  ok (orderbook_permission status)

pub record PnlTokens : Type 0 where
  pub coin_vault : TokenAccount
  pub pc_vault : TokenAccount
  pub user_coin : TokenAccount
  pub user_pc : TokenAccount
  pub target : TargetOrders

unfoldable pub pnl_tokens : Runtime → WithdrawPnlAccounts → AmmInfo → Bank → Outcome PnlTokens
pnl_tokens rt a amm bank = do
  coin_vault ← unpack_token_account rt a.amm_coin_vault.key bank
  pc_vault ← unpack_token_account rt a.amm_pc_vault.key bank
  user_coin ← unpack_token_account rt a.user_pnl_coin.key bank
  user_pc ← unpack_token_account rt a.user_pnl_pc.key bank
  target ← load_target rt a.amm_target_orders.key a.amm.key bank
  fail_if (coin_vault.mint != amm.coin_vault_mint || user_coin.mint != amm.coin_vault_mint)
      invalid_coin_mint
  fail_if (pc_vault.mint != amm.pc_vault_mint || user_pc.mint != amm.pc_vault_mint) invalid_pc_mint
  ok (record {
    coin_vault = coin_vault;
    pc_vault = pc_vault;
    user_coin = user_coin;
    user_pc = user_pc;
    target = target;
  })

-- The totals of pc and of coin.
unfoldable pub pnl_totals :
    Market → Bool → WithdrawPnlAccounts → AmmInfo → PnlTokens → Bank → Outcome (ℕ × ℕ)
pnl_totals mk true a amm t bank = do
  fail_if (a.market.key != amm.market) invalid_market
  fail_if (a.amm_open_orders.key != amm.open_orders) invalid_open_orders
  (market_state, open_orders) ←
      load_serum_market_order mk false a.market.key a.amm_open_orders.key a.amm_authority.key amm
        bank
  fail_if
      (market_state.coin_mint != t.coin_vault.mint || market_state.coin_mint != t.user_coin.mint)
      invalid_coin_mint
  fail_if (market_state.pc_mint != t.pc_vault.mint || market_state.pc_mint != t.user_pc.mint)
      invalid_pc_mint
  events ← unwrap_result (mk.load_event_queue market_state a.market_event_queue.key bank)
  calc_total_without_take_pnl t.pc_vault.amount t.coin_vault.amount open_orders amm events
      a.amm_open_orders.key
pnl_totals mk false a amm t bank =
    calc_total_without_take_pnl_no_orderbook t.pc_vault.amount t.coin_vault.amount amm

-- The two transfers of what is owed, and the two records: nothing is owed any more.
unfoldable pub pay_pnl :
    Runtime → WithdrawPnlAccounts → PnlTokens → Pnl → ℕ → ℕ → Bank → Outcome Bank
pay_pnl rt a t p x1 y1 bank = do
  let owed = p.amm.state_data
  fail_if
      (not (
        leb owed.need_take_pnl_coin t.coin_vault.amount
        && leb owed.need_take_pnl_pc t.pc_vault.amount))
      take_pnl_error
  coin_paid ←
      rt.transfer a.amm_coin_vault.key a.user_pnl_coin.key a.amm_authority.key
        owed.need_take_pnl_coin bank
  pc_paid ←
      rt.transfer a.amm_pc_vault.key a.user_pnl_pc.key a.amm_authority.key owed.need_take_pnl_pc
        coin_paid
  calc_pnl_x ← unwrap (checked_sub x1 p.delta_x)
  calc_pnl_y ← unwrap (checked_sub y1 p.delta_y)
  clock ← rt.clock
  let target' : TargetOrders = record t.target { calc_pnl_x = calc_pnl_x; calc_pnl_y = calc_pnl_y }
  let amm' : AmmInfo = record p.amm {
    state_data = record owed { need_take_pnl_coin = 0; need_take_pnl_pc = 0 };
    recent_epoch = clock.epoch;
  }
  ok (
      write a.amm.key (AccountData.amm_data amm')
        (write a.amm_target_orders.key (AccountData.target_data target') pc_paid))

unfoldable pub process_withdrawpnl :
    (ℕ → ℕ) → Runtime → Market → List AccountInfo → Bank → Outcome Bank
process_withdrawpnl integer_sqrt rt mk accounts bank = do
  a ← withdrawpnl_accounts accounts bank
  amm ← load_amm rt a.amm.key bank
  enable_orderbook ← check_withdrawpnl rt a amm bank
  t ← pnl_tokens rt a amm bank
  (total_pc, total_coin) ← pnl_totals mk enable_orderbook a amm t bank
  x1 ← normalize_decimal_v2 total_pc amm.pc_decimals amm.sys_decimal_value
  y1 ← normalize_decimal_v2 total_coin amm.coin_decimals amm.sys_decimal_value
  p ← calc_take_pnl integer_sqrt t.target amm total_pc total_coin x1 y1
  pay_pnl rt a t p x1 y1 bank
