-- ===== src/Processor/Migrate.antt =====
-- `process_migrate_to_openbook` (program/src/processor.rs). Logs are left out.
pub mod Forgets
use raydium_amm_fair.Common.{ℕ, ◌%◌, none, List, ◌||◌, not, ◌!=◌, if◌then◌else◌, false}
use raydium_amm_fair.Error.{
  invalid_sign_account, invalid_program_address, invalid_spl_token_program,
  invalid_sys_program_address, invalid_coin_vault, invalid_pc_vault, invalid_market,
  invalid_market_program, invalid_open_orders, invalid_coin_mint, invalid_pc_mint,
  unknown_amm_error,
}
use raydium_amm_fair.Outcome.{Outcome, ok, fail_if, ◌>>=◌, ◌>>◌}
use raydium_amm_fair.Word.{as_width}
use raydium_amm_fair.Config.{openbook_program, amm_owner_id}
use raydium_amm_fair.State.Status.{status_into_u64, waiting_trade, reset_flag_into_u64, reset_yes}
use raydium_amm_fair.State.Accounts.{AmmInfo, TargetOrders}
use raydium_amm_fair.State.Initialize.{initialize}
use raydium_amm_fair.Chain.{
  AccountInfo, AccountData, Bank, Runtime, next_account_info, authority_id, load_amm, load_target,
  write,
}
use raydium_amm_fair.Dex.Types.{Market, MarketState, CancelAccounts, SettleAccounts}
use raydium_amm_fair.Math.Decimal.{restore_decimal, normalize_decimal_v2}
use raydium_amm_fair.Math.Totals.{calc_exact_vault_in_serum}
use raydium_amm_fair.Processor.Market.{load_serum_market_order, unwrap_result}
use raydium_amm_fair.Processor.Cancel.{do_cancel_amm_orders}
use raydium_amm_fair.Processor.Initialize.Programs.{
  System, open_order_associated_seed, open_orders_space,
}
use raydium_amm_fair.Processor.Initialize.Create.{generate_amm_associated_account}

pub record MigrateAccounts : Type 0 where
  pub token_program : AccountInfo
  pub system_program : AccountInfo
  pub rent_sysvar : AccountInfo
  pub amm : AccountInfo
  pub amm_authority : AccountInfo
  pub amm_open_orders : AccountInfo
  pub amm_coin_vault : AccountInfo
  pub amm_pc_vault : AccountInfo
  pub amm_target_orders : AccountInfo
  pub market_program : AccountInfo
  pub market : AccountInfo
  pub market_bids : AccountInfo
  pub market_asks : AccountInfo
  pub market_event_queue : AccountInfo
  pub market_coin_vault : AccountInfo
  pub market_pc_vault : AccountInfo
  pub market_vault_signer : AccountInfo
  pub new_amm_open_orders : AccountInfo
  pub new_market_program : AccountInfo
  pub new_market : AccountInfo
  pub admin : AccountInfo

unfoldable pub migrate_accounts : List AccountInfo → Outcome MigrateAccounts
unfolding next_account_info
migrate_accounts accounts = do
  (token_program, r1) ← next_account_info accounts
  (system_program, r2) ← next_account_info r1
  (rent_sysvar, r3) ← next_account_info r2
  (amm, r4) ← next_account_info r3
  (amm_authority, r5) ← next_account_info r4
  (amm_open_orders, r6) ← next_account_info r5
  (amm_coin_vault, r7) ← next_account_info r6
  (amm_pc_vault, r8) ← next_account_info r7
  (amm_target_orders, r9) ← next_account_info r8
  (market_program, r10) ← next_account_info r9
  (market, r11) ← next_account_info r10
  (market_bids, r12) ← next_account_info r11
  (market_asks, r13) ← next_account_info r12
  (market_event_queue, r14) ← next_account_info r13
  (market_coin_vault, r15) ← next_account_info r14
  (market_pc_vault, r16) ← next_account_info r15
  (market_vault_signer, r17) ← next_account_info r16
  (new_amm_open_orders, r18) ← next_account_info r17
  (new_market_program, r19) ← next_account_info r18
  (new_market, r20) ← next_account_info r19
  (admin, _) ← next_account_info r20
  ok (record {
    token_program = token_program;
    system_program = system_program;
    rent_sysvar = rent_sysvar;
    amm = amm;
    amm_authority = amm_authority;
    amm_open_orders = amm_open_orders;
    amm_coin_vault = amm_coin_vault;
    amm_pc_vault = amm_pc_vault;
    amm_target_orders = amm_target_orders;
    market_program = market_program;
    market = market;
    market_bids = market_bids;
    market_asks = market_asks;
    market_event_queue = market_event_queue;
    market_coin_vault = market_coin_vault;
    market_pc_vault = market_pc_vault;
    market_vault_signer = market_vault_signer;
    new_amm_open_orders = new_amm_open_orders;
    new_market_program = new_market_program;
    new_market = new_market;
    admin = admin;
  })

unfoldable pub check_migrate : Runtime → System → MigrateAccounts → AmmInfo → Outcome (Unit {0})
check_migrate rt sys a amm = do
  fail_if (not a.admin.is_signer || a.admin.key != amm_owner_id) invalid_sign_account
  authority ← authority_id rt (amm.nonce % 256)
  fail_if (a.amm_authority.key != authority) invalid_program_address
  fail_if (a.token_program.key != rt.spl_token_id) invalid_spl_token_program
  fail_if (a.system_program.key != sys.system_program_id) invalid_sys_program_address
  fail_if (a.amm_coin_vault.key != amm.coin_vault) invalid_coin_vault
  fail_if (a.amm_pc_vault.key != amm.pc_vault) invalid_pc_vault
  fail_if (a.amm_target_orders.key != amm.target_orders) invalid_pc_vault
  fail_if (a.market.key != amm.market) invalid_market
  fail_if (a.market_program.key != amm.market_program) invalid_market_program
  fail_if (a.amm_open_orders.key != amm.open_orders) invalid_open_orders

unfoldable pub migrate_cancel_accounts : MigrateAccounts → CancelAccounts
migrate_cancel_accounts a = record {
  market_program = a.market_program.key;
  market = a.market.key;
  bids = a.market_bids.key;
  asks = a.market_asks.key;
  open_orders = a.amm_open_orders.key;
  authority = a.amm_authority.key;
  event_queue = a.market_event_queue.key;
}

unfoldable pub migrate_settle_accounts : MigrateAccounts → SettleAccounts
migrate_settle_accounts a = record {
  market_program = a.market_program.key;
  market = a.market.key;
  open_orders = a.amm_open_orders.key;
  authority = a.amm_authority.key;
  market_coin_vault = a.market_coin_vault.key;
  market_pc_vault = a.market_pc_vault.key;
  coin_vault = a.amm_coin_vault.key;
  pc_vault = a.amm_pc_vault.key;
  market_vault_signer = a.market_vault_signer.key;
  token_program = a.token_program.key;
  referrer_pc = none;
}

-- All orders off the old market, all funds settled, and nothing left there.
unfoldable pub leave_market :
    Market → MigrateAccounts → AmmInfo → Bank → Outcome (MarketState × Bank)
leave_market mk a amm bank = do
  cancelled ← do_cancel_amm_orders mk (migrate_cancel_accounts a) amm bank
  settled ← mk.settle_funds (migrate_settle_accounts a) cancelled
  (market_state, open_orders) ←
      load_serum_market_order mk false a.market.key a.amm_open_orders.key a.amm_authority.key amm
        settled
  fail_if (market_state.coin_mint != amm.coin_vault_mint) invalid_coin_mint
  fail_if (market_state.pc_mint != amm.pc_vault_mint) invalid_pc_mint
  events ← unwrap_result (mk.load_event_queue market_state a.market_event_queue.key settled)
  (pc_total, coin_total) ← calc_exact_vault_in_serum open_orders events a.amm_open_orders.key
  fail_if (pc_total != 0 || coin_total != 0) unknown_amm_error
  ok (market_state, settled)

-- The new market, with new open orders on it.
unfoldable pub enter_market :
    Runtime → System → Market → MigrateAccounts → AmmInfo → Bank → Outcome (MarketState × Bank)
enter_market rt sys mk a amm bank = do
  fail_if (a.new_market_program.key != openbook_program) invalid_market_program
  new_market_state ← mk.load_market false a.new_market.key openbook_program bank
  fail_if (new_market_state.coin_mint != amm.coin_vault_mint) invalid_coin_mint
  fail_if (new_market_state.pc_mint != amm.pc_vault_mint) invalid_pc_mint
  created ←
      generate_amm_associated_account rt sys
        (record {
          market = a.new_market.key;
          user_wallet = a.admin.key;
          system_program = a.system_program.key;
          rent_sysvar = a.rent_sysvar.key;
        })
        a.new_market_program.key a.new_amm_open_orders.key open_order_associated_seed
        open_orders_space bank
  opened ←
      sys.init_open_orders a.new_market_program.key a.new_amm_open_orders.key a.amm_authority.key
        a.new_market.key created
  ok (new_market_state, opened)

-- The pool on the new market; `initialize` sets its profit, its fees and its counters back too.
unfoldable pub moved_pool : MigrateAccounts → MarketState → ℕ → AmmInfo → Outcome AmmInfo
moved_pool a new epoch amm = do
  started ←
      initialize (amm.nonce % 256) amm.state_data.pool_open_time (amm.coin_decimals % 256)
        (amm.pc_decimals % 256) new.coin_lot_size new.pc_lot_size epoch
        (record amm {
          market_program = a.new_market_program.key;
          market = a.new_market.key;
          open_orders = a.new_amm_open_orders.key;
        })
  ok (record started {
    status = status_into_u64 waiting_trade;
    reset_flag = reset_flag_into_u64 reset_yes;
  })

-- The amounts to compare with next time, where a lot size is another one.
unfoldable pub moved_target :
    MarketState → MarketState → ℕ → ℕ → AmmInfo → TargetOrders → Outcome TargetOrders
moved_target old new pnl_pc pnl_coin amm target =
    if new.coin_lot_size != old.coin_lot_size || new.pc_lot_size != old.pc_lot_size
    then (do
      x ← normalize_decimal_v2 pnl_pc amm.pc_decimals amm.sys_decimal_value
      y ← normalize_decimal_v2 pnl_coin amm.coin_decimals amm.sys_decimal_value
      ok (record target { calc_pnl_x = x; calc_pnl_y = y }))
    else ok target

-- The clock is read once for both epochs.
unfoldable pub process_migrate_to_openbook :
    Runtime → System → Market → List AccountInfo → Bank → Outcome Bank
process_migrate_to_openbook rt sys mk accounts bank = do
  a ← migrate_accounts accounts
  amm ← load_amm rt a.amm.key bank
  check_migrate rt sys a amm
  target ← load_target rt a.amm_target_orders.key a.amm.key bank
  wide_pc ← restore_decimal target.calc_pnl_x amm.pc_decimals amm.sys_decimal_value
  pnl_pc_amount ← as_width 64 wide_pc
  wide_coin ← restore_decimal target.calc_pnl_y amm.coin_decimals amm.sys_decimal_value
  pnl_coin_amount ← as_width 64 wide_coin
  (old, left) ← leave_market mk a amm bank
  (new, entered) ← enter_market rt sys mk a amm left
  clock ← rt.clock
  amm' ← moved_pool a new clock.epoch amm
  target' ← moved_target old new pnl_pc_amount pnl_coin_amount amm' target
  ok (
      write a.amm.key (AccountData.amm_data amm')
        (write a.amm_target_orders.key (AccountData.target_data target') entered))
