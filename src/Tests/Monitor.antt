-- ===== src/Tests/Monitor.antt =====
-- A monitor step on the small chain.
use raydium_amm_fair.Common.{ℕ, ◌≡◌, refl, none}
use raydium_amm_fair.Outcome.{ok}
use raydium_amm_fair.Config.{openbook_program}
use raydium_amm_fair.State.Status.{status_from_u64, state_from_u64, idle_state}
use raydium_amm_fair.State.Accounts.{AmmInfo}
use raydium_amm_fair.Chain.{
  Bank, next_account_info, load_amm, load_target, authority_id, token_account_of,
}
use raydium_amm_fair.Dex.Orders.{get_amm_orders}
use raydium_amm_fair.Instruction.Types.{MonitorStepInstruction}
use raydium_amm_fair.Math.Decimal.{normalize_decimal_v2, restore_decimal, calc_x_power}
use raydium_amm_fair.Math.Totals.{calc_total_without_take_pnl}
use raydium_amm_fair.Processor.Market.{load_serum_market_order}
use raydium_amm_fair.Processor.Cancel.{load_own_orders}
use raydium_amm_fair.Processor.Pnl.{calc_take_pnl, take_pnl, pnl_share, record_pnl}
use raydium_amm_fair.Processor.Monitor.Accounts.{MonitorAccounts, monitor_accounts, check_accounts}
use raydium_amm_fair.Processor.Monitor.Clear.{monitor_cancel_accounts}
use raydium_amm_fair.Processor.Monitor.Idle.{compare_placed, check_price, idle_pnl, do_idle_state}
use raydium_amm_fair.Processor.Monitor.Step.{
  idle_step, state_step, status_step, monitor_branch, process_monitor_step,
}
use raydium_amm_fair.Processor.Monitor.Trace.{IsMonitored, process_monitor_step-edge}
use raydium_amm_fair.Tests.World.{runtime, account, bank_after}
use raydium_amm_fair.Tests.Book.{open_market, book_pool, book_bank, monitor_list}

abbrev root : ℕ → ℕ
root n = 100000

abbrev named : MonitorAccounts
named = record {
  token_program = account 901;
  rent = account 905;
  clock = account 904;
  amm = account 10;
  amm_authority = account 902;
  amm_open_orders = account 11;
  amm_target_orders = account 25;
  amm_coin_vault = account 12;
  amm_pc_vault = account 13;
  market_program = account openbook_program;
  market = account 15;
  market_coin_vault = account 19;
  market_pc_vault = account 20;
  market_vault_signer = account 21;
  market_request_queue = account 29;
  market_event_queue = account 18;
  market_bids = account 16;
  market_asks = account 17;
  srm_token = none;
  referrer_pc = none;
}

abbrev monitor : MonitorStepInstruction
monitor = record { plan_order_limit = 3; place_order_limit = 3; cancel_order_limit = 3 }

after : Bank
after = bank_after (process_monitor_step root runtime open_market monitor_list monitor book_bank)

ran : process_monitor_step root runtime open_market monitor_list monitor book_bank ≡ ok after
unfolding after process_monitor_step monitor_accounts next_account_info load_amm check_accounts
    authority_id status_from_u64 state_from_u64 monitor_branch status_step state_step idle_step
    token_account_of load_target load_own_orders load_serum_market_order monitor_cancel_accounts
    get_amm_orders calc_total_without_take_pnl do_idle_state normalize_decimal_v2 compare_placed
    check_price idle_pnl calc_take_pnl restore_decimal take_pnl calc_x_power pnl_share record_pnl
ran = refl

process_monitor_step-edge_example :
    (amm' : AmmInfo) × IsMonitored named idle_state book_pool after amm'
unfolding monitor_accounts next_account_info load_amm state_from_u64
process_monitor_step-edge_example =
    process_monitor_step-edge root runtime open_market monitor_list monitor book_bank named
      book_pool idle_state refl refl refl ran
