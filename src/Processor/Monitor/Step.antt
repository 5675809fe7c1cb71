-- ===== src/Processor/Monitor/Step.antt =====
-- `process_monitor_step` and the parsers of `account_parser` (program/src/processor.rs). Each parser
-- loads what its state needs and hands it on; an error of it is unwrapped, which panics.
use raydium_amm_fair.Common.{true, false, ℕ, ◌==◌, ◌!=◌, Option, none, some, List, if◌then◌else◌}
use raydium_amm_fair.Error.{
  ProgramError, invalid_market_program, invalid_owner, invalid_status, market_lot_size_is_too_large,
}
use raydium_amm_fair.Outcome.{Outcome, ok, err, fail_if, ◌>>=◌, ◌>>◌}
use raydium_amm_fair.Config.{openbook_program}
use raydium_amm_fair.State.Status.{
  AmmStatus, AmmState, status_from_u64, state_from_u64, state_into_u64, idle_state,
  reset_flag_into_u64, reset_yes,
}
use raydium_amm_fair.State.Accounts.{AmmInfo}
use raydium_amm_fair.Chain.{
  AccountInfo, AccountData, Bank, Runtime, load_amm, load_target, token_account_of, write,
}
use raydium_amm_fair.Dex.Types.{Market, MarketState, OpenOrders}
use raydium_amm_fair.Instruction.Types.{MonitorStepInstruction}
use raydium_amm_fair.Math.Totals.{calc_total_without_take_pnl}
use raydium_amm_fair.Processor.Market.{load_serum_market_order, unwrap_result}
use raydium_amm_fair.Processor.Cancel.{load_own_orders}
use raydium_amm_fair.Processor.Monitor.Accounts.{MonitorAccounts, monitor_accounts, check_accounts}
use raydium_amm_fair.Processor.Monitor.Idle.{do_idle_state}
use raydium_amm_fair.Processor.Monitor.Plan.{do_plan_orderbook}
use raydium_amm_fair.Processor.Monitor.Place.{MonitorResult, do_place_orders}
use raydium_amm_fair.Processor.Monitor.Clear.{
  monitor_cancel_accounts, do_purge_orders, do_cancel_all_orders_state,
}

-- The two records are written back through the references that the source holds.
abbrev pub store : MonitorAccounts → MonitorResult → Bank
store a r =
    write a.amm.key (AccountData.amm_data r.amm)
      (write a.amm_target_orders.key (AccountData.target_data r.target) r.bank)

-- The amounts of coin and of pc in the vaults.
unfoldable pub vault_amounts : MonitorAccounts → Bank → Outcome (ℕ × ℕ)
vault_amounts a bank = do
  amm_coin_vault ← token_account_of a.token_program.key a.amm_coin_vault.key bank
  amm_pc_vault ← token_account_of a.token_program.key a.amm_pc_vault.key bank
  ok (amm_coin_vault.amount, amm_pc_vault.amount)

-- The totals of pc and of coin.
unfoldable pub monitor_totals :
    Market → MonitorAccounts → AmmInfo → MarketState → OpenOrders → ℕ → ℕ → Bank → Outcome (ℕ × ℕ)
monitor_totals mk a amm market_state open_orders coin pc bank = do
  events ← unwrap_result (mk.load_event_queue market_state a.market_event_queue.key bank)
  calc_total_without_take_pnl pc coin open_orders amm events a.amm_open_orders.key

module _ (rt : Runtime) (mk : Market) (a : MonitorAccounts) (amm : AmmInfo) (bank : Bank) where
  -- `IdleArgs::with_parsed_args`
  unfoldable pub idle_step : (ℕ → ℕ) → Outcome MonitorResult
  unfolding vault_amounts monitor_totals
  idle_step integer_sqrt = do
    (coin, pc) ← vault_amounts a bank
    target ← load_target rt a.amm_target_orders.key a.amm.key bank
    own ← load_own_orders mk false (monitor_cancel_accounts a) amm bank
    (total_pc, total_coin) ← monitor_totals mk a amm own.market_state own.open_orders coin pc bank
    (amm', target') ← do_idle_state integer_sqrt amm target own.bids own.asks total_pc total_coin
    ok (record { amm = amm'; target = target'; bank = bank })

  -- `CancelAllOrdersArgs::with_parsed_args`
  unfoldable pub cancel_all_step : Outcome MonitorResult
  cancel_all_step = do
    target ← load_target rt a.amm_target_orders.key a.amm.key bank
    own ← load_own_orders mk true (monitor_cancel_accounts a) amm bank
    do_cancel_all_orders_state mk a amm target own bank

  -- `PlanOrderBookArgs::with_parsed_args`
  unfoldable pub plan_step : ℕ → Outcome MonitorResult
  unfolding vault_amounts monitor_totals
  plan_step limit = do
    (coin, pc) ← vault_amounts a bank
    target ← load_target rt a.amm_target_orders.key a.amm.key bank
    (market_state, open_orders) ←
        load_serum_market_order mk false a.market.key a.amm_open_orders.key a.amm_authority.key amm
          bank
    (total_pc, total_coin) ← monitor_totals mk a amm market_state open_orders coin pc bank
    (amm', target') ← do_plan_orderbook amm target limit total_pc total_coin
    ok (record { amm = amm'; target = target'; bank = bank })

  -- `CancelOrderArgs::with_parsed_args` with `do_cancel_order`, which only changes the state.
  unfoldable pub cancel_order_step : Outcome MonitorResult
  unfolding vault_amounts
  cancel_order_step = do
    _ ← vault_amounts a bank
    target ← load_target rt a.amm_target_orders.key a.amm.key bank
    _ ← load_own_orders mk true (monitor_cancel_accounts a) amm bank
    ok (record {
      amm = record amm { state = state_into_u64 idle_state };
      target = target;
      bank = bank;
    })

  -- `PlaceOrdersArgs::with_parsed_args`
  unfoldable pub place_step : ℕ → Outcome MonitorResult
  unfolding vault_amounts monitor_totals
  place_step limit = do
    (coin, pc) ← vault_amounts a bank
    target ← load_target rt a.amm_target_orders.key a.amm.key bank
    own ← load_own_orders mk false (monitor_cancel_accounts a) amm bank
    (total_pc, total_coin) ← monitor_totals mk a amm own.market_state own.open_orders coin pc bank
    do_place_orders rt mk a amm target own.open_orders own.bids own.asks total_pc total_coin coin pc
        limit bank

  -- `PurgeOrderArgs::with_parsed_args`
  unfoldable pub purge_step : Outcome MonitorResult
  purge_step = do
    target ← load_target rt a.amm_target_orders.key a.amm.key bank
    own ← load_own_orders mk true (monitor_cancel_accounts a) amm bank
    do_purge_orders mk a amm target own.bids own.asks bank

  -- The step of each state; the invalid state has none.
  unfoldable pub state_step :
      (ℕ → ℕ) → MonitorStepInstruction → AmmState → Outcome (Option MonitorResult)
  state_step integer_sqrt monitor AmmState.invlid_state = ok none
  state_step integer_sqrt monitor AmmState.idle_state = do
    r ← unwrap_result (idle_step integer_sqrt)
    ok (some r)
  state_step integer_sqrt monitor AmmState.cancel_all_orders_state = do
    r ← unwrap_result cancel_all_step
    ok (some r)
  state_step integer_sqrt monitor AmmState.plan_orders_state = do
    r ← unwrap_result (plan_step monitor.plan_order_limit)
    ok (some r)
  state_step integer_sqrt monitor AmmState.cancel_order_state = do
    r ← unwrap_result cancel_order_step
    ok (some r)
  state_step integer_sqrt monitor AmmState.place_orders_state = do
    r ← unwrap_result (place_step monitor.place_order_limit)
    ok (some r)
  state_step integer_sqrt monitor AmmState.purge_order_state = do
    r ← unwrap_result purge_step
    ok (some r)

  -- Only two of the statuses have a step.
  unfoldable pub status_step :
      (ℕ → ℕ) → MonitorStepInstruction → AmmStatus → AmmState → Outcome (Option MonitorResult)
  status_step integer_sqrt monitor AmmStatus.initialized state =
      state_step integer_sqrt monitor state
  status_step integer_sqrt monitor AmmStatus.order_book_only state =
      state_step integer_sqrt monitor state
  status_step integer_sqrt monitor _ state = err (ProgramError.amm invalid_status)

  -- The three branches behind the checks: `none` is a step that changes nothing.
  unfoldable pub monitor_branch :
      (ℕ → ℕ) → MonitorStepInstruction → AmmStatus → AmmState → Outcome (Option MonitorResult)
  monitor_branch integer_sqrt monitor status state =
      if amm.reset_flag == reset_flag_into_u64 reset_yes
      then (do r ← unwrap_result cancel_all_step; ok (some r))
      else (if amm.order_num == 0 then ok none else status_step integer_sqrt monitor status state)

abbrev pub store_result : MonitorAccounts → Bank → Option MonitorResult → Bank
store_result a bank none = bank
store_result a bank (some r) = store a r

unfoldable pub process_monitor_step :
    (ℕ → ℕ) → Runtime → Market → List AccountInfo → MonitorStepInstruction → Bank → Outcome Bank
process_monitor_step integer_sqrt rt mk accounts monitor bank = do
  a ← monitor_accounts accounts
  amm ← load_amm rt a.amm.key bank
  check_accounts rt a amm bank
  fail_if (a.market_program.key != openbook_program) invalid_market_program
  fail_if ((bank a.amm.key).owner != rt.program_id) invalid_owner
  fail_if (amm.min_size == 0) market_lot_size_is_too_large
  status ← status_from_u64 amm.status
  state ← state_from_u64 amm.state
  result ← monitor_branch rt mk a amm bank integer_sqrt monitor status state
  ok (store_result a bank result)
