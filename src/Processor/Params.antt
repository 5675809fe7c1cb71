-- ===== src/Processor/Params.antt =====
-- `process_set_params` (program/src/processor.rs). Logs are left out.
pub mod Accounts
pub mod Configured
pub mod Kept
pub mod Seperate
use raydium_amm_fair.Common.{
  ℕ, ◌%◌, Bool, Option, none, some, List, ◌&&◌, ◌||◌, not, ltb, leb, ◌==◌, ◌!=◌, if◌then◌else◌,
  false,
}
use raydium_amm_fair.Error.{
  ProgramError, invalid_input, invalid_params_set, invalid_spl_token_program,
  invalid_program_address, invalid_owner, invalid_sign_account, invalid_market_program,
  invalid_market, invalid_open_orders, invalid_coin_vault, invalid_pc_vault, invalid_target_orders,
}
use raydium_amm_fair.Outcome.{Outcome, ok, err, ok_or, fail_if, ◌>>=◌, ◌>>◌}
use raydium_amm_fair.Config.{amm_owner_id}
use raydium_amm_fair.State.Fees.{Fees, validate}
use raydium_amm_fair.State.Status.{
  AmmParams, params_from_u64, valid_status, valid_state, state_into_u64, cancel_all_orders_state,
  reset_flag_into_u64, reset_yes,
}
use raydium_amm_fair.State.Accounts.{AmmInfo, TargetOrders}
use raydium_amm_fair.Chain.{
  AccountInfo, AccountData, Bank, Clock, Runtime, next_account_info, authority_id, load_amm,
  load_target, write,
}
use raydium_amm_fair.Dex.Types.{Market}
use raydium_amm_fair.Instruction.Types.{SetParamsInstruction, LastOrderDistance}
use raydium_amm_fair.Math.Totals.{calc_exact_vault_in_serum}
use raydium_amm_fair.Processor.Market.{load_serum_market_order, unwrap_result}
use raydium_amm_fair.Processor.Cancel.{do_cancel_amm_orders}
use raydium_amm_fair.Processor.Params.Accounts.{
  ParamsAccounts, params_accounts, params_cancel_accounts, params_settle_accounts,
}

unfoldable pub check_set_params : Runtime → ParamsAccounts → AmmInfo → Bank → Outcome (Unit {0})
check_set_params rt a amm bank = do
  authority ← authority_id rt (amm.nonce % 256)
  fail_if (a.amm_authority.key != authority) invalid_program_address
  fail_if ((bank a.amm.key).owner != rt.program_id) invalid_owner
  fail_if (not a.amm_owner.is_signer || a.amm_owner.key != amm_owner_id) invalid_sign_account
  fail_if (a.market_program.key != amm.market_program) invalid_market_program
  fail_if (a.market.key != amm.market) invalid_market
  fail_if (a.amm_open_orders.key != amm.open_orders) invalid_open_orders
  fail_if (amm.coin_vault != a.amm_coin_vault.key) invalid_coin_vault
  fail_if (amm.pc_vault != a.amm_pc_vault.key) invalid_pc_vault
  fail_if (amm.target_orders != a.amm_target_orders.key) invalid_target_orders

-- The pool has nothing left on the market, events that are not settled included.
unfoldable pub check_nothing_shared : Market → ParamsAccounts → AmmInfo → Bank → Outcome (Unit {0})
check_nothing_shared mk a amm bank = do
  (market_state, open_orders) ←
      load_serum_market_order mk false a.market.key a.amm_open_orders.key a.amm_authority.key amm
        bank
  events ← unwrap_result (mk.load_event_queue market_state a.market_event_queue.key bank)
  (shared_pc, shared_coin) ←
      unwrap_result (calc_exact_vault_in_serum open_orders events a.amm_open_orders.key)
  fail_if (shared_pc != 0 || shared_coin != 0) invalid_input

-- The parameters that are a number; `none` where the number is out of the parameter's range.
unfoldable pub set_value : AmmParams → ℕ → AmmInfo → Outcome (Option AmmInfo)
set_value AmmParams.status value amm =
    ok (if valid_status value then some (record amm { status = value }) else none)
set_value AmmParams.state value amm =
    ok (if valid_state value then some (record amm { state = value }) else none)
set_value AmmParams.order_num value amm = do
  fail_if (ltb 10 value) invalid_input
  ok (some (record amm { order_num = value }))
set_value AmmParams.depth value amm =
    ok (if ltb 0 value && ltb value 100 then some (record amm { depth = value }) else none)
set_value AmmParams.amount_wave value amm = ok (some (record amm { amount_wave = value }))
set_value AmmParams.min_price_multiplier value amm = ok (
    if ltb value amm.max_price_multiplier
    then some (record amm { min_price_multiplier = value })
    else none)
set_value AmmParams.max_price_multiplier value amm = ok (
    if ltb amm.max_price_multiplier value
    then some (record amm { max_price_multiplier = value })
    else none)
set_value AmmParams.vol_max_cut_ratio value amm =
    ok (if leb value 10000 then some (record amm { vol_max_cut_ratio = value }) else none)
set_value AmmParams.seperate value amm = ok (
    if leb value 10000
    then some (record amm { fees = record amm.fees { min_separate_numerator = value } })
    else none)
set_value AmmParams.set_open_time value amm =
    ok (some (record amm { state_data = record amm.state_data { pool_open_time = value } }))
set_value AmmParams.set_switch_time value amm =
    ok (some (record amm { state_data = record amm.state_data { orderbook_to_init_time = value } }))
set_value _ value amm = err (ProgramError.amm invalid_input)

-- A parameter of a number, which must be there.
unfoldable pub set_number :
    AmmParams → SetParamsInstruction → AmmInfo → Bank → Outcome (Option AmmInfo × Bank)
set_number param setparams amm bank = do
  value ← ok_or setparams.value invalid_input
  set ← set_value param value amm
  ok (set, bank)

-- The pool with the parameter set, and the bank, where the target orders may have changed.
unfoldable pub set_param :
    Runtime
    → Market
    → ParamsAccounts
    → AmmParams
    → SetParamsInstruction
    → AmmInfo
    → Bank
    → Outcome (Option AmmInfo × Bank)
unfolding next_account_info
set_param rt mk a AmmParams.status setparams amm bank = do
  check_nothing_shared mk a amm bank
  set_number AmmParams.status setparams amm bank
set_param rt mk a AmmParams.fees setparams amm bank = do
  fees ← ok_or setparams.fees invalid_input
  validate fees
  ok (some (record amm { fees = fees }), bank)
set_param rt mk a AmmParams.amm_owner setparams amm bank = do
  new_pubkey ← ok_or setparams.new_pubkey invalid_input
  ok (some (record amm { amm_owner = new_pubkey }), bank)
set_param rt mk a AmmParams.last_order_distance setparams amm bank = do
  target ← load_target rt a.amm_target_orders.key a.amm.key bank
  distance ← ok_or setparams.last_order_distance invalid_input
  let target' : TargetOrders = record target {
    last_order_numerator = distance.last_order_numerator;
    last_order_denominator = distance.last_order_denominator;
  }
  ok (some amm, write a.amm_target_orders.key (AccountData.target_data target') bank)
set_param rt mk a AmmParams.init_order_depth setparams amm bank =
    ok (some (record amm { order_num = 7; depth = 3 }), bank)
set_param rt mk a AmmParams.clear_open_time setparams amm bank = ok (
  some (record amm {
    state_data = record amm.state_data { pool_open_time = 0; orderbook_to_init_time = 0 };
  }),
  bank,
)
set_param rt mk a AmmParams.update_open_order setparams amm bank = do
  (new_open_orders, _) ← next_account_info a.rest
  let amm' : AmmInfo = record amm { open_orders = new_open_orders.key }
  _ ←
      load_serum_market_order mk false a.market.key new_open_orders.key a.amm_authority.key amm'
        bank
  ok (some amm', bank)
set_param rt mk a param setparams amm bank = elim param [
  | AmmParams.min_size ↦ err (ProgramError.amm invalid_input)
  | other ↦ set_number other setparams amm bank
]

-- A parameter that is set makes the next monitor steps cancel all orders.
unfoldable pub finish_set : Runtime → ParamsAccounts → Option AmmInfo → Bank → Outcome Bank
finish_set rt a none bank = err (ProgramError.amm invalid_params_set)
finish_set rt a (some amm) bank = do
  clock ← rt.clock
  let amm' : AmmInfo = record amm {
    state = state_into_u64 cancel_all_orders_state;
    reset_flag = reset_flag_into_u64 reset_yes;
    recent_epoch = clock.epoch;
  }
  ok (write a.amm.key (AccountData.amm_data amm') bank)

unfoldable pub process_set_params :
    Runtime → Market → List AccountInfo → SetParamsInstruction → Bank → Outcome Bank
process_set_params rt mk accounts setparams bank = do
  a ← params_accounts accounts
  fail_if (a.token_program.key != rt.spl_token_id) invalid_spl_token_program
  amm ← load_amm rt a.amm.key bank
  check_set_params rt a amm bank
  cancelled ← do_cancel_amm_orders mk (params_cancel_accounts a) amm bank
  settled ← mk.settle_funds (params_settle_accounts a) cancelled
  param ← params_from_u64 setparams.param
  (set, bank') ← set_param rt mk a param setparams amm settled
  finish_set rt a set bank'
