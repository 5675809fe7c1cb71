-- ===== src/Tests/Params.antt =====
-- A parameter of the pool on the small chain, and fees that stop the plan of orders.
use raydium_amm_fair.Math.Decimal.{normalize_decimal_v2}
use raydium_amm_fair.Processor.Monitor.Plan.{do_plan_orderbook, start_plan, price_in_bounds}
use raydium_amm_fair.Tests.Plan.{planner, empty_plan}
use raydium_amm_fair.Common.{◌≡◌, refl, true, none, some, List, [], ◌∷◌, ◌++◌, arith, inl}
use raydium_amm_fair.Outcome.{ok, panic}
use raydium_amm_fair.Config.{openbook_program, amm_owner_id}
use raydium_amm_fair.State.Status.{AmmParams, params_from_u64}
use raydium_amm_fair.State.Accounts.{AmmInfo}
use raydium_amm_fair.Chain.{AccountInfo, Bank, next_account_info, load_amm, authority_id}
use raydium_amm_fair.Dex.Orders.{get_amm_orders}
use raydium_amm_fair.Instruction.Types.{SetParamsInstruction}
use raydium_amm_fair.Dex.Batches.{batches_of_both}
use raydium_amm_fair.Processor.Market.{load_serum_market_order, cancel_batches}
use raydium_amm_fair.Processor.Cancel.{load_own_orders, cancel_both, do_cancel_amm_orders}
use raydium_amm_fair.Processor.Params.{
  check_set_params, set_value, set_number, set_param, finish_set, process_set_params,
}
use raydium_amm_fair.Processor.Params.Accounts.{
  ParamsAccounts, params_accounts, params_cancel_accounts, params_settle_accounts,
}
use raydium_amm_fair.Processor.Params.Configured.{IsConfigured}
use raydium_amm_fair.Processor.Params.Kept.{IsParamSet, process_set_params-IsParamSet}
use raydium_amm_fair.Processor.Params.Seperate.{seperate-panics}
use raydium_amm_fair.Tests.World.{runtime, account, keys, bank_after}
use raydium_amm_fair.Tests.Book.{open_market, book_pool, book_bank}

abbrev owner : AccountInfo
owner = record { key = amm_owner_id; is_signer = true; is_writable = true }

abbrev params_list : List AccountInfo
params_list =
    keys (
      901 ∷ 10 ∷ 902 ∷ 11 ∷ 25 ∷ 12 ∷ 13 ∷ openbook_program ∷ 15 ∷ 19 ∷ 20 ∷ 21 ∷ 18 ∷ 16 ∷ 17 ∷ [])
    ++ (owner ∷ [])

abbrev named : ParamsAccounts
named = record {
  token_program = account 901;
  amm = account 10;
  amm_authority = account 902;
  amm_open_orders = account 11;
  amm_target_orders = account 25;
  amm_coin_vault = account 12;
  amm_pc_vault = account 13;
  market_program = account openbook_program;
  market = account 15;
  market_coin_vault = account 19;
  market_pc_vault = account 20;
  market_vault_signer = account 21;
  market_event_queue = account 18;
  market_bids = account 16;
  market_asks = account 17;
  amm_owner = owner;
  rest = [];
}

-- The depth becomes five.
abbrev depth_of_five : SetParamsInstruction
depth_of_five = record {
  param = 3;
  value = some 5;
  new_pubkey = none;
  fees = none;
  last_order_distance = none;
}

after : Bank
after = bank_after (process_set_params runtime open_market params_list depth_of_five book_bank)

ran : process_set_params runtime open_market params_list depth_of_five book_bank ≡ ok after
unfolding after process_set_params params_accounts next_account_info load_amm check_set_params
    authority_id params_cancel_accounts params_settle_accounts do_cancel_amm_orders load_own_orders
    load_serum_market_order get_amm_orders cancel_both batches_of_both cancel_batches
    params_from_u64 set_param set_number set_value finish_set
ran = refl

book_pool-IsConfigured : IsConfigured book_pool
book_pool-IsConfigured = record {
  status_from = omega arith;
  status_to = omega arith;
  orders = omega arith;
  depth_from = omega arith;
  depth_to = omega arith;
  cut = omega arith;
  prices = omega arith;
  trade = omega arith;
  pnl = omega arith;
  swap = omega arith;
  separate_denominator = omega arith;
  separate = inl (omega arith);
}

process_set_params-IsSet_example : (amm' : AmmInfo) × IsParamSet named book_pool after amm'
unfolding params_accounts next_account_info load_amm
process_set_params-IsSet_example =
    process_set_params-IsParamSet runtime open_market params_list depth_of_five book_bank named
      book_pool refl refl book_pool-IsConfigured ran

seperate-panics_example :
    (amm' : AmmInfo) × (set_value AmmParams.seperate 10000 planner ≡ ok (some amm'))
    × (do_plan_orderbook amm' empty_plan 3 100000 100000 ≡ panic)
unfolding normalize_decimal_v2 start_plan price_in_bounds
seperate-panics_example =
    seperate-panics planner 10000 empty_plan 3 100000 100000 100000 100000 1000000 (omega arith)
      (omega arith) (λ e. omega arith) refl refl (λ e. omega arith) (λ e. omega arith) refl refl
      refl
