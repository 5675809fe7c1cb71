-- ===== src/Tests/Swap.antt =====
-- Swaps on the pool of the small chain.
use raydium_amm_fair.Common.{none, ◌+◌, ◌≤◌, ◌<◌, ◌≡◌, refl, false, [], arith}
use raydium_amm_fair.Outcome.{ok}
use raydium_amm_fair.State.Status.{status_from_u64}
use raydium_amm_fair.Chain.{
  Bank, balance, next_account_info, load_amm, authority_id, unpack_token_account,
}
use raydium_amm_fair.Instruction.Types.{SwapInstructionBaseIn, SwapInstructionBaseOut}
use raydium_amm_fair.Math.CeilDiv.{checked_ceil_div}
use raydium_amm_fair.Math.Swap.{coin2pc, swap_token_amount_base_in, swap_token_amount_base_out}
use raydium_amm_fair.Math.Totals.{calc_total_without_take_pnl_no_orderbook}
use raydium_amm_fair.Processor.Swap.Context.{
  SwapAccounts, SwapContext, swap_accounts, check_swap_accounts, open_for_swap, swap_pool,
  direction_of, swap_context,
}
use raydium_amm_fair.Processor.Swap.Settle.{free_funds, count_swap, settle_swap}
use raydium_amm_fair.Processor.Swap.BaseIn.{quote_base_in, check_base_in, process_swap_base_in}
use raydium_amm_fair.Processor.Swap.BaseOut.{quote_base_out, check_base_out, process_swap_base_out}
use raydium_amm_fair.Processor.Swap.Run.{IsPlainSwap, pool_product}
use raydium_amm_fair.Processor.Swap.Sequence.{swap_in, stop, Swaps-product}
use raydium_amm_fair.Processor.Swap.ConstantProduct.{
  process_swap_base_in-product, process_swap_base_in-amounts, process_swap_base_out-product,
  process_swap_base_out-amounts,
}
use raydium_amm_fair.Tests.Laws.{runtime-IsTransfer}
use raydium_amm_fair.Tests.World.{
  runtime, closed_market, pool, bank, account, swap_list, bank_after, token_transfer,
}

abbrev named : SwapAccounts
named = record {
  token_program = account 901;
  amm = account 10;
  amm_authority = account 902;
  amm_open_orders = account 11;
  amm_coin_vault = account 12;
  amm_pc_vault = account 13;
  market_program = account 14;
  market = account 15;
  market_bids = account 16;
  market_asks = account 17;
  market_event_queue = account 18;
  market_coin_vault = account 19;
  market_pc_vault = account 20;
  market_vault_signer = account 21;
  user_source = account 22;
  user_destination = account 23;
  user_source_owner = account 24;
}

abbrev pub context : SwapContext
context = record {
  accounts = named;
  enable_orderbook = false;
  amm = pool;
  coin_vault = record {
    mint = 31;
    owner = 24;
    amount = 100000;
    delegate = none;
    close_authority = none;
  };
  pc_vault = record {
    mint = 32;
    owner = 24;
    amount = 100000;
    delegate = none;
    close_authority = none;
  };
  source = record { mint = 31; owner = 24; amount = 5000; delegate = none; close_authority = none };
  pool = record { total_pc = 100000; total_coin = 100000; bids = []; asks = [] };
  direction = coin2pc;
}

context_here : swap_context runtime closed_market swap_list bank ≡ ok context
unfolding swap_context swap_accounts next_account_info load_amm status_from_u64 check_swap_accounts
    authority_id unpack_token_account open_for_swap swap_pool
    calc_total_without_take_pnl_no_orderbook direction_of
context_here = refl

plain : IsPlainSwap runtime closed_market swap_list bank context
plain = record { context = context_here; no_orderbook = refl; vaults_apart = λ e. omega arith }

abbrev base_in : SwapInstructionBaseIn
base_in = record { amount_in = 1000; minimum_amount_out = 900 }

abbrev base_out : SwapInstructionBaseOut
base_out = record { max_amount_in = 1100; amount_out = 900 }

after_in : Bank
after_in = bank_after (process_swap_base_in runtime closed_market swap_list base_in bank)

after_out : Bank
after_out = bank_after (process_swap_base_out runtime closed_market swap_list base_out bank)

ran_in : process_swap_base_in runtime closed_market swap_list base_in bank ≡ ok after_in
unfolding after_in process_swap_base_in quote_base_in check_base_in checked_ceil_div
    swap_token_amount_base_in free_funds settle_swap count_swap token_transfer swap_context
    swap_accounts next_account_info load_amm status_from_u64 check_swap_accounts authority_id
    unpack_token_account open_for_swap swap_pool calc_total_without_take_pnl_no_orderbook
    direction_of
ran_in = refl

ran_out : process_swap_base_out runtime closed_market swap_list base_out bank ≡ ok after_out
unfolding after_out process_swap_base_out quote_base_out check_base_out checked_ceil_div
    swap_token_amount_base_out free_funds settle_swap count_swap token_transfer swap_context
    swap_accounts next_account_info load_amm status_from_u64 check_swap_accounts authority_id
    unpack_token_account open_for_swap swap_pool calc_total_without_take_pnl_no_orderbook
    direction_of
ran_out = refl

process_swap_base_in-product_example : pool_product bank 10 ≤ pool_product after_in 10
process_swap_base_in-product_example =
    process_swap_base_in-product runtime closed_market swap_list bank runtime-IsTransfer plain
      base_in ran_in

process_swap_base_in-amounts_example :
    (balance after_in 12 ≡ balance bank 12 + 1000)
    × (balance after_in 13 + 900 ≤ balance bank 13)
    × (balance after_in 13 < balance bank 13)
process_swap_base_in-amounts_example =
    process_swap_base_in-amounts runtime closed_market swap_list bank runtime-IsTransfer plain
      base_in ran_in

process_swap_base_out-product_example : pool_product bank 10 ≤ pool_product after_out 10
process_swap_base_out-product_example =
    process_swap_base_out-product runtime closed_market swap_list bank runtime-IsTransfer plain
      base_out ran_out

process_swap_base_out-amounts_example :
    (balance after_out 13 + 900 ≡ balance bank 13)
    × (balance after_out 12 ≤ balance bank 12 + 1100)
    × (balance bank 12 < balance after_out 12)
process_swap_base_out-amounts_example =
    process_swap_base_out-amounts runtime closed_market swap_list bank runtime-IsTransfer plain
      base_out ran_out

Swaps-product_example : pool_product bank 10 ≤ pool_product after_in 10
Swaps-product_example =
    Swaps-product runtime closed_market 10 bank after_in runtime-IsTransfer
      (swap_in swap_list base_in bank after_in after_in context plain refl ran_in (stop after_in))
