-- ===== src/Tests/Deposit.antt =====
-- A deposit on the small chain.
use raydium_amm_fair.Common.{ℕ, ◌≡◌, refl, none, List, [], ◌∷◌, arith}
use raydium_amm_fair.Outcome.{ok}
use raydium_amm_fair.State.Status.{status_from_u64, swap_only}
use raydium_amm_fair.State.Accounts.{AmmInfo}
use raydium_amm_fair.Chain.{
  AccountInfo, Bank, next_account_info, load_amm, load_target, authority_id, unpack_token_account,
}
use raydium_amm_fair.Instruction.Types.{DepositInstruction}
use raydium_amm_fair.Math.CeilDiv.{checked_ceil_div}
use raydium_amm_fair.Math.Decimal.{normalize_decimal_v2, restore_decimal, calc_x_power}
use raydium_amm_fair.Math.Exchange.{
  exchange_coin_to_pc, exchange_pc_to_coin, exchange_token_to_pool, exchange,
}
use raydium_amm_fair.Math.Totals.{calc_total_without_take_pnl_no_orderbook}
use raydium_amm_fair.Processor.Pnl.{calc_take_pnl, take_pnl, pnl_share, record_pnl}
use raydium_amm_fair.Processor.Deposit.{
  DepositAccounts, deposit_accounts, check_deposit, deposit_tokens, deposit_totals, quote_deposit,
  next_calc_pnl, settle_deposit, process_deposit,
}
use raydium_amm_fair.Processor.Deposit.Settled.{IsPlainDeposit}
use raydium_amm_fair.Processor.Deposit.Value.{IsFairIssue}
use raydium_amm_fair.Processor.Deposit.Handler.{process_deposit-worth}
use raydium_amm_fair.Tests.Laws.{runtime-IsTransfer, runtime-IsMint}
use raydium_amm_fair.Tests.World.{
  runtime, closed_market, bank, pool, account, keys, bank_after, token_transfer, token_mint,
}

-- A square root that is right for the number at hand.
abbrev root : ℕ → ℕ
root n = 100000

abbrev deposit_list : List AccountInfo
deposit_list = keys (901 ∷ 10 ∷ 902 ∷ 11 ∷ 25 ∷ 26 ∷ 12 ∷ 13 ∷ 15 ∷ 22 ∷ 23 ∷ 27 ∷ 24 ∷ 18 ∷ [])

abbrev named : DepositAccounts
named = record {
  token_program = account 901;
  amm = account 10;
  amm_authority = account 902;
  amm_open_orders = account 11;
  amm_target_orders = account 25;
  amm_lp_mint = account 26;
  amm_coin_vault = account 12;
  amm_pc_vault = account 13;
  market = account 15;
  user_source_coin = account 22;
  user_source_pc = account 23;
  user_dest_lp = account 27;
  source_owner = account 24;
  market_event_queue = account 18;
}

abbrev instruction : DepositInstruction
instruction = record {
  max_coin_amount = 1000;
  max_pc_amount = 2000;
  base_side = 0;
  other_amount_min = none;
}

after : Bank
after = bank_after (process_deposit root runtime closed_market deposit_list instruction bank)

ran : process_deposit root runtime closed_market deposit_list instruction bank ≡ ok after
unfolding after process_deposit deposit_accounts next_account_info load_amm status_from_u64
    check_deposit authority_id deposit_tokens unpack_token_account load_target deposit_totals
    calc_total_without_take_pnl_no_orderbook normalize_decimal_v2 calc_take_pnl restore_decimal
    take_pnl calc_x_power pnl_share record_pnl quote_deposit exchange_coin_to_pc exchange_pc_to_coin
    exchange_token_to_pool exchange checked_ceil_div settle_deposit next_calc_pnl token_transfer
    token_mint
ran = refl

plain : IsPlainDeposit runtime deposit_list bank named pool swap_only
unfolding deposit_accounts next_account_info load_amm status_from_u64
plain = record {
  parsed = refl;
  loaded = refl;
  status_code = refl;
  no_orderbook = refl;
  vaults = λ e. omega arith;
  coin_source = λ e. omega arith;
  pc_source = λ e. omega arith;
}

process_deposit-worth_example : (amm' : AmmInfo) × IsFairIssue pool 10 bank after amm'
process_deposit-worth_example =
    process_deposit-worth root runtime closed_market deposit_list instruction bank named pool
      swap_only runtime-IsTransfer runtime-IsMint plain ran
