-- ===== src/Tests/Withdraw.antt =====
-- A withdrawal on the small chain.
use raydium_amm_fair.Common.{ℕ, ◌≡◌, refl, none, List, [], ◌∷◌, arith}
use raydium_amm_fair.Outcome.{ok}
use raydium_amm_fair.State.Status.{status_from_u64, swap_only}
use raydium_amm_fair.State.Accounts.{AmmInfo}
use raydium_amm_fair.Chain.{
  AccountInfo, Bank, next_account_info, load_amm, load_target, authority_id, unpack_token_account,
  token_account_of, unpack_mint,
}
use raydium_amm_fair.Instruction.Types.{WithdrawInstruction}
use raydium_amm_fair.Math.Decimal.{normalize_decimal_v2, restore_decimal, calc_x_power}
use raydium_amm_fair.Math.Exchange.{exchange_pool_to_token, exchange}
use raydium_amm_fair.Math.Totals.{calc_total_without_take_pnl_no_orderbook}
use raydium_amm_fair.Processor.Pnl.{calc_take_pnl, take_pnl, pnl_share, record_pnl}
use raydium_amm_fair.Processor.Withdraw.{
  check_withdraw, withdraw_tokens, withdraw_totals, withdraw_pnl, quote_withdraw, rest_calc_pnl,
  settle_withdraw, process_withdraw,
}
use raydium_amm_fair.Processor.Withdraw.Accounts.{WithdrawAccounts, referrer_of, withdraw_accounts}
use raydium_amm_fair.Processor.Withdraw.Facts.{IsPlainWithdraw}
use raydium_amm_fair.Processor.Withdraw.Handler.{IsFairRedeem, process_withdraw-worth}
use raydium_amm_fair.Tests.Laws.{runtime-IsTransfer, runtime-IsBurn}
use raydium_amm_fair.Tests.World.{
  runtime, closed_market, bank, pool, account, keys, bank_after, token_transfer, token_burn,
}

-- A square root that is right for the number at hand.
abbrev root : ℕ → ℕ
root n = 100000

abbrev withdraw_list : List AccountInfo
withdraw_list = keys (
    901 ∷ 10 ∷ 902 ∷ 11 ∷ 25 ∷ 26 ∷ 12 ∷ 13 ∷ 14 ∷ 15 ∷ 19 ∷ 20 ∷ 21 ∷ 28 ∷ 22 ∷ 23 ∷ 24 ∷ 18 ∷ 16
    ∷ 17 ∷ [])

abbrev named : WithdrawAccounts
named = record {
  token_program = account 901;
  amm = account 10;
  amm_authority = account 902;
  amm_open_orders = account 11;
  amm_target_orders = account 25;
  amm_lp_mint = account 26;
  amm_coin_vault = account 12;
  amm_pc_vault = account 13;
  market_program = account 14;
  market = account 15;
  market_coin_vault = account 19;
  market_pc_vault = account 20;
  market_vault_signer = account 21;
  user_source_lp = account 28;
  user_dest_coin = account 22;
  user_dest_pc = account 23;
  source_lp_owner = account 24;
  market_event_queue = account 18;
  market_bids = account 16;
  market_asks = account 17;
  referrer_pc_wallet = account 13;
}

abbrev instruction : WithdrawInstruction
instruction = record { amount = 1000; min_coin_amount = none; min_pc_amount = none }

after : Bank
after = bank_after (process_withdraw root runtime closed_market withdraw_list instruction bank)

ran : process_withdraw root runtime closed_market withdraw_list instruction bank ≡ ok after
unfolding after process_withdraw withdraw_accounts referrer_of next_account_info load_amm
    status_from_u64 check_withdraw authority_id withdraw_tokens unpack_token_account
    token_account_of unpack_mint load_target withdraw_totals
    calc_total_without_take_pnl_no_orderbook normalize_decimal_v2 withdraw_pnl calc_take_pnl
    restore_decimal take_pnl calc_x_power pnl_share record_pnl quote_withdraw exchange_pool_to_token
    exchange settle_withdraw rest_calc_pnl token_transfer token_burn
ran = refl

plain : IsPlainWithdraw runtime withdraw_list bank named pool swap_only
unfolding withdraw_accounts referrer_of next_account_info load_amm status_from_u64
plain = record {
  parsed = refl;
  loaded = refl;
  status_code = refl;
  no_orderbook = refl;
  vaults = λ e. omega arith;
  coin_dest = λ e. omega arith;
  pc_dest = λ e. omega arith;
  lp_coin = λ e. omega arith;
  lp_pc = λ e. omega arith;
}

process_withdraw-worth_example : (amm' : AmmInfo) × IsFairRedeem pool 1000 named bank after amm'
process_withdraw-worth_example =
    process_withdraw-worth root runtime closed_market withdraw_list instruction bank named pool
      swap_only runtime-IsTransfer runtime-IsBurn plain ran
