-- ===== src/Tests/WithdrawPnl.antt =====
-- A withdrawal of the profit on the small chain.
use raydium_amm_fair.Common.{ℕ, ◌≡◌, refl, List, [], ◌∷◌, ◌==◌, if◌then◌else◌, arith}
use raydium_amm_fair.Outcome.{ok}
use raydium_amm_fair.State.Status.{status_from_u64}
use raydium_amm_fair.State.Accounts.{AmmInfo}
use raydium_amm_fair.Chain.{
  Account, AccountInfo, AccountData, Bank, next_account_info, load_amm, load_target, load_config,
  authority_id, unpack_token_account, token_account_of, write,
}
use raydium_amm_fair.Math.Decimal.{normalize_decimal_v2, restore_decimal, calc_x_power}
use raydium_amm_fair.Math.Totals.{calc_total_without_take_pnl_no_orderbook}
use raydium_amm_fair.Processor.Pnl.{calc_take_pnl, take_pnl, pnl_share, record_pnl}
use raydium_amm_fair.Processor.WithdrawPnl.{
  check_pnl_owner, check_pnl_keys, check_withdrawpnl, pnl_tokens, pnl_totals, pay_pnl,
  process_withdrawpnl,
}
use raydium_amm_fair.Processor.WithdrawPnl.Accounts.{WithdrawPnlAccounts, withdrawpnl_accounts}
use raydium_amm_fair.Processor.WithdrawPnl.Paid.{IsPlainPnl, IsPaid, process_withdrawpnl-IsPaid}
use raydium_amm_fair.Tests.Laws.{runtime-IsTransfer}
use raydium_amm_fair.Tests.World.{
  runtime, closed_market, bank, pool, target, account, keys, bank_after, token_transfer,
}

-- The square root of the power at hand, rounded down.
abbrev root : ℕ → ℕ
root n = 99149

-- The pool owes 700 of coin and 400 of pc.
abbrev owing_pool : AmmInfo
owing_pool = record pool {
  state_data = record pool.state_data { need_take_pnl_coin = 700; need_take_pnl_pc = 400 };
}

abbrev target_of_rest : AccountData
target_of_rest = AccountData.target_data (record target { calc_pnl_x = 99000; calc_pnl_y = 99000 })

-- The profit belongs to key 24.
abbrev pnl_config : Account
pnl_config = record {
  owner = 900;
  lamports = 0;
  content =
      AccountData.config_data (record { pnl_owner = 24; cancel_owner = 0; create_pool_fee = 0 });
}

abbrev owing_bank : Bank
owing_bank =
    write 10 (AccountData.amm_data owing_pool)
      (write 25 target_of_rest (λ k. if k == 903 then pnl_config else bank k))

abbrev pnl_list : List AccountInfo
pnl_list =
    keys
      (901 ∷ 10 ∷ 903 ∷ 902 ∷ 11 ∷ 12 ∷ 13 ∷ 22 ∷ 23 ∷ 24 ∷ 25 ∷ 14 ∷ 15 ∷ 18 ∷ 19 ∷ 20 ∷ 21 ∷ [])

abbrev named : WithdrawPnlAccounts
named = record {
  token_program = account 901;
  amm = account 10;
  amm_config = account 903;
  amm_authority = account 902;
  amm_open_orders = account 11;
  amm_coin_vault = account 12;
  amm_pc_vault = account 13;
  user_pnl_coin = account 22;
  user_pnl_pc = account 23;
  pnl_owner = account 24;
  amm_target_orders = account 25;
  market_program = account 14;
  market = account 15;
  market_event_queue = account 18;
  market_coin_vault = account 19;
  market_pc_vault = account 20;
  market_vault_signer = account 21;
}

after : Bank
after = bank_after (process_withdrawpnl root runtime closed_market pnl_list owing_bank)

ran : process_withdrawpnl root runtime closed_market pnl_list owing_bank ≡ ok after
unfolding after process_withdrawpnl withdrawpnl_accounts next_account_info load_amm
    check_withdrawpnl check_pnl_owner check_pnl_keys load_config status_from_u64 authority_id
    pnl_tokens unpack_token_account token_account_of load_target pnl_totals
    calc_total_without_take_pnl_no_orderbook normalize_decimal_v2 calc_take_pnl restore_decimal
    take_pnl calc_x_power pnl_share record_pnl pay_pnl token_transfer
ran = refl

plain : IsPlainPnl runtime pnl_list owing_bank named owing_pool
unfolding withdrawpnl_accounts next_account_info load_amm
plain = record {
  parsed = refl;
  loaded = refl;
  vaults = λ e. omega arith;
  coin_coin = λ e. omega arith;
  coin_pc = λ e. omega arith;
  pc_coin = λ e. omega arith;
  pc_pc = λ e. omega arith;
  users = λ e. omega arith;
}

process_withdrawpnl-IsPaid_example :
    (amm' : AmmInfo) × IsPaid runtime named owing_pool owing_bank after amm'
process_withdrawpnl-IsPaid_example =
    process_withdrawpnl-IsPaid root runtime closed_market pnl_list owing_bank named owing_pool
      runtime-IsTransfer plain ran
