-- ===== src/Processor/Deposit.antt =====
-- `process_deposit` (program/src/processor.rs). Logs are left out.
pub mod Shares
pub mod Settled
pub mod Value
pub mod Handler
use raydium_amm_fair.Common.{
  ℕ, ◌%◌, Bool, true, false, Option, none, some, List, ◌&&◌, ◌||◌, not, ltb, ◌==◌, ◌!=◌, length,
  if◌then◌else◌,
}
use raydium_amm_fair.Error.{
  wrong_accounts_number, invalid_input, invalid_sign_account, invalid_status,
  invalid_program_address, invalid_spl_token_program, invalid_coin_vault, invalid_pc_vault,
  invalid_pool_mint, invalid_target_orders, invalid_market, invalid_open_orders, invalid_coin_mint,
  invalid_pc_mint, not_allow_zero_lp, exceeded_slippage, insufficient_funds,
}
use raydium_amm_fair.Outcome.{Outcome, ok, unwrap, fail_if, ◌>>=◌, ◌>>◌}
use raydium_amm_fair.Word.{checked_add, checked_sub, as_width}
use raydium_amm_fair.State.Status.{status_from_u64, deposit_permission, orderbook_permission}
use raydium_amm_fair.State.Accounts.{AmmInfo, TargetOrders}
use raydium_amm_fair.Chain.{
  AccountInfo, AccountData, TokenAccount, Bank, Runtime, next_account_info, authority_id,
  unpack_token_account, load_amm, load_target, write,
}
use raydium_amm_fair.Dex.Types.{Market}
use raydium_amm_fair.Instruction.Types.{DepositInstruction}
use raydium_amm_fair.Math.Decimal.{normalize_decimal_v2}
use raydium_amm_fair.Math.Exchange.{
  RoundDirection, floor, ceiling, InvariantToken, InvariantPool, exchange_coin_to_pc,
  exchange_pc_to_coin, exchange_token_to_pool,
}
use raydium_amm_fair.Math.Totals.{
  calc_total_without_take_pnl, calc_total_without_take_pnl_no_orderbook,
}
use raydium_amm_fair.Processor.Market.{load_serum_market_order, unwrap_result}
use raydium_amm_fair.Processor.Pnl.{Pnl, calc_take_pnl}

pub record DepositAccounts : Type 0 where
  pub token_program : AccountInfo
  pub amm : AccountInfo
  pub amm_authority : AccountInfo
  pub amm_open_orders : AccountInfo
  pub amm_target_orders : AccountInfo
  pub amm_lp_mint : AccountInfo
  pub amm_coin_vault : AccountInfo
  pub amm_pc_vault : AccountInfo
  pub market : AccountInfo
  pub user_source_coin : AccountInfo
  pub user_source_pc : AccountInfo
  pub user_dest_lp : AccountInfo
  pub source_owner : AccountInfo
  pub market_event_queue : AccountInfo

unfoldable pub deposit_accounts : List AccountInfo → Outcome DepositAccounts
unfolding next_account_info
deposit_accounts accounts = do
  fail_if (length accounts != 14 && length accounts != 15) wrong_accounts_number
  (token_program, r1) ← next_account_info accounts
  (amm, r2) ← next_account_info r1
  (amm_authority, r3) ← next_account_info r2
  (amm_open_orders, r4) ← next_account_info r3
  (amm_target_orders, r5) ← next_account_info r4
  (amm_lp_mint, r6) ← next_account_info r5
  (amm_coin_vault, r7) ← next_account_info r6
  (amm_pc_vault, r8) ← next_account_info r7
  (market, r9) ← next_account_info r8
  (user_source_coin, r10) ← next_account_info r9
  (user_source_pc, r11) ← next_account_info r10
  (user_dest_lp, r12) ← next_account_info r11
  (source_owner, r13) ← next_account_info r12
  (market_event_queue, _) ← next_account_info r13
  ok (record {
    token_program = token_program;
    amm = amm;
    amm_authority = amm_authority;
    amm_open_orders = amm_open_orders;
    amm_target_orders = amm_target_orders;
    amm_lp_mint = amm_lp_mint;
    amm_coin_vault = amm_coin_vault;
    amm_pc_vault = amm_pc_vault;
    market = market;
    user_source_coin = user_source_coin;
    user_source_pc = user_source_pc;
    user_dest_lp = user_dest_lp;
    source_owner = source_owner;
    market_event_queue = market_event_queue;
  })

unfoldable pub check_deposit :
    Runtime → DepositAccounts → DepositInstruction → AmmInfo → Outcome Bool
check_deposit rt a deposit amm = do
  fail_if (deposit.max_coin_amount == 0 || deposit.max_pc_amount == 0) invalid_input
  fail_if (not a.source_owner.is_signer) invalid_sign_account
  status ← status_from_u64 amm.status
  fail_if (not (deposit_permission status)) invalid_status
  authority ← authority_id rt (amm.nonce % 256)
  fail_if (a.amm_authority.key != authority) invalid_program_address
  fail_if (a.token_program.key != rt.spl_token_id) invalid_spl_token_program
  fail_if (a.amm_coin_vault.key != amm.coin_vault || a.user_source_coin.key == amm.coin_vault)
      invalid_coin_vault
  fail_if (a.amm_pc_vault.key != amm.pc_vault || a.user_source_pc.key == amm.pc_vault)
      invalid_pc_vault
  fail_if (a.amm_lp_mint.key != amm.lp_mint) invalid_pool_mint
  fail_if (a.amm_target_orders.key != amm.target_orders) invalid_target_orders
  ok (orderbook_permission status)

pub record DepositTokens : Type 0 where
  pub coin_vault : TokenAccount
  pub pc_vault : TokenAccount
  pub source_coin : TokenAccount
  pub source_pc : TokenAccount

unfoldable pub deposit_tokens : Runtime → DepositAccounts → Bank → Outcome DepositTokens
deposit_tokens rt a bank = do
  coin_vault ← unpack_token_account rt a.amm_coin_vault.key bank
  pc_vault ← unpack_token_account rt a.amm_pc_vault.key bank
  source_coin ← unpack_token_account rt a.user_source_coin.key bank
  source_pc ← unpack_token_account rt a.user_source_pc.key bank
  ok (record {
    coin_vault = coin_vault;
    pc_vault = pc_vault;
    source_coin = source_coin;
    source_pc = source_pc;
  })

-- The total of pc and the total of coin.
unfoldable pub deposit_totals :
    Market → Bool → DepositAccounts → AmmInfo → DepositTokens → Bank → Outcome (ℕ × ℕ)
deposit_totals mk true a amm t bank = do
  fail_if (a.market.key != amm.market) invalid_market
  fail_if (a.amm_open_orders.key != amm.open_orders) invalid_open_orders
  (market_state, open_orders) ←
      load_serum_market_order mk false a.market.key a.amm_open_orders.key a.amm_authority.key amm
        bank
  fail_if
      (market_state.coin_mint != t.coin_vault.mint || market_state.coin_mint != t.source_coin.mint)
      invalid_coin_mint
  fail_if (market_state.pc_mint != t.pc_vault.mint || market_state.pc_mint != t.source_pc.mint)
      invalid_pc_mint
  events ← unwrap_result (mk.load_event_queue market_state a.market_event_queue.key bank)
  calc_total_without_take_pnl t.pc_vault.amount t.coin_vault.amount open_orders amm events
      a.amm_open_orders.key
deposit_totals mk false a amm t bank =
    calc_total_without_take_pnl_no_orderbook t.pc_vault.amount t.coin_vault.amount amm

abbrev below_min : Option ℕ → ℕ → Bool
below_min none amount = false
below_min (some least) amount = ltb amount least

-- What the deposit takes of coin and of pc, and the shares that it issues. An exchange that fails
-- panics inside, so its `ok_or` is never reached.
unfoldable pub quote_deposit : DepositInstruction → Pnl → Outcome (ℕ × ℕ × ℕ)
quote_deposit deposit p =
    let invariant : InvariantToken = record { token_coin = p.total_coin; token_pc = p.total_pc } in
    if deposit.base_side == 0
    then (do
      deduct_pc ← exchange_coin_to_pc invariant deposit.max_coin_amount ceiling
      fail_if (ltb deposit.max_pc_amount deduct_pc) exceeded_slippage
      fail_if (below_min deposit.other_amount_min deduct_pc) exceeded_slippage
      mint_lp ←
          exchange_token_to_pool
            (record { token_input = deposit.max_coin_amount; token_total = p.total_coin })
            p.amm.lp_amount floor
      ok (deposit.max_coin_amount, deduct_pc, mint_lp))
    else (do
      deduct_coin ← exchange_pc_to_coin invariant deposit.max_pc_amount ceiling
      fail_if (ltb deposit.max_coin_amount deduct_coin) exceeded_slippage
      fail_if (below_min deposit.other_amount_min deduct_coin) exceeded_slippage
      mint_lp ←
          exchange_token_to_pool
            (record { token_input = deposit.max_pc_amount; token_total = p.total_pc })
            p.amm.lp_amount floor
      ok (deduct_coin, deposit.max_pc_amount, mint_lp))

-- `x1 + normalized(amount) - delta`, the pool's amount to compare with next time.
unfoldable pub next_calc_pnl : ℕ → ℕ → ℕ → ℕ → ℕ → Outcome ℕ
next_calc_pnl x1 amount decimals sys_decimal_value delta = do
  normalized ← normalize_decimal_v2 amount decimals sys_decimal_value
  sum ← unwrap (checked_add 128 x1 normalized)
  unwrap (checked_sub sum delta)

-- The two transfers, the issue of shares, and the two records.
unfoldable pub settle_deposit :
    Runtime → DepositAccounts → TargetOrders → Pnl → ℕ → ℕ → ℕ → ℕ → ℕ → Bank → Outcome Bank
settle_deposit rt a target p x1 y1 deduct_coin deduct_pc mint_lp bank = do
  let amm = p.amm
  coin_paid ←
      rt.transfer a.user_source_coin.key a.amm_coin_vault.key a.source_owner.key deduct_coin bank
  pc_paid ←
      rt.transfer a.user_source_pc.key a.amm_pc_vault.key a.source_owner.key deduct_pc coin_paid
  minted ← rt.mint_to a.amm_lp_mint.key a.user_dest_lp.key a.amm_authority.key mint_lp pc_paid
  lp_amount ← unwrap (checked_add 64 amm.lp_amount mint_lp)
  calc_pnl_x ← next_calc_pnl x1 deduct_pc amm.pc_decimals amm.sys_decimal_value p.delta_x
  calc_pnl_y ← next_calc_pnl y1 deduct_coin amm.coin_decimals amm.sys_decimal_value p.delta_y
  clock ← rt.clock
  let target' : TargetOrders = record target { calc_pnl_x = calc_pnl_x; calc_pnl_y = calc_pnl_y }
  let amm' : AmmInfo = record amm { lp_amount = lp_amount; recent_epoch = clock.epoch }
  ok (
      write a.amm.key (AccountData.amm_data amm')
        (write a.amm_target_orders.key (AccountData.target_data target') minted))

unfoldable pub process_deposit :
    (ℕ → ℕ) → Runtime → Market → List AccountInfo → DepositInstruction → Bank → Outcome Bank
process_deposit integer_sqrt rt mk accounts deposit bank = do
  a ← deposit_accounts accounts
  amm ← load_amm rt a.amm.key bank
  enable_orderbook ← check_deposit rt a deposit amm
  t ← deposit_tokens rt a bank
  target ← load_target rt a.amm_target_orders.key a.amm.key bank
  (total_pc, total_coin) ← deposit_totals mk enable_orderbook a amm t bank
  x1 ← normalize_decimal_v2 total_pc amm.pc_decimals amm.sys_decimal_value
  y1 ← normalize_decimal_v2 total_coin amm.coin_decimals amm.sys_decimal_value
  p ← calc_take_pnl integer_sqrt target amm total_pc total_coin x1 y1
  fail_if (p.amm.lp_amount == 0) not_allow_zero_lp
  (deduct_coin, deduct_pc, mint_lp) ← quote_deposit deposit p
  fail_if (ltb t.source_coin.amount deduct_coin || ltb t.source_pc.amount deduct_pc)
      insufficient_funds
  fail_if (mint_lp == 0 || deduct_coin == 0 || deduct_pc == 0) invalid_input
  settle_deposit rt a target p x1 y1 deduct_coin deduct_pc mint_lp bank
