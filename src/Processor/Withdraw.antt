-- ===== src/Processor/Withdraw.antt =====
-- `process_withdraw` (program/src/processor.rs). Logs are left out.
pub mod Accounts
pub mod Shares
pub mod Facts
pub mod Handler
use raydium_amm_fair.Common.{
  ℕ, ◌%◌, Bool, true, false, Option, none, some, List, map, ◌&&◌, ◌||◌, not, ltb, leb, ◌==◌, ◌!=◌,
  if◌then◌else◌,
}
use raydium_amm_fair.Error.{
  ProgramError, invalid_input, invalid_sign_account, invalid_status, invalid_program_address,
  invalid_spl_token_program, invalid_coin_vault, invalid_pc_vault, invalid_pool_mint,
  invalid_token_lp, invalid_target_orders, invalid_market, invalid_market_program,
  invalid_open_orders, invalid_coin_mint, invalid_pc_mint, not_allow_zero_lp, exceeded_slippage,
  insufficient_funds, take_pnl_error,
}
use raydium_amm_fair.Outcome.{Outcome, ok, err, unwrap, fail_if, ◌>>=◌, ◌>>◌}
use raydium_amm_fair.Word.{checked_sub}
use raydium_amm_fair.State.Status.{
  status_from_u64, status_into_u64, withdraw_permission, orderbook_permission, withdraw_only,
}
use raydium_amm_fair.State.Accounts.{AmmInfo, TargetOrders}
use raydium_amm_fair.Chain.{
  AccountInfo, AccountData, TokenAccount, Mint, Bank, Runtime, authority_id, unpack_token_account,
  unpack_mint, load_amm, load_target, write,
}
use raydium_amm_fair.Dex.Types.{Market, CancelAccounts, SettleAccounts}
use raydium_amm_fair.Dex.Orders.{get_amm_orders}
use raydium_amm_fair.Dex.Batches.{batches_of_both}
use raydium_amm_fair.Instruction.Types.{WithdrawInstruction}
use raydium_amm_fair.Math.Decimal.{normalize_decimal_v2}
use raydium_amm_fair.Math.Exchange.{floor, InvariantPool, exchange_pool_to_token}
use raydium_amm_fair.Math.Totals.{
  calc_total_without_take_pnl, calc_total_without_take_pnl_no_orderbook,
}
use raydium_amm_fair.Processor.Market.{load_serum_market_order, unwrap_result, cancel_batches}
use raydium_amm_fair.Processor.Pnl.{Pnl, calc_take_pnl}
use raydium_amm_fair.Processor.Withdraw.Accounts.{WithdrawAccounts, withdraw_accounts}

-- The result is whether the order book is enabled.
unfoldable pub check_withdraw : Runtime → WithdrawAccounts → AmmInfo → Outcome Bool
check_withdraw rt a amm = do
  status ← status_from_u64 amm.status
  fail_if (not (withdraw_permission status)) invalid_status
  authority ← authority_id rt (amm.nonce % 256)
  fail_if (a.amm_authority.key != authority) invalid_program_address
  fail_if (a.token_program.key != rt.spl_token_id) invalid_spl_token_program
  fail_if (a.amm_coin_vault.key != amm.coin_vault || a.user_dest_coin.key == amm.coin_vault)
      invalid_coin_vault
  fail_if (a.amm_pc_vault.key != amm.pc_vault || a.user_dest_pc.key == amm.pc_vault)
      invalid_pc_vault
  fail_if (a.amm_target_orders.key != amm.target_orders) invalid_target_orders
  fail_if (a.amm_lp_mint.key != amm.lp_mint) invalid_pool_mint
  ok (orderbook_permission status)

pub record WithdrawTokens : Type 0 where
  pub coin_vault : TokenAccount
  pub pc_vault : TokenAccount
  pub dest_coin : TokenAccount
  pub dest_pc : TokenAccount

-- The token accounts, with the checks of the shares.
unfoldable pub withdraw_tokens :
    Runtime → WithdrawAccounts → WithdrawInstruction → AmmInfo → Bank → Outcome WithdrawTokens
withdraw_tokens rt a withdraw amm bank = do
  coin_vault ← unpack_token_account rt a.amm_coin_vault.key bank
  pc_vault ← unpack_token_account rt a.amm_pc_vault.key bank
  dest_coin ← unpack_token_account rt a.user_dest_coin.key bank
  dest_pc ← unpack_token_account rt a.user_dest_pc.key bank
  lp_mint ← unpack_mint rt a.amm_lp_mint.key bank
  source_lp ← unpack_token_account rt a.user_source_lp.key bank
  fail_if (source_lp.mint != a.amm_lp_mint.key) invalid_token_lp
  fail_if (ltb source_lp.amount withdraw.amount) insufficient_funds
  fail_if (ltb lp_mint.supply withdraw.amount || leb amm.lp_amount withdraw.amount)
      not_allow_zero_lp
  ok (record {
    coin_vault = coin_vault;
    pc_vault = pc_vault;
    dest_coin = dest_coin;
    dest_pc = dest_pc;
  })

withdraw_cancel_accounts : WithdrawAccounts → CancelAccounts
withdraw_cancel_accounts a = record {
  market_program = a.market_program.key;
  market = a.market.key;
  bids = a.market_bids.key;
  asks = a.market_asks.key;
  open_orders = a.amm_open_orders.key;
  authority = a.amm_authority.key;
  event_queue = a.market_event_queue.key;
}

withdraw_settle_accounts : WithdrawAccounts → SettleAccounts
withdraw_settle_accounts a = record {
  market_program = a.market_program.key;
  market = a.market.key;
  open_orders = a.amm_open_orders.key;
  authority = a.amm_authority.key;
  market_coin_vault = a.market_coin_vault.key;
  market_pc_vault = a.market_pc_vault.key;
  coin_vault = a.amm_coin_vault.key;
  pc_vault = a.amm_pc_vault.key;
  market_vault_signer = a.market_vault_signer.key;
  token_program = a.token_program.key;
  referrer_pc = some a.referrer_pc_wallet.key;
}

-- The totals of pc and of coin; with the order book enabled all orders are cancelled and settled
-- first, and the bank is the one after that.
unfoldable pub withdraw_totals :
    Market → Bool → WithdrawAccounts → AmmInfo → WithdrawTokens → Bank → Outcome (ℕ × ℕ × Bank)
unfolding withdraw_cancel_accounts withdraw_settle_accounts
withdraw_totals mk true a amm t bank = do
  fail_if (a.market.key != amm.market) invalid_market
  fail_if (a.market_program.key != amm.market_program) invalid_market_program
  fail_if (a.amm_open_orders.key != amm.open_orders) invalid_open_orders
  (market_state, open_orders) ←
      load_serum_market_order mk false a.market.key a.amm_open_orders.key a.amm_authority.key amm
        bank
  bids_slab ← mk.load_bids market_state a.market_bids.key bank
  asks_slab ← mk.load_asks market_state a.market_asks.key bank
  (bids, asks) ← get_amm_orders open_orders bids_slab asks_slab
  batches ← batches_of_both (map (λ o. o.client_order_id) bids) (map (λ o. o.client_order_id) asks)
  cancelled ← cancel_batches mk (withdraw_cancel_accounts a) batches bank
  settled ← mk.settle_funds (withdraw_settle_accounts a) cancelled
  fail_if
      (market_state.coin_mint != t.coin_vault.mint || market_state.coin_mint != t.dest_coin.mint)
      invalid_coin_mint
  fail_if (market_state.pc_mint != t.pc_vault.mint || market_state.pc_mint != t.dest_pc.mint)
      invalid_pc_mint
  events ← unwrap_result (mk.load_event_queue market_state a.market_event_queue.key settled)
  (total_pc, total_coin) ←
      calc_total_without_take_pnl t.pc_vault.amount t.coin_vault.amount open_orders amm events
        a.amm_open_orders.key
  ok (total_pc, total_coin, settled)
withdraw_totals mk false a amm t bank = do
  (total_pc, total_coin) ←
      calc_total_without_take_pnl_no_orderbook t.pc_vault.amount t.coin_vault.amount amm
  ok (total_pc, total_coin, bank)

-- No profit is taken where the pool is for withdrawals only.
unfoldable pub withdraw_pnl : (ℕ → ℕ) → TargetOrders → AmmInfo → ℕ → ℕ → ℕ → ℕ → Outcome Pnl
withdraw_pnl integer_sqrt target amm total_pc total_coin x1 y1 =
    if amm.status != status_into_u64 withdraw_only
    then calc_take_pnl integer_sqrt target amm total_pc total_coin x1 y1
    else ok (record {
      amm = amm;
      total_pc = total_pc;
      total_coin = total_coin;
      delta_x = 0;
      delta_y = 0;
    })

abbrev pub above_either : Option ℕ → Option ℕ → ℕ → ℕ → Bool
above_either (some min_coin) (some min_pc) coin pc = ltb coin min_coin || ltb pc min_pc
above_either _ _ coin pc = false

-- The amounts of coin and of pc.
unfoldable pub quote_withdraw : WithdrawInstruction → WithdrawTokens → Pnl → Outcome (ℕ × ℕ)
quote_withdraw withdraw t p = do
  let invariant : InvariantPool = record {
    token_input = withdraw.amount;
    token_total = p.amm.lp_amount;
  }
  coin_amount ← exchange_pool_to_token invariant p.total_coin floor
  pc_amount ← exchange_pool_to_token invariant p.total_pc floor
  fail_if (withdraw.amount == 0 || coin_amount == 0 || pc_amount == 0) invalid_input
  fail_if (not (ltb coin_amount t.coin_vault.amount && ltb pc_amount t.pc_vault.amount))
      take_pnl_error
  fail_if (above_either withdraw.min_coin_amount withdraw.min_pc_amount coin_amount pc_amount)
      exceeded_slippage
  ok (coin_amount, pc_amount)

-- `x1 - normalized(amount) - delta`, the pool's amount to compare with next time.
unfoldable pub rest_calc_pnl : ℕ → ℕ → ℕ → ℕ → ℕ → Outcome ℕ
rest_calc_pnl x1 amount decimals sys_decimal_value delta = do
  normalized ← normalize_decimal_v2 amount decimals sys_decimal_value
  rest ← unwrap (checked_sub x1 normalized)
  unwrap (checked_sub rest delta)

-- The two transfers, the burn of the shares, and the two records.
unfoldable pub settle_withdraw :
    Runtime → WithdrawAccounts → TargetOrders → Pnl → ℕ → ℕ → ℕ → ℕ → ℕ → Bank → Outcome Bank
settle_withdraw rt a target p x1 y1 coin_amount pc_amount amount bank = do
  let amm = p.amm
  coin_paid ←
      rt.transfer a.amm_coin_vault.key a.user_dest_coin.key a.amm_authority.key coin_amount bank
  pc_paid ←
      rt.transfer a.amm_pc_vault.key a.user_dest_pc.key a.amm_authority.key pc_amount coin_paid
  burnt ← rt.burn a.user_source_lp.key a.amm_lp_mint.key a.source_lp_owner.key amount pc_paid
  lp_amount ← unwrap (checked_sub amm.lp_amount amount)
  calc_pnl_x ← rest_calc_pnl x1 pc_amount amm.pc_decimals amm.sys_decimal_value p.delta_x
  calc_pnl_y ← rest_calc_pnl y1 coin_amount amm.coin_decimals amm.sys_decimal_value p.delta_y
  clock ← rt.clock
  let target' : TargetOrders = record target { calc_pnl_x = calc_pnl_x; calc_pnl_y = calc_pnl_y }
  let amm' : AmmInfo = record amm { lp_amount = lp_amount; recent_epoch = clock.epoch }
  ok (
      write a.amm.key (AccountData.amm_data amm')
        (write a.amm_target_orders.key (AccountData.target_data target') burnt))

unfoldable pub process_withdraw :
    (ℕ → ℕ) → Runtime → Market → List AccountInfo → WithdrawInstruction → Bank → Outcome Bank
process_withdraw integer_sqrt rt mk accounts withdraw bank = do
  a ← withdraw_accounts accounts bank
  fail_if (not a.source_lp_owner.is_signer) invalid_sign_account
  amm ← load_amm rt a.amm.key bank
  target ← load_target rt a.amm_target_orders.key a.amm.key bank
  enable_orderbook ← check_withdraw rt a amm
  t ← withdraw_tokens rt a withdraw amm bank
  (total_pc, total_coin, settled) ← withdraw_totals mk enable_orderbook a amm t bank
  x1 ← normalize_decimal_v2 total_pc amm.pc_decimals amm.sys_decimal_value
  y1 ← normalize_decimal_v2 total_coin amm.coin_decimals amm.sys_decimal_value
  p ← withdraw_pnl integer_sqrt target amm total_pc total_coin x1 y1
  (coin_amount, pc_amount) ← quote_withdraw withdraw t p
  settle_withdraw rt a target p x1 y1 coin_amount pc_amount withdraw.amount settled
