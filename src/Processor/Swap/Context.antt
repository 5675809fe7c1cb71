-- ===== src/Processor/Swap/Context.antt =====
-- What the two swap handlers do before they compute an amount (program/src/processor.rs).
use raydium_amm_fair.Common.{
  ℕ, ◌%◌, Bool, true, false, List, [], ◌&&◌, ◌||◌, not, ltb, leb, ◌==◌, ◌!=◌, if◌then◌else◌, length,
}
use raydium_amm_fair.Error.{
  wrong_accounts_number, invalid_sign_account, invalid_spl_token_program, invalid_program_address,
  invalid_coin_vault, invalid_pc_vault, invalid_user_token, invalid_status, invalid_open_orders,
  invalid_market_program, invalid_market, ProgramError,
}
use raydium_amm_fair.Outcome.{Outcome, ok, err, fail_if, ◌>>=◌, ◌>>◌}
use raydium_amm_fair.State.Status.{
  AmmStatus, status_from_u64, status_into_u64, orderbook_permission, swap_permission,
  order_book_only, initialized, waiting_trade, swap_only,
}
use raydium_amm_fair.State.Accounts.{AmmInfo}
use raydium_amm_fair.Chain.{
  AccountInfo, TokenAccount, Bank, Runtime, next_account_info, authority_id, unpack_token_account,
  load_amm,
}
use raydium_amm_fair.Dex.Types.{Market, LeafNode}
use raydium_amm_fair.Dex.Orders.{get_amm_orders}
use raydium_amm_fair.Math.Swap.{SwapDirection, coin2pc, pc2coin}
use raydium_amm_fair.Math.Totals.{
  calc_total_without_take_pnl, calc_total_without_take_pnl_no_orderbook,
}
use raydium_amm_fair.Processor.Market.{load_serum_market_order, unwrap_result}

pub record SwapAccounts : Type 0 where
  pub token_program : AccountInfo
  pub amm : AccountInfo
  pub amm_authority : AccountInfo
  pub amm_open_orders : AccountInfo
  pub amm_coin_vault : AccountInfo
  pub amm_pc_vault : AccountInfo
  pub market_program : AccountInfo
  pub market : AccountInfo
  pub market_bids : AccountInfo
  pub market_asks : AccountInfo
  pub market_event_queue : AccountInfo
  pub market_coin_vault : AccountInfo
  pub market_pc_vault : AccountInfo
  pub market_vault_signer : AccountInfo
  pub user_source : AccountInfo
  pub user_destination : AccountInfo
  pub user_source_owner : AccountInfo

-- Seventeen accounts, or eighteen with the target orders behind the open orders.
unfoldable pub swap_accounts : List AccountInfo → Outcome SwapAccounts
unfolding next_account_info
swap_accounts accounts = do
  fail_if (length accounts != 17 && length accounts != 18) wrong_accounts_number
  (token_program, r1) ← next_account_info accounts
  (amm, r2) ← next_account_info r1
  (amm_authority, r3) ← next_account_info r2
  (amm_open_orders, r4) ← next_account_info r3
  (_, skipped) ← next_account_info r4
  let r5 = if length accounts == 18 then skipped else r4
  (amm_coin_vault, r6) ← next_account_info r5
  (amm_pc_vault, r7) ← next_account_info r6
  (market_program, r8) ← next_account_info r7
  (market, r9) ← next_account_info r8
  (market_bids, r10) ← next_account_info r9
  (market_asks, r11) ← next_account_info r10
  (market_event_queue, r12) ← next_account_info r11
  (market_coin_vault, r13) ← next_account_info r12
  (market_pc_vault, r14) ← next_account_info r13
  (market_vault_signer, r15) ← next_account_info r14
  (user_source, r16) ← next_account_info r15
  (user_destination, r17) ← next_account_info r16
  (user_source_owner, _) ← next_account_info r17
  ok (record {
    token_program = token_program;
    amm = amm;
    amm_authority = amm_authority;
    amm_open_orders = amm_open_orders;
    amm_coin_vault = amm_coin_vault;
    amm_pc_vault = amm_pc_vault;
    market_program = market_program;
    market = market;
    market_bids = market_bids;
    market_asks = market_asks;
    market_event_queue = market_event_queue;
    market_coin_vault = market_coin_vault;
    market_pc_vault = market_pc_vault;
    market_vault_signer = market_vault_signer;
    user_source = user_source;
    user_destination = user_destination;
    user_source_owner = user_source_owner;
  })

unfoldable pub check_swap_accounts : Runtime → SwapAccounts → AmmInfo → Outcome (Unit {0})
check_swap_accounts rt a amm = do
  fail_if (not a.user_source_owner.is_signer) invalid_sign_account
  fail_if (a.token_program.key != rt.spl_token_id) invalid_spl_token_program
  authority ← authority_id rt (amm.nonce % 256)
  fail_if (a.amm_authority.key != authority) invalid_program_address
  fail_if (a.amm_coin_vault.key != amm.coin_vault) invalid_coin_vault
  fail_if (a.amm_pc_vault.key != amm.pc_vault) invalid_pc_vault
  fail_if (a.user_source.key == amm.pc_vault || a.user_source.key == amm.coin_vault)
      invalid_user_token
  fail_if (a.user_destination.key == amm.pc_vault || a.user_destination.key == amm.coin_vault)
      invalid_user_token

-- The status under which a swap goes on: an order-book pool becomes `initialized` at its switch
-- time, a waiting pool becomes `swap_only` at its opening time.
unfoldable pub open_for_swap : Runtime → AmmStatus → AmmInfo → Outcome AmmInfo
open_for_swap rt status amm =
    if not (swap_permission status)
    then (do
      clock ← rt.clock
      if amm.status == status_into_u64 order_book_only
            && leb amm.state_data.orderbook_to_init_time clock.unix_timestamp
          then ok (record amm { status = status_into_u64 initialized })
          else err (ProgramError.amm invalid_status))
    else if amm.status == status_into_u64 waiting_trade
    then (do
      clock ← rt.clock
      if ltb clock.unix_timestamp amm.state_data.pool_open_time
          then err (ProgramError.amm invalid_status)
          else ok (record amm { status = status_into_u64 swap_only }))
    else ok amm

pub record SwapPool : Type 0 where
  pub total_pc : ℕ
  pub total_coin : ℕ
  pub bids : List LeafNode
  pub asks : List LeafNode

-- The totals of the pool, with the pool's orders where the order book is enabled.
unfoldable pub swap_pool :
    Runtime → Market → Bool → SwapAccounts → AmmInfo → ℕ → ℕ → Bank → Outcome SwapPool
swap_pool rt mk true a amm pc_amount coin_amount bank = do
  fail_if (a.amm_open_orders.key != amm.open_orders) invalid_open_orders
  fail_if (a.market_program.key != amm.market_program) invalid_market_program
  fail_if (a.market.key != amm.market) invalid_market
  (market_state, open_orders) ←
      load_serum_market_order mk false a.market.key a.amm_open_orders.key a.amm_authority.key amm
        bank
  bids_slab ← mk.load_bids market_state a.market_bids.key bank
  asks_slab ← mk.load_asks market_state a.market_asks.key bank
  (bids, asks) ← get_amm_orders open_orders bids_slab asks_slab
  events ← unwrap_result (mk.load_event_queue market_state a.market_event_queue.key bank)
  (total_pc, total_coin) ←
      calc_total_without_take_pnl pc_amount coin_amount open_orders amm events a.amm_open_orders.key
  ok (record { total_pc = total_pc; total_coin = total_coin; bids = bids; asks = asks })
swap_pool rt mk false a amm pc_amount coin_amount bank = do
  (total_pc, total_coin) ← calc_total_without_take_pnl_no_orderbook pc_amount coin_amount amm
  ok (record { total_pc = total_pc; total_coin = total_coin; bids = []; asks = [] })

-- The direction that the mints of the user's accounts show.
unfoldable pub direction_of :
    TokenAccount → TokenAccount → TokenAccount → TokenAccount → Outcome SwapDirection
direction_of source destination coin_vault pc_vault =
    if source.mint == coin_vault.mint && destination.mint == pc_vault.mint
    then ok coin2pc
    else if source.mint == pc_vault.mint && destination.mint == coin_vault.mint
    then ok pc2coin
    else err (ProgramError.amm invalid_user_token)

pub record SwapContext : Type 0 where
  pub accounts : SwapAccounts
  pub enable_orderbook : Bool
  pub amm : AmmInfo
  pub coin_vault : TokenAccount
  pub pc_vault : TokenAccount
  pub source : TokenAccount
  pub pool : SwapPool
  pub direction : SwapDirection

unfoldable pub swap_context : Runtime → Market → List AccountInfo → Bank → Outcome SwapContext
swap_context rt mk accounts bank = do
  a ← swap_accounts accounts
  amm ← load_amm rt a.amm.key bank
  status ← status_from_u64 amm.status
  let enable_orderbook = orderbook_permission status
  check_swap_accounts rt a amm
  coin_vault ← unpack_token_account rt a.amm_coin_vault.key bank
  pc_vault ← unpack_token_account rt a.amm_pc_vault.key bank
  source ← unpack_token_account rt a.user_source.key bank
  destination ← unpack_token_account rt a.user_destination.key bank
  amm' ← open_for_swap rt status amm
  pool ← swap_pool rt mk enable_orderbook a amm' pc_vault.amount coin_vault.amount bank
  direction ← direction_of source destination coin_vault pc_vault
  ok (record {
    accounts = a;
    enable_orderbook = enable_orderbook;
    amm = amm';
    coin_vault = coin_vault;
    pc_vault = pc_vault;
    source = source;
    pool = pool;
    direction = direction;
  })
