-- ===== src/Processor/Initialize.antt =====
-- `process_initialize2` (program/src/processor.rs). Logs are left out.
pub mod Programs
pub mod Accounts
pub mod Create
pub mod Start
pub mod Fresh
use raydium_amm_fair.Common.{
  ℕ, Option, none, some, List, ◌||◌, not, Bool, true, false, ltb, ◌==◌, ◌!=◌, if◌then◌else◌,
}
use raydium_amm_fair.Error.{
  AmmError, invalid_config_account, invalid_sign_account, invalid_spl_token_program,
  invalid_market_program, invalid_sys_program_address, invalid_program_address, invalid_fee,
  already_in_use, invalid_owner, invalid_supply, invalid_delegate, invalid_close_authority,
  invalid_coin_mint, invalid_pc_mint, invalid_market, invalid_freeze_authority,
  init_lp_amount_too_less, conversion_failure,
}
use raydium_amm_fair.Outcome.{Outcome, ok, unwrap, ok_or, fail_if, ◌>>=◌, ◌>>◌}
use raydium_amm_fair.Word.{fits, checked_sub, checked_mul, checked_pow}
use raydium_amm_fair.Config.{openbook_program, amm_owner_id, create_pool_fee_address}
use raydium_amm_fair.State.Status.{
  status_into_u64, uninitialized, waiting_trade, swap_only, reset_flag_into_u64, reset_yes,
}
use raydium_amm_fair.State.Accounts.{Pubkey, AmmInfo, check_init}
use raydium_amm_fair.State.Initialize.{initialize}
use raydium_amm_fair.Chain.{
  AccountInfo, AccountData, Bank, Mint, TokenAccount, Runtime, as_amm, as_target, load_config,
  unpack_token_account, unpack_mint, write,
}
use raydium_amm_fair.Dex.Types.{Market, MarketState}
use raydium_amm_fair.Instruction.Types.{InitializeInstruction2}
use raydium_amm_fair.Math.Decimal.{normalize_decimal_v2}
use raydium_amm_fair.Processor.Initialize.Programs.{
  System, amm_associated_seed, target_associated_seed, open_order_associated_seed,
  coin_vault_associated_seed, pc_vault_associated_seed, lp_mint_associated_seed,
  target_orders_space, amm_info_space, open_orders_space,
}
use raydium_amm_fair.Processor.Initialize.Accounts.{InitializeAccounts, initialize_accounts}
use raydium_amm_fair.Processor.Initialize.Create.{
  Creator, generate_amm_associated_account, generate_amm_associated_spl_mint,
  generate_amm_associated_spl_token,
}

abbrev is_some {ℓ} : {A : Type ℓ} → Option A → Bool
is_some none = false
is_some (some a) = true

unfoldable pub check_initialize :
    Runtime → System → InitializeAccounts → InitializeInstruction2 → Bank → Outcome (Unit {0})
check_initialize rt sys a init bank = do
  fail_if (rt.config_address != a.amm_config.key || (bank a.amm_config.key).owner != rt.program_id)
      invalid_config_account
  fail_if (not a.user_wallet.is_signer) invalid_sign_account
  fail_if (a.token_program.key != rt.spl_token_id) invalid_spl_token_program
  fail_if (a.ata_token_program.key != sys.associated_token_id) invalid_spl_token_program
  fail_if (a.market_program.key != openbook_program) invalid_market_program
  fail_if (a.system_program.key != sys.system_program_id) invalid_sys_program_address
  let (expect_amm_authority, expect_nonce) = sys.authority
  fail_if (a.amm_authority.key != expect_amm_authority || init.nonce != expect_nonce)
      invalid_program_address
  fail_if (a.create_fee_destination.key != create_pool_fee_address) invalid_fee

-- The fee for a new pool.
unfoldable pub charge_fee : Runtime → System → InitializeAccounts → Bank → Outcome Bank
charge_fee rt sys a bank = do
  amm_config ← load_config rt a.amm_config.key bank
  if amm_config.create_pool_fee != 0
      then (do
        charged ←
            sys.pay a.user_wallet.key a.create_fee_destination.key amm_config.create_pool_fee bank
        sys.sync_native a.create_fee_destination.key charged)
      else ok bank

unfoldable pub creator_of : InitializeAccounts → Creator
creator_of a = record {
  market = a.market.key;
  user_wallet = a.user_wallet.key;
  system_program = a.system_program.key;
  rent_sysvar = a.rent_sysvar.key;
}

-- The six accounts of the pool, and the user's account of shares.
unfoldable pub create_accounts : Runtime → System → InitializeAccounts → ℕ → Bank → Outcome Bank
create_accounts rt sys a lp_decimals b0 = do
  b1 ←
      generate_amm_associated_account rt sys (creator_of a) rt.program_id a.amm_target_orders.key
        target_associated_seed target_orders_space b0
  b2 ←
      generate_amm_associated_spl_mint rt sys (creator_of a) a.amm_authority.key a.amm_lp_mint.key
        lp_mint_associated_seed lp_decimals b1
  b3 ←
      generate_amm_associated_spl_token rt sys (creator_of a) a.amm_authority.key
        a.amm_coin_vault.key a.amm_coin_mint.key coin_vault_associated_seed b2
  b4 ←
      generate_amm_associated_spl_token rt sys (creator_of a) a.amm_authority.key a.amm_pc_vault.key
        a.amm_pc_mint.key pc_vault_associated_seed b3
  b5 ←
      generate_amm_associated_account rt sys (creator_of a) rt.program_id a.amm.key
        amm_associated_seed amm_info_space b4
  b6 ←
      generate_amm_associated_account rt sys (creator_of a) a.market_program.key
        a.amm_open_orders.key open_order_associated_seed open_orders_space b5
  b7 ←
      sys.init_open_orders a.market_program.key a.amm_open_orders.key a.amm_authority.key
        a.market.key b6
  sys.create_ata a.user_token_lp.key a.user_wallet.key a.amm_lp_mint.key b7

-- A vault with tokens that the pool's authority owns alone.
unfoldable pub check_vault :
    Runtime → InitializeAccounts → Pubkey → Pubkey → AmmError → Bank → Outcome TokenAccount
check_vault rt a vault mint wrong_mint bank = do
  token ← unpack_token_account rt vault bank
  fail_if (token.owner != a.amm_authority.key) invalid_owner
  fail_if (token.amount == 0) invalid_supply
  fail_if (is_some token.delegate) invalid_delegate
  fail_if (is_some token.close_authority) invalid_close_authority
  fail_if (mint != token.mint) wrong_mint
  ok token

unfoldable pub check_market :
    Market → InitializeAccounts → TokenAccount → TokenAccount → Bank → Outcome MarketState
check_market mk a coin_vault pc_vault bank = do
  market_state ← mk.load_market false a.market.key openbook_program bank
  fail_if
      (market_state.coin_mint != coin_vault.mint || market_state.coin_mint != a.amm_coin_mint.key)
      invalid_coin_mint
  fail_if (market_state.pc_mint != pc_vault.mint || market_state.pc_mint != a.amm_pc_mint.key)
      invalid_pc_mint
  fail_if (market_state.pc_lot_size == 0 || market_state.coin_lot_size == 0) invalid_market
  ok market_state

-- The new mint of shares; the result is its decimals.
unfoldable pub check_lp_mint : Runtime → InitializeAccounts → Bank → Outcome ℕ
check_lp_mint rt a bank = do
  lp_mint ← unpack_mint rt a.amm_lp_mint.key bank
  fail_if (lp_mint.supply != 0) invalid_supply
  fail_if
      (elim lp_mint.mint_authority [
        | none ↦ true
        | some authority ↦ a.amm_authority.key != authority
      ])
      invalid_owner
  fail_if (is_some lp_mint.freeze_authority) invalid_freeze_authority
  ok lp_mint.decimals

-- The shares of the pool, and those of them that the user gets.
unfoldable pub first_shares : (ℕ → ℕ) → ℕ → ℕ → ℕ → Outcome (ℕ × ℕ)
first_shares integer_sqrt pc_amount coin_amount lp_decimals = do
  product ← unwrap (checked_mul 128 pc_amount coin_amount)
  liquidity ← ok_or (fits 64 (integer_sqrt product)) conversion_failure
  locked ← unwrap (checked_pow 64 10 lp_decimals)
  user_lp_amount ← ok_or (checked_sub liquidity locked) init_lp_amount_too_less
  ok (liquidity, user_lp_amount)

-- The fields of the new pool behind `AmmInfo::initialize`.
unfoldable pub fill_pool : InitializeAccounts → ℕ → ℕ → ℕ → AmmInfo → AmmInfo
fill_pool a liquidity open_time now amm = record amm {
  coin_vault = a.amm_coin_vault.key;
  pc_vault = a.amm_pc_vault.key;
  coin_vault_mint = a.amm_coin_mint.key;
  pc_vault_mint = a.amm_pc_mint.key;
  lp_mint = a.amm_lp_mint.key;
  open_orders = a.amm_open_orders.key;
  market = a.market.key;
  market_program = a.market_program.key;
  target_orders = a.amm_target_orders.key;
  amm_owner = amm_owner_id;
  lp_amount = liquidity;
  status = if ltb now open_time then status_into_u64 waiting_trade else status_into_u64 swap_only;
  reset_flag = reset_flag_into_u64 reset_yes;
}

-- The two records, from the amounts in the vaults on. `amm` is the record as it was created. The clock
-- is read once for the epoch and the time.
unfoldable pub start_pool :
    Runtime
    → InitializeAccounts
    → InitializeInstruction2
    → Mint
    → Mint
    → MarketState
    → ℕ
    → ℕ
    → ℕ
    → AmmInfo
    → Bank
    → Outcome Bank
start_pool rt a init coin_mint pc_mint market_state pc_amount coin_amount liquidity amm bank = do
  clock ← rt.clock
  started ←
      initialize init.nonce init.open_time coin_mint.decimals pc_mint.decimals
        market_state.coin_lot_size market_state.pc_lot_size clock.epoch amm
  x ← normalize_decimal_v2 pc_amount started.pc_decimals started.sys_decimal_value
  y ← normalize_decimal_v2 coin_amount started.coin_decimals started.sys_decimal_value
  fail_if ((bank a.amm_target_orders.key).owner != rt.program_id) invalid_program_address
  target_order ← as_target (bank a.amm_target_orders.key).content
  target' ← check_init target_order x y a.amm.key
  ok (
      write a.amm.key
        (AccountData.amm_data (fill_pool a liquidity init.open_time clock.unix_timestamp started))
        (write a.amm_target_orders.key (AccountData.target_data target') bank))

-- From the two transfers on.
unfoldable pub fund_pool :
    (ℕ → ℕ)
    → Runtime
    → Market
    → InitializeInstruction2
    → InitializeAccounts
    → Mint
    → Mint
    → Bank
    → Outcome Bank
fund_pool integer_sqrt rt mk init a coin_mint pc_mint pc_paid = do
  amm ← as_amm (pc_paid a.amm.key).content
  fail_if (amm.status != status_into_u64 uninitialized) already_in_use
  coin_vault ← check_vault rt a a.amm_coin_vault.key a.amm_coin_mint.key invalid_coin_mint pc_paid
  pc_vault ← check_vault rt a a.amm_pc_vault.key a.amm_pc_mint.key invalid_pc_mint pc_paid
  market_state ← check_market mk a coin_vault pc_vault pc_paid
  lp_decimals ← check_lp_mint rt a pc_paid
  (liquidity, user_lp_amount) ←
      first_shares integer_sqrt pc_vault.amount coin_vault.amount lp_decimals
  minted ←
      rt.mint_to a.amm_lp_mint.key a.user_token_lp.key a.amm_authority.key user_lp_amount pc_paid
  start_pool rt a init coin_mint pc_mint market_state pc_vault.amount coin_vault.amount liquidity
      amm minted

unfoldable pub process_initialize2 :
    (ℕ → ℕ)
    → Runtime
    → System
    → Market
    → List AccountInfo
    → InitializeInstruction2
    → Bank
    → Outcome Bank
process_initialize2 integer_sqrt rt sys mk accounts init bank = do
  a ← initialize_accounts accounts
  check_initialize rt sys a init bank
  charged ← charge_fee rt sys a bank
  coin_mint ← unpack_mint rt a.amm_coin_mint.key charged
  pc_mint ← unpack_mint rt a.amm_pc_mint.key charged
  created ← create_accounts rt sys a coin_mint.decimals charged
  coin_paid ←
      rt.transfer a.user_token_coin.key a.amm_coin_vault.key a.user_wallet.key init.init_coin_amount
        created
  pc_paid ←
      rt.transfer a.user_token_pc.key a.amm_pc_vault.key a.user_wallet.key init.init_pc_amount
        coin_paid
  fund_pool integer_sqrt rt mk init a coin_mint pc_mint pc_paid
