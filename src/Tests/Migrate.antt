-- ===== src/Tests/Migrate.antt =====
-- A migration of a pool that owes a profit, on the small chain.
use raydium_amm_fair.Common.{◌≡◌, refl, true, List, [], ◌∷◌, ◌++◌}
use raydium_amm_fair.Outcome.{ok}
use raydium_amm_fair.Config.{openbook_program, amm_owner_id}
use raydium_amm_fair.State.Accounts.{AmmInfo}
use raydium_amm_fair.State.Initialize.{initialize, sys_decimal, min_size_of}
use raydium_amm_fair.Chain.{
  AccountData, AccountInfo, Bank, next_account_info, load_amm, load_target, authority_id, write,
}
use raydium_amm_fair.Dex.Orders.{get_amm_orders}
use raydium_amm_fair.Dex.Batches.{batches_of_both}
use raydium_amm_fair.Math.Decimal.{restore_decimal, normalize_decimal_v2, convert_in_pc_lot_size}
use raydium_amm_fair.Math.Totals.{calc_exact_vault_in_serum}
use raydium_amm_fair.Processor.Market.{load_serum_market_order, cancel_batches}
use raydium_amm_fair.Processor.Cancel.{load_own_orders, cancel_both, do_cancel_amm_orders}
use raydium_amm_fair.Processor.Initialize.Create.{
  required_lamports, create_account, generate_amm_associated_account,
}
use raydium_amm_fair.Processor.Migrate.{
  MigrateAccounts, migrate_accounts, check_migrate, migrate_cancel_accounts,
  migrate_settle_accounts, leave_market, enter_market, moved_pool, moved_target,
  process_migrate_to_openbook,
}
use raydium_amm_fair.Processor.Migrate.Forgets.{IsMoved, process_migrate_to_openbook-IsMoved}
use raydium_amm_fair.Tests.World.{runtime, account, keys, bank_after}
use raydium_amm_fair.Tests.Book.{open_market, book_pool, book_bank}
use raydium_amm_fair.Tests.Initialize.{system, address_of, blank, assigned}

-- The pool owes 700 of coin.
abbrev owing_pool : AmmInfo
owing_pool = record book_pool {
  coin_decimals = 2;
  pc_decimals = 2;
  state_data = record book_pool.state_data { need_take_pnl_coin = 700 };
}

abbrev owing_bank : Bank
owing_bank = write 10 (AccountData.amm_data owing_pool) book_bank

abbrev admin : AccountInfo
admin = record { key = amm_owner_id; is_signer = true; is_writable = true }

abbrev migrate_list : List AccountInfo
migrate_list =
    keys (
      901 ∷ 0 ∷ 905 ∷ 10 ∷ 902 ∷ 11 ∷ 12 ∷ 13 ∷ 25 ∷ openbook_program ∷ 15 ∷ 16 ∷ 17 ∷ 18 ∷ 19 ∷ 20
      ∷ 21 ∷ 45 ∷ openbook_program ∷ 47 ∷ [])
    ++ (admin ∷ [])

abbrev named : MigrateAccounts
named = record {
  token_program = account 901;
  system_program = account 0;
  rent_sysvar = account 905;
  amm = account 10;
  amm_authority = account 902;
  amm_open_orders = account 11;
  amm_coin_vault = account 12;
  amm_pc_vault = account 13;
  amm_target_orders = account 25;
  market_program = account openbook_program;
  market = account 15;
  market_bids = account 16;
  market_asks = account 17;
  market_event_queue = account 18;
  market_coin_vault = account 19;
  market_pc_vault = account 20;
  market_vault_signer = account 21;
  new_amm_open_orders = account 45;
  new_market_program = account openbook_program;
  new_market = account 47;
  admin = admin;
}

moved : Bank
moved = bank_after (process_migrate_to_openbook runtime system open_market migrate_list owing_bank)

ran : process_migrate_to_openbook runtime system open_market migrate_list owing_bank ≡ ok moved
unfolding moved process_migrate_to_openbook migrate_accounts next_account_info load_amm
    check_migrate authority_id load_target restore_decimal leave_market migrate_cancel_accounts
    migrate_settle_accounts do_cancel_amm_orders load_own_orders load_serum_market_order
    get_amm_orders cancel_both batches_of_both cancel_batches calc_exact_vault_in_serum enter_market
    generate_amm_associated_account create_account required_lamports address_of blank assigned
    moved_pool initialize sys_decimal min_size_of convert_in_pc_lot_size moved_target
    normalize_decimal_v2
ran = refl

process_migrate_to_openbook-IsMoved_example :
    (named.admin.is_signer ≡ true)
    × (named.admin.key ≡ amm_owner_id)
    × (amm' : AmmInfo) × ((moved named.amm.key).content ≡ AccountData.amm_data amm')
    × IsMoved named owing_pool amm'
unfolding migrate_accounts next_account_info load_amm
process_migrate_to_openbook-IsMoved_example =
    process_migrate_to_openbook-IsMoved runtime system open_market migrate_list owing_bank named
      owing_pool refl refl ran
