-- ===== src/Tests/Admin.antt =====
-- An update of the configuration and a cancellation by the administrator on the small chain.
use raydium_amm_fair.Dex.Types.{Market, OpenOrders}
use raydium_amm_fair.Common.{
  ◌≡◌, ◌≢◌, refl, true, none, some, List, [], ◌∷◌, ◌==◌, if◌then◌else◌, ◌-◌, ◌^◌, ℕ, replicate,
}
use raydium_amm_fair.Outcome.{ok}
use raydium_amm_fair.Config.{openbook_program, amm_owner_id}
use raydium_amm_fair.State.Accounts.{Pubkey, AmmConfig}
use raydium_amm_fair.Chain.{
  AccountInfo, AccountData, Bank, next_account_info, load_amm, load_config, authority_id,
}
use raydium_amm_fair.Dex.Orders.{get_amm_orders}
use raydium_amm_fair.Dex.Batches.{batches_of_both}
use raydium_amm_fair.Instruction.Types.{ConfigArgs}
use raydium_amm_fair.Processor.Market.{load_serum_market_order, cancel_batches}
use raydium_amm_fair.Processor.Cancel.{load_own_orders, cancel_both, do_cancel_amm_orders}
use raydium_amm_fair.Processor.UpdateConfig.{
  set_config, process_update_config, IsUpdate, process_update_config-IsUpdate,
}
use raydium_amm_fair.Processor.AdminCancel.{
  AdminAccounts, admin_accounts, admin_cancel_accounts, check_admin_keys, check_admin_srm,
  check_admin_referrer, check_cancel_owner, check_admin, process_admin_cancel_orders,
  admin_settle_accounts,
}
use raydium_amm_fair.Tests.World.{runtime, account, keys, bank_after}
use raydium_amm_fair.Tests.Book.{open_market, book_bank, no_orders}

abbrev first_config : AmmConfig
first_config = record { pnl_owner = 24; cancel_owner = 24; create_pool_fee = 0 }

abbrev config_bank : Bank
config_bank k =
    if k == 903
    then record { owner = 900; lamports = 0; content = AccountData.config_data first_config }
    else book_bank k

abbrev admin : AccountInfo
admin = record { key = amm_owner_id; is_signer = true; is_writable = true }

-- Key 29 may cancel from now on.
abbrev new_cancel_owner : ConfigArgs
new_cancel_owner = record { param = 1; owner = some 29; create_pool_fee = none }

updated : Bank
updated =
    bank_after
      (process_update_config runtime (admin ∷ account 903 ∷ []) new_cancel_owner config_bank)

config_ran :
    process_update_config runtime (admin ∷ account 903 ∷ []) new_cancel_owner config_bank
    ≡ ok updated
unfolding updated process_update_config next_account_info load_config set_config
config_ran = refl

process_update_config-IsUpdate_example :
    (admin.is_signer ≡ true)
    × (admin.key ≡ amm_owner_id)
    × ((account 903).key ≡ runtime.config_address)
    × (c : AmmConfig) × (c' : AmmConfig) × ((config_bank runtime.config_address).content
        ≡ AccountData.config_data c)
    × ((updated runtime.config_address).content ≡ AccountData.config_data c')
    × IsUpdate c c'
    × ((k : Pubkey) → k ≢ runtime.config_address → updated k ≡ config_bank k)
process_update_config-IsUpdate_example =
    process_update_config-IsUpdate runtime admin (account 903) [] new_cancel_owner config_bank
      config_ran

abbrev cancel_list : List AccountInfo
cancel_list = keys (
    901 ∷ 10 ∷ 902 ∷ 11 ∷ 25 ∷ 12 ∷ 13 ∷ 24 ∷ 903 ∷ openbook_program ∷ 15 ∷ 19 ∷ 20 ∷ 21 ∷ 18 ∷ 16
    ∷ 17 ∷ [])

abbrev named : AdminAccounts
named = record {
  token_program = account 901;
  amm = account 10;
  amm_authority = account 902;
  amm_open_orders = account 11;
  amm_target_orders = account 25;
  amm_coin_vault = account 12;
  amm_pc_vault = account 13;
  amm_owner = account 24;
  amm_config = account 903;
  market_program = account openbook_program;
  market = account 15;
  market_coin_vault = account 19;
  market_pc_vault = account 20;
  market_vault_signer = account 21;
  market_event_queue = account 18;
  market_bids = account 16;
  market_asks = account 17;
  srm_token = none;
  referrer_pc = none;
}

abbrev with_lamports : Pubkey → ℕ → Bank → Bank
with_lamports key n bank k = if k == key then record (bank k) { lamports = n } else bank k

-- A bid and an ask in the first two slots. What is free is counted in the account's lamports.
abbrev two_orders : OpenOrders
two_orders = record no_orders {
  free_slot_bits = 2 ^ 128 - 4;
  is_bid_bits = 1;
  orders = 7 ∷ 8 ∷ replicate 126 0;
}

-- The orders cancelled make 500 coin free, which settling moves to the vault.
abbrev busy_market : Market
busy_market = record open_market {
  load_open_orders = λ a m o p b. ok (record two_orders { native_coin_free = (b a).lamports });
  load_bids =
      λ m a b. ok (λ k. if k == 7 then some (record { price = 9; client_order_id = 55 }) else none);
  load_asks = λ m a b.
      ok (λ k. if k == 8 then some (record { price = 10; client_order_id = 56 }) else none);
  cancel_orders = λ a ids b. ok (with_lamports a.open_orders 500 b);
  settle_funds = λ a b. ok (with_lamports a.open_orders 0 (with_lamports a.coin_vault 500 b));
}

cancelled : Bank
cancelled = bank_after (process_admin_cancel_orders runtime busy_market cancel_list config_bank)

vault_credited : (cancelled 12).lamports ≡ 500
unfolding cancelled process_admin_cancel_orders admin_accounts next_account_info load_amm
    check_admin check_admin_keys check_admin_srm check_admin_referrer check_cancel_owner load_config
    authority_id do_cancel_amm_orders load_own_orders load_serum_market_order get_amm_orders
    cancel_both batches_of_both cancel_batches admin_cancel_accounts admin_settle_accounts
vault_credited = refl
