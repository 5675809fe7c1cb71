-- ===== src/Tests/Initialize.antt =====
-- A pool that is created on the small chain.
use raydium_amm_fair.Common.{
  ℕ, ◌≤◌, ◌≡◌, refl, none, some, List, [], ◌∷◌, ◌==◌, leb, if◌then◌else◌, arith, Bool-cases, inl,
  inr,
}
use raydium_amm_fair.Outcome.{ok}
use raydium_amm_fair.Config.{openbook_program, create_pool_fee_address}
use raydium_amm_fair.State.Accounts.{Pubkey, AmmInfo, check_init}
use raydium_amm_fair.State.Initialize.{initialize, sys_decimal, min_size_of}
use raydium_amm_fair.Chain.{
  AccountData, AccountInfo, Bank, next_account_info, as_amm, as_target, load_config, unpack_mint,
  unpack_token_account, token_account_of, write,
}
use raydium_amm_fair.Instruction.Types.{InitializeInstruction2}
use raydium_amm_fair.Math.Decimal.{normalize_decimal_v2, convert_in_pc_lot_size}
use raydium_amm_fair.Processor.Initialize.Programs.{
  System, Seed, Space, amm_associated_seed, target_associated_seed, open_order_associated_seed,
  coin_vault_associated_seed, pc_vault_associated_seed, lp_mint_associated_seed,
  target_orders_space, amm_info_space,
}
use raydium_amm_fair.Processor.Initialize.Accounts.{InitializeAccounts, initialize_accounts}
use raydium_amm_fair.Processor.Initialize.Create.{
  required_lamports, create_account, generate_amm_associated_account,
  generate_amm_associated_spl_mint, generate_amm_associated_spl_token,
}
use raydium_amm_fair.Processor.Initialize.{
  check_initialize, charge_fee, creator_of, create_accounts, check_vault, check_market,
  check_lp_mint, first_shares, fill_pool, start_pool, fund_pool, process_initialize2,
}
use raydium_amm_fair.Processor.Initialize.Start.{IsRoot}
use raydium_amm_fair.Processor.Initialize.Fresh.{IsFresh, process_initialize2-IsFresh}
use raydium_amm_fair.Tests.Laws.{runtime-IsMint}
use raydium_amm_fair.Tests.World.{
  runtime, bank, pool, target, account, keys, bank_after, token_transfer, token_mint,
}
use raydium_amm_fair.Tests.Book.{open_market}

-- The accounts of the new pool are 40 to 45.
unfoldable pub address_of : Seed → Pubkey
address_of amm_associated_seed = 40
address_of target_associated_seed = 41
address_of lp_mint_associated_seed = 42
address_of coin_vault_associated_seed = 43
address_of pc_vault_associated_seed = 44
address_of open_order_associated_seed = 45

-- An account of the given size that has not been written yet.
unfoldable pub blank : Space → AccountData
blank amm_info_space = AccountData.amm_data (record pool { status = 0; lp_amount = 0 })
blank target_orders_space = AccountData.target_data (record target { owner = 0 })
blank _ = AccountData.other_data

unfoldable pub assigned : Pubkey → Pubkey → Bank → Bank
assigned key owner b k = if k == key then record (b k) { owner = owner } else b k

abbrev empty_token : Pubkey → Pubkey → AccountData
empty_token mint owner =
    AccountData.token_data
      (record { mint = mint; owner = owner; amount = 0; delegate = none; close_authority = none })

abbrev mint_of : Pubkey → ℕ → AccountData
mint_of authority decimals = AccountData.mint_data (record {
  supply = 0;
  decimals = decimals;
  mint_authority = some authority;
  freeze_authority = none;
})

abbrev pub system : System
system = record {
  system_program_id = 0;
  associated_token_id = 906;
  authority = (902, 254);
  find_address = λ p m seed. (address_of seed, 255);
  minimum_balance = λ k space b. ok 1000;
  pay = λ from to n b. ok b;
  allocate = λ k space b. ok (write k (blank space) b);
  assign = λ k owner b. ok (assigned k owner b);
  initialize_account = λ k mint owner b. ok (write k (empty_token mint owner) b);
  initialize_mint = λ k authority decimals b. ok (write k (mint_of authority decimals) b);
  sync_native = λ k b. ok b;
  create_ata = λ k wallet mint b. ok (write k (empty_token mint wallet) (assigned k 901 b));
  init_open_orders = λ p o w m b. ok b;
}

-- The two mints have two decimals, and a pool costs nothing.
abbrev mints_bank : Bank
mints_bank k =
    if k == 31
    then record { owner = 901; lamports = 0; content = mint_of 0 2 }
    else if k == 32
    then record { owner = 901; lamports = 0; content = mint_of 0 2 }
    else if k == 903
    then record {
      owner = 900;
      lamports = 0;
      content =
          AccountData.config_data
            (record { pnl_owner = 24; cancel_owner = 0; create_pool_fee = 0 });
    }
    else bank k

abbrev initialize_list : List AccountInfo
initialize_list = keys (
    901 ∷ 906 ∷ 0 ∷ 905 ∷ 40 ∷ 902 ∷ 45 ∷ 42 ∷ 31 ∷ 32 ∷ 43 ∷ 44 ∷ 41 ∷ 903
    ∷ create_pool_fee_address ∷ openbook_program ∷ 15 ∷ 24 ∷ 22 ∷ 23 ∷ 46 ∷ [])

abbrev named : InitializeAccounts
named = record {
  token_program = account 901;
  ata_token_program = account 906;
  system_program = account 0;
  rent_sysvar = account 905;
  amm = account 40;
  amm_authority = account 902;
  amm_open_orders = account 45;
  amm_lp_mint = account 42;
  amm_coin_mint = account 31;
  amm_pc_mint = account 32;
  amm_coin_vault = account 43;
  amm_pc_vault = account 44;
  amm_target_orders = account 41;
  amm_config = account 903;
  create_fee_destination = account create_pool_fee_address;
  market_program = account openbook_program;
  market = account 15;
  user_wallet = account 24;
  user_token_coin = account 22;
  user_token_pc = account 23;
  user_token_lp = account 46;
}

abbrev init : InitializeInstruction2
init = record { nonce = 254; open_time = 60; init_pc_amount = 4000; init_coin_amount = 4000 }

-- A square root that is right for the number at hand, and never too large.
unfoldable root : ℕ → ℕ
root n = if leb 16000000 n then 4000 else 0

root-IsRoot : IsRoot root
unfolding root
root-IsRoot n = elim (Bool-cases (leb 16000000 n)) [
  | inl e ↦ let le : 16000000 ≤ n = ground arith in rw e (omega (arith, le))
  | inr e ↦ rw e (omega arith)
]

created : Bank
created =
    bank_after (process_initialize2 root runtime system open_market initialize_list init mints_bank)

ran :
    process_initialize2 root runtime system open_market initialize_list init mints_bank ≡ ok created
unfolding created process_initialize2 initialize_accounts next_account_info check_initialize
    charge_fee creator_of load_config unpack_mint create_accounts generate_amm_associated_account
    generate_amm_associated_spl_mint generate_amm_associated_spl_token create_account
    required_lamports fund_pool as_amm check_vault unpack_token_account token_account_of
    check_market check_lp_mint first_shares root start_pool initialize sys_decimal min_size_of
    convert_in_pc_lot_size normalize_decimal_v2 as_target check_init fill_pool address_of blank
    assigned token_transfer token_mint
ran = refl

process_initialize2-IsFresh_example : (amm : AmmInfo) × IsFresh runtime named 60 created amm
unfolding initialize_accounts next_account_info
process_initialize2-IsFresh_example =
    process_initialize2-IsFresh root runtime system open_market initialize_list init mints_bank
      named root-IsRoot runtime-IsMint refl ran
