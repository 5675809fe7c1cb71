-- ===== src/Processor/Initialize/Programs.antt =====
-- What `process_initialize2` (program/src/processor.rs) takes from the system program, the token
-- programs and the market to create accounts.
use raydium_amm_fair.Common.{ℕ}
use raydium_amm_fair.Outcome.{Outcome}
use raydium_amm_fair.State.Accounts.{Pubkey}
use raydium_amm_fair.Chain.{Bank}

-- The seeds of the addresses that belong to a market.
pub data Seed : Type 0 where
  amm_associated_seed target_associated_seed open_order_associated_seed coin_vault_associated_seed
        pc_vault_associated_seed lp_mint_associated_seed :
      Seed

-- The sizes of the accounts that are created.
pub data Space : Type 0 where
  target_orders_space amm_info_space open_orders_space token_account_space mint_space
        amm_config_space :
      Space

-- `find_address` is `find_program_address` of the program, a market and a seed, with the bump seed,
-- and `authority` that of `AUTHORITY_AMM`; `minimum_balance` reads the account of the rent. Of the
-- calls, `pay` takes the payer and the payee, `initialize_account` the account, the mint and the
-- owner, `initialize_mint` the mint, its authority and the decimals, `create_ata` the account, the
-- wallet and the mint, `init_open_orders` the program, the open orders, their owner and the market.
pub record System : Type 0 where
  pub system_program_id : Pubkey
  pub associated_token_id : Pubkey
  pub authority : Pubkey × ℕ
  pub find_address : Pubkey → Pubkey → Seed → Pubkey × ℕ
  pub minimum_balance : Pubkey → Space → Bank → Outcome ℕ
  pub pay : Pubkey → Pubkey → ℕ → Bank → Outcome Bank
  pub allocate : Pubkey → Space → Bank → Outcome Bank
  pub assign : Pubkey → Pubkey → Bank → Outcome Bank
  pub initialize_account : Pubkey → Pubkey → Pubkey → Bank → Outcome Bank
  pub initialize_mint : Pubkey → Pubkey → ℕ → Bank → Outcome Bank
  pub sync_native : Pubkey → Bank → Outcome Bank
  pub create_ata : Pubkey → Pubkey → Pubkey → Bank → Outcome Bank
  pub init_open_orders : Pubkey → Pubkey → Pubkey → Pubkey → Bank → Outcome Bank
