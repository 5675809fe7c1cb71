-- ===== src/Processor/Initialize/Create.antt =====
-- The functions that create the accounts of a pool (`Processor::generate_amm_associated_account`,
-- `generate_amm_associated_spl_mint`, `generate_amm_associated_spl_token`, program/src/processor.rs).
use raydium_amm_fair.Common.{ℕ, ◌-◌, ltb, leb, ◌==◌, ◌!=◌, if◌then◌else◌}
use raydium_amm_fair.Error.{
  AmmError, ProgramError, expected_account, expected_mint, repeat_create_amm,
}
use raydium_amm_fair.Outcome.{Outcome, ok, err, fail_if, ◌>>=◌, ◌>>◌}
use raydium_amm_fair.State.Accounts.{Pubkey}
use raydium_amm_fair.Chain.{Bank, Runtime}
use raydium_amm_fair.Processor.Initialize.Programs.{
  System, Seed, Space, token_account_space, mint_space,
}

-- Who pays for an account of which market.
pub record Creator : Type 0 where
  pub market : Pubkey
  pub user_wallet : Pubkey
  pub system_program : Pubkey
  pub rent_sysvar : Pubkey

-- `max(1)` and `saturating_sub`.
unfoldable pub required_lamports : ℕ → ℕ → ℕ
required_lamports minimum lamports = (if leb minimum 1 then 1 else minimum) - lamports

-- What the three functions share: the address, an account that the system program still owns, its
-- rent, its size and its new owner.
unfoldable pub create_account :
    Runtime → System → Creator → AmmError → Seed → Space → Pubkey → Pubkey → Bank → Outcome Bank
create_account rt sys a error seed space assign_to key bank = do
  let (associated_token_address, _) = sys.find_address rt.program_id a.market seed
  fail_if (associated_token_address != key) error
  if (bank key).owner == a.system_program
      then (do
        minimum ← sys.minimum_balance a.rent_sysvar space bank
        let required = required_lamports minimum (bank key).lamports
        paid ← if ltb 0 required then sys.pay a.user_wallet key required bank else ok bank
        allocated ← sys.allocate key space paid
        sys.assign key assign_to allocated)
      else err (ProgramError.amm repeat_create_amm)

unfoldable pub generate_amm_associated_account :
    Runtime → System → Creator → Pubkey → Pubkey → Seed → Space → Bank → Outcome Bank
unfolding create_account
generate_amm_associated_account rt sys a assign_to key seed space bank =
    create_account rt sys a expected_account seed space assign_to key bank

unfoldable pub generate_amm_associated_spl_mint :
    Runtime → System → Creator → Pubkey → Pubkey → Seed → ℕ → Bank → Outcome Bank
generate_amm_associated_spl_mint rt sys a authority key seed mint_decimals bank = do
  created ← create_account rt sys a expected_mint seed mint_space rt.spl_token_id key bank
  sys.initialize_mint key authority mint_decimals created

unfoldable pub generate_amm_associated_spl_token :
    Runtime → System → Creator → Pubkey → Pubkey → Pubkey → Seed → Bank → Outcome Bank
generate_amm_associated_spl_token rt sys a authority key mint seed bank = do
  created ←
      create_account rt sys a expected_account seed token_account_space rt.spl_token_id key bank
  sys.initialize_account key mint authority created
