-- ===== src/Instruction/Call.antt =====
-- The calls that a client builds (program/src/instruction.rs): the program, the accounts and the bytes.
pub mod Swap
pub mod Funds
pub mod Orders
pub mod Admin
pub mod Simulate
use raydium_amm_fair.Common.{ℕ, Bool, true, false, Option, none, some, List, [], ◌∷◌}
use raydium_amm_fair.State.Accounts.{Pubkey}
use raydium_amm_fair.Chain.{AccountInfo}

-- The runtime passes each account with the flags that the call asks for.
pub record Call : Type 0 where
  pub program_id : Pubkey
  pub accounts : List AccountInfo
  pub bytes : List ℕ

-- The keys of the programs and of the runtime's accounts, which other crates define.
pub record ProgramIds : Type 0 where
  pub spl_token : Pubkey
  pub associated_token : Pubkey
  pub system_program : Pubkey
  pub rent : Pubkey
  pub clock : Pubkey

-- `AccountMeta::new` and `AccountMeta::new_readonly`, with the flag of a signature.
abbrev pub writable : Pubkey → Bool → AccountInfo
writable key is_signer = record { key = key; is_signer = is_signer; is_writable = true }

abbrev pub readonly : Pubkey → Bool → AccountInfo
readonly key is_signer = record { key = key; is_signer = is_signer; is_writable = false }

-- An account that is pushed where it is given.
abbrev pub pushed : (Pubkey → Bool → AccountInfo) → Option Pubkey → List AccountInfo
pushed account none = []
pushed account (some key) = account key false ∷ []

-- The referrer's account stands only behind an account of SRM.
abbrev pub pushed_two : Option Pubkey → Option Pubkey → List AccountInfo
pushed_two (some srm) referrer = writable srm false ∷ pushed writable referrer
pushed_two none referrer = []
