-- ===== src/Chain.antt =====
-- The accounts that the handlers of program/src/processor.rs read and write, and the programs that
-- they call. The contents of all accounts are a `Bank`, a function of the key; an `AccountInfo` of the
-- source is a key with its flags, so two of them with one key share their data. A program's error or
-- a panic aborts the transaction, so a handler returns a new bank only where it returns `ok`.
use raydium_amm_fair.Common.{
  ℕ, ◌+◌, ◌≤◌, ◌≡◌, ◌≢◌, Option, List, [], ◌∷◌, ◌==◌, ◌!=◌, if◌then◌else◌, Bool,
}
use raydium_amm_fair.Error.{
  ProgramError, not_enough_account_keys, invalid_program_address, invalid_spl_token_program,
  expected_account, expected_mint, invalid_amm_account_owner, invalid_status,
  invalid_target_account_owner, invalid_target_owner, invalid_owner,
}
use raydium_amm_fair.Outcome.{Outcome, ok, err, ok_or, fail_if, ◌>>=◌, ◌>>◌}
use raydium_amm_fair.State.Accounts.{Pubkey, AmmInfo, TargetOrders, AmmConfig, SequencerOrders}
use raydium_amm_fair.State.Status.{status_into_u64, uninitialized}

-- `spl_token::state::Account` and `Mint`: the fields that the program reads.
pub record TokenAccount : Type 0 where
  pub mint : Pubkey
  pub owner : Pubkey
  pub amount : ℕ
  pub delegate : Option Pubkey
  pub close_authority : Option Pubkey

pub record Mint : Type 0 where
  pub supply : ℕ
  pub decimals : ℕ
  pub mint_authority : Option Pubkey
  pub freeze_authority : Option Pubkey

-- The contents of an account, by its length and its owner: the four records of this program have
-- four different lengths.
pub data AccountData : Type 0 where
  token_data : TokenAccount → AccountData
  mint_data : Mint → AccountData
  amm_data : AmmInfo → AccountData
  target_data : TargetOrders → AccountData
  config_data : AmmConfig → AccountData
  sequencer_data : SequencerOrders → AccountData
  other_data : AccountData

pub record Account : Type 0 where
  pub owner : Pubkey
  pub lamports : ℕ
  pub content : AccountData

abbrev pub Bank : Type 0
Bank = Pubkey → Account

-- A write to the data of one account.
abbrev pub write : Pubkey → AccountData → Bank → Bank
write key content bank k = if k == key then record (bank k) { content = content } else bank k

pub record AccountInfo : Type 0 where
  pub key : Pubkey
  pub is_signer : Bool
  pub is_writable : Bool

unfoldable pub next_account_info : List AccountInfo → Outcome (AccountInfo × List AccountInfo)
next_account_info [] = err not_enough_account_keys
next_account_info (a ∷ rest) = ok (a, rest)

pub record Clock : Type 0 where
  pub unix_timestamp : ℕ
  pub epoch : ℕ

-- What the handlers take from the runtime and from the token program. `transfer` and its kin take
-- the source, the destination and the authority of the call. `config_address` is the address that
-- `find_program_address` derives from `AMM_CONFIG_SEED`, and `clock_id` the key of the clock.
pub record Runtime : Type 0 where
  pub program_id : Pubkey
  pub spl_token_id : Pubkey
  pub create_program_address : ℕ → Option Pubkey
  pub config_address : Pubkey
  pub clock_id : Pubkey
  pub clock : Outcome Clock
  pub transfer : Pubkey → Pubkey → Pubkey → ℕ → Bank → Outcome Bank
  pub mint_to : Pubkey → Pubkey → Pubkey → ℕ → Bank → Outcome Bank
  pub burn : Pubkey → Pubkey → Pubkey → ℕ → Bank → Outcome Bank

-- The token balance of an account; 0 for any other account.
abbrev token_amount : AccountData → ℕ
token_amount (token_data t) = t.amount
token_amount _ = 0

abbrev pub balance : Bank → Pubkey → ℕ
balance bank k = token_amount (bank k).content

-- The documented effect of a transfer between two accounts: it moves the amount, within the
-- source's balance, and changes no other account.
pub record IsTransfer (rt : Runtime) : Type 0 where
  pub debit :
      (s d a : Pubkey) (n : ℕ) (b b' : Bank)
      → s ≢ d
      → rt.transfer s d a n b ≡ ok b'
      → balance b' s + n ≡ balance b s
  pub credit :
      (s d a : Pubkey) (n : ℕ) (b b' : Bank)
      → s ≢ d
      → rt.transfer s d a n b ≡ ok b'
      → balance b' d ≡ balance b d + n
  pub frame :
      (s d a k : Pubkey) (n : ℕ) (b b' : Bank)
      → k ≢ s
      → k ≢ d
      → rt.transfer s d a n b ≡ ok b'
      → b' k ≡ b k

-- Of the documented effect of issuing tokens: no balance falls.
pub record IsMint (rt : Runtime) : Type 0 where
  pub keep :
      (m d a k : Pubkey) (n : ℕ) (b b' : Bank)
      → rt.mint_to m d a n b ≡ ok b'
      → balance b k ≤ balance b' k

-- Of the documented effect of a burn: only the mint and the account that is burnt from change.
pub record IsBurn (rt : Runtime) : Type 0 where
  pub frame :
      (s m a k : Pubkey) (n : ℕ) (b b' : Bank)
      → k ≢ s
      → k ≢ m
      → rt.burn s m a n b ≡ ok b'
      → b' k ≡ b k

as_token : AccountData → Outcome TokenAccount
as_token (token_data t) = ok t
as_token _ = err (ProgramError.amm expected_account)

as_mint : AccountData → Outcome Mint
as_mint (mint_data m) = ok m
as_mint _ = err (ProgramError.amm expected_mint)

unfoldable pub as_amm : AccountData → Outcome AmmInfo
as_amm (amm_data a) = ok a
as_amm _ = err (ProgramError.amm expected_account)

unfoldable pub as_target : AccountData → Outcome TargetOrders
as_target (target_data t) = ok t
as_target _ = err (ProgramError.amm expected_account)

as_config : AccountData → Outcome AmmConfig
as_config (config_data c) = ok c
as_config _ = err (ProgramError.amm expected_account)

as_sequencer : AccountData → Outcome SequencerOrders
as_sequencer (sequencer_data s) = ok s
as_sequencer _ = err (ProgramError.amm expected_account)

-- `Processor::unpack_token_account`, with the program that must own the account.
unfoldable pub token_account_of : Pubkey → Pubkey → Bank → Outcome TokenAccount
unfolding as_token
token_account_of program key bank = do
  fail_if ((bank key).owner != program) invalid_spl_token_program
  as_token (bank key).content

module _ (rt : Runtime) where
  -- `Processor::authority_id`; `nonce as u8`.
  unfoldable pub authority_id : ℕ → Outcome Pubkey
  authority_id nonce = ok_or (rt.create_program_address nonce) invalid_program_address

  unfoldable pub unpack_token_account : Pubkey → Bank → Outcome TokenAccount
  unfolding token_account_of
  unpack_token_account key bank = token_account_of rt.spl_token_id key bank

  unfoldable pub unpack_mint : Pubkey → Bank → Outcome Mint
  unfolding as_mint
  unpack_mint key bank = do
    fail_if ((bank key).owner != rt.spl_token_id) invalid_spl_token_program
    as_mint (bank key).content

  -- `AmmInfo::load_mut_checked` and `load_checked`.
  unfoldable pub load_amm : Pubkey → Bank → Outcome AmmInfo
  unfolding as_amm
  load_amm key bank = do
    fail_if ((bank key).owner != rt.program_id) invalid_amm_account_owner
    data' ← as_amm (bank key).content
    fail_if (data'.status == status_into_u64 uninitialized) invalid_status
    ok data'

  -- `TargetOrders::load_mut_checked` and `load_checked`.
  unfoldable pub load_target : Pubkey → Pubkey → Bank → Outcome TargetOrders
  unfolding as_target
  load_target key owner bank = do
    fail_if ((bank key).owner != rt.program_id) invalid_target_account_owner
    data' ← as_target (bank key).content
    fail_if (data'.owner != owner) invalid_target_owner
    ok data'

  -- `AmmConfig::load_mut_checked` and `load_checked`.
  unfoldable pub load_config : Pubkey → Bank → Outcome AmmConfig
  unfolding as_config
  load_config key bank = do
    fail_if ((bank key).owner != rt.program_id) invalid_owner
    as_config (bank key).content

  -- `SequencerOrders::load_mut_checked` and `load_checked`.
  unfoldable pub load_sequencer : Pubkey → Bank → Outcome SequencerOrders
  unfolding as_sequencer
  load_sequencer key bank = do
    fail_if ((bank key).owner != rt.program_id) invalid_owner
    as_sequencer (bank key).content
