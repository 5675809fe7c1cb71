-- ===== src/Processor/Calls.antt =====
-- What a client builds (program/src/instruction.rs) and what the program reads of it.
pub mod Swap
pub mod Deposit
pub mod Withdraw
pub mod Monitor
use raydium_amm_fair.Common.{◌≡◌, refl, List}
use raydium_amm_fair.Outcome.{Outcome, ok, after_bind, ◌>>=◌}
use raydium_amm_fair.State.Accounts.{Pubkey}
use raydium_amm_fair.Chain.{AccountInfo}
use raydium_amm_fair.Instruction.Types.{AmmInstruction}
use raydium_amm_fair.Instruction.Pack.{pack}
use raydium_amm_fair.Instruction.Unpack.{unpack}
use raydium_amm_fair.Instruction.RoundTrip.{IsPackable, unpack-pack}
use raydium_amm_fair.Instruction.Call.{Call}

-- A call that is built has bytes that are read as the instruction, and accounts that a handler takes
-- apart into the given roles.
pub record IsCall {A : Type 0} (take : List AccountInfo → Outcome A) (built : Outcome Call)
    (i : AmmInstruction) (roles : A) : Type 0 where
  pub call : Call
  pub is_built : built ≡ ok call
  pub read : unpack call.bytes ≡ ok i
  pub taken : take call.accounts ≡ ok roles

pub heard :
    {A : Type 0} (take : List AccountInfo → Outcome A) (i : AmmInstruction)
    (accounts : List AccountInfo) (program : Pubkey) {roles : A}
    → IsPackable i
    → take accounts ≡ ok roles
    → IsCall take
        (pack i >>= λ bytes.
          ok (record { program_id = program; accounts = accounts; bytes = bytes }))
        i
        roles
heard take i accounts program h taken = after_bind (pack i) (unpack-pack i h) λ bytes packed read.
    record {
      call = record { program_id = program; accounts = accounts; bytes = bytes };
      is_built = rw packed;
      read = read;
      taken = taken;
    }
