-- ===== src/Processor/Swap/Sequence.antt =====
-- Any number of swaps of both kinds on one pool.
use raydium_amm_fair.Common.{◌≤◌, ◌≡◌, List, arith}
use raydium_amm_fair.Outcome.{ok}
use raydium_amm_fair.State.Accounts.{Pubkey}
use raydium_amm_fair.Chain.{AccountInfo, Bank, Runtime, IsTransfer}
use raydium_amm_fair.Dex.Types.{Market}
use raydium_amm_fair.Instruction.Types.{SwapInstructionBaseIn, SwapInstructionBaseOut}
use raydium_amm_fair.Processor.Swap.Context.{SwapContext}
use raydium_amm_fair.Processor.Swap.BaseIn.{process_swap_base_in}
use raydium_amm_fair.Processor.Swap.BaseOut.{process_swap_base_out}
use raydium_amm_fair.Processor.Swap.Run.{pool_product, IsPlainSwap}
use raydium_amm_fair.Processor.Swap.ConstantProduct.{
  process_swap_base_in-product, process_swap_base_out-product,
}

-- Swaps on the pool `key` that succeed one after another.
pub data Swaps (rt : Runtime) (mk : Market) (key : Pubkey) : Bank → Bank → Type 0 where
  stop : (bank : Bank) → Swaps rt mk key bank bank
  swap_in :
      (accounts : List AccountInfo) (swap : SwapInstructionBaseIn) (bank bank' bank'' : Bank)
      (c : SwapContext)
      → IsPlainSwap rt mk accounts bank c
      → c.accounts.amm.key ≡ key
      → process_swap_base_in rt mk accounts swap bank ≡ ok bank'
      → Swaps rt mk key bank' bank''
      → Swaps rt mk key bank bank''
  swap_out :
      (accounts : List AccountInfo) (swap : SwapInstructionBaseOut) (bank bank' bank'' : Bank)
      (c : SwapContext)
      → IsPlainSwap rt mk accounts bank c
      → c.accounts.amm.key ≡ key
      → process_swap_base_out rt mk accounts swap bank ≡ ok bank'
      → Swaps rt mk key bank' bank''
      → Swaps rt mk key bank bank''

-- No number of swaps of either kind on one pool, in any order and with any accounts of the users,
-- lowers the product of what its vaults hold less the profit that is owed, where the pool has its
-- order book disabled and two different vaults in each of them.
pub Swaps-product :
    (rt : Runtime) (mk : Market) (key : Pubkey) (bank bank'' : Bank)
    → IsTransfer rt
    → Swaps rt mk key bank bank''
    → pool_product bank key ≤ pool_product bank'' key
Swaps-product rt mk key _ _ law (stop bank) = omega arith
Swaps-product rt mk key _ _ law (swap_in accounts swap bank bank' bank'' c plain same h rest) =
    let once = process_swap_base_in-product rt mk accounts bank law plain swap h in
    let first : pool_product bank key ≤ pool_product bank' key = rw same at once in
    let then' = Swaps-product rt mk key bank' bank'' law rest in omega (arith, first, then')
Swaps-product rt mk key _ _ law (swap_out accounts swap bank bank' bank'' c plain same h rest) =
    let once = process_swap_base_out-product rt mk accounts bank law plain swap h in
    let first : pool_product bank key ≤ pool_product bank' key = rw same at once in
    let then' = Swaps-product rt mk key bank' bank'' law rest in omega (arith, first, then')
