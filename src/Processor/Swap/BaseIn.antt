-- ===== src/Processor/Swap/BaseIn.antt =====
-- `process_swap_base_in` (program/src/processor.rs).
use raydium_amm_fair.Common.{ℕ, List, ◌||◌, ltb, leb, ◌==◌}
use raydium_amm_fair.Error.{exceeded_slippage, invalid_input, insufficient_funds}
use raydium_amm_fair.Outcome.{Outcome, ok, unwrap, fail_if, ◌>>=◌, ◌>>◌}
use raydium_amm_fair.Word.{checked_mul, checked_sub, as_width}
use raydium_amm_fair.State.Fees.{Fees}
use raydium_amm_fair.Chain.{AccountInfo, Bank, Runtime}
use raydium_amm_fair.Dex.Types.{Market}
use raydium_amm_fair.Instruction.Types.{SwapInstructionBaseIn}
use raydium_amm_fair.Math.CeilDiv.{checked_ceil_div}
use raydium_amm_fair.Math.Swap.{SwapDirection, swap_token_amount_base_in}
use raydium_amm_fair.Math.Swap.Product.{reserve_out}
use raydium_amm_fair.Processor.Swap.Context.{SwapContext, SwapPool, swap_context}
use raydium_amm_fair.Processor.Swap.Settle.{free_funds, settle_swap}

-- The fee and the amount that the pool pays out.
unfoldable pub quote_base_in : Fees → SwapPool → SwapDirection → ℕ → Outcome (ℕ × ℕ)
quote_base_in fees pool direction amount_in = do
  product ← unwrap (checked_mul 128 amount_in fees.swap_fee_numerator)
  (swap_fee, _) ← unwrap (checked_ceil_div product fees.swap_fee_denominator)
  after_fee ← unwrap (checked_sub amount_in swap_fee)
  amount_out ← swap_token_amount_base_in after_fee pool.total_pc pool.total_coin direction
  amount_out' ← as_width 64 amount_out
  ok (swap_fee, amount_out')

unfoldable pub check_base_in : SwapContext → SwapInstructionBaseIn → ℕ → Outcome (Unit {0})
check_base_in c swap amount_out = do
  fail_if (ltb amount_out swap.minimum_amount_out) exceeded_slippage
  fail_if (amount_out == 0 || swap.amount_in == 0) invalid_input
  fail_if (leb (reserve_out c.direction c.pool.total_pc c.pool.total_coin) amount_out)
      insufficient_funds

unfoldable pub process_swap_base_in :
    Runtime → Market → List AccountInfo → SwapInstructionBaseIn → Bank → Outcome Bank
process_swap_base_in rt mk accounts swap bank = do
  c ← swap_context rt mk accounts bank
  fail_if (ltb c.source.amount swap.amount_in) insufficient_funds
  (swap_fee, amount_out) ← quote_base_in c.amm.fees c.pool c.direction swap.amount_in
  check_base_in c swap amount_out
  freed ← free_funds mk c c.accounts.market_coin_vault.key amount_out c.enable_orderbook bank
  fee ← as_width 64 swap_fee
  settle_swap rt c swap.amount_in amount_out fee freed
