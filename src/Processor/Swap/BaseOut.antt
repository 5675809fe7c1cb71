-- ===== src/Processor/Swap/BaseOut.antt =====
-- `process_swap_base_out` (program/src/processor.rs).
use raydium_amm_fair.Common.{ℕ, List, ◌||◌, ltb, leb, ◌==◌}
use raydium_amm_fair.Error.{exceeded_slippage, invalid_input, insufficient_funds}
use raydium_amm_fair.Outcome.{Outcome, ok, unwrap, fail_if, ◌>>=◌, ◌>>◌}
use raydium_amm_fair.Word.{checked_mul, checked_sub, as_width}
use raydium_amm_fair.State.Fees.{Fees}
use raydium_amm_fair.State.Accounts.{Pubkey}
use raydium_amm_fair.Chain.{AccountInfo, Bank, Runtime}
use raydium_amm_fair.Dex.Types.{Market}
use raydium_amm_fair.Instruction.Types.{SwapInstructionBaseOut}
use raydium_amm_fair.Math.CeilDiv.{checked_ceil_div}
use raydium_amm_fair.Math.Swap.{SwapDirection, coin2pc, pc2coin, swap_token_amount_base_out}
use raydium_amm_fair.Math.Swap.Product.{reserve_out}
use raydium_amm_fair.Processor.Swap.Context.{SwapAccounts, SwapContext, SwapPool, swap_context}
use raydium_amm_fair.Processor.Swap.Settle.{free_funds, settle_swap}

-- The amount that the user pays, with the fee, and the fee.
unfoldable pub quote_base_out : Fees → SwapPool → SwapDirection → ℕ → Outcome (ℕ × ℕ)
quote_base_out fees pool direction amount_out = do
  before_fee ← swap_token_amount_base_out amount_out pool.total_pc pool.total_coin direction
  product ← unwrap (checked_mul 128 before_fee fees.swap_fee_denominator)
  rest ← unwrap (checked_sub fees.swap_fee_denominator fees.swap_fee_numerator)
  (after_fee, _) ← unwrap (checked_ceil_div product rest)
  amount_in ← as_width 64 after_fee
  before_fee' ← as_width 64 before_fee
  swap_fee ← unwrap (checked_sub amount_in before_fee')
  ok (amount_in, swap_fee)

unfoldable pub check_base_out : SwapContext → SwapInstructionBaseOut → ℕ → Outcome (Unit {0})
check_base_out c swap amount_in = do
  fail_if (ltb c.source.amount amount_in) insufficient_funds
  fail_if (ltb swap.max_amount_in amount_in) exceeded_slippage
  fail_if (amount_in == 0 || swap.amount_out == 0) invalid_input
  fail_if (leb (reserve_out c.direction c.pool.total_pc c.pool.total_coin) swap.amount_out)
      insufficient_funds

-- From pc to coin the settlement is passed the account of the asks as the market's coin vault.
abbrev pub settled_coin_vault : SwapDirection → SwapAccounts → Pubkey
settled_coin_vault coin2pc a = a.market_coin_vault.key
settled_coin_vault pc2coin a = a.market_asks.key

unfoldable pub process_swap_base_out :
    Runtime → Market → List AccountInfo → SwapInstructionBaseOut → Bank → Outcome Bank
process_swap_base_out rt mk accounts swap bank = do
  c ← swap_context rt mk accounts bank
  (amount_in, swap_fee) ← quote_base_out c.amm.fees c.pool c.direction swap.amount_out
  check_base_out c swap amount_in
  freed ←
      free_funds mk c (settled_coin_vault c.direction c.accounts) swap.amount_out c.enable_orderbook
        bank
  settle_swap rt c amount_in swap.amount_out swap_fee freed
