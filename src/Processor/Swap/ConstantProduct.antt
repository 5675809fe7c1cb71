-- ===== src/Processor/Swap/ConstantProduct.antt =====
-- The two swap handlers on the whole bank, with the order book disabled.
use raydium_amm_fair.Common.{ℕ, ◌+◌, ◌≤◌, ◌<◌, ◌≡◌, List, arith, ltb}
use raydium_amm_fair.Error.{insufficient_funds}
use raydium_amm_fair.Outcome.{ok, after_bind, fail_if-eq-ok}
use raydium_amm_fair.Word.{as_width}
use raydium_amm_fair.State.Accounts.{Pubkey, SequencerOrders}
use raydium_amm_fair.Chain.{AccountInfo, AccountData, Bank, Runtime, IsTransfer, balance}
use raydium_amm_fair.Dex.Types.{Market}
use raydium_amm_fair.Instruction.Types.{SwapInstructionBaseIn, SwapInstructionBaseOut}
use raydium_amm_fair.Processor.Swap.Context.{SwapContext}
use raydium_amm_fair.Processor.Swap.Settle.{vault_in, vault_out, free_funds}
use raydium_amm_fair.Processor.Swap.BaseIn.{quote_base_in, check_base_in, process_swap_base_in}
use raydium_amm_fair.Processor.Swap.BaseOut.{
  quote_base_out, check_base_out, process_swap_base_out, settled_coin_vault,
}
use raydium_amm_fair.Processor.Swap.Facts.{swap_context-IsSwapContext}
use raydium_amm_fair.Processor.Swap.Settled.{settle_swap-IsSettled}
use raydium_amm_fair.Processor.Swap.Quotes.{
  quote_base_in-product, check_base_in-limits, quote_base_out-product, check_base_out-limits,
}
use raydium_amm_fair.Processor.Swap.Run.{
  pool_product, IsPlainSwap, IsRun, run_product, free_funds-off,
}

module _ (rt : Runtime) (mk : Market) (accounts : List AccountInfo) (bank : Bank) {c : SwapContext}
    (law : IsTransfer rt) (plain : IsPlainSwap rt mk accounts bank c) where
  process_swap_base_in-IsRun :
      (swap : SwapInstructionBaseIn) {bank' : Bank}
      → process_swap_base_in rt mk accounts swap bank ≡ ok bank'
      → (o : ℕ) × IsRun c bank bank' swap.amount_in o × (swap.minimum_amount_out ≤ o) × (0 < o)
  unfolding process_swap_base_in
  process_swap_base_in-IsRun swap h =
      let h1 = rw plain.context at h in
      let facts = swap_context-IsSwapContext rt mk accounts bank plain.context in
      let (e1, h2) = fail_if-eq-ok (ltb c.source.amount swap.amount_in) insufficient_funds _ h1 in
      after_bind (quote_base_in c.amm.fees c.pool c.direction swap.amount_in) h2 λ quote e2 h3.
        after_bind (check_base_in c swap quote.1) h3 λ u e3 h4.
          let key = c.accounts.market_coin_vault.key in
          after_bind (free_funds mk c key quote.1 c.enable_orderbook bank) h4 λ freed e5 h5.
            after_bind (as_width 64 quote.0) h5 λ fee e4 h6.
              let same =
                free_funds-off mk c key quote.1 c.enable_orderbook bank plain.no_orderbook e5 in
              let (le, kept, _) =
                quote_base_in-product c.amm.fees c.pool c.direction swap.amount_in e2 in
              let (least, pos, _, within) = check_base_in-limits c swap quote.1 e3 in
              (
                quote.1,
                record {
                  settled =
                      settle_swap-IsSettled rt c swap.amount_in quote.1 fee bank law facts
                        plain.vaults_apart (rw same at h6);
                  within = within;
                  kept = kept;
                },
                least,
                pos,
              )

  process_swap_base_out-IsRun :
      (swap : SwapInstructionBaseOut) {bank' : Bank}
      → process_swap_base_out rt mk accounts swap bank ≡ ok bank'
      → (i : ℕ) × IsRun c bank bank' i swap.amount_out × (i ≤ swap.max_amount_in) × (0 < i)
  unfolding process_swap_base_out
  process_swap_base_out-IsRun swap h =
      let h1 = rw plain.context at h in
      let facts = swap_context-IsSwapContext rt mk accounts bank plain.context in
      after_bind (quote_base_out c.amm.fees c.pool c.direction swap.amount_out) h1 λ quote e2 h3.
        after_bind (check_base_out c swap quote.0) h3 λ u e3 h4.
          let key = settled_coin_vault c.direction c.accounts in
          after_bind (free_funds mk c key swap.amount_out c.enable_orderbook bank) h4 λ freed e4 h5.
            let same =
              free_funds-off mk c key swap.amount_out c.enable_orderbook bank plain.no_orderbook
                e4 in
            let (most, pos, _, within, _) = check_base_out-limits c swap quote.0 e3 in
            let kept =
              quote_base_out-product c.amm.fees c.pool c.direction swap.amount_out e2 pos in
            (
              quote.0,
              record {
                settled =
                    settle_swap-IsSettled rt c quote.0 swap.amount_out quote.1 bank law facts
                      plain.vaults_apart (rw same at h5);
                within = within;
                kept = kept;
              },
              most,
              pos,
            )

  -- With the order book disabled and two different vaults, a `SwapBaseIn` that succeeds does not
  -- lower the product of what the vaults hold less the profit that is owed.
  pub process_swap_base_in-product :
      (swap : SwapInstructionBaseIn) {bank' : Bank}
      → process_swap_base_in rt mk accounts swap bank ≡ ok bank'
      → pool_product bank c.accounts.amm.key ≤ pool_product bank' c.accounts.amm.key
  process_swap_base_in-product swap {bank'} h =
      let (_, run, _, _) = process_swap_base_in-IsRun swap h in
      let facts = swap_context-IsSwapContext rt mk accounts bank plain.context in
      run_product c bank bank' facts plain.no_orderbook run

  -- With the order book disabled and two different vaults, a `SwapBaseIn` that succeeds adds the
  -- amount of the instruction to the one vault, and takes from the other a positive amount that is
  -- at least the minimum of the instruction.
  pub process_swap_base_in-amounts :
      (swap : SwapInstructionBaseIn) {bank' : Bank}
      → process_swap_base_in rt mk accounts swap bank ≡ ok bank'
      → let i = vault_in c.direction c.amm in
        let o = vault_out c.direction c.amm in
        (balance bank' i ≡ balance bank i + swap.amount_in)
        × (balance bank' o + swap.minimum_amount_out ≤ balance bank o)
        × (balance bank' o < balance bank o)
  process_swap_base_in-amounts swap h =
      let (_, run, least, pos) = process_swap_base_in-IsRun swap h in
      let out = run.settled.paid_out in
      (run.settled.paid_in, omega (arith, out, least), omega (arith, out, pos))

  -- With the order book disabled and two different vaults, a `SwapBaseOut` that succeeds does not
  -- lower the product of what the vaults hold less the profit that is owed.
  pub process_swap_base_out-product :
      (swap : SwapInstructionBaseOut) {bank' : Bank}
      → process_swap_base_out rt mk accounts swap bank ≡ ok bank'
      → pool_product bank c.accounts.amm.key ≤ pool_product bank' c.accounts.amm.key
  process_swap_base_out-product swap {bank'} h =
      let (_, run, _, _) = process_swap_base_out-IsRun swap h in
      let facts = swap_context-IsSwapContext rt mk accounts bank plain.context in
      run_product c bank bank' facts plain.no_orderbook run

  -- With the order book disabled and two different vaults, a `SwapBaseOut` that succeeds takes the
  -- amount of the instruction from the one vault, and adds to the other a positive amount that is
  -- at most the maximum of the instruction.
  pub process_swap_base_out-amounts :
      (swap : SwapInstructionBaseOut) {bank' : Bank}
      → process_swap_base_out rt mk accounts swap bank ≡ ok bank'
      → let i = vault_in c.direction c.amm in
        let o = vault_out c.direction c.amm in
        (balance bank' o + swap.amount_out ≡ balance bank o)
        × (balance bank' i ≤ balance bank i + swap.max_amount_in)
        × (balance bank i < balance bank' i)
  process_swap_base_out-amounts swap h =
      let (_, run, most, pos) = process_swap_base_out-IsRun swap h in
      let in' = run.settled.paid_in in
      (run.settled.paid_out, omega (arith, in', most), omega (arith, in', pos))

  -- Such a swap leaves every list of sequenced orders.
  pub process_swap_base_in-orders :
      (swap : SwapInstructionBaseIn) (k : Pubkey) {bank' : Bank} {orders : SequencerOrders}
      → process_swap_base_in rt mk accounts swap bank ≡ ok bank'
      → (bank k).content ≡ AccountData.sequencer_data orders
      → bank' k ≡ bank k
  process_swap_base_in-orders swap k h e =
      let (_, run, _, _) = process_swap_base_in-IsRun swap h in run.settled.orders_kept k e

  pub process_swap_base_out-orders :
      (swap : SwapInstructionBaseOut) (k : Pubkey) {bank' : Bank} {orders : SequencerOrders}
      → process_swap_base_out rt mk accounts swap bank ≡ ok bank'
      → (bank k).content ≡ AccountData.sequencer_data orders
      → bank' k ≡ bank k
  process_swap_base_out-orders swap k h e =
      let (_, run, _, _) = process_swap_base_out-IsRun swap h in run.settled.orders_kept k e
