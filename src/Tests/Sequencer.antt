-- ===== src/Tests/Sequencer.antt =====
-- Sequenced swaps on the small chain: index 0, then index 1.
use raydium_amm_fair.Common.{◌≡◌, ◌≢◌, refl, true, false, [], ◌∷◌, arith, inl}
use raydium_amm_fair.Error.{ProgramError, invalid_input}
use raydium_amm_fair.Outcome.{Outcome, ok, err}
use raydium_amm_fair.State.Status.{status_from_u64}
use raydium_amm_fair.State.Accounts.{Pubkey, SequencerOrders}
use raydium_amm_fair.Chain.{
  AccountInfo, Bank, next_account_info, load_amm, load_sequencer, authority_id,
  unpack_token_account,
}
use raydium_amm_fair.Instruction.Types.{
  SwapSequencedInstructionBaseIn, SwapSequencedInstructionBaseOut, SubmitSequencerOrdersInstruction,
}
use raydium_amm_fair.Math.CeilDiv.{checked_ceil_div}
use raydium_amm_fair.Math.Swap.{swap_token_amount_base_in, swap_token_amount_base_out}
use raydium_amm_fair.Math.Totals.{calc_total_without_take_pnl_no_orderbook}
use raydium_amm_fair.Processor.Swap.Context.{
  SwapContext, swap_accounts, check_swap_accounts, open_for_swap, swap_pool, direction_of,
  swap_context,
}
use raydium_amm_fair.Processor.Swap.Settle.{free_funds, count_swap, settle_swap}
use raydium_amm_fair.Processor.Swap.BaseIn.{quote_base_in, check_base_in, process_swap_base_in}
use raydium_amm_fair.Processor.Swap.BaseOut.{quote_base_out, check_base_out, process_swap_base_out}
use raydium_amm_fair.Processor.Swap.Run.{IsPlainSwap}
use raydium_amm_fair.Processor.Sequencer.{
  continuum_sequencer, take_order, process_submit_sequencer_orders, process_swap_base_in_seq,
  process_swap_base_out_seq,
}
use raydium_amm_fair.Processor.Sequencer.Order.{IsOrders}
use raydium_amm_fair.Processor.Sequencer.Trace.{
  Trace, Trace-consecutive, count_from, replay-refused, submit-resets,
}
use raydium_amm_fair.Tests.Laws.{runtime-IsTransfer}
use raydium_amm_fair.Tests.World.{
  runtime, closed_market, bank, account, swap_list, bank_after, token_transfer,
}
use raydium_amm_fair.Tests.Swap.{context}

abbrev first : SwapSequencedInstructionBaseIn
first = record { amount_in = 1000; minimum_amount_out = 900; order_index = 0 }

abbrev second : SwapSequencedInstructionBaseOut
second = record { max_amount_in = 1100; amount_out = 900; order_index = 1 }

abbrev orders : SequencerOrders
orders = record { orders_hash = 77; next_index = 0 }

abbrev context_or_first : Outcome SwapContext → SwapContext
context_or_first (ok c) = c
context_or_first _ = context

taken : Bank
taken = bank_after (take_order runtime 30 0 bank)

middle : Bank
middle =
    bank_after (process_swap_base_in_seq runtime closed_market (account 30 ∷ swap_list) first bank)

taken_again : Bank
taken_again = bank_after (take_order runtime 30 1 middle)

last : Bank
last =
    bank_after
      (process_swap_base_out_seq runtime closed_market (account 30 ∷ swap_list) second middle)

second_context : SwapContext
second_context = context_or_first (swap_context runtime closed_market swap_list taken_again)

orders_here : IsOrders runtime bank 30 orders
orders_here = record { owner = refl; content = refl }

plain_first : IsPlainSwap runtime closed_market swap_list taken context
unfolding taken take_order load_sequencer swap_context swap_accounts next_account_info load_amm
    status_from_u64 check_swap_accounts authority_id unpack_token_account open_for_swap swap_pool
    calc_total_without_take_pnl_no_orderbook direction_of
plain_first = record { context = refl; no_orderbook = refl; vaults_apart = λ e. omega arith }

plain_second : IsPlainSwap runtime closed_market swap_list taken_again second_context
unfolding middle taken_again second_context process_swap_base_in quote_base_in check_base_in
    checked_ceil_div swap_token_amount_base_in free_funds settle_swap count_swap token_transfer
    take_order load_sequencer process_swap_base_out quote_base_out check_base_out
    swap_token_amount_base_out process_swap_base_in_seq process_swap_base_out_seq swap_context
    swap_accounts next_account_info load_amm status_from_u64 check_swap_accounts authority_id
    unpack_token_account open_for_swap swap_pool calc_total_without_take_pnl_no_orderbook
    direction_of
plain_second = record { context = refl; no_orderbook = refl; vaults_apart = λ e. omega arith }

trace : Trace runtime closed_market 30 bank (0 ∷ 1 ∷ []) last
unfolding taken taken_again middle last process_swap_base_in quote_base_in check_base_in
    checked_ceil_div swap_token_amount_base_in free_funds settle_swap count_swap token_transfer
    take_order load_sequencer process_swap_base_out quote_base_out check_base_out
    swap_token_amount_base_out process_swap_base_in_seq process_swap_base_out_seq swap_context
    swap_accounts next_account_info load_amm status_from_u64 check_swap_accounts authority_id
    unpack_token_account open_for_swap swap_pool calc_total_without_take_pnl_no_orderbook
    direction_of
trace =
    Trace.base_in (account 30) swap_list first bank taken middle last context (1 ∷ []) refl refl
      plain_first refl
      (Trace.base_out (account 30) swap_list second middle taken_again last last second_context []
        refl refl plain_second refl (Trace.done last))

Trace-consecutive_example :
    (0 ∷ 1 ∷ [] ≡ count_from 0 (0 ∷ 1 ∷ []))
    × IsOrders runtime last 30 (record { orders_hash = 77; next_index = 2 })
Trace-consecutive_example =
    Trace-consecutive runtime closed_market 30 bank (0 ∷ 1 ∷ []) last orders runtime-IsTransfer
      orders_here trace

first_ran :
    process_swap_base_in_seq runtime closed_market (account 30 ∷ swap_list) first bank ≡ ok middle
unfolding middle process_swap_base_in quote_base_in check_base_in checked_ceil_div
    swap_token_amount_base_in free_funds settle_swap count_swap token_transfer take_order
    load_sequencer process_swap_base_in_seq swap_context swap_accounts next_account_info load_amm
    status_from_u64 check_swap_accounts authority_id unpack_token_account open_for_swap swap_pool
    calc_total_without_take_pnl_no_orderbook direction_of
first_ran = refl

first_taken : take_order runtime 30 0 bank ≡ ok taken
unfolding taken take_order load_sequencer
first_taken = refl

-- The other kind of swap, with the first one's index.
abbrev replayed : SwapSequencedInstructionBaseOut
replayed = record { max_amount_in = 1100; amount_out = 900; order_index = 0 }

replay-refused_example :
    (process_swap_base_in_seq runtime closed_market (account 30 ∷ swap_list) first middle
      ≡ err (ProgramError.amm invalid_input))
    × (process_swap_base_out_seq runtime closed_market (account 30 ∷ swap_list) replayed middle
        ≡ err (ProgramError.amm invalid_input))
replay-refused_example =
    replay-refused runtime closed_market (account 30) swap_list bank taken middle context first
      second 0 (account 30) swap_list first replayed runtime-IsTransfer first_taken plain_first
      (inl (refl, first_ran)) refl refl refl

abbrev sequencer : AccountInfo
sequencer = record { key = continuum_sequencer; is_signer = true; is_writable = false }

abbrev submission : SubmitSequencerOrdersInstruction
submission = record { orders_hash = 99 }

submitted : Bank
submitted =
    bank_after
      (process_submit_sequencer_orders runtime (account 30 ∷ sequencer ∷ []) submission bank)

submit_ran :
    process_submit_sequencer_orders runtime (account 30 ∷ sequencer ∷ []) submission bank
    ≡ ok submitted
unfolding submitted process_submit_sequencer_orders load_sequencer next_account_info
submit_ran = refl

submit-resets_example :
    (sequencer.is_signer ≡ true)
    × (sequencer.key ≡ continuum_sequencer)
    × IsOrders runtime submitted 30 (record { orders_hash = 99; next_index = 0 })
    × ((k : Pubkey) → k ≢ 30 → submitted k ≡ bank k)
submit-resets_example = submit-resets runtime (account 30) sequencer [] submission bank submit_ran
