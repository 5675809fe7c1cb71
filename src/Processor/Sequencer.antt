-- ===== src/Processor/Sequencer.antt =====
-- The sequenced instructions of program/src/processor.rs: `process_submit_sequencer_orders`,
-- `process_swap_base_in_seq`, `process_swap_base_out_seq`. The list of orders is the first account.
pub mod Order
pub mod Trace
use raydium_amm_fair.Common.{ℕ, List, [], ◌∷◌, ◌||◌, not, ◌!=◌}
use raydium_amm_fair.Error.{invalid_sign_account, wrong_accounts_number, invalid_input}
use raydium_amm_fair.Outcome.{Outcome, ok, err, ok_or, fail_if, ◌>>=◌, ◌>>◌}
use raydium_amm_fair.Error.{ProgramError}
use raydium_amm_fair.Word.{checked_add}
use raydium_amm_fair.State.Accounts.{Pubkey, SequencerOrders}
use raydium_amm_fair.Chain.{
  AccountInfo, AccountData, Bank, Runtime, write, next_account_info, load_sequencer,
}
use raydium_amm_fair.Dex.Types.{Market}
use raydium_amm_fair.Instruction.Types.{
  SubmitSequencerOrdersInstruction, SwapSequencedInstructionBaseIn, SwapSequencedInstructionBaseOut,
}
use raydium_amm_fair.Processor.Swap.BaseIn.{process_swap_base_in}
use raydium_amm_fair.Processor.Swap.BaseOut.{process_swap_base_out}

-- `continuum_sequencer::id()`, GThUX1Atko4tqhN2NaiTazWSeFWMuiUvfFnyJyUghFMJ in base 58.
abbrev pub continuum_sequencer : Pubkey
continuum_sequencer = 73067284147519526558740807223026779464008677136784376455861304904417431762661

unfoldable pub process_submit_sequencer_orders :
    Runtime → List AccountInfo → SubmitSequencerOrdersInstruction → Bank → Outcome Bank
unfolding next_account_info
process_submit_sequencer_orders rt accounts submit bank = do
  (orders_info, rest) ← next_account_info accounts
  (signer_info, _) ← next_account_info rest
  fail_if (not signer_info.is_signer || signer_info.key != continuum_sequencer) invalid_sign_account
  _ ← load_sequencer rt orders_info.key bank
  ok (
      write orders_info.key
        (AccountData.sequencer_data (record { orders_hash = submit.orders_hash; next_index = 0 }))
        bank)

-- The check of the index, and the list with the next one: the hash is not read.
unfoldable pub take_order : Runtime → Pubkey → ℕ → Bank → Outcome Bank
take_order rt key order_index bank = do
  orders ← load_sequencer rt key bank
  fail_if (order_index != orders.next_index) invalid_input
  next ← ok_or (checked_add 64 orders.next_index 1) invalid_input
  ok (write key (AccountData.sequencer_data (record orders { next_index = next })) bank)

unfoldable pub process_swap_base_in_seq :
    Runtime → Market → List AccountInfo → SwapSequencedInstructionBaseIn → Bank → Outcome Bank
process_swap_base_in_seq rt mk [] swap bank = err (ProgramError.amm wrong_accounts_number)
process_swap_base_in_seq rt mk (orders_account ∷ rest) swap bank = do
  taken ← take_order rt orders_account.key swap.order_index bank
  process_swap_base_in rt mk rest
      (record { amount_in = swap.amount_in; minimum_amount_out = swap.minimum_amount_out }) taken

unfoldable pub process_swap_base_out_seq :
    Runtime → Market → List AccountInfo → SwapSequencedInstructionBaseOut → Bank → Outcome Bank
process_swap_base_out_seq rt mk [] swap bank = err (ProgramError.amm wrong_accounts_number)
process_swap_base_out_seq rt mk (orders_account ∷ rest) swap bank = do
  taken ← take_order rt orders_account.key swap.order_index bank
  process_swap_base_out rt mk rest
      (record { max_amount_in = swap.max_amount_in; amount_out = swap.amount_out }) taken
