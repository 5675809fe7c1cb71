-- ===== src/Processor/Sequencer/Order.antt =====
-- What one sequenced call does to the list of orders.
use raydium_amm_fair.Common.{ℕ-same, ℕ, suc, ◌≡◌, ◌≢◌, List, ◌∷◌, arith, ◌!=◌}
use raydium_amm_fair.Error.{ProgramError, invalid_input}
use raydium_amm_fair.Outcome.{ok, err, ok_or, after_bind, fail_if-eq-ok, ok-inj}
use raydium_amm_fair.Word.{checked_add}
use raydium_amm_fair.State.Accounts.{Pubkey, SequencerOrders}
use raydium_amm_fair.Chain.{
  AccountInfo, AccountData, Bank, Runtime, IsTransfer, write, load_sequencer,
}
use raydium_amm_fair.Dex.Types.{Market}
use raydium_amm_fair.Instruction.Types.{
  SwapInstructionBaseIn, SwapInstructionBaseOut, SwapSequencedInstructionBaseIn,
  SwapSequencedInstructionBaseOut,
}
use raydium_amm_fair.Processor.Swap.Context.{SwapContext}
use raydium_amm_fair.Processor.Swap.Run.{IsPlainSwap}
use raydium_amm_fair.Processor.Swap.ConstantProduct.{
  process_swap_base_in-orders, process_swap_base_out-orders,
}
use raydium_amm_fair.Processor.Sequencer.{
  take_order, process_swap_base_in_seq, process_swap_base_out_seq,
}

-- The list of orders that stands at a key.
pub record IsOrders (rt : Runtime) (bank : Bank) (key : Pubkey) (orders : SequencerOrders)
    : Type 0 where
  pub owner : (bank key).owner ≡ rt.program_id
  pub content : (bank key).content ≡ AccountData.sequencer_data orders

pub load-IsOrders :
    (rt : Runtime) (bank : Bank) (key : Pubkey) {orders : SequencerOrders}
    → load_sequencer rt key bank ≡ ok orders
    → IsOrders rt bank key orders
unfolding load_sequencer
load-IsOrders rt bank key h = record { owner = ground arith; content = ground arith }

pub IsOrders-load :
    (rt : Runtime) (bank : Bank) (key : Pubkey) {orders : SequencerOrders}
    → IsOrders rt bank key orders
    → load_sequencer rt key bank ≡ ok orders
unfolding load_sequencer
IsOrders-load rt bank key h = rw (h.owner, h.content) (ground arith)

pub write-IsOrders :
    (rt : Runtime) (bank : Bank) (key : Pubkey) {orders : SequencerOrders} (next : SequencerOrders)
    → IsOrders rt bank key orders
    → IsOrders rt (write key (AccountData.sequencer_data next) bank) key next
write-IsOrders rt bank key next h = record {
  owner = rw (ℕ-same key) h.owner;
  content = rw (ℕ-same key);
}

-- A call takes its order only at the expected index, and leaves the next one.
take_order-next :
    (rt : Runtime) (key : Pubkey) (i : ℕ) (bank : Bank) {taken : Bank}
    → take_order rt key i bank ≡ ok taken
    → (orders : SequencerOrders) × IsOrders rt bank key orders
      × (orders.next_index ≡ i)
      × IsOrders rt taken key (record orders { next_index = suc i })
unfolding take_order
take_order-next rt key i bank h = after_bind (load_sequencer rt key bank) h λ orders e1 h1.
    let (e2, h2) = fail_if-eq-ok (i != orders.next_index) invalid_input _ h1 in
    after_bind (ok_or (checked_add 64 orders.next_index 1) invalid_input) h2 λ next e3 h3.
      let standing = load-IsOrders rt bank key e1 in
      let same : orders.next_index ≡ i = ground arith in
      let next' : next ≡ suc i = ground arith in
      let after = write-IsOrders rt bank key (record orders { next_index = next }) standing in
      (orders, standing, same, rw (← ok-inj h3, ← next') after)

-- Any other index is refused.
pub take_order-refused :
    (rt : Runtime) (key : Pubkey) (i : ℕ) (bank : Bank) {orders : SequencerOrders}
    → IsOrders rt bank key orders
    → orders.next_index ≢ i
    → take_order rt key i bank ≡ err (ProgramError.amm invalid_input)
unfolding take_order
take_order-refused rt key i bank h ne = rw (IsOrders-load rt bank key h) (ground arith)

IsOrders-kept :
    (rt : Runtime) (key : Pubkey) (b b' : Bank) {orders : SequencerOrders}
    → IsOrders rt b key orders
    → b' key ≡ b key
    → IsOrders rt b' key orders
IsOrders-kept rt key b b' h e = record { owner = rw e h.owner; content = rw e h.content }

module _ (rt : Runtime) (mk : Market) (law : IsTransfer rt) (orders_account : AccountInfo)
    (rest : List AccountInfo) (bank taken : Bank) {c : SwapContext}
    (plain : IsPlainSwap rt mk rest taken c) where
  -- A sequenced `SwapBaseIn` that succeeds, on a pool without order book, has the index that the
  -- list of orders expects, and leaves the list with the next index.
  pub process_swap_base_in_seq-next :
      (swap : SwapSequencedInstructionBaseIn) {bank' : Bank}
      → take_order rt orders_account.key swap.order_index bank ≡ ok taken
      → process_swap_base_in_seq rt mk (orders_account ∷ rest) swap bank ≡ ok bank'
      → (orders : SequencerOrders) × IsOrders rt bank orders_account.key orders
        × (orders.next_index ≡ swap.order_index)
        × IsOrders rt bank' orders_account.key (record orders { next_index = suc swap.order_index })
  unfolding process_swap_base_in_seq
  process_swap_base_in_seq-next swap {bank'} t h =
      let (orders, before, same, after) =
        take_order-next rt orders_account.key swap.order_index bank t in
      let h' = rw t at h in
      let plain_swap : SwapInstructionBaseIn = record {
        amount_in = swap.amount_in;
        minimum_amount_out = swap.minimum_amount_out;
      } in
      let kept =
        process_swap_base_in-orders rt mk rest taken law plain plain_swap orders_account.key h'
          after.content in
      (orders, before, same, IsOrders-kept rt orders_account.key taken bank' after kept)

  -- A sequenced `SwapBaseOut` that succeeds, on a pool without order book, has the index that the
  -- list of orders expects, and leaves the list with the next index.
  pub process_swap_base_out_seq-next :
      (swap : SwapSequencedInstructionBaseOut) {bank' : Bank}
      → take_order rt orders_account.key swap.order_index bank ≡ ok taken
      → process_swap_base_out_seq rt mk (orders_account ∷ rest) swap bank ≡ ok bank'
      → (orders : SequencerOrders) × IsOrders rt bank orders_account.key orders
        × (orders.next_index ≡ swap.order_index)
        × IsOrders rt bank' orders_account.key (record orders { next_index = suc swap.order_index })
  unfolding process_swap_base_out_seq
  process_swap_base_out_seq-next swap {bank'} t h =
      let (orders, before, same, after) =
        take_order-next rt orders_account.key swap.order_index bank t in
      let h' = rw t at h in
      let plain_swap : SwapInstructionBaseOut = record {
        max_amount_in = swap.max_amount_in;
        amount_out = swap.amount_out;
      } in
      let kept =
        process_swap_base_out-orders rt mk rest taken law plain plain_swap orders_account.key h'
          after.content in
      (orders, before, same, IsOrders-kept rt orders_account.key taken bank' after kept)
