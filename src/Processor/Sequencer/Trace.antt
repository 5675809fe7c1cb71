-- ===== src/Processor/Sequencer/Trace.antt =====
-- The sequenced swaps in the order in which they go through.
use raydium_amm_fair.Common.{
  ℕ, suc, ◌+◌, ◌≡◌, ◌≢◌, refl, sym, ap, ◌∙◌, List, [], ◌∷◌, arith, length, not, ◌||◌, ◌!=◌, true,
  ◌⊎◌, inl, inr,
}
use raydium_amm_fair.Error.{ProgramError, invalid_input, invalid_sign_account}
use raydium_amm_fair.Outcome.{ok, err, after_bind, fail_if-eq-ok, ok-inj}
use raydium_amm_fair.State.Accounts.{Pubkey, SequencerOrders}
use raydium_amm_fair.Chain.{AccountInfo, AccountData, Bank, Runtime, IsTransfer, load_sequencer}
use raydium_amm_fair.Dex.Types.{Market}
use raydium_amm_fair.Instruction.Types.{
  SwapSequencedInstructionBaseIn, SwapSequencedInstructionBaseOut, SubmitSequencerOrdersInstruction,
}
use raydium_amm_fair.Processor.Swap.Context.{SwapContext}
use raydium_amm_fair.Processor.Swap.Run.{IsPlainSwap}
use raydium_amm_fair.Processor.Swap.Settled.{write-other}
use raydium_amm_fair.Processor.Sequencer.{
  continuum_sequencer, take_order, process_submit_sequencer_orders, process_swap_base_in_seq,
  process_swap_base_out_seq,
}
use raydium_amm_fair.Processor.Sequencer.Order.{
  IsOrders, load-IsOrders, write-IsOrders, take_order-refused, process_swap_base_in_seq-next,
  process_swap_base_out_seq-next,
}

-- Sequenced swaps on one list of orders, each of them successful and on a pool without order book,
-- from one bank to another, with the indexes of the instructions.
pub data Trace (rt : Runtime) (mk : Market) (key : Pubkey) : Bank → List ℕ → Bank → Type 0 where
  done : (bank : Bank) → Trace rt mk key bank [] bank
  base_in :
      (orders_account : AccountInfo) (rest : List AccountInfo)
      (swap : SwapSequencedInstructionBaseIn) (bank taken bank' bank'' : Bank) (c : SwapContext)
      (indexes : List ℕ)
      → orders_account.key ≡ key
      → take_order rt orders_account.key swap.order_index bank ≡ ok taken
      → IsPlainSwap rt mk rest taken c
      → process_swap_base_in_seq rt mk (orders_account ∷ rest) swap bank ≡ ok bank'
      → Trace rt mk key bank' indexes bank''
      → Trace rt mk key bank (swap.order_index ∷ indexes) bank''
  base_out :
      (orders_account : AccountInfo) (rest : List AccountInfo)
      (swap : SwapSequencedInstructionBaseOut) (bank taken bank' bank'' : Bank) (c : SwapContext)
      (indexes : List ℕ)
      → orders_account.key ≡ key
      → take_order rt orders_account.key swap.order_index bank ≡ ok taken
      → IsPlainSwap rt mk rest taken c
      → process_swap_base_out_seq rt mk (orders_account ∷ rest) swap bank ≡ ok bank'
      → Trace rt mk key bank' indexes bank''
      → Trace rt mk key bank (swap.order_index ∷ indexes) bank''

-- `n`, `n + 1`, … : as many numbers as a list is long.
abbrev pub count_from : ℕ → List ℕ → List ℕ
count_from n [] = []
count_from n (_ ∷ l) = n ∷ count_from (suc n) l

-- The expected index after an instruction of index `i`.
abbrev after_index : SequencerOrders → ℕ → SequencerOrders
after_index orders i = record orders { next_index = i }

IsOrders-unique :
    (rt : Runtime) (bank : Bank) (key : Pubkey) {o o' : SequencerOrders}
    → IsOrders rt bank key o
    → IsOrders rt bank key o'
    → o ≡ o'
IsOrders-unique rt bank key h h' = let e = h.content in let e' = h'.content in cc

one_step :
    (rt : Runtime) (bank mid : Bank) (key key' : Pubkey) (i : ℕ) (orders : SequencerOrders)
    → key' ≡ key
    → IsOrders rt bank key orders
    → (o : SequencerOrders) × IsOrders rt bank key' o
      × (o.next_index ≡ i)
      × IsOrders rt mid key' (record o { next_index = suc i })
    → (orders.next_index ≡ i) × IsOrders rt mid key (record orders { next_index = suc i })
one_step rt bank mid key key' i orders e h (o, before, same, after) =
    let u = IsOrders-unique rt bank key (rw e at before) h in
    (ap (λ x. x.next_index) (sym u) ∙ same, rw u at rw e at after)

one_more :
    (rt : Runtime) (bank : Bank) (key : Pubkey) (i : ℕ) (more : List ℕ) (orders : SequencerOrders)
    → orders.next_index ≡ i
    → (more ≡ count_from (suc i) more)
      × IsOrders rt bank key (record orders { next_index = suc i + length more })
    → (i ∷ more ≡ count_from orders.next_index (i ∷ more))
      × IsOrders rt bank key (record orders { next_index = orders.next_index + length (i ∷ more) })
one_more rt bank key i more orders e (l, h) =
    let n : suc i + length more ≡ orders.next_index + suc (length more) = omega arith in
    (rw e (ap (λ x. i ∷ x) l), rw n at h)

-- Sequenced swaps of both kinds that succeed one after the other, on pools without order book and
-- on one list of orders that expects the index `n`, have the indexes `n`, `n + 1`, … in this order,
-- without a gap and without a repetition; afterwards the list expects the index behind the last
-- one, and its hash is as it was.
pub Trace-consecutive :
    (rt : Runtime) (mk : Market) (key : Pubkey) (bank : Bank) (indexes : List ℕ) (bank' : Bank)
    (orders : SequencerOrders)
    → IsTransfer rt
    → IsOrders rt bank key orders
    → Trace rt mk key bank indexes bank'
    → (indexes ≡ count_from orders.next_index indexes)
      × IsOrders rt bank' key (record orders { next_index = orders.next_index + length indexes })
Trace-consecutive rt mk key bank indexes bank' orders law h (done _) =
    let n : orders.next_index ≡ orders.next_index + 0 = omega arith in (refl, rw n at h)
Trace-consecutive rt mk key bank indexes bank' orders law h
      (base_in account rest swap _ taken mid _ c more at_key t plain e trace) =
    let i = swap.order_index in
    let called = process_swap_base_in_seq-next rt mk law account rest bank taken plain swap t e in
    let (same, after) = one_step rt bank mid key account.key i orders at_key h called in
    let rest' =
      Trace-consecutive rt mk key mid more bank' (after_index orders (suc i)) law after trace in
    one_more rt bank' key i more orders same rest'
Trace-consecutive rt mk key bank indexes bank' orders law h
      (base_out account rest swap _ taken mid _ c more at_key t plain e trace) =
    let i = swap.order_index in
    let called = process_swap_base_out_seq-next rt mk law account rest bank taken plain swap t e in
    let (same, after) = one_step rt bank mid key account.key i orders at_key h called in
    let rest' =
      Trace-consecutive rt mk key mid more bank' (after_index orders (suc i)) law after trace in
    one_more rt bank' key i more orders same rest'

-- Any index but the expected one is refused, whatever the other accounts and the amounts are.
seq-refused :
    (rt : Runtime) (mk : Market) (orders_account : AccountInfo) (rest : List AccountInfo)
    (bank : Bank) (orders : SequencerOrders) (swap_in : SwapSequencedInstructionBaseIn)
    (swap_out : SwapSequencedInstructionBaseOut)
    → IsOrders rt bank orders_account.key orders
    → orders.next_index ≢ swap_in.order_index
    → orders.next_index ≢ swap_out.order_index
    → (process_swap_base_in_seq rt mk (orders_account ∷ rest) swap_in bank
        ≡ err (ProgramError.amm invalid_input))
      × (process_swap_base_out_seq rt mk (orders_account ∷ rest) swap_out bank
          ≡ err (ProgramError.amm invalid_input))
unfolding process_swap_base_in_seq process_swap_base_out_seq
seq-refused rt mk orders_account rest bank orders swap_in swap_out h ne ne' = (
  rw (take_order-refused rt orders_account.key swap_in.order_index bank h ne),
  rw (take_order-refused rt orders_account.key swap_out.order_index bank h ne'),
)

-- No sequenced swap is replayed: after one of either kind has succeeded, on a pool without order
-- book, every sequenced swap of either kind with the same index on the same list of orders is
-- refused with `InvalidInput` on the bank that it left, whatever its other accounts and its amounts
-- are.
pub replay-refused :
    (rt : Runtime) (mk : Market) (orders_account : AccountInfo) (rest : List AccountInfo)
    (bank taken bank' : Bank) (c : SwapContext) (swap_in : SwapSequencedInstructionBaseIn)
    (swap_out : SwapSequencedInstructionBaseOut) (i : ℕ) (orders_account' : AccountInfo)
    (rest' : List AccountInfo) (again_in : SwapSequencedInstructionBaseIn)
    (again_out : SwapSequencedInstructionBaseOut)
    → IsTransfer rt
    → take_order rt orders_account.key i bank ≡ ok taken
    → IsPlainSwap rt mk rest taken c
    → ((swap_in.order_index ≡ i)
        × (process_swap_base_in_seq rt mk (orders_account ∷ rest) swap_in bank ≡ ok bank'))
      ⊎ ((swap_out.order_index ≡ i)
          × (process_swap_base_out_seq rt mk (orders_account ∷ rest) swap_out bank ≡ ok bank'))
    → orders_account'.key ≡ orders_account.key
    → again_in.order_index ≡ i
    → again_out.order_index ≡ i
    → (process_swap_base_in_seq rt mk (orders_account' ∷ rest') again_in bank'
        ≡ err (ProgramError.amm invalid_input))
      × (process_swap_base_out_seq rt mk (orders_account' ∷ rest') again_out bank'
          ≡ err (ProgramError.amm invalid_input))
replay-refused rt mk account rest bank taken bank' c swap_in swap_out i account' rest' again_in
      again_out law t plain ran at_key e1 e2 =
    let next : (o : SequencerOrders) × IsOrders rt bank' account.key
          (record o { next_index = suc i }) =
      elim ran [
        | inl (e, h) ↦
            let (orders, _, _, after) =
              process_swap_base_in_seq-next rt mk law account rest bank taken plain swap_in (rw e t)
                h in
            (orders, rw e at after)
        | inr (e, h) ↦
            let (orders, _, _, after) =
              process_swap_base_out_seq-next rt mk law account rest bank taken plain swap_out
                (rw e t) h in
            (orders, rw e at after)
      ] in
    seq-refused rt mk account' rest' bank' (after_index next.0 (suc i)) again_in again_out
      (rw at_key next.1) (λ x. omega arith) (λ x. omega arith)

-- A list of orders is submitted by the sequencer's signature only; the hash becomes the submitted
-- one, the expected index 0, and every other account is as it was.
pub submit-resets :
    (rt : Runtime) (orders_info signer_info : AccountInfo) (rest : List AccountInfo)
    (submit : SubmitSequencerOrdersInstruction) (bank : Bank) {bank' : Bank}
    → process_submit_sequencer_orders rt (orders_info ∷ signer_info ∷ rest) submit bank ≡ ok bank'
    → (signer_info.is_signer ≡ true)
      × (signer_info.key ≡ continuum_sequencer)
      × IsOrders rt bank' orders_info.key
          (record { orders_hash = submit.orders_hash; next_index = 0 })
      × ((k : Pubkey) → k ≢ orders_info.key → bank' k ≡ bank k)
unfolding process_submit_sequencer_orders
submit-resets rt orders_info signer_info rest submit bank h =
    let (e1, h1) =
      fail_if-eq-ok (not signer_info.is_signer || signer_info.key != continuum_sequencer)
        invalid_sign_account _ h in
    after_bind (load_sequencer rt orders_info.key bank) h1 λ orders e2 h2.
      let written = ok-inj h2 in
      let fresh : SequencerOrders = record { orders_hash = submit.orders_hash; next_index = 0 } in
      let standing =
        write-IsOrders rt bank orders_info.key fresh (load-IsOrders rt bank orders_info.key e2) in
      (
        ground arith,
        ground arith,
        rw written at standing,
        λ k ne.
            rw (← written)
              (write-other k orders_info.key (AccountData.sequencer_data fresh) bank ne),
      )
