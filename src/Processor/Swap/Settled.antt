-- ===== src/Processor/Swap/Settled.antt =====
-- What `settle_swap` does to the bank: the two transfers and the write of the pool's record.
use raydium_amm_fair.Common.{ℕ, ◌+◌, ◌≡◌, ◌≢◌, sym, ap, ◌∙◌, arith, Bool-cases, inl, inr, ◌==◌}
use raydium_amm_fair.Outcome.{ok, after_bind, ok-inj}
use raydium_amm_fair.State.Accounts.{AmmInfo, Pubkey, SequencerOrders}
use raydium_amm_fair.Chain.{AccountData, TokenAccount, Bank, Runtime, IsTransfer, balance, write}
use raydium_amm_fair.Math.Swap.{SwapDirection, coin2pc, pc2coin}
use raydium_amm_fair.Processor.Swap.Context.{SwapContext}
use raydium_amm_fair.Processor.Swap.Settle.{vault_in, vault_out, count_swap, settle_swap}
use raydium_amm_fair.Processor.Swap.Facts.{IsSwapContext}

-- Of the pool's record, the statistics leave the vaults and the profit that is owed.
pub count_swap-frame :
    (d : SwapDirection) (i o f : ℕ) (amm : AmmInfo) {amm' : AmmInfo}
    → count_swap d i o f amm ≡ ok amm'
    → (amm'.coin_vault ≡ amm.coin_vault)
      × (amm'.pc_vault ≡ amm.pc_vault)
      × (amm'.state_data.need_take_pnl_coin ≡ amm.state_data.need_take_pnl_coin)
      × (amm'.state_data.need_take_pnl_pc ≡ amm.state_data.need_take_pnl_pc)
unfolding count_swap
count_swap-frame coin2pc i o f amm h = (ground arith, ground arith, ground arith, ground arith)
count_swap-frame pc2coin i o f amm h = (ground arith, ground arith, ground arith, ground arith)

-- Two accounts with different contents are two accounts.
pub keys_apart :
    (bank : Bank) (k l : Pubkey) {d d' : AccountData}
    → (bank k).content ≡ d
    → (bank l).content ≡ d'
    → d ≢ d'
    → k ≢ l
keys_apart bank k l h h' ne e = ne (sym h ∙ ap (λ x. (bank x).content) e ∙ h')

token_keys_apart :
    (bank : Bank) (k l : Pubkey) {t : TokenAccount} {a : AmmInfo}
    → (bank k).content ≡ AccountData.token_data t
    → (bank l).content ≡ AccountData.amm_data a
    → k ≢ l
token_keys_apart bank k l h h' = keys_apart bank k l h h' (λ e. cc)

orders_keys_apart :
    (bank : Bank) (k l : Pubkey) {s : SequencerOrders} {t : TokenAccount}
    → (bank k).content ≡ AccountData.sequencer_data s
    → (bank l).content ≡ AccountData.token_data t
    → k ≢ l
orders_keys_apart bank k l h h' = keys_apart bank k l h h' (λ e. cc)

pub write-other : (k l : Pubkey) (d : AccountData) (bank : Bank) → k ≢ l → write l d bank k ≡ bank k
write-other k l d bank ne = elim (Bool-cases (k == l)) [ inl e ↦ ground arith | inr e ↦ rw e ]

pub balance-write :
    (k l : Pubkey) (d : AccountData) (bank : Bank)
    → k ≢ l
    → balance (write l d bank) k ≡ balance bank k
balance-write k l d bank ne = rw (write-other k l d bank ne)

-- Two transfers in a row, the first from `s` to `v`, the second from `w` to `d`.
pub record IsSettled (c : SwapContext) (paid drawn : ℕ) (bank bank' : Bank) : Type 0 where
  pub paid_in :
      balance bank' (vault_in c.direction c.amm) ≡ balance bank (vault_in c.direction c.amm) + paid
  pub paid_out :
      balance bank' (vault_out c.direction c.amm) + drawn
      ≡ balance bank (vault_out c.direction c.amm)
  pub recorded :
      (amm : AmmInfo) × ((bank' c.accounts.amm.key).content ≡ AccountData.amm_data amm)
      × (amm.coin_vault ≡ c.amm.coin_vault)
      × (amm.pc_vault ≡ c.amm.pc_vault)
      × (amm.state_data.need_take_pnl_coin ≡ c.amm.state_data.need_take_pnl_coin)
      × (amm.state_data.need_take_pnl_pc ≡ c.amm.state_data.need_take_pnl_pc)
  pub orders_kept :
      (k : Pubkey) {orders : SequencerOrders}
      → (bank k).content ≡ AccountData.sequencer_data orders
      → bank' k ≡ bank k

-- The four keys that a swap moves tokens between, and the pool's own.
record SwapKeys (d : SwapDirection) (c : SwapContext) : Type 0 where
  apart : vault_in d c.amm ≢ vault_out d c.amm
  source_in : c.accounts.user_source.key ≢ vault_in d c.amm
  source_out : c.accounts.user_source.key ≢ vault_out d c.amm
  destination_in : c.accounts.user_destination.key ≢ vault_in d c.amm
  destination_out : c.accounts.user_destination.key ≢ vault_out d c.amm
  amm_in : vault_in d c.amm ≢ c.accounts.amm.key
  amm_out : vault_out d c.amm ≢ c.accounts.amm.key

swap_keys :
    (d : SwapDirection) (c : SwapContext) (bank : Bank)
    → IsSwapContext bank c
    → c.amm.coin_vault ≢ c.amm.pc_vault
    → SwapKeys d c
swap_keys coin2pc c bank h ne =
    let e = h.amm_content.1 in
    record {
      apart = ne;
      source_in = h.keys.source_coin;
      source_out = h.keys.source_pc;
      destination_in = h.keys.destination_coin;
      destination_out = h.keys.destination_pc;
      amm_in = token_keys_apart bank c.amm.coin_vault c.accounts.amm.key h.coin_content e;
      amm_out = token_keys_apart bank c.amm.pc_vault c.accounts.amm.key h.pc_content e;
    }
swap_keys pc2coin c bank h ne =
    let e = h.amm_content.1 in
    record {
      apart = λ e'. ne (sym e');
      source_in = h.keys.source_pc;
      source_out = h.keys.source_coin;
      destination_in = h.keys.destination_pc;
      destination_out = h.keys.destination_coin;
      amm_in = token_keys_apart bank c.amm.pc_vault c.accounts.amm.key h.pc_content e;
      amm_out = token_keys_apart bank c.amm.coin_vault c.accounts.amm.key h.coin_content e;
    }

pub write-same : (l : Pubkey) (d : AccountData) (bank : Bank) → (write l d bank l).content ≡ d
write-same l d bank = elim (Bool-cases (l == l)) [ inl e ↦ rw e | inr e ↦ ground arith ]

module _ (c : SwapContext) (bank : Bank) (h : IsSwapContext bank c) (k : Pubkey)
    {orders : SequencerOrders} (e : (bank k).content ≡ AccountData.sequencer_data orders) where
  orders_apart_in : (d : SwapDirection) → k ≢ vault_in d c.amm
  orders_apart_in coin2pc = orders_keys_apart bank k c.amm.coin_vault e h.coin_content
  orders_apart_in pc2coin = orders_keys_apart bank k c.amm.pc_vault e h.pc_content

  orders_apart_out : (d : SwapDirection) → k ≢ vault_out d c.amm
  orders_apart_out coin2pc = orders_keys_apart bank k c.amm.pc_vault e h.pc_content
  orders_apart_out pc2coin = orders_keys_apart bank k c.amm.coin_vault e h.coin_content

pub settle_swap-IsSettled :
    (rt : Runtime) (c : SwapContext) (i o f : ℕ) (bank : Bank) {bank' : Bank}
    → IsTransfer rt
    → IsSwapContext bank c
    → c.amm.coin_vault ≢ c.amm.pc_vault
    → settle_swap rt c i o f bank ≡ ok bank'
    → IsSettled c i o bank bank'
unfolding settle_swap
settle_swap-IsSettled rt c i o f bank {bank'} law hc ne h =
    let a = c.accounts in
    let s = a.user_source.key in
    let vi = vault_in c.direction c.amm in
    let vo = vault_out c.direction c.amm in
    let t = a.user_destination.key in
    let ks = swap_keys c.direction c bank hc ne in
    after_bind (rt.transfer s vi a.user_source_owner.key i bank) h λ paid e1 h1.
      after_bind (rt.transfer vo t a.amm_authority.key o paid) h1 λ drawn e2 h2.
        after_bind (count_swap c.direction i o f c.amm) h2 λ amm e3 h3.
          after_bind rt.clock h3 λ clock e4 h4.
            let (coin, pc, need_coin, need_pc) = count_swap-frame c.direction i o f c.amm e3 in
            let written = ok-inj h4 in
            let after : AmmInfo = record amm { recent_epoch = clock.epoch } in
            record {
              paid_in =
                  let e = balance-write vi a.amm.key (AccountData.amm_data after) drawn ks.amm_in in
                  let kept =
                    law.frame vo t a.amm_authority.key vi o paid drawn ks.apart
                      (λ x. ks.destination_in (sym x)) e2 in
                  let got = law.credit s vi a.user_source_owner.key i bank paid ks.source_in e1 in
                  rw (← written, e, kept, got);
              paid_out =
                  let e =
                    balance-write vo a.amm.key (AccountData.amm_data after) drawn ks.amm_out in
                  let kept =
                    law.frame s vi a.user_source_owner.key vo i bank paid
                      (λ x. ks.source_out (sym x)) (λ x. ks.apart (sym x)) e1 in
                  let given =
                    law.debit vo t a.amm_authority.key o paid drawn
                      (λ x. ks.destination_out (sym x)) e2 in
                  let given' : balance drawn vo + o ≡ balance bank vo = rw kept at given in
                  rw (← written, e, given');
              recorded = (
                after,
                rw (← written, write-same a.amm.key (AccountData.amm_data after) drawn),
                coin,
                pc,
                need_coin,
                need_pc,
              );
              orders_kept = λ k e.
                  let apart = keys_apart bank k a.amm.key e hc.amm_content.1 (λ x. cc) in
                  let k_in : k ≢ vi = orders_apart_in c bank hc k e c.direction in
                  let k_out : k ≢ vo = orders_apart_out c bank hc k e c.direction in
                  let k_source = orders_keys_apart bank k s e hc.source_content in
                  let k_destination = orders_keys_apart bank k t e hc.destination_content.1 in
                  let w = write-other k a.amm.key (AccountData.amm_data after) drawn apart in
                  let first =
                    law.frame s vi a.user_source_owner.key k i bank paid k_source k_in e1 in
                  let second =
                    law.frame vo t a.amm_authority.key k o paid drawn k_out k_destination e2 in
                  rw (← written, w, second, first);
            }
