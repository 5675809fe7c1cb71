-- ===== src/Processor/Swap/Settle.antt =====
-- What the two swap handlers do once the amounts are known (program/src/processor.rs): they cancel the
-- orders of the side that the swap takes from, settle funds, move the tokens, and keep the statistics.
use raydium_amm_fair.Common.{ℕ, Bool, true, false, List, map, ltb, if◌then◌else◌, some}
use raydium_amm_fair.Outcome.{Outcome, ok, unwrap, ◌>>=◌}
use raydium_amm_fair.Word.{checked_add}
use raydium_amm_fair.State.Accounts.{Pubkey, AmmInfo}
use raydium_amm_fair.Chain.{Bank, Runtime, AccountData, write}
use raydium_amm_fair.Dex.Types.{Market, LeafNode, SettleAccounts, CancelAccounts}
use raydium_amm_fair.Dex.Batches.{batches_of}
use raydium_amm_fair.Math.Swap.{SwapDirection, coin2pc, pc2coin}
use raydium_amm_fair.Processor.Market.{cancel_batches}
use raydium_amm_fair.Processor.Swap.Context.{SwapAccounts, SwapContext, SwapPool}

cancel_accounts : SwapAccounts → CancelAccounts
cancel_accounts a = record {
  market_program = a.market_program.key;
  market = a.market.key;
  bids = a.market_bids.key;
  asks = a.market_asks.key;
  open_orders = a.amm_open_orders.key;
  authority = a.amm_authority.key;
  event_queue = a.market_event_queue.key;
}

-- The market's coin vault is an argument: one call passes another account.
settle_accounts : SwapAccounts → Pubkey → SettleAccounts
settle_accounts a market_coin_vault = record {
  market_program = a.market_program.key;
  market = a.market.key;
  open_orders = a.amm_open_orders.key;
  authority = a.amm_authority.key;
  market_coin_vault = market_coin_vault;
  market_pc_vault = a.market_pc_vault.key;
  coin_vault = a.amm_coin_vault.key;
  pc_vault = a.amm_pc_vault.key;
  market_vault_signer = a.market_vault_signer.key;
  token_program = a.token_program.key;
  referrer_pc = some a.amm_pc_vault.key;
}

-- The orders to cancel, and the vault that pays: of pc where coin comes in.
abbrev pub opposite_orders : SwapDirection → SwapPool → List LeafNode
opposite_orders coin2pc pool = pool.bids
opposite_orders pc2coin pool = pool.asks

abbrev pub vault_in : SwapDirection → AmmInfo → Pubkey
vault_in coin2pc amm = amm.coin_vault
vault_in pc2coin amm = amm.pc_vault

abbrev pub vault_out : SwapDirection → AmmInfo → Pubkey
vault_out coin2pc amm = amm.pc_vault
vault_out pc2coin amm = amm.coin_vault

abbrev paying_amount : SwapContext → SwapDirection → ℕ
paying_amount c coin2pc = c.pc_vault.amount
paying_amount c pc2coin = c.coin_vault.amount

-- With the order book disabled nothing is done.
unfoldable pub free_funds : Market → SwapContext → Pubkey → ℕ → Bool → Bank → Outcome Bank
unfolding cancel_accounts settle_accounts
free_funds mk c market_coin_vault amount_out true bank = do
  batches ← batches_of (map (λ o. o.client_order_id) (opposite_orders c.direction c.pool))
  bank' ← cancel_batches mk (cancel_accounts c.accounts) batches bank
  if ltb (paying_amount c c.direction) amount_out
      then mk.settle_funds (settle_accounts c.accounts market_coin_vault) bank'
      else ok bank'
free_funds mk c market_coin_vault amount_out false bank = ok bank

-- The statistics of a swap: both amounts, and the fee, which is charged in the token that comes in.
unfoldable pub count_swap : SwapDirection → ℕ → ℕ → ℕ → AmmInfo → Outcome AmmInfo
count_swap coin2pc amount_in amount_out swap_fee amm = do
  let data' = amm.state_data
  total_in ← unwrap (checked_add 128 data'.swap_coin_in_amount amount_in)
  total_out ← unwrap (checked_add 128 data'.swap_pc_out_amount amount_out)
  fee ← unwrap (checked_add 64 data'.swap_acc_coin_fee swap_fee)
  ok (record amm {
    state_data = record data' {
      swap_coin_in_amount = total_in;
      swap_pc_out_amount = total_out;
      swap_acc_coin_fee = fee;
    };
  })
count_swap pc2coin amount_in amount_out swap_fee amm = do
  let data' = amm.state_data
  total_in ← unwrap (checked_add 128 data'.swap_pc_in_amount amount_in)
  total_out ← unwrap (checked_add 128 data'.swap_coin_out_amount amount_out)
  fee ← unwrap (checked_add 64 data'.swap_acc_pc_fee swap_fee)
  ok (record amm {
    state_data = record data' {
      swap_pc_in_amount = total_in;
      swap_coin_out_amount = total_out;
      swap_acc_pc_fee = fee;
    };
  })

-- The user pays in, the pool pays out, and the pool's record is written back.
unfoldable pub settle_swap : Runtime → SwapContext → ℕ → ℕ → ℕ → Bank → Outcome Bank
settle_swap rt c amount_in amount_out swap_fee bank = do
  let a = c.accounts
  paid ←
      rt.transfer a.user_source.key (vault_in c.direction c.amm) a.user_source_owner.key amount_in
        bank
  drawn ←
      rt.transfer (vault_out c.direction c.amm) a.user_destination.key a.amm_authority.key
        amount_out paid
  amm ← count_swap c.direction amount_in amount_out swap_fee c.amm
  clock ← rt.clock
  ok (write a.amm.key (AccountData.amm_data (record amm { recent_epoch = clock.epoch })) drawn)
