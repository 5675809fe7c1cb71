-- ===== src/Processor/Swap/Run.antt =====
-- A swap that has gone through, and the product of the reserves.
use raydium_amm_fair.Common.{
  ℕ, ◌+◌, ◌-◌, ◌*◌, ◌≤◌, ◌<◌, ◌≡◌, ◌≢◌, ◌⊎◌, inl, inr, refl, sym, Bool, true, false, List, arith,
}
use raydium_amm_fair.Outcome.{ok, ok-inj}
use raydium_amm_fair.State.Accounts.{Pubkey}
use raydium_amm_fair.Chain.{AccountInfo, AccountData, Bank, Runtime, balance}
use raydium_amm_fair.Dex.Types.{Market}
use raydium_amm_fair.Math.Swap.{SwapDirection, coin2pc, pc2coin}
use raydium_amm_fair.Math.Swap.Product.{reserve_in, reserve_out, product_after}
use raydium_amm_fair.Processor.Swap.Context.{SwapContext, swap_context}
use raydium_amm_fair.Processor.Swap.Settle.{free_funds}
use raydium_amm_fair.Processor.Swap.Facts.{IsSwapContext}
use raydium_amm_fair.Processor.Swap.Settled.{IsSettled}

-- What the vaults hold less the profit that is owed to the protocol, multiplied.
abbrev product_at : Bank → AccountData → ℕ
product_at bank (AccountData.amm_data amm) =
    (balance bank amm.coin_vault - amm.state_data.need_take_pnl_coin)
    * (balance bank amm.pc_vault - amm.state_data.need_take_pnl_pc)
product_at bank _ = 0

-- Of the pool whose record stands at a key.
abbrev pub pool_product : Bank → Pubkey → ℕ
pool_product bank key = product_at bank (bank key).content

-- A swap without the order book, between two different vaults.
pub record IsPlainSwap (rt : Runtime) (mk : Market) (accounts : List AccountInfo) (bank : Bank)
    (c : SwapContext) : Type 0 where
  pub context : swap_context rt mk accounts bank ≡ ok c
  pub no_orderbook : c.enable_orderbook ≡ false
  pub vaults_apart : c.amm.coin_vault ≢ c.amm.pc_vault

pub direction_cases : (d : SwapDirection) → (d ≡ coin2pc) ⊎ (d ≡ pc2coin)
direction_cases coin2pc = inl refl
direction_cases pc2coin = inr refl

pub vault_balances :
    (c : SwapContext) (bank : Bank)
    → IsSwapContext bank c
    → c.enable_orderbook ≡ false
    → (balance bank c.amm.coin_vault ≡ c.pool.total_coin + c.amm.state_data.need_take_pnl_coin)
      × (balance bank c.amm.pc_vault ≡ c.pool.total_pc + c.amm.state_data.need_take_pnl_pc)
vault_balances c bank h off =
    let (tc, tp) = h.totals off in (rw (h.coin_content, tc), rw (h.pc_content, tp))

pub product_before :
    (c : SwapContext) (bank : Bank)
    → IsSwapContext bank c
    → c.enable_orderbook ≡ false
    → pool_product bank c.accounts.amm.key ≡ c.pool.total_coin * c.pool.total_pc
product_before c bank h off =
    let (amm, e, coin, pc, data') = h.amm_content in
    let (bc, bp) = vault_balances c bank h off in rw (e, coin, pc, data', bc, bp) (grind arith)

pub product_settled :
    (c : SwapContext) (bank bank' : Bank) (i o : ℕ)
    → IsSwapContext bank c
    → c.enable_orderbook ≡ false
    → IsSettled c i o bank bank'
    → o ≤ reserve_out c.direction c.pool.total_pc c.pool.total_coin
    → pool_product bank' c.accounts.amm.key
      ≡ product_after
          (reserve_in c.direction c.pool.total_pc c.pool.total_coin)
          (reserve_out c.direction c.pool.total_pc c.pool.total_coin)
          i
          o
product_settled c bank bank' i o h off settled le =
    let (amm, e, coin, pc, need_coin, need_pc) = settled.recorded in
    let (bc, bp) = vault_balances c bank h off in
    elim (direction_cases c.direction) [
      | inl d ↦
          let pin = rw d at settled.paid_in in
          let pout = rw d at settled.paid_out in
          let le' = rw d at le in
          let x : balance bank' c.amm.coin_vault - c.amm.state_data.need_take_pnl_coin
              ≡ c.pool.total_coin + i =
            omega arith in
          let y : balance bank' c.amm.pc_vault - c.amm.state_data.need_take_pnl_pc
              ≡ c.pool.total_pc - o =
            omega arith in
          rw (e, coin, pc, need_coin, need_pc, d, x, y)
      | inr d ↦
          let pin = rw d at settled.paid_in in
          let pout = rw d at settled.paid_out in
          let le' = rw d at le in
          let x : balance bank' c.amm.pc_vault - c.amm.state_data.need_take_pnl_pc
              ≡ c.pool.total_pc + i =
            omega arith in
          let y : balance bank' c.amm.coin_vault - c.amm.state_data.need_take_pnl_coin
              ≡ c.pool.total_coin - o =
            omega arith in
          rw (e, coin, pc, need_coin, need_pc, d, x, y) (grind arith)
    ]

pub free_funds-off :
    (mk : Market) (c : SwapContext) (k : Pubkey) (o : ℕ) (b : Bool) (bank : Bank) {freed : Bank}
    → b ≡ false
    → free_funds mk c k o b bank ≡ ok freed
    → freed ≡ bank
unfolding free_funds
free_funds-off mk c k o true bank e h = cc
free_funds-off mk c k o false bank e h = sym (ok-inj h)

-- A swap that has gone through: the amount that was paid in and the one that was paid out.
pub record IsRun (c : SwapContext) (bank bank' : Bank) (i o : ℕ) : Type 0 where
  pub settled : IsSettled c i o bank bank'
  pub within : o < reserve_out c.direction c.pool.total_pc c.pool.total_coin
  pub kept :
      reserve_in c.direction c.pool.total_pc c.pool.total_coin
        * reserve_out c.direction c.pool.total_pc c.pool.total_coin
      ≤ product_after
          (reserve_in c.direction c.pool.total_pc c.pool.total_coin)
          (reserve_out c.direction c.pool.total_pc c.pool.total_coin)
          i
          o

pub run_product :
    (c : SwapContext) (bank bank' : Bank) {i o : ℕ}
    → IsSwapContext bank c
    → c.enable_orderbook ≡ false
    → IsRun c bank bank' i o
    → pool_product bank c.accounts.amm.key ≤ pool_product bank' c.accounts.amm.key
run_product c bank bank' {i} {o} h off run =
    let before = product_before c bank h off in
    let after = product_settled c bank bank' i o h off run.settled (omega (arith, run.within)) in
    let kept = run.kept in
    elim (direction_cases c.direction) [
      | inl d ↦ let kept' = rw d at kept in rw (before, after, d) kept'
      | inr d ↦ let kept' = rw d at kept in rw (before, after, d) omega (arith, kept')
    ]
