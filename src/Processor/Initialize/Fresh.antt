-- ===== src/Processor/Initialize/Fresh.antt =====
-- What a pool is that `process_initialize2` (program/src/processor.rs) has created.
use raydium_amm_fair.Common.{ℕ, ◌*◌, ◌≤◌, ◌<◌, ◌≡◌, ◌≢◌, refl, ◌∙◌, List, ◌!=◌, arith}
use raydium_amm_fair.Error.{
  already_in_use, invalid_program_address, invalid_coin_mint, invalid_pc_mint,
}
use raydium_amm_fair.Outcome.{ok, after_bind, fail_if-eq-ok, ok-inj}
use raydium_amm_fair.State.Status.{status_into_u64, uninitialized}
use raydium_amm_fair.State.Accounts.{Pubkey, AmmInfo, TargetOrders, check_init}
use raydium_amm_fair.State.Initialize.{initialize}
use raydium_amm_fair.Chain.{
  AccountInfo, AccountData, TokenAccount, Mint, Bank, Runtime, IsMint, balance, as_amm, as_target,
  unpack_mint, write,
}
use raydium_amm_fair.Dex.Types.{Market, MarketState}
use raydium_amm_fair.Instruction.Types.{InitializeInstruction2}
use raydium_amm_fair.Math.Decimal.{normalize_decimal_v2}
use raydium_amm_fair.Processor.Swap.Settled.{keys_apart, balance-write, write-same}
use raydium_amm_fair.Processor.Initialize.Programs.{System}
use raydium_amm_fair.Processor.Initialize.Accounts.{InitializeAccounts, initialize_accounts}
use raydium_amm_fair.Processor.Initialize.{
  check_initialize, charge_fee, create_accounts, check_vault, check_market, check_lp_mint,
  first_shares, fill_pool, start_pool, fund_pool, process_initialize2,
}
use raydium_amm_fair.Processor.Initialize.Start.{
  initialize-IsStart, check_vault-holds, IsRoot, first_shares-within, IsNewPool,
  fill_pool-IsNewPool, as_target-content, as_amm-content,
}

record IsStarted (rt : Runtime) (a : InitializeAccounts) (open_time liquidity : ℕ)
    (bank bank' : Bank) : Type 0 where
  amm' : AmmInfo
  recorded : (bank' a.amm.key).content ≡ AccountData.amm_data amm'
  pool : IsNewPool rt a open_time amm'
  shares : amm'.lp_amount ≡ liquidity
  target : TargetOrders
  target_content : (bank a.amm_target_orders.key).content ≡ AccountData.target_data target
  others :
      (k : Pubkey) → k ≢ a.amm.key → k ≢ a.amm_target_orders.key → balance bank' k ≡ balance bank k

start_pool-IsStarted :
    (rt : Runtime) (a : InitializeAccounts) (init : InitializeInstruction2) (cm pm : Mint)
    (m : MarketState) (v c liquidity : ℕ) (amm : AmmInfo) (bank : Bank) {bank' : Bank}
    → start_pool rt a init cm pm m v c liquidity amm bank ≡ ok bank'
    → IsStarted rt a init.open_time liquidity bank bank'
unfolding start_pool fill_pool
start_pool-IsStarted rt a init cm pm m v c liquidity amm bank h =
    after_bind rt.clock h λ clock e1 h1.
      after_bind
        (initialize init.nonce init.open_time cm.decimals pm.decimals m.coin_lot_size m.pc_lot_size
          clock.epoch amm)
        h1
        λ started e2 h2.
          after_bind (normalize_decimal_v2 v started.pc_decimals started.sys_decimal_value) h2
            λ x _ h3.
              after_bind (normalize_decimal_v2 c started.coin_decimals started.sys_decimal_value) h3
                λ y _ h4.
                  let (_, h5) =
                    fail_if-eq-ok ((bank a.amm_target_orders.key).owner != rt.program_id)
                      invalid_program_address _ h4 in
                  after_bind (as_target (bank a.amm_target_orders.key).content) h5 λ old e6 h6.
                    after_bind (check_init old x y a.amm.key) h6 λ new _ h7.
                      let pool =
                        fill_pool a liquidity init.open_time clock.unix_timestamp started in
                      let data' = AccountData.amm_data pool in
                      let target' = AccountData.target_data new in
                      let b1 = write a.amm_target_orders.key target' bank in
                      let written = ok-inj h7 in
                      record {
                        amm' = pool;
                        recorded = rw (← written) (write-same a.amm.key data' b1);
                        pool = fill_pool-IsNewPool rt a liquidity init.open_time clock started e1 (
                            initialize-IsStart init.nonce init.open_time cm.decimals pm.decimals
                              m.coin_lot_size m.pc_lot_size clock.epoch amm e2);
                        shares = refl;
                        target = old;
                        target_content =
                            as_target-content (bank a.amm_target_orders.key).content e6;
                        others = λ k ka kt. rw (← written) (
                            balance-write k a.amm.key data' b1 ka
                            ∙ balance-write k a.amm_target_orders.key target' bank kt);
                      }

funded_apart :
    (bank : Bank) (k l : Pubkey) {t : TargetOrders}
    → 0 < balance bank k
    → (bank l).content ≡ AccountData.target_data t
    → k ≢ l
funded_apart bank k l funds content e =
    let funds' : 0 < balance bank l = rw e at funds in
    let nothing : 0 < 0 = rw content at funds' in omega arith

-- A pool that has just been created, its shares against the tokens in its vaults.
pub record IsFresh (rt : Runtime) (a : InitializeAccounts) (open_time : ℕ) (bank' : Bank)
    (amm : AmmInfo) : Type 0 where
  pub recorded : (bank' a.amm.key).content ≡ AccountData.amm_data amm
  pub pool : IsNewPool rt a open_time amm
  pub backed :
      amm.lp_amount * amm.lp_amount
      ≤ balance bank' a.amm_pc_vault.key * balance bank' a.amm_coin_vault.key
  pub coin_funded : 0 < balance bank' a.amm_coin_vault.key
  pub pc_funded : 0 < balance bank' a.amm_pc_vault.key

square_le : (l v c v' c' : ℕ) → l * l ≤ v * c → v ≤ v' → c ≤ c' → l * l ≤ v' * c'
square_le l v c v' c' h hv hc = grind arith

finish-IsFresh :
    (rt : Runtime) (a : InitializeAccounts) (open_time : ℕ) (c v : TokenAccount) (amm : AmmInfo)
    (l : ℕ) (b4 b5 bank' : Bank)
    → (b4 a.amm.key).content ≡ AccountData.amm_data amm
    → ((b4 a.amm_coin_vault.key).content ≡ AccountData.token_data c) × (0 < c.amount)
    → ((b4 a.amm_pc_vault.key).content ≡ AccountData.token_data v) × (0 < v.amount)
    → l * l ≤ v.amount * c.amount
    → ((k : Pubkey) → balance b4 k ≤ balance b5 k)
    → IsStarted rt a open_time l b5 bank'
    → (amm' : AmmInfo) × IsFresh rt a open_time bank' amm'
finish-IsFresh rt a open_time c v amm l b4 b5 bank' pool (coin, coin_pos) (pc, pc_pos) within keep
      done =
    let ck = a.amm_coin_vault.key in
    let pk = a.amm_pc_vault.key in
    let coin_kept : c.amount ≤ balance b5 ck = let here = keep ck in rw coin at here in
    let pc_kept : v.amount ≤ balance b5 pk = let here = keep pk in rw pc at here in
    let coin_pos' : 0 < balance b5 ck = omega arith in
    let pc_pos' : 0 < balance b5 pk = omega arith in
    let coin_amm = keys_apart b4 ck a.amm.key coin pool (λ x. cc) in
    let pc_amm = keys_apart b4 pk a.amm.key pc pool (λ x. cc) in
    let coin_end =
      done.others ck coin_amm
        (funded_apart b5 ck a.amm_target_orders.key coin_pos' done.target_content) in
    let pc_end =
      done.others pk pc_amm
        (funded_apart b5 pk a.amm_target_orders.key pc_pos' done.target_content) in
    let lp = done.shares in
    (
      done.amm',
      record {
        recorded = done.recorded;
        pool = done.pool;
        backed =
            rw (lp, coin_end, pc_end)
              (square_le l v.amount c.amount (balance b5 pk) (balance b5 ck) within pc_kept
                coin_kept);
        coin_funded = rw coin_end coin_pos';
        pc_funded = rw pc_end pc_pos';
      },
    )

fund_pool-IsFresh :
    (integer_sqrt : ℕ → ℕ) (rt : Runtime) (mk : Market) (init : InitializeInstruction2)
    (a : InitializeAccounts) (cm pm : Mint) (b4 : Bank) {bank' : Bank}
    → IsRoot integer_sqrt
    → IsMint rt
    → fund_pool integer_sqrt rt mk init a cm pm b4 ≡ ok bank'
    → (amm : AmmInfo) × IsFresh rt a init.open_time bank' amm
unfolding fund_pool
fund_pool-IsFresh integer_sqrt rt mk init a cm pm b4 {bank'} root mint h =
    let ck = a.amm_coin_vault.key in
    let pk = a.amm_pc_vault.key in
    after_bind (as_amm (b4 a.amm.key).content) h λ amm e1 h1.
      let (_, h2) =
        fail_if-eq-ok (amm.status != status_into_u64 uninitialized) already_in_use _ h1 in
      after_bind (check_vault rt a ck a.amm_coin_mint.key invalid_coin_mint b4) h2 λ c e3 h3.
        after_bind (check_vault rt a pk a.amm_pc_mint.key invalid_pc_mint b4) h3 λ v e4 h4.
          after_bind (check_market mk a c v b4) h4 λ m _ h5.
            after_bind (check_lp_mint rt a b4) h5 λ decimals _ h6.
              after_bind (first_shares integer_sqrt v.amount c.amount decimals) h6 λ shares e7 h7.
                let user = a.user_token_lp.key in
                let authority = a.amm_authority.key in
                after_bind (rt.mint_to a.amm_lp_mint.key user authority shares.1 b4) h7 λ b5 e8 h8.
                  let (within, _) =
                    first_shares-within integer_sqrt v.amount c.amount decimals root e7 in
                  let pool = as_amm-content (b4 a.amm.key).content e1 in
                  let coin =
                    check_vault-holds rt a ck a.amm_coin_mint.key invalid_coin_mint b4 e3 in
                  let pc = check_vault-holds rt a pk a.amm_pc_mint.key invalid_pc_mint b4 e4 in
                  let keep : (k : Pubkey) → balance b4 k ≤ balance b5 k =
                    λ k. mint.keep a.amm_lp_mint.key user authority k shares.1 b4 b5 e8 in
                  finish-IsFresh rt a init.open_time c v amm shares.0 b4 b5 bank' pool coin pc
                    within keep
                    (start_pool-IsStarted rt a init cm pm m v.amount c.amount shares.0 amm b5 h8)

-- A pool whose creation succeeds names the accounts of the call, has the start values of the fees, a
-- configuration within its ranges and the opening time of the instruction, and owes no profit. Its
-- status is `WaitingTrade` where the clock is before that time, and `SwapOnly` otherwise. It has
-- tokens in both vaults, and the square of its shares is within the product of the two. The square
-- root is one whose square is within its argument, and minting lowers no balance.
pub process_initialize2-IsFresh :
    (integer_sqrt : ℕ → ℕ) (rt : Runtime) (sys : System) (mk : Market) (accounts : List AccountInfo)
    (init : InitializeInstruction2) (bank : Bank) (a : InitializeAccounts) {bank' : Bank}
    → IsRoot integer_sqrt
    → IsMint rt
    → initialize_accounts accounts ≡ ok a
    → process_initialize2 integer_sqrt rt sys mk accounts init bank ≡ ok bank'
    → (amm : AmmInfo) × IsFresh rt a init.open_time bank' amm
unfolding process_initialize2
process_initialize2-IsFresh integer_sqrt rt sys mk accounts init bank a {bank'} root mint parsed h =
    let h0 = rw parsed at h in
    after_bind (check_initialize rt sys a init bank) h0 λ _ _ h1.
      after_bind (charge_fee rt sys a bank) h1 λ b1 _ h2.
        after_bind (unpack_mint rt a.amm_coin_mint.key b1) h2 λ cm _ h3.
          after_bind (unpack_mint rt a.amm_pc_mint.key b1) h3 λ pm _ h4.
            after_bind (create_accounts rt sys a cm.decimals b1) h4 λ b2 _ h5.
              after_bind
                (rt.transfer a.user_token_coin.key a.amm_coin_vault.key a.user_wallet.key
                  init.init_coin_amount b2)
                h5
                λ b3 _ h6.
                  after_bind
                    (rt.transfer a.user_token_pc.key a.amm_pc_vault.key a.user_wallet.key
                      init.init_pc_amount b3)
                    h6 λ b4 _ h7. fund_pool-IsFresh integer_sqrt rt mk init a cm pm b4 root mint h7
