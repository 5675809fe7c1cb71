-- ===== src/Processor/Withdraw/Shares.antt =====
-- What a withdrawal pays out for its shares, and what it does to the bank.
use raydium_amm_fair.Common.{
  ℕ, ◌+◌, ◌*◌, ◌≤◌, ◌<◌, ◌≡◌, ◌≢◌, sym, refl, arith, ltb, ◌==◌, ◌&&◌, ◌||◌, not, le_of_mul,
  mul_mono,
}
use raydium_amm_fair.Error.{invalid_input, take_pnl_error, exceeded_slippage}
use raydium_amm_fair.Outcome.{ok, unwrap, after_bind, fail_if-eq-ok, ok-inj}
use raydium_amm_fair.Word.{checked_sub}
use raydium_amm_fair.State.Accounts.{Pubkey, AmmInfo, TargetOrders}
use raydium_amm_fair.Chain.{AccountData, Bank, Runtime, IsTransfer, IsBurn, balance, write}
use raydium_amm_fair.Instruction.Types.{WithdrawInstruction}
use raydium_amm_fair.Math.Exchange.{floor, InvariantPool, exchange_pool_to_token}
use raydium_amm_fair.Math.Exchange.Shares.{exchange_floor-bounds}
use raydium_amm_fair.Processor.Pnl.{Pnl}
use raydium_amm_fair.Processor.Swap.Settled.{balance-write, write-same}
use raydium_amm_fair.Processor.Withdraw.{
  WithdrawTokens, above_either, quote_withdraw, rest_calc_pnl, settle_withdraw,
}
use raydium_amm_fair.Processor.Withdraw.Accounts.{WithdrawAccounts}

-- What is paid out in either token is within the part of the shares.
pub quote_withdraw-fair :
    (withdraw : WithdrawInstruction) (t : WithdrawTokens) (p : Pnl) {c v : ℕ}
    → quote_withdraw withdraw t p ≡ ok (c, v)
    → (p.amm.lp_amount * c ≤ p.total_coin * withdraw.amount)
      × (p.amm.lp_amount * v ≤ p.total_pc * withdraw.amount)
      × (0 < p.amm.lp_amount)
      × (0 < withdraw.amount)
unfolding quote_withdraw exchange_pool_to_token
quote_withdraw-fair withdraw t p {c} {v} h =
    let invariant : InvariantPool = record {
      token_input = withdraw.amount;
      token_total = p.amm.lp_amount;
    } in
    after_bind (exchange_pool_to_token invariant p.total_coin floor) h λ c' e1 h1.
      after_bind (exchange_pool_to_token invariant p.total_pc floor) h1 λ v' e2 h2.
        let (some_out, h3) =
          fail_if-eq-ok (withdraw.amount == 0 || c' == 0 || v' == 0) invalid_input _ h2 in
        let (_, h4) =
          fail_if-eq-ok (not (ltb c' t.coin_vault.amount && ltb v' t.pc_vault.amount))
            take_pnl_error _ h3 in
        let (_, h5) =
          fail_if-eq-ok (above_either withdraw.min_coin_amount withdraw.min_pc_amount c' v')
            exceeded_slippage _ h4 in
        let same_c : c' ≡ c = ground arith in
        let same_v : v' ≡ v = ground arith in
        let (pos, low_c, _) =
          exchange_floor-bounds p.total_coin withdraw.amount p.amm.lp_amount e1 in
        let (_, low_v, _) = exchange_floor-bounds p.total_pc withdraw.amount p.amm.lp_amount e2 in
        (rw same_c at low_c, rw same_v at low_v, pos, ground arith)

-- The part of fewer shares than there are is within the total.
pub part_within : (lp total m out : ℕ) → 0 < lp → m ≤ lp → lp * out ≤ total * m → out ≤ total
part_within lp total m out pos le h =
    let x = mul_mono total m lp le in le_of_mul lp out total pos omega (arith, h, x)

pub record IsApart (a : WithdrawAccounts) (coin pc : Pubkey) : Type 0 where
  pub coin_key : a.amm_coin_vault.key ≡ coin
  pub pc_key : a.amm_pc_vault.key ≡ pc
  pub vaults : coin ≢ pc
  pub coin_coin : a.user_dest_coin.key ≢ coin
  pub pc_pc : a.user_dest_pc.key ≢ pc
  pub coin_pc : a.user_dest_coin.key ≢ pc
  pub pc_coin : a.user_dest_pc.key ≢ coin
  pub lp_coin : a.user_source_lp.key ≢ coin
  pub lp_pc : a.user_source_lp.key ≢ pc
  pub mint_coin : coin ≢ a.amm_lp_mint.key
  pub mint_pc : pc ≢ a.amm_lp_mint.key
  pub amm_coin : coin ≢ a.amm.key
  pub amm_pc : pc ≢ a.amm.key
  pub target_coin : coin ≢ a.amm_target_orders.key
  pub target_pc : pc ≢ a.amm_target_orders.key

-- What the vaults of a pool have paid, and what its record says afterwards.
pub record IsWithdrawn (amm : AmmInfo) (k : Pubkey) (bank bank' : Bank) (c v m : ℕ) : Type 0 where
  pub coin : balance bank' amm.coin_vault + c ≡ balance bank amm.coin_vault
  pub pc : balance bank' amm.pc_vault + v ≡ balance bank amm.pc_vault
  pub recorded :
      (amm' : AmmInfo) × ((bank' k).content ≡ AccountData.amm_data amm')
      × (amm'.lp_amount + m ≡ amm.lp_amount)
      × (amm'.state_data ≡ amm.state_data)

pub settle_withdraw-IsWithdrawn :
    (rt : Runtime) (a : WithdrawAccounts) (target : TargetOrders) (p : Pnl) (x1 y1 c v m : ℕ)
    (bank : Bank) {bank' : Bank}
    → IsTransfer rt
    → IsBurn rt
    → IsApart a p.amm.coin_vault p.amm.pc_vault
    → settle_withdraw rt a target p x1 y1 c v m bank ≡ ok bank'
    → IsWithdrawn p.amm a.amm.key bank bank' c v m
unfolding settle_withdraw
settle_withdraw-IsWithdrawn rt a target p x1 y1 c v m bank {bank'} law burn ks h =
    let cv = p.amm.coin_vault in
    let pv = p.amm.pc_vault in
    let dc = a.user_dest_coin.key in
    let dp = a.user_dest_pc.key in
    let o = a.amm_authority.key in
    after_bind (rt.transfer a.amm_coin_vault.key dc o c bank) h λ b1 e1 h1.
      after_bind (rt.transfer a.amm_pc_vault.key dp o v b1) h1 λ b2 e2 h2.
        after_bind (rt.burn a.user_source_lp.key a.amm_lp_mint.key a.source_lp_owner.key m b2) h2
          λ b3 e3 h3. after_bind (unwrap (checked_sub p.amm.lp_amount m)) h3 λ lp e4 h4.
            after_bind (rest_calc_pnl x1 v p.amm.pc_decimals p.amm.sys_decimal_value p.delta_x) h4
              λ x e5 h5.
                after_bind
                  (rest_calc_pnl y1 c p.amm.coin_decimals p.amm.sys_decimal_value p.delta_y) h5
                  λ y e6 h6. after_bind rt.clock h6 λ clock e7 h7.
                    let e1' : rt.transfer cv dc o c bank ≡ ok b1 = rw ks.coin_key at e1 in
                    let e2' : rt.transfer pv dp o v b1 ≡ ok b2 = rw ks.pc_key at e2 in
                    let target' =
                      AccountData.target_data (record target { calc_pnl_x = x; calc_pnl_y = y }) in
                    let amm' : AmmInfo = record p.amm {
                      lp_amount = lp;
                      recent_epoch = clock.epoch;
                    } in
                    let b4 = write a.amm_target_orders.key target' b3 in
                    let written = ok-inj h7 in
                    let lp_rest : lp + m ≡ p.amm.lp_amount = ground arith in
                    let coin_paid = law.debit cv dc o c bank b1 (λ e. ks.coin_coin (sym e)) e1' in
                    let coin_kept =
                      law.frame pv dp o cv v b1 b2 ks.vaults (λ e. ks.pc_coin (sym e)) e2' in
                    let pc_kept =
                      law.frame cv dc o pv c bank b1 (λ e. ks.vaults (sym e))
                        (λ e. ks.coin_pc (sym e)) e1' in
                    let pc_paid = law.debit pv dp o v b1 b2 (λ e. ks.pc_pc (sym e)) e2' in
                    let lp_key = a.user_source_lp.key in
                    let mint = a.amm_lp_mint.key in
                    let owner = a.source_lp_owner.key in
                    let coin_burnt =
                      burn.frame lp_key mint owner cv m b2 b3 (λ e. ks.lp_coin (sym e)) ks.mint_coin
                        e3 in
                    let pc_burnt =
                      burn.frame lp_key mint owner pv m b2 b3 (λ e. ks.lp_pc (sym e)) ks.mint_pc
                        e3 in
                    record {
                      coin =
                          let w1 =
                            balance-write cv a.amm.key (AccountData.amm_data amm') b4 ks.amm_coin in
                          let w2 =
                            balance-write cv a.amm_target_orders.key target' b3 ks.target_coin in
                          rw (← written, w1, w2, coin_burnt, coin_kept) coin_paid;
                      pc =
                          let w1 =
                            balance-write pv a.amm.key (AccountData.amm_data amm') b4 ks.amm_pc in
                          let w2 =
                            balance-write pv a.amm_target_orders.key target' b3 ks.target_pc in
                          let pc_paid' : balance b2 pv + v ≡ balance bank pv =
                            rw pc_kept at pc_paid in
                          rw (← written, w1, w2, pc_burnt) pc_paid';
                      recorded = (
                        amm',
                        rw (← written, write-same a.amm.key (AccountData.amm_data amm') b4),
                        lp_rest,
                        refl,
                      );
                    }
