-- ===== src/Processor/Deposit/Settled.antt =====
-- What a deposit checks, and what it does to the bank.
use raydium_amm_fair.Common.{
  ℕ, ◌+◌, ◌≤◌, ◌≡◌, ◌≢◌, sym, refl, Bool, false, List, arith, ◌==◌, ◌!=◌, ◌||◌, not, ◌%◌,
}
use raydium_amm_fair.Error.{
  invalid_input, invalid_sign_account, invalid_status, invalid_program_address,
  invalid_spl_token_program, invalid_coin_vault, invalid_pc_vault, invalid_pool_mint,
  invalid_target_orders,
}
use raydium_amm_fair.Outcome.{ok, unwrap, after_bind, fail_if-eq-ok, ok-inj}
use raydium_amm_fair.Word.{checked_add}
use raydium_amm_fair.State.Status.{
  AmmStatus, status_from_u64, orderbook_permission, deposit_permission,
}
use raydium_amm_fair.State.Accounts.{Pubkey, AmmInfo, TargetOrders}
use raydium_amm_fair.Chain.{
  AccountInfo, AccountData, Bank, Runtime, IsTransfer, IsMint, balance, write, load_amm,
  authority_id,
}
use raydium_amm_fair.Instruction.Types.{DepositInstruction}
use raydium_amm_fair.Processor.Pnl.{Pnl}
use raydium_amm_fair.Processor.Swap.Settled.{balance-write, write-same}
use raydium_amm_fair.Processor.Deposit.{
  DepositAccounts, deposit_accounts, check_deposit, next_calc_pnl, settle_deposit,
}

-- What the vaults of a pool have gained, and what its record says afterwards.
pub record IsDeposited (amm : AmmInfo) (k : Pubkey) (bank bank' : Bank) (dc dp m : ℕ) : Type 0 where
  pub coin : balance bank amm.coin_vault + dc ≤ balance bank' amm.coin_vault
  pub pc : balance bank amm.pc_vault + dp ≤ balance bank' amm.pc_vault
  pub recorded :
      (amm' : AmmInfo) × ((bank' k).content ≡ AccountData.amm_data amm')
      × (amm'.lp_amount ≡ amm.lp_amount + m)
      × (amm'.state_data ≡ amm.state_data)

pub record IsApart (a : DepositAccounts) (coin pc : Pubkey) : Type 0 where
  pub coin_key : a.amm_coin_vault.key ≡ coin
  pub pc_key : a.amm_pc_vault.key ≡ pc
  pub vaults : coin ≢ pc
  pub coin_coin : a.user_source_coin.key ≢ coin
  pub pc_pc : a.user_source_pc.key ≢ pc
  pub coin_pc : a.user_source_coin.key ≢ pc
  pub pc_coin : a.user_source_pc.key ≢ coin
  pub amm_coin : coin ≢ a.amm.key
  pub amm_pc : pc ≢ a.amm.key
  pub target_coin : coin ≢ a.amm_target_orders.key
  pub target_pc : pc ≢ a.amm_target_orders.key

pub settle_deposit-IsDeposited :
    (rt : Runtime) (a : DepositAccounts) (target : TargetOrders) (p : Pnl) (x1 y1 dc dp m : ℕ)
    (bank : Bank) {bank' : Bank}
    → IsTransfer rt
    → IsMint rt
    → IsApart a p.amm.coin_vault p.amm.pc_vault
    → settle_deposit rt a target p x1 y1 dc dp m bank ≡ ok bank'
    → IsDeposited p.amm a.amm.key bank bank' dc dp m
unfolding settle_deposit
settle_deposit-IsDeposited rt a target p x1 y1 dc dp m bank {bank'} law mint ks h =
    let cv = a.amm_coin_vault.key in
    let pv = a.amm_pc_vault.key in
    let sc = a.user_source_coin.key in
    let sp = a.user_source_pc.key in
    let o = a.source_owner.key in
    after_bind (rt.transfer sc cv o dc bank) h λ b1 e1 h1.
      after_bind (rt.transfer sp pv o dp b1) h1 λ b2 e2 h2.
        after_bind (rt.mint_to a.amm_lp_mint.key a.user_dest_lp.key a.amm_authority.key m b2) h2
          λ b3 e3 h3. after_bind (unwrap (checked_add 64 p.amm.lp_amount m)) h3 λ lp e4 h4.
            after_bind (next_calc_pnl x1 dp p.amm.pc_decimals p.amm.sys_decimal_value p.delta_x) h4
              λ x e5 h5.
                after_bind
                  (next_calc_pnl y1 dc p.amm.coin_decimals p.amm.sys_decimal_value p.delta_y) h5
                  λ y e6 h6. after_bind rt.clock h6 λ clock e7 h7.
                    let c = p.amm.coin_vault in
                    let v = p.amm.pc_vault in
                    let e1' : rt.transfer sc c o dc bank ≡ ok b1 = rw ks.coin_key at e1 in
                    let e2' : rt.transfer sp v o dp b1 ≡ ok b2 = rw ks.pc_key at e2 in
                    let target' =
                      AccountData.target_data (record target { calc_pnl_x = x; calc_pnl_y = y }) in
                    let amm' : AmmInfo = record p.amm {
                      lp_amount = lp;
                      recent_epoch = clock.epoch;
                    } in
                    let b4 = write a.amm_target_orders.key target' b3 in
                    let written = ok-inj h7 in
                    let lp_sum : lp ≡ p.amm.lp_amount + m = ground arith in
                    let coin_paid = law.credit sc c o dc bank b1 ks.coin_coin e1' in
                    let coin_kept =
                      law.frame sp v o c dp b1 b2 (λ e. ks.pc_coin (sym e)) ks.vaults e2' in
                    let pc_kept =
                      law.frame sc c o v dc bank b1 (λ e. ks.coin_pc (sym e))
                        (λ e. ks.vaults (sym e)) e1' in
                    let pc_paid = law.credit sp v o dp b1 b2 ks.pc_pc e2' in
                    record {
                      coin =
                          let more =
                            mint.keep a.amm_lp_mint.key a.user_dest_lp.key a.amm_authority.key c m
                              b2 b3 e3 in
                          let w1 =
                            balance-write c a.amm.key (AccountData.amm_data amm') b4 ks.amm_coin in
                          let w2 =
                            balance-write c a.amm_target_orders.key target' b3 ks.target_coin in
                          let b2c : balance b2 c ≡ balance bank c + dc =
                            rw (coin_kept, coin_paid) in
                          let more' : balance bank c + dc ≤ balance b3 c = rw b2c at more in
                          rw (← written, w1, w2) more';
                      pc =
                          let more =
                            mint.keep a.amm_lp_mint.key a.user_dest_lp.key a.amm_authority.key v m
                              b2 b3 e3 in
                          let w1 =
                            balance-write v a.amm.key (AccountData.amm_data amm') b4 ks.amm_pc in
                          let w2 =
                            balance-write v a.amm_target_orders.key target' b3 ks.target_pc in
                          let b1v : balance b1 v ≡ balance bank v = rw pc_kept in
                          let b2v : balance b2 v ≡ balance bank v + dp = rw (pc_paid, b1v) in
                          let more' : balance bank v + dp ≤ balance b3 v = rw b2v at more in
                          rw (← written, w1, w2) more';
                      recorded = (
                        amm',
                        rw (← written, write-same a.amm.key (AccountData.amm_data amm') b4),
                        lp_sum,
                        refl,
                      );
                    }

-- A deposit into a pool without order book, with two different vaults, whose source accounts are
-- not the pool's vaults.
pub record IsPlainDeposit (rt : Runtime) (accounts : List AccountInfo) (bank : Bank)
    (a : DepositAccounts) (amm : AmmInfo) (status : AmmStatus) : Type 0 where
  pub parsed : deposit_accounts accounts ≡ ok a
  pub loaded : load_amm rt a.amm.key bank ≡ ok amm
  pub status_code : status_from_u64 amm.status ≡ ok status
  pub no_orderbook : orderbook_permission status ≡ false
  pub vaults : amm.coin_vault ≢ amm.pc_vault
  pub coin_source : a.user_source_coin.key ≢ amm.pc_vault
  pub pc_source : a.user_source_pc.key ≢ amm.coin_vault

pub record IsChecked (a : DepositAccounts) (amm : AmmInfo) (status : AmmStatus)
    (enable_orderbook : Bool) : Type 0 where
  pub coin_key : a.amm_coin_vault.key ≡ amm.coin_vault
  pub pc_key : a.amm_pc_vault.key ≡ amm.pc_vault
  pub coin_coin : a.user_source_coin.key ≢ amm.coin_vault
  pub pc_pc : a.user_source_pc.key ≢ amm.pc_vault
  pub orderbook : enable_orderbook ≡ orderbook_permission status

pub check_deposit-IsChecked :
    (rt : Runtime) (a : DepositAccounts) (deposit : DepositInstruction) (amm : AmmInfo)
    (status : AmmStatus) {enable_orderbook : Bool}
    → status_from_u64 amm.status ≡ ok status
    → check_deposit rt a deposit amm ≡ ok enable_orderbook
    → IsChecked a amm status enable_orderbook
unfolding check_deposit
check_deposit-IsChecked rt a deposit amm status e h =
    let (_, h1) =
      fail_if-eq-ok (deposit.max_coin_amount == 0 || deposit.max_pc_amount == 0) invalid_input _
        h in
    let (_, h2) = fail_if-eq-ok (not a.source_owner.is_signer) invalid_sign_account _ h1 in
    let h2' = rw e at h2 in
    let (_, h3) = fail_if-eq-ok (not (deposit_permission status)) invalid_status _ h2' in
    after_bind (authority_id rt (amm.nonce % 256)) h3 λ authority _ h4.
      let (_, h5) = fail_if-eq-ok (a.amm_authority.key != authority) invalid_program_address _ h4 in
      let (_, h6) =
        fail_if-eq-ok (a.token_program.key != rt.spl_token_id) invalid_spl_token_program _ h5 in
      let (coin, h7) =
        fail_if-eq-ok
          (a.amm_coin_vault.key != amm.coin_vault || a.user_source_coin.key == amm.coin_vault)
          invalid_coin_vault _ h6 in
      let (pc, h8) =
        fail_if-eq-ok (a.amm_pc_vault.key != amm.pc_vault || a.user_source_pc.key == amm.pc_vault)
          invalid_pc_vault _ h7 in
      let (_, h9) = fail_if-eq-ok (a.amm_lp_mint.key != amm.lp_mint) invalid_pool_mint _ h8 in
      let (_, h10) =
        fail_if-eq-ok (a.amm_target_orders.key != amm.target_orders) invalid_target_orders _ h9 in
      record {
        coin_key = ground arith;
        pc_key = ground arith;
        coin_coin = ground arith;
        pc_pc = ground arith;
        orderbook = sym (ok-inj h10);
      }
