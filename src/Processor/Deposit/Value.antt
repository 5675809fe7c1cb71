-- ===== src/Processor/Deposit/Value.antt =====
-- What a deposit does to the value of a share.
use raydium_amm_fair.Common.{
  ℕ, mul_mono, ◌+◌, ◌-◌, ◌*◌, ◌≤◌, ◌<◌, ◌≡◌, ap, Bool, true, false, arith,
}
use raydium_amm_fair.Outcome.{ok, after_bind, ok-inj}
use raydium_amm_fair.State.Accounts.{Pubkey, AmmInfo, TargetOrders}
use raydium_amm_fair.Chain.{AccountData, Bank, Runtime, balance, load_target, unpack_token_account}
use raydium_amm_fair.Dex.Types.{Market}
use raydium_amm_fair.Math.Exchange.Shares.{issue_fair}
use raydium_amm_fair.Math.Totals.{calc_total_without_take_pnl_no_orderbook}
use raydium_amm_fair.Processor.Pnl.{Pnl}
use raydium_amm_fair.Processor.Pnl.Totals.{IsPnl}
use raydium_amm_fair.Processor.Swap.Facts.{unpack-content}
use raydium_amm_fair.Processor.Deposit.{
  DepositAccounts, DepositTokens, deposit_tokens, deposit_totals,
}
use raydium_amm_fair.Processor.Deposit.Settled.{IsDeposited}

pub load_target-content :
    (rt : Runtime) (k o : Pubkey) (bank : Bank) {t : TargetOrders}
    → load_target rt k o bank ≡ ok t
    → (bank k).content ≡ AccountData.target_data t
unfolding load_target
load_target-content rt k o bank h = ground arith

pub record IsTokens (a : DepositAccounts) (bank : Bank) (t : DepositTokens) : Type 0 where
  pub coin : (bank a.amm_coin_vault.key).content ≡ AccountData.token_data t.coin_vault
  pub pc : (bank a.amm_pc_vault.key).content ≡ AccountData.token_data t.pc_vault

pub deposit_tokens-IsTokens :
    (rt : Runtime) (a : DepositAccounts) (bank : Bank) {t : DepositTokens}
    → deposit_tokens rt a bank ≡ ok t
    → IsTokens a bank t
unfolding deposit_tokens
deposit_tokens-IsTokens rt a bank h =
    after_bind (unpack_token_account rt a.amm_coin_vault.key bank) h λ coin_vault e1 h1.
      after_bind (unpack_token_account rt a.amm_pc_vault.key bank) h1 λ pc_vault e2 h2.
        after_bind (unpack_token_account rt a.user_source_coin.key bank) h2 λ source_coin e3 h3.
          after_bind (unpack_token_account rt a.user_source_pc.key bank) h3 λ source_pc e4 h4.
            let tokens : DepositTokens = record {
              coin_vault = coin_vault;
              pc_vault = pc_vault;
              source_coin = source_coin;
              source_pc = source_pc;
            } in
            let facts : IsTokens a bank tokens = record {
              coin = unpack-content rt a.amm_coin_vault.key bank e1;
              pc = unpack-content rt a.amm_pc_vault.key bank e2;
            } in
            rw (ok-inj h4) at facts

-- Of a share's worth in one token: the balance before and after, the profit owed, the shares.
abbrev pub IsWorth : ℕ → ℕ → ℕ → ℕ → ℕ → Type 0
IsWorth before after need lp lp' = (before - need) * lp' ≤ (after - need) * lp

worth :
    (total paid need before after lp m : ℕ)
    → before ≡ total + need
    → before + paid ≤ after
    → total * m ≤ lp * paid
    → IsWorth before after need lp (lp + m)
worth total paid need before after lp m e le h =
    let x : before - need ≡ total = omega arith in
    let y : total + paid ≤ after - need = omega arith in
    let z = issue_fair lp total paid m h in
    let w = mul_mono lp (total + paid) (after - need) y in rw x omega (arith, z, w)

pub totals_of :
    (mk : Market) (a : DepositAccounts) (amm : AmmInfo) (t : DepositTokens) (bank : Bank) (b : Bool)
    {tp tc : ℕ}
    → b ≡ false
    → deposit_totals mk b a amm t bank ≡ ok (tp, tc)
    → (tc + amm.state_data.need_take_pnl_coin ≡ t.coin_vault.amount)
      × (tp + amm.state_data.need_take_pnl_pc ≡ t.pc_vault.amount)
unfolding deposit_totals calc_total_without_take_pnl_no_orderbook
totals_of mk a amm t bank true e h = cc
totals_of mk a amm t bank false e h = (ground arith, ground arith)

-- What a deposit leaves: more shares, none of them worth less.
pub record IsFairIssue (amm : AmmInfo) (k : Pubkey) (bank bank' : Bank) (amm' : AmmInfo)
    : Type 0 where
  pub recorded : (bank' k).content ≡ AccountData.amm_data amm'
  pub issued : amm.lp_amount < amm'.lp_amount
  pub coin_worth :
      IsWorth
        (balance bank amm.coin_vault)
        (balance bank' amm.coin_vault)
        amm'.state_data.need_take_pnl_coin
        amm.lp_amount
        amm'.lp_amount
  pub pc_worth :
      IsWorth
        (balance bank amm.pc_vault)
        (balance bank' amm.pc_vault)
        amm'.state_data.need_take_pnl_pc
        amm.lp_amount
        amm'.lp_amount

pub deposited_worth :
    (amm : AmmInfo) (p : Pnl) (k : Pubkey) (bank bank' : Bank) (tp tc dc dp m : ℕ)
    → balance bank amm.coin_vault ≡ tc + amm.state_data.need_take_pnl_coin
    → balance bank amm.pc_vault ≡ tp + amm.state_data.need_take_pnl_pc
    → IsPnl amm tp tc p
    → p.total_coin * m ≤ p.amm.lp_amount * dc
    → p.total_pc * m ≤ p.amm.lp_amount * dp
    → 0 < m
    → IsDeposited p.amm k bank bank' dc dp m
    → (amm' : AmmInfo) × IsFairIssue amm k bank bank' amm'
deposited_worth amm p k bank bank' tp tc dc dp m bc bp pnl fair_c fair_p pos done =
    let (amm', content, lp', data') = done.recorded in
    let lp = ap (λ x. x.lp_amount) pnl.rest in
    let cv = ap (λ x. x.coin_vault) pnl.rest in
    let pv = ap (λ x. x.pc_vault) pnl.rest in
    let pnl_c = pnl.coin in
    let pnl_p = pnl.pc in
    let bc' : balance bank amm.coin_vault ≡ p.total_coin + p.amm.state_data.need_take_pnl_coin =
      omega arith in
    let bp' : balance bank amm.pc_vault ≡ p.total_pc + p.amm.state_data.need_take_pnl_pc =
      omega arith in
    let paid_c = rw cv at done.coin in
    let paid_p = rw pv at done.pc in
    let fair_c' = rw lp at fair_c in
    let fair_p' = rw lp at fair_p in
    let c =
      worth p.total_coin dc p.amm.state_data.need_take_pnl_coin (balance bank amm.coin_vault)
        (balance bank' amm.coin_vault) amm.lp_amount m bc' paid_c fair_c' in
    let v =
      worth p.total_pc dp p.amm.state_data.need_take_pnl_pc (balance bank amm.pc_vault)
        (balance bank' amm.pc_vault) amm.lp_amount m bp' paid_p fair_p' in
    (
      amm',
      record {
        recorded = content;
        issued = omega (arith, lp', lp, pos);
        coin_worth = rw (lp', lp, data') c;
        pc_worth = rw (lp', lp, data') v;
      },
    )
