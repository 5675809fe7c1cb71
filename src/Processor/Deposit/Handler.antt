-- ===== src/Processor/Deposit/Handler.antt =====
-- A whole deposit.
use raydium_amm_fair.Common.{ℕ, ◌+◌, ◌<◌, ◌≡◌, ap, ◌∙◌, Bool, false, List, arith, ltb, ◌==◌, ◌||◌}
use raydium_amm_fair.Error.{invalid_input, insufficient_funds, not_allow_zero_lp}
use raydium_amm_fair.Outcome.{ok, after_bind, fail_if-eq-ok}
use raydium_amm_fair.State.Status.{AmmStatus}
use raydium_amm_fair.State.Accounts.{AmmInfo, TargetOrders}
use raydium_amm_fair.Chain.{
  load_amm, AccountInfo, AccountData, Bank, Runtime, IsTransfer, IsMint, balance, load_target,
}
use raydium_amm_fair.Dex.Types.{Market}
use raydium_amm_fair.Instruction.Types.{DepositInstruction}
use raydium_amm_fair.Math.Decimal.{normalize_decimal_v2}
use raydium_amm_fair.Processor.Pnl.{Pnl, calc_take_pnl}
use raydium_amm_fair.Processor.Pnl.Totals.{IsPnl, calc_take_pnl-conserves}
use raydium_amm_fair.Processor.Swap.Settled.{keys_apart}
use raydium_amm_fair.Processor.Swap.Facts.{load_amm-content}
use raydium_amm_fair.Processor.Deposit.{
  settle_deposit, DepositAccounts, DepositTokens, check_deposit, deposit_tokens, deposit_totals,
  quote_deposit, process_deposit,
}
use raydium_amm_fair.Processor.Deposit.Shares.{quote_deposit-fair}
use raydium_amm_fair.Processor.Deposit.Settled.{
  IsChecked, IsApart, settle_deposit-IsDeposited, IsPlainDeposit, check_deposit-IsChecked,
}
use raydium_amm_fair.Processor.Deposit.Value.{
  load_target-content, deposit_tokens-IsTokens, IsFairIssue, totals_of, deposited_worth,
}

-- What a deposit has read: the pool, its orders, and the two vaults.
record IsRead (bank : Bank) (a : DepositAccounts) (amm : AmmInfo) (t : DepositTokens)
    (target : TargetOrders) : Type 0 where
  pool_here : (bank a.amm.key).content ≡ AccountData.amm_data amm
  target_here : (bank a.amm_target_orders.key).content ≡ AccountData.target_data target
  coin_here : (bank amm.coin_vault).content ≡ AccountData.token_data t.coin_vault
  pc_here : (bank amm.pc_vault).content ≡ AccountData.token_data t.pc_vault

deposit_tokens-IsRead :
    (rt : Runtime) (bank : Bank) (a : DepositAccounts) (amm : AmmInfo) (t : DepositTokens)
    (target : TargetOrders) (status : AmmStatus) {b : Bool}
    → IsChecked a amm status b
    → load_amm rt a.amm.key bank ≡ ok amm
    → deposit_tokens rt a bank ≡ ok t
    → load_target rt a.amm_target_orders.key a.amm.key bank ≡ ok target
    → IsRead bank a amm t target
deposit_tokens-IsRead rt bank a amm t target status checked e1 e2 e3 =
    let tokens = deposit_tokens-IsTokens rt a bank e2 in
    record {
      pool_here = load_amm-content rt a.amm.key bank e1;
      target_here = load_target-content rt a.amm_target_orders.key a.amm.key bank e3;
      coin_here = rw (← checked.coin_key) tokens.coin;
      pc_here = rw (← checked.pc_key) tokens.pc;
    }

deposit_tokens-IsApart :
    (rt : Runtime) (accounts : List AccountInfo) (bank : Bank) (a : DepositAccounts) (amm : AmmInfo)
    (t : DepositTokens) (target : TargetOrders) (status : AmmStatus) {b : Bool}
    → IsPlainDeposit rt accounts bank a amm status
    → IsChecked a amm status b
    → IsRead bank a amm t target
    → IsApart a amm.coin_vault amm.pc_vault
deposit_tokens-IsApart rt accounts bank a amm t target status plain checked h =
    let orders = a.amm_target_orders.key in
    record {
      coin_key = checked.coin_key;
      pc_key = checked.pc_key;
      vaults = plain.vaults;
      coin_coin = checked.coin_coin;
      pc_pc = checked.pc_pc;
      coin_pc = plain.coin_source;
      pc_coin = plain.pc_source;
      amm_coin = keys_apart bank amm.coin_vault a.amm.key h.coin_here h.pool_here (λ x. cc);
      amm_pc = keys_apart bank amm.pc_vault a.amm.key h.pc_here h.pool_here (λ x. cc);
      target_coin = keys_apart bank amm.coin_vault orders h.coin_here h.target_here (λ x. cc);
      target_pc = keys_apart bank amm.pc_vault orders h.pc_here h.target_here (λ x. cc);
    }

-- The last steps of a deposit, from the amounts on.
finish_deposit :
    (rt : Runtime) (a : DepositAccounts) (target : TargetOrders) (deposit : DepositInstruction)
    (t : DepositTokens) (amm : AmmInfo) (p : Pnl) (tp tc x1 y1 dc dp m : ℕ) (bank : Bank)
    {bank' : Bank}
    → IsTransfer rt
    → IsMint rt
    → IsApart a amm.coin_vault amm.pc_vault
    → balance bank amm.coin_vault ≡ tc + amm.state_data.need_take_pnl_coin
    → balance bank amm.pc_vault ≡ tp + amm.state_data.need_take_pnl_pc
    → IsPnl amm tp tc p
    → quote_deposit deposit p ≡ ok (dc, dp, m)
    → (m == 0 || dc == 0 || dp == 0) ≡ false
    → settle_deposit rt a target p x1 y1 dc dp m bank ≡ ok bank'
    → (amm' : AmmInfo) × IsFairIssue amm a.amm.key bank bank' amm'
finish_deposit rt a target deposit t amm p tp tc x1 y1 dc dp m bank {bank'} law mint apart bc bp pnl
      q some_paid h =
    let cv = ap (λ x. x.coin_vault) pnl.rest in
    let pv = ap (λ x. x.pc_vault) pnl.rest in
    let apart' : IsApart a p.amm.coin_vault p.amm.pc_vault = rw (cv, pv) apart in
    let done = settle_deposit-IsDeposited rt a target p x1 y1 dc dp m bank law mint apart' h in
    let pos_m : 0 < m = ground arith in
    let pos_c : 0 < dc = ground arith in
    let pos_p : 0 < dp = ground arith in
    let (fair_c, fair_p) = quote_deposit-fair deposit p q pos_c pos_p in
    deposited_worth amm p a.amm.key bank bank' tp tc dc dp m bc bp pnl fair_c fair_p pos_m done

-- A deposit that succeeds, into a pool without order book and with two different vaults, from
-- accounts that are not the pool's vaults, issues shares and does not lower the worth of a share in
-- either token: what the vault holds less the profit that the pool owes afterwards, per share.
pub process_deposit-worth :
    (integer_sqrt : ℕ → ℕ) (rt : Runtime) (mk : Market) (accounts : List AccountInfo)
    (deposit : DepositInstruction) (bank : Bank) (a : DepositAccounts) (amm : AmmInfo)
    (status : AmmStatus) {bank' : Bank}
    → IsTransfer rt
    → IsMint rt
    → IsPlainDeposit rt accounts bank a amm status
    → process_deposit integer_sqrt rt mk accounts deposit bank ≡ ok bank'
    → (amm' : AmmInfo) × IsFairIssue amm a.amm.key bank bank' amm'
unfolding process_deposit
process_deposit-worth integer_sqrt rt mk accounts deposit bank a amm status law mint plain h =
    let h0 = rw plain.parsed at h in
    let h0' = rw plain.loaded at h0 in
    after_bind (check_deposit rt a deposit amm) h0' λ b e1 h1.
      after_bind (deposit_tokens rt a bank) h1 λ t e2 h2.
        after_bind (load_target rt a.amm_target_orders.key a.amm.key bank) h2 λ target e3 h3.
          after_bind (deposit_totals mk b a amm t bank) h3 λ totals e4 h4.
            after_bind (normalize_decimal_v2 totals.0 amm.pc_decimals amm.sys_decimal_value) h4
              λ x1 e5 h5.
                after_bind (normalize_decimal_v2 totals.1 amm.coin_decimals amm.sys_decimal_value)
                  h5
                  λ y1 e6 h6.
                    after_bind (calc_take_pnl integer_sqrt target amm totals.0 totals.1 x1 y1) h6
                      λ p e7 h7.
                        let (_, h8) = fail_if-eq-ok (p.amm.lp_amount == 0) not_allow_zero_lp _ h7 in
                        after_bind (quote_deposit deposit p) h8 λ quote e8 h9.
                          let (_, h10) =
                            fail_if-eq-ok
                              (ltb t.source_coin.amount quote.0 || ltb t.source_pc.amount quote.1)
                              insufficient_funds _ h9 in
                          let (some_paid, h11) =
                            fail_if-eq-ok (quote.2 == 0 || quote.0 == 0 || quote.1 == 0)
                              invalid_input _ h10 in
                          let checked =
                            check_deposit-IsChecked rt a deposit amm status plain.status_code e1 in
                          let here =
                            deposit_tokens-IsRead rt bank a amm t target status checked plain.loaded
                              e2 e3 in
                          let (tc, tp) =
                            totals_of mk a amm t bank b (checked.orderbook ∙ plain.no_orderbook)
                              e4 in
                          let bc : balance bank amm.coin_vault
                              ≡ totals.1 + amm.state_data.need_take_pnl_coin =
                            rw (here.coin_here, tc) in
                          let bp : balance bank amm.pc_vault
                              ≡ totals.0 + amm.state_data.need_take_pnl_pc =
                            rw (here.pc_here, tp) in
                          let pnl =
                            (calc_take_pnl-conserves integer_sqrt target amm totals.0 totals.1 x1 y1
                              e7).0 in
                          let apart =
                            deposit_tokens-IsApart rt accounts bank a amm t target status plain
                              checked here in
                          finish_deposit rt a target deposit t amm p totals.0 totals.1 x1 y1 quote.0
                            quote.1 quote.2 bank law mint apart bc bp pnl e8 some_paid h11
