-- ===== src/Processor/Withdraw/Handler.antt =====
-- A whole withdrawal.
use raydium_amm_fair.Common.{ℕ, ◌+◌, ◌-◌, ◌*◌, ◌≤◌, ◌<◌, ◌≡◌, ap, ◌∙◌, Bool, List, arith, not}
use raydium_amm_fair.Error.{invalid_sign_account}
use raydium_amm_fair.Outcome.{ok, after_bind, fail_if-eq-ok}
use raydium_amm_fair.State.Status.{AmmStatus}
use raydium_amm_fair.State.Accounts.{AmmInfo, TargetOrders}
use raydium_amm_fair.Chain.{
  AccountInfo, AccountData, Bank, Runtime, IsTransfer, IsBurn, balance, load_target,
}
use raydium_amm_fair.Dex.Types.{Market}
use raydium_amm_fair.Instruction.Types.{WithdrawInstruction}
use raydium_amm_fair.Math.Decimal.{normalize_decimal_v2}
use raydium_amm_fair.Math.Exchange.Shares.{redeem_fair}
use raydium_amm_fair.Processor.Pnl.{Pnl}
use raydium_amm_fair.Processor.Pnl.Totals.{IsPnl}
use raydium_amm_fair.Processor.Swap.Settled.{keys_apart}
use raydium_amm_fair.Processor.Swap.Facts.{load_amm-content}
use raydium_amm_fair.Processor.Deposit.Value.{load_target-content, IsWorth}
use raydium_amm_fair.Processor.Withdraw.{
  WithdrawTokens, check_withdraw, withdraw_tokens, withdraw_totals, withdraw_pnl, quote_withdraw,
  process_withdraw,
}
use raydium_amm_fair.Processor.Withdraw.Accounts.{WithdrawAccounts}
use raydium_amm_fair.Processor.Withdraw.Shares.{
  quote_withdraw-fair, part_within, IsApart, IsWithdrawn, settle_withdraw-IsWithdrawn,
}
use raydium_amm_fair.Processor.Withdraw.Facts.{
  IsPlainWithdraw, IsChecked, check_withdraw-IsChecked, IsTokens, withdraw_tokens-IsTokens,
  totals_of, withdraw_pnl-IsPnl,
}

-- What a withdrawal leaves: fewer shares, none of them worth less.
pub record IsFairRedeem (amm : AmmInfo) (m : ℕ) (a : WithdrawAccounts) (bank bank' : Bank)
    (amm' : AmmInfo) : Type 0 where
  pub recorded : (bank' a.amm.key).content ≡ AccountData.amm_data amm'
  pub redeemed : amm'.lp_amount + m ≡ amm.lp_amount
  pub coin_worth :
      IsWorth
        (balance bank amm.coin_vault)
        (balance bank' amm.coin_vault)
        amm'.state_data.need_take_pnl_coin
        amm.lp_amount
        amm'.lp_amount
  pub pc_worth :
      IsWorth
        (balance bank amm.pc_vault)
        (balance bank' amm.pc_vault)
        amm'.state_data.need_take_pnl_pc
        amm.lp_amount
        amm'.lp_amount

rest-IsWorth :
    (total out need before after lp lp' m : ℕ)
    → before ≡ total + need
    → after + out ≡ before
    → lp' + m ≡ lp
    → 0 < lp
    → lp * out ≤ total * m
    → IsWorth before after need lp lp'
rest-IsWorth total out need before after lp lp' m e le l pos h =
    let within = part_within lp total m out pos (omega (arith, l)) h in
    let x : before - need ≡ total = omega arith in
    let y : after - need ≡ total - out = omega (arith, within) in
    let z : lp - m ≡ lp' = omega arith in
    let fair = redeem_fair lp total m out (omega (arith, l)) within h in rw (x, y) (rw z at fair)

withdrawn_worth :
    (amm : AmmInfo) (p : Pnl) (a : WithdrawAccounts) (bank bank' : Bank) (tp tc c v m : ℕ)
    → balance bank amm.coin_vault ≡ tc + amm.state_data.need_take_pnl_coin
    → balance bank amm.pc_vault ≡ tp + amm.state_data.need_take_pnl_pc
    → IsPnl amm tp tc p
    → p.amm.lp_amount * c ≤ p.total_coin * m
    → p.amm.lp_amount * v ≤ p.total_pc * m
    → 0 < p.amm.lp_amount
    → IsWithdrawn p.amm a.amm.key bank bank' c v m
    → (amm' : AmmInfo) × IsFairRedeem amm m a bank bank' amm'
withdrawn_worth amm p a bank bank' tp tc c v m bc bp pnl fair_c fair_p pos done =
    let (amm', content, lp', data') = done.recorded in
    let lp = ap (λ x. x.lp_amount) pnl.rest in
    let cv = ap (λ x. x.coin_vault) pnl.rest in
    let pv = ap (λ x. x.pc_vault) pnl.rest in
    let pnl_c = pnl.coin in
    let pnl_p = pnl.pc in
    let bc' : balance bank amm.coin_vault ≡ p.total_coin + p.amm.state_data.need_take_pnl_coin =
      omega arith in
    let bp' : balance bank amm.pc_vault ≡ p.total_pc + p.amm.state_data.need_take_pnl_pc =
      omega arith in
    let left : amm'.lp_amount + m ≡ amm.lp_amount = rw lp at lp' in
    let c' =
      rest-IsWorth p.total_coin c p.amm.state_data.need_take_pnl_coin (balance bank amm.coin_vault)
        (balance bank' amm.coin_vault) amm.lp_amount amm'.lp_amount m bc' (rw cv at done.coin) left
        (rw lp at pos) (rw lp at fair_c) in
    let v' =
      rest-IsWorth p.total_pc v p.amm.state_data.need_take_pnl_pc (balance bank amm.pc_vault)
        (balance bank' amm.pc_vault) amm.lp_amount amm'.lp_amount m bp' (rw pv at done.pc) left
        (rw lp at pos) (rw lp at fair_p) in
    (
      amm',
      record {
        recorded = content;
        redeemed = left;
        coin_worth = rw data' c';
        pc_worth = rw data' v';
      },
    )

withdraw_keys-IsApart :
    (rt : Runtime) (accounts : List AccountInfo) (bank : Bank) (a : WithdrawAccounts)
    (amm : AmmInfo) (t : WithdrawTokens) (withdraw : WithdrawInstruction) (target : TargetOrders)
    (status : AmmStatus) {b : Bool}
    → IsPlainWithdraw rt accounts bank a amm status
    → IsChecked a amm status b
    → IsTokens a withdraw amm bank t
    → (bank a.amm.key).content ≡ AccountData.amm_data amm
    → (bank a.amm_target_orders.key).content ≡ AccountData.target_data target
    → IsApart a amm.coin_vault amm.pc_vault
withdraw_keys-IsApart rt accounts bank a amm t withdraw target status plain checked tokens pool
      orders =
    let coin : (bank amm.coin_vault).content ≡ AccountData.token_data t.coin_vault =
      rw (← checked.coin_key) tokens.coin in
    let pc : (bank amm.pc_vault).content ≡ AccountData.token_data t.pc_vault =
      rw (← checked.pc_key) tokens.pc in
    let mint = tokens.mint.1 in
    record {
      coin_key = checked.coin_key;
      pc_key = checked.pc_key;
      vaults = plain.vaults;
      coin_coin = checked.coin_coin;
      pc_pc = checked.pc_pc;
      coin_pc = plain.coin_dest;
      pc_coin = plain.pc_dest;
      lp_coin = plain.lp_coin;
      lp_pc = plain.lp_pc;
      mint_coin = keys_apart bank amm.coin_vault a.amm_lp_mint.key coin mint (λ x. cc);
      mint_pc = keys_apart bank amm.pc_vault a.amm_lp_mint.key pc mint (λ x. cc);
      amm_coin = keys_apart bank amm.coin_vault a.amm.key coin pool (λ x. cc);
      amm_pc = keys_apart bank amm.pc_vault a.amm.key pc pool (λ x. cc);
      target_coin = keys_apart bank amm.coin_vault a.amm_target_orders.key coin orders (λ x. cc);
      target_pc = keys_apart bank amm.pc_vault a.amm_target_orders.key pc orders (λ x. cc);
    }

-- A withdrawal that succeeds, from a pool without order book and with two different vaults that
-- none of the user's three accounts is, redeems the shares of the instruction and does not lower
-- the worth of a remaining share in either token: what the vault holds less the profit that the
-- pool owes afterwards, per share.
pub process_withdraw-worth :
    (integer_sqrt : ℕ → ℕ) (rt : Runtime) (mk : Market) (accounts : List AccountInfo)
    (withdraw : WithdrawInstruction) (bank : Bank) (a : WithdrawAccounts) (amm : AmmInfo)
    (status : AmmStatus) {bank' : Bank}
    → IsTransfer rt
    → IsBurn rt
    → IsPlainWithdraw rt accounts bank a amm status
    → process_withdraw integer_sqrt rt mk accounts withdraw bank ≡ ok bank'
    → (amm' : AmmInfo) × IsFairRedeem amm withdraw.amount a bank bank' amm'
unfolding process_withdraw
process_withdraw-worth integer_sqrt rt mk accounts withdraw bank a amm status {bank'} law burn plain
      h =
    let h0 = rw plain.parsed at h in
    let (_, h1) = fail_if-eq-ok (not a.source_lp_owner.is_signer) invalid_sign_account _ h0 in
    let h1' = rw plain.loaded at h1 in
    after_bind (load_target rt a.amm_target_orders.key a.amm.key bank) h1' λ target e2 h2.
      after_bind (check_withdraw rt a amm) h2 λ b e3 h3.
        after_bind (withdraw_tokens rt a withdraw amm bank) h3 λ t e4 h4.
          after_bind (withdraw_totals mk b a amm t bank) h4 λ totals e5 h5.
            after_bind (normalize_decimal_v2 totals.0 amm.pc_decimals amm.sys_decimal_value) h5
              λ x1 e6 h6.
                after_bind (normalize_decimal_v2 totals.1 amm.coin_decimals amm.sys_decimal_value)
                  h6
                  λ y1 e7 h7.
                    after_bind (withdraw_pnl integer_sqrt target amm totals.0 totals.1 x1 y1) h7
                      λ p e8 h8. after_bind (quote_withdraw withdraw t p) h8 λ quote e9 h9.
                        let checked =
                          check_withdraw-IsChecked rt a amm status plain.status_code e3 in
                        let tokens = withdraw_tokens-IsTokens rt a withdraw amm bank e4 in
                        let pool = load_amm-content rt a.amm.key bank plain.loaded in
                        let orders =
                          load_target-content rt a.amm_target_orders.key a.amm.key bank e2 in
                        let (tc, tp, same) =
                          totals_of mk a amm t bank b (checked.orderbook ∙ plain.no_orderbook) e5 in
                        let bc : balance bank amm.coin_vault
                            ≡ totals.1 + amm.state_data.need_take_pnl_coin =
                          rw (← checked.coin_key, tokens.coin, tc) in
                        let bp : balance bank amm.pc_vault
                            ≡ totals.0 + amm.state_data.need_take_pnl_pc =
                          rw (← checked.pc_key, tokens.pc, tp) in
                        let pnl =
                          withdraw_pnl-IsPnl integer_sqrt target amm totals.0 totals.1 x1 y1 e8 in
                        let (fair_c, fair_p, pos, _) = quote_withdraw-fair withdraw t p e9 in
                        let apart =
                          withdraw_keys-IsApart rt accounts bank a amm t withdraw target status
                            plain checked tokens pool orders in
                        let apart' : IsApart a p.amm.coin_vault p.amm.pc_vault =
                          rw (ap (λ x. x.coin_vault) pnl.rest, ap (λ x. x.pc_vault) pnl.rest)
                            apart in
                        let done =
                          settle_withdraw-IsWithdrawn rt a target p x1 y1 quote.0 quote.1
                            withdraw.amount bank law burn apart' (rw same at h9) in
                        withdrawn_worth amm p a bank bank' totals.0 totals.1 quote.0 quote.1
                          withdraw.amount bc bp pnl fair_c fair_p pos done
