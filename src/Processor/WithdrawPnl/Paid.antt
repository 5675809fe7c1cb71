-- ===== src/Processor/WithdrawPnl/Paid.antt =====
-- What `process_withdrawpnl` (program/src/processor.rs) pays.
use raydium_amm_fair.Common.{ℕ, ◌+◌, ◌≤◌, ◌≡◌, ◌≢◌, refl, sym, ap, ◌∙◌, List, ◌&&◌, not, leb}
use raydium_amm_fair.Error.{take_pnl_error}
use raydium_amm_fair.Outcome.{ok, unwrap, after_bind, fail_if-eq-ok, ok-inj}
use raydium_amm_fair.Word.{checked_sub}
use raydium_amm_fair.State.Accounts.{AmmInfo, Pubkey}
use raydium_amm_fair.Chain.{
  AccountData, AccountInfo, TokenAccount, Bank, Runtime, IsTransfer, balance, load_amm, write,
}
use raydium_amm_fair.Dex.Types.{Market}
use raydium_amm_fair.Math.Decimal.{normalize_decimal_v2}
use raydium_amm_fair.Processor.Pnl.{Pnl, calc_take_pnl}
use raydium_amm_fair.Processor.Pnl.Totals.{IsPnl, calc_take_pnl-conserves}
use raydium_amm_fair.Processor.Swap.Settled.{keys_apart, balance-write, write-same}
use raydium_amm_fair.Processor.Swap.Facts.{load_amm-content}
use raydium_amm_fair.Processor.WithdrawPnl.{
  PnlTokens, check_withdrawpnl, pnl_tokens, pnl_totals, pay_pnl, process_withdrawpnl,
}
use raydium_amm_fair.Processor.WithdrawPnl.Accounts.{WithdrawPnlAccounts, withdrawpnl_accounts}
use raydium_amm_fair.Processor.WithdrawPnl.Facts.{
  IsSignedByOwner, IsPnlChecked, check_withdrawpnl-IsPnlChecked, IsPnlTokens,
  pnl_tokens-IsPnlTokens,
}

-- Four different accounts that the profit moves between. The handler does not check that they are.
pub record IsPlainPnl (rt : Runtime) (accounts : List AccountInfo) (bank : Bank)
    (a : WithdrawPnlAccounts) (amm : AmmInfo) : Type 0 where
  pub parsed : withdrawpnl_accounts accounts bank ≡ ok a
  pub loaded : load_amm rt a.amm.key bank ≡ ok amm
  pub vaults : amm.coin_vault ≢ amm.pc_vault
  pub coin_coin : a.user_pnl_coin.key ≢ amm.coin_vault
  pub coin_pc : a.user_pnl_coin.key ≢ amm.pc_vault
  pub pc_coin : a.user_pnl_pc.key ≢ amm.coin_vault
  pub pc_pc : a.user_pnl_pc.key ≢ amm.pc_vault
  pub users : a.user_pnl_coin.key ≢ a.user_pnl_pc.key

-- An account that holds tokens is neither of the two records that are written.
record IsOutside (a : WithdrawPnlAccounts) (k : Pubkey) : Type 0 where
  amm : k ≢ a.amm.key
  target : k ≢ a.amm_target_orders.key

record PnlKeys (a : WithdrawPnlAccounts) (coin pc : Pubkey) : Type 0 where
  coin_key : a.amm_coin_vault.key ≡ coin
  pc_key : a.amm_pc_vault.key ≡ pc
  vaults : coin ≢ pc
  coin_coin : a.user_pnl_coin.key ≢ coin
  coin_pc : a.user_pnl_coin.key ≢ pc
  pc_coin : a.user_pnl_pc.key ≢ coin
  pc_pc : a.user_pnl_pc.key ≢ pc
  users : a.user_pnl_coin.key ≢ a.user_pnl_pc.key
  coin_out : IsOutside a coin
  pc_out : IsOutside a pc
  user_coin_out : IsOutside a a.user_pnl_coin.key
  user_pc_out : IsOutside a a.user_pnl_pc.key

-- An amount has moved from one account to another.
pub record IsMoved (bank bank' : Bank) (from to : Pubkey) (n : ℕ) : Type 0 where
  pub out_of : balance bank' from + n ≡ balance bank from
  pub into : balance bank' to ≡ balance bank to + n

record IsPaidOut (a : WithdrawPnlAccounts) (amm : AmmInfo) (bank bank' : Bank) : Type 0 where
  coin : IsMoved bank bank' amm.coin_vault a.user_pnl_coin.key amm.state_data.need_take_pnl_coin
  pc : IsMoved bank bank' amm.pc_vault a.user_pnl_pc.key amm.state_data.need_take_pnl_pc
  recorded :
      (amm' : AmmInfo) × ((bank' a.amm.key).content ≡ AccountData.amm_data amm')
      × (amm'.state_data.need_take_pnl_coin ≡ 0)
      × (amm'.state_data.need_take_pnl_pc ≡ 0)
      × (amm'.lp_amount ≡ amm.lp_amount)

pay_pnl-IsPaidOut :
    (rt : Runtime) (a : WithdrawPnlAccounts) (t : PnlTokens) (p : Pnl) (x1 y1 : ℕ) (bank : Bank)
    {bank' : Bank}
    → IsTransfer rt
    → PnlKeys a p.amm.coin_vault p.amm.pc_vault
    → pay_pnl rt a t p x1 y1 bank ≡ ok bank'
    → IsPaidOut a p.amm bank bank'
unfolding pay_pnl
pay_pnl-IsPaidOut rt a t p x1 y1 bank {bank'} law ks h =
    let owed = p.amm.state_data in
    let c = owed.need_take_pnl_coin in
    let v = owed.need_take_pnl_pc in
    let cv = p.amm.coin_vault in
    let pv = p.amm.pc_vault in
    let uc = a.user_pnl_coin.key in
    let up = a.user_pnl_pc.key in
    let o = a.amm_authority.key in
    let (_, h0) =
      fail_if-eq-ok (not (leb c t.coin_vault.amount && leb v t.pc_vault.amount)) take_pnl_error _
        h in
    after_bind (rt.transfer a.amm_coin_vault.key uc o c bank) h0 λ b1 e1 h1.
      after_bind (rt.transfer a.amm_pc_vault.key up o v b1) h1 λ b2 e2 h2.
        after_bind (unwrap (checked_sub x1 p.delta_x)) h2 λ x _ h3.
          after_bind (unwrap (checked_sub y1 p.delta_y)) h3 λ y _ h4.
            after_bind rt.clock h4 λ clock _ h5.
              let e1' : rt.transfer cv uc o c bank ≡ ok b1 = rw ks.coin_key at e1 in
              let e2' : rt.transfer pv up o v b1 ≡ ok b2 = rw ks.pc_key at e2 in
              let target' =
                AccountData.target_data (record t.target { calc_pnl_x = x; calc_pnl_y = y }) in
              let amm' : AmmInfo = record p.amm {
                state_data = record owed { need_take_pnl_coin = 0; need_take_pnl_pc = 0 };
                recent_epoch = clock.epoch;
              } in
              let b3 = write a.amm_target_orders.key target' b2 in
              let written = ok-inj h5 in
              let last : (k : Pubkey) → IsOutside a k → balance bank' k ≡ balance b2 k = λ k out.
                rw (← written) (
                  balance-write k a.amm.key (AccountData.amm_data amm') b3 out.amm
                  ∙ balance-write k a.amm_target_orders.key target' b2 out.target) in
              let coin_out = law.debit cv uc o c bank b1 (λ e. ks.coin_coin (sym e)) e1' in
              let coin_in = law.credit cv uc o c bank b1 (λ e. ks.coin_coin (sym e)) e1' in
              let pc_out = law.debit pv up o v b1 b2 (λ e. ks.pc_pc (sym e)) e2' in
              let pc_in = law.credit pv up o v b1 b2 (λ e. ks.pc_pc (sym e)) e2' in
              let cv_kept = law.frame pv up o cv v b1 b2 ks.vaults (λ e. ks.pc_coin (sym e)) e2' in
              let uc_kept = law.frame pv up o uc v b1 b2 ks.coin_pc ks.users e2' in
              let pv_kept =
                law.frame cv uc o pv c bank b1 (λ e. ks.vaults (sym e)) (λ e. ks.coin_pc (sym e))
                  e1' in
              let up_kept = law.frame cv uc o up c bank b1 ks.pc_coin (λ e. ks.users (sym e)) e1' in
              record {
                coin = record {
                  out_of = rw (last cv ks.coin_out, cv_kept) coin_out;
                  into = rw (last uc ks.user_coin_out, uc_kept) coin_in;
                };
                pc = record {
                  out_of =
                      let kept : balance b2 pv + v ≡ balance bank pv = rw pv_kept at pc_out in
                      rw (last pv ks.pc_out) kept;
                  into =
                      let kept : balance b2 up ≡ balance bank up + v = rw up_kept at pc_in in
                      rw (last up ks.user_pc_out) kept;
                };
                recorded = (
                  amm',
                  rw (← written) (write-same a.amm.key (AccountData.amm_data amm') b3),
                  refl,
                  refl,
                  refl,
                );
              }

-- What a withdrawal of the profit leaves: the owed profit and what this call adds to it have moved to
-- the owner's accounts.
pub record IsPaid (rt : Runtime) (a : WithdrawPnlAccounts) (amm : AmmInfo) (bank bank' : Bank)
    (amm' : AmmInfo) : Type 0 where
  pub recorded : (bank' a.amm.key).content ≡ AccountData.amm_data amm'
  pub owed_coin : amm'.state_data.need_take_pnl_coin ≡ 0
  pub owed_pc : amm'.state_data.need_take_pnl_pc ≡ 0
  pub lp_amount : amm'.lp_amount ≡ amm.lp_amount
  pub coin :
      (n : ℕ) × (amm.state_data.need_take_pnl_coin ≤ n)
      × IsMoved bank bank' amm.coin_vault a.user_pnl_coin.key n
  pub pc :
      (n : ℕ) × (amm.state_data.need_take_pnl_pc ≤ n)
      × IsMoved bank bank' amm.pc_vault a.user_pnl_pc.key n
  pub owner : IsSignedByOwner rt a bank

pnl_keys :
    (rt : Runtime) (accounts : List AccountInfo) (bank : Bank) (a : WithdrawPnlAccounts)
    (amm : AmmInfo) {t : PnlTokens}
    → IsPlainPnl rt accounts bank a amm
    → IsPnlChecked rt a amm bank
    → IsPnlTokens a bank t
    → PnlKeys a amm.coin_vault amm.pc_vault
pnl_keys rt accounts bank a amm {t} plain checked tokens =
    let pool = load_amm-content rt a.amm.key bank plain.loaded in
    let outside : (k : Pubkey) (x : TokenAccount)
        → (bank k).content ≡ AccountData.token_data x
        → IsOutside a k =
      λ k x e. record {
        amm = keys_apart bank k a.amm.key e pool (λ x. cc);
        target = keys_apart bank k a.amm_target_orders.key e tokens.target (λ x. cc);
      } in
    let coin : (bank amm.coin_vault).content ≡ AccountData.token_data t.coin_vault =
      rw (← checked.coin_key) tokens.coin in
    let pc : (bank amm.pc_vault).content ≡ AccountData.token_data t.pc_vault =
      rw (← checked.pc_key) tokens.pc in
    record {
      coin_key = checked.coin_key;
      pc_key = checked.pc_key;
      vaults = plain.vaults;
      coin_coin = plain.coin_coin;
      coin_pc = plain.coin_pc;
      pc_coin = plain.pc_coin;
      pc_pc = plain.pc_pc;
      users = plain.users;
      coin_out = outside amm.coin_vault t.coin_vault coin;
      pc_out = outside amm.pc_vault t.pc_vault pc;
      user_coin_out = outside a.user_pnl_coin.key t.user_coin tokens.user_coin;
      user_pc_out = outside a.user_pnl_pc.key t.user_pc tokens.user_pc;
    }

payment_lem :
    (rt : Runtime) (a : WithdrawPnlAccounts) (amm : AmmInfo) (p : Pnl) (tp tc : ℕ)
    (bank bank' : Bank)
    → IsPnl amm tp tc p
    → IsSignedByOwner rt a bank
    → IsPaidOut a p.amm bank bank'
    → (amm' : AmmInfo) × IsPaid rt a amm bank bank' amm'
payment_lem rt a amm p tp tc bank bank' pnl owner done =
    let (amm', content, none_coin, none_pc, lp) = done.recorded in
    let cv = ap (λ x. x.coin_vault) pnl.rest in
    let pv = ap (λ x. x.pc_vault) pnl.rest in
    (
      amm',
      record {
        recorded = content;
        owed_coin = none_coin;
        owed_pc = none_pc;
        lp_amount = lp ∙ ap (λ x. x.lp_amount) pnl.rest;
        coin = (p.amm.state_data.need_take_pnl_coin, pnl.owed_coin, rw cv at done.coin);
        pc = (p.amm.state_data.need_take_pnl_pc, pnl.owed_pc, rw pv at done.pc);
        owner = owner;
      },
    )

-- Where the two vaults and the two accounts that receive are four different ones, which the code
-- does not check, a withdrawal of the profit that succeeds, with or without the order book, is
-- signed by the program's owner or by the owner of the profit in the program's own configuration. In
-- each token it moves at least the profit that was owed from the pool's vault to the account of the
-- call, and the pool owes nothing afterwards; the number of shares stays.
pub process_withdrawpnl-IsPaid :
    (integer_sqrt : ℕ → ℕ) (rt : Runtime) (mk : Market) (accounts : List AccountInfo) (bank : Bank)
    (a : WithdrawPnlAccounts) (amm : AmmInfo) {bank' : Bank}
    → IsTransfer rt
    → IsPlainPnl rt accounts bank a amm
    → process_withdrawpnl integer_sqrt rt mk accounts bank ≡ ok bank'
    → (amm' : AmmInfo) × IsPaid rt a amm bank bank' amm'
unfolding process_withdrawpnl
process_withdrawpnl-IsPaid integer_sqrt rt mk accounts bank a amm {bank'} law plain h =
    let h0 = rw plain.parsed at h in
    let h1 = rw plain.loaded at h0 in
    after_bind (check_withdrawpnl rt a amm bank) h1 λ b e2 h2.
      after_bind (pnl_tokens rt a amm bank) h2 λ t e3 h3.
        after_bind (pnl_totals mk b a amm t bank) h3 λ totals _ h4.
          after_bind (normalize_decimal_v2 totals.0 amm.pc_decimals amm.sys_decimal_value) h4
            λ x1 _ h5.
              after_bind (normalize_decimal_v2 totals.1 amm.coin_decimals amm.sys_decimal_value) h5
                λ y1 _ h6.
                  after_bind (calc_take_pnl integer_sqrt t.target amm totals.0 totals.1 x1 y1) h6
                    λ p e7 h7.
                      let checked = check_withdrawpnl-IsPnlChecked rt a amm bank e2 in
                      let tokens = pnl_tokens-IsPnlTokens rt a amm bank e3 in
                      let taken =
                        calc_take_pnl-conserves integer_sqrt t.target amm totals.0 totals.1 x1 y1
                          e7 in
                      let pnl = taken.0 in
                      let keys = pnl_keys rt accounts bank a amm plain checked tokens in
                      let keys' : PnlKeys a p.amm.coin_vault p.amm.pc_vault =
                        rw (ap (λ x. x.coin_vault) pnl.rest, ap (λ x. x.pc_vault) pnl.rest) keys in
                      let done = pay_pnl-IsPaidOut rt a t p x1 y1 bank law keys' h7 in
                      payment_lem rt a amm p totals.0 totals.1 bank bank' pnl checked.owner done
