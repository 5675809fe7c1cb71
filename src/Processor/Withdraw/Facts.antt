-- ===== src/Processor/Withdraw/Facts.antt =====
-- What a withdrawal checks and reads.
use raydium_amm_fair.Common.{
  ℕ, ◌+◌, ◌%◌, ◌<◌, ◌≡◌, ◌≢◌, sym, Bool, true, false, List, arith, ltb, leb, ◌==◌, ◌!=◌, ◌||◌, not,
  Bool-cases, inl, inr,
}
use raydium_amm_fair.Error.{
  invalid_status, invalid_program_address, invalid_spl_token_program, invalid_coin_vault,
  invalid_pc_vault, invalid_target_orders, invalid_pool_mint, invalid_token_lp, insufficient_funds,
  not_allow_zero_lp,
}
use raydium_amm_fair.Outcome.{ok, after_bind, fail_if-eq-ok, ok-inj}
use raydium_amm_fair.State.Status.{
  AmmStatus, status_from_u64, status_into_u64, orderbook_permission, withdraw_permission,
  withdraw_only,
}
use raydium_amm_fair.State.Accounts.{AmmInfo, TargetOrders}
use raydium_amm_fair.Chain.{
  AccountInfo, AccountData, Mint, Bank, Runtime, authority_id, load_amm, unpack_token_account,
  unpack_mint,
}
use raydium_amm_fair.Dex.Types.{Market}
use raydium_amm_fair.Instruction.Types.{WithdrawInstruction}
use raydium_amm_fair.Math.Totals.{calc_total_without_take_pnl_no_orderbook}
use raydium_amm_fair.Processor.Pnl.{Pnl}
use raydium_amm_fair.Processor.Pnl.Totals.{IsPnl, unchanged-IsPnl, calc_take_pnl-conserves}
use raydium_amm_fair.Processor.Swap.Facts.{unpack-content}
use raydium_amm_fair.Processor.Withdraw.{
  WithdrawTokens, check_withdraw, withdraw_tokens, withdraw_totals, withdraw_pnl,
}
use raydium_amm_fair.Processor.Withdraw.Accounts.{WithdrawAccounts, withdraw_accounts}

-- A withdrawal from a pool without order book, with two different vaults, that none of the user's
-- three accounts is.
pub record IsPlainWithdraw (rt : Runtime) (accounts : List AccountInfo) (bank : Bank)
    (a : WithdrawAccounts) (amm : AmmInfo) (status : AmmStatus) : Type 0 where
  pub parsed : withdraw_accounts accounts bank ≡ ok a
  pub loaded : load_amm rt a.amm.key bank ≡ ok amm
  pub status_code : status_from_u64 amm.status ≡ ok status
  pub no_orderbook : orderbook_permission status ≡ false
  pub vaults : amm.coin_vault ≢ amm.pc_vault
  pub coin_dest : a.user_dest_coin.key ≢ amm.pc_vault
  pub pc_dest : a.user_dest_pc.key ≢ amm.coin_vault
  pub lp_coin : a.user_source_lp.key ≢ amm.coin_vault
  pub lp_pc : a.user_source_lp.key ≢ amm.pc_vault

pub record IsChecked (a : WithdrawAccounts) (amm : AmmInfo) (status : AmmStatus) (b : Bool)
    : Type 0 where
  pub coin_key : a.amm_coin_vault.key ≡ amm.coin_vault
  pub pc_key : a.amm_pc_vault.key ≡ amm.pc_vault
  pub coin_coin : a.user_dest_coin.key ≢ amm.coin_vault
  pub pc_pc : a.user_dest_pc.key ≢ amm.pc_vault
  pub orderbook : b ≡ orderbook_permission status

pub check_withdraw-IsChecked :
    (rt : Runtime) (a : WithdrawAccounts) (amm : AmmInfo) (status : AmmStatus) {b : Bool}
    → status_from_u64 amm.status ≡ ok status
    → check_withdraw rt a amm ≡ ok b
    → IsChecked a amm status b
unfolding check_withdraw
check_withdraw-IsChecked rt a amm status e h =
    let h' = rw e at h in
    let (_, h1) = fail_if-eq-ok (not (withdraw_permission status)) invalid_status _ h' in
    after_bind (authority_id rt (amm.nonce % 256)) h1 λ authority _ h2.
      let (_, h3) = fail_if-eq-ok (a.amm_authority.key != authority) invalid_program_address _ h2 in
      let (_, h4) =
        fail_if-eq-ok (a.token_program.key != rt.spl_token_id) invalid_spl_token_program _ h3 in
      let (coin, h5) =
        fail_if-eq-ok
          (a.amm_coin_vault.key != amm.coin_vault || a.user_dest_coin.key == amm.coin_vault)
          invalid_coin_vault _ h4 in
      let (pc, h6) =
        fail_if-eq-ok (a.amm_pc_vault.key != amm.pc_vault || a.user_dest_pc.key == amm.pc_vault)
          invalid_pc_vault _ h5 in
      let (_, h7) =
        fail_if-eq-ok (a.amm_target_orders.key != amm.target_orders) invalid_target_orders _ h6 in
      let (_, h8) = fail_if-eq-ok (a.amm_lp_mint.key != amm.lp_mint) invalid_pool_mint _ h7 in
      record {
        coin_key = ground arith;
        pc_key = ground arith;
        coin_coin = ground arith;
        pc_pc = ground arith;
        orderbook = sym (ok-inj h8);
      }

-- What a withdrawal has read of the vaults and of the mint, and that some share stays.
pub record IsTokens (a : WithdrawAccounts) (withdraw : WithdrawInstruction) (amm : AmmInfo)
    (bank : Bank) (t : WithdrawTokens) : Type 0 where
  pub coin : (bank a.amm_coin_vault.key).content ≡ AccountData.token_data t.coin_vault
  pub pc : (bank a.amm_pc_vault.key).content ≡ AccountData.token_data t.pc_vault
  pub mint : (m : Mint) × ((bank a.amm_lp_mint.key).content ≡ AccountData.mint_data m)
  pub some_left : withdraw.amount < amm.lp_amount

pub unpack_mint-content :
    (rt : Runtime) (k : ℕ) (bank : Bank) {m : Mint}
    → unpack_mint rt k bank ≡ ok m
    → (bank k).content ≡ AccountData.mint_data m
unfolding unpack_mint
unpack_mint-content rt k bank h = ground arith

pub withdraw_tokens-IsTokens :
    (rt : Runtime) (a : WithdrawAccounts) (withdraw : WithdrawInstruction) (amm : AmmInfo)
    (bank : Bank) {t : WithdrawTokens}
    → withdraw_tokens rt a withdraw amm bank ≡ ok t
    → IsTokens a withdraw amm bank t
unfolding withdraw_tokens
withdraw_tokens-IsTokens rt a withdraw amm bank h =
    after_bind (unpack_token_account rt a.amm_coin_vault.key bank) h λ coin_vault e1 h1.
      after_bind (unpack_token_account rt a.amm_pc_vault.key bank) h1 λ pc_vault e2 h2.
        after_bind (unpack_token_account rt a.user_dest_coin.key bank) h2 λ dest_coin e3 h3.
          after_bind (unpack_token_account rt a.user_dest_pc.key bank) h3 λ dest_pc e4 h4.
            after_bind (unpack_mint rt a.amm_lp_mint.key bank) h4 λ lp_mint e5 h5.
              after_bind (unpack_token_account rt a.user_source_lp.key bank) h5 λ source_lp e6 h6.
                let (_, h7) =
                  fail_if-eq-ok (source_lp.mint != a.amm_lp_mint.key) invalid_token_lp _ h6 in
                let (_, h8) =
                  fail_if-eq-ok (ltb source_lp.amount withdraw.amount) insufficient_funds _ h7 in
                let (within, h9) =
                  fail_if-eq-ok
                    (ltb lp_mint.supply withdraw.amount || leb amm.lp_amount withdraw.amount)
                    not_allow_zero_lp _ h8 in
                let tokens : WithdrawTokens = record {
                  coin_vault = coin_vault;
                  pc_vault = pc_vault;
                  dest_coin = dest_coin;
                  dest_pc = dest_pc;
                } in
                let facts : IsTokens a withdraw amm bank tokens = record {
                  coin = unpack-content rt a.amm_coin_vault.key bank e1;
                  pc = unpack-content rt a.amm_pc_vault.key bank e2;
                  mint = (lp_mint, unpack_mint-content rt a.amm_lp_mint.key bank e5);
                  some_left = ground arith;
                } in
                rw (ok-inj h9) at facts

pub totals_of :
    (mk : Market) (a : WithdrawAccounts) (amm : AmmInfo) (t : WithdrawTokens) (bank : Bank)
    (b : Bool) {tp tc : ℕ} {settled : Bank}
    → b ≡ false
    → withdraw_totals mk b a amm t bank ≡ ok (tp, tc, settled)
    → (tc + amm.state_data.need_take_pnl_coin ≡ t.coin_vault.amount)
      × (tp + amm.state_data.need_take_pnl_pc ≡ t.pc_vault.amount)
      × (settled ≡ bank)
unfolding withdraw_totals calc_total_without_take_pnl_no_orderbook
totals_of mk a amm t bank true e h = cc
totals_of mk a amm t bank false e h = (ground arith, ground arith, ground arith)

pub withdraw_pnl-IsPnl :
    (integer_sqrt : ℕ → ℕ) (target : TargetOrders) (amm : AmmInfo) (tp tc x1 y1 : ℕ) {p : Pnl}
    → withdraw_pnl integer_sqrt target amm tp tc x1 y1 ≡ ok p
    → IsPnl amm tp tc p
unfolding withdraw_pnl
withdraw_pnl-IsPnl integer_sqrt target amm tp tc x1 y1 h =
    elim (Bool-cases (amm.status != status_into_u64 withdraw_only)) [
      | inl e ↦ (calc_take_pnl-conserves integer_sqrt target amm tp tc x1 y1 (rw e at h)).0
      | inr e ↦
          let same = ok-inj (rw e at h) in
          let none_taken = unchanged-IsPnl amm tp tc in rw same at none_taken
    ]
