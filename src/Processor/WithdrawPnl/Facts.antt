-- ===== src/Processor/WithdrawPnl/Facts.antt =====
-- What the checks of `process_withdrawpnl` (program/src/processor.rs) establish.
use raydium_amm_fair.Common.{
  ℕ, ◌%◌, ◌≡◌, ◌⊎◌, Bool, true, ◌&&◌, ◌||◌, not, ◌==◌, ◌!=◌, arith, inl, inr, ℕ_discrete,
}
use raydium_amm_fair.Error.{
  invalid_program_address, invalid_owner, invalid_config_account, invalid_sign_account,
  invalid_status, invalid_market, invalid_coin_vault, invalid_pc_vault, invalid_coin_mint,
  invalid_pc_mint,
}
use raydium_amm_fair.Outcome.{ok, after_bind, fail_if-ok, fail_if-eq-ok, ok-inj}
use raydium_amm_fair.Config.{amm_owner_id}
use raydium_amm_fair.State.Status.{status_from_u64, status_into_u64, uninitialized}
use raydium_amm_fair.State.Accounts.{AmmInfo, AmmConfig}
use raydium_amm_fair.Chain.{
  AccountData, Bank, Runtime, authority_id, load_config, load_target, unpack_token_account,
}
use raydium_amm_fair.Processor.Swap.Facts.{unpack-content}
use raydium_amm_fair.Processor.Deposit.Value.{load_target-content}
use raydium_amm_fair.Processor.WithdrawPnl.{
  PnlTokens, check_pnl_owner, check_pnl_keys, check_withdrawpnl, pnl_tokens,
}
use raydium_amm_fair.Processor.WithdrawPnl.Accounts.{WithdrawPnlAccounts}

-- The signature of the program's owner, or of the owner of the profit that the program's own
-- configuration names.
pub record IsSignedByOwner (rt : Runtime) (a : WithdrawPnlAccounts) (bank : Bank) : Type 0 where
  pub signed : a.pnl_owner.is_signer ≡ true
  pub config_key : a.amm_config.key ≡ rt.config_address
  pub signer :
      (a.pnl_owner.key ≡ amm_owner_id)
      ⊎ ((config : AmmConfig) × ((bank a.amm_config.key).content ≡ AccountData.config_data config)
          × (a.pnl_owner.key ≡ config.pnl_owner))

pub load_config-content :
    (rt : Runtime) (k : ℕ) (bank : Bank) {c : AmmConfig}
    → load_config rt k bank ≡ ok c
    → (bank k).content ≡ AccountData.config_data c
unfolding load_config
load_config-content rt k bank h = ground arith

check_pnl_owner-IsSigned :
    (rt : Runtime) (a : WithdrawPnlAccounts) (bank : Bank)
    → check_pnl_owner rt a bank ≡ ok tt
    → IsSignedByOwner rt a bank
unfolding check_pnl_owner
check_pnl_owner-IsSigned rt a bank h =
    let (address, h1) =
      fail_if-eq-ok
        (rt.config_address != a.amm_config.key || (bank a.amm_config.key).owner != rt.program_id)
        invalid_config_account _ h in
    after_bind (load_config rt a.amm_config.key bank) h1 λ config e2 h2.
      let refused =
        fail_if-ok
          (not a.pnl_owner.is_signer
            || (a.pnl_owner.key != amm_owner_id && a.pnl_owner.key != config.pnl_owner))
          invalid_sign_account h2 in
      record {
        signed = ground arith;
        config_key = ground arith;
        signer = elim (ℕ_discrete a.pnl_owner.key amm_owner_id) [
          | yes same ↦ inl same
          | no other ↦ inr (config, load_config-content rt a.amm_config.key bank e2, ground arith)
        ];
      }

pub record IsPnlChecked (rt : Runtime) (a : WithdrawPnlAccounts) (amm : AmmInfo) (bank : Bank)
    : Type 0 where
  pub coin_key : a.amm_coin_vault.key ≡ amm.coin_vault
  pub pc_key : a.amm_pc_vault.key ≡ amm.pc_vault
  pub owner : IsSignedByOwner rt a bank

check_pnl_keys-vaults :
    (rt : Runtime) (a : WithdrawPnlAccounts) (amm : AmmInfo)
    → check_pnl_keys rt a amm ≡ ok tt
    → (a.amm_coin_vault.key ≡ amm.coin_vault) × (a.amm_pc_vault.key ≡ amm.pc_vault)
unfolding check_pnl_keys
check_pnl_keys-vaults rt a amm h =
    let (_, h1) = fail_if-eq-ok (amm.status == status_into_u64 uninitialized) invalid_status _ h in
    let (_, h2) = fail_if-eq-ok (a.market.key != amm.market) invalid_market _ h1 in
    let (coin, h3) =
      fail_if-eq-ok (a.amm_coin_vault.key != amm.coin_vault) invalid_coin_vault _ h2 in
    let (pc, _) = fail_if-eq-ok (a.amm_pc_vault.key != amm.pc_vault) invalid_pc_vault _ h3 in
    (ground arith, ground arith)

pub check_withdrawpnl-IsPnlChecked :
    (rt : Runtime) (a : WithdrawPnlAccounts) (amm : AmmInfo) (bank : Bank) {b : Bool}
    → check_withdrawpnl rt a amm bank ≡ ok b
    → IsPnlChecked rt a amm bank
unfolding check_withdrawpnl
check_withdrawpnl-IsPnlChecked rt a amm bank h =
    after_bind (authority_id rt (amm.nonce % 256)) h λ authority _ h1.
      let (_, h2) = fail_if-eq-ok (a.amm_authority.key != authority) invalid_program_address _ h1 in
      let (_, h3) = fail_if-eq-ok ((bank a.amm.key).owner != rt.program_id) invalid_owner _ h2 in
      after_bind (status_from_u64 amm.status) h3 λ _ _ h4.
        after_bind (check_pnl_owner rt a bank) h4 λ _ e5 h5.
          after_bind (check_pnl_keys rt a amm) h5 λ _ e6 h6.
            let (coin, pc) = check_pnl_keys-vaults rt a amm e6 in
            record { coin_key = coin; pc_key = pc; owner = check_pnl_owner-IsSigned rt a bank e5 }

-- The contents behind the token accounts and the target orders.
pub record IsPnlTokens (a : WithdrawPnlAccounts) (bank : Bank) (t : PnlTokens) : Type 0 where
  pub coin : (bank a.amm_coin_vault.key).content ≡ AccountData.token_data t.coin_vault
  pub pc : (bank a.amm_pc_vault.key).content ≡ AccountData.token_data t.pc_vault
  pub user_coin : (bank a.user_pnl_coin.key).content ≡ AccountData.token_data t.user_coin
  pub user_pc : (bank a.user_pnl_pc.key).content ≡ AccountData.token_data t.user_pc
  pub target : (bank a.amm_target_orders.key).content ≡ AccountData.target_data t.target

pub pnl_tokens-IsPnlTokens :
    (rt : Runtime) (a : WithdrawPnlAccounts) (amm : AmmInfo) (bank : Bank) {t : PnlTokens}
    → pnl_tokens rt a amm bank ≡ ok t
    → IsPnlTokens a bank t
unfolding pnl_tokens
pnl_tokens-IsPnlTokens rt a amm bank h =
    after_bind (unpack_token_account rt a.amm_coin_vault.key bank) h λ c e1 h1.
      after_bind (unpack_token_account rt a.amm_pc_vault.key bank) h1 λ p e2 h2.
        after_bind (unpack_token_account rt a.user_pnl_coin.key bank) h2 λ uc e3 h3.
          after_bind (unpack_token_account rt a.user_pnl_pc.key bank) h3 λ up e4 h4.
            after_bind (load_target rt a.amm_target_orders.key a.amm.key bank) h4 λ target e5 h5.
              let (_, h6) =
                fail_if-eq-ok (c.mint != amm.coin_vault_mint || uc.mint != amm.coin_vault_mint)
                  invalid_coin_mint _ h5 in
              let (_, h7) =
                fail_if-eq-ok (p.mint != amm.pc_vault_mint || up.mint != amm.pc_vault_mint)
                  invalid_pc_mint _ h6 in
              let facts : IsPnlTokens a bank (record {
                coin_vault = c;
                pc_vault = p;
                user_coin = uc;
                user_pc = up;
                target = target;
              }) =
                record {
                  coin = unpack-content rt a.amm_coin_vault.key bank e1;
                  pc = unpack-content rt a.amm_pc_vault.key bank e2;
                  user_coin = unpack-content rt a.user_pnl_coin.key bank e3;
                  user_pc = unpack-content rt a.user_pnl_pc.key bank e4;
                  target = load_target-content rt a.amm_target_orders.key a.amm.key bank e5;
                } in
              rw (ok-inj h7) at facts
