-- ===== src/Processor/UpdateConfig.antt =====
-- `process_update_config` (program/src/processor.rs).
use raydium_amm_fair.Common.{
  ℕ, ◌≡◌, ◌≢◌, ◌⊎◌, refl, zero, suc, true, Option, none, some, List, ◌∷◌, ◌||◌, not, ◌==◌, ◌!=◌,
  arith, inl, inr,
}
use raydium_amm_fair.Error.{
  ProgramError, invalid_input, invalid_config_account, invalid_sign_account,
}
use raydium_amm_fair.Outcome.{
  Outcome, ok, err, unwrap, fail_if, after_bind, fail_if-eq-ok, ok-inj, ◌>>=◌, ◌>>◌,
}
use raydium_amm_fair.Config.{amm_owner_id}
use raydium_amm_fair.State.Accounts.{Pubkey, AmmConfig}
use raydium_amm_fair.Chain.{
  AccountInfo, AccountData, Bank, Runtime, next_account_info, load_config, write,
}
use raydium_amm_fair.Instruction.Types.{ConfigArgs}
use raydium_amm_fair.Processor.Swap.Settled.{write-same, write-other}
use raydium_amm_fair.Processor.WithdrawPnl.Facts.{load_config-content}

-- The default key is 0. Where the argument is missing, the source unwraps `None`.
unfoldable pub set_config : ℕ → Option Pubkey → Option ℕ → AmmConfig → Outcome AmmConfig
set_config zero owner fee amm_config = do
  pnl_owner ← unwrap owner
  fail_if (pnl_owner == 0) invalid_input
  ok (record amm_config { pnl_owner = pnl_owner })
set_config (suc zero) owner fee amm_config = do
  cancel_owner ← unwrap owner
  fail_if (cancel_owner == 0) invalid_input
  ok (record amm_config { cancel_owner = cancel_owner })
set_config (suc (suc zero)) owner fee amm_config = do
  create_pool_fee ← unwrap fee
  ok (record amm_config { create_pool_fee = create_pool_fee })
set_config _ owner fee amm_config = err (ProgramError.amm invalid_input)

unfoldable pub process_update_config : Runtime → List AccountInfo → ConfigArgs → Bank → Outcome Bank
unfolding next_account_info
process_update_config rt accounts config_args bank = do
  (admin_info, rest) ← next_account_info accounts
  (amm_config_info, _) ← next_account_info rest
  fail_if (not admin_info.is_signer || amm_owner_id != admin_info.key) invalid_sign_account
  fail_if
      (rt.config_address != amm_config_info.key
        || (bank amm_config_info.key).owner != rt.program_id)
      invalid_config_account
  amm_config ← load_config rt amm_config_info.key bank
  amm_config' ←
      set_config config_args.param config_args.owner config_args.create_pool_fee amm_config
  ok (write amm_config_info.key (AccountData.config_data amm_config') bank)

-- Of an old and a new configuration: a key is the one before or not the default key, and at most one
-- of the three fields is new.
pub record IsUpdate (c c' : AmmConfig) : Type 0 where
  pub pnl_owner : (c'.pnl_owner ≡ c.pnl_owner) ⊎ (c'.pnl_owner ≢ 0)
  pub cancel_owner : (c'.cancel_owner ≡ c.cancel_owner) ⊎ (c'.cancel_owner ≢ 0)
  pub one_key : (c'.pnl_owner ≡ c.pnl_owner) ⊎ (c'.cancel_owner ≡ c.cancel_owner)
  pub one_of_key_and_fee :
      (c'.create_pool_fee ≡ c.create_pool_fee)
      ⊎ ((c'.pnl_owner ≡ c.pnl_owner) × (c'.cancel_owner ≡ c.cancel_owner))

set_config-IsUpdate :
    (param : ℕ) (owner : Option Pubkey) (fee : Option ℕ) (c : AmmConfig) {c' : AmmConfig}
    → set_config param owner fee c ≡ ok c'
    → IsUpdate c c'
unfolding set_config
set_config-IsUpdate zero none fee c h = absurd (cc h)
set_config-IsUpdate zero (some owner) fee c h =
    let (given, h1) = fail_if-eq-ok (owner == 0) invalid_input _ h in
    let same = ok-inj h1 in
    let new : owner ≢ 0 = ground arith in
    let update : IsUpdate c (record c { pnl_owner = owner }) = record {
      pnl_owner = inr new;
      cancel_owner = inl refl;
      one_key = inr refl;
      one_of_key_and_fee = inl refl;
    } in
    rw same at update
set_config-IsUpdate (suc zero) none fee c h = absurd (cc h)
set_config-IsUpdate (suc zero) (some owner) fee c h =
    let (given, h1) = fail_if-eq-ok (owner == 0) invalid_input _ h in
    let same = ok-inj h1 in
    let new : owner ≢ 0 = ground arith in
    let update : IsUpdate c (record c { cancel_owner = owner }) = record {
      pnl_owner = inl refl;
      cancel_owner = inr new;
      one_key = inl refl;
      one_of_key_and_fee = inl refl;
    } in
    rw same at update
set_config-IsUpdate (suc (suc zero)) owner none c h = absurd (cc h)
set_config-IsUpdate (suc (suc zero)) owner (some fee) c h =
    let same = ok-inj h in
    let update : IsUpdate c (record c { create_pool_fee = fee }) = record {
      pnl_owner = inl refl;
      cancel_owner = inl refl;
      one_key = inl refl;
      one_of_key_and_fee = inr (refl, refl);
    } in
    rw same at update
set_config-IsUpdate (suc (suc (suc n))) owner fee c h = absurd (cc h)

-- An update of the configuration that succeeds is signed by the program's owner and changes the
-- program's own configuration account and no other account. At most one of the three fields
-- changes, and no key becomes the default key.
pub process_update_config-IsUpdate :
    (rt : Runtime) (admin_info amm_config_info : AccountInfo) (rest : List AccountInfo)
    (config_args : ConfigArgs) (bank : Bank) {bank' : Bank}
    → process_update_config rt (admin_info ∷ amm_config_info ∷ rest) config_args bank ≡ ok bank'
    → (admin_info.is_signer ≡ true)
      × (admin_info.key ≡ amm_owner_id)
      × (amm_config_info.key ≡ rt.config_address)
      × (c : AmmConfig) × (c' : AmmConfig) × ((bank rt.config_address).content
          ≡ AccountData.config_data c)
      × ((bank' rt.config_address).content ≡ AccountData.config_data c')
      × IsUpdate c c'
      × ((k : Pubkey) → k ≢ rt.config_address → bank' k ≡ bank k)
unfolding process_update_config
process_update_config-IsUpdate rt admin_info amm_config_info rest config_args bank {bank'} h =
    let (e1, h1) =
      fail_if-eq-ok (not admin_info.is_signer || amm_owner_id != admin_info.key)
        invalid_sign_account _ h in
    let key = amm_config_info.key in
    let (e2, h2) =
      fail_if-eq-ok (rt.config_address != key || (bank key).owner != rt.program_id)
        invalid_config_account _ h1 in
    let address : key ≡ rt.config_address = ground arith in
    after_bind (load_config rt key bank) h2 λ c e3 h3.
      after_bind (set_config config_args.param config_args.owner config_args.create_pool_fee c) h3
        λ c' e4 h4.
          let written = ok-inj h4 in
          let before = load_config-content rt key bank e3 in
          let now : (bank' key).content ≡ AccountData.config_data c' =
            rw (← written) (write-same key (AccountData.config_data c') bank) in
          let others : (k : Pubkey) → k ≢ key → bank' k ≡ bank k =
            λ k ne. rw (← written) (write-other k key (AccountData.config_data c') bank ne) in
          (
            ground arith,
            ground arith,
            address,
            c,
            c',
            rw address at before,
            rw address at now,
            set_config-IsUpdate config_args.param config_args.owner config_args.create_pool_fee c
                e4,
            rw address at others,
          )
