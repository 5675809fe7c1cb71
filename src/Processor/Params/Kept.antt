-- ===== src/Processor/Params/Kept.antt =====
-- What `process_set_params` (program/src/processor.rs) leaves.
use raydium_amm_fair.Common.{◌%◌, ◌≡◌, refl, true, Option, none, some, List, ◌||◌, not, ◌!=◌, arith}
use raydium_amm_fair.Error.{
  invalid_spl_token_program, invalid_program_address, invalid_owner, invalid_sign_account,
}
use raydium_amm_fair.Outcome.{ok, after_bind, fail_if-eq-ok, ok-inj}
use raydium_amm_fair.Config.{amm_owner_id}
use raydium_amm_fair.State.Status.{
  params_from_u64, state_into_u64, cancel_all_orders_state, reset_flag_into_u64, reset_yes,
}
use raydium_amm_fair.State.Accounts.{AmmInfo}
use raydium_amm_fair.Chain.{AccountInfo, AccountData, Bank, Runtime, authority_id, load_amm}
use raydium_amm_fair.Dex.Types.{Market}
use raydium_amm_fair.Instruction.Types.{SetParamsInstruction}
use raydium_amm_fair.Processor.Cancel.{do_cancel_amm_orders}
use raydium_amm_fair.Processor.Swap.Settled.{write-same}
use raydium_amm_fair.Processor.Params.{check_set_params, set_param, finish_set, process_set_params}
use raydium_amm_fair.Processor.Params.Accounts.{
  ParamsAccounts, params_accounts, params_cancel_accounts, params_settle_accounts,
}
use raydium_amm_fair.Processor.Params.Configured.{IsConfigured, IsSameFunds, Keeps, set_param-Keeps}

-- What a parameter that is set leaves.
pub record IsParamSet (a : ParamsAccounts) (amm : AmmInfo) (bank' : Bank) (amm' : AmmInfo)
    : Type 0 where
  pub recorded : (bank' a.amm.key).content ≡ AccountData.amm_data amm'
  pub configured : IsConfigured amm'
  pub same_funds : IsSameFunds amm amm'
  pub state : amm'.state ≡ state_into_u64 cancel_all_orders_state
  pub reset_flag : amm'.reset_flag ≡ reset_flag_into_u64 reset_yes
  pub signed : a.amm_owner.is_signer ≡ true
  pub signer : a.amm_owner.key ≡ amm_owner_id

finish_set-IsParamSet :
    (rt : Runtime) (a : ParamsAccounts) (amm : AmmInfo) (set : Option AmmInfo) (bank : Bank)
    {bank' : Bank}
    → ((amm1 : AmmInfo) → set ≡ some amm1 → Keeps amm amm1)
    → a.amm_owner.is_signer ≡ true
    → a.amm_owner.key ≡ amm_owner_id
    → finish_set rt a set bank ≡ ok bank'
    → (amm' : AmmInfo) × IsParamSet a amm bank' amm'
unfolding finish_set
finish_set-IsParamSet rt a amm none bank kept signed signer h = absurd (cc h)
finish_set-IsParamSet rt a amm (some amm1) bank kept signed signer h =
    after_bind rt.clock h λ clock _ h1.
      let (c, f) = kept amm1 refl in
      let amm' : AmmInfo = record amm1 {
        state = state_into_u64 cancel_all_orders_state;
        reset_flag = reset_flag_into_u64 reset_yes;
        recent_epoch = clock.epoch;
      } in
      (
        amm',
        record {
          recorded = rw (← ok-inj h1) (write-same a.amm.key (AccountData.amm_data amm') bank);
          configured = ground arith;
          same_funds = ground arith;
          state = refl;
          reset_flag = refl;
          signed = signed;
          signer = signer;
        },
      )

signed_by_owner :
    (rt : Runtime) (a : ParamsAccounts) (amm : AmmInfo) (bank : Bank)
    → check_set_params rt a amm bank ≡ ok tt
    → (a.amm_owner.is_signer ≡ true) × (a.amm_owner.key ≡ amm_owner_id)
unfolding check_set_params
signed_by_owner rt a amm bank h = after_bind (authority_id rt (amm.nonce % 256)) h λ authority _ h1.
    let (_, h2) = fail_if-eq-ok (a.amm_authority.key != authority) invalid_program_address _ h1 in
    let (_, h3) = fail_if-eq-ok ((bank a.amm.key).owner != rt.program_id) invalid_owner _ h2 in
    let (owner, _) =
      fail_if-eq-ok (not a.amm_owner.is_signer || a.amm_owner.key != amm_owner_id)
        invalid_sign_account _ h3 in
    ground arith

-- A parameter is set only under the signature of the program's owner. A configuration within its
-- ranges stays so: the status, the number and the depth of orders, the cut of their volume, the price
-- multipliers, and the fees, where the numerator of the least distance of an order is below its
-- denominator or at most ten thousand. The pool's record keeps the keys of its vaults and mints, its number of shares and
-- its owed profit, and it stands in the state, with the flag, in which the next monitor step cancels
-- all orders.
pub process_set_params-IsParamSet :
    (rt : Runtime) (mk : Market) (accounts : List AccountInfo) (setparams : SetParamsInstruction)
    (bank : Bank) (a : ParamsAccounts) (amm : AmmInfo) {bank' : Bank}
    → params_accounts accounts ≡ ok a
    → load_amm rt a.amm.key bank ≡ ok amm
    → IsConfigured amm
    → process_set_params rt mk accounts setparams bank ≡ ok bank'
    → (amm' : AmmInfo) × IsParamSet a amm bank' amm'
unfolding process_set_params
process_set_params-IsParamSet rt mk accounts setparams bank a amm parsed loaded c h =
    let h0 = rw parsed at h in
    let (_, h1) =
      fail_if-eq-ok (a.token_program.key != rt.spl_token_id) invalid_spl_token_program _ h0 in
    let h2 = rw loaded at h1 in
    after_bind (check_set_params rt a amm bank) h2 λ _ e3 h3.
      after_bind (do_cancel_amm_orders mk (params_cancel_accounts a) amm bank) h3 λ cancelled _ h4.
        after_bind (mk.settle_funds (params_settle_accounts a) cancelled) h4 λ settled _ h5.
          after_bind (params_from_u64 setparams.param) h5 λ param _ h6.
            after_bind (set_param rt mk a param setparams amm settled) h6 λ (set, b) e7 h7.
              let (signed, signer) = signed_by_owner rt a amm bank e3 in
              finish_set-IsParamSet rt a amm set b
                (λ amm1 e. set_param-Keeps rt mk a param setparams amm settled c (rw e at e7))
                signed signer h7
