-- ===== src/Processor/Params/Configured.antt =====
-- The ranges of a pool's configuration, and that each parameter keeps them.
use raydium_amm_fair.Common.{
  ℕ, ◌≤◌, ◌<◌, ◌≡◌, refl, ap, some, arith, false, ◌⊎◌, inl, inr, Bool-cases, leb, none,
}
use raydium_amm_fair.Error.{invalid_input}
use raydium_amm_fair.Outcome.{ok, ok_or, after_bind, ok-inj}
use raydium_amm_fair.State.Fees.{validate, IsFraction-of}
use raydium_amm_fair.State.Status.{AmmParams, valid_status}
use raydium_amm_fair.State.Accounts.{AmmInfo}
use raydium_amm_fair.Chain.{Bank, Runtime, load_target, next_account_info}
use raydium_amm_fair.Dex.Types.{Market}
use raydium_amm_fair.Instruction.Types.{SetParamsInstruction}
use raydium_amm_fair.Processor.Market.{load_serum_market_order}
use raydium_amm_fair.Processor.Params.{check_nothing_shared, set_value, set_number, set_param}
use raydium_amm_fair.Processor.Params.Accounts.{ParamsAccounts}

-- A configuration within its ranges. The numerator of the least distance of an order is below its
-- denominator, or within what `Seperate` accepts.
pub record IsConfigured (amm : AmmInfo) : Type 0 where
  pub status_from : 1 ≤ amm.status
  pub status_to : amm.status ≤ 7
  pub orders : amm.order_num ≤ 10
  pub depth_from : 0 < amm.depth
  pub depth_to : amm.depth < 100
  pub cut : amm.vol_max_cut_ratio ≤ 10000
  pub prices : amm.min_price_multiplier < amm.max_price_multiplier
  pub trade : amm.fees.trade_fee_numerator < amm.fees.trade_fee_denominator
  pub pnl : amm.fees.pnl_numerator < amm.fees.pnl_denominator
  pub swap : amm.fees.swap_fee_numerator < amm.fees.swap_fee_denominator
  pub separate_denominator : 0 < amm.fees.min_separate_denominator
  pub separate :
      (amm.fees.min_separate_numerator < amm.fees.min_separate_denominator)
      ⊎ (amm.fees.min_separate_numerator ≤ 10000)

-- What belongs to the users, as the record has it: the keys of the vaults and of the mints, the number
-- of shares and the owed profit.
pub record IsSameFunds (amm amm' : AmmInfo) : Type 0 where
  pub coin_vault : amm'.coin_vault ≡ amm.coin_vault
  pub pc_vault : amm'.pc_vault ≡ amm.pc_vault
  pub coin_vault_mint : amm'.coin_vault_mint ≡ amm.coin_vault_mint
  pub pc_vault_mint : amm'.pc_vault_mint ≡ amm.pc_vault_mint
  pub lp_mint : amm'.lp_mint ≡ amm.lp_mint
  pub lp_amount : amm'.lp_amount ≡ amm.lp_amount
  pub owed_coin : amm'.state_data.need_take_pnl_coin ≡ amm.state_data.need_take_pnl_coin
  pub owed_pc : amm'.state_data.need_take_pnl_pc ≡ amm.state_data.need_take_pnl_pc

pub same_funds : (amm : AmmInfo) → IsSameFunds amm amm
same_funds amm = record {
  coin_vault = refl;
  pc_vault = refl;
  coin_vault_mint = refl;
  pc_vault_mint = refl;
  lp_mint = refl;
  lp_amount = refl;
  owed_coin = refl;
  owed_pc = refl;
}

abbrev pub Keeps : AmmInfo → AmmInfo → Type 0
Keeps amm amm' = IsConfigured amm' × IsSameFunds amm amm'

set_value-Keeps :
    (param : AmmParams) (value : ℕ) (amm : AmmInfo) {amm' : AmmInfo}
    → IsConfigured amm
    → set_value param value amm ≡ ok (some amm')
    → Keeps amm amm'
unfolding set_value valid_status
set_value-Keeps AmmParams.status value amm c h = ground arith
set_value-Keeps AmmParams.seperate value amm c h = elim (Bool-cases (leb value 10000)) [
  | inl e ↦
      let le : value ≤ 10000 = ground arith in
      let same = ap (λ o. elim o [ none ↦ amm | some set ↦ set ]) (ok-inj (rw e at h)) in
      (
        rw (← same) (record {
          status_from = c.status_from;
          status_to = c.status_to;
          orders = c.orders;
          depth_from = c.depth_from;
          depth_to = c.depth_to;
          cut = c.cut;
          prices = c.prices;
          trade = c.trade;
          pnl = c.pnl;
          swap = c.swap;
          separate_denominator = c.separate_denominator;
          separate = inr le;
        }),
        rw (← same) (ground arith),
      )
  | inr e ↦ absurd (cc (rw e at h))
]
set_value-Keeps param value amm c h = ground arith

set_number-Keeps :
    (param : AmmParams) (setparams : SetParamsInstruction) (amm : AmmInfo) (bank : Bank)
    {amm' : AmmInfo} {bank' : Bank}
    → IsConfigured amm
    → set_number param setparams amm bank ≡ ok (some amm', bank')
    → Keeps amm amm'
unfolding set_number
set_number-Keeps param setparams amm bank c h =
    after_bind (ok_or setparams.value invalid_input) h λ value _ h1.
      after_bind (set_value param value amm) h1 λ set e2 h2.
        let same = ap (λ r. r.0) (ok-inj h2) in set_value-Keeps param value amm c (rw same at e2)

pub set_param-Keeps :
    (rt : Runtime) (mk : Market) (a : ParamsAccounts) (param : AmmParams)
    (setparams : SetParamsInstruction) (amm : AmmInfo) (bank : Bank) {amm' : AmmInfo} {bank' : Bank}
    → IsConfigured amm
    → set_param rt mk a param setparams amm bank ≡ ok (some amm', bank')
    → Keeps amm amm'
unfolding set_param
set_param-Keeps rt mk a AmmParams.status setparams amm bank c h =
    after_bind (check_nothing_shared mk a amm bank) h
      λ _ _ h1. set_number-Keeps AmmParams.status setparams amm bank c h1
set_param-Keeps rt mk a AmmParams.fees setparams amm bank c h =
    after_bind (ok_or setparams.fees invalid_input) h λ fees _ h1.
      after_bind (validate fees) h1 λ _ e h2. let f = IsFraction-of fees e in ground arith
set_param-Keeps rt mk a AmmParams.amm_owner setparams amm bank c h =
    after_bind (ok_or setparams.new_pubkey invalid_input) h λ _ _ h1. ground arith
set_param-Keeps rt mk a AmmParams.last_order_distance setparams amm bank c h =
    after_bind (load_target rt a.amm_target_orders.key a.amm.key bank) h λ _ _ h1.
      after_bind (ok_or setparams.last_order_distance invalid_input) h1 λ _ _ h2. ground arith
set_param-Keeps rt mk a AmmParams.init_order_depth setparams amm bank c h = ground arith
set_param-Keeps rt mk a AmmParams.clear_open_time setparams amm bank c h = ground arith
set_param-Keeps rt mk a AmmParams.update_open_order setparams amm bank c h =
    after_bind (next_account_info a.rest) h λ (new, _) _ h1.
      after_bind
        (load_serum_market_order mk false a.market.key new.key a.amm_authority.key
          (record amm { open_orders = new.key }) bank)
        h1 λ _ _ h2. ground arith
set_param-Keeps rt mk a AmmParams.min_size setparams amm bank c h = absurd (cc h)
set_param-Keeps rt mk a AmmParams.state setparams amm bank c h =
    set_number-Keeps AmmParams.state setparams amm bank c h
set_param-Keeps rt mk a AmmParams.order_num setparams amm bank c h =
    set_number-Keeps AmmParams.order_num setparams amm bank c h
set_param-Keeps rt mk a AmmParams.depth setparams amm bank c h =
    set_number-Keeps AmmParams.depth setparams amm bank c h
set_param-Keeps rt mk a AmmParams.amount_wave setparams amm bank c h =
    set_number-Keeps AmmParams.amount_wave setparams amm bank c h
set_param-Keeps rt mk a AmmParams.min_price_multiplier setparams amm bank c h =
    set_number-Keeps AmmParams.min_price_multiplier setparams amm bank c h
set_param-Keeps rt mk a AmmParams.max_price_multiplier setparams amm bank c h =
    set_number-Keeps AmmParams.max_price_multiplier setparams amm bank c h
set_param-Keeps rt mk a AmmParams.vol_max_cut_ratio setparams amm bank c h =
    set_number-Keeps AmmParams.vol_max_cut_ratio setparams amm bank c h
set_param-Keeps rt mk a AmmParams.set_open_time setparams amm bank c h =
    set_number-Keeps AmmParams.set_open_time setparams amm bank c h
set_param-Keeps rt mk a AmmParams.set_switch_time setparams amm bank c h =
    set_number-Keeps AmmParams.set_switch_time setparams amm bank c h
set_param-Keeps rt mk a AmmParams.seperate setparams amm bank c h =
    set_number-Keeps AmmParams.seperate setparams amm bank c h
