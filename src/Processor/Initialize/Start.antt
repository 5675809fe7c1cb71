-- ===== src/Processor/Initialize/Start.antt =====
-- The steps of `process_initialize2` (program/src/processor.rs) that fix the record of a new pool.
use raydium_amm_fair.State.Fees.{initial_fees}
use raydium_amm_fair.Common.{
  ℕ, ◌+◌, ◌*◌, ◌^◌, ◌≤◌, ◌<◌, ◌≡◌, ◌⊎◌, refl, ap, ltb, ◌==◌, ◌!=◌, arith, inl, inr, Bool-cases,
}
use raydium_amm_fair.Error.{
  AmmError, conversion_failure, init_lp_amount_too_less, invalid_owner, invalid_supply,
}
use raydium_amm_fair.Outcome.{ok, unwrap, ok_or, after_bind, fail_if-eq-ok, ok-inj}
use raydium_amm_fair.Word.{fits, checked_sub, checked_mul, checked_pow}
use raydium_amm_fair.State.Status.{
  status_into_u64, waiting_trade, swap_only, state_into_u64, idle_state, reset_flag_into_u64,
  reset_yes,
}
use raydium_amm_fair.State.Accounts.{Pubkey, AmmInfo, TargetOrders}
use raydium_amm_fair.State.Initialize.{initialize, sys_decimal, min_size_of}
use raydium_amm_fair.Chain.{
  AccountData, TokenAccount, Bank, Runtime, as_amm, as_target, unpack_token_account, Clock,
}
use raydium_amm_fair.Math.Decimal.{convert_in_pc_lot_size}
use raydium_amm_fair.Processor.Swap.Facts.{unpack-content}
use raydium_amm_fair.Processor.Params.Configured.{IsConfigured}
use raydium_amm_fair.Processor.Initialize.Accounts.{InitializeAccounts}
use raydium_amm_fair.Processor.Initialize.{check_vault, first_shares, fill_pool}

pub record IsStart (open_time : ℕ) (amm : AmmInfo) : Type 0 where
  pub orders : amm.order_num ≡ 7
  pub depth : amm.depth ≡ 3
  pub cut : amm.vol_max_cut_ratio ≡ 500
  pub min_price : amm.min_price_multiplier ≡ 1
  pub max_price : amm.max_price_multiplier ≡ 1000000000
  pub state : amm.state ≡ state_into_u64 idle_state
  pub owed_coin : amm.state_data.need_take_pnl_coin ≡ 0
  pub owed_pc : amm.state_data.need_take_pnl_pc ≡ 0
  pub opens : amm.state_data.pool_open_time ≡ open_time
  pub fees : amm.fees ≡ initial_fees

pub initialize-IsStart :
    (nonce open_time cd pd cl pl epoch : ℕ) (amm : AmmInfo) {amm' : AmmInfo}
    → initialize nonce open_time cd pd cl pl epoch amm ≡ ok amm'
    → IsStart open_time amm'
unfolding initialize
initialize-IsStart nonce open_time cd pd cl pl epoch amm h =
    after_bind (sys_decimal cd pd cl pl) h λ sys_decimal_value _ h1.
      after_bind (min_size_of cd cl sys_decimal_value) h1 λ _ _ h2.
        after_bind (unwrap (checked_mul 64 sys_decimal_value 5)) h2 λ wave _ h3.
          after_bind (convert_in_pc_lot_size pd cd pl cl sys_decimal_value) h3 λ _ _ h4. record {
            orders = ground arith;
            depth = ground arith;
            cut = ground arith;
            min_price = ground arith;
            max_price = ground arith;
            state = ground arith;
            owed_coin = ground arith;
            owed_pc = ground arith;
            opens = ground arith;
            fees = ground arith;
          }

pub check_vault-holds :
    (rt : Runtime) (a : InitializeAccounts) (vault mint : Pubkey) (wrong : AmmError) (bank : Bank)
    {t : TokenAccount}
    → check_vault rt a vault mint wrong bank ≡ ok t
    → ((bank vault).content ≡ AccountData.token_data t) × (0 < t.amount)
unfolding check_vault
check_vault-holds rt a vault mint wrong bank h =
    after_bind (unpack_token_account rt vault bank) h λ token e1 h1.
      let (_, h2) = fail_if-eq-ok (token.owner != a.amm_authority.key) invalid_owner _ h1 in
      let (some_left, h3) = fail_if-eq-ok (token.amount == 0) invalid_supply _ h2 in
      let content = unpack-content rt vault bank e1 in ground arith

-- Of the documented effect of an integer square root: its square is within the number.
abbrev pub IsRoot : (ℕ → ℕ) → Type 0
IsRoot integer_sqrt = (n : ℕ) → integer_sqrt n * integer_sqrt n ≤ n

pub first_shares-within :
    (integer_sqrt : ℕ → ℕ) (pc coin decimals : ℕ) {l u : ℕ}
    → IsRoot integer_sqrt
    → first_shares integer_sqrt pc coin decimals ≡ ok (l, u)
    → (l * l ≤ pc * coin) × (u + 10 ^ decimals ≡ l)
unfolding first_shares
first_shares-within integer_sqrt pc coin decimals {l} {u} law h =
    after_bind (unwrap (checked_mul 128 pc coin)) h λ product e1 h1.
      after_bind (ok_or (fits 64 (integer_sqrt product)) conversion_failure) h1 λ liquidity e2 h2.
        after_bind (unwrap (checked_pow 64 10 decimals)) h2 λ locked e3 h3.
          after_bind (ok_or (checked_sub liquidity locked) init_lp_amount_too_less) h3 λ user e4 h4.
            let same_l : liquidity ≡ l = ap (λ r. r.0) (ok-inj h4) in
            let same_u : user ≡ u = ap (λ r. r.1) (ok-inj h4) in
            let root : liquidity ≡ integer_sqrt product = ground arith in
            let all : product ≡ pc * coin = ground arith in
            let power : locked ≡ 10 ^ decimals = ground arith in
            let rest : user + locked ≡ liquidity = ground arith in
            let within = law product in
            (rw (← same_l, root, ← all) within, rw (← same_l, ← same_u, ← power) rest)

-- What a pool starts with: the accounts of the call, no owed profit, the start values of the fees, a
-- configuration within its ranges, and all orders to be cleared. Its status is `WaitingTrade` where
-- the opening time is ahead of the clock, and `SwapOnly` from then on.
pub record IsNewPool (rt : Runtime) (a : InitializeAccounts) (open_time : ℕ) (amm : AmmInfo)
    : Type 0 where
  pub clock : Clock
  pub clock_read : rt.clock ≡ ok clock
  pub coin_vault : amm.coin_vault ≡ a.amm_coin_vault.key
  pub pc_vault : amm.pc_vault ≡ a.amm_pc_vault.key
  pub target_orders : amm.target_orders ≡ a.amm_target_orders.key
  pub owed_coin : amm.state_data.need_take_pnl_coin ≡ 0
  pub owed_pc : amm.state_data.need_take_pnl_pc ≡ 0
  pub configured : IsConfigured amm
  pub state : amm.state ≡ state_into_u64 idle_state
  pub reset_flag : amm.reset_flag ≡ reset_flag_into_u64 reset_yes
  pub market : amm.market ≡ a.market.key
  pub open_orders : amm.open_orders ≡ a.amm_open_orders.key
  pub lp_mint : amm.lp_mint ≡ a.amm_lp_mint.key
  pub coin_vault_mint : amm.coin_vault_mint ≡ a.amm_coin_mint.key
  pub pc_vault_mint : amm.pc_vault_mint ≡ a.amm_pc_mint.key
  pub market_program : amm.market_program ≡ a.market_program.key
  pub fees : amm.fees ≡ initial_fees
  pub opens : amm.state_data.pool_open_time ≡ open_time
  pub status :
      ((clock.unix_timestamp < open_time) × (amm.status ≡ status_into_u64 waiting_trade))
      ⊎ ((open_time ≤ clock.unix_timestamp) × (amm.status ≡ status_into_u64 swap_only))

pub fill_pool-IsNewPool :
    (rt : Runtime) (a : InitializeAccounts) (liquidity open_time : ℕ) (now : Clock) (amm : AmmInfo)
    → rt.clock ≡ ok now
    → IsStart open_time amm
    → IsNewPool rt a open_time (fill_pool a liquidity open_time now.unix_timestamp amm)
unfolding fill_pool
fill_pool-IsNewPool rt a liquidity open_time now amm read start =
    let orders = start.orders in
    let depth = start.depth in
    let cut = start.cut in
    let low = start.min_price in
    let high = start.max_price in
    let fees = start.fees in
    record {
      clock = now;
      clock_read = read;
      coin_vault = refl;
      pc_vault = refl;
      target_orders = refl;
      owed_coin = start.owed_coin;
      owed_pc = start.owed_pc;
      configured = record {
        status_from = ground arith;
        status_to = ground arith;
        orders = omega arith;
        depth_from = omega arith;
        depth_to = omega arith;
        cut = omega arith;
        prices = omega arith;
        trade = rw fees (omega arith);
        pnl = rw fees (omega arith);
        swap = rw fees (omega arith);
        separate_denominator = rw fees (omega arith);
        separate = rw fees (inl (omega arith));
      };
      state = start.state;
      reset_flag = refl;
      market = refl;
      open_orders = refl;
      lp_mint = refl;
      coin_vault_mint = refl;
      pc_vault_mint = refl;
      market_program = refl;
      fees = fees;
      opens = start.opens;
      status = elim (Bool-cases (ltb now.unix_timestamp open_time)) [
        | inl e ↦ inl (ground arith, rw e)
        | inr e ↦ inr (ground arith, rw e)
      ];
    }

pub as_target-content :
    (d : AccountData) {t : TargetOrders} → as_target d ≡ ok t → d ≡ AccountData.target_data t
unfolding as_target
as_target-content d h = ground arith

pub as_amm-content :
    (d : AccountData) {amm : AmmInfo} → as_amm d ≡ ok amm → d ≡ AccountData.amm_data amm
unfolding as_amm
as_amm-content d h = ground arith
