-- ===== src/Processor/Monitor/Graph.antt =====
-- The states of `process_monitor_step` (program/src/processor.rs) as a graph, and each state's
-- function as an edge of it.
use raydium_amm_fair.Common.{
  ℕ, ◌≤◌, ◌≡◌, refl, List, ◌||◌, ◌&&◌, ltb, ◌==◌, ◌!=◌, sym, ap, ◌∙◌, arith, Bool-cases, inl, inr,
  is_empty,
}
use raydium_amm_fair.Error.{checked_empty_funds}
use raydium_amm_fair.Outcome.{ok, unwrap, after_bind, fail_if-eq-ok, ok-inj}
use raydium_amm_fair.Word.{checked_sub, checked_mul, checked_div}
use raydium_amm_fair.State.Status.{
  AmmState, state_into_u64, idle_state, cancel_all_orders_state, plan_orders_state,
  cancel_order_state, place_orders_state, purge_order_state, reset_flag_into_u64, reset_yes,
}
use raydium_amm_fair.State.Accounts.{AmmInfo, TargetOrders}
use raydium_amm_fair.Dex.Types.{LeafNode}
use raydium_amm_fair.Math.Decimal.{normalize_decimal_v2}
use raydium_amm_fair.Processor.Pnl.{Pnl, calc_take_pnl}
use raydium_amm_fair.Processor.Pnl.Totals.{IsPnl, calc_take_pnl-conserves}
use raydium_amm_fair.Processor.Monitor.Idle.{
  must_plan, compare_placed, check_price, idle_pnl, do_idle_state,
}

-- The edges of a pool whose `reset_flag` is `flag`.
pub data Next (flag : ℕ) : AmmState → AmmState → Type 0 where
  stay : (s : AmmState) → Next flag s s
  reset : (s : AmmState) → flag ≡ reset_flag_into_u64 reset_yes → Next flag s idle_state
  plan : Next flag idle_state plan_orders_state
  leave_bounds : Next flag idle_state cancel_all_orders_state
  place : Next flag plan_orders_state place_orders_state
  plan_again : Next flag plan_orders_state idle_state
  skip : Next flag cancel_order_state idle_state
  purge : Next flag place_orders_state purge_order_state
  moved : Next flag place_orders_state idle_state
  short : Next flag place_orders_state cancel_all_orders_state
  purged : Next flag purge_order_state idle_state
  cleared : Next flag cancel_all_orders_state idle_state

-- A pool with what a step may change as in another.
abbrev pub with_changes : AmmInfo → AmmInfo → AmmInfo
with_changes amm amm' = record amm {
  state = amm'.state;
  reset_flag = amm'.reset_flag;
  client_order_id = amm'.client_order_id;
  state_data = amm'.state_data;
}

-- A step from the state `s`: along an edge, without touching the pool's configuration, its keys or
-- its shares, and never lowering the profit that is owed.
pub record IsStep (s : AmmState) (amm amm' : AmmInfo) : Type 0 where
  pub edge : (s' : AmmState) × (amm'.state ≡ state_into_u64 s') × Next amm.reset_flag s s'
  pub owed_pc : amm.state_data.need_take_pnl_pc ≤ amm'.state_data.need_take_pnl_pc
  pub owed_coin : amm.state_data.need_take_pnl_coin ≤ amm'.state_data.need_take_pnl_coin
  pub rest : amm' ≡ with_changes amm amm'

pub stay-IsStep : (s : AmmState) (amm : AmmInfo) → amm.state ≡ state_into_u64 s → IsStep s amm amm
stay-IsStep s amm e = record {
  edge = (s, e, stay s);
  owed_pc = omega arith;
  owed_coin = omega arith;
  rest = refl;
}

-- A step that sets the state and nothing else.
pub set_state-IsStep :
    (s s' : AmmState) (amm : AmmInfo)
    → Next amm.reset_flag s s'
    → IsStep s amm (record amm { state = state_into_u64 s' })
set_state-IsStep s s' amm e = record {
  edge = (s', refl, e);
  owed_pc = omega arith;
  owed_coin = omega arith;
  rest = refl;
}

-- What the comparison and the price check of an idle pool leave: the pool with another state.
abbrev IsIdleNext : AmmInfo → AmmInfo → Type 0
IsIdleNext amm amm' =
    (s' : AmmState) × Next amm.reset_flag idle_state s'
    × (amm' ≡ record amm { state = state_into_u64 s' })

compare_placed-IsIdleNext :
    (amm : AmmInfo) (target : TargetOrders) (bids asks : List LeafNode) (x y : ℕ)
    → IsIdleNext amm (compare_placed amm target bids asks x y).0
unfolding compare_placed
compare_placed-IsIdleNext amm target bids asks x y =
    elim (Bool-cases (must_plan target bids asks x y)) [
      | inl e ↦ (plan_orders_state, plan, rw e)
      | inr e ↦ (idle_state, stay idle_state, rw e)
    ]

check_price-IsIdleNext :
    (amm amm0 : AmmInfo) (bids asks : List LeafNode) (x y : ℕ) {amm' : AmmInfo}
    → IsIdleNext amm amm0
    → check_price amm0 bids asks x y ≡ ok amm'
    → IsIdleNext amm amm'
unfolding check_price
check_price-IsIdleNext amm amm0 bids asks x y {amm'} (s, edge, e) h =
    after_bind (unwrap (checked_mul 128 x amm0.sys_decimal_value)) h λ scaled _ h1.
      after_bind (unwrap (checked_div scaled y)) h1 λ cur _ h2.
        after_bind (unwrap (checked_mul 128 amm0.pc_lot_size amm0.max_price_multiplier)) h2
          λ high _ h3.
            after_bind (unwrap (checked_mul 128 amm0.pc_lot_size amm0.min_price_multiplier)) h3
              λ low _ h4. elim (Bool-cases (ltb cur low || ltb high cur)) [
                | inr within ↦ let same = ok-inj (rw within at h4) in (s, edge, rw (← same) e)
                | inl out ↦ elim (Bool-cases (is_empty bids && is_empty asks)) [
                  | inl none_left ↦
                      let same = ok-inj (rw (out, none_left) at h4) in
                      (idle_state, stay idle_state, rw (← same, e))
                  | inr some_left ↦
                      let same = ok-inj (rw (out, some_left) at h4) in
                      (cancel_all_orders_state, leave_bounds, rw (← same, e))
                ]
              ]

taken-IsStep :
    (amm amm0 : AmmInfo) (tp tc : ℕ) (p : Pnl)
    → IsIdleNext amm amm0
    → IsPnl amm0 tp tc p
    → IsStep idle_state amm p.amm
taken-IsStep amm amm0 tp tc p (s, edge, e) taken = record {
  edge = (s, ap (λ a. a.state) taken.rest ∙ ap (λ a. a.state) e, edge);
  owed_pc =
      let same = ap (λ a. a.state_data.need_take_pnl_pc) e in omega (arith, same, taken.owed_pc);
  owed_coin =
      let same = ap (λ a. a.state_data.need_take_pnl_coin) e in
      omega (arith, same, taken.owed_coin);
  rest = taken.rest ∙ sym (ap (with_changes amm0) taken.rest) ∙ ap (λ a. with_changes a p.amm) e;
}

-- Taking the profit keeps the state that the checks have chosen, or the product has fallen.
idle_pnl-IsStep :
    (integer_sqrt : ℕ → ℕ) (amm amm0 : AmmInfo) (target : TargetOrders) (tp tc x y : ℕ)
    {amm' : AmmInfo} {target' : TargetOrders}
    → IsIdleNext amm amm0
    → idle_pnl integer_sqrt amm0 target tp tc x y ≡ ok (amm', target')
    → IsStep idle_state amm amm'
unfolding idle_pnl
idle_pnl-IsStep integer_sqrt amm amm0 target tp tc x y {amm'} {target'} (s, edge, e) h =
    after_bind (unwrap (checked_mul 128 x y)) h λ product _ h1.
      after_bind (unwrap (checked_mul 128 target.calc_pnl_x target.calc_pnl_y)) h1 λ last _ h2.
        elim (Bool-cases (ltb product last)) [
          | inl fallen ↦
              let same : record amm0 { state = state_into_u64 cancel_all_orders_state } ≡ amm' =
                cc (rw fallen at h2) in
              rw (← same, e) (set_state-IsStep idle_state cancel_all_orders_state amm leave_bounds)
          | inr kept ↦
              after_bind (calc_take_pnl integer_sqrt target amm0 tp tc x y) (rw kept at h2)
                λ p e3 h3.
                  let taken = (calc_take_pnl-conserves integer_sqrt target amm0 tp tc x y e3).0 in
                  let same : p.amm ≡ amm' = elim (Bool-cases (p.delta_x != 0 && p.delta_y != 0)) [
                    | inl some_taken ↦
                        after_bind (unwrap (checked_sub x p.delta_x)) (rw some_taken at h3)
                          λ _ _ h4. after_bind (unwrap (checked_sub y p.delta_y)) h4 λ _ _ h5. cc h5
                    | inr none_taken ↦ cc (rw none_taken at h3)
                  ] in
                  rw (← same) (taken-IsStep amm amm0 tp tc p (s, edge, e) taken)
        ]

pub do_idle_state-IsStep :
    (integer_sqrt : ℕ → ℕ) (amm : AmmInfo) (target : TargetOrders) (bids asks : List LeafNode)
    (tp tc : ℕ) {amm' : AmmInfo} {target' : TargetOrders}
    → do_idle_state integer_sqrt amm target bids asks tp tc ≡ ok (amm', target')
    → IsStep idle_state amm amm'
unfolding do_idle_state
do_idle_state-IsStep integer_sqrt amm target bids asks tp tc h =
    after_bind (normalize_decimal_v2 tp amm.pc_decimals amm.sys_decimal_value) h λ x _ h1.
      after_bind (normalize_decimal_v2 tc amm.coin_decimals amm.sys_decimal_value) h1 λ y _ h2.
        let (_, h3) = fail_if-eq-ok (x == 0 || y == 0) checked_empty_funds _ h2 in
        let compared = compare_placed amm target bids asks x y in
        after_bind (check_price compared.0 bids asks x y) h3 λ checked e4 h4.
          let next =
            check_price-IsIdleNext amm compared.0 bids asks x y
              (compare_placed-IsIdleNext amm target bids asks x y) e4 in
          idle_pnl-IsStep integer_sqrt amm checked compared.1 tp tc x y next h4
