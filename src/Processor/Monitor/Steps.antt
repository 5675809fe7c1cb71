-- ===== src/Processor/Monitor/Steps.antt =====
-- The step of each state, from loading the accounts on, as an edge of the graph of states.
use raydium_amm_fair.Common.{
  true, false, ℕ, zero, suc, ◌≡◌, refl, ap, List, ◌&&◌, ◌||◌, leb, ◌!=◌, length, if◌then◌else◌,
  then_of, else_of, arith, Bool-cases, inl, inr,
}
use raydium_amm_fair.Outcome.{Outcome, ok, after_bind, ok-inj}
use raydium_amm_fair.State.Status.{
  AmmState, state_from_u64, state_into_u64, idle_state, plan_orders_state, cancel_order_state,
  place_orders_state, purge_order_state,
}
use raydium_amm_fair.State.Accounts.{AmmInfo, TargetOrders}
use raydium_amm_fair.Chain.{Bank, Runtime, load_target}
use raydium_amm_fair.Dex.Types.{Market, LeafNode}
use raydium_amm_fair.Dex.Batches.{batches_of}
use raydium_amm_fair.Processor.Market.{load_serum_market_order, cancel_batches, unwrap_result}
use raydium_amm_fair.Processor.Cancel.{OwnOrders, load_own_orders, cancel_both}
use raydium_amm_fair.Processor.Monitor.Accounts.{MonitorAccounts}
use raydium_amm_fair.Processor.Monitor.Idle.{do_idle_state}
use raydium_amm_fair.Processor.Monitor.Plan.{do_plan_orderbook}
use raydium_amm_fair.Processor.Monitor.Place.{MonitorResult}
use raydium_amm_fair.Processor.Monitor.Clear.{
  monitor_cancel_accounts, monitor_settle_accounts, purge_ids, waits_for_market, all_cancelled,
  do_purge_orders, do_cancel_all_orders_state,
}
use raydium_amm_fair.Processor.Monitor.Step.{
  vault_amounts, monitor_totals, idle_step, cancel_all_step, plan_step, cancel_order_step,
  place_step, purge_step,
}
use raydium_amm_fair.Processor.Monitor.Graph.{
  Next, skip, purged, IsStep, stay-IsStep, set_state-IsStep, do_idle_state-IsStep,
}
use raydium_amm_fair.Processor.Monitor.Edges.{do_plan_orderbook-IsStep, do_place_orders-IsStep}

do_purge_orders-IsStep :
    (mk : Market) (a : MonitorAccounts) (amm : AmmInfo) (target : TargetOrders)
    (bids asks : List LeafNode) (bank : Bank) {r : MonitorResult}
    → amm.state ≡ state_into_u64 purge_order_state
    → do_purge_orders mk a amm target bids asks bank ≡ ok r
    → IsStep purge_order_state amm r.amm
unfolding do_purge_orders
do_purge_orders-IsStep mk a amm target bids asks bank e h =
    let nothing =
      leb (length bids) target.valid_buy_order_num
      && leb (length asks) target.valid_sell_order_num in
    elim (Bool-cases nothing) [
      | inl done ↦
          let same = ap (λ r. r.amm) (ok-inj (then_of nothing _ done h)) in
          rw (← same) (set_state-IsStep purge_order_state idle_state amm purged)
      | inr more ↦
          after_bind (batches_of (purge_ids target bids asks)) (else_of nothing _ more h)
            λ batches _ h1.
              after_bind (cancel_batches mk (monitor_cancel_accounts a) batches bank) h1 λ b _ h2.
                let same = ap (λ r. r.amm) (ok-inj h2) in
                rw (← same) (stay-IsStep purge_order_state amm e)
    ]

all_cancelled-IsStep :
    (s : AmmState) (amm : AmmInfo) (target : TargetOrders) (bank : Bank)
    → Next amm.reset_flag s idle_state
    → IsStep s amm (all_cancelled amm target bank).amm
unfolding all_cancelled
all_cancelled-IsStep s amm target bank edge = record {
  edge = (idle_state, refl, edge);
  owed_pc = omega arith;
  owed_coin = omega arith;
  rest = refl;
}

do_cancel_all-IsStep :
    (s : AmmState) (mk : Market) (a : MonitorAccounts) (amm : AmmInfo) (target : TargetOrders)
    (own : OwnOrders) (bank : Bank) {r : MonitorResult}
    → amm.state ≡ state_into_u64 s
    → Next amm.reset_flag s idle_state
    → do_cancel_all_orders_state mk a amm target own bank ≡ ok r
    → IsStep s amm r.amm
unfolding do_cancel_all_orders_state
do_cancel_all-IsStep s mk a amm target own bank e edge h =
    elim (Bool-cases (waits_for_market own)) [
      | inl waits ↦ rw (← ap (λ r. r.amm) (ok-inj (rw waits at h))) (stay-IsStep s amm e)
      | inr ready ↦
          after_bind (cancel_both mk (monitor_cancel_accounts a) own.bids own.asks bank)
            (rw ready at h)
            λ b _ h1.
              after_bind
                (if own.open_orders.native_coin_total != 0 || own.open_orders.native_pc_total != 0
                  then mk.settle_funds (monitor_settle_accounts a) b
                  else ok b)
                h1
                λ b2 _ h2.
                  let same = ap (λ r. r.amm) (ok-inj h2) in
                  rw (← same) (all_cancelled-IsStep s amm target b2 edge)
    ]

pub unwrap_result-ok {ℓ} : {A : Type ℓ} (m : Outcome A) {r : A} → unwrap_result m ≡ ok r → m ≡ ok r
unwrap_result-ok (ok x) h = h
unwrap_result-ok (Outcome.err x) h = cc
unwrap_result-ok Outcome.panic h = cc

pub state_of_number : (n : ℕ) {s : AmmState} → state_from_u64 n ≡ ok s → n ≡ state_into_u64 s
unfolding state_from_u64
state_of_number zero h = rw (← ok-inj h)
state_of_number (suc zero) h = rw (← ok-inj h)
state_of_number (suc (suc zero)) h = rw (← ok-inj h)
state_of_number (suc (suc (suc zero))) h = rw (← ok-inj h)
state_of_number (suc (suc (suc (suc zero)))) h = rw (← ok-inj h)
state_of_number (suc (suc (suc (suc (suc zero))))) h = rw (← ok-inj h)
state_of_number (suc (suc (suc (suc (suc (suc zero)))))) h = rw (← ok-inj h)
state_of_number (suc (suc (suc (suc (suc (suc (suc n))))))) h = absurd (cc h)

module _ (rt : Runtime) (mk : Market) (a : MonitorAccounts) (amm : AmmInfo) (bank : Bank) where
  pub idle_step-IsStep :
      (integer_sqrt : ℕ → ℕ) {r : MonitorResult}
      → idle_step rt mk a amm bank integer_sqrt ≡ ok r
      → IsStep idle_state amm r.amm
  unfolding idle_step
  idle_step-IsStep integer_sqrt h = after_bind (vault_amounts a bank) h λ (coin, pc) _ h1.
      after_bind (load_target rt a.amm_target_orders.key a.amm.key bank) h1 λ target _ h2.
        after_bind (load_own_orders mk false (monitor_cancel_accounts a) amm bank) h2 λ own _ h3.
          after_bind (monitor_totals mk a amm own.market_state own.open_orders coin pc bank) h3
            λ (tp, tc) _ h4.
              after_bind (do_idle_state integer_sqrt amm target own.bids own.asks tp tc) h4
                λ (amm', target') e5 h5.
                  let step =
                    do_idle_state-IsStep integer_sqrt amm target own.bids own.asks tp tc e5 in
                  rw (← ap (λ r. r.amm) (ok-inj h5)) step

  pub cancel_all_step-IsStep :
      (s : AmmState) {r : MonitorResult}
      → amm.state ≡ state_into_u64 s
      → Next amm.reset_flag s idle_state
      → cancel_all_step rt mk a amm bank ≡ ok r
      → IsStep s amm r.amm
  unfolding cancel_all_step
  cancel_all_step-IsStep s e edge h =
      after_bind (load_target rt a.amm_target_orders.key a.amm.key bank) h λ target _ h1.
        after_bind (load_own_orders mk true (monitor_cancel_accounts a) amm bank) h1
          λ own _ h2. do_cancel_all-IsStep s mk a amm target own bank e edge h2

  pub plan_step-IsStep :
      (limit : ℕ) {r : MonitorResult}
      → amm.state ≡ state_into_u64 plan_orders_state
      → plan_step rt mk a amm bank limit ≡ ok r
      → IsStep plan_orders_state amm r.amm
  unfolding plan_step
  plan_step-IsStep limit e h = after_bind (vault_amounts a bank) h λ (coin, pc) _ h1.
      after_bind (load_target rt a.amm_target_orders.key a.amm.key bank) h1 λ target _ h2.
        after_bind
          (load_serum_market_order mk false a.market.key a.amm_open_orders.key a.amm_authority.key
            amm bank)
          h2
          λ (market_state, orders) _ h3.
            after_bind (monitor_totals mk a amm market_state orders coin pc bank) h3
              λ (tp, tc) _ h4.
                after_bind (do_plan_orderbook amm target limit tp tc) h4 λ (amm', target') e5 h5.
                  let step = do_plan_orderbook-IsStep amm target limit tp tc e e5 in
                  rw (← ap (λ r. r.amm) (ok-inj h5)) step

  pub cancel_order_step-IsStep :
      {r : MonitorResult}
      → cancel_order_step rt mk a amm bank ≡ ok r
      → IsStep cancel_order_state amm r.amm
  unfolding cancel_order_step
  cancel_order_step-IsStep h = after_bind (vault_amounts a bank) h λ _ _ h1.
      after_bind (load_target rt a.amm_target_orders.key a.amm.key bank) h1 λ target _ h2.
        after_bind (load_own_orders mk true (monitor_cancel_accounts a) amm bank) h2 λ _ _ h3.
          rw (← ap (λ r. r.amm) (ok-inj h3))
            (set_state-IsStep cancel_order_state idle_state amm skip)

  pub place_step-IsStep :
      (limit : ℕ) {r : MonitorResult}
      → amm.state ≡ state_into_u64 place_orders_state
      → place_step rt mk a amm bank limit ≡ ok r
      → IsStep place_orders_state amm r.amm
  unfolding place_step
  place_step-IsStep limit e h = after_bind (vault_amounts a bank) h λ (coin, pc) _ h1.
      after_bind (load_target rt a.amm_target_orders.key a.amm.key bank) h1 λ target _ h2.
        after_bind (load_own_orders mk false (monitor_cancel_accounts a) amm bank) h2 λ own _ h3.
          after_bind (monitor_totals mk a amm own.market_state own.open_orders coin pc bank) h3
            λ (tp, tc) _ h4.
              do_place_orders-IsStep rt mk a amm target own.open_orders own.bids own.asks tp tc coin
                pc limit bank e h4

  pub purge_step-IsStep :
      {r : MonitorResult}
      → amm.state ≡ state_into_u64 purge_order_state
      → purge_step rt mk a amm bank ≡ ok r
      → IsStep purge_order_state amm r.amm
  unfolding purge_step
  purge_step-IsStep e h =
      after_bind (load_target rt a.amm_target_orders.key a.amm.key bank) h λ target _ h1.
        after_bind (load_own_orders mk true (monitor_cancel_accounts a) amm bank) h1
          λ own _ h2. do_purge_orders-IsStep mk a amm target own.bids own.asks bank e h2
