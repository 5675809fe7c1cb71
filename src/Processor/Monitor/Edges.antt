-- ===== src/Processor/Monitor/Edges.antt =====
-- Each state's step is an edge of the graph of states.
use raydium_amm_fair.Common.{
  ℕ, ◌-◌, ◌≡◌, refl, sym, ap, ◌∙◌, Bool, true, false, List, ◌||◌, ltb, leb, ◌==◌, ◌!=◌, map,
  if◌then◌else◌, then_of, else_of, arith, Bool-cases, inl, inr,
}
use raydium_amm_fair.Error.{checked_empty_funds}
use raydium_amm_fair.Outcome.{ok, after_bind, fail_if-eq-ok, ok-inj}
use raydium_amm_fair.State.Status.{
  AmmState, state_into_u64, idle_state, cancel_all_orders_state, plan_orders_state,
  place_orders_state, purge_order_state,
}
use raydium_amm_fair.State.Accounts.{AmmInfo, TargetOrders}
use raydium_amm_fair.Chain.{Bank, Runtime}
use raydium_amm_fair.Dex.Types.{Market, OpenOrders, LeafNode}
use raydium_amm_fair.Dex.Orders.{count_zeros}
use raydium_amm_fair.Math.Decimal.{normalize_decimal_v2}
use raydium_amm_fair.Processor.Monitor.Accounts.{MonitorAccounts}
use raydium_amm_fair.Processor.Monitor.Prices.{grid_of}
use raydium_amm_fair.Processor.Monitor.Orders.{retain_new}
use raydium_amm_fair.Processor.Monitor.Plan.{
  all_planned, start_plan, plan_rounds, end_of_rounds, plan_grid, price_in_bounds, plan_orders,
  do_plan_orderbook,
}
use raydium_amm_fair.Processor.Monitor.Place.{
  Placing, MonitorResult, available, end_of_placing, place_rounds, place_from, do_place_orders,
}
use raydium_amm_fair.Processor.Monitor.Graph.{
  Next, stay, place, plan_again, purge, moved, short, IsStep, with_changes, stay-IsStep,
  set_state-IsStep,
}
use raydium_amm_fair.Processor.Monitor.Sent.{IsPlacing, place_rounds-IsPlacing}

all_planned-IsStep :
    (amm : AmmInfo) (target : TargetOrders)
    → IsStep plan_orders_state amm (all_planned amm target).0
unfolding all_planned
all_planned-IsStep amm target = set_state-IsStep plan_orders_state place_orders_state amm place

plan_grid-IsStep :
    (amm : AmmInfo) (target : TargetOrders) (price limit : ℕ) {amm' : AmmInfo}
    {target' : TargetOrders}
    → amm.state ≡ state_into_u64 plan_orders_state
    → plan_grid amm target price limit ≡ ok (amm', target')
    → IsStep plan_orders_state amm amm'
unfolding plan_grid
plan_grid-IsStep amm target price limit {amm'} {target'} e h =
    after_bind (grid_of amm price) h λ g _ h1.
      after_bind (end_of_rounds target.plan_orders_cur limit amm.order_num) h1 λ num _ h2.
        let cur = target.plan_orders_cur in
        after_bind (plan_rounds amm g (num - cur) cur target) h2 λ t _ h3.
          elim (Bool-cases (amm.order_num == t.plan_orders_cur)) [
            | inl done ↦
                let same : (all_planned amm t).0 ≡ amm' =
                  ap (λ p. p.0) (then_of (amm.order_num == t.plan_orders_cur) _ done (ok-inj h3)) in
                rw (← same) (all_planned-IsStep amm t)
            | inr more ↦
                let same : amm ≡ amm' =
                  ap (λ p. p.0) (else_of (amm.order_num == t.plan_orders_cur) _ more (ok-inj h3)) in
                rw (← same) (stay-IsStep plan_orders_state amm e)
          ]

pub do_plan_orderbook-IsStep :
    (amm : AmmInfo) (target : TargetOrders) (limit tp tc : ℕ) {amm' : AmmInfo}
    {target' : TargetOrders}
    → amm.state ≡ state_into_u64 plan_orders_state
    → do_plan_orderbook amm target limit tp tc ≡ ok (amm', target')
    → IsStep plan_orders_state amm amm'
unfolding do_plan_orderbook plan_orders
do_plan_orderbook-IsStep amm target limit tp tc {amm'} {target'} e h =
    let replan = set_state-IsStep plan_orders_state idle_state amm plan_again in
    elim (Bool-cases (amm.order_num == target.plan_orders_cur)) [
      | inl done ↦
          let same : (all_planned amm target).0 ≡ amm' =
            ap (λ p. p.0) (ok-inj (then_of (amm.order_num == target.plan_orders_cur) _ done h)) in
          rw (← same) (all_planned-IsStep amm target)
      | inr more ↦
          let h0 = else_of (amm.order_num == target.plan_orders_cur) _ more h in
          after_bind (normalize_decimal_v2 tp amm.pc_decimals amm.sys_decimal_value) h0 λ x _ h1.
            after_bind (normalize_decimal_v2 tc amm.coin_decimals amm.sys_decimal_value) h1
              λ y _ h2.
                let t = start_plan target x y in
                let (_, h3) = fail_if-eq-ok (x == 0 || y == 0) checked_empty_funds _ h2 in
                elim (Bool-cases (x != t.target_x || y != t.target_y)) [
                  | inl other ↦
                      let same =
                        ap (λ p. p.0)
                          (ok-inj (then_of (x != t.target_x || y != t.target_y) _ other h3)) in
                      rw (← same) replan
                  | inr same ↦
                      after_bind (price_in_bounds amm x y)
                        (else_of (x != t.target_x || y != t.target_y) _ same h3)
                        λ (price, within) _ h4. elim (Bool-cases within) [
                          | inl yes' ↦
                              plan_grid-IsStep amm t price limit e (then_of within _ yes' h4)
                          | inr no' ↦
                              let same' = ap (λ p. p.0) (ok-inj (else_of within _ no' h4)) in
                              rw (← same') replan
                        ]
                ]
    ]

-- A record that differs in the identifier and the state.
kept-IsStep :
    (s s' : AmmState) (amm amm' : AmmInfo)
    → amm' ≡ record amm { client_order_id = amm'.client_order_id; state = amm'.state }
    → amm'.state ≡ state_into_u64 s'
    → Next amm.reset_flag s s'
    → IsStep s amm amm'
kept-IsStep s s' amm amm' kept e edge =
    let owed = ap (λ a. a.state_data) kept in
    record {
      edge = (s', e, edge);
      owed_pc = rw owed (omega arith);
      owed_coin = rw owed (omega arith);
      rest = kept ∙ sym (ap (with_changes amm) kept);
    }

placing-IsStep :
    (amm : AmmInfo) (p : Placing)
    → amm.state ≡ state_into_u64 place_orders_state
    → IsPlacing amm p
    → IsStep place_orders_state amm p.amm
placing-IsStep amm p e i = elim i.state [
  | inl (_, same) ↦
      kept-IsStep place_orders_state place_orders_state amm p.amm i.kept (same ∙ e)
        (stay place_orders_state)
  | inr (_, stop) ↦
      kept-IsStep place_orders_state cancel_all_orders_state amm p.amm i.kept stop short
]

end_of_placing-IsStep :
    (amm amm1 : AmmInfo) (target : TargetOrders) (x y : ℕ)
    → amm1 ≡ record amm { client_order_id = amm1.client_order_id; state = amm1.state }
    → IsStep place_orders_state amm amm1
    → IsStep place_orders_state amm (end_of_placing x y amm1 target).0
unfolding end_of_placing
end_of_placing-IsStep amm amm1 target x y kept step =
    let target' =
      if target.place_orders_cur == amm1.order_num
      then record target { placed_x = x; placed_y = y }
      else target in
    elim (Bool-cases (leb amm1.order_num target'.place_orders_cur)) [
      | inl done ↦
          let purging : AmmInfo = record amm1 { state = state_into_u64 purge_order_state } in
          let kept' =
            ap (λ (b : AmmInfo). record b { state = state_into_u64 purge_order_state }) kept in
          rw done (kept-IsStep place_orders_state purge_order_state amm purging kept' refl purge)
      | inr more ↦ rw more step
    ]

either-IsStep :
    (amm : AmmInfo) (c : Bool) (u v : AmmInfo × TargetOrders)
    → IsStep place_orders_state amm u.0
    → IsStep place_orders_state amm v.0
    → IsStep place_orders_state amm (if c then u else v).0
either-IsStep amm true u v h k = h
either-IsStep amm false u v h k = k

place_from-IsStep :
    (rt : Runtime) (mk : Market) (a : MonitorAccounts) (amm : AmmInfo) (target : TargetOrders)
    (orders : OpenOrders) (bids asks : List LeafNode) (x y coin pc limit : ℕ) (bank : Bank)
    {r : MonitorResult}
    → amm.state ≡ state_into_u64 place_orders_state
    → place_from rt mk a amm target orders bids asks x y coin pc limit bank ≡ ok r
    → IsStep place_orders_state amm r.amm
unfolding place_from
place_from-IsStep rt mk a amm target orders bids asks x y coin pc limit bank {r} e h =
    let cur = target.place_orders_cur in
    after_bind (end_of_rounds cur limit amm.order_num) h λ num _ h1.
      after_bind (available pc orders.native_pc_free amm.state_data.need_take_pnl_pc) h1
        λ free_pc _ h2.
          after_bind (available coin orders.native_coin_free amm.state_data.need_take_pnl_coin) h2
            λ free_coin _ h3.
              let start : Placing = record {
                amm = amm;
                target = target;
                bids_client_ids =
                    retain_new target.replace_buy_client_id (map (λ o. o.client_order_id) bids);
                asks_client_ids =
                    retain_new target.replace_sell_client_id (map (λ o. o.client_order_id) asks);
                pc_available = free_pc;
                coin_available = free_coin;
                bank = bank;
                stopped = false;
              } in
              after_bind (place_rounds rt mk a (num - cur) cur start) h3 λ p e4 h4.
                let begin : IsPlacing amm start = record {
                  kept = refl;
                  state = inl (refl, refl);
                } in
                let i = place_rounds-IsPlacing rt mk a amm (num - cur) cur start refl begin e4 in
                let step = placing-IsStep amm p e i in
                let behind = end_of_placing-IsStep amm p.amm p.target x y i.kept step in
                let same = ap (λ r. r.amm) (ok-inj h4) in
                rw (← same) (either-IsStep amm p.stopped (p.amm, p.target) _ step behind)

pub do_place_orders-IsStep :
    (rt : Runtime) (mk : Market) (a : MonitorAccounts) (amm : AmmInfo) (target : TargetOrders)
    (orders : OpenOrders) (bids asks : List LeafNode) (tp tc coin pc limit : ℕ) (bank : Bank)
    {r : MonitorResult}
    → amm.state ≡ state_into_u64 place_orders_state
    → do_place_orders rt mk a amm target orders bids asks tp tc coin pc limit bank ≡ ok r
    → IsStep place_orders_state amm r.amm
unfolding do_place_orders
do_place_orders-IsStep rt mk a amm target orders bids asks tp tc coin pc limit bank e h =
    elim (Bool-cases (ltb 100 (count_zeros orders.free_slot_bits))) [
      | inl full ↦
          let same = ap (λ r. r.amm) (ok-inj (rw full at h)) in
          rw (← same) (set_state-IsStep place_orders_state cancel_all_orders_state amm short)
      | inr free ↦
          after_bind (normalize_decimal_v2 tp amm.pc_decimals amm.sys_decimal_value) (rw free at h)
            λ x _ h1.
              after_bind (normalize_decimal_v2 tc amm.coin_decimals amm.sys_decimal_value) h1
                λ y _ h2.
                  let (_, h3) = fail_if-eq-ok (x == 0 || y == 0) checked_empty_funds _ h2 in
                  elim (Bool-cases (x != target.target_x || y != target.target_y)) [
                    | inl other ↦
                        let same =
                          ap (λ r. r.amm)
                            (ok-inj (
                              then_of (x != target.target_x || y != target.target_y) _ other h3)) in
                        rw (← same) (set_state-IsStep place_orders_state idle_state amm moved)
                    | inr same ↦
                        place_from-IsStep rt mk a amm target orders bids asks x y coin pc limit bank
                          e (else_of (x != target.target_x || y != target.target_y) _ same h3)
                  ]
    ]
