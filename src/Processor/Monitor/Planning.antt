-- ===== src/Processor/Monitor/Planning.antt =====
-- Calls of `do_plan_orderbook` (program/src/processor.rs): what they keep, and that they come to an
-- end.
use raydium_amm_fair.Common.{
  ℕ, zero, suc, ◌+◌, ◌-◌, ◌≤◌, ◌<◌, ◌≡◌, ◌≢◌, ◌⊎◌, refl, sym, ap, ◌∙◌, ◌||◌, ltb, ◌==◌, ◌!=◌,
  if◌then◌else◌, then_of, else_of, arith, Bool-cases, inl, inr,
}
use raydium_amm_fair.Error.{checked_empty_funds}
use raydium_amm_fair.Outcome.{ok, after_bind, fail_if-eq-ok, ok-inj}
use raydium_amm_fair.State.Status.{
  state_into_u64, idle_state, plan_orders_state, place_orders_state,
}
use raydium_amm_fair.State.Accounts.{AmmInfo, TargetOrders}
use raydium_amm_fair.Math.Decimal.{normalize_decimal_v2}
use raydium_amm_fair.Processor.Monitor.Prices.{grid_of}
use raydium_amm_fair.Processor.Monitor.Plan.{
  all_planned, start_plan, plan_rounds, end_of_rounds, plan_grid, price_in_bounds, plan_orders,
  do_plan_orderbook,
}
use raydium_amm_fair.Processor.Monitor.Sides.{sum_below}
use raydium_amm_fair.Processor.Monitor.Planned.{IsPlanned, plan_rounds-IsPlanned}

start_plan-IsPlanned :
    (amm : AmmInfo) (t : TargetOrders) (x y : ℕ)
    → (t.plan_orders_cur ≡ 0) ⊎ IsPlanned amm t
    → IsPlanned amm (start_plan t x y) × ((start_plan t x y).plan_orders_cur ≡ t.plan_orders_cur)
unfolding start_plan sum_below
start_plan-IsPlanned amm t x y p = elim (Bool-cases (t.plan_orders_cur == 0)) [
  | inl first ↦
      let z : t.plan_orders_cur ≡ 0 = ground arith in
      rw first (
        record {
          spent_pc = rw z (omega arith);
          bought_coin = rw z (omega arith);
          sold_coin = rw z (omega arith);
          earned_pc = rw z (omega arith);
        },
        refl,
      )
  | inr later ↦ elim p [ inl z ↦ absurd (ground arith) | inr kept ↦ rw later (kept, refl) ]
]

all_planned-IsPlanned :
    (amm : AmmInfo) (t : TargetOrders) → IsPlanned amm t → IsPlanned amm (all_planned amm t).1
unfolding all_planned
all_planned-IsPlanned amm t p = record {
  spent_pc = p.spent_pc;
  bought_coin = p.bought_coin;
  sold_coin = p.sold_coin;
  earned_pc = p.earned_pc;
}

-- How far one call gets: back to idle, to the end of the plan, or `limit` orders further.
abbrev pub Progress : AmmInfo → TargetOrders → ℕ → AmmInfo → TargetOrders → Type 0
Progress amm t limit amm' t' =
    (amm'.state ≡ state_into_u64 idle_state)
    ⊎ (((amm'.state ≡ state_into_u64 place_orders_state) × (t'.plan_orders_cur ≡ amm.order_num))
        ⊎ ((amm' ≡ amm)
            × (t'.plan_orders_cur ≡ t.plan_orders_cur + limit)
            × (t'.plan_orders_cur < amm.order_num)))

ended :
    (amm : AmmInfo) (t1 : TargetOrders) (limit : ℕ) (t : TargetOrders) {amm' : AmmInfo}
    {t' : TargetOrders}
    → t1.plan_orders_cur ≡ amm.order_num
    → IsPlanned amm t1
    → all_planned amm t1 ≡ (amm', t')
    → IsPlanned amm t' × Progress amm t limit amm' t'
unfolding all_planned
ended amm t1 limit t all p same =
    let s0 = ap (λ r. r.0) same in
    let s1 = ap (λ r. r.1) same in
    (
      rw (← s1) (all_planned-IsPlanned amm t1 p),
      inr (inl (sym (ap (λ a. a.state) s0), sym (ap (λ r. r.plan_orders_cur) s1) ∙ all)),
    )

plan_grid-Progress :
    (amm : AmmInfo) (t : TargetOrders) (price limit : ℕ) {amm' : AmmInfo} {t' : TargetOrders}
    → t.plan_orders_cur ≤ amm.order_num
    → IsPlanned amm t
    → plan_grid amm t price limit ≡ ok (amm', t')
    → IsPlanned amm t' × Progress amm t limit amm' t'
unfolding plan_grid end_of_rounds
plan_grid-Progress amm t price limit le p h = after_bind (grid_of amm price) h λ g _ h1.
    after_bind (end_of_rounds t.plan_orders_cur limit amm.order_num) h1 λ num e2 h2.
      let cur = t.plan_orders_cur in
      after_bind (plan_rounds amm g (num - cur) cur t) h2 λ t1 e3 h3.
        let (p1, got) = plan_rounds-IsPlanned amm g (num - cur) t p e3 in
        let to : num ≡ (if ltb amm.order_num (cur + limit) then amm.order_num else cur + limit) =
          ground arith in
        elim (Bool-cases (amm.order_num == t1.plan_orders_cur)) [
          | inl done ↦
              let same = then_of (amm.order_num == t1.plan_orders_cur) _ done (ok-inj h3) in
              let all : amm.order_num ≡ t1.plan_orders_cur = ground arith in
              ended amm t1 limit t (sym all) p1 same
          | inr more ↦
              let same = else_of (amm.order_num == t1.plan_orders_cur) _ more (ok-inj h3) in
              let s0 = ap (λ r. r.0) same in
              let s1 = ap (λ r. r.1) same in
              let some_left : amm.order_num ≢ t1.plan_orders_cur = ground arith in
              let on : (t1.plan_orders_cur ≡ cur + limit) × (t1.plan_orders_cur < amm.order_num) =
                ground arith in
              (rw (← s1) p1, inr (inr (sym s0, rw (← s1) on.0, rw (← s1) on.1)))
        ]

idle_again :
    (amm : AmmInfo) (s : TargetOrders) (limit : ℕ) (t : TargetOrders) {amm' : AmmInfo}
    {t' : TargetOrders}
    → IsPlanned amm s
    → ◌≡◌ {A = AmmInfo × TargetOrders}
        (record amm { state = state_into_u64 idle_state }, s)
        (amm', t')
    → IsPlanned amm t' × Progress amm t limit amm' t'
idle_again amm s limit t p same =
    let s1 = ap (λ r. r.1) same in (rw (← s1) p, inl (sym (ap (λ r. r.0.state) same)))

-- While the cursor has not passed the number of orders, a call that succeeds keeps the sums of the
-- planned orders, which the first call of a plan sets up: the buy orders cost what `plan_x_buy` has
-- lost and the sell orders are what `plan_y_sell` has lost since, so that neither passes the total
-- that the plan is for. It leaves the pool idle, or to be placed with all orders planned, or as it
-- is with `limit` more orders planned.
pub do_plan_orderbook-IsPlanned :
    (amm : AmmInfo) (t : TargetOrders) (limit tp tc : ℕ) {amm' : AmmInfo} {t' : TargetOrders}
    → amm.order_num ≢ 0
    → t.plan_orders_cur ≤ amm.order_num
    → (t.plan_orders_cur ≡ 0) ⊎ IsPlanned amm t
    → do_plan_orderbook amm t limit tp tc ≡ ok (amm', t')
    → IsPlanned amm t' × Progress amm t limit amm' t'
unfolding do_plan_orderbook plan_orders
do_plan_orderbook-IsPlanned amm t limit tp tc some_orders le p h =
    elim (Bool-cases (amm.order_num == t.plan_orders_cur)) [
      | inl done ↦
          let all : amm.order_num ≡ t.plan_orders_cur = ground arith in
          let kept : IsPlanned amm t = elim p [ inl z ↦ absurd (omega arith) | inr kept ↦ kept ] in
          ended amm t limit t (sym all) kept
            (ok-inj (then_of (amm.order_num == t.plan_orders_cur) _ done h))
      | inr more ↦
          let h0 = else_of (amm.order_num == t.plan_orders_cur) _ more h in
          after_bind (normalize_decimal_v2 tp amm.pc_decimals amm.sys_decimal_value) h0 λ x _ h1.
            after_bind (normalize_decimal_v2 tc amm.coin_decimals amm.sys_decimal_value) h1
              λ y _ h2.
                let s = start_plan t x y in
                let (started, cur) = start_plan-IsPlanned amm t x y p in
                let (_, h3) = fail_if-eq-ok (x == 0 || y == 0) checked_empty_funds _ h2 in
                let other = x != s.target_x || y != s.target_y in
                elim (Bool-cases other) [
                  | inl e ↦ idle_again amm s limit t started (ok-inj (then_of other _ e h3))
                  | inr e ↦
                      after_bind (price_in_bounds amm x y) (else_of other _ e h3)
                        λ (price, within) _ h4. elim (Bool-cases within) [
                          | inl e' ↦
                              let le' : s.plan_orders_cur ≤ amm.order_num = omega arith in
                              let (kept, on) =
                                plan_grid-Progress amm s price limit le' started
                                  (then_of within _ e' h4) in
                              (kept, rw cur at on)
                          | inr e' ↦
                              idle_again amm s limit t started (ok-inj (else_of within _ e' h4))
                        ]
                ]
    ]

-- Successful calls with positive limits, each of which leaves the pool as it is, in the state of
-- planning, and hands its orders on to the next.
pub data PlanRun (amm : AmmInfo) : ℕ → TargetOrders → TargetOrders → Type 0 where
  done : (t : TargetOrders) → PlanRun amm zero t t
  call :
      {n : ℕ} {t u v : TargetOrders} (limit tp tc : ℕ)
      → 0 < limit
      → do_plan_orderbook amm t limit tp tc ≡ ok (amm, u)
      → PlanRun amm n u v
      → PlanRun amm (suc n) t v

-- Planning comes to an end: calls with positive limits that keep a pool planning number at most as
-- many as the orders that were left, since each of them plans at least one order more.
pub PlanRun-length :
    (amm : AmmInfo) {n : ℕ} (t : TargetOrders) {u : TargetOrders}
    → amm.order_num ≢ 0
    → amm.state ≡ state_into_u64 plan_orders_state
    → t.plan_orders_cur ≤ amm.order_num
    → (t.plan_orders_cur ≡ 0) ⊎ IsPlanned amm t
    → PlanRun amm n t u
    → (n + t.plan_orders_cur ≤ u.plan_orders_cur) × (u.plan_orders_cur ≤ amm.order_num)
PlanRun-length amm t some_orders state le p (done _) = (omega arith, le)
PlanRun-length amm t some_orders state le p (call {u = next} limit tp tc pos e run) =
    let (kept, on) = do_plan_orderbook-IsPlanned amm t limit tp tc some_orders le p e in
    let bounds : (t.plan_orders_cur + limit ≤ next.plan_orders_cur)
        × (next.plan_orders_cur ≤ amm.order_num) =
      elim on [
        | inl idle ↦ absurd (omega arith)
        | inr further ↦ elim further [
          | inl ended' ↦ absurd (omega (arith, ended'.0))
          | inr (_, got, less) ↦ (omega arith, omega arith)
        ]
      ] in
    let (more, last) = PlanRun-length amm next some_orders state bounds.1 (inr kept) run in
    (omega (arith, bounds.0), last)
