-- ===== src/Processor/Monitor/Planned.antt =====
-- What the planned orders of `do_plan_orderbook` (program/src/processor.rs) add up to.
use raydium_amm_fair.Common.{ℕ, zero, suc, ◌+◌, ◌<◌, ◌≡◌, ap, length, arith}
use raydium_amm_fair.Outcome.{ok, unwrap, read_at, after_bind, ok-inj}
use raydium_amm_fair.Word.{checked_add, checked_mul}
use raydium_amm_fair.State.Accounts.{AmmInfo, TargetOrders}
use raydium_amm_fair.Processor.Monitor.Prices.{Grid}
use raydium_amm_fair.Processor.Monitor.Plan.{plan_buy, plan_sell, plan_round, plan_rounds}
use raydium_amm_fair.Processor.Monitor.Sides.{
  sum_below, sum_below-set, cost, vol_of, IsBought, IsSold, plan_buy-IsBought, plan_sell-IsSold,
}

-- The orders planned so far add up to what the plan has taken from the totals that it is for: the buy
-- orders cost pc and yield coin, the sell orders the other way round.
pub record IsPlanned (amm : AmmInfo) (t : TargetOrders) : Type 0 where
  pub spent_pc :
      sum_below (cost amm.sys_decimal_value) t.plan_orders_cur t.buy_orders + t.plan_x_buy
      ≡ t.target_x
  pub bought_coin : t.plan_y_buy ≡ t.target_y + sum_below vol_of t.plan_orders_cur t.buy_orders
  pub sold_coin : sum_below vol_of t.plan_orders_cur t.sell_orders + t.plan_y_sell ≡ t.target_y
  pub earned_pc :
      t.plan_x_sell
      ≡ t.target_x + sum_below (cost amm.sys_decimal_value) t.plan_orders_cur t.sell_orders

module _ (amm : AmmInfo) (t b s : TargetOrders) (cur : ℕ)
    (bought : IsBought amm t.plan_orders_cur t b) (sold : IsSold amm t.plan_orders_cur b s)
    (p : IsPlanned amm t) (next : cur ≡ suc t.plan_orders_cur) where
  round-IsPlanned : IsPlanned amm (record s { plan_orders_cur = cur })
  round-IsPlanned =
      let n = t.plan_orders_cur in
      let worth = cost amm.sys_decimal_value in
      let b_buys = ap (λ z. z.buy_orders) bought.rest in
      let s_buys = ap (λ z. z.buy_orders) sold.rest in
      let b_sells = ap (λ z. z.sell_orders) bought.rest in
      let s_sells = ap (λ z. z.sell_orders) sold.rest in
      let b_x = ap (λ z. z.target_x) bought.rest in
      let s_x = ap (λ z. z.target_x) sold.rest in
      let b_y = ap (λ z. z.target_y) bought.rest in
      let s_y = ap (λ z. z.target_y) sold.rest in
      let buy_x = ap (λ z. z.plan_x_buy) sold.rest in
      let buy_y = ap (λ z. z.plan_y_buy) sold.rest in
      let sell_x = ap (λ z. z.plan_x_sell) bought.rest in
      let sell_y = ap (λ z. z.plan_y_sell) bought.rest in
      let inside : n < length t.sell_orders = rw b_sells at sold.inside in
      let buys = sum_below-set worth n t.buy_orders bought.order bought.inside in
      let buy_vols = sum_below-set vol_of n t.buy_orders bought.order bought.inside in
      let sells = sum_below-set worth n t.sell_orders sold.order inside in
      let sell_vols = sum_below-set vol_of n t.sell_orders sold.order inside in
      record {
        spent_pc =
            rw (next, s_buys, b_buys) (omega (arith, buys, bought.pc, p.spent_pc, b_x, s_x, buy_x));
        bought_coin =
            rw (next, s_buys, b_buys)
              (omega (arith, buy_vols, bought.coin, p.bought_coin, b_y, s_y, buy_y));
        sold_coin =
            rw (next, s_sells, b_sells)
              (omega (arith, sell_vols, sold.coin, p.sold_coin, b_y, s_y, sell_y));
        earned_pc =
            rw (next, s_sells, b_sells)
              (omega (arith, sells, sold.pc, p.earned_pc, b_x, s_x, sell_x));
      }

plan_round-IsPlanned :
    (amm : AmmInfo) (g : Grid) (t : TargetOrders) {t' : TargetOrders}
    → IsPlanned amm t
    → plan_round amm g t.plan_orders_cur t ≡ ok t'
    → IsPlanned amm t' × (t'.plan_orders_cur ≡ suc t.plan_orders_cur)
unfolding plan_round
plan_round-IsPlanned amm g t p h =
    let n = t.plan_orders_cur in
    after_bind (read_at g.fb n) h λ entry _ h1.
      after_bind (unwrap (checked_mul 64 g.grid entry)) h1 λ d _ h2.
        after_bind (plan_buy amm g n d t) h2 λ b e3 h3.
          after_bind (plan_sell amm g n d b) h3 λ s e4 h4.
            after_bind (unwrap (checked_add 64 s.plan_orders_cur 1)) h4 λ cur e5 h5.
              let bought = plan_buy-IsBought amm g n d t e3 in
              let sold = plan_sell-IsSold amm g n d b e4 in
              let s_cur = ap (λ z. z.plan_orders_cur) sold.rest in
              let b_cur = ap (λ z. z.plan_orders_cur) bought.rest in
              let next' : cur ≡ s.plan_orders_cur + 1 = ground arith in
              let next : cur ≡ suc n = omega arith in
              rw (← ok-inj h5) (round-IsPlanned amm t b s cur bought sold p next, next)

pub plan_rounds-IsPlanned :
    (amm : AmmInfo) (g : Grid) (left : ℕ) (t : TargetOrders) {t' : TargetOrders}
    → IsPlanned amm t
    → plan_rounds amm g left t.plan_orders_cur t ≡ ok t'
    → IsPlanned amm t' × (t'.plan_orders_cur ≡ t.plan_orders_cur + left)
unfolding plan_rounds
plan_rounds-IsPlanned amm g zero t p h = rw (← ok-inj h) (p, omega arith)
plan_rounds-IsPlanned amm g (suc left) t p h =
    after_bind (plan_round amm g t.plan_orders_cur t) h λ t1 e1 h1.
      let (p1, next) = plan_round-IsPlanned amm g t p e1 in
      let again : t.plan_orders_cur + 1 ≡ t1.plan_orders_cur = omega arith in
      let (p', last) = plan_rounds-IsPlanned amm g left t1 p1 (rw again at h1) in (p', omega arith)
