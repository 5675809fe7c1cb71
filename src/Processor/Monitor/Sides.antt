-- ===== src/Processor/Monitor/Sides.antt =====
-- What one order of `do_plan_orderbook` (program/src/processor.rs) does to the plan.
use raydium_amm_fair.Common.{
  ℕ, zero, suc, ◌+◌, ◌*◌, ◌/◌, ◌<◌, ◌≡◌, sym, List, [], ◌∷◌, ltb, ◌!=◌, length, set, if◌then◌else◌,
  arith, Bool-cases, inl, inr,
}
use raydium_amm_fair.Outcome.{ok, unwrap, write_at, after_bind, ok-inj, ◌>>=◌}
use raydium_amm_fair.Word.{checked_add, checked_sub}
use raydium_amm_fair.State.Accounts.{AmmInfo, TargetOrder, TargetOrders}
use raydium_amm_fair.Math.Sizes.{get_max_buy_size_at_price, get_max_sell_size_at_price}
use raydium_amm_fair.Processor.Monitor.Prices.{
  Grid, buy_price_of, sell_price_of, cut_vol, lots_of_vol, pc_of_qty,
}
use raydium_amm_fair.Processor.Monitor.Plan.{plan_buy, plan_sell}

-- The sum of a measure over the first `n` orders.
unfoldable pub sum_below : (TargetOrder → ℕ) → ℕ → List TargetOrder → ℕ
sum_below f zero orders = 0
sum_below f (suc n) [] = 0
sum_below f (suc n) (order ∷ orders) = f order + sum_below f n orders

pub sum_below-set :
    (f : TargetOrder → ℕ) (n : ℕ) (orders : List TargetOrder) (order : TargetOrder)
    → n < length orders
    → sum_below f (suc n) (set orders n order) ≡ sum_below f n orders + f order
unfolding sum_below
sum_below-set f n [] order h = absurd (omega arith)
sum_below-set f zero (x ∷ xs) order h = omega arith
sum_below-set f (suc n) (x ∷ xs) order h = omega (arith, sum_below-set f n xs order (omega arith))

-- The pc that an order is worth, rounded down.
abbrev pub cost : ℕ → TargetOrder → ℕ
cost sys_decimal_value order = order.vol * order.price / sys_decimal_value

abbrev pub vol_of : TargetOrder → ℕ
vol_of order = order.vol

write_at-ok :
    (orders : List TargetOrder) (i : ℕ) (order : TargetOrder) {orders' : List TargetOrder}
    → write_at orders i order ≡ ok orders'
    → (i < length orders) × (orders' ≡ set orders i order)
write_at-ok orders i order h = elim (Bool-cases (ltb i (length orders))) [
  | inl inside ↦ (ground arith, sym (ok-inj (rw inside at h)))
  | inr outside ↦ absurd (cc (rw outside at h))
]

-- What one planned order does to the buy side, and that it leaves everything else.
pub record IsBought (amm : AmmInfo) (i : ℕ) (t t' : TargetOrders) : Type 0 where
  pub order : TargetOrder
  pub inside : i < length t.buy_orders
  pub pc : t'.plan_x_buy + cost amm.sys_decimal_value order ≡ t.plan_x_buy
  pub coin : t'.plan_y_buy ≡ t.plan_y_buy + order.vol
  pub rest : t' ≡ record t {
    plan_x_buy = t'.plan_x_buy;
    plan_y_buy = t'.plan_y_buy;
    buy_orders = set t.buy_orders i order;
  }

pub record IsSold (amm : AmmInfo) (i : ℕ) (t t' : TargetOrders) : Type 0 where
  pub order : TargetOrder
  pub inside : i < length t.sell_orders
  pub coin : t'.plan_y_sell + order.vol ≡ t.plan_y_sell
  pub pc : t'.plan_x_sell ≡ t.plan_x_sell + cost amm.sys_decimal_value order
  pub rest : t' ≡ record t {
    plan_x_sell = t'.plan_x_sell;
    plan_y_sell = t'.plan_y_sell;
    sell_orders = set t.sell_orders i order;
  }

pc_of_qty-cost :
    (amm : AmmInfo) (qty price : ℕ) {pc : ℕ}
    → pc_of_qty amm qty price ≡ ok pc
    → pc ≡ cost amm.sys_decimal_value (record { price = price; vol = qty })
unfolding pc_of_qty
pc_of_qty-cost amm qty price h = ground arith

pub plan_buy-IsBought :
    (amm : AmmInfo) (g : Grid) (i d : ℕ) (t : TargetOrders) {t' : TargetOrders}
    → plan_buy amm g i d t ≡ ok t'
    → IsBought amm i t t'
unfolding plan_buy
plan_buy-IsBought amm g i d t h = after_bind (buy_price_of amm t g i d) h λ price _ h1.
    after_bind
      (if price != 0
        then get_max_buy_size_at_price price t.plan_x_buy t.plan_y_buy amm >>= cut_vol amm
        else ok 0)
      h1
      λ vol _ h2. after_bind (lots_of_vol amm vol) h2 λ qty _ h3.
        after_bind (pc_of_qty amm qty price) h3 λ spent e4 h4.
          after_bind (unwrap (checked_sub t.plan_x_buy spent)) h4 λ x e5 h5.
            after_bind (unwrap (checked_add 128 t.plan_y_buy qty)) h5 λ y e6 h6.
              let order : TargetOrder = record { price = price; vol = qty } in
              after_bind (write_at t.buy_orders i order) h6 λ orders e7 h7.
                let worth = pc_of_qty-cost amm qty price e4 in
                let (inside, put) = write_at-ok t.buy_orders i order e7 in
                let left : x + spent ≡ t.plan_x_buy = ground arith in
                let more : y ≡ t.plan_y_buy + qty = ground arith in
                let bought : IsBought amm i t
                    (record t { plan_x_buy = x; plan_y_buy = y; buy_orders = orders }) =
                  record {
                    order = order;
                    inside = inside;
                    pc = rw worth at left;
                    coin = more;
                    rest = rw put;
                  } in
                rw (← ok-inj h7) bought

pub plan_sell-IsSold :
    (amm : AmmInfo) (g : Grid) (i d : ℕ) (t : TargetOrders) {t' : TargetOrders}
    → plan_sell amm g i d t ≡ ok t'
    → IsSold amm i t t'
unfolding plan_sell
plan_sell-IsSold amm g i d t h = after_bind (sell_price_of amm t g i d) h λ price _ h1.
    after_bind (get_max_sell_size_at_price price t.plan_x_sell t.plan_y_sell amm) h1 λ most _ h2.
      after_bind (cut_vol amm most) h2 λ vol _ h3. after_bind (lots_of_vol amm vol) h3 λ qty _ h4.
        after_bind (unwrap (checked_sub t.plan_y_sell qty)) h4 λ y e5 h5.
          after_bind (pc_of_qty amm qty price) h5 λ earned e6 h6.
            after_bind (unwrap (checked_add 128 t.plan_x_sell earned)) h6 λ x e7 h7.
              let order : TargetOrder = record { price = price; vol = qty } in
              after_bind (write_at t.sell_orders i order) h7 λ orders e8 h8.
                let worth = pc_of_qty-cost amm qty price e6 in
                let (inside, put) = write_at-ok t.sell_orders i order e8 in
                let left : y + qty ≡ t.plan_y_sell = ground arith in
                let more : x ≡ t.plan_x_sell + earned = ground arith in
                let sold : IsSold amm i t
                    (record t { plan_x_sell = x; plan_y_sell = y; sell_orders = orders }) =
                  record {
                    order = order;
                    inside = inside;
                    coin = left;
                    pc = rw worth at more;
                    rest = rw put;
                  } in
                rw (← ok-inj h8) sold
