-- ===== src/Math/Exchange/Shares.antt =====
-- What the exchanges of liquidity do to a share of the pool.
use raydium_amm_fair.Common.{
  ℕ, ◌+◌, ◌-◌, ◌*◌, ◌/◌, ◌≤◌, ◌<◌, ◌≡◌, arith, quotient_bounds, mul_mono, le_of_mul,
}
use raydium_amm_fair.Outcome.{ok, unwrap, after_bind, unwrap-eq-ok}
use raydium_amm_fair.Word.{checked_mul}
use raydium_amm_fair.Math.CeilDiv.{
  checked_ceil_div, ceil_quotient, ceil_quotient_least, checked_ceil_div-quotient,
  checked_ceil_div-divisor,
}
use raydium_amm_fair.Math.Exchange.{exchange, floor, ceiling}

-- Rounded down, the result is the largest whose multiple stays within the product.
pub exchange_floor-bounds :
    (a n d : ℕ) {q : ℕ}
    → exchange a n d floor ≡ ok q
    → (0 < d) × (d * q ≤ a * n) × (a * n < d * q + d)
unfolding exchange
exchange_floor-bounds a n d {q} h =
    let p : 0 < d = ground arith in
    let e : q ≡ a * n / d = ground arith in
    let (low, high) = quotient_bounds (a * n) d p in (p, rw e low, rw e high)

-- Rounded up, a result above 0 is the least whose multiple reaches the product.
pub exchange_ceiling-bounds :
    (a n d : ℕ) {q : ℕ}
    → exchange a n d ceiling ≡ ok q
    → 0 < q
    → (0 < d) × (a * n ≤ d * q) × (d * q < a * n + d)
unfolding exchange
exchange_ceiling-bounds a n d {q} h pos =
    after_bind (unwrap (checked_mul 128 a n)) h λ product e1 h1.
      after_bind (unwrap (checked_ceil_div product d)) h1 λ pair e2 h2.
        let base : product ≡ a * n = ground arith in
        let e2' = unwrap-eq-ok (checked_ceil_div product d) e2 in
        let value = checked_ceil_div-quotient product d e2' in
        let p = checked_ceil_div-divisor product d e2' in
        let same : pair.0 ≡ q = ground arith in
        let value' : q ≡ ceil_quotient (a * n) d = rw (same, base) at value in
        let (low, high) = ceil_quotient_least (a * n) d p (rw value' at pos) in
        (p, rw value' low, rw value' high)

-- Liquidity in: where `m` shares are issued for at most their part of each token, no share loses.
pub issue_fair :
    (lp total paid m : ℕ) → total * m ≤ lp * paid → total * (lp + m) ≤ (total + paid) * lp
issue_fair lp total paid m h = omega arith

-- Where the other token is paid at the rate of the pool or above, it is fair for that one too.
pub other_fair :
    (lp base other paid paid_other m : ℕ)
    → 0 < base
    → base * m ≤ lp * paid
    → paid * other ≤ base * paid_other
    → other * m ≤ lp * paid_other
other_fair lp base other paid paid_other m p h h' =
    let x = mul_mono other (base * m) (lp * paid) h in
    let y = mul_mono lp (paid * other) (base * paid_other) h' in
    le_of_mul base (other * m) (lp * paid_other) p omega (arith, x, y)

redeem_kept : (a b m out : ℕ) → (a + m) * out ≤ (b + out) * m → (b + out) * a ≤ b * (a + m)
redeem_kept a b m out h = omega arith

-- Liquidity out: where the part that is paid for `m` shares is rounded down, no other share loses.
pub redeem_fair :
    (lp total m out : ℕ)
    → m ≤ lp
    → out ≤ total
    → lp * out ≤ total * m
    → total * (lp - m) ≤ (total - out) * lp
redeem_fair lp total m out le le' h =
    let a = lp - m in
    let b = total - out in
    let ea : lp ≡ a + m = omega arith in
    let eb : total ≡ b + out = omega arith in
    let kept = redeem_kept a b m out (rw (← ea, ← eb) h) in rw (← ea, ← eb) at kept
