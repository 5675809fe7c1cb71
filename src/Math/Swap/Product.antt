-- ===== src/Math/Swap/Product.antt =====
-- What the two swap amounts do to the product of the pool's reserves.
use raydium_amm_fair.Common.{
  ℕ, suc, ◌+◌, ◌-◌, ◌*◌, ◌/◌, ◌≤◌, ◌<◌, ◌≡◌, le_of_mul, quotient_bounds, mul_mono, ◌↔◌, arith,
  Option-cases, inl, inr,
}
use raydium_amm_fair.Outcome.{Outcome, ok, ◌>>=◌, unwrap}
use raydium_amm_fair.Word.{checked_sub, checked_mul}
use raydium_amm_fair.Math.CeilDiv.{
  checked_ceil_div, ceil_quotient, checked_ceil_div-quotient, ceil_quotient_least,
  ceil_quotient_zero, checked_ceil_div-divisor,
}
use raydium_amm_fair.Math.Swap.{
  SwapDirection, coin2pc, pc2coin, swap_token_amount_base_in, swap_token_amount_base_out,
}

-- The reserve that a swap adds to, and the one that it takes from.
abbrev pub reserve_in : SwapDirection → ℕ → ℕ → ℕ
reserve_in coin2pc pc coin = coin
reserve_in pc2coin pc coin = pc

abbrev pub reserve_out : SwapDirection → ℕ → ℕ → ℕ
reserve_out coin2pc pc coin = pc
reserve_out pc2coin pc coin = coin

base_in_value :
    (a pc coin : ℕ) (d : SwapDirection) {out : ℕ}
    → swap_token_amount_base_in a pc coin d ≡ ok out
    → (out ≡ reserve_out d pc coin * a / (reserve_in d pc coin + a))
      × (0 < reserve_in d pc coin + a)
unfolding swap_token_amount_base_in
base_in_value a pc coin coin2pc h = ground arith
base_in_value a pc coin pc2coin h = ground arith

-- The product of the reserves after `a` is added and `out` is taken.
abbrev pub product_after : ℕ → ℕ → ℕ → ℕ → ℕ
product_after i r a out = (i + a) * (r - out)

product_kept : (i r a out : ℕ) → out ≤ r → (i + a) * out ≤ r * a → i * r ≤ product_after i r a out
product_kept i r a out le h =
    let s = r - out in
    let e : r ≡ s + out = omega arith in
    let k : (i + a) * out ≤ (s + out) * a = rw e at h in
    let goal : i * (s + out) ≤ (i + a) * s = omega arith in rw (← e) at goal

product_lost : (i r a out : ℕ) → out < r → r * a < (i + a) * out → product_after i r a out < i * r
product_lost i r a out le h =
    let s = r - out in
    let e : r ≡ s + out = omega arith in
    let k : (s + out) * a < (i + a) * out = rw e at h in
    let goal : (i + a) * s < i * (s + out) = omega arith in rw (← e) at goal

out_le : (i r a out : ℕ) → 0 < i + a → (i + a) * out ≤ r * a → out ≤ r
out_le i r a out p h = le_of_mul (i + a) out r p (omega arith)

-- Where `swap_token_amount_base_in` succeeds, its amount is within the reserve that pays, does not
-- lower the product of the reserves, and every larger amount below that reserve lowers it.
pub base_in_product :
    (a pc coin : ℕ) (d : SwapDirection) {out : ℕ}
    → swap_token_amount_base_in a pc coin d ≡ ok out
    → let i = reserve_in d pc coin in
      let r = reserve_out d pc coin in
      (out ≤ r)
      × (i * r ≤ product_after i r a out)
      × ((o : ℕ) → out < o → o < r → product_after i r a o < i * r)
base_in_product a pc coin d {out} h =
    let (e, p) = base_in_value a pc coin d h in
    let i = reserve_in d pc coin in
    let r = reserve_out d pc coin in
    let (low, high) = quotient_bounds (r * a) (i + a) p in
    let low' : (i + a) * out ≤ r * a = rw e low in
    let high' : r * a < (i + a) * out + (i + a) = rw e high in
    let le = out_le i r a out p low' in
    (
      le,
      product_kept i r a out le low',
      λ o lt ltr. product_lost i r a o ltr (omega (arith, mul_mono (i + a) (suc out) o lt)),
    )

abbrev ceiling_steps : ℕ → ℕ → ℕ → Outcome ℕ
ceiling_steps i r o = do
  denominator ← unwrap (checked_sub r o)
  product ← unwrap (checked_mul 128 i o)
  (quotient, _) ← unwrap (checked_ceil_div product denominator)
  ok quotient

ceiling_steps_value :
    (i r o : ℕ) {a : ℕ} → ceiling_steps i r o ≡ ok a → (a ≡ ceil_quotient (i * o) (r - o)) × (o < r)
ceiling_steps_value i r o h = elim (Option-cases (checked_ceil_div (i * o) (r - o))) [
  | inl e ↦ ground arith
  | inr ((q, rest), e) ↦
      let value = checked_ceil_div-quotient (i * o) (r - o) e in
      let pos = checked_ceil_div-divisor (i * o) (r - o) e in ground arith
]

pub base_out_value :
    (o pc coin : ℕ) (d : SwapDirection) {a : ℕ}
    → swap_token_amount_base_out o pc coin d ≡ ok a
    → (a ≡ ceil_quotient (reserve_in d pc coin * o) (reserve_out d pc coin - o))
      × (o < reserve_out d pc coin)
unfolding swap_token_amount_base_out
base_out_value o pc coin coin2pc h = ceiling_steps_value coin pc o h
base_out_value o pc coin pc2coin h = ceiling_steps_value pc coin o h

kept_by : (i r o a : ℕ) → o < r → i * o ≤ (r - o) * a → i * r ≤ product_after i r a o
kept_by i r o a lt h =
    let s = r - o in
    let e : r ≡ s + o = omega arith in
    let goal : i * (s + o) ≤ (i + a) * s = omega arith in rw (← e) at goal

lost_by : (i r o k : ℕ) → o < r → (r - o) * k < i * o → product_after i r k o < i * r
lost_by i r o k lt h =
    let s = r - o in
    let e : r ≡ s + o = omega arith in
    let goal : (i + k) * s < i * (s + o) = omega arith in rw (← e) at goal

-- Where `swap_token_amount_base_out` succeeds, the amount that goes out is below the reserve that
-- pays; its result, where it is not 0, does not lower the product of the reserves; every smaller
-- amount lowers it; and the result is 0 exactly where the exact quotient is below one half.
pub base_out_least :
    (o pc coin : ℕ) (d : SwapDirection) {a : ℕ}
    → swap_token_amount_base_out o pc coin d ≡ ok a
    → let i = reserve_in d pc coin in
      let r = reserve_out d pc coin in
      (o < r)
      × (0 < a → i * r ≤ product_after i r a o)
      × ((k : ℕ) → k < a → product_after i r k o < i * r)
      × ((a ≡ 0) ↔ (i * o * 2 < r - o))
base_out_least o pc coin d {a} h =
    let (e, lt) = base_out_value o pc coin d h in
    let i = reserve_in d pc coin in
    let r = reserve_out d pc coin in
    let least = ceil_quotient_least (i * o) (r - o) (omega arith) in
    (
      lt,
      λ pos. let (l, u) = least (omega arith) in kept_by i r o a lt (rw e l),
      λ k less.
          let (l, u) = least (omega arith) in
          let u' : (r - o) * a < i * o + (r - o) = rw e u in
          lost_by i r o k lt (omega (arith, mul_mono (r - o) (suc k) a less)),
      rw e (ceil_quotient_zero (i * o) (r - o) (omega arith)),
    )
