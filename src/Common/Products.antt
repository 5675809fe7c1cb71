-- ===== src/Common/Products.antt =====
-- Inequalities between products, and the two bounds of a quotient.
use Prim.Native.Nat.{ℕ, ◌+◌, ◌*◌, ◌/◌, ◌≤◌, ◌<◌}
use native.Mathlib.Decide.{dec_le}
use native.Mathlib.Omega.{arith}

pub mul_mono : (d a b : ℕ) → a ≤ b → d * a ≤ d * b
mul_mono d a b h = grind arith

pub le_of_mul : (d a b : ℕ) → 0 < d → d * a ≤ d * b → a ≤ b
le_of_mul d a b p h = elim (dec_le a b) [
  | yes le ↦ le
  | no gt ↦ absurd (omega (arith, mul_mono d (b + 1) a (omega arith)))
]

pub lt_of_mul : (d a b : ℕ) → d * a < d * b → a < b
lt_of_mul d a b h = elim (dec_le b a) [
  | yes le ↦ absurd (omega (arith, mul_mono d b a le))
  | no gt ↦ omega arith
]

pub quotient_bounds : (n d : ℕ) → 0 < d → (d * (n / d) ≤ n) × (n < d * (n / d) + d)
quotient_bounds n d p = grind arith

-- The quotient is the greatest number whose product with the divisor does not pass `n`.
pub le_quotient : (n d k : ℕ) → 0 < d → d * k ≤ n → k ≤ n / d
le_quotient n d k p h =
    let b = quotient_bounds n d p in
    let lt : k < n / d + 1 = lt_of_mul d k (n / d + 1) (omega arith) in omega arith
