-- ===== src/Math/CeilDiv.antt =====
-- The trait `CheckedCeilDiv` of program/src/math.rs, which `u128` and `U128` implement alike.
use raydium_amm_fair.Common.{
  ℕ, ◌+◌, ◌*◌, ◌/◌, ◌%◌, ◌≤◌, ◌<◌, ◌≡◌, Option, none, some, arith, ltb, leb, ◌==◌, Bool-cases, inl,
  inr, ◌↔◌, dec_le, le_quotient, if◌then◌else◌,
}
use raydium_amm_fair.Word.{checked_add, checked_mul, checked_div, checked_rem}

infixl 5 ◌>>=◌
abbrev ◌>>=◌ {ℓ κ} : {A : Type ℓ} {B : Type κ} → Option A → (A → Option B) → Option B
none >>= f = none
some a >>= f = f a

-- The quotient and the adjusted divisor.
unfoldable pub checked_ceil_div : ℕ → ℕ → Option (ℕ × ℕ)
checked_ceil_div self rhs = do
  quotient ← checked_div self rhs
  if quotient == 0
      then (do doubled ← checked_mul 128 self 2; some (if leb rhs doubled then (1, 0) else (0, 0)))
      else (do
        remainder ← checked_rem self rhs
        if ltb 0 remainder
            then (do
              quotient' ← checked_add 128 quotient 1
              rhs' ← checked_div self quotient'
              remainder' ← checked_rem self quotient'
              if ltb 0 remainder'
                  then (do rhs'' ← checked_add 128 rhs' 1; some (quotient', rhs''))
                  else some (quotient', rhs'))
            else some (quotient, rhs))

-- The first component, as a function of its own.
pub ceil_quotient : ℕ → ℕ → ℕ
ceil_quotient a b =
    if a / b == 0
    then (if leb b (a * 2) then 1 else 0)
    else (if ltb 0 (a % b) then a / b + 1 else a / b)

pub checked_ceil_div-quotient :
    (a b : ℕ) {q r : ℕ} → checked_ceil_div a b ≡ some (q, r) → q ≡ ceil_quotient a b
unfolding checked_ceil_div ceil_quotient
checked_ceil_div-quotient a b {q} {r} h = elim (Bool-cases (b == 0)) [
  | inl z ↦ cc (rw z at h)
  | inr n ↦ elim (Bool-cases (a / b == 0)) [
    | inl small ↦ rw small (ground (arith, rw (n, small) at h))
    | inr big ↦ elim (Bool-cases (ltb 0 (a % b))) [
      | inl rest ↦ rw (big, rest) (ground (arith, rw (n, big, rest) at h))
      | inr exact ↦ rw (big, exact) (cc (rw (n, big, exact) at h))
    ]
  ]
]

pub checked_ceil_div-divisor : (a b : ℕ) {q r : ℕ} → checked_ceil_div a b ≡ some (q, r) → 0 < b
unfolding checked_ceil_div
checked_ceil_div-divisor a b h = elim (Bool-cases (b == 0)) [
  | inl z ↦ absurd (cc (rw z at h))
  | inr n ↦ ground arith
]

above : (a b : ℕ) → 0 < b → b ≤ a → 0 < a / b
above a b p h = le_quotient a b 1 p (omega arith)

below : (a b : ℕ) → a < b → a / b ≡ 0
below a b h = grind arith

-- Where the dividend is not below the divisor, the quotient is the ceiling.
ceil_quotient_large :
    (a b : ℕ)
    → 0 < b
    → b ≤ a
    → (a ≤ b * ceil_quotient a b) × (b * ceil_quotient a b < a + b) × (0 < ceil_quotient a b)
unfolding ceil_quotient
ceil_quotient_large a b p h = grind (arith, above a b p h)

-- Below the divisor the quotient is 1 from one half on, and 0 under it.
ceil_quotient_small : (a b : ℕ) → a < b → ceil_quotient a b ≡ (if leb b (a * 2) then 1 else 0)
unfolding ceil_quotient
ceil_quotient_small a b h = rw (below a b h)

-- A quotient that is not 0 is the ceiling: the least number whose product reaches the dividend.
pub ceil_quotient_least :
    (a b : ℕ)
    → 0 < b
    → 0 < ceil_quotient a b
    → (a ≤ b * ceil_quotient a b) × (b * ceil_quotient a b < a + b)
ceil_quotient_least a b p pos = elim (dec_le b a) [
  | yes h ↦ let (l, u, _) = ceil_quotient_large a b p h in (l, u)
  | no h ↦ let e = ceil_quotient_small a b (omega arith) in ground arith
]

-- The quotient is 0 exactly when the dividend is less than half of the divisor.
pub ceil_quotient_zero : (a b : ℕ) → 0 < b → (ceil_quotient a b ≡ 0) ↔ (a * 2 < b)
ceil_quotient_zero a b p = elim (dec_le b a) [
  | yes h ↦ let (_, _, pos) = ceil_quotient_large a b p h in (λ e. omega arith, λ l. omega arith)
  | no h ↦ let e = ceil_quotient_small a b (omega arith) in ground arith
]
