-- ===== src/Word.antt =====
-- Fixed-width unsigned integers as numbers: the checked operations of Rust's `u64` and `u128`, and
-- of the `U128` and `U256` of program/src/math.rs. The width is the first argument.
use raydium_amm_fair.Common.{
  ℕ, ◌+◌, ◌-◌, ◌*◌, ◌/◌, ◌%◌, ◌^◌, Option, none, some, ltb, leb, ◌==◌, if◌then◌else◌,
}
use raydium_amm_fair.Outcome.{Outcome, ok, panic}

-- A result that must fit `w` bits.
abbrev pub fits : ℕ → ℕ → Option ℕ
fits w n = if ltb n (2 ^ w) then some n else none

abbrev pub checked_add : ℕ → ℕ → ℕ → Option ℕ
checked_add w a b = fits w (a + b)

abbrev pub checked_sub : ℕ → ℕ → Option ℕ
checked_sub a b = if leb b a then some (a - b) else none

abbrev pub checked_mul : ℕ → ℕ → ℕ → Option ℕ
checked_mul w a b = fits w (a * b)

abbrev pub checked_div : ℕ → ℕ → Option ℕ
checked_div a b = if b == 0 then none else some (a / b)

abbrev pub checked_rem : ℕ → ℕ → Option ℕ
checked_rem a b = if b == 0 then none else some (a % b)

abbrev pub checked_pow : ℕ → ℕ → ℕ → Option ℕ
checked_pow w a n = fits w (a ^ n)

-- `as_u64()` and `as_u128()` of a wider integer panic where the value does not fit.
abbrev pub as_width : ℕ → ℕ → Outcome ℕ
as_width w n = if ltb n (2 ^ w) then ok n else panic
