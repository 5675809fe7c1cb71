-- ===== src/Math/Decimal/Bounds.antt =====
-- Bounds and round trips of the decimal and lot conversions.
use raydium_amm_fair.Common.{ℕ, ◌+◌, ◌*◌, ◌/◌, ◌≤◌, ◌<◌, ◌≡◌, arith}
use raydium_amm_fair.Outcome.{ok}
use raydium_amm_fair.Math.Decimal.{floor_lot}

-- Where `floor_lot` succeeds, its result is the value divided by the lot size, rounded down, times
-- the lot size; it is not above the value, and less than one lot below it.
pub floor_lot_nearest :
    (val lot : ℕ) {ret : ℕ}
    → floor_lot val lot ≡ ok ret
    → (ret ≡ val / lot * lot) × (ret ≤ val) × (val < ret + lot)
unfolding floor_lot
floor_lot_nearest val lot h = grind arith
