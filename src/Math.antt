-- ===== src/Math.antt =====
-- program/src/math.rs: the checked ceiling division, decimals and lots, the Fibonacci distances, the
-- exchange rates of pool shares, the pool's totals, order sizes, and the swap amounts.
pub mod CeilDiv
pub mod Decimal
pub mod Fibonacci
pub mod Exchange
pub mod Sizes
pub mod Swap
pub mod Totals
