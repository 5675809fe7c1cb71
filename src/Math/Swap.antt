-- ===== src/Math/Swap.antt =====
-- `Calculator::swap_token_amount_base_in` and `swap_token_amount_base_out` (program/src/math.rs).
-- The arguments have the source's order: the amount, the pool's pc, the pool's coin.
pub mod Product
use raydium_amm_fair.Common.{ℕ, ◌+◌, ◌*◌}
use raydium_amm_fair.Outcome.{Outcome, ok, ◌>>=◌, unwrap}
use raydium_amm_fair.Word.{checked_add, checked_sub, checked_mul, checked_div}
use raydium_amm_fair.Math.CeilDiv.{checked_ceil_div}

pub data SwapDirection : Type 0 where
  pc2coin coin2pc : SwapDirection

-- The discriminants, which the swap logs record.
pub direction_code : SwapDirection → ℕ
direction_code pc2coin = 1
direction_code coin2pc = 2

unfoldable pub swap_token_amount_base_in : ℕ → ℕ → ℕ → SwapDirection → Outcome ℕ
swap_token_amount_base_in amount_in total_pc total_coin coin2pc = do
  denominator ← unwrap (checked_add 128 total_coin amount_in)
  product ← unwrap (checked_mul 128 total_pc amount_in)
  unwrap (checked_div product denominator)
swap_token_amount_base_in amount_in total_pc total_coin pc2coin = do
  denominator ← unwrap (checked_add 128 total_pc amount_in)
  product ← unwrap (checked_mul 128 total_coin amount_in)
  unwrap (checked_div product denominator)

unfoldable pub swap_token_amount_base_out : ℕ → ℕ → ℕ → SwapDirection → Outcome ℕ
swap_token_amount_base_out amount_out total_pc total_coin coin2pc = do
  denominator ← unwrap (checked_sub total_pc amount_out)
  product ← unwrap (checked_mul 128 total_coin amount_out)
  (quotient, _) ← unwrap (checked_ceil_div product denominator)
  ok quotient
swap_token_amount_base_out amount_out total_pc total_coin pc2coin = do
  denominator ← unwrap (checked_sub total_coin amount_out)
  product ← unwrap (checked_mul 128 total_pc amount_out)
  (quotient, _) ← unwrap (checked_ceil_div product denominator)
  ok quotient
