-- ===== src/Math/Exchange.antt =====
-- `InvariantToken` and `InvariantPool` (program/src/math.rs).
pub mod Shares
use raydium_amm_fair.Common.{ℕ}
use raydium_amm_fair.Outcome.{Outcome, ◌>>=◌, unwrap}
use raydium_amm_fair.Word.{checked_mul, checked_div, as_width}
use raydium_amm_fair.Math.CeilDiv.{checked_ceil_div}

pub data RoundDirection : Type 0 where
  floor ceiling : RoundDirection

-- a * b / c, rounded; the four exchange functions have this body.
unfoldable pub exchange : ℕ → ℕ → ℕ → RoundDirection → Outcome ℕ
exchange amount numerator denominator floor = do
  product ← unwrap (checked_mul 128 amount numerator)
  quotient ← unwrap (checked_div product denominator)
  as_width 64 quotient
exchange amount numerator denominator ceiling = do
  product ← unwrap (checked_mul 128 amount numerator)
  (quotient, _) ← unwrap (checked_ceil_div product denominator)
  as_width 64 quotient

pub record InvariantToken : Type 0 where
  pub token_coin : ℕ
  pub token_pc : ℕ

unfoldable pub exchange_coin_to_pc : InvariantToken → ℕ → RoundDirection → Outcome ℕ
exchange_coin_to_pc self token_coin direction =
    exchange token_coin self.token_pc self.token_coin direction

unfoldable pub exchange_pc_to_coin : InvariantToken → ℕ → RoundDirection → Outcome ℕ
exchange_pc_to_coin self token_pc direction =
    exchange token_pc self.token_coin self.token_pc direction

pub record InvariantPool : Type 0 where
  pub token_input : ℕ
  pub token_total : ℕ

unfoldable pub exchange_pool_to_token : InvariantPool → ℕ → RoundDirection → Outcome ℕ
exchange_pool_to_token self token_total_amount direction =
    exchange token_total_amount self.token_input self.token_total direction

unfoldable pub exchange_token_to_pool : InvariantPool → ℕ → RoundDirection → Outcome ℕ
exchange_token_to_pool self pool_total_amount direction =
    exchange pool_total_amount self.token_input self.token_total direction
