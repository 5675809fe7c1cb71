-- ===== src/Processor/Deposit/Shares.antt =====
-- What a deposit does to the value of a share.
use raydium_amm_fair.Common.{ℕ, ◌*◌, ◌≤◌, ◌<◌, ◌≡◌, arith, ltb, ◌==◌, Bool-cases, inl, inr}
use raydium_amm_fair.Error.{exceeded_slippage}
use raydium_amm_fair.Outcome.{ok, after_bind, fail_if-eq-ok}
use raydium_amm_fair.Instruction.Types.{DepositInstruction}
use raydium_amm_fair.Math.Exchange.{
  floor, ceiling, InvariantToken, exchange_coin_to_pc, exchange_pc_to_coin, exchange_token_to_pool,
}
use raydium_amm_fair.Math.Exchange.Shares.{
  exchange_floor-bounds, exchange_ceiling-bounds, other_fair,
}
use raydium_amm_fair.Processor.Pnl.{Pnl}
use raydium_amm_fair.Processor.Deposit.{below_min, quote_deposit}

-- The shares that a deposit is given are within its part of either token.
pub quote_deposit-fair :
    (deposit : DepositInstruction) (p : Pnl) {dc dp m : ℕ}
    → quote_deposit deposit p ≡ ok (dc, dp, m)
    → 0 < dc
    → 0 < dp
    → (p.total_coin * m ≤ p.amm.lp_amount * dc) × (p.total_pc * m ≤ p.amm.lp_amount * dp)
unfolding quote_deposit exchange_coin_to_pc exchange_pc_to_coin exchange_token_to_pool
quote_deposit-fair deposit p {dc} {dp} {m} h pc pp = elim (Bool-cases (deposit.base_side == 0)) [
  | inl e ↦
      let invariant : InvariantToken = record {
        token_coin = p.total_coin;
        token_pc = p.total_pc;
      } in
      after_bind (exchange_coin_to_pc invariant deposit.max_coin_amount ceiling) (rw e at h)
        λ dp' e1 h1.
          let (_, h2) = fail_if-eq-ok (ltb deposit.max_pc_amount dp') exceeded_slippage _ h1 in
          let (_, h3) =
            fail_if-eq-ok (below_min deposit.other_amount_min dp') exceeded_slippage _ h2 in
          after_bind
            (exchange_token_to_pool
              (record { token_input = deposit.max_coin_amount; token_total = p.total_coin })
              p.amm.lp_amount floor)
            h3
            λ m' e2 h4.
              let same_c : deposit.max_coin_amount ≡ dc = ground arith in
              let same_p : dp' ≡ dp = ground arith in
              let same_m : m' ≡ m = ground arith in
              let (pos, high, _) =
                exchange_ceiling-bounds deposit.max_coin_amount p.total_pc p.total_coin e1
                  (rw same_p pp) in
              let (_, low, _) =
                exchange_floor-bounds p.amm.lp_amount deposit.max_coin_amount p.total_coin e2 in
              let low' = rw (same_c, same_m) at low in
              let high' = rw (same_c, same_p) at high in
              (low', other_fair p.amm.lp_amount p.total_coin p.total_pc dc dp m pos low' high')
  | inr e ↦
      let invariant : InvariantToken = record {
        token_coin = p.total_coin;
        token_pc = p.total_pc;
      } in
      after_bind (exchange_pc_to_coin invariant deposit.max_pc_amount ceiling) (rw e at h)
        λ dc' e1 h1.
          let (_, h2) = fail_if-eq-ok (ltb deposit.max_coin_amount dc') exceeded_slippage _ h1 in
          let (_, h3) =
            fail_if-eq-ok (below_min deposit.other_amount_min dc') exceeded_slippage _ h2 in
          after_bind
            (exchange_token_to_pool
              (record { token_input = deposit.max_pc_amount; token_total = p.total_pc })
              p.amm.lp_amount floor)
            h3
            λ m' e2 h4.
              let same_p : deposit.max_pc_amount ≡ dp = ground arith in
              let same_c : dc' ≡ dc = ground arith in
              let same_m : m' ≡ m = ground arith in
              let (pos, high, _) =
                exchange_ceiling-bounds deposit.max_pc_amount p.total_coin p.total_pc e1
                  (rw same_c pc) in
              let (_, low, _) =
                exchange_floor-bounds p.amm.lp_amount deposit.max_pc_amount p.total_pc e2 in
              let low' = rw (same_p, same_m) at low in
              let high' = rw (same_c, same_p) at high in
              (other_fair p.amm.lp_amount p.total_pc p.total_coin dp dc m pos low' high', low')
]
