-- ===== src/Processor/Pnl/Totals.antt =====
-- What taking the profit does to the pool's totals and to what is owed.
use raydium_amm_fair.Common.{
  ℕ, ◌+◌, ◌*◌, ◌≤◌, ◌≡◌, refl, ◌&&◌, leb, ◌!=◌, arith, Bool-cases, inl, inr,
}
use raydium_amm_fair.Outcome.{ok, unwrap, after_bind, ok-inj}
use raydium_amm_fair.Word.{checked_sub, checked_mul, checked_div, as_width}
use raydium_amm_fair.State.Accounts.{AmmInfo, TargetOrders}
use raydium_amm_fair.Math.Decimal.{restore_decimal, calc_x_power}
use raydium_amm_fair.Processor.Pnl.{Pnl, pnl_share, record_pnl, take_pnl, calc_take_pnl}

-- Only the four counters of the profit change, by the amounts that leave the totals.
pub record IsPnl (amm : AmmInfo) (total_pc total_coin : ℕ) (p : Pnl) : Type 0 where
  pub pc :
      p.total_pc + p.amm.state_data.need_take_pnl_pc ≡ total_pc + amm.state_data.need_take_pnl_pc
  pub coin :
      p.total_coin + p.amm.state_data.need_take_pnl_coin
      ≡ total_coin + amm.state_data.need_take_pnl_coin
  pub owed_pc : amm.state_data.need_take_pnl_pc ≤ p.amm.state_data.need_take_pnl_pc
  pub owed_coin : amm.state_data.need_take_pnl_coin ≤ p.amm.state_data.need_take_pnl_coin
  pub rest : p.amm ≡ record amm {
    state_data = record amm.state_data {
      total_pnl_pc = p.amm.state_data.total_pnl_pc;
      total_pnl_coin = p.amm.state_data.total_pnl_coin;
      need_take_pnl_pc = p.amm.state_data.need_take_pnl_pc;
      need_take_pnl_coin = p.amm.state_data.need_take_pnl_coin;
    };
  }

record_pnl-IsPnl :
    (amm : AmmInfo) (tp tc dx dy fp fc pp cp : ℕ) {p : Pnl}
    → record_pnl amm tp tc dx dy fp fc pp cp ≡ ok p
    → IsPnl amm tp tc p
unfolding record_pnl
record_pnl-IsPnl amm tp tc dx dy fp fc pp cp h = record {
  pc = ground arith;
  coin = ground arith;
  owed_pc = ground arith;
  owed_coin = ground arith;
  rest = ground arith;
}

pub unchanged-IsPnl :
    (amm : AmmInfo) (tp tc : ℕ)
    → IsPnl amm tp tc
        (record { amm = amm; total_pc = tp; total_coin = tc; delta_x = 0; delta_y = 0 })
unchanged-IsPnl amm tp tc = record {
  pc = refl;
  coin = refl;
  owed_pc = omega arith;
  owed_coin = omega arith;
  rest = refl;
}

take_pnl-IsPnl :
    (integer_sqrt : ℕ → ℕ) (target : TargetOrders) (amm : AmmInfo) (tp tc x1 y1 : ℕ) {p : Pnl}
    → take_pnl integer_sqrt target amm tp tc x1 y1 ≡ ok p
    → IsPnl amm tp tc p
unfolding take_pnl
take_pnl-IsPnl integer_sqrt target amm tp tc x1 y1 h =
    after_bind (calc_x_power target.calc_pnl_x target.calc_pnl_y x1 y1) h λ power _ h1.
      let x2 = integer_sqrt power in
      after_bind (unwrap (checked_mul 256 x2 y1)) h1 λ scaled _ h2.
        after_bind (unwrap (checked_div scaled x1)) h2 λ y2 _ h3.
          after_bind (unwrap (checked_sub x1 x2)) h3 λ wide_x _ h4.
            after_bind (as_width 128 wide_x) h4 λ diff_x _ h5.
              after_bind (unwrap (checked_sub y1 y2)) h5 λ wide_y _ h6.
                after_bind (as_width 128 wide_y) h6 λ diff_y _ h7.
                  after_bind (pnl_share amm diff_x) h7 λ dx _ h8.
                    after_bind (pnl_share amm diff_y) h8 λ dy _ h9.
                      after_bind (restore_decimal diff_x amm.pc_decimals amm.sys_decimal_value) h9
                        λ fp _ h10.
                          after_bind
                            (restore_decimal diff_y amm.coin_decimals amm.sys_decimal_value) h10
                            λ fc _ h11. after_bind (pnl_share amm fp) h11 λ ps _ h12.
                              after_bind (as_width 64 ps) h12 λ pp _ h13.
                                after_bind (pnl_share amm fc) h13 λ cs _ h14.
                                  after_bind (as_width 64 cs) h14 λ cp _ h15.
                                    elim (Bool-cases (pp != 0 && cp != 0)) [
                                      | inl e ↦
                                          record_pnl-IsPnl amm tp tc dx dy fp fc pp cp (rw e at h15)
                                      | inr e ↦
                                          let same = ok-inj (rw e at h15) in
                                          let none_taken = unchanged-IsPnl amm tp tc in
                                          rw same at none_taken
                                    ]

-- Where taking the profit succeeds, what leaves each total is what the pool owes more, so that the
-- total and the owed profit together stay as they were, and of the pool's record only the four
-- counters of the profit change. It succeeds only where the product of the totals has not fallen
-- below the product of the amounts of the last time.
pub calc_take_pnl-conserves :
    (integer_sqrt : ℕ → ℕ) (target : TargetOrders) (amm : AmmInfo) (tp tc x1 y1 : ℕ) {p : Pnl}
    → calc_take_pnl integer_sqrt target amm tp tc x1 y1 ≡ ok p
    → IsPnl amm tp tc p
      × (last_pc : ℕ) × (last_coin : ℕ) × (restore_decimal target.calc_pnl_x amm.pc_decimals
            amm.sys_decimal_value
          ≡ ok last_pc)
      × (restore_decimal target.calc_pnl_y amm.coin_decimals amm.sys_decimal_value ≡ ok last_coin)
      × (last_pc * last_coin ≤ tp * tc)
unfolding calc_take_pnl
calc_take_pnl-conserves integer_sqrt target amm tp tc x1 y1 h =
    after_bind (restore_decimal target.calc_pnl_x amm.pc_decimals amm.sys_decimal_value) h
      λ lp e1 h1.
        after_bind (restore_decimal target.calc_pnl_y amm.coin_decimals amm.sys_decimal_value) h1
          λ lc e2 h2. after_bind (unwrap (checked_mul 128 tp tc)) h2 λ pool e3 h3.
            after_bind (unwrap (checked_mul 128 lp lc)) h3 λ last e4 h4.
              elim (Bool-cases (leb last pool)) [
                | inl e ↦
                    let le : last ≤ pool = ground arith in
                    let now : pool ≡ tp * tc = ground arith in
                    let then' : last ≡ lp * lc = ground arith in
                    let le' : lp * lc ≤ tp * tc = rw (then', now) at le in
                    (
                      take_pnl-IsPnl integer_sqrt target amm tp tc x1 y1 (rw e at h4),
                      lp,
                      lc,
                      e1,
                      e2,
                      le',
                    )
                | inr e ↦ absurd (cc (rw e at h4))
              ]
