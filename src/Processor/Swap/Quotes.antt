-- ===== src/Processor/Swap/Quotes.antt =====
-- What the amounts of the two swap handlers do to the product of the reserves.
use raydium_amm_fair.Common.{
  ℕ, zero, suc, some, ◌+◌, ◌-◌, ◌*◌, ◌≤◌, ◌<◌, ◌≡◌, arith, mul_mono, ltb, leb, ◌==◌, ◌||◌,
}
use raydium_amm_fair.Error.{exceeded_slippage, invalid_input, insufficient_funds}
use raydium_amm_fair.Outcome.{ok, unwrap, after_bind, unwrap-eq-ok, fail_if-eq-ok, fail_if-ok}
use raydium_amm_fair.Word.{checked_mul, checked_sub, as_width}
use raydium_amm_fair.State.Fees.{Fees}
use raydium_amm_fair.Instruction.Types.{SwapInstructionBaseIn, SwapInstructionBaseOut}
use raydium_amm_fair.Math.CeilDiv.{
  checked_ceil_div, ceil_quotient_zero, checked_ceil_div-quotient, checked_ceil_div-divisor,
}
use raydium_amm_fair.Math.Swap.{
  SwapDirection, swap_token_amount_base_in, swap_token_amount_base_out,
}
use raydium_amm_fair.Math.Swap.Product.{
  reserve_in, reserve_out, product_after, base_in_product, base_out_least,
}
use raydium_amm_fair.Processor.Swap.Context.{SwapContext, SwapPool}
use raydium_amm_fair.Processor.Swap.BaseIn.{quote_base_in, check_base_in}
use raydium_amm_fair.Processor.Swap.BaseOut.{quote_base_out, check_base_out}

-- More paid in only raises the product.
product_after_mono : (i r a b o : ℕ) → a ≤ b → product_after i r a o ≤ product_after i r b o
product_after_mono i r a b o h =
    let s = r - o in omega (arith, mul_mono s (i + a) (i + b) (omega (arith, h)))

pub quote_base_in-product :
    (fees : Fees) (pool : SwapPool) (d : SwapDirection) (a : ℕ) {fee out : ℕ}
    → quote_base_in fees pool d a ≡ ok (fee, out)
    → let i = reserve_in d pool.total_pc pool.total_coin in
      let r = reserve_out d pool.total_pc pool.total_coin in
      (out ≤ r) × (i * r ≤ product_after i r a out) × (fee ≤ a)
unfolding quote_base_in
quote_base_in-product fees pool d a {fee} {out} h =
    after_bind (unwrap (checked_mul 128 a fees.swap_fee_numerator)) h λ product e1 h1.
      after_bind (unwrap (checked_ceil_div product fees.swap_fee_denominator)) h1 λ pair e2 h2.
        after_bind (unwrap (checked_sub a pair.0)) h2 λ after_fee e3 h3.
          after_bind (swap_token_amount_base_in after_fee pool.total_pc pool.total_coin d) h3
            λ o e4 h4. after_bind (as_width 64 o) h4 λ o' e5 h5.
              let (le, kept, _) = base_in_product after_fee pool.total_pc pool.total_coin d e4 in
              let i = reserve_in d pool.total_pc pool.total_coin in
              let r = reserve_out d pool.total_pc pool.total_coin in
              let same : o ≡ out = ground arith in
              let less : after_fee ≤ a = ground arith in
              let fee_le : fee ≤ a = ground arith in
              let more = product_after_mono i r after_fee a o less in
              let kept' : i * r ≤ product_after i r a o = omega (arith, kept, more) in
              (rw same at le, rw same at kept', fee_le)

pub check_base_in-limits :
    (c : SwapContext) (swap : SwapInstructionBaseIn) (out : ℕ)
    → check_base_in c swap out ≡ ok tt
    → (swap.minimum_amount_out ≤ out)
      × (0 < out)
      × (0 < swap.amount_in)
      × (out < reserve_out c.direction c.pool.total_pc c.pool.total_coin)
unfolding check_base_in
check_base_in-limits c swap out h =
    let (e1, h1) = fail_if-eq-ok (ltb out swap.minimum_amount_out) exceeded_slippage _ h in
    let (e2, h2) = fail_if-eq-ok (out == 0 || swap.amount_in == 0) invalid_input _ h1 in
    let r = reserve_out c.direction c.pool.total_pc c.pool.total_coin in
    let e3 = fail_if-ok (leb r out) insufficient_funds h2 in
    (ground arith, ground arith, ground arith, ground arith)

-- A fee on nothing is nothing.
positive_before :
    (before den rest a : ℕ) {s : ℕ}
    → checked_ceil_div (before * den) rest ≡ some (a, s)
    → 0 < a
    → 0 < before
positive_before zero den rest a h pos =
    let q = checked_ceil_div-quotient (zero * den) rest h in
    let b = checked_ceil_div-divisor (zero * den) rest h in
    let (_, to_zero) = ceil_quotient_zero (zero * den) rest b in
    absurd omega (arith, q, pos, to_zero omega arith)
positive_before (suc n) den rest a h pos = omega arith

pub quote_base_out-product :
    (fees : Fees) (pool : SwapPool) (d : SwapDirection) (out : ℕ) {amount_in fee : ℕ}
    → quote_base_out fees pool d out ≡ ok (amount_in, fee)
    → 0 < amount_in
    → let i = reserve_in d pool.total_pc pool.total_coin in
      let r = reserve_out d pool.total_pc pool.total_coin in i * r ≤ product_after i r amount_in out
unfolding quote_base_out
quote_base_out-product fees pool d out {amount_in} {fee} h pos =
    after_bind (swap_token_amount_base_out out pool.total_pc pool.total_coin d) h λ before e1 h1.
      after_bind (unwrap (checked_mul 128 before fees.swap_fee_denominator)) h1 λ product e2 h2.
        after_bind (unwrap (checked_sub fees.swap_fee_denominator fees.swap_fee_numerator)) h2
          λ rest e3 h3. after_bind (unwrap (checked_ceil_div product rest)) h3 λ pair e4 h4.
            after_bind (as_width 64 pair.0) h4 λ a e5 h5.
              after_bind (as_width 64 before) h5 λ b e6 h6.
                after_bind (unwrap (checked_sub a b)) h6 λ f e7 h7.
                  let (lt, kept, _, _) = base_out_least out pool.total_pc pool.total_coin d e1 in
                  let i = reserve_in d pool.total_pc pool.total_coin in
                  let r = reserve_out d pool.total_pc pool.total_coin in
                  let e4' = unwrap-eq-ok (checked_ceil_div product rest) e4 in
                  let charged : pair.0 ≡ amount_in = ground arith in
                  let base : product ≡ before * fees.swap_fee_denominator = ground arith in
                  let some_before =
                    positive_before before fees.swap_fee_denominator rest amount_in
                      (rw charged at rw base at e4') pos in
                  let less : before ≤ amount_in = ground arith in
                  omega (arith, kept some_before, product_after_mono i r before amount_in out less)

pub check_base_out-limits :
    (c : SwapContext) (swap : SwapInstructionBaseOut) (a : ℕ)
    → check_base_out c swap a ≡ ok tt
    → (a ≤ swap.max_amount_in)
      × (0 < a)
      × (0 < swap.amount_out)
      × (swap.amount_out < reserve_out c.direction c.pool.total_pc c.pool.total_coin)
      × (a ≤ c.source.amount)
unfolding check_base_out
check_base_out-limits c swap a h =
    let (e1, h1) = fail_if-eq-ok (ltb c.source.amount a) insufficient_funds _ h in
    let (e2, h2) = fail_if-eq-ok (ltb swap.max_amount_in a) exceeded_slippage _ h1 in
    let (e3, h3) = fail_if-eq-ok (a == 0 || swap.amount_out == 0) invalid_input _ h2 in
    let r = reserve_out c.direction c.pool.total_pc c.pool.total_coin in
    let e4 = fail_if-ok (leb r swap.amount_out) insufficient_funds h3 in
    (ground arith, ground arith, ground arith, ground arith, ground arith)
