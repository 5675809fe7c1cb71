-- ===== src/Tests/Wire.antt =====
-- Instructions on the wire.
use raydium_amm_fair.Common.{◌≡◌, some, arith}
use raydium_amm_fair.Outcome.{ok, ◌>>=◌}
use raydium_amm_fair.State.Fees.{initial_fees, unpack_from_slice, pack_into_slice}
use raydium_amm_fair.Instruction.Types.{AmmInstruction}
use raydium_amm_fair.Instruction.Unpack.{unpack}
use raydium_amm_fair.Instruction.Pack.{pack}
use raydium_amm_fair.Instruction.Reading.{unpack_from_slice-pack}
use raydium_amm_fair.Instruction.RoundTrip.{unpack-pack}

abbrev deposit : AmmInstruction
deposit = AmmInstruction.deposit (record {
  max_coin_amount = 1000;
  max_pc_amount = 70000;
  base_side = 1;
  other_amount_min = some 5;
})

unpack-pack_example : (pack deposit >>= unpack) ≡ ok deposit
unpack-pack_example = unpack-pack deposit (omega arith, omega arith, omega arith, omega arith)

unpack_from_slice-pack_example : unpack_from_slice (pack_into_slice initial_fees) ≡ ok initial_fees
unpack_from_slice-pack_example = unpack_from_slice-pack initial_fees (record {
  min_separate_numerator = omega arith;
  min_separate_denominator = omega arith;
  trade_fee_numerator = omega arith;
  trade_fee_denominator = omega arith;
  pnl_numerator = omega arith;
  pnl_denominator = omega arith;
  swap_fee_numerator = omega arith;
  swap_fee_denominator = omega arith;
})
