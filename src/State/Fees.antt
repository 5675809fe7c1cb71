-- ===== src/State/Fees.antt =====
-- `Fees` of program/src/state.rs: its checks, its start values, and its 64 bytes.
use raydium_amm_fair.Common.{
  ℕ, ◌<◌, ◌≡◌, ◌||◌, List, [], ◌∷◌, leb, ◌==◌, arith, length, if◌then◌else◌,
}
use raydium_amm_fair.Error.{invalid_fee}
use raydium_amm_fair.Outcome.{Outcome, ok, panic, fail_if, ◌>>◌}
use raydium_amm_fair.Bytes.{fields, chunk}

pub record Fees : Type 0 where
  pub min_separate_numerator : ℕ
  pub min_separate_denominator : ℕ
  pub trade_fee_numerator : ℕ
  pub trade_fee_denominator : ℕ
  pub pnl_numerator : ℕ
  pub pnl_denominator : ℕ
  pub swap_fee_numerator : ℕ
  pub swap_fee_denominator : ℕ

abbrev validate_fraction : ℕ → ℕ → Outcome (Unit {0})
validate_fraction numerator denominator =
    fail_if (leb denominator numerator || denominator == 0) invalid_fee

unfoldable pub validate : Fees → Outcome (Unit {0})
validate self = do
  validate_fraction self.min_separate_numerator self.min_separate_denominator
  validate_fraction self.trade_fee_numerator self.trade_fee_denominator
  validate_fraction self.pnl_numerator self.pnl_denominator
  validate_fraction self.swap_fee_numerator self.swap_fee_denominator

abbrev pub ten_thousand : ℕ
ten_thousand = 10000

-- `Fees::initialize` sets every field.
abbrev pub initial_fees : Fees
initial_fees = record {
  min_separate_numerator = 5;
  min_separate_denominator = ten_thousand;
  trade_fee_numerator = 25;
  trade_fee_denominator = ten_thousand;
  pnl_numerator = 12;
  pnl_denominator = 100;
  swap_fee_numerator = 25;
  swap_fee_denominator = ten_thousand;
}

unfoldable pub pack_into_slice : Fees → List ℕ
pack_into_slice self = fields (
    (8, self.min_separate_numerator)
    ∷ (8, self.min_separate_denominator)
    ∷ (8, self.trade_fee_numerator)
    ∷ (8, self.trade_fee_denominator)
    ∷ (8, self.pnl_numerator)
    ∷ (8, self.pnl_denominator)
    ∷ (8, self.swap_fee_numerator)
    ∷ (8, self.swap_fee_denominator)
    ∷ [])

-- `array_ref!` panics on a slice of fewer than 64 bytes.
unfoldable pub unpack_from_slice : List ℕ → Outcome Fees
unpack_from_slice input =
    let (a, input1) = chunk 8 input in
    let (b, input2) = chunk 8 input1 in
    let (c, input3) = chunk 8 input2 in
    let (d, input4) = chunk 8 input3 in
    let (e, input5) = chunk 8 input4 in
    let (f, input6) = chunk 8 input5 in
    let (g, input7) = chunk 8 input6 in
    let (h, _) = chunk 8 input7 in
    if leb 64 (length input)
    then ok (record {
      min_separate_numerator = a;
      min_separate_denominator = b;
      trade_fee_numerator = c;
      trade_fee_denominator = d;
      pnl_numerator = e;
      pnl_denominator = f;
      swap_fee_numerator = g;
      swap_fee_denominator = h;
    })
    else panic

-- Four fractions below one, so that no denominator is 0.
pub record IsFraction (f : Fees) : Type 0 where
  pub min_separate : f.min_separate_numerator < f.min_separate_denominator
  pub trade : f.trade_fee_numerator < f.trade_fee_denominator
  pub pnl : f.pnl_numerator < f.pnl_denominator
  pub swap : f.swap_fee_numerator < f.swap_fee_denominator

-- The fractions of fees that `validate` accepts.
pub IsFraction-of : (f : Fees) → validate f ≡ ok tt → IsFraction f
unfolding validate
IsFraction-of f h = ground arith
