-- ===== src/Instruction/Reading.antt =====
-- Reading back one field, and the record of fees.
use raydium_amm_fair.Common.{
  ℕ, ◌^◌, ◌<◌, ◌≤◌, ◌≡◌, Option, none, some, List, [], ◌++◌, arith, length, length-append, le→leb,
}
use raydium_amm_fair.Outcome.{ok}
use raydium_amm_fair.Bytes.{le_bytes, chunk, length-le_bytes, chunk-le_bytes}
use raydium_amm_fair.State.Fees.{Fees, unpack_from_slice, pack_into_slice}
use raydium_amm_fair.Instruction.Plain.{unpack_uint, take_bytes}

-- A value that fits a field of `w` bytes.
abbrev pub Fits : ℕ → ℕ → Type 0
Fits w n = n < 256 ^ w

abbrev pub FitsOption : ℕ → Option ℕ → Type 0
FitsOption w none = Unit
FitsOption w (some n) = Fits w n

pub read :
    (w n : ℕ) → Fits w n → (rest : List ℕ) → unpack_uint w (le_bytes w n ++ rest) ≡ ok (n, rest)
unfolding unpack_uint
read w n h rest =
    let long : w ≤ length (le_bytes w n ++ rest) =
      omega (arith, length-append (le_bytes w n) rest, length-le_bytes w n) in
    rw (le→leb _ _ long, chunk-le_bytes w n rest h)

pub take :
    (w n : ℕ) → Fits w n → (rest : List ℕ) → take_bytes w (le_bytes w n ++ rest) ≡ ok (n, rest)
unfolding take_bytes
take w n h rest =
    let long : w ≤ length (le_bytes w n ++ rest) =
      omega (arith, length-append (le_bytes w n) rest, length-le_bytes w n) in
    rw (le→leb _ _ long, chunk-le_bytes w n rest h)

-- Both minimums of a withdrawal, or none.
abbrev pub IsMinimums : Option ℕ → Option ℕ → Type 0
IsMinimums none none = Unit
IsMinimums (some a) (some b) = Fits 8 a × Fits 8 b
IsMinimums _ _ = ⊥

pub length-field : (w n : ℕ) → length (le_bytes w n ++ []) ≡ w
length-field w n = omega (arith, length-append (le_bytes w n) [], length-le_bytes w n)

pub piece : (w n : ℕ) → Fits w n → (rest : List ℕ) → chunk w (le_bytes w n ++ rest) ≡ (n, rest)
piece w n h rest = chunk-le_bytes w n rest h

pub record FitsFees (f : Fees) : Type 0 where
  pub min_separate_numerator : Fits 8 f.min_separate_numerator
  pub min_separate_denominator : Fits 8 f.min_separate_denominator
  pub trade_fee_numerator : Fits 8 f.trade_fee_numerator
  pub trade_fee_denominator : Fits 8 f.trade_fee_denominator
  pub pnl_numerator : Fits 8 f.pnl_numerator
  pub pnl_denominator : Fits 8 f.pnl_denominator
  pub swap_fee_numerator : Fits 8 f.swap_fee_numerator
  pub swap_fee_denominator : Fits 8 f.swap_fee_denominator

pub length-pack_into_slice : (f : Fees) → length (pack_into_slice f) ≡ 64
unfolding pack_into_slice
length-pack_into_slice f = omega (arith, length-append {0}, length-le_bytes)

-- Where the eight fields of the fees are `u64`, the 64 bytes that are written are read back as the
-- fees.
pub unpack_from_slice-pack : (f : Fees) → FitsFees f → unpack_from_slice (pack_into_slice f) ≡ ok f
unfolding unpack_from_slice
unpack_from_slice-pack f h = rw (length-pack_into_slice f) (
    unfold pack_into_slice in
    simp (
      piece 8 f.min_separate_numerator h.min_separate_numerator,
      piece 8 f.min_separate_denominator h.min_separate_denominator,
      piece 8 f.trade_fee_numerator h.trade_fee_numerator,
      piece 8 f.trade_fee_denominator h.trade_fee_denominator,
      piece 8 f.pnl_numerator h.pnl_numerator,
      piece 8 f.pnl_denominator h.pnl_denominator,
      piece 8 f.swap_fee_numerator h.swap_fee_numerator,
      piece 8 f.swap_fee_denominator h.swap_fee_denominator,
    ))
