-- ===== src/Instruction/Minimums.antt =====
-- A withdrawal with one minimum only, packed and read again.
use raydium_amm_fair.Common.{ℕ, ◌≡◌, none, some}
use raydium_amm_fair.Outcome.{ok, ◌>>=◌}
use raydium_amm_fair.Instruction.Types.{AmmInstruction}
use raydium_amm_fair.Instruction.Reading.{Fits}
use raydium_amm_fair.Instruction.Unpack.{unpack}
use raydium_amm_fair.Instruction.Pack.{pack}
use raydium_amm_fair.Instruction.RoundTrip.{unpack-pack}

-- A withdrawal of an amount of 64 bits that is packed with one minimum, for either token, is read
-- again as the withdrawal without any minimum.
pub unpack-pack-lone :
    (amount n : ℕ)
    → Fits 8 amount
    → ((pack (
            AmmInstruction.withdraw
              (record { amount = amount; min_coin_amount = some n; min_pc_amount = none }))
          >>= unpack)
        ≡ ok (
            AmmInstruction.withdraw
              (record { amount = amount; min_coin_amount = none; min_pc_amount = none })))
      × ((pack (
              AmmInstruction.withdraw
                (record { amount = amount; min_coin_amount = none; min_pc_amount = some n }))
            >>= unpack)
          ≡ ok (
              AmmInstruction.withdraw
                (record { amount = amount; min_coin_amount = none; min_pc_amount = none })))
unfolding pack
unpack-pack-lone amount n h =
    let bare =
      unpack-pack
        (AmmInstruction.withdraw
          (record { amount = amount; min_coin_amount = none; min_pc_amount = none }))
        (h, _) in
    (bare, bare)
