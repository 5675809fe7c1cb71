-- ===== src/Instruction/Args.antt =====
-- Reading back the arguments of `SetParams`, `SimulateInfo` and `UpdateConfigAccount`.
use raydium_amm_fair.Common.{
  ℕ, ◌<◌, ◌≡◌, ◌⊎◌, inl, inr, refl, none, some, List, [], ◌∷◌, ◌++◌, arith,
}
use raydium_amm_fair.Outcome.{ok}
use raydium_amm_fair.Bytes.{le_bytes, fields}
use raydium_amm_fair.State.Status.{
  AmmParams, SimulateParams, pool_info, swap_base_in_info, swap_base_out_info, run_crank_info,
}
use raydium_amm_fair.State.Fees.{Fees, pack_into_slice}
use raydium_amm_fair.Instruction.Types.{
  AmmInstruction, SetParamsInstruction, LastOrderDistance, no_params, SimulateInstruction,
  SwapInstructionBaseIn, SwapInstructionBaseOut, ConfigArgs,
}
use raydium_amm_fair.State.Accounts.{Pubkey}
use raydium_amm_fair.Instruction.Unpack.{unpack_param, unpack_simulation, unpack_update_config}
use raydium_amm_fair.Instruction.Pack.{pack_param, pack_simulation, pack_config}
use raydium_amm_fair.Instruction.Reading.{
  Fits, read, take, FitsFees, length-pack_into_slice, unpack_from_slice-pack,
}

-- The arguments that `pack` writes for a kind of parameter, in range; the others are absent.
abbrev pub IsSetParams : AmmParams → SetParamsInstruction → Type 0
IsSetParams AmmParams.amm_owner i =
    (k : ℕ) × (i.new_pubkey ≡ some k)
    × Fits 32 k
    × (i.value ≡ none)
    × (i.fees ≡ none)
    × (i.last_order_distance ≡ none)
IsSetParams AmmParams.fees i =
    (f : Fees) × (i.fees ≡ some f)
    × FitsFees f
    × (i.value ≡ none)
    × (i.new_pubkey ≡ none)
    × (i.last_order_distance ≡ none)
IsSetParams AmmParams.last_order_distance i =
    (d : LastOrderDistance) × (i.last_order_distance ≡ some d)
    × Fits 8 d.last_order_numerator
    × Fits 8 d.last_order_denominator
    × (i.value ≡ none)
    × (i.new_pubkey ≡ none)
    × (i.fees ≡ none)
IsSetParams _ i =
    (v : ℕ) × (i.value ≡ some v)
    × Fits 8 v
    × (i.new_pubkey ≡ none)
    × (i.fees ≡ none)
    × (i.last_order_distance ≡ none)

abbrev pub SetParamsRead : AmmParams → SetParamsInstruction → Type 0
SetParamsRead kind i =
    (args : List ℕ) × (pack_param kind i ≡ ok args) × (unpack_param kind i.param args ≡ ok i)

pub with_value :
    (i : SetParamsInstruction) (v : ℕ)
    → i.value ≡ some v
    → i.new_pubkey ≡ none
    → i.fees ≡ none
    → i.last_order_distance ≡ none
    → record (no_params i.param) { value = some v } ≡ i
with_value i v e no_pubkey no_fees no_distance = ground arith

pub set_params-pack :
    (kind : AmmParams) (i : SetParamsInstruction) → IsSetParams kind i → SetParamsRead kind i
unfolding pack_param unpack_param
set_params-pack AmmParams.amm_owner i (k, e, h, no_value, no_fees, no_distance) =
    (fields ((32, k) ∷ []), rw e, rw (read 32 k h []) (ground arith))
set_params-pack AmmParams.fees i (f, e, h, no_value, no_pubkey, no_distance) = (
  pack_into_slice f,
  rw e,
  simp (length-pack_into_slice f, unpack_from_slice-pack f h) (ground arith),
)
set_params-pack AmmParams.last_order_distance i (d, e, a, b, no_value, no_pubkey, no_fees) = (
  fields ((8, d.last_order_numerator) ∷ (8, d.last_order_denominator) ∷ []),
  rw e,
  simp (read 8 d.last_order_numerator a, read 8 d.last_order_denominator b) (ground arith),
)
set_params-pack _ i h =
    (fields ((8, h.0) ∷ []), rw h.1, rw (read 8 h.0 h.2 []) (cc (with_value i h.0 h.1 h.3 h.4 h.5)))

abbrev pub IsSimulate : SimulateParams → SimulateInstruction → Type 0
IsSimulate swap_base_in_info i =
    (s : SwapInstructionBaseIn) × (i.swap_base_in_value ≡ some s)
    × Fits 8 s.amount_in
    × Fits 8 s.minimum_amount_out
    × (i.swap_base_out_value ≡ none)
IsSimulate swap_base_out_info i =
    (s : SwapInstructionBaseOut) × (i.swap_base_out_value ≡ some s)
    × Fits 8 s.max_amount_in
    × Fits 8 s.amount_out
    × (i.swap_base_in_value ≡ none)
IsSimulate _ i = (i.swap_base_in_value ≡ none) × (i.swap_base_out_value ≡ none)

abbrev pub SimulateRead : SimulateParams → SimulateInstruction → Type 0
SimulateRead kind i =
    (args : List ℕ) × (pack_simulation kind i ≡ ok args)
    × (unpack_simulation kind i.param args ≡ ok (AmmInstruction.simulate_info i))

pub simulate-pack :
    (kind : SimulateParams) (i : SimulateInstruction) → IsSimulate kind i → SimulateRead kind i
unfolding pack_simulation unpack_simulation
simulate-pack swap_base_in_info i (s, e, a, b, absent) = (
  fields ((8, s.amount_in) ∷ (8, s.minimum_amount_out) ∷ []),
  rw e,
  simp (read 8 s.amount_in a, read 8 s.minimum_amount_out b) (ground arith),
)
simulate-pack swap_base_out_info i (s, e, a, b, absent) = (
  fields ((8, s.max_amount_in) ∷ (8, s.amount_out) ∷ []),
  rw e,
  simp (read 8 s.max_amount_in a, read 8 s.amount_out b) (ground arith),
)
simulate-pack pool_info i (absent_in, absent_out) = ([], refl, ground arith)
simulate-pack run_crank_info i (absent_in, absent_out) = ([], refl, ground arith)

-- The configuration's argument that `pack` writes for a parameter.
abbrev pub IsConfig : ConfigArgs → Type 0
IsConfig i =
    ((i.param < 2)
      × (k : Pubkey) × (i.owner ≡ some k)
      × (0 < k)
      × Fits 32 k
      × (i.create_pool_fee ≡ none))
    ⊎ ((i.param ≡ 2) × (fee : ℕ) × (i.create_pool_fee ≡ some fee) × Fits 8 fee × (i.owner ≡ none))

pub config-pack :
    (i : ConfigArgs)
    → IsConfig i
    → (args : List ℕ) × (pack_config i ≡ ok args)
      × (unpack_update_config (le_bytes 1 i.param ++ args)
          ≡ ok (AmmInstruction.update_config_account i))
unfolding pack_config unpack_update_config
config-pack i (inl (small, k, e, pos, h, absent)) = (
  fields ((32, k) ∷ []),
  ground arith,
  rw (read 1 i.param (omega arith), take 32 k h []) (ground arith),
)
config-pack i (inr (two, fee, e, h, absent)) = (
  fields ((8, fee) ∷ []),
  ground arith,
  rw (read 1 i.param (omega arith), read 8 fee h []) (ground arith),
)
