-- ===== src/Instruction/Pack.antt =====
-- `AmmInstruction::pack` (program/src/instruction.rs).
use raydium_amm_fair.Common.{ℕ, Option, none, some, List, [], ◌∷◌, ◌||◌, ◌==◌, if◌then◌else◌, ◌++◌}
use raydium_amm_fair.Error.{invalid_instruction_data}
use raydium_amm_fair.Outcome.{Outcome, ok, err, ◌>>=◌}
use raydium_amm_fair.Bytes.{fields}
use raydium_amm_fair.State.Status.{
  AmmParams, SimulateParams, params_from_u64, simulate_params_from_u64, swap_base_in_info,
  swap_base_out_info,
}
use raydium_amm_fair.State.Fees.{pack_into_slice}
use raydium_amm_fair.Instruction.Types.{
  AmmInstruction, SetParamsInstruction, SimulateInstruction, ConfigArgs,
}

-- A missing argument is an error.
abbrev given {ℓ} : {A : Type ℓ} → Option A → Outcome A
given none = err invalid_instruction_data
given (some a) = ok a

abbrev pack_optional : Option ℕ → List ℕ
pack_optional none = []
pack_optional (some n) = fields ((8, n) ∷ [])

-- The two minimums of a withdrawal are written together or not at all.
abbrev pack_minimums : Option ℕ → Option ℕ → List ℕ
pack_minimums (some a) (some b) = fields ((8, a) ∷ (8, b) ∷ [])
pack_minimums _ _ = []

unfoldable pub pack_param : AmmParams → SetParamsInstruction → Outcome (List ℕ)
unfolding pack_into_slice
pack_param AmmParams.amm_owner self = do
  new_pubkey ← given self.new_pubkey
  ok (fields ((32, new_pubkey) ∷ []))
pack_param AmmParams.fees self = do fees ← given self.fees; ok (pack_into_slice fees)
pack_param AmmParams.last_order_distance self = do
  distance ← given self.last_order_distance
  ok (fields ((8, distance.last_order_numerator) ∷ (8, distance.last_order_denominator) ∷ []))
pack_param _ self = do value ← given self.value; ok (fields ((8, value) ∷ []))

unfoldable pub pack_simulation : SimulateParams → SimulateInstruction → Outcome (List ℕ)
pack_simulation swap_base_in_info self = do
  swap ← given self.swap_base_in_value
  ok (fields ((8, swap.amount_in) ∷ (8, swap.minimum_amount_out) ∷ []))
pack_simulation swap_base_out_info self = do
  swap ← given self.swap_base_out_value
  ok (fields ((8, swap.max_amount_in) ∷ (8, swap.amount_out) ∷ []))
pack_simulation _ self = ok []

unfoldable pub pack_config : ConfigArgs → Outcome (List ℕ)
pack_config self =
    if self.param == 0 || self.param == 1
    then (do
      owner ← given self.owner
      if owner == 0 then err invalid_instruction_data else ok (fields ((32, owner) ∷ [])))
    else if self.param == 2
    then (do create_pool_fee ← given self.create_pool_fee; ok (fields ((8, create_pool_fee) ∷ [])))
    else err invalid_instruction_data

unfoldable pub pack : AmmInstruction → Outcome (List ℕ)
unfolding pack_param pack_simulation pack_config params_from_u64 simulate_params_from_u64
pack (AmmInstruction.initialize i) = ok (0 ∷ fields ((1, i.nonce) ∷ (8, i.open_time) ∷ []))
pack (AmmInstruction.initialize2 i) = ok (
    1
    ∷ fields
        ((1, i.nonce) ∷ (8, i.open_time) ∷ (8, i.init_pc_amount) ∷ (8, i.init_coin_amount) ∷ []))
pack (AmmInstruction.monitor_step i) = ok (
    2
    ∷ fields ((2, i.plan_order_limit) ∷ (2, i.place_order_limit) ∷ (2, i.cancel_order_limit) ∷ []))
pack (AmmInstruction.deposit i) = ok (
    3 ∷ fields ((8, i.max_coin_amount) ∷ (8, i.max_pc_amount) ∷ (8, i.base_side) ∷ [])
    ++ pack_optional i.other_amount_min)
pack (AmmInstruction.withdraw i) =
    ok (4 ∷ fields ((8, i.amount) ∷ []) ++ pack_minimums i.min_coin_amount i.min_pc_amount)
pack AmmInstruction.migrate_to_open_book = ok (5 ∷ [])
pack (AmmInstruction.set_params i) = do
  kind ← params_from_u64 i.param
  args ← pack_param kind i
  ok (6 ∷ fields ((1, i.param) ∷ []) ++ args)
pack AmmInstruction.withdraw_pnl = ok (7 ∷ [])
pack (AmmInstruction.withdraw_srm amount) = ok (8 ∷ fields ((8, amount) ∷ []))
pack (AmmInstruction.swap_base_in i) =
    ok (9 ∷ fields ((8, i.amount_in) ∷ (8, i.minimum_amount_out) ∷ []))
pack (AmmInstruction.pre_initialize nonce) = ok (10 ∷ fields ((1, nonce) ∷ []))
pack (AmmInstruction.swap_base_out i) =
    ok (11 ∷ fields ((8, i.max_amount_in) ∷ (8, i.amount_out) ∷ []))
pack (AmmInstruction.simulate_info i) = do
  kind ← simulate_params_from_u64 i.param
  args ← pack_simulation kind i
  ok (12 ∷ fields ((1, i.param) ∷ []) ++ args)
pack (AmmInstruction.admin_cancel_orders limit) = ok (13 ∷ fields ((2, limit) ∷ []))
pack AmmInstruction.create_config_account = ok (14 ∷ [])
pack (AmmInstruction.update_config_account i) = do
  args ← pack_config i
  ok (15 ∷ fields ((1, i.param) ∷ []) ++ args)
pack (AmmInstruction.submit_sequencer_orders i) = ok (16 ∷ fields ((32, i.orders_hash) ∷ []))
pack (AmmInstruction.swap_base_in_seq i) =
    ok (17 ∷ fields ((8, i.amount_in) ∷ (8, i.minimum_amount_out) ∷ (8, i.order_index) ∷ []))
pack (AmmInstruction.swap_base_out_seq i) =
    ok (18 ∷ fields ((8, i.max_amount_in) ∷ (8, i.amount_out) ∷ (8, i.order_index) ∷ []))
