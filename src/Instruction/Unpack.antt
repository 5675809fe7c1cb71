-- ===== src/Instruction/Unpack.antt =====
-- `AmmInstruction::unpack` (program/src/instruction.rs).
use raydium_amm_fair.Common.{
  ℕ, none, some, List, [], ◌∷◌, ◌||◌, leb, ◌==◌, if◌then◌else◌, length, get_elem?,
}
use raydium_amm_fair.Error.{invalid_instruction_data}
use raydium_amm_fair.Outcome.{Outcome, ok, err, ◌>>=◌}
use raydium_amm_fair.Bytes.{chunk}
use raydium_amm_fair.State.Status.{
  AmmParams, SimulateParams, params_from_u64, simulate_params_from_u64, swap_base_in_info,
  swap_base_out_info,
}
use raydium_amm_fair.State.Fees.{unpack_from_slice}
use raydium_amm_fair.Instruction.Types.{AmmInstruction, SetParamsInstruction, no_params}
use raydium_amm_fair.Instruction.Plain.{
  unpack_uint, take_bytes, unpack_single, unpack_initialize, unpack_initialize2,
  unpack_monitor_step, unpack_swap_base_in, unpack_swap_base_out, unpack_swap_base_in_seq,
  unpack_swap_base_out_seq, unpack_submit,
}

unfoldable pub unpack_deposit : List ℕ → Outcome AmmInstruction
unfolding unpack_uint
unpack_deposit rest = do
  (max_coin_amount, rest1) ← unpack_uint 8 rest
  (max_pc_amount, rest2) ← unpack_uint 8 rest1
  (base_side, rest3) ← unpack_uint 8 rest2
  ok (
      AmmInstruction.deposit (record {
        max_coin_amount = max_coin_amount;
        max_pc_amount = max_pc_amount;
        base_side = base_side;
        other_amount_min = if leb 8 (length rest3) then some (chunk 8 rest3).0 else none;
      }))

unfoldable pub unpack_withdraw : List ℕ → Outcome AmmInstruction
unfolding unpack_uint
unpack_withdraw rest = do
  (amount, rest1) ← unpack_uint 8 rest
  let (min_coin_amount, rest2) = chunk 8 rest1
  let (min_pc_amount, _) = chunk 8 rest2
  let both = leb 16 (length rest1)
  ok (
      AmmInstruction.withdraw (record {
        amount = amount;
        min_coin_amount = if both then some min_coin_amount else none;
        min_pc_amount = if both then some min_pc_amount else none;
      }))

-- The inner `match` of tag 6, by the parameter.
unfoldable pub unpack_param : AmmParams → ℕ → List ℕ → Outcome SetParamsInstruction
unfolding unpack_uint
unpack_param AmmParams.amm_owner param rest = do
  (new_pubkey, _) ← unpack_uint 32 rest
  ok (record (no_params param) { new_pubkey = some new_pubkey })
unpack_param AmmParams.fees param rest =
    if leb 64 (length rest)
    then (do fees ← unpack_from_slice rest; ok (record (no_params param) { fees = some fees }))
    else err invalid_instruction_data
unpack_param AmmParams.last_order_distance param rest = do
  (numerator, rest1) ← unpack_uint 8 rest
  (denominator, _) ← unpack_uint 8 rest1
  ok (record (no_params param) {
    last_order_distance =
        some (record { last_order_numerator = numerator; last_order_denominator = denominator });
  })
unpack_param _ param rest = do
  (value, _) ← unpack_uint 8 rest
  ok (record (no_params param) { value = some value })

unfoldable pub unpack_set_params : List ℕ → Outcome AmmInstruction
unfolding unpack_uint params_from_u64 unpack_param
unpack_set_params rest = do
  (param, rest1) ← unpack_uint 1 rest
  kind ← params_from_u64 param
  args ← unpack_param kind param rest1
  ok (AmmInstruction.set_params args)

unfoldable pub unpack_simulation : SimulateParams → ℕ → List ℕ → Outcome AmmInstruction
unfolding unpack_uint
unpack_simulation swap_base_in_info param rest = do
  (amount_in, rest1) ← unpack_uint 8 rest
  (minimum_amount_out, _) ← unpack_uint 8 rest1
  ok (
      AmmInstruction.simulate_info (record {
        param = param;
        swap_base_in_value =
            some (record { amount_in = amount_in; minimum_amount_out = minimum_amount_out });
        swap_base_out_value = none;
      }))
unpack_simulation swap_base_out_info param rest = do
  (max_amount_in, rest1) ← unpack_uint 8 rest
  (amount_out, _) ← unpack_uint 8 rest1
  ok (
      AmmInstruction.simulate_info (record {
        param = param;
        swap_base_in_value = none;
        swap_base_out_value =
            some (record { max_amount_in = max_amount_in; amount_out = amount_out });
      }))
unpack_simulation _ param rest = ok (
    AmmInstruction.simulate_info
      (record { param = param; swap_base_in_value = none; swap_base_out_value = none }))

unfoldable pub unpack_simulate_info : List ℕ → Outcome AmmInstruction
unfolding unpack_uint simulate_params_from_u64 unpack_simulation
unpack_simulate_info rest = do
  (param, rest1) ← unpack_uint 1 rest
  kind ← simulate_params_from_u64 param
  unpack_simulation kind param rest1

unfoldable pub unpack_update_config : List ℕ → Outcome AmmInstruction
unfolding unpack_uint take_bytes
unpack_update_config rest = do
  (param, rest1) ← unpack_uint 1 rest
  if param == 0 || param == 1
      then (do
        (owner, _) ← take_bytes 32 rest1
        ok (
            AmmInstruction.update_config_account
              (record { param = param; owner = some owner; create_pool_fee = none })))
      else if param == 2
      then (do
        (create_pool_fee, _) ← unpack_uint 8 rest1
        ok (
            AmmInstruction.update_config_account
              (record { param = param; owner = none; create_pool_fee = some create_pool_fee })))
      else err invalid_instruction_data

-- The `match` on the tag: the reader of each tag.
abbrev unpackers : List (List ℕ → Outcome AmmInstruction)
unpackers =
    unpack_initialize
    ∷ unpack_initialize2
    ∷ unpack_monitor_step
    ∷ unpack_deposit
    ∷ unpack_withdraw
    ∷ (λ _. ok AmmInstruction.migrate_to_open_book)
    ∷ unpack_set_params
    ∷ (λ _. ok AmmInstruction.withdraw_pnl)
    ∷ unpack_single 8 AmmInstruction.withdraw_srm
    ∷ unpack_swap_base_in
    ∷ unpack_single 1 AmmInstruction.pre_initialize
    ∷ unpack_swap_base_out
    ∷ unpack_simulate_info
    ∷ unpack_single 2 AmmInstruction.admin_cancel_orders
    ∷ (λ _. ok AmmInstruction.create_config_account)
    ∷ unpack_update_config
    ∷ unpack_submit
    ∷ unpack_swap_base_in_seq
    ∷ unpack_swap_base_out_seq
    ∷ []

unfoldable pub unpack : List ℕ → Outcome AmmInstruction
unfolding unpack_initialize unpack_initialize2 unpack_monitor_step unpack_deposit unpack_withdraw
    unpack_set_params unpack_single unpack_swap_base_in unpack_swap_base_out unpack_simulate_info
    unpack_update_config unpack_submit unpack_swap_base_in_seq unpack_swap_base_out_seq
unpack [] = err invalid_instruction_data
unpack (tag ∷ rest) = elim (get_elem? unpackers tag) [
  | none ↦ err invalid_instruction_data
  | some read ↦ read rest
]
