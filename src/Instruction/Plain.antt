-- ===== src/Instruction/Plain.antt =====
-- The readers of `AmmInstruction::unpack` (program/src/instruction.rs): integers, byte arrays, and the
-- instructions that have fields of fixed widths only.
use raydium_amm_fair.Common.{ℕ, List, leb, if◌then◌else◌, length}
use raydium_amm_fair.Error.{invalid_instruction_data}
use raydium_amm_fair.Outcome.{Outcome, ok, err, panic, ◌>>=◌}
use raydium_amm_fair.Bytes.{chunk}
use raydium_amm_fair.Instruction.Types.{AmmInstruction}

-- `unpack_u8`, `unpack_u16` and `unpack_u64` differ by the width, in bytes.
unfoldable pub unpack_uint : ℕ → List ℕ → Outcome (ℕ × List ℕ)
unpack_uint w input =
    if leb w (length input) then ok (chunk w input) else err invalid_instruction_data

-- `array_ref!` and `split_at` panic on a short slice.
unfoldable pub take_bytes : ℕ → List ℕ → Outcome (ℕ × List ℕ)
take_bytes w input = if leb w (length input) then ok (chunk w input) else panic

unfoldable pub unpack_initialize : List ℕ → Outcome AmmInstruction
unfolding unpack_uint
unpack_initialize rest = do
  (nonce, rest1) ← unpack_uint 1 rest
  (open_time, _) ← unpack_uint 8 rest1
  ok (AmmInstruction.initialize (record { nonce = nonce; open_time = open_time }))

unfoldable pub unpack_initialize2 : List ℕ → Outcome AmmInstruction
unfolding unpack_uint
unpack_initialize2 rest = do
  (nonce, rest1) ← unpack_uint 1 rest
  (open_time, rest2) ← unpack_uint 8 rest1
  (init_pc_amount, rest3) ← unpack_uint 8 rest2
  (init_coin_amount, _) ← unpack_uint 8 rest3
  ok (
      AmmInstruction.initialize2 (record {
        nonce = nonce;
        open_time = open_time;
        init_pc_amount = init_pc_amount;
        init_coin_amount = init_coin_amount;
      }))

unfoldable pub unpack_monitor_step : List ℕ → Outcome AmmInstruction
unfolding unpack_uint
unpack_monitor_step rest = do
  (plan_order_limit, rest1) ← unpack_uint 2 rest
  (place_order_limit, rest2) ← unpack_uint 2 rest1
  (cancel_order_limit, _) ← unpack_uint 2 rest2
  ok (
      AmmInstruction.monitor_step (record {
        plan_order_limit = plan_order_limit;
        place_order_limit = place_order_limit;
        cancel_order_limit = cancel_order_limit;
      }))

unfoldable pub unpack_swap_base_in : List ℕ → Outcome AmmInstruction
unfolding unpack_uint
unpack_swap_base_in rest = do
  (amount_in, rest1) ← unpack_uint 8 rest
  (minimum_amount_out, _) ← unpack_uint 8 rest1
  ok (
      AmmInstruction.swap_base_in
        (record { amount_in = amount_in; minimum_amount_out = minimum_amount_out }))

unfoldable pub unpack_swap_base_out : List ℕ → Outcome AmmInstruction
unfolding unpack_uint
unpack_swap_base_out rest = do
  (max_amount_in, rest1) ← unpack_uint 8 rest
  (amount_out, _) ← unpack_uint 8 rest1
  ok (
      AmmInstruction.swap_base_out
        (record { max_amount_in = max_amount_in; amount_out = amount_out }))

unfoldable pub unpack_swap_base_in_seq : List ℕ → Outcome AmmInstruction
unfolding unpack_uint
unpack_swap_base_in_seq rest = do
  (amount_in, rest1) ← unpack_uint 8 rest
  (minimum_amount_out, rest2) ← unpack_uint 8 rest1
  (order_index, _) ← unpack_uint 8 rest2
  ok (
      AmmInstruction.swap_base_in_seq (record {
        amount_in = amount_in;
        minimum_amount_out = minimum_amount_out;
        order_index = order_index;
      }))

unfoldable pub unpack_swap_base_out_seq : List ℕ → Outcome AmmInstruction
unfolding unpack_uint
unpack_swap_base_out_seq rest = do
  (max_amount_in, rest1) ← unpack_uint 8 rest
  (amount_out, rest2) ← unpack_uint 8 rest1
  (order_index, _) ← unpack_uint 8 rest2
  ok (
      AmmInstruction.swap_base_out_seq (record {
        max_amount_in = max_amount_in;
        amount_out = amount_out;
        order_index = order_index;
      }))

-- An instruction of one field.
unfoldable pub unpack_single : ℕ → (ℕ → AmmInstruction) → List ℕ → Outcome AmmInstruction
unfolding unpack_uint
unpack_single w make rest = do (n, _) ← unpack_uint w rest; ok (make n)

unfoldable pub unpack_submit : List ℕ → Outcome AmmInstruction
unfolding take_bytes
unpack_submit rest = do
  (orders_hash, _) ← take_bytes 32 rest
  ok (AmmInstruction.submit_sequencer_orders (record { orders_hash = orders_hash }))
