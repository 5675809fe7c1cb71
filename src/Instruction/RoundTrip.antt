-- ===== src/Instruction/RoundTrip.antt =====
-- Reading back what `pack` writes.
use mathlib.Core.List.{append_assoc}
use raydium_amm_fair.Common.{
  ℕ, ◌≡◌, inl, inr, Option-cases, refl, Option, none, some, [], ◌++◌, arith, length-append,
}
use raydium_amm_fair.Outcome.{ok, ◌>>=◌}
use raydium_amm_fair.Bytes.{le_bytes, length-le_bytes}
use raydium_amm_fair.State.Status.{
  AmmParams, params_from_u64, simulate_params_from_u64, SimulateParams,
}
use raydium_amm_fair.Instruction.Types.{AmmInstruction, DepositInstruction, WithdrawInstruction}
use raydium_amm_fair.Instruction.Unpack.{unpack}
use raydium_amm_fair.Instruction.Pack.{pack}
use raydium_amm_fair.Instruction.Reading.{
  Fits, FitsOption, read, take, IsMinimums, length-field, piece,
}
use raydium_amm_fair.Instruction.Args.{
  IsSetParams, set_params-pack, IsSimulate, simulate-pack, IsConfig, config-pack,
}

-- The instructions whose fields are in range, with exactly the options that their parameter asks for.
abbrev pub IsPackable : AmmInstruction → Type 0
IsPackable (AmmInstruction.initialize i) = Fits 1 i.nonce × Fits 8 i.open_time
IsPackable (AmmInstruction.initialize2 i) =
    Fits 1 i.nonce × Fits 8 i.open_time × Fits 8 i.init_pc_amount × Fits 8 i.init_coin_amount
IsPackable (AmmInstruction.monitor_step i) =
    Fits 2 i.plan_order_limit × Fits 2 i.place_order_limit × Fits 2 i.cancel_order_limit
IsPackable (AmmInstruction.deposit i) =
    Fits 8 i.max_coin_amount
    × Fits 8 i.max_pc_amount
    × Fits 8 i.base_side
    × FitsOption 8 i.other_amount_min
IsPackable (AmmInstruction.withdraw i) =
    Fits 8 i.amount × IsMinimums i.min_coin_amount i.min_pc_amount
IsPackable (AmmInstruction.set_params i) =
    Fits 1 i.param × (kind : AmmParams) × (params_from_u64 i.param ≡ ok kind) × IsSetParams kind i
IsPackable (AmmInstruction.withdraw_srm amount) = Fits 8 amount
IsPackable (AmmInstruction.swap_base_in i) = Fits 8 i.amount_in × Fits 8 i.minimum_amount_out
IsPackable (AmmInstruction.pre_initialize nonce) = Fits 1 nonce
IsPackable (AmmInstruction.swap_base_out i) = Fits 8 i.max_amount_in × Fits 8 i.amount_out
IsPackable (AmmInstruction.simulate_info i) =
    Fits 1 i.param
    × (kind : SimulateParams) × (simulate_params_from_u64 i.param ≡ ok kind)
    × IsSimulate kind i
IsPackable (AmmInstruction.admin_cancel_orders limit) = Fits 2 limit
IsPackable (AmmInstruction.update_config_account i) = IsConfig i
IsPackable (AmmInstruction.submit_sequencer_orders i) = Fits 32 i.orders_hash
IsPackable (AmmInstruction.swap_base_in_seq i) =
    Fits 8 i.amount_in × Fits 8 i.minimum_amount_out × Fits 8 i.order_index
IsPackable (AmmInstruction.swap_base_out_seq i) =
    Fits 8 i.max_amount_in × Fits 8 i.amount_out × Fits 8 i.order_index
IsPackable _ = Unit

deposit-pack :
    (i : DepositInstruction)
    → IsPackable (AmmInstruction.deposit i)
    → (pack (AmmInstruction.deposit i) >>= unpack) ≡ ok (AmmInstruction.deposit i)
unfolding pack unpack
deposit-pack i (a, b, c, d) = elim (Option-cases i.other_amount_min) [
  | inl e ↦
      simp
        (
          e,
          append_assoc,
          read 8 i.max_coin_amount a,
          read 8 i.max_pc_amount b,
          read 8 i.base_side c,
        )
        (ground arith)
  | inr (n, e) ↦
      let h : Fits 8 n = rw e at d in
      simp
        (
          e,
          append_assoc,
          read 8 i.max_coin_amount a,
          read 8 i.max_pc_amount b,
          read 8 i.base_side c,
          length-field 8 n,
          piece 8 n h,
        )
        (ground arith)
]

minimums-pack :
    (i : WithdrawInstruction) (coin pc : Option ℕ)
    → i.min_coin_amount ≡ coin
    → i.min_pc_amount ≡ pc
    → Fits 8 i.amount
    → IsMinimums coin pc
    → (pack (AmmInstruction.withdraw i) >>= unpack) ≡ ok (AmmInstruction.withdraw i)
unfolding pack unpack
minimums-pack i none none ec ep a h = simp (ec, ep, append_assoc, read 8 i.amount a) (ground arith)
minimums-pack i none (some p) ec ep a h = elim h [ ]
minimums-pack i (some c) none ec ep a h = elim h [ ]
minimums-pack i (some c) (some p) ec ep a (hc, hp) =
    simp
      (
        ec,
        ep,
        append_assoc,
        read 8 i.amount a,
        piece 8 c hc,
        piece 8 p hp,
        length-append {0} (le_bytes 8 c) (le_bytes 8 p ++ []),
        length-field 8 p,
        length-le_bytes 8 c,
      )
      (ground arith)

-- Packing an instruction succeeds, and unpacking its bytes gives the instruction back, where every
-- field fits its width, a parameter is a known one, exactly the optional fields are given that
-- belong to the kind of the instruction, and an owner to configure is not the default key.
pub unpack-pack : (i : AmmInstruction) → IsPackable i → (pack i >>= unpack) ≡ ok i
unfolding pack unpack
unpack-pack (AmmInstruction.initialize i) (a, b) = simp (read 1 i.nonce a, read 8 i.open_time b)
unpack-pack (AmmInstruction.initialize2 i) (a, b, c, d) =
    simp (
      read 1 i.nonce a,
      read 8 i.open_time b,
      read 8 i.init_pc_amount c,
      read 8 i.init_coin_amount d,
    )
unpack-pack (AmmInstruction.monitor_step i) (a, b, c) =
    simp (read 2 i.plan_order_limit a, read 2 i.place_order_limit b, read 2 i.cancel_order_limit c)
unpack-pack (AmmInstruction.deposit i) h = deposit-pack i h
unpack-pack (AmmInstruction.withdraw i) (a, b) =
    minimums-pack i i.min_coin_amount i.min_pc_amount refl refl a b
unpack-pack AmmInstruction.migrate_to_open_book _ = refl
unpack-pack (AmmInstruction.set_params i) (a, kind, e, h) =
    let (args, packed, unpacked) = set_params-pack kind i h in
    rw (e, packed) (simp (append_assoc, read 1 i.param a, e, unpacked))
unpack-pack AmmInstruction.withdraw_pnl _ = refl
unpack-pack (AmmInstruction.withdraw_srm amount) a = simp (read 8 amount a)
unpack-pack (AmmInstruction.swap_base_in i) (a, b) =
    simp (read 8 i.amount_in a, read 8 i.minimum_amount_out b)
unpack-pack (AmmInstruction.pre_initialize nonce) a = simp (read 1 nonce a)
unpack-pack (AmmInstruction.swap_base_out i) (a, b) =
    simp (read 8 i.max_amount_in a, read 8 i.amount_out b)
unpack-pack (AmmInstruction.simulate_info i) (a, kind, e, h) =
    let (args, packed, unpacked) = simulate-pack kind i h in
    rw (e, packed) (simp (append_assoc, read 1 i.param a, e, unpacked))
unpack-pack (AmmInstruction.admin_cancel_orders limit) a = simp (read 2 limit a)
unpack-pack AmmInstruction.create_config_account _ = refl
unpack-pack (AmmInstruction.update_config_account i) h =
    let (args, packed, unpacked) = config-pack i h in rw packed (simp (append_assoc, unpacked))
unpack-pack (AmmInstruction.submit_sequencer_orders i) a = simp (take 32 i.orders_hash a)
unpack-pack (AmmInstruction.swap_base_in_seq i) (a, b, c) =
    simp (read 8 i.amount_in a, read 8 i.minimum_amount_out b, read 8 i.order_index c)
unpack-pack (AmmInstruction.swap_base_out_seq i) (a, b, c) =
    simp (read 8 i.max_amount_in a, read 8 i.amount_out b, read 8 i.order_index c)
