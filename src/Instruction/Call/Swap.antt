-- ===== src/Instruction/Call/Swap.antt =====
-- `swap_base_in` and `swap_base_out` of program/src/instruction.rs.
use raydium_amm_fair.Common.{ℕ, [], ◌∷◌, true, false}
use raydium_amm_fair.Outcome.{Outcome, ok, ◌>>=◌}
use raydium_amm_fair.State.Accounts.{Pubkey}
use raydium_amm_fair.Instruction.Types.{AmmInstruction}
use raydium_amm_fair.Instruction.Pack.{pack}
use raydium_amm_fair.Instruction.Call.{Call, ProgramIds, writable, readonly}

unfoldable pub swap_base_in_call :
    (ids : ProgramIds)
    (amm_program amm_pool amm_authority amm_open_orders amm_coin_vault amm_pc_vault market_program
      market market_bids market_asks market_event_queue market_coin_vault market_pc_vault
      market_vault_signer user_token_source user_token_destination user_source_owner : Pubkey)
    (amount_in minimum_amount_out : ℕ)
    → Outcome Call
swap_base_in_call ids amm_program amm_pool amm_authority amm_open_orders amm_coin_vault amm_pc_vault
      market_program market market_bids market_asks market_event_queue market_coin_vault
      market_pc_vault market_vault_signer user_token_source user_token_destination user_source_owner
      amount_in minimum_amount_out =
    do
      bytes ← pack (
          AmmInstruction.swap_base_in
            (record { amount_in = amount_in; minimum_amount_out = minimum_amount_out }))
      ok (record {
        program_id = amm_program;
        accounts =
            readonly ids.spl_token false
            ∷ writable amm_pool false
            ∷ readonly amm_authority false
            ∷ writable amm_open_orders false
            ∷ writable amm_coin_vault false
            ∷ writable amm_pc_vault false
            ∷ readonly market_program false
            ∷ writable market false
            ∷ writable market_bids false
            ∷ writable market_asks false
            ∷ writable market_event_queue false
            ∷ writable market_coin_vault false
            ∷ writable market_pc_vault false
            ∷ readonly market_vault_signer false
            ∷ writable user_token_source false
            ∷ writable user_token_destination false
            ∷ readonly user_source_owner true
            ∷ [];
        bytes = bytes;
      })

unfoldable pub swap_base_out_call :
    (ids : ProgramIds)
    (amm_program amm_pool amm_authority amm_open_orders amm_coin_vault amm_pc_vault market_program
      market market_bids market_asks market_event_queue market_coin_vault market_pc_vault
      market_vault_signer user_token_source user_token_destination user_source_owner : Pubkey)
    (max_amount_in amount_out : ℕ)
    → Outcome Call
swap_base_out_call ids amm_program amm_pool amm_authority amm_open_orders amm_coin_vault
      amm_pc_vault market_program market market_bids market_asks market_event_queue
      market_coin_vault market_pc_vault market_vault_signer user_token_source user_token_destination
      user_source_owner max_amount_in amount_out =
    do
      bytes ← pack (
          AmmInstruction.swap_base_out
            (record { max_amount_in = max_amount_in; amount_out = amount_out }))
      ok (record {
        program_id = amm_program;
        accounts =
            readonly ids.spl_token false
            ∷ writable amm_pool false
            ∷ readonly amm_authority false
            ∷ writable amm_open_orders false
            ∷ writable amm_coin_vault false
            ∷ writable amm_pc_vault false
            ∷ readonly market_program false
            ∷ writable market false
            ∷ writable market_bids false
            ∷ writable market_asks false
            ∷ writable market_event_queue false
            ∷ writable market_coin_vault false
            ∷ writable market_pc_vault false
            ∷ readonly market_vault_signer false
            ∷ writable user_token_source false
            ∷ writable user_token_destination false
            ∷ readonly user_source_owner true
            ∷ [];
        bytes = bytes;
      })
