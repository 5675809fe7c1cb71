-- ===== src/Instruction/Call/Simulate.antt =====
-- the four `simulate_` functions of program/src/instruction.rs.
use raydium_amm_fair.Common.{ℕ, Option, none, some, [], ◌∷◌, true, false, ◌++◌}
use raydium_amm_fair.Outcome.{Outcome, ok, ◌>>=◌}
use raydium_amm_fair.State.Accounts.{Pubkey}
use raydium_amm_fair.Instruction.Types.{AmmInstruction}
use raydium_amm_fair.Instruction.Pack.{pack}
use raydium_amm_fair.Instruction.Call.{Call, ProgramIds, readonly, pushed}

unfoldable pub simulate_get_pool_info_call :
    (amm_program amm_pool amm_authority amm_open_orders amm_coin_vault amm_pc_vault amm_lp_mint
      market market_event_queue : Pubkey)
    (amm_target_orders : Option Pubkey)
    → Outcome Call
simulate_get_pool_info_call amm_program amm_pool amm_authority amm_open_orders amm_coin_vault
      amm_pc_vault amm_lp_mint market market_event_queue amm_target_orders =
    do
      bytes ← pack (
          AmmInstruction.simulate_info
            (record { param = 0; swap_base_in_value = none; swap_base_out_value = none }))
      ok (record {
        program_id = amm_program;
        accounts =
            (readonly amm_pool false
              ∷ readonly amm_authority false
              ∷ readonly amm_open_orders false
              ∷ readonly amm_coin_vault false
              ∷ readonly amm_pc_vault false
              ∷ readonly amm_lp_mint false
              ∷ readonly market false
              ∷ readonly market_event_queue false
              ∷ [])
            ++ pushed readonly amm_target_orders;
        bytes = bytes;
      })

unfoldable pub simulate_swap_base_in_call :
    (amm_program amm_pool amm_authority amm_open_orders amm_target_orders amm_coin_vault
      amm_pc_vault amm_lp_mint market_program market market_event_queue user_token_source
      user_token_destination user_source_owner : Pubkey)
    (amount_in : ℕ)
    → Outcome Call
simulate_swap_base_in_call amm_program amm_pool amm_authority amm_open_orders amm_target_orders
      amm_coin_vault amm_pc_vault amm_lp_mint market_program market market_event_queue
      user_token_source user_token_destination user_source_owner amount_in =
    do
      bytes ← pack (
          AmmInstruction.simulate_info (record {
            param = 1;
            swap_base_in_value = some (record { amount_in = amount_in; minimum_amount_out = 0 });
            swap_base_out_value = none;
          }))
      ok (record {
        program_id = amm_program;
        accounts =
            readonly amm_pool false
            ∷ readonly amm_authority false
            ∷ readonly amm_open_orders false
            ∷ readonly amm_target_orders false
            ∷ readonly amm_coin_vault false
            ∷ readonly amm_pc_vault false
            ∷ readonly amm_lp_mint false
            ∷ readonly market_program false
            ∷ readonly market false
            ∷ readonly market_event_queue false
            ∷ readonly user_token_source false
            ∷ readonly user_token_destination false
            ∷ readonly user_source_owner true
            ∷ [];
        bytes = bytes;
      })

unfoldable pub simulate_swap_base_out_call :
    (amm_program amm_pool amm_authority amm_open_orders amm_target_orders amm_coin_vault
      amm_pc_vault amm_lp_mint market_program market market_event_queue user_token_source
      user_token_destination user_source_owner : Pubkey)
    (amount_out : ℕ)
    → Outcome Call
simulate_swap_base_out_call amm_program amm_pool amm_authority amm_open_orders amm_target_orders
      amm_coin_vault amm_pc_vault amm_lp_mint market_program market market_event_queue
      user_token_source user_token_destination user_source_owner amount_out =
    do
      bytes ← pack (
          AmmInstruction.simulate_info (record {
            param = 2;
            swap_base_in_value = none;
            swap_base_out_value = some (record { max_amount_in = 0; amount_out = amount_out });
          }))
      ok (record {
        program_id = amm_program;
        accounts =
            readonly amm_pool false
            ∷ readonly amm_authority false
            ∷ readonly amm_open_orders false
            ∷ readonly amm_target_orders false
            ∷ readonly amm_coin_vault false
            ∷ readonly amm_pc_vault false
            ∷ readonly amm_lp_mint false
            ∷ readonly market_program false
            ∷ readonly market false
            ∷ readonly market_event_queue false
            ∷ readonly user_token_source false
            ∷ readonly user_token_destination false
            ∷ readonly user_source_owner true
            ∷ [];
        bytes = bytes;
      })

unfoldable pub simulate_run_crank_call :
    (ids : ProgramIds)
    (amm_program amm_pool amm_authority amm_open_orders amm_target_orders amm_coin_vault
      amm_pc_vault market_program market market_bids market_asks market_event_queue : Pubkey)
    → Outcome Call
simulate_run_crank_call ids amm_program amm_pool amm_authority amm_open_orders amm_target_orders
      amm_coin_vault amm_pc_vault market_program market market_bids market_asks market_event_queue =
    do
      bytes ← pack (
          AmmInstruction.simulate_info
            (record { param = 3; swap_base_in_value = none; swap_base_out_value = none }))
      ok (record {
        program_id = amm_program;
        accounts =
            readonly ids.spl_token false
            ∷ readonly ids.clock false
            ∷ readonly amm_pool false
            ∷ readonly amm_authority false
            ∷ readonly amm_open_orders false
            ∷ readonly amm_target_orders false
            ∷ readonly amm_coin_vault false
            ∷ readonly amm_pc_vault false
            ∷ readonly market_program false
            ∷ readonly market false
            ∷ readonly market_bids false
            ∷ readonly market_asks false
            ∷ readonly market_event_queue false
            ∷ [];
        bytes = bytes;
      })
