-- ===== src/Instruction/Call/Orders.antt =====
-- `monitor_step` and `admin_cancel_orders` of program/src/instruction.rs.
use raydium_amm_fair.Common.{ℕ, Option, [], ◌∷◌, true, false, ◌++◌}
use raydium_amm_fair.Outcome.{Outcome, ok, ◌>>=◌}
use raydium_amm_fair.State.Accounts.{Pubkey}
use raydium_amm_fair.Instruction.Types.{AmmInstruction}
use raydium_amm_fair.Instruction.Pack.{pack}
use raydium_amm_fair.Instruction.Call.{Call, ProgramIds, writable, readonly, pushed_two}

unfoldable pub monitor_step_call :
    (ids : ProgramIds)
    (amm_program amm_pool amm_authority amm_open_orders amm_target_orders amm_coin_vault
      amm_pc_vault : Pubkey)
    (amm_token_srm : Option Pubkey)
    (market_program market market_coin_vault market_pc_vault market_vault_signer
      market_request_queue market_event_queue market_bids market_asks : Pubkey)
    (referrer_token_pc : Option Pubkey) (plan_order_limit place_order_limit cancel_order_limit : ℕ)
    → Outcome Call
monitor_step_call ids amm_program amm_pool amm_authority amm_open_orders amm_target_orders
      amm_coin_vault amm_pc_vault amm_token_srm market_program market market_coin_vault
      market_pc_vault market_vault_signer market_request_queue market_event_queue market_bids
      market_asks referrer_token_pc plan_order_limit place_order_limit cancel_order_limit =
    do
      bytes ← pack (
          AmmInstruction.monitor_step (record {
            plan_order_limit = plan_order_limit;
            place_order_limit = place_order_limit;
            cancel_order_limit = cancel_order_limit;
          }))
      ok (record {
        program_id = amm_program;
        accounts =
            (readonly ids.spl_token false
              ∷ readonly ids.rent false
              ∷ readonly ids.clock false
              ∷ writable amm_pool false
              ∷ readonly amm_authority false
              ∷ writable amm_open_orders false
              ∷ writable amm_target_orders false
              ∷ writable amm_coin_vault false
              ∷ writable amm_pc_vault false
              ∷ readonly market_program false
              ∷ writable market false
              ∷ writable market_coin_vault false
              ∷ writable market_pc_vault false
              ∷ readonly market_vault_signer false
              ∷ writable market_request_queue false
              ∷ writable market_event_queue false
              ∷ writable market_bids false
              ∷ writable market_asks false
              ∷ [])
            ++ pushed_two amm_token_srm referrer_token_pc;
        bytes = bytes;
      })

unfoldable pub admin_cancel_orders_call :
    (ids : ProgramIds)
    (amm_program amm_pool amm_authority amm_open_orders amm_target_orders amm_coin_vault
      amm_pc_vault amm_cancel_owner amm_config market_program market market_coin_vault
      market_pc_vault market_vault_signer market_event_queue market_bids market_asks : Pubkey)
    (amm_token_srm referrer_token_pc : Option Pubkey) (cancel_order_limit : ℕ)
    → Outcome Call
admin_cancel_orders_call ids amm_program amm_pool amm_authority amm_open_orders amm_target_orders
      amm_coin_vault amm_pc_vault amm_cancel_owner amm_config market_program market
      market_coin_vault market_pc_vault market_vault_signer market_event_queue market_bids
      market_asks amm_token_srm referrer_token_pc cancel_order_limit =
    do
      bytes ← pack (AmmInstruction.admin_cancel_orders cancel_order_limit)
      ok (record {
        program_id = amm_program;
        accounts =
            (readonly ids.spl_token false
              ∷ readonly amm_pool false
              ∷ readonly amm_authority false
              ∷ writable amm_open_orders false
              ∷ writable amm_target_orders false
              ∷ writable amm_coin_vault false
              ∷ writable amm_pc_vault false
              ∷ readonly amm_cancel_owner true
              ∷ writable amm_config false
              ∷ readonly market_program false
              ∷ writable market false
              ∷ writable market_coin_vault false
              ∷ writable market_pc_vault false
              ∷ readonly market_vault_signer false
              ∷ writable market_event_queue false
              ∷ writable market_bids false
              ∷ writable market_asks false
              ∷ [])
            ++ pushed_two amm_token_srm referrer_token_pc;
        bytes = bytes;
      })
