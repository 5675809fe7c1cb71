-- ===== src/Instruction/Call/Funds.antt =====
-- `deposit`, `withdraw`, `withdrawpnl` and `withdrawsrm` of program/src/instruction.rs.
use raydium_amm_fair.Common.{ℕ, Option, [], ◌∷◌, true, false, ◌++◌}
use raydium_amm_fair.Outcome.{Outcome, ok, ◌>>=◌}
use raydium_amm_fair.State.Accounts.{Pubkey}
use raydium_amm_fair.Instruction.Types.{AmmInstruction}
use raydium_amm_fair.Instruction.Pack.{pack}
use raydium_amm_fair.Instruction.Call.{Call, ProgramIds, writable, readonly, pushed}

unfoldable pub deposit_call :
    (ids : ProgramIds)
    (amm_program amm_pool amm_authority amm_open_orders amm_target_orders amm_lp_mint amm_coin_vault
      amm_pc_vault market market_event_queue user_token_coin user_token_pc user_token_lp
      user_owner : Pubkey)
    (max_coin_amount max_pc_amount base_side : ℕ) (other_amount_min : Option ℕ)
    → Outcome Call
deposit_call ids amm_program amm_pool amm_authority amm_open_orders amm_target_orders amm_lp_mint
      amm_coin_vault amm_pc_vault market market_event_queue user_token_coin user_token_pc
      user_token_lp user_owner max_coin_amount max_pc_amount base_side other_amount_min =
    do
      bytes ← pack (
          AmmInstruction.deposit (record {
            max_coin_amount = max_coin_amount;
            max_pc_amount = max_pc_amount;
            base_side = base_side;
            other_amount_min = other_amount_min;
          }))
      ok (record {
        program_id = amm_program;
        accounts =
            readonly ids.spl_token false
            ∷ writable amm_pool false
            ∷ readonly amm_authority false
            ∷ readonly amm_open_orders false
            ∷ writable amm_target_orders false
            ∷ writable amm_lp_mint false
            ∷ writable amm_coin_vault false
            ∷ writable amm_pc_vault false
            ∷ readonly market false
            ∷ writable user_token_coin false
            ∷ writable user_token_pc false
            ∷ writable user_token_lp false
            ∷ readonly user_owner true
            ∷ readonly market_event_queue false
            ∷ [];
        bytes = bytes;
      })

unfoldable pub withdraw_call :
    (ids : ProgramIds)
    (amm_program amm_pool amm_authority amm_open_orders amm_target_orders amm_lp_mint amm_coin_vault
      amm_pc_vault market_program market market_coin_vault market_pc_vault market_vault_signer
      user_token_lp user_token_coin user_token_pc user_owner market_event_queue market_bids
      market_asks : Pubkey)
    (referrer_pc_account : Option Pubkey) (amount : ℕ) (min_coin_amount min_pc_amount : Option ℕ)
    → Outcome Call
withdraw_call ids amm_program amm_pool amm_authority amm_open_orders amm_target_orders amm_lp_mint
      amm_coin_vault amm_pc_vault market_program market market_coin_vault market_pc_vault
      market_vault_signer user_token_lp user_token_coin user_token_pc user_owner market_event_queue
      market_bids market_asks referrer_pc_account amount min_coin_amount min_pc_amount =
    do
      bytes ← pack (
          AmmInstruction.withdraw (record {
            amount = amount;
            min_coin_amount = min_coin_amount;
            min_pc_amount = min_pc_amount;
          }))
      ok (record {
        program_id = amm_program;
        accounts =
            (readonly ids.spl_token false
              ∷ writable amm_pool false
              ∷ readonly amm_authority false
              ∷ writable amm_open_orders false
              ∷ writable amm_target_orders false
              ∷ writable amm_lp_mint false
              ∷ writable amm_coin_vault false
              ∷ writable amm_pc_vault false
              ∷ readonly market_program false
              ∷ writable market false
              ∷ writable market_coin_vault false
              ∷ writable market_pc_vault false
              ∷ readonly market_vault_signer false
              ∷ writable user_token_lp false
              ∷ writable user_token_coin false
              ∷ writable user_token_pc false
              ∷ readonly user_owner true
              ∷ writable market_event_queue false
              ∷ writable market_bids false
              ∷ writable market_asks false
              ∷ [])
            ++ pushed writable referrer_pc_account;
        bytes = bytes;
      })

unfoldable pub withdrawpnl_call :
    (ids : ProgramIds)
    (amm_program amm_pool amm_config amm_authority amm_open_orders amm_coin_vault amm_pc_vault
      user_token_coin user_token_pc user_owner amm_target_orders market_program market
      market_event_queue market_coin_vault market_pc_vault market_vault_signer : Pubkey)
    → Outcome Call
withdrawpnl_call ids amm_program amm_pool amm_config amm_authority amm_open_orders amm_coin_vault
      amm_pc_vault user_token_coin user_token_pc user_owner amm_target_orders market_program market
      market_event_queue market_coin_vault market_pc_vault market_vault_signer =
    do
      bytes ← pack AmmInstruction.withdraw_pnl
      ok (record {
        program_id = amm_program;
        accounts =
            readonly ids.spl_token false
            ∷ writable amm_pool false
            ∷ readonly amm_config false
            ∷ readonly amm_authority false
            ∷ writable amm_open_orders false
            ∷ writable amm_coin_vault false
            ∷ writable amm_pc_vault false
            ∷ writable user_token_coin false
            ∷ writable user_token_pc false
            ∷ readonly user_owner true
            ∷ writable amm_target_orders false
            ∷ readonly market_program false
            ∷ writable market false
            ∷ readonly market_event_queue false
            ∷ writable market_coin_vault false
            ∷ writable market_pc_vault false
            ∷ readonly market_vault_signer false
            ∷ [];
        bytes = bytes;
      })

unfoldable pub withdrawsrm_call :
    (ids : ProgramIds) (amm_program amm_pool amm_authority admin token_srm dest_token_srm : Pubkey)
    (amount : ℕ)
    → Outcome Call
withdrawsrm_call ids amm_program amm_pool amm_authority admin token_srm dest_token_srm amount = do
  bytes ← pack (AmmInstruction.withdraw_srm amount)
  ok (record {
    program_id = amm_program;
    accounts =
        readonly ids.spl_token false
        ∷ readonly amm_pool false
        ∷ readonly admin true
        ∷ readonly amm_authority false
        ∷ writable token_srm false
        ∷ writable dest_token_srm false
        ∷ [];
    bytes = bytes;
  })
