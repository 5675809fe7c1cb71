-- ===== src/Instruction/Call/Admin.antt =====
-- `initialize2`, `migrate_to_openbook`, `set_params`, `create_config_account` and
-- `update_config_account` of program/src/instruction.rs.
use raydium_amm_fair.Common.{ℕ, Option, [], ◌∷◌, true, false, ◌++◌, ◌==◌, if◌then◌else◌}
use raydium_amm_fair.Outcome.{Outcome, ok, unwrap, ◌>>=◌}
use raydium_amm_fair.State.Fees.{Fees}
use raydium_amm_fair.State.Accounts.{Pubkey}
use raydium_amm_fair.Instruction.Types.{AmmInstruction, LastOrderDistance, ConfigArgs}
use raydium_amm_fair.Instruction.Pack.{pack}
use raydium_amm_fair.Instruction.Call.{Call, ProgramIds, writable, readonly}

unfoldable pub initialize2_call :
    (ids : ProgramIds)
    (amm_program amm_pool amm_authority amm_open_orders amm_lp_mint amm_coin_mint amm_pc_mint
      amm_coin_vault amm_pc_vault amm_target_orders amm_config create_fee_destination market_program
      market user_wallet user_token_coin user_token_pc user_token_lp : Pubkey)
    (nonce open_time init_pc_amount init_coin_amount : ℕ)
    → Outcome Call
initialize2_call ids amm_program amm_pool amm_authority amm_open_orders amm_lp_mint amm_coin_mint
      amm_pc_mint amm_coin_vault amm_pc_vault amm_target_orders amm_config create_fee_destination
      market_program market user_wallet user_token_coin user_token_pc user_token_lp nonce open_time
      init_pc_amount init_coin_amount =
    do
      bytes ← pack (
          AmmInstruction.initialize2 (record {
            nonce = nonce;
            open_time = open_time;
            init_pc_amount = init_pc_amount;
            init_coin_amount = init_coin_amount;
          }))
      ok (record {
        program_id = amm_program;
        accounts =
            readonly ids.spl_token false
            ∷ readonly ids.associated_token false
            ∷ readonly ids.system_program false
            ∷ readonly ids.rent false
            ∷ writable amm_pool false
            ∷ readonly amm_authority false
            ∷ writable amm_open_orders false
            ∷ writable amm_lp_mint false
            ∷ readonly amm_coin_mint false
            ∷ readonly amm_pc_mint false
            ∷ writable amm_coin_vault false
            ∷ writable amm_pc_vault false
            ∷ writable amm_target_orders false
            ∷ readonly amm_config false
            ∷ writable create_fee_destination false
            ∷ readonly market_program false
            ∷ readonly market false
            ∷ writable user_wallet true
            ∷ writable user_token_coin false
            ∷ writable user_token_pc false
            ∷ writable user_token_lp false
            ∷ [];
        bytes = bytes;
      })

unfoldable pub migrate_to_openbook_call :
    (ids : ProgramIds)
    (amm_program amm_pool amm_authority amm_open_orders amm_coin_vault amm_pc_vault
      amm_target_orders market_program market market_bids market_asks market_event_queue
      market_coin_vault market_pc_vault market_vault_signer new_amm_open_orders new_market_program
      new_market admin : Pubkey)
    → Outcome Call
migrate_to_openbook_call ids amm_program amm_pool amm_authority amm_open_orders amm_coin_vault
      amm_pc_vault amm_target_orders market_program market market_bids market_asks
      market_event_queue market_coin_vault market_pc_vault market_vault_signer new_amm_open_orders
      new_market_program new_market admin =
    do
      bytes ← pack AmmInstruction.migrate_to_open_book
      ok (record {
        program_id = amm_program;
        accounts =
            readonly ids.spl_token false
            ∷ readonly ids.system_program false
            ∷ readonly ids.rent false
            ∷ writable amm_pool false
            ∷ readonly amm_authority false
            ∷ writable amm_open_orders false
            ∷ writable amm_coin_vault false
            ∷ writable amm_pc_vault false
            ∷ writable amm_target_orders false
            ∷ readonly market_program false
            ∷ writable market false
            ∷ writable market_bids false
            ∷ writable market_asks false
            ∷ writable market_event_queue false
            ∷ writable market_coin_vault false
            ∷ writable market_pc_vault false
            ∷ readonly market_vault_signer false
            ∷ writable new_amm_open_orders false
            ∷ readonly new_market_program false
            ∷ readonly new_market false
            ∷ writable admin true
            ∷ [];
        bytes = bytes;
      })

unfoldable pub set_params_call :
    (ids : ProgramIds) (amm_program amm_pool amm_authority admin : Pubkey) (param : ℕ)
    (value : Option ℕ) (new_pubkey : Option Pubkey)
    (amm_target_orders amm_coin_vault amm_pc_vault amm_open_orders market_program market
      market_coin_vault market_pc_vault market_vault_signer market_event_queue market_bids
      market_asks : Pubkey)
    (new_amm_open_orders : Option Pubkey) (fees : Option Fees)
    (last_order_distance : Option LastOrderDistance)
    → Outcome Call
set_params_call ids amm_program amm_pool amm_authority admin param value new_pubkey
      amm_target_orders amm_coin_vault amm_pc_vault amm_open_orders market_program market
      market_coin_vault market_pc_vault market_vault_signer market_event_queue market_bids
      market_asks new_amm_open_orders fees last_order_distance =
    do
      bytes ← pack (
          AmmInstruction.set_params (record {
            param = param;
            value = value;
            new_pubkey = new_pubkey;
            fees = fees;
            last_order_distance = last_order_distance;
          }))
      pushed_accounts ←
          (if param == 17
            then (do
              new_open_orders ← unwrap new_amm_open_orders
              ok (readonly new_open_orders false ∷ []))
            else ok [])
      ok (record {
        program_id = amm_program;
        accounts =
            (readonly ids.spl_token false
              ∷ writable amm_pool false
              ∷ readonly amm_authority false
              ∷ writable amm_open_orders false
              ∷ writable amm_target_orders false
              ∷ writable amm_coin_vault false
              ∷ writable amm_pc_vault false
              ∷ readonly market_program false
              ∷ writable market false
              ∷ writable market_coin_vault false
              ∷ writable market_pc_vault false
              ∷ readonly market_vault_signer false
              ∷ writable market_event_queue false
              ∷ writable market_bids false
              ∷ writable market_asks false
              ∷ readonly admin true
              ∷ [])
            ++ pushed_accounts;
        bytes = bytes;
      })

unfoldable pub create_config_account_call :
    (ids : ProgramIds) (amm_program admin amm_config pnl_owner : Pubkey) → Outcome Call
create_config_account_call ids amm_program admin amm_config pnl_owner = do
  bytes ← pack AmmInstruction.create_config_account
  ok (record {
    program_id = amm_program;
    accounts =
        writable admin true
        ∷ writable amm_config false
        ∷ readonly pnl_owner false
        ∷ readonly ids.system_program false
        ∷ readonly ids.rent false
        ∷ [];
    bytes = bytes;
  })

unfoldable pub update_config_account_call :
    (amm_program admin amm_config : Pubkey) (config_args : ConfigArgs) → Outcome Call
update_config_account_call amm_program admin amm_config config_args = do
  bytes ← pack (AmmInstruction.update_config_account config_args)
  ok (record {
    program_id = amm_program;
    accounts = readonly admin true ∷ writable amm_config false ∷ [];
    bytes = bytes;
  })
