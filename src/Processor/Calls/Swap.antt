-- ===== src/Processor/Calls/Swap.antt =====
-- The call of a swap with a fixed amount in: `swap_base_in` of program/src/instruction.rs and the handler's accounts.
use raydium_amm_fair.Common.{ℕ, refl, true, false}
use raydium_amm_fair.State.Accounts.{Pubkey}
use raydium_amm_fair.Chain.{next_account_info}
use raydium_amm_fair.Instruction.Types.{AmmInstruction}
use raydium_amm_fair.Instruction.RoundTrip.{IsPackable}
use raydium_amm_fair.Instruction.Call.{ProgramIds, writable, readonly}
use raydium_amm_fair.Instruction.Call.Swap.{swap_base_in_call}
use raydium_amm_fair.Processor.Swap.Context.{SwapAccounts, swap_accounts}
use raydium_amm_fair.Processor.Calls.{IsCall, heard}

-- The call that `swap_base_in` builds of any keys and of two numbers of 64 bits is read as the swap
-- of these two numbers, and the swap's handler takes each account for what the caller named it,
-- with the signature on the owner of the source alone.
pub swap_base_in_call-IsCall :
    (ids : ProgramIds)
    (amm_program amm_pool amm_authority amm_open_orders amm_coin_vault amm_pc_vault market_program
      market market_bids market_asks market_event_queue market_coin_vault market_pc_vault
      market_vault_signer user_token_source user_token_destination user_source_owner : Pubkey)
    (amount_in minimum_amount_out : ℕ)
    → IsPackable (
        AmmInstruction.swap_base_in
          (record { amount_in = amount_in; minimum_amount_out = minimum_amount_out }))
    → IsCall {A = SwapAccounts} swap_accounts
        (swap_base_in_call ids amm_program amm_pool amm_authority amm_open_orders amm_coin_vault
          amm_pc_vault market_program market market_bids market_asks market_event_queue
          market_coin_vault market_pc_vault market_vault_signer user_token_source
          user_token_destination user_source_owner amount_in minimum_amount_out)
        (AmmInstruction.swap_base_in
          (record { amount_in = amount_in; minimum_amount_out = minimum_amount_out }))
        (record {
          token_program = readonly ids.spl_token false;
          amm = writable amm_pool false;
          amm_authority = readonly amm_authority false;
          amm_open_orders = writable amm_open_orders false;
          amm_coin_vault = writable amm_coin_vault false;
          amm_pc_vault = writable amm_pc_vault false;
          market_program = readonly market_program false;
          market = writable market false;
          market_bids = writable market_bids false;
          market_asks = writable market_asks false;
          market_event_queue = writable market_event_queue false;
          market_coin_vault = writable market_coin_vault false;
          market_pc_vault = writable market_pc_vault false;
          market_vault_signer = readonly market_vault_signer false;
          user_source = writable user_token_source false;
          user_destination = writable user_token_destination false;
          user_source_owner = readonly user_source_owner true;
        })
unfolding swap_base_in_call swap_accounts next_account_info
swap_base_in_call-IsCall ids amm_program amm_pool amm_authority amm_open_orders amm_coin_vault
      amm_pc_vault market_program market market_bids market_asks market_event_queue
      market_coin_vault market_pc_vault market_vault_signer user_token_source user_token_destination
      user_source_owner amount_in minimum_amount_out h =
    heard swap_accounts
      (AmmInstruction.swap_base_in
        (record { amount_in = amount_in; minimum_amount_out = minimum_amount_out }))
      _ amm_program h refl
