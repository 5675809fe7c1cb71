-- ===== src/Processor/Calls/Withdraw.antt =====
-- The call of a withdrawal: `withdraw` of program/src/instruction.rs and the handler's accounts.
use raydium_amm_fair.Common.{ℕ, refl, true, false, Option, none}
use raydium_amm_fair.State.Accounts.{Pubkey}
use raydium_amm_fair.Chain.{Bank, next_account_info}
use raydium_amm_fair.Instruction.Types.{AmmInstruction}
use raydium_amm_fair.Instruction.RoundTrip.{IsPackable}
use raydium_amm_fair.Instruction.Call.{ProgramIds, writable, readonly}
use raydium_amm_fair.Instruction.Call.Funds.{withdraw_call}
use raydium_amm_fair.Processor.Withdraw.Accounts.{WithdrawAccounts, withdraw_accounts, referrer_of}
use raydium_amm_fair.Processor.Calls.{IsCall, heard}

-- The call that `withdraw` builds without a referrer, of any keys and of numbers of 64 bits, with
-- both minimums or with none, is read as the withdrawal of these numbers, and the handler takes
-- each account for what the caller named it, with the pool's pc vault for the referrer's account.
pub withdraw_call-IsCall :
    (ids : ProgramIds) (bank : Bank)
    (amm_program amm_pool amm_authority amm_open_orders amm_target_orders amm_lp_mint amm_coin_vault
      amm_pc_vault market_program market market_coin_vault market_pc_vault market_vault_signer
      user_token_lp user_token_coin user_token_pc user_owner market_event_queue market_bids
      market_asks : Pubkey)
    (amount : ℕ) (min_coin_amount min_pc_amount : Option ℕ)
    → IsPackable (
        AmmInstruction.withdraw (record {
          amount = amount;
          min_coin_amount = min_coin_amount;
          min_pc_amount = min_pc_amount;
        }))
    → IsCall {A = WithdrawAccounts}
        (λ accounts. withdraw_accounts accounts bank)
        (withdraw_call ids amm_program amm_pool amm_authority amm_open_orders amm_target_orders
          amm_lp_mint amm_coin_vault amm_pc_vault market_program market market_coin_vault
          market_pc_vault market_vault_signer user_token_lp user_token_coin user_token_pc user_owner
          market_event_queue market_bids market_asks none amount min_coin_amount min_pc_amount)
        (AmmInstruction.withdraw (record {
          amount = amount;
          min_coin_amount = min_coin_amount;
          min_pc_amount = min_pc_amount;
        }))
        (record {
          token_program = readonly ids.spl_token false;
          amm = writable amm_pool false;
          amm_authority = readonly amm_authority false;
          amm_open_orders = writable amm_open_orders false;
          amm_target_orders = writable amm_target_orders false;
          amm_lp_mint = writable amm_lp_mint false;
          amm_coin_vault = writable amm_coin_vault false;
          amm_pc_vault = writable amm_pc_vault false;
          market_program = readonly market_program false;
          market = writable market false;
          market_coin_vault = writable market_coin_vault false;
          market_pc_vault = writable market_pc_vault false;
          market_vault_signer = readonly market_vault_signer false;
          user_source_lp = writable user_token_lp false;
          user_dest_coin = writable user_token_coin false;
          user_dest_pc = writable user_token_pc false;
          source_lp_owner = readonly user_owner true;
          market_event_queue = writable market_event_queue false;
          market_bids = writable market_bids false;
          market_asks = writable market_asks false;
          referrer_pc_wallet = writable amm_pc_vault false;
        })
unfolding withdraw_call withdraw_accounts next_account_info referrer_of
withdraw_call-IsCall ids bank amm_program amm_pool amm_authority amm_open_orders amm_target_orders
      amm_lp_mint amm_coin_vault amm_pc_vault market_program market market_coin_vault
      market_pc_vault market_vault_signer user_token_lp user_token_coin user_token_pc user_owner
      market_event_queue market_bids market_asks amount min_coin_amount min_pc_amount h =
    heard (λ accounts. withdraw_accounts accounts bank)
      (AmmInstruction.withdraw (record {
        amount = amount;
        min_coin_amount = min_coin_amount;
        min_pc_amount = min_pc_amount;
      }))
      _ amm_program h refl
