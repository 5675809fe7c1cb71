-- ===== src/Processor/Calls/Deposit.antt =====
-- The call of a deposit: `deposit` of program/src/instruction.rs and the handler's accounts.
use raydium_amm_fair.Common.{ℕ, refl, true, false, Option}
use raydium_amm_fair.State.Accounts.{Pubkey}
use raydium_amm_fair.Chain.{next_account_info}
use raydium_amm_fair.Instruction.Types.{AmmInstruction}
use raydium_amm_fair.Instruction.RoundTrip.{IsPackable}
use raydium_amm_fair.Instruction.Call.{ProgramIds, writable, readonly}
use raydium_amm_fair.Instruction.Call.Funds.{deposit_call}
use raydium_amm_fair.Processor.Deposit.{DepositAccounts, deposit_accounts}
use raydium_amm_fair.Processor.Calls.{IsCall, heard}

-- The call that `deposit` builds of any keys and of numbers of 64 bits is read as the deposit of
-- these numbers, and the handler takes each account for what the caller named it, with the
-- signature on the owner alone.
pub deposit_call-IsCall :
    (ids : ProgramIds)
    (amm_program amm_pool amm_authority amm_open_orders amm_target_orders amm_lp_mint amm_coin_vault
      amm_pc_vault market market_event_queue user_token_coin user_token_pc user_token_lp
      user_owner : Pubkey)
    (max_coin_amount max_pc_amount base_side : ℕ) (other_amount_min : Option ℕ)
    → IsPackable (
        AmmInstruction.deposit (record {
          max_coin_amount = max_coin_amount;
          max_pc_amount = max_pc_amount;
          base_side = base_side;
          other_amount_min = other_amount_min;
        }))
    → IsCall {A = DepositAccounts} deposit_accounts
        (deposit_call ids amm_program amm_pool amm_authority amm_open_orders amm_target_orders
          amm_lp_mint amm_coin_vault amm_pc_vault market market_event_queue user_token_coin
          user_token_pc user_token_lp user_owner max_coin_amount max_pc_amount base_side
          other_amount_min)
        (AmmInstruction.deposit (record {
          max_coin_amount = max_coin_amount;
          max_pc_amount = max_pc_amount;
          base_side = base_side;
          other_amount_min = other_amount_min;
        }))
        (record {
          token_program = readonly ids.spl_token false;
          amm = writable amm_pool false;
          amm_authority = readonly amm_authority false;
          amm_open_orders = readonly amm_open_orders false;
          amm_target_orders = writable amm_target_orders false;
          amm_lp_mint = writable amm_lp_mint false;
          amm_coin_vault = writable amm_coin_vault false;
          amm_pc_vault = writable amm_pc_vault false;
          market = readonly market false;
          user_source_coin = writable user_token_coin false;
          user_source_pc = writable user_token_pc false;
          user_dest_lp = writable user_token_lp false;
          source_owner = readonly user_owner true;
          market_event_queue = readonly market_event_queue false;
        })
unfolding deposit_call deposit_accounts next_account_info
deposit_call-IsCall ids amm_program amm_pool amm_authority amm_open_orders amm_target_orders
      amm_lp_mint amm_coin_vault amm_pc_vault market market_event_queue user_token_coin
      user_token_pc user_token_lp user_owner max_coin_amount max_pc_amount base_side
      other_amount_min h =
    heard deposit_accounts
      (AmmInstruction.deposit (record {
        max_coin_amount = max_coin_amount;
        max_pc_amount = max_pc_amount;
        base_side = base_side;
        other_amount_min = other_amount_min;
      }))
      _ amm_program h refl
