-- ===== src/Processor/Calls/Monitor.antt =====
-- The call of a monitor step: `monitor_step` of program/src/instruction.rs and the handler's accounts.
use raydium_amm_fair.Common.{ℕ, refl, false, Option, none, some}
use raydium_amm_fair.State.Accounts.{Pubkey}
use raydium_amm_fair.Chain.{next_account_info}
use raydium_amm_fair.Instruction.Types.{AmmInstruction}
use raydium_amm_fair.Instruction.RoundTrip.{IsPackable}
use raydium_amm_fair.Instruction.Call.{ProgramIds, writable, readonly}
use raydium_amm_fair.Instruction.Call.Orders.{monitor_step_call}
use raydium_amm_fair.Processor.Monitor.Accounts.{MonitorAccounts, monitor_accounts}
use raydium_amm_fair.Processor.Calls.{IsCall, heard}

-- The call that `monitor_step` builds of any keys and of three numbers of 16 bits is read as the
-- step with these limits, and the handler takes each account for what the caller named it; the
-- referrer's account is passed on only behind one of SRM.
pub monitor_step_call-IsCall :
    (ids : ProgramIds)
    (amm_program amm_pool amm_authority amm_open_orders amm_target_orders amm_coin_vault
      amm_pc_vault : Pubkey)
    (amm_token_srm : Option Pubkey)
    (market_program market market_coin_vault market_pc_vault market_vault_signer
      market_request_queue market_event_queue market_bids market_asks : Pubkey)
    (referrer_token_pc : Option Pubkey) (plan_order_limit place_order_limit cancel_order_limit : ℕ)
    → IsPackable (
        AmmInstruction.monitor_step (record {
          plan_order_limit = plan_order_limit;
          place_order_limit = place_order_limit;
          cancel_order_limit = cancel_order_limit;
        }))
    → IsCall {A = MonitorAccounts} monitor_accounts
        (monitor_step_call ids amm_program amm_pool amm_authority amm_open_orders amm_target_orders
          amm_coin_vault amm_pc_vault amm_token_srm market_program market market_coin_vault
          market_pc_vault market_vault_signer market_request_queue market_event_queue market_bids
          market_asks referrer_token_pc plan_order_limit place_order_limit cancel_order_limit)
        (AmmInstruction.monitor_step (record {
          plan_order_limit = plan_order_limit;
          place_order_limit = place_order_limit;
          cancel_order_limit = cancel_order_limit;
        }))
        (record {
          token_program = readonly ids.spl_token false;
          rent = readonly ids.rent false;
          clock = readonly ids.clock false;
          amm = writable amm_pool false;
          amm_authority = readonly amm_authority false;
          amm_open_orders = writable amm_open_orders false;
          amm_target_orders = writable amm_target_orders false;
          amm_coin_vault = writable amm_coin_vault false;
          amm_pc_vault = writable amm_pc_vault false;
          market_program = readonly market_program false;
          market = writable market false;
          market_coin_vault = writable market_coin_vault false;
          market_pc_vault = writable market_pc_vault false;
          market_vault_signer = readonly market_vault_signer false;
          market_request_queue = writable market_request_queue false;
          market_event_queue = writable market_event_queue false;
          market_bids = writable market_bids false;
          market_asks = writable market_asks false;
          srm_token = elim amm_token_srm [ none ↦ none | some srm ↦ some (writable srm false) ];
          referrer_pc = elim amm_token_srm [
            | none ↦ none
            | some _ ↦ elim referrer_token_pc [
              | none ↦ none
              | some referrer ↦ some (writable referrer false)
            ]
          ];
        })
unfolding monitor_step_call monitor_accounts next_account_info
monitor_step_call-IsCall ids amm_program amm_pool amm_authority amm_open_orders amm_target_orders
      amm_coin_vault amm_pc_vault none market_program market market_coin_vault market_pc_vault
      market_vault_signer market_request_queue market_event_queue market_bids market_asks
      referrer_token_pc plan_order_limit place_order_limit cancel_order_limit h =
    heard monitor_accounts
      (AmmInstruction.monitor_step (record {
        plan_order_limit = plan_order_limit;
        place_order_limit = place_order_limit;
        cancel_order_limit = cancel_order_limit;
      }))
      _ amm_program h refl
monitor_step_call-IsCall ids amm_program amm_pool amm_authority amm_open_orders amm_target_orders
      amm_coin_vault amm_pc_vault (some srm) market_program market market_coin_vault market_pc_vault
      market_vault_signer market_request_queue market_event_queue market_bids market_asks none
      plan_order_limit place_order_limit cancel_order_limit h =
    heard monitor_accounts
      (AmmInstruction.monitor_step (record {
        plan_order_limit = plan_order_limit;
        place_order_limit = place_order_limit;
        cancel_order_limit = cancel_order_limit;
      }))
      _ amm_program h refl
monitor_step_call-IsCall ids amm_program amm_pool amm_authority amm_open_orders amm_target_orders
      amm_coin_vault amm_pc_vault (some srm) market_program market market_coin_vault market_pc_vault
      market_vault_signer market_request_queue market_event_queue market_bids market_asks
      (some referrer) plan_order_limit place_order_limit cancel_order_limit h =
    heard monitor_accounts
      (AmmInstruction.monitor_step (record {
        plan_order_limit = plan_order_limit;
        place_order_limit = place_order_limit;
        cancel_order_limit = cancel_order_limit;
      }))
      _ amm_program h refl
