-- ===== src/Tests/Calls.antt =====
-- The calls that a client builds, for the accounts of the small chain, and minimums that get lost.
use raydium_amm_fair.Common.{◌≡◌, none, some, true, false, arith}
use raydium_amm_fair.Outcome.{ok, ◌>>=◌}
use raydium_amm_fair.Instruction.Types.{AmmInstruction}
use raydium_amm_fair.Instruction.Pack.{pack}
use raydium_amm_fair.Instruction.Unpack.{unpack}
use raydium_amm_fair.Instruction.Minimums.{unpack-pack-lone}
use raydium_amm_fair.Instruction.Call.{ProgramIds, writable, readonly}
use raydium_amm_fair.Instruction.Call.Swap.{swap_base_in_call}
use raydium_amm_fair.Instruction.Call.Funds.{deposit_call, withdraw_call}
use raydium_amm_fair.Instruction.Call.Orders.{monitor_step_call}
use raydium_amm_fair.Processor.Swap.Context.{SwapAccounts, swap_accounts}
use raydium_amm_fair.Processor.Deposit.{DepositAccounts, deposit_accounts}
use raydium_amm_fair.Processor.Withdraw.Accounts.{WithdrawAccounts, withdraw_accounts}
use raydium_amm_fair.Processor.Monitor.Accounts.{MonitorAccounts, monitor_accounts}
use raydium_amm_fair.Processor.Calls.{IsCall}
use raydium_amm_fair.Processor.Calls.Swap.{swap_base_in_call-IsCall}
use raydium_amm_fair.Processor.Calls.Deposit.{deposit_call-IsCall}
use raydium_amm_fair.Processor.Calls.Withdraw.{withdraw_call-IsCall}
use raydium_amm_fair.Processor.Calls.Monitor.{monitor_step_call-IsCall}
use raydium_amm_fair.Tests.World.{bank}

abbrev ids : ProgramIds
ids = record {
  spl_token = 901;
  associated_token = 906;
  system_program = 907;
  rent = 905;
  clock = 904;
}

swap_base_in_call-IsCall_example :
    IsCall {A = SwapAccounts} swap_accounts
      (swap_base_in_call ids 900 10 902 11 12 13 14 15 16 17 18 19 20 21 22 23 24 500 400)
      (AmmInstruction.swap_base_in (record { amount_in = 500; minimum_amount_out = 400 }))
      (record {
        token_program = readonly ids.spl_token false;
        amm = writable 10 false;
        amm_authority = readonly 902 false;
        amm_open_orders = writable 11 false;
        amm_coin_vault = writable 12 false;
        amm_pc_vault = writable 13 false;
        market_program = readonly 14 false;
        market = writable 15 false;
        market_bids = writable 16 false;
        market_asks = writable 17 false;
        market_event_queue = writable 18 false;
        market_coin_vault = writable 19 false;
        market_pc_vault = writable 20 false;
        market_vault_signer = readonly 21 false;
        user_source = writable 22 false;
        user_destination = writable 23 false;
        user_source_owner = readonly 24 true;
      })
swap_base_in_call-IsCall_example =
    swap_base_in_call-IsCall ids 900 10 902 11 12 13 14 15 16 17 18 19 20 21 22 23 24 500 400
      (omega arith, omega arith)

deposit_call-IsCall_example :
    IsCall {A = DepositAccounts} deposit_accounts
      (deposit_call ids 900 10 902 11 25 26 12 13 15 18 22 23 28 24 700 800 1 (some 600))
      (AmmInstruction.deposit (record {
        max_coin_amount = 700;
        max_pc_amount = 800;
        base_side = 1;
        other_amount_min = (some 600);
      }))
      (record {
        token_program = readonly ids.spl_token false;
        amm = writable 10 false;
        amm_authority = readonly 902 false;
        amm_open_orders = readonly 11 false;
        amm_target_orders = writable 25 false;
        amm_lp_mint = writable 26 false;
        amm_coin_vault = writable 12 false;
        amm_pc_vault = writable 13 false;
        market = readonly 15 false;
        user_source_coin = writable 22 false;
        user_source_pc = writable 23 false;
        user_dest_lp = writable 28 false;
        source_owner = readonly 24 true;
        market_event_queue = readonly 18 false;
      })
deposit_call-IsCall_example =
    deposit_call-IsCall ids 900 10 902 11 25 26 12 13 15 18 22 23 28 24 700 800 1 (some 600)
      (omega arith, omega arith, omega arith, omega arith)

withdraw_call-IsCall_example :
    IsCall {A = WithdrawAccounts}
      (λ accounts. withdraw_accounts accounts bank)
      (withdraw_call ids 900 10 902 11 25 26 12 13 14 15 19 20 21 28 22 23 24 18 16 17 none 1000
        (some 90)
        (some 80))
      (AmmInstruction.withdraw
        (record { amount = 1000; min_coin_amount = (some 90); min_pc_amount = (some 80) }))
      (record {
        token_program = readonly ids.spl_token false;
        amm = writable 10 false;
        amm_authority = readonly 902 false;
        amm_open_orders = writable 11 false;
        amm_target_orders = writable 25 false;
        amm_lp_mint = writable 26 false;
        amm_coin_vault = writable 12 false;
        amm_pc_vault = writable 13 false;
        market_program = readonly 14 false;
        market = writable 15 false;
        market_coin_vault = writable 19 false;
        market_pc_vault = writable 20 false;
        market_vault_signer = readonly 21 false;
        user_source_lp = writable 28 false;
        user_dest_coin = writable 22 false;
        user_dest_pc = writable 23 false;
        source_lp_owner = readonly 24 true;
        market_event_queue = writable 18 false;
        market_bids = writable 16 false;
        market_asks = writable 17 false;
        referrer_pc_wallet = writable 13 false;
      })
withdraw_call-IsCall_example =
    withdraw_call-IsCall ids bank 900 10 902 11 25 26 12 13 14 15 19 20 21 28 22 23 24 18 16 17 1000
      (some 90) (some 80) (omega arith, (omega arith, omega arith))

monitor_step_call-IsCall_example :
    IsCall {A = MonitorAccounts} monitor_accounts
      (monitor_step_call ids 900 10 902 11 25 12 13
        (some 33)
        14
        15
        19
        20
        21
        29
        18
        16
        17
        (some 34)
        3
        4
        5)
      (AmmInstruction.monitor_step
        (record { plan_order_limit = 3; place_order_limit = 4; cancel_order_limit = 5 }))
      (record {
        token_program = readonly ids.spl_token false;
        rent = readonly ids.rent false;
        clock = readonly ids.clock false;
        amm = writable 10 false;
        amm_authority = readonly 902 false;
        amm_open_orders = writable 11 false;
        amm_target_orders = writable 25 false;
        amm_coin_vault = writable 12 false;
        amm_pc_vault = writable 13 false;
        market_program = readonly 14 false;
        market = writable 15 false;
        market_coin_vault = writable 19 false;
        market_pc_vault = writable 20 false;
        market_vault_signer = readonly 21 false;
        market_request_queue = writable 29 false;
        market_event_queue = writable 18 false;
        market_bids = writable 16 false;
        market_asks = writable 17 false;
        srm_token = some (writable 33 false);
        referrer_pc = some (writable 34 false);
      })
monitor_step_call-IsCall_example =
    monitor_step_call-IsCall ids 900 10 902 11 25 12 13 (some 33) 14 15 19 20 21 29 18 16 17
      (some 34) 3 4 5 (omega arith, omega arith, omega arith)

unpack-pack-lone_example :
    ((pack (
          AmmInstruction.withdraw
            (record { amount = 1000; min_coin_amount = some 90; min_pc_amount = none }))
        >>= unpack)
      ≡ ok (
          AmmInstruction.withdraw
            (record { amount = 1000; min_coin_amount = none; min_pc_amount = none })))
    × ((pack (
            AmmInstruction.withdraw
              (record { amount = 1000; min_coin_amount = none; min_pc_amount = some 90 }))
          >>= unpack)
        ≡ ok (
            AmmInstruction.withdraw
              (record { amount = 1000; min_coin_amount = none; min_pc_amount = none })))
unpack-pack-lone_example = unpack-pack-lone 1000 90 (omega arith)
