-- ===== src/Lib.antt =====
-- The Raydium AMM with sequenced swaps (program/src, a program for Solana), as functions on the
-- contents of all accounts.
--
-- The program keeps constant-product pools of two tokens, coin and pc. A pool is an `AmmInfo` record
-- with two vaults of the token program, a `TargetOrders` record, a mint of shares, and, where its
-- status enables the order book, an account of open orders on a market. An instruction is bytes,
-- which `AmmInstruction::unpack` reads, and a list of accounts; `Processor` has one handler for each.
--
-- Files and parts:
--   Common             names of the libraries, tests on numbers, lists, products
--   Error, Outcome     program/src/error.rs; what a fallible call does: value, error, panic
--   Word, Bytes        checked arithmetic of fixed width; little-endian fields
--   State              program/src/state.rs: Status (the enums), Fees, Accounts (the records),
--                      Initialize (`AmmInfo::initialize`)
--   Math               program/src/math.rs: CeilDiv (`CheckedCeilDiv`), Decimal (decimals and lots),
--                      Fibonacci, Swap (the two swap amounts), Exchange (`InvariantToken`,
--                      `InvariantPool`), Totals (the totals of a pool)
--   Instruction        program/src/instruction.rs: Types, Plain and Unpack (`unpack`), Pack (`pack`),
--                      Call (the functions that build calls, `deposit_call` for `deposit`)
--   Config             the fixed keys of `processor.rs`
--   Chain              accounts and their contents (`Bank`), the runtime and the token program
--   Dex                the market: Types (what the program reads of it), Orders (`get_amm_orders`),
--                      Batches (the identifiers to cancel)
--   Processor          program/src/processor.rs: Market (`load_serum_market_order`), Swap
--                      (`process_swap_base_in`, `process_swap_base_out`), Sequencer
--                      (`process_submit_sequencer_orders`, `process_swap_base_in_seq`,
--                      `process_swap_base_out_seq`), Pnl (`calc_take_pnl`), Deposit
--                      (`process_deposit`), Withdraw (`process_withdraw`), Cancel
--                      (`do_cancel_amm_orders`), Monitor (`process_monitor_step`: Accounts,
--                      Step, and each state's function in Idle, Prices and Plan, Orders and
--                      Place, Clear), Params (`process_set_params`), WithdrawPnl
--                      (`process_withdrawpnl`), CreateConfig (`process_create_config`), UpdateConfig
--                      (`process_update_config`), AdminCancel (`process_admin_cancel_orders`),
--                      Initialize (`process_initialize2`), Migrate
--                      (`process_migrate_to_openbook`), WithdrawSrm (`process_withdraw_srm`); Calls joins
--                      the built calls with the handlers
--   Tests              a concrete chain, and each theorem at work on it
--
-- How the model corresponds to the code. A `Bank` gives the owner and the contents of the account of
-- every key; an `AccountInfo` is a key with its flags, so two of them with one key share contents. A
-- handler takes a bank and returns `ok` of the bank after it, `err`, or `panic`; an error and a panic
-- both abort the transaction, so neither has a bank. A record that the source borrows mutably and
-- changes in place is a value that the handler writes back at its end; the called programs in between
-- are not passed that account. Where two accounts of one call have the same key, the source may fail
-- in the borrow where the model goes on to a check of the contents that fails. Numbers are natural;
-- every `checked_` operation of the source is written out with its width, and a plain operator too,
-- since the build checks overflow. A public key is the little-endian number of its 32 bytes. An
-- account's contents are told apart by constructors, as the source tells them apart by owner and
-- length.
--
-- Parameters. The runtime and the token program are a `Runtime`, the market program a `Market`, the
-- keys that a client takes from other crates `ProgramIds`, the calls that create accounts a `System`,
-- and the square root of the crate `uint` a function. `IsTransfer`, `IsMint` and `IsBurn` state the
-- documented effect of a transfer, an issue and a burn of tokens, and `IsRoot` that of the square
-- root. What is shown of a whole swap, deposit or withdrawal is for pools whose status does not enable
-- the order book, with two different vaults; a withdrawal of the profit is shown with or without the
-- order book, where the vaults and the accounts that receive are four different ones, which its
-- handler does not check. The flag `allow_disabled` of `load_serum_market_order` is passed as each
-- caller does; which markets it lets through is the market's part. Loops are structural recursion on a list or on the
-- rounds that are left, so no fuel is needed.
--
-- Not modelled: simulation, the dispatch of `process`, the invokers, logs, JSON.
pub mod Common
pub mod Error
pub mod Outcome
pub mod Word
pub mod Bytes
pub mod State
pub mod Math
pub mod Instruction
pub mod Chain
pub mod Config
pub mod Dex
pub mod Processor
pub mod Tests
