-- ===== src/Processor.antt =====
-- program/src/processor.rs: the handlers of the instructions.
pub mod Market
pub mod Swap
pub mod Sequencer
pub mod Pnl
pub mod Deposit
pub mod Withdraw
pub mod Cancel
pub mod Monitor
pub mod Params
pub mod WithdrawPnl
pub mod UpdateConfig
pub mod AdminCancel
pub mod Calls
pub mod Initialize
pub mod CreateConfig
pub mod Migrate
pub mod WithdrawSrm
