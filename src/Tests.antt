-- ===== src/Tests.antt =====
-- A concrete chain, and the theorems of the development at work on it.
pub mod World
mod Laws
mod Swap
mod Sequencer
mod Deposit
mod Withdraw
pub mod Book
mod Monitor
mod Plan
mod Params
mod WithdrawPnl
mod Admin
mod Math
mod Wire
mod Orders
mod Calls
pub mod Initialize
mod Migrate
