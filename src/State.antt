-- ===== src/State.antt =====
-- program/src/state.rs: the records of the program's accounts and the enumerations stored in them.
pub mod Status
pub mod Fees
pub mod Accounts
pub mod Initialize
