-- ===== src/Processor/Monitor.antt =====
-- `process_monitor_step` (program/src/processor.rs) and its states.
pub mod Accounts
pub mod Idle
pub mod Prices
pub mod Plan
pub mod Orders
pub mod Place
pub mod Clear
pub mod Step
pub mod Graph
pub mod Sent
pub mod Edges
pub mod Steps
pub mod Trace
pub mod Sides
pub mod Planned
pub mod Planning
