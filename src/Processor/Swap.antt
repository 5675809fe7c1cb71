-- ===== src/Processor/Swap.antt =====
-- `process_swap_base_in` and `process_swap_base_out` (program/src/processor.rs): what they share
-- stands in Context (accounts, checks, status, totals, direction) and Settle (orders, transfers,
-- statistics), the two handlers in BaseIn and BaseOut, their properties in the other children.
pub mod Context
pub mod Settle
pub mod BaseIn
pub mod BaseOut
pub mod Facts
pub mod Settled
pub mod Quotes
pub mod ConstantProduct
pub mod Sequence
pub mod Run
