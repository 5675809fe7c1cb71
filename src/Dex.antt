-- ===== src/Dex.antt =====
-- The order book that the pool trades on (the serum-dex program, which is not part of the repository):
-- its records as far as program/src reads them, its calls, and what the program computes from them.
pub mod Orders
pub mod Batches
pub mod Types
