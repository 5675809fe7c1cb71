-- ===== src/Instruction.antt =====
-- program/src/instruction.rs: the instructions and their byte format. `AmmInstruction` with its
-- arguments stands in Types, `unpack` in Plain and Unpack, `pack` in Pack, what joins them in Reading,
-- Args and RoundTrip; Call has the functions that build calls.
pub mod Types
pub mod Plain
pub mod Unpack
pub mod Pack
pub mod Reading
pub mod Args
pub mod RoundTrip
pub mod Minimums
pub mod Call
