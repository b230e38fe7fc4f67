-- ===== src/Encoding.antt =====
-- The crate lorawan-encoding: wire types, MAC commands, frames.
pub mod Types
pub mod MacCommands
pub mod Frame
