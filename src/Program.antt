-- ===== src/Program.antt =====
-- The on-chain crate `program`: the handlers of the instructions and their laws.
pub mod Runtime
pub mod User
pub mod Stakes
pub mod Admin
pub mod Dispatch
pub mod Frames
pub mod Idempotence
pub mod Earnings
pub mod Numbering
pub mod Totals
pub mod Built
pub mod Sample
mod Tests
