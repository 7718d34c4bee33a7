-- ===== src/Api.antt =====
-- The shared crate `api`: account types, addresses and instruction data.
pub mod State
pub mod Error
pub mod Instruction
pub mod Loaders
pub mod Sdk
pub mod Sample
mod Tests
