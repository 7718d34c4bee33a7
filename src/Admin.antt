-- ===== src/Admin.antt =====
-- The crate `admin`: the commands with which an operator sets up its pool.
pub mod Error
pub mod Node
pub mod Settings
pub mod Init
pub mod Commands
pub mod Chain
pub mod Accounts
pub mod Ready
pub mod Again
pub mod Refusals
mod Tests
