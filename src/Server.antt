-- ===== src/Server.antt =====
-- The off-chain crate `server`: aggregation of contributions, rewards, the database and the checks
-- of what clients send.
pub mod Error
pub mod Aggregator
pub mod Rewards
pub mod Validate
pub mod Nonce
pub mod Database
pub mod Attribution
pub mod Io
pub mod Rpc
pub mod Submit
pub mod State
pub mod Operator
pub mod Cycle
pub mod Webhook
pub mod Contributor
pub mod Tasks
pub mod Routes
mod Tests
