-- ===== src/Relay.antt =====
-- The relay: relay/main.go and the packages below relay/pkg.
pub mod Network
pub mod Stores
pub mod Server
pub mod Accept
pub mod Steps
pub mod Routing
pub mod Closing
pub mod Leaving
pub mod Opening
pub mod Takeover
pub mod Accounting
pub mod Ids
pub mod Spec
pub mod Tasks
