-- ===== src/Connector.antt =====
-- The connector: the packages below connector/pkg.
pub mod Payload
pub mod Events
pub mod Gateway
pub mod Handshake
pub mod Bridge
pub mod Echo
pub mod Settings
pub mod Config
pub mod Scopes
pub mod RelayClient
pub mod Reconnect
pub mod Wiring
pub mod Ending
