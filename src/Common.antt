-- ===== src/Common.antt =====
-- crates/common: the types, the configuration and the rules that both services share.
pub mod Lifecycle
pub mod Metadata
pub mod Config
pub mod Url
pub mod Proxy
pub mod BlockedTypes
pub mod Challenge
pub mod Endpoint
pub mod Tests
pub mod ProtocolTests
