-- ===== src/Coordinator.antt =====
-- The coordinator (crates/coordinator): routing of requests to the worker pods.
pub mod InFlight
pub mod Routing
pub mod Retry
pub mod Session
pub mod Route
pub mod Respond
pub mod Discovery
pub mod Metrics
pub mod Tests
pub mod SessionTests
pub mod DiscoveryTests
