-- ===== src/Worker.antt =====
-- crates/worker: the service that owns one browser and its pool of contexts.
pub mod Context
pub mod Pool
pub mod PageLoad
pub mod Diagnostics
pub mod Outcome
pub mod Attempt
pub mod Acquisition
pub mod Handler
pub mod ThirdParty
pub mod Tests
pub mod LaunchArgs
pub mod PageActivity
pub mod WaitBudget
pub mod WaitStrategy
pub mod Documents
pub mod Shutdown
pub mod WaitPhase
pub mod PageTests
pub mod HandlerTests
pub mod WaitTests
