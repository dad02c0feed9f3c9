-- ===== src/Core.antt =====
-- core/: the deterministic, domain-neutral simulation engine.
pub mod Ids
pub mod Rng
pub mod Run
pub mod Scheduler
pub mod Events
pub mod Handlers
pub mod Modules
pub mod Kernel
pub mod Replay
pub mod Entities
pub mod Actions
pub mod Observations
pub mod Controller
