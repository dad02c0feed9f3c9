-- ===== src/Application.antt =====
-- application/: what stands between controllers and the kernel.
pub mod Reasons
pub mod Contracts
pub mod Observations
pub mod Perception
pub mod Claims
pub mod Session
pub mod Turns
