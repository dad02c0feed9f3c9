-- ===== src/Tests.antt =====
-- Runs of the development at concrete inputs.
mod Fixtures
mod Data
mod Domain
mod Kernel
mod Society
mod Game
mod Bridge
