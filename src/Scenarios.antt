-- ===== src/Scenarios.antt =====
-- scenarios/: the scenario of Alderwick.
pub mod Bridge
pub mod Acquired
