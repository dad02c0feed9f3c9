-- ===== src/Modules.antt =====
-- modules/: the domain modules, whose handlers the kernel runs.
pub mod Rows
pub mod Inventory
pub mod Survival
pub mod Trade
pub mod Movement
pub mod Knowledge
pub mod Social
pub mod Perceptions
