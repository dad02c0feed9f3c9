-- ===== src/Core/Kernel.antt =====
-- core/kernel.py: the kernel's state, its commits, the loop over due events, and actor actions.
pub mod State
pub mod Commit
pub mod Advance
pub mod Submit
pub mod Log
pub mod Atomic
pub mod Invariant
pub mod Dispatch
pub mod Step
pub mod Follows
pub mod Loop
pub mod Time
pub mod Actions
pub mod Completion
pub mod Lifecycle
pub mod Status
