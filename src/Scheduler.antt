-- ===== src/Scheduler.antt =====
-- internal/scheduler.
pub mod Diff
pub mod State
pub mod Loop
pub mod Race
