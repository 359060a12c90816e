-- ===== src/Metrics.antt =====
-- internal/metrics.
pub mod Vec
pub mod Series
pub mod Exporter
pub mod Info
pub mod Observe
pub mod Phases
pub mod Delete
pub mod Register
