-- ===== src/Controller.antt =====
-- internal/controller: the diagnostics, the metrics and the reconcilers.
pub mod Metrics
pub mod Emitter
pub mod Sources
pub mod Retirement
pub mod Watches
