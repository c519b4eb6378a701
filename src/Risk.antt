-- ===== src/Risk.antt =====
-- frontend/services/risk.js, the risk engine: measurements of a student's weeks, five signals
-- against thresholds, and the level that counts the signals on.
pub mod Types
pub mod Measure
pub mod Signals
pub mod Evaluate
