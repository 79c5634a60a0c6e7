-- ===== src/FareEngine.antt =====
-- crates/fare-engine: deterministic fare evaluation.
pub mod Policy
pub mod Transfer
pub mod Cap
pub mod Product
pub mod Evaluation
pub mod Offline
mod Examples
