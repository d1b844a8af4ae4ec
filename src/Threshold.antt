-- ===== src/Threshold.antt =====
-- The pass or fail verdict on a run: zakuro/src/threshold.rs.
pub mod Ops
pub mod Verdict
