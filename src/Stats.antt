-- ===== src/Stats.antt =====
-- The statistics of a run: zakuro-core/src/stats.rs.
pub mod Float
pub mod Types
pub mod Ops
pub mod Count
pub mod Tally
pub mod Percentile
