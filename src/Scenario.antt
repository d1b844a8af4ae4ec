-- ===== src/Scenario.antt =====
-- Scenarios: zakuro/src/scenario.rs.
pub mod Types
pub mod Ops
pub mod Inside
pub mod Reconnect
