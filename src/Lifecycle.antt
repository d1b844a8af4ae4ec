-- ===== src/Lifecycle.antt =====
-- One connection of a virtual client: zakuro/src/connection_lifecycle.rs.
-- Types holds its data, Ops its methods; the other modules prove.
pub mod Types
pub mod Ops
pub mod History
pub mod First
pub mod Judge
pub mod Stall
