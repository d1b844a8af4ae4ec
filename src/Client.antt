-- ===== src/Client.antt =====
-- The connection loop of a virtual client: zakuro/src/virtual_client.rs.
pub mod Ops
pub mod Retry
pub mod Once
pub mod Gauge
pub mod Contract
