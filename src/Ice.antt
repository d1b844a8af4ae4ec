-- ===== src/Ice.antt =====
-- The choice of ICE servers by address family: zakuro/src/ice_server.rs.
pub mod Ops
pub mod Literal
